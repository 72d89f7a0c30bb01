-- ===== src/Hash/Open/Insert.antt =====
-- `oaht_insert`, and `oaht_get` after it.
use dsa_guide.Prelude.{
  ℕ, zero, suc, ◌+◌, ◌%◌, ◌^◌, ◌<◌, ◌≡◌, ◌≢◌, ◌⊎◌, inl, inr, refl, sym, ap, ◌∙◌, Bool, true, false,
  not, ◌||◌, some, ℤ, pos, ◌==ℤ◌, ==ℤ_refl, Bool-cases, dec_lt, if◌then◌else◌, ok, load-ok,
  store-ok, length-set, set, get_or-set_self, get_or-set_ne, subst, Returns, returns, Returns-map,
  arith,
}
use dsa_guide.Hash.Chained.Table.{slot, slot-lt, hash_int-slot}
use dsa_guide.Hash.Open.{
  OaHashTable, slot_at, put_entry, put_value, insert_loop, oaht_insert, oaht_get,
}
use dsa_guide.Hash.Open.Probe
use dsa_guide.Hash.Open.Others.{IsReached, Wrote, keep-IsReached, keep_get}
use dsa_guide.Hash.Open.Probe.{
  IsValid, used_at, deleted_at, key_at, val_at, Passes, Holds, slot-injective, slot-onto,
  find_loop-first,
}

-- The table after a new entry, and after a new value.
abbrev with_entry : OaHashTable → ℕ → ℤ → ℤ → OaHashTable
with_entry ht j key val = record {
  keys = set ht.keys j key;
  vals = set ht.vals j val;
  used = set ht.used j true;
  deleted = set ht.deleted j false;
  capacity = ht.capacity;
  size = (ht.size + 1) % 2 ^ 64;
}

abbrev with_value : OaHashTable → ℕ → ℤ → OaHashTable
with_value ht j val = record ht { vals = set ht.vals j val }

module _ (ht : OaHashTable) (valid : IsValid ht) (key val : ℤ) (j : ℕ) (q : j < ht.capacity) where
  put_entry-with_entry : put_entry ht j key val ≡ ok (true, with_entry ht j key val)
  unfolding put_entry
  put_entry-with_entry =
      rw
        (
          store-ok ht.keys j key (omega (arith, valid.keys_fit)),
          store-ok ht.vals j val (omega (arith, valid.vals_fit)),
          store-ok ht.used j true (omega (arith, valid.used_fit)),
          store-ok ht.deleted j false (omega (arith, valid.deleted_fit)),
        )
        refl

  put_value-with_value : put_value ht j val ≡ ok (true, with_value ht j val)
  unfolding put_value
  put_value-with_value = rw (store-ok ht.vals j val (omega (arith, valid.vals_fit))) refl

  with_entry-IsValid : IsValid (with_entry ht j key val)
  with_entry-IsValid = record {
    keys_fit = length-set ht.keys j key ∙ valid.keys_fit;
    vals_fit = length-set ht.vals j val ∙ valid.vals_fit;
    used_fit = length-set ht.used j true ∙ valid.used_fit;
    deleted_fit = length-set ht.deleted j false ∙ valid.deleted_fit;
    positive = valid.positive;
    small = valid.small;
  }

  with_value-IsValid : IsValid (with_value ht j val)
  with_value-IsValid = record {
    keys_fit = valid.keys_fit;
    vals_fit = length-set ht.vals j val ∙ valid.vals_fit;
    used_fit = valid.used_fit;
    deleted_fit = valid.deleted_fit;
    positive = valid.positive;
    small = valid.small;
  }

  with_entry-Holds : Holds (with_entry ht j key val) key j
  with_entry-Holds = record {
    in_use = get_or-set_self ht.used j true false (omega (arith, valid.used_fit));
    kept = get_or-set_self ht.deleted j false false (omega (arith, valid.deleted_fit));
    here =
        ap (λ k. k ==ℤ key) (get_or-set_self ht.keys j key (pos 0) (omega (arith, valid.keys_fit)))
        ∙ ==ℤ_refl key;
  }

  with_entry-Passes : (i : ℕ) → j ≢ i → Passes ht key i → Passes (with_entry ht j key val) key i
  with_entry-Passes i ne p = record {
    in_use = get_or-set_ne ht.used j i true false ne ∙ p.in_use;
    kept = get_or-set_ne ht.deleted j i false false ne ∙ p.kept;
    other = ap (λ k. k ==ℤ key) (get_or-set_ne ht.keys j i key (pos 0) ne) ∙ p.other;
  }

module _ (ht : OaHashTable) (valid : IsValid ht) (key val : ℤ) (j : ℕ) (q : j < ht.capacity) where
  with_entry-Wrote :
      (not (used_at ht j) || deleted_at ht j) ≡ true → Wrote ht key j (with_entry ht j key val)
  with_entry-Wrote free = record {
    at = with_entry-Holds ht valid key val j q;
    was = inl free;
    used_eq = λ s ne. get_or-set_ne ht.used j s true false ne;
    deleted_eq = λ s ne. get_or-set_ne ht.deleted j s false false ne;
    key_eq = λ s ne. get_or-set_ne ht.keys j s key (pos 0) ne;
    val_eq = λ s ne. get_or-set_ne ht.vals j s val (pos 0) ne;
  }

  with_value-Wrote : Holds ht key j → Wrote ht key j (with_value ht j val)
  with_value-Wrote p = record {
    at = record { in_use = p.in_use; kept = p.kept; here = p.here };
    was = inr p;
    used_eq = λ s ne. refl;
    deleted_eq = λ s ne. refl;
    key_eq = λ s ne. refl;
    val_eq = λ s ne. get_or-set_ne ht.vals j s val (pos 0) ne;
  }

-- The key with its value stands in the slot that the walk for it comes to.
record Stored (key val : ℤ) (idx : ℕ) (r : OaHashTable) : Type 0 where
  pub valid : IsValid r
  pub steps : ℕ
  pub in_table : steps < r.capacity
  pub past : (k : ℕ) → k < steps → Passes r key (slot_at r idx k)
  pub at : Holds r key (slot_at r idx steps)
  pub value : val_at r (slot_at r idx steps) ≡ val

-- What `oaht_insert` returns: false with the table as it was, or true with the key stored.
abbrev Inserted : OaHashTable → ℤ → ℤ → ℕ → Bool × OaHashTable → Type 0
Inserted ht key val idx r =
    ((r.0 ≡ false) × (r.1 ≡ ht) × ((k : ℕ) → k < ht.capacity → Passes ht key (slot_at ht idx k)))
    ⊎ ((r.0 ≡ true)
        × (r.1.capacity ≡ ht.capacity)
        × Stored key val idx r.1
        × IsReached r.1
        × ((other : ℤ) → key ≢ other → oaht_get r.1 other ≡ oaht_get ht other))

module _ (ht : OaHashTable) (valid : IsValid ht) (reached : IsReached ht) (key val : ℤ) where
  abbrev idx : ℕ
  idx = slot ht.capacity key

  h : idx < ht.capacity
  h = slot-lt ht.capacity key valid.positive

  -- What a slot holds.
  kinds :
      (j : ℕ)
      → ((not (used_at ht j) || deleted_at ht j) ≡ true)
        ⊎ (((not (used_at ht j) || deleted_at ht j) ≡ false) × (Passes ht key j ⊎ Holds ht key j))
  kinds j = elim (Bool-cases (not (used_at ht j) || deleted_at ht j)) [
    | inl e ↦ inl e
    | inr e ↦ inr (
      e,
      elim (Bool-cases (key_at ht j ==ℤ key)) [
        | inl d ↦ inr (record {
          in_use = used (used_at ht j) (deleted_at ht j) e;
          kept = kept (used_at ht j) (deleted_at ht j) e;
          here = d;
        })
        | inr d ↦ inl (record {
          in_use = used (used_at ht j) (deleted_at ht j) e;
          kept = kept (used_at ht j) (deleted_at ht j) e;
          other = d;
        })
      ],
    )
  ]
    where
      used : (a b : Bool) → (not a || b) ≡ false → a ≡ true
      used true b e = refl
      used false b e = absurd (ground (arith, e))

      kept : (a b : Bool) → (not a || b) ≡ false → b ≡ false
      kept true b e = e
      kept false b e = absurd (ground (arith, e))

  insert_loop-Inserted :
      (n i : ℕ)
      → i + n ≡ ht.capacity
      → ((k : ℕ) → k < i → Passes ht key (slot_at ht idx k))
      → Returns (Inserted ht key val idx) (insert_loop n i idx ht key val)
  unfolding insert_loop
  insert_loop-Inserted zero i e past =
      returns (inl (refl, refl, λ k l. past k (omega (arith, e, l))))
  insert_loop-Inserted (suc n) i e past =
      let j = slot_at ht idx i in
      let q = Probe.slot-lt ht idx i valid in
      let apart : (k : ℕ) → k < i → j ≢ slot_at ht idx k =
        λ k l same. slot-injective ht idx k i valid h l (omega arith) (sym same) in
      rw
        (
          load-ok ht.used j false (omega (arith, q, valid.used_fit)),
          load-ok ht.deleted j false (omega (arith, q, valid.deleted_fit)),
          load-ok ht.keys j (pos 0) (omega (arith, q, valid.keys_fit)),
        )
        (elim (kinds j) [
          | inl free ↦
              rw (free, put_entry-with_entry ht valid key val j q)
                (returns (
                  inr (
                    refl,
                    refl,
                    record {
                      valid = with_entry-IsValid ht valid key val j q;
                      steps = i;
                      in_table = omega arith;
                      past = λ k l.
                          with_entry-Passes ht valid key val j q (slot_at ht idx k) (apart k l)
                            (past k l);
                      at = with_entry-Holds ht valid key val j q;
                      value =
                          get_or-set_self ht.vals j val (pos 0) (omega (arith, q, valid.vals_fit));
                    },
                    keep-IsReached ht valid reached key i (omega arith) _ _ _ _ _
                        (with_entry-IsValid ht valid key val j q)
                        (with_entry-Wrote ht valid key val j q free) past,
                    keep_get ht valid reached key i (omega arith) _ _ _ _ _
                        (with_entry-IsValid ht valid key val j q)
                        (with_entry-Wrote ht valid key val j q free) past,
                  )))
          | inr (taken, inl p) ↦
              rw (taken, p.other)
                (insert_loop-Inserted n (i + 1) (omega arith) λ k l. elim (dec_lt k i) [
                  | yes before ↦ past k before
                  | no last ↦
                      subst (λ t. Passes ht key (slot_at ht idx t)) {x = i} (ground (arith, last)) p
                ])
          | inr (taken, inr p) ↦
              rw (taken, p.here, put_value-with_value ht valid key val j q)
                (returns (
                  inr (
                    refl,
                    refl,
                    record {
                      valid = with_value-IsValid ht valid key val j q;
                      steps = i;
                      in_table = omega arith;
                      past = λ k l. record {
                        in_use = (past k l).in_use;
                        kept = (past k l).kept;
                        other = (past k l).other;
                      };
                      at = record { in_use = p.in_use; kept = p.kept; here = p.here };
                      value =
                          get_or-set_self ht.vals j val (pos 0) (omega (arith, q, valid.vals_fit));
                    },
                    keep-IsReached ht valid reached key i (omega arith) _ _ _ _ _
                        (with_value-IsValid ht valid key val j q)
                        (with_value-Wrote ht valid key val j q p) past,
                    keep_get ht valid reached key i (omega arith) _ _ _ _ _
                        (with_value-IsValid ht valid key val j q)
                        (with_value-Wrote ht valid key val j q p) past,
                  )))
        ])

oaht_get-Stored :
    (r : OaHashTable) (key val : ℤ)
    → Stored key val (slot r.capacity key) r
    → oaht_get r key ≡ ok (some val)
unfolding oaht_get
oaht_get-Stored r key val s =
    let idx = slot r.capacity key in
    let j = slot_at r idx s.steps in
    rw
      (
        hash_int-slot r.capacity key s.valid.positive,
        find_loop-first r key s.valid idx s.steps r.capacity s.in_table s.past s.at,
        load-ok r.vals j (pos 0)
            (omega (arith, Probe.slot-lt r idx s.steps s.valid, s.valid.vals_fit)),
      )
      (ap (λ v. ok (some v)) s.value)

-- `oaht_insert` on a valid table, in which no walk to an entry has a gap, returns, and the table stays
-- so, with its capacity. If it answers true, `oaht_get` of the key returns the new value. If it answers false,
-- each slot is in use, not deleted, and has another key, and `oaht_get` of the key returns what it returned
-- before. Either way `oaht_get` of any other key returns what it returned before.
pub oaht_get-oaht_insert :
    (ht : OaHashTable) (key val other : ℤ)
    → IsValid ht
    → IsReached ht
    → key ≢ other
    → Returns
        (λ r.
          IsValid r.1
          × IsReached r.1
          × (r.1.capacity ≡ ht.capacity)
          × (oaht_get r.1 key ≡ (if r.0 then ok (some val) else oaht_get ht key))
          × ((r.0 ≡ true) ⊎ ((j : ℕ) → j < ht.capacity → Passes ht key j))
          × (oaht_get r.1 other ≡ oaht_get ht other))
        (oaht_insert ht key val)
unfolding oaht_insert
oaht_get-oaht_insert ht key val other valid reached ne =
    let idx = slot ht.capacity key in
    rw (hash_int-slot ht.capacity key valid.positive) (
      Returns-map
        (insert_loop-Inserted ht valid reached key val ht.capacity 0 (omega arith)
          λ k l. absurd (omega arith))
        λ r inserted. elim inserted [
          | inl (refused, same, full) ↦ (
            subst IsValid (sym same) valid,
            subst IsReached (sym same) reached,
            ap (λ t. t.capacity) same,
            ap (λ t. oaht_get t key) same ∙ rw refused refl,
            inr (λ j h.
                let (k, inside, e) =
                  slot-onto ht idx j valid (slot-lt ht.capacity key valid.positive) h in
                subst (Passes ht key) e (full k inside)),
            ap (λ t. oaht_get t other) same,
          )
          | inr (stored, capacity, s, still, others) ↦ (
            s.valid,
            still,
            capacity,
            oaht_get-Stored r.1 key val
                  (subst (λ c. Stored key val (slot c key) r.1) (sym capacity) s)
                ∙ rw stored refl,
            inl stored,
            others other ne,
          )
        ])
