-- ===== src/Hash/Open/Others.antt =====
-- What an insert leaves as it was: the walks for all other keys.
use dsa_guide.Prelude.{
  ℕ, zero, suc, ◌+◌, ◌<◌, ◌≤◌, ◌≡◌, ◌≢◌, ◌⊎◌, inl, inr, refl, sym, ap, ◌∙◌, Bool, true, false, not,
  ◌||◌, none, some, List, ℤ, pos, ◌==ℤ◌, eq_of_==ℤ, Bool-cases, dec_lt, ℕ_discrete, ok, load-ok,
  subst, arith,
}
use dsa_guide.Hash.Chained.Table.{slot, slot-lt, hash_int-slot}
use dsa_guide.Hash.Open.{OaHashTable, slot_at, find_loop, oaht_get}
use dsa_guide.Hash.Open.Probe
use dsa_guide.Hash.Open.Probe.{
  IsValid, used_at, deleted_at, key_at, val_at, Passes, Holds, Kind, stops, skips, passes, holds,
  slot-Kind, slot-injective, find_loop-past, find_loop-here, find_loop-stop, find_loop-skip,
  find_loop-none,
}

-- The walk for a key comes to each slot that holds it: no slot before was never used.
pub record IsReached (ht : OaHashTable) : Type 0 where
  pub no_gap :
      (key : ℤ) (d : ℕ)
      → d < ht.capacity
      → Holds ht key (slot_at ht (slot ht.capacity key) d)
      → (k : ℕ) → k < d
      → used_at ht (slot_at ht (slot ht.capacity key) k) ≡ true

-- The arrays after `key` was written to slot `j`, which was free or held the key.
pub record Wrote (ht : OaHashTable) (key : ℤ) (j : ℕ) (r : OaHashTable) : Type 0 where
  pub at : Holds r key j
  pub was : ((not (used_at ht j) || deleted_at ht j) ≡ true) ⊎ Holds ht key j
  pub used_eq : (s : ℕ) → j ≢ s → used_at r s ≡ used_at ht s
  pub deleted_eq : (s : ℕ) → j ≢ s → deleted_at r s ≡ deleted_at ht s
  pub key_eq : (s : ℕ) → j ≢ s → key_at r s ≡ key_at ht s
  pub val_eq : (s : ℕ) → j ≢ s → val_at r s ≡ val_at ht s

-- One slot has one key.
one_key :
    (ht : OaHashTable) (a b : ℤ) (j : ℕ)
    → (key_at ht j ==ℤ a) ≡ true
    → (key_at ht j ==ℤ b) ≡ true
    → a ≡ b
one_key ht a b j p q = sym (eq_of_==ℤ (key_at ht j) a p) ∙ eq_of_==ℤ (key_at ht j) b q

not_here :
    (ht : OaHashTable) (a b : ℤ) (j : ℕ)
    → a ≢ b
    → (key_at ht j ==ℤ a) ≡ true
    → (key_at ht j ==ℤ b) ≡ false
not_here ht a b j ne p = elim (Bool-cases (key_at ht j ==ℤ b)) [
  | inl q ↦ absurd (ne (one_key ht a b j p q))
  | inr q ↦ q
]

not_free : (a b : Bool) → a ≡ true → b ≡ false → ¬ ((not a || b) ≡ true)
not_free a b p q e = ground (arith, p, q, e)

module _ (ht : OaHashTable) (valid : IsValid ht) (reached : IsReached ht) (key : ℤ) (i : ℕ)
    (inside : i < ht.capacity) (keys vals : List ℤ) (used deleted : List Bool) (size : ℕ) where
  abbrev r : OaHashTable
  r = record {
    keys = keys;
    vals = vals;
    used = used;
    deleted = deleted;
    capacity = ht.capacity;
    size = size;
  }

  abbrev j : ℕ
  j = slot_at ht (slot ht.capacity key) i

  module _ (valid_r : IsValid r) (w : Wrote ht key j r)
      (past : (k : ℕ) → k < i → Passes ht key (slot_at ht (slot ht.capacity key) k)) where
    used_before : (s : ℕ) → used_at ht s ≡ true → used_at r s ≡ true
    used_before s e = elim (ℕ_discrete j s) [
      | yes q ↦ subst (λ t. used_at r t ≡ true) q w.at.in_use
      | no ne ↦ w.used_eq s ne ∙ e
    ]

    held_before : (other : ℤ) (s : ℕ) → j ≢ s → Holds r other s → Holds ht other s
    held_before other s ne p = record {
      in_use = sym (w.used_eq s ne) ∙ p.in_use;
      kept = sym (w.deleted_eq s ne) ∙ p.kept;
      here = ap (λ k. k ==ℤ other) (sym (w.key_eq s ne)) ∙ p.here;
    }

    same_step : (d : ℕ) → d < ht.capacity → j ≡ slot_at ht (slot ht.capacity key) d → i ≡ d
    same_step d h e = elim (ℕ_discrete i d) [
      | yes q ↦ q
      | no ne ↦ elim (dec_lt i d) [
        | yes l ↦ absurd (
            slot-injective ht (slot ht.capacity key) i d valid
              (slot-lt ht.capacity key valid.positive) l h e)
        | no l ↦ absurd (
            slot-injective ht (slot ht.capacity key) d i valid
              (slot-lt ht.capacity key valid.positive) (omega (arith, ne, l)) inside (sym e))
      ]
    ]

    pub keep-IsReached : IsReached r
    keep-IsReached = record {
      no_gap = λ other d h p k before. elim (ℕ_discrete j (slot_at ht (slot ht.capacity other) d)) [
        | yes q ↦
            let same : key ≡ other =
              one_key r key other j w.at.here
                (subst (λ x. (key_at r x ==ℤ other) ≡ true) (sym q) p.here) in
            let step : i ≡ d =
              same_step d h (subst (λ o. j ≡ slot_at ht (slot ht.capacity o) d) (sym same) q) in
            subst (λ o. used_at r (slot_at ht (slot ht.capacity o) k) ≡ true) same
              (used_before _ (past k (omega (arith, step, before))).in_use)
        | no ne ↦ used_before _ (reached.no_gap other d h (held_before other _ ne p) k before)
      ];
    }

    module _ (other : ℤ) (ne_key : key ≢ other) where
      abbrev idx : ℕ
      idx = slot ht.capacity other

      passed : Passes r other j
      passed = record {
        in_use = w.at.in_use;
        kept = w.at.kept;
        other = not_here r key other j ne_key w.at.here;
      }

      -- What the two walks for the other key find.
      abbrev Agree : ℕ → ℕ → Type 0
      Agree n t =
          ((find_loop n t idx r other ≡ ok none) × (find_loop n t idx ht other ≡ ok none))
          ⊎ ((s : ℕ) × (find_loop n t idx r other ≡ ok (some s))
              × (find_loop n t idx ht other ≡ ok (some s))
              × (j ≢ s)
              × (s < ht.capacity))

      -- Both walks pass a slot.
      further :
          (n t : ℕ)
          → find_loop (suc n) t idx r other ≡ find_loop n (t + 1) idx r other
          → find_loop (suc n) t idx ht other ≡ find_loop n (t + 1) idx ht other
          → Agree n (t + 1)
          → Agree (suc n) t
      further n t a b (inl (p, q)) = inl (a ∙ p, b ∙ q)
      further n t a b (inr (s, p, q, ne, h)) = inr (s, a ∙ p, b ∙ q, ne, h)

      -- Behind a slot that was never used, no slot holds the other key.
      absent :
          (t d : ℕ)
          → t + 1 ≤ d
          → d < ht.capacity
          → used_at ht (slot_at ht idx t) ≡ false
          → ¬ Holds r other (slot_at ht idx d)
      absent t d a b u p = elim (ℕ_discrete j (slot_at ht idx d)) [
        | yes q ↦ ne_key (
            one_key r key other j w.at.here
              (subst (λ x. (key_at r x ==ℤ other) ≡ true) (sym q) p.here))
        | no ne ↦ cc (reached.no_gap other d b (held_before other _ ne p) t (omega (arith, a)), u)
      ]

      agree : (n t : ℕ) → t + n ≡ ht.capacity → Agree n t
      unfolding find_loop
      agree zero t e = inl (refl, refl)
      agree (suc n) t e =
          let s = slot_at ht idx t in
          let on = agree n (t + 1) (omega (arith, e)) in
          elim (ℕ_discrete j s) [
            | yes q ↦
                let past_r =
                  find_loop-past r other valid_r idx n t (subst (Passes r other) q passed) in
                elim w.was [
                  | inr k ↦
                      further n t past_r
                        (find_loop-past ht other valid idx n t (
                          subst (Passes ht other) q (record {
                            in_use = k.in_use;
                            kept = k.kept;
                            other = not_here ht key other j ne_key k.here;
                          })))
                        on
                  | inl free ↦ elim (slot-Kind ht other s) [
                    | stops u ↦ inl (
                      past_r
                          ∙ find_loop-none r other valid_r idx n (t + 1)
                              (λ d a b p. absent t d a (omega (arith, b, e)) u p),
                      find_loop-stop ht other valid idx n t u,
                    )
                    | skips u d ↦ further n t past_r (find_loop-skip ht other valid idx n t u d) on
                    | passes p ↦ further n t past_r (find_loop-past ht other valid idx n t p) on
                    | holds p ↦ absurd (
                        not_free (used_at ht s) (deleted_at ht s) p.in_use p.kept
                          (subst (λ x. (not (used_at ht x) || deleted_at ht x) ≡ true) q free))
                  ]
                ]
            | no ne ↦ elim (slot-Kind ht other s) [
              | stops u ↦ inl (
                find_loop-stop r other valid_r idx n t (w.used_eq s ne ∙ u),
                find_loop-stop ht other valid idx n t u,
              )
              | skips u d ↦
                  further n t
                    (find_loop-skip r other valid_r idx n t (w.used_eq s ne ∙ u)
                      (w.deleted_eq s ne ∙ d))
                    (find_loop-skip ht other valid idx n t u d) on
              | passes p ↦
                  further n t
                    (find_loop-past r other valid_r idx n t (record {
                      in_use = w.used_eq s ne ∙ p.in_use;
                      kept = w.deleted_eq s ne ∙ p.kept;
                      other = ap (λ k. k ==ℤ other) (w.key_eq s ne) ∙ p.other;
                    }))
                    (find_loop-past ht other valid idx n t p) on
              | holds p ↦ inr (
                s,
                find_loop-here r other valid_r idx n t (record {
                  in_use = w.used_eq s ne ∙ p.in_use;
                  kept = w.deleted_eq s ne ∙ p.kept;
                  here = ap (λ k. k ==ℤ other) (w.key_eq s ne) ∙ p.here;
                }),
                find_loop-here ht other valid idx n t p,
                ne,
                Probe.slot-lt ht idx t valid,
              )
            ]
          ]

    pub keep_get : (other : ℤ) → key ≢ other → oaht_get r other ≡ oaht_get ht other
    unfolding oaht_get
    keep_get other ne_key =
        rw (hash_int-slot ht.capacity other valid.positive)
          (elim (agree other ne_key ht.capacity 0 (omega arith)) [
            | inl (p, q) ↦ rw (p, q) refl
            | inr (s, p, q, ne, h) ↦
                rw
                  (
                    p,
                    q,
                    load-ok vals s (pos 0) (omega (arith, h, valid_r.vals_fit)),
                    load-ok ht.vals s (pos 0) (omega (arith, h, valid.vals_fit)),
                  )
                  (ap (λ v. ok (some v)) (w.val_eq s ne))
          ])
