-- ===== src/Hash/Chained/Calls.antt =====
-- `ht_get`, `ht_insert` and `ht_delete` on a valid table.
use dsa_guide.Prelude.{
  ℕ, ◌+◌, ◌-◌, ◌%◌, ◌^◌, ◌<◌, ◌≡◌, inl, inr, refl, sym, ap, ap₂, ◌∙◌, Bool, true, false, Option,
  none, some, List, [], ◌∷◌, ℤ, ◌==ℤ◌, eq_of_==ℤ, ◌==◌, Bool-cases, if◌then◌else◌, is_some,
  ℕ_discrete, Run, ok, ◌>>=◌, load, load-ok, store-ok, set, Returns, returns, Returns-bind,
  Returns-map, Returns-if, subst, arith,
}
use dsa_guide.Hash.Chained.{
  HashTable, hash_int, insert_at, delete_at, chain_get, ht_insert, ht_get, ht_delete,
}
use dsa_guide.Hash.Chained.Chain.{Changed, chain_update-Changed, chain_delete-Changed}
use dsa_guide.Hash.Chained.Table.{
  Buckets, slot, bucket, IsTable, lookup, slot-lt, hash_int-slot, IsTable-set, lookup-set,
  pushed-IsTable, lookup-pushed,
}
use dsa_guide.Hash.Chained.Resize.{IsValid, ht_resize-Resized}

abbrev finds : HashTable → ℤ → Option ℤ
finds ht q = lookup ht.capacity ht.buckets q

-- The bucket and the chain that each call starts from.
reach :
    (ht : HashTable) (key : ℤ)
    → IsValid ht
    → {A : Type 0} → (rest : ℕ → List (ℤ × ℤ) → Run A)
    → (hash_int key ht.capacity >>= λ idx. load ht.buckets idx >>= λ chain. rest idx chain)
      ≡ rest (slot ht.capacity key) (bucket ht.buckets (slot ht.capacity key))
reach ht key valid rest =
    rw
      (
        hash_int-slot ht.capacity key valid.positive,
        load-ok ht.buckets (slot ht.capacity key) []
            (omega (arith, slot-lt ht.capacity key valid.positive, valid.sized)),
      )
      refl

ht_get-finds : (ht : HashTable) (q : ℤ) → IsValid ht → ht_get ht q ≡ ok (finds ht q)
unfolding ht_get
ht_get-finds ht q valid = reach ht q valid (λ idx chain. ok (chain_get chain q))

-- The bucket of a key gets a chain in which only that key is changed.
lookup-Changed :
    (cap : ℕ) (bs : Buckets) (key : ℤ) (new : Option ℤ) (r : Option (List (ℤ × ℤ)))
    → IsTable cap bs
    → (changed : Changed cap (slot cap key) (bucket bs (slot cap key)) key new r) → (q : ℤ)
    → lookup cap (set bs (slot cap key) changed.chain) q
      ≡ (if key ==ℤ q then new else lookup cap bs q)
lookup-Changed cap bs key new r t changed q =
    let at = lookup-set cap bs t (slot cap key) (slot-lt cap key t.positive) changed.chain q in
    elim (ℕ_discrete (slot cap key) (slot cap q)) [
      | yes s ↦
          let same : (slot cap key == slot cap q) ≡ true = ground (arith, s) in
          at
          ∙ rw same
              (changed.lookup q ∙ ap (λ j. if key ==ℤ q then new else chain_get (bucket bs j) q) s)
      | no s ↦
          let apart : (slot cap key == slot cap q) ≡ false = ground (arith, s) in
          let other : (key ==ℤ q) ≡ false = elim (Bool-cases (key ==ℤ q)) [
            | inl e ↦ absurd (s (ap (slot cap) (eq_of_==ℤ key q e)))
            | inr e ↦ e
          ] in
          at ∙ rw (apart, other) refl
    ]

-- A table with the keys and values of another, and the same size.
record Same (ht r : HashTable) : Type 0 where
  pub valid : IsValid r
  pub same : (q : ℤ) → finds r q ≡ finds ht q
  pub size : r.size ≡ ht.size

abbrev size_with : HashTable → ℤ → ℕ
size_with ht key = if is_some (finds ht key) then ht.size else (ht.size + 1) % 2 ^ 64

-- The answer of a call, and the table after it: the old one with a new value, or none, at the key.
record Put (old : HashTable) (key : ℤ) (new : Option ℤ) (answer : Bool) (size : ℕ)
    (r : Bool × HashTable) : Type 0 where
  pub answers : r.0 ≡ answer
  pub valid : IsValid r.1
  pub lookups : (q : ℤ) → finds r.1 q ≡ (if key ==ℤ q then new else finds old q)
  pub sized : r.1.size ≡ size

insert_at-Put :
    (ht : HashTable) (key val : ℤ)
    → IsValid ht
    → Returns
        (Put ht key (some val) true (size_with ht key))
        (insert_at ht key val (slot ht.capacity key) (bucket ht.buckets (slot ht.capacity key)))
unfolding insert_at
insert_at-Put ht key val valid =
    let h = slot-lt ht.capacity key valid.positive in
    let i = slot ht.capacity key in
    elim (chain_update-Changed ht.capacity i (bucket ht.buckets i) key val (valid.distinct i h)
      (valid.placed i h)) [
        | inl (none_found, absent) ↦
            rw
              (
                insert_at,
                none_found,
                store-ok ht.buckets i ((key, val) ∷ bucket ht.buckets i)
                    (omega (arith, h, valid.sized)),
              )
              (returns (record {
                answers = refl;
                valid = pushed-IsTable ht.capacity ht.buckets valid key val absent;
                lookups = lookup-pushed ht.capacity ht.buckets valid key val absent;
                sized = rw absent refl;
              }))
        | inr changed ↦
            rw
              (
                insert_at,
                changed.is,
                store-ok ht.buckets i changed.chain (omega (arith, h, valid.sized)),
              )
              (returns (record {
                answers = refl;
                valid =
                    IsTable-set ht.capacity ht.buckets valid i h changed.chain changed.distinct
                      changed.placed;
                lookups = lookup-Changed ht.capacity ht.buckets key (some val) _ valid changed;
                sized = rw changed.was refl;
              }))
      ]

-- The same for a table that a resize may have grown first.
Put-Same :
    (old ht : HashTable) (key : ℤ) (new : Option ℤ) (r : Bool × HashTable)
    → Same old ht
    → Put ht key new true (size_with ht key) r
    → Put old key new true (size_with old key) r
Put-Same old ht key new r kept put = record {
  answers = put.answers;
  valid = put.valid;
  lookups = λ q. put.lookups q ∙ ap (λ o. if key ==ℤ q then new else o) (kept.same q);
  sized =
      put.sized ∙ ap₂ (λ o n. if is_some o then n else (n + 1) % 2 ^ 64) (kept.same key) kept.size;
}

ht_insert-Put :
    (over_loaded : ℕ → ℕ → Bool) (old : HashTable) (key val : ℤ)
    → IsValid old
    → old.capacity < 2 ^ 63
    → Returns (Put old key (some val) true (size_with old key)) (ht_insert over_loaded old key val)
unfolding ht_insert
ht_insert-Put over_loaded old key val valid bounded =
    Returns-bind {Post = Same old}
      (Returns-if (over_loaded old.size old.capacity)
        (λ over.
          Returns-map (ht_resize-Resized old valid bounded)
            λ r d. record { valid = d.valid; same = d.same; size = d.size })
        (λ under. returns (record { valid = valid; same = λ q. refl; size = refl })))
      λ ht kept.
        subst (Returns (Put old key (some val) true (size_with old key)))
          (sym (reach ht key kept.valid (insert_at ht key val)))
          (Returns-map (insert_at-Put ht key val kept.valid)
            λ r put. Put-Same old ht key (some val) r kept put)

-- `ht_get` after a call, from what the table then has.
ht_get-Put :
    (old : HashTable) (key : ℤ) (new : Option ℤ) (answer : Bool) (size : ℕ) (r : Bool × HashTable)
    (q : ℤ)
    → IsValid old
    → Put old key new answer size r
    → ht_get r.1 q ≡ (if key ==ℤ q then ok new else ht_get old q)
ht_get-Put old key new answer size r q valid put =
    ht_get-finds r.1 q put.valid
    ∙ ap ok (put.lookups q)
    ∙ rw (ht_get-finds old q valid) (choose (key ==ℤ q))
  where
    choose :
        (b : Bool) → ok (if b then new else finds old q) ≡ (if b then ok new else ok (finds old q))
    choose true = refl
    choose false = refl

-- The size for a key that is there, or absent.
abbrev pub size_if : Run (Option ℤ) → ℕ → ℕ → ℕ
size_if (ok o) there absent = if is_some o then there else absent
size_if _ there absent = absent

-- `ht_insert` on a valid table with fewer than 2^63 buckets answers true, whatever its load factor and
-- whether it grows or not; the table stays valid. Afterwards `ht_get` returns the new value under the
-- key, and under any other key what it returned before. The size grows by one if the key was absent.
pub ht_get-ht_insert :
    (over_loaded : ℕ → ℕ → Bool) (ht : HashTable) (key val q : ℤ)
    → IsValid ht
    → ht.capacity < 2 ^ 63
    → Returns
        (λ r.
          (r.0 ≡ true)
          × IsValid r.1
          × (ht_get r.1 q ≡ (if key ==ℤ q then ok (some val) else ht_get ht q))
          × (r.1.size ≡ size_if (ht_get ht key) ht.size ((ht.size + 1) % 2 ^ 64)))
        (ht_insert over_loaded ht key val)
ht_get-ht_insert over_loaded ht key val q valid bounded =
    Returns-map (ht_insert-Put over_loaded ht key val valid bounded) λ r put. (
      put.answers,
      put.valid,
      ht_get-Put ht key (some val) true (size_with ht key) r q valid put,
      rw (ht_get-finds ht key valid) put.sized,
    )

abbrev pub was_there : Run (Option ℤ) → Bool
was_there (ok o) = is_some o
was_there _ = false

abbrev size_without : HashTable → ℤ → ℕ
size_without ht key = if is_some (finds ht key) then (ht.size + 2 ^ 64 - 1) % 2 ^ 64 else ht.size

delete_at-Put :
    (ht : HashTable) (valid : IsValid ht) (key : ℤ)
    → Returns
        (Put ht key none (is_some (finds ht key)) (size_without ht key))
        (delete_at ht key (slot ht.capacity key) (bucket ht.buckets (slot ht.capacity key)))
unfolding delete_at
delete_at-Put ht valid key =
    let h = slot-lt ht.capacity key valid.positive in
    let i = slot ht.capacity key in
    elim (chain_delete-Changed ht.capacity i (bucket ht.buckets i) key (valid.distinct i h)
      (valid.placed i h)) [
        | inl (none_found, absent) ↦
            rw (delete_at, none_found)
              (returns (record {
                answers = rw absent refl;
                valid = valid;
                lookups = λ q. unchanged q absent;
                sized = rw absent refl;
              }))
        | inr changed ↦
            rw
              (
                delete_at,
                changed.is,
                store-ok ht.buckets i changed.chain (omega (arith, h, valid.sized)),
              )
              (returns (record {
                answers = rw changed.was refl;
                valid =
                    IsTable-set ht.capacity ht.buckets valid i h changed.chain changed.distinct
                      changed.placed;
                lookups = lookup-Changed ht.capacity ht.buckets key none _ valid changed;
                sized = rw changed.was refl;
              }))
      ]
  where
    unchanged :
        (q : ℤ) → finds ht key ≡ none → finds ht q ≡ (if key ==ℤ q then none else finds ht q)
    unchanged q absent = elim (Bool-cases (key ==ℤ q)) [
      | inl e ↦ rw e (ap (finds ht) (sym (eq_of_==ℤ key q e)) ∙ absent)
      | inr e ↦ rw e refl
    ]

ht_delete-Put :
    (ht : HashTable) (valid : IsValid ht) (key : ℤ)
    → Returns (Put ht key none (is_some (finds ht key)) (size_without ht key)) (ht_delete ht key)
unfolding ht_delete
ht_delete-Put ht valid key =
    subst (Returns (Put ht key none (is_some (finds ht key)) (size_without ht key)))
      (sym (reach ht key valid (delete_at ht key))) (delete_at-Put ht valid key)

-- `ht_delete` on a valid table answers whether the key was there; the table stays valid. Afterwards
-- `ht_get` does not find the key, and returns under any other key what it returned before. The size
-- shrinks by one if the key was there.
pub ht_get-ht_delete :
    (ht : HashTable) (key q : ℤ)
    → IsValid ht
    → Returns
        (λ r.
          (r.0 ≡ was_there (ht_get ht key))
          × IsValid r.1
          × (ht_get r.1 q ≡ (if key ==ℤ q then ok none else ht_get ht q))
          × (r.1.size ≡ size_if (ht_get ht key) ((ht.size + 2 ^ 64 - 1) % 2 ^ 64) ht.size))
        (ht_delete ht key)
ht_get-ht_delete ht key q valid = Returns-map (ht_delete-Put ht valid key) λ r put. (
  rw (ht_get-finds ht key valid) put.answers,
  put.valid,
  ht_get-Put ht key none (is_some (finds ht key)) (size_without ht key) r q valid put,
  rw (ht_get-finds ht key valid) put.sized,
)
