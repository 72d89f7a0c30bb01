-- ===== src/Hash/Chained/Resize.antt =====
-- `ht_resize` keeps every key with its value.
use dsa_guide.Prelude.{
  ℕ, zero, suc, ◌+◌, ◌*◌, ◌%◌, ◌^◌, ◌<◌, ◌≤◌, ◌≡◌, refl, sym, ap, ◌∙◌, true, false, Option, none,
  some, List, [], ◌∷◌, ℤ, if◌then◌else◌, ltb, ℕ_discrete, load-ok, replicate, length-replicate,
  Returns, returns, Returns-bind, subst, arith,
}
use dsa_guide.Hash.Chained.{HashTable, ht_create, resize_loop, ht_resize, chain_get}
use dsa_guide.Hash.Chained.Chain.{Distinct, InBucket, chain_get-InBucket}
use dsa_guide.Hash.Chained.Table.{
  Buckets, slot, bucket, IsTable, lookup, slot-lt, first_some, Fresh, Moved, resize_chain-Moved,
}

abbrev pub IsValid : HashTable → Type 0
IsValid ht = IsTable ht.capacity ht.buckets

bucket-replicate : (n i : ℕ) → bucket (replicate n []) i ≡ []
bucket-replicate zero i = refl
bucket-replicate (suc n) zero = refl
bucket-replicate (suc n) (suc i) = bucket-replicate n i

-- Buckets that are all null.
IsTable-empty : (cap : ℕ) → 1 ≤ cap → IsTable cap (replicate cap [])
IsTable-empty cap h = record {
  sized = length-replicate cap [];
  positive = h;
  distinct = λ i l. subst Distinct (sym (bucket-replicate cap i)) tt;
  placed = λ i l. subst (InBucket cap i) (sym (bucket-replicate cap i)) tt;
}

lookup-empty : (cap : ℕ) (q : ℤ) → lookup cap (replicate cap []) q ≡ none
unfolding chain_get
lookup-empty cap q = ap (λ c. chain_get c q) (bucket-replicate cap (slot cap q))

-- `ht_create` returns a valid table that has no key, if it is given at least one bucket.
pub ht_create-IsValid :
    (cap : ℕ)
    → 1 ≤ cap
    → IsValid (ht_create cap) × ((q : ℤ) → lookup cap (ht_create cap).buckets q ≡ none)
unfolding ht_create
ht_create-IsValid cap h = (IsTable-empty cap h, lookup-empty cap)

module _ (ht : HashTable) (valid : IsValid ht) (new_cap : ℕ) where
  abbrev before : ℤ → Option ℤ
  before q = lookup ht.capacity ht.buckets q

  abbrev at : ℤ → ℕ
  at q = slot ht.capacity q

  -- The new buckets have what the first `i` old ones have.
  record MovedUpTo (i : ℕ) (bs : Buckets) : Type 0 where
    pub table : IsTable new_cap bs
    pub finds : (q : ℤ) → lookup new_cap bs q ≡ (if ltb (at q) i then before q else none)

  Fresh-MovedUpTo :
      (i : ℕ) (bs : Buckets) (c : List (ℤ × ℤ))
      → MovedUpTo i bs
      → InBucket ht.capacity i c
      → Fresh new_cap c bs
  Fresh-MovedUpTo i bs [] m p = tt
  Fresh-MovedUpTo i bs ((k, v) ∷ c) m (here, p) =
      (m.finds k ∙ ground (arith, here), Fresh-MovedUpTo i bs c m p)

  first_some-none : (o : Option ℤ) → first_some o none ≡ o
  first_some-none none = refl
  first_some-none (some a) = refl

  MovedUpTo-next :
      (i : ℕ) (bs r : Buckets)
      → i < ht.capacity
      → MovedUpTo i bs
      → Moved new_cap (bucket ht.buckets i) bs r
      → MovedUpTo (i + 1) r
  MovedUpTo-next i bs r h m moved = record {
    table = moved.table;
    finds = λ q.
        moved.finds q
        ∙ ap (first_some (chain_get (bucket ht.buckets i) q)) (m.finds q)
        ∙ (elim (ℕ_discrete (at q) i) [
          | yes e ↦
              let test : ltb (at q) i ≡ false = ground (arith, e) in
              let test' : ltb (at q) (i + 1) ≡ true = ground (arith, e) in
              rw (test, test')
                (first_some-none (chain_get (bucket ht.buckets i) q)
                  ∙ ap (λ j. chain_get (bucket ht.buckets j) q) (sym e))
          | no ne ↦
              let test : ltb (at q) (i + 1) ≡ ltb (at q) i = ground (arith, ne) in
              rw
                (
                  test,
                  chain_get-InBucket ht.capacity i (bucket ht.buckets i) q (valid.placed i h) ne,
                )
                refl
        ]);
  }

  resize_loop-MovedUpTo :
      (n i : ℕ) (bs : Buckets)
      → i + n ≡ ht.capacity
      → MovedUpTo i bs
      → Returns (MovedUpTo ht.capacity) (resize_loop n i ht new_cap bs)
  unfolding resize_loop
  resize_loop-MovedUpTo zero i bs e m = returns (subst (λ j. MovedUpTo j bs) (omega (arith, e)) m)
  resize_loop-MovedUpTo (suc n) i bs e m =
      let h : i < ht.capacity = omega arith in
      rw (load-ok ht.buckets i [] (omega (arith, valid.sized))) (
        Returns-bind
          (resize_chain-Moved new_cap (bucket ht.buckets i) bs m.table (valid.distinct i h)
            (Fresh-MovedUpTo i bs (bucket ht.buckets i) m (valid.placed i h)))
          λ r moved.
            resize_loop-MovedUpTo n (i + 1) r (omega arith) (MovedUpTo-next i bs r h m moved))

-- A table with twice the buckets, the same keys and the same values.
pub record Resized (ht r : HashTable) : Type 0 where
  pub valid : IsValid r
  pub same : (q : ℤ) → lookup r.capacity r.buckets q ≡ lookup ht.capacity ht.buckets q
  pub size : r.size ≡ ht.size
  pub doubled : r.capacity ≡ ht.capacity * 2

-- `ht_resize` of a valid table with fewer than 2^63 buckets returns one with twice as many, the same
-- keys, each with its value, and the same size.
pub ht_resize-Resized :
    (ht : HashTable) → IsValid ht → ht.capacity < 2 ^ 63 → Returns (Resized ht) (ht_resize ht)
unfolding ht_resize
ht_resize-Resized ht valid h =
    let cap = ht.capacity * 2 % 2 ^ 64 in
    let doubled : cap ≡ ht.capacity * 2 = omega arith in
    Returns-bind
      (resize_loop-MovedUpTo ht valid cap ht.capacity 0 (replicate cap []) (omega arith) (record {
        table = IsTable-empty cap (omega (arith, valid.positive, doubled));
        finds = λ q. lookup-empty cap q ∙ ground arith;
      }))
      λ r moved. returns (record {
        valid = moved.table;
        same = λ q. moved.finds q ∙ ground (arith, slot-lt ht.capacity q valid.positive);
        size = refl;
        doubled = doubled;
      })
