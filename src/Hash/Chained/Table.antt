-- ===== src/Hash/Chained/Table.antt =====
-- The buckets as a map from keys to values, and the move of a chain into new buckets.
use native.Mathlib.Nat.{mod-lt}
use dsa_guide.Prelude.{
  ℕ, ◌%◌, ◌<◌, ◌≤◌, ◌≡◌, inl, inr, refl, sym, ap, ◌∙◌, Bool, true, false, Option, none, some, List,
  [], ◌∷◌, ℤ, ◌==ℤ◌, eq_of_==ℤ, ◌==◌, Bool-cases, if◌then◌else◌, ℕ_discrete, ok, load-ok, store-ok,
  length, get_or, set, length-set, get_or-set, get_or-set_ne, Returns, returns, Returns-map, subst,
  arith,
}
use dsa_guide.Hash.Chained.{hash_word, hash_int, resize_chain, chain_get}
use dsa_guide.Hash.Chained.Chain.{Distinct, InBucket, chain_get-cons}

abbrev pub Buckets : Type 0
Buckets = List (List (ℤ × ℤ))

abbrev pub slot : ℕ → ℤ → ℕ
slot cap key = hash_word key % cap

abbrev pub bucket : Buckets → ℕ → List (ℤ × ℤ)
bucket bs i = get_or bs i []

-- Each key stands in one bucket, the one its hash chooses, and once.
pub record IsTable (cap : ℕ) (bs : Buckets) : Type 0 where
  pub sized : length bs ≡ cap
  pub positive : 1 ≤ cap
  pub distinct : (i : ℕ) → i < cap → Distinct (bucket bs i)
  pub placed : (i : ℕ) → i < cap → InBucket cap i (bucket bs i)

abbrev pub lookup : ℕ → Buckets → ℤ → Option ℤ
lookup cap bs key = chain_get (bucket bs (slot cap key)) key

pub slot-lt : (cap : ℕ) (key : ℤ) → 1 ≤ cap → slot cap key < cap
slot-lt cap key h = mod-lt (hash_word key) h

pub hash_int-slot : (cap : ℕ) (key : ℤ) → 1 ≤ cap → hash_int key cap ≡ ok (slot cap key)
unfolding hash_int
hash_int-slot cap key h = ground arith

-- A bucket gets another chain.
module _ (cap : ℕ) (bs : Buckets) (t : IsTable cap bs) (i : ℕ) (h : i < cap)
    (chain : List (ℤ × ℤ)) where
  bucket-set : (j : ℕ) → bucket (set bs i chain) j ≡ (if i == j then chain else bucket bs j)
  bucket-set j = get_or-set bs i j chain [] (omega (arith, t.sized))

  pub IsTable-set : Distinct chain → InBucket cap i chain → IsTable cap (set bs i chain)
  IsTable-set d p = record {
    sized = length-set bs i chain ∙ t.sized;
    positive = t.positive;
    distinct = λ j l. elim (ℕ_discrete i j) [
      | yes e ↦ subst Distinct (sym (bucket-set j ∙ ground (arith, e))) d
      | no ne ↦ subst Distinct (sym (get_or-set_ne bs i j chain [] ne)) (t.distinct j l)
    ];
    placed = λ j l. elim (ℕ_discrete i j) [
      | yes e ↦
          subst (InBucket cap j) (sym (bucket-set j ∙ ground (arith, e)))
            (subst (λ k. InBucket cap k chain) e p)
      | no ne ↦ subst (InBucket cap j) (sym (get_or-set_ne bs i j chain [] ne)) (t.placed j l)
    ];
  }

  pub lookup-set :
      (q : ℤ)
      → lookup cap (set bs i chain) q
        ≡ (if i == slot cap q then chain_get chain q else lookup cap bs q)
  lookup-set q = ap (λ c. chain_get c q) (bucket-set (slot cap q)) ∙ choose (i == slot cap q)
    where
      choose :
          (b : Bool)
          → chain_get (if b then chain else bucket bs (slot cap q)) q
            ≡ (if b then chain_get chain q else lookup cap bs q)
      choose true = refl
      choose false = refl

-- The first of two options that has a value.
abbrev pub first_some : Option ℤ → Option ℤ → Option ℤ
first_some none b = b
first_some (some a) b = some a

-- No key of the chain is in the buckets.
abbrev pub Fresh : ℕ → List (ℤ × ℤ) → Buckets → Type 0
Fresh cap [] bs = Unit
Fresh cap ((k, v) ∷ c) bs = (lookup cap bs k ≡ none) × Fresh cap c bs

module _ (cap : ℕ) (bs : Buckets) (t : IsTable cap bs) (k v : ℤ)
    (free : lookup cap bs k ≡ none) where
  abbrev pub pushed : Buckets
  pushed = set bs (slot cap k) ((k, v) ∷ bucket bs (slot cap k))

  pub pushed-IsTable : IsTable cap pushed
  pushed-IsTable =
      let h = slot-lt cap k t.positive in
      IsTable-set cap bs t (slot cap k) h ((k, v) ∷ bucket bs (slot cap k))
        (free, t.distinct (slot cap k) h) (refl, t.placed (slot cap k) h)

  pub lookup-pushed : (q : ℤ) → lookup cap pushed q ≡ (if k ==ℤ q then some v else lookup cap bs q)
  lookup-pushed q =
      let h = slot-lt cap k t.positive in
      let at = lookup-set cap bs t (slot cap k) h ((k, v) ∷ bucket bs (slot cap k)) q in
      elim (Bool-cases (k ==ℤ q)) [
        | inl e ↦
            let same : (slot cap k == slot cap q) ≡ true =
              ground (arith, ap (slot cap) (eq_of_==ℤ k q e)) in
            at ∙ rw (same, chain_get-cons k v q (bucket bs (slot cap k)), e) refl
        | inr e ↦ elim (ℕ_discrete (slot cap k) (slot cap q)) [
          | yes s ↦
              let same : (slot cap k == slot cap q) ≡ true = ground (arith, s) in
              at
              ∙ rw same (
                  chain_get-cons k v q (bucket bs (slot cap k))
                  ∙ rw e (ap (λ j. chain_get (bucket bs j) q) s))
          | no s ↦
              let apart : (slot cap k == slot cap q) ≡ false = ground (arith, s) in
              at ∙ rw (apart, e) refl
        ]
      ]

-- The keys behind an entry stay free when it is pushed.
Fresh-pushed :
    (cap : ℕ) (bs : Buckets) (t : IsTable cap bs) (k v : ℤ) (free : lookup cap bs k ≡ none)
    (c : List (ℤ × ℤ))
    → chain_get c k ≡ none
    → Fresh cap c bs
    → Fresh cap c (pushed cap bs t k v free)
Fresh-pushed cap bs t k v free [] absent fresh = tt
Fresh-pushed cap bs t k v free ((k', v') ∷ c) absent (f, fresh) = elim (Bool-cases (k' ==ℤ k)) [
  | inl e ↦ absurd (ground (arith, sym (chain_get-cons k' v' k c) ∙ absent, e))
  | inr e ↦
      let other : (k ==ℤ k') ≡ false = ground (arith, e) in
      (
        lookup-pushed cap bs t k v free k' ∙ rw other f,
        Fresh-pushed cap bs t k v free c (rw (chain_get-cons k' v' k c, e) at absent) fresh,
      )
]

-- The buckets `r` have what the chain has, and what `bs` had.
pub record Moved (cap : ℕ) (c : List (ℤ × ℤ)) (bs r : Buckets) : Type 0 where
  pub table : IsTable cap r
  pub finds : (q : ℤ) → lookup cap r q ≡ first_some (chain_get c q) (lookup cap bs q)

resize_chain-push :
    (cap : ℕ) (bs : Buckets) (t : IsTable cap bs) (k v : ℤ) (free : lookup cap bs k ≡ none)
    (c : List (ℤ × ℤ))
    → resize_chain cap ((k, v) ∷ c) bs ≡ resize_chain cap c (pushed cap bs t k v free)
unfolding resize_chain
resize_chain-push cap bs t k v free c =
    let h = slot-lt cap k t.positive in
    rw
      (
        hash_int-slot cap k t.positive,
        load-ok bs (slot cap k) [] (omega (arith, h, t.sized)),
        store-ok bs (slot cap k) ((k, v) ∷ bucket bs (slot cap k)) (omega (arith, h, t.sized)),
      )
      refl

pub resize_chain-Moved :
    (cap : ℕ) (c : List (ℤ × ℤ)) (bs : Buckets)
    → IsTable cap bs
    → Distinct c
    → Fresh cap c bs
    → Returns (Moved cap c bs) (resize_chain cap c bs)
resize_chain-Moved cap [] bs t d f =
    unfold resize_chain in returns (record { table = t; finds = λ q. unfold chain_get in refl })
resize_chain-Moved cap ((k, v) ∷ c) bs t (absent, d) (free, f) =
    subst (Returns (Moved cap ((k, v) ∷ c) bs)) (sym (resize_chain-push cap bs t k v free c)) (
      Returns-map
        (resize_chain-Moved cap c (pushed cap bs t k v free) (pushed-IsTable cap bs t k v free) d
          (Fresh-pushed cap bs t k v free c absent f))
        λ r moved. record {
          table = moved.table;
          finds = λ q.
              moved.finds q
              ∙ rw (lookup-pushed cap bs t k v free q, chain_get-cons k v q c) (in_order q);
        })
  where
    in_order :
        (q : ℤ)
        → first_some (chain_get c q) (if k ==ℤ q then some v else lookup cap bs q)
          ≡ first_some (if k ==ℤ q then some v else chain_get c q) (lookup cap bs q)
    in_order q = elim (Bool-cases (k ==ℤ q)) [
      | inl e ↦ rw (e, ap (chain_get c) (sym (eq_of_==ℤ k q e)) ∙ absent) refl
      | inr e ↦ rw e refl
    ]
