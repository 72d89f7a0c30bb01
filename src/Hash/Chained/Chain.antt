-- ===== src/Hash/Chained/Chain.antt =====
-- One chain: its keys are distinct, and all of them belong to its bucket.
use dsa_guide.Prelude.{
  ℕ, ◌%◌, ◌≡◌, ◌⊎◌, inl, inr, refl, sym, ap, ◌∙◌, true, false, Option, none, some, List, [], ◌∷◌, ℤ,
  ◌==ℤ◌, eq_of_==ℤ, Bool-cases, if◌then◌else◌, arith,
}
use dsa_guide.Hash.Chained.{hash_word, chain_get, behind, chain_update, chain_delete}

abbrev pub Distinct : List (ℤ × ℤ) → Type 0
Distinct [] = Unit
Distinct ((k, v) ∷ c) = (chain_get c k ≡ none) × Distinct c

abbrev pub InBucket : ℕ → ℕ → List (ℤ × ℤ) → Type 0
InBucket cap i [] = Unit
InBucket cap i ((k, v) ∷ c) = (hash_word k % cap ≡ i) × InBucket cap i c

pub chain_get-cons :
    (k v key : ℤ) (c : List (ℤ × ℤ))
    → chain_get ((k, v) ∷ c) key ≡ (if k ==ℤ key then some v else chain_get c key)
unfolding chain_get
chain_get-cons k v key c = refl

-- A key of another bucket is not in the chain.
pub chain_get-InBucket :
    (cap i : ℕ) (c : List (ℤ × ℤ)) (key : ℤ)
    → InBucket cap i c
    → (hash_word key % cap ≡ i → ⊥)
    → chain_get c key ≡ none
unfolding chain_get
chain_get-InBucket cap i [] key h ne = refl
chain_get-InBucket cap i ((k, v) ∷ c) key (at, h) ne = elim (Bool-cases (k ==ℤ key)) [
  | inl e ↦ absurd (ne (ap (λ t. hash_word t % cap) (sym (eq_of_==ℤ k key e)) ∙ at))
  | inr e ↦ rw e (chain_get-InBucket cap i c key h ne)
]

-- The chain has the key, and `r` is the chain after its entry got the value `new`, or was deleted for
-- `none`; it is as good as before.
pub record Changed (cap i : ℕ) (c : List (ℤ × ℤ)) (key : ℤ) (new : Option ℤ)
    (r : Option (List (ℤ × ℤ))) : Type 0 where
  pub chain : List (ℤ × ℤ)
  pub is : r ≡ some chain
  pub old : ℤ
  pub was : chain_get c key ≡ some old
  pub lookup : (q : ℤ) → chain_get chain q ≡ (if key ==ℤ q then new else chain_get c q)
  pub distinct : Distinct chain
  pub placed : InBucket cap i chain

-- An entry with another key in front changes nothing.
Changed-behind :
    (cap i : ℕ) (k v : ℤ) (c : List (ℤ × ℤ)) (key : ℤ) (new : Option ℤ) (r : Option (List (ℤ × ℤ)))
    → (k ==ℤ key) ≡ false
    → chain_get c k ≡ none
    → hash_word k % cap ≡ i
    → Changed cap i c key new r
    → Changed cap i ((k, v) ∷ c) key new (behind (k, v) r)
Changed-behind cap i k v c key new r other fresh at changed = record {
  chain = (k, v) ∷ changed.chain;
  is = ap (behind (k, v)) changed.is;
  old = changed.old;
  was = rw (chain_get-cons k v key c, other) changed.was;
  lookup = λ q.
      rw (chain_get-cons k v q c, chain_get-cons k v q changed.chain, changed.lookup q) (swap q);
  distinct = (changed.lookup k ∙ rw not_key fresh, changed.distinct);
  placed = (at, changed.placed);
}
  where
    not_key : (key ==ℤ k) ≡ false
    not_key = ground (arith, other)

    swap :
        (q : ℤ)
        → (if k ==ℤ q then some v else (if key ==ℤ q then new else chain_get c q))
          ≡ (if key ==ℤ q then new else (if k ==ℤ q then some v else chain_get c q))
    swap q = ground (arith, other)

pub chain_update-Changed :
    (cap i : ℕ) (c : List (ℤ × ℤ)) (key val : ℤ)
    → Distinct c
    → InBucket cap i c
    → ((chain_update c key val ≡ none) × (chain_get c key ≡ none))
      ⊎ Changed cap i c key (some val) (chain_update c key val)
unfolding chain_update
chain_update-Changed cap i [] key val d p = inl (refl, unfold chain_get in refl)
chain_update-Changed cap i ((k, v) ∷ c) key val (fresh, d) (at, p) = elim (Bool-cases (k ==ℤ key)) [
  | inl e ↦ inr (
      rw e (record {
        chain = (k, val) ∷ c;
        is = refl;
        old = v;
        was = rw (chain_get-cons k v key c, e) refl;
        lookup = λ q. rw (chain_get-cons k v q c, chain_get-cons k val q c) (ground (arith, e));
        distinct = (fresh, d);
        placed = (at, p);
      }))
  | inr e ↦ rw e (elim (chain_update-Changed cap i c key val d p) [
    | inl (kept, absent) ↦ inl (rw kept refl, rw (chain_get-cons k v key c, e) absent)
    | inr changed ↦
        inr (Changed-behind cap i k v c key (some val) (chain_update c key val) e fresh at changed)
  ])
]

pub chain_delete-Changed :
    (cap i : ℕ) (c : List (ℤ × ℤ)) (key : ℤ)
    → Distinct c
    → InBucket cap i c
    → ((chain_delete c key ≡ none) × (chain_get c key ≡ none))
      ⊎ Changed cap i c key none (chain_delete c key)
unfolding chain_delete
chain_delete-Changed cap i [] key d p = inl (refl, unfold chain_get in refl)
chain_delete-Changed cap i ((k, v) ∷ c) key (fresh, d) (at, p) = elim (Bool-cases (k ==ℤ key)) [
  | inl e ↦
      let same : k ≡ key = eq_of_==ℤ k key e in
      inr (
        rw e (record {
          chain = c;
          is = refl;
          old = v;
          was = rw (chain_get-cons k v key c, e) refl;
          lookup = λ q. rw (chain_get-cons k v q c) (gone q same e fresh);
          distinct = d;
          placed = p;
        }))
  | inr e ↦ rw e (elim (chain_delete-Changed cap i c key d p) [
    | inl (kept, absent) ↦ inl (rw kept refl, rw (chain_get-cons k v key c, e) absent)
    | inr changed ↦
        inr (Changed-behind cap i k v c key none (chain_delete c key) e fresh at changed)
  ])
]
  where
    gone :
        (q : ℤ)
        → k ≡ key
        → (k ==ℤ key) ≡ true
        → chain_get c k ≡ none
        → chain_get c q ≡ (if key ==ℤ q then none else (if k ==ℤ q then some v else chain_get c q))
    gone q same e fresh = elim (Bool-cases (key ==ℤ q)) [
      | inl here ↦ rw here (ap (chain_get c) (sym (same ∙ eq_of_==ℤ key q here)) ∙ fresh)
      | inr there ↦ ground (arith, there, e)
    ]
