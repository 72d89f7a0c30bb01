-- ===== src/Trees/Heap/Order.antt =====
-- Heap order on the first cells of an array, for any order of the values, and the step by which a value
-- sinks.
use dsa_guide.Prelude.{
  ℕ, zero, suc, ◌+◌, ◌*◌, ◌/◌, ◌<◌, ◌≤◌, ◌≡◌, ◌≢◌, ◌⊎◌, inl, inr, refl, sym, ap, ◌∙◌, Bool, true,
  false, List, ℤ, ◌≤ℤ◌, ltb, ◌==◌, if◌then◌else◌, Bool-cases, ℕ_discrete, length, subst, arith,
}
use dsa_guide.Trees.Heap.Swaps.{cell, swapped, cell-swapped}

abbrev pub IsChild : ℕ → ℕ → Type 0
IsChild c p = (c ≡ 2 * p + 1) ⊎ (c ≡ 2 * p + 2)

pub child-above : (c p : ℕ) → IsChild c p → p < c
child-above c p (inl e) = omega (arith, e)
child-above c p (inr e) = omega (arith, e)

pub one_parent : (c p q : ℕ) → IsChild c p → IsChild c q → p ≡ q
one_parent c p q (inl e) (inl d) = omega (arith, e, d)
one_parent c p q (inl e) (inr d) = omega (arith, e, d)
one_parent c p q (inr e) (inl d) = omega (arith, e, d)
one_parent c p q (inr e) (inr d) = omega (arith, e, d)

module _ (l : List ℤ) (a b : ℕ) (h : a < length l) (k : b < length l) where
  pub swapped-right : cell (swapped l a b) b ≡ cell l a
  swapped-right = cell-swapped l a b b h k ∙ ground arith

  pub swapped-left : cell (swapped l a b) a ≡ cell l b
  swapped-left = cell-swapped l a b a h k ∙ elim (ℕ_discrete b a) [
    | yes e ↦ let t : (b == a) ≡ true = ground (arith, e) in rw t (ap (cell l) (sym e))
    | no ne ↦ ground (arith, ne)
  ]

  pub swapped-other : (j : ℕ) → j ≢ a → j ≢ b → cell (swapped l a b) j ≡ cell l j
  swapped-other j na nb =
      let t : (b == j) ≡ false = ground (arith, nb) in
      let u : (a == j) ≡ false = ground (arith, na) in cell-swapped l a b j h k ∙ rw (t, u) refl

pub le-eq : {x y x' y' : ℤ} → x ≡ x' → y ≡ y' → x' ≤ℤ y' → x ≤ℤ y
le-eq {y} {x'} e d h = subst (λ z. z ≤ℤ y) (sym e) (subst (λ z. x' ≤ℤ z) (sym d) h)

-- `R x y`: `x` may stand above `y`.
module _ (R : ℤ → ℤ → Type 0) where
  -- Every node from `from` on may stand above its children below `n`.
  abbrev pub OrderedFrom : List ℤ → ℕ → ℕ → Type 0
  OrderedFrom l n from = (p c : ℕ) → from ≤ p → IsChild c p → c < n → R (cell l p) (cell l c)

  -- The same but for node `i`, whose value may have to sink.
  pub record Sinking (l : List ℤ) (n from i : ℕ) : Type 0 where
    pub others : (p c : ℕ) → from ≤ p → p ≢ i → IsChild c p → c < n → R (cell l p) (cell l c)
    pub above : (p c : ℕ) → from ≤ p → IsChild i p → IsChild c i → c < n → R (cell l p) (cell l c)

  pub Sinking-stop :
      (l : List ℤ) (n from i : ℕ)
      → Sinking l n from i
      → ((c : ℕ) → IsChild c i → c < n → R (cell l i) (cell l c))
      → OrderedFrom l n from
  Sinking-stop l n from i s below p c h child q = elim (ℕ_discrete p i) [
    | yes e ↦ subst (λ j. R (cell l j) (cell l c)) (sym e) (below c (subst (IsChild c) e child) q)
    | no ne ↦ s.others p c h ne child q
  ]

  -- What is on top may stand above all.
  pub top-OrderedFrom :
      ((x : ℤ) → R x x)
      → ((x y z : ℤ) → R x y → R y z → R x z)
      → (k : ℕ) (l : List ℤ) (n j : ℕ) → OrderedFrom l n 0
      → j < n
      → j ≤ k
      → R (cell l 0) (cell l j)
  top-OrderedFrom R_refl R_trans k l n zero o h q = R_refl (cell l 0)
  top-OrderedFrom R_refl R_trans zero l n (suc j) o h q = absurd (omega arith)
  top-OrderedFrom R_refl R_trans (suc k) l n (suc j) o h q =
      let child : IsChild (suc j) (j / 2) = elim (ℕ_discrete (suc j) (2 * (j / 2) + 1)) [
        | yes e ↦ inl e
        | no ne ↦ inr (omega (arith, ne))
      ] in
      R_trans (cell l 0) (cell l (j / 2)) (cell l (suc j))
        (top-OrderedFrom R_refl R_trans k l n (j / 2) o (omega arith) (omega arith))
        (o (j / 2) (suc j) (omega arith) child h)

  -- The child that changes places with node `i`.
  pub record IsBest (l : List ℤ) (n i best : ℕ) : Type 0 where
    pub child : IsChild best i
    pub within : best < n
    pub over : R (cell l best) (cell l i)
    pub siblings : (c : ℕ) → IsChild c i → c < n → R (cell l best) (cell l c)

  module _ (l : List ℤ) (n from i best : ℕ) (fits : n ≤ length l) (low : from ≤ i)
      (s : Sinking l n from i) (b : IsBest l n i best) where
    i-lt : i < length l
    i-lt = omega (arith, child-above best i b.child, b.within)

    best-lt : best < length l
    best-lt = omega (arith, b.within)

    after : List ℤ
    after = swapped l i best

    at_i : cell after i ≡ cell l best
    unfolding after
    at_i = swapped-left l i best i-lt best-lt

    at_best : cell after best ≡ cell l i
    unfolding after
    at_best = swapped-right l i best i-lt best-lt

    elsewhere : (j : ℕ) → j ≢ i → j ≢ best → cell after j ≡ cell l j
    unfolding after
    elsewhere = swapped-other l i best i-lt best-lt

    R-eq : {x y x' y' : ℤ} → x ≡ x' → y ≡ y' → R x' y' → R x y
    R-eq {y} {x'} e d r = subst (λ z. R z y) (sym e) (subst (R x') (sym d) r)

    others-after :
        (p c : ℕ) → from ≤ p → p ≢ best → IsChild c p → c < n → R (cell after p) (cell after c)
    others-after p c h nb child q = elim (ℕ_discrete p i) [
      | yes e ↦ elim (ℕ_discrete c best) [
        | yes d ↦ R-eq (ap (cell after) e ∙ at_i) (ap (cell after) d ∙ at_best) b.over
        | no nd ↦
            R-eq (ap (cell after) e ∙ at_i)
              (elsewhere c (λ d. absurd (omega (arith, child-above c p child, e, d))) nd)
              (b.siblings c (subst (IsChild c) e child) q)
      ]
      | no ne ↦ elim (ℕ_discrete c i) [
        | yes d ↦
            R-eq (elsewhere p ne nb) (ap (cell after) d ∙ at_i)
              (s.above p best h (subst (λ j. IsChild j p) d child) b.child b.within)
        | no nd ↦
            R-eq (elsewhere p ne nb)
              (elsewhere c nd
                λ d. ne (one_parent best p i (subst (λ j. IsChild j p) d child) b.child))
              (s.others p c h ne child q)
      ]
    ]

    pub Sinking-down : Sinking (swapped l i best) n from best
    unfolding after
    Sinking-down = record {
      others = others-after;
      above = λ p c h child grandchild q.
          let e : p ≡ i = one_parent best p i child b.child in
          let under = child-above best i b.child in
          let deeper = child-above c best grandchild in
          R-eq (ap (cell after) e ∙ at_i)
            (elsewhere c (λ d. absurd (omega (arith, under, deeper, d)))
              λ d. absurd (omega (arith, deeper, d)))
            (s.others best c (omega (arith, under)) (λ d. absurd (omega (arith, under, d)))
              grandchild q);
    }

  -- The tests by which the code looks for the best child, with `better x y` for `x` over `y`.
  module _ (better : ℤ → ℤ → Bool) (chosen : (x y : ℤ) → better x y ≡ true → R x y)
      (refused : (x y : ℤ) → better x y ≡ false → R y x) (R_refl : (x : ℤ) → R x x)
      (R_trans : (x y z : ℤ) → R x y → R y z → R x z) (l : List ℤ) (n : ℕ) where
    abbrev pub pick : ℕ → ℕ → ℕ
    pick best c = if ltb c n then (if better (cell l c) (cell l best) then c else best) else best

    -- One test: the better of two nodes.
    Test : ℕ → ℕ → ℕ → Type 0
    Test b c m =
        ((m ≡ b) × (c < n → R (cell l b) (cell l c)))
        ⊎ ((m ≡ c) × (c < n) × R (cell l c) (cell l b))

    pick-Test : (b c : ℕ) → Test b c (pick b c)
    unfolding Test
    pick-Test b c = elim (Bool-cases (ltb c n)) [
      | inl e ↦ elim (Bool-cases (better (cell l c) (cell l b))) [
        | inl d ↦ rw (e, d) (inr (refl, ground arith, chosen (cell l c) (cell l b) d))
        | inr d ↦ rw (e, d) (inl (refl, λ q. refused (cell l c) (cell l b) d))
      ]
      | inr e ↦ rw e (inl (refl, λ q. absurd (ground arith)))
    ]

    -- What the two tests on the children of a node find: the node itself, or its best child.
    abbrev pub Best : ℕ → ℕ → Type 0
    Best i m =
        ((m ≡ i) × ((c : ℕ) → IsChild c i → c < n → R (cell l i) (cell l c)))
        ⊎ ((m ≢ i) × IsBest l n i m)

    of_children :
        (i : ℕ) (x : ℤ)
        → (2 * i + 1 < n → R x (cell l (2 * i + 1)))
        → (2 * i + 2 < n → R x (cell l (2 * i + 2)))
        → (c : ℕ) → IsChild c i
        → c < n
        → R x (cell l c)
    of_children i x left right c (inl e) q =
        subst (λ j. R x (cell l j)) (sym e) (left (omega (arith, e)))
    of_children i x left right c (inr e) q =
        subst (λ j. R x (cell l j)) (sym e) (right (omega (arith, e)))

    Test-Best_left :
        (i m : ℕ)
        → 2 * i + 1 < n
        → R (cell l (2 * i + 1)) (cell l i)
        → Test (2 * i + 1) (2 * i + 2) m
        → Best i m
    unfolding Test
    Test-Best_left i m q over (inl (e, right)) = subst (Best i) (sym e) (
        inr (
          λ d. absurd (omega (arith, d)),
          record {
            child = inl refl;
            within = q;
            over = over;
            siblings = of_children i (cell l (2 * i + 1)) (λ k. R_refl (cell l (2 * i + 1))) right;
          },
        ))
    Test-Best_left i m q over (inr (e, k, better_right)) = subst (Best i) (sym e) (
        inr (
          λ d. absurd (omega (arith, d)),
          record {
            child = inr refl;
            within = k;
            over = R_trans (cell l (2 * i + 2)) (cell l (2 * i + 1)) (cell l i) better_right over;
            siblings =
                of_children i (cell l (2 * i + 2)) (λ h. better_right)
                  (λ h. R_refl (cell l (2 * i + 2)));
          },
        ))

    Test-Best_node :
        (i m : ℕ)
        → (2 * i + 1 < n → R (cell l i) (cell l (2 * i + 1)))
        → Test i (2 * i + 2) m
        → Best i m
    unfolding Test
    Test-Best_node i m left (inl (e, right)) =
        subst (Best i) (sym e) (inl (refl, of_children i (cell l i) left right))
    Test-Best_node i m left (inr (e, k, over)) = subst (Best i) (sym e) (
        inr (
          λ d. absurd (omega (arith, d)),
          record {
            child = inr refl;
            within = k;
            over = over;
            siblings =
                of_children i (cell l (2 * i + 2))
                  (λ h. R_trans (cell l (2 * i + 2)) (cell l i) (cell l (2 * i + 1)) over (left h))
                  λ h. R_refl (cell l (2 * i + 2));
          },
        ))

    pub pick-Best : (i : ℕ) → Best i (pick (pick i (2 * i + 1)) (2 * i + 2))
    unfolding Test
    pick-Best i =
        let first = pick i (2 * i + 1) in
        let m = pick first (2 * i + 2) in
        let second = pick-Test first (2 * i + 2) in
        elim (pick-Test i (2 * i + 1)) [
          | inl (e, left) ↦ Test-Best_node i m left (subst (λ f. Test f (2 * i + 2) m) e second)
          | inr (e, q, over) ↦
              Test-Best_left i m q over (subst (λ f. Test f (2 * i + 2) m) e second)
        ]
