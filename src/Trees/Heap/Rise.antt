-- ===== src/Trees/Heap/Rise.antt =====
-- `sift_up`: a key rises while its parent is greater.
use dsa_guide.Prelude.{
  ℕ, zero, suc, ◌+◌, ◌-◌, ◌*◌, ◌/◌, ◌<◌, ◌≤◌, ◌≡◌, ◌≢◌, inl, inr, refl, sym, ap, ◌∙◌, true, List, ℤ,
  ◌≤ℤ◌, ltb_ℤ, ltb, if◌then◌else◌, Bool-cases, ℕ_discrete, ok, load-ok, length, pos, subst, Returns,
  returns, Returns-map, arith,
}
use dsa_guide.Trees.Heap.{MinHeap, swap, parent, sift_up}
use dsa_guide.Trees.Heap.Swaps.{cell, swapped, length-swapped, swap_cells-swapped}
use dsa_guide.Trees.Heap.Entries.{Together, done, one}
use dsa_guide.Trees.Heap.Order.{
  le-eq, IsChild, child-above, one_parent, OrderedFrom, swapped-left, swapped-right, swapped-other,
}

-- The heap with two entries swapped.
abbrev pub swapped_entries : MinHeap → ℕ → ℕ → MinHeap
swapped_entries h a b = record h { keys = swapped h.keys a b; vals = swapped h.vals a b }

-- The arrays have room for the entries.
pub record Fits (h : MinHeap) : Type 0 where
  pub keys_fit : h.size ≤ length h.keys
  pub vals_fit : h.size ≤ length h.vals

pub swap-swapped_entries :
    (h : MinHeap) (a b : ℕ)
    → Fits h
    → a < h.size
    → b < h.size
    → swap h a b ≡ ok (swapped_entries h a b)
unfolding swap
swap-swapped_entries h a b f p q =
    rw
      (
        swap_cells-swapped h.keys a b (omega (arith, f.keys_fit)) (omega (arith, f.keys_fit)),
        swap_cells-swapped h.vals a b (omega (arith, f.vals_fit)) (omega (arith, f.vals_fit)),
      )
      refl

pub swapped_entries-Fits : (h : MinHeap) (a b : ℕ) → Fits h → Fits (swapped_entries h a b)
swapped_entries-Fits h a b f = record {
  keys_fit = omega (arith, f.keys_fit, length-swapped h.keys a b);
  vals_fit = omega (arith, f.vals_fit, length-swapped h.vals a b);
}

abbrev pub Under : ℤ → ℤ → Type 0
Under x y = x ≤ℤ y

-- A heap after swaps of entries, in heap order from the least key down.
pub record Restored (h r : MinHeap) : Type 0 where
  pub size : r.size ≡ h.size
  pub capacity : r.capacity ≡ h.capacity
  pub lengths : (length r.keys ≡ length h.keys) × (length r.vals ≡ length h.vals)
  pub together : Together h.size h.keys h.vals r.keys r.vals
  pub ordered : OrderedFrom Under r.keys r.size 0

pub Restored-one :
    (h r : MinHeap) (a b : ℕ)
    → Fits h
    → a < h.size
    → b < h.size
    → Restored (swapped_entries h a b) r
    → Restored h r
Restored-one h r a b f p q rest = record {
  size = rest.size;
  capacity = rest.capacity;
  lengths =
      (rest.lengths.0 ∙ length-swapped h.keys a b, rest.lengths.1 ∙ length-swapped h.vals a b);
  together = one a b p q f.keys_fit f.vals_fit rest.together;
  ordered = rest.ordered;
}

-- Heap order but for node `i` under its parent.
pub record Rising (l : List ℤ) (n i : ℕ) : Type 0 where
  pub others : (p c : ℕ) → c ≢ i → IsChild c p → c < n → cell l p ≤ℤ cell l c
  pub above : (p c : ℕ) → IsChild i p → IsChild c i → c < n → cell l p ≤ℤ cell l c

le_trans : (x y z : ℤ) → x ≤ℤ y → y ≤ℤ z → x ≤ℤ z
le_trans x y z h k = omega arith

module _ (l : List ℤ) (n i p : ℕ) (fits : n ≤ length l) (low : i < n) (child : IsChild i p)
    (r : Rising l n i) (less : cell l i ≤ℤ cell l p) where
  p_above : p < i
  p_above = child-above i p child

  i-lt : i < length l
  i-lt = omega arith

  p-lt : p < length l
  p-lt = omega (arith, p_above)

  at_i : cell (swapped l i p) i ≡ cell l p
  at_i = swapped-left l i p i-lt p-lt

  at_p : cell (swapped l i p) p ≡ cell l i
  at_p = swapped-right l i p i-lt p-lt

  elsewhere : (j : ℕ) → j ≢ i → j ≢ p → cell (swapped l i p) j ≡ cell l j
  elsewhere = swapped-other l i p i-lt p-lt

  others-up :
      (q c : ℕ) → c ≢ p → IsChild c q → c < n → cell (swapped l i p) q ≤ℤ cell (swapped l i p) c
  others-up q c np of_q h = elim (ℕ_discrete c i) [
    | yes e ↦
        let here : q ≡ p = one_parent i q p (subst (λ j. IsChild j q) e of_q) child in
        le-eq (ap (cell (swapped l i p)) here ∙ at_p) (ap (cell (swapped l i p)) e ∙ at_i) less
    | no ne ↦ elim (ℕ_discrete q p) [
      | yes e ↦ le-eq (ap (cell (swapped l i p)) e ∙ at_p) (elsewhere c ne np) (
          le_trans (cell l i) (cell l p) (cell l c) less
            (r.others p c ne (subst (IsChild c) e of_q) h))
      | no nq ↦ elim (ℕ_discrete q i) [
        | yes e ↦
            le-eq (ap (cell (swapped l i p)) e ∙ at_i) (elsewhere c ne np)
              (r.above p c child (subst (IsChild c) e of_q) h)
        | no ni ↦ le-eq (elsewhere q ni nq) (elsewhere c ne np) (r.others q c ne of_q h)
      ]
    ]
  ]

  above-up :
      (q c : ℕ)
      → IsChild p q
      → IsChild c p
      → c < n
      → cell (swapped l i p) q ≤ℤ cell (swapped l i p) c
  above-up q c of_q of_p h =
      let high = child-above p q of_q in
      let at_q =
        elsewhere q (λ e. absurd (omega (arith, high, p_above, e)))
          λ e. absurd (omega (arith, high, e)) in
      let over =
        r.others q p (λ e. absurd (omega (arith, p_above, e))) of_q (omega (arith, p_above)) in
      elim (ℕ_discrete c i) [
        | yes e ↦ le-eq at_q (ap (cell (swapped l i p)) e ∙ at_i) over
        | no ne ↦
            le-eq at_q (elsewhere c ne λ e. absurd (omega (arith, child-above c p of_p, e)))
              (le_trans (cell l q) (cell l p) (cell l c) over (r.others p c ne of_p h))
      ]

  Rising-up : Rising (swapped l i p) n p
  Rising-up = record { others = others-up; above = above-up }

-- A key that is not less than its parent's may stay.
Rising-stop :
    (l : List ℤ) (n i : ℕ)
    → Rising l n i
    → ((p : ℕ) → IsChild i p → cell l p ≤ℤ cell l i)
    → OrderedFrom Under l n 0
Rising-stop l n i r stays p c low child h = elim (ℕ_discrete c i) [
  | yes e ↦ subst (λ j. cell l p ≤ℤ cell l j) (sym e) (stays p (subst (λ j. IsChild j p) e child))
  | no ne ↦ r.others p c ne child h
]

parent-IsChild : (i : ℕ) → 0 < i → IsChild i (parent i)
parent-IsChild i h = elim (ℕ_discrete i (2 * ((i - 1) / 2) + 1)) [
  | yes e ↦ inl e
  | no ne ↦ inr (omega (arith, ne))
]

sift_up-round :
    (fuel : ℕ) (h : MinHeap) (i : ℕ)
    → Fits h
    → 0 < i
    → i < h.size
    → sift_up (suc fuel) h i ≡ (
        if ltb_ℤ (cell h.keys i) (cell h.keys (parent i))
        then sift_up fuel (swapped_entries h i (parent i)) (parent i)
        else ok h)
unfolding sift_up
sift_up-round fuel h i f positive low =
    let test : ltb 0 i ≡ true = ground arith in
    rw
      (
        test,
        load-ok h.keys (parent i) (pos 0) (omega (arith, f.keys_fit)),
        load-ok h.keys i (pos 0) (omega (arith, f.keys_fit)),
        swap-swapped_entries h i (parent i) f low (omega arith),
      )
      refl

pub sift_up-Restored :
    (fuel : ℕ) (h : MinHeap) (i : ℕ)
    → Fits h
    → i < h.size
    → i < fuel
    → Rising h.keys h.size i
    → Returns (Restored h) (sift_up fuel h i)
sift_up-Restored zero h i f low enough r = absurd (omega arith)
sift_up-Restored (suc fuel) h zero f low enough r =
    unfold sift_up in
    returns (record {
      size = refl;
      capacity = refl;
      lengths = (refl, refl);
      together = done;
      ordered =
          Rising-stop h.keys h.size 0 r λ p child. absurd (omega (arith, child-above 0 p child));
    })
sift_up-Restored (suc fuel) h (suc j) f low enough r =
    let i = suc j in
    let p = parent i in
    let child = parent-IsChild i (omega arith) in
    subst (Returns (Restored h)) (sym (sift_up-round fuel h i f (omega arith) low))
      (elim (Bool-cases (ltb_ℤ (cell h.keys i) (cell h.keys p))) [
        | inl e ↦ rw e (
            Returns-map
              (sift_up-Restored fuel (swapped_entries h i p) p (swapped_entries-Fits h i p f)
                (omega arith) (omega arith)
                (Rising-up h.keys h.size i p f.keys_fit low child r (ground arith)))
              λ k rest. Restored-one h k i p f low (omega arith) rest)
        | inr e ↦ rw e (
            returns (record {
              size = refl;
              capacity = refl;
              lengths = (refl, refl);
              together = done;
              ordered = Rising-stop h.keys h.size i r λ q of_q.
                  subst (λ t. cell h.keys t ≤ℤ cell h.keys i) (one_parent i p q child of_q)
                    (ground arith);
            }))
      ])
