-- ===== src/Trees/Heap/Sort.antt =====
-- `heapsort`: a heap with the greatest value on top, from which the second loop takes one value after
-- the other.
use mathlib.Core.List.{Perm}
use Prim.Native.Nat.{max}
use dsa_guide.Prelude.{
  ℕ, zero, suc, ◌+◌, ◌-◌, ◌/◌, ◌^◌, ◌<◌, ◌≤◌, ◌≡◌, ◌≢◌, inl, inr, refl, ap, ◌∙◌, List, ℤ, ◌≤ℤ◌,
  dec_lt, ℕ_discrete, length, Returns, returns, Returns-bind, Returns-map, arith,
}
use dsa_guide.Trees.Heap.{build_loop, sort_loop, heapsort}
use dsa_guide.Trees.Heap.Swaps.{
  cell, swapped, length-swapped, swap_cells-swapped, Swaps, done, one, Swaps-length, Swaps-Perm,
  Swaps-beyond, Swaps-all, Swaps-trans, Swaps-wider,
}
use dsa_guide.Trees.Heap.Order.{
  le-eq, top-OrderedFrom, IsChild, child-above, OrderedFrom, Sinking, swapped-left, swapped-right,
  swapped-other,
}
use dsa_guide.Trees.Heap.Down.{Over, Over-refl, Over-trans, Sifted, sift_down_arr-Sifted}

build_loop-Sifted :
    (k : ℕ) (l : List ℤ) (n : ℕ)
    → n ≤ length l
    → n < 2 ^ 30
    → k ≤ n / 2
    → OrderedFrom Over l n k
    → Returns (Sifted n 0 l) (build_loop k l n)
unfolding build_loop
build_loop-Sifted zero l n h small q o = returns (record { swaps = done; ordered = o })
build_loop-Sifted (suc k) l n h small q o =
    Returns-bind
      (sift_down_arr-Sifted n l n k k h small (omega arith) (omega arith) (omega arith) (record {
        others = λ p c low ne child r. o p c (omega (arith, ne)) child r;
        above = λ p c low child deeper r. absurd (omega (arith, child-above k p child));
      }))
      λ m sifted.
        Returns-map
          (build_loop-Sifted k m n (omega (arith, Swaps-length sifted.swaps)) small (omega arith)
            sifted.ordered)
          λ r rest. record { swaps = Swaps-trans sifted.swaps rest.swaps; ordered = rest.ordered }

-- From index `m` on, no value below `n` is less than one before it.
abbrev pub SortedFrom : List ℤ → ℕ → ℕ → Type 0
SortedFrom l n m = (a b : ℕ) → a < b → b < n → m ≤ b → cell l a ≤ℤ cell l b

module _ (l : List ℤ) (n i : ℕ) (fits : n ≤ length l) (within : suc i < n)
    (heap : OrderedFrom Over l (suc (suc i)) 0) (tail : SortedFrom l n (suc (suc i))) where
  abbrev moved : List ℤ
  moved = swapped l 0 (suc i)

  first_lt : 0 < length l
  first_lt = omega arith

  last_lt : suc i < length l
  last_lt = omega arith

  kept : (j : ℕ) → j ≢ 0 → j ≢ suc i → cell moved j ≡ cell l j
  kept = swapped-other l 0 (suc i) first_lt last_lt

  moved-Sinking : Sinking Over moved (suc i) 0 0
  moved-Sinking = record {
    others = λ p c low ne child r.
        let under = child-above c p child in
        le-eq (kept c (λ e. absurd (omega (arith, under, e))) λ e. absurd (omega (arith, e)))
          (kept p ne λ e. absurd (omega (arith, under, r, e))) (heap p c low child (omega arith));
    above = λ p c low child deeper r. absurd (omega (arith, child-above 0 p child));
  }

  at_first : cell moved 0 ≡ cell l (suc i)
  at_first = swapped-left l 0 (suc i) first_lt last_lt

  at_last : cell moved (suc i) ≡ cell l 0
  at_last = swapped-right l 0 (suc i) first_lt last_lt

  -- Where a value of the array stood before.
  source : (a : ℕ) → (j : ℕ) × (cell moved a ≡ cell l j) × (j ≤ max a (suc i))
  source a = elim (ℕ_discrete a 0) [
    | yes e ↦ (suc i, ap (cell moved) e ∙ at_first, omega arith)
    | no nf ↦ elim (ℕ_discrete a (suc i)) [
      | yes e ↦ (0, ap (cell moved) e ∙ at_last, omega arith)
      | no nl ↦ (a, kept a nf nl, omega arith)
    ]
  ]

  moved-SortedFrom : SortedFrom moved n (suc i)
  moved-SortedFrom a b h q low =
      let (j, at, le) = source a in
      elim (ℕ_discrete b (suc i)) [
        | yes e ↦ le-eq at (ap (cell moved) e ∙ at_last) (
            top-OrderedFrom Over Over-refl Over-trans j l (suc (suc i)) j heap
              (omega (arith, le, e)) (omega arith))
        | no ne ↦
            le-eq at (kept b (λ e. absurd (omega (arith, e))) ne)
              (tail j b (omega (arith, le, ne)) q (omega (arith, ne)))
      ]

-- The values below `n` ascend.
abbrev pub SortedBelow : List ℤ → ℕ → Type 0
SortedBelow l n = (a b : ℕ) → a < b → b < n → cell l a ≤ℤ cell l b

-- Swaps below `m` keep what stands from `m` on, and that nothing before is greater.
SortedFrom-Swaps : (l r : List ℤ) (n m : ℕ) → Swaps m l r → SortedFrom l n m → SortedFrom r n m
SortedFrom-Swaps l r n m s sorted a b h q low = elim (dec_lt a m) [
  | yes k ↦
      le-eq refl (Swaps-beyond b s low)
        (Swaps-all (λ x. x ≤ℤ cell l b) s (λ j p. sorted j b (omega arith) q low) a k)
  | no k ↦ le-eq (Swaps-beyond a s (ground (arith, k))) (Swaps-beyond b s low) (sorted a b h q low)
]

sort_loop-SortedBelow :
    (i : ℕ) (l : List ℤ) (n : ℕ)
    → n ≤ length l
    → n < 2 ^ 30
    → i < n
    → OrderedFrom Over l (suc i) 0
    → SortedFrom l n (suc i)
    → Returns (λ r. SortedBelow r n × Swaps n l r) (sort_loop i l)
unfolding sort_loop
sort_loop-SortedBelow zero l n h small q heap tail =
    returns (λ a b below r. tail a b below r (omega arith), done)
sort_loop-SortedBelow (suc i) l n h small q heap tail =
    let m = moved l n i h q heap tail in
    let long = length-swapped l 0 (suc i) in
    rw (swap_cells-swapped l 0 (suc i) (omega arith) (omega arith)) (
      Returns-bind
        (sift_down_arr-Sifted (suc i) m (suc i) 0 0 (omega (arith, long)) (omega arith)
          (omega arith) (omega arith) (omega arith) (moved-Sinking l n i h q heap tail))
        λ r sifted.
          Returns-map
            (sort_loop-SortedBelow i r n (omega (arith, long, Swaps-length sifted.swaps)) small
              (omega arith) sifted.ordered
              (SortedFrom-Swaps m r n (suc i) sifted.swaps (moved-SortedFrom l n i h q heap tail)))
            λ s (sorted, swaps). (
              sorted,
              one 0 (suc i) (omega arith) q h (
                  Swaps-trans (Swaps-wider sifted.swaps (omega arith) (omega (arith, long))) swaps),
            ))

-- `heapsort` of the first `n` cells of an array, for `n` below 2^30, returns; those cells then ascend,
-- the cells behind them are as they were, and the array has the same values as before.
pub heapsort-SortedBelow :
    (arr : List ℤ) (n : ℕ)
    → n ≤ length arr
    → n < 2 ^ 30
    → Returns
        (λ r. SortedBelow r n × Perm r arr × ((j : ℕ) → cell r (n + j) ≡ cell arr (n + j)))
        (heapsort arr n)
unfolding heapsort sort_loop
heapsort-SortedBelow arr n h small =
    Returns-bind
      (build_loop-Sifted (n / 2) arr n h small (omega arith)
        λ p c low child r. absurd (leaf p c low child r))
      λ m built. Returns-map (sorted_heap m built) λ r (sorted, swaps).
        let all = Swaps-trans built.swaps swaps in
        (sorted, Swaps-Perm all, λ j. Swaps-beyond (n + j) all (omega arith))
  where
    leaf : (p c : ℕ) → n / 2 ≤ p → IsChild c p → c < n → ⊥
    leaf p c low (inl e) r = omega (arith, e)
    leaf p c low (inr e) r = omega (arith, e)

    sorted_heap :
        (m : List ℤ)
        → Sifted n 0 arr m
        → Returns (λ r. SortedBelow r n × Swaps n m r) (sort_loop (n - 1) m)
    sorted_heap m built = elim (ℕ_discrete n 0) [
      | yes e ↦
          let none_left : n - 1 ≡ 0 = omega (arith, e) in
          rw none_left (returns (λ a b below q. absurd (omega (arith, e, q)), done))
      | no ne ↦
          sort_loop-SortedBelow (n - 1) m n (omega (arith, Swaps-length built.swaps)) small
            (omega (arith, ne)) (λ p c low child r. built.ordered p c low child (omega (arith, ne)))
            λ a b below q low. absurd (omega (arith, ne))
    ]
