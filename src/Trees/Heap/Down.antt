-- ===== src/Trees/Heap/Down.antt =====
-- `sift_down_arr`: a value sinks below all greater ones.
use dsa_guide.Prelude.{
  ℕ, zero, suc, ◌+◌, ◌*◌, ◌^◌, ◌<◌, ◌≤◌, ◌≡◌, inl, inr, refl, sym, Bool, true, false, List, ℤ, ◌≤ℤ◌,
  ltb_ℤ, ltb, ◌==◌, if◌then◌else◌, Bool-cases, ok, ◌>>=◌, load-ok, length, pos, subst, Returns,
  returns, Returns-map, arith,
}
use dsa_guide.Trees.Heap.{swap_cells, larger, sift_down_arr}
use dsa_guide.Trees.Heap.Swaps.{cell, swapped, length-swapped, swap_cells-swapped, Swaps, done, one}
use dsa_guide.Trees.Heap.Order.{
  child-above, OrderedFrom, Sinking, Sinking-stop, Sinking-down, pick, pick-Best,
}

abbrev pub Over : ℤ → ℤ → Type 0
Over x y = y ≤ℤ x

abbrev greater : ℤ → ℤ → Bool
greater x y = ltb_ℤ y x

greater-Over : (x y : ℤ) → greater x y ≡ true → Over x y
greater-Over x y e = ground arith

not_greater-Over : (x y : ℤ) → greater x y ≡ false → Over y x
not_greater-Over x y e = ground arith

pub Over-refl : (x : ℤ) → Over x x
Over-refl x = omega arith

pub Over-trans : (x y z : ℤ) → Over x y → Over y z → Over x z
Over-trans x y z h k = omega arith

abbrev best_of : List ℤ → ℕ → ℕ → ℕ → ℕ
best_of = pick Over greater greater-Over not_greater-Over Over-refl Over-trans

larger-best_of :
    (l : List ℤ) (n best c : ℕ)
    → n ≤ length l
    → best < length l
    → larger l n best c ≡ ok (best_of l n best c)
unfolding larger
larger-best_of l n best c h k = elim (Bool-cases (ltb c n)) [
  | inl e ↦ rw (e, load-ok l c (pos 0) (ground arith), load-ok l best (pos 0) k) refl
  | inr e ↦ rw e refl
]

best_of-lt : (l : List ℤ) (n b c m : ℕ) → n ≤ m → b < m → best_of l n b c < m
best_of-lt l n b c m h k = elim (Bool-cases (ltb c n)) [
  | inl e ↦ elim (Bool-cases (greater (cell l c) (cell l b))) [
    | inl d ↦ rw (e, d) (ground arith)
    | inr d ↦ rw (e, d) k
  ]
  | inr e ↦ rw e k
]

abbrev best_child : List ℤ → ℕ → ℕ → ℕ
best_child l n i = best_of l n (best_of l n i (2 * i + 1)) (2 * i + 2)

sift_down_arr-round :
    (fuel : ℕ) (l : List ℤ) (n i : ℕ)
    → n ≤ length l
    → n < 2 ^ 30
    → i < n
    → sift_down_arr (suc fuel) l n i ≡ (
        if best_child l n i == i
        then ok l
        else swap_cells l i (best_child l n i) >>= λ after.
            sift_down_arr fuel after n (best_child l n i))
unfolding sift_down_arr
sift_down_arr-round fuel l n i h small q =
    let in_int : ltb (2 * i + 2) (2 ^ 31) ≡ true = ground arith in
    rw
      (
        in_int,
        larger-best_of l n i (2 * i + 1) h (omega arith),
        larger-best_of l n (best_of l n i (2 * i + 1)) (2 * i + 2) h
            (best_of-lt l n i (2 * i + 1) (length l) h (omega arith)),
      )
      refl

-- What `sift_down_arr` does: swaps below `n`, after which the nodes from `from` on are in heap order.
pub record Sifted (n from : ℕ) (l r : List ℤ) : Type 0 where
  pub swaps : Swaps n l r
  pub ordered : OrderedFrom Over r n from

pub sift_down_arr-Sifted :
    (fuel : ℕ) (l : List ℤ) (n from i : ℕ)
    → n ≤ length l
    → n < 2 ^ 30
    → i < n
    → from ≤ i
    → n ≤ i + fuel
    → Sinking Over l n from i
    → Returns (Sifted n from l) (sift_down_arr fuel l n i)
sift_down_arr-Sifted zero l n from i h small q low enough s = absurd (omega arith)
sift_down_arr-Sifted (suc fuel) l n from i h small q low enough s =
    subst (Returns (Sifted n from l)) (sym (sift_down_arr-round fuel l n i h small q))
      (elim (pick-Best Over greater greater-Over not_greater-Over Over-refl Over-trans l n i) [
        | inl (here, below) ↦
            let stop : (best_child l n i == i) ≡ true = ground (arith, here) in
            rw stop
              (returns (record { swaps = done; ordered = Sinking-stop Over l n from i s below }))
        | inr (other, best) ↦
            let go : (best_child l n i == i) ≡ false = ground (arith, other) in
            let further : i < best_child l n i = child-above (best_child l n i) i best.child in
            rw
              (
                go,
                swap_cells-swapped l i (best_child l n i) (omega arith)
                    (omega (arith, best.within)),
              )
              (Returns-map
                (sift_down_arr-Sifted fuel (swapped l i (best_child l n i)) n from
                  (best_child l n i) (omega (arith, length-swapped l i (best_child l n i))) small
                  best.within (omega (arith, further)) (omega (arith, further))
                  (Sinking-down Over l n from i (best_child l n i) h low s best))
                λ r sifted. record {
                  swaps = one i (best_child l n i) q best.within h sifted.swaps;
                  ordered = sifted.ordered;
                })
      ])
