-- ===== src/Linear/Array/Pair.antt =====
-- `array_two_pointer_pair` finds a pair with the sum exactly when there is one.
use dsa_guide.Prelude.{
  ℕ, zero, suc, ◌+◌, ◌-◌, ◌<◌, ◌≤◌, ◌≡◌, ◌⊎◌, inl, inr, refl, subst, true, false, ℤ, pos, ◌+ℤ◌,
  ◌-ℤ◌, ltb_ℤ, ◌==ℤ◌, eq_of_==ℤ, +ℤ_parts, IsInt, arith, load-ok, Returns, returns, Returns-if, ltb,
  ℕ_discrete, as_int-ok, as_int-pos, Option, none, some,
}
use dsa_guide.Linear.Array.{Array, two_pointer_loop, array_two_pointer_pair, at, IsSorted}
use dsa_guide.Linear.Array.Search.{last_index, no_index}

abbrev pub IsPair : Array → ℤ → ℕ → ℕ → Type 0
IsPair a target i j = (i < j) × (j < a.size) × (at a.block i +ℤ at a.block j ≡ target)

-- A pair with the sum, or none if no pair has it.
abbrev pub Paired : Array → ℤ → Option (ℕ × ℕ) → Type 0
Paired a target r =
    ((i j : ℕ) × (r ≡ some (i, j)) × IsPair a target i j)
    ⊎ ((r ≡ none) × ((i j : ℕ) → ¬ IsPair a target i j))

-- No sum of two values overflows an `int`.
abbrev pub SumsFit : Array → Type 0
SumsFit a = (i j : ℕ) → i < j → j < a.size → IsInt (at a.block i +ℤ at a.block j)

module _ (a : Array) (target : ℤ) (sorted : IsSorted a) (fits : SumsFit a) where
  -- Every pair with the sum lies between `lo` and `past`.
  abbrev Between : ℕ → ℕ → Type 0
  Between lo past = (i j : ℕ) → IsPair a target i j → (lo ≤ i) × (j < past)

  Between-right :
      (lo h : ℕ)
      → h < a.size
      → ltb_ℤ (at a.block lo +ℤ at a.block h) target ≡ true
      → Between lo (suc h)
      → Between (lo + 1) (suc h)
  Between-right lo h lt less b i j (p, q, e) = elim (ℕ_discrete i lo) [
    | yes same ↦
        let s : at a.block lo +ℤ at a.block j ≡ target =
          subst (λ k. at a.block k +ℤ at a.block j ≡ target) same e in
        absurd (
          ground (
            arith,
            s,
            b i j (p, q, e),
            sorted.ascending j h,
            +ℤ_parts (at a.block lo) (at a.block j),
            +ℤ_parts (at a.block lo) (at a.block h),
          ))
    | no other ↦ (omega (arith, b i j (p, q, e)), omega (arith, b i j (p, q, e)))
  ]

  Between-left :
      (lo h : ℕ)
      → lo < h
      → h < a.size
      → ((at a.block lo +ℤ at a.block h) ==ℤ target) ≡ false
      → ltb_ℤ (at a.block lo +ℤ at a.block h) target ≡ false
      → Between lo (suc h)
      → Between lo h
  Between-left lo h less_h lt differ more b i j (p, q, e) = elim (ℕ_discrete j h) [
    | yes same ↦
        let s : at a.block i +ℤ at a.block h ≡ target =
          subst (λ k. at a.block i +ℤ at a.block k ≡ target) same e in
        absurd (
          ground (
            arith,
            s,
            b i j (p, q, e),
            sorted.ascending lo i,
            +ℤ_parts (at a.block i) (at a.block h),
            +ℤ_parts (at a.block lo) (at a.block h),
          ))
    | no other ↦ (omega (arith, b i j (p, q, e)), omega (arith, b i j (p, q, e)))
  ]

  loop-Paired :
      (fuel lo past : ℕ)
      → past - lo < fuel
      → past ≤ a.size
      → Between lo past
      → Returns (Paired a target) (two_pointer_loop fuel a.block target lo (pos past -ℤ pos 1))
  unfolding two_pointer_loop
  loop-Paired zero lo past f h b = absurd (omega arith)
  loop-Paired (suc fuel) lo zero f h b =
      rw (no_index, two_pointer_loop)
        (returns (inr (refl, λ i j p. absurd (omega (arith, b i j p)))))
  loop-Paired (suc fuel) lo (suc h) f le b =
      rw (last_index h, two_pointer_loop)
        (Returns-if (ltb lo h)
          (λ inside.
            let low : lo < h = ground arith in
            rw
              (
                load-ok a.block lo (pos 0) (omega (arith, sorted.in_block)),
                load-ok a.block h (pos 0) (omega (arith, sorted.in_block)),
                as_int-ok (at a.block lo +ℤ at a.block h) (fits lo h low le),
              )
              (Returns-if ((at a.block lo +ℤ at a.block h) ==ℤ target)
                (λ e. returns (inl (lo, h, refl, (low, le, eq_of_==ℤ _ _ e))))
                λ differ.
                  Returns-if (ltb_ℤ (at a.block lo +ℤ at a.block h) target)
                    (λ less.
                      subst
                        (λ t.
                          Returns (Paired a target)
                            (two_pointer_loop fuel a.block target (lo + 1) t))
                        (last_index h)
                        (loop-Paired fuel (lo + 1) (suc h) (omega arith) le
                          (Between-right lo h le less b)))
                    λ more.
                      loop-Paired fuel lo h (omega arith) (omega arith)
                        (Between-left lo h low le differ more b)))
          λ outside.
            let high : h ≤ lo = ground arith in
            returns (inr (refl, λ i j p. absurd (omega (arith, b i j p, p.0)))))

-- On a sorted array whose size fits an `int` and whose sums of two values fit one,
-- `array_two_pointer_pair` always returns: two indices in order whose values have the target sum, or
-- false if no two indices have.
pub array_two_pointer_pair-Paired :
    (a : Array) (target : ℤ)
    → IsSorted a
    → SumsFit a
    → Returns (Paired a target) (array_two_pointer_pair a target)
unfolding array_two_pointer_pair
array_two_pointer_pair-Paired a target sorted fits = rw (as_int-pos a.size sorted.int_size) (
    loop-Paired a target sorted fits (a.size + 1) 0 a.size (omega arith) (omega arith)
      λ i j p. (omega arith, p.1))
