-- ===== src/Bitmap/First.antt =====
-- `bm_find_first_set` finds the first bit of a bitmap that is 1.
use dsa_guide.Prelude.{
  ℕ, zero, suc, ◌+◌, ◌*◌, ◌%◌, ◌^◌, ◌<◌, ◌≡◌, ◌⊎◌, inl, inr, refl, ap, ◌∙◌, true, false, ℤ, pos,
  negsuc, as_int-pos, get_or, load-ok, Returns, returns, ◌==◌, dec_lt, ℕ_discrete, arith,
}
use dsa_guide.Words.Digits.{bit, bit-zero}
use dsa_guide.Bitmap.{Bitmap, first_loop, bm_find_first_set, member, IsValid}

-- What GCC says of `__builtin_ctzll` for a word that is not 0: it counts the zeros below the lowest one.
pub record IsCtz (ctz : ℕ → ℕ) : Type 0 where
  pub below : (w : ℕ) → 0 < w → w < 2 ^ 64 → ctz w < 64
  pub one : (w : ℕ) → 0 < w → w < 2 ^ 64 → bit w (ctz w) ≡ 1
  pub zeros : (w k : ℕ) → 0 < w → w < 2 ^ 64 → k < ctz w → bit w k ≡ 0

-- The first bit that is 1, or -1 if there is none.
abbrev pub IsFirst : Bitmap → ℤ → Type 0
IsFirst bm r =
    ((i : ℕ) × (r ≡ pos i) × (member bm i ≡ 1) × ((j : ℕ) → j < i → member bm j ≡ 0))
    ⊎ ((r ≡ negsuc 0) × ((j : ℕ) → j < 64 * bm.word_count → member bm j ≡ 0))

module _ (ctz : ℕ → ℕ) (laws : IsCtz ctz) (bm : Bitmap) (v : IsValid bm)
    (small : 64 * bm.word_count < 2 ^ 31) where
  loop-IsFirst :
      (n i : ℕ)
      → i + n ≡ bm.word_count
      → ((j : ℕ) → j < 64 * i → member bm j ≡ 0)
      → Returns (IsFirst bm) (first_loop ctz n i bm.block)
  unfolding first_loop
  loop-IsFirst zero i e none_before = returns (inr (refl, λ j h. none_before j (omega arith)))
  loop-IsFirst (suc n) i e none_before =
      let w = get_or bm.block i 0 in
      let loaded = load-ok bm.block i 0 (omega (arith, v.word_count_eq)) in
      elim (ℕ_discrete w 0) [
        | yes empty ↦
            let test : (w == 0) ≡ true = ground arith in
            rw (loaded, test)
              (loop-IsFirst n (i + 1) (omega arith) λ j h. elim (dec_lt j (64 * i)) [
                | yes p ↦ none_before j p
                | no p ↦
                    ap (λ t. bit (get_or bm.block t 0) (j % 64)) {y = i} (omega arith)
                    ∙ ap (λ t. bit t (j % 64)) empty
                    ∙ bit-zero (j % 64)
              ])
        | no some_one ↦
            let test : (w == 0) ≡ false = ground arith in
            let p : 0 < w = omega arith in
            let q = v.in_words i in
            let c = laws.below w p q in
            rw (loaded, test, as_int-pos (i * 64 + ctz w) (omega arith))
              (returns (
                inl (
                  i * 64 + ctz w,
                  refl,
                  ap (λ t. bit (get_or bm.block t 0) ((i * 64 + ctz w) % 64)) {y = i} (omega arith)
                      ∙ ap (bit w) {x = (i * 64 + ctz w) % 64} {y = ctz w} (omega arith)
                      ∙ laws.one w p q,
                  λ j h. elim (dec_lt j (64 * i)) [
                    | yes r ↦ none_before j r
                    | no r ↦
                        ap (λ t. bit (get_or bm.block t 0) (j % 64)) {y = i} (omega arith)
                        ∙ laws.zeros w (j % 64) p q (omega arith)
                  ],
                )))
      ]

-- If `ctz` counts the trailing zeros as `__builtin_ctzll` does, `bm_find_first_set` always returns
-- on a valid bitmap whose words have fewer than 2 ^ 31 bits: the first bit that is 1, or -1 if all
-- are 0.
pub bm_find_first_set-IsFirst :
    (ctz : ℕ → ℕ) (bm : Bitmap)
    → IsCtz ctz
    → IsValid bm
    → 64 * bm.word_count < 2 ^ 31
    → Returns (IsFirst bm) (bm_find_first_set ctz bm)
unfolding bm_find_first_set
bm_find_first_set-IsFirst ctz bm laws v small =
    loop-IsFirst ctz laws bm v small bm.word_count 0 (omega arith) λ j h. absurd (omega arith)
