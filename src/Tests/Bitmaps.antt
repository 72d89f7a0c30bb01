-- ===== src/Tests/Bitmaps.antt =====
-- src/specialized/bitmap.c on a bitmap of two words.
use native.Mathlib.Nat.{pow-suc}
use dsa_guide.Prelude.{
  ℕ, zero, suc, ◌/◌, ◌%◌, ◌^◌, ◌<◌, ◌≡◌, refl, true, false, [], ◌∷◌, get_or, ◌==◌, if◌then◌else◌,
  ℕ_discrete, arith,
}
use dsa_guide.Words.Digits.{bit}
use dsa_guide.Bitmap.{Bitmap, IsValid}
use dsa_guide.Bitmap.First.{IsCtz}

-- The bits 66 and 67 of 100.
abbrev bitmap : Bitmap
bitmap = record { block = 0 ∷ 12 ∷ []; bit_count = 100; word_count = 2 }

bitmap-in_words : (i : ℕ) → get_or bitmap.block i 0 < 2 ^ 64
bitmap-in_words zero = omega arith
bitmap-in_words (suc zero) = omega arith
bitmap-in_words (suc (suc i)) = omega arith

bitmap-IsValid : IsValid bitmap
bitmap-IsValid = record { word_count_eq = refl; enough = omega arith; in_words = bitmap-in_words }

-- The zeros below the lowest one, counted by halving.
trailing_zeros : ℕ → ℕ → ℕ
trailing_zeros zero x = 0
trailing_zeros (suc n) x = let more = trailing_zeros n (x / 2) in if x % 2 == 0 then suc more else 0

record Counts (n x c : ℕ) : Type 0 where
  below : c < n
  one : bit x c ≡ 1
  zeros : (k : ℕ) → k < c → bit x k ≡ 0

trailing_zeros-Counts : (n x : ℕ) → 0 < x → x < 2 ^ n → Counts n x (trailing_zeros n x)
unfolding trailing_zeros
trailing_zeros-Counts zero x p h = absurd (omega arith)
trailing_zeros-Counts (suc n) x p h = elim (ℕ_discrete (x % 2) 0) [
  | yes even ↦
      let test : (x % 2 == 0) ≡ true = ground arith in
      let c = trailing_zeros-Counts n (x / 2) (omega arith) (omega (arith, pow-suc 2 n)) in
      rw test (record {
        below = omega (arith, c.below);
        one = c.one;
        zeros = shifted x (trailing_zeros n (x / 2)) even c.zeros;
      })
  | no odd ↦
      let test : (x % 2 == 0) ≡ false = ground arith in
      rw test
        (record { below = omega arith; one = omega arith; zeros = λ k q. absurd (omega arith) })
]
  where
    shifted :
        (x c : ℕ)
        → x % 2 ≡ 0
        → ((k : ℕ) → k < c → bit (x / 2) k ≡ 0)
        → (k : ℕ) → k < suc c
        → bit x k ≡ 0
    shifted x c even z zero q = even
    shifted x c even z (suc k) q = z k (omega arith)

trailing_zeros-IsCtz : IsCtz (trailing_zeros 64)
trailing_zeros-IsCtz = record {
  below = λ w p h. (trailing_zeros-Counts 64 w p h).below;
  one = λ w p h. (trailing_zeros-Counts 64 w p h).one;
  zeros = λ w k p h. (trailing_zeros-Counts 64 w p h).zeros k;
}
