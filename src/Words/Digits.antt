-- ===== src/Words/Digits.antt =====
-- Bit `k` of a number, how the word operations act on it, and equality of words bit by bit.
use Prim.Native.Nat.{min, max, bit_and, bit_or, bit_xor, bit_and-bitwise}
use native.Mathlib.Nat.{pow-suc}
use dsa_guide.Prelude.{
  ℕ, zero, suc, ◌+◌, ◌/◌, ◌%◌, ◌^◌, ◌<◌, ◌≤◌, ◌≡◌, refl, ap, ◌∙◌, arith, ◌==◌, if◌then◌else◌,
}
use dsa_guide.Words.Steps.{bit_and-halves, bit_or-halves, bit_xor-halves}

abbrev pub bit : ℕ → ℕ → ℕ
bit x zero = x % 2
bit x (suc k) = bit (x / 2) k

pub bit-le-one : (x k : ℕ) → bit x k ≤ 1
bit-le-one x zero = omega arith
bit-le-one x (suc k) = bit-le-one (x / 2) k

-- The exclusive or of two bits.
abbrev pub flip : ℕ → ℕ → ℕ
flip a b = (a + b) % 2

pub bit-bit_and : (a b k : ℕ) → bit (bit_and a b) k ≡ min (bit a k) (bit b k)
bit-bit_and a b zero = omega (arith, bit_and-halves a b)
bit-bit_and a b (suc k) =
    ap (λ t. bit t k) (omega (arith, bit_and-halves a b)) ∙ bit-bit_and (a / 2) (b / 2) k

pub bit-bit_or : (a b k : ℕ) → bit (bit_or a b) k ≡ max (bit a k) (bit b k)
bit-bit_or a b zero = omega (arith, bit_or-halves a b)
bit-bit_or a b (suc k) =
    ap (λ t. bit t k) (omega (arith, bit_or-halves a b)) ∙ bit-bit_or (a / 2) (b / 2) k

pub bit-bit_xor : (a b k : ℕ) → bit (bit_xor a b) k ≡ flip (bit a k) (bit b k)
bit-bit_xor a b zero = omega (arith, bit_xor-halves a b)
bit-bit_xor a b (suc k) =
    ap (λ t. bit t k) (omega (arith, bit_xor-halves a b)) ∙ bit-bit_xor (a / 2) (b / 2) k

-- Numbers below 2 ^ w with the same first `w` bits are equal.
pub eq_of_bits : (w a b : ℕ) → a < 2 ^ w → b < 2 ^ w → ((k : ℕ) → k < w → bit a k ≡ bit b k) → a ≡ b
eq_of_bits zero a b h l e = omega arith
eq_of_bits (suc w) a b h l e = omega (
  arith,
  e 0 (omega arith),
  eq_of_bits w (a / 2) (b / 2) (omega (arith, pow-suc 2 w)) (omega (arith, pow-suc 2 w))
      λ k p. e (suc k) (omega arith),
)

-- The operations stay within the width of their arguments.
pub bit_and-lt : (w a b : ℕ) → a < 2 ^ w → bit_and a b < 2 ^ w
bit_and-lt zero a b h = let e : a ≡ 0 = omega arith in rw (e, bit_and-bitwise 0 b) (omega arith)
bit_and-lt (suc w) a b h = omega (
  arith,
  pow-suc 2 w,
  bit_and-halves a b,
  bit_and-lt w (a / 2) (b / 2) (omega (arith, pow-suc 2 w)),
)

pub bit_or-lt : (w a b : ℕ) → a < 2 ^ w → b < 2 ^ w → bit_or a b < 2 ^ w
bit_or-lt zero a b h k =
    let e : a ≡ 0 = omega arith in let e' : b ≡ 0 = omega arith in rw (e, e') (omega arith)
bit_or-lt (suc w) a b h k = omega (
  arith,
  pow-suc 2 w,
  bit_or-halves a b,
  bit_or-lt w (a / 2) (b / 2) (omega (arith, pow-suc 2 w)) (omega (arith, pow-suc 2 w)),
)

pub bit_xor-lt : (w a b : ℕ) → a < 2 ^ w → b < 2 ^ w → bit_xor a b < 2 ^ w
bit_xor-lt zero a b h k =
    let e : a ≡ 0 = omega arith in let e' : b ≡ 0 = omega arith in rw (e, e') (omega arith)
bit_xor-lt (suc w) a b h k = omega (
  arith,
  pow-suc 2 w,
  bit_xor-halves a b,
  bit_xor-lt w (a / 2) (b / 2) (omega (arith, pow-suc 2 w)) (omega (arith, pow-suc 2 w)),
)

pub bit-zero : (k : ℕ) → bit 0 k ≡ 0
bit-zero zero = refl
bit-zero (suc k) = bit-zero k

-- Powers of two have one bit.
pub bit-pow : (k j : ℕ) → bit (2 ^ k) j ≡ (if k == j then 1 else 0)
bit-pow zero zero = refl
bit-pow zero (suc j) = bit-zero j ∙ ground arith
bit-pow (suc k) zero = ground (arith, pow-suc 2 k)
bit-pow (suc k) (suc j) =
    ap (λ t. bit t j) {y = 2 ^ k} (omega (arith, pow-suc 2 k)) ∙ bit-pow k j ∙ ground arith
