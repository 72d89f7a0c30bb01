-- ===== src/Words/Steps.antt =====
-- The native bit operations recur on halves with fuel; here each has one equation for its last bit.
use Prim.Native.Nat.{
  min, max, differ, digits, bit_and, bit_or, bit_xor, bit_and-bitwise, bit_or-bitwise,
  bit_xor-bitwise,
}
use dsa_guide.Prelude.{ℕ, zero, suc, ◌+◌, ◌-◌, ◌*◌, ◌/◌, ◌%◌, ◌≤◌, ◌≡◌, refl, sym, ap, ◌∙◌, arith}

-- More fuel than the number needs changes nothing.
fuel_irrelevant :
    (z : ℕ → ℕ) (f : ℕ → ℕ → ℕ) (a n m b : ℕ) → a ≤ n → a ≤ m → digits z f n a b ≡ digits z f m a b
fuel_irrelevant z f a zero zero b p q = refl
fuel_irrelevant z f zero zero (suc m) b p q = refl
fuel_irrelevant z f zero (suc n) zero b p q = refl
fuel_irrelevant z f zero (suc n) (suc m) b p q = refl
fuel_irrelevant z f (suc a) zero m b p q = absurd (omega arith)
fuel_irrelevant z f (suc a) n zero b p q = absurd (omega arith)
fuel_irrelevant z f (suc a) (suc n) (suc m) b p q =
    ap (λ t. t * 2 + f (suc a % 2) (b % 2))
      (fuel_irrelevant z f (suc a / 2) n m (b / 2) (omega arith) (omega arith))

halve :
    (z : ℕ → ℕ) (f : ℕ → ℕ → ℕ) (a b : ℕ)
    → digits z f (suc a) (suc a) b
      ≡ digits z f (suc a / 2) (suc a / 2) (b / 2) * 2 + f (suc a % 2) (b % 2)
halve z f a b =
    ap (λ t. t * 2 + f (suc a % 2) (b % 2))
      (fuel_irrelevant z f (suc a / 2) a (suc a / 2) (b / 2) (omega arith) (omega arith))

pub bit_and-halves : (a b : ℕ) → bit_and a b ≡ bit_and (a / 2) (b / 2) * 2 + min (a % 2) (b % 2)
bit_and-halves zero b = omega (arith, bit_and-bitwise 0 b, bit_and-bitwise 0 (b / 2))
bit_and-halves (suc a) b =
    bit_and-bitwise (suc a) b
    ∙ halve (λ y. zero) min a b
    ∙ ap (λ t. t * 2 + min (suc a % 2) (b % 2)) (sym (bit_and-bitwise (suc a / 2) (b / 2)))

pub bit_or-halves : (a b : ℕ) → bit_or a b ≡ bit_or (a / 2) (b / 2) * 2 + max (a % 2) (b % 2)
bit_or-halves zero b = omega (arith, bit_or-bitwise 0 b, bit_or-bitwise 0 (b / 2))
bit_or-halves (suc a) b =
    bit_or-bitwise (suc a) b
    ∙ halve (λ y. y) max a b
    ∙ ap (λ t. t * 2 + max (suc a % 2) (b % 2)) (sym (bit_or-bitwise (suc a / 2) (b / 2)))

-- On single bits `differ` is addition modulo 2.
differ-difference : (a b : ℕ) → differ a b ≡ (a - b) + (b - a)
differ-difference zero b = omega arith
differ-difference (suc a) zero = omega arith
differ-difference (suc a) (suc b) = omega (arith, differ-difference a b)

pub bit_xor-halves : (a b : ℕ) → bit_xor a b ≡ bit_xor (a / 2) (b / 2) * 2 + (a % 2 + b % 2) % 2
bit_xor-halves zero b = omega (arith, bit_xor-bitwise 0 b, bit_xor-bitwise 0 (b / 2))
bit_xor-halves (suc a) b =
    bit_xor-bitwise (suc a) b
    ∙ halve (λ y. y) differ a b
    ∙ omega (arith, differ-difference (suc a % 2) (b % 2), bit_xor-bitwise (suc a / 2) (b / 2))
