-- ===== src/Bits/Multiply.antt =====
-- `bit_mul` is multiplication.
use native.Mathlib.Nat.{pow-suc, add-mul, mul_comm, mul_assoc}
use dsa_guide.Prelude.{
  ℕ, zero, suc, ◌+◌, ◌-◌, ◌*◌, ◌/◌, ◌%◌, ◌^◌, ◌<◌, ◌≤◌, ◌≡◌, sym, ap, ◌∙◌, false, not, ok, ◌==◌,
  if◌then◌else◌, ℕ_discrete, Bool-cases, inl, inr, arith,
}
use dsa_guide.Words.Mask.{bit_and_mask}
use dsa_guide.Bits.{words, mul_loop, negate_if, is_negative, bit_mul}
use dsa_guide.Bits.Add.{bit_add-add}

-- Reducing a factor does not change a sum of products modulo 2 ^ 32.
reduce_factor : (r x y : ℕ) → (r + x % words * y) % words ≡ (r + x * y) % words
reduce_factor r x y =
    let split : x * y ≡ x / words * words * y + x % words * y =
      ap (λ (t : ℕ). t * y) {x = x} {y = x / words * words + x % words} (omega arith)
      ∙ add-mul (x / words * words) (x % words) y in
    let carried : x / words * words * y ≡ x / words * y * words =
      mul_assoc (x / words) words y
      ∙ ap (λ (t : ℕ). x / words * t) (mul_comm words y)
      ∙ sym (mul_assoc (x / words) y words) in
    omega (arith, split, carried)

halved : (x y : ℕ) → x * y ≡ x * 2 * (y / 2) + y % 2 * x
halved x y =
    mul_comm x y
    ∙ ap (λ (t : ℕ). t * x) {x = y} {y = y / 2 * 2 + y % 2} (omega arith)
    ∙ add-mul (y / 2 * 2) (y % 2) x
    ∙ ap (λ (t : ℕ). t + y % 2 * x)
        (mul_assoc (y / 2) 2 x
          ∙ mul_comm (y / 2) (2 * x)
          ∙ ap (λ (t : ℕ). t * (y / 2)) (mul_comm 2 x))

fuel_pos : (fuel n : ℕ) → 0 < n → n < 2 ^ fuel → 0 < fuel
fuel_pos zero n h l = absurd (omega arith)
fuel_pos (suc fuel) n h l = omega arith

-- The invariant of the loop: the result so far and the product that is left add up.
mul_loop-mul :
    (fuel result ua ub : ℕ)
    → result < words
    → ua < words
    → 0 < fuel
    → ub * 2 < 2 ^ fuel
    → mul_loop fuel result ua ub ≡ ok ((result + ua * ub) % words)
unfolding mul_loop
mul_loop-mul zero result ua ub h k some_fuel l = absurd (omega arith)
mul_loop-mul (suc fuel) result ua ub h k some_fuel l = elim (ℕ_discrete ub 0) [
  | yes e ↦ ground (arith, ap (λ (t : ℕ). ua * t) e)
  | no ne ↦
      let left : 0 < fuel = fuel_pos fuel ub (omega arith) (omega (arith, pow-suc 2 fuel)) in
      elim (ℕ_discrete (ub % 2) 0) [
        | yes even ↦
            let rest =
              mul_loop-mul fuel result (ua * 2 % words) (ub / 2) h (omega arith) left
                (omega (arith, pow-suc 2 fuel)) in
            ground (
              arith,
              bit_and_mask 1 ub,
              rest,
              reduce_factor result (ua * 2) (ub / 2),
              halved ua ub,
              ap (λ (t : ℕ). t * ua) even,
            )
        | no odd ↦
            let one : ub % 2 ≡ 1 = omega arith in
            let rest =
              mul_loop-mul fuel ((result + ua) % words) (ua * 2 % words) (ub / 2) (omega arith)
                (omega arith) left (omega (arith, pow-suc 2 fuel)) in
            ground (
              arith,
              bit_and_mask 1 ub,
              bit_add-add result ua h k,
              rest,
              reduce_factor ((result + ua) % words) (ua * 2) (ub / 2),
              halved ua ub,
              ap (λ (t : ℕ). t * ua) one,
            )
      ]
]

-- The absolute value of an `int32_t`, as a word.
abbrev pub magnitude : ℕ → ℕ
magnitude x = if is_negative x then words - x else x

negate_if-magnitude :
    (x : ℕ) → x < words → (x == 2 ^ 31) ≡ false → negate_if (is_negative x) x ≡ ok (magnitude x)
negate_if-magnitude x h e = elim (Bool-cases (is_negative x)) [
  | inl negative ↦ rw (negative, e) (ap ok (ground (arith, negative)))
  | inr positive ↦ rw positive
]

magnitude-le : (x : ℕ) → x < words → magnitude x ≤ 2 ^ 31
magnitude-le x h = ground arith

-- For two `int32_t`s but -2 ^ 31, `bit_mul` always ends: with the product of the two magnitudes modulo
-- 2 ^ 32, negated if the signs differ; that last negation overflows when the word is that of -2 ^ 31.
pub bit_mul-mul :
    (a b : ℕ)
    → a < words
    → b < words
    → (a == 2 ^ 31) ≡ false
    → (b == 2 ^ 31) ≡ false
    → bit_mul a b
      ≡ negate_if
          (if is_negative a then not (is_negative b) else is_negative b)
          (magnitude a * magnitude b % words)
unfolding bit_mul
bit_mul-mul a b h k not_min_a not_min_b =
    rw
      (
        negate_if-magnitude a h not_min_a,
        negate_if-magnitude b k not_min_b,
        mul_loop-mul 33 0 (magnitude a) (magnitude b) (omega arith)
            (omega (arith, magnitude-le a h)) (omega arith) (omega (arith, magnitude-le b k)),
      )
      (ap
        (λ t. negate_if (if is_negative a then not (is_negative b) else is_negative b) (t % words))
        {y = magnitude a * magnitude b} (omega arith))
