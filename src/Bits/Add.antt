-- ===== src/Bits/Add.antt =====
-- `bit_add` and `bit_sub`: addition by exclusive or and carries.
use Prim.Native.Nat.{bit_and, bit_xor, bit_and-bitwise, bit_xor-bitwise}
use native.Mathlib.Nat.{pow-suc}
use dsa_guide.Prelude.{
  ℕ, zero, suc, ◌+◌, ◌-◌, ◌*◌, ◌/◌, ◌%◌, ◌^◌, ◌<◌, ◌≤◌, ◌≡◌, ap, ◌∙◌, ok, undefined, ◌==◌,
  if◌then◌else◌, arith, ℕ_discrete, subst,
}
use dsa_guide.Words.Steps.{bit_and-halves, bit_xor-halves}
use dsa_guide.Words.Digits.{bit_xor-lt}
use dsa_guide.Words.Mask.{half-mod, mod_pow-mod_pow, bit_not}
use dsa_guide.Bits.{words, add_loop, bit_add, bit_negate, bit_sub}

-- Exclusive or is the sum without the carries, and the carries make up the rest.
sum-parts : (w a b : ℕ) → a < 2 ^ w → bit_xor a b + 2 * bit_and a b ≡ a + b
sum-parts zero a b h =
    let e : a ≡ 0 = omega arith in rw e (omega (arith, bit_xor-bitwise 0 b, bit_and-bitwise 0 b))
sum-parts (suc w) a b h = omega (
  arith,
  bit_xor-halves a b,
  bit_and-halves a b,
  sum-parts w (a / 2) (b / 2) (omega (arith, pow-suc 2 w)),
)

-- The carries into a multiple of 2 ^ k are a multiple of it, and doubled of the next power.
and-multiple : (k a b : ℕ) → b % 2 ^ k ≡ 0 → bit_and a b % 2 ^ k ≡ 0
and-multiple zero a b h = omega arith
and-multiple (suc k) a b h =
    half-mod k (bit_and a b)
    ∙ omega (
      arith,
      half-mod k b,
      bit_and-halves a b,
      ap (λ t. t % 2 ^ k) {x = bit_and a b / 2} {y = bit_and (a / 2) (b / 2)}
          (omega (arith, bit_and-halves a b)),
      and-multiple k (a / 2) (b / 2) (omega (arith, half-mod k b)),
    )

carry-multiple : (k a b : ℕ) → k < 32 → b % 2 ^ k ≡ 0 → bit_and a b * 2 % words % 2 ^ suc k ≡ 0
carry-multiple k a b l h =
    mod_pow-mod_pow (bit_and a b * 2) (suc k) 32 l
    ∙ half-mod k (bit_and a b * 2)
    ∙ omega (
      arith,
      ap (λ t. t % 2 ^ k) {x = bit_and a b * 2 / 2} {y = bit_and a b} (omega arith),
      and-multiple k a b h,
    )

-- After the rounds before, the second number is a multiple of 2 ^ k.
add_loop-add :
    (fuel k a b : ℕ)
    → 32 - k < fuel
    → k ≤ 32
    → a < words
    → b < words
    → b % 2 ^ k ≡ 0
    → add_loop fuel a b ≡ ok ((a + b) % words)
unfolding add_loop
add_loop-add zero k a b f l h i m = absurd (omega arith)
add_loop-add (suc fuel) k a b f l h i m = elim (ℕ_discrete b 0) [
  | yes e ↦ ground arith
  | no ne ↦ elim (ℕ_discrete k 32) [
    | yes e ↦ absurd (omega (arith, subst (λ t. b % 2 ^ t ≡ 0) e m))
    | no small ↦
        let rest =
          add_loop-add fuel (suc k) (bit_xor a b) (bit_and a b * 2 % words) (omega arith)
            (omega arith) (bit_xor-lt 32 a b h i) (omega arith)
            (carry-multiple k a b (omega arith) m) in
        ground (arith, rest, sum-parts 32 a b h)
  ]
]

-- `bit_add` always returns the sum of two words modulo 2 ^ 32: the sum of two `int32_t`s, wrapped.
pub bit_add-add : (a b : ℕ) → a < words → b < words → bit_add a b ≡ ok ((a + b) % words)
unfolding bit_add
bit_add-add a b h i = add_loop-add 33 0 a b (omega arith) (omega arith) h i (omega arith)

-- `bit_sub` returns the difference of two words modulo 2 ^ 32, for every second word but that of
-- -2 ^ 31, whose negation overflows.
pub bit_sub-sub :
    (a b : ℕ)
    → a < words
    → b < words
    → bit_sub a b ≡ (if b == 2 ^ 31 then undefined else ok ((a + words - b) % words))
unfolding bit_sub bit_negate
bit_sub-sub a b h i = ground (arith, bit_add-add a ((bit_not 32 b + 1) % words))
