-- ===== src/Bits/Lowest.antt =====
-- `bit_clear_lsb` and `bit_is_pow2`: what `x & (x - 1)` does to the lowest one of a word.
use Prim.Native.Nat.{min, bit_and}
use native.Mathlib.Nat.{one-le-pow, mul-le-mul_left, add-mul}
use dsa_guide.Prelude.{
  ℕ, zero, suc, ◌+◌, ◌-◌, ◌*◌, ◌/◌, ◌%◌, ◌^◌, ◌<◌, ◌≤◌, ◌≡◌, ◌↔◌, refl, ap, ap₂, ◌∙◌, true,
  ℕ_discrete, arith,
}
use dsa_guide.Words.Steps.{bit_and-halves}
use dsa_guide.Words.Mask.{mul-pow_suc}
use dsa_guide.Bits.{words, bit_clear_lsb, bit_is_pow2}

and_self_fuel : (n a : ℕ) → a ≤ n → bit_and a a ≡ a
and_self_fuel n zero h = refl
and_self_fuel zero (suc a) h = absurd (omega arith)
and_self_fuel (suc n) (suc a) h =
    omega (arith, bit_and-halves (suc a) (suc a), and_self_fuel n (suc a / 2) (omega arith))

-- Every number but 0 is an odd number shifted to the left.
odd_part : (n x : ℕ) → x ≤ n → 0 < x → (k m : ℕ) × (x ≡ (2 * m + 1) * 2 ^ k)
odd_part zero x h p = absurd (omega arith)
odd_part (suc n) x h p = elim (ℕ_discrete (x % 2) 0) [
  | yes even ↦
      let (k, m, e) = odd_part n (x / 2) (omega arith) (omega arith) in
      (suc k, m, omega (arith, e, mul-pow_suc (2 * m + 1) k))
  | no odd ↦ (0, x / 2, omega arith)
]

odd_pos : (k m : ℕ) → 0 < (2 * m + 1) * 2 ^ k
odd_pos k m =
    omega (arith, one-le-pow k 2, mul-le-mul_left (2 * m + 1) (one-le-pow k 2 (omega arith)))

and-half :
    (x y : ℕ) {a b : ℕ}
    → x / 2 ≡ a
    → y / 2 ≡ b
    → bit_and x y ≡ bit_and a b * 2 + min (x % 2) (y % 2)
and-half x y e f = bit_and-halves x y ∙ ap₂ (λ s t. bit_and s t * 2 + min (x % 2) (y % 2)) e f

and-pred : (k m : ℕ) → bit_and ((2 * m + 1) * 2 ^ k) ((2 * m + 1) * 2 ^ k - 1) ≡ 2 * m * 2 ^ k
and-pred zero m = omega (
  arith,
  and-half ((2 * m + 1) * 2 ^ 0) ((2 * m + 1) * 2 ^ 0 - 1) {a = m} {b = m} (omega arith)
      (omega arith),
  and_self_fuel m m (omega arith),
)
and-pred (suc k) m =
    let shifted = mul-pow_suc (2 * m + 1) k in
    omega (
      arith,
      shifted,
      mul-pow_suc (2 * m) k,
      odd_pos k m,
      and-half ((2 * m + 1) * 2 ^ suc k) ((2 * m + 1) * 2 ^ suc k - 1) {a = (2 * m + 1) * 2 ^ k}
          {b = (2 * m + 1) * 2 ^ k - 1} (omega (arith, shifted))
          (omega (arith, shifted, odd_pos k m)),
      and-pred k m,
    )

pred : (x : ℕ) → 0 < x → x < words → (x + words - 1) % words ≡ x - 1
pred x p h = omega arith

cleared :
    (x k m : ℕ)
    → x < words
    → x ≡ (2 * m + 1) * 2 ^ k
    → bit_and x ((x + words - 1) % words) ≡ 2 * m * 2 ^ k
cleared x k m h e =
    ap₂ bit_and e (pred x (omega (arith, e, odd_pos k m)) h ∙ ap (λ t. t - 1) e) ∙ and-pred k m

-- In every word but 0, `bit_clear_lsb` clears the lowest one, and no other bit: a word is
-- `(2 * m + 1) * 2 ^ k` for some `k` and `m`, and the result is `2 * m * 2 ^ k`; of 0 it leaves 0.
pub bit_clear_lsb-lowest :
    (x : ℕ)
    → x < words
    → (0 < x → (k m : ℕ) × (x ≡ (2 * m + 1) * 2 ^ k) × (bit_clear_lsb x ≡ 2 * m * 2 ^ k))
      × (bit_clear_lsb 0 ≡ 0)
unfolding bit_clear_lsb
bit_clear_lsb-lowest x h =
    (λ p. let (k, m, e) = odd_part x x (omega arith) p in (k, m, e, cleared x k m h e), refl)

-- `bit_is_pow2` answers true for the powers of two, and for no other word.
pub bit_is_pow2-power : (x : ℕ) → x < words → (bit_is_pow2 x ≡ true) ↔ ((k : ℕ) × (x ≡ 2 ^ k))
unfolding bit_is_pow2
bit_is_pow2-power x h = (
  λ yes_pow2.
      let p : 0 < x = ground arith in
      let (k, m, e) = odd_part x x (omega arith) p in
      let zero_left : bit_and x ((x + words - 1) % words) ≡ 0 = ground arith in
      (k, omega (arith, e, cleared x k m h e, zero_left, add-mul (2 * m) 1 (2 ^ k))),
  λ (k, e).
      let zero_left = cleared x k 0 h (omega (arith, e)) in
      ground (arith, zero_left, e, one-le-pow k 2),
)
