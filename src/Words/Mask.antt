-- ===== src/Words/Mask.antt =====
-- Masks of low bits, shifts and complements of words, as arithmetic and bit by bit.
use Prim.Native.Nat.{bit_and, bit_or}
use native.Mathlib.Nat.{
  pow-suc, one-le-pow, mod-lt, mod-eq_of_lt, mul-add-mod_self_right, div-add-mod',
  div-div-eq-div-mul, dvd_refl, dvd-mul_right_of_dvd, mod-mod_of_dvd,
}
use dsa_guide.Prelude.{
  ℕ, zero, suc, ◌+◌, ◌-◌, ◌*◌, ◌/◌, ◌%◌, ◌^◌, ◌<◌, ◌≤◌, ◌≡◌, refl, sym, ap, ◌∙◌, subst, ◌∣◌, arith,
  ltb, if◌then◌else◌,
}
use dsa_guide.Words.Steps.{bit_and-halves, bit_or-halves}
use dsa_guide.Words.Digits.{bit, bit-zero}

and-zero_fuel : (n a : ℕ) → a ≤ n → bit_and a 0 ≡ 0
and-zero_fuel n zero h = refl
and-zero_fuel zero (suc a) h = absurd (omega arith)
and-zero_fuel (suc n) (suc a) h =
    omega (arith, bit_and-halves (suc a) 0, and-zero_fuel n (suc a / 2) (omega arith))

pub bit_and-zero : (a : ℕ) → bit_and a 0 ≡ 0
bit_and-zero a = and-zero_fuel a a (omega arith)

or-zero_fuel : (n a : ℕ) → a ≤ n → bit_or a 0 ≡ a
or-zero_fuel n zero h = refl
or-zero_fuel zero (suc a) h = absurd (omega arith)
or-zero_fuel (suc n) (suc a) h =
    omega (arith, bit_or-halves (suc a) 0, or-zero_fuel n (suc a / 2) (omega arith))

pub bit_or-zero : (a : ℕ) → bit_or a 0 ≡ a
bit_or-zero a = or-zero_fuel a a (omega arith)

-- Halving a remainder by 2 ^ (k + 1).
pub half-mod : (k a : ℕ) → a % 2 ^ suc k ≡ a / 2 % 2 ^ k * 2 + a % 2
half-mod k a =
    ap (λ t. t % 2 ^ suc k) split
    ∙ mul-add-mod_self_right (a / 2 / 2 ^ k) (2 ^ suc k) (a / 2 % 2 ^ k * 2 + a % 2)
    ∙ mod-eq_of_lt (omega (arith, pow-suc 2 k, below))
  where
    below : a / 2 % 2 ^ k < 2 ^ k
    below = mod-lt (a / 2) (one-le-pow k 2 (omega arith))

    split : a ≡ a / 2 / 2 ^ k * 2 ^ suc k + (a / 2 % 2 ^ k * 2 + a % 2)
    split =
        omega (arith, div-add-mod' (a / 2) (2 ^ k), ap (λ (t : ℕ). a / 2 / 2 ^ k * t) (pow-suc 2 k))

-- `a & (2 ^ k - 1)` is the remainder by 2 ^ k.
pub bit_and_mask : (k a : ℕ) → bit_and a (2 ^ k - 1) ≡ a % 2 ^ k
bit_and_mask zero a = omega (arith, bit_and-zero a)
bit_and_mask (suc k) a = ground (
  arith,
  bit_and-halves a (2 ^ suc k - 1),
  bit_and_mask k (a / 2),
  half-mod k a,
  pow-suc 2 k,
  one-le-pow k 2,
)

pub mul-pow_suc : (x k : ℕ) → x * 2 ^ suc k ≡ x * 2 ^ k * 2
mul-pow_suc x k = omega (arith, ap (λ (t : ℕ). x * t) (pow-suc 2 k))

-- Bit `j` of a shift to the left, of a shift to the right, and of a remainder.
pub bit-shl : (x k j : ℕ) → bit (x * 2 ^ k) j ≡ (if ltb j k then 0 else bit x (j - k))
bit-shl x zero j = ap (λ t. bit t j) {y = x} (omega arith) ∙ ground arith
bit-shl x (suc k) zero = ground (arith, mul-pow_suc x k)
bit-shl x (suc k) (suc j) =
    ap (λ t. bit t j) {y = x * 2 ^ k} (omega (arith, mul-pow_suc x k))
    ∙ bit-shl x k j
    ∙ ground arith

pub bit-shr : (x k j : ℕ) → bit (x / 2 ^ k) j ≡ bit x (k + j)
bit-shr x zero j =
    ap (λ t. bit t j) {x = x / 1} {y = x} (omega arith)
    ∙ ap (bit x) {x = j} {y = 0 + j} (omega arith)
bit-shr x (suc k) j =
    ap (λ t. bit t j) halved
    ∙ bit-shr (x / 2) k j
    ∙ ap (bit x) {x = suc (k + j)} {y = suc k + j} (omega arith)
  where
    halved : x / 2 ^ suc k ≡ x / 2 / 2 ^ k
    halved = ap (λ t. x / t) (omega (arith, pow-suc 2 k)) ∙ sym (div-div-eq-div-mul x 2 (2 ^ k))

pub bit-mod : (x w j : ℕ) → bit (x % 2 ^ w) j ≡ (if ltb j w then bit x j else 0)
bit-mod x zero j = ap (λ t. bit t j) {y = 0} (omega arith) ∙ bit-zero j ∙ ground arith
bit-mod x (suc w) zero = ground (arith, half-mod w x)
bit-mod x (suc w) (suc j) =
    ap (λ t. bit t j) {y = x / 2 % 2 ^ w} (omega (arith, half-mod w x))
    ∙ bit-mod (x / 2) w j
    ∙ ground arith

-- `~x` in a word of `w` bits.
abbrev pub bit_not : ℕ → ℕ → ℕ
bit_not w x = 2 ^ w - 1 - x

pub bit-bit_not :
    (w x j : ℕ) → x < 2 ^ w → bit (bit_not w x) j ≡ (if ltb j w then 1 - bit x j else 0)
bit-bit_not zero x j h = ap (λ t. bit t j) {y = 0} (omega arith) ∙ bit-zero j ∙ ground arith
bit-bit_not (suc w) x zero h = ground (arith, pow-suc 2 w, one-le-pow w 2)
bit-bit_not (suc w) x (suc j) h =
    ap (λ t. bit t j) {y = bit_not w (x / 2)} (omega (arith, pow-suc 2 w))
    ∙ bit-bit_not w (x / 2) j (omega (arith, pow-suc 2 w))
    ∙ ground arith

pow-dvd : (k d : ℕ) → 2 ^ k ∣ 2 ^ (k + d)
pow-dvd k zero = subst (λ t. 2 ^ k ∣ 2 ^ t) {x = k} (omega arith) (dvd_refl (2 ^ k))
pow-dvd k (suc d) =
    subst (λ t. 2 ^ k ∣ t) {x = 2 ^ (k + d) * 2}
      (sym (pow-suc 2 (k + d)) ∙ ap (λ t. 2 ^ t) (omega arith))
      (dvd-mul_right_of_dvd (2 ^ k) (pow-dvd k d) 2)

-- Wrapping at 2 ^ w loses nothing modulo a smaller power.
pub mod_pow-mod_pow : (a k w : ℕ) → k ≤ w → a % 2 ^ w % 2 ^ k ≡ a % 2 ^ k
mod_pow-mod_pow a k w h =
    mod-mod_of_dvd (2 ^ k) a
      (subst (λ t. 2 ^ k ∣ 2 ^ t) {x = k + (w - k)} (omega arith) (pow-dvd k (w - k)))
