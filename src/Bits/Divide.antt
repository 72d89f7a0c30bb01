-- ===== src/Bits/Divide.antt =====
-- `bit_div` is division.
use Prim.Native.Nat.{bit_or}
use native.Mathlib.Nat.{pow-suc, div-eq_of_lt, mod-eq_of_lt, add-mul-div_right, add-mul, mul_comm}
use dsa_guide.Prelude.{
  ℕ, zero, suc, ◌+◌, ◌-◌, ◌*◌, ◌/◌, ◌%◌, ◌^◌, ◌<◌, ◌≤◌, ◌≡◌, ap, ◌∙◌, ok, aborted, ◌==◌,
  if◌then◌else◌, dec_lt, ℕ_discrete, arith,
}
use dsa_guide.Words.Steps.{bit_or-halves}
use dsa_guide.Words.Mask.{bit_or-zero, mul-pow_suc}
use dsa_guide.Bits.{words, div_loop, bit_div}

-- What GCC says of `__builtin_clz` for a word that is not 0: it counts the zeros before the first one.
pub record IsClz (clz : ℕ → ℕ) : Type 0 where
  pub low : (x : ℕ) → 0 < x → x < words → clz x < 32
  pub least : (x : ℕ) → 0 < x → x < words → 2 ^ 31 ≤ x * 2 ^ clz x
  pub most : (x : ℕ) → 0 < x → x < words → x * 2 ^ clz x < words

-- A bit below those of a number is added to it.
bit_or-low : (s q : ℕ) → bit_or (q * 2 ^ suc s) (2 ^ s) ≡ q * 2 ^ suc s + 2 ^ s
bit_or-low zero q = omega (
  arith,
  bit_or-halves (q * 2) 1,
  bit_or-zero q,
  ap (λ t. bit_or t 0) {x = q * 2 / 2} {y = q} (omega arith),
)
bit_or-low (suc s) q = omega (
  arith,
  bit_or-halves (q * 2 ^ suc (suc s)) (2 ^ suc s),
  pow-suc 2 s,
  mul-pow_suc q (suc s),
  ap (λ t. bit_or t (2 ^ suc s / 2)) {x = q * 2 ^ suc (suc s) / 2} {y = q * 2 ^ suc s}
      (omega (arith, mul-pow_suc q (suc s))),
  ap (bit_or (q * 2 ^ suc s)) {x = 2 ^ suc s / 2} {y = 2 ^ s} (omega (arith, pow-suc 2 s)),
  bit_or-low s q,
)

-- The quotient so far ends in `s` zeros, which the remaining rounds fill with `a / b`.
div_loop-div :
    (s q a b : ℕ)
    → 0 < b
    → a < b * 2 ^ s
    → b * 2 ^ s < 2 * words
    → div_loop s b a (q * 2 ^ s) ≡ q * 2 ^ s + a / b
unfolding div_loop
div_loop-div zero q a b pos_b h l = omega (arith, div-eq_of_lt {n = a} {m = b} (omega arith))
div_loop-div (suc s) q a b pos_b h l =
    let shifted : b * 2 ^ s % words ≡ b * 2 ^ s =
      mod-eq_of_lt {n = b * 2 ^ s} {m = words} (omega (arith, mul-pow_suc b s)) in
    let twice : q * 2 ^ suc s ≡ (q + q) * 2 ^ s =
      omega (arith, mul-pow_suc q s, add-mul q q (2 ^ s)) in
    elim (dec_lt a (b * 2 ^ s)) [
      | yes less ↦
          let rest = div_loop-div s (q + q) a b pos_b less (omega (arith, mul-pow_suc b s)) in
          ground (arith, shifted, ap (div_loop s b a) twice, twice, rest)
      | no fits ↦
          let set_bit : bit_or (q * 2 ^ suc s) (2 ^ s) ≡ (q + q + 1) * 2 ^ s =
            omega (arith, bit_or-low s q, twice, add-mul (q + q) 1 (2 ^ s)) in
          let rest =
            div_loop-div s (q + q + 1) (a - b * 2 ^ s) b pos_b (omega (arith, mul-pow_suc b s))
              (omega (arith, mul-pow_suc b s)) in
          let quotient : a / b ≡ (a - b * 2 ^ s) / b + 2 ^ s =
            ap (λ t. t / b) {x = a} {y = a - b * 2 ^ s + 2 ^ s * b}
              (omega (arith, mul_comm b (2 ^ s)))
            ∙ add-mul-div_right (a - b * 2 ^ s) (2 ^ s) pos_b in
          ground (
            arith,
            shifted,
            ap (div_loop s b (a - b * 2 ^ s)) set_bit,
            ap (λ t. div_loop s b (a - t) (bit_or (q * 2 ^ suc s) (2 ^ s))) shifted,
            set_bit,
            bit_or-low s q,
            rest,
            quotient,
          )
    ]

-- If `clz` counts the leading zeros as `__builtin_clz` does, `bit_div` returns the quotient for
-- every two words, and fails its assertion for the divisor 0.
pub bit_div-div :
    (clz : ℕ → ℕ) (a b : ℕ)
    → IsClz clz
    → a < words
    → b < words
    → bit_div clz a b ≡ (if b == 0 then aborted else ok (a / b))
unfolding bit_div
bit_div-div clz a b laws h i = elim (ℕ_discrete b 0) [
  | yes e ↦ ground arith
  | no ne ↦ ground (
    arith,
    ap (λ t. div_loop (suc (clz b)) b a t) {x = 0 * 2 ^ (suc (clz b))} {y = 0} (omega arith),
    div_loop-div (suc (clz b)) 0 a b (omega arith)
        (omega (arith, laws.least b (omega arith) i, mul-pow_suc b (clz b)))
        (omega (arith, laws.most b (omega arith) i, mul-pow_suc b (clz b))),
  )
]
