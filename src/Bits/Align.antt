-- ===== src/Bits/Align.antt =====
-- `bit_align_up`, `bit_align_down` and `bit_is_aligned` at powers of two.
use Prim.Native.Nat.{bit_and}
use native.Mathlib.Nat.{pow-le-pow_right, one-le-pow, mod-lt, div-add-mod', mul-mod_left}
use dsa_guide.Prelude.{
  ℕ, ◌+◌, ◌-◌, ◌*◌, ◌/◌, ◌%◌, ◌^◌, ◌<◌, ◌≤◌, ◌≡◌, ◌↔◌, ap, ap₂, ◌∙◌, true, arith,
}
use dsa_guide.Words.Digits.{bit, bit-le-one, bit-bit_and, bit-zero, bit_and-lt, eq_of_bits}
use dsa_guide.Words.Mask.{bit_and_mask, bit-shl, bit-shr, bit-bit_not, bit_not}
use dsa_guide.Bits.{words, bit_align_up, bit_align_down, bit_is_aligned}

mask : (k : ℕ) → k < 32 → (2 ^ k + words - 1) % words ≡ 2 ^ k - 1
mask k h =
    omega
      (arith, one-le-pow k 2, pow-le-pow_right {n = 2} (omega arith) {i = k} {j = 31} (omega arith))

-- Without its low `k` bits a word is the multiple of 2 ^ k below it.
clear_low : (x k : ℕ) → x < words → k < 32 → bit_and x (bit_not 32 (2 ^ k - 1)) ≡ x / 2 ^ k * 2 ^ k
clear_low x k h l =
    eq_of_bits 32 _ _ (bit_and-lt 32 x (bit_not 32 (2 ^ k - 1)) h)
      (omega (arith, div-add-mod' x (2 ^ k)))
      λ j p. ground (
        arith,
        bit-bit_and x (bit_not 32 (2 ^ k - 1)) j,
        bit-bit_not 32 (2 ^ k - 1) j
            (omega (arith, pow-le-pow_right {n = 2} (omega arith) {i = k} {j = 31} (omega arith))),
        bit-bit_not k 0 j (one-le-pow k 2 (omega arith)),
        bit-zero j,
        bit-shl (x / 2 ^ k) k j,
        bit-shr x k (j - k),
        ap (bit x) {x = k + (j - k)} {y = j},
        bit-le-one x j,
      )

-- For a power of two as the alignment, `bit_is_aligned` answers true exactly for its multiples,
-- `bit_align_down` takes the remainder off a word, and `bit_align_up` returns the first multiple that
-- is not below the word, if that sum does not wrap.
pub bit_align-multiple :
    (x k : ℕ)
    → k < 32
    → x + 2 ^ k ≤ words
    → ((bit_is_aligned x (2 ^ k) ≡ true) ↔ (x % 2 ^ k ≡ 0))
      × (bit_align_down x (2 ^ k) ≡ x - x % 2 ^ k)
      × (bit_align_up x (2 ^ k) % 2 ^ k ≡ 0)
      × (x ≤ bit_align_up x (2 ^ k))
      × (bit_align_up x (2 ^ k) < x + 2 ^ k)
unfolding bit_is_aligned bit_align_down bit_align_up
bit_align-multiple x k l h =
    let sum = x + 2 ^ k - 1 in
    let small = pow-le-pow_right {n = 2} (omega arith) {i = k} {j = 31} (omega arith) in
    let positive : 0 < 2 ^ k = one-le-pow k 2 (omega arith) in
    let wrapped : ((x + 2 ^ k) % words + words - 1) % words ≡ sum = omega arith in
    let down : bit_and x (bit_not 32 ((2 ^ k + words - 1) % words)) ≡ x / 2 ^ k * 2 ^ k =
      ap (λ t. bit_and x (bit_not 32 t)) (mask k l) ∙ clear_low x k (omega arith) l in
    let up : bit_align_up x (2 ^ k) ≡ sum / 2 ^ k * 2 ^ k =
      ap₂ (λ s t. bit_and s (bit_not 32 t)) wrapped (mask k l) ∙ clear_low sum k (omega arith) l in
    let low = ap (bit_and x) (mask k l) ∙ bit_and_mask k x in
    (
      (λ e. ground (arith, low), λ e. ground (arith, low)),
      omega (arith, down, div-add-mod' x (2 ^ k)),
      ap (λ t. t % 2 ^ k) up ∙ mul-mod_left (sum / 2 ^ k) (2 ^ k),
      omega (arith, up, div-add-mod' sum (2 ^ k), mod-lt sum positive),
      omega (arith, up, div-add-mod' sum (2 ^ k)),
    )
