-- ===== src/Bits/Gray.antt =====
-- Gray codes. The steps of `bit_from_gray` are powers of one step: two steps by `m` are one by `2 * m`,
-- and the steps commute.
use native.Mathlib.Nat.{div-le_self, div-eq_of_lt, pow-suc, add-mul}
use dsa_guide.Prelude.{ℕ, zero, suc, ◌+◌, ◌*◌, ◌/◌, ◌^◌, ◌<◌, ◌≡◌, refl, ap, ◌∙◌, arith}
use dsa_guide.Words.Digits.{bit, flip, bit-le-one, bit-bit_xor, bit_xor-lt, eq_of_bits, bit-zero}
use dsa_guide.Words.Mask.{bit-shr}
use dsa_guide.Bits.{words, xor_shr, bit_to_gray, bit_from_gray}

pub bit-xor_shr : (m x k : ℕ) → bit (xor_shr m x) k ≡ flip (bit x k) (bit x (m + k))
bit-xor_shr m x k = bit-bit_xor x (x / 2 ^ m) k ∙ ap (flip (bit x k)) (bit-shr x m k)

shr-lt : (m x : ℕ) → x < words → x / 2 ^ m < words
shr-lt m x h = omega (arith, div-le_self x (2 ^ m))

pub xor_shr-lt : (m x : ℕ) → x < words → xor_shr m x < words
xor_shr-lt m x h = bit_xor-lt 32 x (x / 2 ^ m) h (shr-lt m x h)

xor_shr_comm : (m n x : ℕ) → x < words → xor_shr m (xor_shr n x) ≡ xor_shr n (xor_shr m x)
xor_shr_comm m n x h =
    eq_of_bits 32 _ _ (xor_shr-lt m _ (xor_shr-lt n x h)) (xor_shr-lt n _ (xor_shr-lt m x h)) λ k p.
      omega (
        arith,
        bit-xor_shr m (xor_shr n x) k,
        bit-xor_shr n x k,
        bit-xor_shr n x (m + k),
        bit-xor_shr n (xor_shr m x) k,
        bit-xor_shr m x k,
        bit-xor_shr m x (n + k),
        ap (bit x) {x = n + (m + k)} {y = m + (n + k)} (omega arith),
      )

xor_shr_twice : (m x : ℕ) → x < words → xor_shr m (xor_shr m x) ≡ xor_shr (m + m) x
xor_shr_twice m x h =
    eq_of_bits 32 _ _ (xor_shr-lt m _ (xor_shr-lt m x h)) (xor_shr-lt (m + m) x h) λ k p. omega (
      arith,
      bit-xor_shr m (xor_shr m x) k,
      bit-xor_shr m x k,
      bit-xor_shr m x (m + k),
      bit-xor_shr (m + m) x k,
      bit-le-one x k,
      bit-le-one x (m + k),
      bit-le-one x (m + (m + k)),
      ap (bit x) {x = m + (m + k)} {y = m + m + k} (omega arith),
    )

xor_shr_width : (x : ℕ) → x < words → xor_shr 32 x ≡ x
xor_shr_width x h = eq_of_bits 32 _ _ (xor_shr-lt 32 x h) h λ k p. omega (
  arith,
  bit-xor_shr 32 x k,
  bit-le-one x k,
  bit-shr x 32 k,
  ap (λ t. bit t k) (div-eq_of_lt {n = x} {m = 2 ^ 32} h),
  bit-zero k,
)

-- The steps by `m`, `2 * m`, `4 * m` and so on, the largest first.
abbrev pub chain : ℕ → ℕ → ℕ → ℕ
chain zero m x = x
chain (suc c) m x = xor_shr m (chain c (m + m) x)

chain-lt : (c m x : ℕ) → x < words → chain c m x < words
chain-lt zero m x h = h
chain-lt (suc c) m x h = xor_shr-lt m _ (chain-lt c (m + m) x h)

pub chain-xor_shr : (c m n x : ℕ) → x < words → chain c m (xor_shr n x) ≡ xor_shr n (chain c m x)
chain-xor_shr zero m n x h = refl
chain-xor_shr (suc c) m n x h =
    ap (xor_shr m) (chain-xor_shr c (m + m) n x h)
    ∙ xor_shr_comm m n (chain c (m + m) x) (chain-lt c (m + m) x h)

-- One more step by the first of the chain makes it a single step.
xor_shr-chain : (c m x : ℕ) → x < words → xor_shr m (chain c m x) ≡ xor_shr (m * 2 ^ c) x
xor_shr-chain zero m x h = ap (λ t. xor_shr t x) (omega arith)
xor_shr-chain (suc c) m x h =
    xor_shr_twice m (chain c (m + m) x) (chain-lt c (m + m) x h)
    ∙ xor_shr-chain c (m + m) x h
    ∙ ap (λ t. xor_shr t x)
        (omega (arith, ap (λ (t : ℕ). m * t) (pow-suc 2 c), add-mul m m (2 ^ c)))

xor_shr-chain_word : (x : ℕ) → x < words → xor_shr 1 (chain 5 1 x) ≡ x
xor_shr-chain_word x h = xor_shr-chain 5 1 x h ∙ xor_shr_width x h

-- On words, coding after decoding and decoding after coding give the word back.
pub bit_from_gray-bit_to_gray :
    (n : ℕ) → n < words → (bit_from_gray (bit_to_gray n) ≡ n) × (bit_to_gray (bit_from_gray n) ≡ n)
unfolding bit_from_gray bit_to_gray
bit_from_gray-bit_to_gray n h =
    (chain-xor_shr 5 1 1 n h ∙ xor_shr-chain_word n h, xor_shr-chain_word n h)
