-- ===== src/Bits/Parity.antt =====
-- `bit_parity` against the count of the bits.
use dsa_guide.Prelude.{ℕ, zero, suc, ◌+◌, ◌%◌, ◌<◌, ◌≡◌, refl, sym, ap, ◌∙◌, arith}
use dsa_guide.Words.Digits.{bit, bit-le-one}
use dsa_guide.Words.Mask.{bit_and_mask}
use dsa_guide.Bits.{words, xor_shr, bit_parity}
use dsa_guide.Bits.Gray.{bit-xor_shr, chain, chain-xor_shr, xor_shr-lt}

-- How many of the `n` bits from bit `k` on are 1.
abbrev pub ones : ℕ → ℕ → ℕ → ℕ
ones x k zero = 0
ones x k (suc n) = bit x k + ones x (k + 1) n

ones-add : (x k m n : ℕ) → ones x k (m + n) ≡ ones x k m + ones x (k + m) n
ones-add x k zero n = omega (
  arith,
  ap (ones x k) {x = 0 + n} {y = n} (omega arith),
  ap (λ t. ones x t n) {x = k} {y = k + 0} (omega arith),
)
ones-add x k (suc m) n = omega (
  arith,
  ap (ones x k) {x = suc m + n} {y = suc (m + n)} (omega arith),
  ones-add x (k + 1) m n,
  ap (λ t. ones x t n) {x = k + 1 + m} {y = k + suc m} (omega arith),
)

-- A word whose bits are the parities of `m` bits of `x` each.
Folded : ℕ → ℕ → ℕ → Type 0
Folded m x y = (k : ℕ) → bit y k ≡ ones x k m % 2

Folded-xor_shr : (m x y : ℕ) → Folded m x y → Folded (m + m) x (xor_shr m y)
unfolding Folded
Folded-xor_shr m x y f k = omega (
  arith,
  bit-xor_shr m y k,
  f k,
  f (m + k),
  ones-add x k m m,
  ap (λ t. ones x t m) {x = m + k} {y = k + m} (omega arith),
)

Folded-self : (x : ℕ) → Folded 1 x x
unfolding Folded
Folded-self x k = omega (arith, bit-le-one x k)

-- The steps of the code, the smallest first.
abbrev unchain : ℕ → ℕ → ℕ → ℕ
unchain zero m x = x
unchain (suc c) m x = unchain c (m + m) (xor_shr m x)

chain-eq-unchain : (c m x : ℕ) → x < words → chain c m x ≡ unchain c m x
chain-eq-unchain zero m x h = refl
chain-eq-unchain (suc c) m x h =
    sym (chain-xor_shr c (m + m) m x h)
    ∙ chain-eq-unchain c (m + m) (xor_shr m x) (xor_shr-lt m x h)

-- The parity of a word is 1 exactly when an odd number of its 32 bits are 1.
pub bit_parity-ones : (x : ℕ) → x < words → bit_parity x ≡ ones x 0 32 % 2
unfolding bit_parity Folded
bit_parity-ones x h =
    bit_and_mask 1 (chain 5 1 x)
    ∙ ap (λ t. bit t 0) (chain-eq-unchain 5 1 x h)
    ∙ Folded-xor_shr 16 x _
        (Folded-xor_shr 8 x _
          (Folded-xor_shr 4 x _ (Folded-xor_shr 2 x _ (Folded-xor_shr 1 x x (Folded-self x)))))
        0
