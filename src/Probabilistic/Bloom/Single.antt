-- ===== src/Probabilistic/Bloom/Single.antt =====
-- One bit of the filter, set and read.
use Prim.Native.Nat.{bit_or, max}
use dsa_guide.Words.Digits.{bit, bit-le-one, bit-bit_or, bit-pow, bit_xor-lt}
use dsa_guide.Words.Mask.{bit-mod}
use dsa_guide.Bits.Single.{tested}
use dsa_guide.Prelude.{
  ℕ, ◌*◌, ◌/◌, ◌%◌, ◌^◌, ◌<◌, ◌≡◌, refl, sym, ap, ◌∙◌, Bool, true, false, List, ltb, ◌==◌,
  if◌then◌else◌, ℕ_discrete, ok, load-ok, store-ok, length, get_or, set, get_or-set_self,
  get_or-set_ne, arith,
}
use dsa_guide.Probabilistic.Bloom.{fold_high, murmur_mix, bit_set, bit_get}

-- Bit `i` of the filter is 1.
abbrev pub IsOne : List ℕ → ℕ → Type 0
IsOne bits i = bit (get_or bits (i / 8) 0) (i % 8) ≡ 1

-- The filter after bit `i` is set.
abbrev pub with_one : List ℕ → ℕ → List ℕ
with_one bits i = set bits (i / 8) (bit_or (get_or bits (i / 8) 0) (2 ^ (i % 8)) % 2 ^ 8)

module _ (bits : List ℕ) (i : ℕ) (h : i / 8 < length bits) where
  pub bit_set-with_one : bit_set bits i ≡ ok (with_one bits i)
  unfolding bit_set
  bit_set-with_one =
      rw
        (
          load-ok bits (i / 8) 0 h,
          store-ok bits (i / 8) (bit_or (get_or bits (i / 8) 0) (2 ^ (i % 8)) % 2 ^ 8) h,
        )
        refl

  pub bit_get-IsOne : IsOne bits i → bit_get bits i ≡ ok true
  unfolding bit_get
  bit_get-IsOne e =
      rw (load-ok bits (i / 8) 0 h)
        (tested (get_or bits (i / 8) 0) (i % 8) ∙ ap ok (ground (arith, e)))

  -- The bits of the byte that is written.
  byte_bit :
      (k : ℕ)
      → k < 8
      → bit (bit_or (get_or bits (i / 8) 0) (2 ^ (i % 8)) % 2 ^ 8) k
        ≡ max (bit (get_or bits (i / 8) 0) k) (if i % 8 == k then 1 else 0)
  byte_bit k q =
      let low : ltb k 8 ≡ true = ground arith in
      bit-mod (bit_or (get_or bits (i / 8) 0) (2 ^ (i % 8))) 8 k
      ∙ rw low (
          bit-bit_or (get_or bits (i / 8) 0) (2 ^ (i % 8)) k
          ∙ ap (max (bit (get_or bits (i / 8) 0) k)) (bit-pow (i % 8) k))

  at_byte :
      get_or (with_one bits i) (i / 8) 0 ≡ bit_or (get_or bits (i / 8) 0) (2 ^ (i % 8)) % 2 ^ 8
  at_byte = get_or-set_self bits (i / 8) (bit_or (get_or bits (i / 8) 0) (2 ^ (i % 8)) % 2 ^ 8) 0 h

  pub with_one-IsOne : IsOne (with_one bits i) i
  with_one-IsOne =
      let same : (i % 8 == i % 8) ≡ true = ground arith in
      ap (λ v. bit v (i % 8)) at_byte
      ∙ byte_bit (i % 8) (omega arith)
      ∙ rw same (omega (arith, bit-le-one (get_or bits (i / 8) 0) (i % 8)))

  pub IsOne-kept : (j : ℕ) → IsOne bits j → IsOne (with_one bits i) j
  IsOne-kept j e = elim (ℕ_discrete (i / 8) (j / 8)) [
    | yes same ↦
        ap (λ c. bit (get_or (with_one bits i) c 0) (j % 8)) (sym same)
        ∙ ap (λ v. bit v (j % 8)) at_byte
        ∙ byte_bit (j % 8) (omega arith)
        ∙ one_or (j % 8) (i % 8 == j % 8) (ap (λ c. bit (get_or bits c 0) (j % 8)) same ∙ e)
    | no ne ↦
        ap (λ v. bit v (j % 8))
          (get_or-set_ne bits (i / 8) (j / 8) (bit_or (get_or bits (i / 8) 0) (2 ^ (i % 8)) % 2 ^ 8)
            0 ne)
        ∙ e
  ]
    where
      one_or :
          (k : ℕ) (b : Bool)
          → bit (get_or bits (i / 8) 0) k ≡ 1
          → max (bit (get_or bits (i / 8) 0) k) (if b then 1 else 0) ≡ 1
      one_or k true e = omega (arith, e)
      one_or k false e = omega (arith, e)

pub murmur_mix-lt : (h : ℕ) → murmur_mix h < 2 ^ 64
unfolding murmur_mix
murmur_mix-lt h =
    let x =
      fold_high (fold_high h * 18397679294719823053 % 2 ^ 64) * 14181476777654086739 % 2 ^ 64 in
    bit_xor-lt 64 x (x / 2 ^ 33) (omega arith) (omega arith)
