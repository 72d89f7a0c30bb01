-- ===== src/Bits/Single.antt =====
-- Single bits and fields of bits.
use Prim.Native.Nat.{bit_and, bit_or}
use native.Mathlib.Nat.{pow-suc, one-le-pow, pow-le-pow_right, mod-lt}
use dsa_guide.Prelude.{
  ℕ, zero, suc, ◌+◌, ◌-◌, ◌*◌, ◌/◌, ◌%◌, ◌^◌, ◌<◌, ◌≤◌, ◌≡◌, refl, ap, ◌∙◌, Run, ok, undefined, not,
  ltb, leb, ◌==◌, if◌then◌else◌, Returns, returns, arith, ℕ_discrete, Bool, true, ◌⊎◌, inl, inr,
  ◌&&◌,
}
use dsa_guide.Words.Steps.{bit_and-halves}
use dsa_guide.Words.Digits.{
  bit, bit-le-one, bit-bit_and, bit-bit_or, bit-bit_xor, bit-pow, bit_and-lt, bit_or-lt, bit_xor-lt,
  bit-zero, eq_of_bits,
}
use dsa_guide.Words.Mask.{
  bit_and-zero, bit_and_mask, bit-shl, bit-shr, bit-mod, bit_not, bit-bit_not,
}
use dsa_guide.Bits.{
  words, one_at, low_mask, bit_test, bit_set, bit_clear, bit_toggle, bit_field, bit_field_set,
}

-- The one bit that `bit_test` keeps.
and-pow : (k x : ℕ) → bit_and x (2 ^ k) ≡ bit x k * 2 ^ k
and-pow zero x = omega (
  arith,
  bit_and-halves x 1,
  bit_and-zero (x / 2),
  ap (bit_and (x / 2)) {x = 1 / 2} {y = 0} (omega arith),
)
and-pow (suc k) x = omega (
  arith,
  bit_and-halves x (2 ^ suc k),
  pow-suc 2 k,
  ap (bit_and (x / 2)) {x = 2 ^ suc k / 2} {y = 2 ^ k} (omega (arith, pow-suc 2 k)),
  and-pow k (x / 2),
  ap (λ (t : ℕ). bit (x / 2) k * t) (pow-suc 2 k),
)

pow-lt : (k : ℕ) → k < 32 → 2 ^ k < words
pow-lt k h = omega (arith, pow-le-pow_right {n = 2} (omega arith) {i = k} {j = 31} (omega arith))

pub tested : (x k : ℕ) → ◌≡◌ {A = Run Bool} (ok (not (bit_and x (2 ^ k) == 0))) (ok (bit x k == 1))
tested x k = elim (ℕ_discrete (bit x k) 0) [
  | yes e ↦ ground (arith, and-pow k x, ap (λ (t : ℕ). t * 2 ^ k) e)
  | no ne ↦
      let e : bit x k ≡ 1 = omega (arith, bit-le-one x k) in
      ground (arith, and-pow k x, ap (λ (t : ℕ). t * 2 ^ k) e, one-le-pow k 2)
]

-- The word has the bits of `x`, but `b` at bit `k`.
abbrev pub Changed : ℕ → ℕ → ℕ → ℕ → Type 0
Changed x k b y = (y < words) × ((j : ℕ) → j < 32 → bit y j ≡ (if k == j then b else bit x j))

-- For a bit below 32 of a word, `bit_test` reads it, and `bit_set`, `bit_clear` and `bit_toggle` change
-- it to 1, to 0 and to the other value, and change no other bit; for an index of 32 or more all four
-- shift too far.
pub bit_set-bits :
    (x k : ℕ)
    → x < words
    → (k < 32
        → (bit_test x k ≡ ok (bit x k == 1))
          × Returns (Changed x k 1) (bit_set x k)
          × Returns (Changed x k 0) (bit_clear x k)
          × Returns (Changed x k (1 - bit x k)) (bit_toggle x k))
      × (32 ≤ k
          → (bit_test x k ≡ undefined)
            × (bit_set x k ≡ undefined)
            × (bit_clear x k ≡ undefined)
            × (bit_toggle x k ≡ undefined))
unfolding bit_test bit_set bit_clear bit_toggle
bit_set-bits x k h = (
  λ l.
      let one : one_at k ≡ ok (2 ^ k) = ground arith in
      rw one (
        tested x k,
        returns (
          bit_or-lt 32 x (2 ^ k) h (pow-lt k l),
          λ j p. ground (arith, bit-bit_or x (2 ^ k) j, bit-pow k j, bit-le-one x j),
        ),
        returns (
          bit_and-lt 32 x (bit_not 32 (2 ^ k)) h,
          λ j p. ground (
            arith,
            bit-bit_and x (bit_not 32 (2 ^ k)) j,
            bit-bit_not 32 (2 ^ k) j (pow-lt k l),
            bit-pow k j,
            bit-le-one x j,
          ),
        ),
        returns (
          bit_xor-lt 32 x (2 ^ k) h (pow-lt k l),
          λ j p. ground (
            arith,
            bit-bit_xor x (2 ^ k) j,
            bit-pow k j,
            bit-le-one x j,
            ap (bit x) {x = k} {y = j},
          ),
        ),
      ),
  λ l. let out : one_at k ≡ undefined = ground arith in rw out (refl, refl, refl, refl),
)

-- A field from bit `lo` to bit `hi`, of fewer than 32 bits.
module _ (lo hi : ℕ) (order : lo ≤ hi) (narrow : hi + 1 - lo < 32) (inside : hi < 32) where
  abbrev width : ℕ
  width = hi + 1 - lo

  low_mask-ok : low_mask lo hi ≡ ok (2 ^ width - 1)
  low_mask-ok = ground arith

  mask_bit :
      (j : ℕ)
      → j < 32
      → bit ((2 ^ width - 1) * 2 ^ lo % words) j ≡ (if leb lo j && leb j hi then 1 else 0)
  mask_bit j h = ground (
    arith,
    bit-mod ((2 ^ width - 1) * 2 ^ lo) 32 j,
    bit-shl (2 ^ width - 1) lo j,
    bit-bit_not width 0 (j - lo) (one-le-pow width 2 (omega arith)),
    bit-zero (j - lo),
  )

  -- `bit_field` returns the bits from `lo` to `hi` as a number.
  bit_field-mod : (x : ℕ) → bit_field x lo hi ≡ ok (x / 2 ^ lo % 2 ^ width)
  unfolding bit_field
  bit_field-mod x = ground (arith, bit_and_mask width (x / 2 ^ lo))

  abbrev replaced : ℕ → ℕ → ℕ
  replaced x val =
      let mask = (2 ^ width - 1) * 2 ^ lo % words in
      bit_or (bit_and x (bit_not 32 mask)) (bit_and (val * 2 ^ lo % words) mask)

  replaced-lt : (x val : ℕ) → x < words → replaced x val < words
  replaced-lt x val h =
      let mask = (2 ^ width - 1) * 2 ^ lo % words in
      bit_or-lt 32 (bit_and x (bit_not 32 mask)) (bit_and (val * 2 ^ lo % words) mask)
        (bit_and-lt 32 x (bit_not 32 mask) h)
        (bit_and-lt 32 (val * 2 ^ lo % words) mask (omega arith))

  bit-replaced :
      (x val j : ℕ)
      → j < 32
      → bit (replaced x val) j ≡ (if leb lo j && leb j hi then bit val (j - lo) else bit x j)
  bit-replaced x val j h =
      let mask = (2 ^ width - 1) * 2 ^ lo % words in
      ground (
        arith,
        bit-bit_or (bit_and x (bit_not 32 mask)) (bit_and (val * 2 ^ lo % words) mask) j,
        bit-bit_and x (bit_not 32 mask) j,
        bit-bit_and (val * 2 ^ lo % words) mask j,
        bit-bit_not 32 mask j (omega arith),
        mask_bit j h,
        bit-mod (val * 2 ^ lo) 32 j,
        bit-shl val lo j,
        bit-le-one x j,
        bit-le-one val (j - lo),
      )

  field-replaced : (x val : ℕ) → val < 2 ^ width → replaced x val / 2 ^ lo % 2 ^ width ≡ val
  field-replaced x val v =
      eq_of_bits width _ _ (mod-lt (replaced x val / 2 ^ lo) (one-le-pow width 2 (omega arith))) v
        λ i p. ground (
          arith,
          bit-mod (replaced x val / 2 ^ lo) width i,
          bit-shr (replaced x val) lo i,
          bit-replaced x val (lo + i) (omega arith),
          ap (bit val) {x = lo + i - lo} {y = i} (omega arith),
        )

  -- For `lo <= hi < 32` and a field of fewer than 32 bits, `bit_field_set` with a value that fits
  -- the field returns a word; `bit_field` reads that value from it, and no bit outside the field
  -- changes.
  pub bit_field-bit_field_set :
      (x val : ℕ)
      → x < words
      → val < 2 ^ width
      → Returns
          (λ y.
            (y < words)
            × (bit_field y lo hi ≡ ok val)
            × ((j : ℕ) → j < 32 → (j < lo) ⊎ (hi < j) → bit y j ≡ bit x j))
          (bit_field_set x lo hi val)
  unfolding bit_field_set
  bit_field-bit_field_set x val h v =
      let shift : ltb lo 32 ≡ true = ground arith in
      rw (shift, low_mask-ok)
        (returns (
          replaced-lt x val h,
          bit_field-mod (replaced x val) ∙ ap ok (field-replaced x val v),
          λ j p out. elim out [
            | inl below ↦ ground (arith, bit-replaced x val j p)
            | inr above ↦ ground (arith, bit-replaced x val j p)
          ],
        ))
