-- ===== src/Bitmap/Single.antt =====
-- The calls on one bit of a bitmap.
use Prim.Native.Nat.{bit_and, bit_or, bit_xor}
use native.Mathlib.Nat.{pow-le-pow_right}
use dsa_guide.Prelude.{
  ℕ, zero, suc, ◌+◌, ◌-◌, ◌*◌, ◌/◌, ◌%◌, ◌^◌, ◌<◌, ◌≡◌, refl, sym, ap, ◌∙◌, List, ok, length,
  length-set, get_or, get_or-set, get_or-set_self, get_or-set_ne, set, load-ok, store-ok, replicate,
  length-replicate, Returns, returns, ◌==◌, if◌then◌else◌, ℕ_discrete, arith,
}
use dsa_guide.Words.Digits.{
  bit, bit-le-one, bit-bit_and, bit-bit_or, bit-bit_xor, bit-pow, bit_and-lt, bit_or-lt, bit_xor-lt,
  bit-zero,
}
use dsa_guide.Words.Mask.{bit_not, bit-bit_not}
use dsa_guide.Bits.Single.{tested}
use dsa_guide.Bitmap.{
  Bitmap, bm_create, update, bm_set, bm_clear, bm_test, bm_toggle, member, IsValid,
}

pow-lt : (k : ℕ) → k < 64 → 2 ^ k < 2 ^ 64
pow-lt k h = omega (arith, pow-le-pow_right {n = 2} (omega arith) {i = k} {j = 63} (omega arith))

get_or-replicate : (n i : ℕ) → get_or {A = ℕ} (replicate n 0) i 0 ≡ 0
get_or-replicate zero i = refl
get_or-replicate (suc n) zero = refl
get_or-replicate (suc n) (suc i) = get_or-replicate n i

-- If `calloc` returns zeroed words, a new bitmap is valid and has no bit set.
pub bm_create-IsValid :
    (calloc : ℕ → List ℕ) (bits : ℕ)
    → ((n : ℕ) → calloc n ≡ replicate n 0)
    → bits + 63 < 2 ^ 64
    → IsValid (bm_create calloc bits) × ((i : ℕ) → member (bm_create calloc bits) i ≡ 0)
unfolding bm_create
bm_create-IsValid calloc bits zeroed h =
    let count = (bits + 63) % 2 ^ 64 / 64 in
    rw (zeroed count) (
      record {
        word_count_eq = sym (length-replicate count 0);
        enough = omega arith;
        in_words = λ i. omega (arith, get_or-replicate count i);
      },
      λ i. ap (λ w. bit w (i % 64)) (get_or-replicate count (i / 64)) ∙ bit-zero (i % 64),
    )

-- The bitmap is valid and has the bits of `bm`, but `b` at bit `i`.
abbrev pub Changed : Bitmap → ℕ → ℕ → Bitmap → Type 0
Changed bm i b bm' =
    IsValid bm'
    × (bm'.word_count ≡ bm.word_count)
    × ((j : ℕ) → member bm' j ≡ (if i == j then b else member bm j))

module _ (bm : Bitmap) (i : ℕ) (v : IsValid bm) (inside : i < 64 * bm.word_count) where
  update-Changed :
      (f : ℕ → ℕ) (b : ℕ)
      → f (get_or bm.block (i / 64) 0) < 2 ^ 64
      → ((k : ℕ)
          → k < 64
          → bit (f (get_or bm.block (i / 64) 0)) k
            ≡ (if i % 64 == k then b else bit (get_or bm.block (i / 64) 0) k))
      → Returns (Changed bm i b) (update bm i f)
  update-Changed f b small bits =
      let w = get_or bm.block (i / 64) 0 in
      let at : i / 64 < length bm.block = omega (arith, v.word_count_eq) in
      rw
        (
          load-ok bm.block (i / 64) 0 at,
          store-ok bm.block (i / 64) (f (get_or bm.block (i / 64) 0)) at,
        )
        (returns (
          record {
            word_count_eq = omega (
              arith,
              v.word_count_eq,
              length-set bm.block (i / 64) (f (get_or bm.block (i / 64) 0)),
            );
            enough = v.enough;
            in_words = λ j. ground (
              arith,
              get_or-set bm.block (i / 64) j (f (get_or bm.block (i / 64) 0)) 0 at,
              v.in_words j,
            );
          },
          refl,
          λ j. elim (ℕ_discrete (i / 64) (j / 64)) [
            | yes same ↦
                let written =
                  ap (λ t. bit (get_or (set bm.block (i / 64) (f w)) t 0) (j % 64)) (sym same)
                  ∙ ap (λ t. bit t (j % 64)) (get_or-set_self bm.block (i / 64) (f w) 0 at)
                  ∙ bits (j % 64) (omega arith) in
                let before = ap (λ t. bit (get_or bm.block t 0) (j % 64)) same in
                ground (arith, written, before)
            | no other ↦
                let kept =
                  ap (λ t. bit t (j % 64))
                    (get_or-set_ne bm.block (i / 64) (j / 64) (f w) 0 other) in
                ground (arith, kept)
          ],
        ))

  -- For a bit in the words of a valid bitmap, `bm_test` reads it; `bm_set`, `bm_clear` and `bm_toggle`
  -- return a valid bitmap of the same size in which it is 1, 0 and the other value, and in which all
  -- other bits are as before.
  pub bm_set-member :
      (bm_test bm i ≡ ok (member bm i == 1))
      × Returns (Changed bm i 1) (bm_set bm i)
      × Returns (Changed bm i 0) (bm_clear bm i)
      × Returns (Changed bm i (1 - member bm i)) (bm_toggle bm i)
  unfolding bm_test bm_set bm_clear bm_toggle
  bm_set-member =
      let w = get_or bm.block (i / 64) 0 in
      let k = i % 64 in
      let small = pow-lt k (omega arith) in
      let small_w = v.in_words (i / 64) in
      (
        rw (load-ok bm.block (i / 64) 0 (omega (arith, v.word_count_eq))) (tested w k),
        update-Changed (λ w. bit_or w (2 ^ (i % 64))) 1 (bit_or-lt 64 w (2 ^ k) small_w small)
            λ j p. ground (arith, bit-bit_or w (2 ^ k) j, bit-pow k j, bit-le-one w j),
        update-Changed (λ w. bit_and w (bit_not 64 (2 ^ (i % 64)))) 0
            (bit_and-lt 64 w (bit_not 64 (2 ^ k)) small_w)
            λ j p. ground (
              arith,
              bit-bit_and w (bit_not 64 (2 ^ k)) j,
              bit-bit_not 64 (2 ^ k) j small,
              bit-pow k j,
              bit-le-one w j,
            ),
        update-Changed (λ w. bit_xor w (2 ^ (i % 64))) (1 - member bm i)
            (bit_xor-lt 64 w (2 ^ k) small_w small)
            λ j p. ground (
              arith,
              bit-bit_xor w (2 ^ k) j,
              bit-pow k j,
              bit-le-one w j,
              ap (bit w) {x = k} {y = j},
            ),
      )
