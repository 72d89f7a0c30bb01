-- ===== src/Bitmap/Pointwise.antt =====
-- `bm_and`, `bm_or` and `bm_not`, bit by bit.
use Prim.Native.Nat.{min, max, bit_and, bit_or}
use dsa_guide.Prelude.{
  ℕ, zero, suc, ◌+◌, ◌-◌, ◌*◌, ◌/◌, ◌%◌, ◌^◌, ◌<◌, ◌≤◌, ◌≡◌, refl, ap, ◌∙◌, true, ◌&&◌, List,
  length, length-set, get_or, get_or-set, set, load-ok, store-ok, Returns, returns, Returns-map,
  Returns-bind, ltb, leb, ◌==◌, if◌then◌else◌, ℕ_discrete, arith,
}
use dsa_guide.Words.Digits.{bit, bit-bit_and, bit-bit_or, bit_and-lt, bit_or-lt}
use dsa_guide.Words.Mask.{bit_not, bit-bit_not}
use dsa_guide.Bitmap.{Bitmap, pointwise_loop, bm_and, bm_or, bm_not, member, IsValid}

-- The words from `i` on, `n` of them, are those of the two operands under `f`.
record Combined (f : ℕ → ℕ → ℕ) (n i : ℕ) (a b dst d : List ℕ) : Type 0 where
  same_length : length d ≡ length dst
  word :
      (j : ℕ)
      → get_or d j 0
        ≡ (if leb i j && ltb j (i + n) then f (get_or a j 0) (get_or b j 0) else get_or dst j 0)

module _ (f : ℕ → ℕ → ℕ) (a b : List ℕ) where
  loop-Combined :
      (n i : ℕ) (dst : List ℕ)
      → i + n ≤ length a
      → i + n ≤ length b
      → i + n ≤ length dst
      → Returns (Combined f n i a b dst) (pointwise_loop f n i a b dst)
  unfolding pointwise_loop
  loop-Combined zero i dst h k l = returns (record { same_length = refl; word = λ j. ground arith })
  loop-Combined (suc n) i dst h k l =
      let written = set dst i (f (get_or a i 0) (get_or b i 0)) in
      rw
        (
          load-ok a i 0 (omega arith),
          load-ok b i 0 (omega arith),
          store-ok dst i (f (get_or a i 0) (get_or b i 0)) (omega arith),
        )
        (Returns-map
          (loop-Combined n (i + 1) written (omega arith) (omega arith)
            (omega (arith, length-set dst i (f (get_or a i 0) (get_or b i 0)))))
          λ d c. record {
            same_length = c.same_length ∙ length-set dst i (f (get_or a i 0) (get_or b i 0));
            word = λ j. elim (ℕ_discrete i j) [
              | yes same ↦ ground (
                arith,
                c.word j,
                get_or-set dst i j (f (get_or a i 0) (get_or b i 0)) 0 (omega arith),
                ap (λ t. f (get_or a t 0) (get_or b t 0)) same,
              )
              | no other ↦ ground (
                arith,
                c.word j,
                get_or-set dst i j (f (get_or a i 0) (get_or b i 0)) 0 (omega arith),
              )
            ];
          })

-- The bitmap is valid, has the size of `bm`, and bit `j` of it is `op` of the two bits.
abbrev pub Combines : (ℕ → ℕ → ℕ) → Bitmap → Bitmap → Bitmap → Bitmap → Type 0
Combines op bm a b bm' =
    IsValid bm'
    × (bm'.word_count ≡ bm.word_count)
    × ((j : ℕ) → j < 64 * a.word_count → member bm' j ≡ op (member a j) (member b j))

module _ (dst a b : Bitmap) (u : IsValid dst) (v : IsValid a) (w : IsValid b)
    (same_a : dst.word_count ≡ a.word_count) (same_b : a.word_count ≡ b.word_count) where
  whole-Combines :
      (f op : ℕ → ℕ → ℕ)
      → ((x y : ℕ) → x < 2 ^ 64 → y < 2 ^ 64 → f x y < 2 ^ 64)
      → ((x y k : ℕ) → x < 2 ^ 64 → y < 2 ^ 64 → k < 64 → bit (f x y) k ≡ op (bit x k) (bit y k))
      → Returns
          (λ block. Combines op dst a b (record dst { block = block }))
          (pointwise_loop f a.word_count 0 a.block b.block dst.block)
  whole-Combines f op small bits =
      Returns-map
        (loop-Combined f a.block b.block a.word_count 0 dst.block (omega (arith, v.word_count_eq))
          (omega (arith, w.word_count_eq)) (omega (arith, u.word_count_eq)))
        λ block c. (
          record {
            word_count_eq = omega (arith, u.word_count_eq, c.same_length);
            enough = u.enough;
            in_words = λ i. ground (
              arith,
              c.word i,
              u.in_words i,
              small (get_or a.block i 0) (get_or b.block i 0) (v.in_words i) (w.in_words i),
            );
          },
          refl,
          λ j h.
              ap (λ t. bit t (j % 64))
                {y = f (get_or a.block (j / 64) 0) (get_or b.block (j / 64) 0)}
                (ground (arith, c.word (j / 64)))
              ∙ bits (get_or a.block (j / 64) 0) (get_or b.block (j / 64) 0) (j % 64)
                  (v.in_words (j / 64)) (w.in_words (j / 64)) (omega arith),
        )

-- On valid bitmaps of one size, `bm_and`, `bm_or` and `bm_not` return a valid bitmap of that size
-- whose bits are the minimum and the maximum of those of the operands, and the complement of those
-- of `a`: up to the end of the last word, past `bit_count` too.
pub bm_and-member :
    (dst a b : Bitmap)
    → IsValid dst
    → IsValid a
    → IsValid b
    → dst.word_count ≡ a.word_count
    → a.word_count ≡ b.word_count
    → Returns (Combines min dst a b) (bm_and dst a b)
      × Returns (Combines max dst a b) (bm_or dst a b)
      × Returns (Combines (λ x y. 1 - x) dst a b) (bm_not dst a)
unfolding bm_and bm_or bm_not
bm_and-member dst a b u v w same_a same_b =
    let same : (a.word_count == b.word_count) ≡ true = ground arith in
    (
      rw same (
          Returns-bind
            (whole-Combines dst a b u v w same_a same_b bit_and min (λ x y p q. bit_and-lt 64 x y p)
              λ x y k p q r. bit-bit_and x y k)
            λ block c. returns c),
      Returns-bind
          (whole-Combines dst a b u v w same_a same_b bit_or max (λ x y p q. bit_or-lt 64 x y p q)
            λ x y k p q r. bit-bit_or x y k)
          λ block c. returns c,
      Returns-bind
          (whole-Combines dst a a u v v same_a refl (λ x y. bit_not 64 x) (λ x y. 1 - x)
            (λ x y p q. omega arith) λ x y k p q r. ground (arith, bit-bit_not 64 x k p))
          λ block c. returns c,
    )
