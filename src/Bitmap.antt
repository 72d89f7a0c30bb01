-- ===== src/Bitmap.antt =====
-- src/specialized/bitmap.c: a bitset in 64-bit words.
pub mod Single
pub mod Pointwise
pub mod First
use Prim.Native.Nat.{bit_and, bit_or, bit_xor}
use dsa_guide.Prelude.{
  ℕ, zero, suc, ◌+◌, ◌-◌, ◌*◌, ◌/◌, ◌%◌, ◌^◌, ◌<◌, ◌≤◌, ◌≡◌, Bool, true, false, not, List, [], ◌∷◌,
  ℤ, pos, negsuc, Run, ok, ◌>>=◌, ◌>>◌, assert, as_int, load, store, ◌==◌, if◌then◌else◌, length,
  get_or,
}
use dsa_guide.Words.Digits.{bit}
use dsa_guide.Words.Mask.{bit_not}

pub record Bitmap : Type 0 where
  pub block : List ℕ
  pub bit_count : ℕ
  pub word_count : ℕ

-- `calloc n` is the block of `n` words that `calloc` returns.
unfoldable pub bm_create : (ℕ → List ℕ) → ℕ → Bitmap
bm_create calloc bits =
    let count = (bits + 63) % 2 ^ 64 / 64 in
    record { block = calloc count; bit_count = bits; word_count = count }

-- `words[WORD(i)]` replaced by a function of itself.
abbrev pub update : Bitmap → ℕ → (ℕ → ℕ) → Run Bitmap
update bm i f = do
  w ← load bm.block (i / 64)
  block ← store bm.block (i / 64) (f w)
  ok (record bm { block = block })

pub bm_set : Bitmap → ℕ → Run Bitmap
bm_set bm i = update bm i λ w. bit_or w (2 ^ (i % 64))

pub bm_clear : Bitmap → ℕ → Run Bitmap
bm_clear bm i = update bm i λ w. bit_and w (bit_not 64 (2 ^ (i % 64)))

pub bm_test : Bitmap → ℕ → Run Bool
bm_test bm i = do w ← load bm.block (i / 64); ok (not (bit_and w (2 ^ (i % 64)) == 0))

pub bm_toggle : Bitmap → ℕ → Run Bitmap
bm_toggle bm i = update bm i λ w. bit_xor w (2 ^ (i % 64))

-- The loops of `bm_and` and `bm_or`, from word `i` on with `n` words left. The three bitmaps may be
-- one: word `i` is read before it is written.
pub pointwise_loop : (ℕ → ℕ → ℕ) → ℕ → ℕ → List ℕ → List ℕ → List ℕ → Run (List ℕ)
pointwise_loop f zero i a b dst = ok dst
pointwise_loop f (suc n) i a b dst = do
  x ← load a i
  y ← load b i
  dst' ← store dst i (f x y)
  pointwise_loop f n (i + 1) a b dst'

pub bm_and : Bitmap → Bitmap → Bitmap → Run Bitmap
bm_and dst a b = do
  assert (a.word_count == b.word_count)
  block ← pointwise_loop bit_and a.word_count 0 a.block b.block dst.block
  ok (record dst { block = block })

pub bm_or : Bitmap → Bitmap → Bitmap → Run Bitmap
bm_or dst a b = do
  block ← pointwise_loop bit_or a.word_count 0 a.block b.block dst.block
  ok (record dst { block = block })

pub bm_not : Bitmap → Bitmap → Run Bitmap
bm_not dst a = do
  block ← pointwise_loop (λ x y. bit_not 64 x) a.word_count 0 a.block a.block dst.block
  ok (record dst { block = block })

-- The loop of `bm_find_first_set`; `ctz` is `__builtin_ctzll`.
pub first_loop : (ℕ → ℕ) → ℕ → ℕ → List ℕ → Run ℤ
first_loop ctz zero i block = ok (negsuc 0)
first_loop ctz (suc n) i block = do
  w ← load block i
  let rest = first_loop ctz n (i + 1) block
  if w == 0 then rest else as_int (pos (i * 64 + ctz w))

pub bm_find_first_set : (ℕ → ℕ) → Bitmap → Run ℤ
bm_find_first_set ctz bm = first_loop ctz bm.word_count 0 bm.block

-- The loop of `bm_popcount`; `popcount` is `__builtin_popcountll`.
pub count_loop : (ℕ → ℕ) → ℕ → ℕ → List ℕ → ℕ → Run ℕ
count_loop popcount zero i block cnt = ok cnt
count_loop popcount (suc n) i block cnt = do
  w ← load block i
  count_loop popcount n (i + 1) block ((cnt + popcount w) % 2 ^ 64)

pub bm_popcount : (ℕ → ℕ) → Bitmap → Run ℕ
bm_popcount popcount bm = count_loop popcount bm.word_count 0 bm.block 0

-- `(size_t)from`
abbrev pub as_size : ℤ → ℕ
as_size (pos n) = n
as_size (negsuc n) = 2 ^ 64 - 1 - n

-- The loop of `bm_find_next_set`, from word `i` on with `n` words left.
pub next_loop : (ℕ → ℕ) → ℕ → ℕ → ℕ → List ℕ → Run ℤ
next_loop ctz start zero i block = ok (negsuc 0)
next_loop ctz start (suc n) i block = do
  cell ← load block i
  let w = if i == start / 64 then bit_and cell (bit_not 64 (2 ^ (start % 64) - 1)) else cell
  let rest = next_loop ctz start n (i + 1) block
  if w == 0 then rest else as_int (pos (i * 64 + ctz w))

pub bm_find_next_set : (ℕ → ℕ) → Bitmap → ℤ → Run ℤ
bm_find_next_set ctz bm from =
    let start = (as_size from + 1) % 2 ^ 64 in
    next_loop ctz start (bm.word_count - start / 64) (start / 64) bm.block

-- Bit `i` of the bitmap.
abbrev pub member : Bitmap → ℕ → ℕ
member bm i = bit (get_or bm.block (i / 64) 0) (i % 64)

pub record IsValid (bm : Bitmap) : Type 0 where
  pub word_count_eq : bm.word_count ≡ length bm.block
  pub enough : bm.bit_count ≤ 64 * bm.word_count
  pub in_words : (i : ℕ) → get_or bm.block i 0 < 2 ^ 64
