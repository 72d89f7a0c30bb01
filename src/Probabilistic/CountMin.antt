-- ===== src/Probabilistic/CountMin.antt =====
-- src/probabilistic/count_min.c, the count-min sketch. A key is the list of its bytes; the table has `d`
-- rows of `w` cells. Its two sizes come from floating point, and are parameters of `cm_create`.
pub mod Count
pub mod Merge
use Prim.Native.Nat.{bit_xor}
use dsa_guide.Prelude.{
  ℕ, zero, suc, ◌+◌, ◌-◌, ◌*◌, ◌%◌, ◌^◌, Bool, List, [], ◌∷◌, ltb, ◌==◌, Run, ok, undefined, ◌>>=◌,
  load, store, if◌then◌else◌, replicate, true, false, ◌&&◌, length,
}

-- `d` is the length of `table`, and no call changes it.
pub record CountMin : Type 0 where
  pub table : List (List ℕ)
  pub w : ℕ
  pub total : ℕ

-- `calloc` gives rows of zeros.
pub cm_create : ℕ → ℕ → CountMin
cm_create w d = record { table = replicate d (replicate w 0); w = w; total = 0 }

-- The loop of `cm_hash` over the bytes.
pub hash_loop : ℕ → List ℕ → ℕ
hash_loop h [] = h
hash_loop h (p ∷ bytes) = hash_loop (bit_xor h p * 2654435761 % 2 ^ 32) bytes

pub cm_hash : List ℕ → ℕ → ℕ
cm_hash bytes seed = hash_loop (seed * 2654435761 % 2 ^ 32) bytes

-- `cm_hash(data, len, i) % (uint32_t)cm->w`; a width of 0 is a division by zero.
pub column : ℕ → List ℕ → ℕ → Run ℕ
column w bytes i = if w == 0 then undefined else ok (cm_hash bytes i % w)

-- The loop of `cm_add` over the rows from row `i` on.
pub add_loop : ℕ → List ℕ → ℕ → ℕ → List (List ℕ) → Run (List (List ℕ))
add_loop w bytes count i [] = ok []
add_loop w bytes count i (row ∷ rows) = do
  h ← column w bytes i
  cell ← load row h
  after ← store row h ((cell + count) % 2 ^ 32)
  rest ← add_loop w bytes count (i + 1) rows
  ok (after ∷ rest)

pub cm_add : CountMin → List ℕ → ℕ → Run CountMin
cm_add cm bytes count = do
  table ← add_loop cm.w bytes count 0 cm.table
  ok (record cm { table = table; total = (cm.total + count) % 2 ^ 64 })

-- The loop of `cm_query` over the rows from row `i` on.
pub query_loop : ℕ → List ℕ → ℕ → ℕ → List (List ℕ) → Run ℕ
query_loop w bytes least i [] = ok least
query_loop w bytes least i (row ∷ rows) = do
  h ← column w bytes i
  cell ← load row h
  query_loop w bytes (if ltb cell least then cell else least) (i + 1) rows

-- The first minimum is `UINT32_MAX`.
pub cm_query : CountMin → List ℕ → Run ℕ
cm_query cm bytes = query_loop cm.w bytes (2 ^ 32 - 1) 0 cm.table

-- The inner loop of `cm_merge`, with `n` cells left from cell `j` on.
pub merge_row : ℕ → ℕ → List ℕ → List ℕ → Run (List ℕ)
merge_row zero j dst src = ok dst
merge_row (suc n) j dst src = do
  x ← load dst j
  y ← load src j
  after ← store dst j ((x + y) % 2 ^ 32)
  merge_row n (j + 1) after src

-- Its outer loop. The two sketches may be one: a cell is read before it is written.
pub merge_loop : ℕ → List (List ℕ) → List (List ℕ) → Run (List (List ℕ))
merge_loop w [] srcs = ok []
merge_loop w (dst ∷ dsts) [] = undefined
merge_loop w (dst ∷ dsts) (src ∷ srcs) = do
  row ← merge_row w 0 dst src
  rest ← merge_loop w dsts srcs
  ok (row ∷ rest)

-- What the call returns, and `dst` after it.
pub cm_merge : CountMin → CountMin → Run (Bool × CountMin)
cm_merge dst src =
    if dst.w == src.w && (length dst.table == length src.table)
    then (do
      table ← merge_loop dst.w dst.table src.table
      ok (true, record dst { table = table; total = (dst.total + src.total) % 2 ^ 64 }))
    else ok (false, dst)
