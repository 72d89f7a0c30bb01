-- ===== src/Linear/Array.antt =====
-- src/linear/array.c: the growing array, binary search, the two-pointer pair search and prefix sums.
pub mod Grow
pub mod Search
pub mod Pair
pub mod Prefix
use dsa_guide.Prelude.{
  ℕ, zero, suc, ◌+◌, ◌-◌, ◌*◌, ◌/◌, ◌%◌, ◌^◌, ◌<◌, ◌≤◌, ◌≡◌, Bool, true, false, not, ◌&&◌, Option,
  none, some, List, [], ℤ, pos, negsuc, ◌+ℤ◌, ◌-ℤ◌, ◌≤ℤ◌, ltb_ℤ, ◌==ℤ◌, Run, ok, aborted,
  out_of_fuel, ◌>>=◌, ◌>>◌, assert, as_int, load, store, ltb, leb, ◌==◌, if◌then◌else◌, length,
  get_or, take,
}

-- `data` points to `block`; a null pointer is the block with no cell.
pub record Array : Type 0 where
  pub block : List ℤ
  pub size : ℕ
  pub capacity : ℕ

-- `block` is what `malloc(cap * sizeof(int))` returns.
pub array_create : List ℤ → ℕ → Array
array_create block cap = record { block = block; size = 0; capacity = cap }

-- `a->data[a->size++] = val; return true;`
pub append : Array → ℤ → Run (Bool × Array)
append a val = do
  block ← store a.block a.size val
  ok (true, record a { block = block; size = a.size + 1 })

-- `realloc block n` is the block that `realloc` returns for `n` bytes, or nothing when it fails.
module _ (realloc : List ℤ → ℕ → Option (List ℤ)) where
  pub array_push : Array → ℤ → Run (Bool × Array)
  array_push a val =
      if a.size == a.capacity
      then (let capacity = a.capacity * 2 % 2 ^ 64 in
          elim (realloc a.block (capacity * 4 % 2 ^ 64)) [
            | none ↦ ok (false, record a { block = []; capacity = capacity })
            | some block ↦ append (record a { block = block; capacity = capacity }) val
          ])
      else append a val

pub array_pop : Array → Run (ℤ × Array)
array_pop a = do
  assert (ltb 0 a.size)
  val ← load a.block (a.size - 1)
  ok (val, record a { size = a.size - 1 })

pub array_get : Array → ℕ → Run ℤ
array_get a idx = do assert (ltb idx a.size); load a.block idx

pub array_set : Array → ℕ → ℤ → Run Array
array_set a idx val = do
  assert (ltb idx a.size)
  block ← store a.block idx val
  ok (record a { block = block })

-- The loop of `array_binary_search`, from `lo` and `hi`; `lo` is never negative.
pub binary_search_loop : ℕ → List ℤ → ℤ → ℕ → ℤ → Run ℤ
binary_search_loop zero cells target lo hi = out_of_fuel
binary_search_loop (suc fuel) cells target lo (negsuc _) = ok (negsuc 0)
binary_search_loop (suc fuel) cells target lo (pos hi) =
    let mid = lo + (hi - lo) / 2 in
    let right = binary_search_loop fuel cells target (mid + 1) (pos hi) in
    let left = binary_search_loop fuel cells target lo (pos mid -ℤ pos 1) in
    let step : Run ℤ = do
      x ← load cells mid
      if x ==ℤ target then ok (pos mid) else if ltb_ℤ x target then right else left
    in if leb lo hi then step else ok (negsuc 0)

pub array_binary_search : Array → ℤ → Run ℤ
array_binary_search a target = do
  n ← as_int (pos a.size)
  binary_search_loop (a.size + 1) a.block target 0 (n -ℤ pos 1)

-- The loop of `array_two_pointer_pair`; the option is what goes through `*i_out` and `*j_out`.
pub two_pointer_loop : ℕ → List ℤ → ℤ → ℕ → ℤ → Run (Option (ℕ × ℕ))
two_pointer_loop zero cells target lo hi = out_of_fuel
two_pointer_loop (suc fuel) cells target lo (negsuc _) = ok none
two_pointer_loop (suc fuel) cells target lo (pos hi) =
    let right = two_pointer_loop fuel cells target (lo + 1) (pos hi) in
    let left = two_pointer_loop fuel cells target lo (pos hi -ℤ pos 1) in
    let step : Run (Option (ℕ × ℕ)) = do
      x ← load cells lo
      y ← load cells hi
      sum ← as_int (x +ℤ y)
      if sum ==ℤ target then ok (some (lo, hi)) else if ltb_ℤ sum target then right else left
    in if ltb lo hi then step else ok none

pub array_two_pointer_pair : Array → ℤ → Run (Option (ℕ × ℕ))
array_two_pointer_pair a target = do
  n ← as_int (pos a.size)
  two_pointer_loop (a.size + 1) a.block target 0 (n -ℤ pos 1)

-- The loop of `array_prefix_sum_build` at index `i`, with `n` rounds left.
prefix_sum_loop : (List ℤ → ℕ → Option (List ℤ)) → ℕ → ℕ → Array → Array → Run Array
prefix_sum_loop realloc zero i a prefix = ok prefix
prefix_sum_loop realloc (suc n) i a prefix = do
  x ← load prefix.block i
  y ← load a.block i
  sum ← as_int (x +ℤ y)
  (_, prefix') ← array_push realloc prefix sum
  prefix_sum_loop realloc n (i + 1) a prefix'

pub array_prefix_sum_build : (List ℤ → ℕ → Option (List ℤ)) → List ℤ → Array → Run Array
array_prefix_sum_build realloc block a = do
  (_, prefix) ← array_push realloc (array_create block (a.size + 1)) (pos 0)
  prefix_sum_loop realloc a.size 0 a prefix

-- `l` and `r` are `int`s, of which the assertion refuses the negative ones.
pub array_prefix_sum_query : Array → ℤ → ℤ → Run ℤ
array_prefix_sum_query prefix (negsuc _) r = aborted
array_prefix_sum_query prefix (pos l) (negsuc _) = aborted
array_prefix_sum_query prefix (pos l) (pos r) = do
  _ ← as_int (pos prefix.size)
  assert (ltb (r + 1) prefix.size && leb l r)
  x ← load prefix.block (r + 1)
  y ← load prefix.block l
  as_int (x -ℤ y)

-- The values of the array.
abbrev pub array_items : Array → List ℤ
array_items a = take a.size a.block

pub record IsValid (a : Array) : Type 0 where
  pub size_le : a.size ≤ a.capacity
  pub block_fits : a.capacity ≤ length a.block

-- The value at an index, and the arrays that the searches are for: sorted, and of an `int` size.
abbrev pub at : List ℤ → ℕ → ℤ
at l i = get_or l i (pos 0)

pub record IsSorted (a : Array) : Type 0 where
  pub in_block : a.size ≤ length a.block
  pub int_size : a.size < 2 ^ 31
  pub ascending : (i j : ℕ) → i ≤ j → j < a.size → at a.block i ≤ℤ at a.block j
