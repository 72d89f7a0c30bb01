-- ===== src/Trees/Heap.antt =====
-- src/trees/heap.c: the binary min-heap of keys with values, and heapsort. An array is a list; an index
-- that is an `int` is a natural number, with the overflow of `2*i+2` checked.
pub mod Swaps
pub mod Order
pub mod Down
pub mod Sort
pub mod Entries
pub mod Rise
pub mod Sink
pub mod Calls
pub mod BellmanFord
use dsa_guide.Prelude.{
  ℕ, zero, suc, ◌+◌, ◌-◌, ◌*◌, ◌/◌, ◌%◌, ◌^◌, Bool, List, ℤ, ltb_ℤ, ltb, ◌==◌, Run, ok, undefined,
  out_of_fuel, ◌>>=◌, ◌>>◌, assert, load, store, if◌then◌else◌,
}

pub record MinHeap : Type 0 where
  pub keys : List ℤ
  pub vals : List ℤ
  pub size : ℕ
  pub capacity : ℕ

-- `keys` and `vals` are what `malloc(cap * sizeof(int))` returns.
pub heap_create : List ℤ → List ℤ → ℕ → MinHeap
heap_create keys vals cap = record { keys = keys; vals = vals; size = 0; capacity = cap }

pub heap_is_empty : MinHeap → Bool
heap_is_empty h = h.size == 0

pub heap_peek_key : MinHeap → Run ℤ
heap_peek_key h = do assert (ltb 0 h.size); load h.keys 0

-- Two cells of an array change places.
pub swap_cells : List ℤ → ℕ → ℕ → Run (List ℤ)
swap_cells block a b = do
  t ← load block a
  u ← load block b
  after ← store block a u
  store after b t

pub swap : MinHeap → ℕ → ℕ → Run MinHeap
swap h a b = do
  keys ← swap_cells h.keys a b
  vals ← swap_cells h.vals a b
  ok (record h { keys = keys; vals = vals })

abbrev pub parent : ℕ → ℕ
parent i = (i - 1) / 2

pub sift_up : ℕ → MinHeap → ℕ → Run MinHeap
sift_up zero h i = out_of_fuel
sift_up (suc fuel) h i =
    let rise = swap h i (parent i) >>= λ h'. sift_up fuel h' (parent i) in
    let step : Run MinHeap = do
      above ← load h.keys (parent i)
      here ← load h.keys i
      if ltb_ℤ here above then rise else ok h
    in if ltb 0 i then step else ok h

-- `if (c < h->size && h->keys[c] < h->keys[best]) best = c`
pub smaller : MinHeap → ℕ → ℕ → Run ℕ
smaller h best c =
    let step : Run ℕ = do
      x ← load h.keys c
      y ← load h.keys best
      ok (if ltb_ℤ x y then c else best)
    in if ltb c h.size then step else ok best

pub sift_down : ℕ → MinHeap → ℕ → Run MinHeap
sift_down zero h i = out_of_fuel
sift_down (suc fuel) h i = do
  left ← smaller h i ((2 * i + 1) % 2 ^ 64)
  best ← smaller h left ((2 * i + 2) % 2 ^ 64)
  let sink = swap h i best >>= λ h'. sift_down fuel h' best
  if best == i then ok h else sink

pub heap_push : MinHeap → ℤ → ℤ → Run MinHeap
heap_push h key val = do
  assert (ltb h.size h.capacity)
  keys ← store h.keys h.size key
  vals ← store h.vals h.size val
  sift_up (h.size + 1) (record h { keys = keys; vals = vals; size = (h.size + 1) % 2 ^ 64 }) h.size

-- The heap without its first entry: the last one takes its place and sinks.
pub pop_first : MinHeap → Run MinHeap
pop_first h = do
  let last = h.size - 1
  key ← load h.keys last
  keys ← store h.keys 0 key
  val ← load h.vals last
  vals ← store h.vals 0 val
  let h' : MinHeap = record h { keys = keys; vals = vals; size = last }
  if last == 0 then ok h' else sift_down last h' 0

pub heap_pop_key : MinHeap → Run (ℤ × MinHeap)
heap_pop_key h = do assert (ltb 0 h.size); k ← load h.keys 0; h' ← pop_first h; ok (k, h')

pub heap_pop_val : MinHeap → Run (ℤ × MinHeap)
heap_pop_val h = do assert (ltb 0 h.size); v ← load h.vals 0; h' ← pop_first h; ok (v, h')

-- `if (c<n && arr[c]>arr[best]) best=c`
pub larger : List ℤ → ℕ → ℕ → ℕ → Run ℕ
larger arr n best c =
    let step : Run ℕ = do x ← load arr c; y ← load arr best; ok (if ltb_ℤ y x then c else best)
    in if ltb c n then step else ok best

pub sift_down_arr : ℕ → List ℤ → ℕ → ℕ → Run (List ℤ)
sift_down_arr zero arr n i = out_of_fuel
sift_down_arr (suc fuel) arr n i =
    let step : Run (List ℤ) = do
      left ← larger arr n i (2 * i + 1)
      best ← larger arr n left (2 * i + 2)
      let sink = swap_cells arr i best >>= λ after. sift_down_arr fuel after n best
      if best == i then ok arr else sink
    in if ltb (2 * i + 2) (2 ^ 31) then step else undefined

-- The first loop of `heapsort`, with the indices below `k` left.
pub build_loop : ℕ → List ℤ → ℕ → Run (List ℤ)
build_loop zero arr n = ok arr
build_loop (suc k) arr n = do after ← sift_down_arr n arr n k; build_loop k after n

-- The second loop, from index `i` on.
pub sort_loop : ℕ → List ℤ → Run (List ℤ)
sort_loop zero arr = ok arr
sort_loop (suc i) arr = do
  swapped ← swap_cells arr 0 (suc i)
  after ← sift_down_arr (suc i) swapped (suc i) 0
  sort_loop i after

pub heapsort : List ℤ → ℕ → Run (List ℤ)
heapsort arr n = do heap ← build_loop (n / 2) arr n; sort_loop (n - 1) heap
