-- ===== src/Linear/Deque.antt =====
-- src/linear/queue.c, the double-ended queue on a circular array. Its `front` and `back` are `int`s;
-- `back` starts at -1.
pub mod Laws
pub mod Window
pub mod Refine
use dsa_guide.Prelude.{
  ℕ, suc, ◌+◌, ◌-◌, ◌%◌, ◌<◌, ◌≤◌, ◌^◌, ◌≡◌, Bool, true, false, List, ℤ, pos, negsuc, sub_ℕ, ◌+ℤ◌,
  ◌-ℤ◌, Run, ok, undefined, ◌>>=◌, ◌>>◌, assert, as_int, load, store, ltb, ◌==◌, ◌&&◌,
  if◌then◌else◌, length,
}
use dsa_guide.Linear.Circular.{wrap_index, cells}

pub record Deque : Type 0 where
  pub block : List ℤ
  pub front : ℤ
  pub back : ℤ
  pub size : ℕ
  pub capacity : ℕ

-- `i % (int)capacity` for an `int` of either sign: C's remainder has the sign of `i`.
pub wrap_int : ℤ → ℕ → Run ℤ
wrap_int (pos i) capacity = wrap_index i capacity >>= λ r. ok (pos r)
wrap_int (negsuc n) capacity = wrap_index (suc n) capacity >>= λ r. ok (sub_ℕ 0 r)

-- `block[i]` at an `int` index.
pub load_int : List ℤ → ℤ → Run ℤ
load_int block (pos i) = load block i
load_int block (negsuc n) = undefined

pub store_int : List ℤ → ℤ → ℤ → Run (List ℤ)
store_int block (pos i) v = store block i v
store_int block (negsuc n) v = undefined

-- `block` is what `malloc(cap * sizeof(int))` returns.
pub deque_create : List ℤ → ℕ → Deque
deque_create block cap = record {
  block = block;
  front = pos 0;
  back = negsuc 0;
  size = 0;
  capacity = cap;
}

pub deque_push_back : Deque → ℤ → Run (Bool × Deque)
deque_push_back d val = if d.size == d.capacity then ok (false, d) else do
  next ← as_int (d.back +ℤ pos 1)
  back ← wrap_int next d.capacity
  block ← store_int d.block back val
  ok (true, record d { block = block; back = back; size = d.size + 1 })

pub deque_push_front : Deque → ℤ → Run (Bool × Deque)
deque_push_front d val = if d.size == d.capacity then ok (false, d) else do
  before ← as_int (d.front -ℤ pos 1)
  sum ← as_int (before +ℤ pos d.capacity)
  front ← wrap_int sum d.capacity
  block ← store_int d.block front val
  ok (true, record d { block = block; front = front; size = d.size + 1 })

pub deque_pop_front : Deque → Run (ℤ × Deque)
deque_pop_front d = do
  assert (ltb 0 d.size)
  val ← load_int d.block d.front
  next ← as_int (d.front +ℤ pos 1)
  front ← wrap_int next d.capacity
  ok (val, record d { front = front; size = d.size - 1 })

pub deque_pop_back : Deque → Run (ℤ × Deque)
deque_pop_back d = do
  assert (ltb 0 d.size)
  val ← load_int d.block d.back
  before ← as_int (d.back -ℤ pos 1)
  sum ← as_int (before +ℤ pos d.capacity)
  back ← wrap_int sum d.capacity
  ok (val, record d { back = back; size = d.size - 1 })

pub deque_front : Deque → Run ℤ
deque_front d = do assert (ltb 0 d.size); load_int d.block d.front

pub deque_back : Deque → Run ℤ
deque_back d = do assert (ltb 0 d.size); load_int d.block d.back

pub deque_is_empty : Deque → Bool
deque_is_empty d = d.size == 0

-- `front` as an index, and one more than `back`.
abbrev pub first : Deque → ℕ
first d = elim d.front [ pos i ↦ i | negsuc _ ↦ 0 ]

abbrev pub past_last : Deque → ℕ
past_last d = elim d.back [ pos i ↦ i + 1 | negsuc _ ↦ 0 ]

-- The values in the deque, from front to back.
abbrev pub deque_items : Deque → List ℤ
deque_items d = cells d.block d.capacity (first d) d.size

-- The representation invariant, for capacities whose double fits an `int`.
pub record IsValid (d : Deque) : Type 0 where
  pub block_fits : d.capacity ≤ length d.block
  pub int_capacity : d.capacity ≤ 2 ^ 30
  pub size_le : d.size ≤ d.capacity
  pub front_eq : d.front ≡ pos (first d)
  pub front_lt : 0 < d.capacity → first d < d.capacity
  pub back_eq : d.back ≡ sub_ℕ (past_last d) 1
  pub back_le : past_last d ≤ d.capacity
  pub back_at : 0 < d.capacity → past_last d % d.capacity ≡ (first d + d.size) % d.capacity
