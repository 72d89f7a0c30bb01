-- ===== src/Linear/Queue.antt =====
-- src/linear/queue.c, the FIFO queue on a circular array. A call that updates `*q` returns the new
-- queue beside its result. `head` and `tail` are `int`s that never become negative.
pub mod Laws
pub mod Bfs
use dsa_guide.Prelude.{
  ℕ, ◌+◌, ◌-◌, ◌<◌, ◌≤◌, ◌%◌, ◌^◌, ◌≡◌, Bool, true, false, Option, none, some, List, ℤ, Run, ok,
  ◌>>=◌, ◌>>◌, assert, load, store, ltb, ◌==◌, if◌then◌else◌, length,
}
use dsa_guide.Linear.Circular.{wrap_index, cells}

pub record Queue : Type 0 where
  pub block : List ℤ
  pub head : ℕ
  pub tail : ℕ
  pub size : ℕ
  pub capacity : ℕ

-- `block` is what `malloc(cap * sizeof(int))` returns.
pub queue_create : List ℤ → ℕ → Queue
queue_create block cap = record { block = block; head = 0; tail = 0; size = 0; capacity = cap }

pub queue_enqueue : Queue → ℤ → Run (Bool × Queue)
queue_enqueue q val = if q.size == q.capacity then ok (false, q) else do
  block ← store q.block q.tail val
  tail ← wrap_index (q.tail + 1) q.capacity
  ok (true, record q { block = block; tail = tail; size = q.size + 1 })

pub queue_dequeue : Queue → Run (ℤ × Queue)
queue_dequeue q = do
  assert (ltb 0 q.size)
  val ← load q.block q.head
  head ← wrap_index (q.head + 1) q.capacity
  ok (val, record q { head = head; size = q.size - 1 })

pub queue_peek : Queue → Run ℤ
queue_peek q = do assert (ltb 0 q.size); load q.block q.head

pub queue_is_empty : Queue → Bool
queue_is_empty q = q.size == 0

-- The values in the queue, oldest first.
abbrev pub queue_items : Queue → List ℤ
queue_items q = cells q.block q.capacity q.head q.size

-- The representation invariant, for capacities that fit an `int`.
pub record IsValid (q : Queue) : Type 0 where
  pub block_fits : q.capacity ≤ length q.block
  pub int_capacity : q.capacity < 2 ^ 31
  pub size_le : q.size ≤ q.capacity
  pub head_lt : 0 < q.capacity → q.head < q.capacity
  pub tail_eq : 0 < q.capacity → q.tail ≡ (q.head + q.size) % q.capacity

-- A client's `if (!queue_is_empty(q)) queue_dequeue(q)`, as the breadth-first search makes it.
pub poll : Queue → Run (Option ℤ × Queue)
poll q = if queue_is_empty q then ok (none, q) else do (v, q') ← queue_dequeue q; ok (some v, q')

abbrev pub HasCapacity : ℕ → Queue → Type 0
HasCapacity limit q = IsValid q × (q.capacity ≡ limit)

-- A reply and the items behind it, as the specification has them.
abbrev pub Refined : {A : Type 0} → ℕ → A × List ℤ → A × Queue → Type 0
Refined limit expected r = HasCapacity limit r.1 × ((r.0, queue_items r.1) ≡ expected)
