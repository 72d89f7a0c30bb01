-- ===== src/Linear/Queue/Laws.antt =====
-- The queue calls refine the bounded FIFO of the values that the queue holds.
use native.Mathlib.Nat.{mod-lt, mod-eq_of_lt, mod-add-mod, mod-mod, zero-mod}
use dsa_guide.Prelude.{
  ℕ, suc, ◌+◌, ◌-◌, ◌%◌, ◌≤◌, ◌<◌, ◌^◌, ◌≡◌, refl, ap, true, false, List, [], ◌∷◌, ◌++◌, ℤ, ok,
  aborted, arith, Returns, returns, length, length-set, load-ok, store-ok, get_or, set, none, some,
  ap₂, ℕ_discrete, sym, ◌∙◌,
}
use dsa_guide.Linear.Fifo
use dsa_guide.Linear.Circular.{
  wrap_index-ok, cells, cells-set_last, cells-mod, cells-suc, junk, length-cells,
}
use dsa_guide.Linear.Queue.{
  Queue, queue_create, queue_enqueue, queue_dequeue, queue_peek, queue_items, IsValid, HasCapacity,
  Refined, poll, queue_is_empty,
}

-- A new queue is valid and empty.
queue_create-IsValid :
    (block : List ℤ) (cap : ℕ)
    → cap ≤ length block
    → cap < 2 ^ 31
    → IsValid (queue_create block cap) × (queue_items (queue_create block cap) ≡ [])
unfolding queue_create
queue_create-IsValid block cap h k = (
  record {
    block_fits = h;
    int_capacity = k;
    size_le = omega arith;
    head_lt = λ p. p;
    tail_eq = λ p. omega (arith, zero-mod cap);
  },
  refl,
)

-- The queue after a successful `queue_enqueue`.
abbrev enqueued : Queue → ℤ → Queue
enqueued q val = record q {
  block = set q.block q.tail val;
  tail = (q.tail + 1) % q.capacity;
  size = q.size + 1;
}

length-queue_items : (q : Queue) → length (queue_items q) ≡ q.size
length-queue_items q = length-cells q.block q.capacity q.head q.size

module _ (q : Queue) (val : ℤ) (v : IsValid q) (room : q.size < q.capacity) where
  tail_lt : q.tail < q.capacity
  tail_lt =
      omega
        (arith, v.tail_eq (omega arith), mod-lt (q.head + q.size) {m = q.capacity} (omega arith))

  queue_enqueue-ok : queue_enqueue q val ≡ ok (true, enqueued q val)
  unfolding queue_enqueue
  queue_enqueue-ok = ground (
    arith,
    tail_lt,
    v.int_capacity,
    v.block_fits,
    store-ok q.block q.tail val,
    wrap_index-ok (q.tail + 1) q.capacity,
  )

  enqueued-IsValid : IsValid (enqueued q val)
  enqueued-IsValid = record {
    block_fits = omega (arith, v.block_fits, length-set q.block q.tail val);
    int_capacity = v.int_capacity;
    size_le = omega arith;
    head_lt = v.head_lt;
    tail_eq = λ p.
        ap (λ t. (t + 1) % q.capacity) (v.tail_eq p)
        ∙ mod-add-mod (q.head + q.size) q.capacity 1
        ∙ ap (λ t. t % q.capacity) (omega arith);
  }

  queue_items-enqueued : queue_items (enqueued q val) ≡ queue_items q ++ val ∷ []
  queue_items-enqueued =
      ap (λ t. cells (set q.block t val) q.capacity q.head (q.size + 1)) (v.tail_eq (omega arith))
      ∙ ap (cells (set q.block ((q.head + q.size) % q.capacity) val) q.capacity q.head)
          {y = suc q.size} (omega arith)
      ∙ cells-set_last q.block q.capacity q.head q.size val v.block_fits room

-- `queue_enqueue` on a full queue refuses the value and changes nothing.
queue_enqueue-full :
    (q : Queue) (val : ℤ) → q.size ≡ q.capacity → queue_enqueue q val ≡ ok (false, q)
unfolding queue_enqueue
queue_enqueue-full q val full = ground arith

-- `queue_enqueue` on a valid queue always returns, refuses the value exactly when the queue is full,
-- and else puts it behind the others; the queue stays valid at the same capacity.
pub queue_enqueue_refines :
    (limit : ℕ) (q : Queue) (val : ℤ)
    → HasCapacity limit q
    → Returns (Refined limit (Fifo.push limit (queue_items q) val)) (queue_enqueue q val)
unfolding Fifo.push
queue_enqueue_refines limit q val (v, e) = elim (ℕ_discrete q.size q.capacity) [
  | yes full ↦
      rw (queue_enqueue-full q val full) (returns ((v, e), ground (arith, length-queue_items q)))
  | no room ↦
      let less : q.size < q.capacity = omega (arith, v.size_le) in
      rw (queue_enqueue-ok q val v less) (
        returns (
          (enqueued-IsValid q val v less, e),
          ground (arith, length-queue_items q, queue_items-enqueued q val v less),
        ))
]

-- The queue after a successful `queue_dequeue`.
abbrev dequeued : Queue → Queue
dequeued q = record q { head = (q.head + 1) % q.capacity; size = q.size - 1 }

module _ (q : Queue) (v : IsValid q) (some_left : 0 < q.size) where
  queue_dequeue-ok : queue_dequeue q ≡ ok (get_or q.block q.head junk, dequeued q)
  unfolding queue_dequeue
  queue_dequeue-ok = ground (
    arith,
    v.head_lt,
    v.int_capacity,
    v.block_fits,
    v.size_le,
    load-ok q.block q.head junk,
    wrap_index-ok (q.head + 1) q.capacity,
  )

  dequeued-IsValid : IsValid (dequeued q)
  dequeued-IsValid = record {
    block_fits = v.block_fits;
    int_capacity = v.int_capacity;
    size_le = omega (arith, v.size_le);
    head_lt = λ p. mod-lt (q.head + 1) p;
    tail_eq = λ p.
        v.tail_eq p
        ∙ ap (λ t. t % q.capacity) (omega arith)
        ∙ sym (mod-add-mod (q.head + 1) q.capacity (q.size - 1));
  }

  queue_items-dequeued : queue_items q ≡ get_or q.block q.head junk ∷ queue_items (dequeued q)
  queue_items-dequeued =
      cells-suc q.block q.capacity q.head q.size some_left
      ∙ ap₂ (λ k t. get_or q.block k junk ∷ t) (mod-eq_of_lt (v.head_lt (omega (arith, v.size_le))))
          (cells-mod q.block q.capacity (q.head + 1) ((q.head + 1) % q.capacity) (q.size - 1)
            (sym (mod-mod (q.head + 1) q.capacity)))

poll-empty : (q : Queue) → q.size ≡ 0 → poll q ≡ ok (none, q)
unfolding poll queue_is_empty
poll-empty q h = ground arith

poll-some :
    (q : Queue)
    → IsValid q
    → 0 < q.size
    → poll q ≡ ok (some (get_or q.block q.head junk), dequeued q)
unfolding poll queue_is_empty
poll-some q v h = ground (arith, queue_dequeue-ok q v h)

queue_items-empty : (q : Queue) → q.size ≡ 0 → queue_items q ≡ []
queue_items-empty q h = ap (cells q.block q.capacity q.head) h

-- Polling a valid queue always returns, gives the oldest value exactly when there is one, and leaves
-- the others in their order; the queue stays valid at the same capacity.
pub poll_refines :
    (limit : ℕ) (q : Queue)
    → HasCapacity limit q
    → Returns (Refined limit (Fifo.pop (queue_items q))) (poll q)
unfolding Fifo.pop
poll_refines limit q (v, e) = elim (ℕ_discrete q.size 0) [
  | yes none_left ↦
      rw (poll-empty q none_left) (returns ((v, e), rw (queue_items-empty q none_left)))
  | no more ↦
      let left : 0 < q.size = omega arith in
      rw (poll-some q v left)
        (returns ((dequeued-IsValid q v left, e), rw (queue_items-dequeued q v left)))
]

-- `queue_dequeue` and `queue_peek` on an empty queue fail their assertions.
queue_dequeue-empty :
    (q : Queue) → q.size ≡ 0 → (queue_dequeue q ≡ aborted) × (queue_peek q ≡ aborted)
unfolding queue_dequeue queue_peek
queue_dequeue-empty q h = ground arith

-- The queue fills the interface of the bounded FIFO.
abbrev pub queue_buffer : Fifo.Buffer
queue_buffer = record {
  State = Queue;
  items = queue_items;
  Valid = HasCapacity;
  offer = queue_enqueue;
  poll = poll;
  offer_refines = queue_enqueue_refines;
  poll_refines = poll_refines;
}

-- No session of calls tells a valid queue from the bounded FIFO of the values that it holds: every
-- call returns, an enqueue is refused exactly when the queue is full, and the values come out in the
-- order in which they went in.
pub queue_run_refines :
    (limit : ℕ) (q : Queue) (calls : List Fifo.Call)
    → HasCapacity limit q
    → Fifo.run queue_buffer q calls ≡ ok (Fifo.run_spec limit (queue_items q) calls)
queue_run_refines limit q calls v = Fifo.run_refines queue_buffer limit q calls v
