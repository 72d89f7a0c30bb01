-- ===== src/Linear/RingBuffer/Laws.antt =====
-- The ring against the bounded FIFO of the values that it holds.
use native.Mathlib.Nat.{pow-le-pow_right, one-le-pow, mod-lt}
use Prim.Native.Nat.{bit_and}
use dsa_guide.Prelude.{
  ℕ, suc, ◌+◌, ◌-◌, ◌%◌, ◌^◌, ◌<◌, ◌≤◌, ◌≡◌, ◌↔◌, sym, ap, ap₂, ◌∙◌, subst, Bool, true, false,
  Option, none, some, List, [], ◌∷◌, ◌++◌, ℤ, Run, ok, arith, Returns, returns, length, length-set,
  load-ok, store-ok, get_or, set, ℕ_discrete,
}
use dsa_guide.Words.Mask.{bit_and_mask, mod_pow-mod_pow}
use dsa_guide.Linear.Fifo
use dsa_guide.Linear.Circular.{cells, cells-set_last, cells-mod, cells-suc, length-cells, junk}
use dsa_guide.Linear.RingBuffer.{
  RingBuffer, size_mod, size_sub, rb_produce, rb_consume, rb_size, rb_is_empty, rb_is_full,
  rb_items, IsValid, HasCapacity, Refined,
}

module _ (rb : RingBuffer) (v : IsValid rb) where
  pub capacity_pos : 0 < rb.capacity
  capacity_pos = omega (arith, v.capacity_eq, one-le-pow v.exponent 2 (omega arith))

  pub capacity_le : rb.capacity ≤ 2 ^ 63
  capacity_le =
      subst (λ t. t ≤ 2 ^ 63) (sym v.capacity_eq) (pow-le-pow_right (omega arith) v.exponent_le)

  -- The mask picks the index modulo the capacity.
  pub masked : (i : ℕ) → bit_and i (size_sub rb.capacity 1) ≡ i % rb.capacity
  masked i =
      ap (bit_and i) {y = 2 ^ v.exponent - 1}
        (omega (arith, v.capacity_eq, capacity_pos, capacity_le))
      ∙ bit_and_mask v.exponent i
      ∙ ap (λ t. i % t) (sym v.capacity_eq)

  -- Wrapping an index at 2 ^ 64 keeps its cell.
  pub wrapped : (i : ℕ) → i % size_mod % rb.capacity ≡ i % rb.capacity
  wrapped i =
      ap (λ t. i % size_mod % t) v.capacity_eq
      ∙ mod_pow-mod_pow i v.exponent 64 (omega (arith, v.exponent_le))
      ∙ ap (λ t. i % t) (sym v.capacity_eq)

  pub tail_cell : rb.tail % rb.capacity ≡ (rb.head + size_sub rb.tail rb.head) % rb.capacity
  tail_cell =
      ap (λ t. t % rb.capacity) {y = (rb.head + size_sub rb.tail rb.head) % size_mod}
        (omega (arith, v.tail_lt, v.head_lt))
      ∙ wrapped (rb.head + size_sub rb.tail rb.head)

-- The ring after a successful `rb_produce`.
abbrev produced : RingBuffer → ℤ → RingBuffer
produced rb val = record rb {
  buf = set rb.buf (rb.tail % rb.capacity) val;
  tail = (rb.tail + 1) % size_mod;
}

module _ (rb : RingBuffer) (val : ℤ) (v : IsValid rb)
    (room : size_sub rb.tail rb.head < rb.capacity) where
  rb_produce-ok : rb_produce rb val ≡ ok (true, produced rb val)
  unfolding rb_produce
  rb_produce-ok = ground (
    arith,
    masked rb v rb.tail,
    store-ok rb.buf (rb.tail % rb.capacity) val,
    mod-lt rb.tail (capacity_pos rb v),
    v.buf_fits,
  )

  produced_size : size_sub ((rb.tail + 1) % size_mod) rb.head ≡ suc (size_sub rb.tail rb.head)
  produced_size = omega (arith, v.tail_lt, v.head_lt, capacity_le rb v)

  produced-IsValid : IsValid (produced rb val)
  produced-IsValid = record {
    exponent = v.exponent;
    exponent_le = v.exponent_le;
    capacity_eq = v.capacity_eq;
    buf_fits = omega (arith, v.buf_fits, length-set rb.buf (rb.tail % rb.capacity) val);
    head_lt = v.head_lt;
    tail_lt = omega arith;
    size_le = omega (arith, produced_size);
  }

  rb_items-produced : rb_items (produced rb val) ≡ rb_items rb ++ val ∷ []
  rb_items-produced =
      ap₂ (λ i n. cells (set rb.buf i val) rb.capacity rb.head n) (tail_cell rb v) produced_size
      ∙ cells-set_last rb.buf rb.capacity rb.head (size_sub rb.tail rb.head) val v.buf_fits room

-- The ring after a successful `rb_consume`.
abbrev pub consumed : RingBuffer → RingBuffer
consumed rb = record rb { head = (rb.head + 1) % size_mod }

module _ (rb : RingBuffer) (v : IsValid rb) (some_left : 0 < size_sub rb.tail rb.head) where
  rb_consume-ok :
      rb_consume rb ≡ ok (some (get_or rb.buf (rb.head % rb.capacity) junk), consumed rb)
  unfolding rb_consume
  rb_consume-ok = ground (
    arith,
    v.head_lt,
    v.tail_lt,
    masked rb v rb.head,
    load-ok rb.buf (rb.head % rb.capacity) junk,
    mod-lt rb.head (capacity_pos rb v),
    v.buf_fits,
  )

  consumed_size : size_sub rb.tail ((rb.head + 1) % size_mod) ≡ size_sub rb.tail rb.head - 1
  consumed_size = omega (arith, v.tail_lt, v.head_lt, capacity_le rb v)

  pub consumed-IsValid : IsValid (consumed rb)
  consumed-IsValid = record {
    exponent = v.exponent;
    exponent_le = v.exponent_le;
    capacity_eq = v.capacity_eq;
    buf_fits = v.buf_fits;
    head_lt = omega arith;
    tail_lt = v.tail_lt;
    size_le = omega (arith, consumed_size, v.size_le);
  }

  pub rb_items-consumed :
      rb_items rb ≡ get_or rb.buf (rb.head % rb.capacity) junk ∷ rb_items (consumed rb)
  rb_items-consumed =
      cells-suc rb.buf rb.capacity rb.head (size_sub rb.tail rb.head) some_left
      ∙ ap (◌∷◌ (get_or rb.buf (rb.head % rb.capacity) junk)) (
          cells-mod rb.buf rb.capacity (rb.head + 1) ((rb.head + 1) % size_mod)
            (size_sub rb.tail rb.head - 1) (sym (wrapped rb v (rb.head + 1)))
          ∙ ap (cells rb.buf rb.capacity ((rb.head + 1) % size_mod)) (sym consumed_size))

length-rb_items : (rb : RingBuffer) → length (rb_items rb) ≡ size_sub rb.tail rb.head
length-rb_items rb = length-cells rb.buf rb.capacity rb.head (size_sub rb.tail rb.head)

rb_produce-full :
    (rb : RingBuffer) (val : ℤ)
    → size_sub rb.tail rb.head ≡ rb.capacity
    → rb_produce rb val ≡ ok (false, rb)
unfolding rb_produce
rb_produce-full rb val full = ground arith

rb_consume-empty :
    (rb : RingBuffer) → IsValid rb → size_sub rb.tail rb.head ≡ 0 → rb_consume rb ≡ ok (none, rb)
unfolding rb_consume
rb_consume-empty rb v h = ground (arith, v.head_lt, v.tail_lt)

rb_items-empty : (rb : RingBuffer) → size_sub rb.tail rb.head ≡ 0 → rb_items rb ≡ []
rb_items-empty rb h = ap (cells rb.buf rb.capacity rb.head) h

-- `rb_produce` on a valid ring always returns, refuses the value exactly when the ring is full, and
-- else puts it behind the others; the ring stays valid at the same capacity.
pub rb_produce_refines :
    (limit : ℕ) (rb : RingBuffer) (val : ℤ)
    → HasCapacity limit rb
    → Returns (Refined limit (Fifo.push limit (rb_items rb) val)) (rb_produce rb val)
unfolding Fifo.push
rb_produce_refines limit rb val (v, e) = elim (ℕ_discrete (size_sub rb.tail rb.head) rb.capacity) [
  | yes full ↦
      rw (rb_produce-full rb val full) (returns ((v, e), ground (arith, length-rb_items rb)))
  | no room ↦
      let less : size_sub rb.tail rb.head < rb.capacity = omega (arith, v.size_le) in
      rw (rb_produce-ok rb val v less) (
        returns (
          (produced-IsValid rb val v less, e),
          ground (arith, length-rb_items rb, rb_items-produced rb val v less),
        ))
]

-- `rb_consume` on a valid ring always returns, gives the oldest value exactly when there is one, and
-- leaves the others in their order; the ring stays valid at the same capacity.
pub rb_consume_refines :
    (limit : ℕ) (rb : RingBuffer)
    → HasCapacity limit rb
    → Returns (Refined limit (Fifo.pop (rb_items rb))) (rb_consume rb)
unfolding Fifo.pop
rb_consume_refines limit rb (v, e) = elim (ℕ_discrete (size_sub rb.tail rb.head) 0) [
  | yes none_left ↦
      rw (rb_consume-empty rb v none_left) (returns ((v, e), rw (rb_items-empty rb none_left)))
  | no more ↦
      let left : 0 < size_sub rb.tail rb.head = omega arith in
      rw (rb_consume-ok rb v left)
        (returns ((consumed-IsValid rb v left, e), rw (rb_items-consumed rb v left)))
]

-- The ring fills the interface of the bounded FIFO.
abbrev pub ring_buffer : Fifo.Buffer
ring_buffer = record {
  State = RingBuffer;
  items = rb_items;
  Valid = HasCapacity;
  offer = rb_produce;
  poll = rb_consume;
  offer_refines = rb_produce_refines;
  poll_refines = rb_consume_refines;
}

some≢none_reply :
    {x : ℤ} {s t : RingBuffer}
    → ◌≡◌ {A = Run (Option ℤ × RingBuffer)} (ok (some x, s)) (ok (none, t))
    → ⊥
some≢none_reply e = ground arith

true≢false_reply :
    {s t : RingBuffer} → ◌≡◌ {A = Run (Bool × RingBuffer)} (ok (true, s)) (ok (false, t)) → ⊥
true≢false_reply e = ground arith

-- `rb_size` counts the values in a ring; `rb_is_empty` and `rb_is_full` tell whether there is none, and
-- whether `rb_produce` would refuse.
pub rb_size-length :
    (rb : RingBuffer) (val : ℤ)
    → IsValid rb
    → (rb_size rb ≡ length (rb_items rb))
      × ((rb_is_empty rb ≡ true) ↔ (rb_consume rb ≡ ok (none, rb)))
      × ((rb_is_full rb ≡ true) ↔ (rb_produce rb val ≡ ok (false, rb)))
unfolding rb_size rb_is_empty rb_is_full
rb_size-length rb val v = (
  sym (length-rb_items rb),
  (
    λ e. rb_consume-empty rb v (ground arith),
    λ e. elim (ℕ_discrete (size_sub rb.tail rb.head) 0) [
      | yes none_left ↦ rw none_left
      | no more ↦ absurd (some≢none_reply (sym (rb_consume-ok rb v (omega arith)) ∙ e))
    ],
  ),
  (
    λ e. rb_produce-full rb val (ground arith),
    λ e. elim (ℕ_discrete (size_sub rb.tail rb.head) rb.capacity) [
      | yes full ↦ ground arith
      | no room ↦
          absurd (true≢false_reply (sym (rb_produce-ok rb val v (omega (arith, v.size_le))) ∙ e))
    ],
  ),
)

-- No session of calls tells a valid ring from the bounded FIFO of the values that it holds.
pub ring_run_refines :
    (limit : ℕ) (rb : RingBuffer) (calls : List Fifo.Call)
    → HasCapacity limit rb
    → Fifo.run ring_buffer rb calls ≡ ok (Fifo.run_spec limit (rb_items rb) calls)
ring_run_refines limit rb calls v = Fifo.run_refines ring_buffer limit rb calls v
