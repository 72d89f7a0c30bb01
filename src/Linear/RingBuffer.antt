-- ===== src/Linear/RingBuffer.antt =====
-- src/linear/ring_buffer.c: a ring for one producer and one consumer. `head` and `tail` count up as
-- `size_t` and wrap at 2 ^ 64. The producer alone stores `tail`, the consumer alone stores `head`.
pub mod Laws
pub mod Threads
pub mod Create
use Prim.Native.Nat.{bit_and}
use dsa_guide.Prelude.{
  ℕ, zero, suc, ◌+◌, ◌-◌, ◌*◌, ◌%◌, ◌^◌, ◌<◌, ◌≤◌, ◌≡◌, Bool, true, false, Option, none, some, List,
  ℤ, Run, ok, out_of_fuel, ◌>>=◌, load, store, ltb, leb, ◌==◌, if◌then◌else◌, length,
}
use dsa_guide.Linear.Circular.{cells}

pub record RingBuffer : Type 0 where
  pub buf : List ℤ
  pub capacity : ℕ
  pub head : ℕ
  pub tail : ℕ

-- `size_t` arithmetic.
abbrev pub size_mod : ℕ
size_mod = 2 ^ 64

abbrev pub size_sub : ℕ → ℕ → ℕ
size_sub a b = (a + size_mod - b) % size_mod

-- The loop of `next_pow2`; `p <<= 1` wraps to 0 past 2 ^ 63, and then the loop never ends.
pub next_pow2_loop : ℕ → ℕ → ℕ → Run ℕ
next_pow2_loop zero n p = out_of_fuel
next_pow2_loop (suc fuel) n p =
    let rest = next_pow2_loop fuel n (p * 2 % size_mod) in if ltb p n then rest else ok p

-- 65 rounds are enough for every request up to 2 ^ 63.
pub next_pow2 : ℕ → Run ℕ
next_pow2 n = next_pow2_loop 65 n 1

-- `malloc` gives a block for each capacity.
pub rb_create : (ℕ → List ℤ) → ℕ → Run RingBuffer
rb_create malloc capacity = do
  capacity ← next_pow2 capacity
  ok (record { buf = malloc capacity; capacity = capacity; head = 0; tail = 0 })

pub rb_produce : RingBuffer → ℤ → Run (Bool × RingBuffer)
rb_produce rb val = if leb rb.capacity (size_sub rb.tail rb.head) then ok (false, rb) else do
  buf ← store rb.buf (bit_and rb.tail (size_sub rb.capacity 1)) val
  ok (true, record rb { buf = buf; tail = (rb.tail + 1) % size_mod })

-- The option is what goes through `*out`.
pub rb_consume : RingBuffer → Run (Option ℤ × RingBuffer)
rb_consume rb = if rb.head == rb.tail then ok (none, rb) else do
  out ← load rb.buf (bit_and rb.head (size_sub rb.capacity 1))
  ok (some out, record rb { head = (rb.head + 1) % size_mod })

pub rb_size : RingBuffer → ℕ
rb_size rb = size_sub rb.tail rb.head

pub rb_is_empty : RingBuffer → Bool
rb_is_empty rb = rb_size rb == 0

pub rb_is_full : RingBuffer → Bool
rb_is_full rb = rb_size rb == rb.capacity

-- The values in the ring, oldest first.
abbrev pub rb_items : RingBuffer → List ℤ
rb_items rb = cells rb.buf rb.capacity rb.head (size_sub rb.tail rb.head)

-- The capacity is the power `2 ^ k`, and at most that many values are in the ring.
pub record IsValid (rb : RingBuffer) : Type 0 where
  pub exponent : ℕ
  pub exponent_le : exponent ≤ 63
  pub capacity_eq : rb.capacity ≡ 2 ^ exponent
  pub buf_fits : rb.capacity ≤ length rb.buf
  pub head_lt : rb.head < size_mod
  pub tail_lt : rb.tail < size_mod
  pub size_le : size_sub rb.tail rb.head ≤ rb.capacity

abbrev pub HasCapacity : ℕ → RingBuffer → Type 0
HasCapacity limit rb = IsValid rb × (rb.capacity ≡ limit)

-- A reply and the items behind it, as the specification has them.
abbrev pub Refined : {A : Type 0} → ℕ → A × List ℤ → A × RingBuffer → Type 0
Refined limit expected r = HasCapacity limit r.1 × ((r.0, rb_items r.1) ≡ expected)
