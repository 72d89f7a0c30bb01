-- ===== src/Linear/RingBuffer/Threads.antt =====
-- The producer and the consumer as two threads: each atomic load and store, and the access to the
-- slot, is one step, and the steps interleave in any order on one memory. That is a modelling
-- assumption: the weaker orders that C allows for relaxed loads are left out.
mod Moves
pub mod Order
use Prim.Native.Nat.{bit_and}
use dsa_guide.Prelude.{
  ℕ, suc, ◌+◌, ◌-◌, ◌%◌, ◌^◌, ◌<◌, ◌≤◌, ◌≡◌, ◌≢◌, List, [], ◌∷◌, ◌++◌, ℤ, length, get_or, set,
}
use dsa_guide.Linear.Circular.{junk}
use dsa_guide.Linear.RingBuffer.{RingBuffer, size_mod, size_sub, rb_items, IsValid}

-- How far a call of `rb_produce`, and of `rb_consume`, has come, with its local variables.
pub data Producer : Type 0 where
  idle : Producer
  has_tail : ℤ → ℕ → Producer
  has_both : ℤ → ℕ → ℕ → Producer
  has_written : ℤ → ℕ → Producer

pub data Consumer : Type 0 where
  idle : Consumer
  has_head : ℕ → Consumer
  has_both : ℕ → ℕ → Consumer
  has_read : ℕ → ℤ → Consumer

-- `sent` and `received` are the values of the calls that returned `true`, in order.
pub record System : Type 0 where
  pub ring : RingBuffer
  pub producer : Producer
  pub consumer : Consumer
  pub sent : List ℤ
  pub received : List ℤ

abbrev pub slot : RingBuffer → ℕ → ℕ
slot rb i = bit_and i (size_sub rb.capacity 1)

pub data Step (s : System) : System → Type 0 where
  load_tail :
      (val : ℤ)
      → s.producer ≡ Producer.idle
      → Step s (record s { producer = Producer.has_tail val s.ring.tail })
  load_head :
      (val : ℤ) (t : ℕ)
      → s.producer ≡ Producer.has_tail val t
      → Step s (record s { producer = Producer.has_both val t s.ring.head })
  refuse :
      (val : ℤ) (t h : ℕ)
      → s.producer ≡ Producer.has_both val t h
      → s.ring.capacity ≤ size_sub t h
      → Step s (record s { producer = Producer.idle })
  write :
      (val : ℤ) (t h : ℕ)
      → s.producer ≡ Producer.has_both val t h
      → size_sub t h < s.ring.capacity
      → Step s (record s {
        ring = record (s.ring) { buf = set s.ring.buf (slot s.ring t) val };
        producer = Producer.has_written val t;
      })
  publish :
      (val : ℤ) (t : ℕ)
      → s.producer ≡ Producer.has_written val t
      → Step s (record s {
        ring = record (s.ring) { tail = (t + 1) % size_mod };
        producer = Producer.idle;
        sent = s.sent ++ val ∷ [];
      })
  take_head :
      s.consumer ≡ Consumer.idle → Step s (record s { consumer = Consumer.has_head s.ring.head })
  take_tail :
      (h : ℕ)
      → s.consumer ≡ Consumer.has_head h
      → Step s (record s { consumer = Consumer.has_both h s.ring.tail })
  find_empty :
      (h t : ℕ)
      → s.consumer ≡ Consumer.has_both h t
      → h ≡ t
      → Step s (record s { consumer = Consumer.idle })
  read :
      (h t : ℕ)
      → s.consumer ≡ Consumer.has_both h t
      → h ≢ t
      → Step s
          (record s { consumer = Consumer.has_read h (get_or s.ring.buf (slot s.ring h) junk) })
  free :
      (h : ℕ) (v : ℤ)
      → s.consumer ≡ Consumer.has_read h v
      → Step s (record s {
        ring = record (s.ring) { head = (h + 1) % size_mod };
        consumer = Consumer.idle;
        received = s.received ++ v ∷ [];
      })

pub data Reach (s : System) : System → Type 0 where
  here : Reach s s
  next : {t u : System} → Reach s t → Step t u → Reach s u

-- What a thread in the middle of a call may rely on.
abbrev pub Producing : RingBuffer → Producer → Type 0
Producing rb Producer.idle = Unit
Producing rb (Producer.has_tail val t) = t ≡ rb.tail
Producing rb (Producer.has_both val t h) = (t ≡ rb.tail) × (size_sub t rb.head ≤ size_sub t h)
Producing rb (Producer.has_written val t) =
    (t ≡ rb.tail)
    × (size_sub rb.tail rb.head < rb.capacity)
    × (get_or rb.buf (rb.tail % rb.capacity) junk ≡ val)

abbrev pub Consuming : RingBuffer → Consumer → Type 0
Consuming rb Consumer.idle = Unit
Consuming rb (Consumer.has_head h) = h ≡ rb.head
Consuming rb (Consumer.has_both h t) =
    (h ≡ rb.head) × (size_sub t h ≤ size_sub rb.tail rb.head) × (t < size_mod)
Consuming rb (Consumer.has_read h v) =
    (h ≡ rb.head)
    × (0 < size_sub rb.tail rb.head)
    × (get_or rb.buf (rb.head % rb.capacity) junk ≡ v)

pub record Inv (s : System) : Type 0 where
  pub valid : IsValid s.ring
  pub in_order : s.sent ≡ s.received ++ rb_items s.ring
  pub producing : Producing s.ring s.producer
  pub consuming : Consuming s.ring s.consumer
