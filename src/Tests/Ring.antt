-- ===== src/Tests/Ring.antt =====
-- A ring of two slots whose indices wrap at 2 ^ 64, alone and between two threads.
use dsa_guide.Prelude.{
  ℕ, ◌-◌, ◌^◌, ◌<◌, ◌≡◌, ◌≢◌, refl, List, [], ◌∷◌, ◌++◌, ℤ, pos, ok, arith, length, replicate,
}
use dsa_guide.Linear.Fifo
use dsa_guide.Linear.RingBuffer.{RingBuffer, rb_items, IsValid}
use dsa_guide.Linear.RingBuffer.Laws.{ring_buffer, ring_run_refines}
use dsa_guide.Linear.RingBuffer.Threads.{Producer, Consumer, System, slot, Step, Reach}
use dsa_guide.Linear.RingBuffer.Threads.Order.{start, Reach-in_order, Reach-no_race}

abbrev last : ℕ
last = 2 ^ 64 - 1

-- One value, in the last slot before the indices wrap.
abbrev ring : RingBuffer
ring = record { buf = pos 0 ∷ pos 5 ∷ []; capacity = 2; head = last; tail = 0 }

ring-IsValid : IsValid ring
ring-IsValid = record {
  exponent = 1;
  exponent_le = omega arith;
  capacity_eq = refl;
  buf_fits = omega arith;
  head_lt = omega arith;
  tail_lt = omega arith;
  size_le = omega arith;
}

abbrev session : List Fifo.Call
session =
    Fifo.Call.put (pos 6)
    ∷ Fifo.Call.put (pos 7)
    ∷ Fifo.Call.take
    ∷ Fifo.Call.take
    ∷ Fifo.Call.take
    ∷ []

ring_run_refines_example :
    Fifo.run ring_buffer ring session ≡ ok (Fifo.run_spec 2 (rb_items ring) session)
ring_run_refines_example = ring_run_refines 2 ring session (ring-IsValid, refl)

abbrev zeros : ℕ → List ℤ
zeros n = replicate n (pos 0)

-- The producer and the consumer both in the middle of a call.
abbrev state_0 : System
state_0 = start ring

abbrev state_1 : System
state_1 = record state_0 { producer = Producer.has_tail (pos 6) 0 }

abbrev state_2 : System
state_2 = record state_1 { consumer = Consumer.has_head last }

abbrev state_3 : System
state_3 = record state_2 { producer = Producer.has_both (pos 6) 0 last }

abbrev state_4 : System
state_4 = record state_3 { consumer = Consumer.has_both last 0 }

both_reached : Reach state_0 state_4
both_reached =
    let r1 : Reach state_0 state_1 = Reach.next Reach.here (Step.load_tail (pos 6) refl) in
    let r2 : Reach state_0 state_2 = Reach.next r1 (Step.take_head refl) in
    let r3 : Reach state_0 state_3 = Reach.next r2 (Step.load_head (pos 6) 0 refl) in
    Reach.next r3 (Step.take_tail last refl)

Reach-no_race_example :
    (slot ring 0 ≢ slot ring last)
    × (slot ring 0 < length ring.buf)
    × (slot ring last < length ring.buf)
Reach-no_race_example =
    Reach-no_race ring state_4 (pos 6) 0 last last 0 ring-IsValid both_reached refl (omega arith)
      refl (omega arith)

-- The consumer takes the value 5 while the producer has written but not published the value 6.
abbrev state_5 : System
state_5 = record state_4 {
  ring = record { buf = pos 6 ∷ pos 5 ∷ []; capacity = 2; head = last; tail = 0 };
  producer = Producer.has_written (pos 6) 0;
}

abbrev state_6 : System
state_6 = record state_5 { consumer = Consumer.has_read last (pos 5) }

abbrev state_7 : System
state_7 = record state_6 {
  ring = record { buf = pos 6 ∷ pos 5 ∷ []; capacity = 2; head = 0; tail = 0 };
  consumer = Consumer.idle;
  received = pos 5 ∷ [];
}

abbrev state_8 : System
state_8 = record state_7 {
  ring = record { buf = pos 6 ∷ pos 5 ∷ []; capacity = 2; head = 0; tail = 1 };
  producer = Producer.idle;
  sent = pos 5 ∷ pos 6 ∷ [];
}

published_reached : Reach state_0 state_8
published_reached =
    let r5 : Reach state_0 state_5 =
      Reach.next both_reached (Step.write (pos 6) 0 last refl (omega arith)) in
    let r6 : Reach state_0 state_6 = Reach.next r5 (Step.read last 0 refl (omega arith)) in
    let r7 : Reach state_0 state_7 = Reach.next r6 (Step.free last (pos 5) refl) in
    Reach.next r7 (Step.publish (pos 6) 0 refl)

Reach-in_order_example :
    IsValid state_8.ring × (pos 5 ∷ pos 6 ∷ [] ≡ (pos 5 ∷ []) ++ rb_items state_8.ring)
Reach-in_order_example = Reach-in_order ring state_8 ring-IsValid published_reached
