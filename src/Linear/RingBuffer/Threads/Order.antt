-- ===== src/Linear/RingBuffer/Threads/Order.antt =====
-- What every interleaving of the two threads keeps: first in first out, and slots in bounds.
use native.Mathlib.Nat.{mod-lt}
use mathlib.Core.List.{append_assoc}
use dsa_guide.Prelude.{
  ℕ, ◌+◌, ◌%◌, ◌<◌, ◌≡◌, ◌≢◌, refl, sym, ap, ◌∙◌, subst, [], ◌∷◌, ◌++◌, ℤ, arith, length, get_or,
  set,
}
use dsa_guide.Linear.Circular.{junk, add-mod-ne}
use dsa_guide.Linear.RingBuffer.{RingBuffer, size_mod, size_sub, rb_items, IsValid}
use dsa_guide.Linear.RingBuffer.Laws.{
  capacity_pos, masked, tail_cell, consumed, consumed-IsValid, rb_items-consumed,
}
use dsa_guide.Linear.RingBuffer.Threads.{
  Producer, Consumer, System, slot, Step, Reach, Producing, Consuming, Inv,
}
use dsa_guide.Linear.RingBuffer.Threads.Moves.{
  filled-IsValid, rb_items-filled, tail-filled, Consuming-filled, published-IsValid,
  rb_items-published, Consuming-published, Producing-freed,
}

module _ (s : System) (inv : Inv s) where
  open inv use {valid, in_order, producing, consuming}

  write-Inv :
      (val : ℤ) (t : ℕ)
      → t ≡ s.ring.tail
      → size_sub s.ring.tail s.ring.head < s.ring.capacity
      → Inv (record s {
        ring = record (s.ring) { buf = set s.ring.buf (slot s.ring t) val };
        producer = Producer.has_written val t;
      })
  write-Inv val t e room =
      subst
        (λ i. Inv (record s {
          ring = record (s.ring) { buf = set s.ring.buf (slot s.ring i) val };
          producer = Producer.has_written val i;
        }))
        (sym e)
        (record {
          valid = filled-IsValid s.ring val valid room;
          in_order =
              in_order ∙ ap (λ l. s.received ++ l) (sym (rb_items-filled s.ring val valid room));
          producing = (refl, room, tail-filled s.ring val valid room);
          consuming = Consuming-filled s.ring val valid room s.consumer consuming;
        })

  publish-Inv :
      (val : ℤ) (t : ℕ)
      → Producing s.ring (Producer.has_written val t)
      → Inv (record s {
        ring = record (s.ring) { tail = (t + 1) % size_mod };
        producer = Producer.idle;
        sent = s.sent ++ val ∷ [];
      })
  publish-Inv val t (e, room, stored) =
      subst
        (λ i. Inv (record s {
          ring = record (s.ring) { tail = (i + 1) % size_mod };
          producer = Producer.idle;
          sent = s.sent ++ val ∷ [];
        }))
        (sym e)
        (record {
          valid = published-IsValid s.ring valid room;
          in_order =
              ap (λ l. l ++ val ∷ []) in_order
              ∙ append_assoc s.received (rb_items s.ring) (val ∷ [])
              ∙ ap (λ l. s.received ++ l)
                  (ap (λ x. rb_items s.ring ++ x ∷ []) (sym stored)
                    ∙ sym (rb_items-published s.ring valid room));
          producing = tt;
          consuming = Consuming-published s.ring valid room s.consumer consuming;
        })

  free-Inv :
      (h : ℕ) (v : ℤ)
      → Consuming s.ring (Consumer.has_read h v)
      → Inv (record s {
        ring = record (s.ring) { head = (h + 1) % size_mod };
        consumer = Consumer.idle;
        received = s.received ++ v ∷ [];
      })
  free-Inv h v (e, left, loaded) =
      subst
        (λ i. Inv (record s {
          ring = record (s.ring) { head = (i + 1) % size_mod };
          consumer = Consumer.idle;
          received = s.received ++ v ∷ [];
        }))
        (sym e)
        (record {
          valid = consumed-IsValid s.ring valid left;
          in_order =
              in_order
              ∙ ap (λ l. s.received ++ l)
                  (rb_items-consumed s.ring valid left
                    ∙ ap (λ x. x ∷ rb_items (consumed s.ring)) loaded)
              ∙ sym (append_assoc s.received (v ∷ []) (rb_items (consumed s.ring)));
          producing = Producing-freed s.ring valid left s.producer producing;
          consuming = tt;
        })

-- Every step of either thread keeps the invariant.
Step-Inv : {s t : System} → Step s t → Inv s → Inv t
Step-Inv {s} (Step.load_tail val e) inv = record {
  valid = inv.valid;
  in_order = inv.in_order;
  producing = refl;
  consuming = inv.consuming;
}
Step-Inv {s} (Step.load_head val t e) inv = record {
  valid = inv.valid;
  in_order = inv.in_order;
  producing = (subst (Producing s.ring) e inv.producing, omega arith);
  consuming = inv.consuming;
}
Step-Inv {s} (Step.refuse val t h e full) inv = record {
  valid = inv.valid;
  in_order = inv.in_order;
  producing = tt;
  consuming = inv.consuming;
}
Step-Inv {s} (Step.write val t h e room) inv =
    let p : Producing s.ring (Producer.has_both val t h) =
      subst (Producing s.ring) e inv.producing in
    write-Inv s inv val t p.0
      (subst (λ i. size_sub i s.ring.head < s.ring.capacity) p.0 (omega (arith, p.1)))
Step-Inv {s} (Step.publish val t e) inv =
    publish-Inv s inv val t (subst (Producing s.ring) e inv.producing)
Step-Inv {s} (Step.take_head e) inv = record {
  valid = inv.valid;
  in_order = inv.in_order;
  producing = inv.producing;
  consuming = refl;
}
Step-Inv {s} (Step.take_tail h e) inv = record {
  valid = inv.valid;
  in_order = inv.in_order;
  producing = inv.producing;
  consuming =
      let same : h ≡ s.ring.head = subst (Consuming s.ring) e inv.consuming in
      (same, rw same (omega arith), inv.valid.tail_lt);
}
Step-Inv {s} (Step.find_empty h t e empty) inv = record {
  valid = inv.valid;
  in_order = inv.in_order;
  producing = inv.producing;
  consuming = tt;
}
Step-Inv {s} (Step.read h t e more) inv =
    let c : Consuming s.ring (Consumer.has_both h t) = subst (Consuming s.ring) e inv.consuming in
    record {
      valid = inv.valid;
      in_order = inv.in_order;
      producing = inv.producing;
      consuming = (
        c.0,
        omega (arith, c.0, c.1, c.2, inv.valid.head_lt, more),
        ap (λ i. get_or s.ring.buf i junk)
            (sym (ap (slot s.ring) c.0 ∙ masked s.ring inv.valid s.ring.head)),
      );
    }
Step-Inv {s} (Step.free h v e) inv = free-Inv s inv h v (subst (Consuming s.ring) e inv.consuming)

Reach-Inv : {s t : System} → Reach s t → Inv s → Inv t
Reach-Inv Reach.here inv = inv
Reach-Inv (Reach.next r st) inv = Step-Inv st (Reach-Inv r inv)

-- Two idle threads at a valid ring, whose values count as sent.
abbrev pub start : RingBuffer → System
start rb = record {
  ring = rb;
  producer = Producer.idle;
  consumer = Consumer.idle;
  sent = rb_items rb;
  received = [];
}

start-Inv : (rb : RingBuffer) → IsValid rb → Inv (start rb)
start-Inv rb v = record { valid = v; in_order = refl; producing = tt; consuming = tt }

-- However the steps of the two threads interleave, the ring stays valid, and what has been sent is
-- what has been received, in the same order, followed by what the ring holds.
pub Reach-in_order :
    (rb : RingBuffer) (s : System)
    → IsValid rb
    → Reach (start rb) s
    → IsValid s.ring × (s.sent ≡ s.received ++ rb_items s.ring)
Reach-in_order rb s v r = let inv = Reach-Inv r (start-Inv rb v) in (inv.valid, inv.in_order)

-- In every reachable state, a producer that has found room and a consumer that has found a value
-- access two different slots, both inside the block.
pub Reach-no_race :
    (rb : RingBuffer) (s : System) (val : ℤ) (t h i j : ℕ)
    → IsValid rb
    → Reach (start rb) s
    → s.producer ≡ Producer.has_both val t h
    → size_sub t h < s.ring.capacity
    → s.consumer ≡ Consumer.has_both i j
    → i ≢ j
    → (slot s.ring t ≢ slot s.ring i)
      × (slot s.ring t < length s.ring.buf)
      × (slot s.ring i < length s.ring.buf)
Reach-no_race rb s val t h i j v r producing room consuming more =
    let inv = Reach-Inv r (start-Inv rb v) in
    let p : Producing s.ring (Producer.has_both val t h) =
      subst (Producing s.ring) producing inv.producing in
    let c : Consuming s.ring (Consumer.has_both i j) =
      subst (Consuming s.ring) consuming inv.consuming in
    let at_t : slot s.ring t ≡ (s.ring.head + size_sub s.ring.tail s.ring.head) % s.ring.capacity =
      ap (slot s.ring) p.0 ∙ masked s.ring inv.valid s.ring.tail ∙ tail_cell s.ring inv.valid in
    let at_i : slot s.ring i ≡ s.ring.head % s.ring.capacity =
      ap (slot s.ring) c.0 ∙ masked s.ring inv.valid s.ring.head in
    let left : 0 < size_sub s.ring.tail s.ring.head =
      omega (arith, c.0, c.1, c.2, inv.valid.head_lt, more) in
    let below : size_sub s.ring.tail s.ring.head < s.ring.capacity =
      omega (arith, room, p.0, p.1) in
    let small = capacity_pos s.ring inv.valid in
    (
      λ e.
          add-mod-ne s.ring.capacity s.ring.head (size_sub s.ring.tail s.ring.head) left below
            (sym at_i ∙ sym e ∙ at_t),
      omega (
        arith,
        at_t,
        mod-lt (s.ring.head + size_sub s.ring.tail s.ring.head) small,
        inv.valid.buf_fits,
      ),
      omega (arith, at_i, mod-lt s.ring.head small, inv.valid.buf_fits),
    )
