-- ===== src/Linear/RingBuffer/Threads/Moves.antt =====
-- Each step of either thread keeps the invariant.
use native.Mathlib.Nat.{mod-lt}
use dsa_guide.Prelude.{
  suc, ◌+◌, ◌%◌, ◌<◌, ◌≡◌, sym, ap, ◌∙◌, [], ◌∷◌, ◌++◌, ℤ, arith, length-set, get_or, set,
  get_or-set,
}
use dsa_guide.Linear.Circular.{junk, cells, cells-set_behind, cells-snoc, add-mod-ne}
use dsa_guide.Linear.RingBuffer.{RingBuffer, size_mod, size_sub, rb_items, IsValid}
use dsa_guide.Linear.RingBuffer.Laws.{capacity_pos, capacity_le, masked, tail_cell}
use dsa_guide.Linear.RingBuffer.Threads.{Producer, Consumer, slot, Producing, Consuming}

-- The ring while the producer has written the slot and not yet published it.
abbrev pub filled : RingBuffer → ℤ → RingBuffer
filled rb val = record rb { buf = set rb.buf (slot rb rb.tail) val }

module _ (rb : RingBuffer) (val : ℤ) (v : IsValid rb)
    (room : size_sub rb.tail rb.head < rb.capacity) where
  pub filled-IsValid : IsValid (filled rb val)
  filled-IsValid = record {
    exponent = v.exponent;
    exponent_le = v.exponent_le;
    capacity_eq = v.capacity_eq;
    buf_fits = omega (arith, v.buf_fits, length-set rb.buf (slot rb rb.tail) val);
    head_lt = v.head_lt;
    tail_lt = v.tail_lt;
    size_le = v.size_le;
  }

  tail_slot : slot rb rb.tail ≡ (rb.head + size_sub rb.tail rb.head) % rb.capacity
  tail_slot = masked rb v rb.tail ∙ tail_cell rb v

  pub rb_items-filled : rb_items (filled rb val) ≡ rb_items rb
  rb_items-filled =
      ap (λ t. cells (set rb.buf t val) rb.capacity rb.head (size_sub rb.tail rb.head)) tail_slot
      ∙ cells-set_behind rb.buf rb.capacity rb.head (size_sub rb.tail rb.head) val v.buf_fits room

  pub tail-filled : get_or (filled rb val).buf (rb.tail % rb.capacity) junk ≡ val
  tail-filled = ground (
    arith,
    masked rb v rb.tail,
    v.buf_fits,
    mod-lt rb.tail (capacity_pos rb v),
    get_or-set rb.buf (slot rb rb.tail) (rb.tail % rb.capacity) val junk,
  )

  -- The slot that the consumer may be reading is another one.
  head-filled :
      0 < size_sub rb.tail rb.head
      → get_or (filled rb val).buf (rb.head % rb.capacity) junk
        ≡ get_or rb.buf (rb.head % rb.capacity) junk
  head-filled some_left = ground (
    arith,
    tail_slot,
    masked rb v rb.tail,
    v.buf_fits,
    mod-lt rb.tail (capacity_pos rb v),
    add-mod-ne rb.capacity rb.head (size_sub rb.tail rb.head) some_left room,
    get_or-set rb.buf (slot rb rb.tail) (rb.head % rb.capacity) val junk,
  )

  pub Consuming-filled : (c : Consumer) → Consuming rb c → Consuming (filled rb val) c
  Consuming-filled Consumer.idle h = h
  Consuming-filled (Consumer.has_head i) h = h
  Consuming-filled (Consumer.has_both i t) h = h
  Consuming-filled (Consumer.has_read i w) h = (h.0, h.1, head-filled h.1 ∙ h.2)

abbrev pub published : RingBuffer → RingBuffer
published rb = record rb { tail = (rb.tail + 1) % size_mod }

module _ (rb : RingBuffer) (v : IsValid rb) (room : size_sub rb.tail rb.head < rb.capacity) where
  published_size : size_sub ((rb.tail + 1) % size_mod) rb.head ≡ suc (size_sub rb.tail rb.head)
  published_size = omega (arith, v.tail_lt, v.head_lt, capacity_le rb v)

  pub published-IsValid : IsValid (published rb)
  published-IsValid = record {
    exponent = v.exponent;
    exponent_le = v.exponent_le;
    capacity_eq = v.capacity_eq;
    buf_fits = v.buf_fits;
    head_lt = v.head_lt;
    tail_lt = omega arith;
    size_le = omega (arith, published_size);
  }

  pub rb_items-published :
      rb_items (published rb) ≡ rb_items rb ++ get_or rb.buf (rb.tail % rb.capacity) junk ∷ []
  rb_items-published =
      ap (cells rb.buf rb.capacity rb.head) published_size
      ∙ cells-snoc rb.buf rb.capacity rb.head (size_sub rb.tail rb.head)
      ∙ ap (λ t. rb_items rb ++ get_or rb.buf t junk ∷ []) (sym (tail_cell rb v))

  pub Consuming-published : (c : Consumer) → Consuming rb c → Consuming (published rb) c
  Consuming-published Consumer.idle h = h
  Consuming-published (Consumer.has_head i) h = h
  Consuming-published (Consumer.has_both i t) h = (h.0, omega (arith, published_size), h.2)
  Consuming-published (Consumer.has_read i w) h = (h.0, omega (arith, published_size), h.2)

abbrev pub freed : RingBuffer → RingBuffer
freed rb = record rb { head = (rb.head + 1) % size_mod }

module _ (rb : RingBuffer) (v : IsValid rb) (some_left : 0 < size_sub rb.tail rb.head) where
  freed_size : size_sub rb.tail ((rb.head + 1) % size_mod) + 1 ≡ size_sub rb.tail rb.head
  freed_size = omega (arith, v.tail_lt, v.head_lt, capacity_le rb v)

  pub Producing-freed : (p : Producer) → Producing rb p → Producing (freed rb) p
  Producing-freed Producer.idle h = h
  Producing-freed (Producer.has_tail val t) h = h
  Producing-freed (Producer.has_both val t i) h =
      (h.0, rw h.0 (omega (arith, freed_size, h.0, h.1)))
  Producing-freed (Producer.has_written val t) h = (h.0, omega (arith, freed_size), h.2)
