-- ===== src/Trees/Heap/Calls.antt =====
-- The calls of the min-heap.
use mathlib.Core.List.{Perm}
use mathlib.Core.List.Perm
use dsa_guide.Prelude.{
  ℕ, suc, ◌+◌, ◌-◌, ◌%◌, ◌^◌, ◌<◌, ◌≤◌, ◌≡◌, ◌⊎◌, inl, inr, refl, sym, true, false, List, ◌∷◌, ℤ,
  ◌≤ℤ◌, ltb, ◌==◌, if◌then◌else◌, Bool-cases, ok, load-ok, store-ok, length, length-set,
  get_or-set_ne, set, take, pos, subst, Returns, returns, Returns-bind, Returns-map, arith,
}
use dsa_guide.Trees.Heap.{
  MinHeap, sift_up, sift_down, heap_push, pop_first, heap_pop_key, heap_pop_val,
}
use dsa_guide.Trees.Heap.Swaps.{cell}
use dsa_guide.Trees.Heap.Order.{child-above, OrderedFrom, Sinking, le-eq, top-OrderedFrom}
use dsa_guide.Trees.Heap.Entries.{done, entries, Together-entries, entries-push, entries-pop}
use dsa_guide.Trees.Heap.Rise.{Fits, Under, Rising, Restored, sift_up-Restored}
use dsa_guide.Trees.Heap.Sink.{Under-refl, Under-trans, sift_down-Restored}

-- The arrays have room for `capacity` entries, and no key is less than its parent's.
pub record IsHeap (h : MinHeap) : Type 0 where
  pub keys_fit : h.capacity ≤ length h.keys
  pub vals_fit : h.capacity ≤ length h.vals
  pub size_le : h.size ≤ h.capacity
  pub small : h.capacity < 2 ^ 62
  pub ordered : OrderedFrom Under h.keys h.size 0

-- The keys in the heap, each with its value.
abbrev pub heap_entries : MinHeap → List (ℤ × ℤ)
heap_entries h = entries (take h.size h.keys) (take h.size h.vals)

Restored-entries : (h r : MinHeap) → Restored h r → Perm (heap_entries r) (heap_entries h)
Restored-entries h r d =
    subst (λ n. Perm (entries (take n r.keys) (take n r.vals)) (heap_entries h)) (sym d.size)
      (Together-entries d.together)

-- The heap with a new last entry, before it rises.
abbrev with_last : MinHeap → ℤ → ℤ → MinHeap
with_last h key val = record h {
  keys = set h.keys h.size key;
  vals = set h.vals h.size val;
  size = suc h.size;
}

with_last-Rising :
    (h : MinHeap) (key val : ℤ)
    → IsHeap h
    → h.size < h.capacity
    → Rising (with_last h key val).keys (suc h.size) h.size
with_last-Rising h key val valid room = record {
  others = λ p c ne child q.
      let high = child-above c p child in
      le-eq (get_or-set_ne h.keys h.size p key (pos 0) λ e. absurd (omega (arith, high, e)))
        (get_or-set_ne h.keys h.size c key (pos 0) λ e. ne (sym e))
        (valid.ordered p c (omega arith) child (omega (arith, ne)));
  above = λ p c of_p child q. absurd (omega (arith, child-above c h.size child));
}

heap_push-round :
    (h : MinHeap) (key val : ℤ)
    → IsHeap h
    → h.size < h.capacity
    → heap_push h key val ≡ sift_up (h.size + 1) (with_last h key val) h.size
unfolding heap_push
heap_push-round h key val valid room =
    let test : ltb h.size h.capacity ≡ true = ground arith in
    let next : (h.size + 1) % 2 ^ 64 ≡ suc h.size = omega (arith, valid.small) in
    rw
      (
        test,
        store-ok h.keys h.size key (omega (arith, valid.keys_fit)),
        store-ok h.vals h.size val (omega (arith, valid.vals_fit)),
        next,
      )
      refl

-- `heap_push` on a heap that is not full keeps heap order, and adds one entry.
pub heap_push-IsHeap :
    (h : MinHeap) (key val : ℤ)
    → IsHeap h
    → h.size < h.capacity
    → Returns
        (λ r. IsHeap r × Perm (heap_entries r) ((key, val) ∷ heap_entries h))
        (heap_push h key val)
heap_push-IsHeap h key val valid room =
    let added = with_last h key val in
    let long = length-set h.keys h.size key in
    let long_vals = length-set h.vals h.size val in
    subst (Returns (λ r. IsHeap r × Perm (heap_entries r) ((key, val) ∷ heap_entries h)))
      (sym (heap_push-round h key val valid room))
      (Returns-map
        (sift_up-Restored (h.size + 1) added h.size
          (record {
            keys_fit = omega (arith, long, valid.keys_fit);
            vals_fit = omega (arith, long_vals, valid.vals_fit);
          })
          (omega arith) (omega arith) (with_last-Rising h key val valid room))
        λ r d. (
          record {
            keys_fit = omega (arith, d.capacity, d.lengths.0, long, valid.keys_fit);
            vals_fit = omega (arith, d.capacity, d.lengths.1, long_vals, valid.vals_fit);
            size_le = omega (arith, d.size, d.capacity);
            small = omega (arith, d.capacity, valid.small);
            ordered = d.ordered;
          },
          Perm.trans (Restored-entries added r d) (
              entries-push h.keys h.vals h.size key val (omega (arith, valid.keys_fit))
                (omega (arith, valid.vals_fit))),
        ))

-- The heap with its last entry in the place of the first, before it sinks.
abbrev without_first : MinHeap → ℕ → MinHeap
without_first h last = record h {
  keys = set h.keys 0 (cell h.keys last);
  vals = set h.vals 0 (cell h.vals last);
  size = last;
}

without_first-Sinking :
    (h : MinHeap) (last : ℕ)
    → IsHeap h
    → suc last ≡ h.size
    → Sinking Under (without_first h last).keys last 0 0
without_first-Sinking h last valid e = record {
  others = λ p c low ne child q.
      let high = child-above c p child in
      le-eq (get_or-set_ne h.keys 0 p (cell h.keys last) (pos 0) λ z. ne (sym z))
        (get_or-set_ne h.keys 0 c (cell h.keys last) (pos 0) λ z. absurd (omega (arith, high, z)))
        (valid.ordered p c low child (omega (arith, e)));
  above = λ p c low of_p child q. absurd (omega (arith, child-above 0 p of_p));
}

-- The heap after its first entry is gone, and that entry with what is left.
record Popped (h r : MinHeap) : Type 0 where
  pub valid : IsHeap r
  pub entries_left : Perm ((cell h.keys 0, cell h.vals 0) ∷ heap_entries r) (heap_entries h)

Restored-Popped :
    (h : MinHeap) (last : ℕ) (r : MinHeap)
    → IsHeap h
    → suc last ≡ h.size
    → Restored (without_first h last) r
    → Popped h r
Restored-Popped h last r valid e d =
    let long = length-set h.keys 0 (cell h.keys last) in
    let long_vals = length-set h.vals 0 (cell h.vals last) in
    record {
      valid = record {
        keys_fit = omega (arith, d.capacity, d.lengths.0, long, valid.keys_fit);
        vals_fit = omega (arith, d.capacity, d.lengths.1, long_vals, valid.vals_fit);
        size_le = omega (arith, d.size, d.capacity, e, valid.size_le);
        small = omega (arith, d.capacity, valid.small);
        ordered = d.ordered;
      };
      entries_left =
          subst
            (λ n.
              Perm ((cell h.keys 0, cell h.vals 0) ∷ heap_entries r)
                (entries (take n h.keys) (take n h.vals)))
            e
            (Perm.trans
              (Perm.cons (cell h.keys 0, cell h.vals 0)
                (Restored-entries (without_first h last) r d))
              (entries-pop h.keys h.vals last (omega (arith, e, valid.size_le, valid.keys_fit))
                (omega (arith, e, valid.size_le, valid.vals_fit))));
    }

pop_first-Popped :
    (h : MinHeap) (last : ℕ) → IsHeap h → suc last ≡ h.size → Returns (Popped h) (pop_first h)
unfolding pop_first
pop_first-Popped h last valid e =
    let at_last : h.size - 1 ≡ last = omega (arith, e) in
    rw
      (
        at_last,
        load-ok h.keys last (pos 0) (omega (arith, e, valid.size_le, valid.keys_fit)),
        store-ok h.keys 0 (cell h.keys last) (omega (arith, e, valid.size_le, valid.keys_fit)),
        load-ok h.vals last (pos 0) (omega (arith, e, valid.size_le, valid.vals_fit)),
        store-ok h.vals 0 (cell h.vals last) (omega (arith, e, valid.size_le, valid.vals_fit)),
      )
      (Returns-map {Post = Restored (without_first h last)} (sink (Bool-cases (last == 0)))
        λ r d. Restored-Popped h last r valid e d)
  where
    fits : Fits (without_first h last)
    fits = record {
      keys_fit =
          omega (arith, e, valid.size_le, valid.keys_fit, length-set h.keys 0 (cell h.keys last));
      vals_fit =
          omega (arith, e, valid.size_le, valid.vals_fit, length-set h.vals 0 (cell h.vals last));
    }

    sink :
        ((last == 0) ≡ true) ⊎ ((last == 0) ≡ false)
        → Returns (Restored (without_first h last)) (
            if last == 0
            then ok (without_first h last)
            else sift_down last (without_first h last) 0)
    sink (inl empty) = rw empty (
        returns (record {
          size = refl;
          capacity = refl;
          lengths = (refl, refl);
          together = done;
          ordered = λ p c low child q. absurd (ground (arith, empty));
        }))
    sink (inr some_left) = rw some_left (
        sift_down-Restored last (without_first h last) 0 fits
          (omega (arith, e, valid.size_le, valid.small)) (ground (arith, some_left)) (omega arith)
          (without_first-Sinking h last valid e))

-- `heap_pop_key` on a heap that is not empty takes out the first entry, whose key it returns: no key of
-- the heap is less. What is left is a heap with all other entries.
pub heap_pop_key-least :
    (h : MinHeap)
    → IsHeap h
    → 0 < h.size
    → Returns
        (λ p.
          IsHeap p.1
          × Perm ((p.0, cell h.vals 0) ∷ heap_entries p.1) (heap_entries h)
          × ((j : ℕ) → j < h.size → p.0 ≤ℤ cell h.keys j))
        (heap_pop_key h)
unfolding heap_pop_key
heap_pop_key-least h valid some_left =
    let test : ltb 0 h.size ≡ true = ground arith in
    rw (test, load-ok h.keys 0 (pos 0) (omega (arith, valid.size_le, valid.keys_fit)))
      (Returns-bind (pop_first-Popped h (h.size - 1) valid (omega arith)) λ r popped. returns (
        popped.valid,
        popped.entries_left,
        λ j q.
            top-OrderedFrom Under Under-refl Under-trans j h.keys h.size j valid.ordered q
              (omega arith),
      ))

-- `heap_pop_val` on a heap that is not empty takes out the same entry, and returns its value.
heap_pop_val-first :
    (h : MinHeap)
    → IsHeap h
    → 0 < h.size
    → Returns
        (λ p. IsHeap p.1 × Perm ((cell h.keys 0, p.0) ∷ heap_entries p.1) (heap_entries h))
        (heap_pop_val h)
unfolding heap_pop_val
heap_pop_val-first h valid some_left =
    let test : ltb 0 h.size ≡ true = ground arith in
    rw (test, load-ok h.vals 0 (pos 0) (omega (arith, valid.size_le, valid.vals_fit)))
      (Returns-bind (pop_first-Popped h (h.size - 1) valid (omega arith))
        λ r popped. returns (popped.valid, popped.entries_left))
