-- ===== src/Linear/Deque/Refine.antt =====
-- What the deque calls promise, and where `deque_pop_back` and `deque_back` read before the block.
use dsa_guide.Prelude.{
  ℕ, ◌-◌, ◌≤◌, ◌<◌, ◌^◌, ◌≡◌, refl, Bool, true, false, List, [], ◌∷◌, ◌++◌, ℤ, ok, aborted,
  undefined, arith, Returns, returns, length, load-ok, get_or,
}
use dsa_guide.Linear.Circular.{junk}
use dsa_guide.Linear.Deque.{
  Deque, load_int, deque_create, deque_push_back, deque_push_front, deque_pop_front, deque_pop_back,
  deque_front, deque_back, deque_is_empty, first, past_last, deque_items, IsValid,
}
use dsa_guide.Linear.Deque.Laws.{
  deque_create-IsValid, deque_push_back-ok, pushed_back-IsValid, deque_items-pushed_back,
  deque_push_front-ok, pushed_front-IsValid, deque_items-pushed_front, deque_pop_front-ok,
  popped_front-IsValid, deque_items-popped_front, deque_pop_back-ok, popped_back-IsValid,
  deque_items-popped_back,
}

-- A push was made: the deque is valid, keeps its capacity, and holds `items`.
abbrev pub Pushed : Deque → List ℤ → Bool × Deque → Type 0
Pushed d items (done, d') =
    (done ≡ true) × IsValid d' × (d'.capacity ≡ d.capacity) × (deque_items d' ≡ items)

-- On a valid deque with room both pushes return, keep it valid, and put the value at their end.
pub deque_push_refines :
    (d : Deque) (val : ℤ)
    → IsValid d
    → d.size < d.capacity
    → Returns (Pushed d (deque_items d ++ val ∷ [])) (deque_push_back d val)
      × Returns (Pushed d (val ∷ deque_items d)) (deque_push_front d val)
deque_push_refines d val v room = (
  rw (deque_push_back-ok d val v room) (
      returns (refl, pushed_back-IsValid d val v room, refl, deque_items-pushed_back d val v room)),
  rw (deque_push_front-ok d val v room) (
      returns
        (refl, pushed_front-IsValid d val v room, refl, deque_items-pushed_front d val v room)),
)

-- On a full deque both pushes return `false` and change nothing.
deque_push_full :
    (d : Deque) (val : ℤ)
    → d.size ≡ d.capacity
    → (deque_push_back d val ≡ ok (false, d)) × (deque_push_front d val ≡ ok (false, d))
unfolding deque_push_back deque_push_front
deque_push_full d val full = ground arith

-- On an empty deque `deque_is_empty` answers true, and the four calls that read a value fail their
-- assertions.
deque_pop-empty :
    (d : Deque)
    → d.size ≡ 0
    → (deque_is_empty d ≡ true)
      × (deque_pop_front d ≡ aborted)
      × (deque_pop_back d ≡ aborted)
      × (deque_front d ≡ aborted)
      × (deque_back d ≡ aborted)
unfolding deque_is_empty deque_pop_front deque_pop_back deque_front deque_back
deque_pop-empty d h = ground arith

deque_front-ok :
    (d : Deque) → IsValid d → 0 < d.size → deque_front d ≡ ok (get_or d.block (first d) junk)
unfolding deque_front load_int
deque_front-ok d v h =
    ground (arith, v.front_eq, v.front_lt, v.size_le, v.block_fits, load-ok d.block (first d) junk)

deque_back-ok :
    (d : Deque)
    → IsValid d
    → 0 < d.size
    → 0 < past_last d
    → deque_back d ≡ ok (get_or d.block (past_last d - 1) junk)
unfolding deque_back load_int
deque_back-ok d v h p =
    ground (arith, v.back_eq, v.back_le, v.block_fits, load-ok d.block (past_last d - 1) junk)

-- On a valid deque that is not empty `deque_pop_front` returns the value that `deque_front` shows,
-- takes it off the front, and leaves a valid deque of the rest.
pub deque_pop_front_refines :
    (d : Deque)
    → IsValid d
    → 0 < d.size
    → Returns
        (λ r. IsValid r.1 × (deque_items d ≡ r.0 ∷ deque_items r.1) × (deque_front d ≡ ok r.0))
        (deque_pop_front d)
deque_pop_front_refines d v h =
    rw (deque_pop_front-ok d v h)
      (returns (popped_front-IsValid d v h, deque_items-popped_front d v h, deque_front-ok d v h))

-- On a valid deque that is not empty and whose `back` is not the -1 it starts with,
-- `deque_pop_back` returns the value that `deque_back` shows, takes it off the back, and leaves a
-- valid deque of the rest.
pub deque_pop_back_refines :
    (d : Deque)
    → IsValid d
    → 0 < d.size
    → 0 < past_last d
    → Returns
        (λ r. IsValid r.1 × (deque_items d ≡ deque_items r.1 ++ r.0 ∷ []) × (deque_back d ≡ ok r.0))
        (deque_pop_back d)
deque_pop_back_refines d v h p =
    rw (deque_pop_back-ok d v h p) (
      returns (popped_back-IsValid d v h p, deque_items-popped_back d v h p, deque_back-ok d v h p))

-- A deque that has only been pushed to at the front holds the value, but reading it from the back
-- accesses the block at -1, whatever the value and the capacity.
pub deque_push_front-back_undefined :
    (block : List ℤ) (cap : ℕ) (val : ℤ)
    → 0 < cap
    → cap ≤ length block
    → cap ≤ 2 ^ 30
    → Returns
        (λ r.
          Pushed (deque_create block cap) (val ∷ []) r
          × (deque_back r.1 ≡ undefined)
          × (deque_pop_back r.1 ≡ undefined))
        (deque_push_front (deque_create block cap) val)
unfolding deque_create deque_back deque_pop_back load_int
deque_push_front-back_undefined block cap val h k l =
    let fresh = deque_create block cap in
    let v = (deque_create-IsValid block cap k l).0 in
    rw (deque_push_front-ok fresh val v h) (
      returns (
        (refl, pushed_front-IsValid fresh val v h, refl, deque_items-pushed_front fresh val v h),
        refl,
        refl,
      ))
