-- ===== src/Linear/Deque/Laws.antt =====
-- The deque calls against the list of the values that the deque holds.
use native.Mathlib.Nat.{mod-lt, mod-eq_of_lt, mod-add-mod, mod-mod, add-mod_right}
use dsa_guide.Prelude.{
  ℕ, suc, ◌+◌, ◌-◌, ◌%◌, ◌≤◌, ◌<◌, ◌^◌, ◌≡◌, refl, sym, ap, ap₂, ◌∙◌, true, List, [], ◌∷◌, ◌++◌, ℤ,
  pos, ◌+ℤ◌, ◌-ℤ◌, ok, arith, length, length-set, load-ok, store-ok, get_or, set,
}
use dsa_guide.Linear.Circular.{
  wrap_index-ok, cells, cells-set_last, cells-set_first, cells-mod, cells-suc, cells-snoc, junk,
}
use dsa_guide.Linear.Deque.{
  Deque, wrap_int, load_int, store_int, deque_create, deque_push_back, deque_push_front,
  deque_pop_front, deque_pop_back, first, past_last, deque_items, IsValid,
}

-- A new deque is valid and empty.
pub deque_create-IsValid :
    (block : List ℤ) (cap : ℕ)
    → cap ≤ length block
    → cap ≤ 2 ^ 30
    → IsValid (deque_create block cap) × (deque_items (deque_create block cap) ≡ [])
unfolding deque_create
deque_create-IsValid block cap h k = (
  record {
    block_fits = h;
    int_capacity = k;
    size_le = omega arith;
    front_eq = refl;
    front_lt = λ p. p;
    back_eq = refl;
    back_le = omega arith;
    back_at = λ p. refl;
  },
  refl,
)

-- The deque after a successful `deque_push_back`, and after `deque_push_front`.
abbrev pub pushed_back : Deque → ℤ → Deque
pushed_back d val =
    let at = past_last d % d.capacity in
    record d { block = set d.block at val; back = pos at; size = d.size + 1 }

abbrev pub before_first : Deque → ℕ
before_first d = (first d + d.capacity - 1) % d.capacity

abbrev pub pushed_front : Deque → ℤ → Deque
pushed_front d val = record d {
  block = set d.block (before_first d) val;
  front = pos (before_first d);
  size = d.size + 1;
}

module _ (d : Deque) (val : ℤ) (v : IsValid d) (room : d.size < d.capacity) where
  pub deque_push_back-ok : deque_push_back d val ≡ ok (true, pushed_back d val)
  unfolding deque_push_back wrap_int store_int ◌+ℤ◌
  deque_push_back-ok = ground (
    arith,
    v.int_capacity,
    v.block_fits,
    v.back_eq,
    v.back_le,
    store-ok d.block (past_last d % d.capacity) val,
    wrap_index-ok (past_last d) d.capacity,
    mod-lt (past_last d) {m = d.capacity} (omega arith),
  )

  pub deque_push_front-ok : deque_push_front d val ≡ ok (true, pushed_front d val)
  unfolding deque_push_front wrap_int store_int ◌+ℤ◌ ◌-ℤ◌
  deque_push_front-ok = ground (
    arith,
    v.int_capacity,
    v.block_fits,
    v.front_eq,
    v.front_lt,
    store-ok d.block (before_first d) val,
    wrap_index-ok (first d + d.capacity - 1) d.capacity,
    mod-lt (first d + d.capacity - 1) {m = d.capacity} (omega arith),
  )

  pub pushed_back-IsValid : IsValid (pushed_back d val)
  pushed_back-IsValid = record {
    block_fits = omega (arith, v.block_fits, length-set d.block (past_last d % d.capacity) val);
    int_capacity = v.int_capacity;
    size_le = omega arith;
    front_eq = v.front_eq;
    front_lt = v.front_lt;
    back_eq = ground arith;
    back_le = omega (arith, mod-lt (past_last d) {m = d.capacity} (omega arith));
    back_at = λ p.
        mod-add-mod (past_last d) d.capacity 1
        ∙ sym (mod-add-mod (past_last d) d.capacity 1)
        ∙ ap (λ t. (t + 1) % d.capacity) (v.back_at p)
        ∙ mod-add-mod (first d + d.size) d.capacity 1
        ∙ ap (λ t. t % d.capacity) (omega arith);
  }

  pub deque_items-pushed_back : deque_items (pushed_back d val) ≡ deque_items d ++ val ∷ []
  deque_items-pushed_back =
      ap (λ t. cells (set d.block t val) d.capacity (first d) (d.size + 1))
        (v.back_at (omega arith))
      ∙ ap (cells (set d.block ((first d + d.size) % d.capacity) val) d.capacity (first d))
          {y = suc d.size} (omega arith)
      ∙ cells-set_last d.block d.capacity (first d) d.size val v.block_fits room

  -- The cell after the new front is the old front.
  before_first-suc : (before_first d + 1) % d.capacity ≡ first d % d.capacity
  before_first-suc =
      mod-add-mod (first d + d.capacity - 1) d.capacity 1
      ∙ ap (λ t. t % d.capacity) {y = first d + d.capacity} (omega arith)
      ∙ add-mod_right (first d) d.capacity

  pub pushed_front-IsValid : IsValid (pushed_front d val)
  pushed_front-IsValid = record {
    block_fits = omega (arith, v.block_fits, length-set d.block (before_first d) val);
    int_capacity = v.int_capacity;
    size_le = omega arith;
    front_eq = refl;
    front_lt = λ p. mod-lt (first d + d.capacity - 1) p;
    back_eq = v.back_eq;
    back_le = v.back_le;
    back_at = λ p.
        v.back_at p
        ∙ sym (mod-add-mod (first d) d.capacity d.size)
        ∙ ap (λ t. (t + d.size) % d.capacity) (sym before_first-suc)
        ∙ mod-add-mod (before_first d + 1) d.capacity d.size
        ∙ ap (λ t. t % d.capacity) (omega arith);
  }

  pub deque_items-pushed_front : deque_items (pushed_front d val) ≡ val ∷ deque_items d
  deque_items-pushed_front =
      ap (λ t. cells (set d.block t val) d.capacity (before_first d) (d.size + 1))
        (sym (mod-mod (first d + d.capacity - 1) d.capacity))
      ∙ ap (cells (set d.block (before_first d % d.capacity) val) d.capacity (before_first d))
          {y = suc d.size} (omega arith)
      ∙ cells-set_first d.block d.capacity (before_first d) d.size val v.block_fits room
      ∙ ap (◌∷◌ val)
          (cells-mod d.block d.capacity (before_first d + 1) (first d) d.size before_first-suc)

-- The deque after `deque_pop_front`, and after `deque_pop_back`.
abbrev pub popped_front : Deque → Deque
popped_front d = record d { front = pos ((first d + 1) % d.capacity); size = d.size - 1 }

abbrev pub before_last : Deque → ℕ
before_last d = (past_last d + d.capacity - 2) % d.capacity

abbrev pub popped_back : Deque → Deque
popped_back d = record d { back = pos (before_last d); size = d.size - 1 }

module _ (d : Deque) (v : IsValid d) (some_left : 0 < d.size) where
  pub deque_pop_front-ok : deque_pop_front d ≡ ok (get_or d.block (first d) junk, popped_front d)
  unfolding deque_pop_front wrap_int load_int ◌+ℤ◌
  deque_pop_front-ok = ground (
    arith,
    v.int_capacity,
    v.block_fits,
    v.size_le,
    v.front_eq,
    v.front_lt,
    load-ok d.block (first d) junk,
    wrap_index-ok (first d + 1) d.capacity,
  )

  pub popped_front-IsValid : IsValid (popped_front d)
  popped_front-IsValid = record {
    block_fits = v.block_fits;
    int_capacity = v.int_capacity;
    size_le = omega (arith, v.size_le);
    front_eq = refl;
    front_lt = λ p. mod-lt (first d + 1) p;
    back_eq = v.back_eq;
    back_le = v.back_le;
    back_at = λ p.
        v.back_at p
        ∙ ap (λ t. t % d.capacity) (omega arith)
        ∙ sym (mod-add-mod (first d + 1) d.capacity (d.size - 1));
  }

  pub deque_items-popped_front :
      deque_items d ≡ get_or d.block (first d) junk ∷ deque_items (popped_front d)
  deque_items-popped_front =
      cells-suc d.block d.capacity (first d) d.size some_left
      ∙ ap₂ (λ k t. get_or d.block k junk ∷ t)
          (mod-eq_of_lt (v.front_lt (omega (arith, v.size_le))))
          (cells-mod d.block d.capacity (first d + 1) ((first d + 1) % d.capacity) (d.size - 1)
            (sym (mod-mod (first d + 1) d.capacity)))

  module _ (was_pushed : 0 < past_last d) where
    last_cell : past_last d - 1 ≡ (first d + d.size - 1) % d.capacity
    last_cell =
        sym (mod-eq_of_lt {m = d.capacity} (omega (arith, v.back_le)))
        ∙ sym (add-mod_right (past_last d - 1) d.capacity)
        ∙ ap (λ t. t % d.capacity) (omega (arith, v.size_le))
        ∙ sym (mod-add-mod (past_last d) d.capacity (d.capacity - 1))
        ∙ ap (λ t. (t + (d.capacity - 1)) % d.capacity) (v.back_at (omega (arith, v.size_le)))
        ∙ mod-add-mod (first d + d.size) d.capacity (d.capacity - 1)
        ∙ ap (λ t. t % d.capacity) {y = first d + d.size - 1 + d.capacity}
            (omega (arith, v.size_le))
        ∙ add-mod_right (first d + d.size - 1) d.capacity

    pub deque_pop_back-ok :
        deque_pop_back d ≡ ok (get_or d.block (past_last d - 1) junk, popped_back d)
    unfolding deque_pop_back wrap_int load_int ◌+ℤ◌ ◌-ℤ◌
    deque_pop_back-ok = ground (
      arith,
      v.int_capacity,
      v.block_fits,
      v.size_le,
      v.back_eq,
      v.back_le,
      load-ok d.block (past_last d - 1) junk,
      wrap_index-ok (past_last d + d.capacity - 2) d.capacity,
    )

    pub popped_back-IsValid : IsValid (popped_back d)
    popped_back-IsValid = record {
      block_fits = v.block_fits;
      int_capacity = v.int_capacity;
      size_le = omega (arith, v.size_le);
      front_eq = v.front_eq;
      front_lt = v.front_lt;
      back_eq = ground arith;
      back_le = omega (
        arith,
        mod-lt (past_last d + d.capacity - 2) {m = d.capacity} (omega (arith, v.size_le)),
      );
      back_at = λ p.
          mod-add-mod (past_last d + d.capacity - 2) d.capacity 1
          ∙ ap (λ t. t % d.capacity) {y = past_last d - 1 + d.capacity} (omega arith)
          ∙ add-mod_right (past_last d - 1) d.capacity
          ∙ mod-eq_of_lt {m = d.capacity} (omega (arith, v.back_le))
          ∙ last_cell
          ∙ ap (λ t. t % d.capacity) (omega arith);
    }

    pub deque_items-popped_back :
        deque_items d ≡ deque_items (popped_back d) ++ get_or d.block (past_last d - 1) junk ∷ []
    deque_items-popped_back =
        ap (cells d.block d.capacity (first d)) {y = suc (d.size - 1)} (omega arith)
        ∙ cells-snoc d.block d.capacity (first d) (d.size - 1)
        ∙ ap (λ t. deque_items (popped_back d) ++ get_or d.block t junk ∷ [])
            (ap (λ t. t % d.capacity) (omega arith) ∙ sym last_cell)
