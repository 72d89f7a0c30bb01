-- ===== src/Linear/Stack/Laws.antt =====
-- The stack calls against the list of the values from bottom to top.
use dsa_guide.Prelude.{
  ℕ, suc, ◌-◌, ◌<◌, ◌≤◌, ◌^◌, ◌≡◌, refl, sym, ap, ◌∙◌, true, false, List, [], ◌∷◌, ◌++◌, ℤ, pos,
  sub_ℕ, ◌+ℤ◌, ◌-ℤ◌, ok, aborted, arith, length, length-set, set, get_or, take, take-set,
  take-set_behind, get_or-set_self, take-suc, load-ok, store-ok, Returns, returns, ℕ_discrete, ◌⊎◌,
  inl, inr,
}
use dsa_guide.Linear.Stack.{
  Stack, stack_create, load_at, store_at, stack_push, stack_pop, stack_peek, stack_is_empty, depth,
  stack_items, IsValid,
}

-- The stack after a successful `stack_push`, and after `stack_pop`.
abbrev pub pushed : Stack → ℤ → Stack
pushed s val = record s { block = set s.block (depth s) val; top = pos (depth s) }

abbrev pub popped : Stack → Stack
popped s = record s { top = s.top -ℤ pos 1 }

abbrev pub top_value : Stack → ℤ
top_value s = get_or s.block (depth s - 1) (pos 0)

module _ (s : Stack) (val : ℤ) (v : IsValid s) (room : depth s < s.capacity) where
  pub stack_push-ok : stack_push s val ≡ ok (true, pushed s val)
  unfolding stack_push store_at ◌+ℤ◌
  stack_push-ok =
      ground (arith, v.int_capacity, v.block_fits, v.top_eq, store-ok s.block (depth s) val)

  pub pushed-IsValid : IsValid (pushed s val)
  pushed-IsValid = record {
    block_fits = omega (arith, v.block_fits, length-set s.block (depth s) val);
    int_capacity = v.int_capacity;
    top_eq = ground arith;
    depth_le = omega arith;
  }

  stack_items-pushed : stack_items (pushed s val) ≡ stack_items s ++ val ∷ []
  stack_items-pushed =
      ap (λ n. take n (set s.block (depth s) val)) {y = suc (depth s)} (omega arith)
      ∙ take-set (depth s) s.block val (omega (arith, v.block_fits))

stack_push-full :
    (s : Stack) (val : ℤ) → IsValid s → depth s ≡ s.capacity → stack_push s val ≡ ok (false, s)
unfolding stack_push ◌+ℤ◌
stack_push-full s val v full = ground (arith, v.int_capacity, v.top_eq)

module _ (s : Stack) (v : IsValid s) (some_left : 0 < depth s) where
  pub stack_pop-ok : stack_pop s ≡ ok (top_value s, popped s)
  unfolding stack_pop stack_is_empty load_at
  stack_pop-ok =
      ground (arith, v.block_fits, v.depth_le, v.top_eq, load-ok s.block (depth s - 1) (pos 0))

  stack_peek-ok : stack_peek s ≡ ok (top_value s)
  unfolding stack_peek stack_is_empty load_at
  stack_peek-ok =
      ground (arith, v.block_fits, v.depth_le, v.top_eq, load-ok s.block (depth s - 1) (pos 0))

  pub stack_is_empty-false : stack_is_empty s ≡ false
  unfolding stack_is_empty
  stack_is_empty-false = ground (arith, v.top_eq)

  pub depth-popped : depth (popped s) ≡ depth s - 1
  unfolding ◌-ℤ◌
  depth-popped = ground (arith, v.top_eq)

  pub popped-IsValid : IsValid (popped s)
  popped-IsValid = record {
    block_fits = v.block_fits;
    int_capacity = v.int_capacity;
    top_eq = top-popped;
    depth_le = omega (arith, depth-popped, v.depth_le);
  }
    where
      top-popped : (popped s).top ≡ sub_ℕ (depth (popped s)) 1
      top-popped = unfold ◌-ℤ◌ in ground (arith, v.top_eq)

  stack_items-popped : stack_items s ≡ stack_items (popped s) ++ top_value s ∷ []
  stack_items-popped =
      ap (λ n. take n s.block) {y = suc (depth s - 1)} (omega arith)
      ∙ take-suc (depth s - 1) s.block (pos 0) (omega (arith, v.depth_le, v.block_fits))
      ∙ ap (λ n. take n s.block ++ top_value s ∷ []) (sym depth-popped)

pub stack_is_empty-true : (s : Stack) → IsValid s → depth s ≡ 0 → stack_is_empty s ≡ true
unfolding stack_is_empty
stack_is_empty-true s v h = ground (arith, v.top_eq)

pub stack_create-depth : (block : List ℤ) (cap : ℕ) → depth (stack_create block cap) ≡ 0
unfolding stack_create
stack_create-depth block cap = refl

pub stack_create-IsValid :
    (block : List ℤ) (cap : ℕ)
    → cap ≤ length block
    → cap < 2 ^ 31
    → IsValid (stack_create block cap)
unfolding stack_create
stack_create-IsValid block cap h k = record {
  block_fits = h;
  int_capacity = k;
  top_eq = refl;
  depth_le = omega arith;
}

module _ (s : Stack) (val : ℤ) (v : IsValid s) (room : depth s < s.capacity) where
  top_value-pushed : top_value (pushed s val) ≡ val
  top_value-pushed =
      ap (λ n. get_or (set s.block (depth s) val) n (pos 0)) {y = depth s} (omega arith)
      ∙ get_or-set_self s.block (depth s) val (pos 0) (omega (arith, v.block_fits))

  stack_items-popped-pushed : stack_items (popped (pushed s val)) ≡ stack_items s
  stack_items-popped-pushed =
      ap (λ n. take n (set s.block (depth s) val)) {y = depth s}
        (omega (arith, depth-popped (pushed s val) (pushed-IsValid s val v room) (omega arith)))
      ∙ take-set_behind (depth s) s.block val

-- A stack keeps its promise: on a valid stack `stack_push` always returns, refuses the value exactly
-- when the stack is full and else leaves a valid stack with the value on top, and `stack_pop` then
-- gives that value back and leaves the values as they were.
pub stack_pop-push :
    (s : Stack) (val : ℤ)
    → IsValid s
    → ((depth s ≡ s.capacity) × (stack_push s val ≡ ok (false, s)))
      ⊎ Returns
          (λ r.
            (r.0 ≡ true)
            × IsValid r.1
            × (stack_items r.1 ≡ stack_items s ++ val ∷ [])
            × (stack_peek r.1 ≡ ok val)
            × Returns
                (λ p. (p.0 ≡ val) × IsValid p.1 × (stack_items p.1 ≡ stack_items s))
                (stack_pop r.1))
          (stack_push s val)
stack_pop-push s val v = elim (ℕ_discrete (depth s) s.capacity) [
  | yes full ↦ inl (full, stack_push-full s val v full)
  | no ne ↦
      let room : depth s < s.capacity = omega (arith, v.depth_le) in
      let v' : IsValid (pushed s val) = pushed-IsValid s val v room in
      let left : 0 < depth (pushed s val) = omega arith in
      inr (
        rw (stack_push-ok s val v room) (
          returns (
            refl,
            v',
            stack_items-pushed s val v room,
            stack_peek-ok (pushed s val) v' left ∙ ap ok (top_value-pushed s val v room),
            rw (stack_pop-ok (pushed s val) v' left) (
                returns (
                  top_value-pushed s val v room,
                  popped-IsValid (pushed s val) v' left,
                  stack_items-popped-pushed s val v room,
                )),
          )))
]

-- `stack_pop` and `stack_peek` on an empty stack fail their assertions.
stack_pop-empty :
    (s : Stack) → IsValid s → depth s ≡ 0 → (stack_pop s ≡ aborted) × (stack_peek s ≡ aborted)
unfolding stack_pop stack_peek
stack_pop-empty s v h = rw (stack_is_empty-true s v h) (refl, refl)
