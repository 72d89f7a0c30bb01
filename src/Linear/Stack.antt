-- ===== src/Linear/Stack.antt =====
-- src/linear/stack.c: the array-backed stack and the bracket check. `top` is an `int` that starts
-- at -1.
pub mod Laws
pub mod Brackets
use dsa_guide.Prelude.{
  ℕ, suc, ◌+◌, ◌-◌, ◌<◌, ◌≤◌, ◌^◌, ◌≡◌, Bool, true, false, not, ◌&&◌, ◌||◌, List, [], ◌∷◌, ℤ, pos,
  negsuc, sub_ℕ, ◌+ℤ◌, ◌-ℤ◌, ◌==ℤ◌, ltb_ℤ, Run, ok, undefined, ◌>>=◌, ◌>>◌, assert, as_int, load,
  store, ltb, leb, ◌==◌, if◌then◌else◌, length, take,
}

pub record Stack : Type 0 where
  pub block : List ℤ
  pub top : ℤ
  pub capacity : ℕ

-- `block` is what `malloc(cap * sizeof(int))` returns.
pub stack_create : List ℤ → ℕ → Stack
stack_create block cap = record { block = block; top = negsuc 0; capacity = cap }

-- `(size_t)` of an `int`.
abbrev pub to_size : ℤ → ℕ
to_size (pos n) = n
to_size (negsuc n) = 2 ^ 64 - 1 - n

-- `s->data[i]` at an `int` index.
pub load_at : Stack → ℤ → Run ℤ
load_at s (pos i) = load s.block i
load_at s (negsuc _) = undefined

pub store_at : Stack → ℤ → ℤ → Run Stack
store_at s (pos i) val = do
  block ← store s.block i val
  ok (record s { block = block; top = pos i })
store_at s (negsuc _) val = undefined

pub stack_push : Stack → ℤ → Run (Bool × Stack)
stack_push s val = do
  next ← as_int (s.top +ℤ pos 1)
  if leb s.capacity (to_size next)
      then ok (false, s)
      else (store_at s next val >>= λ s'. ok (true, s'))

pub stack_is_empty : Stack → Bool
stack_is_empty s = ltb_ℤ s.top (pos 0)

pub stack_pop : Stack → Run (ℤ × Stack)
stack_pop s = do
  assert (not (stack_is_empty s))
  val ← load_at s s.top
  ok (val, record s { top = s.top -ℤ pos 1 })

pub stack_peek : Stack → Run ℤ
stack_peek s = do assert (not (stack_is_empty s)); load_at s s.top

-- How many values the stack holds, and the values from the bottom to the top.
abbrev pub depth : Stack → ℕ
depth s = elim s.top [ pos n ↦ n + 1 | negsuc _ ↦ 0 ]

abbrev pub stack_items : Stack → List ℤ
stack_items s = take (depth s) s.block

pub record IsValid (s : Stack) : Type 0 where
  pub block_fits : s.capacity ≤ length s.block
  pub int_capacity : s.capacity < 2 ^ 31
  pub top_eq : s.top ≡ sub_ℕ (depth s) 1
  pub depth_le : depth s ≤ s.capacity

-- The loop of `stack_balanced_brackets` over the bytes of the string.
abbrev pub is_open : ℕ → Bool
is_open c = c == b'(' || c == b'[' || c == b'{'

abbrev pub is_close : ℕ → Bool
is_close c = c == b')' || c == b']' || c == b'}'

-- The three comparisons of a closing bracket with the value from the stack.
abbrev pub mismatch : ℕ → ℤ → Bool
mismatch c top =
    c == b')' && not (top ==ℤ pos b'(')
    || c == b']' && not (top ==ℤ pos b'[')
    || c == b'}' && not (top ==ℤ pos b'{')

pub brackets_loop : Stack → List ℕ → Run Bool
brackets_loop s [] = ok (stack_is_empty s)
brackets_loop s (c ∷ expr) =
    let opened = stack_push s (pos c) >>= λ (_, s'). brackets_loop s' expr in
    let closed = stack_pop s >>= λ (top, s').
    let rest = brackets_loop s' expr in if mismatch c top then ok false else rest in
    let other = brackets_loop s expr in
    if is_open c
    then opened
    else (if is_close c then (if stack_is_empty s then ok false else closed) else other)

-- `block` is what `malloc` returns for `strlen(expr)` values.
pub stack_balanced_brackets : List ℤ → List ℕ → Run Bool
stack_balanced_brackets block expr = brackets_loop (stack_create block (length expr)) expr
