-- ===== src/Linear/Stack/Brackets.antt =====
-- `stack_balanced_brackets` decides a grammar of balanced strings.
mod Machine
pub use Machine.{Closing, Balanced}
use Machine.{
  machine, machine-nil, machine-open, machine-close, machine-close_empty, machine-other,
  machine-Balanced, Balanced-machine,
}
use dsa_guide.Prelude.{
  ℕ, zero, suc, ◌+◌, ◌-◌, ◌<◌, ◌≤◌, ◌^◌, ◌≡◌, ◌↔◌, refl, sym, ap, ◌∙◌, Bool, true, false, not, List,
  [], ◌∷◌, ◌++◌, ℤ, pos, negsuc, Run, ok, ◌>>=◌, arith, length, length-set, set, get_or,
  get_or-set_self, get_or-set_ne, Returns, returns, if◌then◌else◌, ◌==◌, ltb_ℤ, Bool-cases, inl,
  inr,
}
use dsa_guide.Linear.Stack.{
  Stack, stack_create, stack_push, stack_pop, stack_is_empty, depth, is_open, is_close, mismatch,
  brackets_loop, stack_balanced_brackets, IsValid,
}
use dsa_guide.Linear.Stack.Laws.{
  pushed, popped, top_value, stack_push-ok, pushed-IsValid, stack_pop-ok, popped-IsValid,
  depth-popped, stack_is_empty-false, stack_is_empty-true, stack_create-IsValid, stack_create-depth,
}

-- The block holds the brackets of the machine's stack, whose top is the head of the list.
abbrev Stored : List ℤ → List ℕ → Type 0
Stored block [] = Unit
Stored block (o ∷ st) = (get_or block (length st) (pos 0) ≡ pos o) × Stored block st

Stored-set :
    (block : List ℤ) (st : List ℕ) (i : ℕ) (v : ℤ)
    → length st ≤ i
    → Stored block st
    → Stored (set block i v) st
Stored-set block [] i v h m = m
Stored-set block (o ∷ st) i v h m = (
  get_or-set_ne block i (length st) v (pos 0) (omega arith) ∙ m.0,
  Stored-set block st i v (omega arith) m.1,
)

record Runs (s : Stack) (st : List ℕ) : Type 0 where
  valid : IsValid s
  depth_eq : depth s ≡ length st
  stored : Stored s.block st

Runs-pushed :
    (s : Stack) (st : List ℕ) (c : ℕ)
    → Runs s st
    → depth s < s.capacity
    → Runs (pushed s (pos c)) (c ∷ st)
Runs-pushed s st c r room = record {
  valid = pushed-IsValid s (pos c) r.valid room;
  depth_eq = omega (arith, r.depth_eq);
  stored = (
    ap (λ n. get_or (set s.block (depth s) (pos c)) n (pos 0)) (sym r.depth_eq)
        ∙ get_or-set_self s.block (depth s) (pos c) (pos 0) (omega (arith, r.valid.block_fits)),
    Stored-set s.block st (depth s) (pos c) (omega (arith, r.depth_eq)) r.stored,
  );
}

Runs-popped :
    (s : Stack) (st : List ℕ) (o : ℕ)
    → Runs s (o ∷ st)
    → Runs (popped s) st × (stack_pop s ≡ ok (pos o, popped s)) × (stack_is_empty s ≡ false)
Runs-popped s st o r =
    let left : 0 < depth s = omega (arith, r.depth_eq) in
    (
      record {
        valid = popped-IsValid s r.valid left;
        depth_eq = omega (arith, depth-popped s r.valid left, r.depth_eq);
        stored = r.stored.1;
      },
      stack_pop-ok s r.valid left
          ∙ ap (λ v. ok (v, popped s))
              (ap (λ n. get_or s.block n (pos 0)) {y = length st} (omega (arith, r.depth_eq))
                ∙ r.stored.0),
      stack_is_empty-false s r.valid left,
    )

if-ok : (b answer : Bool) → (if b then ok false else ok answer) ≡ ok (if b then false else answer)
if-ok true answer = refl
if-ok false answer = refl

closes-machine :
    (s : Stack) (st : List ℕ) (c : ℕ) (expr : List ℕ)
    → is_open c ≡ false
    → is_close c ≡ true
    → Runs s st
    → ((s' : Stack) (st' : List ℕ)
        → Runs s' st'
        → depth s' + length expr ≤ s'.capacity
        → brackets_loop s' expr ≡ ok (machine st' expr))
    → depth s + length (c ∷ expr) ≤ s.capacity
    → (if stack_is_empty s
        then ok false
        else (stack_pop s >>= λ (top, s').
            if mismatch c top then ok false else brackets_loop s' expr))
      ≡ ok (machine st (c ∷ expr))
closes-machine s [] c expr not_op cl r ih h =
    rw (stack_is_empty-true s r.valid r.depth_eq, machine-close_empty c expr not_op cl)
closes-machine s (o ∷ st) c expr not_op cl r ih h =
    let (r', popped_o, more) = Runs-popped s st o r in
    rw
      (
        more,
        popped_o,
        ih (popped s) st r' (omega (arith, r'.depth_eq, r.depth_eq)),
        machine-close st c expr o not_op cl,
      )
      (if-ok (mismatch c (pos o)) (machine st expr))

-- With room for the whole string the array stack runs as the machine does.
loop-machine :
    (s : Stack) (st expr : List ℕ)
    → Runs s st
    → depth s + length expr ≤ s.capacity
    → brackets_loop s expr ≡ ok (machine st expr)
unfolding brackets_loop
loop-machine s [] [] r h = ap ok (stack_is_empty-true s r.valid r.depth_eq ∙ sym machine-nil.0)
loop-machine s (o ∷ st) [] r h = ap ok ((Runs-popped s st o r).2 ∙ sym (machine-nil.1 o st))
loop-machine s st (c ∷ expr) r h = elim (Bool-cases (is_open c)) [
  | inl op ↦
      rw (op, stack_push-ok s (pos c) r.valid (omega arith), machine-open st c expr op)
        (loop-machine (pushed s (pos c)) (c ∷ st) expr (Runs-pushed s st c r (omega arith))
          (omega arith))
  | inr not_op ↦ elim (Bool-cases (is_close c)) [
    | inl cl ↦
        rw (not_op, cl)
          (closes-machine s st c expr not_op cl r (λ s' st' r' h'. loop-machine s' st' expr r' h')
            h)
    | inr not_cl ↦
        rw (not_op, not_cl, machine-other st c expr not_op not_cl)
          (loop-machine s st expr r (omega arith))
  ]
]

-- With a block for all the bytes of a string of fewer than 2 ^ 31, the check always returns, and its
-- answer is true exactly when the string is balanced.
pub stack_balanced_brackets-Balanced :
    (block : List ℤ) (expr : List ℕ)
    → length expr ≤ length block
    → length expr < 2 ^ 31
    → Returns (λ b. (b ≡ true) ↔ Balanced expr) (stack_balanced_brackets block expr)
unfolding stack_balanced_brackets
stack_balanced_brackets-Balanced block expr h k =
    rw
      (loop-machine (stack_create block (length expr)) [] expr
        (record {
          valid = stack_create-IsValid block (length expr) h k;
          depth_eq = stack_create-depth block (length expr);
          stored = tt;
        })
        (unfold stack_create in omega arith))
      (returns (machine-Balanced expr, Balanced-machine expr))
