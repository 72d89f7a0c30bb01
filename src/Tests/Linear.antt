-- ===== src/Tests/Linear.antt =====
-- The array, stack, queue and deque at concrete inputs.
use dsa_guide.Prelude.{
  ℕ, ◌≡◌, ◌↔◌, refl, true, List, [], ◌∷◌, ℤ, pos, ok, arith, replicate, Returns,
}
use dsa_guide.Linear.Fifo
use dsa_guide.Linear.Queue
use dsa_guide.Linear.Queue.Laws.{queue_buffer, queue_run_refines}
use dsa_guide.Linear.Deque
use dsa_guide.Linear.Stack
use dsa_guide.Linear.Stack.Brackets.{Balanced, stack_balanced_brackets-Balanced}

abbrev zeros : List ℤ
zeros = pos 0 ∷ pos 0 ∷ []

-- A queue of two cells whose values go round the end of the block.
abbrev queue : Queue.Queue
queue = record { block = pos 4 ∷ pos 3 ∷ []; head = 1; tail = 1; size = 2; capacity = 2 }

queue-IsValid : Queue.IsValid queue
queue-IsValid = record {
  block_fits = omega arith;
  int_capacity = omega arith;
  size_le = omega arith;
  head_lt = λ p. omega arith;
  tail_eq = λ p. refl;
}

abbrev session : List Fifo.Call
session =
    Fifo.Call.put (pos 9)
    ∷ Fifo.Call.take
    ∷ Fifo.Call.put (pos 9)
    ∷ Fifo.Call.take
    ∷ Fifo.Call.take
    ∷ []

queue_run_refines_example :
    Fifo.run queue_buffer queue session ≡ ok (Fifo.run_spec 2 (Queue.queue_items queue) session)
queue_run_refines_example = queue_run_refines 2 queue session (queue-IsValid, refl)

abbrev deque : Deque.Deque
deque = record {
  block = pos 4 ∷ pos 3 ∷ pos 0 ∷ [];
  front = pos 1;
  back = pos 1;
  size = 1;
  capacity = 3;
}

deque-IsValid : Deque.IsValid deque
deque-IsValid = record {
  block_fits = omega arith;
  int_capacity = omega arith;
  size_le = omega arith;
  front_eq = refl;
  front_lt = λ p. omega arith;
  back_eq = refl;
  back_le = omega arith;
  back_at = λ p. refl;
}

abbrev stack : Stack.Stack
stack = record { block = pos 4 ∷ pos 3 ∷ []; top = pos 0; capacity = 2 }

stack-IsValid : Stack.IsValid stack
stack-IsValid = record {
  block_fits = omega arith;
  int_capacity = omega arith;
  top_eq = refl;
  depth_le = omega arith;
}

abbrev brackets : List ℕ
brackets = b'(' ∷ b'x' ∷ b'[' ∷ b']' ∷ b')' ∷ []

stack_balanced_brackets-Balanced_example :
    Returns
      (λ b. (b ≡ true) ↔ Balanced brackets)
      (Stack.stack_balanced_brackets (replicate 5 (pos 0)) brackets)
stack_balanced_brackets-Balanced_example =
    stack_balanced_brackets-Balanced (replicate 5 (pos 0)) brackets (omega arith) (omega arith)
