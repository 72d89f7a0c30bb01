-- ===== src/Linear/Fifo.antt =====
-- The bounded first-in first-out buffer that queue.c and ring_buffer.c promise: its specification on
-- lists, the interface that an implementation fills, and what a client sees of a whole session.
use dsa_guide.Prelude.{
  ℕ, ◌≡◌, refl, Bool, true, false, Option, none, some, List, [], ◌∷◌, ◌++◌, ℤ, Run, ok, ◌>>=◌,
  length, ◌==◌, if◌then◌else◌, Returns, Returns-inv,
}

-- A full buffer refuses the value and stays as it is.
unfoldable pub push : ℕ → List ℤ → ℤ → Bool × List ℤ
push limit items v = if length items == limit then (false, items) else (true, items ++ v ∷ [])

-- An empty buffer has no value to give.
unfoldable pub pop : List ℤ → Option ℤ × List ℤ
pop [] = (none, [])
pop (x ∷ items) = (some x, items)

-- What a client can call, and what it sees of the call.
pub data Call : Type 0 where
  put : ℤ → Call
  take : Call

pub data Reply : Type 0 where
  accepted : Bool → Reply
  taken : Option ℤ → Reply

pub run_spec : ℕ → List ℤ → List Call → List Reply
run_spec limit items [] = []
run_spec limit items (put v ∷ calls) =
    let (done, items') = push limit items v in accepted done ∷ run_spec limit items' calls
run_spec limit items (take ∷ calls) =
    let (v, items') = pop items in taken v ∷ run_spec limit items' calls

-- An implementation with its refinement laws; `Valid limit` is its invariant at that capacity.
pub record Buffer : Type 1 where
  pub State : Type 0
  pub items : State → List ℤ
  pub Valid : ℕ → State → Type 0
  pub offer : State → ℤ → Run (Bool × State)
  pub poll : State → Run (Option ℤ × State)
  pub offer_refines :
      (limit : ℕ) (s : State) (v : ℤ)
      → Valid limit s
      → Returns (λ r. Valid limit r.1 × ((r.0, items r.1) ≡ push limit (items s) v)) (offer s v)
  pub poll_refines :
      (limit : ℕ) (s : State)
      → Valid limit s
      → Returns (λ r. Valid limit r.1 × ((r.0, items r.1) ≡ pop (items s))) (poll s)

module _ (b : Buffer) where
  open b use {State, items, Valid, offer, poll, offer_refines, poll_refines}

  pub run : State → List Call → Run (List Reply)
  run s [] = ok []
  run s (put v ∷ calls) = do (done, s') ← offer s v; rest ← run s' calls; ok (accepted done ∷ rest)
  run s (take ∷ calls) = do (v, s') ← poll s; rest ← run s' calls; ok (taken v ∷ rest)

  pub run_refines :
      (limit : ℕ) (s : State) (calls : List Call)
      → Valid limit s
      → run s calls ≡ ok (run_spec limit (items s) calls)
  unfolding run run_spec
  run_refines limit s [] v = refl
  run_refines limit s (put x ∷ calls) v =
      let (r, done, (v', e)) = Returns-inv (offer_refines limit s x v) in
      rw (done, run_refines limit r.1 calls v', ← e)
  run_refines limit s (take ∷ calls) v =
      let (r, done, (v', e)) = Returns-inv (poll_refines limit s v) in
      rw (done, run_refines limit r.1 calls v', ← e)
