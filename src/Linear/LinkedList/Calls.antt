-- ===== src/Linear/LinkedList/Calls.antt =====
-- The calls on the list as a sequence of values.
use mathlib.Core.List.{Mem, mem-cons_self}
use mathlib.Core.List
use dsa_guide.Prelude.{
  ℕ, suc, ◌%◌, ◌^◌, ◌≡◌, ◌⊎◌, inl, inr, refl, sym, ap, ◌∙◌, Option, none, some, List, [], ◌∷◌, ◌++◌,
  ℤ, ◌==ℤ◌, Bool-cases, Run, ok, aborted, undefined, out_of_fuel, ◌>>=◌, if◌then◌else◌, length,
  length-append, arith,
}
use dsa_guide.Linear.LinkedList.{
  LinkedList, ll_push_front, append_node, ll_push_back, ll_pop_front, delete_loop, ll_delete,
  reverse_loop, ll_reverse,
}

-- The list that holds these values: `size` counts them, up to the width of a `size_t`.
abbrev pub of_list : List ℤ → LinkedList
of_list l = record { head = l; size = length l % 2 ^ 64 }

append_node-append : (l : List ℤ) (v : ℤ) → append_node l v ≡ l ++ v ∷ []
unfolding append_node
append_node-append [] v = refl
append_node-append (x ∷ l) v = ap (◌∷◌ x) (append_node-append l v)

-- The calls that one may make on a list.
pub data Call : Type 0 where
  push_front push_back delete : ℤ → Call
  pop_front reverse : Call

-- The code: the list afterwards, and the value that came out, if one did.
abbrev pub call : Call → LinkedList → Run (Option ℤ × LinkedList)
call (push_front v) l = ok (none, ll_push_front l v)
call (push_back v) l = ok (none, ll_push_back l v)
call (delete v) l = ok (none, ll_delete l v)
call pop_front l = ll_pop_front l >>= λ r. ok (some r.0, r.1)
call reverse l = ok (none, ll_reverse l)

-- What is asked of it, on lists.
abbrev pub reversed : List ℤ → List ℤ
reversed [] = []
reversed (x ∷ l) = reversed l ++ x ∷ []

abbrev pub without_first : List ℤ → ℤ → List ℤ
without_first [] v = []
without_first (x ∷ l) v = if x ==ℤ v then l else x ∷ without_first l v

abbrev pub on_list : Call → List ℤ → Run (Option ℤ × List ℤ)
on_list (push_front v) l = ok (none, v ∷ l)
on_list (push_back v) l = ok (none, l ++ v ∷ [])
on_list (delete v) l = ok (none, without_first l v)
on_list pop_front [] = aborted
on_list pop_front (x ∷ l) = ok (some x, l)
on_list reverse l = ok (none, reversed l)

reverse_loop-reversed : (prev l : List ℤ) → reverse_loop prev l ≡ reversed l ++ prev
unfolding reverse_loop
reverse_loop-reversed prev [] = refl
reverse_loop-reversed prev (x ∷ l) =
    reverse_loop-reversed (x ∷ prev) l ∙ grind (arith, List.append_assoc)

delete_loop-without :
    (l : List ℤ) (v : ℤ)
    → ((delete_loop l v ≡ none) × (without_first l v ≡ l))
      ⊎ ((delete_loop l v ≡ some (without_first l v))
          × (length l ≡ suc (length (without_first l v))))
unfolding delete_loop
delete_loop-without [] v = inl (refl, refl)
delete_loop-without (x ∷ l) v = elim (Bool-cases (x ==ℤ v)) [
  | inl e ↦ inr (rw e (refl, refl))
  | inr e ↦ rw e (elim (delete_loop-without l v) [
    | inl (kept, same) ↦ inl (rw kept refl, ap (◌∷◌ x) same)
    | inr (gone, shorter) ↦ inr (rw gone refl, ap suc shorter)
  ])
]

length-reversed : (l : List ℤ) → length (reversed l) ≡ length l
length-reversed [] = refl
length-reversed (x ∷ l) = omega (arith, length-append (reversed l) (x ∷ []), length-reversed l)

of_list-eq :
    (l : List ℤ) {h : List ℤ} {n : ℕ}
    → h ≡ l
    → n ≡ length l % 2 ^ 64
    → ◌≡◌ {A = LinkedList} (record { head = h; size = n }) (of_list l)
of_list-eq l e d i = record { head = e i; size = d i }

-- The outcome of a call on lists, as one on linked lists.
abbrev pub held : Run (Option ℤ × List ℤ) → Run (Option ℤ × LinkedList)
held r = r >>= λ p. ok (p.0, of_list p.1)

pub ll_delete-without : (l : List ℤ) (v : ℤ) → ll_delete (of_list l) v ≡ of_list (without_first l v)
unfolding ll_delete
ll_delete-without l v = elim (delete_loop-without l v) [
  | inl (kept, same) ↦ rw (ll_delete, kept) (ap of_list (sym same))
  | inr (gone, shorter) ↦
      rw (ll_delete, gone) (of_list-eq (without_first l v) refl (omega (arith, shorter)))
]

call-on_list : (c : Call) (l : List ℤ) → call c (of_list l) ≡ held (on_list c l)
unfolding ll_push_front ll_push_back ll_pop_front ll_reverse
call-on_list (push_front v) l = ap (λ r. ok (none, r)) (of_list-eq (v ∷ l) refl (omega arith))
call-on_list (push_back v) l =
    ap (λ r. ok (none, r))
      (of_list-eq (l ++ v ∷ []) (append_node-append l v) (omega (arith, length-append l (v ∷ []))))
call-on_list (delete v) l = ap (λ r. ok (none, r)) (ll_delete-without l v)
call-on_list pop_front [] = refl
call-on_list pop_front (x ∷ l) = ap (λ r. ok (some x, r)) (of_list-eq l refl (omega arith))
call-on_list reverse l =
    ap (λ r. ok (none, r))
      (of_list-eq (reversed l) (reverse_loop-reversed [] l ∙ List.append-nil (reversed l))
        (omega (arith, length-reversed l)))

-- One more value in front of what came out.
abbrev pub came_out :
    {A : Type 0} → Option ℤ → Run (List (Option ℤ) × A) → Run (List (Option ℤ) × A)
came_out o r = r >>= λ q. ok (o ∷ q.0, q.1)

-- Calls one after the other: what came out, and the list afterwards.
abbrev pub calls : List Call → LinkedList → Run (List (Option ℤ) × LinkedList)
calls [] l = ok ([], l)
calls (c ∷ cs) l = call c l >>= λ p. came_out p.0 (calls cs p.1)

abbrev pub calls_on_list : List Call → List ℤ → Run (List (Option ℤ) × List ℤ)
calls_on_list [] l = ok ([], l)
calls_on_list (c ∷ cs) l = on_list c l >>= λ p. came_out p.0 (calls_on_list cs p.1)

abbrev pub all_held : Run (List (Option ℤ) × List ℤ) → Run (List (Option ℤ) × LinkedList)
all_held r = r >>= λ q. ok (q.0, of_list q.1)

came_out-held :
    (o : Option ℤ) (r : Run (List (Option ℤ) × List ℤ))
    → came_out o (all_held r) ≡ all_held (came_out o r)
came_out-held o (ok q) = refl
came_out-held o aborted = refl
came_out-held o undefined = refl
came_out-held o out_of_fuel = refl

after_call :
    (cs : List Call) (r : Run (Option ℤ × List ℤ))
    → ((l : List ℤ) → calls cs (of_list l) ≡ all_held (calls_on_list cs l))
    → (held r >>= λ p. came_out p.0 (calls cs p.1))
      ≡ all_held (r >>= λ p. came_out p.0 (calls_on_list cs p.1))
after_call cs (ok (o, l)) h = ap (came_out o) (h l) ∙ came_out-held o (calls_on_list cs l)
after_call cs aborted h = refl
after_call cs undefined h = refl
after_call cs out_of_fuel h = refl

-- Any sequence of pushes at both ends, pops, deletions of the first node with a value and reversals
-- gives what it gives on a list of values: the same values come out, the same call aborts, if one does,
-- and in the end the chain holds the same values and `size` is their number modulo 2^64.
pub ll_calls_refine :
    (cs : List Call) (l : List ℤ) → calls cs (of_list l) ≡ all_held (calls_on_list cs l)
ll_calls_refine [] l = refl
ll_calls_refine (c ∷ cs) l =
    rw (call-on_list c l) (after_call cs (on_list c l) (ll_calls_refine cs))
