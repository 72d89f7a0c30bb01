-- ===== src/Tests/Lists.antt =====
-- src/linear/linked_list.c at concrete inputs.
use mathlib.Core.List.{Perm}
use dsa_guide.Prelude.{
  ℕ, zero, suc, ◌≡◌, refl, true, false, Option, none, some, List, [], ◌∷◌, ℤ, pos, ok, Returns,
  arith,
}
use dsa_guide.Prelude.Sorting.{IsSorted}
use dsa_guide.Linear.LinkedList.{contains_loop, ll_contains, ll_merge_sort, ll_has_cycle}
use dsa_guide.Linear.LinkedList.Calls.{
  of_list, push_back, delete, pop_front, reverse, calls, all_held, calls_on_list, ll_calls_refine,
}
use dsa_guide.Linear.LinkedList.Sort.{ll_merge_sort-IsSort}
use dsa_guide.Linear.LinkedList.Cycle.{Loops, ll_has_cycle-Loops}

abbrev values : List ℤ
values = pos 3 ∷ pos 1 ∷ pos 2 ∷ []

ll_calls_refine_example :
    calls (push_back (pos 4) ∷ delete (pos 1) ∷ reverse ∷ pop_front ∷ []) (of_list values)
    ≡ all_held
        (calls_on_list (push_back (pos 4) ∷ delete (pos 1) ∷ reverse ∷ pop_front ∷ []) values)
ll_calls_refine_example =
    ll_calls_refine (push_back (pos 4) ∷ delete (pos 1) ∷ reverse ∷ pop_front ∷ []) values

ll_merge_sort-IsSort_example :
    Returns
      (λ r. IsSorted r.head × Perm r.head values × (r.size ≡ 3))
      (ll_merge_sort (of_list values))
ll_merge_sort-IsSort_example = ll_merge_sort-IsSort (of_list values)

no_two : ll_contains (of_list (pos 3 ∷ pos 1 ∷ [])) (pos 2) ≡ false
unfolding ll_contains contains_loop
no_two = refl

-- Three nodes in a row, and three nodes the last of which leads back to the second.
abbrev in_a_row : ℕ → Option ℕ
in_a_row zero = some 1
in_a_row (suc zero) = some 2
in_a_row (suc (suc n)) = none

abbrev to_the_second : ℕ → Option ℕ
to_the_second zero = some 1
to_the_second (suc zero) = some 2
to_the_second (suc (suc n)) = some 1

second-Loops : Loops to_the_second (some 0) 1 2
second-Loops = record { positive = omega arith; node = 1; at = refl; back = refl }

ll_has_cycle-Loops_example : ll_has_cycle 4 to_the_second (some 0) ≡ ok true
ll_has_cycle-Loops_example =
    ll_has_cycle-Loops to_the_second (some 0) 4 1 2 second-Loops (omega arith)
