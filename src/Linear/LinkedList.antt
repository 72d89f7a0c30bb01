-- ===== src/Linear/LinkedList.antt =====
-- src/linear/linked_list.c: the singly linked list. A chain of nodes that nothing else points to is
-- the list of its values; only the cycle test reads nodes by their addresses (LinkedList/Cycle).
pub mod Calls
pub mod Search
pub mod Sort
pub mod Cycle
use dsa_guide.Prelude.{
  ℕ, zero, suc, ◌+◌, ◌-◌, ◌%◌, ◌^◌, ◌≡◌, Bool, true, false, Option, none, some, List, [], ◌∷◌, ℤ,
  ◌==ℤ◌, leb_ℤ, ◌==◌, Run, ok, aborted, undefined, out_of_fuel, ◌>>=◌, if◌then◌else◌, length,
}

-- `head` is the chain of nodes from `l->head` on.
pub record LinkedList : Type 0 where
  pub head : List ℤ
  pub size : ℕ

abbrev pub ll_create : LinkedList
ll_create = record { head = []; size = 0 }

pub ll_push_front : LinkedList → ℤ → LinkedList
ll_push_front l val = record { head = val ∷ l.head; size = (l.size + 1) % 2 ^ 64 }

-- The walk to the last node, and the new node behind it.
pub append_node : List ℤ → ℤ → List ℤ
append_node [] val = val ∷ []
append_node (x ∷ next) val = x ∷ append_node next val

pub ll_push_back : LinkedList → ℤ → LinkedList
ll_push_back l val = record { head = append_node l.head val; size = (l.size + 1) % 2 ^ 64 }

pub ll_pop_front : LinkedList → Run (ℤ × LinkedList)
ll_pop_front l = elim l.head [
  | [] ↦ aborted
  | x ∷ next ↦ ok (x, record { head = next; size = (l.size + 2 ^ 64 - 1) % 2 ^ 64 })
]

unfoldable pub contains_loop : List ℤ → ℤ → Bool
contains_loop [] val = false
contains_loop (x ∷ next) val = if x ==ℤ val then true else contains_loop next val

unfoldable pub ll_contains : LinkedList → ℤ → Bool
ll_contains l val = contains_loop l.head val

-- Puts a node back in front of the chain that `*cur` heads.
abbrev pub behind : ℤ → Option (List ℤ) → Option (List ℤ)
behind x none = none
behind x (some chain) = some (x ∷ chain)

-- The loop of `ll_delete` from `*cur` on: the chain without the node, if there is one to delete.
pub delete_loop : List ℤ → ℤ → Option (List ℤ)
delete_loop [] val = none
delete_loop (x ∷ next) val = if x ==ℤ val then some next else behind x (delete_loop next val)

pub ll_delete : LinkedList → ℤ → LinkedList
ll_delete l val = elim (delete_loop l.head val) [
  | none ↦ l
  | some chain ↦ record { head = chain; size = (l.size + 2 ^ 64 - 1) % 2 ^ 64 }
]

-- `prev` is the part already turned round.
pub reverse_loop : List ℤ → List ℤ → List ℤ
reverse_loop prev [] = prev
reverse_loop prev (x ∷ next) = reverse_loop (x ∷ prev) next

pub ll_reverse : LinkedList → LinkedList
ll_reverse l = record { head = reverse_loop [] l.head; size = l.size }

-- The chain behind the dummy node.
pub ll_merge_sorted : List ℤ → List ℤ → List ℤ
ll_merge_sorted [] b = b
ll_merge_sorted (x ∷ a) [] = x ∷ a
ll_merge_sorted (x ∷ a) (y ∷ b) = elim (leb_ℤ x y) [
  | true ↦ x ∷ ll_merge_sorted a (y ∷ b)
  | false ↦ y ∷ ll_merge_sorted (x ∷ a) b
]

abbrev pub keep_node : ℤ → List ℤ × List ℤ → List ℤ × List ℤ
keep_node x halves = (x ∷ halves.0, halves.1)

-- The walk to the midpoint and the cut behind it: the node `slow` with the chain behind it, and the
-- chain from `fast` on. A step of `slow` off the end reads a null pointer.
pub split_loop : ℤ → List ℤ → List ℤ → Run (List ℤ × List ℤ)
split_loop x rest [] = ok (x ∷ [], rest)
split_loop x rest (f ∷ []) = ok (x ∷ [], rest)
split_loop x [] (f ∷ g ∷ fast) = undefined
split_loop x (y ∷ rest) (f ∷ g ∷ fast) =
    split_loop y rest fast >>= λ halves. ok (keep_node x halves)

pub merge_sort_node : ℕ → List ℤ → Run (List ℤ)
merge_sort_node zero head = out_of_fuel
merge_sort_node (suc fuel) [] = ok []
merge_sort_node (suc fuel) (x ∷ []) = ok (x ∷ [])
merge_sort_node (suc fuel) (x ∷ y ∷ next) = do
  halves ← split_loop x (y ∷ next) (y ∷ next)
  a ← merge_sort_node fuel halves.0
  b ← merge_sort_node fuel halves.1
  ok (ll_merge_sorted a b)

pub ll_merge_sort : LinkedList → Run LinkedList
ll_merge_sort l = do
  head ← merge_sort_node (length l.head + 1) l.head
  ok (record l { head = head })

-- The loop of `ll_find_middle`: the chain from `slow` on, once `fast` cannot go on.
pub middle_loop : List ℤ → List ℤ → Run (List ℤ)
middle_loop slow [] = ok slow
middle_loop slow (f ∷ []) = ok slow
middle_loop [] (f ∷ g ∷ fast) = undefined
middle_loop (x ∷ slow) (f ∷ g ∷ fast) = middle_loop slow fast

pub ll_find_middle : LinkedList → Run (List ℤ)
ll_find_middle l = middle_loop l.head l.head

-- Equality of pointers to nodes.
abbrev pub same_pointer : Option ℕ → Option ℕ → Bool
same_pointer none none = true
same_pointer none (some q) = false
same_pointer (some p) none = false
same_pointer (some p) (some q) = p == q

-- `p->next`, in a store that has each node's `next` under its address.
abbrev pub follow : (ℕ → Option ℕ) → Option ℕ → Run (Option ℕ)
follow next none = undefined
follow next (some p) = ok (next p)

-- The loop of `ll_has_cycle`.
pub has_cycle_loop : ℕ → (ℕ → Option ℕ) → Option ℕ → Option ℕ → Run Bool
has_cycle_loop zero next slow fast = out_of_fuel
has_cycle_loop (suc fuel) next slow none = ok false
has_cycle_loop (suc fuel) next slow (some f) = elim (next f) [
  | none ↦ ok false
  | some g ↦
      (follow next slow >>= λ slow'.
      let rest = has_cycle_loop fuel next slow' (next g) in
      if same_pointer slow' (next g) then ok true else rest)
]

-- `ll_has_cycle` on the store, with the rounds that the loop may take.
pub ll_has_cycle : ℕ → (ℕ → Option ℕ) → Option ℕ → Run Bool
ll_has_cycle fuel next head = has_cycle_loop fuel next head head
