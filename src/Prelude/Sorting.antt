-- ===== src/Prelude/Sorting.antt =====
-- Ascending lists of integers, and what is below all of a list.
use mathlib.Core.List.{List, ◌∷◌, ◌++◌, Mem, Perm, Pairwise, mem-append, forall_mem-cons}
use mathlib.Core.List.Perm
use mathlib.Core.Logic.Or
use native.Mathlib.Omega.{arith}
use native.Mathlib.Bridge.{le_prop}
use dsa_guide.Prelude.Int.{ℤ, ◌≤ℤ◌}

abbrev pub IsSorted : List ℤ → Type 0
IsSorted = Pairwise (λ a b. a ≤ℤ b)

abbrev pub IsBelow : ℤ → List ℤ → Type 0
IsBelow a l = (x : ℤ) → Mem x l → a ≤ℤ x

≤ℤ_prop : (a b : ℤ) → IsProp (a ≤ℤ b)
≤ℤ_prop a b = le_prop

pub IsBelow-cons : (a b : ℤ) (l : List ℤ) → a ≤ℤ b → IsBelow a l → IsBelow a (b ∷ l)
IsBelow-cons a b l p h = (forall_mem-cons (≤ℤ_prop a)).1 (p, h)

pub IsBelow-append : (a : ℤ) (l r : List ℤ) → IsBelow a l → IsBelow a r → IsBelow a (l ++ r)
IsBelow-append a l r hl hr x m = Or.elim (≤ℤ_prop a x) (mem-append.0 m) (hl x) (hr x)

pub IsBelow-perm : (a : ℤ) (l r : List ℤ) → Perm l r → IsBelow a r → IsBelow a l
IsBelow-perm a l r p h x m = h x ((Perm.mem_iff p).0 m)

-- What the head of an ascending list is above is below all of it.
pub IsBelow-head : (a b : ℤ) (l : List ℤ) → a ≤ℤ b → IsSorted (b ∷ l) → IsBelow a (b ∷ l)
IsBelow-head a b l p (Pairwise.cons h tail) = IsBelow-cons a b l p λ x m. omega (arith, p, h x m)
