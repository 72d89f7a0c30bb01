-- ===== src/Tests/Heaps.antt =====
-- src/trees/heap.c at concrete inputs.
use mathlib.Core.List.{Perm}
use dsa_guide.Prelude.{
  ok, false, refl, ◌^◌, ◌-◌, ℕ, ◌+◌, ◌<◌, ◌≡◌, inl, inr, List, [], ◌∷◌, ℤ, pos, ◌≤ℤ◌, Returns,
  arith,
}
use dsa_guide.Trees.Heap.BellmanFord.{bellman_ford, bellman_ford-no_paths}
use dsa_guide.Trees.Heap.{MinHeap, heap_push, heap_pop_key, heapsort}
use dsa_guide.Trees.Heap.Swaps.{cell}
use dsa_guide.Trees.Heap.Sort.{SortedBelow, heapsort-SortedBelow}
use dsa_guide.Trees.Heap.Calls.{IsHeap, heap_entries, heap_push-IsHeap, heap_pop_key-least}

abbrev unsorted : List ℤ
unsorted = pos 3 ∷ pos 1 ∷ pos 2 ∷ pos 9 ∷ []

heapsort-SortedBelow_example :
    Returns
      (λ r. SortedBelow r 3 × Perm r unsorted × ((j : ℕ) → cell r (3 + j) ≡ cell unsorted (3 + j)))
      (heapsort unsorted 3)
heapsort-SortedBelow_example = heapsort-SortedBelow unsorted 3 (omega arith) (omega arith)

-- One entry, and room for a second.
abbrev heap : MinHeap
heap = record { keys = pos 5 ∷ pos 0 ∷ []; vals = pos 8 ∷ pos 0 ∷ []; size = 1; capacity = 2 }

heap-IsHeap : IsHeap heap
heap-IsHeap = record {
  keys_fit = omega arith;
  vals_fit = omega arith;
  size_le = omega arith;
  small = omega arith;
  ordered = λ p c low child q. elim child [
    | inl e ↦ absurd (omega (arith, e))
    | inr e ↦ absurd (omega (arith, e))
  ];
}

heap_push-IsHeap_example :
    Returns
      (λ r. IsHeap r × Perm (heap_entries r) ((pos 4, pos 7) ∷ heap_entries heap))
      (heap_push heap (pos 4) (pos 7))
heap_push-IsHeap_example = heap_push-IsHeap heap (pos 4) (pos 7) heap-IsHeap (omega arith)

heap_pop_key-least_example :
    Returns
      (λ p.
        IsHeap p.1
        × Perm ((p.0, pos 8) ∷ heap_entries p.1) (heap_entries heap)
        × ((j : ℕ) → j < 1 → p.0 ≤ℤ cell (pos 5 ∷ pos 0 ∷ []) j))
      (heap_pop_key heap)
heap_pop_key-least_example = heap_pop_key-least heap heap-IsHeap (omega arith)

bellman_ford-no_paths_example :
    bellman_ford (record { v = 1; w = pos 5 } ∷ []) 2 0 ≡ ok (pos 0 ∷ pos (2 ^ 31 - 1) ∷ [], false)
bellman_ford-no_paths_example =
    bellman_ford-no_paths (record { v = 1; w = pos 5 } ∷ []) 2 0 (omega arith)
      ((omega arith, 5, refl, omega arith), tt)
