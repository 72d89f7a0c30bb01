-- ===== src/Tests/Specialized.antt =====
-- src/specialized at concrete inputs.
use mathlib.Core.List.{Mem, Pairwise-singleton, forall_mem-cons, not-mem-nil}
use mathlib.Core.List.Perm
use native.Mathlib.Bridge.{le_prop}
use dsa_guide.Prelude.{
  ℕ, ◌+◌, ◌-◌, ◌<◌, ◌≤◌, ◌≡◌, ◌≢◌, ◌⊎◌, refl, true, false, some, none, List, [], ◌∷◌, pos, negsuc,
  ◌≤ℤ◌, -ℤ_parts, replicate, take, length, ok, Run, Returns, returns, arith,
}
use dsa_guide.Specialized.WaveletTree.{wt_build, wt_rank, wt_select, wt_quantile}
use dsa_guide.Specialized.WaveletTree.Rank.{count, wt_rank-count}
use dsa_guide.Specialized.WaveletTree.Select.{IsKth, wt_select-wt_rank}
use dsa_guide.Specialized.WaveletTree.Quantile.{wt_quantile-none}
use dsa_guide.Specialized.LsmTree.{
  LsmEntry, SsTable, LsmTree, Compare, lsm_put, lsm_delete, lsm_get, lsm_compact, lsm_mem_max,
}
use dsa_guide.Specialized.LsmTree.Writes.{IsQsort, IsReady, lsm_get-lsm_put}
use dsa_guide.Specialized.LsmTree.Compact.{Compacted, lsm_compact-Compacted}

-- Symbols from 0 to 2.
abbrev symbols : List ℕ
symbols = 1 ∷ 0 ∷ 2 ∷ 1 ∷ []

abbrev zeros_of : ℕ → List ℕ
zeros_of n = replicate n 0

wt_rank-count_example :
    Returns (λ wt. wt_rank wt 1 4 ≡ ok (count 1 (take 4 symbols))) (wt_build zeros_of symbols 2)
wt_rank-count_example =
    wt_rank-count zeros_of symbols 2 1 4 (λ n. refl) (omega arith) (omega arith) (omega arith)
      (omega arith) (omega arith)

wt_select-wt_rank_example :
    Returns
      (λ wt.
        ((count 1 symbols < 2) × (wt_select wt 1 2 ≡ negsuc 0))
        ⊎ ((2 ≤ count 1 symbols)
            × (p : ℕ) × (wt_select wt 1 2 ≡ pos p)
            × IsKth 1 2 symbols p
            × (wt_rank wt 1 p ≡ ok (2 - 1))))
      (wt_build zeros_of symbols 2)
wt_select-wt_rank_example =
    wt_select-wt_rank zeros_of symbols 2 1 2 (λ n. refl) (omega arith) (omega arith) (omega arith)
      (omega arith) (omega arith)

wt_quantile-none_example :
    Returns (λ wt. wt_quantile wt 0 4 (pos 2) ≡ ok (negsuc 0)) (wt_build zeros_of symbols 2)
wt_quantile-none_example =
    wt_quantile-none zeros_of symbols 2 0 4 (pos 2) (λ n. refl) (omega arith) (omega arith)
      (omega arith) (omega arith) (omega arith)

abbrev entry : ℕ → LsmEntry
entry k = record { key = pos k; val = pos (k + 10); deleted = false }

abbrev gone : LsmEntry
gone = record { key = pos 5; val = pos 0; deleted = true }

abbrev level_of : List LsmEntry → SsTable
level_of entries = record { entries = entries; capacity = 64; sorted = true }

-- One entry in the memtable, a tombstone in level 0, and an entry under its key in level 1.
abbrev tree : LsmTree
tree = record {
  mem = entry 3 ∷ [];
  levels = level_of (gone ∷ []) ∷ level_of (entry 5 ∷ []) ∷ level_of [] ∷ level_of [] ∷ [];
}

abbrev keep_order : Compare → List LsmEntry → Run (List LsmEntry)
keep_order cmp l = ok l

keep_order-IsQsort : IsQsort keep_order
keep_order-IsQsort cmp l h = returns Perm.rfl

above : (a : LsmEntry) → Mem a (gone ∷ entry 3 ∷ []) → pos 0 ≤ℤ a.key
above =
    (forall_mem-cons (λ a. le_prop)).1
      (omega arith, (forall_mem-cons (λ a. le_prop)).1 (omega arith, λ a m. absurd (not-mem-nil m)))

under : (a : LsmEntry) → Mem a (gone ∷ entry 3 ∷ []) → a.key ≤ℤ pos 9
under =
    (forall_mem-cons (λ a. le_prop)).1
      (omega arith, (forall_mem-cons (λ a. le_prop)).1 (omega arith, λ a m. absurd (not-mem-nil m)))

tree-IsReady : IsReady tree
tree-IsReady = record {
  mem_fits = omega arith;
  level_zero = omega arith;
  room = omega arith;
  count_fits = omega arith;
  comparable =
      λ a b m k. omega (arith, -ℤ_parts a.key b.key, above a m, above b k, under a m, under b k);
}

pos-ne : pos 3 ≢ pos 7
pos-ne e = cc

lsm_get-lsm_put_example :
    Returns
      (λ t'.
        (lsm_get t' (pos 7) ≡ ok (some (pos 70)))
        × ((length tree.mem ≡ lsm_mem_max) ⊎ (lsm_get t' (pos 3) ≡ lsm_get tree (pos 3))))
      (lsm_put keep_order tree (pos 7) (pos 70))
    × Returns
        (λ t'.
          (lsm_get t' (pos 7) ≡ ok none)
          × ((length tree.mem ≡ lsm_mem_max) ⊎ (lsm_get t' (pos 3) ≡ lsm_get tree (pos 3))))
        (lsm_delete keep_order tree (pos 7))
lsm_get-lsm_put_example =
    lsm_get-lsm_put keep_order keep_order-IsQsort tree (pos 7) (pos 70) (pos 3) tree-IsReady pos-ne

lsm_compact-Compacted_example : Returns (Compacted tree 0) (lsm_compact tree 0)
lsm_compact-Compacted_example =
    lsm_compact-Compacted tree 0 refl (omega arith) (omega arith) (Pairwise-singleton _ gone)
      (Pairwise-singleton _ (entry 5))
