-- ===== src/Tests/Trees.antt =====
-- src/trees/trie.c and the interval tree of src/trees/segment_tree.c at concrete inputs.
use dsa_guide.Prelude.{
  is_some, ◌+◌, ◌-◌, ◌%◌, ◌^◌, ◌≡◌, true, ◌⊎◌, ◌↔◌, none, [], ◌∷◌, ℤ, pos, if◌then◌else◌, arith,
}
use dsa_guide.Trees.Trie.{
  Trie, trie_create, trie_insert, trie_search, trie_delete, trie_longest_prefix_match,
}
use dsa_guide.Trees.Trie.Search.{same_key}
use dsa_guide.Trees.Trie.Delete.{IsBytes, trie_search-trie_delete}
use dsa_guide.Trees.Trie.Prefix.{IsLongestPrefix, trie_longest_prefix_match-IsLongestPrefix}
use dsa_guide.Trees.Interval.{ITreeNode, nil, In, IsValid, itree_insert, itree_stab}
use dsa_guide.Trees.Interval.Insert.{itree_insert-IsValid}
use dsa_guide.Trees.Interval.Query.{IsStab, itree_stab-IsStab}

-- The keys "ab" and "abcd".
abbrev two_keys : Trie
two_keys =
    trie_insert (trie_insert trie_create (97 ∷ 98 ∷ []) (pos 1)) (97 ∷ 98 ∷ 99 ∷ 100 ∷ []) (pos 2)

key-IsBytes : IsBytes (97 ∷ 98 ∷ [])
key-IsBytes = (omega arith, (omega arith, tt))

trie_search-trie_delete_example :
    ((trie_delete two_keys (97 ∷ 98 ∷ [])).0 ≡ is_some (trie_search two_keys (97 ∷ 98 ∷ [])))
    × (trie_search (trie_delete two_keys (97 ∷ 98 ∷ [])).1 (97 ∷ 98 ∷ []) ≡ (
        if same_key (97 ∷ 98 ∷ []) (97 ∷ 98 ∷ [])
        then none
        else trie_search two_keys (97 ∷ 98 ∷ [])))
    × ((trie_delete two_keys (97 ∷ 98 ∷ [])).1.count ≡ (
        if is_some (trie_search two_keys (97 ∷ 98 ∷ []))
        then (two_keys.count + 2 ^ 64 - 1) % 2 ^ 64
        else two_keys.count))
    × ((is_some (trie_search two_keys (97 ∷ 98 ∷ [])) ≡ true)
        ⊎ ((trie_delete two_keys (97 ∷ 98 ∷ [])).1 ≡ two_keys))
trie_search-trie_delete_example =
    trie_search-trie_delete two_keys (97 ∷ 98 ∷ []) (97 ∷ 98 ∷ []) key-IsBytes

trie_longest_prefix_match-IsLongestPrefix_example :
    IsLongestPrefix two_keys
      (97 ∷ 98 ∷ 99 ∷ 120 ∷ [])
      (trie_longest_prefix_match two_keys (97 ∷ 98 ∷ 99 ∷ 120 ∷ []))
trie_longest_prefix_match-IsLongestPrefix_example =
    trie_longest_prefix_match-IsLongestPrefix two_keys (97 ∷ 98 ∷ 99 ∷ 120 ∷ [])

abbrev one_interval : ITreeNode
one_interval = itree_insert nil (pos 10) (pos 20) (pos 1)

abbrev two_intervals : ITreeNode
two_intervals = itree_insert one_interval (pos 5) (pos 30) (pos 2)

itree_insert-IsValid_example :
    IsValid (itree_insert nil (pos 10) (pos 20) (pos 1))
    × ((x y v : ℤ)
        → In x y v (itree_insert nil (pos 10) (pos 20) (pos 1))
          ↔ (((x ≡ pos 10) × (y ≡ pos 20) × (v ≡ pos 1)) ⊎ In x y v nil))
itree_insert-IsValid_example = itree_insert-IsValid nil (pos 10) (pos 20) (pos 1) tt

two_intervals-IsValid : IsValid two_intervals
two_intervals-IsValid =
    (itree_insert-IsValid one_interval (pos 5) (pos 30) (pos 2)
      (itree_insert-IsValid nil (pos 10) (pos 20) (pos 1) tt).0).0

itree_stab-IsStab_example : IsStab two_intervals (pos 25) (itree_stab two_intervals (pos 25))
itree_stab-IsStab_example = itree_stab-IsStab two_intervals (pos 25) two_intervals-IsValid
