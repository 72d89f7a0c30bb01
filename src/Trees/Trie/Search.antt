-- ===== src/Trees/Trie/Search.antt =====
-- `trie_insert` and `trie_search` as updates and reads of a map from keys to values.
use dsa_guide.Prelude.{
  is_some, ℕ, ◌+◌, ◌%◌, ◌^◌, ◌≡◌, ◌⊎◌, inl, inr, refl, sym, ap, ◌∙◌, Bool, true, false, Option,
  none, some, List, [], ◌∷◌, ℤ, ◌==◌, ◌&&◌, if◌then◌else◌, Bool-cases, arith,
}
use dsa_guide.Trees.Trie.{
  TrieNode, node, Child, null, to, Trie, children, empty_node, child_or_new, insert_from, walk,
  node_value, was_end, trie_insert, trie_search,
}

abbrev pub same_key : List ℕ → List ℕ → Bool
same_key [] [] = true
same_key [] (d ∷ q) = false
same_key (c ∷ k) [] = false
same_key (c ∷ k) (d ∷ q) = c == d && same_key k q

-- What a search from a node finds.
abbrev pub find : TrieNode → List ℕ → Option ℤ
find n q = node_value (walk n q)

pub Child-cases : (x : Child) → (x ≡ null) ⊎ ((m : TrieNode) × (x ≡ to m))
Child-cases null = inl refl
Child-cases (to m) = inr (m, refl)

-- A search through a child, which finds nothing at a null pointer.
abbrev pub find_child : Child → List ℕ → Option ℤ
find_child null q = none
find_child (to m) q = find m q

pub find-cons : (n : TrieNode) (d : ℕ) (q : List ℕ) → find n (d ∷ q) ≡ find_child (children n d) q
unfolding walk
find-cons (node end value kids) d q = through (kids d)
  where
    through : (x : Child) → node_value (elim x [ null ↦ none | to m ↦ walk m q ]) ≡ find_child x q
    through null = refl
    through (to m) = refl

find-empty_node : (q : List ℕ) → find empty_node q ≡ none
unfolding walk
find-empty_node [] = refl
find-empty_node (d ∷ q) = refl

find-child_or_new : (x : Child) (q : List ℕ) → find (child_or_new x) q ≡ find_child x q
find-child_or_new null q = find-empty_node q
find-child_or_new (to m) q = refl

find-insert_from :
    (n : TrieNode) (k q : List ℕ) (v : ℤ)
    → find (insert_from n k v) q ≡ (if same_key k q then some v else find n q)
unfolding insert_from walk
find-insert_from (node end old kids) [] [] v = refl
find-insert_from (node end old kids) [] (d ∷ q) v = refl
find-insert_from (node end old kids) (c ∷ k) [] v = refl
find-insert_from (node end old kids) (c ∷ k) (d ∷ q) v = elim (Bool-cases (c == d)) [
  | inl e ↦
      let same : c ≡ d = ground arith in
      find-cons (insert_from (node end old kids) (c ∷ k) v) d q
      ∙ (rw e (
          find-insert_from (child_or_new (kids c)) k q v
          ∙ ap (λ t. if same_key k q then some v else t)
              (find-child_or_new (kids c) q
                ∙ ap (λ j. find_child (kids j) q) same
                ∙ sym (find-cons (node end old kids) d q))))
  | inr e ↦
      find-cons (insert_from (node end old kids) (c ∷ k) v) d q
      ∙ rw e (sym (find-cons (node end old kids) d q))
]

-- After `trie_insert` of a key, `trie_search` finds the new value under that key, and under every other
-- key what it found before; the count has grown by one exactly when the key is new.
pub trie_search-trie_insert :
    (t : Trie) (k q : List ℕ) (v : ℤ)
    → (trie_search (trie_insert t k v) q ≡ (if same_key k q then some v else trie_search t q))
      × ((trie_insert t k v).count
          ≡ (if is_some (trie_search t k) then t.count else (t.count + 1) % 2 ^ 64))
unfolding trie_insert trie_search
trie_search-trie_insert t k q v = (
  find-insert_from t.root k q v,
  ap (λ b. if b then t.count else (t.count + 1) % 2 ^ 64) (was_end-is_some (walk t.root k)),
)
  where
    was_end-is_some : (o : Option TrieNode) → was_end o ≡ is_some (node_value o)
    was_end-is_some none = refl
    was_end-is_some (some (node true value kids)) = refl
    was_end-is_some (some (node false value kids)) = refl
