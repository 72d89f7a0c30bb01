-- ===== src/Trees/Trie/Delete.antt =====
-- `trie_delete` takes one key out of the map, and `delete_r` frees only nodes with nothing below.
use dsa_guide.Prelude.{
  is_some, ℕ, zero, suc, ◌+◌, ◌-◌, ◌%◌, ◌^◌, ◌<◌, ◌≡◌, ◌⊎◌, inl, inr, refl, sym, ap, ap₂, ◌∙◌, Bool,
  true, false, not, none, some, List, [], ◌∷◌, ℤ, ◌==◌, ◌&&◌, if◌then◌else◌, Bool-cases,
  Option-cases, ℕ_discrete, arith,
}
use dsa_guide.Trees.Trie.{
  TrieNode, node, Child, null, to, Trie, is_end, children, set_child, walk, trie_search, is_null,
  any_child, has_children, kept_child, delete_r, trie_delete,
}
use dsa_guide.Trees.Trie.Search.{same_key, find, find_child, find-cons, Child-cases}

-- All bytes of the string are bytes.
abbrev pub IsBytes : List ℕ → Type 0
IsBytes [] = Unit
IsBytes (c ∷ key) = (c < 256) × IsBytes key

no_child : (n : ℕ) (kids : ℕ → Child) (c : ℕ) → any_child n kids ≡ false → c < n → kids c ≡ null
unfolding any_child
no_child zero kids c h l = absurd (omega arith)
no_child (suc n) kids c h l = elim (ℕ_discrete c n) [
  | yes e ↦ null_of (kids c) (ground (arith, ap (λ t. is_null (kids t)) e))
  | no ne ↦ no_child n kids c (ground arith) (omega arith)
]
  where
    null_of : (x : Child) → is_null x ≡ true → x ≡ null
    null_of null e = refl
    null_of (to m) e = absurd (ground arith)

-- A node that is no end and has no children has nothing below it.
find-leaf :
    (n : TrieNode) (q : List ℕ)
    → is_end n ≡ false
    → has_children n ≡ false
    → IsBytes q
    → find n q ≡ none
unfolding has_children walk
find-leaf (node end value kids) [] e h b = rw e
find-leaf (node end value kids) (d ∷ q) e h (l, b) =
    find-cons (node end value kids) d q ∙ ap (λ x. find_child x q) (no_child 256 kids d h l)

kept-true : (r : Bool × TrieNode) → r.0 ≡ true → kept_child r ≡ null
kept-true (true, m) e = refl
kept-true (false, m) e = absurd (ground arith)

kept-false : (r : Bool × TrieNode) → r.0 ≡ false → kept_child r ≡ to r.1
kept-false (false, m) e = refl
kept-false (true, m) e = absurd (ground arith)

-- `delete_r` under a byte, where the child is null and where it is not.
abbrev below : TrieNode → ℕ → Child → TrieNode
below (node end value kids) c x = node end value (set_child c x kids)

delete_r-null :
    (n : TrieNode) (c : ℕ) (k : List ℕ) → children n c ≡ null → delete_r n (c ∷ k) ≡ (false, n)
unfolding delete_r
delete_r-null (node end value kids) c k e = rw e

delete_r-to :
    (n : TrieNode) (c : ℕ) (k : List ℕ) {m : TrieNode}
    → children n c ≡ to m
    → let after = below n c (kept_child (delete_r m k)) in
      delete_r n (c ∷ k) ≡ (not (is_end after) && not (has_children after), after)
unfolding delete_r
delete_r-to (node end value kids) c k e = rw e

-- The answer true means that nothing is left below the node.
delete_r-leaf :
    (n : TrieNode) (k : List ℕ)
    → (delete_r n k).0 ≡ true
    → (is_end (delete_r n k).1 ≡ false) × (has_children (delete_r n k).1 ≡ false)
delete_r-leaf (node true value kids) [] h = unfold delete_r in (refl, ground arith)
delete_r-leaf (node false value kids) [] h = unfold delete_r in absurd (ground arith)
delete_r-leaf n (c ∷ k) h = elim (Child-cases (children n c)) [
  | inl e ↦ let h' = sym (ap (λ r. r.0) (delete_r-null n c k e)) ∙ h in absurd (ground arith)
  | inr (m, e) ↦
      let step = delete_r-to n c k e in
      let h' = sym (ap (λ r. r.0) step) ∙ h in rw step (ground (arith, h'), ground (arith, h'))
]

-- What is left of a child reads as the child after `delete_r`, be it freed or not.
find-kept_child :
    (m : TrieNode) (k q : List ℕ)
    → IsBytes q
    → find_child (kept_child (delete_r m k)) q ≡ find (delete_r m k).1 q
find-kept_child m k q b = elim (Bool-cases (delete_r m k).0) [
  | inl e ↦
      let (end, none_below) = delete_r-leaf m k e in
      rw (kept-true (delete_r m k) e) (sym (find-leaf (delete_r m k).1 q end none_below b))
  | inr e ↦ rw (kept-false (delete_r m k) e)
]

find-below :
    (n : TrieNode) (c : ℕ) (x : Child) (d : ℕ) (q : List ℕ)
    → find (below n c x) (d ∷ q) ≡ (if c == d then find_child x q else find n (d ∷ q))
find-below (node end value kids) c x d q = elim (Bool-cases (c == d)) [
  | inl e ↦ find-cons (node end value (set_child c x kids)) d q ∙ rw e
  | inr e ↦
      find-cons (node end value (set_child c x kids)) d q
      ∙ rw e (sym (find-cons (node end value kids) d q))
]

find-below_end : (n : TrieNode) (c : ℕ) (x : Child) → find (below n c x) [] ≡ find n []
unfolding walk
find-below_end (node end value kids) c x = refl

find-delete_r :
    (n : TrieNode) (k q : List ℕ)
    → IsBytes q
    → find (delete_r n k).1 q ≡ (if same_key k q then none else find n q)
find-delete_r (node true value kids) [] [] b = unfold delete_r walk in refl
find-delete_r (node true value kids) [] (d ∷ q) b = unfold delete_r walk in refl
find-delete_r (node false value kids) [] [] b = unfold delete_r walk in refl
find-delete_r (node false value kids) [] (d ∷ q) b = unfold delete_r walk in refl
find-delete_r n (c ∷ k) [] b = elim (Child-cases (children n c)) [
  | inl e ↦ ap (λ r. find r.1 []) (delete_r-null n c k e)
  | inr (m, e) ↦
      ap (λ r. find r.1 []) (delete_r-to n c k e) ∙ find-below_end n c (kept_child (delete_r m k))
]
find-delete_r n (c ∷ k) (d ∷ q) b = elim (Child-cases (children n c)) [
  | inl e ↦ ap (λ r. find r.1 (d ∷ q)) (delete_r-null n c k e) ∙ nothing_there n c d k q e
  | inr (m, e) ↦
      ap (λ r. find r.1 (d ∷ q)) (delete_r-to n c k e)
      ∙ find-below n c (kept_child (delete_r m k)) d q
      ∙ (elim (Bool-cases (c == d)) [
        | inl same ↦
            let there : find m q ≡ find n (d ∷ q) =
              sym (ap (λ x. find_child x q) (ap (children n) {x = d} {y = c} (ground arith) ∙ e))
              ∙ sym (find-cons n d q) in
            rw same (
              find-kept_child m k q b.1
              ∙ find-delete_r m k q b.1
              ∙ ap (λ t. if same_key k q then none else t) there)
        | inr other ↦ rw other
      ])
]
  where
    nothing_there :
        (n : TrieNode) (c d : ℕ) (k q : List ℕ)
        → children n c ≡ null
        → find n (d ∷ q) ≡ (if c == d && same_key k q then none else find n (d ∷ q))
    nothing_there n c d k q e = elim (Bool-cases (c == d && same_key k q)) [
      | inl same ↦ rw same (
          find-cons n d q
          ∙ ap (λ x. find_child x q) (ap (children n) {x = d} {y = c} (ground arith) ∙ e))
      | inr other ↦ rw other
    ]

trie_delete-none : (t : Trie) (k : List ℕ) → trie_search t k ≡ none → trie_delete t k ≡ (false, t)
unfolding trie_delete
trie_delete-none t k e = rw (trie_delete, e)

trie_delete-some :
    (t : Trie) (k : List ℕ) {v : ℤ}
    → trie_search t k ≡ some v
    → trie_delete t k
      ≡ (true, record { root = (delete_r t.root k).1; count = (t.count + 2 ^ 64 - 1) % 2 ^ 64 })
unfolding trie_delete
trie_delete-some t k e = rw (trie_delete, e)

eq_of_same_key : (k q : List ℕ) → same_key k q ≡ true → k ≡ q
eq_of_same_key [] [] e = refl
eq_of_same_key [] (d ∷ q) e = absurd (ground arith)
eq_of_same_key (c ∷ k) [] e = absurd (ground arith)
eq_of_same_key (c ∷ k) (d ∷ q) e =
    ap₂ ◌∷◌ {x = c} {y = d} (ground arith) (eq_of_same_key k q (ground arith))

absent_anyway :
    (t : Trie) (k q : List ℕ)
    → trie_search t k ≡ none
    → trie_search t q ≡ (if same_key k q then none else trie_search t q)
absent_anyway t k q absent = elim (Bool-cases (same_key k q)) [
  | inl e ↦ rw e (ap (trie_search t) (sym (eq_of_same_key k q e)) ∙ absent)
  | inr e ↦ rw e
]

-- `trie_delete` answers whether the key was there; if it was, it is gone afterwards and the count is
-- one less (modulo 2^64), and if not, the trie is as it was, in all its nodes. Either way a search for any other string of bytes finds
-- what it found before.
pub trie_search-trie_delete :
    (t : Trie) (k q : List ℕ)
    → IsBytes q
    → ((trie_delete t k).0 ≡ is_some (trie_search t k))
      × (trie_search (trie_delete t k).1 q ≡ (if same_key k q then none else trie_search t q))
      × ((trie_delete t k).1.count
          ≡ (if is_some (trie_search t k) then (t.count + 2 ^ 64 - 1) % 2 ^ 64 else t.count))
      × ((is_some (trie_search t k) ≡ true) ⊎ ((trie_delete t k).1 ≡ t))
trie_search-trie_delete t k q b = elim (Option-cases (trie_search t k)) [
  | inl absent ↦
      rw (trie_delete-none t k absent, absent) (refl, absent_anyway t k q absent, refl, inr refl)
  | inr (v, e) ↦
      rw (trie_delete-some t k e, e)
        (refl, unfold trie_search in find-delete_r t.root k q b, refl, inl refl)
]
