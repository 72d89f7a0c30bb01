-- ===== src/Trees/Trie/Prefix.antt =====
-- `trie_longest_prefix_match` and `trie_starts_with`.
use dsa_guide.Prelude.{
  is_some, ℕ, zero, suc, ◌+◌, ◌<◌, ◌≤◌, ◌≡◌, ◌⊎◌, inl, inr, refl, sym, ap, ◌∙◌, Bool, true, false,
  none, List, [], ◌∷◌, ◌++◌, if◌then◌else◌, Bool-cases, take, length, arith,
}
use dsa_guide.Trees.Trie.{
  TrieNode, node, null, to, Trie, is_end, children, walk, node_value, trie_search, longest_loop,
  trie_longest_prefix_match, trie_starts_with,
}
use dsa_guide.Trees.Trie.Search.{find, find_child, find-cons, Child-cases}

longest_loop-null :
    (n : TrieNode) (best depth c : ℕ) (k : List ℕ)
    → children n c ≡ null
    → longest_loop n best depth (c ∷ k) ≡ best
unfolding longest_loop
longest_loop-null n best depth c k e = rw (longest_loop, e)

longest_loop-to :
    (n : TrieNode) (best depth c : ℕ) (k : List ℕ) {m : TrieNode}
    → children n c ≡ to m
    → longest_loop n best depth (c ∷ k)
      ≡ longest_loop m (if is_end m then depth + 1 else best) (depth + 1) k
unfolding longest_loop
longest_loop-to n best depth c k e = rw (longest_loop, e)

find-root : (n : TrieNode) → is_some (find n []) ≡ is_end n
unfolding walk
find-root (node true value kids) = refl
find-root (node false value kids) = refl

-- The result is the best length so far or a longer prefix that is a key below the node, and no still
-- longer prefix is one.
Longest : TrieNode → ℕ → ℕ → List ℕ → ℕ → Type 0
Longest n best depth k r =
    ((r ≡ best)
      ⊎ ((l : ℕ) × (r ≡ depth + suc l)
          × (suc l ≤ length k)
          × (is_some (find n (take (suc l) k)) ≡ true)))
    × ((l : ℕ) → suc l ≤ length k → r < depth + suc l → find n (take (suc l) k) ≡ none)

abbrev or_best : Bool → ℕ → ℕ → ℕ
or_best end best depth = if end then depth + 1 else best

end_of : (m : TrieNode) → is_end m ≡ false → find m [] ≡ none
unfolding walk
end_of (node end value kids) e = rw e

-- One byte further down.
module _ (n m : TrieNode) (c : ℕ) (e : children n c ≡ to m) where
  through : (q : List ℕ) → find n (c ∷ q) ≡ find m q
  through q = find-cons n c q ∙ ap (λ x. find_child x q) e

  none_longer-down :
      (depth r : ℕ) (k : List ℕ)
      → (is_end m ≡ true → depth + 1 ≤ r)
      → ((l : ℕ) → suc l ≤ length k → r < depth + 1 + suc l → find m (take (suc l) k) ≡ none)
      → (l : ℕ) → suc l ≤ length (c ∷ k)
      → r < depth + suc l
      → find n (take (suc l) (c ∷ k)) ≡ none
  none_longer-down depth r k at_end none_longer zero p q = elim (Bool-cases (is_end m)) [
    | inl end ↦ absurd (omega (arith, at_end end))
    | inr no_end ↦ through [] ∙ end_of m no_end
  ]
  none_longer-down depth r k at_end none_longer (suc l) p q =
      through (take (suc l) k) ∙ none_longer l (omega arith) (omega arith)

  Longest-down :
      (best depth : ℕ) (k : List ℕ) (r : ℕ)
      → best ≤ depth
      → Longest m (or_best (is_end m) best depth) (depth + 1) k r
      → Longest n best depth (c ∷ k) r
  unfolding Longest
  Longest-down best depth k r h (inr (l, at, within, there), none_longer) = (
    inr (suc l, omega (arith, at), omega arith, ap is_some (through (take (suc l) k)) ∙ there),
    none_longer-down depth r k (λ end. omega (arith, at)) none_longer,
  )
  Longest-down best depth k r h (inl same, none_longer) = elim (Bool-cases (is_end m)) [
    | inl end ↦
        let first : r ≡ depth + 1 = same ∙ ap (λ b. or_best b best depth) end in
        (
          inr (0, omega (arith, first), omega arith, ap is_some (through []) ∙ find-root m ∙ end),
          none_longer-down depth r k (λ end. omega (arith, first)) none_longer,
        )
    | inr no_end ↦ (
      inl (same ∙ ap (λ b. or_best b best depth) no_end),
      none_longer-down depth r k (λ end. absurd (ground (arith, end, no_end))) none_longer,
    )
  ]

loop-Longest :
    (n : TrieNode) (best depth : ℕ) (k : List ℕ)
    → best ≤ depth
    → Longest n best depth k (longest_loop n best depth k)
unfolding Longest
loop-Longest n best depth [] h = (inl (unfold longest_loop in refl), λ l p. absurd (omega arith))
loop-Longest n best depth (c ∷ k) h = elim (Child-cases (children n c)) [
  | inl e ↦
      rw (longest_loop-null n best depth c k e)
        (inl refl, λ l p q. find-cons n c (take l k) ∙ ap (λ x. find_child x (take l k)) e)
  | inr (m, e) ↦ rw (longest_loop-to n best depth c k e) (
      Longest-down n m c e best depth k _ h
        (loop-Longest m (or_best (is_end m) best depth) (depth + 1) k (ground arith)))
]

-- `r` is the length of the longest prefix that is a key, but the empty one, or 0.
abbrev pub IsLongestPrefix : Trie → List ℕ → ℕ → Type 0
IsLongestPrefix t k r =
    (r ≤ length k)
    × (0 < r → is_some (trie_search t (take r k)) ≡ true)
    × ((l : ℕ) → r < l → l ≤ length k → trie_search t (take l k) ≡ none)

-- `trie_longest_prefix_match` returns the length of the longest prefix of the string, but the empty
-- one, that is a key of the trie, and 0 if there is none.
pub trie_longest_prefix_match-IsLongestPrefix :
    (t : Trie) (k : List ℕ) → IsLongestPrefix t k (trie_longest_prefix_match t k)
unfolding trie_longest_prefix_match trie_search Longest
trie_longest_prefix_match-IsLongestPrefix t k =
    let (found, none_longer) = loop-Longest t.root 0 0 k (omega arith) in
    (
      elim found [ inl e ↦ omega (arith, e) | inr (l, e, p, q) ↦ omega (arith, e) ],
      λ positive. elim found [
        | inl e ↦ absurd (omega (arith, e))
        | inr (l, e, p, q) ↦
            ap (λ r. is_some (find t.root (take r k))) {y = suc l} (omega (arith, e)) ∙ q
      ],
      longer none_longer,
    )
  where
    longer :
        ((l : ℕ)
          → suc l ≤ length k
          → longest_loop t.root 0 0 k < 0 + suc l
          → find t.root (take (suc l) k) ≡ none)
        → (l : ℕ) → longest_loop t.root 0 0 k < l
        → l ≤ length k
        → find t.root (take l k) ≡ none
    longer h zero p q = absurd (omega arith)
    longer h (suc l) p q = h l q (omega arith)

walk-cons-to :
    (n : TrieNode) (c : ℕ) (k : List ℕ) {m : TrieNode}
    → children n c ≡ to m
    → walk n (c ∷ k) ≡ walk m k
unfolding walk
walk-cons-to n c k e = rw (walk, e)

walk-prefix :
    (n : TrieNode) (k q : List ℕ) → is_some (find n (k ++ q)) ≡ true → is_some (walk n k) ≡ true
walk-prefix n [] q h = unfold walk in refl
walk-prefix n (c ∷ k) q h = elim (Child-cases (children n c)) [
  | inl e ↦
      let nothing = find-cons n c (k ++ q) ∙ ap (λ x. find_child x (k ++ q)) e in
      absurd (ground (arith, sym (ap is_some nothing) ∙ h))
  | inr (m, e) ↦
      let there = ap is_some (ap node_value (walk-cons-to n c (k ++ q) e)) in
      ap is_some (walk-cons-to n c k e) ∙ walk-prefix m k q (sym there ∙ h)
]

-- `trie_starts_with` answers true for every prefix of a key of the trie.
trie_starts_with-prefix :
    (t : Trie) (k q : List ℕ)
    → is_some (trie_search t (k ++ q)) ≡ true
    → trie_starts_with t k ≡ true
unfolding trie_starts_with trie_search
trie_starts_with-prefix t k q h = walk-prefix t.root k q h
