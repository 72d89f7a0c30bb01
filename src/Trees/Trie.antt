-- ===== src/Trees/Trie.antt =====
-- src/trees/trie.c: a trie of bytes. Each node owns its children, so that a node is a value of a data
-- type; the array `children[TRIE_ALPHA]` is a function of the byte.
pub mod Search
pub mod Delete
pub mod Prefix
use dsa_guide.Prelude.{
  ℕ, zero, suc, ◌+◌, ◌%◌, ◌^◌, ◌-◌, Bool, true, false, not, ◌&&◌, ◌||◌, Option, none, some, List,
  [], ◌∷◌, ℤ, pos, ◌==◌, if◌then◌else◌, is_some,
}

-- `null` is the null pointer.
mutual
  pub data TrieNode : Type 0 where
    node : Bool → ℤ → (ℕ → Child) → TrieNode

  pub data Child : Type 0 where
    null : Child
    to : TrieNode → Child

pub record Trie : Type 0 where
  pub root : TrieNode
  pub count : ℕ

abbrev pub is_end : TrieNode → Bool
is_end (node end value children) = end

abbrev pub children : TrieNode → ℕ → Child
children (node end value kids) = kids

-- What `calloc(1, sizeof(TrieNode))` returns.
abbrev pub empty_node : TrieNode
empty_node = node false (pos 0) (λ c. null)

abbrev pub trie_create : Trie
trie_create = record { root = empty_node; count = 0 }

-- `cur->children[c] = child`
abbrev pub set_child : ℕ → Child → (ℕ → Child) → ℕ → Child
set_child c child kids j = if c == j then child else kids j

-- `cur->children[c]`, made new where it is null.
abbrev pub child_or_new : Child → TrieNode
child_or_new null = empty_node
child_or_new (to n) = n

-- The walk of `trie_insert` from a node on: the node as it is afterwards.
pub insert_from : TrieNode → List ℕ → ℤ → TrieNode
insert_from (node end old kids) [] value = node true value kids
insert_from (node end old kids) (c ∷ key) value =
    node end old (set_child c (to (insert_from (child_or_new (kids c)) key value)) kids)

-- The node at which the walk along a key ends, if no child on it is null.
pub walk : TrieNode → List ℕ → Option TrieNode
walk n [] = some n
walk n (c ∷ key) = elim (children n c) [ null ↦ none | to m ↦ walk m key ]

abbrev pub value_at_end : TrieNode → Option ℤ
value_at_end (node end value kids) = if end then some value else none

abbrev pub node_value : Option TrieNode → Option ℤ
node_value none = none
node_value (some n) = value_at_end n

abbrev pub was_end : Option TrieNode → Bool
was_end none = false
was_end (some n) = is_end n

pub trie_insert : Trie → List ℕ → ℤ → Trie
trie_insert t key value = record {
  root = insert_from t.root key value;
  count = if was_end (walk t.root key) then t.count else (t.count + 1) % 2 ^ 64;
}

-- The option is what goes through `*val_out`.
pub trie_search : Trie → List ℕ → Option ℤ
trie_search t key = node_value (walk t.root key)

pub trie_starts_with : Trie → List ℕ → Bool
trie_starts_with t prefix = is_some (walk t.root prefix)

abbrev pub is_null : Child → Bool
is_null null = true
is_null (to n) = false

-- The loop of `has_children` with `n` indices left, from the last on.
pub any_child : ℕ → (ℕ → Child) → Bool
any_child zero kids = false
any_child (suc n) kids = not (is_null (kids n)) || any_child n kids

pub has_children : TrieNode → Bool
has_children n = any_child 256 (children n)

-- A child that is to be deleted is freed, and its pointer set to null.
abbrev pub kept_child : Bool × TrieNode → Child
kept_child (true, m) = null
kept_child (false, m) = to m

-- `delete_r`: its answer, and the node as it is afterwards.
pub delete_r : TrieNode → List ℕ → Bool × TrieNode
delete_r (node end value kids) [] =
    if not end
    then (false, node end value kids)
    else (not (has_children (node false value kids)), node false value kids)
delete_r (node end value kids) (c ∷ key) = elim (kids c) [
  | null ↦ (false, node end value kids)
  | to m ↦
      let after = node end value (set_child c (kept_child (delete_r m key)) kids) in
      (not end && not (has_children after), after)
]

pub trie_delete : Trie → List ℕ → Bool × Trie
trie_delete t key = elim (trie_search t key) [
  | none ↦ (false, t)
  | some v ↦
      (true, record { root = (delete_r t.root key).1; count = (t.count + 2 ^ 64 - 1) % 2 ^ 64 })
]

-- The loop of `trie_longest_prefix_match`.
pub longest_loop : TrieNode → ℕ → ℕ → List ℕ → ℕ
longest_loop cur best depth [] = best
longest_loop cur best depth (c ∷ key) = elim (children cur c) [
  | null ↦ best
  | to m ↦ longest_loop m (if is_end m then depth + 1 else best) (depth + 1) key
]

pub trie_longest_prefix_match : Trie → List ℕ → ℕ
trie_longest_prefix_match t key = longest_loop t.root 0 0 key
