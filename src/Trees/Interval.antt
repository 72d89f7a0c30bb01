-- ===== src/Trees/Interval.antt =====
-- src/trees/segment_tree.c, the interval tree: a search tree by the low ends, each node of which knows
-- the greatest high end below it. Each node owns its children.
pub mod Insert
pub mod Query
use dsa_guide.Prelude.{
  ℕ, ◌≡◌, ◌⊎◌, Bool, true, false, not, ◌&&◌, ◌||◌, Option, none, some, List, [], ◌∷◌, ◌++◌, ℤ,
  ltb_ℤ, leb_ℤ, ◌≤ℤ◌, ◌<ℤ◌, if◌then◌else◌,
}

-- `inode lo hi max_hi val left right`; `nil` is the null pointer.
pub data ITreeNode : Type 0 where
  nil : ITreeNode
  inode : ℤ → ℤ → ℤ → ℤ → ITreeNode → ITreeNode → ITreeNode

abbrev pub itnode_new : ℤ → ℤ → ℤ → ITreeNode
itnode_new lo hi val = inode lo hi hi val nil nil

pub itree_insert : ITreeNode → ℤ → ℤ → ℤ → ITreeNode
itree_insert nil lo hi val = itnode_new lo hi val
itree_insert (inode nlo nhi max_hi nval left right) lo hi val =
    let max_hi' = if ltb_ℤ max_hi hi then hi else max_hi in
    let in_left = itree_insert left lo hi val in
    let in_right = itree_insert right lo hi val in
    if ltb_ℤ lo nlo
    then inode nlo nhi max_hi' nval in_left right
    else inode nlo nhi max_hi' nval left in_right

-- `n && n->max_hi >= p`
abbrev pub reaches : ITreeNode → ℤ → Bool
reaches nil p = false
reaches (inode lo hi max_hi val left right) p = leb_ℤ p max_hi

-- The node that `itree_stab` returns, as its interval and value.
pub itree_stab : ITreeNode → ℤ → Option (ℤ × ℤ × ℤ)
itree_stab nil p = none
itree_stab (inode lo hi max_hi val left right) p =
    let in_left = itree_stab left p in
    let in_right = itree_stab right p in
    if leb_ℤ lo p && leb_ℤ p hi
    then some (lo, hi, val)
    else (if reaches left p then in_left else in_right)

-- The intervals that `itree_overlap` calls `visit` on, in order.
pub itree_overlap : ITreeNode → ℤ → ℤ → List (ℤ × ℤ × ℤ)
itree_overlap nil lo hi = []
itree_overlap (inode nlo nhi max_hi val left right) lo hi =
    let below = itree_overlap left lo hi ++ itree_overlap right lo hi in
    if ltb_ℤ max_hi lo
    then []
    else (if leb_ℤ nlo hi && leb_ℤ lo nhi then (nlo, nhi, val) ∷ below else below)

-- An interval with its value stands in the tree.
abbrev pub In : ℤ → ℤ → ℤ → ITreeNode → Type 0
In x y v nil = ⊥
In x y v (inode lo hi max_hi val left right) =
    ((x ≡ lo) × (y ≡ hi) × (v ≡ val)) ⊎ (In x y v left ⊎ In x y v right)

-- Low ends to the left are lower, those to the right are not, and `max_hi` is the greatest high end of
-- the node and what is below it.
pub record IsNode (n : ITreeNode) (lo max_hi : ℤ) (left right : ITreeNode) : Type 0 where
  pub lower : (x y v : ℤ) → In x y v left → x <ℤ lo
  pub higher : (x y v : ℤ) → In x y v right → lo ≤ℤ x
  pub bound : (x y v : ℤ) → In x y v n → y ≤ℤ max_hi
  pub reached : (x y v : ℤ) × In x y v n × (max_hi ≤ℤ y)

abbrev pub IsValid : ITreeNode → Type 0
IsValid nil = Unit
IsValid (inode lo hi max_hi val left right) =
    IsNode (inode lo hi max_hi val left right) lo max_hi left right × IsValid left × IsValid right
