-- ===== src/Linear/LinkedList/Sort.antt =====
-- `ll_merge_sort`.
use mathlib.Core.List.{Perm, Pairwise, Pairwise-cons, Pairwise-singleton, perm_middle, append-nil}
use mathlib.Core.List.Perm
use dsa_guide.Prelude.{
  ℕ, zero, suc, ◌+◌, ◌<◌, ◌≤◌, ◌≡◌, inl, inr, refl, ap, true, false, List, [], ◌∷◌, ◌++◌, ℤ, leb_ℤ,
  Bool-cases, ok, Returns, returns, Returns-bind, length, length-take, length-drop, take, drop,
  take-append-drop, ◌/◌, subst, arith,
}
use dsa_guide.Prelude.Sorting.{IsSorted, IsBelow-append, IsBelow-perm, IsBelow-head}
use dsa_guide.Linear.LinkedList.{
  LinkedList, ll_merge_sorted, split_loop, merge_sort_node, ll_merge_sort,
}

merge_left :
    (x y : ℤ) (a b : List ℤ)
    → leb_ℤ x y ≡ true
    → ll_merge_sorted (x ∷ a) (y ∷ b) ≡ x ∷ ll_merge_sorted a (y ∷ b)
unfolding ll_merge_sorted
merge_left x y a b e = rw (ll_merge_sorted, e)

merge_right :
    (x y : ℤ) (a b : List ℤ)
    → leb_ℤ x y ≡ false
    → ll_merge_sorted (x ∷ a) (y ∷ b) ≡ y ∷ ll_merge_sorted (x ∷ a) b
unfolding ll_merge_sorted
merge_right x y a b e = rw (ll_merge_sorted, e)

merge-Perm : (a b : List ℤ) → Perm (ll_merge_sorted a b) (a ++ b)
unfolding ll_merge_sorted
merge-Perm [] b = Perm.rfl
merge-Perm (x ∷ a) [] = rw (append-nil a) Perm.rfl
merge-Perm (x ∷ a) (y ∷ b) = elim (Bool-cases (leb_ℤ x y)) [
  | inl e ↦ rw (merge_left x y a b e) (Perm.cons x (merge-Perm a (y ∷ b)))
  | inr e ↦
      rw (merge_right x y a b e)
        (Perm.trans (Perm.cons y (merge-Perm (x ∷ a) b)) (Perm.symm (perm_middle (x ∷ a) b)))
]

merge-IsSorted : (a b : List ℤ) → IsSorted a → IsSorted b → IsSorted (ll_merge_sorted a b)
unfolding ll_merge_sorted
merge-IsSorted [] b sa sb = sb
merge-IsSorted (x ∷ a) [] sa sb = sa
merge-IsSorted (x ∷ a) (y ∷ b) sa sb =
    let (below_a, tail_a) = Pairwise-cons.0 sa in
    let (below_b, tail_b) = Pairwise-cons.0 sb in
    elim (Bool-cases (leb_ℤ x y)) [
      | inl e ↦ rw (merge_left x y a b e) (
          Pairwise.cons
            (IsBelow-perm x _ (a ++ y ∷ b) (merge-Perm a (y ∷ b))
              (IsBelow-append x a (y ∷ b) below_a (IsBelow-head x y b (ground arith) sb)))
            (merge-IsSorted a (y ∷ b) tail_a sb))
      | inr e ↦ rw (merge_right x y a b e) (
          Pairwise.cons
            (IsBelow-perm y _ (x ∷ a ++ b) (merge-Perm (x ∷ a) b)
              (IsBelow-append y (x ∷ a) b (IsBelow-head y x a (ground arith) sa) below_b))
            (merge-IsSorted (x ∷ a) b sa tail_b))
    ]

-- `slow` stops in the middle, and never runs off the end.
split_loop-take :
    (x : ℤ) (rest fast : List ℤ)
    → length fast ≤ length rest
    → split_loop x rest fast ≡ ok (x ∷ take (length fast / 2) rest, drop (length fast / 2) rest)
unfolding split_loop
split_loop-take x rest [] h = refl
split_loop-take x rest (f ∷ []) h = refl
split_loop-take x [] (f ∷ g ∷ fast) h = absurd (omega arith)
split_loop-take x (y ∷ rest) (f ∷ g ∷ fast) h =
    let half : suc (suc (length fast)) / 2 ≡ suc (length fast / 2) = omega arith in
    rw (half, split_loop-take y rest fast (omega arith)) refl

-- What a sort returns.
abbrev IsSort : List ℤ → List ℤ → Type 0
IsSort l r = IsSorted r × Perm r l

merge_sort_node-IsSort :
    (fuel : ℕ) (l : List ℤ) → length l < fuel → Returns (IsSort l) (merge_sort_node fuel l)
unfolding merge_sort_node
merge_sort_node-IsSort zero l h = absurd (omega arith)
merge_sort_node-IsSort (suc fuel) [] h = returns (Pairwise.nil, Perm.rfl)
merge_sort_node-IsSort (suc fuel) (x ∷ []) h = returns (Pairwise-singleton _ x, Perm.rfl)
merge_sort_node-IsSort (suc fuel) (x ∷ y ∷ l) h =
    let n = suc (length l) / 2 in
    let whole = ap (◌∷◌ x) (take-append-drop n (y ∷ l)) in
    rw (split_loop-take x (y ∷ l) (y ∷ l) (omega arith)) (
      Returns-bind
        (merge_sort_node-IsSort fuel (x ∷ take n (y ∷ l)) (omega (arith, length-take n (y ∷ l))))
        λ a (sa, pa).
          Returns-bind
            (merge_sort_node-IsSort fuel (drop n (y ∷ l)) (omega (arith, length-drop n (y ∷ l))))
            λ b (sb, pb). returns (
              merge-IsSorted a b sa sb,
              Perm.trans (merge-Perm a b) (subst (Perm (a ++ b)) whole (Perm.append pa pb)),
            ))

-- `ll_merge_sort` returns: its loops end, and no pointer that is null is followed. The list it returns
-- is ascending, has the same values as before, and the same size.
pub ll_merge_sort-IsSort :
    (l : LinkedList)
    → Returns (λ r. IsSorted r.head × Perm r.head l.head × (r.size ≡ l.size)) (ll_merge_sort l)
unfolding ll_merge_sort
ll_merge_sort-IsSort l =
    Returns-bind (merge_sort_node-IsSort (length l.head + 1) l.head (omega arith))
      λ r (s, p). returns (s, p, refl)
