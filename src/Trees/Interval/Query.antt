-- ===== src/Trees/Interval/Query.antt =====
-- `itree_stab` finds an interval with the point if there is one; `itree_overlap` visits all intervals
-- that meet the range.
use dsa_guide.Prelude.{
  ◌≡◌, ◌⊎◌, inl, inr, refl, sym, Bool, true, false, ◌&&◌, Option, none, some, List, [], ◌∷◌, ◌++◌,
  ℤ, ltb_ℤ, leb_ℤ, ◌≤ℤ◌, ◌<ℤ◌, if◌then◌else◌, Bool-cases, arith,
}
use dsa_guide.Trees.Interval.{
  ITreeNode, nil, inode, reaches, itree_stab, itree_overlap, In, IsValid,
}

-- An interval of the tree that holds the point, or none if no interval does.
abbrev pub IsStab : ITreeNode → ℤ → Option (ℤ × ℤ × ℤ) → Type 0
IsStab t p r =
    ((x y v : ℤ) × (r ≡ some (x, y, v)) × In x y v t × (x ≤ℤ p) × (p ≤ℤ y))
    ⊎ ((r ≡ none) × ((x y v : ℤ) → In x y v t → x ≤ℤ p → p ≤ℤ y → ⊥))

reaches-false :
    (t : ITreeNode) (p x y v : ℤ) → IsValid t → reaches t p ≡ false → In x y v t → p ≤ℤ y → ⊥
reaches-false nil p x y v valid e m h = m
reaches-false (inode lo hi max_hi val left right) p x y v (n, vl, vr) e m h =
    ground (arith, e, n.bound x y v m)

reaches-true :
    (t : ITreeNode) (p : ℤ) → IsValid t → reaches t p ≡ true → (x y v : ℤ) × In x y v t × (p ≤ℤ y)
reaches-true nil p valid e = absurd (ground (arith, e))
reaches-true (inode lo hi max_hi val left right) p (n, vl, vr) e =
    let (x, y, v, m, h) = n.reached in (x, y, v, m, ground (arith, e, h))

-- `itree_stab` on a valid tree returns an interval that holds the point, and null only if none does,
-- although it looks into one child of each node.
pub itree_stab-IsStab : (t : ITreeNode) (p : ℤ) → IsValid t → IsStab t p (itree_stab t p)
unfolding itree_stab
itree_stab-IsStab nil p valid = inr (refl, λ x y v m h k. m)
itree_stab-IsStab (inode lo hi max_hi val left right) p (n, vl, vr) =
    elim (Bool-cases (leb_ℤ lo p && leb_ℤ p hi)) [
      | inl hit ↦
          rw hit (inl (lo, hi, val, refl, inl (refl, refl, refl), ground arith, ground arith))
      | inr miss ↦
          let not_here : (x y v : ℤ) → (x ≡ lo) × (y ≡ hi) × (v ≡ val) → x ≤ℤ p → p ≤ℤ y → ⊥ =
            λ x y v here a b. ground (arith, miss, here.0, here.1) in
          elim (Bool-cases (reaches left p)) [
            | inl e ↦
                let (x, y, v, m, reach) = reaches-true left p vl e in
                rw (miss, e)
                  (elim (itree_stab-IsStab left p vl) [
                    | inl (x, y, v, found, m, a, b) ↦ inl (x, y, v, found, inr (inl m), a, b)
                    | inr (nothing, no_left) ↦ inr (
                      nothing,
                      λ x' y' v' m' a b. elim m' [
                        | inl here ↦ not_here x' y' v' here a b
                        | inr (inl l) ↦ no_left x' y' v' l a b
                        | inr (inr r) ↦
                            no_left x y v m (omega (arith, n.lower x y v m, n.higher x' y' v' r))
                              reach
                      ],
                    )
                  ])
            | inr e ↦
                rw (miss, e)
                  (elim (itree_stab-IsStab right p vr) [
                    | inl (x, y, v, found, m, a, b) ↦ inl (x, y, v, found, inr (inr m), a, b)
                    | inr (nothing, no_right) ↦ inr (
                      nothing,
                      λ x' y' v' m' a b. elim m' [
                        | inl here ↦ not_here x' y' v' here a b
                        | inr (inl l) ↦ reaches-false left p x' y' v' vl e l b
                        | inr (inr r) ↦ no_right x' y' v' r a b
                      ],
                    )
                  ])
          ]
    ]

-- All intervals of a tree, each node before what is below it, that meet the range.
abbrev pub meeting : ITreeNode → ℤ → ℤ → List (ℤ × ℤ × ℤ)
meeting nil lo hi = []
meeting (inode nlo nhi max_hi val left right) lo hi =
    (if leb_ℤ nlo hi && leb_ℤ lo nhi then (nlo, nhi, val) ∷ [] else [])
    ++ (meeting left lo hi ++ meeting right lo hi)

meeting-none :
    (t : ITreeNode) (lo hi : ℤ) → ((x y v : ℤ) → In x y v t → y <ℤ lo) → meeting t lo hi ≡ []
meeting-none nil lo hi h = refl
meeting-none (inode nlo nhi max_hi val left right) lo hi h =
    let test : (leb_ℤ nlo hi && leb_ℤ lo nhi) ≡ false =
      ground (arith, h nlo nhi val (inl (refl, refl, refl))) in
    rw (
      test,
      meeting-none left lo hi λ x y v m. h x y v (inr (inl m)),
      meeting-none right lo hi λ x y v m. h x y v (inr (inr m)),
    )

-- On a valid tree `itree_overlap` visits exactly the intervals that meet the range, each node before
-- those below it: what it prunes by `max_hi` has none.
pub itree_overlap-meeting :
    (t : ITreeNode) (lo hi : ℤ) → IsValid t → itree_overlap t lo hi ≡ meeting t lo hi
unfolding itree_overlap
itree_overlap-meeting nil lo hi valid = refl
itree_overlap-meeting (inode nlo nhi max_hi val left right) lo hi (n, vl, vr) =
    elim (Bool-cases (ltb_ℤ max_hi lo)) [
      | inl e ↦ rw e (
          sym (
            meeting-none (inode nlo nhi max_hi val left right) lo hi
              λ x y v m. ground (arith, n.bound x y v m)))
      | inr e ↦
          rw (e, itree_overlap-meeting left lo hi vl, itree_overlap-meeting right lo hi vr)
            (prepend (leb_ℤ nlo hi && leb_ℤ lo nhi) (nlo, nhi, val)
              (meeting left lo hi ++ meeting right lo hi))
    ]
  where
    prepend :
        (b : Bool) (x : ℤ × ℤ × ℤ) (l : List (ℤ × ℤ × ℤ))
        → (if b then x ∷ l else l) ≡ (if b then x ∷ [] else []) ++ l
    prepend true x l = refl
    prepend false x l = refl
