-- ===== src/Trees/Interval/Insert.antt =====
-- `itree_insert` keeps the tree valid and puts the interval into it.
use dsa_guide.Prelude.{
  ◌≡◌, ◌⊎◌, ◌↔◌, inl, inr, refl, sym, subst, true, false, ℤ, ltb_ℤ, ◌≤ℤ◌, if◌then◌else◌, Bool-cases,
  arith,
}
use dsa_guide.Trees.Interval.{ITreeNode, nil, inode, itree_insert, In, IsNode, IsValid}

abbrev raised : ℤ → ℤ → ℤ
raised max_hi hi = if ltb_ℤ max_hi hi then hi else max_hi

insert_left :
    (nlo nhi max_hi nval lo hi val : ℤ) (left right : ITreeNode)
    → ltb_ℤ lo nlo ≡ true
    → itree_insert (inode nlo nhi max_hi nval left right) lo hi val
      ≡ inode nlo nhi (raised max_hi hi) nval (itree_insert left lo hi val) right
unfolding itree_insert
insert_left nlo nhi max_hi nval lo hi val left right e = rw e

insert_right :
    (nlo nhi max_hi nval lo hi val : ℤ) (left right : ITreeNode)
    → ltb_ℤ lo nlo ≡ false
    → itree_insert (inode nlo nhi max_hi nval left right) lo hi val
      ≡ inode nlo nhi (raised max_hi hi) nval left (itree_insert right lo hi val)
unfolding itree_insert
insert_right nlo nhi max_hi nval lo hi val left right e = rw e

module _ (lo hi val : ℤ) where
  abbrev Is : ℤ → ℤ → ℤ → Type 0
  Is x y v = (x ≡ lo) × (y ≡ hi) × (v ≡ val)

  In-itree_insert :
      (t : ITreeNode) (x y v : ℤ) → In x y v (itree_insert t lo hi val) → Is x y v ⊎ In x y v t
  In-itree_insert nil x y v m =
      unfold itree_insert in
      elim m [ inl e ↦ inl e | inr below ↦ elim below [ inl b ↦ absurd b | inr b ↦ absurd b ] ]
  In-itree_insert (inode nlo nhi max_hi nval left right) x y v m =
      elim (Bool-cases (ltb_ℤ lo nlo)) [
        | inl e ↦
            elim (subst (In x y v) (insert_left nlo nhi max_hi nval lo hi val left right e) m) [
              | inl here ↦ inr (inl here)
              | inr (inl b) ↦ elim (In-itree_insert left x y v b) [
                | inl new ↦ inl new
                | inr old ↦ inr (inr (inl old))
              ]
              | inr (inr b) ↦ inr (inr (inr b))
            ]
        | inr e ↦
            elim (subst (In x y v) (insert_right nlo nhi max_hi nval lo hi val left right e) m) [
              | inl here ↦ inr (inl here)
              | inr (inl b) ↦ inr (inr (inl b))
              | inr (inr b) ↦ elim (In-itree_insert right x y v b) [
                | inl new ↦ inl new
                | inr old ↦ inr (inr (inr old))
              ]
            ]
      ]

  itree_insert-In :
      (t : ITreeNode) (x y v : ℤ) → Is x y v ⊎ In x y v t → In x y v (itree_insert t lo hi val)
  itree_insert-In nil x y v (inl new) = unfold itree_insert in inl new
  itree_insert-In nil x y v (inr old) = absurd old
  itree_insert-In (inode nlo nhi max_hi nval left right) x y v m =
      elim (Bool-cases (ltb_ℤ lo nlo)) [
        | inl e ↦
            subst (In x y v) (sym (insert_left nlo nhi max_hi nval lo hi val left right e))
              (elim m [
                | inl new ↦ inr (inl (itree_insert-In left x y v (inl new)))
                | inr (inl here) ↦ inl here
                | inr (inr (inl b)) ↦ inr (inl (itree_insert-In left x y v (inr b)))
                | inr (inr (inr b)) ↦ inr (inr b)
              ])
        | inr e ↦
            subst (In x y v) (sym (insert_right nlo nhi max_hi nval lo hi val left right e))
              (elim m [
                | inl new ↦ inr (inr (itree_insert-In right x y v (inl new)))
                | inr (inl here) ↦ inl here
                | inr (inr (inl b)) ↦ inr (inl b)
                | inr (inr (inr b)) ↦ inr (inr (itree_insert-In right x y v (inr b)))
              ])
      ]

  -- The greatest high end, with the new one.
  Is-le : (x y v max_hi : ℤ) → Is x y v → y ≤ℤ raised max_hi hi
  Is-le x y v max_hi (a, b, c) = ground (arith, b)

  reached-raised :
      (t : ITreeNode) (nlo nhi max_hi nval : ℤ) (left right : ITreeNode)
      → IsNode (inode nlo nhi max_hi nval left right) nlo max_hi left right
      → ((x y v : ℤ) → Is x y v ⊎ In x y v (inode nlo nhi max_hi nval left right) → In x y v t)
      → (x y v : ℤ) × In x y v t × (raised max_hi hi ≤ℤ y)
  reached-raised t nlo nhi max_hi nval left right n into = elim (Bool-cases (ltb_ℤ max_hi hi)) [
    | inl e ↦ (lo, hi, val, into lo hi val (inl (refl, refl, refl)), ground arith)
    | inr e ↦ let (x, y, v, m, p) = n.reached in (x, y, v, into x y v (inr m), ground (arith, p))
  ]

  bound-raised :
      (n : ITreeNode) (max_hi : ℤ)
      → ((x y v : ℤ) → In x y v n → y ≤ℤ max_hi)
      → (x y v : ℤ) → Is x y v ⊎ In x y v n
      → y ≤ℤ raised max_hi hi
  bound-raised n max_hi bound x y v (inl new) = Is-le x y v max_hi new
  bound-raised n max_hi bound x y v (inr old) = ground (arith, bound x y v old)

  itree_insert-IsValid_from : (t : ITreeNode) → IsValid t → IsValid (itree_insert t lo hi val)
  itree_insert-IsValid_from nil valid =
      unfold itree_insert in
      (
        record {
          lower = λ x y v m. absurd m;
          higher = λ x y v m. absurd m;
          bound = λ x y v m. elim m [
            | inl here ↦ ground (arith, here.1)
            | inr b ↦ elim b [ inl c ↦ absurd c | inr c ↦ absurd c ]
          ];
          reached = (lo, hi, val, inl (refl, refl, refl), omega arith);
        },
        tt,
        tt,
      )
  itree_insert-IsValid_from (inode nlo nhi max_hi nval left right) (n, vl, vr) =
      let whole = inode nlo nhi max_hi nval left right in
      elim (Bool-cases (ltb_ℤ lo nlo)) [
        | inl e ↦
            let step = insert_left nlo nhi max_hi nval lo hi val left right e in
            subst IsValid (sym step) (
              record {
                lower = λ x y v m. elim (In-itree_insert left x y v m) [
                  | inl new ↦ ground (arith, e, new.0)
                  | inr old ↦ n.lower x y v old
                ];
                higher = n.higher;
                bound = λ x y v m.
                    bound-raised whole max_hi n.bound x y v
                      (In-itree_insert whole x y v (subst (In x y v) (sym step) m));
                reached =
                    reached-raised
                      (inode nlo nhi (raised max_hi hi) nval (itree_insert left lo hi val) right)
                      nlo nhi max_hi nval left right n
                      λ x y v m. subst (In x y v) step (itree_insert-In whole x y v m);
              },
              itree_insert-IsValid_from left vl,
              vr,
            )
        | inr e ↦
            let step = insert_right nlo nhi max_hi nval lo hi val left right e in
            subst IsValid (sym step) (
              record {
                lower = n.lower;
                higher = λ x y v m. elim (In-itree_insert right x y v m) [
                  | inl new ↦ ground (arith, e, new.0)
                  | inr old ↦ n.higher x y v old
                ];
                bound = λ x y v m.
                    bound-raised whole max_hi n.bound x y v
                      (In-itree_insert whole x y v (subst (In x y v) (sym step) m));
                reached =
                    reached-raised
                      (inode nlo nhi (raised max_hi hi) nval left (itree_insert right lo hi val))
                      nlo nhi max_hi nval left right n
                      λ x y v m. subst (In x y v) step (itree_insert-In whole x y v m);
              },
              vl,
              itree_insert-IsValid_from right vr,
            )
      ]

-- `itree_insert` keeps a valid tree valid: the order of the low ends, and `max_hi` as the greatest high
-- end below each node. The new tree holds the new interval with its value, and what the old one held.
pub itree_insert-IsValid :
    (t : ITreeNode) (lo hi val : ℤ)
    → IsValid t
    → IsValid (itree_insert t lo hi val)
      × ((x y v : ℤ)
          → In x y v (itree_insert t lo hi val) ↔ (((x ≡ lo) × (y ≡ hi) × (v ≡ val)) ⊎ In x y v t))
itree_insert-IsValid t lo hi val valid = (
  itree_insert-IsValid_from lo hi val t valid,
  λ x y v. (In-itree_insert lo hi val t x y v, itree_insert-In lo hi val t x y v),
)
