-- ===== src/Linear/LinkedList/Search.antt =====
-- `ll_contains`, `ll_delete` and `ll_find_middle`.
use dsa_guide.Prelude.{
  suc, ◌/◌, ◌≤◌, ◌≡◌, ◌↔◌, inl, inr, refl, ap, ◌∙◌, true, false, List, [], ◌∷◌, ◌++◌, ℤ, ◌==ℤ◌,
  ==ℤ_refl, eq_of_==ℤ, Bool-cases, ok, length, drop, arith,
}
use dsa_guide.Linear.LinkedList.{
  LinkedList, contains_loop, ll_contains, ll_delete, middle_loop, ll_find_middle,
}
use dsa_guide.Linear.LinkedList.Calls.{of_list, without_first, ll_delete-without}

middle_loop-drop :
    (slow fast : List ℤ)
    → length fast ≤ length slow
    → middle_loop slow fast ≡ ok (drop (length fast / 2) slow)
unfolding middle_loop
middle_loop-drop slow [] h = refl
middle_loop-drop slow (f ∷ []) h = refl
middle_loop-drop [] (f ∷ g ∷ fast) h = absurd (omega arith)
middle_loop-drop (x ∷ slow) (f ∷ g ∷ fast) h =
    let half : suc (suc (length fast)) / 2 ≡ suc (length fast / 2) = omega arith in
    rw half (middle_loop-drop slow fast (omega arith))

-- `ll_find_middle` returns the node with half of the nodes, rounded down, in front of it; it follows no
-- null pointer.
pub ll_find_middle-drop : (l : LinkedList) → ll_find_middle l ≡ ok (drop (length l.head / 2) l.head)
unfolding ll_find_middle
ll_find_middle-drop l = middle_loop-drop l.head l.head (omega arith)

contains_loop-append : (a b : List ℤ) (v : ℤ) → contains_loop (a ++ v ∷ b) v ≡ true
unfolding contains_loop
contains_loop-append [] b v = rw (==ℤ_refl v) refl
contains_loop-append (x ∷ a) b v = elim (Bool-cases (x ==ℤ v)) [
  | inl e ↦ rw e refl
  | inr e ↦ rw e (contains_loop-append a b v)
]

-- The list has the value behind some others, none of which is that value.
abbrev pub FirstAt : ℤ → List ℤ → Type 0
FirstAt v l = (a b : List ℤ) × (l ≡ a ++ v ∷ b) × (contains_loop a v ≡ false)

contains_loop-FirstAt : (l : List ℤ) (v : ℤ) → contains_loop l v ≡ true → FirstAt v l
unfolding contains_loop
contains_loop-FirstAt [] v h = absurd (ground (arith, h))
contains_loop-FirstAt (x ∷ l) v h = elim (Bool-cases (x ==ℤ v)) [
  | inl e ↦ ([], l, ap (λ y. y ∷ l) (eq_of_==ℤ x v e), refl)
  | inr e ↦
      let (a, b, split, before) = contains_loop-FirstAt l v (rw e at h) in
      (x ∷ a, b, ap (◌∷◌ x) split, rw e before)
]

without_first-append :
    (a b : List ℤ) (v : ℤ) → contains_loop a v ≡ false → without_first (a ++ v ∷ b) v ≡ a ++ b
unfolding contains_loop
without_first-append [] b v h = rw (==ℤ_refl v) refl
without_first-append (x ∷ a) b v h = elim (Bool-cases (x ==ℤ v)) [
  | inl e ↦ absurd (ground (arith, rw e at h))
  | inr e ↦ rw e (ap (◌∷◌ x) (without_first-append a b v (rw e at h)))
]

-- `ll_contains` answers true exactly when the list has the value.
pub ll_contains-FirstAt : (l : List ℤ) (v : ℤ) → (ll_contains (of_list l) v ≡ true) ↔ FirstAt v l
unfolding ll_contains
ll_contains-FirstAt l v = (
  contains_loop-FirstAt l v,
  λ (a, b, split, before). ap (λ k. contains_loop k v) split ∙ contains_loop-append a b v,
)

-- Where `ll_contains` finds no value in the first part, `ll_delete` takes out the node behind it, keeps
-- all others in order, and counts one node less.
pub ll_delete-append :
    (a b : List ℤ) (v : ℤ)
    → ll_contains (of_list a) v ≡ false
    → ll_delete (of_list (a ++ v ∷ b)) v ≡ of_list (a ++ b)
unfolding ll_contains
ll_delete-append a b v before =
    ll_delete-without (a ++ v ∷ b) v ∙ ap of_list (without_first-append a b v before)
