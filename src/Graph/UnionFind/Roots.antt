-- ===== src/Graph/UnionFind/Roots.antt =====
-- The root of each element, and what path compression and a new link make of it.
use dsa_guide.Prelude.{
  ℕ, zero, suc, ◌+◌, ◌<◌, ◌≤◌, ◌≡◌, ◌≢◌, ◌⊎◌, inl, inr, refl, sym, ap, ◌∙◌, List, ℕ_discrete,
  length, get_or, set, length-set, get_or-set_self, get_or-set_ne, subst, arith,
}

abbrev pub up : List ℕ → ℕ → ℕ
up p x = get_or p x 0

-- The links lead from `x` to the root `r`.
pub data Root (p : List ℕ) : ℕ → ℕ → Type 0 where
  root : (x : ℕ) → up p x ≡ x → Root p x x
  above : {r : ℕ} (x : ℕ) → up p x ≢ x → Root p (up p x) r → Root p x r

-- The links stay among the elements and lead to greater ranks, none of which is past `limit`.
pub record IsForest (p rank : List ℕ) (limit : ℕ) : Type 0 where
  pub same_length : length rank ≡ length p
  pub within : (x : ℕ) → x < length p → up p x < length p
  pub rises : (x : ℕ) → x < length p → up p x ≢ x → up rank x < up rank (up p x)
  pub limited : (x : ℕ) → x < length p → up rank x ≤ limit

pub Root-fixed : {p : List ℕ} {x r : ℕ} → Root p x r → up p r ≡ r
Root-fixed (root x e) = e
Root-fixed (above x ne t) = Root-fixed t

pub Root-unique : {p : List ℕ} {x r s : ℕ} → Root p x r → Root p x s → r ≡ s
Root-unique (root x e) (root x' d) = refl
Root-unique (root x e) (above x' ne t) = absurd (ne e)
Root-unique (above x ne t) (root x' e) = absurd (ne e)
Root-unique (above x ne t) (above x' ne' t') = Root-unique t t'

pub Root-lt :
    {p rank : List ℕ} {limit x r : ℕ}
    → IsForest p rank limit
    → x < length p
    → Root p x r
    → r < length p
Root-lt f h (root x e) = h
Root-lt f h (above x ne t) = Root-lt f (f.within x h) t

-- An element that is no root has a lower rank than its root.
pub Root-rank :
    {p rank : List ℕ} {limit x r : ℕ}
    → IsForest p rank limit
    → x < length p
    → Root p x r
    → (x ≡ r) ⊎ (up rank x < up rank r)
Root-rank f h (root x e) = inl refl
Root-rank {rank} f h (above x ne t) = elim (Root-rank f (f.within x h) t) [
  | inl e ↦ inr (subst (λ r. up rank x < up rank r) e (f.rises x h ne))
  | inr l ↦ inr (omega (arith, l, f.rises x h ne))
]

-- Every element has a root.
pub Root-exists :
    {p rank : List ℕ} {limit : ℕ} (fuel x : ℕ)
    → IsForest p rank limit
    → x < length p
    → limit < fuel + up rank x
    → (r : ℕ) × Root p x r
Root-exists zero x f h enough = absurd (omega (arith, f.limited x h))
Root-exists {p} (suc fuel) x f h enough = elim (ℕ_discrete (up p x) x) [
  | yes e ↦ (x, root x e)
  | no ne ↦
      let (r, t) = Root-exists fuel (up p x) f (f.within x h) (omega (arith, f.rises x h ne)) in
      (r, above x ne t)
]

-- Path compression: `x` gets its root as its parent.
module _ {p rank : List ℕ} {limit x r : ℕ} (f : IsForest p rank limit) (h : x < length p)
    (t : Root p x r) (no_root : up p x ≢ x) where
  not_itself : r ≢ x
  not_itself e = no_root (subst (λ y. up p y ≡ y) e (Root-fixed t))

  up-here : up (set p x r) x ≡ r
  up-here = get_or-set_self p x r 0 h

  up-elsewhere : (z : ℕ) → x ≢ z → up (set p x r) z ≡ up p z
  up-elsewhere z ne = get_or-set_ne p x z r 0 ne

  Root-here : Root (set p x r) x r
  Root-here =
      let fixed = up-elsewhere r (λ e. not_itself (sym e)) ∙ Root-fixed t in
      above x (λ e. not_itself (sym up-here ∙ e))
        (subst (λ y. Root (set p x r) y r) (sym up-here) (root r fixed))

  pub Root-compressed : {z s : ℕ} → Root p z s → Root (set p x r) z s
  Root-compressed (root z e) =
      let ne : x ≢ z = λ same. no_root (subst (λ y. up p y ≡ y) (sym same) e) in
      root z (get_or-set_ne p x z r 0 ne ∙ e)
  Root-compressed {s} (above z ne rest) = elim (ℕ_discrete x z) [
    | yes same ↦
        subst (λ y. Root (set p x r) y s) same
          (subst (Root (set p x r) x)
            (Root-unique t (subst (λ y. Root p y s) (sym same) (above z ne rest))) Root-here)
    | no other ↦
        let eq = up-elsewhere z other in
        above z (λ e. ne (sym eq ∙ e))
          (subst (λ y. Root (set p x r) y s) (sym eq) (Root-compressed rest))
  ]

  pub IsForest-compressed : IsForest (set p x r) rank limit
  IsForest-compressed = record {
    same_length = f.same_length ∙ sym (length-set p x r);
    within = λ z q. elim (ℕ_discrete x z) [
      | yes same ↦
          omega (arith, ap (up (set p x r)) (sym same), up-here, Root-lt f h t, length-set p x r)
      | no other ↦ omega (
        arith,
        up-elsewhere z other,
        f.within z (omega (arith, length-set p x r)),
        length-set p x r,
      )
    ];
    rises = λ z q ne. elim (ℕ_discrete x z) [
      | yes same ↦
          let lead : up (set p x r) z ≡ r = ap (up (set p x r)) (sym same) ∙ up-here in
          subst (λ y. up rank z < up rank y) (sym lead)
            (subst (λ y. up rank y < up rank r) same
              (elim (Root-rank f h t) [ inl e ↦ absurd (not_itself (sym e)) | inr l ↦ l ]))
      | no other ↦
          let eq = up-elsewhere z other in
          subst (λ y. up rank z < up rank y) (sym eq)
            (f.rises z (omega (arith, length-set p x r)) λ e. ne (eq ∙ e))
    ];
    limited = λ z q. f.limited z (omega (arith, length-set p x r));
  }
