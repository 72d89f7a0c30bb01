-- ===== src/Graph/AdjacencyList/Dfs/Explored.antt =====
-- What `dfs_r` flags and writes.
use mathlib.Core.List.{append_assoc, append-nil}
use dsa_guide.Prelude.{
  ℕ, zero, suc, ◌<◌, ◌≤◌, ◌≡◌, ◌⊎◌, inl, inr, refl, sym, ap, ◌∙◌, subst, true, false, List, [], ◌∷◌,
  ◌++◌, if◌then◌else◌, Bool-cases, length, length-set, set, get_or, load-ok, store-ok, Run, ok,
  Returns, returns, Returns-bind, Returns-map, arith,
}
use dsa_guide.Graph.AdjacencyList.{GEdge, Graph}
use dsa_guide.Graph.AdjacencyList.Walks.{Target, edges, IsGraph, Reach, here, step, Reach-trans}
use dsa_guide.Graph.AdjacencyList.Marks.{
  unseen, Marked, unseen-set, Marked-set, Marked-set_self, Marked-set_before, In, Distinct,
  In-append, In-append_left, In-append_right, Distinct-append,
}
use dsa_guide.Graph.AdjacencyList.Dfs.{Dfs, dfs_edges, dfs_r}

-- From `s` to `s'`, the vertices `added` are flagged and written: they are reached from the roots, and
-- with them the targets of all that is added are flagged.
pub record Explored (g : Graph) (Root : ℕ → Type 0) (s s' : Dfs) : Type 0 where
  pub added : List ℕ
  pub order_eq : s'.order ≡ s.order ++ added
  pub size : length s'.vis ≡ length s.vis
  pub less : unseen s'.vis ≤ unseen s.vis
  pub grows : (v : ℕ) → Marked s.vis v → Marked s'.vis v
  pub new : (v : ℕ) → Marked s'.vis v → Marked s.vis v ⊎ In v added
  pub marks : (v : ℕ) → In v added → Marked s'.vis v
  pub fresh : (v : ℕ) → In v added → ¬ Marked s.vis v
  pub distinct : Distinct added
  pub closed : (u v : ℕ) → In u added → Target v (edges g u) → Marked s'.vis v
  pub from : (v : ℕ) → In v added → (r : ℕ) × Root r × Reach g r v
  pub rooted : (r : ℕ) → Root r → Marked s'.vis r

Explored-nothing :
    (g : Graph) (Root : ℕ → Type 0) (s : Dfs)
    → ((r : ℕ) → Root r → Marked s.vis r)
    → Explored g Root s s
Explored-nothing g Root s h = record {
  added = [];
  order_eq = sym (append-nil s.order);
  size = refl;
  less = omega arith;
  grows = λ v m. m;
  new = λ v m. inl m;
  marks = λ v a. absurd a;
  fresh = λ v a. absurd a;
  distinct = tt;
  closed = λ u v a. absurd a;
  from = λ v a. absurd a;
  rooted = h;
}

-- One edge, and the edges behind it.
Explored-cons :
    (g : Graph) (e : GEdge) (es : List GEdge) (s m s' : Dfs)
    → Explored g (λ r. r ≡ e.to) s m
    → Explored g (λ r. Target r es) m s'
    → Explored g (λ r. Target r (e ∷ es)) s s'
Explored-cons g e es s m s' a b = record {
  added = a.added ++ b.added;
  order_eq = b.order_eq ∙ ap (λ t. t ++ b.added) a.order_eq ∙ append_assoc s.order a.added b.added;
  size = b.size ∙ a.size;
  less = omega (arith, a.less, b.less);
  grows = λ v k. b.grows v (a.grows v k);
  new = λ v k. elim (b.new v k) [
    | inl p ↦ elim (a.new v p) [ inl q ↦ inl q | inr q ↦ inr (In-append_left v a.added b.added q) ]
    | inr p ↦ inr (In-append_right v a.added b.added p)
  ];
  marks = λ v i. elim (In-append v a.added b.added i) [
    | inl p ↦ b.grows v (a.marks v p)
    | inr p ↦ b.marks v p
  ];
  fresh = λ v i k. elim (In-append v a.added b.added i) [
    | inl p ↦ a.fresh v p k
    | inr p ↦ b.fresh v p (a.grows v k)
  ];
  distinct =
      Distinct-append a.added b.added a.distinct b.distinct λ v p q. b.fresh v q (a.marks v p);
  closed = λ u v i t. elim (In-append u a.added b.added i) [
    | inl p ↦ b.grows v (a.closed u v p t)
    | inr p ↦ b.closed u v p t
  ];
  from = λ v i. elim (In-append v a.added b.added i) [
    | inl p ↦ let (r, q, w) = a.from v p in (r, inl (sym q), w)
    | inr p ↦ let (r, q, w) = b.from v p in (r, inr q, w)
  ];
  rooted = λ r t. elim t [ inl p ↦ b.grows r (a.rooted r (sym p)) | inr p ↦ b.rooted r p ];
}

-- A vertex, flagged and written first, and what is explored from its targets.
Explored-vertex :
    (g : Graph) (v : ℕ) (s s' : Dfs)
    → v < length s.vis
    → get_or s.vis v false ≡ false
    → Explored g
        (λ r. Target r (edges g v))
        (record { vis = set s.vis v true; order = s.order ++ v ∷ [] })
        s'
    → Explored g (λ r. r ≡ v) s s'
Explored-vertex g v s s' inside clear b = record {
  added = v ∷ b.added;
  order_eq = b.order_eq ∙ append_assoc s.order (v ∷ []) b.added;
  size = b.size ∙ length-set s.vis v true;
  less = omega (arith, b.less, unseen-set s.vis v inside clear);
  grows = λ w k. b.grows w (Marked-set_before s.vis v inside w k);
  new = λ w k. elim (b.new w k) [
    | inl p ↦ elim (Marked-set s.vis v inside w p) [ inl q ↦ inr (inl (sym q)) | inr q ↦ inl q ]
    | inr p ↦ inr (inr p)
  ];
  marks = λ w i. elim i [ inl p ↦ subst (Marked s'.vis) p self | inr p ↦ b.marks w p ];
  fresh =
      λ w i k. elim i [ inl p ↦ cc | inr p ↦ b.fresh w p (Marked-set_before s.vis v inside w k) ];
  distinct = (λ i. b.fresh v i (Marked-set_self s.vis v inside), b.distinct);
  closed = λ u w i t. elim i [
    | inl p ↦ b.rooted w (subst (λ x. Target w (edges g x)) (sym p) t)
    | inr p ↦ b.closed u w p t
  ];
  from = λ w i. elim i [
    | inl p ↦ (v, refl, subst (Reach g v) p here)
    | inr p ↦ let (r, t, walk) = b.from w p in (v, refl, Reach-trans (step here t) walk)
  ];
  rooted = λ r p. subst (Marked s'.vis) (sym p) self;
}
  where
    self : Marked s'.vis v
    self = b.grows v (Marked-set_self s.vis v inside)

module _ (g : Graph) (graph : IsGraph g) where
  -- What a call of `dfs_r` with `fuel` does to a vertex that is not flagged.
  abbrev pub Explores : ℕ → (ℕ → Dfs → Run Dfs) → Type 0
  Explores fuel visit =
      (v : ℕ) (s : Dfs)
      → length s.vis ≡ g.n
      → unseen s.vis ≤ fuel
      → v < g.n
      → get_or s.vis v false ≡ false
      → Returns (Explored g (λ r. r ≡ v) s) (visit v s)

  dfs_edges-Explored :
      (fuel : ℕ) (visit : ℕ → Dfs → Run Dfs)
      → Explores fuel visit
      → (es : List GEdge) (s : Dfs) → length s.vis ≡ g.n
      → unseen s.vis ≤ fuel
      → ((v : ℕ) → Target v es → v < g.n)
      → Returns (Explored g (λ r. Target r es) s) (dfs_edges visit es s)
  unfolding dfs_edges
  dfs_edges-Explored fuel visit explores [] s size few inside =
      returns (Explored-nothing g (λ r. Target r []) s λ r t. absurd t)
  dfs_edges-Explored fuel visit explores (e ∷ es) s size few inside =
      rw (load-ok s.vis e.to false (omega (arith, size, inside e.to (inl refl)))) (
        Returns-bind one λ m a.
          Returns-map
            (dfs_edges-Explored fuel visit explores es m (a.size ∙ size)
              (omega (arith, a.less, few)) λ v t. inside v (inr t))
            λ s' b. Explored-cons g e es s m s' a b)
    where
      one :
          Returns
            (Explored g (λ r. r ≡ e.to) s)
            (if get_or s.vis e.to false then ok s else visit e.to s)
      one = elim (Bool-cases (get_or s.vis e.to false)) [
        | inl seen ↦ rw seen (
            returns (Explored-nothing g (λ r. r ≡ e.to) s λ r p. subst (Marked s.vis) (sym p) seen))
        | inr clear ↦ rw clear (explores e.to s size few (inside e.to (inl refl)) clear)
      ]

  pub dfs_r-Explored : (fuel : ℕ) → Explores fuel (dfs_r fuel g)
  unfolding dfs_r
  dfs_r-Explored zero v s size few inside clear =
      absurd
        (omega (arith, few, size, inside, unseen-set s.vis v (omega (arith, size, inside)) clear))
  dfs_r-Explored (suc fuel) v s size few inside clear =
      let within : v < length s.vis = omega (arith, size, inside) in
      rw (store-ok s.vis v true within, load-ok g.adj v [] (omega (arith, graph.size, inside)))
        (Returns-map
          (dfs_edges-Explored fuel (dfs_r fuel g) (dfs_r-Explored fuel) (edges g v)
            (record { vis = set s.vis v true; order = s.order ++ v ∷ [] })
            (length-set s.vis v true ∙ size) (omega (arith, few, unseen-set s.vis v within clear))
            (graph.inside v))
          λ s' b. Explored-vertex g v s s' within clear b)
