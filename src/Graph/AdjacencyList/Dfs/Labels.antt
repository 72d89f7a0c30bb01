-- ===== src/Graph/AdjacencyList/Dfs/Labels.antt =====
-- `graph_connected_components` labels the vertices of an undirected graph.
use dsa_guide.Prelude.{
  ℕ, zero, suc, ◌+◌, ◌<◌, ◌≡◌, inl, inr, refl, sym, ◌∙◌, subst, false, List, [], ◌∷◌, if◌then◌else◌,
  Bool-cases, length, length-set, length-replicate, replicate, set, get_or, get_or-set_self,
  get_or-set_ne, ℕ_discrete, load-ok, store-ok, ok, Returns, returns, Returns-bind, Returns-map,
  arith,
}
use dsa_guide.Graph.AdjacencyList.{Graph}
use dsa_guide.Graph.AdjacencyList.Walks.{Target, edges, IsGraph, Reach, here, step, Reach-trans}
use dsa_guide.Graph.AdjacencyList.Marks.{unseen-le, Marked, Marked-lt, Marked-blank, In, In-cases}
use dsa_guide.Graph.AdjacencyList.Dfs.{
  Dfs, Components, label_loop, component, components_loop, graph_connected_components,
}
use dsa_guide.Graph.AdjacencyList.Dfs.Explored.{Explored, dfs_r-Explored}

record Labelled (ord : List ℕ) (nc : ℕ) (comp after : List ℕ) : Type 0 where
  size : length after ≡ length comp
  inside : (v : ℕ) → In v ord → get_or after v 0 ≡ nc
  outside : (v : ℕ) → ¬ In v ord → get_or after v 0 ≡ get_or comp v 0

label_loop-Labelled :
    (ord : List ℕ) (nc : ℕ) (comp : List ℕ)
    → ((v : ℕ) → In v ord → v < length comp)
    → Returns (Labelled ord nc comp) (label_loop ord nc comp)
unfolding label_loop
label_loop-Labelled [] nc comp h =
    returns (record { size = refl; inside = λ v i. absurd i; outside = λ v i. refl })
label_loop-Labelled (x ∷ ord) nc comp h =
    let within = h x (inl refl) in
    let size = length-set comp x nc in
    rw (store-ok comp x nc within) (
      Returns-map
        (label_loop-Labelled ord nc (set comp x nc) λ v i. omega (arith, h v (inr i), size))
        λ after l. record {
          size = l.size ∙ size;
          inside = λ v i. elim i [
            | inl e ↦ subst (λ w. get_or after w 0 ≡ nc) e (first after l within)
            | inr j ↦ l.inside v j
          ];
          outside =
              λ v i. l.outside v (λ j. i (inr j)) ∙ get_or-set_ne comp x v nc 0 (λ e. i (inl e));
        })
  where
    first :
        (after : List ℕ)
        → Labelled ord nc (set comp x nc) after
        → x < length comp
        → get_or after x 0 ≡ nc
    first after l within = elim (In-cases x ord) [
      | inl i ↦ l.inside x i
      | inr i ↦ l.outside x i ∙ get_or-set_self comp x nc 0 within
    ]

-- What the flagged vertices know: their labels are below `nc`, equal along edges, and equal only where
-- a walk leads.
record Inv (g : Graph) (c : Components) : Type 0 where
  size : length c.vis ≡ g.n
  comp_size : length c.comp ≡ g.n
  closed : (u v : ℕ) → Marked c.vis u → Target v (edges g u) → Marked c.vis v
  below : (u : ℕ) → Marked c.vis u → get_or c.comp u 0 < c.nc
  joined :
      (u v : ℕ)
      → Marked c.vis u
      → Marked c.vis v
      → get_or c.comp u 0 ≡ get_or c.comp v 0
      → Reach g u v
  shared : (u v : ℕ) → Marked c.vis u → Target v (edges g u) → get_or c.comp u 0 ≡ get_or c.comp v 0

-- Each edge has its reverse.
abbrev pub IsSymmetric : Graph → Type 0
IsSymmetric g = (u v : ℕ) → Target v (edges g u) → Target u (edges g v)

module _ (g : Graph) (graph : IsGraph g) (symmetric : IsSymmetric g) where
  Reach-symm : {u v : ℕ} → Reach g u v → Reach g v u
  Reach-symm here = here
  Reach-symm (step {u = w} {v = x} r t) = Reach-trans (step here (symmetric w x t)) (Reach-symm r)

  component-Inv :
      (i : ℕ) (c : Components) (s : Dfs) (comp : List ℕ)
      → Inv g c
      → Explored g (λ r. r ≡ i) (record { vis = c.vis; order = [] }) s
      → Labelled s.order c.nc c.comp comp
      → Inv g (record { vis = s.vis; comp = comp; nc = c.nc + 1 })
  component-Inv i c s comp v x l = record {
    size = x.size ∙ v.size;
    comp_size = l.size ∙ v.comp_size;
    closed = λ a b m t. elim (x.new a m) [
      | inl k ↦ x.grows b (v.closed a b k t)
      | inr k ↦ x.closed a b k t
    ];
    below = λ a m. elim (x.new a m) [
      | inl k ↦ omega (arith, old a k, v.below a k)
      | inr k ↦ omega (arith, fresh a k)
    ];
    joined = λ a b ma mb e. elim (x.new a ma) [
      | inl p ↦ elim (x.new b mb) [
        | inl q ↦ v.joined a b p q (sym (old a p) ∙ e ∙ old b q)
        | inr q ↦ absurd (omega (arith, e, old a p, v.below a p, fresh b q))
      ]
      | inr p ↦ elim (x.new b mb) [
        | inl q ↦ absurd (omega (arith, e, old b q, v.below b q, fresh a p))
        | inr q ↦ Reach-trans (Reach-symm (walk a p)) (walk b q)
      ]
    ];
    shared = λ a b m t. elim (x.new a m) [
      | inl p ↦ old a p ∙ v.shared a b p t ∙ sym (old b (v.closed a b p t))
      | inr p ↦ elim (x.new b (x.closed a b p t)) [
        | inl q ↦ absurd (x.fresh a p (v.closed b a q (symmetric a b t)))
        | inr q ↦ fresh a p ∙ sym (fresh b q)
      ]
    ];
  }
    where
      fresh : (a : ℕ) → In a x.added → get_or comp a 0 ≡ c.nc
      fresh a p = l.inside a (subst (In a) (sym x.order_eq) p)

      old : (a : ℕ) → Marked c.vis a → get_or comp a 0 ≡ get_or c.comp a 0
      old a k = l.outside a (λ p. x.fresh a (subst (In a) x.order_eq p) k)

      walk : (a : ℕ) → In a x.added → Reach g i a
      walk a p = let (r, e, w) = x.from a p in subst (λ r. Reach g r a) e w

  -- One vertex of the loop: the vertices that were flagged stay so, and `i` is flagged.
  record Advanced (i : ℕ) (c c' : Components) : Type 0 where
    inv : Inv g c'
    grows : (v : ℕ) → Marked c.vis v → Marked c'.vis v
    here_too : Marked c'.vis i

  advance :
      (i : ℕ) (c : Components)
      → Inv g c
      → i < g.n
      → Returns (Advanced i c) (if get_or c.vis i false then ok c else component g i c)
  unfolding component
  advance i c v inside = elim (Bool-cases (get_or c.vis i false)) [
    | inl seen ↦ rw seen (returns (record { inv = v; grows = λ a m. m; here_too = seen }))
    | inr clear ↦ rw clear (
        Returns-bind
          (dfs_r-Explored g graph g.n i (record { vis = c.vis; order = [] }) v.size
            (omega (arith, unseen-le c.vis, v.size)) inside clear)
          λ s x.
            Returns-bind
              (label_loop-Labelled s.order c.nc c.comp λ a k. omega (
                arith,
                v.comp_size,
                v.size,
                x.size,
                Marked-lt s.vis a (x.marks a (subst (In a) x.order_eq k)),
              ))
              λ comp l. returns (record {
                inv = component-Inv i c s comp v x l;
                grows = x.grows;
                here_too = x.rooted i refl;
              }))
  ]

  components_loop-Inv :
      (k i : ℕ) (c : Components)
      → Inv g c
      → i + k ≡ g.n
      → ((v : ℕ) → v < i → Marked c.vis v)
      → Returns (λ c'. Inv g c' × ((v : ℕ) → v < g.n → Marked c'.vis v)) (components_loop k i g c)
  unfolding components_loop
  components_loop-Inv zero i c v e done = returns (v, λ a h. done a (omega (arith, e, h)))
  components_loop-Inv (suc k) i c v e done = rw (load-ok c.vis i false (omega (arith, e, v.size))) (
      Returns-bind (advance i c v (omega (arith, e))) λ c' a.
        components_loop-Inv k (i + 1) c' a.inv (omega (arith, e)) λ w h. elim (ℕ_discrete i w) [
          | yes q ↦ subst (Marked c'.vis) q a.here_too
          | no ne ↦ a.grows w (done w (omega (arith, h, ne)))
        ])

  -- With an edge for the reverse of each edge, and `comp` an array of n cells: the call returns. Every
  -- label is then below the number of components that it returns, and two vertices have one label
  -- exactly when a walk leads from one to the other.
  pub graph_connected_components-labels :
      (comp : List ℕ)
      → length comp ≡ g.n
      → Returns
          (λ (labels, nc).
            ((u : ℕ) → u < g.n → get_or labels u 0 < nc)
            × ((u v : ℕ) → u < g.n → v < g.n → get_or labels u 0 ≡ get_or labels v 0 → Reach g u v)
            × ((u v : ℕ) → u < g.n → Reach g u v → get_or labels u 0 ≡ get_or labels v 0))
          (graph_connected_components g comp)
  unfolding graph_connected_components
  graph_connected_components-labels comp size =
      Returns-bind
        (components_loop-Inv g.n 0 (record { vis = replicate g.n false; comp = comp; nc = 0 })
          (record {
            size = length-replicate g.n false;
            comp_size = size;
            closed = λ u v m. absurd (Marked-blank g.n u m);
            below = λ u m. absurd (Marked-blank g.n u m);
            joined = λ u v m. absurd (Marked-blank g.n u m);
            shared = λ u v m. absurd (Marked-blank g.n u m);
          })
          (omega arith) (λ v h. absurd (omega (arith, h))))
        λ c (v, all). returns (
          λ u h. v.below u (all u h),
          λ u w a b e. v.joined u w (all u a) (all w b) e,
          λ u w a r. (along c v all u a r).1,
        )
    where
      along :
          (c : Components)
          → Inv g c
          → ((v : ℕ) → v < g.n → Marked c.vis v)
          → (u : ℕ) → u < g.n
          → {w : ℕ} → Reach g u w
          → (w < g.n) × (get_or c.comp u 0 ≡ get_or c.comp w 0)
      along c v all u a here = (a, refl)
      along c v all u a (step {u = x} {v = w} r t) =
          let (inside, e) = along c v all u a r in
          (graph.inside x w t, e ∙ v.shared x w (all x inside) t)
