-- ===== src/Graph/AdjacencyList/Sort/Order.antt =====
-- The order that `graph_topological_sort` makes, and its answer.
use dsa_guide.Prelude.{
  ℕ, zero, suc, ◌+◌, ◌<◌, ◌≡◌, inl, inr, refl, sym, ap, subst, ◌∙◌, Bool, true, false, List, [],
  ◌∷◌, map, length, get_or, get_or-set_self, get_or-set_ne, length-set, length-replicate, replicate,
  load-ok, store-ok, Returns, returns, Returns-bind, Returns-map, ℕ_discrete, arith, ℤ, pos, ◌+ℤ◌,
  as_int, as_int-pos, ◌^◌, set, ◌==◌, ok,
}
use dsa_guide.Graph.AdjacencyList.{GEdge, Graph}
use dsa_guide.Graph.AdjacencyList.Walks.{Target, edges, IsGraph}
use dsa_guide.Graph.AdjacencyList.Marks.{In}
use dsa_guide.Graph.Kahn.Degrees.{count, due}
use dsa_guide.Graph.Kahn.Order.{IsSort, kahn-IsSort}
use dsa_guide.Graph.AdjacencyList.Sort.{count_edges, count_all, targets, graph_topological_sort}

abbrev heads : List GEdge → List ℕ
heads es = map (λ e. e.to) es

-- The targets of each vertex.
abbrev pub rows : Graph → List (List ℕ)
rows g = map heads g.adj

-- How many edges lead to `v`.
abbrev pub in_degree : Graph → ℕ → ℕ
in_degree g v = due v (rows g) (replicate (length g.adj) false)

get_or-heads :
    (adj : List (List GEdge)) (u : ℕ) → get_or (map heads adj) u [] ≡ heads (get_or adj u [])
get_or-heads [] u = refl
get_or-heads (es ∷ adj) zero = refl
get_or-heads (es ∷ adj) (suc u) = get_or-heads adj u

In-heads : (v : ℕ) (es : List GEdge) → In v (heads es) → Target v es
In-heads v [] a = a
In-heads v (e ∷ es) (inl q) = inl q
In-heads v (e ∷ es) (inr a) = inr (In-heads v es a)

length-heads : (adj : List (List GEdge)) → length (map heads adj) ≡ length adj
length-heads [] = refl
length-heads (es ∷ adj) = ap suc (length-heads adj)

-- Cell v of the counts is `k v`.
record Counts (n : ℕ) (k : ℕ → ℕ) (indeg : List ℤ) : Type 0 where
  pub size : length indeg ≡ n
  pub cell : (v : ℕ) → v < n → get_or indeg v (pos 0) ≡ pos (k v)

one_more : (k c : ℕ) → pos k +ℤ pos 1 ≡ pos (k + 1)
unfolding ◌+ℤ◌
one_more k c = ground arith

get_or_at :
    {u v : ℕ}
    → u ≡ v
    → (indeg : List ℤ) (d : ℤ) → u < length indeg
    → get_or (set indeg u d) v (pos 0) ≡ d
get_or_at {u} q indeg d h =
    subst (λ w. get_or (set indeg u d) w (pos 0) ≡ d) q (get_or-set_self indeg u d (pos 0) h)

module _ (n : ℕ) where
  count_edges-Counts :
      (es : List GEdge) (k : ℕ → ℕ) (indeg : List ℤ)
      → Counts n k indeg
      → ((v : ℕ) → Target v es → v < n)
      → ((v : ℕ) → v < n → k v + count v (heads es) < 2 ^ 31)
      → Returns (Counts n (λ v. k v + count v (heads es))) (count_edges es indeg)
  unfolding count_edges
  count_edges-Counts [] k indeg c inside few =
      returns (record { size = c.size; cell = λ v h. c.cell v h ∙ ap pos (omega arith) })
  count_edges-Counts (e ∷ es) k indeg c inside few =
      let here : e.to < n = inside e.to (inl refl) in
      let within : e.to < length indeg = omega (arith, here, c.size) in
      let d_eq = ap (λ d. d +ℤ pos 1) (c.cell e.to here) ∙ one_more (k e.to) 0 in
      let room : k e.to + 1 < 2 ^ 31 = ground (arith, few e.to here) in
      let more_ok = ap as_int d_eq ∙ as_int-pos (k e.to + 1) room ∙ ap ok (sym d_eq) in
      rw
        (
          load-ok indeg e.to (pos 0) within,
          more_ok,
          store-ok indeg e.to (get_or indeg e.to (pos 0) +ℤ pos 1) within,
        )
        (Returns-map
          (count_edges-Counts es (λ v. k v + count v (e.to ∷ []))
            (set indeg e.to (get_or indeg e.to (pos 0) +ℤ pos 1))
            (record {
              size = length-set indeg e.to _ ∙ c.size;
              cell = λ v h. elim (ℕ_discrete e.to v) [
                | yes q ↦
                    get_or_at q indeg (get_or indeg e.to (pos 0) +ℤ pos 1) within
                    ∙ d_eq
                    ∙ ap pos (ground (arith, q))
                | no ne ↦
                    get_or-set_ne indeg e.to v _ (pos 0) ne
                    ∙ c.cell v h
                    ∙ ap pos (ground (arith, ne))
              ];
            })
            (λ v t. inside v (inr t)) (λ v h. ground (arith, few v h)))
          λ r q. record { size = q.size; cell = λ v h. q.cell v h ∙ ap pos (ground arith) })

  count_all-Counts :
      (adj : List (List GEdge)) (k : ℕ → ℕ) (indeg : List ℤ)
      → Counts n k indeg
      → ((u v : ℕ) → Target v (get_or adj u []) → v < n)
      → ((v : ℕ) → v < n → k v + due v (map heads adj) (replicate (length adj) false) < 2 ^ 31)
      → Returns
          (Counts n (λ v. k v + due v (map heads adj) (replicate (length adj) false)))
          (count_all adj indeg)
  unfolding count_all
  count_all-Counts [] k indeg c inside few =
      returns (record { size = c.size; cell = λ v h. c.cell v h ∙ ap pos (omega arith) })
  count_all-Counts (es ∷ adj) k indeg c inside few =
      Returns-bind (count_edges-Counts es k indeg c (inside 0) (λ v h. omega (arith, few v h)))
        λ m a.
          Returns-map
            (count_all-Counts adj (λ v. k v + count v (heads es)) m a (λ u. inside (suc u))
              (λ v h. omega (arith, few v h)))
            λ r q. record { size = q.size; cell = λ v h. q.cell v h ∙ ap pos (omega arith) }

get_or-zeros : (n v : ℕ) → get_or (replicate n (pos 0)) v (pos 0) ≡ pos 0
get_or-zeros zero v = refl
get_or-zeros (suc n) zero = refl
get_or-zeros (suc n) (suc v) = get_or-zeros n v

targets-rows : (g : Graph) (v : ℕ) → v < length g.adj → targets g v ≡ ok (get_or (rows g) v [])
unfolding targets
targets-rows g v h = rw (load-ok g.adj v [] h) (ap ok (sym (get_or-heads g.adj v)))

-- `is_dag`: whether the order has all vertices.
pub data Answer (n : ℕ) (l : List ℕ) : Bool → Type 0 where
  all_in : ((v : ℕ) → v < n → In v l) → Answer n l true
  some_out : ¬ ((v : ℕ) → v < n → In v l) → Answer n l false

IsSort-Answer :
    (n : ℕ) (sources : List (List ℕ)) (l : List ℕ) → IsSort n sources l → Answer n l (length l == n)
IsSort-Answer n sources l i = elim (ℕ_discrete (length l) n) [
  | yes e ↦
      let true_eq : (length l == n) ≡ true = ground (arith, e) in rw true_eq (all_in (i.full e))
  | no ne ↦
      let false_eq : (length l == n) ≡ false = ground (arith, ne) in
      rw false_eq (some_out (λ all. ne (i.counted all)))
]

-- On a graph whose edges stay inside, with fewer than 2^31 edges into each vertex, `graph_topological_sort` returns, and its queue is never written past
-- its n cells. The order it returns has no vertex twice, and each vertex behind all those with an edge to it; a
-- vertex is left out only if some vertex with an edge to it is left out too. `is_dag` is true if the order has
-- all vertices, and false if it does not.
pub graph_topological_sort-IsSort :
    (g : Graph)
    → IsGraph g
    → ((v : ℕ) → v < g.n → in_degree g v < 2 ^ 31)
    → Returns (λ r. IsSort g.n (rows g) r.0 × Answer g.n r.0 r.1) (graph_topological_sort g)
unfolding graph_topological_sort
graph_topological_sort-IsSort g graph few =
    let zeros : Counts g.n (λ v. 0) (replicate g.n (pos 0)) = record {
      size = length-replicate g.n (pos 0);
      cell = λ v h. get_or-zeros g.n v;
    } in
    let inside : (u v : ℕ) → In v (get_or (rows g) u []) → v < g.n =
      λ u v a. graph.inside u v (In-heads v (edges g u) (subst (In v) (get_or-heads g.adj u) a)) in
    Returns-bind
      (count_all-Counts g.n g.adj (λ v. 0) _ zeros graph.inside (λ v h. omega (arith, few v h)))
      λ indeg c.
        Returns-bind
          (kahn-IsSort g.n (rows g) (targets g) indeg (length-heads g.adj ∙ graph.size) inside
            (λ v h. targets-rows g v (omega (arith, h, graph.size))) c.size
            (λ v h.
              c.cell v h
              ∙ subst
                  (λ m.
                    pos (0 + due v (rows g) (replicate (length g.adj) false))
                    ≡ pos (due v (rows g) (replicate m false)))
                  graph.size (ap pos (omega arith)))
            (λ v h. subst (λ m. due v (rows g) (replicate m false) < 2 ^ 31) graph.size (few v h)))
          λ order i. returns (i, IsSort-Answer g.n (rows g) order i)
