-- ===== src/Graph/AdjacencyList/Dfs/Order.antt =====
-- What `graph_dfs` visits.
use dsa_guide.Prelude.{
  ℕ, ◌<◌, ◌≡◌, inl, inr, refl, sym, subst, false, [], length-replicate, replicate, Returns,
  Returns-bind, returns, arith,
}
use dsa_guide.Graph.AdjacencyList.{Graph}
use dsa_guide.Graph.AdjacencyList.Walks.{IsGraph, Reach, here, step, Visits}
use dsa_guide.Graph.AdjacencyList.Marks.{unseen-replicate, get_or-blank, Marked-blank, In, Distinct}
use dsa_guide.Graph.AdjacencyList.Dfs.{Dfs, graph_dfs}
use dsa_guide.Graph.AdjacencyList.Dfs.Explored.{Explored, dfs_r-Explored}

whole_walk :
    (g : Graph) (src : ℕ) (s : Dfs)
    → Explored g (λ r. r ≡ src) (record { vis = replicate g.n false; order = [] }) s
    → Visits g src s.order
whole_walk g src s x = record {
  distinct = subst Distinct (sym x.order_eq) x.distinct;
  reached =
      λ v i. let (r, p, w) = x.from v (subst (In v) x.order_eq i) in subst (λ a. Reach g a v) p w;
  all = λ v r. subst (In v) (sym x.order_eq) (visited r);
}
  where
    visited : {v : ℕ} → Reach g src v → In v x.added
    visited here = elim (x.new src (x.rooted src refl)) [
      | inl m ↦ absurd (Marked-blank g.n src m)
      | inr i ↦ i
    ]
    visited (step {u} {v} r t) = elim (x.new v (x.closed u v (visited r) t)) [
      | inl m ↦ absurd (Marked-blank g.n v m)
      | inr i ↦ i
    ]

-- From a vertex of a graph whose edges stay inside, `graph_dfs` returns: n calls of `dfs_r` inside one
-- another are enough. The order it returns has each vertex once, and just those to which a walk from
-- `src` leads.
pub graph_dfs-Visits :
    (g : Graph) (src : ℕ) → IsGraph g → src < g.n → Returns (Visits g src) (graph_dfs g src)
unfolding graph_dfs
graph_dfs-Visits g src graph inside =
    Returns-bind
      (dfs_r-Explored g graph g.n src (record { vis = replicate g.n false; order = [] })
        (length-replicate g.n false) (omega (arith, unseen-replicate g.n)) inside
        (get_or-blank g.n src))
      λ s x. returns (whole_walk g src s x)
