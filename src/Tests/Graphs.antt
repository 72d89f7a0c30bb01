-- ===== src/Tests/Graphs.antt =====
-- src/graph/graph.c at concrete inputs.
use dsa_guide.Prelude.{
  ℕ, zero, suc, ◌<◌, ◌^◌, ◌≡◌, inl, inr, refl, subst, true, false, [], ◌∷◌, pos, get_or, Returns,
  arith,
}
use dsa_guide.Graph.AdjacencyList.{GEdge, Graph}
use dsa_guide.Graph.AdjacencyList.Walks.{Target, edges, IsGraph, Reach, Visits}
use dsa_guide.Graph.AdjacencyList.Bfs.{graph_bfs}
use dsa_guide.Graph.AdjacencyList.Bfs.Order.{graph_bfs-Visits}
use dsa_guide.Graph.AdjacencyList.Sort.{graph_topological_sort}
use dsa_guide.Graph.AdjacencyList.Sort.Order.{
  rows, Answer, in_degree, graph_topological_sort-IsSort,
}
use dsa_guide.Graph.Kahn.Order.{IsSort}
use dsa_guide.Graph.AdjacencyList.Dfs.{graph_dfs, graph_connected_components}
use dsa_guide.Graph.AdjacencyList.Dfs.Order.{graph_dfs-Visits}
use dsa_guide.Graph.AdjacencyList.Dfs.Labels.{IsSymmetric, graph_connected_components-labels}

abbrev edge : ℕ → GEdge
edge v = record { to = v; weight = pos 1 }

-- An edge between 0 and 1, and the vertex 2 alone.
abbrev two_parts : Graph
two_parts = record { adj = (edge 1 ∷ []) ∷ (edge 0 ∷ []) ∷ [] ∷ []; n = 3; directed = false }

two_parts-inside : (u v : ℕ) → Target v (edges two_parts u) → v < 3
two_parts-inside zero v t = elim t [ inl e ↦ omega (arith, e) | inr a ↦ absurd a ]
two_parts-inside (suc zero) v t = elim t [ inl e ↦ omega (arith, e) | inr a ↦ absurd a ]
two_parts-inside (suc (suc zero)) v t = absurd t
two_parts-inside (suc (suc (suc u))) v t = absurd t

two_parts-IsGraph : IsGraph two_parts
two_parts-IsGraph = record { size = refl; inside = two_parts-inside }

two_parts-IsSymmetric : IsSymmetric two_parts
two_parts-IsSymmetric zero v t = elim t [
  | inl e ↦ subst (λ w. Target 0 (edges two_parts w)) e (inl refl)
  | inr a ↦ absurd a
]
two_parts-IsSymmetric (suc zero) v t = elim t [
  | inl e ↦ subst (λ w. Target 1 (edges two_parts w)) e (inl refl)
  | inr a ↦ absurd a
]
two_parts-IsSymmetric (suc (suc zero)) v t = absurd t
two_parts-IsSymmetric (suc (suc (suc u))) v t = absurd t

graph_bfs-Visits_example : Returns (Visits two_parts 0) (graph_bfs two_parts 0)
graph_bfs-Visits_example = graph_bfs-Visits two_parts 0 two_parts-IsGraph (omega arith)

graph_dfs-Visits_example : Returns (Visits two_parts 0) (graph_dfs two_parts 0)
graph_dfs-Visits_example = graph_dfs-Visits two_parts 0 two_parts-IsGraph (omega arith)

graph_connected_components-labels_example :
    Returns
      (λ (labels, nc).
        ((u : ℕ) → u < 3 → get_or labels u 0 < nc)
        × ((u v : ℕ) → u < 3 → v < 3 → get_or labels u 0 ≡ get_or labels v 0 → Reach two_parts u v)
        × ((u v : ℕ) → u < 3 → Reach two_parts u v → get_or labels u 0 ≡ get_or labels v 0))
      (graph_connected_components two_parts (9 ∷ 9 ∷ 9 ∷ []))
graph_connected_components-labels_example =
    graph_connected_components-labels two_parts two_parts-IsGraph two_parts-IsSymmetric
      (9 ∷ 9 ∷ 9 ∷ []) refl

-- Edges from 0 to 1 and 2, and from 1 to 2.
abbrev stages : Graph
stages = record { adj = (edge 1 ∷ edge 2 ∷ []) ∷ (edge 2 ∷ []) ∷ [] ∷ []; n = 3; directed = true }

stages-inside : (u v : ℕ) → Target v (edges stages u) → v < 3
stages-inside zero v t = elim t [
  | inl e ↦ omega (arith, e)
  | inr a ↦ elim a [ inl e ↦ omega (arith, e) | inr b ↦ absurd b ]
]
stages-inside (suc zero) v t = elim t [ inl e ↦ omega (arith, e) | inr a ↦ absurd a ]
stages-inside (suc (suc zero)) v t = absurd t
stages-inside (suc (suc (suc u))) v t = absurd t

stages-few : (v : ℕ) → v < 3 → in_degree stages v < 2 ^ 31
stages-few zero h = omega arith
stages-few (suc zero) h = omega arith
stages-few (suc (suc v)) h = ground (arith, h)

graph_topological_sort-IsSort_example :
    Returns (λ r. IsSort 3 (rows stages) r.0 × Answer 3 r.0 r.1) (graph_topological_sort stages)
graph_topological_sort-IsSort_example =
    graph_topological_sort-IsSort stages (record { size = refl; inside = stages-inside }) stages-few
