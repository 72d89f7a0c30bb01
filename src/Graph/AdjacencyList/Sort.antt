-- ===== src/Graph/AdjacencyList/Sort.antt =====
-- `graph_topological_sort`.
pub mod Order
use dsa_guide.Prelude.{
  ℕ, zero, suc, ◌+◌, Bool, List, [], ◌∷◌, map, ◌==◌, ℤ, pos, ◌+ℤ◌, as_int, length, replicate, Run,
  ok, ◌>>=◌, load, store,
}
use dsa_guide.Graph.Kahn.{kahn}
use dsa_guide.Graph.AdjacencyList.{GEdge, Graph}

-- The loops that count the edges into each vertex.
pub count_edges : List GEdge → List ℤ → Run (List ℤ)
count_edges [] indeg = ok indeg
count_edges (e ∷ es) indeg = do
  d ← load indeg e.to
  more ← as_int (d +ℤ pos 1)
  after ← store indeg e.to more
  count_edges es after

pub count_all : List (List GEdge) → List ℤ → Run (List ℤ)
count_all [] indeg = ok indeg
count_all (es ∷ adj) indeg = do after ← count_edges es indeg; count_all adj after

pub targets : Graph → ℕ → Run (List ℕ)
targets g v = do es ← load g.adj v; ok (map (λ e. e.to) es)

-- The order, and whether it has all vertices.
pub graph_topological_sort : Graph → Run (List ℕ × Bool)
graph_topological_sort g = do
  indeg ← count_all g.adj (replicate g.n (pos 0))
  order ← kahn g.n (targets g) indeg
  ok (order, length order == g.n)
