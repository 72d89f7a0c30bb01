-- ===== src/Graph/AdjacencyList.antt =====
-- src/graph/graph.c: graphs as chains of edges, one for each vertex. Vertices are `int`s from 0 on.
pub mod Marks
pub mod Walks
pub mod Bfs
pub mod Dfs
pub mod Sort
pub mod Cycle
pub mod Distances
use dsa_guide.Prelude.{
  ℕ, Bool, List, [], ◌∷◌, ℤ, Run, ok, ◌>>=◌, load, store, if◌then◌else◌, replicate,
}

pub record GEdge : Type 0 where
  pub to : ℕ
  pub weight : ℤ

pub record Graph : Type 0 where
  pub adj : List (List GEdge)
  pub n : ℕ
  pub directed : Bool

pub graph_create : ℕ → Bool → Graph
graph_create n directed = record { adj = replicate n []; n = n; directed = directed }

-- A new edge in front of the chain of `u`.
abbrev pub push_edge : List (List GEdge) → ℕ → ℕ → ℤ → Run (List (List GEdge))
push_edge adj u v weight = do
  edges ← load adj u
  store adj u (record { to = v; weight = weight } ∷ edges)

pub graph_add_edge : Graph → ℕ → ℕ → ℤ → Run Graph
graph_add_edge g u v weight = do
  adj ← push_edge g.adj u v weight
  both ← (if g.directed then ok adj else push_edge adj v u weight)
  ok (record g { adj = both })
