-- ===== src/Graph/AdjacencyList/Dfs.antt =====
-- The depth-first walks of src/graph/graph.c: `graph_dfs` and `graph_connected_components`.
pub mod Explored
pub mod Order
pub mod Labels
use dsa_guide.Prelude.{
  ℕ, zero, suc, ◌+◌, Bool, true, false, List, [], ◌∷◌, ◌++◌, ltb, if◌then◌else◌, replicate, Run, ok,
  undefined, out_of_fuel, ◌>>=◌, load, store,
}
use dsa_guide.Graph.AdjacencyList.{GEdge, Graph}

-- The flags, and the part of `order` that is written.
pub record Dfs : Type 0 where
  pub vis : List Bool
  pub order : List ℕ

-- The loop of `dfs_r` over the edges; `visit` is the recursive call.
pub dfs_edges : (ℕ → Dfs → Run Dfs) → List GEdge → Dfs → Run Dfs
dfs_edges visit [] s = ok s
dfs_edges visit (e ∷ es) s = do
  seen ← load s.vis e.to
  s' ← (if seen then ok s else visit e.to s)
  dfs_edges visit es s'

pub dfs_r : ℕ → Graph → ℕ → Dfs → Run Dfs
dfs_r zero g v s = out_of_fuel
dfs_r (suc fuel) g v s = do
  vis ← store s.vis v true
  es ← load g.adj v
  dfs_edges (dfs_r fuel g) es (record { vis = vis; order = s.order ++ v ∷ [] })

-- A call sets a flag, so that n calls inside one another are enough.
pub graph_dfs : Graph → ℕ → Run (List ℕ)
graph_dfs g src = do
  s ← dfs_r g.n g src (record { vis = replicate g.n false; order = [] })
  ok s.order

-- `comp[ord[j]]=nc` for all that the walk wrote.
pub label_loop : List ℕ → ℕ → List ℕ → Run (List ℕ)
label_loop [] nc comp = ok comp
label_loop (v ∷ ord) nc comp = do after ← store comp v nc; label_loop ord nc after

pub record Components : Type 0 where
  pub vis : List Bool
  pub comp : List ℕ
  pub nc : ℕ

-- A new component, from the vertex `i`.
pub component : Graph → ℕ → Components → Run Components
component g i c = do
  s ← dfs_r g.n g i (record { vis = c.vis; order = [] })
  comp ← label_loop s.order c.nc c.comp
  ok (record { vis = s.vis; comp = comp; nc = c.nc + 1 })

-- The loop over the vertices from `i` on, with `k` left.
pub components_loop : ℕ → ℕ → Graph → Components → Run Components
components_loop zero i g c = ok c
components_loop (suc k) i g c = do
  seen ← load c.vis i
  c' ← (if seen then ok c else component g i c)
  components_loop k (i + 1) g c'

-- What is written to `comp`, and the number of components.
pub graph_connected_components : Graph → List ℕ → Run (List ℕ × ℕ)
graph_connected_components g comp = do
  c ← components_loop g.n 0 g (record { vis = replicate g.n false; comp = comp; nc = 0 })
  ok (c.comp, c.nc)
