-- ===== src/Graph/AdjacencyList/Bfs.antt =====
-- `graph_bfs`. The queue array is what was taken out of it, with `pending` behind.
pub mod Scan
pub mod Order
use dsa_guide.Prelude.{
  ℕ, zero, suc, ◌+◌, Bool, true, false, List, [], ◌∷◌, ◌++◌, ltb, if◌then◌else◌, replicate, Run, ok,
  undefined, out_of_fuel, ◌>>=◌, load, store,
}
use dsa_guide.Graph.AdjacencyList.{GEdge, Graph}

pub record Bfs : Type 0 where
  pub vis : List Bool
  pub pending : List ℕ
  pub back : ℕ
  pub order : List ℕ

-- `vis[v]=true; q[back++]=v;` where the queue has `n` cells.
pub enqueue : ℕ → Bfs → ℕ → Run Bfs
enqueue n s v = do
  vis ← store s.vis v true
  let s' : Bfs = record s { vis = vis; pending = s.pending ++ v ∷ []; back = s.back + 1 }
  if ltb s.back n then ok s' else undefined

-- The loop over the edges of one vertex.
pub scan : ℕ → List GEdge → Bfs → Run Bfs
scan n [] s = ok s
scan n (e ∷ es) s = do
  seen ← load s.vis e.to
  s' ← (if seen then ok s else enqueue n s e.to)
  scan n es s'

-- The `while` loop, which takes each vertex out of the queue at most once.
pub bfs_loop : ℕ → Graph → Bfs → Run Bfs
bfs_loop zero g s = out_of_fuel
bfs_loop (suc fuel) g s = elim s.pending [
  | [] ↦ ok s
  | v ∷ rest ↦ do
    es ← load g.adj v
    s' ← scan g.n es (record s { pending = rest; order = s.order ++ v ∷ [] })
    bfs_loop fuel g s'
]

-- What the call writes to `order`; `*out_n` is its length.
pub graph_bfs : Graph → ℕ → Run (List ℕ)
graph_bfs g src = do
  s ← enqueue g.n (record { vis = replicate g.n false; pending = []; back = 0; order = [] }) src
  s' ← bfs_loop (g.n + 1) g s
  ok s'.order
