-- ===== src/Graph/AdjacencyList/Cycle.antt =====
-- `graph_has_cycle`.
use dsa_guide.Prelude.{
  ℕ, zero, suc, ◌+◌, Bool, true, false, List, [], ◌∷◌, if◌then◌else◌, replicate, Run, ok,
  out_of_fuel, ◌>>=◌, load, store,
}
use dsa_guide.Graph.AdjacencyList.{GEdge, Graph}

pub record Flags : Type 0 where
  pub vis : List Bool
  pub rec : List Bool

-- The loop of `has_cycle_dfs`; `visit` is the recursive call.
pub cycle_edges : (ℕ → Flags → Run (Bool × Flags)) → List GEdge → Flags → Run (Bool × Flags)
cycle_edges visit [] s = ok (false, s)
cycle_edges visit (e ∷ es) s = do
  seen ← load s.vis e.to
  below ← (if seen then ok (false, s) else visit e.to s)
  back ← (if below.0 then ok true else load below.1.rec e.to)
  let rest = cycle_edges visit es below.1
  if back then ok (true, below.1) else rest

pub has_cycle_dfs : ℕ → Graph → ℕ → Flags → Run (Bool × Flags)
has_cycle_dfs zero g v s = out_of_fuel
has_cycle_dfs (suc fuel) g v s = do
  vis ← store s.vis v true
  rec ← store s.rec v true
  es ← load g.adj v
  result ← cycle_edges (has_cycle_dfs fuel g) es (record { vis = vis; rec = rec })
  left ← (if result.0 then ok result.1.rec else store result.1.rec v false)
  ok (result.0, record (result.1) { rec = left })

-- The loop over the vertices from `i` on, with `k` left, that stops at the first cycle.
pub cycle_loop : ℕ → ℕ → Graph → Flags → Run Bool
cycle_loop zero i g s = ok false
cycle_loop (suc k) i g s = do
  seen ← load s.vis i
  result ← (if seen then ok (false, s) else has_cycle_dfs g.n g i s)
  let rest = cycle_loop k (i + 1) g result.1
  if result.0 then ok true else rest

pub graph_has_cycle : Graph → Run Bool
graph_has_cycle g =
    cycle_loop g.n 0 g (record { vis = replicate g.n false; rec = replicate g.n false })
