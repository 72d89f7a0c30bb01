-- ===== src/Graph/AdjacencyList/Distances.antt =====
-- `graph_bellman_ford`.
use dsa_guide.Prelude.{
  ℕ, zero, suc, ◌+◌, ◌-◌, ◌^◌, Bool, true, false, List, [], ◌∷◌, if◌then◌else◌, ℤ, pos, ◌+ℤ◌, ◌==ℤ◌,
  ltb_ℤ, as_int, replicate, Run, ok, ◌>>=◌, load, store,
}
use dsa_guide.Graph.AdjacencyList.{GEdge, Graph}

abbrev pub int_max : ℤ
int_max = pos (2 ^ 31 - 1)

-- `dist[u]!=INT_MAX && dist[u]+e->weight<dist[e->to]`; the sum is there only where the first test holds.
pub shorter : List ℤ → ℕ → GEdge → Run (Bool × ℤ)
shorter dist u e = do
  d ← load dist u
  sum ← (if d ==ℤ int_max then ok int_max else as_int (d +ℤ e.weight))
  old ← (if d ==ℤ int_max then ok int_max else load dist e.to)
  ok (ltb_ℤ sum old, sum)

pub relax_edges : ℕ → List GEdge → List ℤ → Run (List ℤ)
relax_edges u [] dist = ok dist
relax_edges u (e ∷ es) dist = do
  (less, sum) ← shorter dist u e
  after ← (if less then store dist e.to sum else ok dist)
  relax_edges u es after

-- The loops over the vertices from `u` on, with `k` left.
pub relax_loop : ℕ → ℕ → Graph → List ℤ → Run (List ℤ)
relax_loop zero u g dist = ok dist
relax_loop (suc k) u g dist = do
  es ← load g.adj u
  after ← relax_edges u es dist
  relax_loop k (u + 1) g after

pub pass_loop : ℕ → Graph → List ℤ → Run (List ℤ)
pass_loop zero g dist = ok dist
pass_loop (suc passes) g dist = do after ← relax_loop g.n 0 g dist; pass_loop passes g after

pub check_edges : ℕ → List GEdge → List ℤ → Bool → Run Bool
check_edges u [] dist neg = ok neg
check_edges u (e ∷ es) dist neg = do
  (less, sum) ← shorter dist u e
  check_edges u es dist (if less then true else neg)

pub check_loop : ℕ → ℕ → Graph → List ℤ → Bool → Run Bool
check_loop zero u g dist neg = ok neg
check_loop (suc k) u g dist neg = do
  es ← load g.adj u
  neg' ← check_edges u es dist neg
  check_loop k (u + 1) g dist neg'

-- The distances, and whether some edge still makes one shorter.
pub graph_bellman_ford : Graph → ℕ → Run (List ℤ × Bool)
graph_bellman_ford g src = do
  start ← store (replicate g.n int_max) src (pos 0)
  dist ← pass_loop (g.n - 1) g start
  neg ← check_loop g.n 0 g dist false
  ok (dist, neg)
