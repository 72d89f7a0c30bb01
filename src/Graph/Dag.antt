-- ===== src/Graph/Dag.antt =====
-- src/graph/dag.c. The row of a vertex is the number of its targets, with the targets behind it.
use mathlib.Core.List.{reverse}
use dsa_guide.Graph.Kahn.{kahn}
use dsa_guide.Prelude.{
  ℕ, zero, suc, ◌+◌, Bool, true, false, List, [], ◌∷◌, ◌++◌, ltb, ◌==◌, if◌then◌else◌, ℤ, pos, ◌+ℤ◌,
  as_int, length, replicate, Run, ok, out_of_fuel, ◌>>=◌, load, store,
}

-- `weights` stays a null pointer.
pub record Dag : Type 0 where
  pub adj : List (List ℕ)
  pub in_degree : List ℤ
  pub n : ℕ

pub dag_create : ℕ → Dag
dag_create n = record {
  adj = replicate n (replicate (n + 1) 0);
  in_degree = replicate n (pos 0);
  n = n;
}

-- The call always returns true.
pub dag_add_edge : Dag → ℕ → ℕ → Run Dag
dag_add_edge d u v = do
  row ← load d.adj u
  cnt ← load row 0
  counted ← store row 0 (cnt + 1)
  filled ← store counted (cnt + 1) v
  adj ← store d.adj u filled
  deg ← load d.in_degree v
  more ← as_int (deg +ℤ pos 1)
  in_degree ← store d.in_degree v more
  ok (record d { adj = adj; in_degree = in_degree })

-- The cells of a row from `i` on, `k` of them.
pub cells_from : ℕ → ℕ → List ℕ → Run (List ℕ)
cells_from zero i row = ok []
cells_from (suc k) i row = do nb ← load row i; rest ← cells_from k (i + 1) row; ok (nb ∷ rest)

-- What the loops over `adj[v][1]` to `adj[v][adj[v][0]]` read; they do not write to the rows.
pub targets : Dag → ℕ → Run (List ℕ)
targets d v = do row ← load d.adj v; cnt ← load row 0; cells_from cnt 1 row

-- The order; `*out_n` is its length.
pub dag_topo_kahn : Dag → Run (List ℕ)
dag_topo_kahn d = kahn d.n (targets d) d.in_degree

pub dag_is_valid : Dag → Run Bool
dag_is_valid d = do order ← dag_topo_kahn d; ok (length order == d.n)

-- The flags and the stack of `dag_topo_dfs`.
pub record Walk : Type 0 where
  pub vis : List Bool
  pub stack : List ℕ

-- The loop of `dfs_topo_r` over the targets; `visit` is the recursive call.
pub topo_targets : (ℕ → Walk → Run Walk) → List ℕ → Walk → Run Walk
topo_targets visit [] s = ok s
topo_targets visit (nb ∷ nbs) s = do
  seen ← load s.vis nb
  s' ← (if seen then ok s else visit nb s)
  topo_targets visit nbs s'

pub dfs_topo_r : ℕ → Dag → ℕ → Walk → Run Walk
dfs_topo_r zero d v s = out_of_fuel
dfs_topo_r (suc fuel) d v s = do
  vis ← store s.vis v true
  nbs ← targets d v
  s' ← topo_targets (dfs_topo_r fuel d) nbs (record s { vis = vis })
  ok (record s' { stack = s'.stack ++ v ∷ [] })

-- The loop over the vertices from `i` on, with `k` left.
pub topo_loop : ℕ → ℕ → Dag → Walk → Run Walk
topo_loop zero i d s = ok s
topo_loop (suc k) i d s = do
  seen ← load s.vis i
  s' ← (if seen then ok s else dfs_topo_r d.n d i s)
  topo_loop k (i + 1) d s'

pub dag_topo_dfs : Dag → Run (List ℕ)
dag_topo_dfs d = do
  s ← topo_loop d.n 0 d (record { vis = replicate d.n false; stack = [] })
  ok (reverse s.stack)

-- `dist[nb]=dist[v]+1` where that is more.
pub lengthen : ℕ → List ℕ → List ℕ → Run (List ℕ)
lengthen v [] dist = ok dist
lengthen v (nb ∷ nbs) dist = do
  a ← load dist v
  b ← load dist nb
  after ← (if ltb b (a + 1) then store dist nb (a + 1) else ok dist)
  lengthen v nbs after

pub path_loop : Dag → List ℕ → List ℕ → Run (List ℕ)
path_loop d [] dist = ok dist
path_loop d (v ∷ order) dist = do
  nbs ← targets d v
  after ← lengthen v nbs dist
  path_loop d order after

pub max_loop : ℕ → List ℕ → ℕ
max_loop mx [] = mx
max_loop mx (x ∷ dist) = max_loop (if ltb mx x then x else mx) dist

-- The lengths of the longest paths, and the greatest of them.
pub dag_critical_path : Dag → Run (List ℕ × ℕ)
dag_critical_path d = do
  order ← dag_topo_kahn d
  dist ← path_loop d order (replicate d.n 0)
  ok (dist, max_loop 0 dist)
