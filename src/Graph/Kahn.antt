-- ===== src/Graph/Kahn.antt =====
-- Kahn's algorithm, as `graph_topological_sort` of src/graph/graph.c and `dag_topo_kahn` of
-- src/graph/dag.c share it: `next` reads the targets of a vertex. The queue array is what was taken out
-- of it, with `pending` behind.
pub mod Degrees
pub mod Queue
pub mod Order
use dsa_guide.Prelude.{
  ℕ, zero, suc, ◌+◌, List, [], ◌∷◌, ◌++◌, ltb, if◌then◌else◌, ℤ, pos, ◌-ℤ◌, as_int, ◌==ℤ◌, Run, ok,
  undefined, out_of_fuel, ◌>>=◌, load, store,
}

pub record Kahn : Type 0 where
  pub indeg : List ℤ
  pub pending : List ℕ
  pub back : ℕ
  pub order : List ℕ

-- `q[back++]=v;` where the queue has `n` cells.
pub enqueue : ℕ → Kahn → ℕ → Run Kahn
enqueue n s v =
    if ltb s.back n
    then ok (record s { pending = s.pending ++ v ∷ []; back = s.back + 1 })
    else undefined

-- The loop over the vertices from `i` on, with `k` left, that queues those of in-degree 0.
pub start_loop : ℕ → ℕ → ℕ → Kahn → Run Kahn
start_loop n zero i s = ok s
start_loop n (suc k) i s = do
  d ← load s.indeg i
  s' ← (if d ==ℤ pos 0 then enqueue n s i else ok s)
  start_loop n k (i + 1) s'

-- The loop over the targets of a vertex.
pub lower_loop : ℕ → List ℕ → Kahn → Run Kahn
lower_loop n [] s = ok s
lower_loop n (v ∷ vs) s = do
  d ← load s.indeg v
  lower ← as_int (d -ℤ pos 1)
  indeg ← store s.indeg v lower
  let s1 : Kahn = record s { indeg = indeg }
  s' ← (if lower ==ℤ pos 0 then enqueue n s1 v else ok s1)
  lower_loop n vs s'

-- The `while` loop takes out at most the `n` vertices that the queue has room for.
pub kahn_loop : ℕ → ℕ → (ℕ → Run (List ℕ)) → Kahn → Run Kahn
kahn_loop zero n next s = out_of_fuel
kahn_loop (suc fuel) n next s = elim s.pending [
  | [] ↦ ok s
  | v ∷ rest ↦ do
    vs ← next v
    s' ← lower_loop n vs (record s { pending = rest; order = s.order ++ v ∷ [] })
    kahn_loop fuel n next s'
]

pub kahn : ℕ → (ℕ → Run (List ℕ)) → List ℤ → Run (List ℕ)
kahn n next indeg = do
  s ← start_loop n n 0 (record { indeg = indeg; pending = []; back = 0; order = [] })
  s' ← kahn_loop (n + 1) n next s
  ok s'.order
