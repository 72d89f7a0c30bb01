-- ===== src/Linear/Queue/Bfs.antt =====
-- `queue_bfs` of src/linear/queue.c. The row of a vertex is the number of its neighbours, with these behind it.
use dsa_guide.Prelude.{
  ℕ, zero, suc, ◌+◌, Bool, true, false, List, [], ◌∷◌, ◌++◌, ltb, if◌then◌else◌, ℤ, pos, negsuc,
  length, replicate, Run, ok, undefined, out_of_fuel, ◌>>=◌, load, store,
}
use dsa_guide.Linear.Queue.{Queue, queue_create, queue_enqueue, queue_dequeue, queue_is_empty}

-- The locals of `queue_bfs`; `order` is what was written of the array.
pub record Search : Type 0 where
  pub order : List ℕ
  pub visited : List Bool
  pub q : Queue

-- `visited[v] = true; queue_enqueue(q, v);`, whose answer is not read.
pub discover : ℕ → Search → Run Search
discover v s = do
  visited ← store s.visited v true
  (room, q) ← queue_enqueue s.q (pos v)
  ok (record s { visited = visited; q = q })

-- The loop over the neighbours from `adj[v][i]` on, with `k` left.
pub neighbour_loop : ℕ → ℕ → List ℕ → Search → Run Search
neighbour_loop zero i row s = ok s
neighbour_loop (suc k) i row s = do
  nb ← load row i
  seen ← load s.visited nb
  s' ← (if seen then ok s else discover nb s)
  neighbour_loop k (i + 1) row s'

-- `order` has `n` cells.
pub take_vertex : ℕ → List (List ℕ) → ℤ → Search → Run Search
take_vertex n adj (negsuc v) s = undefined
take_vertex n adj (pos v) s =
    if ltb (length s.order) n
    then (do
      row ← load adj v
      degree ← load row 0
      neighbour_loop degree 1 row (record s { order = s.order ++ v ∷ [] }))
    else undefined

pub search_loop : ℕ → ℕ → List (List ℕ) → Search → Run Search
search_loop zero n adj s = out_of_fuel
search_loop (suc fuel) n adj s =
    let rest = (do
      (v, q) ← queue_dequeue s.q
      s' ← take_vertex n adj v (record s { q = q })
      search_loop fuel n adj s') in
    if queue_is_empty s.q then ok s else rest

-- `block` is what `malloc` returns for the queue; each vertex enters it once.
pub queue_bfs : List ℤ → List (List ℕ) → ℕ → ℕ → Run (List ℕ)
queue_bfs block adj n src = do
  s ← discover src (record { order = []; visited = replicate n false; q = queue_create block n })
  s' ← search_loop (n + 1) n adj s
  ok s'.order
