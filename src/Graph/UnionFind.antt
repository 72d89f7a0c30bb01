-- ===== src/Graph/UnionFind.antt =====
-- src/graph/union_find.c: sets as trees of parent links, with path compression and union by rank. The
-- elements and ranks are `int`s that start at 0 and only grow, as natural numbers.
pub mod Roots
pub mod Find
pub mod Union
pub mod Create
use dsa_guide.Prelude.{
  ℕ, zero, suc, ◌+◌, ◌-◌, ◌%◌, ◌^◌, Bool, true, false, List, [], ◌∷◌, ltb, ◌==◌, Run, ok,
  out_of_fuel, ◌>>=◌, load, store, if◌then◌else◌, replicate,
}

pub record UnionFind : Type 0 where
  pub parent : List ℕ
  pub rank : List ℕ
  pub n : ℕ
  pub num_components : ℕ

-- The loop of `uf_create`, with `k` elements left from `i` on; for at most 2^31 elements, so that
-- `(int)i` is `i`.
pub create_loop : ℕ → ℕ → List ℕ → Run (List ℕ)
create_loop zero i parent = ok parent
create_loop (suc k) i parent = do after ← store parent i i; create_loop k (i + 1) after

-- `block` is what `malloc(n * sizeof(int))` returns.
pub uf_create : List ℕ → ℕ → Run UnionFind
uf_create block n = do
  parent ← create_loop n 0 block
  ok (record { parent = parent; rank = replicate n 0; n = n; num_components = n })

-- The root, and the table after the path compression.
pub uf_find : ℕ → UnionFind → ℕ → Run (ℕ × UnionFind)
uf_find zero uf x = out_of_fuel
uf_find (suc fuel) uf x = do
  p ← load uf.parent x
  let compress : Run (ℕ × UnionFind) = do
    found ← uf_find fuel uf p
    parent ← store found.1.parent x found.0
    r ← load parent x
    ok (r, record (found.1) { parent = parent })
  if p == x then ok (p, uf) else compress

-- `winner` becomes the root of both sets.
pub link : UnionFind → ℕ → ℕ → Run UnionFind
link uf winner loser = do
  parent ← store uf.parent loser winner
  a ← load uf.rank winner
  b ← load uf.rank loser
  let raise = store uf.rank winner (a + 1)
  rank ← (if a == b then raise else ok uf.rank)
  ok (record uf {
    parent = parent;
    rank = rank;
    num_components = (uf.num_components + 2 ^ 64 - 1) % 2 ^ 64;
  })

-- The rest of `uf_union` once the roots are known: the root of the greater rank wins.
pub unite : UnionFind → ℕ → ℕ → Run (Bool × UnionFind)
unite uf rx ry =
    let linked : Run (Bool × UnionFind) = do
      a ← load uf.rank rx
      b ← load uf.rank ry
      after ← (if ltb a b then link uf ry rx else link uf rx ry)
      ok (true, after)
    in if rx == ry then ok (false, uf) else linked

-- `fuel` bounds the rounds of each `uf_find`.
pub uf_union : ℕ → UnionFind → ℕ → ℕ → Run (Bool × UnionFind)
uf_union fuel uf x y = do
  first ← uf_find fuel uf x
  second ← uf_find fuel (first.1) y
  unite (second.1) (first.0) (second.0)

pub uf_connected : ℕ → UnionFind → ℕ → ℕ → Run (Bool × UnionFind)
uf_connected fuel uf x y = do
  first ← uf_find fuel uf x
  second ← uf_find fuel (first.1) y
  ok (first.0 == second.0, second.1)

pub uf_num_components : UnionFind → ℕ
uf_num_components uf = uf.num_components

-- The loop of `uf_from_edges`.
pub edges_loop : ℕ → UnionFind → List (ℕ × ℕ) → Run UnionFind
edges_loop fuel uf [] = ok uf
edges_loop fuel uf ((x, y) ∷ edges) = do
  after ← uf_union fuel uf x y
  edges_loop fuel (after.1) edges

pub uf_from_edges : ℕ → List ℕ → ℕ → List (ℕ × ℕ) → Run UnionFind
uf_from_edges fuel block n edges = do uf ← uf_create block n; edges_loop fuel uf edges
