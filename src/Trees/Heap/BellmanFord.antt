-- ===== src/Trees/Heap/BellmanFord.antt =====
-- `bellman_ford` of src/trees/heap.c. It takes both ends of an edge from the one field `v`.
use dsa_guide.Prelude.{
  ℕ, zero, suc, ◌-◌, ◌^◌, ◌<◌, ◌≡◌, ◌⊎◌, inl, inr, refl, sym, subst, ◌∙◌, Bool, true, false, List,
  [], ◌∷◌, if◌then◌else◌, ℤ, pos, ◌+ℤ◌, ◌==ℤ◌, ltb_ℤ, as_int, as_int-pos, length, length-replicate,
  length-set, get_or, get_or-set, set, replicate, Run, ok, ◌>>=◌, load, load-ok, store, store-ok,
  ℕ_discrete, arith,
}

pub record Edge : Type 0 where
  pub v : ℕ
  pub w : ℤ

abbrev pub int_max : ℤ
int_max = pos (2 ^ 31 - 1)

-- The test of both loops, with the sum; there is a sum only where the first test holds.
pub shorter : List ℤ → Edge → Run (Bool × ℤ)
shorter dist e = do
  d ← load dist e.v
  sum ← (if d ==ℤ int_max then ok int_max else as_int (d +ℤ e.w))
  ok (ltb_ℤ sum d, sum)

pub relax_loop : List Edge → List ℤ → Run (List ℤ)
relax_loop [] dist = ok dist
relax_loop (e ∷ edges) dist = do
  (less, sum) ← shorter dist e
  after ← (if less then store dist e.v sum else ok dist)
  relax_loop edges after

pub pass_loop : ℕ → List Edge → List ℤ → Run (List ℤ)
pass_loop zero edges dist = ok dist
pass_loop (suc passes) edges dist = do after ← relax_loop edges dist; pass_loop passes edges after

pub check_loop : List Edge → List ℤ → Bool → Run Bool
check_loop [] dist neg = ok neg
check_loop (e ∷ edges) dist neg = do
  (less, sum) ← shorter dist e
  check_loop edges dist (if less then true else neg)

pub bellman_ford : List Edge → ℕ → ℕ → Run (List ℤ × Bool)
bellman_ford edges n src = do
  start ← store (replicate n int_max) src (pos 0)
  dist ← pass_loop (n - 1) edges start
  neg ← check_loop edges dist false
  ok (dist, neg)

-- Each edge leads to a vertex below `n`, with a weight from 0 on that an int holds.
abbrev pub AllWeighed : ℕ → List Edge → Type 0
AllWeighed n [] = Unit {0}
AllWeighed n (e ∷ edges) = ((e.v < n) × (k : ℕ) × (e.w ≡ pos k) × (k < 2 ^ 31)) × AllWeighed n edges

-- Each cell is 0 or INT_MAX.
abbrev IsStart : List ℤ → Type 0
IsStart dist =
    (v : ℕ) → v < length dist → (get_or dist v (pos 0) ≡ pos 0) ⊎ (get_or dist v (pos 0) ≡ int_max)

zero_plus : (k : ℕ) → pos 0 +ℤ pos k ≡ pos k
unfolding ◌+ℤ◌
zero_plus k = ground arith

module _ (dist : List ℤ) (start : IsStart dist) where
  shorter-false :
      (e : Edge) (k : ℕ)
      → e.v < length dist
      → e.w ≡ pos k
      → k < 2 ^ 31
      → (sum : ℤ) × (shorter dist e ≡ ok (false, sum))
  unfolding shorter
  shorter-false e k h w small = elim (start e.v h) [
    | inl at_src ↦ (
      pos k,
      rw (load-ok dist e.v (pos 0) h, at_src, w, zero_plus k, as_int-pos k small) (ground arith),
    )
    | inr far ↦ (int_max, rw (load-ok dist e.v (pos 0) h, far) (ground arith))
  ]

  relax_loop-same :
      (edges : List Edge) → AllWeighed (length dist) edges → relax_loop edges dist ≡ ok dist
  unfolding relax_loop
  relax_loop-same [] weighed = refl
  relax_loop-same (e ∷ edges) ((h, k, w, small), weighed) =
      rw (shorter-false e k h w small).1 (relax_loop-same edges weighed)

  pass_loop-same :
      (passes : ℕ) (edges : List Edge)
      → AllWeighed (length dist) edges
      → pass_loop passes edges dist ≡ ok dist
  unfolding pass_loop
  pass_loop-same zero edges weighed = refl
  pass_loop-same (suc passes) edges weighed =
      rw (relax_loop-same edges weighed) (pass_loop-same passes edges weighed)

  check_loop-same :
      (edges : List Edge) → AllWeighed (length dist) edges → check_loop edges dist false ≡ ok false
  unfolding check_loop
  check_loop-same [] weighed = refl
  check_loop-same (e ∷ edges) ((h, k, w, small), weighed) =
      rw (shorter-false e k h w small).1 (check_loop-same edges weighed)

get_or-far : (n v : ℕ) → v < n → get_or (replicate n int_max) v (pos 0) ≡ int_max
get_or-far zero v h = absurd (omega arith)
get_or-far (suc n) zero h = refl
get_or-far (suc n) (suc v) h = get_or-far n v (omega arith)

-- For a source below `n` and edges that lead to vertices below `n`, with weights from 0 on that an `int`
-- holds: `bellman_ford` finds no path. It returns 0 for the source and INT_MAX for every other vertex, and
-- reports no negative cycle.
pub bellman_ford-no_paths :
    (edges : List Edge) (n src : ℕ)
    → src < n
    → AllWeighed n edges
    → bellman_ford edges n src ≡ ok (set (replicate n int_max) src (pos 0), false)
unfolding bellman_ford
bellman_ford-no_paths edges n src h weighed =
    let far = replicate n int_max in
    let inside : src < length far = omega (arith, h, length-replicate n int_max) in
    let size : length (set far src (pos 0)) ≡ n =
      length-set far src (pos 0) ∙ length-replicate n int_max in
    let start : IsStart (set far src (pos 0)) = λ v k. elim (ℕ_discrete src v) [
      | yes e ↦ inl (get_or-set far src v (pos 0) (pos 0) inside ∙ ground (arith, e))
      | no ne ↦ inr (
          get_or-set far src v (pos 0) (pos 0) inside
          ∙ ground (arith, ne, get_or-far n v (omega (arith, k, size))))
    ] in
    let all : AllWeighed (length (set far src (pos 0))) edges =
      subst (λ m. AllWeighed m edges) (sym size) weighed in
    rw
      (
        store-ok far src (pos 0) inside,
        pass_loop-same _ start (n - 1) edges all,
        check_loop-same _ start edges all,
      )
      refl
