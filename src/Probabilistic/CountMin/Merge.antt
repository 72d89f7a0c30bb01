-- ===== src/Probabilistic/CountMin/Merge.antt =====
-- `cm_merge` of two sketches.
use native.Mathlib.Nat.{mod-lt}
use dsa_guide.Prelude.{
  ℕ, zero, suc, ◌+◌, ◌-◌, ◌%◌, ◌^◌, ◌<◌, ◌≤◌, ◌≡◌, inl, inr, refl, sym, ◌∙◌, true, List, [], ◌∷◌,
  ◌==◌, ℕ_discrete, ltb, Bool-cases, ok, ◌>>=◌, load-ok, store-ok, length, get_or, set, length-set,
  get_or-set_self, get_or-set_ne, subst, Returns, returns, Returns-bind, Returns-map, arith,
}
use dsa_guide.Probabilistic.CountMin.Count.{
  Rows, Counted, at, cell, adds, true_count, all_counts, true-le-all, adds-Counted,
  cm_create-Counted, query_loop-least,
}
use dsa_guide.Probabilistic.CountMin.{
  CountMin, cm_create, cm_query, cm_hash, merge_row, merge_loop, cm_merge,
}

-- Row `r` is row `dst` with row `src` added from cell `j` on, `n` cells.
record Merged (n j : ℕ) (dst src r : List ℕ) : Type 0 where
  pub sized : length r ≡ length dst
  pub before : (k : ℕ) → k < j → get_or r k 0 ≡ get_or dst k 0
  pub sums : (k : ℕ) → j ≤ k → k < j + n → get_or r k 0 ≡ (get_or dst k 0 + get_or src k 0) % 2 ^ 32

merge_row-Merged :
    (n j : ℕ) (dst src : List ℕ)
    → j + n ≤ length dst
    → j + n ≤ length src
    → Returns (Merged n j dst src) (merge_row n j dst src)
unfolding merge_row
merge_row-Merged zero j dst src d s =
    returns
      (record { sized = refl; before = λ k b. refl; sums = λ k a b. absurd (omega (arith, a, b)) })
merge_row-Merged (suc n) j dst src d s =
    let v = (get_or dst j 0 + get_or src j 0) % 2 ^ 32 in
    rw
      (
        load-ok dst j 0 (omega (arith, d)),
        load-ok src j 0 (omega (arith, s)),
        store-ok dst j v (omega (arith, d)),
      )
      (Returns-map
        (merge_row-Merged n (j + 1) (set dst j v) src (omega (arith, d, length-set dst j v))
          (omega (arith, s)))
        λ r m. record {
          sized = m.sized ∙ length-set dst j v;
          before = λ k b.
              m.before k (omega (arith, b)) ∙ get_or-set_ne dst j k v 0 (λ e. omega (arith, b, e));
          sums = λ k a b. elim (ℕ_discrete j k) [
            | yes e ↦
                subst (λ i. get_or r i 0 ≡ (get_or dst i 0 + get_or src i 0) % 2 ^ 32) e
                  (m.before j (omega arith) ∙ get_or-set_self dst j v 0 (omega (arith, d)))
            | no ne ↦
                rw (sym (get_or-set_ne dst j k v 0 ne))
                  (m.sums k (omega (arith, a, ne)) (omega (arith, b)))
          ];
        })

cell-out : (row : List ℕ) (k : ℕ) → length row ≤ k → cell row k ≡ 0
cell-out [] k h = refl
cell-out (x ∷ row) zero h = absurd (omega (arith, h))
cell-out (x ∷ row) (suc k) h = cell-out row k (omega (arith, h))

same_number : (a b : ℕ) → a ≡ b → (a == b) ≡ true
same_number a b e = ground (arith, e)

module _ (w : ℕ) (positive : 1 ≤ w) (bytes : List ℕ) (low high low' high' : ℕ)
    (fits : high + high' < 2 ^ 32) where
  summed :
      (dst src r : List ℕ) (k : ℕ)
      → Merged w 0 dst src r
      → k < w
      → cell dst k ≤ high
      → cell src k ≤ high'
      → cell r k ≡ cell dst k + cell src k
  summed dst src r k m in_row a b =
      omega (arith, m.sums k (omega arith) (omega (arith, in_row)), a, b)

  at_most :
      (dst src r : List ℕ)
      → Merged w 0 dst src r
      → length dst ≡ w
      → ((k : ℕ) → cell dst k ≤ high)
      → ((k : ℕ) → cell src k ≤ high')
      → (k : ℕ) → cell r k ≤ high + high'
  at_most dst src r m sized a b k = elim (Bool-cases (ltb k w)) [
    | inl h ↦ omega (arith, summed dst src r k m (ground (arith, h)) (a k) (b k), a k, b k)
    | inr h ↦ omega (arith, cell-out r k (ground (arith, m.sized, sized, h)))
  ]

  merge_loop-Rows :
      (i : ℕ) (dsts srcs : List (List ℕ))
      → length dsts ≡ length srcs
      → Rows w bytes low high i dsts
      → Rows w bytes low' high' i srcs
      → Returns
          (λ after. Rows w bytes (low + low') (high + high') i after × (length after ≡ length dsts))
          (merge_loop w dsts srcs)
  unfolding merge_loop Rows
  merge_loop-Rows i [] srcs e d s = returns (tt, refl)
  merge_loop-Rows i (dst ∷ dsts) [] e d s = absurd (omega (arith, e))
  merge_loop-Rows i (dst ∷ dsts) (src ∷ srcs) e (sized, least, most, d) (sized', least', most', s) =
      Returns-bind (merge_row-Merged w 0 dst src (omega (arith, sized)) (omega (arith, sized')))
        λ r m.
          Returns-bind (merge_loop-Rows (i + 1) dsts srcs (omega (arith, e)) d s) λ rest (rows, n).
            returns (
              (
                m.sized ∙ sized,
                omega (
                  arith,
                  summed dst src r (at w bytes i) m (mod-lt (cm_hash bytes i) positive)
                      (most (at w bytes i)) (most' (at w bytes i)),
                  least,
                  least',
                ),
                at_most dst src r m sized most most',
                rows,
              ),
              omega (arith, n),
            )

  -- Sketches of one shape, the counts of which together fit 32 bits, are merged: the call returns true,
  -- and the cells of a key then hold at least what they held in both.
  pub cm_merge-Counted :
      (depth : ℕ) (dst src : CountMin)
      → Counted w depth bytes low high dst
      → Counted w depth bytes low' high' src
      → Returns
          (λ r. (r.0 ≡ true) × Counted w depth bytes (low + low') (high + high') r.1)
          (cm_merge dst src)
  unfolding cm_merge
  cm_merge-Counted depth dst src d s =
      rw
        (
          d.width,
          s.width,
          same_number w w refl,
          same_number (length dst.table) (length src.table) (d.depth_eq ∙ sym s.depth_eq),
        )
        (Returns-bind
          (merge_loop-Rows 0 dst.table src.table (d.depth_eq ∙ sym s.depth_eq) d.rows s.rows)
          λ table (rows, n).
            returns (refl, record { width = refl; depth_eq = n ∙ d.depth_eq; rows = rows }))

-- Two sketches of one width, at least 1, and one depth, each after its own history of `cm_add`s: when
-- all counts together fit 32 bits, `cm_merge` returns true, and then `cm_query` of a key returns no less
-- than what was added under that key to both.
pub cm_merge-true_count :
    (w d : ℕ) (bytes : List ℕ) (first second : List (List ℕ × ℕ))
    → 1 ≤ w
    → all_counts first + all_counts second < 2 ^ 32
    → Returns
        (λ (merged, m). (merged ≡ true) × (true_count bytes first + true_count bytes second ≤ m))
        (do
          dst ← adds first (cm_create w d)
          src ← adds second (cm_create w d)
          result ← cm_merge dst src
          m ← cm_query result.1 bytes
          ok (result.0, m))
unfolding cm_query
cm_merge-true_count w d bytes first second positive fits =
    let one = true-le-all bytes first in
    let two = true-le-all bytes second in
    Returns-bind
      (adds-Counted w d bytes first 0 0 (cm_create w d) positive (omega arith)
        (cm_create-Counted w d bytes))
      λ dst a.
        Returns-bind
          (adds-Counted w d bytes second 0 0 (cm_create w d) positive (omega arith)
            (cm_create-Counted w d bytes))
          λ src b.
            Returns-bind
              (cm_merge-Counted w positive bytes (0 + true_count bytes first) (0 + all_counts first)
                (0 + true_count bytes second) (0 + all_counts second) (omega (arith, fits)) d dst
                src a b)
              λ result (merged, c). rw c.width (
                Returns-bind
                  (query_loop-least w positive bytes
                    ((0 + true_count bytes first) + (0 + true_count bytes second))
                    ((0 + all_counts first) + (0 + all_counts second)) (2 ^ 32 - 1) 0
                    (result.1).table c.rows (omega (arith, one, two)))
                  λ m least. returns (merged, omega (arith, least)))
