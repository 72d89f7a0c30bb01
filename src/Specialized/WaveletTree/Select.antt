-- ===== src/Specialized/WaveletTree/Select.antt =====
-- `wt_select` finds an occurrence of a symbol, and is inverse to `wt_rank`.
use dsa_guide.Prelude.{
  ℕ, suc, ◌+◌, ◌-◌, ◌^◌, ◌<◌, ◌≤◌, ◌≡◌, ◌⊎◌, dec_lt, inl, inr, refl, ap, ◌∙◌, List, [], ◌∷◌, ◌==◌,
  Bool-cases, pos, negsuc, length, get_or, take, replicate, ok, Returns, Returns-map, arith,
}
use dsa_guide.Specialized.WaveletTree.{wt_build, select_loop, wt_rank, wt_select}
use dsa_guide.Specialized.WaveletTree.Rank.{count, Within, wt_build-Encodes, rank_loop-count}

-- Position `p` of `seq` is the `k`-th place of `c`, from 1 on.
pub record IsKth (c k : ℕ) (seq : List ℕ) (p : ℕ) : Type 0 where
  pub inside : p < length seq
  pub here : get_or seq p 0 ≡ c
  pub before : count c (take p seq) + 1 ≡ k

-- The loop with `cnt` occurrences behind it, at position `i`: too few are left, or one is found.
pub select_loop-IsKth :
    (c k i cnt : ℕ) (seq : List ℕ)
    → cnt < k
    → (cnt + count c seq < k → select_loop c k i cnt seq ≡ negsuc 0)
      × (k ≤ cnt + count c seq
          → (p : ℕ) × (select_loop c k i cnt seq ≡ pos (i + p))
            × (p < length seq)
            × (get_or seq p 0 ≡ c)
            × (cnt + count c (take p seq) + 1 ≡ k))
unfolding select_loop
select_loop-IsKth c k i cnt [] h = (λ few. refl, λ some_left. absurd (omega arith))
select_loop-IsKth c k i cnt (x ∷ seq) h = elim (Bool-cases (x == c)) [
  | inr e ↦ rw e (
      let (few, found) = select_loop-IsKth c k (i + 1) cnt seq h in
      (
        few,
        λ enough.
            let (p, eq, inside, here, before) = found enough in
            (suc p, eq ∙ ap pos (omega arith), omega arith, here, rw e before),
      ))
  | inl e ↦ elim (Bool-cases (cnt + 1 == k)) [
    | inl last ↦
        rw (e, last)
          (
            λ few. absurd (ground (arith, last, few)),
            λ enough.
                (0, ap pos (omega arith), omega arith, ground (arith, e), ground (arith, last)),
          )
    | inr more ↦
        rw (e, more)
          (let (few, found) = select_loop-IsKth c k (i + 1) (cnt + 1) seq (ground (arith, more)) in
            (
              λ short. few (omega arith),
              λ enough.
                  let (p, eq, inside, here, before) = found (omega (arith, enough)) in
                  (
                    suc p,
                    eq ∙ ap pos (omega arith),
                    omega arith,
                    here,
                    rw e (omega (arith, before)),
                  ),
            ))
  ]
]

-- With `calloc` giving zeros, a length that an `int` holds, symbols from 0 to `top`, which is at most 2^30,
-- and k at least 1: `wt_build` returns, and then
-- `wt_select` of a symbol and `k` returns -1 if the symbol stands fewer than `k` times in the sequence,
-- and otherwise the position of its `k`-th place, at which `wt_rank` returns k - 1.
pub wt_select-wt_rank :
    (calloc : ℕ → List ℕ) (seq : List ℕ) (top c k : ℕ)
    → ((n : ℕ) → calloc n ≡ replicate n 0)
    → length seq < 2 ^ 31
    → top ≤ 2 ^ 30
    → Within 0 top seq
    → c ≤ top
    → 1 ≤ k
    → Returns
        (λ wt.
          ((count c seq < k) × (wt_select wt c k ≡ negsuc 0))
          ⊎ ((k ≤ count c seq)
              × (p : ℕ) × (wt_select wt c k ≡ pos p)
              × IsKth c k seq p
              × (wt_rank wt c p ≡ ok (k - 1))))
        (wt_build calloc seq top)
unfolding wt_select wt_rank
wt_select-wt_rank calloc seq top c k zeroed small fits w in_range positive =
    Returns-map (wt_build-Encodes calloc seq top zeroed (omega (arith, small)) fits) λ wt (s, e).
      rw s (
        let (few, found) = select_loop-IsKth c k 0 0 seq positive in
        elim (dec_lt (count c seq) k) [
          | yes h ↦ inl (h, few (omega (arith, h)))
          | no h ↦
              let (p, eq, inside, here, before) = found (omega (arith, h)) in
              inr (
                omega (arith, h),
                p,
                eq ∙ ap pos (omega arith),
                record { inside = inside; here = here; before = omega (arith, before) },
                rank_loop-count wt.root 0 top c p seq e w (omega arith) in_range (omega arith) fits
                    ∙ ap ok (omega (arith, before)),
              )
        ])
