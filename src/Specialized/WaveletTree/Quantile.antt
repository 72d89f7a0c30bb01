-- ===== src/Specialized/WaveletTree/Quantile.antt =====
-- `wt_quantile` falls off the tree: `wt_build` makes no node for an alphabet of one symbol.
use dsa_guide.Prelude.{
  ℕ, ◌+◌, ◌-◌, ◌/◌, ◌^◌, ◌<◌, ◌≤◌, ◌≡◌, inl, inr, refl, ap, false, List, Bool-cases, lt→ltb, negsuc,
  ℤ, pos, ◌-ℤ◌, leb_ℤ, IsInt, as_int-ok, -ℤ_parts, length, replicate, ok, Returns, Returns-map,
  Returns-inv, arith,
}
use dsa_guide.Specialized.WaveletTree.{WtNode, nil, wtnode, wt_build, quantile_loop, wt_quantile}
use dsa_guide.Specialized.WaveletTree.Split.{lefts, rights, Encodes}
use dsa_guide.Specialized.WaveletTree.Rank.{
  zeros, ones, zeros-le, count_loop-counts, count_loop-prefix, wt_build-Encodes,
}

-- What is left of `k` is between 1 and `k`.
less : (k : ℤ) (n : ℕ) → IsInt k → leb_ℤ k (pos n) ≡ false → IsInt (k -ℤ pos n)
less k n fits h = ground (arith, -ℤ_parts k (pos n), fits, h)

quantile_loop-none :
    (node : WtNode) (lo hi l stop : ℕ) (k : ℤ) (seq : List ℕ)
    → Encodes lo hi seq node
    → l ≤ stop
    → stop ≤ length seq
    → IsInt k
    → quantile_loop node l stop k ≡ ok (negsuc 0)
unfolding quantile_loop Encodes
quantile_loop-none nil lo hi l stop k seq e a b fits = refl
quantile_loop-none (wtnode low high n bm left right) lo hi l stop k seq (p, q, below, bits, el, er)
      a b fits =
    let mid = (lo + hi) / 2 in
    let (r, e, (z, o)) =
      Returns-inv (count_loop-counts mid seq bm (stop - l) l 0 0 bits (omega (arith, a, b))) in
    let s : l + (stop - l) ≡ stop = omega (arith, a) in
    let (sum_l, zl, ol) = zeros-le mid l seq (omega (arith, a, b)) in
    let (sum_s, zs, os) = zeros-le mid stop seq b in
    let ez = ap (zeros mid seq) s in
    let eo = ap (ones mid seq) s in
    rw (p, q, lt→ltb lo hi below, e, count_loop-prefix mid seq bm l bits (omega (arith, a, b)))
      (elim (Bool-cases (leb_ℤ k (pos r.0))) [
        | inl h ↦ rw h (
            quantile_loop-none left lo mid (zeros mid seq l) (zeros mid seq l + r.0) k
              (lefts mid seq) el (omega arith) (omega (arith, z, ez, zs)) fits)
        | inr h ↦
            rw (h, as_int-ok (k -ℤ pos r.0) (less k r.0 fits h))
              (quantile_loop-none right (mid + 1) hi (ones mid seq l)
                (ones mid seq l + (stop - l - r.0)) (k -ℤ pos r.0) (rights mid seq) er (omega arith)
                (omega (arith, z, ez, o, eo, os, sum_l, sum_s)) (less k r.0 fits h))
      ])

-- With `calloc` giving zeros, a length that an `int` holds and `top` at most 2^30, `wt_build` returns, and
-- then `wt_quantile` returns -1 for every range of positions inside the sequence, empty or not, and every
-- `int` k.
pub wt_quantile-none :
    (calloc : ℕ → List ℕ) (seq : List ℕ) (top l stop : ℕ) (k : ℤ)
    → ((n : ℕ) → calloc n ≡ replicate n 0)
    → length seq < 2 ^ 31
    → top ≤ 2 ^ 30
    → l ≤ stop
    → stop ≤ length seq
    → IsInt k
    → Returns (λ wt. wt_quantile wt l stop k ≡ ok (negsuc 0)) (wt_build calloc seq top)
unfolding wt_quantile
wt_quantile-none calloc seq top l stop k zeroed small fits a b int_k =
    Returns-map (wt_build-Encodes calloc seq top zeroed (omega (arith, small)) fits)
      λ wt (s, e). quantile_loop-none wt.root 0 top l stop k seq e a b int_k
