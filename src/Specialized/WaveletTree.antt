-- ===== src/Specialized/WaveletTree.antt =====
-- src/specialized/wavelet_tree.c. The symbols are the numbers from 0 to `top`, where `sigma` is top + 1.
pub mod Split
pub mod Rank
pub mod Select
pub mod Quantile
use dsa_guide.Prelude.{
  ℕ, zero, suc, ◌+◌, ◌-◌, ◌/◌, Bool, ◌&&◌, ◌||◌, List, [], ◌∷◌, ltb, leb, ◌==◌, if◌then◌else◌, ℤ,
  pos, negsuc, length, Run, ok, undefined, out_of_fuel, ◌^◌, as_int, ◌-ℤ◌, leb_ℤ, ◌>>=◌,
}
use dsa_guide.Bitmap.{Bitmap, bm_create, bm_set, bm_test}

-- `wtnode lo hi n bm left right`; `nil` is the null pointer.
pub data WtNode : Type 0 where
  nil : WtNode
  wtnode : ℕ → ℕ → ℕ → Bitmap → WtNode → WtNode → WtNode

pub record WaveletTree : Type 0 where
  pub root : WtNode
  pub seq : List ℕ
  pub n : ℕ
  pub sigma : ℕ

-- `(lo + hi) / 2` on `int`s from 0 on.
abbrev pub midpoint : ℕ → ℕ → Run ℕ
midpoint lo hi = if ltb (lo + hi) (2 ^ 31) then ok ((lo + hi) / 2) else undefined

-- The loop of `wt_build_r`, from position `i` on: what goes left, what goes right, and the bitmap.
pub split_loop : ℕ → ℕ → List ℕ → Bitmap → Run (List ℕ × List ℕ × Bitmap)
split_loop mid i [] bm = ok ([], [], bm)
split_loop mid i (x ∷ seq) bm = do
  marked ← (if leb x mid then ok bm else bm_set bm i)
  parts ← split_loop mid (i + 1) seq marked
  ok (if leb x mid then (x ∷ parts.0, parts.1, parts.2) else (parts.0, x ∷ parts.1, parts.2))

-- `calloc` is that of `bm_create`.
pub wt_build_r : (ℕ → List ℕ) → ℕ → List ℕ → ℕ → ℕ → Run WtNode
wt_build_r calloc zero seq lo hi = out_of_fuel
wt_build_r calloc (suc fuel) seq lo hi =
    let split : Run WtNode = (do
      mid ← midpoint lo hi
      parts ← split_loop mid 0 seq (bm_create calloc (length seq))
      left ← wt_build_r calloc fuel parts.0 lo mid
      right ← wt_build_r calloc fuel parts.1 (mid + 1) hi
      ok (wtnode lo hi (length seq) parts.2 left right)) in
    if length seq == 0 || lo == hi then ok nil else split

-- The alphabet halves in each call, and top + 1 calls on a path are enough.
pub wt_build : (ℕ → List ℕ) → List ℕ → ℕ → Run WaveletTree
wt_build calloc seq top = do
  root ← wt_build_r calloc (suc top) seq 0 top
  ok (record { root = root; seq = seq; n = length seq; sigma = top + 1 })

-- The loops over the bits from `j` on, with `k` left: they count the zeros, the ones, or both.
pub count_loop : ℕ → ℕ → ℕ → ℕ → Bitmap → Run (ℕ × ℕ)
count_loop zero j zeros ones bm = ok (zeros, ones)
count_loop (suc k) j zeros ones bm = do
  b ← bm_test bm j
  count_loop k (j + 1) (if b then zeros else zeros + 1) (if b then ones + 1 else ones) bm

-- The loop of `wt_rank`.
pub rank_loop : WtNode → ℕ → ℕ → Run ℕ
rank_loop nil c i = ok i
rank_loop (wtnode lo hi n bm left right) c i = do
  mid ← midpoint lo hi
  counts ← count_loop i 0 0 0 bm
  let in_left = rank_loop left c (i - counts.1)
  let in_right = rank_loop right c counts.1
  if leb c mid then in_left else in_right

pub wt_rank : WaveletTree → ℕ → ℕ → Run ℕ
wt_rank wt c i = rank_loop wt.root c i

-- The loop of `wt_select` from position `i` on.
pub select_loop : ℕ → ℕ → ℕ → ℕ → List ℕ → ℤ
select_loop c k i cnt [] = negsuc 0
select_loop c k i cnt (x ∷ seq) =
    let rest = select_loop c k (i + 1) (if x == c then cnt + 1 else cnt) seq in
    if x == c && cnt + 1 == k then pos i else rest

pub wt_select : WaveletTree → ℕ → ℕ → ℤ
wt_select wt c k = select_loop c k 0 0 wt.seq

-- The loop of `wt_quantile`, with `stop` for `r + 1`.
pub quantile_loop : WtNode → ℕ → ℕ → ℤ → Run ℤ
quantile_loop nil l stop k = ok (negsuc 0)
quantile_loop (wtnode lo hi n bm left right) l stop k =
    let descend : Run ℤ = (do
      inside ← count_loop (stop - l) l 0 0 bm
      before ← count_loop l 0 0 0 bm
      let in_left = quantile_loop left before.0 (before.0 + inside.0) k
      let ones = stop - l - inside.0
      let more = leb_ℤ k (pos inside.0)
      below ← (if more then ok k else as_int (k -ℤ pos inside.0))
      let in_right = quantile_loop right before.1 (before.1 + ones) below
      if more then in_left else in_right) in
    if ltb lo hi then descend else ok (pos lo)

-- `wt_quantile(wt, l, stop - 1, k)`
pub wt_quantile : WaveletTree → ℕ → ℕ → ℤ → Run ℤ
wt_quantile wt l stop k = quantile_loop wt.root l stop k
