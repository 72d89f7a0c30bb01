-- ===== src/Specialized/WaveletTree/Rank.antt =====
-- `wt_rank` counts a symbol in a prefix of the sequence.
use dsa_guide.Prelude.{
  ℕ, zero, suc, ◌+◌, ◌-◌, ◌/◌, ◌^◌, ◌<◌, ◌≤◌, ◌≡◌, inl, inr, refl, sym, ap, ◌∙◌, not, List, [], ◌∷◌,
  ◌++◌, leb, ◌==◌, if◌then◌else◌, Bool-cases, length, get_or, take, take-suc, replicate, ok,
  Returns, returns, Returns-bind, Returns-map, Returns-inv, ap₂, subst, arith,
}
use dsa_guide.Bitmap.{Bitmap, bm_test}
use dsa_guide.Bitmap.Single.{bm_set-member}
use dsa_guide.Specialized.WaveletTree.{
  WtNode, nil, wtnode, wt_build, count_loop, rank_loop, wt_rank,
}
use dsa_guide.Specialized.WaveletTree.Split.{
  lefts, rights, side, HasBits, Encodes, wt_build_r-Encodes, midpoint-ok,
}

abbrev pub count : ℕ → List ℕ → ℕ
count c [] = 0
count c (x ∷ seq) = if x == c then suc (count c seq) else count c seq

-- How many of the first `i` values go left, and how many go right.
abbrev pub zeros : ℕ → List ℕ → ℕ → ℕ
zeros mid seq i = length (lefts mid (take i seq))

abbrev pub ones : ℕ → List ℕ → ℕ → ℕ
ones mid seq i = length (rights mid (take i seq))

length-lefts_last :
    (mid x : ℕ) (seq : List ℕ)
    → (length (lefts mid (seq ++ x ∷ [])) ≡ length (lefts mid seq) + (1 - side mid x))
      × (length (rights mid (seq ++ x ∷ [])) ≡ length (rights mid seq) + side mid x)
length-lefts_last mid x [] = ground arith
length-lefts_last mid x (y ∷ seq) = ground (arith, length-lefts_last mid x seq)

bm_test-side :
    (mid : ℕ) (seq : List ℕ) (bm : Bitmap) (j : ℕ)
    → HasBits mid seq bm
    → j < length seq
    → bm_test bm j ≡ ok (not (leb (get_or seq j 0) mid))
bm_test-side mid seq bm j b h =
    (bm_set-member bm j b.valid (omega (arith, b.room))).0 ∙ ground (arith, b.bits j h)

zeros-next :
    (mid : ℕ) (seq : List ℕ) (j : ℕ)
    → j < length seq
    → (zeros mid seq (j + 1) ≡ zeros mid seq j + (1 - side mid (get_or seq j 0)))
      × (ones mid seq (j + 1) ≡ ones mid seq j + side mid (get_or seq j 0))
zeros-next mid seq j h =
    let next : take (j + 1) seq ≡ take j seq ++ get_or seq j 0 ∷ [] =
      ap (λ t. take t seq) {x = j + 1} {y = suc j} (omega arith) ∙ take-suc j seq 0 h in
    let (l, r) = length-lefts_last mid (get_or seq j 0) (take j seq) in
    (ap (λ t. length (lefts mid t)) next ∙ l, ap (λ t. length (rights mid t)) next ∙ r)

-- The loop counts the values from `j` on, `k` of them, that go left and that go right.
pub count_loop-counts :
    (mid : ℕ) (seq : List ℕ) (bm : Bitmap) (k j z o : ℕ)
    → HasBits mid seq bm
    → j + k ≤ length seq
    → Returns
        (λ r.
          (r.0 + zeros mid seq j ≡ z + zeros mid seq (j + k))
          × (r.1 + ones mid seq j ≡ o + ones mid seq (j + k)))
        (count_loop k j z o bm)
unfolding count_loop
count_loop-counts mid seq bm zero j z o b h = returns (
  ap (λ (t : ℕ). z + zeros mid seq t) {x = j} {y = j + 0} (omega arith),
  ap (λ (t : ℕ). o + ones mid seq t) {x = j} {y = j + 0} (omega arith),
)
count_loop-counts mid seq bm (suc k) j z o b h =
    let x = get_or seq j 0 in
    let (nz, no_) = zeros-next mid seq j (omega arith) in
    let shift : j + 1 + k ≡ j + suc k = omega arith in
    let ez = ap (zeros mid seq) shift in
    let eo = ap (ones mid seq) shift in
    rw (bm_test-side mid seq bm j b (omega arith)) (elim (Bool-cases (leb x mid)) [
      | inl e ↦ rw e (
          Returns-map (count_loop-counts mid seq bm k (j + 1) (z + 1) o b (omega arith))
            λ r (p, q). (ground (arith, e, ez, nz), ground (arith, e, eo, no_)))
      | inr e ↦ rw e (
          Returns-map (count_loop-counts mid seq bm k (j + 1) z (o + 1) b (omega arith))
            λ r (p, q). (ground (arith, e, ez, nz), ground (arith, e, eo, no_)))
    ])

-- Every value is between `lo` and `hi`.
abbrev pub Within : ℕ → ℕ → List ℕ → Type 0
Within lo hi [] = Unit {0}
Within lo hi (x ∷ seq) = (lo ≤ x) × (x ≤ hi) × Within lo hi seq

lefts-Within : (lo hi mid : ℕ) (seq : List ℕ) → Within lo hi seq → Within lo mid (lefts mid seq)
lefts-Within lo hi mid [] w = tt
lefts-Within lo hi mid (x ∷ seq) (a, b, w) = elim (Bool-cases (leb x mid)) [
  | inl e ↦ rw e (a, ground (arith, e), lefts-Within lo hi mid seq w)
  | inr e ↦ rw e (lefts-Within lo hi mid seq w)
]

rights-Within :
    (lo hi mid : ℕ) (seq : List ℕ) → Within lo hi seq → Within (mid + 1) hi (rights mid seq)
rights-Within lo hi mid [] w = tt
rights-Within lo hi mid (x ∷ seq) (a, b, w) = elim (Bool-cases (leb x mid)) [
  | inl e ↦ rw e (rights-Within lo hi mid seq w)
  | inr e ↦ rw e (ground (arith, e), b, rights-Within lo hi mid seq w)
]

-- A symbol is counted on its side.
count-lefts :
    (mid c i : ℕ) (seq : List ℕ)
    → c ≤ mid
    → count c (take i seq) ≡ count c (take (zeros mid seq i) (lefts mid seq))
count-lefts mid c zero seq h = refl
count-lefts mid c (suc i) [] h = refl
count-lefts mid c (suc i) (x ∷ seq) h = elim (Bool-cases (leb x mid)) [
  | inl e ↦ rw e (ground (arith, count-lefts mid c i seq h))
  | inr e ↦ rw e (ground (arith, e, count-lefts mid c i seq h))
]

count-rights :
    (mid c i : ℕ) (seq : List ℕ)
    → mid < c
    → count c (take i seq) ≡ count c (take (ones mid seq i) (rights mid seq))
count-rights mid c zero seq h = refl
count-rights mid c (suc i) [] h = refl
count-rights mid c (suc i) (x ∷ seq) h = elim (Bool-cases (leb x mid)) [
  | inl e ↦ rw e (ground (arith, e, count-rights mid c i seq h))
  | inr e ↦ rw e (ground (arith, count-rights mid c i seq h))
]

count-one_symbol :
    (c i : ℕ) (seq : List ℕ) → Within c c seq → i ≤ length seq → count c (take i seq) ≡ i
count-one_symbol c zero seq w h = refl
count-one_symbol c (suc i) [] w h = absurd (omega arith)
count-one_symbol c (suc i) (x ∷ seq) (a, b, w) h = ground (arith, count-one_symbol c i seq w)

pub zeros-le :
    (mid i : ℕ) (seq : List ℕ)
    → i ≤ length seq
    → (zeros mid seq i + ones mid seq i ≡ i)
      × (zeros mid seq i ≤ length (lefts mid seq))
      × (ones mid seq i ≤ length (rights mid seq))
zeros-le mid zero seq h = omega arith
zeros-le mid (suc i) [] h = absurd (omega arith)
zeros-le mid (suc i) (x ∷ seq) h = ground (arith, zeros-le mid i seq)

-- From the first position, and in general between two positions.
pub count_loop-prefix :
    (mid : ℕ) (seq : List ℕ) (bm : Bitmap) (i : ℕ)
    → HasBits mid seq bm
    → i ≤ length seq
    → count_loop i 0 0 0 bm ≡ ok (zeros mid seq i, ones mid seq i)
count_loop-prefix mid seq bm i b h =
    let (r, e, (l, o)) = Returns-inv (count_loop-counts mid seq bm i 0 0 0 b (omega (arith, h))) in
    let s : 0 + i ≡ i = omega arith in
    e
    ∙ ap ok (
        ap₂ (λ x y. (x, y)) (omega (arith, l, ap (zeros mid seq) s))
          (omega (arith, o, ap (ones mid seq) s)))

pub rank_loop-count :
    (node : WtNode) (lo hi c i : ℕ) (seq : List ℕ)
    → Encodes lo hi seq node
    → Within lo hi seq
    → lo ≤ c
    → c ≤ hi
    → i ≤ length seq
    → hi ≤ 2 ^ 30
    → rank_loop node c i ≡ ok (count c (take i seq))
unfolding rank_loop Encodes
rank_loop-count nil lo hi c i seq (inl e) w a b h fits = ap ok (none_left seq i (omega (arith, e)))
  where
    none_left : (l : List ℕ) (k : ℕ) → k ≤ 0 → k ≡ count c (take k l)
    none_left l zero q = refl
    none_left l (suc k) q = absurd (omega arith)
rank_loop-count nil lo hi c i seq (inr e) w a b h fits = ap ok (
    sym (
      count-one_symbol c i seq
        (subst (λ t. Within t c seq) {x = lo} (omega (arith, e))
          (subst (λ t. Within lo t seq) {x = hi} (omega (arith, e)) w))
        h))
rank_loop-count (wtnode low high n bm left right) lo hi c i seq (p, q, below, b, el, er) w from to h
      fits =
    let mid = (lo + hi) / 2 in
    let (sum, lz, lo_) = zeros-le mid i seq h in
    rw (p, q, midpoint-ok lo hi (omega (arith, fits, below)), count_loop-prefix mid seq bm i b h)
      (elim (Bool-cases (leb c mid)) [
        | inl e ↦ rw e (
            ap (rank_loop left c) {y = zeros mid seq i} (omega (arith, sum))
            ∙ rank_loop-count left lo mid c (zeros mid seq i) (lefts mid seq) el
                (lefts-Within lo hi mid seq w) from (ground (arith, e)) lz
                (omega (arith, fits, below))
            ∙ ap ok (sym (count-lefts mid c i seq (ground (arith, e)))))
        | inr e ↦ rw e (
            rank_loop-count right (mid + 1) hi c (ones mid seq i) (rights mid seq) er
              (rights-Within lo hi mid seq w) (ground (arith, e)) to lo_ fits
            ∙ ap ok (sym (count-rights mid c i seq (ground (arith, e)))))
      ])

-- The tree that `wt_build` makes, and the sequence that it keeps.
pub wt_build-Encodes :
    (calloc : ℕ → List ℕ) (seq : List ℕ) (top : ℕ)
    → ((n : ℕ) → calloc n ≡ replicate n 0)
    → length seq + 63 < 2 ^ 64
    → top ≤ 2 ^ 30
    → Returns (λ wt. (wt.seq ≡ seq) × Encodes 0 top seq wt.root) (wt_build calloc seq top)
unfolding wt_build
wt_build-Encodes calloc seq top zeroed small fits =
    Returns-bind
      (wt_build_r-Encodes calloc zeroed (suc top) seq 0 top small (omega arith) (omega arith) fits)
      λ root e. returns (refl, e)

-- With `calloc` giving zeros, a length that an `int` holds, and symbols from 0 to `top`, which is at most
-- 2^30 so that no sum of two bounds overflows, `wt_build` returns, and then `wt_rank` of a
-- symbol and a position up to the length returns how often the symbol stands before the position.
pub wt_rank-count :
    (calloc : ℕ → List ℕ) (seq : List ℕ) (top c i : ℕ)
    → ((n : ℕ) → calloc n ≡ replicate n 0)
    → length seq < 2 ^ 31
    → top ≤ 2 ^ 30
    → Within 0 top seq
    → c ≤ top
    → i ≤ length seq
    → Returns (λ wt. wt_rank wt c i ≡ ok (count c (take i seq))) (wt_build calloc seq top)
unfolding wt_rank
wt_rank-count calloc seq top c i zeroed small fits w in_range h =
    Returns-map (wt_build-Encodes calloc seq top zeroed (omega (arith, small)) fits)
      λ wt (s, e). rank_loop-count wt.root 0 top c i seq e w (omega arith) in_range h fits
