-- ===== src/Specialized/WaveletTree/Split.antt =====
-- `wt_build`: which values go left and right at a node, and what its bitmap records.
use dsa_guide.Prelude.{
  ◌≢◌, ℕ, zero, suc, ◌+◌, ◌*◌, ◌/◌, ◌^◌, ◌<◌, ◌≤◌, ◌≡◌, ◌⊎◌, inl, inr, refl, sym, ap, ◌∙◌, true,
  false, ◌||◌, List, [], ◌∷◌, leb, ◌==◌, if◌then◌else◌, Bool-cases, length, get_or, replicate, ok,
  Returns, returns, Returns-bind, Returns-map, arith,
}
use dsa_guide.Bitmap.{Bitmap, bm_create, bm_set, member, IsValid}
use dsa_guide.Bitmap.Single.{Changed, bm_create-IsValid, bm_set-member}
use dsa_guide.Specialized.WaveletTree.{WtNode, nil, wtnode, midpoint, split_loop, wt_build_r}

abbrev pub lefts : ℕ → List ℕ → List ℕ
lefts mid [] = []
lefts mid (x ∷ seq) = if leb x mid then x ∷ lefts mid seq else lefts mid seq

abbrev pub rights : ℕ → List ℕ → List ℕ
rights mid [] = []
rights mid (x ∷ seq) = if leb x mid then rights mid seq else x ∷ rights mid seq

pub length-lefts :
    (mid : ℕ) (seq : List ℕ) → length (lefts mid seq) + length (rights mid seq) ≡ length seq
length-lefts mid [] = refl
length-lefts mid (x ∷ seq) = ground (arith, length-lefts mid seq)

-- The bit of a value: one when it goes right.
abbrev pub side : ℕ → ℕ → ℕ
side mid x = if leb x mid then 0 else 1

-- Bit `j` of the bitmap says where value `j` goes.
pub record HasBits (mid : ℕ) (seq : List ℕ) (bm : Bitmap) : Type 0 where
  pub valid : IsValid bm
  pub room : length seq ≤ 64 * bm.word_count
  pub bits : (j : ℕ) → j < length seq → member bm j ≡ side mid (get_or seq j 0)

record Marked (mid i : ℕ) (seq : List ℕ) (bm after : Bitmap) : Type 0 where
  valid : IsValid after
  count_eq : after.word_count ≡ bm.word_count
  before : (j : ℕ) → j < i → member after j ≡ member bm j
  bits : (j : ℕ) → j < length seq → member after (i + j) ≡ side mid (get_or seq j 0)

ℕ_cases : (j : ℕ) → (j ≡ 0) ⊎ ((k : ℕ) × (j ≡ suc k))
ℕ_cases zero = inl refl
ℕ_cases (suc k) = inr (k, refl)

mark-Changed :
    (mid i x : ℕ) (bm : Bitmap)
    → IsValid bm
    → i < 64 * bm.word_count
    → member bm i ≡ 0
    → Returns (Changed bm i (side mid x)) (if leb x mid then ok bm else bm_set bm i)
mark-Changed mid i x bm v inside clear = elim (Bool-cases (leb x mid)) [
  | inl e ↦ rw e (returns (v, refl, λ j. ground (arith, clear, ap (member bm) {x = i} {y = j})))
  | inr e ↦ rw e ((bm_set-member bm i v inside).1)
]

-- The first value and the others, marked one after the other.
Marked-cons :
    (mid i x : ℕ) (seq : List ℕ) (bm marked after : Bitmap)
    → Changed bm i (side mid x) marked
    → Marked mid (i + 1) seq marked after
    → Marked mid i (x ∷ seq) bm after
Marked-cons mid i x seq bm marked after (valid, same, now) m = record {
  valid = m.valid;
  count_eq = m.count_eq ∙ same;
  before = λ j h. m.before j (omega (arith, h)) ∙ ground (arith, now j, h);
  bits = λ j h. elim (ℕ_cases j) [
    | inl e ↦
        ap (member after) {x = i + j} {y = i} (omega (arith, e))
        ∙ m.before i (omega arith)
        ∙ ground (arith, now i)
        ∙ ap (λ k. side mid (get_or (x ∷ seq) k 0)) (sym e)
    | inr (k, e) ↦
        ap (member after) {x = i + j} {y = i + 1 + k} (omega (arith, e))
        ∙ m.bits k (omega (arith, e, h))
        ∙ ap (λ k. side mid (get_or (x ∷ seq) k 0)) (sym e)
  ];
}

split_loop-Marked :
    (mid i : ℕ) (seq : List ℕ) (bm : Bitmap)
    → IsValid bm
    → i + length seq ≤ 64 * bm.word_count
    → ((j : ℕ) → i ≤ j → member bm j ≡ 0)
    → Returns
        (λ r. (r.0 ≡ lefts mid seq) × (r.1 ≡ rights mid seq) × Marked mid i seq bm r.2)
        (split_loop mid i seq bm)
unfolding split_loop
split_loop-Marked mid i [] bm v room clear = returns (
  refl,
  refl,
  record {
    valid = v;
    count_eq = refl;
    before = λ j h. refl;
    bits = λ j h. absurd (omega (arith, h));
  },
)
split_loop-Marked mid i (x ∷ seq) bm v room clear =
    Returns-bind (mark-Changed mid i x bm v (omega arith) (clear i (omega arith))) λ marked c.
      Returns-bind
        (split_loop-Marked mid (i + 1) seq marked c.0 (omega (arith, c.1, room))
          λ j h. ground (arith, c.2 j, clear j, h))
        λ parts (l, r, m).
          let all = Marked-cons mid i x seq bm marked parts.2 c m in
          elim (Bool-cases (leb x mid)) [
            | inl e ↦ rw e (returns (ap (◌∷◌ x) l, r, all))
            | inr e ↦ rw e (returns (l, ap (◌∷◌ x) r, all))
          ]

-- The tree splits `seq`, the values of which are between `lo` and `hi`.
unfoldable pub Encodes : ℕ → ℕ → List ℕ → WtNode → Type 0
Encodes lo hi seq nil = (length seq ≡ 0) ⊎ (lo ≡ hi)
Encodes lo hi seq (wtnode low high n bm left right) =
    (low ≡ lo)
    × (high ≡ hi)
    × (lo < hi)
    × HasBits ((lo + hi) / 2) seq bm
    × Encodes lo ((lo + hi) / 2) (lefts ((lo + hi) / 2) seq) left
    × Encodes ((lo + hi) / 2 + 1) hi (rights ((lo + hi) / 2) seq) right

pub midpoint-ok : (lo hi : ℕ) → lo + hi < 2 ^ 31 → midpoint lo hi ≡ ok ((lo + hi) / 2)
midpoint-ok lo hi h = ground (arith, h)

stop_of : (n lo hi : ℕ) → (n == 0 || lo == hi) ≡ true → (n ≡ 0) ⊎ (lo ≡ hi)
stop_of n lo hi e = ground (arith, e)

more_than : (n lo hi : ℕ) → (n == 0 || lo == hi) ≡ false → lo ≢ hi
more_than n lo hi e = ground (arith, e)

module _ (calloc : ℕ → List ℕ) (zeroed : (n : ℕ) → calloc n ≡ replicate n 0) where
  split-HasBits :
      (mid : ℕ) (seq : List ℕ)
      → length seq + 63 < 2 ^ 64
      → Returns
          (λ r. (r.0 ≡ lefts mid seq) × (r.1 ≡ rights mid seq) × HasBits mid seq r.2)
          (split_loop mid 0 seq (bm_create calloc (length seq)))
  unfolding bm_create
  split-HasBits mid seq small =
      let (valid, clear) = bm_create-IsValid calloc (length seq) zeroed small in
      Returns-map
        (split_loop-Marked mid 0 seq (bm_create calloc (length seq)) valid
          (omega (arith, valid.enough)) λ j h. clear j)
        λ parts (l, r, m). (
          l,
          r,
          record {
            valid = m.valid;
            room = omega (arith, m.count_eq, valid.enough);
            bits = λ j h. ap (member parts.2) {x = j} {y = 0 + j} (omega arith) ∙ m.bits j h;
          },
        )

  pub wt_build_r-Encodes :
      (fuel : ℕ) (seq : List ℕ) (lo hi : ℕ)
      → length seq + 63 < 2 ^ 64
      → lo ≤ hi
      → hi < lo + fuel
      → hi ≤ 2 ^ 30
      → Returns (Encodes lo hi seq) (wt_build_r calloc fuel seq lo hi)
  unfolding wt_build_r Encodes
  wt_build_r-Encodes zero seq lo hi small below enough fits = absurd (omega arith)
  wt_build_r-Encodes (suc fuel) seq lo hi small below enough fits =
      let mid = (lo + hi) / 2 in
      elim (Bool-cases (length seq == 0 || lo == hi)) [
        | inl e ↦ rw e (returns (stop_of (length seq) lo hi e))
        | inr e ↦
            rw (e, midpoint-ok lo hi (omega (arith, fits, below, more_than (length seq) lo hi e)))
              (Returns-bind (split-HasBits mid seq small) λ parts (l, r, b).
                rw (l, r)
                  (Returns-bind
                    (wt_build_r-Encodes fuel (lefts mid seq) lo mid
                      (omega (arith, length-lefts mid seq, small)) (omega arith)
                      (omega (arith, more_than (length seq) lo hi e)) (omega (arith, fits, below)))
                    λ left el.
                      Returns-bind
                        (wt_build_r-Encodes fuel (rights mid seq) (mid + 1) hi
                          (omega (arith, length-lefts mid seq, small))
                          (omega (arith, more_than (length seq) lo hi e))
                          (omega (arith, more_than (length seq) lo hi e)) fits)
                        λ right er.
                          returns
                            (refl, refl, omega (arith, more_than (length seq) lo hi e), b, el, er)))
      ]
