-- ===== src/Probabilistic/CountMin/Count.antt =====
-- `cm_query` after any number of `cm_add`s.
use native.Mathlib.Nat.{mod-lt}
use dsa_guide.Prelude.{
  ℕ, zero, suc, ◌+◌, ◌-◌, ◌%◌, ◌^◌, ◌<◌, ◌≤◌, ◌≡◌, ◌≢◌, inl, inr, refl, sym, ap₂, ◌∙◌, Bool, true,
  false, ◌&&◌, List, [], ◌∷◌, ltb, ◌==◌, if◌then◌else◌, Bool-cases, ℕ_discrete, Run, ok, ◌>>=◌,
  load-ok, store-ok, length, get_or, set, replicate, length-replicate, length-set, get_or-set_self,
  get_or-set_ne, subst, Returns, returns, Returns-bind, Returns-map, arith,
}
use dsa_guide.Probabilistic.CountMin.{
  CountMin, cm_create, cm_hash, column, add_loop, cm_add, query_loop, cm_query,
}

abbrev pub same_bytes : List ℕ → List ℕ → Bool
same_bytes [] [] = true
same_bytes [] (q ∷ b) = false
same_bytes (p ∷ a) [] = false
same_bytes (p ∷ a) (q ∷ b) = p == q && same_bytes a b

same_bytes-eq : (a b : List ℕ) → same_bytes a b ≡ true → a ≡ b
same_bytes-eq [] [] e = refl
same_bytes-eq [] (q ∷ b) e = absurd (ground (arith, e))
same_bytes-eq (p ∷ a) [] e = absurd (ground (arith, e))
same_bytes-eq (p ∷ a) (q ∷ b) e =
    ap₂ ◌∷◌ {x = p} {y = q} (ground (arith, e)) (same_bytes-eq a b (ground (arith, e)))

abbrev pub cell : List ℕ → ℕ → ℕ
cell row j = get_or row j 0

abbrev pub at : ℕ → List ℕ → ℕ → ℕ
at w bytes i = cm_hash bytes i % w

-- In each row from `i` on, the cell of the key is at least `low`, and no cell is past `high`.
unfoldable pub Rows : ℕ → List ℕ → ℕ → ℕ → ℕ → List (List ℕ) → Type 0
Rows w bytes low high i [] = Unit
Rows w bytes low high i (row ∷ rows) =
    (length row ≡ w)
    × (low ≤ cell row (at w bytes i))
    × ((j : ℕ) → cell row j ≤ high)
    × Rows w bytes low high (i + 1) rows

column-at : (w : ℕ) (bytes : List ℕ) (i : ℕ) → 1 ≤ w → column w bytes i ≡ ok (at w bytes i)
unfolding column
column-at w bytes i h = ground arith

-- What an addition under `key` counts for `bytes`.
abbrev pub counted : List ℕ → List ℕ → ℕ → ℕ
counted bytes key count = if same_bytes bytes key then count else 0

module _ (w : ℕ) (positive : 1 ≤ w) (bytes key : List ℕ) (low high count : ℕ)
    (fits : high + count < 2 ^ 32) where
  -- One row.
  module _ (i : ℕ) (row : List ℕ) (sized : length row ≡ w) (least : low ≤ cell row (at w bytes i))
      (most : (j : ℕ) → cell row j ≤ high) where
    abbrev added : List ℕ
    added = set row (at w key i) ((cell row (at w key i) + count) % 2 ^ 32)

    within : at w key i < length row
    within = omega (arith, sized, mod-lt (cm_hash key i) positive)

    here : cell added (at w key i) ≡ cell row (at w key i) + count
    here =
        get_or-set_self row (at w key i) ((cell row (at w key i) + count) % 2 ^ 32) 0 within
        ∙ omega (arith, most (at w key i))

    elsewhere : (j : ℕ) → at w key i ≢ j → cell added j ≡ cell row j
    elsewhere j ne =
        get_or-set_ne row (at w key i) j ((cell row (at w key i) + count) % 2 ^ 32) 0 ne

    added-most : (j : ℕ) → cell added j ≤ high + count
    added-most j = elim (ℕ_discrete (at w key i) j) [
      | yes e ↦ subst (λ k. cell added k ≤ high + count) e (omega (arith, here, most (at w key i)))
      | no ne ↦ omega (arith, elsewhere j ne, most j)
    ]

    added-least : low + counted bytes key count ≤ cell added (at w bytes i)
    added-least = elim (Bool-cases (same_bytes bytes key)) [
      | inl e ↦ rw e (
          subst (λ k. low + count ≤ cell added (at w k i)) (sym (same_bytes-eq bytes key e))
            (omega (
              arith,
              here,
              subst (λ k. low ≤ cell row (at w k i)) (same_bytes-eq bytes key e) least,
            )))
      | inr e ↦ rw e (elim (ℕ_discrete (at w key i) (at w bytes i)) [
        | yes d ↦
            subst (λ k. low + 0 ≤ cell added k) d
              (omega (arith, here, subst (λ k. low ≤ cell row k) (sym d) least))
        | no ne ↦ omega (arith, elsewhere (at w bytes i) ne, least)
      ])
    ]

  add_loop-Rows :
      (i : ℕ) (rows : List (List ℕ))
      → Rows w bytes low high i rows
      → Returns
          (λ after.
            Rows w bytes (low + counted bytes key count) (high + count) i after
            × (length after ≡ length rows))
          (add_loop w key count i rows)
  unfolding Rows add_loop
  add_loop-Rows i [] r = returns (tt, refl)
  add_loop-Rows i (row ∷ rows) (sized, least, most, r) =
      rw
        (
          column-at w key i positive,
          load-ok row (at w key i) 0 (within i row sized least most),
          store-ok row (at w key i) ((cell row (at w key i) + count) % 2 ^ 32)
              (within i row sized least most),
        )
        (Returns-bind (add_loop-Rows (i + 1) rows r) λ rest (d, n). returns (
          (
            length-set row (at w key i) ((cell row (at w key i) + count) % 2 ^ 32) ∙ sized,
            added-least i row sized least most,
            added-most i row sized least most,
            d,
          ),
          omega (arith, n),
        ))

pub query_loop-least :
    (w : ℕ) (positive : 1 ≤ w) (bytes : List ℕ) (low high least i : ℕ) (rows : List (List ℕ))
    → Rows w bytes low high i rows
    → low ≤ least
    → Returns (λ m. low ≤ m) (query_loop w bytes least i rows)
unfolding Rows query_loop
query_loop-least w positive bytes low high least i [] r h = returns h
query_loop-least w positive bytes low high least i (row ∷ rows) (sized, here, most, r) h =
    rw
      (
        column-at w bytes i positive,
        load-ok row (at w bytes i) 0 (omega (arith, sized, mod-lt (cm_hash bytes i) positive)),
      )
      (query_loop-least w positive bytes low high
        (if ltb (cell row (at w bytes i)) least then cell row (at w bytes i) else least) (i + 1)
        rows r (ground (arith, here)))

-- A history of additions, each a key and its count, and what it adds up to for one key and for all.
abbrev pub adds : List (List ℕ × ℕ) → CountMin → Run CountMin
adds [] cm = ok cm
adds ((key, count) ∷ history) cm = cm_add cm key count >>= λ after. adds history after

abbrev pub true_count : List ℕ → List (List ℕ × ℕ) → ℕ
true_count bytes [] = 0
true_count bytes ((key, count) ∷ history) = counted bytes key count + true_count bytes history

abbrev pub all_counts : List (List ℕ × ℕ) → ℕ
all_counts [] = 0
all_counts ((key, count) ∷ history) = count + all_counts history

pub true-le-all :
    (bytes : List ℕ) (history : List (List ℕ × ℕ)) → true_count bytes history ≤ all_counts history
true-le-all bytes [] = omega arith
true-le-all bytes ((key, count) ∷ history) = elim (Bool-cases (same_bytes bytes key)) [
  | inl e ↦ rw e (omega (arith, true-le-all bytes history))
  | inr e ↦ rw e (omega (arith, true-le-all bytes history))
]

-- The sketch has the width `w` and the depth `depth`, and its rows have counted enough.
pub record Counted (w depth : ℕ) (bytes : List ℕ) (low high : ℕ) (cm : CountMin) : Type 0 where
  pub width : cm.w ≡ w
  pub depth_eq : length cm.table ≡ depth
  pub rows : Rows w bytes low high 0 cm.table

Counted-eq :
    {w depth : ℕ} {bytes : List ℕ} {low high low' high' : ℕ} {cm : CountMin}
    → low ≡ low'
    → high ≡ high'
    → Counted w depth bytes low high cm
    → Counted w depth bytes low' high' cm
Counted-eq {w} {depth} {bytes} {low} {high' = h} {cm} e d c =
    subst (λ n. Counted w depth bytes n h cm) e (subst (λ n. Counted w depth bytes low n cm) d c)

cm_add-Counted :
    (w depth : ℕ) (bytes key : List ℕ) (low high count : ℕ) (cm : CountMin)
    → 1 ≤ w
    → high + count < 2 ^ 32
    → Counted w depth bytes low high cm
    → Returns
        (Counted w depth bytes (low + counted bytes key count) (high + count))
        (cm_add cm key count)
unfolding cm_add
cm_add-Counted w depth bytes key low high count cm positive fits c = rw c.width (
    Returns-bind (add_loop-Rows w positive bytes key low high count fits 0 cm.table c.rows)
      λ table (d, n). returns (record { width = refl; depth_eq = n ∙ c.depth_eq; rows = d }))

pub adds-Counted :
    (w depth : ℕ) (bytes : List ℕ) (history : List (List ℕ × ℕ)) (low high : ℕ) (cm : CountMin)
    → 1 ≤ w
    → high + all_counts history < 2 ^ 32
    → Counted w depth bytes low high cm
    → Returns
        (Counted w depth bytes (low + true_count bytes history) (high + all_counts history))
        (adds history cm)
adds-Counted w depth bytes [] low high cm positive fits c =
    returns (Counted-eq (omega arith) (omega arith) c)
adds-Counted w depth bytes ((key, count) ∷ history) low high cm positive fits c =
    Returns-bind (cm_add-Counted w depth bytes key low high count cm positive (omega arith) c)
      λ after d.
        Returns-map
          (adds-Counted w depth bytes history (low + counted bytes key count) (high + count) after
            positive (omega arith) d)
          λ r e. Counted-eq (omega arith) (omega arith) e

cell-replicate : (w j : ℕ) → cell (replicate w 0) j ≡ 0
cell-replicate zero j = refl
cell-replicate (suc w) zero = refl
cell-replicate (suc w) (suc j) = cell-replicate w j

Rows-zero : (w d i : ℕ) (bytes : List ℕ) → Rows w bytes 0 0 i (replicate d (replicate w 0))
unfolding Rows
Rows-zero w zero i bytes = tt
Rows-zero w (suc d) i bytes = (
  length-replicate w 0,
  omega arith,
  λ j. omega (arith, cell-replicate w j),
  Rows-zero w d (i + 1) bytes,
)

pub cm_create-Counted : (w d : ℕ) (bytes : List ℕ) → Counted w d bytes 0 0 (cm_create w d)
unfolding cm_create
cm_create-Counted w d bytes = record {
  width = refl;
  depth_eq = length-replicate d (replicate w 0);
  rows = Rows-zero w d 0 bytes;
}

-- After any history of `cm_add`s on a new sketch of width at least 1, whose counts together fit 32 bits,
-- `cm_query` of a key returns no less than what was added under that key.
pub cm_query-true_count :
    (w d : ℕ) (bytes : List ℕ) (history : List (List ℕ × ℕ))
    → 1 ≤ w
    → all_counts history < 2 ^ 32
    → Returns
        (λ m. true_count bytes history ≤ m)
        (adds history (cm_create w d) >>= λ cm. cm_query cm bytes)
unfolding cm_query
cm_query-true_count w d bytes history positive fits =
    Returns-bind
      (adds-Counted w d bytes history 0 0 (cm_create w d) positive (omega arith)
        (cm_create-Counted w d bytes))
      λ cm c. rw c.width (
        Returns-map
          (query_loop-least w positive bytes (0 + true_count bytes history) (0 + all_counts history)
            (2 ^ 32 - 1) 0 cm.table c.rows (omega (arith, true-le-all bytes history)))
          λ m h. omega (arith, h))
