-- ===== src/Linear/Circular.antt =====
-- The cells of a circular block, read from a start index on: what the queue, the deque and the ring
-- buffer have in common.
use native.Mathlib.Nat.{mod-lt, mod-eq_of_lt, mod-add-mod, mod-eq-sub-mod}
use dsa_guide.Prelude.{
  ℕ, zero, suc, ◌+◌, ◌-◌, ◌%◌, ◌≤◌, ◌<◌, ◌≡◌, ◌≢◌, refl, sym, ap, ap₂, ◌∙◌, List, [], ◌∷◌, ◌++◌, ℤ,
  pos, arith, Run, ok, undefined, ltb, if◌then◌else◌, ◌&&◌, ◌^◌, length, get_or, set, get_or-set,
  dec_lt,
}

-- What a read past the block would give; no lemma below depends on it.
abbrev pub junk : ℤ
junk = pos 0

-- `i % (int)capacity` on `int`s: undefined where the sum `i` or the capacity is not an `int`, and for
-- the capacity 0.
unfoldable pub wrap_index : ℕ → ℕ → Run ℕ
wrap_index i capacity =
    if ltb i (2 ^ 31) && ltb 0 capacity && ltb capacity (2 ^ 31)
    then ok (i % capacity)
    else undefined

pub wrap_index-ok :
    (i capacity : ℕ)
    → i < 2 ^ 31
    → 0 < capacity
    → capacity < 2 ^ 31
    → wrap_index i capacity ≡ ok (i % capacity)
unfolding wrap_index
wrap_index-ok i capacity h p q = ground arith

module _ (block : List ℤ) (limit : ℕ) where
  abbrev pub cell : ℕ → ℤ
  cell i = get_or block (i % limit) junk

  -- The `n` cells from index `i` on, going round at `limit`.
  abbrev pub cells : ℕ → ℕ → List ℤ
  cells i zero = []
  cells i (suc n) = cell i ∷ cells (i + 1) n

  pub length-cells : (i n : ℕ) → length (cells i n) ≡ n
  length-cells i zero = refl
  length-cells i (suc n) = ap suc (length-cells (i + 1) n)

  pub cells-suc : (i n : ℕ) → 0 < n → cells i n ≡ cell i ∷ cells (i + 1) (n - 1)
  cells-suc i zero h = absurd (omega arith)
  cells-suc i (suc n) h = ap (λ k. cell i ∷ cells (i + 1) k) (omega arith)

  pub cells-snoc : (i n : ℕ) → cells i (suc n) ≡ cells i n ++ cell (i + n) ∷ []
  cells-snoc i zero = ap (λ k. cell k ∷ []) (omega arith)
  cells-snoc i (suc n) =
      ap (◌∷◌ (cell i))
        (cells-snoc (i + 1) n ∙ ap (λ k. cells (i + 1) n ++ cell k ∷ []) (omega arith))

  -- Only the start modulo `limit` matters.
  pub cells-mod : (i j n : ℕ) → i % limit ≡ j % limit → cells i n ≡ cells j n
  cells-mod i j zero h = refl
  cells-mod i j (suc n) h =
      ap₂ (λ k t. get_or block k junk ∷ t) h (cells-mod (i + 1) (j + 1) n next)
    where
      next : (i + 1) % limit ≡ (j + 1) % limit
      next = sym (mod-add-mod i limit 1) ∙ ap (λ k. (k + 1) % limit) h ∙ mod-add-mod j limit 1

-- Fewer than `limit` steps round the ring do not come back to the same cell.
pub add-mod-ne : (limit i k : ℕ) → 0 < k → k < limit → i % limit ≢ (i + k) % limit
add-mod-ne limit i k pos_k small e = elim (dec_lt (i % limit + k) limit) [
  | yes p ↦ omega (arith, mod-add-mod i limit k, mod-eq_of_lt p)
  | no p ↦ omega (
    arith,
    mod-add-mod i limit k,
    mod-lt i {m = limit} (omega arith),
    mod-eq-sub-mod {n = i % limit + k} {m = limit} (omega arith),
    mod-eq_of_lt {n = i % limit + k - limit} {m = limit}
        (omega (arith, mod-lt i {m = limit} (omega arith))),
  )
]

cells-set_other :
    (block : List ℤ) (limit t : ℕ) (v : ℤ)
    → t < length block
    → (i n : ℕ) → ((k : ℕ) → k < n → t ≢ (i + k) % limit)
    → cells (set block t v) limit i n ≡ cells block limit i n
cells-set_other block limit t v ht i zero other = refl
cells-set_other block limit t v ht i (suc n) other =
    ap₂ ◌∷◌ first
      (cells-set_other block limit t v ht (i + 1) n λ k hk. moved k (other (k + 1) (omega arith)))
  where
    here : t ≢ i % limit
    here = λ e. other 0 (omega arith) (e ∙ ap (λ k. k % limit) (omega arith))

    first : get_or (set block t v) (i % limit) junk ≡ get_or block (i % limit) junk
    first = ground (arith, get_or-set block t (i % limit) v junk, here)

    moved : (k : ℕ) → t ≢ (i + (k + 1)) % limit → t ≢ (i + 1 + k) % limit
    moved k h e = h (e ∙ ap (λ j. j % limit) (omega arith))

module _ (block : List ℤ) (limit i n : ℕ) (v : ℤ) (fits : limit ≤ length block)
    (room : n < limit) where
  written : (j : ℕ) → get_or (set block (j % limit) v) (j % limit) junk ≡ v
  written j =
      ground
        (arith, get_or-set block (j % limit) (j % limit) v junk, mod-lt j {m = limit} (omega arith))

  -- Writing the cell behind a run leaves the run alone, and extends it at its end.
  pub cells-set_behind : cells (set block ((i + n) % limit) v) limit i n ≡ cells block limit i n
  cells-set_behind =
      cells-set_other block limit _ v (omega (arith, mod-lt (i + n) {m = limit} (omega arith))) i n
        λ k hk e.
          add-mod-ne limit (i + k) (n - k) (omega arith) (omega arith)
            (sym e ∙ ap (λ j. j % limit) (omega arith))

  pub cells-set_last :
      cells (set block ((i + n) % limit) v) limit i (suc n) ≡ cells block limit i n ++ v ∷ []
  cells-set_last =
      cells-snoc (set block ((i + n) % limit) v) limit i n
      ∙ ap₂ (λ l x. l ++ x ∷ []) cells-set_behind (written (i + n))

  -- Writing the cell before a run extends the run at its front.
  pub cells-set_first :
      cells (set block (i % limit) v) limit i (suc n) ≡ v ∷ cells block limit (i + 1) n
  cells-set_first = ap₂ ◌∷◌ (written i) kept
    where
      kept : cells (set block (i % limit) v) limit (i + 1) n ≡ cells block limit (i + 1) n
      kept =
          cells-set_other block limit _ v (omega (arith, mod-lt i {m = limit} (omega arith)))
            (i + 1) n
            λ k hk e.
              add-mod-ne limit i (suc k) (omega arith) (omega arith)
                (e ∙ ap (λ j. j % limit) (omega arith))
