-- ===== src/Probabilistic/HyperLogLog/Merge.antt =====
-- `hll_merge` is the union of what was added.
use Prim.Native.Nat.{max}
use native.Mathlib.Nat.{div-lt_iff_lt-mul, one-le-pow, pow-suc}
use dsa_guide.Prelude.{
  ℕ, zero, suc, ◌+◌, ◌-◌, ◌*◌, ◌/◌, ◌%◌, ◌^◌, ◌<◌, ◌≤◌, ◌≡◌, inl, inr, refl, sym, ap, ap₂, ◌∙◌,
  false, List, [], ◌∷◌, ◌++◌, ltb, ◌==◌, if◌then◌else◌, Bool-cases, ℕ_discrete, length,
  length-replicate, length-set, replicate, get_or, get_or-set, load-ok, store-ok, Run, ok, ◌>>=◌,
  Returns, returns, Returns-bind, Returns-map, Returns-inv, arith,
}
use dsa_guide.Probabilistic.Bloom.Single.{murmur_mix-lt}
use dsa_guide.Probabilistic.HyperLogLog.{
  HyperLogLog, hll_hash, clz64, hll_create, raise, hll_add, merge_loop, hll_merge,
}

-- Lists of one length with the same cells are equal.
list_eq :
    (a b : List ℕ)
    → length a ≡ length b
    → ((i : ℕ) → i < length a → get_or a i 0 ≡ get_or b i 0)
    → a ≡ b
list_eq [] [] n h = refl
list_eq [] (y ∷ b) n h = absurd (omega (arith, n))
list_eq (x ∷ a) [] n h = absurd (omega (arith, n))
list_eq (x ∷ a) (y ∷ b) n h =
    ap (◌∷◌ x) (list_eq a b (omega (arith, n)) (λ i k. h (suc i) (omega (arith, k))))
    ∙ ap (λ t. t ∷ b) (h zero (omega arith))

module _ (registers : List ℕ) (reg rank : ℕ) (inside : reg < length registers) where
  -- One register is raised.
  record Raised (after : List ℕ) : Type 0 where
    size : length after ≡ length registers
    cells :
        (i : ℕ)
        → get_or after i 0
          ≡ (if reg == i then max (get_or registers i 0) rank else get_or registers i 0)

  raise-Raised : Returns Raised (raise registers reg rank)
  raise-Raised =
      rw (load-ok registers reg 0 inside) (elim (Bool-cases (ltb (get_or registers reg 0) rank)) [
        | inl e ↦
            rw (e, store-ok registers reg rank inside)
              (returns (record {
                size = length-set registers reg rank;
                cells = λ i. ground (
                  arith,
                  get_or-set registers reg i rank 0 inside,
                  e,
                  ap (λ j. get_or registers j 0) {x = reg} {y = i},
                );
              }))
        | inr e ↦ rw e (
            returns (record {
              size = refl;
              cells = λ i. ground (arith, e, ap (λ j. get_or registers j 0) {x = reg} {y = i});
            }))
      ])

merge_loop-cells :
    (k i : ℕ) (dst src : List ℕ)
    → i + k ≡ length dst
    → length src ≡ length dst
    → Returns
        (λ after.
          (length after ≡ length dst)
          × ((j : ℕ) → j < i → get_or after j 0 ≡ get_or dst j 0)
          × ((j : ℕ)
              → i ≤ j
              → j < length dst
              → get_or after j 0 ≡ max (get_or dst j 0) (get_or src j 0)))
        (merge_loop k i dst src)
unfolding merge_loop
merge_loop-cells zero i dst src n m =
    returns (refl, λ j h. refl, λ j a b. absurd (omega (arith, n, a, b)))
merge_loop-cells (suc k) i dst src n m = rw (load-ok src i 0 (omega (arith, n, m))) (
    Returns-bind (raise-Raised dst i (get_or src i 0) (omega (arith, n))) λ mid r.
      Returns-map
        (merge_loop-cells k (i + 1) mid src (omega (arith, n, r.size)) (omega (arith, m, r.size)))
        λ after (size, before, later). (
          size ∙ r.size,
          λ j h. before j (omega (arith, h)) ∙ r.cells j ∙ ground (arith, h),
          λ j a b. elim (ℕ_discrete i j) [
            | yes e ↦
                before j (omega (arith, e))
                ∙ r.cells j
                ∙ ground (arith, e, ap (λ t. get_or src t 0) e)
            | no ne ↦
                later j (omega (arith, a, ne)) (omega (arith, b, r.size))
                ∙ ap (λ t. max t (get_or src j 0)) (r.cells j ∙ ground (arith, ne))
          ],
        ))

-- The register of a key, and the rank that it is raised to.
abbrev reg_of : ℕ → List ℕ → ℕ
reg_of b bytes = hll_hash bytes / 2 ^ (64 - b)

abbrev rank_of : (ℕ → ℕ) → ℕ → List ℕ → ℕ
rank_of clzll b bytes = (clz64 clzll (hll_hash bytes * 2 ^ b % 2 ^ 64) + 1) % 2 ^ 8

split_pow : (b n : ℕ) → b ≤ n → 2 ^ b * 2 ^ (n - b) ≡ 2 ^ n
split_pow zero n h = ap (λ t. 2 ^ 0 * 2 ^ t) {x = n - 0} {y = n} (omega arith) ∙ omega arith
split_pow (suc b) zero h = absurd (omega (arith, h))
split_pow (suc b) (suc n) h =
    ap (λ t. 2 ^ suc b * 2 ^ t) {x = suc n - suc b} {y = n - b} (omega arith)
    ∙ ap (λ (t : ℕ). t * 2 ^ (n - b)) (pow-suc 2 b)
    ∙ mul_swap (2 ^ b) (2 ^ (n - b))
    ∙ ap (λ (t : ℕ). t * 2) (split_pow b n (omega (arith, h)))
    ∙ sym (pow-suc 2 n)
  where
    mul_swap : (x y : ℕ) → x * 2 * y ≡ x * y * 2
    mul_swap x y = grind arith

reg_of-lt : (b : ℕ) (bytes : List ℕ) → b ≤ 64 → reg_of b bytes < 2 ^ b
unfolding hll_hash
reg_of-lt b bytes h =
    (div-lt_iff_lt-mul (one-le-pow (64 - b) 2 (omega arith))).1
      (rw (split_pow b 64 h) (murmur_mix-lt _))

-- What a history of keys raises register `i` to.
abbrev best : (ℕ → ℕ) → ℕ → ℕ → List (List ℕ) → ℕ
best clzll b i [] = 0
best clzll b i (bytes ∷ history) =
    max (if reg_of b bytes == i then rank_of clzll b bytes else 0) (best clzll b i history)

best-append :
    (clzll : ℕ → ℕ) (b i : ℕ) (h k : List (List ℕ))
    → best clzll b i (h ++ k) ≡ max (best clzll b i h) (best clzll b i k)
best-append clzll b i [] k = ground arith
best-append clzll b i (bytes ∷ h) k = ground (arith, best-append clzll b i h k)

-- The keys of a history, added one after the other.
abbrev pub adds : (ℕ → ℕ) → List (List ℕ) → HyperLogLog → Run HyperLogLog
adds clzll [] hll = ok hll
adds clzll (bytes ∷ history) hll = hll_add clzll hll bytes >>= λ after. adds clzll history after

hll_add-Raised :
    (clzll : ℕ → ℕ) (bytes : List ℕ) (hll : HyperLogLog) (low : 1 ≤ hll.b)
    (inside : reg_of hll.b bytes < length hll.registers)
    → Returns
        (λ mid.
          (mid.b ≡ hll.b)
          × (mid.m ≡ hll.m)
          × Raised hll.registers
              (reg_of hll.b bytes)
              (rank_of clzll hll.b bytes)
              inside
              mid.registers)
        (hll_add clzll hll bytes)
unfolding hll_add
hll_add-Raised clzll bytes hll low inside = rw (shifts hll.b low) (
    Returns-bind
      (raise-Raised hll.registers (reg_of hll.b bytes) (rank_of clzll hll.b bytes) inside)
      λ registers r. returns (refl, refl, r))
  where
    shifts : (b : ℕ) → 1 ≤ b → (b == 0) ≡ false
    shifts b h = ground arith

record HasBest (clzll : ℕ → ℕ) (before : HyperLogLog) (history : List (List ℕ))
    (after : HyperLogLog) : Type 0 where
  b_eq : after.b ≡ before.b
  m_eq : after.m ≡ before.m
  size : length after.registers ≡ length before.registers
  cells :
      (i : ℕ)
      → get_or after.registers i 0
        ≡ max (get_or before.registers i 0) (best clzll before.b i history)

adds-HasBest :
    (clzll : ℕ → ℕ) (history : List (List ℕ)) (hll : HyperLogLog)
    → 1 ≤ hll.b
    → hll.b ≤ 64
    → length hll.registers ≡ 2 ^ hll.b
    → Returns (HasBest clzll hll history) (adds clzll history hll)
adds-HasBest clzll [] hll low high size =
    returns (record { b_eq = refl; m_eq = refl; size = refl; cells = λ i. ground arith })
adds-HasBest clzll (bytes ∷ history) hll low high size =
    Returns-bind
      (hll_add-Raised clzll bytes hll low (omega (arith, size, reg_of-lt hll.b bytes high)))
      λ mid (be, me, r).
        Returns-map
          (adds-HasBest clzll history mid (omega (arith, be, low)) (omega (arith, be, high))
            (r.size ∙ size ∙ ap (λ t. 2 ^ t) (sym be)))
          λ after d. record {
            b_eq = d.b_eq ∙ be;
            m_eq = d.m_eq ∙ me;
            size = d.size ∙ r.size;
            cells = λ i.
                d.cells i
                ∙ ap (λ t. max (get_or mid.registers i 0) (best clzll t i history)) be
                ∙ ap (λ t. max t (best clzll hll.b i history)) (r.cells i)
                ∙ ground arith;
          }

cell-zero : (n i : ℕ) → get_or {A = ℕ} (replicate n 0) i 0 ≡ 0
cell-zero zero i = refl
cell-zero (suc n) zero = refl
cell-zero (suc n) (suc i) = cell-zero n i

-- For `b` from 1 to 30: both histories of keys can be added to new counters, the merge of the two counters
-- returns, and what it returns is the counter that a new one becomes when both histories are added to it.
pub hll_merge-adds :
    (clzll : ℕ → ℕ) (b : ℕ) (first second : List (List ℕ))
    → 1 ≤ b
    → b ≤ 30
    → Returns
        (λ merged. adds clzll (first ++ second) (hll_create b) ≡ ok merged)
        (adds clzll first (hll_create b) >>= λ dst.
          adds clzll second (hll_create b) >>= λ src. hll_merge dst src)
unfolding hll_create hll_merge
hll_merge-adds clzll b first second low high =
    let new = hll_create b in
    let zeros : length new.registers ≡ 2 ^ b = length-replicate (2 ^ b) 0 in
    let fits : b ≤ 64 = omega (arith, high) in
    let (dst, de, d) = Returns-inv (adds-HasBest clzll first new low fits zeros) in
    let (src, se, s) = Returns-inv (adds-HasBest clzll second new low fits zeros) in
    let (all, ae, a) = Returns-inv (adds-HasBest clzll (first ++ second) new low fits zeros) in
    let (r, re, (size, _, cells)) = Returns-inv (
      merge_loop-cells dst.m 0 dst.registers src.registers (omega (arith, d.m_eq, d.size, zeros))
        (omega (arith, d.size, s.size))) in
    let merged : HyperLogLog = record { registers = r; b = dst.b; m = dst.m } in
    let same : ok merged ≡ ok all =
      ap (λ t. ok (record { registers = t; b = dst.b; m = dst.m }))
        (list_eq r all.registers (omega (arith, size, d.size, a.size)) λ i h.
          cells i (omega arith) (omega (arith, h, size))
          ∙ ap₂ max (d.cells i) (s.cells i)
          ∙ level i
          ∙ sym (a.cells i))
      ∙ ap₂ (λ x y. ok (record { registers = all.registers; b = x; m = y })) (d.b_eq ∙ sym a.b_eq)
          (d.m_eq ∙ sym a.m_eq) in
    rw (de, se, re) (returns (ae ∙ sym same))
  where
    level :
        (i : ℕ)
        → max
            (max (get_or {A = ℕ} (replicate (2 ^ b) 0) i 0) (best clzll b i first))
            (max (get_or {A = ℕ} (replicate (2 ^ b) 0) i 0) (best clzll b i second))
          ≡ max (get_or {A = ℕ} (replicate (2 ^ b) 0) i 0) (best clzll b i (first ++ second))
    level i = ground (arith, cell-zero (2 ^ b) i, best-append clzll b i first second)
