-- ===== src/Specialized/LsmTree/Writes.antt =====
-- `lsm_put` and `lsm_delete`, and what `lsm_get` then finds.
use mathlib.Core.List.{Mem, Perm}
use dsa_guide.Prelude.{
  ℕ, zero, suc, ◌+◌, ◌*◌, ◌<◌, ◌≤◌, ◌≡◌, ◌≢◌, ◌⊎◌, inl, inr, refl, sym, ap, ◌∙◌, true, false, none,
  some, List, [], ◌∷◌, ◌++◌, leb, ltb, ◌==◌, if◌then◌else◌, ℤ, pos, ◌-ℤ◌, ◌==ℤ◌, ==ℤ_refl,
  eq_of_==ℤ, IsInt, as_int-ok, Bool-cases, Run, ok, Returns, returns, Returns-bind, Returns-map,
  length, length-append, load, load-ok, store-ok, arith,
}
use dsa_guide.Specialized.LsmTree.{
  LsmEntry, LsmTree, Compare, entry_cmp, flush_memtable, put_entry, lsm_put, lsm_delete, look_at,
  mem_loop, result_of, levels_loop, lsm_get, lsm_mem_max,
}
use dsa_guide.Specialized.LsmTree.Compact.{no_table, table}

load-last : (mem : List LsmEntry) (e : LsmEntry) → load (mem ++ e ∷ []) (length mem) ≡ ok e
unfolding load
load-last [] e = refl
load-last (m ∷ mem) e = load-last mem e

load-before :
    (mem : List LsmEntry) (e : LsmEntry) (i : ℕ)
    → i < length mem
    → load (mem ++ e ∷ []) i ≡ load mem i
unfolding load
load-before [] e i h = absurd (omega arith)
load-before (m ∷ mem) e zero h = refl
load-before (m ∷ mem) e (suc i) h = load-before mem e i (omega arith)

mem_loop-before :
    (mem : List LsmEntry) (e : LsmEntry) (key : ℤ) (i : ℕ)
    → i ≤ length mem
    → mem_loop i (mem ++ e ∷ []) key ≡ mem_loop i mem key
unfolding mem_loop
mem_loop-before mem e key zero h = refl
mem_loop-before mem e key (suc i) h =
    rw (load-before mem e i (omega arith), mem_loop-before mem e key i (omega arith)) refl

-- The newest entry of a key is found first, and an entry of another key is passed by.
lsm_get-append :
    (t : LsmTree) (e : LsmEntry) (key : ℤ)
    → lsm_get (record t { mem = t.mem ++ e ∷ [] }) key
      ≡ (if e.key ==ℤ key then result_of (look_at e) (levels_loop t.levels key) else lsm_get t key)
unfolding lsm_get mem_loop
lsm_get-append t e key =
    let n : length (t.mem ++ e ∷ []) ≡ suc (length t.mem) =
      omega (arith, length-append t.mem (e ∷ [])) in
    rw (n, load-last t.mem e, mem_loop-before t.mem e key (length t.mem) (omega arith))
      (elim (Bool-cases (e.key ==ℤ key)) [ inl p ↦ rw p refl | inr p ↦ rw p refl ])

-- What is used of the C library's `qsort`: when every comparison of two entries returns, it returns
-- the same entries.
abbrev pub IsQsort : (Compare → List LsmEntry → Run (List LsmEntry)) → Type 0
IsQsort qsort =
    (cmp : Compare) (l : List LsmEntry)
    → ((a b : LsmEntry) → Mem a l → Mem b l → Returns (λ (z : ℤ). Unit {0}) (cmp a b))
    → Returns (λ r. Perm r l) (qsort cmp l)

-- The memtable has room for its entries, there is a level 0 with room for a memtable, and the keys of
-- both are not so far apart that their difference overflows.
pub record IsReady (t : LsmTree) : Type 0 where
  pub mem_fits : length t.mem ≤ lsm_mem_max
  pub level_zero : 0 < length t.levels
  pub room : lsm_mem_max ≤ (table t 0).capacity
  pub count_fits : length (table t 0).entries ≤ (table t 0).capacity
  pub comparable :
      (a b : LsmEntry)
      → Mem a ((table t 0).entries ++ t.mem)
      → Mem b ((table t 0).entries ++ t.mem)
      → IsInt (a.key -ℤ b.key)

module _ (qsort : Compare → List LsmEntry → Run (List LsmEntry)) (sorts : IsQsort qsort) where
  flush-mem : (t : LsmTree) → IsReady t → Returns (λ t'. t'.mem ≡ []) (flush_memtable qsort t)
  unfolding flush_memtable entry_cmp
  flush-mem t r =
      let l0 = table t 0 in
      let total = length l0.entries + length t.mem in
      let cap = if ltb l0.capacity total then l0.capacity * 2 else l0.capacity in
      rw
        (
          load-ok t.levels 0 no_table r.level_zero,
          enough (length l0.entries) (length t.mem) l0.capacity r.mem_fits r.room r.count_fits,
        )
        (Returns-bind
          (sorts entry_cmp (l0.entries ++ t.mem)
            λ a b ma mb. rw (as_int-ok (a.key -ℤ b.key) (r.comparable a b ma mb)) (returns tt))
          λ entries p.
            rw
              (store-ok t.levels 0 (record { entries = entries; capacity = cap; sorted = true })
                r.level_zero)
              (returns refl))
    where
      enough :
          (n m c : ℕ)
          → m ≤ 8
          → 8 ≤ c
          → n ≤ c
          → leb (n + m) (if ltb c (n + m) then c * 2 else c) ≡ true
      enough n m c a b d = ground arith

  -- The tree before the append: flushed, or as it was with room left.
  put_entry-append :
      (t : LsmTree) (e : LsmEntry)
      → IsReady t
      → Returns
          (λ t'.
            (base : LsmTree) × (t' ≡ record base { mem = base.mem ++ e ∷ [] })
            × ((length t.mem ≡ lsm_mem_max) ⊎ (base ≡ t)))
          (put_entry qsort t e)
  unfolding put_entry
  put_entry-append t e r = elim (Bool-cases (length t.mem == lsm_mem_max)) [
    | inl full ↦ rw full (
        Returns-bind (flush-mem t r) λ base empty.
          rw (ap (λ m. ltb (length m) lsm_mem_max) empty)
            (returns (base, refl, inl (ground (arith, full)))))
    | inr some_left ↦
        rw (some_left, has_room (length t.mem) r.mem_fits some_left) (returns (t, refl, inr refl))
  ]
    where
      has_room : (n : ℕ) → n ≤ 8 → (n == 8) ≡ false → ltb n 8 ≡ true
      has_room n a b = ground (arith, b)

  -- On a tree that is ready, `lsm_put` returns, and `lsm_get` then finds the value under the key, also
  -- when the memtable was flushed before. `lsm_delete` returns, and `lsm_get` then finds nothing under
  -- the key, whatever the levels hold. In both cases every other key is found as before, unless
  -- the memtable was full.
  pub lsm_get-lsm_put :
      (t : LsmTree) (key val other : ℤ)
      → IsReady t
      → other ≢ key
      → Returns
          (λ t'.
            (lsm_get t' key ≡ ok (some val))
            × ((length t.mem ≡ lsm_mem_max) ⊎ (lsm_get t' other ≡ lsm_get t other)))
          (lsm_put qsort t key val)
        × Returns
            (λ t'.
              (lsm_get t' key ≡ ok none)
              × ((length t.mem ≡ lsm_mem_max) ⊎ (lsm_get t' other ≡ lsm_get t other)))
            (lsm_delete qsort t key)
  unfolding lsm_put lsm_delete
  lsm_get-lsm_put t key val other r ne =
      let e : LsmEntry = record { key = key; val = val; deleted = false } in
      let d : LsmEntry = record { key = key; val = pos 0; deleted = true } in
      (
        Returns-map (put_entry-append t e r) λ t' (base, eq, kept). (
          ap (λ u. lsm_get u key) eq ∙ lsm_get-append base e key ∙ rw (==ℤ_refl key) refl,
          elim kept [ inl f ↦ inl f | inr k ↦ inr (passed e t' base eq refl k) ],
        ),
        Returns-map (put_entry-append t d r) λ t' (base, eq, kept). (
          ap (λ u. lsm_get u key) eq ∙ lsm_get-append base d key ∙ rw (==ℤ_refl key) refl,
          elim kept [ inl f ↦ inl f | inr k ↦ inr (passed d t' base eq refl k) ],
        ),
      )
    where
      differs : (a b : ℤ) → b ≢ a → (a ==ℤ b) ≡ false
      differs a b h = elim (Bool-cases (a ==ℤ b)) [
        | inl p ↦ absurd (h (sym (eq_of_==ℤ a b p)))
        | inr p ↦ p
      ]

      passed :
          (x : LsmEntry) (t' base : LsmTree)
          → t' ≡ record base { mem = base.mem ++ x ∷ [] }
          → x.key ≡ key
          → base ≡ t
          → lsm_get t' other ≡ lsm_get t other
      passed x t' base eq same kept =
          ap (λ u. lsm_get u other) eq
          ∙ lsm_get-append base x other
          ∙ rw (differs x.key other (λ q. ne (q ∙ same))) (ap (λ u. lsm_get u other) kept)
