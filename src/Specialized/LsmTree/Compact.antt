-- ===== src/Specialized/LsmTree/Compact.antt =====
-- `lsm_compact` merges one level into the next.
use mathlib.Core.List.{
  Mem, Perm, Pairwise, Pairwise-cons, mem-append, mem-cons_self, forall_mem-cons, perm_middle,
  append-nil,
}
use mathlib.Core.List.Perm
use mathlib.Core.List.Pairwise
use mathlib.Core.Logic.Or
use mathlib.Core.Bool.{Bool-discrete}
use native.Mathlib.Bridge.{le_prop}
use dsa_guide.Prelude.{
  ℕ, ◌+◌, ◌-◌, ◌*◌, ◌<◌, ◌≤◌, ◌≡◌, ◌≢◌, ◌⊎◌, inl, inr, refl, sym, ap, ◌∙◌, true, false, Option,
  none, some, List, [], ◌∷◌, ◌++◌, leb, ltb, ◌==◌, if◌then◌else◌, ℤ, leb_ℤ, ◌≤ℤ◌, ◌<ℤ◌, Bool-cases,
  ok, Returns, returns, length, get_or, load-ok, store-ok, length-set, set, get_or-set_self,
  get_or-set_ne, arith,
}
use dsa_guide.Specialized.LsmTree.{
  LsmEntry, SsTable, LsmTree, lsm_level_max, repeats, moved, merge_loop, live, lsm_compact,
}

abbrev pub IsAscending : List LsmEntry → Type 0
IsAscending = Pairwise (λ a b. a.key ≤ℤ b.key)

-- Ascending, with no key twice.
abbrev pub IsStrict : List LsmEntry → Type 0
IsStrict = Pairwise (λ a b. a.key <ℤ b.key)

abbrev Below : ℤ → List LsmEntry → Type 0
Below k l = (e : LsmEntry) → Mem e l → k ≤ℤ e.key

-- The last key is below all that is left of `src`.
abbrev Past : Option ℤ → List LsmEntry → Type 0
Past none src = Unit {0}
Past (some k) src = (e : LsmEntry) → Mem e src → k <ℤ e.key

≤ℤ_prop : (a b : ℤ) → IsProp (a ≤ℤ b)
≤ℤ_prop a b = le_prop

module _ (s d : LsmEntry) (src dst : List LsmEntry) (last : Option ℤ) where
  take_src :
      leb_ℤ s.key d.key ≡ true
      → Past last (s ∷ src)
      → merge_loop last (s ∷ src) (d ∷ dst) ≡ s ∷ merge_loop (some s.key) src (d ∷ dst)
  unfolding merge_loop
  take_src e p = rw (merge_loop, e, fresh last p) refl
    where
      fresh : (o : Option ℤ) → Past o (s ∷ src) → repeats o s.key ≡ false
      fresh none q = refl
      fresh (some k) q = ground (arith, q s mem-cons_self)

  take_dst :
      leb_ℤ s.key d.key ≡ false
      → merge_loop last (s ∷ src) (d ∷ dst) ≡ d ∷ merge_loop (moved last d.key) (s ∷ src) dst
  unfolding merge_loop
  take_dst e = rw (merge_loop, e) refl

Past-moved :
    (k : ℤ) (last : Option ℤ) (src : List LsmEntry)
    → ((e : LsmEntry) → Mem e src → k <ℤ e.key)
    → Past (moved last k) src
Past-moved k none src h = tt
Past-moved k (some l) src h = h

module _ (s : LsmEntry) (src : List LsmEntry) (strict : IsStrict (s ∷ src)) (k : ℤ)
    (under : k <ℤ s.key) where
  under_all : (e : LsmEntry) → Mem e (s ∷ src) → k <ℤ e.key
  under_all =
      (forall_mem-cons (λ e. le_prop)).1
        (under, λ e m. omega (arith, under, (Pairwise-cons.0 strict).0 e m))

merge-Perm :
    (last : Option ℤ) (src dst : List LsmEntry)
    → IsStrict src
    → Past last src
    → Perm (merge_loop last src dst) (src ++ dst)
unfolding merge_loop
merge-Perm last [] dst strict p = Perm.rfl
merge-Perm last (s ∷ src) [] strict p = rw (append-nil src) Perm.rfl
merge-Perm last (s ∷ src) (d ∷ dst) strict p =
    let (over, rest) = Pairwise-cons.0 strict in
    elim (Bool-cases (leb_ℤ s.key d.key)) [
      | inl e ↦
          rw (take_src s d src dst last e p)
            (Perm.cons s (merge-Perm (some s.key) src (d ∷ dst) rest over))
      | inr e ↦ rw (take_dst s d src dst last e) (
          Perm.trans
            (Perm.cons d (
              merge-Perm (moved last d.key) (s ∷ src) dst strict (
                Past-moved d.key last (s ∷ src)
                  (under_all s src strict d.key (ground (arith, e))))))
            (Perm.symm (perm_middle (s ∷ src) dst)))
    ]

Below-perm : (k : ℤ) (l r : List LsmEntry) → Perm l r → Below k r → Below k l
Below-perm k l r p h e m = h e ((Perm.mem_iff p).0 m)

Below-append : (k : ℤ) (l r : List LsmEntry) → Below k l → Below k r → Below k (l ++ r)
Below-append k l r hl hr e m = Or.elim (≤ℤ_prop k e.key) (mem-append.0 m) (hl e) (hr e)

Below-head :
    (k : ℤ) (d : LsmEntry) (l : List LsmEntry) → k ≤ℤ d.key → IsAscending (d ∷ l) → Below k (d ∷ l)
Below-head k d l h asc =
    (forall_mem-cons (λ e. ≤ℤ_prop k e.key)).1
      (h, λ e m. omega (arith, h, (Pairwise-cons.0 asc).0 e m))

merge-IsAscending :
    (last : Option ℤ) (src dst : List LsmEntry)
    → IsStrict src
    → Past last src
    → IsAscending dst
    → IsAscending (merge_loop last src dst)
unfolding merge_loop
merge-IsAscending last [] dst strict p asc = asc
merge-IsAscending last (s ∷ src) [] strict p asc = weaken (s ∷ src) strict
  where
    weaken : (l : List LsmEntry) → IsStrict l → IsAscending l
    weaken [] h = Pairwise.nil
    weaken (x ∷ l) h =
        let (over, rest) = Pairwise-cons.0 h in
        Pairwise.cons (λ e m. omega (arith, over e m)) (weaken l rest)
merge-IsAscending last (s ∷ src) (d ∷ dst) strict p asc =
    let (over, rest) = Pairwise-cons.0 strict in
    let (below, tail) = Pairwise-cons.0 asc in
    elim (Bool-cases (leb_ℤ s.key d.key)) [
      | inl e ↦ rw (take_src s d src dst last e p) (
          Pairwise.cons
            (Below-perm s.key _ (src ++ d ∷ dst) (merge-Perm (some s.key) src (d ∷ dst) rest over) (
              Below-append s.key src (d ∷ dst) (λ x m. omega (arith, over x m))
                (Below-head s.key d dst (ground (arith, e)) asc)))
            (merge-IsAscending (some s.key) src (d ∷ dst) rest over asc))
      | inr e ↦
          let under = under_all s src strict d.key (ground (arith, e)) in
          let past = Past-moved d.key last (s ∷ src) under in
          rw (take_dst s d src dst last e) (
            Pairwise.cons
              (Below-perm d.key _ (s ∷ src ++ dst)
                (merge-Perm (moved last d.key) (s ∷ src) dst strict past)
                (Below-append d.key (s ∷ src) dst (λ x m. omega (arith, under x m)) below))
              (merge-IsAscending (moved last d.key) (s ∷ src) dst strict past tail))
    ]

abbrev pub no_table : SsTable
no_table = record { entries = []; capacity = 0; sorted = false }

abbrev pub table : LsmTree → ℕ → SsTable
table t i = get_or t.levels i no_table

-- Level `level` is empty, the next one holds the live entries of both, and all else is as before.
pub record Compacted (t : LsmTree) (level : ℕ) (after : LsmTree) : Type 0 where
  pub mem_eq : after.mem ≡ t.mem
  pub emptied : (table after level).entries ≡ []
  pub merged :
      Perm
        (table after (level + 1)).entries
        (live ((table t level).entries ++ (table t (level + 1)).entries))
  pub ascending : IsAscending (table after (level + 1)).entries
  pub sorted_eq : (table after (level + 1)).sorted ≡ true
  pub fits : length (table after (level + 1)).entries ≤ (table after (level + 1)).capacity
  pub others : (i : ℕ) → i ≢ level → i ≢ level + 1 → table after i ≡ table t i

not_last : (level : ℕ) → level < 3 → leb (lsm_level_max - 1) level ≡ false
not_last level h = ground arith

capacity_fits : (n c : ℕ) → n ≤ (if ltb c n then n * 2 else c)
capacity_fits n c = ground arith

-- On a tree with its four levels, for a level that is not the last, not empty, and ascending with no key
-- twice, and an ascending next level: `lsm_compact` returns. It empties the first level, and the next is
-- then ascending, fits its capacity, and has just the entries of both that are no tombstones. So two
-- entries of one key both stay, and tombstones are lost.
pub lsm_compact-Compacted :
    (t : LsmTree) (level : ℕ)
    → length t.levels ≡ lsm_level_max
    → level < 3
    → 0 < length (table t level).entries
    → IsStrict (table t level).entries
    → IsAscending (table t (level + 1)).entries
    → Returns (Compacted t level) (lsm_compact t level)
unfolding lsm_compact
lsm_compact-Compacted t level four h some_left strict asc =
    let src = table t level in
    let dst = table t (level + 1) in
    let merged = merge_loop none src.entries dst.entries in
    let clean = live merged in
    let cap = if ltb dst.capacity (length clean) then length clean * 2 else dst.capacity in
    let new : SsTable = record { entries = clean; capacity = cap; sorted = true } in
    let old : SsTable = record src { entries = [] } in
    let filled = set t.levels (level + 1) new in
    let size = length-set t.levels (level + 1) new in
    let full : (length src.entries == 0) ≡ false = ground arith in
    let at_next : get_or (set filled level old) (level + 1) no_table ≡ new =
      get_or-set_ne filled level (level + 1) old no_table (λ e. omega (arith, e))
      ∙ get_or-set_self t.levels (level + 1) new no_table (omega arith) in
    rw
      (
        not_last level h,
        load-ok t.levels level no_table (omega arith),
        load-ok t.levels (level + 1) no_table (omega arith),
        store-ok t.levels (level + 1) new (omega arith),
        store-ok filled level old (omega (arith, size)),
        full,
      )
      (returns (record {
        mem_eq = refl;
        emptied =
            ap (λ x. x.entries) (get_or-set_self filled level old no_table (omega (arith, size)));
        merged = rw at_next (
            Perm.filter (λ m. Bool-discrete m.deleted false)
              (merge-Perm none src.entries dst.entries strict tt));
        ascending = rw at_next (
            Pairwise.filter (λ m. Bool-discrete m.deleted false)
              (merge-IsAscending none src.entries dst.entries strict tt asc));
        sorted_eq = rw at_next refl;
        fits = rw at_next (capacity_fits (length clean) dst.capacity);
        others = λ i a b.
            get_or-set_ne filled level i old no_table (λ e. a (sym e))
            ∙ get_or-set_ne t.levels (level + 1) i new no_table (λ e. b (sym e));
      }))

-- For the last level and past it, and for a level of no entry, the call changes nothing.
lsm_compact_unchanged :
    (t : LsmTree) (level : ℕ)
    → length t.levels ≡ lsm_level_max
    → (3 ≤ level) ⊎ ((level < 3) × (length (table t level).entries ≡ 0))
    → lsm_compact t level ≡ ok t
unfolding lsm_compact
lsm_compact_unchanged t level four (inl h) = ground arith
lsm_compact_unchanged t level four (inr (h, z)) =
    let src = table t level in
    let dst = table t (level + 1) in
    let clean = live (merge_loop none src.entries dst.entries) in
    let cap = if ltb dst.capacity (length clean) then length clean * 2 else dst.capacity in
    let new : SsTable = record { entries = clean; capacity = cap; sorted = true } in
    rw
      (
        not_last level h,
        load-ok t.levels level no_table (omega arith),
        load-ok t.levels (level + 1) no_table (omega arith),
        store-ok t.levels (level + 1) new (omega arith),
        store-ok (set t.levels (level + 1) new) level (record src { entries = [] })
            (omega (arith, length-set t.levels (level + 1) new)),
        z,
      )
      refl
