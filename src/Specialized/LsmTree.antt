-- ===== src/Specialized/LsmTree.antt =====
-- src/specialized/lsm_tree.c. An array with its count is the list of its used cells, and `qsort` is the
-- C library's, given the comparison.
pub mod Writes
pub mod Compact
use mathlib.Core.List.{filter}
use mathlib.Core.Bool.{Bool-discrete}
use dsa_guide.Prelude.{
  ℕ, zero, suc, ◌+◌, ◌-◌, ◌*◌, ◌/◌, ◌^◌, Bool, true, false, not, ◌||◌, Option, none, some, List, [],
  ◌∷◌, ◌++◌, ltb, leb, ◌==◌, if◌then◌else◌, ℤ, pos, ◌-ℤ◌, ltb_ℤ, leb_ℤ, ◌==ℤ◌, length, Run, ok,
  undefined, out_of_fuel, ◌>>=◌, load, store, as_int,
}

pub record LsmEntry : Type 0 where
  pub key : ℤ
  pub val : ℤ
  pub deleted : Bool

pub record SsTable : Type 0 where
  pub entries : List LsmEntry
  pub capacity : ℕ
  pub sorted : Bool

-- Nothing reads the field `level_count`.
pub record LsmTree : Type 0 where
  pub mem : List LsmEntry
  pub levels : List SsTable

abbrev pub lsm_mem_max : ℕ
lsm_mem_max = 8

abbrev pub lsm_level_max : ℕ
lsm_level_max = 4

pub entry_cmp : LsmEntry → LsmEntry → Run ℤ
entry_cmp a b = as_int (a.key -ℤ b.key)

-- The loop of `lsm_create`, from level `i` on with `n` levels left.
pub create_loop : ℕ → ℕ → List SsTable
create_loop zero i = []
create_loop (suc n) i =
    record { entries = []; capacity = 64 * 2 ^ (i * 2); sorted = false } ∷ create_loop n (i + 1)

pub lsm_create : LsmTree
lsm_create = record { mem = []; levels = create_loop lsm_level_max 0 }

abbrev pub Compare : Type 0
Compare = LsmEntry → LsmEntry → Run ℤ

module _ (qsort : Compare → List LsmEntry → Run (List LsmEntry)) where
  -- The capacity doubles once; a copy past it writes out of bounds.
  pub flush_memtable : LsmTree → Run LsmTree
  flush_memtable t = do
    l0 ← load t.levels 0
    let total = length l0.entries + length t.mem
    let capacity = if ltb l0.capacity total then l0.capacity * 2 else l0.capacity
    entries ← (if leb total capacity then qsort entry_cmp (l0.entries ++ t.mem) else undefined)
    levels ← store t.levels 0 (record { entries = entries; capacity = capacity; sorted = true })
    ok (record { mem = []; levels = levels })

  -- What `lsm_put` and `lsm_delete` share.
  pub put_entry : LsmTree → LsmEntry → Run LsmTree
  put_entry t e = do
    t' ← (if length t.mem == lsm_mem_max then flush_memtable t else ok t)
    if ltb (length t'.mem) lsm_mem_max then ok (record t' { mem = t'.mem ++ e ∷ [] }) else undefined

  pub lsm_put : LsmTree → ℤ → ℤ → Run LsmTree
  lsm_put t key val = put_entry t (record { key = key; val = val; deleted = false })

  pub lsm_delete : LsmTree → ℤ → Run LsmTree
  lsm_delete t key = put_entry t (record { key = key; val = pos 0; deleted = true })

-- What a search in one place says.
pub data Look : Type 0 where
  hit : ℤ → Look
  tombstone miss : Look

abbrev pub look_at : LsmEntry → Look
look_at e = if e.deleted then tombstone else hit e.val

-- The loop over the memtable, with `i` entries left.
pub mem_loop : ℕ → List LsmEntry → ℤ → Run Look
mem_loop zero mem key = ok miss
mem_loop (suc i) mem key = do
  e ← load mem i
  let older = mem_loop i mem key
  if e.key ==ℤ key then ok (look_at e) else older

-- The binary search in one level, with `stop` for `hi + 1`.
pub search_loop : ℕ → List LsmEntry → ℤ → ℕ → ℕ → Run Look
search_loop zero entries key lo stop = out_of_fuel
search_loop (suc fuel) entries key lo stop =
    let step : Run Look = (do
      mid ← (if ltb (lo + (stop - 1)) (2 ^ 31) then ok ((lo + (stop - 1)) / 2) else undefined)
      let right = search_loop fuel entries key (mid + 1) stop
      let left = search_loop fuel entries key lo mid
      e ← load entries mid
      if e.key ==ℤ key then ok (look_at e) else if ltb_ℤ e.key key then right else left) in
    if ltb lo stop then step else ok miss

abbrev pub result_of : Look → Run (Option ℤ) → Run (Option ℤ)
result_of (hit val) rest = ok (some val)
result_of tombstone rest = ok none
result_of miss rest = rest

-- A search drops an entry in each round, so that one round more than the entries is enough.
pub levels_loop : List SsTable → ℤ → Run (Option ℤ)
levels_loop [] key = ok none
levels_loop (ss ∷ levels) key =
    let rest = levels_loop levels key in
    let search : Run (Option ℤ) = (do
      found ← search_loop (length ss.entries + 1) ss.entries key 0 (length ss.entries)
      result_of found rest) in
    if not ss.sorted || length ss.entries == 0 then rest else search

-- The option is what the call returns, with what goes through `*val_out`.
pub lsm_get : LsmTree → ℤ → Run (Option ℤ)
lsm_get t key = do
  found ← mem_loop (length t.mem) t.mem key
  result_of found (levels_loop t.levels key)

-- `merged[k - 1].key` once an entry of `src` was read, and whether it is `key`.
abbrev pub repeats : Option ℤ → ℤ → Bool
repeats none key = false
repeats (some last) key = last ==ℤ key

abbrev pub moved : Option ℤ → ℤ → Option ℤ
moved none key = none
moved (some last) key = some key

-- The three loops that fill `merged`.
pub merge_loop : Option ℤ → List LsmEntry → List LsmEntry → List LsmEntry
merge_loop last [] dst = dst
merge_loop last (s ∷ src) [] = s ∷ src
merge_loop last (s ∷ src) (d ∷ dst) = elim (leb_ℤ s.key d.key) [
  | true ↦ elim (repeats last s.key) [
    | true ↦ merge_loop last src (d ∷ dst)
    | false ↦ s ∷ merge_loop (some s.key) src (d ∷ dst)
  ]
  | false ↦ d ∷ merge_loop (moved last d.key) (s ∷ src) dst
]

-- The loop that drops the tombstones.
abbrev pub live : List LsmEntry → List LsmEntry
live = filter (λ m. Bool-discrete m.deleted false)

pub lsm_compact : LsmTree → ℕ → Run LsmTree
lsm_compact t level =
    let merge : Run LsmTree = (do
      src ← load t.levels level
      dst ← load t.levels (level + 1)
      let clean = live (merge_loop none src.entries dst.entries)
      let capacity = if ltb dst.capacity (length clean) then length clean * 2 else dst.capacity
      filled ←
          store t.levels (level + 1)
            (record { entries = clean; capacity = capacity; sorted = true })
      levels ← store filled level (record src { entries = [] })
      ok (if length src.entries == 0 then t else record t { levels = levels })) in
    if leb (lsm_level_max - 1) level then ok t else merge
