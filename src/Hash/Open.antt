-- ===== src/Hash/Open.antt =====
-- src/hash/hash_table.c, the open-addressing hash table with linear probing.
pub mod Probe
pub mod Others
pub mod Insert
use dsa_guide.Prelude.{
  ℕ, zero, suc, ◌+◌, ◌-◌, ◌%◌, ◌^◌, Bool, true, false, not, ◌||◌, Option, none, some, List, ℤ,
  ◌==ℤ◌, Run, ok, ◌>>=◌, load, store, if◌then◌else◌, replicate,
}
use dsa_guide.Hash.Chained.{hash_int}

pub record OaHashTable : Type 0 where
  pub keys : List ℤ
  pub vals : List ℤ
  pub used : List Bool
  pub deleted : List Bool
  pub capacity : ℕ
  pub size : ℕ

-- `keys` and `vals` are what `malloc(cap*sizeof(int))` returns.
pub oaht_create : List ℤ → List ℤ → ℕ → OaHashTable
oaht_create keys vals cap = record {
  keys = keys;
  vals = vals;
  used = replicate cap false;
  deleted = replicate cap false;
  capacity = cap;
  size = 0;
}

-- `(idx+i) % ht->capacity`
abbrev pub slot_at : OaHashTable → ℕ → ℕ → ℕ
slot_at ht idx i = (idx + i) % 2 ^ 64 % ht.capacity

-- A new entry in a slot.
pub put_entry : OaHashTable → ℕ → ℤ → ℤ → Run (Bool × OaHashTable)
put_entry ht slot key val = do
  keys ← store ht.keys slot key
  vals ← store ht.vals slot val
  used ← store ht.used slot true
  deleted ← store ht.deleted slot false
  ok (
    true,
    record {
      keys = keys;
      vals = vals;
      used = used;
      deleted = deleted;
      capacity = ht.capacity;
      size = (ht.size + 1) % 2 ^ 64;
    },
  )

-- A new value in a slot.
pub put_value : OaHashTable → ℕ → ℤ → Run (Bool × OaHashTable)
put_value ht slot val = store ht.vals slot val >>= λ vals. ok (true, record ht { vals = vals })

-- The loop of `oaht_insert`, with `n` slots left from the `i`-th on.
pub insert_loop : ℕ → ℕ → ℕ → OaHashTable → ℤ → ℤ → Run (Bool × OaHashTable)
insert_loop zero i idx ht key val = ok (false, ht)
insert_loop (suc n) i idx ht key val =
    let slot = slot_at ht idx i in
    let rest = insert_loop n (i + 1) idx ht key val in
    let compare_keys : Run (Bool × OaHashTable) = do
      k ← load ht.keys slot
      if k ==ℤ key then put_value ht slot val else rest
    in do
      used ← load ht.used slot
      deleted ← load ht.deleted slot
      if not used || deleted then put_entry ht slot key val else compare_keys

pub oaht_insert : OaHashTable → ℤ → ℤ → Run (Bool × OaHashTable)
oaht_insert ht key val = do idx ← hash_int key ht.capacity; insert_loop ht.capacity 0 idx ht key val

-- The loop that `oaht_get` and `oaht_delete` share: the slot of the key, if the walk comes to it.
pub find_loop : ℕ → ℕ → ℕ → OaHashTable → ℤ → Run (Option ℕ)
find_loop zero i idx ht key = ok none
find_loop (suc n) i idx ht key =
    let slot = slot_at ht idx i in
    let rest = find_loop n (i + 1) idx ht key in
    let compare_keys : Run (Option ℕ) = do
      k ← load ht.keys slot
      if k ==ℤ key then ok (some slot) else rest
    in let look : Run (Option ℕ) = do
      deleted ← load ht.deleted slot
      if deleted then rest else compare_keys
      in do used ← load ht.used slot; if used then look else ok none

-- The option is what goes through `*val_out`.
pub oaht_get : OaHashTable → ℤ → Run (Option ℤ)
oaht_get ht key = do
  idx ← hash_int key ht.capacity
  found ← find_loop ht.capacity 0 idx ht key
  elim found [ none ↦ ok none | some slot ↦ (load ht.vals slot >>= λ val. ok (some val)) ]

pub oaht_delete : OaHashTable → ℤ → Run (Bool × OaHashTable)
oaht_delete ht key = do
  idx ← hash_int key ht.capacity
  found ← find_loop ht.capacity 0 idx ht key
  elim found [
    | none ↦ ok (false, ht)
    | some slot ↦
        (store ht.deleted slot true >>= λ deleted.
        ok (true, record ht { deleted = deleted; size = (ht.size + 2 ^ 64 - 1) % 2 ^ 64 }))
  ]
