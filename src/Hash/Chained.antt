-- ===== src/Hash/Chained.antt =====
-- src/hash/hash_table.c, the chaining hash table. Each bucket owns its chain of entries, which is the
-- list of their keys and values. The test of the load factor computes in floating point and is a
-- parameter; `calloc` gives buckets that are all null.
pub mod Chain
pub mod Table
pub mod Resize
pub mod Calls
use Prim.Native.Nat.{bit_xor}
use dsa_guide.Prelude.{
  ℕ, zero, suc, ◌+◌, ◌-◌, ◌*◌, ◌/◌, ◌%◌, ◌^◌, Bool, true, false, Option, none, some, List, [], ◌∷◌,
  ℤ, pos, negsuc, ◌==ℤ◌, ◌==◌, Run, ok, undefined, ◌>>=◌, load, store, if◌then◌else◌, replicate,
}

-- `(unsigned int)` of an `int`.
abbrev pub to_word : ℤ → ℕ
to_word (pos n) = n % 2 ^ 32
to_word (negsuc n) = 2 ^ 32 - 1 - n % 2 ^ 32

-- `k ^= k >> 16`
abbrev pub fold_half : ℕ → ℕ
fold_half k = bit_xor k (k / 2 ^ 16)

-- `hash_int` before the last step; 73244475 is 0x45d9f3b.
pub hash_word : ℤ → ℕ
hash_word key = fold_half (fold_half (to_word key) * 73244475 % 2 ^ 32)

-- No bucket to choose from is a division by zero.
pub hash_int : ℤ → ℕ → Run ℕ
hash_int key cap = if cap == 0 then undefined else ok (hash_word key % cap)

pub record HashTable : Type 0 where
  pub buckets : List (List (ℤ × ℤ))
  pub capacity : ℕ
  pub size : ℕ

unfoldable pub ht_create : ℕ → HashTable
ht_create cap = record { buckets = replicate cap []; capacity = cap; size = 0 }

-- The inner loop of `ht_resize`: each entry goes in front of its new chain.
pub resize_chain : ℕ → List (ℤ × ℤ) → List (List (ℤ × ℤ)) → Run (List (List (ℤ × ℤ)))
resize_chain new_cap [] new_buckets = ok new_buckets
resize_chain new_cap ((key, val) ∷ next) new_buckets = do
  nb ← hash_int key new_cap
  chain ← load new_buckets nb
  after ← store new_buckets nb ((key, val) ∷ chain)
  resize_chain new_cap next after

-- The outer loop, with `n` buckets left from `i` on.
pub resize_loop : ℕ → ℕ → HashTable → ℕ → List (List (ℤ × ℤ)) → Run (List (List (ℤ × ℤ)))
resize_loop zero i ht new_cap new_buckets = ok new_buckets
resize_loop (suc n) i ht new_cap new_buckets = do
  chain ← load ht.buckets i
  after ← resize_chain new_cap chain new_buckets
  resize_loop n (i + 1) ht new_cap after

pub ht_resize : HashTable → Run HashTable
ht_resize ht =
    let new_cap = ht.capacity * 2 % 2 ^ 64 in
    resize_loop ht.capacity 0 ht new_cap (replicate new_cap []) >>= λ new_buckets.
    ok (record ht { buckets = new_buckets; capacity = new_cap })

-- The walk along a chain to the entry with a key: its value.
pub chain_get : List (ℤ × ℤ) → ℤ → Option ℤ
chain_get [] key = none
chain_get ((k, v) ∷ next) key = if k ==ℤ key then some v else chain_get next key

-- Puts an entry back in front of the chain behind it.
abbrev pub behind : ℤ × ℤ → Option (List (ℤ × ℤ)) → Option (List (ℤ × ℤ))
behind e none = none
behind e (some chain) = some (e ∷ chain)

-- The chain with a new value at its entry with a key, if it has one.
pub chain_update : List (ℤ × ℤ) → ℤ → ℤ → Option (List (ℤ × ℤ))
chain_update [] key val = none
chain_update ((k, v) ∷ next) key val =
    if k ==ℤ key then some ((k, val) ∷ next) else behind (k, v) (chain_update next key val)

-- The chain without its entry with a key, if it has one.
pub chain_delete : List (ℤ × ℤ) → ℤ → Option (List (ℤ × ℤ))
chain_delete [] key = none
chain_delete ((k, v) ∷ next) key =
    if k ==ℤ key then some next else behind (k, v) (chain_delete next key)

-- The rest of `ht_insert` once the bucket and its chain are known.
pub insert_at : HashTable → ℤ → ℤ → ℕ → List (ℤ × ℤ) → Run (Bool × HashTable)
insert_at ht key val idx chain = elim (chain_update chain key val) [
  | some updated ↦
      (store ht.buckets idx updated >>= λ buckets. ok (true, record ht { buckets = buckets }))
  | none ↦
      (store ht.buckets idx ((key, val) ∷ chain) >>= λ buckets.
      ok (true, record ht { buckets = buckets; size = (ht.size + 1) % 2 ^ 64 }))
]

-- `over_loaded size capacity` is `(double)ht->size / ht->capacity >= ht->load_factor_max`.
module _ (over_loaded : ℕ → ℕ → Bool) where
  pub ht_insert : HashTable → ℤ → ℤ → Run (Bool × HashTable)
  ht_insert old key val = do
    ht ← (if over_loaded old.size old.capacity then ht_resize old else ok old)
    idx ← hash_int key ht.capacity
    chain ← load ht.buckets idx
    insert_at ht key val idx chain

-- The option is what goes through `*val_out`.
pub ht_get : HashTable → ℤ → Run (Option ℤ)
ht_get ht key = do
  idx ← hash_int key ht.capacity
  chain ← load ht.buckets idx
  ok (chain_get chain key)

-- The rest of `ht_delete` once the bucket and its chain are known.
pub delete_at : HashTable → ℤ → ℕ → List (ℤ × ℤ) → Run (Bool × HashTable)
delete_at ht key idx chain = elim (chain_delete chain key) [
  | none ↦ ok (false, ht)
  | some shorter ↦
      (store ht.buckets idx shorter >>= λ buckets.
      ok (true, record ht { buckets = buckets; size = (ht.size + 2 ^ 64 - 1) % 2 ^ 64 }))
]

pub ht_delete : HashTable → ℤ → Run (Bool × HashTable)
ht_delete ht key = do
  idx ← hash_int key ht.capacity
  chain ← load ht.buckets idx
  delete_at ht key idx chain
