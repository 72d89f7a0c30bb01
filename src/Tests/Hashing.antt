-- ===== src/Tests/Hashing.antt =====
-- src/hash/hash_table.c at concrete inputs.
use dsa_guide.Prelude.{
  ℕ, ◌+◌, ◌*◌, ◌-◌, ◌%◌, ◌^◌, ◌≡◌, Bool, true, none, some, [], ◌∷◌, pos, ◌==ℤ◌, ok, leb,
  if◌then◌else◌, Returns, arith,
}
use dsa_guide.Hash.Chained.{HashTable, ht_create, ht_insert, ht_get, ht_delete, ht_resize}
use dsa_guide.Hash.Chained.Resize.{IsValid, Resized, ht_create-IsValid, ht_resize-Resized}
use dsa_guide.Hash.Chained.Calls.{size_if, was_there, ht_get-ht_insert, ht_get-ht_delete}

-- The load factor 3 / 4, on numbers small enough for a `double`.
abbrev over_loaded : ℕ → ℕ → Bool
over_loaded size capacity = leb (3 * capacity) (4 * size)

abbrev two : HashTable
two = record { buckets = [] ∷ [] ∷ []; capacity = 2; size = 0 }

two_buckets : IsValid two
unfolding ht_create
two_buckets = (ht_create-IsValid 2 (omega arith)).0

ht_resize-Resized_example : Returns (Resized two) (ht_resize two)
ht_resize-Resized_example = ht_resize-Resized two two_buckets (omega arith)

ht_get-ht_insert_example :
    Returns
      (λ r.
        (r.0 ≡ true)
        × IsValid r.1
        × (ht_get r.1 (pos 7) ≡ (if pos 7 ==ℤ pos 7 then ok (some (pos 1)) else ht_get two (pos 7)))
        × (r.1.size ≡ size_if (ht_get two (pos 7)) 0 ((0 + 1) % 2 ^ 64)))
      (ht_insert over_loaded two (pos 7) (pos 1))
ht_get-ht_insert_example =
    ht_get-ht_insert over_loaded two (pos 7) (pos 1) (pos 7) two_buckets (omega arith)

ht_get-ht_delete_example :
    Returns
      (λ r.
        (r.0 ≡ was_there (ht_get two (pos 7)))
        × IsValid r.1
        × (ht_get r.1 (pos 7) ≡ (if pos 7 ==ℤ pos 7 then ok none else ht_get two (pos 7)))
        × (r.1.size ≡ size_if (ht_get two (pos 7)) ((0 + 2 ^ 64 - 1) % 2 ^ 64) 0))
      (ht_delete two (pos 7))
ht_get-ht_delete_example = ht_get-ht_delete two (pos 7) (pos 7) two_buckets
