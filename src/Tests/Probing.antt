-- ===== src/Tests/Probing.antt =====
-- The open-addressing table of src/hash/hash_table.c at a concrete input.
use dsa_guide.Prelude.{
  ℕ, zero, suc, ◌<◌, ◌⊎◌, true, ◌≡◌, refl, false, some, [], ◌∷◌, pos, ok, if◌then◌else◌, Returns,
  arith,
}
use dsa_guide.Hash.Open.{OaHashTable, oaht_insert, oaht_get}
use dsa_guide.Hash.Chained.Table.{slot}
use dsa_guide.Hash.Open.Probe.{IsValid, Passes, used_at, slot-lt}
use dsa_guide.Hash.Open.Others.{IsReached}
use dsa_guide.Hash.Open.Insert.{oaht_get-oaht_insert}

-- The key 3 in one slot, and a deleted entry in the other.
abbrev one_entry : OaHashTable
one_entry = record {
  keys = pos 3 ∷ pos 5 ∷ [];
  vals = pos 30 ∷ pos 50 ∷ [];
  used = true ∷ true ∷ [];
  deleted = false ∷ true ∷ [];
  capacity = 2;
  size = 1;
}

one_entry-IsValid : IsValid one_entry
one_entry-IsValid = record {
  keys_fit = refl;
  vals_fit = refl;
  used_fit = refl;
  deleted_fit = refl;
  positive = omega arith;
  small = omega arith;
}

all_used : (j : ℕ) → j < 2 → used_at one_entry j ≡ true
all_used zero h = refl
all_used (suc zero) h = refl
all_used (suc (suc j)) h = absurd (omega (arith, h))

one_entry-IsReached : IsReached one_entry
one_entry-IsReached = record {
  no_gap = λ key d h p k before. all_used _ (slot-lt one_entry (slot 2 key) k one_entry-IsValid);
}

oaht_get-oaht_insert_example :
    Returns
      (λ r.
        IsValid r.1
        × IsReached r.1
        × (r.1.capacity ≡ 2)
        × (oaht_get r.1 (pos 7) ≡ (if r.0 then ok (some (pos 1)) else oaht_get one_entry (pos 7)))
        × ((r.0 ≡ true) ⊎ ((j : ℕ) → j < 2 → Passes one_entry (pos 7) j))
        × (oaht_get r.1 (pos 3) ≡ oaht_get one_entry (pos 3)))
      (oaht_insert one_entry (pos 7) (pos 1))
oaht_get-oaht_insert_example =
    oaht_get-oaht_insert one_entry (pos 7) (pos 1) (pos 3) one_entry-IsValid one_entry-IsReached
      λ e. cc
