-- ===== src/Tests/Arrays.antt =====
-- src/linear/array.c at concrete inputs.
use dsa_guide.Prelude.{
  ℕ, zero, suc, ◌/◌, ◌<◌, ◌≤◌, ◌≡◌, ◌⊎◌, refl, sym, ap, ◌∙◌, true, false, Option, none, some, List,
  [], ◌∷◌, ◌++◌, ℤ, pos, arith, length, replicate, length-replicate, take, length-take,
  length-append, Returns, IsInt, ◌+ℤ◌, ◌≤ℤ◌,
}
use dsa_guide.Linear.Array.{
  Array, array_push, array_binary_search, array_two_pointer_pair, array_items, IsValid, at,
  IsSorted,
}
use dsa_guide.Linear.Array.Grow.{IsRealloc, Holds, array_push-Holds}
use dsa_guide.Linear.Array.Search.{Found, array_binary_search-Found}
use dsa_guide.Linear.Array.Pair.{Paired, SumsFit, array_two_pointer_pair-Paired}
use dsa_guide.Linear.Array.Prefix.{range_sum, HasSums}

-- A `realloc` that always succeeds, and fills a larger block with zeros.
abbrev realloc : List ℤ → ℕ → Option (List ℤ)
realloc b n = some (take (n / 4) (b ++ replicate (n / 4) (pos 0)))

take-take-append :
    (b e : List ℤ) (n k : ℕ) → k ≤ length b → k ≤ n → take k (take n (b ++ e)) ≡ take k b
take-take-append b e n zero h l = refl
take-take-append [] e n (suc k) h l = absurd (omega arith)
take-take-append (x ∷ b) e zero (suc k) h l = absurd (omega arith)
take-take-append (x ∷ b) e (suc n) (suc k) h l =
    ap (◌∷◌ x) (take-take-append b e n k (omega arith) (omega arith))

some-injective : {x y : List ℤ} → ◌≡◌ {A = Option (List ℤ)} (some x) (some y) → x ≡ y
some-injective e = ground arith

realloc-IsRealloc : IsRealloc realloc
realloc-IsRealloc = record {
  sized = λ b n h e.
      ap length (sym (some-injective e))
      ∙ omega (
        arith,
        length-take (n / 4) (b ++ replicate (n / 4) (pos 0)),
        length-append b (replicate (n / 4) (pos 0)),
        length-replicate (n / 4) (pos 0),
      );
  kept = λ b n k e h l.
      ap (take k) (sym (some-injective e))
      ∙ take-take-append b (replicate (n / 4) (pos 0)) (n / 4) k h l;
}

-- Full, so that the next push grows it.
abbrev array : Array
array = record { block = pos 2 ∷ pos 5 ∷ pos 9 ∷ []; size = 3; capacity = 3 }

array-IsValid : IsValid array
array-IsValid = record { size_le = omega arith; block_fits = omega arith }

array_push-Holds_example :
    Returns
      (λ r.
        ((r.0 ≡ true) × Holds (array_items array ++ pos 1 ∷ []) r.1 × (r.1.capacity ≡ 6))
        ⊎ ((r.0 ≡ false) × (array.size ≡ array.capacity) × (realloc array.block 24 ≡ none)))
      (array_push realloc array (pos 1))
array_push-Holds_example =
    array_push-Holds realloc realloc-IsRealloc array (pos 1) array-IsValid (omega arith)
      (omega arith)

abbrev empty : Array
empty = record { block = []; size = 0; capacity = 0 }

array-ascending : (i j : ℕ) → i ≤ j → j < 3 → at array.block i ≤ℤ at array.block j
array-ascending zero zero h l = omega arith
array-ascending zero (suc zero) h l = omega arith
array-ascending zero (suc (suc zero)) h l = omega arith
array-ascending (suc i) zero h l = absurd (omega arith)
array-ascending (suc zero) (suc zero) h l = omega arith
array-ascending (suc zero) (suc (suc zero)) h l = omega arith
array-ascending (suc (suc i)) (suc zero) h l = absurd (omega arith)
array-ascending (suc (suc zero)) (suc (suc zero)) h l = omega arith
array-ascending (suc (suc (suc i))) (suc (suc zero)) h l = absurd (omega arith)
array-ascending i (suc (suc (suc j))) h l = absurd (omega arith)

array-IsSorted : IsSorted array
array-IsSorted = record {
  in_block = omega arith;
  int_size = omega arith;
  ascending = array-ascending;
}

array_binary_search-Found_example :
    Returns (Found array (pos 9)) (array_binary_search array (pos 9))
array_binary_search-Found_example = array_binary_search-Found array (pos 9) array-IsSorted

array-SumsFit : SumsFit array
unfolding ◌+ℤ◌
array-SumsFit zero zero h l = absurd (omega arith)
array-SumsFit zero (suc zero) h l = omega arith
array-SumsFit zero (suc (suc zero)) h l = omega arith
array-SumsFit (suc i) zero h l = absurd (omega arith)
array-SumsFit (suc i) (suc zero) h l = absurd (omega arith)
array-SumsFit (suc zero) (suc (suc zero)) h l = omega arith
array-SumsFit (suc (suc i)) (suc (suc zero)) h l = absurd (omega arith)
array-SumsFit i (suc (suc (suc j))) h l = absurd (omega arith)

array_two_pointer_pair-Paired_example :
    Returns (Paired array (pos 14)) (array_two_pointer_pair array (pos 14))
array_two_pointer_pair-Paired_example =
    array_two_pointer_pair-Paired array (pos 14) array-IsSorted array-SumsFit

array-sums_fit : (k : ℕ) → k ≤ 3 → IsInt (range_sum array.block 0 k)
unfolding ◌+ℤ◌
array-sums_fit zero h = omega arith
array-sums_fit (suc zero) h = omega arith
array-sums_fit (suc (suc zero)) h = omega arith
array-sums_fit (suc (suc (suc zero))) h = omega arith
array-sums_fit (suc (suc (suc (suc k)))) h = absurd (omega arith)

abbrev sums : Array
sums = record { block = pos 0 ∷ pos 2 ∷ pos 7 ∷ pos 16 ∷ []; size = 4; capacity = 4 }

sums-HasSums : HasSums array.block 3 sums
unfolding ◌+ℤ◌
sums-HasSums = record {
  size_eq = refl;
  size_le = omega arith;
  block_fits = omega arith;
  sums = agree;
}
  where
    agree : (k : ℕ) → k ≤ 3 → at sums.block k ≡ range_sum array.block 0 k
    agree zero h = refl
    agree (suc zero) h = refl
    agree (suc (suc zero)) h = refl
    agree (suc (suc (suc zero))) h = refl
    agree (suc (suc (suc (suc k)))) h = absurd (omega arith)

two_values_fit : IsInt (range_sum array.block 1 2)
unfolding ◌+ℤ◌
two_values_fit = omega arith
