-- ===== src/Tests/Sketches.antt =====
-- src/probabilistic/count_min.c and src/probabilistic/bloom_filter.c at concrete inputs.
use dsa_guide.Prelude.{
  zero, suc, ◌*◌, ◌/◌, ◌%◌, ◌^◌, ◌<◌, ◌++◌, sym, refl, subst, get_or, ℕ, ◌+◌, ◌≤◌, ◌≡◌, true, List,
  [], ◌∷◌, ok, ◌>>=◌, Returns, arith,
}
use dsa_guide.Probabilistic.CountMin.{cm_create, cm_query}
use dsa_guide.Probabilistic.CountMin.Count
use dsa_guide.Probabilistic.CountMin.Count.{true_count, all_counts, cm_query-true_count}
use dsa_guide.Probabilistic.CountingBloom.{CountingBloom, cbloom_add, cbloom_test, cbloom_remove}
use dsa_guide.Probabilistic.CountingBloom.Slots.{half, slot}
use dsa_guide.Probabilistic.CountingBloom.Found.{cbloom_remove-cbloom_add}
use dsa_guide.Probabilistic.HyperLogLog.{hll_create, hll_merge}
use dsa_guide.Probabilistic.HyperLogLog.Merge.{adds as hll_adds, hll_merge-adds}
use native.Mathlib.Nat.{zero-div}
use dsa_guide.Probabilistic.Bloom.{bloom_test}
use dsa_guide.Probabilistic.Bloom.Member.{filled, bloom_test-filled}

-- Three of the first key and two of the second.
abbrev history : List (List ℕ × ℕ)
history = ((1 ∷ []), 3) ∷ ((2 ∷ []), 2) ∷ []

cm_query-true_count_example :
    Returns
      (λ m. true_count (1 ∷ []) history ≤ m)
      (Count.adds history (cm_create 5 2) >>= λ cm. cm_query cm (1 ∷ []))
cm_query-true_count_example = cm_query-true_count 5 2 (1 ∷ []) history (omega arith) (omega arith)

bloom_test-filled_example :
    Returns
      (λ bf. bloom_test bf (7 ∷ []) ≡ ok true)
      (filled 10 3 ((1 ∷ []) ∷ []) (7 ∷ []) ((2 ∷ []) ∷ []))
bloom_test-filled_example =
    bloom_test-filled 10 3 ((1 ∷ []) ∷ []) (7 ∷ []) ((2 ∷ []) ∷ []) (omega arith)

-- Nine slots, no key yet.
abbrev counters : CountingBloom
counters = record { counts = 0 ∷ 0 ∷ 0 ∷ 0 ∷ 0 ∷ []; slots = 9; num_hashes = 3 }

counters-bytes : (i : ℕ) → get_or counters.counts i 0 < 256
counters-bytes zero = omega arith
counters-bytes (suc zero) = omega arith
counters-bytes (suc (suc zero)) = omega arith
counters-bytes (suc (suc (suc zero))) = omega arith
counters-bytes (suc (suc (suc (suc zero)))) = omega arith
counters-bytes (suc (suc (suc (suc (suc i))))) = omega arith

empty_cell : (i : ℕ) → get_or counters.counts i 0 ≡ 0
empty_cell zero = refl
empty_cell (suc zero) = refl
empty_cell (suc (suc zero)) = refl
empty_cell (suc (suc (suc zero))) = refl
empty_cell (suc (suc (suc (suc zero)))) = refl
empty_cell (suc (suc (suc (suc (suc i))))) = refl

counters-low : (j : ℕ) → slot counters.counts j + 3 ≤ 15
counters-low j = subst (λ c. half c (j % 2) + 3 ≤ 15) (sym (empty_cell (j / 2))) (zero_half (j % 2))
  where
    zero_half : (k : ℕ) → half 0 k + 3 ≤ 15
    zero_half k = omega (arith, zero-div (2 ^ (k * 4)))

cbloom_remove-cbloom_add_example :
    Returns
      (λ added.
        (cbloom_test added (7 ∷ []) ≡ ok true)
        × Returns
            (λ (found, after).
              (found ≡ true) × ((j : ℕ) → slot after.counts j ≡ slot counters.counts j))
            (cbloom_remove added (7 ∷ [])))
      (cbloom_add counters (7 ∷ []))
cbloom_remove-cbloom_add_example =
    cbloom_remove-cbloom_add counters (7 ∷ [])
      (record { positive = omega arith; room = omega arith; bytes = counters-bytes }) counters-low

-- Any function in the place of `__builtin_clzll`.
hll_merge-adds_example :
    Returns
      (λ merged. hll_adds (λ x. 3) (((1 ∷ []) ∷ []) ++ (2 ∷ []) ∷ []) (hll_create 4) ≡ ok merged)
      (hll_adds (λ x. 3) ((1 ∷ []) ∷ []) (hll_create 4) >>= λ dst.
        hll_adds (λ x. 3) ((2 ∷ []) ∷ []) (hll_create 4) >>= λ src. hll_merge dst src)
hll_merge-adds_example =
    hll_merge-adds (λ x. 3) 4 ((1 ∷ []) ∷ []) ((2 ∷ []) ∷ []) (omega arith) (omega arith)
