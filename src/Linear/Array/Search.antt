-- ===== src/Linear/Array/Search.antt =====
-- `array_binary_search` finds the target in a sorted array exactly when it is there.
use dsa_guide.Prelude.{
  ℕ, zero, suc, ◌+◌, ◌-◌, ◌/◌, ◌<◌, ◌≤◌, ◌≡◌, ◌≢◌, ◌⊎◌, inl, inr, refl, subst, true, false, ℤ, pos,
  negsuc, ◌-ℤ◌, ltb_ℤ, ◌==ℤ◌, eq_of_==ℤ, arith, load-ok, Returns, returns, Returns-if, leb, dec_lt,
  as_int-pos,
}
use dsa_guide.Linear.Array.{Array, binary_search_loop, array_binary_search, at, IsSorted}

-- The index of the target, or -1 for a target that is nowhere in the array.
abbrev pub Found : Array → ℤ → ℤ → Type 0
Found a target r =
    ((i : ℕ) × (r ≡ pos i) × (i < a.size) × (at a.block i ≡ target))
    ⊎ ((r ≡ negsuc 0) × ((i : ℕ) → i < a.size → at a.block i ≢ target))

pub last_index : (h : ℕ) → pos (suc h) -ℤ pos 1 ≡ pos h
unfolding ◌-ℤ◌
last_index h = ground arith

pub no_index : pos 0 -ℤ pos 1 ≡ negsuc 0
unfolding ◌-ℤ◌
no_index = refl

module _ (a : Array) (target : ℤ) (sorted : IsSorted a) where
  -- No cell before `lo` and none from `past` on holds the target.
  abbrev Narrowed : ℕ → ℕ → Type 0
  Narrowed lo past =
      ((i : ℕ) → i < lo → at a.block i ≢ target)
      × ((i : ℕ) → past ≤ i → i < a.size → at a.block i ≢ target)

  abbrev mid : ℕ → ℕ → ℕ
  mid lo h = lo + (h - lo) / 2

  Narrowed-right :
      (lo h : ℕ)
      → lo ≤ h
      → h < a.size
      → (ltb_ℤ (at a.block (mid lo h)) target) ≡ true
      → Narrowed lo (suc h)
      → Narrowed (mid lo h + 1) (suc h)
  Narrowed-right lo h le lt less (before, after) =
      (λ i p e. ground (arith, sorted.ascending i (mid lo h) (omega arith) (omega arith), e), after)

  Narrowed-left :
      (lo h : ℕ)
      → lo ≤ h
      → h < a.size
      → (at a.block (mid lo h) ==ℤ target) ≡ false
      → (ltb_ℤ (at a.block (mid lo h)) target) ≡ false
      → Narrowed lo (suc h)
      → Narrowed lo (mid lo h)
  Narrowed-left lo h le lt differ more (before, after) =
      (before, λ i p q e. ground (arith, sorted.ascending (mid lo h) i p q, e))

  loop-Found :
      (fuel lo past : ℕ)
      → past - lo < fuel
      → past ≤ a.size
      → Narrowed lo past
      → Returns (Found a target) (binary_search_loop fuel a.block target lo (pos past -ℤ pos 1))
  unfolding binary_search_loop
  loop-Found zero lo past f h n = absurd (omega arith)
  loop-Found (suc fuel) lo zero f h (before, after) =
      rw (no_index, binary_search_loop) (returns (inr (refl, λ i q. after i (omega arith) q)))
  loop-Found (suc fuel) lo (suc h) f le n =
      rw (last_index h, binary_search_loop)
        (Returns-if (leb lo h)
          (λ inside.
            let low : lo ≤ h = ground arith in
            let mid_in : mid lo h < a.size = omega arith in
            rw (load-ok a.block (mid lo h) (pos 0) (omega (arith, sorted.in_block))) (
              Returns-if (at a.block (mid lo h) ==ℤ target)
                (λ e. returns (inl (mid lo h, refl, mid_in, eq_of_==ℤ _ _ e)))
                λ differ.
                  Returns-if (ltb_ℤ (at a.block (mid lo h)) target)
                    (λ less.
                      subst
                        (λ t.
                          Returns (Found a target)
                            (binary_search_loop fuel a.block target (mid lo h + 1) t))
                        (last_index h)
                        (loop-Found fuel (mid lo h + 1) (suc h) (omega arith) le
                          (Narrowed-right lo h low le less n)))
                    λ more.
                      loop-Found fuel lo (mid lo h) (omega arith) (omega arith)
                        (Narrowed-left lo h low le differ more n)))
          λ outside.
            let high : h < lo = ground arith in
            returns (
              inr (
                refl,
                λ i q. elim (dec_lt i lo) [ yes p ↦ n.0 i p | no p ↦ n.1 i (omega arith) q ],
              )))

-- On a sorted array whose size fits an `int`, `array_binary_search` always returns: an index at which
-- the target stands, or -1 if it stands at no index.
pub array_binary_search-Found :
    (a : Array) (target : ℤ) → IsSorted a → Returns (Found a target) (array_binary_search a target)
unfolding array_binary_search
array_binary_search-Found a target sorted = rw (as_int-pos a.size sorted.int_size) (
    loop-Found a target sorted (a.size + 1) 0 a.size (omega arith) (omega arith)
      (λ i p. absurd (omega arith), λ i p q. absurd (omega arith)))
