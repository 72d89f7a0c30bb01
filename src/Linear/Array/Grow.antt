-- ===== src/Linear/Array/Grow.antt =====
-- The array calls against the list of its values.
use dsa_guide.Prelude.{
  ℕ, suc, ◌-◌, ◌*◌, ◌/◌, ◌%◌, ◌^◌, ◌<◌, ◌≤◌, ◌≡◌, ◌⊎◌, inl, inr, refl, ap, ◌∙◌, true, false, Option,
  none, some, List, [], ◌∷◌, ◌++◌, ℤ, pos, ok, aborted, undefined, arith, length, length-set,
  take-set, take-suc, set, take, load-ok, store-ok, Returns, returns, Returns-map, ℕ_discrete,
  Option-cases, lt→ltb, ◌==◌, if◌then◌else◌, get_or-set, store-out,
}
use dsa_guide.Linear.Array.{
  Array, append, array_push, array_pop, array_get, array_set, array_items, IsValid,
}

-- What the C standard says of `realloc` for a positive number of bytes: the block that it returns has
-- that size, and begins with the values of the old one.
pub record IsRealloc (realloc : List ℤ → ℕ → Option (List ℤ)) : Type 0 where
  pub sized : (b : List ℤ) (n : ℕ) {c : List ℤ} → 0 < n → realloc b n ≡ some c → length c ≡ n / 4
  pub kept :
      (b : List ℤ) (n k : ℕ) {c : List ℤ}
      → realloc b n ≡ some c
      → k ≤ length b
      → k ≤ n / 4
      → take k c ≡ take k b

-- The array is valid, and holds `items`.
abbrev pub Holds : List ℤ → Array → Type 0
Holds items a = IsValid a × (array_items a ≡ items)

append-Holds :
    (a : Array) (val : ℤ)
    → IsValid a
    → a.size < a.capacity
    → Returns
        (λ r. (r.0 ≡ true) × Holds (array_items a ++ val ∷ []) r.1 × (r.1.capacity ≡ a.capacity))
        (append a val)
unfolding append
append-Holds a val v room = rw (store-ok a.block a.size val (omega (arith, v.block_fits))) (
    returns (
      refl,
      (
        record {
          size_le = omega arith;
          block_fits = omega (arith, v.block_fits, length-set a.block a.size val);
        },
        ap (λ n. take n (set a.block a.size val)) {y = suc a.size} (omega arith)
            ∙ take-set a.size a.block val (omega (arith, v.block_fits)),
      ),
      refl,
    ))

pub array_push-room :
    (realloc : List ℤ → ℕ → Option (List ℤ)) (a : Array) (val : ℤ)
    → a.size < a.capacity
    → array_push realloc a val ≡ append a val
unfolding array_push
array_push-room realloc a val room = ground arith

module _ (realloc : List ℤ → ℕ → Option (List ℤ)) (laws : IsRealloc realloc) where
  array_push-none :
      (a : Array) (val : ℤ)
      → a.size ≡ a.capacity
      → a.capacity < 2 ^ 60
      → realloc a.block (8 * a.capacity) ≡ none
      → array_push realloc a val ≡ ok (false, record a { block = []; capacity = 2 * a.capacity })
  unfolding array_push
  array_push-none a val full small e =
      let bytes : a.capacity * 2 % 2 ^ 64 * 4 % 2 ^ 64 ≡ 8 * a.capacity = omega arith in
      let e' = ap (realloc a.block) bytes ∙ e in ground arith

  array_push-some :
      (a : Array) (val : ℤ) {block : List ℤ}
      → a.size ≡ a.capacity
      → a.capacity < 2 ^ 60
      → realloc a.block (8 * a.capacity) ≡ some block
      → array_push realloc a val
        ≡ append (record a { block = block; capacity = 2 * a.capacity }) val
  unfolding array_push
  array_push-some a val full small e =
      let bytes : a.capacity * 2 % 2 ^ 64 * 4 % 2 ^ 64 ≡ 8 * a.capacity = omega arith in
      let e' = ap (realloc a.block) bytes ∙ e in ground arith

  -- With a `realloc` that keeps the standard's promises, `array_push` on a valid array of positive
  -- capacity, below 2 ^ 60, always returns. Either it puts the value behind the others, in an
  -- array of the same capacity, or of the double if it was full; or the array was full, `realloc`
  -- failed, and it returns `false`.
  pub array_push-Holds :
      (a : Array) (val : ℤ)
      → IsValid a
      → 0 < a.capacity
      → a.capacity < 2 ^ 60
      → Returns
          (λ r.
            ((r.0 ≡ true)
              × Holds (array_items a ++ val ∷ []) r.1
              × (r.1.capacity ≡ (if a.size == a.capacity then 2 * a.capacity else a.capacity)))
            ⊎ ((r.0 ≡ false) × (a.size ≡ a.capacity) × (realloc a.block (8 * a.capacity) ≡ none)))
          (array_push realloc a val)
  array_push-Holds a val v p small = elim (ℕ_discrete a.size a.capacity) [
    | no room ↦ rw (array_push-room realloc a val (omega (arith, v.size_le))) (
        Returns-map (append-Holds a val v (omega (arith, v.size_le)))
          λ r (done, held, same). inl (done, held, ground arith))
    | yes full ↦ elim (Option-cases (realloc a.block (8 * a.capacity))) [
      | inl e ↦ rw (array_push-none a val full small e) (returns (inr (refl, full, e)))
      | inr (block, e) ↦
          let size : length block ≡ 8 * a.capacity / 4 =
            laws.sized a.block (8 * a.capacity) (omega arith) e in
          let same : take a.size block ≡ array_items a =
            laws.kept a.block (8 * a.capacity) a.size e (omega (arith, v.block_fits))
              (omega arith) in
          rw (array_push-some a val full small e) (
            Returns-map
              (append-Holds (record a { block = block; capacity = 2 * a.capacity }) val
                (record { size_le = omega arith; block_fits = omega arith }) (omega arith))
              λ r (done, held, same').
                inl (done, (held.0, held.1 ∙ ap (λ l. l ++ val ∷ []) same), ground arith))
    ]
  ]

-- With capacity 0, as after `array_create(0)`, `array_push` never succeeds, whether `realloc` of 0
-- bytes fails or returns a block with no cell: doubling leaves the capacity at 0, and the new
-- value has no cell.
pub array_push-zero_capacity :
    (realloc : List ℤ → ℕ → Option (List ℤ)) (a : Array) (val : ℤ)
    → ((b c : List ℤ) → realloc b 0 ≡ some c → length c ≡ 0)
    → a.capacity ≡ 0
    → a.size ≡ 0
    → (array_push realloc a val ≡ undefined)
      ⊎ (array_push realloc a val ≡ ok (false, record a { block = []; capacity = 0 }))
unfolding array_push append
array_push-zero_capacity realloc a val empty h k =
    let bytes : a.capacity * 2 % 2 ^ 64 * 4 % 2 ^ 64 ≡ 0 = omega arith in
    elim (Option-cases (realloc a.block 0)) [
      | inl e ↦ let e' = ap (realloc a.block) bytes ∙ e in inr (ground arith)
      | inr (c, e) ↦
          let e' = ap (realloc a.block) bytes ∙ e in
          inl (ground (arith, store-out c a.size val (omega (arith, empty a.block c e))))
    ]

-- `array_pop` takes the last value off, and fails its assertion on an empty array.
pub array_pop-Holds :
    (a : Array)
    → IsValid a
    → ((a.size ≡ 0) × (array_pop a ≡ aborted))
      ⊎ Returns (λ r. (array_items a ≡ array_items r.1 ++ r.0 ∷ []) × IsValid r.1) (array_pop a)
unfolding array_pop
array_pop-Holds a v = elim (ℕ_discrete a.size 0) [
  | yes empty ↦ inl (empty, ground arith)
  | no more ↦ inr (
      rw
        (
          lt→ltb 0 a.size (omega arith),
          load-ok a.block (a.size - 1) (pos 0) (omega (arith, v.size_le, v.block_fits)),
        )
        (returns (
          ap (λ n. take n a.block) {y = suc (a.size - 1)} (omega arith)
              ∙ take-suc (a.size - 1) a.block (pos 0) (omega (arith, v.size_le, v.block_fits)),
          record { size_le = omega (arith, v.size_le); block_fits = v.block_fits },
        )))
]

-- In bounds `array_set` succeeds, and `array_get` then reads the new value at that index and the old
-- ones elsewhere; out of bounds both fail their assertions.
pub array_get-set :
    (a : Array) (i j : ℕ) (val : ℤ)
    → IsValid a
    → j < a.size
    → (i < a.size
        → Returns
            (λ a'.
              IsValid a'
              × (a'.size ≡ a.size)
              × (array_get a' j ≡ (if i == j then ok val else array_get a j)))
            (array_set a i val))
      × (a.size ≤ i → (array_set a i val ≡ aborted) × (array_get a i ≡ aborted))
unfolding array_get array_set
array_get-set a i j val v hj = (
  λ hi.
      rw (lt→ltb i a.size hi, store-ok a.block i val (omega (arith, v.size_le, v.block_fits)))
        (returns (
          record {
            size_le = v.size_le;
            block_fits = omega (arith, v.block_fits, length-set a.block i val);
          },
          refl,
          ground (
            arith,
            length-set a.block i val,
            load-ok (set a.block i val) j (pos 0),
            load-ok a.block j (pos 0),
            get_or-set a.block i j val (pos 0),
          ),
        )),
  λ out. ground arith,
)
