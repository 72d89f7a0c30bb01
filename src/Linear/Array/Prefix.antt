-- ===== src/Linear/Array/Prefix.antt =====
-- `array_prefix_sum_build` and `array_prefix_sum_query` against sums of ranges.
use dsa_guide.Prelude.{
  ℕ, zero, suc, ◌+◌, ◌-◌, ◌^◌, ◌<◌, ◌≤◌, ◌≡◌, refl, sym, ap, ◌∙◌, true, Option, List, ℤ, pos, ◌+ℤ◌,
  ◌-ℤ◌, +ℤ_parts, -ℤ_parts, eq_of_parts, IsInt, ok, arith, length, length-set, set, get_or-set_self,
  get_or-set_ne, subst, aborted, ◌&&◌, ℕ_discrete, store-ok, load-ok, as_int-ok, as_int-pos,
  Returns, returns, Returns-bind, Bool-cases, inl, inr, ltb, leb, if◌then◌else◌,
}
use dsa_guide.Linear.Array.Grow.{array_push-room}
use dsa_guide.Linear.Array.{
  Array, array_create, append, array_push, prefix_sum_loop, array_prefix_sum_build,
  array_prefix_sum_query, at,
}

-- The sum of the `n` values from index `l` on.
abbrev pub range_sum : List ℤ → ℕ → ℕ → ℤ
range_sum block l zero = pos 0
range_sum block l (suc n) = range_sum block l n +ℤ at block (l + n)

range_sum-suc :
    (block : List ℤ) (l n : ℕ) → range_sum block l (suc n) ≡ range_sum block l n +ℤ at block (l + n)
range_sum-suc block l n = refl

range_sum-add :
    (block : List ℤ) (l n : ℕ)
    → range_sum block 0 (l + n) -ℤ range_sum block 0 l ≡ range_sum block l n
range_sum-add block l zero =
    ap (λ t. range_sum block 0 t -ℤ range_sum block 0 l) {y = l} (omega arith)
    ∙ eq_of_parts _ _ (omega (arith, -ℤ_parts (range_sum block 0 l) (range_sum block 0 l)))
range_sum-add block l (suc n) =
    ap (λ t. range_sum block 0 t -ℤ range_sum block 0 l) {y = suc (l + n)} (omega arith)
    ∙ ap (λ t. range_sum block 0 (l + n) +ℤ at block t -ℤ range_sum block 0 l) {y = l + n}
        (omega arith)
    ∙ eq_of_parts _ _ (
        omega (
          arith,
          +ℤ_parts (range_sum block 0 (l + n)) (at block (l + n)),
          -ℤ_parts (range_sum block 0 (l + n) +ℤ at block (l + n)) (range_sum block 0 l),
          -ℤ_parts (range_sum block 0 (l + n)) (range_sum block 0 l),
          +ℤ_parts (range_sum block 0 (l + n) -ℤ range_sum block 0 l) (at block (l + n)),
        ))
    ∙ ap (λ t. t +ℤ at block (l + n)) (range_sum-add block l n)

-- `prefix` holds the sums of the first `0, 1, ..., n` values of `block`.
pub record HasSums (block : List ℤ) (n : ℕ) (prefix : Array) : Type 0 where
  pub size_eq : prefix.size ≡ n + 1
  pub size_le : prefix.size ≤ prefix.capacity
  pub block_fits : prefix.capacity ≤ length prefix.block
  pub sums : (k : ℕ) → k ≤ n → at prefix.block k ≡ range_sum block 0 k

module _ (realloc : List ℤ → ℕ → Option (List ℤ)) (a : Array) (fits : a.size ≤ length a.block)
    (small : (k : ℕ) → k ≤ a.size → IsInt (range_sum a.block 0 k)) where
  push_sum :
      (i : ℕ) (prefix : Array) (v : ℤ)
      → HasSums a.block i prefix
      → prefix.size < prefix.capacity
      → v ≡ range_sum a.block 0 (suc i)
      → Returns
          (λ r. HasSums a.block (suc i) r.1 × (r.1.capacity ≡ prefix.capacity))
          (array_push realloc prefix v)
  unfolding append
  push_sum i prefix v h room e =
      rw
        (
          array_push-room realloc prefix v room,
          store-ok prefix.block prefix.size v (omega (arith, h.block_fits)),
        )
        (returns (
          record {
            size_eq = omega (arith, h.size_eq);
            size_le = omega arith;
            block_fits = omega (arith, h.block_fits, length-set prefix.block prefix.size v);
            sums = λ k hk. elim (ℕ_discrete k (suc i)) [
              | yes last ↦
                  ap (at (set prefix.block prefix.size v)) {y = prefix.size}
                    (omega (arith, h.size_eq))
                  ∙ get_or-set_self prefix.block prefix.size v (pos 0) (omega (arith, h.block_fits))
                  ∙ e
                  ∙ ap (range_sum a.block 0) (sym last)
              | no other ↦
                  get_or-set_ne prefix.block prefix.size k v (pos 0) (omega (arith, h.size_eq))
                  ∙ h.sums k (omega arith)
            ];
          },
          refl,
        ))

  loop-HasSums :
      (n i : ℕ) (prefix : Array)
      → i + n ≡ a.size
      → HasSums a.block i prefix
      → prefix.capacity ≡ a.size + 1
      → Returns (HasSums a.block a.size) (prefix_sum_loop realloc n i a prefix)
  unfolding prefix_sum_loop
  loop-HasSums zero i prefix e h c = returns (subst (λ t. HasSums a.block t prefix) (omega arith) h)
  loop-HasSums (suc n) i prefix e h c =
      let next : at prefix.block i +ℤ at a.block i ≡ range_sum a.block 0 (suc i) =
        ap (λ s. s +ℤ at a.block i) (h.sums i (omega arith))
        ∙ ap (λ t. range_sum a.block 0 i +ℤ at a.block t) {x = i} {y = 0 + i} (omega arith)
        ∙ sym (range_sum-suc a.block 0 i) in
      rw
        (
          load-ok prefix.block i (pos 0) (omega (arith, h.block_fits, h.size_le, h.size_eq)),
          load-ok a.block i (pos 0) (omega arith),
          as_int-ok (at prefix.block i +ℤ at a.block i)
              (subst IsInt (sym next) (small (suc i) (omega arith))),
        )
        (Returns-bind
          (push_sum i prefix (at prefix.block i +ℤ at a.block i) h (omega (arith, h.size_eq)) next)
          λ r (h', c').
            loop-HasSums n (i + 1) r.1 (omega arith)
              (subst (λ t. HasSums a.block t r.1) (omega arith) h') (c' ∙ c))

  -- For every array of `n` values whose sums from the first on all fit an `int`, with a block of
  -- `n + 1` cells from `malloc`, `array_prefix_sum_build` returns the sums of the first `0, 1,
  -- ..., n` values.
  pub array_prefix_sum_build-HasSums :
      (block : List ℤ)
      → a.size + 1 ≤ length block
      → Returns (HasSums a.block a.size) (array_prefix_sum_build realloc block a)
  unfolding array_prefix_sum_build array_create append
  array_prefix_sum_build-HasSums block room =
      rw
        (
          array_push-room realloc (array_create block (a.size + 1)) (pos 0) (omega arith),
          store-ok block 0 (pos 0) (omega arith),
        )
        (loop-HasSums a.size 0
          (record { block = set block 0 (pos 0); size = 0 + 1; capacity = a.size + 1 })
          (omega arith)
          (record {
            size_eq = refl;
            size_le = omega arith;
            block_fits = omega (arith, length-set block 0 (pos 0));
            sums = λ k hk.
                ap (at (set block 0 (pos 0))) {y = 0} (omega arith)
                ∙ get_or-set_self block 0 (pos 0) (pos 0) (omega arith)
                ∙ ap (range_sum a.block 0) {x = 0} {y = k} (omega arith);
          })
          refl)

-- On such an array of sums `array_prefix_sum_query l r` is the sum of the values at `l, ..., r`, for
-- every range inside the array whose sum fits an `int`; for any other range the assertion fails.
pub array_prefix_sum_query-range_sum :
    (block : List ℤ) (n l r : ℕ) (prefix : Array)
    → HasSums block n prefix
    → prefix.size < 2 ^ 31
    → IsInt (range_sum block l (r + 1 - l))
    → array_prefix_sum_query prefix (pos l) (pos r)
      ≡ (if ltb r n && leb l r then ok (range_sum block l (r + 1 - l)) else aborted)
unfolding array_prefix_sum_query
array_prefix_sum_query-range_sum block n l r prefix h small fits =
    elim (Bool-cases (ltb r n && leb l r)) [
      | inr out ↦ rw (as_int-pos prefix.size small) (ground (arith, h.size_eq))
      | inl in_range ↦
          let high : r < n = ground arith in
          let low : l ≤ r = ground arith in
          let asserted : (ltb (r + 1) prefix.size && leb l r) ≡ true = ground (arith, h.size_eq) in
          let difference : at prefix.block (r + 1) -ℤ at prefix.block l
              ≡ range_sum block l (r + 1 - l) =
            ap (λ t. t -ℤ at prefix.block l) (h.sums (r + 1) (omega arith))
            ∙ ap (λ t. range_sum block 0 (r + 1) -ℤ t) (h.sums l (omega arith))
            ∙ ap (λ t. range_sum block 0 t -ℤ range_sum block 0 l) {y = l + (r + 1 - l)}
                (omega arith)
            ∙ range_sum-add block l (r + 1 - l) in
          rw (
            in_range,
            as_int-pos prefix.size small,
            asserted,
            load-ok prefix.block (r + 1) (pos 0)
                (omega (arith, h.size_eq, h.size_le, h.block_fits)),
            load-ok prefix.block l (pos 0) (omega (arith, h.size_eq, h.size_le, h.block_fits)),
            difference,
            as_int-ok (range_sum block l (r + 1 - l)) fits,
          )
    ]
