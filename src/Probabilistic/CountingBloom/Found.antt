-- ===== src/Probabilistic/CountingBloom/Found.antt =====
-- A key that was added to the counting filter is found, and its removal undoes the addition.
use native.Mathlib.Nat.{mod-lt}
use dsa_guide.Prelude.{
  ℕ, zero, suc, ◌+◌, ◌-◌, ◌*◌, ◌/◌, ◌<◌, ◌≤◌, ◌≡◌, refl, ◌∙◌, true, false, List, ◌==◌,
  if◌then◌else◌, ok, Returns, returns, Returns-bind, Returns-map, length, arith,
}
use dsa_guide.Probabilistic.Bloom.{hash_sum}
use dsa_guide.Probabilistic.Bloom.Member.{at, bloom_hash-at}
use dsa_guide.Probabilistic.CountingBloom.{
  CountingBloom, cbloom_inc, cbloom_dec, each_loop, cbloom_add, test_loop, cbloom_test,
  cbloom_remove,
}
use dsa_guide.Probabilistic.CountingBloom.Slots.{
  slot, IsBytes, Changed, cbloom_get-slot, cbloom_inc-Changed, cbloom_dec-Changed,
}

-- There is a counter for each slot.
pub record Fits (m : ℕ) (counts : List ℕ) : Type 0 where
  pub positive : 1 ≤ m
  pub room : m ≤ 2 * length counts
  pub bytes : IsBytes counts

-- How many of the `n` hashes from the `k`-th on are slot `j`.
abbrev hits : ℕ → ℕ → List ℕ → ℕ → ℕ → ℕ
hits zero k bytes m j = 0
hits (suc n) k bytes m j = (if at bytes m k == j then 1 else 0) + hits n (k + 1) bytes m j

hits-le : (n k : ℕ) (bytes : List ℕ) (m j : ℕ) → hits n k bytes m j ≤ n
hits-le zero k bytes m j = omega arith
hits-le (suc n) k bytes m j = ground (arith, hits-le n (k + 1) bytes m j)

module _ (bytes : List ℕ) (m : ℕ) where
  inside : (k : ℕ) (counts : List ℕ) → Fits m counts → at bytes m k / 2 < length counts
  inside k counts f = omega (arith, mod-lt (hash_sum bytes k) f.positive, f.room)

  refit :
      {counts : List ℕ} {i : ℕ} {g : ℕ → ℕ} (after : List ℕ)
      → Fits m counts
      → Changed counts i g after
      → Fits m after
  refit after f c = record {
    positive = f.positive;
    room = omega (arith, f.room, c.size);
    bytes = c.bytes;
  }

  -- The counters after the loop, which `f` of their hits and of what they were says.
  abbrev Counted : (ℕ → ℕ → ℕ) → ℕ → ℕ → List ℕ → List ℕ → Type 0
  Counted f n k counts r = Fits m r × ((j : ℕ) → slot r j ≡ f (slot counts j) (hits n k bytes m j))

  add_loop-Counted :
      (n k : ℕ) (counts : List ℕ)
      → Fits m counts
      → ((j : ℕ) → slot counts j + hits n k bytes m j ≤ 15)
      → Returns (Counted (λ v h. v + h) n k counts) (each_loop cbloom_inc n k bytes m counts)
  unfolding each_loop
  add_loop-Counted zero k counts f room = returns (f, λ j. omega arith)
  add_loop-Counted (suc n) k counts f room = rw (bloom_hash-at bytes k m f.positive) (
      Returns-bind (cbloom_inc-Changed counts (at bytes m k) (inside k counts f) f.bytes) λ mid c.
        Returns-map
          (add_loop-Counted n (k + 1) mid (refit mid f c) λ j. ground (arith, c.cells j, room j))
          λ r (g, cells). (g, λ j. cells j ∙ ground (arith, c.cells j, room j)))

  remove_loop-Counted :
      (n k : ℕ) (counts : List ℕ)
      → Fits m counts
      → ((j : ℕ) → hits n k bytes m j ≤ slot counts j)
      → Returns (Counted (λ v h. v - h) n k counts) (each_loop cbloom_dec n k bytes m counts)
  unfolding each_loop
  remove_loop-Counted zero k counts f room = returns (f, λ j. omega arith)
  remove_loop-Counted (suc n) k counts f room = rw (bloom_hash-at bytes k m f.positive) (
      Returns-bind (cbloom_dec-Changed counts (at bytes m k) (inside k counts f) f.bytes) λ mid c.
        Returns-map
          (remove_loop-Counted n (k + 1) mid (refit mid f c) λ j. ground (arith, c.cells j, room j))
          λ r (g, cells). (g, λ j. cells j ∙ ground (arith, c.cells j, room j)))

  test_loop-true :
      (n k : ℕ) (counts : List ℕ)
      → Fits m counts
      → ((j : ℕ) → hits n k bytes m j ≤ slot counts j)
      → test_loop n k bytes m counts ≡ ok true
  unfolding test_loop
  test_loop-true zero k counts f room = refl
  test_loop-true (suc n) k counts f room =
      let i = at bytes m k in
      let some_left : (slot counts i == 0) ≡ false = ground (arith, room i) in
      rw
        (
          bloom_hash-at bytes k m f.positive,
          cbloom_get-slot counts i (inside k counts f),
          some_left,
        )
        (test_loop-true n (k + 1) counts f λ j. ground (arith, room j))

-- On a filter with a counter for each of at least one slot, none of which is so high that the hashes of a
-- key could bring it past 15: after `cbloom_add` of the key, `cbloom_test` answers true, and then
-- `cbloom_remove` of the key returns true and leaves every counter as it was before the addition.
pub cbloom_remove-cbloom_add :
    (cb : CountingBloom) (bytes : List ℕ)
    → Fits cb.slots cb.counts
    → ((j : ℕ) → slot cb.counts j + cb.num_hashes ≤ 15)
    → Returns
        (λ added.
          (cbloom_test added bytes ≡ ok true)
          × Returns
              (λ (found, after).
                (found ≡ true) × ((j : ℕ) → slot after.counts j ≡ slot cb.counts j))
              (cbloom_remove added bytes))
        (cbloom_add cb bytes)
unfolding cbloom_add cbloom_test cbloom_remove
cbloom_remove-cbloom_add cb bytes f low =
    let n = cb.num_hashes in
    let m = cb.slots in
    Returns-bind
      (add_loop-Counted bytes m n 0 cb.counts f λ j. omega (arith, low j, hits-le n 0 bytes m j))
      λ counts (g, cells).
        let found = test_loop-true bytes m n 0 counts g (λ j. omega (arith, cells j)) in
        returns (
          found,
          rw found (
              Returns-bind (remove_loop-Counted bytes m n 0 counts g λ j. omega (arith, cells j))
                λ r (_, back). returns (refl, λ j. omega (arith, back j, cells j))),
        )
