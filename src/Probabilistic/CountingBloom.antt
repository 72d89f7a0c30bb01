-- ===== src/Probabilistic/CountingBloom.antt =====
-- src/probabilistic/bloom_filter.c, the counting filter: two counters of four bits in each byte. Its sizes
-- come from floating point, and are parameters of `cbloom_create`.
pub mod Slots
pub mod Found
use Prim.Native.Nat.{bit_and}
use dsa_guide.Prelude.{
  ℕ, zero, suc, ◌+◌, ◌-◌, ◌*◌, ◌/◌, ◌%◌, ◌^◌, Bool, true, false, List, ltb, ◌==◌, if◌then◌else◌,
  replicate, Run, ok, ◌>>=◌, load, store,
}
use dsa_guide.Probabilistic.Bloom.{bloom_hash}

pub record CountingBloom : Type 0 where
  pub counts : List ℕ
  pub slots : ℕ
  pub num_hashes : ℕ

pub cbloom_create : ℕ → ℕ → CountingBloom
cbloom_create m k = record { counts = replicate ((m + 1) / 2) 0; slots = m; num_hashes = k }

-- `1 << ((i%2)*4)`
abbrev pub unit_of : ℕ → ℕ
unit_of i = 2 ^ (i % 2 * 4)

pub cbloom_get : List ℕ → ℕ → Run ℕ
cbloom_get counts i = load counts (i / 2) >>= λ c. ok (bit_and (c / unit_of i) 15)

pub cbloom_inc : List ℕ → ℕ → Run (List ℕ)
cbloom_inc counts i = do
  v ← cbloom_get counts i
  c ← load counts (i / 2)
  if ltb v 15 then store counts (i / 2) ((c + unit_of i) % 2 ^ 8) else ok counts

pub cbloom_dec : List ℕ → ℕ → Run (List ℕ)
cbloom_dec counts i = do
  v ← cbloom_get counts i
  c ← load counts (i / 2)
  if ltb 0 v then store counts (i / 2) ((c + 2 ^ 8 - unit_of i) % 2 ^ 8) else ok counts

-- The loops of `cbloom_add` and `cbloom_remove`, which change one counter for each hash, with `n` hashes
-- left from the `k`-th on.
pub each_loop : (List ℕ → ℕ → Run (List ℕ)) → ℕ → ℕ → List ℕ → ℕ → List ℕ → Run (List ℕ)
each_loop change zero k bytes m counts = ok counts
each_loop change (suc n) k bytes m counts = do
  i ← bloom_hash bytes k m
  after ← change counts i
  each_loop change n (k + 1) bytes m after

pub cbloom_add : CountingBloom → List ℕ → Run CountingBloom
cbloom_add cb bytes = do
  counts ← each_loop cbloom_inc cb.num_hashes 0 bytes cb.slots cb.counts
  ok (record cb { counts = counts })

pub test_loop : ℕ → ℕ → List ℕ → ℕ → List ℕ → Run Bool
test_loop zero k bytes m counts = ok true
test_loop (suc n) k bytes m counts = do
  i ← bloom_hash bytes k m
  v ← cbloom_get counts i
  let rest = test_loop n (k + 1) bytes m counts
  if v == 0 then ok false else rest

pub cbloom_test : CountingBloom → List ℕ → Run Bool
cbloom_test cb bytes = test_loop cb.num_hashes 0 bytes cb.slots cb.counts

-- What the call returns, and the filter after it.
pub cbloom_remove : CountingBloom → List ℕ → Run (Bool × CountingBloom)
cbloom_remove cb bytes = do
  found ← cbloom_test cb bytes
  let remove : Run (Bool × CountingBloom) = (do
    counts ← each_loop cbloom_dec cb.num_hashes 0 bytes cb.slots cb.counts
    ok (true, record cb { counts = counts }))
  if found then remove else ok (false, cb)
