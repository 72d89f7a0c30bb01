-- ===== src/Probabilistic/Bloom.antt =====
-- src/probabilistic/bloom_filter.c, the plain Bloom filter. A key is the list of its bytes. The sizes
-- come from floating point, and are parameters of `bloom_create`.
pub mod Single
pub mod Member
use Prim.Native.Nat.{bit_and, bit_or, bit_xor}
use dsa_guide.Prelude.{
  ℕ, zero, suc, ◌+◌, ◌*◌, ◌/◌, ◌%◌, ◌^◌, Bool, true, false, not, List, [], ◌∷◌, ◌==◌, Run, ok,
  undefined, ◌>>=◌, load, store, if◌then◌else◌, replicate,
}

pub record BloomFilter : Type 0 where
  pub bits : List ℕ
  pub bit_count : ℕ
  pub num_hashes : ℕ
  pub count : ℕ

-- `h ^= h >> 33`
abbrev fold_high : ℕ → ℕ
fold_high h = bit_xor h (h / 2 ^ 33)

-- The factors are 0xff51afd7ed558ccd and 0xc4ceb9fe1a85ec53.
pub murmur_mix : ℕ → ℕ
murmur_mix h =
    fold_high
      (fold_high (fold_high h * 18397679294719823053 % 2 ^ 64) * 14181476777654086739 % 2 ^ 64)

-- The loop of `bloom_hash` over the bytes from byte `i` on.
pub mix_loop : ℕ → ℕ → ℕ → List ℕ → ℕ × ℕ
mix_loop i h1 h2 [] = (h1, h2)
mix_loop i h1 h2 (p ∷ bytes) =
    mix_loop (i + 1) (bit_xor h1 (p * (i + 1) % 2 ^ 64)) (bit_xor h2 p) bytes

-- `bloom_hash` before the last step.
pub hash_sum : List ℕ → ℕ → ℕ
hash_sum bytes k =
    let sums = mix_loop 0 0 0 bytes in (murmur_mix sums.0 + k * murmur_mix sums.1) % 2 ^ 64

pub bloom_hash : List ℕ → ℕ → ℕ → Run ℕ
bloom_hash bytes k bits = if bits == 0 then undefined else ok (hash_sum bytes k % bits)

-- `m` bits and `k` hashes, from the formulas in floating point; `calloc` gives zeros.
pub bloom_create : ℕ → ℕ → BloomFilter
bloom_create m k = record {
  bits = replicate ((m + 7) / 8) 0;
  bit_count = m;
  num_hashes = k;
  count = 0;
}

pub bit_set : List ℕ → ℕ → Run (List ℕ)
bit_set bits i = do v ← load bits (i / 8); store bits (i / 8) (bit_or v (2 ^ (i % 8)) % 2 ^ 8)

pub bit_get : List ℕ → ℕ → Run Bool
bit_get bits i = load bits (i / 8) >>= λ v. ok (not (bit_and v (2 ^ (i % 8)) == 0))

-- The loop of `bloom_add`, with `n` hashes left from the `k`-th on.
pub add_loop : ℕ → ℕ → List ℕ → ℕ → List ℕ → Run (List ℕ)
add_loop zero k bytes m bits = ok bits
add_loop (suc n) k bytes m bits = do
  i ← bloom_hash bytes k m
  after ← bit_set bits i
  add_loop n (k + 1) bytes m after

pub bloom_add : BloomFilter → List ℕ → Run BloomFilter
bloom_add bf bytes = do
  bits ← add_loop bf.num_hashes 0 bytes bf.bit_count bf.bits
  ok (record bf { bits = bits; count = (bf.count + 1) % 2 ^ 64 })

-- The loop of `bloom_test`.
pub test_loop : ℕ → ℕ → List ℕ → ℕ → List ℕ → Run Bool
test_loop zero k bytes m bits = ok true
test_loop (suc n) k bytes m bits = do
  i ← bloom_hash bytes k m
  found ← bit_get bits i
  let rest = test_loop n (k + 1) bytes m bits
  if found then rest else ok false

pub bloom_test : BloomFilter → List ℕ → Run Bool
bloom_test bf bytes = test_loop bf.num_hashes 0 bytes bf.bit_count bf.bits
