-- ===== src/Probabilistic/HyperLogLog.antt =====
-- src/probabilistic/count_min.c, the registers of HyperLogLog. A key is the list of its bytes. The bias
-- correction `alpha` and the estimate are floating point, and are left out.
pub mod Merge
use Prim.Native.Nat.{bit_xor}
use dsa_guide.Prelude.{
  ℕ, zero, suc, ◌+◌, ◌-◌, ◌*◌, ◌/◌, ◌%◌, ◌^◌, List, [], ◌∷◌, ltb, ◌==◌, if◌then◌else◌, length,
  replicate, Run, ok, undefined, ◌>>=◌, load, store,
}
use dsa_guide.Probabilistic.Bloom.{murmur_mix}

pub record HyperLogLog : Type 0 where
  pub registers : List ℕ
  pub b : ℕ
  pub m : ℕ

-- The loop of `hll_hash`; the factor is 0x100000001b3.
pub hash_loop : ℕ → List ℕ → ℕ
hash_loop h [] = h
hash_loop h (p ∷ bytes) = hash_loop (bit_xor h p * 1099511628211 % 2 ^ 64) bytes

-- The start is 0xcbf29ce484222325; the final mix is that of the Bloom filter.
pub hll_hash : List ℕ → ℕ
hll_hash bytes = murmur_mix (hash_loop (bit_xor 14695981039346656037 (length bytes)) bytes)

-- `clzll` is `__builtin_clzll`.
pub clz64 : (ℕ → ℕ) → ℕ → ℕ
clz64 clzll x = if x == 0 then 64 else clzll x

-- For `b` up to 30, so that 1 << b is an `int`.
pub hll_create : ℕ → HyperLogLog
hll_create b = record { registers = replicate (2 ^ b) 0; b = b; m = 2 ^ b }

-- `if (rank > registers[reg]) registers[reg] = rank;`
abbrev pub raise : List ℕ → ℕ → ℕ → Run (List ℕ)
raise registers reg rank = do
  old ← load registers reg
  if ltb old rank then store registers reg rank else ok registers

-- The top `b` bits of the hash; a shift by all 64 bits is undefined.
pub hll_add : (ℕ → ℕ) → HyperLogLog → List ℕ → Run HyperLogLog
hll_add clzll hll bytes = do
  let h = hll_hash bytes
  reg ← (if hll.b == 0 then undefined else ok (h / 2 ^ (64 - hll.b)))
  let rank = (clz64 clzll (h * 2 ^ hll.b % 2 ^ 64) + 1) % 2 ^ 8
  registers ← raise hll.registers reg rank
  ok (record hll { registers = registers })

-- The loop of `hll_merge`, with `k` registers left from `i` on.
pub merge_loop : ℕ → ℕ → List ℕ → List ℕ → Run (List ℕ)
merge_loop zero i dst src = ok dst
merge_loop (suc k) i dst src = do
  rank ← load src i
  after ← raise dst i rank
  merge_loop k (i + 1) after src

pub hll_merge : HyperLogLog → HyperLogLog → Run HyperLogLog
hll_merge dst src = do
  registers ← merge_loop dst.m 0 dst.registers src.registers
  ok (record dst { registers = registers })

pub hll_reset : HyperLogLog → HyperLogLog
hll_reset hll = record hll { registers = replicate hll.m 0 }
