-- ===== src/Bits/Tricks.antt =====
-- The words of src/bits/bits.c that are folded, spread and selected without a branch. `clz`, `ctz`, `popcount`
-- and `bswap` are the compiler's builtins.
pub mod Least
use Prim.Native.Nat.{bit_and, bit_or, bit_xor}
use dsa_guide.Prelude.{
  ℕ, zero, suc, ◌+◌, ◌-◌, ◌*◌, ◌/◌, ◌%◌, ◌^◌, Bool, true, false, not, List, [], ◌∷◌, Run, ok,
  undefined, out_of_fuel, ◌>>=◌, ltb, leb, ◌==◌, if◌then◌else◌, load, store, ℤ, pos, negsuc, ◌-ℤ◌,
}
use dsa_guide.Words.Mask.{bit_not}
use dsa_guide.Bits.{words, one_at, negate_if, is_negative, single_loop}

-- 0x55555555, 0x33333333, 0x0F0F0F0F, 0x00FF00FF, 0x01010101 and 0x80808080
abbrev pub every_second : ℕ
every_second = 1431655765

abbrev pub every_pair : ℕ
every_pair = 858993459

abbrev pub every_nibble : ℕ
every_nibble = 252645135

abbrev pub every_byte : ℕ
every_byte = 16711935

abbrev pub low_bits : ℕ
low_bits = 16843009

abbrev pub high_bits : ℕ
high_bits = 2155905152

-- `x |= x >> m`
abbrev pub or_shr : ℕ → ℕ → ℕ
or_shr m x = bit_or x (x / 2 ^ m)

abbrev pub smear : ℕ → ℕ
smear x = or_shr 16 (or_shr 8 (or_shr 4 (or_shr 2 (or_shr 1 x))))

pub bit_next_pow2 : ℕ → ℕ
bit_next_pow2 x = if x == 0 then 1 else (smear (x - 1) + 1) % words

pub bit_prev_pow2 : ℕ → ℕ
bit_prev_pow2 x = if x == 0 then 0 else smear x - smear x / 2

-- `((x & mask) << k) | ((x >> k) & mask)`
abbrev pub swap_groups : ℕ → ℕ → ℕ → ℕ
swap_groups k mask x = bit_or (bit_and x mask * 2 ^ k % words) (bit_and (x / 2 ^ k) mask)

pub bit_reverse : (ℕ → ℕ) → ℕ → ℕ
bit_reverse bswap x =
    bswap (swap_groups 4 every_nibble (swap_groups 2 every_pair (swap_groups 1 every_second x)))

-- `x >> 31` on an `int32_t`, as GCC shifts it.
abbrev pub sign_mask : ℕ → ℕ
sign_mask x = if is_negative x then words - 1 else 0

-- The signs of two `int32_t`s and of the low word of their sum.
abbrev pub overflows : Bool → Bool → Bool → Bool
overflows true true false = true
overflows false false true = true
overflows _ _ _ = false

-- `a + b` and `a - b` on `int32_t`s.
unfoldable pub add_int : ℕ → ℕ → Run ℕ
add_int a b =
    let sum = (a + b) % words in
    if overflows (is_negative a) (is_negative b) (is_negative sum) then undefined else ok sum

unfoldable pub sub_int : ℕ → ℕ → Run ℕ
sub_int a b =
    let diff = (a + words - b) % words in
    if overflows (is_negative a) (not (is_negative b)) (is_negative diff)
    then undefined
    else ok diff

pub bit_min : ℕ → ℕ → Run ℕ
bit_min a b = do diff ← sub_int a b; add_int b (bit_and diff (sign_mask diff))

pub bit_max : ℕ → ℕ → Run ℕ
bit_max a b = do diff ← sub_int b a; add_int a (bit_and diff (bit_not 32 (sign_mask diff)))

pub bit_abs : ℕ → Run ℕ
bit_abs x = sub_int (bit_xor x (sign_mask x)) (sign_mask x)

pub bit_same_sign : ℕ → ℕ → Bool
bit_same_sign a b = sign_mask (bit_xor a b) == 0

-- The two pointers are addresses of `cells`.
pub bit_xor_swap : List ℕ → ℕ → ℕ → Run (List ℕ)
bit_xor_swap cells a b = if a == b then ok cells else (do
  x ← load cells a
  y ← load cells b
  one ← store cells a (bit_xor x y)
  x' ← load one a
  two ← store one b (bit_xor y x')
  y' ← load two b
  store two a (bit_xor x' y'))

-- `(x | (x << k)) & mask` and `(x | (x >> k)) & mask`
abbrev pub apart : ℕ → ℕ → ℕ → ℕ
apart k mask x = bit_and (bit_or x (x * 2 ^ k % words)) mask

abbrev pub together : ℕ → ℕ → ℕ → ℕ
together k mask x = bit_and (bit_or x (x / 2 ^ k)) mask

pub spread : ℕ → ℕ
spread v = apart 1 every_second (apart 2 every_pair (apart 4 every_nibble (apart 8 every_byte v)))

pub compact : ℕ → ℕ
compact x =
    together 8 (2 ^ 16 - 1) (
      together 4 every_byte
        (together 2 every_nibble (together 1 every_pair (bit_and x every_second))))
    % 2 ^ 16

pub bit_morton_encode : ℕ → ℕ → ℕ
bit_morton_encode x y = bit_or (spread x) (spread y * 2 % words)

pub bit_morton_decode : ℕ → ℕ × ℕ
bit_morton_decode z = (compact z, compact (z / 2))

-- The last loop of `bit_two_singles`.
pub split_loop : ℕ → ℕ → ℕ → List ℕ → ℕ × ℕ
split_loop pivot a b [] = (a, b)
split_loop pivot a b (x ∷ arr) =
    let clear = bit_and x pivot == 0 in
    split_loop pivot (if clear then a else bit_xor a x) (if clear then bit_xor b x else b) arr

pub bit_two_singles : List ℕ → Run (ℕ × ℕ)
bit_two_singles arr = do
  let xor_all = single_loop 0 arr
  negated ← negate_if true xor_all
  ok (split_loop (bit_and xor_all negated) 0 0 arr)

-- `visit` takes its context, and gives it back changed.
pub subset_loop {ℓ} : {C : Type ℓ} → ℕ → ℕ → (ℕ → C → C) → ℕ → C → Run C
subset_loop zero mask visit s ctx = out_of_fuel
subset_loop (suc fuel) mask visit s ctx =
    let rest = subset_loop fuel mask visit (bit_and (s - 1) mask) (visit s ctx) in
    if s == 0 then ok ctx else rest

pub bit_each_subset {ℓ} : {C : Type ℓ} → ℕ → (ℕ → C → C) → C → Run C
bit_each_subset mask visit ctx = subset_loop (suc mask) mask visit mask ctx

pub bit_subset_count : (ℕ → ℕ) → ℕ → Run ℕ
bit_subset_count popcount mask = one_at (popcount mask)

-- `(v - 0x01010101u) & ~v & 0x80808080u`
abbrev pub zero_bytes : ℕ → ℕ
zero_bytes v = bit_and (bit_and ((v + words - low_bits) % words) (bit_not 32 v)) high_bits

pub bit_byte_eq_mask : ℕ → ℕ → ℕ
bit_byte_eq_mask a b =
    let z = zero_bytes (bit_xor a b) in bit_or z ((z + words - z / 2 ^ 7) % words)

pub bit_has_zero_byte : ℕ → Bool
bit_has_zero_byte x = not (zero_bytes x == 0)

pub bit_lsb : ℕ → Run ℕ
bit_lsb x = do negated ← negate_if true x; ok (bit_and x negated)

pub bit_ctz : (ℕ → ℕ) → ℕ → ℕ
bit_ctz ctz x = if x == 0 then 32 else ctz x

pub bit_clz : (ℕ → ℕ) → ℕ → ℕ
bit_clz clz x = if x == 0 then 32 else clz x

pub bit_floor_log2 : (ℕ → ℕ) → ℕ → ℤ
bit_floor_log2 clz x = if x == 0 then negsuc 0 else pos 31 -ℤ pos (bit_clz clz x)

pub bit_msb : (ℕ → ℕ) → ℕ → Run ℕ
bit_msb clz x =
    if x == 0
    then ok 0
    else (if leb (bit_clz clz x) 31 then one_at (31 - bit_clz clz x) else undefined)
