-- ===== src/Bits.antt =====
-- src/bits/bits.c and include/bits/bits.h on 32-bit words. A `uint32_t` is a number below 2 ^ 32; an
-- `int32_t` is the word of its two's complement bits.
pub mod Single
pub mod Gray
pub mod Parity
pub mod Add
pub mod Divide
pub mod Multiply
pub mod Puzzles
pub mod Lowest
pub mod Align
pub mod Tricks
use Prim.Native.Nat.{bit_and, bit_or, bit_xor}
use dsa_guide.Prelude.{
  ℕ, zero, suc, ◌+◌, ◌-◌, ◌*◌, ◌/◌, ◌%◌, ◌^◌, ◌<◌, ◌≤◌, Bool, true, false, not, ◌&&◌, List, [], ◌∷◌,
  Run, ok, undefined, out_of_fuel, ◌>>=◌, ◌>>◌, assert, ltb, leb, ◌==◌, if◌then◌else◌, length,
}
use dsa_guide.Words.Mask.{bit_not}

-- The number of words.
abbrev pub words : ℕ
words = 2 ^ 32

-- `1u << k`, undefined for a shift by the width or more.
abbrev pub one_at : ℕ → Run ℕ
one_at k = if ltb k 32 then ok (2 ^ k) else undefined

pub bit_test : ℕ → ℕ → Run Bool
bit_test x k = do one ← one_at k; ok (not (bit_and x one == 0))

pub bit_set : ℕ → ℕ → Run ℕ
bit_set x k = do one ← one_at k; ok (bit_or x one)

pub bit_clear : ℕ → ℕ → Run ℕ
bit_clear x k = do one ← one_at k; ok (bit_and x (bit_not 32 one))

pub bit_toggle : ℕ → ℕ → Run ℕ
bit_toggle x k = do one ← one_at k; ok (bit_xor x one)

-- `(1u << (hi - lo + 1)) - 1u`
abbrev pub low_mask : ℕ → ℕ → Run ℕ
low_mask lo hi =
    if leb lo (hi + 1) then (one_at (hi + 1 - lo) >>= λ one. ok (one - 1)) else undefined

pub bit_field : ℕ → ℕ → ℕ → Run ℕ
bit_field x lo hi =
    if ltb lo 32 then (low_mask lo hi >>= λ mask. ok (bit_and (x / 2 ^ lo) mask)) else undefined

pub bit_field_set : ℕ → ℕ → ℕ → ℕ → Run ℕ
bit_field_set x lo hi val =
    if ltb lo 32
    then (low_mask lo hi >>= λ low.
        let mask = low * 2 ^ lo % words in
        ok (bit_or (bit_and x (bit_not 32 mask)) (bit_and (val * 2 ^ lo % words) mask)))
    else undefined

-- The loop of `bit_add`; `carry << 1` drops the carry out of the word.
pub add_loop : ℕ → ℕ → ℕ → Run ℕ
add_loop zero a b = out_of_fuel
add_loop (suc fuel) a b =
    let rest = add_loop fuel (bit_xor a b) (bit_and a b * 2 % words) in
    if b == 0 then ok a else rest

-- 33 rounds are enough.
pub bit_add : ℕ → ℕ → Run ℕ
bit_add a b = add_loop 33 a b

-- `~x + 1` on `int32_t`s, which overflows for the least of them.
pub bit_negate : ℕ → Run ℕ
bit_negate x = if x == 2 ^ 31 then undefined else ok ((bit_not 32 x + 1) % words)

pub bit_sub : ℕ → ℕ → Run ℕ
bit_sub a b = bit_negate b >>= bit_add a

-- The loop of `bit_div` at the shift `s - 1`.
pub div_loop : ℕ → ℕ → ℕ → ℕ → ℕ
div_loop zero b a quotient = quotient
div_loop (suc s) b a quotient =
    let shifted = b * 2 ^ s % words in
    let fits = div_loop s b (a - shifted) (bit_or quotient (2 ^ s)) in
    let rest = div_loop s b a quotient in if leb shifted a then fits else rest

-- `clz` is `__builtin_clz`.
pub bit_div : (ℕ → ℕ) → ℕ → ℕ → Run ℕ
bit_div clz a b = do assert (not (b == 0)); ok (div_loop (suc (clz b)) b a 0)

-- `x ^ (x >> m)`
abbrev pub xor_shr : ℕ → ℕ → ℕ
xor_shr m x = bit_xor x (x / 2 ^ m)

pub bit_parity : ℕ → ℕ
bit_parity x =
    let x1 = xor_shr 16 x in
    let x2 = xor_shr 8 x1 in
    let x3 = xor_shr 4 x2 in let x4 = xor_shr 2 x3 in let x5 = xor_shr 1 x4 in bit_and x5 1

pub bit_to_gray : ℕ → ℕ
bit_to_gray n = bit_xor n (n / 2 ^ 1)

pub bit_from_gray : ℕ → ℕ
bit_from_gray g = xor_shr 1 (xor_shr 2 (xor_shr 4 (xor_shr 8 (xor_shr 16 g))))

-- `result ^= arr[i]` over an array of `int32_t`s.
pub single_loop : ℕ → List ℕ → ℕ
single_loop result [] = result
single_loop result (x ∷ arr) = single_loop (bit_xor result x) arr

pub bit_single_number : List ℕ → ℕ
bit_single_number arr = single_loop 0 arr

-- `result ^= i ^ arr[i]` from index `i` on.
pub missing_loop : ℕ → ℕ → List ℕ → ℕ
missing_loop result i [] = result
missing_loop result i (x ∷ arr) = missing_loop (bit_xor result (bit_xor i x)) (i + 1) arr

pub bit_missing_number : List ℕ → ℕ
bit_missing_number arr = missing_loop (length arr) 0 arr

-- `x & (x - 1u)`
pub bit_clear_lsb : ℕ → ℕ
bit_clear_lsb x = bit_and x ((x + words - 1) % words)

pub bit_is_pow2 : ℕ → Bool
bit_is_pow2 x = not (x == 0) && (bit_and x ((x + words - 1) % words) == 0)

pub bit_align_up : ℕ → ℕ → ℕ
bit_align_up x align =
    bit_and (((x + align) % words + words - 1) % words) (bit_not 32 ((align + words - 1) % words))

pub bit_align_down : ℕ → ℕ → ℕ
bit_align_down x align = bit_and x (bit_not 32 ((align + words - 1) % words))

pub bit_is_aligned : ℕ → ℕ → Bool
bit_is_aligned x align = bit_and x ((align + words - 1) % words) == 0

-- The loop of `bit_mul`, whose `ua` drops the bits out of the word.
pub mul_loop : ℕ → ℕ → ℕ → ℕ → Run ℕ
mul_loop zero result ua ub = out_of_fuel
mul_loop (suc fuel) result ua ub =
    let odd = bit_add result ua >>= λ sum. mul_loop fuel sum (ua * 2 % words) (ub / 2) in
    let even = mul_loop fuel result (ua * 2 % words) (ub / 2) in
    if ub == 0 then ok result else (if bit_and ub 1 == 0 then even else odd)

-- `x < 0 ? -x : x` on `int32_t`s, and `negative ? -x : x`.
abbrev pub negate_if : Bool → ℕ → Run ℕ
negate_if false x = ok x
negate_if true x = if x == 2 ^ 31 then undefined else ok ((words - x) % words)

abbrev pub is_negative : ℕ → Bool
is_negative x = leb (2 ^ 31) x

-- 33 rounds are enough.
pub bit_mul : ℕ → ℕ → Run ℕ
bit_mul a b = do
  ua ← negate_if (is_negative a) a
  ub ← negate_if (is_negative b) b
  result ← mul_loop 33 0 ua ub
  negate_if (if is_negative a then not (is_negative b) else is_negative b) result
