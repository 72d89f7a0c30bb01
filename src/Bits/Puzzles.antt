-- ===== src/Bits/Puzzles.antt =====
-- `bit_single_number` and `bit_missing_number`: pairs cancel under exclusive or.
use Prim.Native.Nat.{bit_xor}
use native.Mathlib.Nat.{pow-suc, pow-le-pow_right}
use dsa_guide.Prelude.{
  ℕ, zero, suc, ◌+◌, ◌^◌, ◌<◌, ◌≡◌, refl, sym, ap, ap₂, ◌∙◌, List, [], ◌∷◌, ◌++◌, length, arith,
}
use dsa_guide.Words.Digits.{bit, bit-le-one, bit-bit_xor, bit-zero, eq_of_bits}
use mathlib.Core.List.{Permᴰ}
use dsa_guide.Bits.{single_loop, bit_single_number, missing_loop, bit_missing_number}

lt-pow_self : (n : ℕ) → n < 2 ^ n
lt-pow_self zero = omega arith
lt-pow_self (suc n) = omega (arith, pow-suc 2 n, lt-pow_self n)

-- Numbers with the same bits are equal.
bits_injective : (a b : ℕ) → ((k : ℕ) → bit a k ≡ bit b k) → a ≡ b
bits_injective a b e =
    eq_of_bits (a + b) a b
      (omega (
        arith,
        lt-pow_self a,
        pow-le-pow_right {n = 2} (omega arith) {i = a} {j = a + b} (omega arith),
      ))
      (omega (
        arith,
        lt-pow_self b,
        pow-le-pow_right {n = 2} (omega arith) {i = b} {j = a + b} (omega arith),
      ))
      λ k p. e k

bit_xor_comm : (a b : ℕ) → bit_xor a b ≡ bit_xor b a
bit_xor_comm a b = bits_injective _ _ λ k. omega (arith, bit-bit_xor a b k, bit-bit_xor b a k)

bit_xor_assoc : (a b c : ℕ) → bit_xor (bit_xor a b) c ≡ bit_xor a (bit_xor b c)
bit_xor_assoc a b c = bits_injective _ _ λ k. omega (
  arith,
  bit-bit_xor (bit_xor a b) c k,
  bit-bit_xor a b k,
  bit-bit_xor a (bit_xor b c) k,
  bit-bit_xor b c k,
)

bit_xor_self : (a : ℕ) → bit_xor a a ≡ 0
bit_xor_self a = bits_injective _ _ λ k. omega (arith, bit-bit_xor a a k, bit-zero k)

bit_xor-zero : (a : ℕ) → bit_xor a 0 ≡ a
bit_xor-zero a =
    bits_injective _ _ λ k. omega (arith, bit-bit_xor a 0 k, bit-zero k, bit-le-one a k)

-- The exclusive or of a list, and how rearrangements and pairs act on it.
abbrev xor_all : List ℕ → ℕ
xor_all [] = 0
xor_all (x ∷ xs) = bit_xor x (xor_all xs)

xor_all-append : (xs ys : List ℕ) → xor_all (xs ++ ys) ≡ bit_xor (xor_all xs) (xor_all ys)
xor_all-append [] ys = sym (bit_xor-zero (xor_all ys)) ∙ bit_xor_comm (xor_all ys) 0
xor_all-append (x ∷ xs) ys =
    ap (bit_xor x) (xor_all-append xs ys) ∙ sym (bit_xor_assoc x (xor_all xs) (xor_all ys))

bit_xor_left_comm : (a b c : ℕ) → bit_xor a (bit_xor b c) ≡ bit_xor b (bit_xor a c)
bit_xor_left_comm a b c =
    sym (bit_xor_assoc a b c) ∙ ap (λ t. bit_xor t c) (bit_xor_comm a b) ∙ bit_xor_assoc b a c

xor_all-perm : {xs ys : List ℕ} → Permᴰ xs ys → xor_all xs ≡ xor_all ys
xor_all-perm Permᴰ.nil = refl
xor_all-perm (Permᴰ.cons {b = b} {l₁ = l₁} e p) =
    ap (λ t. bit_xor t (xor_all l₁)) e ∙ ap (bit_xor b) (xor_all-perm p)
xor_all-perm (Permᴰ.swap {a' = a'} {b' = b'} {l = l} e f) =
    ap₂ (λ s t. bit_xor s (bit_xor t (xor_all l))) e f ∙ bit_xor_left_comm b' a' (xor_all l)
xor_all-perm (Permᴰ.trans p q) = xor_all-perm p ∙ xor_all-perm q

single_loop-xor_all :
    (result : ℕ) (arr : List ℕ) → single_loop result arr ≡ bit_xor result (xor_all arr)
unfolding single_loop
single_loop-xor_all result [] = sym (bit_xor-zero result)
single_loop-xor_all result (x ∷ arr) =
    single_loop-xor_all (bit_xor result x) arr ∙ bit_xor_assoc result x (xor_all arr)

-- If an array is a rearrangement of one value and of any number of pairs of equal values,
-- `bit_single_number` finds that value.
pub bit_single_number-single :
    (arr pairs : List ℕ) (v : ℕ) → Permᴰ arr (v ∷ (pairs ++ pairs)) → bit_single_number arr ≡ v
unfolding bit_single_number
bit_single_number-single arr pairs v p =
    single_loop-xor_all 0 arr
    ∙ bit_xor_comm 0 (xor_all arr)
    ∙ bit_xor-zero (xor_all arr)
    ∙ xor_all-perm p
    ∙ ap (bit_xor v) (xor_all-append pairs pairs ∙ bit_xor_self (xor_all pairs))
    ∙ bit_xor-zero v

-- The numbers `i, i + 1, ..., i + n - 1`.
abbrev pub range : ℕ → ℕ → List ℕ
range i zero = []
range i (suc n) = i ∷ range (i + 1) n

missing_loop-xor_all :
    (result i : ℕ) (arr : List ℕ)
    → missing_loop result i arr
      ≡ bit_xor result (bit_xor (xor_all (range i (length arr))) (xor_all arr))
unfolding missing_loop
missing_loop-xor_all result i [] =
    sym (bit_xor-zero result) ∙ ap (bit_xor result) (sym (bit_xor-zero 0))
missing_loop-xor_all result i (x ∷ arr) =
    missing_loop-xor_all (bit_xor result (bit_xor i x)) (i + 1) arr
    ∙ bit_xor_assoc result (bit_xor i x) _
    ∙ ap (bit_xor result) (
        bit_xor_assoc i x _
        ∙ ap (bit_xor i) (bit_xor_left_comm x (xor_all (range (i + 1) (length arr))) (xor_all arr))
        ∙ sym (bit_xor_assoc i (xor_all (range (i + 1) (length arr))) _))

-- If an array of `n` values, with one more value `m`, is a rearrangement of the numbers from 0 to `n`,
-- `bit_missing_number` finds `m`.
pub bit_missing_number-missing :
    (arr : List ℕ) (m : ℕ)
    → Permᴰ (m ∷ arr) (length arr ∷ range 0 (length arr))
    → bit_missing_number arr ≡ m
unfolding bit_missing_number
bit_missing_number-missing arr m p =
    missing_loop-xor_all (length arr) 0 arr
    ∙ sym (bit_xor_assoc (length arr) (xor_all (range 0 (length arr))) (xor_all arr))
    ∙ ap (λ t. bit_xor t (xor_all arr)) (sym (xor_all-perm p))
    ∙ bit_xor_assoc m (xor_all arr) (xor_all arr)
    ∙ ap (bit_xor m) (bit_xor_self (xor_all arr))
    ∙ bit_xor-zero m
