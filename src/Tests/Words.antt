-- ===== src/Tests/Words.antt =====
-- src/bits/bits.c at concrete words.
use native.Mathlib.Nat.{add-mul}
use dsa_guide.Prelude.{
  ℕ, zero, suc, ◌+◌, ◌-◌, ◌*◌, ◌^◌, ◌<◌, ◌≤◌, ◌≡◌, ap, true, false, ok, arith, leb, if◌then◌else◌,
  dec_lt,
}
use mathlib.Core.List.{Permᴰ}
use dsa_guide.Prelude.{refl, [], ◌∷◌}
use dsa_guide.Words.Mask.{mul-pow_suc}
use dsa_guide.Bits.Tricks.{bit_min, bit_max}
use dsa_guide.Bits.Tricks.Least.{bit_min-bit_max}
use dsa_guide.Bits.{words}
use dsa_guide.Bits.{bit_mul}
use dsa_guide.Bits.Multiply.{bit_mul-mul}
use dsa_guide.Bits.Divide.{IsClz}

doubled : (x m : ℕ) → x * 2 * 2 ^ m ≡ x * 2 ^ suc m
doubled x m = omega (
  arith,
  mul-pow_suc x m,
  add-mul x x (2 ^ m),
  ap (λ (t : ℕ). t * 2 ^ m) {x = x * 2} {y = x + x} (omega arith),
)

-- The zeros before the first one, counted by doubling.
leading_zeros : ℕ → ℕ → ℕ
leading_zeros zero x = 0
leading_zeros (suc n) x =
    let more = leading_zeros n (x * 2) in if leb (2 ^ 31) x then 0 else suc more

leading_zeros-lem :
    (n x : ℕ)
    → x < words
    → 2 ^ 31 ≤ x * 2 ^ n
    → (leading_zeros n x ≤ n)
      × (2 ^ 31 ≤ x * 2 ^ leading_zeros n x)
      × (x * 2 ^ leading_zeros n x < words)
unfolding leading_zeros
leading_zeros-lem zero x h l = (omega arith, omega arith, omega arith)
leading_zeros-lem (suc n) x h l = elim (dec_lt x (2 ^ 31)) [
  | yes small ↦
      let test : leb (2 ^ 31) x ≡ false = ground arith in
      let (p, q, r) = leading_zeros-lem n (x * 2) (omega arith) (omega (arith, doubled x n)) in
      rw test (
        omega (arith, p),
        omega (arith, q, doubled x (leading_zeros n (x * 2))),
        omega (arith, r, doubled x (leading_zeros n (x * 2))),
      )
  | no big ↦
      let test : leb (2 ^ 31) x ≡ true = ground arith in
      rw test (omega arith, omega arith, omega arith)
]

leading_zeros-IsClz : IsClz (leading_zeros 31)
leading_zeros-IsClz = record {
  low = λ x h l. omega (arith, (leading_zeros-lem 31 x l (omega arith)).0);
  least = λ x h l. (leading_zeros-lem 31 x l (omega arith)).1;
  most = λ x h l. (leading_zeros-lem 31 x l (omega arith)).2;
}

one_missing : Permᴰ {A = ℕ} (1 ∷ 2 ∷ 0 ∷ []) (2 ∷ 0 ∷ 1 ∷ [])
one_missing = Permᴰ.trans (Permᴰ.swap refl refl) (Permᴰ.cons refl (Permᴰ.swap refl refl))

-- 7 and -2.
bit_mul-mul_example : bit_mul 7 (words - 2) ≡ ok (words - 14)
bit_mul-mul_example = bit_mul-mul 7 (words - 2) (omega arith) (omega arith) refl refl

bit_min-bit_max_example : (bit_min 3 4294967291 ≡ ok 4294967291) × (bit_max 3 4294967291 ≡ ok 3)
bit_min-bit_max_example =
    bit_min-bit_max 3 4294967291 (omega arith) (omega arith) (omega arith) (omega arith)
