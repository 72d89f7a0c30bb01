-- ===== src/Bits/Tricks/Least.antt =====
-- `bit_min` and `bit_max`.
use Prim.Native.Nat.{bit_and}
use dsa_guide.Prelude.{
  ℕ, ◌+◌, ◌-◌, ◌%◌, ◌^◌, ◌<◌, ◌≤◌, ◌≡◌, inl, inr, Bool-cases, ◌∙◌, ok, ltb, if◌then◌else◌, arith,
}
use dsa_guide.Words.Mask.{bit_and-zero, bit_and_mask, bit_not}
use dsa_guide.Bits.{words, is_negative}
use dsa_guide.Bits.Tricks.{sub_int, add_int, bit_min, bit_max}

-- An `int32_t` moved up by 2^31.
abbrev pub lifted : ℕ → ℕ
lifted a = if is_negative a then a - 2 ^ 31 else a + 2 ^ 31

-- a - b overflows just if it is past the `int32_t`s.
sub_int-ok :
    (a b : ℕ)
    → a < words
    → b < words
    → lifted a < lifted b + 2 ^ 31
    → lifted b ≤ lifted a + 2 ^ 31
    → sub_int a b ≡ ok ((a + words - b) % words)
unfolding sub_int
sub_int-ok a b ha hb h k = ground arith

masked : (d : ℕ) → d < words → bit_and d (words - 1) ≡ d
masked d h = bit_and_mask 32 d ∙ omega (arith, h)

-- `b + (diff & mask)` at the difference of two `int32_t`s, whose sign tells which is less.
select :
    (a b : ℕ)
    → a < words
    → b < words
    → lifted a < lifted b + 2 ^ 31
    → lifted b ≤ lifted a + 2 ^ 31
    → is_negative ((a + words - b) % words) ≡ ltb (lifted a) (lifted b)
select a b ha hb h k = ground arith

-- Adding the difference again does not overflow.
add_back :
    (a b : ℕ)
    → a < words
    → b < words
    → lifted a < lifted b + 2 ^ 31
    → lifted b ≤ lifted a + 2 ^ 31
    → add_int b ((a + words - b) % words) ≡ ok a
unfolding add_int
add_back a b ha hb h k =
    let sum : (b + (a + words - b) % words) % words ≡ a = omega (arith, ha, hb) in
    rw sum (ground arith)

add_none : (b : ℕ) → b < words → add_int b 0 ≡ ok b
unfolding add_int
add_none b h = ground arith

kept : (d : ℕ) → d < words → bit_and d (bit_not 32 0) ≡ d
kept d h = masked d h

least :
    (a b : ℕ)
    → a < words
    → b < words
    → lifted a < lifted b + 2 ^ 31
    → lifted b ≤ lifted a + 2 ^ 31
    → bit_min a b ≡ ok (if ltb (lifted a) (lifted b) then a else b)
unfolding bit_min
least a b ha hb h k =
    let d = (a + words - b) % words in
    rw (sub_int-ok a b ha hb h k, select a b ha hb h k)
      (elim (Bool-cases (ltb (lifted a) (lifted b))) [
        | inl e ↦ rw (e, masked d (omega arith)) (add_back a b ha hb h k)
        | inr e ↦ rw (e, bit_and-zero d) (add_none b hb)
      ])

greatest :
    (a b : ℕ)
    → a < words
    → b < words
    → lifted b < lifted a + 2 ^ 31
    → lifted a ≤ lifted b + 2 ^ 31
    → bit_max a b ≡ ok (if ltb (lifted b) (lifted a) then a else b)
unfolding bit_max
greatest a b ha hb h k =
    let d = (b + words - a) % words in
    rw (sub_int-ok b a hb ha h k, select b a hb ha h k)
      (elim (Bool-cases (ltb (lifted b) (lifted a))) [
        | inl e ↦ rw (e, bit_and-zero d) (add_none a ha)
        | inr e ↦ rw (e, masked d (omega arith)) (add_back b a hb ha h k)
      ])

-- Where neither `a - b` nor `b - a` overflows, `bit_min` and `bit_max` return the lesser and the greater of
-- two `int32_t`s.
pub bit_min-bit_max :
    (a b : ℕ)
    → a < words
    → b < words
    → lifted a < lifted b + 2 ^ 31
    → lifted b < lifted a + 2 ^ 31
    → (bit_min a b ≡ ok (if ltb (lifted a) (lifted b) then a else b))
      × (bit_max a b ≡ ok (if ltb (lifted b) (lifted a) then a else b))
bit_min-bit_max a b ha hb h k =
    (least a b ha hb h (omega (arith, k)), greatest a b ha hb k (omega (arith, h)))
