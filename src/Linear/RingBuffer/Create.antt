-- ===== src/Linear/RingBuffer/Create.antt =====
-- `next_pow2` and `rb_create`.
use native.Mathlib.Nat.{pow-suc, pow-le-pow_right}
use dsa_guide.Prelude.{
  ℕ, zero, suc, ◌-◌, ◌*◌, ◌%◌, ◌^◌, ◌<◌, ◌≤◌, ◌≡◌, refl, ap, ◌∙◌, List, [], ℤ, ok, out_of_fuel,
  arith, Returns, returns, Returns-bind, length, dec_lt,
}
use dsa_guide.Linear.RingBuffer.{size_mod, next_pow2_loop, next_pow2, rb_create, rb_items, IsValid}

-- `p` is the least power of two that is at least `n`.
pub record IsNextPow2 (n p : ℕ) : Type 0 where
  pub exponent : ℕ
  pub exponent_le : exponent ≤ 63
  pub power : p ≡ 2 ^ exponent
  pub enough : n ≤ p
  pub least : (e : ℕ) → n ≤ 2 ^ e → exponent ≤ e

loop_stops : (fuel n p : ℕ) → n ≤ p → next_pow2_loop (suc fuel) n p ≡ ok p
unfolding next_pow2_loop
loop_stops fuel n p h = ground arith

loop_doubles :
    (fuel n p : ℕ)
    → p < n
    → next_pow2_loop (suc fuel) n p ≡ next_pow2_loop fuel n (p * 2 % size_mod)
unfolding next_pow2_loop
loop_doubles fuel n p h = ground arith

pow_63 : (e : ℕ) → e ≤ 63 → 2 ^ e ≤ 2 ^ 63
pow_63 e h = pow-le-pow_right (omega arith) h

-- Below 2 ^ 63 the shift does not wrap.
doubled : (e : ℕ) → e < 63 → 2 ^ e * 2 % size_mod ≡ 2 ^ suc e
doubled e h = omega (arith, pow-suc 2 e, pow_63 (suc e) h)

too_small : (n e k : ℕ) → 2 ^ e < n → n ≤ 2 ^ k → suc e ≤ k
too_small n e k h l = elim (dec_lt e k) [
  | yes p ↦ p
  | no p ↦
      absurd (omega (arith, pow-le-pow_right {n = 2} (omega arith) {i = k} {j = e} (omega arith)))
]

loop-IsNextPow2 :
    (fuel n e : ℕ)
    → 63 - e < fuel
    → e ≤ 63
    → n ≤ 2 ^ 63
    → ((k : ℕ) → n ≤ 2 ^ k → e ≤ k)
    → Returns (IsNextPow2 n) (next_pow2_loop fuel n (2 ^ e))
loop-IsNextPow2 zero n e f h l least = absurd (omega arith)
loop-IsNextPow2 (suc fuel) n e f h l least = elim (dec_lt (2 ^ e) n) [
  | no p ↦ rw (loop_stops fuel n (2 ^ e) (omega arith)) (
      returns (record {
        exponent = e;
        exponent_le = h;
        power = refl;
        enough = omega arith;
        least = least;
      }))
  | yes p ↦
      let below = too_small n e 63 p l in
      rw (loop_doubles fuel n (2 ^ e) p, doubled e below)
        (loop-IsNextPow2 fuel n (suc e) (omega arith) below l λ k q. too_small n e k p q)
]

-- For every request up to 2 ^ 63 the 65 rounds are enough, and the result is the least power of two
-- that is at least the request.
pub next_pow2-IsNextPow2 : (n : ℕ) → n ≤ 2 ^ 63 → Returns (IsNextPow2 n) (next_pow2 n)
unfolding next_pow2
next_pow2-IsNextPow2 n h = loop-IsNextPow2 65 n 0 (omega arith) (omega arith) h λ k q. omega arith

-- Past 2 ^ 63 the loop goes on for ever: the shift wraps to 0 and stays there.
zero_loops : (fuel n : ℕ) → 0 < n → next_pow2_loop fuel n 0 ≡ out_of_fuel
unfolding next_pow2_loop
zero_loops zero n h = refl
zero_loops (suc fuel) n h = ground (arith, zero_loops fuel n h)

power_loops : (fuel n e : ℕ) → e ≤ 63 → 2 ^ 63 < n → next_pow2_loop fuel n (2 ^ e) ≡ out_of_fuel
power_loops zero n e h l = unfold next_pow2_loop in refl
power_loops (suc fuel) n e h l = elim (dec_lt e 63) [
  | yes p ↦
      loop_doubles fuel n (2 ^ e) (omega (arith, pow_63 e h))
      ∙ ap (next_pow2_loop fuel n) (doubled e p)
      ∙ power_loops fuel n (suc e) p l
  | no p ↦
      loop_doubles fuel n (2 ^ e) (omega (arith, pow_63 e h))
      ∙ ap (next_pow2_loop fuel n) (ap (λ t. 2 ^ t * 2 % size_mod) {y = 63} (omega arith))
      ∙ zero_loops fuel n (omega arith)
]

-- For a request past 2 ^ 63 no number of rounds ends the loop of `next_pow2`.
pub next_pow2_diverges : (fuel n : ℕ) → 2 ^ 63 < n → next_pow2_loop fuel n 1 ≡ out_of_fuel
next_pow2_diverges fuel n h = power_loops fuel n 0 (omega arith) h

-- If `malloc` gives blocks of the size asked for, `rb_create` returns a valid empty ring whose
-- capacity is the least power of two that is at least the request.
pub rb_create-IsValid :
    (malloc : ℕ → List ℤ) (n : ℕ)
    → ((k : ℕ) → length (malloc k) ≡ k)
    → n ≤ 2 ^ 63
    → Returns
        (λ rb. IsValid rb × IsNextPow2 n rb.capacity × (rb_items rb ≡ []))
        (rb_create malloc n)
unfolding rb_create
rb_create-IsValid malloc n sized h = Returns-bind (next_pow2-IsNextPow2 n h) λ p least. returns (
  record {
    exponent = least.exponent;
    exponent_le = least.exponent_le;
    capacity_eq = least.power;
    buf_fits = omega (arith, sized p);
    head_lt = omega arith;
    tail_lt = omega arith;
    size_le = omega arith;
  },
  least,
  refl,
)
