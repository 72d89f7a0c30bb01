-- ===== src/Probabilistic/CountingBloom/Slots.antt =====
-- One counter of the counting filter.
use dsa_guide.Words.Mask.{bit_and_mask}
use dsa_guide.Prelude.{
  ℕ, zero, suc, ◌+◌, ◌-◌, ◌*◌, ◌/◌, ◌%◌, ◌^◌, ◌<◌, ◌≡◌, ◌≢◌, inl, inr, refl, sym, ap, ◌∙◌, false,
  List, ltb, ◌==◌, if◌then◌else◌, Bool-cases, ℕ_discrete, ok, Returns, returns, load-ok, store-ok,
  length, length-set, get_or, set, get_or-set, get_or-set_self, get_or-set_ne, arith,
}
use dsa_guide.Probabilistic.CountingBloom.{unit_of, cbloom_get, cbloom_inc, cbloom_dec}

-- Half `k` of a byte.
abbrev pub half : ℕ → ℕ → ℕ
half c k = c / 2 ^ (k * 4) % 16

abbrev pub slot : List ℕ → ℕ → ℕ
slot counts i = half (get_or counts (i / 2) 0) (i % 2)

abbrev pub IsBytes : List ℕ → Type 0
IsBytes counts = (i : ℕ) → get_or counts i 0 < 256

pub cbloom_get-slot :
    (counts : List ℕ) (i : ℕ) → i / 2 < length counts → cbloom_get counts i ≡ ok (slot counts i)
unfolding cbloom_get
cbloom_get-slot counts i h =
    rw (load-ok counts (i / 2) 0 h) (ap ok (bit_and_mask 4 (get_or counts (i / 2) 0 / unit_of i)))

-- A half grows by one, and the other stays.
half_up :
    (c k j : ℕ)
    → c < 256
    → k < 2
    → j < 2
    → half c k < 15
    → half ((c + 2 ^ (k * 4)) % 256) j ≡ (if k == j then half c j + 1 else half c j)
half_up c zero zero a b d h = omega (arith, h)
half_up c zero (suc zero) a b d h = omega (arith, h)
half_up c zero (suc (suc j)) a b d h = absurd (omega arith)
half_up c (suc zero) zero a b d h = omega (arith, h)
half_up c (suc zero) (suc zero) a b d h = omega (arith, h)
half_up c (suc zero) (suc (suc j)) a b d h = absurd (omega arith)
half_up c (suc (suc k)) j a b d h = absurd (omega arith)

half_down :
    (c k j : ℕ)
    → c < 256
    → k < 2
    → j < 2
    → 0 < half c k
    → half ((c + 256 - 2 ^ (k * 4)) % 256) j ≡ (if k == j then half c j - 1 else half c j)
half_down c zero zero a b d h = omega (arith, h)
half_down c zero (suc zero) a b d h = omega (arith, h)
half_down c zero (suc (suc j)) a b d h = absurd (omega arith)
half_down c (suc zero) zero a b d h = omega (arith, h)
half_down c (suc zero) (suc zero) a b d h = omega (arith, h)
half_down c (suc zero) (suc (suc j)) a b d h = absurd (omega arith)
half_down c (suc (suc k)) j a b d h = absurd (omega arith)

-- The counters after one of them is changed by `f`.
pub record Changed (counts : List ℕ) (i : ℕ) (f : ℕ → ℕ) (after : List ℕ) : Type 0 where
  pub size : length after ≡ length counts
  pub bytes : IsBytes after
  pub cells : (j : ℕ) → slot after j ≡ (if i == j then f (slot counts j) else slot counts j)

-- A counter stops at 15 and at 0.
abbrev pub up : ℕ → ℕ
up v = if ltb v 15 then v + 1 else v

abbrev pub down : ℕ → ℕ
down v = v - 1

test_eq : (i j : ℕ) → i / 2 ≡ j / 2 → (i % 2 == j % 2) ≡ (i == j)
test_eq i j e = ground arith

test_ne : (i j : ℕ) → i / 2 ≢ j / 2 → (i == j) ≡ false
test_ne i j ne = ground (arith, ap (λ (t : ℕ). t / 2) {x = i} {y = j})

module _ (counts : List ℕ) (i : ℕ) (inside : i / 2 < length counts) (bytes : IsBytes counts) where
  -- A byte is written so that half i % 2 becomes `f` of what it was.
  written :
      (v : ℕ) (f : ℕ → ℕ)
      → v < 256
      → ((j : ℕ)
          → j < 2
          → half v j ≡ (
              if i % 2 == j
              then f (half (get_or counts (i / 2) 0) j)
              else half (get_or counts (i / 2) 0) j))
      → Changed counts i f (set counts (i / 2) v)
  written v f small halves = record {
    size = length-set counts (i / 2) v;
    bytes = λ j. ground (arith, get_or-set counts (i / 2) j v 0 inside, bytes j);
    cells = λ j. elim (ℕ_discrete (i / 2) (j / 2)) [
      | yes e ↦
          ap (λ t. half (get_or (set counts (i / 2) v) t 0) (j % 2)) (sym e)
          ∙ ap (λ t. half t (j % 2)) (get_or-set_self counts (i / 2) v 0 inside)
          ∙ halves (j % 2) (omega arith)
          ∙ same_byte j e
      | no ne ↦
          ap (λ t. half t (j % 2)) (get_or-set_ne counts (i / 2) (j / 2) v 0 ne) ∙ other_byte j ne
    ];
  }
    where
      same_byte :
          (j : ℕ)
          → i / 2 ≡ j / 2
          → (if i % 2 == j % 2
              then f (half (get_or counts (i / 2) 0) (j % 2))
              else half (get_or counts (i / 2) 0) (j % 2))
            ≡ (if i == j then f (slot counts j) else slot counts j)
      same_byte j e =
          ap
            (λ t.
              if i % 2 == j % 2
              then f (half (get_or counts t 0) (j % 2))
              else half (get_or counts t 0) (j % 2))
            e
          ∙ ap (λ b. if b then f (slot counts j) else slot counts j) (test_eq i j e)

      other_byte :
          (j : ℕ)
          → i / 2 ≢ j / 2
          → slot counts j ≡ (if i == j then f (slot counts j) else slot counts j)
      other_byte j ne =
          ap (λ b. if b then f (slot counts j) else slot counts j) {x = false}
            (sym (test_ne i j ne))

  pub cbloom_inc-Changed : Returns (Changed counts i up) (cbloom_inc counts i)
  unfolding cbloom_inc
  cbloom_inc-Changed =
      let c = get_or counts (i / 2) 0 in
      rw (cbloom_get-slot counts i inside, load-ok counts (i / 2) 0 inside)
        (elim (Bool-cases (ltb (slot counts i) 15)) [
          | inl e ↦
              rw (e, store-ok counts (i / 2) ((c + unit_of i) % 2 ^ 8) inside)
                (returns (
                  written ((c + unit_of i) % 2 ^ 8) up (omega arith) λ j h. ground (
                    arith,
                    half_up c (i % 2) j,
                    bytes (i / 2),
                    e,
                    h,
                    ap (half c) {x = i % 2} {y = j},
                  )))
          | inr e ↦ rw e (
              returns (record {
                size = refl;
                bytes = bytes;
                cells = λ j. ground (arith, e, ap (slot counts) {x = i} {y = j});
              }))
        ])

  pub cbloom_dec-Changed : Returns (Changed counts i down) (cbloom_dec counts i)
  unfolding cbloom_dec
  cbloom_dec-Changed =
      let c = get_or counts (i / 2) 0 in
      rw (cbloom_get-slot counts i inside, load-ok counts (i / 2) 0 inside)
        (elim (Bool-cases (ltb 0 (slot counts i))) [
          | inl e ↦
              rw (e, store-ok counts (i / 2) ((c + 2 ^ 8 - unit_of i) % 2 ^ 8) inside)
                (returns (
                  written ((c + 2 ^ 8 - unit_of i) % 2 ^ 8) down (omega arith) λ j h. ground (
                    arith,
                    half_down c (i % 2) j,
                    bytes (i / 2),
                    e,
                    h,
                    ap (half c) {x = i % 2} {y = j},
                  )))
          | inr e ↦ rw e (
              returns (record {
                size = refl;
                bytes = bytes;
                cells = λ j. ground (arith, e, ap (slot counts) {x = i} {y = j});
              }))
        ])
