-- ===== src/Linear/LinkedList/Cycle.antt =====
-- `ll_has_cycle`: the tortoise and the hare on a store of nodes.
use dsa_guide.Prelude.{
  ℕ, zero, suc, ◌+◌, ◌*◌, ◌-◌, ◌<◌, ◌≤◌, ◌≡◌, inl, inr, refl, sym, ap, ap₂, dec_lt, ◌∙◌, true,
  false, Option, none, some, Bool-cases, Option-cases, ok, if◌then◌else◌, arith,
}
use dsa_guide.Linear.LinkedList.{same_pointer, has_cycle_loop, ll_has_cycle}

-- The pointer after `k` steps; a null pointer stays null.
abbrev pub step : (ℕ → Option ℕ) → Option ℕ → Option ℕ
step next none = none
step next (some p) = next p

abbrev pub after : (ℕ → Option ℕ) → ℕ → Option ℕ → Option ℕ
after next zero p = p
after next (suc k) p = step next (after next k p)

-- The chain from `head` on ends after `n` steps.
abbrev pub EndsAfter : (ℕ → Option ℕ) → Option ℕ → ℕ → Type 0
EndsAfter next head n = after next n head ≡ none

-- After `tail` steps the chain is at a node to which `period` further steps lead back.
pub record Loops (next : ℕ → Option ℕ) (head : Option ℕ) (tail period : ℕ) : Type 0 where
  pub positive : 1 ≤ period
  pub node : ℕ
  pub at : after next tail head ≡ some node
  pub back : after next (tail + period) head ≡ some node

le-mul : (k p : ℕ) → 1 ≤ p → k ≤ k * p
le-mul zero p h = omega arith
le-mul (suc k) p h = omega (arith, le-mul k p h)

pointer_eq : (s : ℕ) (q : Option ℕ) → same_pointer (some s) q ≡ true → q ≡ some s
pointer_eq s none e = absurd (ground (arith, e))
pointer_eq s (some g) e = ground (arith, e)

same_pointer-eq : (s : ℕ) (q : Option ℕ) → q ≡ some s → same_pointer (some s) q ≡ true
same_pointer-eq s none e = absurd (ground (arith, e))
same_pointer-eq s (some g) e = ground (arith, e)

-- One round of the loop: it ends where `fast` cannot go on, and compares the next nodes elsewhere.
round-end :
    (next : ℕ → Option ℕ) (fuel : ℕ) (p q : Option ℕ)
    → step next q ≡ none
    → has_cycle_loop (suc fuel) next p q ≡ ok false
unfolding has_cycle_loop
round-end next fuel p none e = refl
round-end next fuel p (some f) e = rw (has_cycle_loop, e) refl

round-on :
    (next : ℕ → Option ℕ) (fuel : ℕ) (p q : Option ℕ) {s g : ℕ}
    → step next p ≡ some s
    → step next q ≡ some g
    → has_cycle_loop (suc fuel) next p q ≡ (
        if same_pointer (some s) (next g)
        then ok true
        else has_cycle_loop fuel next (some s) (next g))
unfolding has_cycle_loop
round-on next fuel none q d e = absurd (ground (arith, d))
round-on next fuel (some p) none d e = absurd (ground (arith, e))
round-on next fuel (some p) (some f) d e = rw (has_cycle_loop, e, d) refl

module _ (next : ℕ → Option ℕ) (head : Option ℕ) where
  later :
      (k j : ℕ) {p q : Option ℕ}
      → after next k head ≡ p
      → j ≡ suc k
      → step next p ≡ q
      → after next j head ≡ q
  later k j e at next_is = ap (λ i. after next i head) at ∙ ap (step next) e ∙ next_is

  at_eq : (j k : ℕ) → j ≡ k → after next j head ≡ after next k head
  at_eq j k e = ap (λ i. after next i head) e

  null-later : (k j : ℕ) → after next k head ≡ none → after next (k + j) head ≡ none
  null-later k zero e = at_eq (k + 0) k (omega arith) ∙ e
  null-later k (suc j) e = later (k + j) (k + suc j) (null-later k j e) (omega arith) refl

  null_from : (k j : ℕ) → k ≤ j → after next k head ≡ none → after next j head ≡ none
  null_from k j h e = at_eq j (k + (j - k)) (omega arith) ∙ null-later k (j - k) e

  -- The same number of steps further on both sides.
  together :
      (a b j : ℕ)
      → after next a head ≡ after next b head
      → after next (a + j) head ≡ after next (b + j) head
  together a b zero e = at_eq (a + 0) a (omega arith) ∙ e ∙ at_eq b (b + 0) (omega arith)
  together a b (suc j) e =
      later (a + j) (a + suc j) (together a b j e) (omega arith) refl
      ∙ at_eq (suc (b + j)) (b + suc j) (omega arith)

  onwards :
      (fuel i : ℕ) {s : ℕ} {q : Option ℕ}
      → after next i head ≡ some s
      → after next (i + i) head ≡ q
      → has_cycle_loop fuel next (some s) q
        ≡ has_cycle_loop fuel next (after next i head) (after next (i + i) head)
  onwards fuel i slow fast = ap₂ (has_cycle_loop fuel next) (sym slow) (sym fast)

  not_yet :
      (i g n : ℕ)
      → after next (suc (i + i)) head ≡ some g
      → EndsAfter next head n
      → suc i + suc i ≤ n
  not_yet i g n fast ends = elim (dec_lt (suc (i + i)) n) [
    | yes h ↦ omega (arith, h)
    | no h ↦ absurd (ground (arith, sym fast ∙ null_from n (suc (i + i)) (ground (arith, h)) ends))
  ]

  module _ (tail period : ℕ) (l : Loops next head tail period) where
    periods : (k : ℕ) → after next (tail + k * period) head ≡ after next tail head
    periods zero = at_eq (tail + 0 * period) tail (omega arith)
    periods (suc k) =
        at_eq (tail + suc k * period) (tail + period + k * period) (omega arith)
        ∙ together (tail + period) tail (k * period) (l.back ∙ sym l.at)
        ∙ periods k

    -- No step from a chain that loops is null.
    loops-some : (k : ℕ) → after next k head ≡ none → ⊥
    loops-some k e =
        let far = null_from k (tail + k * period) (omega (arith, le-mul k period l.positive)) e in
        ground (arith, sym far ∙ periods k ∙ l.at)

    -- From the loop on, whole periods change nothing.
    same_after : (j k : ℕ) → tail ≤ j → after next (j + k * period) head ≡ after next j head
    same_after j k h =
        at_eq (j + k * period) (tail + k * period + (j - tail)) (omega arith)
        ∙ together (tail + k * period) tail (j - tail) (periods k)
        ∙ at_eq (tail + (j - tail)) j (omega arith)

    -- The comparison of a round, `d` rounds before the last.
    compared :
        (fuel i s g : ℕ)
        → after next (suc i) head ≡ some s
        → after next (suc (i + i)) head ≡ some g
        → (d : ℕ) → after next (suc (i + d)) head ≡ after next (suc (i + d) + suc (i + d)) head
        → ((d' : ℕ)
            → d ≡ suc d'
            → has_cycle_loop fuel next (after next (suc i) head) (after next (suc i + suc i) head)
              ≡ ok true)
        → (if same_pointer (some s) (next g)
            then ok true
            else has_cycle_loop fuel next (some s) (next g))
          ≡ ok true
    compared fuel i s g slow fast zero e rest =
        let same : next g ≡ some s =
          sym (later (suc (i + i)) (suc i + suc i) fast (omega arith) refl)
          ∙ at_eq (suc i + suc i) (suc (i + 0) + suc (i + 0)) (omega arith)
          ∙ sym e
          ∙ at_eq (suc (i + 0)) (suc i) (omega arith)
          ∙ slow in
        rw (same_pointer-eq s (next g) same) refl
    compared fuel i s g slow fast (suc d) e rest =
        elim (Bool-cases (same_pointer (some s) (next g))) [
          | inl met ↦ rw met refl
          | inr apart ↦ rw apart (
              onwards fuel (suc i) slow
                (later (suc (i + i)) (suc i + suc i) fast (omega arith) refl)
              ∙ rest d refl)
        ]

    -- `d` rounds before `slow` and `fast` meet, at the latest.
    meets :
        (fuel i d : ℕ)
        → d < fuel
        → after next (suc (i + d)) head ≡ after next (suc (i + d) + suc (i + d)) head
        → has_cycle_loop fuel next (after next i head) (after next (i + i) head) ≡ ok true
    meets zero i d h e = absurd (omega arith)
    meets (suc fuel) i d h e = elim (Option-cases (after next (suc i) head)) [
      | inl gone ↦ absurd (loops-some (suc i) gone)
      | inr (s, slow) ↦ elim (Option-cases (after next (suc (i + i)) head)) [
        | inl gone ↦ absurd (loops-some (suc (i + i)) gone)
        | inr (g, fast) ↦
            round-on next fuel (after next i head) (after next (i + i) head) slow fast
            ∙ compared fuel i s g slow fast d e λ d' last.
              meets fuel (suc i) d' (omega (arith, last)) (
                at_eq (suc (suc i + d')) (suc (i + d)) (omega (arith, last))
                ∙ e
                ∙ at_eq (suc (i + d) + suc (i + d)) (suc (suc i + d') + suc (suc i + d'))
                    (omega (arith, last)))
      ]
    ]

  -- If the loop met, the chain would never end.
  meeting-Loops :
      (i s g : ℕ)
      → after next (suc i) head ≡ some s
      → after next (suc (i + i)) head ≡ some g
      → same_pointer (some s) (next g) ≡ true
      → Loops next head (suc i) (suc i)
  meeting-Loops i s g slow fast met = record {
    positive = omega arith;
    node = s;
    at = slow;
    back = later (suc (i + i)) (suc i + suc i) fast (omega arith) (pointer_eq s (next g) met);
  }

  has_cycle_loop-ends :
      (fuel i n : ℕ)
      → EndsAfter next head n
      → i + i ≤ n
      → n < i + i + (fuel + fuel)
      → has_cycle_loop fuel next (after next i head) (after next (i + i) head) ≡ ok false
  has_cycle_loop-ends zero i n ends low high = absurd (omega arith)
  has_cycle_loop-ends (suc fuel) i n ends low high =
      elim (Option-cases (after next (suc (i + i)) head)) [
        | inl stop ↦ round-end next fuel (after next i head) (after next (i + i) head) stop
        | inr (g, fast) ↦ elim (Option-cases (after next (suc i) head)) [
          | inl stop ↦
              absurd (ground (arith, sym fast ∙ null_from (suc i) (suc (i + i)) (omega arith) stop))
          | inr (s, slow) ↦
              round-on next fuel (after next i head) (after next (i + i) head) slow fast
              ∙ elim (Bool-cases (same_pointer (some s) (next g))) [
                | inl met ↦
                    absurd (loops-some (suc i) (suc i) (meeting-Loops i s g slow fast met) n ends)
                | inr apart ↦ rw apart (
                    onwards fuel (suc i) slow
                      (later (suc (i + i)) (suc i + suc i) fast (omega arith) refl)
                    ∙ has_cycle_loop-ends fuel (suc i) n ends (not_yet i g n fast ends)
                        (omega arith))
              ]
        ]
      ]

-- On a chain that ends after `n` steps, `ll_has_cycle` returns false within n / 2 + 1 rounds.
pub ll_has_cycle-EndsAfter :
    (next : ℕ → Option ℕ) (head : Option ℕ) (fuel n : ℕ)
    → EndsAfter next head n
    → n < fuel + fuel
    → ll_has_cycle fuel next head ≡ ok false
unfolding ll_has_cycle
ll_has_cycle-EndsAfter next head fuel n ends h =
    has_cycle_loop-ends next head fuel 0 n ends (omega arith) (omega arith)

-- On a chain that comes to a loop of `period` nodes after `tail` steps, `ll_has_cycle` returns true
-- within (tail + 1) * period rounds.
pub ll_has_cycle-Loops :
    (next : ℕ → Option ℕ) (head : Option ℕ) (fuel tail period : ℕ)
    → Loops next head tail period
    → suc tail * period ≤ fuel
    → ll_has_cycle fuel next head ≡ ok true
unfolding ll_has_cycle
ll_has_cycle-Loops next head fuel tail period l h =
    let m = suc tail * period in
    let far : suc tail ≤ m = le-mul (suc tail) period l.positive in
    meets next head tail period l fuel 0 (m - 1) (omega (arith, far)) (
      at_eq next head (suc (0 + (m - 1))) m (omega (arith, far))
      ∙ sym (same_after next head tail period l m (suc tail) (omega (arith, far)))
      ∙ at_eq next head (m + m) (suc (0 + (m - 1)) + suc (0 + (m - 1))) (omega (arith, far)))
