-- ===== src/Hash/Open/Probe.antt =====
-- The slots that a key is looked for in, and the walk over them.
use native.Mathlib.Nat.{mod-lt, mod-eq_of_lt, mod-eq-sub-mod}
use dsa_guide.Prelude.{
  ℕ, zero, suc, ◌+◌, ◌-◌, ◌%◌, ◌^◌, ◌<◌, ◌≤◌, ◌≡◌, ◌≢◌, ◌⊎◌, dec_lt, inl, inr, refl, sym, ap, ◌∙◌,
  Bool, true, false, none, some, ℤ, pos, ◌==ℤ◌, ltb, subst, Bool-cases, if◌then◌else◌, ok, load-ok,
  length, get_or, arith,
}
use dsa_guide.Hash.Open.{OaHashTable, slot_at, find_loop}

-- Each array has a cell for each slot.
pub record IsValid (ht : OaHashTable) : Type 0 where
  pub keys_fit : length ht.keys ≡ ht.capacity
  pub vals_fit : length ht.vals ≡ ht.capacity
  pub used_fit : length ht.used ≡ ht.capacity
  pub deleted_fit : length ht.deleted ≡ ht.capacity
  pub positive : 1 ≤ ht.capacity
  pub small : ht.capacity ≤ 2 ^ 63

abbrev pub used_at : OaHashTable → ℕ → Bool
used_at ht j = get_or ht.used j false

abbrev pub deleted_at : OaHashTable → ℕ → Bool
deleted_at ht j = get_or ht.deleted j false

abbrev pub key_at : OaHashTable → ℕ → ℤ
key_at ht j = get_or ht.keys j (pos 0)

abbrev pub val_at : OaHashTable → ℕ → ℤ
val_at ht j = get_or ht.vals j (pos 0)

pub slot-lt : (ht : OaHashTable) (idx i : ℕ) → IsValid ht → slot_at ht idx i < ht.capacity
slot-lt ht idx i valid = mod-lt ((idx + i) % 2 ^ 64) valid.positive

wrap : (c x : ℕ) → x < c + c → x % c ≡ (if ltb x c then x else x - c)
wrap c x h = elim (Bool-cases (ltb x c)) [
  | inl e ↦ rw e (mod-eq_of_lt (ground arith))
  | inr e ↦ rw e (mod-eq-sub-mod (ground arith) ∙ mod-eq_of_lt (ground arith))
]

-- The walk comes to each slot once.
pub slot-injective :
    (ht : OaHashTable) (idx i j : ℕ)
    → IsValid ht
    → idx < ht.capacity
    → i < j
    → j < ht.capacity
    → slot_at ht idx i ≢ slot_at ht idx j
slot-injective ht idx i j valid h p q e =
    let narrow_i : (idx + i) % 2 ^ 64 ≡ idx + i = omega (arith, valid.small) in
    let narrow_j : (idx + j) % 2 ^ 64 ≡ idx + j = omega (arith, valid.small) in
    let at_i = ap (λ t. t % ht.capacity) narrow_i ∙ wrap ht.capacity (idx + i) (omega arith) in
    let at_j = ap (λ t. t % ht.capacity) narrow_j ∙ wrap ht.capacity (idx + j) (omega arith) in
    ground (arith, sym at_i ∙ e ∙ at_j)

-- The walk comes to every slot.
pub slot-onto :
    (ht : OaHashTable) (idx j : ℕ)
    → IsValid ht
    → idx < ht.capacity
    → j < ht.capacity
    → (k : ℕ) × (k < ht.capacity) × (slot_at ht idx k ≡ j)
slot-onto ht idx j valid p q = elim (dec_lt j idx) [
  | yes l ↦ (
    j + ht.capacity - idx,
    omega arith,
    reach (j + ht.capacity - idx) (omega arith) (inr (omega arith)),
  )
  | no l ↦ (j - idx, omega arith, reach (j - idx) (omega arith) (inl (omega arith)))
]
  where
    reach :
        (k : ℕ)
        → k < ht.capacity
        → (idx + k ≡ j) ⊎ (idx + k ≡ j + ht.capacity)
        → slot_at ht idx k ≡ j
    reach k h e =
        let narrow : (idx + k) % 2 ^ 64 ≡ idx + k = omega (arith, valid.small, h, p) in
        ap (λ t. t % ht.capacity) narrow
        ∙ wrap ht.capacity (idx + k) (omega (arith, h, p))
        ∙ ground (arith, e, q)

-- A slot that the walk for a key goes past, and one that it stops at.
pub record Passes (ht : OaHashTable) (key : ℤ) (j : ℕ) : Type 0 where
  pub in_use : used_at ht j ≡ true
  pub kept : deleted_at ht j ≡ false
  pub other : (key_at ht j ==ℤ key) ≡ false

pub record Holds (ht : OaHashTable) (key : ℤ) (j : ℕ) : Type 0 where
  pub in_use : used_at ht j ≡ true
  pub kept : deleted_at ht j ≡ false
  pub here : (key_at ht j ==ℤ key) ≡ true

-- What the walk for a key does at a slot.
pub data Kind (ht : OaHashTable) (key : ℤ) (j : ℕ) : Type 0 where
  stops : used_at ht j ≡ false → Kind ht key j
  skips : used_at ht j ≡ true → deleted_at ht j ≡ true → Kind ht key j
  passes : Passes ht key j → Kind ht key j
  holds : Holds ht key j → Kind ht key j

pub slot-Kind : (ht : OaHashTable) (key : ℤ) (j : ℕ) → Kind ht key j
slot-Kind ht key j = elim (Bool-cases (used_at ht j)) [
  | inr e ↦ stops e
  | inl e ↦ elim (Bool-cases (deleted_at ht j)) [
    | inl d ↦ skips e d
    | inr d ↦ elim (Bool-cases (key_at ht j ==ℤ key)) [
      | inl k ↦ holds (record { in_use = e; kept = d; here = k })
      | inr k ↦ passes (record { in_use = e; kept = d; other = k })
    ]
  ]
]

module _ (ht : OaHashTable) (key : ℤ) (valid : IsValid ht) (idx : ℕ) where
  pub find_loop-past :
      (n i : ℕ)
      → Passes ht key (slot_at ht idx i)
      → find_loop (suc n) i idx ht key ≡ find_loop n (i + 1) idx ht key
  unfolding find_loop
  find_loop-past n i p =
      let j = slot_at ht idx i in
      let q = slot-lt ht idx i valid in
      rw
        (
          load-ok ht.used j false (omega (arith, q, valid.used_fit)),
          p.in_use,
          load-ok ht.deleted j false (omega (arith, q, valid.deleted_fit)),
          p.kept,
          load-ok ht.keys j (pos 0) (omega (arith, q, valid.keys_fit)),
          p.other,
        )
        refl

  pub find_loop-here :
      (n i : ℕ)
      → Holds ht key (slot_at ht idx i)
      → find_loop (suc n) i idx ht key ≡ ok (some (slot_at ht idx i))
  unfolding find_loop
  find_loop-here n i p =
      let j = slot_at ht idx i in
      let q = slot-lt ht idx i valid in
      rw
        (
          load-ok ht.used j false (omega (arith, q, valid.used_fit)),
          p.in_use,
          load-ok ht.deleted j false (omega (arith, q, valid.deleted_fit)),
          p.kept,
          load-ok ht.keys j (pos 0) (omega (arith, q, valid.keys_fit)),
          p.here,
        )
        refl

  -- A slot never used ends the walk, and a deleted one is passed.
  pub find_loop-stop :
      (n i : ℕ) → used_at ht (slot_at ht idx i) ≡ false → find_loop (suc n) i idx ht key ≡ ok none
  unfolding find_loop
  find_loop-stop n i e =
      let q = slot-lt ht idx i valid in
      rw (load-ok ht.used (slot_at ht idx i) false (omega (arith, q, valid.used_fit)), e) refl

  pub find_loop-skip :
      (n i : ℕ)
      → used_at ht (slot_at ht idx i) ≡ true
      → deleted_at ht (slot_at ht idx i) ≡ true
      → find_loop (suc n) i idx ht key ≡ find_loop n (i + 1) idx ht key
  unfolding find_loop
  find_loop-skip n i e d =
      let j = slot_at ht idx i in
      let q = slot-lt ht idx i valid in
      rw
        (
          load-ok ht.used j false (omega (arith, q, valid.used_fit)),
          e,
          load-ok ht.deleted j false (omega (arith, q, valid.deleted_fit)),
          d,
        )
        refl

  -- A walk that comes to no slot with the key finds none.
  pub find_loop-none :
      (n i : ℕ)
      → ((d : ℕ) → i ≤ d → d < i + n → ¬ Holds ht key (slot_at ht idx d))
      → find_loop n i idx ht key ≡ ok none
  unfolding find_loop
  find_loop-none zero i absent = refl
  find_loop-none (suc n) i absent =
      let on = find_loop-none n (i + 1) (λ d a b. absent d (omega (arith, a)) (omega (arith, b))) in
      elim (slot-Kind ht key (slot_at ht idx i)) [
        | stops e ↦ find_loop-stop n i e
        | skips e d ↦ find_loop-skip n i e d ∙ on
        | passes p ↦ find_loop-past n i p ∙ on
        | holds p ↦ absurd (absent i (omega arith) (omega arith) p)
      ]

  -- The walk from step `i` on comes to the slot `d` steps further, if it goes past all before.
  find_loop-found :
      (d n i : ℕ)
      → d < n
      → ((k : ℕ) → k < d → Passes ht key (slot_at ht idx (i + k)))
      → Holds ht key (slot_at ht idx (i + d))
      → find_loop n i idx ht key ≡ ok (some (slot_at ht idx (i + d)))
  find_loop-found d zero i h past p = absurd (omega arith)
  find_loop-found zero (suc n) i h past p =
      subst (λ t. find_loop (suc n) i idx ht key ≡ ok (some (slot_at ht idx t))) {x = i}
        (omega arith)
        (find_loop-here n i (subst (λ t. Holds ht key (slot_at ht idx t)) {y = i} (omega arith) p))
  find_loop-found (suc d) (suc n) i h past p =
      find_loop-past n i
        (subst (λ t. Passes ht key (slot_at ht idx t)) {y = i} (omega arith) (past 0 (omega arith)))
      ∙ subst (λ t. find_loop n (i + 1) idx ht key ≡ ok (some (slot_at ht idx t))) {x = i + 1 + d}
          (omega arith)
          (find_loop-found d n (i + 1) (omega arith)
            (λ k q.
              subst (λ t. Passes ht key (slot_at ht idx t)) {x = i + suc k} (omega arith)
                (past (suc k) (omega arith)))
            (subst (λ t. Holds ht key (slot_at ht idx t)) {x = i + suc d} (omega arith) p))

  pub find_loop-first :
      (d n : ℕ)
      → d < n
      → ((k : ℕ) → k < d → Passes ht key (slot_at ht idx k))
      → Holds ht key (slot_at ht idx d)
      → find_loop n 0 idx ht key ≡ ok (some (slot_at ht idx d))
  find_loop-first d n h past p =
      subst (λ t. find_loop n 0 idx ht key ≡ ok (some (slot_at ht idx t))) {x = 0 + d} (omega arith)
        (find_loop-found d n 0 h
          (λ k q. subst (λ t. Passes ht key (slot_at ht idx t)) {x = k} (omega arith) (past k q))
          (subst (λ t. Holds ht key (slot_at ht idx t)) {x = d} (omega arith) p))
