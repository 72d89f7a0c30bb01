-- ===== src/Graph/AdjacencyList/Marks.antt =====
-- Lists of flags, and the vertices that a list holds.
use dsa_guide.Prelude.{
  ℕ, zero, suc, ◌<◌, ◌≤◌, ◌≡◌, ◌⊎◌, inl, inr, refl, sym, ap, Bool, true, false, List, [], ◌∷◌, ◌++◌,
  length, set, get_or, get_or-set, if◌then◌else◌, ℕ_discrete, arith, replicate,
}

-- The flags that are not set.
abbrev pub unseen : List Bool → ℕ
unseen [] = 0
unseen (b ∷ vis) = if b then unseen vis else suc (unseen vis)

abbrev pub Marked : List Bool → ℕ → Type 0
Marked vis v = get_or vis v false ≡ true

pub unseen-set :
    (vis : List Bool) (v : ℕ)
    → v < length vis
    → get_or vis v false ≡ false
    → suc (unseen (set vis v true)) ≡ unseen vis
unseen-set [] v h e = absurd (omega arith)
unseen-set (b ∷ vis) zero h e = ground arith
unseen-set (b ∷ vis) (suc v) h e = ground (arith, unseen-set vis v (omega arith) e)

pub unseen-replicate : (n : ℕ) → unseen (replicate n false) ≡ n
unseen-replicate zero = refl
unseen-replicate (suc n) = ap suc (unseen-replicate n)

pub get_or-blank : (n v : ℕ) → get_or (replicate n false) v false ≡ false
get_or-blank zero v = refl
get_or-blank (suc n) zero = refl
get_or-blank (suc n) (suc v) = get_or-blank n v

pub Marked-blank : (n v : ℕ) → ¬ Marked (replicate n false) v
Marked-blank n v m = cc (get_or-blank n v)

pub Marked-lt : (vis : List Bool) (v : ℕ) → Marked vis v → v < length vis
Marked-lt [] v h = absurd (ground (arith, h))
Marked-lt (b ∷ vis) zero h = omega arith
Marked-lt (b ∷ vis) (suc v) h = omega (arith, Marked-lt vis v h)

module _ (vis : List Bool) (v : ℕ) (inside : v < length vis) where
  pub Marked-set : (w : ℕ) → Marked (set vis v true) w → (w ≡ v) ⊎ Marked vis w
  Marked-set w h = ground (arith, get_or-set vis v w true false inside, h)

  pub Marked-set_self : Marked (set vis v true) v
  Marked-set_self = ground (arith, get_or-set vis v v true false inside)

  pub Marked-set_before : (w : ℕ) → Marked vis w → Marked (set vis v true) w
  Marked-set_before w h = ground (arith, get_or-set vis v w true false inside, h)

abbrev pub In : ℕ → List ℕ → Type 0
In v [] = ⊥
In v (x ∷ l) = (x ≡ v) ⊎ In v l

abbrev pub Distinct : List ℕ → Type 0
Distinct [] = Unit {0}
Distinct (x ∷ l) = (¬ In x l) × Distinct l

pub In-append : (v : ℕ) (l r : List ℕ) → In v (l ++ r) → In v l ⊎ In v r
In-append v [] r h = inr h
In-append v (x ∷ l) r (inl e) = inl (inl e)
In-append v (x ∷ l) r (inr h) = elim (In-append v l r h) [ inl a ↦ inl (inr a) | inr b ↦ inr b ]

pub In-append_left : (v : ℕ) (l r : List ℕ) → In v l → In v (l ++ r)
In-append_left v [] r h = absurd h
In-append_left v (x ∷ l) r (inl e) = inl e
In-append_left v (x ∷ l) r (inr h) = inr (In-append_left v l r h)

pub In-append_right : (v : ℕ) (l r : List ℕ) → In v r → In v (l ++ r)
In-append_right v [] r h = h
In-append_right v (x ∷ l) r h = inr (In-append_right v l r h)

pub Distinct-append_last : (v : ℕ) (l : List ℕ) → Distinct l → ¬ In v l → Distinct (l ++ v ∷ [])
Distinct-append_last v [] d h = (λ a. a, tt)
Distinct-append_last v (x ∷ l) (fresh, d) h = (
  λ a. elim (In-append x l (v ∷ []) a) [
    | inl b ↦ fresh b
    | inr b ↦ elim b [ inl e ↦ h (inl (sym e)) | inr c ↦ c ]
  ],
  Distinct-append_last v l d (λ a. h (inr a)),
)

pub Distinct-append :
    (l r : List ℕ) → Distinct l → Distinct r → ((v : ℕ) → In v l → ¬ In v r) → Distinct (l ++ r)
Distinct-append [] r dl dr apart = dr
Distinct-append (x ∷ l) r (fresh, dl) dr apart = (
  λ a. elim (In-append x l r a) [ inl b ↦ fresh b | inr b ↦ apart x (inl refl) b ],
  Distinct-append l r dl dr (λ v a. apart v (inr a)),
)

pub unseen-le : (vis : List Bool) → unseen vis ≤ length vis
unseen-le [] = omega arith
unseen-le (b ∷ vis) = ground (arith, unseen-le vis)

pub In-cases : (v : ℕ) (l : List ℕ) → In v l ⊎ (¬ In v l)
In-cases v [] = inr (λ a. a)
In-cases v (x ∷ l) = elim (ℕ_discrete x v) [
  | yes e ↦ inl (inl e)
  | no ne ↦ elim (In-cases v l) [
    | inl a ↦ inl (inr a)
    | inr b ↦ inr (λ a. elim a [ inl e ↦ ne e | inr c ↦ b c ])
  ]
]

pub unseen-none : (vis : List Bool) (v : ℕ) → unseen vis ≡ 0 → v < length vis → Marked vis v
unseen-none [] v e h = absurd (omega arith)
unseen-none (b ∷ vis) zero e h = ground (arith, e)
unseen-none (true ∷ vis) (suc v) e h = unseen-none vis v e (omega arith)
unseen-none (false ∷ vis) (suc v) e h = absurd (omega (arith, e))

pub unseen-all : (vis : List Bool) → ((v : ℕ) → v < length vis → Marked vis v) → unseen vis ≡ 0
unseen-all [] h = refl
unseen-all (true ∷ vis) h = unseen-all vis (λ v i. h (suc v) (omega arith))
unseen-all (false ∷ vis) h = absurd (cc (h 0 (omega arith)))
