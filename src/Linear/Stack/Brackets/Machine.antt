-- ===== src/Linear/Stack/Brackets/Machine.antt =====
-- The grammar of balanced strings, and a machine on lists that decides it.
use mathlib.Core.List.{append-nil, append_assoc}
use dsa_guide.Prelude.{
  ℕ, ◌≡◌, inl, inr, refl, sym, ap, ◌∙◌, subst, Bool, true, false, List, [], ◌∷◌, ◌++◌, pos, arith,
  if◌then◌else◌, ◌==◌, Bool-cases,
}
use dsa_guide.Linear.Stack.{is_open, is_close, mismatch}

-- Which bracket closes which.
pub data Closing : ℕ → ℕ → Type 0 where
  round : {o c : ℕ} → o ≡ b'(' → c ≡ b')' → Closing o c
  square : {o c : ℕ} → o ≡ b'[' → c ≡ b']' → Closing o c
  curly : {o c : ℕ} → o ≡ b'{' → c ≡ b'}' → Closing o c

-- A balanced string is empty, or another byte before a balanced string, or a bracket, a balanced
-- string, the bracket that closes it, and a balanced string.
pub data Balanced : List ℕ → Type 0 where
  empty : Balanced []
  other :
      {c : ℕ} {u : List ℕ} → is_open c ≡ false → is_close c ≡ false → Balanced u → Balanced (c ∷ u)
  pair :
      {o c : ℕ} {s t u : List ℕ}
      → Closing o c
      → Balanced s
      → Balanced t
      → u ≡ o ∷ (s ++ (c ∷ t))
      → Balanced u

-- The stack of the open brackets, innermost first, over the rest of the string.
pub machine : List ℕ → List ℕ → Bool
machine [] [] = true
machine (o ∷ st) [] = false
machine [] (c ∷ e) =
    if is_open c then machine (c ∷ []) e else (if is_close c then false else machine [] e)
machine (o ∷ st) (c ∷ e) =
    if is_open c
    then machine (c ∷ o ∷ st) e
    else (if is_close c
        then (if mismatch c (pos o) then false else machine st e)
        else machine (o ∷ st) e)

pub machine-nil : (machine [] [] ≡ true) × ((o : ℕ) (st : List ℕ) → machine (o ∷ st) [] ≡ false)
unfolding machine
machine-nil = (refl, λ o st. refl)

module _ (st : List ℕ) (c : ℕ) (e : List ℕ) where
  pub machine-open : is_open c ≡ true → machine st (c ∷ e) ≡ machine (c ∷ st) e
  unfolding machine
  machine-open h = elim st as (λ l. machine l (c ∷ e) ≡ machine (c ∷ l) e) [
    | [] ↦ rw h
    | o ∷ l ↦ rw h
  ]

  pub machine-other : is_open c ≡ false → is_close c ≡ false → machine st (c ∷ e) ≡ machine st e
  unfolding machine
  machine-other h k = elim st as (λ l. machine l (c ∷ e) ≡ machine l e) [
    | [] ↦ rw (h, k)
    | o ∷ l ↦ rw (h, k)
  ]

  pub machine-close :
      (o : ℕ)
      → is_open c ≡ false
      → is_close c ≡ true
      → machine (o ∷ st) (c ∷ e) ≡ (if mismatch c (pos o) then false else machine st e)
  unfolding machine
  machine-close o h k = rw (h, k)

pub machine-close_empty :
    (c : ℕ) (e : List ℕ) → is_open c ≡ false → is_close c ≡ true → machine [] (c ∷ e) ≡ false
unfolding machine
machine-close_empty c e h k = rw (h, k)

-- What is left to read while the brackets of `st` are open.
abbrev Closes : List ℕ → List ℕ → Type 0
Closes [] e = Balanced e
Closes (o ∷ st) e =
    (s t : List ℕ) × (c : ℕ) × (e ≡ s ++ (c ∷ t)) × Closing o c × Balanced s × Closes st t

Closes-append :
    (p : List ℕ)
    → ((s : List ℕ) → Balanced s → Balanced (p ++ s))
    → (st t : List ℕ) → Closes st t
    → Closes st (p ++ t)
Closes-append p keep [] t h = keep t h
Closes-append p keep (o ∷ st) t (s, t', c, e, closing, b, rest) =
    (p ++ s, t', c, ap (λ l. p ++ l) e ∙ sym (append_assoc p s (c ∷ t')), closing, keep s b, rest)

Closes-pair : (st : List ℕ) (o : ℕ) (e : List ℕ) → Closes (o ∷ st) e → Closes st (o ∷ e)
Closes-pair st o e (s, t, c, eq, closing, b, rest) =
    subst (Closes st) (ap (◌∷◌ o) (append_assoc s (c ∷ []) t ∙ sym eq)) (
      Closes-append (o ∷ (s ++ (c ∷ [])))
        (λ u h. Balanced.pair closing b h (ap (◌∷◌ o) (append_assoc s (c ∷ []) u))) st t rest)

Closing-of_match : (o c : ℕ) → is_close c ≡ true → mismatch c (pos o) ≡ false → Closing o c
Closing-of_match o c h m = elim (Bool-cases (c == b')')) [
  | inl e ↦ Closing.round (ground arith) (ground arith)
  | inr n ↦ elim (Bool-cases (c == b']')) [
    | inl e ↦ Closing.square (ground arith) (ground arith)
    | inr n' ↦ Closing.curly (ground arith) (ground arith)
  ]
]

if-false : (b x : Bool) → (if b then false else x) ≡ true → b ≡ false
if-false true x h = sym h
if-false false x h = refl

Closes-close :
    (st : List ℕ) (c : ℕ) (e : List ℕ)
    → is_open c ≡ false
    → is_close c ≡ true
    → ((st' : List ℕ) → machine st' e ≡ true → Closes st' e)
    → machine st (c ∷ e) ≡ true
    → Closes st (c ∷ e)
Closes-close [] c e h k ih run = absurd (ground (arith, machine-close_empty c e h k))
Closes-close (o ∷ st) c e h k ih run =
    let step = machine-close st c e o h k in
    let matched : mismatch c (pos o) ≡ false = if-false _ _ (sym step ∙ run) in
    (
      [],
      e,
      c,
      refl,
      Closing-of_match o c k matched,
      Balanced.empty,
      ih st (sym (ap (λ b. if b then false else machine st e) matched) ∙ sym step ∙ run),
    )

machine-Closes : (st e : List ℕ) → machine st e ≡ true → Closes st e
unfolding machine
machine-Closes [] [] h = Balanced.empty
machine-Closes (o ∷ st) [] h = absurd (ground arith)
machine-Closes st (c ∷ e) h = elim (Bool-cases (is_open c)) [
  | inl op ↦ Closes-pair st c e (machine-Closes (c ∷ st) e (sym (machine-open st c e op) ∙ h))
  | inr not_op ↦ elim (Bool-cases (is_close c)) [
    | inl cl ↦ Closes-close st c e not_op cl (λ st'. machine-Closes st' e) h
    | inr not_cl ↦
        Closes-append (c ∷ []) (λ s b. Balanced.other not_op not_cl b) st e
          (machine-Closes st e (sym (machine-other st c e not_op not_cl) ∙ h))
  ]
]

pub machine-Balanced : (e : List ℕ) → machine [] e ≡ true → Balanced e
machine-Balanced e h = machine-Closes [] e h

Closing-tests :
    {o c : ℕ}
    → Closing o c
    → (is_open o ≡ true) × (is_open c ≡ false) × (is_close c ≡ true) × (mismatch c (pos o) ≡ false)
Closing-tests (Closing.round e f) = rw (e, f) (refl, refl, refl, refl)
Closing-tests (Closing.square e f) = rw (e, f) (refl, refl, refl, refl)
Closing-tests (Closing.curly e f) = rw (e, f) (refl, refl, refl, refl)

-- A balanced string leaves the stack as it was.
Balanced-skip : (u : List ℕ) (st e : List ℕ) → Balanced u → machine st (u ++ e) ≡ machine st e
Balanced-skip [] st e Balanced.empty = refl
Balanced-skip (c ∷ u) st e (Balanced.other h k b) =
    machine-other st c (u ++ e) h k ∙ Balanced-skip u st e b
Balanced-skip u st e (Balanced.pair {o} {c} {s} {t} closing b d eq) =
    let (op, not_op, cl, matched) = Closing-tests closing in
    ap (λ l. machine st (l ++ e)) eq
    ∙ machine-open st o ((s ++ (c ∷ t)) ++ e) op
    ∙ ap (machine (o ∷ st)) (append_assoc s (c ∷ t) e)
    ∙ Balanced-skip s (o ∷ st) (c ∷ (t ++ e)) b
    ∙ machine-close st c (t ++ e) o not_op cl
    ∙ ap (λ x. if x then false else machine st (t ++ e)) matched
    ∙ Balanced-skip t st e d

pub Balanced-machine : (e : List ℕ) → Balanced e → machine [] e ≡ true
unfolding machine
Balanced-machine e b = ap (machine []) (sym (append-nil e)) ∙ Balanced-skip e [] [] b
