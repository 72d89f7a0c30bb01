-- ===== src/Graph/Kahn/Degrees.antt =====
-- In-degrees: the edges into a vertex from the rows that are not done.
use dsa_guide.Prelude.{
  ℕ, zero, suc, ◌+◌, ◌<◌, ◌≡◌, ◌==◌, inl, inr, refl, sym, subst, ◌++◌, Bool, false, true, List, [],
  ◌∷◌, length, set, get_or, Bool-cases, if◌then◌else◌, ℕ_discrete, arith,
}
use dsa_guide.Graph.AdjacencyList.Marks.{Marked, In, Distinct, In-append_right}

abbrev pub count : ℕ → List ℕ → ℕ
count v [] = 0
count v (x ∷ l) = if x == v then suc (count v l) else count v l

abbrev pub due : ℕ → List (List ℕ) → List Bool → ℕ
due v [] done = 0
due v (row ∷ rows) [] = 0
due v (row ∷ rows) (b ∷ done) = if b then due v rows done else count v row + due v rows done

pub count-In : (v : ℕ) (l : List ℕ) → In v l → 0 < count v l
count-In v [] a = absurd a
count-In v (x ∷ l) (inl e) = ground (arith, e)
count-In v (x ∷ l) (inr a) = ground (arith, count-In v l a)

pub count-absent : (v : ℕ) (l : List ℕ) → ¬ In v l → count v l ≡ 0
count-absent v [] a = refl
count-absent v (x ∷ l) a = elim (ℕ_discrete x v) [
  | yes e ↦ absurd (a (inl e))
  | no ne ↦ ground (arith, ne, count-absent v l (λ b. a (inr b)))
]

-- What a row that becomes done takes from the sum.
pub due-set :
    (v : ℕ) (rows : List (List ℕ)) (done : List Bool) (u : ℕ)
    → u < length done
    → get_or done u false ≡ false
    → due v rows done ≡ due v rows (set done u true) + count v (get_or rows u [])
due-set v [] done u h e = refl
due-set v (row ∷ rows) [] u h e = absurd (omega arith)
due-set v (row ∷ rows) (b ∷ done) zero h e = ground arith
due-set v (row ∷ rows) (b ∷ done) (suc u) h e =
    ground (arith, due-set v rows done u (omega arith) e)

pub due-Marked :
    (v : ℕ) (rows : List (List ℕ)) (done : List Bool) (u : ℕ)
    → u < length done
    → due v rows done ≡ 0
    → In v (get_or rows u [])
    → Marked done u
due-Marked v rows done u h e a = elim (Bool-cases (get_or done u false)) [
  | inl m ↦ m
  | inr m ↦ absurd (omega (arith, due-set v rows done u h m, count-In v (get_or rows u []) a))
]

pub due-none :
    (v : ℕ) (rows : List (List ℕ)) (done : List Bool)
    → ((u : ℕ) → In v (get_or rows u []) → Marked done u)
    → due v rows done ≡ 0
due-none v [] done h = refl
due-none v (row ∷ rows) [] h = refl
due-none v (row ∷ rows) (true ∷ done) h = due-none v rows done (λ u a. h (suc u) a)
due-none v (row ∷ rows) (false ∷ done) h =
    omega (arith, count-absent v row (λ a. cc (h 0 a)), due-none v rows done (λ u a. h (suc u) a))

pub row-lt : (v : ℕ) (rows : List (List ℕ)) (u : ℕ) → In v (get_or rows u []) → u < length rows
row-lt v [] u a = absurd a
row-lt v (row ∷ rows) zero a = omega arith
row-lt v (row ∷ rows) (suc u) a = omega (arith, row-lt v rows u a)

pub Distinct-apart : (v : ℕ) (l r : List ℕ) → Distinct (l ++ r) → In v l → ¬ In v r
Distinct-apart v [] r d a b = absurd a
Distinct-apart v (x ∷ l) r (fresh, d) (inl e) b =
    fresh (In-append_right x l r (subst (λ y. In y r) (sym e) b))
Distinct-apart v (x ∷ l) r (fresh, d) (inr a) b = Distinct-apart v l r d a b
