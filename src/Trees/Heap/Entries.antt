-- ===== src/Trees/Heap/Entries.antt =====
-- Keys with their values, as two arrays whose cells change places together.
use mathlib.Core.List.{Perm}
use mathlib.Core.List.Perm
use dsa_guide.Prelude.{
  ℕ, zero, suc, ◌<◌, ◌≤◌, ◌≡◌, sym, ap₂, List, [], ◌∷◌, ◌++◌, ℤ, length, take, length-take, set,
  take-set, take-suc, pos, subst, arith,
}
use dsa_guide.Trees.Heap.Swaps.{cell, swapped, take-swapped}

-- Each key with its value.
abbrev pub entries : List ℤ → List ℤ → List (ℤ × ℤ)
entries [] vs = []
entries (k ∷ ks) [] = []
entries (k ∷ ks) (v ∷ vs) = (k, v) ∷ entries ks vs

entries-set-Perm :
    (ks vs : List ℤ) (b : ℕ) (x y : ℤ)
    → b < length ks
    → b < length vs
    → Perm ((cell ks b, cell vs b) ∷ entries (set ks b x) (set vs b y)) ((x, y) ∷ entries ks vs)
entries-set-Perm [] vs b x y h k = absurd (omega arith)
entries-set-Perm (w ∷ ks) [] b x y h k = absurd (omega arith)
entries-set-Perm (w ∷ ks) (u ∷ vs) zero x y h k = Perm.swap _ _ _
entries-set-Perm (w ∷ ks) (u ∷ vs) (suc b) x y h k = Perm.trans (Perm.swap _ _ _) (
    Perm.trans (Perm.cons (w, u) (entries-set-Perm ks vs b x y (omega arith) (omega arith)))
      (Perm.swap _ _ _))

entries-swapped-Perm :
    (ks vs : List ℤ) (a b : ℕ)
    → a < length ks
    → b < length ks
    → a < length vs
    → b < length vs
    → Perm (entries (swapped ks a b) (swapped vs a b)) (entries ks vs)
entries-swapped-Perm [] vs a b h k h' k' = absurd (omega arith)
entries-swapped-Perm (w ∷ ks) [] a b h k h' k' = absurd (omega arith)
entries-swapped-Perm (w ∷ ks) (u ∷ vs) zero zero h k h' k' = Perm.rfl
entries-swapped-Perm (w ∷ ks) (u ∷ vs) zero (suc b) h k h' k' =
    entries-set-Perm ks vs b w u (omega arith) (omega arith)
entries-swapped-Perm (w ∷ ks) (u ∷ vs) (suc a) zero h k h' k' =
    entries-set-Perm ks vs a w u (omega arith) (omega arith)
entries-swapped-Perm (w ∷ ks) (u ∷ vs) (suc a) (suc b) h k h' k' =
    Perm.cons (w, u)
      (entries-swapped-Perm ks vs a b (omega arith) (omega arith) (omega arith) (omega arith))

-- Swaps of cells below `n`, each in both arrays.
pub data Together (n : ℕ) : List ℤ → List ℤ → List ℤ → List ℤ → Type 0 where
  done : {ks vs : List ℤ} → Together n ks vs ks vs
  one :
      {ks vs ks' vs' : List ℤ} (a b : ℕ)
      → a < n
      → b < n
      → n ≤ length ks
      → n ≤ length vs
      → Together n (swapped ks a b) (swapped vs a b) ks' vs'
      → Together n ks vs ks' vs'

-- The first `n` entries are the same, in another order.
pub Together-entries :
    {n : ℕ} {ks vs ks' vs' : List ℤ}
    → Together n ks vs ks' vs'
    → Perm (entries (take n ks') (take n vs')) (entries (take n ks) (take n vs))
Together-entries done = Perm.rfl
Together-entries {n} (one {ks = ks} {vs = vs} a b p q h k t) = Perm.trans (Together-entries t) (
    subst (λ e. Perm e (entries (take n ks) (take n vs)))
      (sym (ap₂ entries (take-swapped n ks a b p q) (take-swapped n vs a b p q)))
      (entries-swapped-Perm (take n ks) (take n vs) a b (omega (arith, length-take n ks))
        (omega (arith, length-take n ks)) (omega (arith, length-take n vs))
        (omega (arith, length-take n vs))))

entries-append :
    (ks vs : List ℤ) (k v : ℤ)
    → length ks ≡ length vs
    → Perm (entries (ks ++ k ∷ []) (vs ++ v ∷ [])) ((k, v) ∷ entries ks vs)
entries-append [] [] k v e = Perm.rfl
entries-append [] (u ∷ vs) k v e = absurd (omega (arith, e))
entries-append (w ∷ ks) [] k v e = absurd (omega (arith, e))
entries-append (w ∷ ks) (u ∷ vs) k v e =
    Perm.trans (Perm.cons (w, u) (entries-append ks vs k v (omega (arith, e)))) (Perm.swap _ _ _)

-- An entry behind the first `n`.
pub entries-push :
    (ks vs : List ℤ) (n : ℕ) (k v : ℤ)
    → n < length ks
    → n < length vs
    → Perm
        (entries (take (suc n) (set ks n k)) (take (suc n) (set vs n v)))
        ((k, v) ∷ entries (take n ks) (take n vs))
entries-push ks vs n k v h h' =
    rw (take-set n ks k h, take-set n vs v h')
      (entries-append (take n ks) (take n vs) k v
        (omega (arith, length-take n ks, length-take n vs)))

-- The last entry in the place of the first.
pub entries-pop :
    (ks vs : List ℤ) (n : ℕ)
    → n < length ks
    → n < length vs
    → Perm
        ((cell ks 0, cell vs 0)
          ∷ entries (take n (set ks 0 (cell ks n))) (take n (set vs 0 (cell vs n))))
        (entries (take (suc n) ks) (take (suc n) vs))
entries-pop [] vs n h h' = absurd (omega arith)
entries-pop (k ∷ ks) [] n h h' = absurd (omega arith)
entries-pop (k ∷ ks) (v ∷ vs) zero h h' = Perm.rfl
entries-pop (k ∷ ks) (v ∷ vs) (suc n) h h' =
    rw (take-suc n ks (pos 0) (omega arith), take-suc n vs (pos 0) (omega arith))
      (Perm.cons (k, v)
        (Perm.symm (
          entries-append (take n ks) (take n vs) (cell ks n) (cell vs n)
            (omega (arith, length-take n ks, length-take n vs)))))
