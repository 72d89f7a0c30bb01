-- ===== src/Trees/Heap/Swaps.antt =====
-- Arrays that differ by swaps of cells below a bound.
use mathlib.Core.List.{Perm}
use mathlib.Core.List.Perm
use dsa_guide.Prelude.{
  ℕ, zero, suc, ◌<◌, ◌≤◌, ◌≡◌, refl, sym, ap, ◌∙◌, Bool, true, false, List, [], ◌∷◌, ℤ, pos, ◌==◌,
  if◌then◌else◌, ok, load-ok, store-ok, length, take, length-take, get_or, set, length-set,
  get_or-set, subst, arith,
}
use dsa_guide.Trees.Heap.{swap_cells}

abbrev pub cell : List ℤ → ℕ → ℤ
cell l i = get_or l i (pos 0)

abbrev pub swapped : List ℤ → ℕ → ℕ → List ℤ
swapped l a b = set (set l a (cell l b)) b (cell l a)

pub swap_cells-swapped :
    (l : List ℤ) (a b : ℕ) → a < length l → b < length l → swap_cells l a b ≡ ok (swapped l a b)
unfolding swap_cells
swap_cells-swapped l a b h k =
    rw
      (
        load-ok l a (pos 0) h,
        load-ok l b (pos 0) k,
        store-ok l a (cell l b) h,
        store-ok (set l a (cell l b)) b (cell l a) (omega (arith, length-set l a (cell l b))),
      )
      refl

pub cell-swapped :
    (l : List ℤ) (a b j : ℕ)
    → a < length l
    → b < length l
    → cell (swapped l a b) j
      ≡ (if b == j then cell l a else (if a == j then cell l b else cell l j))
cell-swapped l a b j h k =
    get_or-set (set l a (cell l b)) b j (cell l a) (pos 0)
      (omega (arith, length-set l a (cell l b)))
    ∙ ap (λ c. if b == j then cell l a else c) (get_or-set l a j (cell l b) (pos 0) h)

set-Perm : (l : List ℤ) (b : ℕ) (x : ℤ) → b < length l → Perm (cell l b ∷ set l b x) (x ∷ l)
set-Perm [] b x h = absurd (omega arith)
set-Perm (w ∷ l) zero x h = Perm.swap _ _ _
set-Perm (w ∷ l) (suc b) x h =
    Perm.trans (Perm.swap _ _ _)
      (Perm.trans (Perm.cons w (set-Perm l b x (omega arith))) (Perm.swap _ _ _))

swapped-Perm : (l : List ℤ) (a b : ℕ) → a < length l → b < length l → Perm (swapped l a b) l
swapped-Perm [] a b h k = absurd (omega arith)
swapped-Perm (x ∷ l) zero zero h k = Perm.rfl
swapped-Perm (x ∷ l) zero (suc b) h k = set-Perm l b x (omega arith)
swapped-Perm (x ∷ l) (suc a) zero h k = set-Perm l a x (omega arith)
swapped-Perm (x ∷ l) (suc a) (suc b) h k =
    Perm.cons x (swapped-Perm l a b (omega arith) (omega arith))

-- Swaps of cells below `n`, one after the other.
pub data Swaps (n : ℕ) : List ℤ → List ℤ → Type 0 where
  done : {l : List ℤ} → Swaps n l l
  one :
      {l r : List ℤ} (a b : ℕ)
      → a < n
      → b < n
      → n ≤ length l
      → Swaps n (swapped l a b) r
      → Swaps n l r

pub length-swapped : (l : List ℤ) (a b : ℕ) → length (swapped l a b) ≡ length l
length-swapped l a b = length-set (set l a (cell l b)) b (cell l a) ∙ length-set l a (cell l b)

pub Swaps-length : {n : ℕ} {l r : List ℤ} → Swaps n l r → length r ≡ length l
Swaps-length done = refl
Swaps-length (one {l = l} a b p q h s) = Swaps-length s ∙ length-swapped l a b

pub Swaps-Perm : {n : ℕ} {l r : List ℤ} → Swaps n l r → Perm r l
Swaps-Perm done = Perm.rfl
Swaps-Perm (one {l = l} a b p q h s) =
    Perm.trans (Swaps-Perm s) (swapped-Perm l a b (omega arith) (omega arith))

-- Cells from `n` on stay.
pub Swaps-beyond : {n : ℕ} {l r : List ℤ} (j : ℕ) → Swaps n l r → n ≤ j → cell r j ≡ cell l j
Swaps-beyond j done h = refl
Swaps-beyond j (one {l = l} a b p q k s) h =
    Swaps-beyond j s h ∙ cell-swapped l a b j (omega arith) (omega arith) ∙ ground arith

-- What holds of all values below `n` still does.
pub Swaps-all :
    {n : ℕ} {l r : List ℤ} (P : ℤ → Type 0)
    → Swaps n l r
    → ((j : ℕ) → j < n → P (cell l j))
    → (j : ℕ) → j < n
    → P (cell r j)
Swaps-all P done all = all
Swaps-all {n} P (one {l = l} a b p q h s) all = Swaps-all P s λ j k.
    subst P (sym (cell-swapped l a b j (omega arith) (omega arith))) (choose j k (b == j) (a == j))
  where
    choose :
        (j : ℕ)
        → j < n
        → (x y : Bool) → P (if x then cell l a else (if y then cell l b else cell l j))
    choose j k true y = all a p
    choose j k false true = all b q
    choose j k false false = all j k

pub Swaps-trans : {n : ℕ} {l m r : List ℤ} → Swaps n l m → Swaps n m r → Swaps n l r
Swaps-trans done t = t
Swaps-trans (one a b p q h s) t = one a b p q h (Swaps-trans s t)

pub Swaps-wider : {k n : ℕ} {l r : List ℤ} → Swaps k l r → k ≤ n → n ≤ length l → Swaps n l r
Swaps-wider done h fits = done
Swaps-wider (one {l = l} a b p q k s) h fits =
    one a b (omega arith) (omega arith) fits (Swaps-wider s h (omega (arith, length-swapped l a b)))

take-set_in : (n : ℕ) (l : List ℤ) (a : ℕ) (x : ℤ) → a < n → take n (set l a x) ≡ set (take n l) a x
take-set_in zero l a x h = absurd (omega arith)
take-set_in (suc n) [] a x h = refl
take-set_in (suc n) (y ∷ l) zero x h = refl
take-set_in (suc n) (y ∷ l) (suc a) x h = ap (◌∷◌ y) (take-set_in n l a x (omega arith))

cell-take : (n : ℕ) (l : List ℤ) (a : ℕ) → a < n → cell (take n l) a ≡ cell l a
cell-take zero l a h = absurd (omega arith)
cell-take (suc n) [] a h = refl
cell-take (suc n) (y ∷ l) zero h = refl
cell-take (suc n) (y ∷ l) (suc a) h = cell-take n l a (omega arith)

pub take-swapped :
    (n : ℕ) (l : List ℤ) (a b : ℕ) → a < n → b < n → take n (swapped l a b) ≡ swapped (take n l) a b
take-swapped n l a b p q =
    rw
      (
        take-set_in n (set l a (cell l b)) b (cell l a) q,
        take-set_in n l a (cell l b) p,
        cell-take n l a p,
        cell-take n l b q,
      )
      refl

-- The first `n` values are the same, in another order.
pub Swaps-take : {n : ℕ} {l r : List ℤ} → Swaps n l r → Perm (take n r) (take n l)
Swaps-take done = Perm.rfl
Swaps-take {n} (one {l = l} a b p q h s) = Perm.trans (Swaps-take s) (
    subst (λ t. Perm t (take n l)) (sym (take-swapped n l a b p q))
      (swapped-Perm (take n l) a b (omega (arith, length-take n l))
        (omega (arith, length-take n l))))
