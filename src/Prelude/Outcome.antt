-- ===== src/Prelude/Outcome.antt =====
-- How a C call ends, and the memory accesses and `int` operations that can fail.
use Prim.Native.Nat.{ℕ, ◌^◌, ◌<◌, ◌≤◌}
use mathlib.Core.Path.{◌≡◌, refl}
use mathlib.Core.Bool.{Bool, true, false}
use mathlib.Core.List.{List}
use mathlib.Core.Option.{Option, none, some}
use native.Mathlib.Omega.{arith}
use dsa_guide.Prelude.Tests.{ltb, if◌then◌else◌}
use dsa_guide.Prelude.Lists.{length, get_elem?, get_or, set, get_elem?-eq-get_or}
use dsa_guide.Prelude.Int.{ℤ, pos, IsInt, fits_int}

-- A value; a failed `assert`; behaviour that C leaves undefined (an access out of bounds, a signed
-- overflow); or the model's own fuel running out.
pub data Run {ℓ} (A : Type ℓ) : Type ℓ where
  ok : A → Run A
  aborted undefined out_of_fuel : Run A

infixl 5 ◌>>=◌ ◌>>◌
abbrev pub ◌>>=◌ {ℓ κ} : {A : Type ℓ} {B : Type κ} → Run A → (A → Run B) → Run B
ok a >>= f = f a
aborted >>= f = aborted
undefined >>= f = undefined
out_of_fuel >>= f = out_of_fuel

abbrev pub ◌>>◌ {ℓ} : {B : Type ℓ} → Run (Unit {0}) → Run B → Run B
m >> k = m >>= λ _. k

-- `assert(b)`
abbrev pub assert : Bool → Run (Unit {0})
assert true = ok tt
assert false = aborted

abbrev pub or_undefined {ℓ} : {A : Type ℓ} → Option A → Run A
or_undefined (some a) = ok a
or_undefined none = undefined

-- `block[i]` as a value, and `block[i] = v`. A null pointer is a block with no cell.
unfoldable pub load {ℓ} : {A : Type ℓ} → List A → ℕ → Run A
load b i = or_undefined (get_elem? b i)

unfoldable pub store {ℓ} : {A : Type ℓ} → List A → ℕ → A → Run (List A)
store b i v = if ltb i (length b) then ok (set b i v) else undefined

-- The result of an `int` operation, undefined when it overflows.
abbrev pub as_int : ℤ → Run ℤ
as_int z = if fits_int z then ok z else undefined

pub as_int-pos : (n : ℕ) → n < 2 ^ 31 → as_int (pos n) ≡ ok (pos n)
as_int-pos n h = ground arith

pub as_int-ok : (z : ℤ) → IsInt z → as_int z ≡ ok z
as_int-ok z h = ground arith

pub load-ok {ℓ} :
    {A : Type ℓ} (b : List A) (i : ℕ) (d : A) → i < length b → load b i ≡ ok (get_or b i d)
unfolding load
load-ok b i d h = rw (get_elem?-eq-get_or b i d h)

pub store-ok {ℓ} :
    {A : Type ℓ} (b : List A) (i : ℕ) (v : A) → i < length b → store b i v ≡ ok (set b i v)
unfolding store
store-ok b i v h = ground arith

pub store-out {ℓ} :
    {A : Type ℓ} (b : List A) (i : ℕ) (v : A) → length b ≤ i → store b i v ≡ undefined
unfolding store
store-out b i v h = ground arith

-- The call ends normally, with a value for which `Post` holds.
pub data Returns {ℓ κ} {A : Type ℓ} (Post : A → Type κ) : Run A → Type (ℓ ⊔ κ) where
  returns : {a : A} → Post a → Returns Post (ok a)

pub Returns-inv {ℓ κ} :
    {A : Type ℓ} {Post : A → Type κ} {call : Run A}
    → Returns Post call
    → (a : A) × (call ≡ ok a) × Post a
Returns-inv (returns holds) = (_, refl, holds)

-- A test chooses between two calls.
pub Returns-if {ℓ κ} :
    {A : Type ℓ} {Post : A → Type κ} {yes_call no_call : Run A} (b : Bool)
    → (b ≡ true → Returns Post yes_call)
    → (b ≡ false → Returns Post no_call)
    → Returns Post (if b then yes_call else no_call)
Returns-if false chosen other = other refl
Returns-if true chosen other = chosen refl

-- A weaker condition, and a second call on the result of the first.
pub Returns-map {ℓ κ ι} :
    {A : Type ℓ} {Post : A → Type κ} {Weaker : A → Type ι} {call : Run A}
    → Returns Post call
    → ((a : A) → Post a → Weaker a)
    → Returns Weaker call
Returns-map (returns holds) weaken = returns (weaken _ holds)

pub Returns-bind {ℓ κ ι μ} :
    {A : Type ℓ} {B : Type ι} {Post : A → Type κ} {After : B → Type μ} {call : Run A}
    {rest : A → Run B}
    → Returns Post call
    → ((a : A) → Post a → Returns After (rest a))
    → Returns After (call >>= rest)
Returns-bind (returns holds) continue = continue _ holds
