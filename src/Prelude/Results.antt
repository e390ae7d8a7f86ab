-- ===== src/Prelude/Results.antt =====
-- What a Go function of result type `(A, error)` does: it returns a value, returns an error, or
-- panics (an index out of range, a `make` of an impossible size).
use Prim.Native.Nat.{ℕ, ◌<◌, zero, suc}
use mathlib.Core.Path.{◌≡◌, refl}
use mathlib.Core.Logic.{◌≢◌, ◌⊎◌, inl, inr}
use mathlib.Core.Bool.{Bool, true, false}
use mathlib.Core.List.{List, [], ◌∷◌, ◌++◌}
use mathlib.Core.Option.{Option, none, some}
use native.Mathlib.Omega.{arith}
use k_vm_common_go.Prelude.Lists.{length, get_elem?}
use k_vm_common_go.Prelude.Tests.{if◌then◌else◌}

pub data Outcome {ℓ κ} (E : Type ℓ) (A : Type κ) : Type (ℓ ⊔ κ) where
  ok : A → Outcome E A
  err : E → Outcome E A
  panic : Outcome E A

-- A step that panics or fails ends the chain.
infixl 5 ◌>>=◌ ◌>>◌
abbrev pub ◌>>=◌ {ℓ κ μ} :
    {E : Type ℓ} {A : Type κ} {B : Type μ} → Outcome E A → (A → Outcome E B) → Outcome E B
panic >>= next = panic
err error >>= next = err error
ok value >>= next = next value

abbrev pub ◌>>◌ {ℓ κ μ} :
    {E : Type ℓ} {A : Type κ} {B : Type μ} → Outcome E A → Outcome E B → Outcome E B
first >> second = first >>= λ _. second

-- A chain that succeeds: its first step did, and the rest did on its value.
pub >>=-eq-ok {ℓ κ μ} :
    {E : Type ℓ} {A : Type κ} {B : Type μ} (first : Outcome E A) (next : A → Outcome E B) {last : B}
    → (first >>= next) ≡ ok last
    → (value : A) × (first ≡ ok value) × (next value ≡ ok last)
>>=-eq-ok panic next done = cc
>>=-eq-ok (err error) next done = cc
>>=-eq-ok (ok value) next done = (value, refl, done)

-- What an `if test { return err }` does.
abbrev pub guard {ℓ} : {E : Type ℓ} → Bool → E → Outcome E (Unit {0})
guard true e = ok tt
guard false e = err e

abbrev pub from_option {ℓ κ} : {E : Type ℓ} {A : Type κ} → E → Option A → Outcome E A
from_option e none = err e
from_option e (some a) = ok a

abbrev pub or_panic {ℓ κ} : {E : Type ℓ} {A : Type κ} → Option A → Outcome E A
or_panic none = panic
or_panic (some a) = ok a

-- xs[i]
abbrev pub at {ℓ κ} : {E : Type ℓ} {A : Type κ} → List A → ℕ → Outcome E A
at xs i = or_panic (get_elem? xs i)

pub at-ne-panic {ℓ κ} :
    {E : Type ℓ} {A : Type κ} (xs : List A) (i : ℕ) → i < length xs → at {E = E} xs i ≢ panic
at-ne-panic [] i h e = absurd (omega arith)
at-ne-panic (x ∷ xs) zero h e = cc
at-ne-panic (x ∷ xs) (suc i) h e = at-ne-panic xs i (omega arith) e

-- A chain panics only where one of its steps does.
pub >>=-ne-panic {ℓ κ μ} :
    {E : Type ℓ} {A : Type κ} {B : Type μ} (m : Outcome E A) (f : A → Outcome E B)
    → m ≢ panic
    → ((a : A) → m ≡ ok a → f a ≢ panic)
    → (m >>= f) ≢ panic
>>=-ne-panic (ok a) f h k = k a refl
>>=-ne-panic (err e) f h k = λ p. cc
>>=-ne-panic panic f h k = λ p. h refl

pub at-append {ℓ κ} :
    {E : Type ℓ} {A : Type κ} (xs : List A) (y : A) (ys : List A) (i : ℕ)
    → i ≡ length xs
    → at {E = E} (xs ++ (y ∷ ys)) i ≡ ok y
at-append [] y ys zero h = refl
at-append [] y ys (suc i) h = absurd (omega arith)
at-append (x ∷ xs) y ys zero h = absurd (omega arith)
at-append (x ∷ xs) y ys (suc i) h = at-append xs y ys i (omega arith)

pub at-append_second {ℓ κ} :
    {E : Type ℓ} {A : Type κ} (xs : List A) (y z : A) (zs : List A) (i : ℕ)
    → i ≡ suc (length xs)
    → at {E = E} (xs ++ (y ∷ z ∷ zs)) i ≡ ok z
at-append_second [] y z zs zero h = absurd (omega arith)
at-append_second [] y z zs (suc zero) h = refl
at-append_second [] y z zs (suc (suc i)) h = absurd (omega arith)
at-append_second (x ∷ xs) y z zs zero h = absurd (omega arith)
at-append_second (x ∷ xs) y z zs (suc i) h = at-append_second xs y z zs i (omega arith)

pub at-append_third {ℓ κ} :
    {E : Type ℓ} {A : Type κ} (xs : List A) (x y z : A) (zs : List A) (i : ℕ)
    → i ≡ suc (suc (length xs))
    → at {E = E} (xs ++ (x ∷ y ∷ z ∷ zs)) i ≡ ok z
at-append_third [] x y z zs zero h = absurd (omega arith)
at-append_third [] x y z zs (suc i) h = at-append_second [] y z zs i (omega arith)
at-append_third (w ∷ xs) x y z zs zero h = absurd (omega arith)
at-append_third (w ∷ xs) x y z zs (suc i) h = at-append_third xs x y z zs i (omega arith)

pub at_in_range {ℓ κ} :
    {E : Type ℓ} {A : Type κ} (xs : List A) (i : ℕ)
    → i < length xs
    → (x : A) × (at {E = E} xs i ≡ ok x)
at_in_range [] i h = absurd (omega arith)
at_in_range (x ∷ xs) zero h = (x, refl)
at_in_range (x ∷ xs) (suc i) h = at_in_range xs i (omega arith)

-- The same for a goal of any type: what follows is proved for a value that the step returned.
pub after_ok {ℓ κ μ ν} :
    {E : Type ℓ} {A : Type κ} {B : Type μ} {C : Type ν} (m : Outcome E A) (f : A → Outcome E B)
    {b : B}
    → (m >>= f) ≡ ok b
    → ((a : A) → m ≡ ok a → f a ≡ ok b → C)
    → C
after_ok (ok a) f h k = k a refl h
after_ok (err e) f h k = absurd (cc)
after_ok panic f h k = absurd (cc)

pub or_panic-eq-ok {ℓ κ} :
    {E : Type ℓ} {A : Type κ} (o : Option A) {a : A} → or_panic {E = E} o ≡ ok a → o ≡ some a
or_panic-eq-ok none h = cc
or_panic-eq-ok (some b) h = cc

-- A bind panics where its first step does, or what follows the value of that step.
pub >>=-eq-panic {ℓ κ μ} :
    {E : Type ℓ} {A : Type κ} {B : Type μ} (m : Outcome E A) (f : A → Outcome E B)
    → (m >>= f) ≡ panic
    → (m ≡ panic) ⊎ ((a : A) × (m ≡ ok a) × (f a ≡ panic))
>>=-eq-panic (ok a) f h = inr (a, refl, h)
>>=-eq-panic (err e) f h = absurd (cc)
>>=-eq-panic panic f h = inl refl

-- The same where the first step does not panic.
pub after_panic {ℓ κ μ ν} :
    {E : Type ℓ} {A : Type κ} {B : Type μ} {C : Type ν} (m : Outcome E A) (f : A → Outcome E B)
    → m ≢ panic
    → (m >>= f) ≡ panic
    → ((a : A) → m ≡ ok a → f a ≡ panic → C)
    → C
after_panic m f total h k = elim (>>=-eq-panic m f h) [
  | inl e ↦ absurd (total e)
  | inr (a, e, next) ↦ k a e next
]

-- Both branches of a test that gave the result.
pub after_if {ℓ κ} :
    {A : Type ℓ} {B : Type κ} (b : Bool) (x y : A) {r : A}
    → (if b then x else y) ≡ r
    → (b ≡ true → x ≡ r → B)
    → (b ≡ false → y ≡ r → B)
    → B
after_if true x y e f g = f refl e
after_if false x y e f g = g refl e
