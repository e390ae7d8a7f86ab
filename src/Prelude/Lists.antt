-- ===== src/Prelude/Lists.antt =====
-- Lists measured and indexed by native numbers, and byte strings: a Go `[]byte` or `string` is the
-- list of its bytes.
use Prim.Native.Nat.{ℕ, zero, suc, ◌+◌, ◌<◌}
use Prim.Native.Char.{code}
use Prim.Native.String.{String}
use mathlib.Core.Path.{◌≡◌, refl, ap, sym, ◌∙◌}
use mathlib.Core.Logic.{◌↔◌, ◌≢◌, inl, inr}
use mathlib.Core.Bool.{Bool, true, false, ◌&&◌}
use mathlib.Core.List.{List, [], ◌∷◌, ◌++◌}
use mathlib.Core.Option.{Option, none, some}
use native.Mathlib.Omega.{arith}
use k_vm_common_go.Prelude.Tests.{◌==◌, Bool-cases}

module _ {ℓ} {A : Type ℓ} where
  abbrev pub length : List A → ℕ
  length [] = 0
  length (x ∷ xs) = suc (length xs)

  abbrev pub get_elem? : List A → ℕ → Option A
  get_elem? [] i = none
  get_elem? (x ∷ xs) zero = some x
  get_elem? (x ∷ xs) (suc i) = get_elem? xs i

  abbrev pub take : ℕ → List A → List A
  take zero xs = []
  take (suc n) [] = []
  take (suc n) (x ∷ xs) = x ∷ take n xs

  abbrev pub drop : ℕ → List A → List A
  drop zero xs = xs
  drop (suc n) [] = []
  drop (suc n) (x ∷ xs) = drop n xs

  abbrev pub replicate : ℕ → A → List A
  replicate zero a = []
  replicate (suc n) a = a ∷ replicate n a

  pub length-append : (xs ys : List A) → length (xs ++ ys) ≡ length xs + length ys
  length-append [] ys = omega arith
  length-append (x ∷ xs) ys = omega (arith, length-append xs ys)

  pub length_pos : (xs : List A) → xs ≢ [] → 0 < length xs
  length_pos [] h = absurd (h refl)
  length_pos (x ∷ xs) h = omega arith

  pub take-append_length : (xs ys : List A) → take (length xs) (xs ++ ys) ≡ xs
  take-append_length [] ys = refl
  take-append_length (x ∷ xs) ys = ap (λ l. x ∷ l) (take-append_length xs ys)

  pub drop-append_length : (xs ys : List A) → drop (length xs) (xs ++ ys) ≡ ys
  drop-append_length [] ys = refl
  drop-append_length (x ∷ xs) ys = drop-append_length xs ys

module _ {ℓ κ} {A : Type ℓ} (P : A → Type κ) where
  abbrev pub All : List A → Type κ
  All [] = Unit {κ}
  All (x ∷ xs) = P x × All xs

  pub All-append : (xs ys : List A) → All xs → All ys → All (xs ++ ys)
  All-append [] ys _ h = h
  All-append (x ∷ xs) ys (p, hx) h = (p, All-append xs ys hx h)

abbrev pub Bytes : Type 0
Bytes = List ℕ

-- Each element is a `byte`.
abbrev pub AreBytes : Bytes → Type 0
AreBytes = All (λ b. b < 256)

-- The bytes of an ASCII literal.
abbrev pub ascii : String → Bytes
ascii String.[] = []
ascii (String.◌∷◌ c s) = code c ∷ ascii s

-- bytes.Equal, and `==` on strings.
abbrev pub bytes_equal : Bytes → Bytes → Bool
bytes_equal [] [] = true
bytes_equal [] (b ∷ t) = false
bytes_equal (a ∷ s) [] = false
bytes_equal (a ∷ s) (b ∷ t) = (a == b) && bytes_equal s t

pub bytes_equal→eq : (s t : Bytes) → bytes_equal s t ≡ true → s ≡ t
bytes_equal→eq [] [] h = refl
bytes_equal→eq [] (b ∷ t) h = cc
bytes_equal→eq (a ∷ s) [] h = cc
bytes_equal→eq (a ∷ s) (b ∷ t) h = ground (arith, bytes_equal→eq s t)

pub bytes_equal_refl : (s : Bytes) → bytes_equal s s ≡ true
bytes_equal_refl [] = refl
bytes_equal_refl (a ∷ s) = ground (arith, bytes_equal_refl s)

pub eq→bytes_equal : (s t : Bytes) → s ≡ t → bytes_equal s t ≡ true
eq→bytes_equal s t e = rw (← e) (bytes_equal_refl s)

pub bytes_equal_iff : (s t : Bytes) → (bytes_equal s t ≡ true) ↔ (s ≡ t)
bytes_equal_iff s t = (bytes_equal→eq s t, eq→bytes_equal s t)

pub drop-append_second {ℓ} :
    {A : Type ℓ} (xs : List A) (y : A) (ys : List A) (i : ℕ)
    → i ≡ suc (length xs)
    → drop i (xs ++ (y ∷ ys)) ≡ ys
drop-append_second [] y ys zero h = absurd (omega arith)
drop-append_second [] y ys (suc zero) h = refl
drop-append_second [] y ys (suc (suc i)) h = absurd (omega arith)
drop-append_second (x ∷ xs) y ys zero h = absurd (omega arith)
drop-append_second (x ∷ xs) y ys (suc i) h = drop-append_second xs y ys i (omega arith)

pub ne→bytes_equal : (s t : Bytes) → s ≢ t → bytes_equal s t ≡ false
ne→bytes_equal s t h = elim (Bool-cases (bytes_equal s t)) [
  | inl e ↦ absurd (h (bytes_equal→eq s t e))
  | inr e ↦ e
]

pub take-append-drop {ℓ} : {A : Type ℓ} (n : ℕ) (xs : List A) → take n xs ++ drop n xs ≡ xs
take-append-drop zero xs = refl
take-append-drop (suc n) [] = refl
take-append-drop (suc n) (x ∷ xs) = ap (λ l. x ∷ l) (take-append-drop n xs)

-- A text starts with `p` exactly if its first bytes, as many as `p` has, are `p`.
pub starts_with_iff :
    (p s : Bytes) → (bytes_equal (take (length p) s) p ≡ true) ↔ ((rest : Bytes) × (s ≡ p ++ rest))
starts_with_iff p s = (
  λ e. (
    drop (length p) s,
    sym (take-append-drop (length p) s)
        ∙ ap (λ l. l ++ drop (length p) s) (bytes_equal→eq (take (length p) s) p e),
  ),
  λ (rest, e). rw (e, take-append_length p rest) (bytes_equal_refl p),
)

pub bytes_equal-swap : (s t : Bytes) → bytes_equal s t ≡ false → bytes_equal t s ≡ false
bytes_equal-swap s t e = elim (Bool-cases (bytes_equal t s)) [
  | inl same ↦ let again = eq→bytes_equal s t (sym (bytes_equal→eq t s same)) in absurd (cc)
  | inr other ↦ other
]
