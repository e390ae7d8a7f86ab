-- ===== src/TokenId/Format.antt =====
-- `ValidateToken` against a description of the identifiers that it accepts.
use k_vm_common_go.Prelude.{
  ℕ, zero, suc, ◌+◌, ◌-◌, ◌≤◌, ◌≡◌, ◌↔◌, ◌⊎◌, refl, sym, ap, ◌∙◌, arith, Bool, true, List, [], ◌∷◌,
  ◌++◌, Bytes, length, length-append, take, drop, get_elem?, some, none, Option, All,
  take-append_length, drop-append_second, take-append-drop, le→not_ltb,
}
use k_vm_common_go.TokenId.{
  is_ticker_char, is_random_char, all_readable, is_ticker_valid, random_chars_are_valid, is_dash,
  validate_token,
}

-- A byte from A to Z, or a digit.
abbrev pub IsCapitalOrDigit : ℕ → Type 0
IsCapitalOrDigit ch = ((65 ≤ ch) × (ch ≤ 90)) ⊎ ((48 ≤ ch) × (ch ≤ 57))

-- A digit of a hexadecimal number in lower case: a byte from a to f, or a digit.
abbrev pub IsHexDigit : ℕ → Type 0
IsHexDigit ch = ((97 ≤ ch) × (ch ≤ 102)) ⊎ ((48 ≤ ch) × (ch ≤ 57))

-- `ticker`, a dash, `random`.
pub record IsTokenId (token_id : Bytes) : Type 0 where
  pub ticker : Bytes
  pub random : Bytes
  pub spelled : token_id ≡ ticker ++ (b'-' ∷ random)
  pub ticker_min : 3 ≤ length ticker
  pub ticker_max : length ticker ≤ 10
  pub ticker_chars : All IsCapitalOrDigit ticker
  pub random_length : length random ≡ 6
  pub random_chars : All IsHexDigit random

All-map : (P Q : ℕ → Type 0) (s : Bytes) → ((ch : ℕ) → P ch → Q ch) → All P s → All Q s
All-map P Q [] f h = tt
All-map P Q (ch ∷ s) f (p, h) = (f ch p, All-map P Q s f h)

ticker_char_sound : (ch : ℕ) → is_ticker_char ch ≡ true → IsCapitalOrDigit ch
ticker_char_sound ch e = ground arith

ticker_char_complete : (ch : ℕ) → IsCapitalOrDigit ch → is_ticker_char ch ≡ true
ticker_char_complete ch h = ground arith

random_char_sound : (ch : ℕ) → is_random_char ch ≡ true → IsHexDigit ch
random_char_sound ch e = ground arith

random_char_complete : (ch : ℕ) → IsHexDigit ch → is_random_char ch ≡ true
random_char_complete ch h = ground arith

all_readable_sound :
    (readable : ℕ → Bool) (s : Bytes)
    → all_readable readable s ≡ true
    → All (λ ch. readable ch ≡ true) s
unfolding all_readable
all_readable_sound readable [] e = tt
all_readable_sound readable (ch ∷ s) e =
    (ground arith, all_readable_sound readable s (ground arith))

all_readable_complete :
    (readable : ℕ → Bool) (s : Bytes)
    → All (λ ch. readable ch ≡ true) s
    → all_readable readable s ≡ true
unfolding all_readable
all_readable_complete readable [] h = refl
all_readable_complete readable (ch ∷ s) (e, h) = ground (arith, all_readable_complete readable s h)

get_elem?-append_length {ℓ} :
    {A : Type ℓ} (xs : List A) (y : A) (ys : List A)
    → get_elem? (xs ++ (y ∷ ys)) (length xs) ≡ some y
get_elem?-append_length [] y ys = refl
get_elem?-append_length (x ∷ xs) y ys = get_elem?-append_length xs y ys

drop_at {ℓ} :
    {A : Type ℓ} (i : ℕ) (xs : List A) (y : A)
    → get_elem? xs i ≡ some y
    → drop i xs ≡ y ∷ drop (suc i) xs
drop_at zero [] y e = cc
drop_at zero (x ∷ xs) y e = ground arith
drop_at (suc i) [] y e = cc
drop_at (suc i) (x ∷ xs) y e = drop_at i xs y e

is_dash_sound : (o : Option ℕ) → is_dash o ≡ true → o ≡ some b'-'
is_dash_sound none e = cc
is_dash_sound (some ch) e = ground arith

ticker_sound :
    (t : Bytes)
    → is_ticker_valid t ≡ true
    → (3 ≤ length t) × (length t ≤ 10) × All (λ ch. is_ticker_char ch ≡ true) t
unfolding is_ticker_valid
ticker_sound t e = (ground arith, ground arith, all_readable_sound is_ticker_char t (ground arith))

random_sound :
    (r : Bytes)
    → random_chars_are_valid r ≡ true
    → (length r ≡ 6) × All (λ ch. is_random_char ch ≡ true) r
unfolding random_chars_are_valid
random_sound r e = (ground arith, all_readable_sound is_random_char r (ground arith))

validate_token_sound : (token_id : Bytes) → validate_token token_id ≡ true → IsTokenId token_id
unfolding validate_token
validate_token_sound token_id e =
    let k = length token_id - 6 - 1 in
    let long : 10 ≤ length token_id = ground arith in
    let next : length token_id - 6 ≡ suc k = omega arith in
    let (low, high, chars) = ticker_sound (take k token_id) (ground arith) in
    let dash = is_dash_sound (get_elem? token_id k) (ground arith) in
    let (size, hex) = random_sound (drop (suc k) token_id) (ground arith) in
    record {
      ticker = take k token_id;
      random = drop (suc k) token_id;
      spelled =
          sym (take-append-drop k token_id)
          ∙ ap (λ l. take k token_id ++ l) (drop_at k token_id b'-' dash);
      ticker_min = low;
      ticker_max = high;
      ticker_chars = All-map _ IsCapitalOrDigit (take k token_id) ticker_char_sound chars;
      random_length = size;
      random_chars = All-map _ IsHexDigit (drop (suc k) token_id) random_char_sound hex;
    }

ticker_complete :
    (t : Bytes)
    → 3 ≤ length t
    → length t ≤ 10
    → All (λ ch. is_ticker_char ch ≡ true) t
    → is_ticker_valid t ≡ true
unfolding is_ticker_valid
ticker_complete t low high h =
    let chars = all_readable_complete is_ticker_char t h in
    rw (le→not_ltb (length t) 3 low, le→not_ltb 10 (length t) high) chars

random_complete :
    (r : Bytes)
    → length r ≡ 6
    → All (λ ch. is_random_char ch ≡ true) r
    → random_chars_are_valid r ≡ true
unfolding random_chars_are_valid
random_complete r size h = rw size (all_readable_complete is_random_char r h)

validate_token-parts :
    (t r : Bytes)
    → 3 ≤ length t
    → length t ≤ 10
    → is_ticker_valid t ≡ true
    → length r ≡ 6
    → random_chars_are_valid r ≡ true
    → validate_token (t ++ (b'-' ∷ r)) ≡ true
unfolding validate_token
validate_token-parts t r low high ticker size random =
    let n = length-append t (b'-' ∷ r) in
    let len : length (t ++ (b'-' ∷ r)) ≡ length t + 7 = omega arith in
    let k : length t + 7 - 6 - 1 ≡ length t = omega arith in
    let next : length t + 7 - 6 ≡ suc (length t) = omega arith in
    rw (
      len,
      k,
      next,
      le→not_ltb (length t + 7) 10 (omega arith),
      le→not_ltb 17 (length t + 7) (omega arith),
      take-append_length t (b'-' ∷ r),
      ticker,
      get_elem?-append_length t b'-' r,
      drop-append_second t b'-' r (suc (length t)) refl,
      random,
    )

validate_token_complete : (token_id : Bytes) → IsTokenId token_id → validate_token token_id ≡ true
validate_token_complete token_id h = rw h.spelled (
    validate_token-parts h.ticker h.random h.ticker_min h.ticker_max
      (ticker_complete h.ticker h.ticker_min h.ticker_max
        (All-map IsCapitalOrDigit _ h.ticker ticker_char_complete h.ticker_chars))
      h.random_length
      (random_complete h.random h.random_length
        (All-map IsHexDigit _ h.random random_char_complete h.random_chars)))

-- The test accepts exactly the identifiers that are a ticker of three to ten characters from A to Z
-- and 0 to 9, a dash, and six characters from a to f and 0 to 9.
pub validate_token_iff : (token_id : Bytes) → (validate_token token_id ≡ true) ↔ IsTokenId token_id
validate_token_iff token_id = (validate_token_sound token_id, validate_token_complete token_id)
