-- ===== src/TokenId.antt =====
-- common.go: `ValidateToken`. A token's identifier is a ticker, a dash and six random characters.
pub mod Format
use k_vm_common_go.Prelude.{
  ℕ, ◌+◌, ◌-◌, ltb, leb, ◌==◌, if◌then◌else◌, Bool, true, false, not, ◌&&◌, ◌||◌, List, [], ◌∷◌,
  Bytes, length, take, drop, get_elem?, Option, none, some,
}
use k_vm_common_go.Prelude.Int.{ℤ, pos}

abbrev pub ticker_min_length : ℕ
ticker_min_length = 3

abbrev pub ticker_max_length : ℕ
ticker_max_length = 10

abbrev pub additional_random_chars_length : ℕ
additional_random_chars_length = 6

abbrev pub identifier_min_length : ℕ
identifier_min_length = ticker_min_length + additional_random_chars_length + 1

abbrev pub identifier_max_length : ℕ
identifier_max_length = ticker_max_length + additional_random_chars_length + 1

abbrev pub is_ticker_char : ℕ → Bool
is_ticker_char ch = (leb b'A' ch && leb ch b'Z') || (leb b'0' ch && leb ch b'9')

abbrev pub is_random_char : ℕ → Bool
is_random_char ch = (leb b'a' ch && leb ch b'f') || (leb b'0' ch && leb ch b'9')

-- The loops over the characters: the first one that is not readable ends them.
unfoldable pub all_readable : (ℕ → Bool) → Bytes → Bool
all_readable readable [] = true
all_readable readable (ch ∷ chars) =
    if not (readable ch) then false else all_readable readable chars

unfoldable pub is_ticker_valid : Bytes → Bool
is_ticker_valid ticker =
    if ltb (length ticker) ticker_min_length || ltb ticker_max_length (length ticker)
    then false
    else all_readable is_ticker_char ticker

unfoldable pub random_chars_are_valid : Bytes → Bool
random_chars_are_valid chars =
    if not (length chars == additional_random_chars_length)
    then false
    else all_readable is_random_char chars

abbrev is_dash : Option ℕ → Bool
is_dash none = false
is_dash (some ch) = ch == b'-'

-- The indices are in range behind the test of the length.
unfoldable pub validate_token : Bytes → Bool
validate_token token_id =
    let token_id_len = length token_id in
    let ticker_len = token_id_len - additional_random_chars_length in
    if ltb token_id_len identifier_min_length || ltb identifier_max_length token_id_len
    then false
    else if not (is_ticker_valid (take (ticker_len - 1) token_id))
    then false
    else if not (is_dash (get_elem? token_id (ticker_len - 1)))
    then false
    else if not (random_chars_are_valid (drop ticker_len token_id))
    then false
    else true

-- A nil `*big.Int` is `none`.
unfoldable pub zero_value_if_nil : Option ℤ → ℤ
zero_value_if_nil none = pos 0
zero_value_if_nil (some value) = value
