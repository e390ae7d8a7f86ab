-- ===== src/Parsers/Tokens.antt =====
-- parsers/tokenize.go and parsers/constants.go.
pub mod Encoded
pub mod Spelling
use k_vm_common_go.Prelude.{
  ℕ, suc, zero, ◌%◌, ◌==◌, if◌then◌else◌, List, [], ◌∷◌, length, Bytes, Outcome, ok, err, ◌>>=◌,
  from_option,
}
use k_vm_common_go.Go.Hex.{decode_string}
use k_vm_common_go.Go.Text.{split}
use k_vm_common_go.Parsers.Errors.{ParseError, tokenize_failed, invalid_data_string}

-- Both `atSeparator` and `atSeparatorChar`.
abbrev pub at_separator : ℕ
at_separator = b'@'

abbrev pub min_num_call_arguments : ℕ
min_num_call_arguments = 1

abbrev pub min_num_deploy_arguments : ℕ
min_num_deploy_arguments = 3

abbrev pub start_index_of_constructor_arguments : ℕ
start_index_of_constructor_arguments = 3

abbrev pub index_of_code : ℕ
index_of_code = 0

abbrev pub index_of_vm_type : ℕ
index_of_vm_type = 1

abbrev pub index_of_code_metadata : ℕ
index_of_code_metadata = 2

abbrev pub index_of_function : ℕ
index_of_function = 0

-- No tokens, or an empty first token, is an error.
unfoldable pub check_tokens : List Bytes → Outcome ParseError (List Bytes)
check_tokens [] = err tokenize_failed
check_tokens ([] ∷ tokens) = err tokenize_failed
check_tokens ((c ∷ token) ∷ tokens) = ok ((c ∷ token) ∷ tokens)

unfoldable pub tokenize : Bytes → Outcome ParseError (List Bytes)
unfolding check_tokens
tokenize text = check_tokens (split at_separator text)

unfoldable pub decode_token : Bytes → Outcome ParseError Bytes
decode_token token = from_option tokenize_failed (decode_string token)

unfoldable pub trim_leading_separator_char : Bytes → Bytes
trim_leading_separator_char [] = []
trim_leading_separator_char (c ∷ text) = if c == at_separator then text else c ∷ text

unfoldable pub require_num_tokens_is_even : List Bytes → Outcome ParseError (Unit {0})
require_num_tokens_is_even tokens =
    if length tokens % 2 == 0 then ok tt else err invalid_data_string

-- The loop of both `parseArguments`, over the tokens from its first index on.
unfoldable pub decode_tokens : List Bytes → Outcome ParseError (List Bytes)
decode_tokens [] = ok []
decode_tokens (token ∷ tokens) = do
  argument ← decode_token token
  arguments ← decode_tokens tokens
  ok (argument ∷ arguments)
