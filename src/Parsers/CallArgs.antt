-- ===== src/Parsers/CallArgs.antt =====
-- parsers/callArgsParser.go
pub mod RoundTrip
use k_vm_common_go.Prelude.{
  ltb, if◌then◌else◌, List, ◌∷◌, drop, length, Bytes, Outcome, ok, err, ◌>>=◌, at,
}
use k_vm_common_go.Go.Text.{split}
use k_vm_common_go.Parsers.Errors.{ParseError, nil_function}
use k_vm_common_go.Parsers.Tokens.{
  at_separator, min_num_call_arguments, index_of_function, tokenize, decode_tokens,
}

unfoldable pub parse_function : List Bytes → Outcome ParseError Bytes
parse_function tokens =
    if ltb (length tokens) min_num_call_arguments
    then err nil_function
    else at tokens index_of_function

unfoldable pub parse_arguments_of : List Bytes → Outcome ParseError (List Bytes)
parse_arguments_of tokens = decode_tokens (drop min_num_call_arguments tokens)

unfoldable pub parse_data : Bytes → Outcome ParseError (Bytes × List Bytes)
unfolding parse_function parse_arguments_of
parse_data text = do
  tokens ← tokenize text
  function ← parse_function tokens
  arguments ← parse_arguments_of tokens
  ok (function, arguments)

unfoldable pub parse_arguments : Bytes → Outcome ParseError (List Bytes)
unfolding parse_arguments_of
parse_arguments text = do
  let tokens = split at_separator text
  first ← at tokens 0
  parsed_args ← parse_arguments_of tokens
  ok (first ∷ parsed_args)
