-- ===== src/Parsers/DeployArgs.antt =====
-- parsers/deployArgsParser.go
pub mod RoundTrip
use k_vm_common_go.Prelude.{
  ltb, if◌then◌else◌, List, [], ◌∷◌, Bytes, drop, length, Outcome, ok, err, ◌>>=◌, ◌>>◌, at, guard,
  from_option, not, Option,
}
use k_vm_common_go.CodeMetadata
use k_vm_common_go.CodeMetadata.{CodeMetadata}
use k_vm_common_go.Go.Hex.{decode_string}
use k_vm_common_go.Parsers.Errors.{
  ParseError, invalid_deploy_arguments, invalid_code, invalid_vm_type, invalid_code_metadata,
}
use k_vm_common_go.Parsers.Tokens.{
  tokenize, decode_token, decode_tokens, min_num_deploy_arguments, index_of_code, index_of_vm_type,
  index_of_code_metadata, start_index_of_constructor_arguments,
}

pub record DeployArgs : Type 0 where
  pub code : Bytes
  pub vm_type : Bytes
  pub code_metadata : CodeMetadata
  pub arguments : List Bytes

-- The error of `decodeToken` is replaced by `error`.
abbrev pub decode_or : ParseError → Bytes → Outcome ParseError Bytes
decode_or error token = from_option error (decode_string token)

unfoldable pub parse_code : List Bytes → Outcome ParseError Bytes
parse_code tokens = do code_hex ← at tokens index_of_code; decode_or invalid_code code_hex

abbrev require_not_empty : Bytes → Outcome ParseError (Unit {0})
require_not_empty [] = err invalid_vm_type
require_not_empty (c ∷ token) = ok tt

unfoldable pub parse_vm_type : List Bytes → Outcome ParseError Bytes
parse_vm_type tokens = do
  vm_type_hex ← at tokens index_of_vm_type
  require_not_empty vm_type_hex
  decode_or invalid_vm_type vm_type_hex

unfoldable pub parse_code_metadata : List Bytes → Outcome ParseError CodeMetadata
parse_code_metadata tokens = do
  code_metadata_hex ← at tokens index_of_code_metadata
  code_metadata_bytes ← decode_or invalid_code_metadata code_metadata_hex
  ok (CodeMetadata.from_bytes code_metadata_bytes)

unfoldable pub parse_arguments : List Bytes → Outcome ParseError (List Bytes)
parse_arguments tokens = decode_tokens (drop start_index_of_constructor_arguments tokens)

-- What `ParseData` does with the tokens.
unfoldable pub parse_tokens : List Bytes → Outcome ParseError DeployArgs
unfolding parse_code parse_vm_type parse_code_metadata parse_arguments
parse_tokens tokens = do
  guard (not (ltb (length tokens) min_num_deploy_arguments)) invalid_deploy_arguments
  code ← parse_code tokens
  vm_type ← parse_vm_type tokens
  code_metadata ← parse_code_metadata tokens
  arguments ← parse_arguments tokens
  ok (record {
    code = code;
    vm_type = vm_type;
    code_metadata = code_metadata;
    arguments = arguments;
  })

unfoldable pub parse_data : Bytes → Outcome ParseError DeployArgs
unfolding parse_tokens
parse_data text = do tokens ← tokenize text; parse_tokens tokens
