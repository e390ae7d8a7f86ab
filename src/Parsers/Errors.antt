-- ===== src/Parsers/Errors.antt =====
-- parsers/errors.go. `external` is an error that came from a component outside the repository and
-- that the parser returns as it is; it holds the error's message.
use k_vm_common_go.Prelude.{Bytes}

pub data ParseError : Type 0 where
  tokenize_failed invalid_deploy_arguments nil_function invalid_data_string : ParseError
  invalid_vm_type invalid_code invalid_code_metadata : ParseError
  not_dct_transfer_input not_enough_arguments nil_marshalizer : ParseError
  external : Bytes → ParseError
