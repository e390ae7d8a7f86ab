-- ===== src/Parsers/StorageUpdates.antt =====
-- parsers/storageUpdatesParser.go
pub mod RoundTrip
use k_vm_common_go.Prelude.{List, [], ◌∷◌, ◌++◌, Bytes, Outcome, ok, panic, ◌>>=◌, ◌>>◌}
use k_vm_common_go.Go.Hex.{encode_to_string}
use k_vm_common_go.Parsers.Errors.{ParseError}
use k_vm_common_go.Parsers.Tokens.{
  at_separator, tokenize, decode_token, trim_leading_separator_char, require_num_tokens_is_even,
}

-- The fields of `vmcommon.StorageUpdate` that the parser sets; its field `Data` is `payload`.
pub record StorageUpdate : Type 0 where
  pub offset : Bytes
  pub payload : Bytes

-- The loop, two tokens a round. `tokens[i+1]` is out of range where one token is left.
unfoldable pub read_updates : List Bytes → Outcome ParseError (List StorageUpdate)
read_updates [] = ok []
read_updates (token ∷ []) = do decode_token token; panic
read_updates (token ∷ next ∷ tokens) = do
  offset ← decode_token token
  value ← decode_token next
  updates ← read_updates tokens
  ok (record { offset = offset; payload = value } ∷ updates)

unfoldable pub get_storage_updates : Bytes → Outcome ParseError (List StorageUpdate)
unfolding read_updates trim_leading_separator_char require_num_tokens_is_even
get_storage_updates text = do
  tokens ← tokenize (trim_leading_separator_char text)
  require_num_tokens_is_even tokens
  read_updates tokens

abbrev pair_text : StorageUpdate → Bytes
pair_text u = encode_to_string u.offset ++ (at_separator ∷ encode_to_string u.payload)

-- A separator stands behind each update but the last.
unfoldable pub create_data_from_storage_update : List StorageUpdate → Bytes
create_data_from_storage_update [] = []
create_data_from_storage_update (u ∷ []) = pair_text u
create_data_from_storage_update (u ∷ v ∷ updates) =
    pair_text u ++ (at_separator ∷ create_data_from_storage_update (v ∷ updates))
