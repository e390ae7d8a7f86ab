-- ===== src/BuiltIn/Balance.antt =====
-- The balance of a token in an account: from builtInFunctions/dctTransfer.go, `addToDCTBalance` and
-- what it calls.
pub mod Laws
use k_vm_common_go.Prelude.{
  ℕ, ◌==◌, if◌then◌else◌, not, ◌&&◌, Bool, true, false, Option, none, some, List, [], ◌∷◌, ◌++◌,
  Bytes, bytes_equal, Outcome, ok, err, panic, ◌>>=◌, ◌>>◌, guard, or_panic,
}
use k_vm_common_go.Prelude.Int.{ℤ, pos, ◌+ℤ◌}
use k_vm_common_go.Core.{Core}
use k_vm_common_go.BuiltIn.Errors.{
  BuiltInError, only_fungible_tokens_have_balance_transfer, insufficient_funds,
  dct_is_frozen_for_account, dct_token_is_paused,
}
use k_vm_common_go.BuiltIn.Host.{Host, DcToken, Reply, answer, failure, lift}
use k_vm_common_go.BuiltIn.Calls.{is_zero, is_negative}
use k_vm_common_go.BuiltIn.Metadata.{user_from_bytes}
use k_vm_common_go.BuiltIn.GlobalSettings.{is_paused}

unfoldable pub are_properties_empty : Bytes → Bool
are_properties_empty [] = true
are_properties_empty (property ∷ properties) =
    if not (property == 0) then false else are_properties_empty properties

module _ (h : Host) (core : Core) where
  abbrev pub Token : Type 0
  Token = DcToken

  -- &dct.DCToken{Value: big.NewInt(0), Type: uint32(core.Fungible)}
  abbrev pub new_token : Token
  new_token = record {
    token_type = core.fungible;
    value = some (pos 0);
    properties = [];
    token_meta_data = none;
    reserved = [];
  }

  -- An error of the data trie counts as an account without the token.
  abbrev pub token_of_reply : Reply Bytes → Outcome BuiltInError Token
  token_of_reply (failure e) = ok new_token
  token_of_reply (answer []) = ok new_token
  token_of_reply (answer (b ∷ s)) = lift (h.unmarshal_token new_token (b ∷ s))

  unfoldable pub get_dct_data_from_key : h.World → h.Account → Bytes → Outcome BuiltInError Token
  get_dct_data_from_key w acnt key = token_of_reply (h.retrieve_value w acnt key)

  -- `Cmp` dereferences a nil value. Nothing is kept of a token without value and properties.
  unfoldable pub save_dct_data : h.World → h.Account → Token → Bytes → Outcome BuiltInError h.World
  save_dct_data w acnt token key = do
    value ← or_panic token.value
    if is_zero value && are_properties_empty token.properties
        then lift (h.save_key_value w acnt key [])
        else (do
          marshaled ← lift (h.marshal_token token)
          lift (h.save_key_value w acnt key marshaled))

  unfoldable pub check_froze_and_pause :
      h.World → Bytes → Bytes → Token → Bool → Outcome BuiltInError (Unit {0})
  check_froze_and_pause w sender key token is_return_with_error =
      if is_return_with_error
      then ok tt
      else if bytes_equal sender core.dct_sc_address
      then ok tt
      else if (user_from_bytes token.properties).frozen
      then err dct_is_frozen_for_account
      else if is_paused h w key
      then err dct_token_is_paused
      else ok tt

  unfoldable pub add_to_dct_balance :
      h.World → h.Account → Bytes → ℤ → Bool → Outcome BuiltInError h.World
  add_to_dct_balance w acnt key value is_return_with_error = do
    token ← get_dct_data_from_key w acnt key
    guard (token.token_type == core.fungible) only_fungible_tokens_have_balance_transfer
    check_froze_and_pause w (h.address_bytes acnt) key token is_return_with_error
    old ← or_panic token.value
    guard (not (is_negative (old +ℤ value))) insufficient_funds
    save_dct_data w acnt (record token { value = some (old +ℤ value) }) key
