-- ===== src/BuiltIn/FreezeWipe.antt =====
-- builtInFunctions/dctFreezeWipe.go: the system contract freezes a token of an account, takes the
-- freezing back, or wipes a frozen token.
pub mod Frozen
use k_vm_common_go.Prelude.{
  ℕ, ◌==◌, if◌then◌else◌, not, Bool, true, false, Option, none, some, List, [], ◌∷◌, Bytes, length,
  bytes_equal, Outcome, ok, err, panic, ◌>>=◌, ◌>>◌, guard, at, or_panic,
}
use k_vm_common_go.Prelude.Int.{ℤ, pos, neg}
use k_vm_common_go.Core.{Core}
use k_vm_common_go.BuiltIn.Errors.{
  BuiltInError, built_in_function_called_with_value, invalid_arguments,
  address_is_not_dct_system_sc, nil_user_account, cannot_wipe_account_not_frozen,
}
use k_vm_common_go.BuiltIn.Epochs.{EnableEpochs}
use k_vm_common_go.TokenId.{zero_value_if_nil}
use k_vm_common_go.BuiltIn.Host.{Host, DcToken, lift}
use k_vm_common_go.BuiltIn.Calls.{
  ContractCallInput, VmOutput, output_with_gas, add_dct_entry_in_vm_output, input_or_error,
  account_or_error, is_zero,
}
use k_vm_common_go.BuiltIn.Metadata.{DctUserMetadata, user_from_bytes, user_to_bytes}
use k_vm_common_go.BuiltIn.GlobalSettings.{token_key}
use k_vm_common_go.BuiltIn.Balance.{get_dct_data_from_key, save_dct_data}
use k_vm_common_go.BuiltIn.WipeId.{extract_token_identifier_and_nonce_dct_wipe}
use k_vm_common_go.BuiltIn.TokenStorage.System.{add_to_liquidity_system_acc}

-- The fields of dctFreezeWipe that the calls read.
pub record DctFreezeWipe : Type 0 where
  pub wipe : Bool
  pub freeze : Bool

module _ (h : Host) (core : Core) (epochs : EnableEpochs) where
  -- `Neg` dereferences a nil value.
  unfoldable pub remove_liquidity : h.World → Bytes → ℕ → Option ℤ → Outcome BuiltInError h.World
  remove_liquidity w token_identifier nonce value =
      if not epochs.is_wipe_single_nft_liquidity_decrease then ok w else (do
        v ← or_panic value
        add_to_liquidity_system_acc h core epochs w (token_key core token_identifier) nonce (neg v))

  unfoldable pub wipe_if_applicable :
      h.World → h.Account → Bytes → Bytes → ℕ → Outcome BuiltInError (ℤ × h.World)
  unfolding remove_liquidity zero_value_if_nil
  wipe_if_applicable w acnt_dst key identifier nonce = do
    token ← get_dct_data_from_key h core w acnt_dst key
    guard (user_from_bytes token.properties).frozen cannot_wipe_account_not_frozen
    w1 ← lift (h.save_key_value w acnt_dst key [])
    w2 ← remove_liquidity w1 identifier nonce token.value
    ok (zero_value_if_nil token.value, w2)

  unfoldable pub toggle_freeze :
      h.World → Bool → h.Account → Bytes → Outcome BuiltInError (ℤ × h.World)
  unfolding zero_value_if_nil
  toggle_freeze w freeze acnt_dst key = do
    token ← get_dct_data_from_key h core w acnt_dst key
    let metadata = record (user_from_bytes token.properties) { frozen = freeze }
    w' ← save_dct_data h core w acnt_dst (record token { properties = user_to_bytes metadata }) key
    ok (zero_value_if_nil token.value, w')

  unfoldable pub process_freeze_wipe :
      DctFreezeWipe
      → h.World
      → Option h.Account
      → Option ContractCallInput
      → Outcome BuiltInError (VmOutput × h.World)
  unfolding wipe_if_applicable toggle_freeze
  process_freeze_wipe e w acnt_dst vm_input = do
    input ← input_or_error vm_input
    call_value ← or_panic input.call_value
    guard (is_zero call_value) built_in_function_called_with_value
    guard (length input.arguments == 1) invalid_arguments
    guard (bytes_equal input.caller_addr core.dct_sc_address) address_is_not_dct_system_sc
    dst ← account_or_error nil_user_account acnt_dst
    argument ← at input.arguments 0
    let (identifier, nonce) = extract_token_identifier_and_nonce_dct_wipe argument
    (amount, w') ←
        if e.wipe
        then wipe_if_applicable w dst (token_key core argument) identifier nonce
        else toggle_freeze w e.freeze dst (token_key core argument)
    ok (
      add_dct_entry_in_vm_output (output_with_gas 0) input.function identifier nonce amount
          (input.caller_addr ∷ h.address_bytes dst ∷ []),
      w',
    )
