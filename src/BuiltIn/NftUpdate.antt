-- ===== src/BuiltIn/NftUpdate.antt =====
-- builtInFunctions/dctNFTAddUri.go and builtInFunctions/updateNFTAttributes.go: an account with the
-- role adds URIs to the metadata of a token it holds, or replaces the attributes.
use k_vm_common_go.Prelude.{
  ℕ, ◌+◌, ◌*◌, ltb, ◌==◌, not, Bool, true, Option, some, List, [], ◌∷◌, ◌++◌, Bytes, length, drop,
  Outcome, ok, ◌>>=◌, ◌>>◌, guard, at, or_panic,
}
use k_vm_common_go.Prelude.Int.{pos}
use k_vm_common_go.Core.{Core}
use k_vm_common_go.Go.BigInt.{set_bytes, uint64}
use k_vm_common_go.BuiltIn.Errors.{
  BuiltInError, invalid_arguments, nft_does_not_have_metadata, not_enough_gas, nil_user_account,
}
use k_vm_common_go.BuiltIn.Epochs.{EnableEpochs}
use k_vm_common_go.BuiltIn.Host.{Host, DcToken, MetaData}
use k_vm_common_go.BuiltIn.Calls.{
  ContractCallInput, VmOutput, output_with_gas, add_dct_entry_in_vm_output, account_or_error,
}
use k_vm_common_go.BuiltIn.Roles.{check_allowed_to_execute}
use k_vm_common_go.BuiltIn.GlobalSettings.{token_key}
use k_vm_common_go.BuiltIn.KeyValue.{wrap, sub_wrap}
use k_vm_common_go.BuiltIn.NftCalls.{check_dct_nft_create_burn_add_input}
use k_vm_common_go.BuiltIn.TokenStorage.{get_dct_nft_token_on_sender}
use k_vm_common_go.BuiltIn.TokenStorage.System.{save_dct_nft_token}

abbrev pub len_uris : List Bytes → ℕ
len_uris [] = 0
len_uris (uri ∷ uris) = length uri + len_uris uris

module _ (store_per_byte : ℕ) where
  unfoldable pub get_gas_cost_for_uri_store : ContractCallInput → ℕ
  get_gas_cost_for_uri_store input =
      wrap (wrap (len_uris (drop 2 input.arguments)) * store_per_byte)

  module _ (h : Host) (core : Core) (epochs : EnableEpochs) where
    -- The token of the sender gets the changed metadata; a token without is dereferenced.
    unfoldable pub save_changed_meta_data :
        h.World
        → h.Account
        → Bytes
        → ℕ
        → DcToken
        → (MetaData → MetaData)
        → Bool
        → Outcome BuiltInError h.World
    save_changed_meta_data w snd dct_token_key nonce token change back = do
      meta ← or_panic token.token_meta_data
      (_, w') ←
          save_dct_nft_token h core epochs w (h.address_bytes snd) snd dct_token_key nonce
            (record token { token_meta_data = some (change meta) }) true back
      ok w'

    module _ (func_gas_cost : ℕ) where
      -- GasProvided - funcGasCost - gasCostForStore
      abbrev pub gas_left : ContractCallInput → ℕ → ℕ
      gas_left input gas_cost_for_store =
          sub_wrap (sub_wrap input.gas_provided func_gas_cost) gas_cost_for_store

      unfoldable pub process_nft_add_uri :
          h.World
          → Option h.Account
          → Option ContractCallInput
          → Outcome BuiltInError (VmOutput × h.World)
      unfolding get_gas_cost_for_uri_store save_changed_meta_data
      process_nft_add_uri w acnt_snd vm_input = do
        input ← check_dct_nft_create_burn_add_input core acnt_snd vm_input func_gas_cost
        guard (not (ltb (length input.arguments) 3)) invalid_arguments
        token_id ← at input.arguments 0
        check_allowed_to_execute h core w acnt_snd token_id core.dct_role_nft_add_uri
        snd ← account_or_error nil_user_account acnt_snd
        let gas_cost_for_store = get_gas_cost_for_uri_store input
        guard (not (ltb input.gas_provided (wrap (func_gas_cost + gas_cost_for_store))))
            not_enough_gas
        nonce_bytes ← at input.arguments 1
        let nonce = uint64 (set_bytes nonce_bytes)
        guard (not (nonce == 0)) nft_does_not_have_metadata
        token ← get_dct_nft_token_on_sender h core epochs w snd (token_key core token_id) nonce
        w' ←
            save_changed_meta_data w snd (token_key core token_id) nonce token
              (λ m. record m { uris = m.uris ++ drop 2 input.arguments })
              input.return_call_after_error
        ok (
          add_dct_entry_in_vm_output (output_with_gas (gas_left input gas_cost_for_store))
              core.dct_nft_add_uri token_id nonce (pos 0)
              (input.caller_addr ∷ drop 2 input.arguments),
          w',
        )

      unfoldable pub process_nft_update_attributes :
          h.World
          → Option h.Account
          → Option ContractCallInput
          → Outcome BuiltInError (VmOutput × h.World)
      unfolding save_changed_meta_data
      process_nft_update_attributes w acnt_snd vm_input = do
        input ← check_dct_nft_create_burn_add_input core acnt_snd vm_input func_gas_cost
        guard (length input.arguments == 3) invalid_arguments
        token_id ← at input.arguments 0
        check_allowed_to_execute h core w acnt_snd token_id core.dct_role_nft_update_attributes
        snd ← account_or_error nil_user_account acnt_snd
        attributes ← at input.arguments 2
        let gas_cost_for_store = wrap (length attributes * store_per_byte)
        guard (not (ltb input.gas_provided (wrap (func_gas_cost + gas_cost_for_store))))
            not_enough_gas
        nonce_bytes ← at input.arguments 1
        let nonce = uint64 (set_bytes nonce_bytes)
        guard (not (nonce == 0)) nft_does_not_have_metadata
        token ← get_dct_nft_token_on_sender h core epochs w snd (token_key core token_id) nonce
        w' ←
            save_changed_meta_data w snd (token_key core token_id) nonce token
              (λ m. record m { attributes = attributes }) input.return_call_after_error
        ok (
          add_dct_entry_in_vm_output (output_with_gas (gas_left input gas_cost_for_store))
              core.dct_nft_update_attributes token_id nonce (pos 0)
              (input.caller_addr ∷ attributes ∷ []),
          w',
        )
