-- ===== src/BuiltIn/NftSupply.antt =====
-- builtInFunctions/dctNFTAddQuantity.go and builtInFunctions/dctNFTBurn.go: an account adds to its
-- amount of a token with a nonce, or burns of it; the liquidity of the shard follows.
pub mod Amounts
use k_vm_common_go.Prelude.{
  ℕ, ◌+◌, ◌-◌, ltb, ◌==◌, if◌then◌else◌, not, ◌&&◌, Bool, true, false, Option, none, some, List, [],
  ◌∷◌, Bytes, length, Outcome, ok, err, panic, ◌>>=◌, ◌>>◌, guard, at, or_panic,
}
use k_vm_common_go.Prelude.Int.{ℤ, pos, neg, ◌+ℤ◌}
use k_vm_common_go.Core.{Core}
use k_vm_common_go.Go.BigInt.{set_bytes, uint64}
use k_vm_common_go.BuiltIn.Errors.{
  BuiltInError, invalid_arguments, nft_does_not_have_metadata, invalid_nft_quantity,
  nil_user_account,
}
use k_vm_common_go.BuiltIn.Epochs.{EnableEpochs}
use k_vm_common_go.BuiltIn.Host.{Host, DcToken}
use k_vm_common_go.BuiltIn.Calls.{
  ContractCallInput, VmOutput, output_with_gas, add_dct_entry_in_vm_output, is_negative,
  account_or_error,
}
use k_vm_common_go.BuiltIn.Roles.{check_allowed_to_execute}
use k_vm_common_go.BuiltIn.GlobalSettings.{token_key, is_burn_for_all}
use k_vm_common_go.BuiltIn.NftCalls.{
  max_len_for_add_nft_quantity, check_dct_nft_create_burn_add_input,
}
use k_vm_common_go.BuiltIn.TokenStorage.{get_dct_nft_token_on_sender}
use k_vm_common_go.BuiltIn.TokenStorage.System.{save_dct_nft_token, add_to_liquidity_system_acc}

module _ (h : Host) (core : Core) (epochs : EnableEpochs) where
  -- The new amount is saved, and the liquidity changed by the difference.
  unfoldable pub save_quantity :
      h.World → h.Account → Bytes → ℕ → DcToken → ℤ → ℤ → Bool → Outcome BuiltInError h.World
  save_quantity w acnt dct_token_key nonce token old change back = do
    (_, w1) ←
        save_dct_nft_token h core epochs w (h.address_bytes acnt) acnt dct_token_key nonce
          (record token { value = some (old +ℤ change) }) false back
    add_to_liquidity_system_acc h core epochs w1 dct_token_key nonce change

  module _ (func_gas_cost : ℕ) where
    unfoldable pub process_nft_add_quantity :
        h.World
        → Option h.Account
        → Option ContractCallInput
        → Outcome BuiltInError (VmOutput × h.World)
    unfolding save_quantity
    process_nft_add_quantity w acnt_snd vm_input = do
      input ← check_dct_nft_create_burn_add_input core acnt_snd vm_input func_gas_cost
      guard (not (ltb (length input.arguments) 3)) invalid_arguments
      token_id ← at input.arguments 0
      check_allowed_to_execute h core w acnt_snd token_id core.dct_role_nft_add_quantity
      snd ← account_or_error nil_user_account acnt_snd
      nonce_bytes ← at input.arguments 1
      let nonce = uint64 (set_bytes nonce_bytes)
      token ← get_dct_nft_token_on_sender h core epochs w snd (token_key core token_id) nonce
      guard (not (nonce == 0)) nft_does_not_have_metadata
      value_bytes ← at input.arguments 2
      guard
          (not
            (epochs.is_value_length_check && ltb max_len_for_add_nft_quantity (length value_bytes)))
          invalid_arguments
      let value = set_bytes value_bytes
      old ← or_panic token.value
      w' ←
          save_quantity w snd (token_key core token_id) nonce token old (pos value)
            input.return_call_after_error
      ok (
        add_dct_entry_in_vm_output (output_with_gas (input.gas_provided - func_gas_cost))
            core.dct_nft_add_quantity token_id nonce (pos value) (input.caller_addr ∷ []),
        w',
      )

    unfoldable pub is_allowed_to_burn :
        h.World → Option h.Account → Bytes → Outcome BuiltInError (Unit {0})
    is_allowed_to_burn w acnt_snd token_id =
        if is_burn_for_all h w (token_key core token_id)
        then ok tt
        else check_allowed_to_execute h core w acnt_snd token_id core.dct_role_nft_burn

    -- Where all may burn, a sender without an account is dereferenced.
    unfoldable pub process_nft_burn :
        h.World
        → Option h.Account
        → Option ContractCallInput
        → Outcome BuiltInError (VmOutput × h.World)
    unfolding save_quantity is_allowed_to_burn
    process_nft_burn w acnt_snd vm_input = do
      input ← check_dct_nft_create_burn_add_input core acnt_snd vm_input func_gas_cost
      guard (not (ltb (length input.arguments) 3)) invalid_arguments
      token_id ← at input.arguments 0
      is_allowed_to_burn w acnt_snd token_id
      nonce_bytes ← at input.arguments 1
      let nonce = uint64 (set_bytes nonce_bytes)
      snd ← or_panic acnt_snd
      token ← get_dct_nft_token_on_sender h core epochs w snd (token_key core token_id) nonce
      guard (not (nonce == 0)) nft_does_not_have_metadata
      quantity_bytes ← at input.arguments 2
      let quantity_to_burn = set_bytes quantity_bytes
      old ← or_panic token.value
      guard (not (is_negative (old +ℤ neg (pos quantity_to_burn)))) invalid_nft_quantity
      w' ←
          save_quantity w snd (token_key core token_id) nonce token old (neg (pos quantity_to_burn))
            input.return_call_after_error
      ok (
        add_dct_entry_in_vm_output (output_with_gas (input.gas_provided - func_gas_cost))
            core.dct_nft_burn token_id nonce (pos quantity_to_burn) (input.caller_addr ∷ []),
        w',
      )
