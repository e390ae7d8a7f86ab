-- ===== src/BuiltIn/Burn.antt =====
-- builtInFunctions/dctBurn.go: an account burns of a fungible token by a call of the system contract.
pub mod Supply
use k_vm_common_go.Prelude.{
  ltb, ◌==◌, if◌then◌else◌, not, ℕ, Option, none, some, List, [], ◌∷◌, Bytes, length, bytes_equal,
  Outcome, ok, err, panic, ◌>>=◌, ◌>>◌, guard, at,
}
use k_vm_common_go.Prelude.Int.{pos, neg}
use k_vm_common_go.Core.{Core}
use k_vm_common_go.Go.BigInt.{set_bytes}
use k_vm_common_go.Address.{is_smart_contract_address}
use k_vm_common_go.BuiltIn.Errors.{
  BuiltInError, invalid_arguments, negative_value, address_is_not_dct_system_sc, nil_user_account,
  not_enough_gas,
}
use k_vm_common_go.BuiltIn.Host.{Host}
use k_vm_common_go.BuiltIn.Calls.{
  ContractCallInput, VmOutput, output_with_gas, add_dct_entry_in_vm_output,
  add_output_transfer_to_vm_output, check_basic_dct_arguments, account_or_error,
  compute_gas_remaining,
}
use k_vm_common_go.BuiltIn.GlobalSettings.{token_key}
use k_vm_common_go.BuiltIn.Balance.{add_to_dct_balance}

module _ (h : Host) (core : Core) (func_gas_cost : ℕ) where
  -- The output of a burn; a contract's call is sent on with all gas that is left.
  unfoldable pub burn_output : ContractCallInput → Option h.Account → Bytes → ℕ → VmOutput
  burn_output input acnt_snd token_id value =
      let out = output_with_gas (compute_gas_remaining acnt_snd input.gas_provided func_gas_cost) in
      let sent =
        if is_smart_contract_address input.caller_addr
        then add_output_transfer_to_vm_output input.caller_addr core.dct_burn input.arguments
            input.recipient_addr input.gas_locked input.call_type out
        else out in
      add_dct_entry_in_vm_output sent core.dct_burn token_id 0 (pos value) (input.caller_addr ∷ [])

  unfoldable pub process_burn :
      h.World
      → Option h.Account
      → Option ContractCallInput
      → Outcome BuiltInError (VmOutput × h.World)
  unfolding burn_output
  process_burn w acnt_snd vm_input = do
    input ← check_basic_dct_arguments core vm_input
    guard (length input.arguments == 2) invalid_arguments
    value_bytes ← at input.arguments 1
    guard (ltb 0 (set_bytes value_bytes)) negative_value
    guard (bytes_equal input.recipient_addr core.dct_sc_address) address_is_not_dct_system_sc
    snd ← account_or_error nil_user_account acnt_snd
    token_id ← at input.arguments 0
    guard (not (ltb input.gas_provided func_gas_cost)) not_enough_gas
    w' ←
        add_to_dct_balance h core w snd (token_key core token_id)
          (neg (pos (set_bytes value_bytes))) input.return_call_after_error
    ok (burn_output input (some snd) token_id (set_bytes value_bytes), w')
