-- ===== src/BuiltIn/LocalAction.antt =====
-- builtInFunctions/dctLocalMint.go and builtInFunctions/dctLocalBurn.go: an account with the role
-- mints a fungible token to its own balance or burns of it.
pub mod Supply
use k_vm_common_go.Prelude.{
  ℕ, ◌-◌, ltb, if◌then◌else◌, not, Bool, true, false, Option, none, some, List, [], ◌∷◌, Bytes,
  length, Outcome, ok, err, panic, ◌>>=◌, ◌>>◌, guard, at,
}
use k_vm_common_go.Prelude.Int.{ℤ, pos, neg}
use k_vm_common_go.Core.{Core}
use k_vm_common_go.Go.BigInt.{set_bytes}
use k_vm_common_go.BuiltIn.Errors.{BuiltInError, invalid_arguments}
use k_vm_common_go.BuiltIn.Host.{Host}
use k_vm_common_go.BuiltIn.Calls.{
  ContractCallInput, VmOutput, output_with_gas, add_dct_entry_in_vm_output,
  check_input_arguments_for_local_action,
}
use k_vm_common_go.BuiltIn.Roles.{check_allowed_to_execute}
use k_vm_common_go.BuiltIn.GlobalSettings.{token_key, is_burn_for_all}
use k_vm_common_go.BuiltIn.Balance.{add_to_dct_balance}

module _ (h : Host) (core : Core) (func_gas_cost : ℕ) where
  unfoldable pub process_local_mint :
      h.World
      → Option h.Account
      → Option ContractCallInput
      → Outcome BuiltInError (VmOutput × h.World)
  process_local_mint w acnt_snd vm_input = do
    (input, snd) ← check_input_arguments_for_local_action core acnt_snd vm_input func_gas_cost
    token_id ← at input.arguments 0
    check_allowed_to_execute h core w (some snd) token_id core.dct_role_local_mint
    value_bytes ← at input.arguments 1
    guard (not (ltb core.max_len_for_dct_issue_mint (length value_bytes))) invalid_arguments
    let value = set_bytes value_bytes
    w' ←
        add_to_dct_balance h core w snd (token_key core token_id) (pos value)
          input.return_call_after_error
    let out = output_with_gas (input.gas_provided - func_gas_cost)
    ok (
      add_dct_entry_in_vm_output out core.dct_local_mint token_id 0 (pos value)
          (input.caller_addr ∷ []),
      w',
    )

  unfoldable pub is_allowed_to_burn : h.World → h.Account → Bytes → Outcome BuiltInError (Unit {0})
  is_allowed_to_burn w snd token_id =
      if is_burn_for_all h w (token_key core token_id)
      then ok tt
      else check_allowed_to_execute h core w (some snd) token_id core.dct_role_local_burn

  unfoldable pub process_local_burn :
      h.World
      → Option h.Account
      → Option ContractCallInput
      → Outcome BuiltInError (VmOutput × h.World)
  process_local_burn w acnt_snd vm_input = do
    (input, snd) ← check_input_arguments_for_local_action core acnt_snd vm_input func_gas_cost
    token_id ← at input.arguments 0
    is_allowed_to_burn w snd token_id
    value_bytes ← at input.arguments 1
    let value = set_bytes value_bytes
    w' ←
        add_to_dct_balance h core w snd (token_key core token_id) (neg (pos value))
          input.return_call_after_error
    let out = output_with_gas (input.gas_provided - func_gas_cost)
    ok (
      add_dct_entry_in_vm_output out core.dct_local_burn token_id 0 (pos value)
          (input.caller_addr ∷ []),
      w',
    )
