-- ===== src/BuiltIn/Transfer.antt =====
-- builtInFunctions/dctTransfer.go: the transfer of a fungible token, on the shard of the sender, of
-- the destination or of both.
pub mod Conservation
pub mod Totals
use k_vm_common_go.Prelude.{
  ℕ, ◌+◌, ◌-◌, ltb, ◌==◌, if◌then◌else◌, not, ◌&&◌, Bool, true, false, Option, none, some, List, [],
  ◌∷◌, ◌++◌, Bytes, length, drop, bytes_equal, Outcome, ok, err, panic, ◌>>=◌, ◌>>◌, guard, at,
}
use k_vm_common_go.Prelude.Int.{ℤ, pos, neg}
use k_vm_common_go.Core.{Core}
use k_vm_common_go.Go.BigInt.{set_bytes}
use k_vm_common_go.Address.{is_smart_contract_address}
use k_vm_common_go.BuiltIn.Errors.{BuiltInError, invalid_rcv_addr, negative_value, not_enough_gas}
use k_vm_common_go.BuiltIn.Epochs.{EnableEpochs}
use k_vm_common_go.BuiltIn.Host.{Host}
use k_vm_common_go.BuiltIn.Calls.{
  ContractCallInput, VmOutput, output_with_gas, add_dct_entry_in_vm_output,
  add_output_transfer_to_vm_output, check_basic_dct_arguments, compute_gas_remaining,
}
use k_vm_common_go.BuiltIn.Roles.{check_allowed_to_execute}
use k_vm_common_go.BuiltIn.GlobalSettings.{
  DctGlobalSettings, token_key, is_limited_transfer, is_sender_or_destination_with_transfer_role,
}
use k_vm_common_go.BuiltIn.Balance.{add_to_dct_balance}
use k_vm_common_go.BuiltIn.Payable.{PayableChecker, check_payable, determine_is_sc_call_after}

-- The fields of the struct that its methods read; `global_settings` is the handler of them.
pub record DctTransferFunc : Type 0 where
  pub func_gas_cost : ℕ
  pub global_settings : DctGlobalSettings
  pub payable_handler : PayableChecker
  pub enable_epochs : EnableEpochs

-- check.IfNil(acnt)
abbrev pub is_nil {ℓ} : {A : Type ℓ} → Option A → Bool
is_nil none = true
is_nil (some a) = false

abbrev pub is_ok {ℓ κ} : {E : Type ℓ} {A : Type κ} → Outcome E A → Bool
is_ok (ok a) = true
is_ok _ = false

module _ (h : Host) (core : Core) where
  unfoldable pub check_if_transfer_can_happen_with_limited_transfer :
      DctGlobalSettings
      → h.World
      → Bytes
      → Bytes
      → Bytes
      → Bytes
      → Option h.Account
      → Option h.Account
      → Bool
      → Outcome BuiltInError (Unit {0})
  check_if_transfer_can_happen_with_limited_transfer settings w token_id dct_token_key sender
        destination acnt_snd acnt_dst is_return_with_error =
      if is_return_with_error
      then ok tt
      else if is_nil acnt_snd
      then ok tt
      else if not (is_limited_transfer h w dct_token_key)
      then ok tt
      else if is_sender_or_destination_with_transfer_role h core settings w sender destination
          token_id
      then ok tt
      else if is_ok (check_allowed_to_execute h core w acnt_snd token_id core.dct_role_transfer)
      then ok tt
      else check_allowed_to_execute h core w acnt_dst token_id core.dct_role_transfer

  module _ (e : DctTransferFunc) where
    -- The sender's part: the gas, and the balance.
    abbrev pub take_from_sender :
        h.World → Option h.Account → ContractCallInput → Bytes → ℕ → Outcome BuiltInError h.World
    take_from_sender w none input key value = ok w
    take_from_sender w (some snd) input key value = do
      guard (not (ltb input.gas_provided e.func_gas_cost)) not_enough_gas
      add_to_dct_balance h core w snd key (neg (pos value)) input.return_call_after_error

    abbrev pub log_transfer : VmOutput → ContractCallInput → Bytes → ℕ → Bytes → VmOutput
    log_transfer out input token_id value receiver =
        add_dct_entry_in_vm_output out core.dct_transfer token_id 0 (pos value)
          (input.caller_addr ∷ receiver ∷ [])

    -- vmOutput.GasRemaining, err = SafeSubUint64(…), whose error is dropped; beside it is a 0.
    abbrev pub gas_for_call : ContractCallInput → ℕ
    gas_for_call input =
        if ltb input.gas_provided e.func_gas_cost then 0 else input.gas_provided - e.func_gas_cost

    -- The destination's part, with the output of the whole call.
    abbrev pub give_to_destination :
        h.World
        → Option h.Account
        → Option h.Account
        → ContractCallInput
        → Bytes
        → Bytes
        → ℕ
        → Bool
        → VmOutput
        → Outcome BuiltInError (VmOutput × h.World)
    give_to_destination w acnt_snd none input token_id key value is_sc_call_after out =
        let sent =
          if is_smart_contract_address input.caller_addr
          then add_output_transfer_to_vm_output input.caller_addr core.dct_transfer input.arguments
              input.recipient_addr input.gas_locked input.call_type out
          else out in
        ok (log_transfer sent input token_id value input.recipient_addr, w)
    give_to_destination w acnt_snd (some dst) input token_id key value is_sc_call_after out = do
      check_payable h core e.payable_handler w input input.recipient_addr
          core.min_len_arguments_dct_transfer
      w' ← add_to_dct_balance h core w dst key (pos value) input.return_call_after_error
      if is_sc_call_after
          then (do
            function ← at input.arguments core.min_len_arguments_dct_transfer
            let called =
                add_output_transfer_to_vm_output input.caller_addr function
                  (drop (core.min_len_arguments_dct_transfer + 1) input.arguments)
                  input.recipient_addr input.gas_locked input.call_type
                  (record out { gas_remaining = gas_for_call input })
            ok (log_transfer called input token_id value (h.address_bytes dst), w'))
          else (let left =
                if input.call_type == core.asynchronous_call_back && is_nil acnt_snd
                then record out { gas_remaining = input.gas_provided }
                else out in
              ok (log_transfer left input token_id value (h.address_bytes dst), w'))

    unfoldable pub process_transfer :
        h.World
        → Option h.Account
        → Option h.Account
        → Option ContractCallInput
        → Outcome BuiltInError (VmOutput × h.World)
    process_transfer w acnt_snd acnt_dst vm_input = do
      input ← check_basic_dct_arguments core vm_input
      guard
          (not (
            h.compute_id input.recipient_addr == core.metachain_shard_id
            && not e.enable_epochs.is_transfer_to_meta))
          invalid_rcv_addr
      value_bytes ← at input.arguments 1
      guard (ltb 0 (set_bytes value_bytes)) negative_value
      token_id ← at input.arguments 0
      let key = token_key core token_id
      let key_to_check =
          if e.enable_epochs.is_check_correct_token_id_for_transfer_role then token_id else key
      check_if_transfer_can_happen_with_limited_transfer e.global_settings w key_to_check key
          input.caller_addr input.recipient_addr acnt_snd acnt_dst input.return_call_after_error
      w1 ← take_from_sender w acnt_snd input key (set_bytes value_bytes)
      is_sc_call_after ←
          determine_is_sc_call_after h core e.payable_handler input input.recipient_addr
            core.min_len_arguments_dct_transfer
      let gas = compute_gas_remaining acnt_snd input.gas_provided e.func_gas_cost
      give_to_destination w1 acnt_snd acnt_dst input token_id key (set_bytes value_bytes)
          is_sc_call_after (output_with_gas gas)
