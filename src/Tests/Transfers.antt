-- ===== src/Tests/Transfers.antt =====
-- The transfer function at the sample accounts of Tests.Accounts.
use k_vm_common_go.Prelude.{ℕ, ◌≡◌, refl, true, false, some, [], ◌∷◌, Bytes, Outcome, ok}
use k_vm_common_go.Prelude.Int.{ℤ, pos, neg, ◌+ℤ◌}
use k_vm_common_go.Go.BigInt.{set_bytes, read_from}
use k_vm_common_go.BuiltIn.Errors.{BuiltInError}
use k_vm_common_go.BuiltIn.Epochs.{EnableEpochs}
use k_vm_common_go.BuiltIn.Calls.{VmOutput, is_negative, check_basic_dct_arguments}
use k_vm_common_go.BuiltIn.GlobalSettings.{
  token_key, is_limited_transfer, get_global_metadata, get_system_account, is_paused,
}
use k_vm_common_go.BuiltIn.Metadata.{global_from_bytes, user_from_bytes}
use k_vm_common_go.BuiltIn.Balance.{
  add_to_dct_balance, get_dct_data_from_key, check_froze_and_pause, save_dct_data,
  are_properties_empty,
}
use k_vm_common_go.BuiltIn.Balance.Laws.{Holds, ChangesOnly}
use k_vm_common_go.BuiltIn.Payable.{
  payable_check, check_payable, must_verify_payable, determine_is_sc_call_after,
}
use k_vm_common_go.BuiltIn.Transfer.{
  DctTransferFunc, process_transfer, check_if_transfer_can_happen_with_limited_transfer,
}
use k_vm_common_go.BuiltIn.Transfer.Totals.{
  IsRequest, IsMoved, transfer-moves_value, transfer-self_keeps_value,
}
use k_vm_common_go.Tests.Sample.{sample_core}
use k_vm_common_go.Tests.World.{
  sample_host, sample_host-IsStore, sample_host-IsMarshaller, world_of,
}
use k_vm_common_go.Tests.Accounts.{start, call, out_of}

abbrev epochs : EnableEpochs
epochs = record {
  is_transfer_to_meta = true;
  is_check_correct_token_id_for_transfer_role = true;
  is_fix_async_callback_check = true;
  is_check_function_argument = true;
  is_wipe_single_nft_liquidity_decrease = true;
  is_save_to_system_account = true;
  is_send_always = true;
  is_fix_old_token_liquidity = true;
  is_check_frozen_collection = true;
  is_always_save_token_meta_data = true;
  is_value_length_check = true;
  is_check_transfer = true;
}

abbrev transfer : DctTransferFunc
transfer = record {
  func_gas_cost = 10;
  global_settings = record { set = true; function = sample_core.dct_pause; active = true };
  payable_handler = payable_check epochs;
  enable_epochs = epochs;
}

abbrev run : ℕ → Outcome BuiltInError (VmOutput × (ℕ → Bytes → Bytes))
run receiver =
    process_transfer sample_host sample_core transfer start (some 5) (some receiver)
      (some (call (receiver ∷ [])))

transfer_to_other : run 6 ≡ ok (out_of (run 6), world_of (run 6))
unfolding process_transfer check_basic_dct_arguments set_bytes read_from
    check_if_transfer_can_happen_with_limited_transfer is_limited_transfer get_global_metadata
    get_system_account global_from_bytes add_to_dct_balance get_dct_data_from_key
    check_froze_and_pause user_from_bytes is_paused ◌+ℤ◌ neg save_dct_data are_properties_empty
    determine_is_sc_call_after check_payable must_verify_payable
transfer_to_other = refl

transfer_to_self : run 5 ≡ ok (out_of (run 5), world_of (run 5))
unfolding process_transfer check_basic_dct_arguments set_bytes read_from
    check_if_transfer_can_happen_with_limited_transfer is_limited_transfer get_global_metadata
    get_system_account global_from_bytes add_to_dct_balance get_dct_data_from_key
    check_froze_and_pause user_from_bytes is_paused ◌+ℤ◌ neg save_dct_data are_properties_empty
    determine_is_sc_call_after check_payable must_verify_payable
transfer_to_self = refl

transfer-moves_value_example :
    (token : Bytes) × (amount : ℕ) × IsRequest sample_host sample_core sample_host-IsStore
      sample_host-IsMarshaller transfer
      (call (6 ∷ []))
      token
      amount
    × IsMoved sample_host sample_core sample_host-IsStore sample_host-IsMarshaller transfer start
        (world_of (run 6))
        5
        6
        (token_key sample_core token)
        (pos amount)
transfer-moves_value_example =
    transfer-moves_value sample_host sample_core sample_host-IsStore sample_host-IsMarshaller
      transfer start (world_of (run 6)) 5 6 (call (6 ∷ [])) (out_of (run 6)) transfer_to_other
      (λ e. cc)

transfer-self_keeps_value_example :
    (token : Bytes) × (amount : ℕ) × (x : ℤ) × IsRequest sample_host sample_core sample_host-IsStore
      sample_host-IsMarshaller transfer
      (call (5 ∷ []))
      token
      amount
    × (is_negative (x +ℤ neg (pos amount)) ≡ false)
    × Holds sample_host sample_core start 5 (token_key sample_core token) x
    × Holds sample_host sample_core (world_of (run 5)) 5 (token_key sample_core token) x
    × ChangesOnly sample_host sample_core start (world_of (run 5)) 5 (token_key sample_core token)
transfer-self_keeps_value_example =
    transfer-self_keeps_value sample_host sample_core sample_host-IsStore sample_host-IsMarshaller
      transfer start (world_of (run 5)) 5 (call (5 ∷ [])) (out_of (run 5)) transfer_to_self
