-- ===== src/BuiltIn/Epochs.antt =====
-- EnableEpochsHandler of interface.go: the flags that the modelled functions ask for.
use k_vm_common_go.Prelude.{Bool}

pub record EnableEpochs : Type 0 where
  pub is_transfer_to_meta : Bool
  pub is_check_correct_token_id_for_transfer_role : Bool
  pub is_fix_async_callback_check : Bool
  pub is_check_function_argument : Bool
  pub is_wipe_single_nft_liquidity_decrease : Bool
  pub is_save_to_system_account : Bool
  pub is_send_always : Bool
  pub is_fix_old_token_liquidity : Bool
  pub is_check_frozen_collection : Bool
  pub is_always_save_token_meta_data : Bool
  pub is_value_length_check : Bool
  pub is_check_transfer : Bool
