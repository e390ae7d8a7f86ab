-- ===== src/BuiltIn/Errors.antt =====
-- builtInFunctions/errors.go: the errors that the modelled functions return. `external` is an error
-- of a component outside the repository, passed on; it holds the error's message.
use k_vm_common_go.Prelude.{Bytes}

pub data BuiltInError : Type 0 where
  nil_vm_input nil_value built_in_function_called_with_value invalid_arguments : BuiltInError
  address_is_not_dct_system_sc nil_user_account invalid_rcv_addr negative_value : BuiltInError
  not_enough_gas insufficient_funds only_fungible_tokens_have_balance_transfer : BuiltInError
  dct_is_frozen_for_account dct_token_is_paused action_not_allowed : BuiltInError
  account_not_payable cannot_wipe_account_not_frozen only_system_account_accepted : BuiltInError
  wrong_type_assertion nil_sc_dest_account operation_not_permitted : BuiltInError
  new_nft_data_on_sender_address nil_dct_data invalid_liquidity_for_dct : BuiltInError
  nft_does_not_have_metadata invalid_nft_quantity invalid_address_length : BuiltInError
  nil_transaction_handler too_many_transfer_addresses insufficient_quantity_dct : BuiltInError
  external : Bytes → BuiltInError
