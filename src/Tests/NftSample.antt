-- ===== src/Tests/NftSample.antt =====
-- A state with a token with a nonce: account 5 holds 100 of it and the roles; the system account, 9,
-- keeps its metadata and its liquidity.
use k_vm_common_go.Prelude.{
  ℕ, ◌==◌, ◌&&◌, if◌then◌else◌, true, false, none, some, List, [], ◌∷◌, ◌++◌, Bytes, ascii,
  bytes_equal,
}
use k_vm_common_go.Prelude.Int.{pos}
use k_vm_common_go.BuiltIn.Epochs.{EnableEpochs}
use k_vm_common_go.BuiltIn.Host.{DcToken, MetaData}
use k_vm_common_go.BuiltIn.Calls.{ContractCallInput}
use k_vm_common_go.BuiltIn.Roles.{role_key, nonce_key}
use k_vm_common_go.BuiltIn.Payable.{payable_check}
use k_vm_common_go.BuiltIn.NftTransfer.{NftTransferFunc}
use k_vm_common_go.Tests.Sample.{sample_core}
use k_vm_common_go.Tests.World.{fields_of, join}

abbrev pub epochs : EnableEpochs
epochs = record {
  is_transfer_to_meta = true;
  is_check_correct_token_id_for_transfer_role = true;
  is_fix_async_callback_check = true;
  is_check_function_argument = true;
  is_wipe_single_nft_liquidity_decrease = true;
  is_save_to_system_account = true;
  is_send_always = true;
  is_fix_old_token_liquidity = true;
  is_check_frozen_collection = true;
  is_always_save_token_meta_data = true;
  is_value_length_check = true;
  is_check_transfer = true;
}

abbrev pub marking_epochs : EnableEpochs
marking_epochs = record epochs { is_send_always = false }

abbrev pub token_id : Bytes
token_id = ascii "TOK"

-- The key of the token with nonce 1.
abbrev pub first_key : Bytes
first_key = ascii "KEYdctTOK" ++ (1 ∷ [])

abbrev pub metadata : MetaData
metadata = record {
  nonce = 1;
  name = ascii "one";
  creator = 5 ∷ [];
  royalties = 0;
  hash = [];
  uris = [];
  attributes = [];
}

abbrev pub on_account : DcToken
on_account = record {
  token_type = 1;
  value = some (pos 100);
  properties = [];
  token_meta_data = none;
  reserved = [];
}

abbrev pub on_system : DcToken
on_system = record {
  token_type = 1;
  value = some (pos 100);
  properties = [];
  token_meta_data = some metadata;
  reserved = 1 ∷ [];
}

abbrev pub roles : List Bytes
roles =
    sample_core.dct_role_nft_create ∷ sample_core.dct_role_nft_add_quantity
    ∷ sample_core.dct_role_nft_burn ∷ []

abbrev pub nft_start : ℕ → Bytes → Bytes
nft_start a k =
    if bytes_equal k first_key
    then (if a == 5
        then join (fields_of on_account)
        else if a == 9
        then join (fields_of on_system)
        else [])
    else if (a == 5) && bytes_equal k (role_key sample_core token_id)
    then join roles
    else if (a == 5) && bytes_equal k (nonce_key sample_core token_id)
    then 1 ∷ []
    else []

-- A call of account 5 to itself.
abbrev pub own_call : List Bytes → ContractCallInput
own_call arguments = record {
  caller_addr = 5 ∷ [];
  arguments = arguments;
  call_value = some (pos 0);
  call_type = 0;
  gas_provided = 5000;
  gas_locked = 0;
  return_call_after_error = false;
  recipient_addr = 5 ∷ [];
  function = [];
}

-- A call of the system contract.
abbrev pub system_call : Bytes → List Bytes → ContractCallInput
system_call recipient arguments = record (own_call arguments) {
  caller_addr = sample_core.dct_sc_address;
  recipient_addr = recipient;
}

abbrev pub nft_transfer : NftTransferFunc
nft_transfer = record {
  func_gas_cost = 10;
  data_copy_per_byte = 1;
  global_settings = record { set = false; function = []; active = true };
  payable_handler = payable_check epochs;
  enable_epochs = epochs;
}
