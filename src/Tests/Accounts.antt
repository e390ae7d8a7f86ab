-- ===== src/Tests/Accounts.antt =====
-- The functions that change balances, at sample accounts: account 5 holds 100 of a token, and
-- account 6 holds none.
use k_vm_common_go.Prelude.{
  ℕ, ◌==◌, ◌&&◌, ◌≡◌, refl, if◌then◌else◌, false, none, some, [], ◌∷◌, Bytes, ascii, bytes_equal,
  Outcome, ok,
}
use k_vm_common_go.Prelude.Int.{pos, neg, ◌+ℤ◌}
use k_vm_common_go.Go.BigInt.{set_bytes, read_from}
use k_vm_common_go.BuiltIn.Errors.{BuiltInError}
use k_vm_common_go.BuiltIn.Calls.{
  ContractCallInput, VmOutput, output_with_gas, check_basic_dct_arguments,
  check_input_arguments_for_local_action,
}
use k_vm_common_go.BuiltIn.Roles.{
  check_allowed_to_execute, get_dct_roles_for_acnt, does_role_exist, role_index,
}
use k_vm_common_go.BuiltIn.GlobalSettings.{
  token_key, get_global_metadata, get_system_account, is_paused, is_burn_for_all,
}
use k_vm_common_go.BuiltIn.Metadata.{global_from_bytes, user_from_bytes}
use k_vm_common_go.BuiltIn.Roles.{role_key}
use k_vm_common_go.BuiltIn.Balance.{
  add_to_dct_balance, get_dct_data_from_key, check_froze_and_pause, save_dct_data,
  are_properties_empty,
}
use k_vm_common_go.BuiltIn.Balance.Laws.{IsChange, add_to_dct_balance_sound}
use k_vm_common_go.BuiltIn.LocalAction.{process_local_mint, process_local_burn, is_allowed_to_burn}
use k_vm_common_go.BuiltIn.LocalAction.Supply.{IsLocalAction, mint-adds_value, burn-takes_value}
use k_vm_common_go.BuiltIn.Burn.{process_burn}
use k_vm_common_go.BuiltIn.Burn.Supply.{IsSystemBurn, dct_burn-takes_value}
use k_vm_common_go.Tests.Sample.{sample_core}
use k_vm_common_go.Tests.World.{
  Token, fields_of, join, sample_host, sample_host-IsStore, sample_host-IsMarshaller, world_of,
}

abbrev token_id : Bytes
token_id = ascii "TOK"

abbrev hundred : Token
hundred = record {
  token_type = 0;
  value = some (pos 100);
  properties = [];
  token_meta_data = none;
  reserved = [];
}

abbrev pub start : ℕ → Bytes → Bytes
start a k =
    if (a == 5) && bytes_equal k (token_key sample_core token_id)
    then join (fields_of hundred)
    else if (a == 5) && bytes_equal k (role_key sample_core token_id)
    then join (sample_core.dct_role_local_mint ∷ sample_core.dct_role_local_burn ∷ [])
    else []

abbrev pub call : Bytes → ContractCallInput
call recipient = record {
  caller_addr = 5 ∷ [];
  arguments = token_id ∷ (30 ∷ []) ∷ [];
  call_value = some (pos 0);
  call_type = 0;
  gas_provided = 50;
  gas_locked = 0;
  return_call_after_error = false;
  recipient_addr = recipient;
  function = ascii "DCTTransfer";
}

abbrev pub out_of : {W : Type 0} → Outcome BuiltInError (VmOutput × W) → VmOutput
out_of (ok (out, w)) = out
out_of _ = output_with_gas 0

abbrev mint : Outcome BuiltInError (VmOutput × (ℕ → Bytes → Bytes))
mint = process_local_mint sample_host sample_core 10 start (some 5) (some (call (5 ∷ [])))

abbrev burn : Outcome BuiltInError (VmOutput × (ℕ → Bytes → Bytes))
burn = process_local_burn sample_host sample_core 10 start (some 5) (some (call (5 ∷ [])))

minted : mint ≡ ok (out_of mint, world_of mint)
unfolding process_local_mint check_input_arguments_for_local_action check_basic_dct_arguments
    set_bytes read_from check_allowed_to_execute get_dct_roles_for_acnt does_role_exist role_index
    get_global_metadata get_system_account global_from_bytes add_to_dct_balance
    get_dct_data_from_key check_froze_and_pause user_from_bytes is_paused ◌+ℤ◌ neg save_dct_data
    are_properties_empty
minted = refl

burned : burn ≡ ok (out_of burn, world_of burn)
unfolding process_local_burn is_allowed_to_burn is_burn_for_all
    check_input_arguments_for_local_action check_basic_dct_arguments set_bytes read_from
    check_allowed_to_execute get_dct_roles_for_acnt does_role_exist role_index get_global_metadata
    get_system_account global_from_bytes add_to_dct_balance get_dct_data_from_key
    check_froze_and_pause user_from_bytes is_paused ◌+ℤ◌ neg save_dct_data are_properties_empty
burned = refl

mint-adds_value_example :
    IsLocalAction sample_host sample_core 10 sample_host-IsStore sample_host-IsMarshaller
      (λ token.
        check_allowed_to_execute sample_host sample_core start
          (some 5)
          token
          sample_core.dct_role_local_mint
        ≡ ok tt)
      pos
      start
      (world_of mint)
      5
      (call (5 ∷ []))
      (out_of mint)
mint-adds_value_example =
    mint-adds_value sample_host sample_core 10 sample_host-IsStore sample_host-IsMarshaller start
      (world_of mint) 5 (call (5 ∷ [])) (out_of mint) minted

burn-takes_value_example :
    IsLocalAction sample_host sample_core 10 sample_host-IsStore sample_host-IsMarshaller
      (λ token. is_allowed_to_burn sample_host sample_core 10 start 5 token ≡ ok tt)
      (λ n. neg (pos n))
      start
      (world_of burn)
      5
      (call (5 ∷ []))
      (out_of burn)
burn-takes_value_example =
    burn-takes_value sample_host sample_core 10 sample_host-IsStore sample_host-IsMarshaller start
      (world_of burn) 5 (call (5 ∷ [])) (out_of burn) burned

abbrev give : Outcome BuiltInError (ℕ → Bytes → Bytes)
give =
    add_to_dct_balance sample_host sample_core start 6 (token_key sample_core token_id) (pos 7)
      false

abbrev state_of : Outcome BuiltInError (ℕ → Bytes → Bytes) → ℕ → Bytes → Bytes
state_of (ok w) = w
state_of _ = λ a k. []

given : give ≡ ok (state_of give)
unfolding get_global_metadata get_system_account global_from_bytes add_to_dct_balance
    get_dct_data_from_key check_froze_and_pause user_from_bytes is_paused ◌+ℤ◌ neg save_dct_data
    are_properties_empty
given = refl

add_to_dct_balance_sound_example :
    IsChange sample_host sample_core sample_host-IsStore sample_host-IsMarshaller start
      (state_of give)
      6
      (token_key sample_core token_id)
      (pos 7)
      false
add_to_dct_balance_sound_example =
    add_to_dct_balance_sound sample_host sample_core sample_host-IsStore sample_host-IsMarshaller
      start (state_of give) 6 (token_key sample_core token_id) (pos 7) false given

abbrev burning : ContractCallInput
burning = call sample_core.dct_sc_address

abbrev burn_far : Outcome BuiltInError (VmOutput × (ℕ → Bytes → Bytes))
burn_far = process_burn sample_host sample_core 10 start (some 5) (some burning)

burned_far : burn_far ≡ ok (out_of burn_far, world_of burn_far)
unfolding process_burn check_basic_dct_arguments set_bytes read_from get_global_metadata
    get_system_account global_from_bytes add_to_dct_balance get_dct_data_from_key
    check_froze_and_pause user_from_bytes is_paused ◌+ℤ◌ neg save_dct_data are_properties_empty
burned_far = refl

dct_burn-takes_value_example :
    IsSystemBurn sample_host sample_core 10 sample_host-IsStore sample_host-IsMarshaller start
      (world_of burn_far)
      5
      burning
      (out_of burn_far)
dct_burn-takes_value_example =
    dct_burn-takes_value sample_host sample_core 10 sample_host-IsStore sample_host-IsMarshaller
      start (world_of burn_far) 5 burning (out_of burn_far) burned_far
