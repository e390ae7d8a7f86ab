-- ===== src/Tests/Rights.antt =====
-- The functions of the system contract on one token, and what follows from them, at sample accounts.
use k_vm_common_go.Prelude.{ℕ, ◌≡◌, ◌≢◌, refl, true, false, some, [], ◌∷◌, Bytes, Outcome, ok}
use k_vm_common_go.Prelude.Int.{pos, neg}
use k_vm_common_go.Address.{system_account_address, is_system_account_address}
use k_vm_common_go.BuiltIn.Errors.{BuiltInError}
use k_vm_common_go.BuiltIn.Calls.{VmOutput, check_basic_dct_arguments}
use k_vm_common_go.BuiltIn.Metadata.{user_from_bytes, user_to_bytes}
use k_vm_common_go.BuiltIn.GlobalSettings.{token_key, get_system_account}
use k_vm_common_go.BuiltIn.Balance.{
  add_to_dct_balance, get_dct_data_from_key, save_dct_data, are_properties_empty,
}
use k_vm_common_go.BuiltIn.Roles.{get_dct_roles_for_acnt, save_roles_to_account, has_role}
use k_vm_common_go.BuiltIn.TokenStorage.System.{add_to_liquidity_system_acc}
use k_vm_common_go.BuiltIn.TokenStorage.Amounts.{IsUser}
use k_vm_common_go.BuiltIn.WipeId.{extract_token_identifier_and_nonce_dct_wipe, read_parts}
use k_vm_common_go.TokenId.{zero_value_if_nil}
use k_vm_common_go.BuiltIn.FreezeWipe.{
  DctFreezeWipe, process_freeze_wipe, toggle_freeze, wipe_if_applicable, remove_liquidity,
}
use k_vm_common_go.BuiltIn.FreezeWipe.Frozen.{IsWiped, freeze-stops_balance, wipe-takes_frozen}
use k_vm_common_go.BuiltIn.TransferRole.{process_transfer_address, add_new_addresses, append_new}
use k_vm_common_go.BuiltIn.TransferRole.Addresses.{IsAddressChange, set_addresses-keep_distinct}
use k_vm_common_go.Go.Text.{split}
use k_vm_common_go.Tests.Sample.{sample_core}
use k_vm_common_go.Tests.World.{
  sample_host, sample_host-IsStore, sample_host-KeepsAccounts, sample_host-IsMarshaller,
  sample_host-IsRolesMarshaller, world_of,
}
use k_vm_common_go.Tests.Accounts.{out_of, start}
use k_vm_common_go.Tests.NftSample.{epochs, token_id, system_call}

abbrev Run : Type 0
Run = Outcome BuiltInError (VmOutput × (ℕ → Bytes → Bytes))

-- Account 5 is frozen for the token of which it holds 100.
abbrev freezing : DctFreezeWipe
freezing = record { wipe = false; freeze = true }

abbrev wiping : DctFreezeWipe
wiping = record { wipe = true; freeze = false }

abbrev freeze_5 : Run
freeze_5 =
    process_freeze_wipe sample_host sample_core epochs freezing start (some 5)
      (some (system_call (5 ∷ []) (token_id ∷ [])))

frozen : freeze_5 ≡ ok (out_of freeze_5, world_of freeze_5)
unfolding process_freeze_wipe toggle_freeze zero_value_if_nil get_dct_data_from_key save_dct_data
    are_properties_empty user_from_bytes user_to_bytes extract_token_identifier_and_nonce_dct_wipe
    read_parts split
frozen = refl

freeze-stops_balance_example :
    add_to_dct_balance sample_host sample_core
      (world_of freeze_5)
      5
      (token_key sample_core token_id)
      (pos 1)
      false
    ≢ ok start
freeze-stops_balance_example =
    freeze-stops_balance sample_host sample_core sample_host-IsStore sample_host-IsMarshaller epochs
      freezing start (world_of freeze_5) start 5 (system_call (5 ∷ []) (token_id ∷ []))
      (out_of freeze_5) token_id (pos 1) refl refl refl (λ e. cc (e)) frozen

abbrev wipe_5 : Run
wipe_5 =
    process_freeze_wipe sample_host sample_core epochs wiping (world_of freeze_5) (some 5)
      (some (system_call (5 ∷ []) (token_id ∷ [])))

wiped : wipe_5 ≡ ok (out_of wipe_5, world_of wipe_5)
unfolding process_freeze_wipe wipe_if_applicable remove_liquidity zero_value_if_nil
    get_dct_data_from_key save_dct_data are_properties_empty user_from_bytes user_to_bytes
    extract_token_identifier_and_nonce_dct_wipe read_parts split toggle_freeze neg
    add_to_liquidity_system_acc
wiped = refl

IsUser-5 : (w : ℕ → Bytes → Bytes) → IsUser sample_host sample_core w 5
unfolding get_system_account
IsUser-5 w = λ e. cc (e)

wipe-takes_frozen_example :
    ((system_call (5 ∷ []) (token_id ∷ [])).caller_addr ≡ sample_core.dct_sc_address)
    × IsWiped sample_host sample_core sample_host-IsStore sample_host-IsMarshaller epochs
        (world_of freeze_5)
        (world_of wipe_5)
        5
        (token_key sample_core token_id)
wipe-takes_frozen_example =
    wipe-takes_frozen sample_host sample_core sample_host-IsStore sample_host-IsMarshaller epochs
      sample_host-KeepsAccounts wiping (world_of freeze_5) (world_of wipe_5) 5
      (system_call (5 ∷ []) (token_id ∷ [])) (out_of wipe_5) token_id (IsUser-5 (world_of freeze_5))
      refl refl wiped

abbrev add_addresses : Run
add_addresses =
    process_transfer_address sample_host sample_core 3 true start
      (some (system_call system_account_address (token_id ∷ (5 ∷ []) ∷ (6 ∷ []) ∷ (5 ∷ []) ∷ [])))

addresses_added : add_addresses ≡ ok (out_of add_addresses, world_of add_addresses)
unfolding process_transfer_address add_new_addresses append_new has_role get_dct_roles_for_acnt
    save_roles_to_account get_system_account check_basic_dct_arguments is_system_account_address
addresses_added = refl

set_addresses-keep_distinct_example :
    IsAddressChange sample_host sample_core 3 start
      (world_of add_addresses)
      (system_call system_account_address (token_id ∷ (5 ∷ []) ∷ (6 ∷ []) ∷ (5 ∷ []) ∷ []))
set_addresses-keep_distinct_example =
    set_addresses-keep_distinct sample_host sample_core 3 sample_host-IsStore
      sample_host-KeepsAccounts sample_host-IsRolesMarshaller start (world_of add_addresses)
      (system_call system_account_address (token_id ∷ (5 ∷ []) ∷ (6 ∷ []) ∷ (5 ∷ []) ∷ []))
      (out_of add_addresses) addresses_added
