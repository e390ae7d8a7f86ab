-- ===== src/Tests/Keys.antt =====
-- The functions that write roles, settings and keys, at sample accounts.
use k_vm_common_go.Prelude.{
  ℕ, ◌≡◌, refl, ◌-◌, ◌<◌, ◌^◌, arith, true, false, some, List, [], ◌∷◌, Bytes, ascii, Outcome, ok,
  at, drop,
}
use k_vm_common_go.Prelude.Int.{pos}
use k_vm_common_go.Address.{
  is_system_account_address, system_account_address, is_smart_contract_address, is_empty_address,
  is_allowed_to_save_under_key,
}
use k_vm_common_go.BuiltIn.Errors.{BuiltInError}
use k_vm_common_go.BuiltIn.Calls.{
  ContractCallInput, VmOutput, output_with_gas, check_basic_dct_arguments,
}
use k_vm_common_go.BuiltIn.Metadata.{global_from_bytes, global_to_bytes}
use k_vm_common_go.BuiltIn.Roles.{
  process_roles, check_allowed_to_execute, get_dct_roles_for_acnt, save_roles_to_account,
  save_start_nonce, has_role, delete_roles,
}
use k_vm_common_go.BuiltIn.Roles.Grant.{granted-is_allowed}
use k_vm_common_go.BuiltIn.Roles.Delete.{count, count-delete_roles}
use k_vm_common_go.BuiltIn.GlobalSettings.{
  DctGlobalSettings, token_key, process_global_settings, toggle_setting, get_global_metadata,
  get_system_account, change_setting, sets_limited_transfer, sets_paused, sets_burn_role_for_all,
}
use k_vm_common_go.BuiltIn.GlobalSettings.Toggle.{IsToggle, global_settings-change_one}
use k_vm_common_go.BuiltIn.KeyValue.{
  SaveKeyValueStorage, process_key_value, save_pairs, save_pair, check_arguments_for_save_key_value,
  length_change,
}
use k_vm_common_go.BuiltIn.KeyValue.Stored.{last_value, value_at, key_value-stores_last}
use k_vm_common_go.BuiltIn.KeyValue.Gas.{base_gas, equal_value-gains_gas}
use k_vm_common_go.Tests.Sample.{sample_core}
use k_vm_common_go.Tests.World.{
  sample_host, sample_host-IsStore, sample_host-KeepsAccounts, sample_host-IsRolesMarshaller,
  world_of,
}

abbrev empty_world : ℕ → Bytes → Bytes
empty_world a k = []

abbrev call_of : Bytes → Bytes → List Bytes → ContractCallInput
call_of caller recipient args = record {
  caller_addr = caller;
  arguments = args;
  call_value = some (pos 0);
  call_type = 0;
  gas_provided = 50;
  gas_locked = 0;
  return_call_after_error = false;
  recipient_addr = recipient;
  function = ascii "DCTPause";
}

abbrev out_of_call : {W : Type 0} → Outcome BuiltInError (VmOutput × W) → VmOutput
out_of_call (ok (out, w)) = out
out_of_call _ = output_with_gas 0

abbrev granting : ContractCallInput
granting =
    call_of sample_core.dct_sc_address (5 ∷ [])
      (ascii "TOK" ∷ sample_core.dct_role_local_mint ∷ sample_core.dct_role_local_burn ∷ [])

abbrev grant : Outcome BuiltInError (VmOutput × (ℕ → Bytes → Bytes))
grant = process_roles sample_host sample_core true empty_world (some 5) (some granting)

granted : grant ≡ ok (out_of_call grant, world_of grant)
unfolding process_roles check_basic_dct_arguments get_dct_roles_for_acnt save_start_nonce has_role
    save_roles_to_account
granted = refl

names_mint : has_role sample_core.dct_role_local_mint (drop 1 granting.arguments) ≡ true
unfolding has_role
names_mint = refl

granted-is_allowed_example :
    check_allowed_to_execute sample_host sample_core
      (world_of grant)
      (some 5)
      (ascii "TOK")
      sample_core.dct_role_local_mint
    ≡ ok tt
granted-is_allowed_example =
    granted-is_allowed sample_host sample_host-IsStore sample_host-IsRolesMarshaller sample_core
      empty_world (world_of grant) 5 granting (out_of_call grant) (ascii "TOK")
      sample_core.dct_role_local_mint granted refl names_mint

abbrev two_roles : List Bytes
two_roles = ascii "mint" ∷ ascii "burn" ∷ ascii "mint" ∷ []

count-delete_roles_example :
    count (ascii "mint") (delete_roles two_roles (ascii "mint" ∷ []))
    ≡ count (ascii "mint") two_roles - count (ascii "mint") (ascii "mint" ∷ [])
count-delete_roles_example = count-delete_roles (ascii "mint") two_roles (ascii "mint" ∷ [])

abbrev pause : DctGlobalSettings
pause = record { set = true; function = ascii "DCTPause"; active = true }

abbrev pausing : ContractCallInput
pausing = call_of sample_core.dct_sc_address system_account_address (ascii "TOK" ∷ [])

abbrev settings : Outcome BuiltInError (VmOutput × (ℕ → Bytes → Bytes))
settings = process_global_settings sample_host sample_core pause empty_world (some pausing)

paused : settings ≡ ok (out_of_call settings, world_of settings)
unfolding process_global_settings is_system_account_address toggle_setting get_system_account
    get_global_metadata global_from_bytes global_to_bytes change_setting sets_limited_transfer
    sets_paused sets_burn_role_for_all
paused = refl

global_settings-change_one_example :
    (pausing.caller_addr ≡ sample_core.dct_sc_address)
    × (is_system_account_address pausing.recipient_addr ≡ true)
    × (token : Bytes) × (at {E = BuiltInError} pausing.arguments 0 ≡ ok token)
    × IsToggle sample_host sample_host-IsStore sample_host-KeepsAccounts sample_core pause
        empty_world
        (world_of settings)
        (token_key sample_core token)
global_settings-change_one_example =
    global_settings-change_one sample_host sample_host-IsStore sample_host-KeepsAccounts sample_core
      pause empty_world (world_of settings) pausing (out_of_call settings) paused

abbrev prices : SaveKeyValueStorage
prices = record { func_gas_cost = 10; persist_per_byte = 1; store_per_byte = 2 }

abbrev writing : ContractCallInput
writing =
    call_of (5 ∷ []) (5 ∷ [])
      (ascii "one" ∷ ascii "a" ∷ ascii "two" ∷ ascii "b" ∷ ascii "one" ∷ ascii "c" ∷ [])

abbrev write : Outcome BuiltInError (VmOutput × (ℕ → Bytes → Bytes))
write = process_key_value sample_host sample_core prices empty_world (some 5) (some writing)

written : write ≡ ok (out_of_call write, world_of write)
unfolding process_key_value check_arguments_for_save_key_value is_smart_contract_address
    is_empty_address save_pairs save_pair is_allowed_to_save_under_key length_change
written = refl

key_value-stores_last_example :
    value_at sample_host sample_host-IsStore sample_core prices (world_of write) 5 (ascii "one")
    ≡ last_value
        (ascii "one")
        writing.arguments
        (value_at sample_host sample_host-IsStore sample_core prices empty_world 5 (ascii "one"))
key_value-stores_last_example =
    key_value-stores_last sample_host sample_host-IsStore sample_core prices empty_world
      (world_of write) 5 writing (out_of_call write) (ascii "one") written

abbrev costly : SaveKeyValueStorage
costly = record { func_gas_cost = 60; persist_per_byte = 1; store_per_byte = 2 }

abbrev one_world : ℕ → Bytes → Bytes
one_world a k = ascii "a"

abbrev rewriting : ContractCallInput
rewriting = call_of (5 ∷ []) (5 ∷ []) (ascii "one" ∷ ascii "a" ∷ [])

no_contract : is_smart_contract_address (5 ∷ []) ≡ false
unfolding is_smart_contract_address is_empty_address
no_contract = refl

allowed_key : is_allowed_to_save_under_key sample_core (ascii "one") ≡ true
unfolding is_allowed_to_save_under_key
allowed_key = refl

equal_value-gains_gas_example :
    (process_key_value sample_host sample_core costly one_world (some 5) (some rewriting)
      ≡ ok (
        output_with_gas
            (2 ^ 64 - (base_gas sample_host sample_core costly (ascii "one") (ascii "a") - 50)),
        one_world,
      ))
    × (50 < 2 ^ 64 - (base_gas sample_host sample_core costly (ascii "one") (ascii "a") - 50))
equal_value-gains_gas_example =
    equal_value-gains_gas sample_host sample_core costly one_world 5 rewriting (ascii "one")
      (ascii "a")
      (record { arguments = refl; no_value = refl; own = refl; no_contract = no_contract })
      allowed_key refl (omega arith) (omega arith) (omega arith)
