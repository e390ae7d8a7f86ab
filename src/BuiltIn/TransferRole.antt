-- ===== src/BuiltIn/TransferRole.antt =====
-- builtInFunctions/dctTransferRole.go: the system contract adds to, or takes from, the addresses that
-- may send or receive a token of limited transfer; the system account keeps the list.
pub mod Addresses
use k_vm_common_go.Prelude.{
  ℕ, ltb, ◌%◌, ◌^◌, if◌then◌else◌, not, Bool, true, false, Option, none, some, List, [], ◌∷◌, ◌++◌,
  Bytes, length, drop, bytes_equal, Outcome, ok, err, panic, ◌>>=◌, ◌>>◌, guard, at,
}
use k_vm_common_go.Prelude.Int.{pos}
use k_vm_common_go.Core.{Core}
use k_vm_common_go.Address.{is_system_account_address}
use k_vm_common_go.BuiltIn.Errors.{
  BuiltInError, address_is_not_dct_system_sc, only_system_account_accepted,
  too_many_transfer_addresses,
}
use k_vm_common_go.BuiltIn.Host.{Host, lift}
use k_vm_common_go.BuiltIn.Calls.{
  ContractCallInput, VmOutput, output_with_gas, add_dct_entry_in_vm_output,
  check_basic_dct_arguments,
}
use k_vm_common_go.BuiltIn.Roles.{
  has_role, delete_roles, get_dct_roles_for_acnt, save_roles_to_account,
}
use k_vm_common_go.BuiltIn.GlobalSettings.{get_system_account, transfer_addresses_key}

-- The loops of `addNewAddresses`: what is not yet in the list comes to its end.
unfoldable pub append_new : List Bytes → List Bytes → List Bytes
append_new addresses [] = addresses
append_new addresses (new_address ∷ others) =
    append_new
      (if has_role new_address addresses then addresses else addresses ++ (new_address ∷ [])) others

unfoldable pub add_new_addresses : ℕ → List Bytes → List Bytes → Outcome BuiltInError (List Bytes)
unfolding append_new
add_new_addresses max_num_addresses arguments addresses = do
  let all = append_new addresses (drop 1 arguments)
  guard (not (ltb max_num_addresses (length all % 2 ^ 32))) too_many_transfer_addresses
  ok all

module _ (h : Host) (core : Core) (max_num_addresses : ℕ) where
  unfoldable pub process_transfer_address :
      Bool → h.World → Option ContractCallInput → Outcome BuiltInError (VmOutput × h.World)
  unfolding add_new_addresses
  process_transfer_address set w vm_input = do
    input ← check_basic_dct_arguments core vm_input
    guard (bytes_equal input.caller_addr core.dct_sc_address) address_is_not_dct_system_sc
    guard (is_system_account_address input.recipient_addr) only_system_account_accepted
    system ← get_system_account h w
    token_id ← at input.arguments 0
    (addresses, is_new) ← get_dct_roles_for_acnt h w system (transfer_addresses_key core token_id)
    changed ←
        if set
        then add_new_addresses max_num_addresses input.arguments addresses
        else ok (delete_roles addresses (drop 1 input.arguments))
    w1 ← save_roles_to_account h w system (transfer_addresses_key core token_id) changed
    w2 ← lift (h.save_account w1 system)
    ok (
      add_dct_entry_in_vm_output (output_with_gas 0) input.function token_id 0 (pos 0)
          (h.address_bytes system ∷ drop 1 input.arguments),
      w2,
    )
