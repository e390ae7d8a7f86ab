-- ===== src/BuiltIn/GlobalSettings.antt =====
-- builtInFunctions/dctGlobalSettings.go: pausing a token, limiting its transfers and letting all burn
-- it. The settings of a token are two bytes in the data trie of the system account.
pub mod Toggle
use k_vm_common_go.Prelude.{
  ℕ, ◌==◌, if◌then◌else◌, not, Bool, true, false, ◌||◌, Option, none, some, List, [], ◌∷◌, ◌++◌,
  Bytes, ascii, length, bytes_equal, Outcome, ok, err, panic, ◌>>=◌, ◌>>◌, at, guard, or_panic,
}
use k_vm_common_go.Core.{Core}
use k_vm_common_go.Address.{is_system_account_address, system_account_address}
use k_vm_common_go.BuiltIn.Errors.{
  BuiltInError, built_in_function_called_with_value, invalid_arguments,
  address_is_not_dct_system_sc, only_system_account_accepted, wrong_type_assertion,
}
use k_vm_common_go.BuiltIn.Host.{Host, Reply, answer, failure, lift}
use k_vm_common_go.BuiltIn.Calls.{
  ContractCallInput, VmOutput, output_with_gas, input_or_error, account_or_error, is_zero,
}
use k_vm_common_go.BuiltIn.Metadata.{DctGlobalMetadata, global_from_bytes, global_to_bytes}
use k_vm_common_go.BuiltIn.Roles.{get_dct_roles_for_acnt}

-- baseDCTKeyPrefix
abbrev pub base_dct_key_prefix : Core → Bytes
base_dct_key_prefix core = core.protected_key_prefix ++ core.dct_key_identifier

abbrev pub token_key : Core → Bytes → Bytes
token_key core token_id = base_dct_key_prefix core ++ token_id

-- transferAddressesKeyPrefix (dctTransferRole.go) and the token
abbrev pub transfer_addresses_key : Core → Bytes → Bytes
transfer_addresses_key core token_id =
    (core.protected_key_prefix ++ (ascii "transfer" ++ core.dct_key_identifier)) ++ token_id

-- vmcommon.BuiltInFunctionDCTSetBurnRoleForAll, vmcommon.BuiltInFunctionDCTUnSetBurnRoleForAll
abbrev pub dct_set_burn_role_for_all : Bytes
dct_set_burn_role_for_all = ascii "DCTSetBurnRoleForAll"

abbrev pub dct_un_set_burn_role_for_all : Bytes
dct_un_set_burn_role_for_all = ascii "DCTUnSetBurnRoleForAll"

pub record DctGlobalSettings : Type 0 where
  pub set : Bool
  pub function : Bytes
  -- activeHandler()
  pub active : Bool

unfoldable pub sets_limited_transfer : Core → Bytes → Bool
sets_limited_transfer core function =
    bytes_equal function core.dct_set_limited_transfer
    || bytes_equal function core.dct_un_set_limited_transfer

unfoldable pub sets_paused : Core → Bytes → Bool
sets_paused core function =
    bytes_equal function core.dct_pause || bytes_equal function core.dct_un_pause

unfoldable pub sets_burn_role_for_all : Bytes → Bool
sets_burn_role_for_all function =
    bytes_equal function dct_un_set_burn_role_for_all
    || bytes_equal function dct_set_burn_role_for_all

-- The `switch` of `toggleSetting`.
unfoldable pub change_setting : Core → DctGlobalSettings → DctGlobalMetadata → DctGlobalMetadata
change_setting core e m =
    if sets_limited_transfer core e.function
    then record m { limited_transfer = e.set }
    else if sets_paused core e.function
    then record m { paused = e.set }
    else if sets_burn_role_for_all e.function
    then record m { burn_role_for_all = e.set }
    else m

-- One of the addresses is the sender or the destination.
unfoldable pub lists_either : List Bytes → Bytes → Bytes → Bool
lists_either [] sender destination = false
lists_either (address ∷ addresses) sender destination =
    if bytes_equal address sender || bytes_equal address destination
    then true
    else lists_either addresses sender destination

module _ (h : Host) where
  unfoldable pub get_system_account : h.World → Outcome BuiltInError h.Account
  get_system_account w = do
    loaded ← lift (h.load_account w system_account_address)
    account_or_error wrong_type_assertion loaded

  -- The error of `RetrieveValue` is dropped; beside an error there is no value.
  abbrev pub value_of : Reply Bytes → Bytes
  value_of (answer s) = s
  value_of (failure e) = []

  unfoldable pub get_global_metadata : h.World → Bytes → Outcome BuiltInError DctGlobalMetadata
  unfolding get_system_account
  get_global_metadata w key = do
    system ← get_system_account w
    ok (global_from_bytes (value_of (h.retrieve_value w system key)))

  abbrev flag_or_false : Outcome BuiltInError DctGlobalMetadata → (DctGlobalMetadata → Bool) → Bool
  flag_or_false (ok m) flag = flag m
  flag_or_false _ flag = false

  unfoldable pub is_paused : h.World → Bytes → Bool
  is_paused w key = flag_or_false (get_global_metadata w key) (λ m. m.paused)

  unfoldable pub is_limited_transfer : h.World → Bytes → Bool
  is_limited_transfer w key = flag_or_false (get_global_metadata w key) (λ m. m.limited_transfer)

  unfoldable pub is_burn_for_all : h.World → Bytes → Bool
  is_burn_for_all w key = flag_or_false (get_global_metadata w key) (λ m. m.burn_role_for_all)

  abbrev pub either_of : Outcome BuiltInError (List Bytes × Bool) → Bytes → Bytes → Bool
  either_of (ok (addresses, is_new)) sender destination = lists_either addresses sender destination
  either_of _ sender destination = false

  module _ (core : Core) (e : DctGlobalSettings) where
    unfoldable pub is_sender_or_destination_with_transfer_role :
        h.World → Bytes → Bytes → Bytes → Bool
    is_sender_or_destination_with_transfer_role w sender destination token_id =
        if not e.active
        then false
        else either_of
            (do
              system ← get_system_account w
              get_dct_roles_for_acnt h w system (transfer_addresses_key core token_id))
            sender destination

    unfoldable pub toggle_setting : h.World → Bytes → Outcome BuiltInError h.World
    unfolding change_setting
    toggle_setting w key = do
      system ← get_system_account w
      metadata ← get_global_metadata w key
      w1 ← lift (h.save_key_value w system key (global_to_bytes (change_setting core e metadata)))
      lift (h.save_account w1 system)

    unfoldable pub process_global_settings :
        h.World → Option ContractCallInput → Outcome BuiltInError (VmOutput × h.World)
    process_global_settings w vm_input = do
      input ← input_or_error vm_input
      value ← or_panic input.call_value
      guard (is_zero value) built_in_function_called_with_value
      guard (length input.arguments == 1) invalid_arguments
      guard (bytes_equal input.caller_addr core.dct_sc_address) address_is_not_dct_system_sc
      guard (is_system_account_address input.recipient_addr) only_system_account_accepted
      token_id ← at input.arguments 0
      w' ← toggle_setting w (token_key core token_id)
      ok (output_with_gas 0, w')
