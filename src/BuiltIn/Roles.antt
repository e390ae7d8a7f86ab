-- ===== src/BuiltIn/Roles.antt =====
-- builtInFunctions/dctRoles.go, and from dctNFTCreateRoleTransfer.go and dctNFTCreate.go the saving
-- of roles and of the latest nonce.
pub mod Delete
pub mod Grant
use k_vm_common_go.Prelude.{
  ℕ, zero, suc, ◌+◌, ◌-◌, ◌*◌, ◌/◌, ◌^◌, ltb, ◌==◌, if◌then◌else◌, not, Bool, true, false, Option,
  none, some, List, [], ◌∷◌, ◌++◌, Bytes, length, drop, bytes_equal, Outcome, ok, err, panic, ◌>>=◌,
  ◌>>◌, at, guard, or_panic,
}
use k_vm_common_go.Prelude.Int.{pos}
use k_vm_common_go.Core.{Core}
use k_vm_common_go.Go.BigInt.{to_bytes}
use k_vm_common_go.BuiltIn.Errors.{
  BuiltInError, address_is_not_dct_system_sc, nil_user_account, action_not_allowed,
}
use k_vm_common_go.BuiltIn.Host.{Host, Reply, answer, failure, lift}
use k_vm_common_go.BuiltIn.Calls.{
  ContractCallInput, VmOutput, output_with_gas, add_dct_entry_in_vm_output,
  check_basic_dct_arguments, account_or_error,
}

abbrev pub role_key : Core → Bytes → Bytes
role_key core token_id =
    (core.protected_key_prefix ++ (core.dct_role_identifier ++ core.dct_key_identifier)) ++ token_id

abbrev pub nonce_key : Core → Bytes → Bytes
nonce_key core token_id =
    (core.protected_key_prefix ++ core.dct_nft_latest_nonce_identifier) ++ token_id

-- The loop of `doesRoleExist`, at index `i`; `none` is (-1, false).
unfoldable pub role_index : ℕ → List Bytes → Bytes → Option ℕ
role_index i [] role = none
role_index i (current ∷ roles) role =
    if bytes_equal current role then some i else role_index (i + 1) roles role

unfoldable pub does_role_exist : List Bytes → Bytes → Option ℕ
unfolding role_index
does_role_exist roles role = role_index 0 roles role

-- The `copy` and the shortening of the slice: the element at the index goes.
unfoldable pub remove_at : List Bytes → ℕ → List Bytes
remove_at [] i = []
remove_at (role ∷ roles) zero = roles
remove_at (role ∷ roles) (suc i) = role ∷ remove_at roles i

abbrev pub without_index : List Bytes → Option ℕ → List Bytes
without_index roles none = roles
without_index roles (some i) = remove_at roles i

unfoldable pub delete_roles : List Bytes → List Bytes → List Bytes
unfolding does_role_exist remove_at
delete_roles roles [] = roles
delete_roles roles (role ∷ others) =
    delete_roles (without_index roles (does_role_exist roles role)) others

-- (math.MaxUint64 / 256) * lastByte; the last byte of an empty address is out of range.
unfoldable pub compute_start_nonce : Bytes → Outcome BuiltInError ℕ
compute_start_nonce dest_address = do
  last ← at dest_address (length dest_address - 1)
  ok ((2 ^ 64 - 1) / 256 * last)

unfoldable pub has_role : Bytes → List Bytes → Bool
has_role role [] = false
has_role role (arg ∷ args) = if bytes_equal arg role then true else has_role role args

module _ (h : Host) where
  -- The second result says that the account has no entry; an error of the data trie counts as such.
  abbrev pub roles_of_reply : Reply Bytes → Outcome BuiltInError (List Bytes × Bool)
  roles_of_reply (failure e) = ok ([], true)
  roles_of_reply (answer []) = ok ([], true)
  roles_of_reply (answer (b ∷ s)) = do roles ← lift (h.unmarshal_roles (b ∷ s)); ok (roles, false)

  unfoldable pub get_dct_roles_for_acnt :
      h.World → h.Account → Bytes → Outcome BuiltInError (List Bytes × Bool)
  get_dct_roles_for_acnt w acnt key = roles_of_reply (h.retrieve_value w acnt key)

  unfoldable pub save_roles_to_account :
      h.World → h.Account → Bytes → List Bytes → Outcome BuiltInError h.World
  save_roles_to_account w acnt key roles = do
    marshaled ← lift (h.marshal_roles roles)
    lift (h.save_key_value w acnt key marshaled)

  module _ (core : Core) where
    unfoldable pub save_latest_nonce :
        h.World → h.Account → Bytes → ℕ → Outcome BuiltInError h.World
    save_latest_nonce w acnt token_id nonce =
        lift (h.save_key_value w acnt (nonce_key core token_id) (to_bytes nonce))

    -- Where a granted or taken role is the multi-shard creation of tokens, the counter is set.
    unfoldable pub save_start_nonce :
        h.World → h.Account → Bytes → Bytes → List Bytes → Outcome BuiltInError h.World
    unfolding has_role compute_start_nonce save_latest_nonce
    save_start_nonce w acnt token_id recipient args =
        if has_role core.dct_role_nft_create_multi_shard args
        then (do nonce ← compute_start_nonce recipient; save_latest_nonce w acnt token_id nonce)
        else ok w

    unfoldable pub process_roles :
        Bool
        → h.World
        → Option h.Account
        → Option ContractCallInput
        → Outcome BuiltInError (VmOutput × h.World)
    process_roles set w acnt_dst vm_input = do
      input ← check_basic_dct_arguments core vm_input
      guard (bytes_equal input.caller_addr core.dct_sc_address) address_is_not_dct_system_sc
      dst ← account_or_error nil_user_account acnt_dst
      token_id ← at input.arguments 0
      let args = drop 1 input.arguments
      (roles, is_new) ← get_dct_roles_for_acnt w dst (role_key core token_id)
      let changed = if set then roles ++ args else delete_roles roles args
      w1 ← save_start_nonce w dst token_id input.recipient_addr args
      w2 ← save_roles_to_account w1 dst (role_key core token_id) changed
      ok (
        add_dct_entry_in_vm_output (output_with_gas 0) input.function token_id 0 (pos 0)
            (h.address_bytes dst ∷ args),
        w2,
      )

    abbrev pub allow_if_found : Option ℕ → Outcome BuiltInError (Unit {0})
    allow_if_found none = err action_not_allowed
    allow_if_found (some i) = ok tt

    unfoldable pub check_allowed_to_execute :
        h.World → Option h.Account → Bytes → Bytes → Outcome BuiltInError (Unit {0})
    unfolding does_role_exist
    check_allowed_to_execute w account token_id action = do
      acnt ← account_or_error nil_user_account account
      (roles, is_new) ← get_dct_roles_for_acnt w acnt (role_key core token_id)
      guard (not is_new) action_not_allowed
      allow_if_found (does_role_exist roles action)
