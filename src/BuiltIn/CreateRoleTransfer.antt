-- ===== src/BuiltIn/CreateRoleTransfer.antt =====
-- builtInFunctions/dctNFTCreateRoleTransfer.go: the right to create tokens goes from one account to
-- another, and the latest nonce with it, where both are in one shard at once, else by a call to the
-- shard of the next owner.
pub mod Handover
pub mod Shards
use k_vm_common_go.Prelude.{
  ℕ, ◌==◌, if◌then◌else◌, not, Bool, true, false, Option, none, some, List, [], ◌∷◌, ◌++◌, Bytes,
  ascii, length, bytes_equal, Outcome, ok, err, panic, ◌>>=◌, ◌>>◌, guard, at,
}
use k_vm_common_go.Prelude.Int.{pos}
use k_vm_common_go.Core.{Core}
use k_vm_common_go.Go.BigInt.{set_bytes, to_bytes, uint64}
use k_vm_common_go.Go.Hex.{encode_to_string}
use k_vm_common_go.BuiltIn.Errors.{BuiltInError, invalid_arguments, nil_user_account}
use k_vm_common_go.BuiltIn.Host.{Host, lift}
use k_vm_common_go.BuiltIn.Calls.{
  ContractCallInput, VmOutput, OutputTransfer, OutputAccount, output_with_gas,
  add_dct_entry_in_vm_output, check_basic_dct_arguments, account_or_error,
}
use k_vm_common_go.BuiltIn.Roles.{
  role_key, has_role, delete_roles, get_dct_roles_for_acnt, save_roles_to_account,
  save_latest_nonce,
}
use k_vm_common_go.BuiltIn.NftCalls.{is_some}
use k_vm_common_go.BuiltIn.NftCreate.{get_account, get_latest_nonce}

unfoldable pub bool_to_slice : Bool → Bytes
bool_to_slice true = ascii "true"
bool_to_slice false = ascii "false"

module _ (h : Host) (core : Core) where
  unfoldable pub delete_create_role_from_account :
      h.World → h.Account → Bytes → Outcome BuiltInError h.World
  delete_create_role_from_account w acnt key = do
    (roles, is_new) ← get_dct_roles_for_acnt h w acnt key
    save_roles_to_account h w acnt key (delete_roles roles (core.dct_role_nft_create ∷ []))

  unfoldable pub add_create_role_to_account :
      h.World → h.Account → Bytes → Outcome BuiltInError h.World
  add_create_role_to_account w acnt key = do
    (roles, is_new) ← get_dct_roles_for_acnt h w acnt key
    if has_role core.dct_role_nft_create roles
        then ok w
        else save_roles_to_account h w acnt key (roles ++ (core.dct_role_nft_create ∷ []))

  -- The counter and the role at the account that gets them.
  unfoldable pub give_create_role : h.World → h.Account → Bytes → ℕ → Outcome BuiltInError h.World
  unfolding add_create_role_to_account
  give_create_role w acnt token_id nonce = do
    w1 ← save_latest_nonce h core w acnt token_id nonce
    add_create_role_to_account w1 acnt (role_key core token_id)

  -- The counter that the account had, and the state in which it has none, nor the role.
  unfoldable pub take_create_role : h.World → h.Account → Bytes → Outcome BuiltInError (ℕ × h.World)
  unfolding delete_create_role_from_account
  take_create_role w acnt token_id = do
    nonce ← get_latest_nonce h core w acnt token_id
    w1 ← save_latest_nonce h core w acnt token_id 0
    w2 ← delete_create_role_from_account w1 acnt (role_key core token_id)
    ok (nonce, w2)

  unfoldable pub give_in_same_shard : h.World → Bytes → Bytes → ℕ → Outcome BuiltInError h.World
  unfolding give_create_role
  give_in_same_shard w dest_address token_id nonce = do
    next ← get_account h w dest_address
    w1 ← give_create_role w next token_id nonce
    lift (h.save_account w1 next)

  abbrev role_entry : VmOutput → ContractCallInput → Bytes → Bytes → Bool → VmOutput
  role_entry out input token_id address b =
      add_dct_entry_in_vm_output out input.function token_id 0 (pos 0)
        (address ∷ bool_to_slice b ∷ [])

  -- The call that the shard of the next owner gets.
  unfoldable pub next_owner_account : Bytes → Bytes → Bytes → ℕ → OutputAccount
  next_owner_account sender dest_address token_id nonce = record {
    address = dest_address;
    output_transfers =
        record {
          value = pos 0;
          gas_limit = 0;
          gas_locked = 0;
          payload =
              core.dct_nft_create_role_transfer
              ++ (b'@' ∷ (encode_to_string token_id ++ (b'@' ∷ encode_to_string (to_bytes nonce))));
          call_type = 0;
          sender_address = sender;
        }
        ∷ [];
  }

  unfoldable pub execute_transfer_nft_create_change_at_current_owner :
      h.World → h.Account → ContractCallInput → Outcome BuiltInError (VmOutput × h.World)
  unfolding take_create_role give_in_same_shard next_owner_account
  execute_transfer_nft_create_change_at_current_owner w dst input = do
    guard (length input.arguments == 2) invalid_arguments
    dest_address ← at input.arguments 1
    guard (length dest_address == length input.caller_addr) invalid_arguments
    token_id ← at input.arguments 0
    (nonce, w1) ← take_create_role w dst token_id
    let taken = role_entry (output_with_gas 0) input token_id (h.address_bytes dst) false
    let sent = (dest_address, next_owner_account input.caller_addr dest_address token_id nonce) ∷ []
    if h.compute_id dest_address == h.self_id
        then (do
          w2 ← give_in_same_shard w1 dest_address token_id nonce
          ok (
            record (role_entry taken input token_id dest_address true) { output_accounts = sent },
            w2,
          ))
        else ok (record taken { output_accounts = sent }, w1)

  unfoldable pub execute_transfer_nft_create_change_at_next_owner :
      h.World → h.Account → ContractCallInput → Outcome BuiltInError (VmOutput × h.World)
  unfolding give_create_role
  execute_transfer_nft_create_change_at_next_owner w dst input = do
    guard (length input.arguments == 2) invalid_arguments
    token_id ← at input.arguments 0
    nonce_bytes ← at input.arguments 1
    w' ← give_create_role w dst token_id (uint64 (set_bytes nonce_bytes))
    ok (role_entry (output_with_gas 0) input token_id (h.address_bytes dst) true, w')

  unfoldable pub process_create_role_transfer :
      h.World
      → Option h.Account
      → Option h.Account
      → Option ContractCallInput
      → Outcome BuiltInError (VmOutput × h.World)
  process_create_role_transfer w acnt_snd acnt_dst vm_input = do
    input ← check_basic_dct_arguments core vm_input
    guard (not (is_some acnt_snd)) invalid_arguments
    dst ← account_or_error nil_user_account acnt_dst
    if bytes_equal input.caller_addr core.dct_sc_address
        then execute_transfer_nft_create_change_at_current_owner w dst input
        else execute_transfer_nft_create_change_at_next_owner w dst input
