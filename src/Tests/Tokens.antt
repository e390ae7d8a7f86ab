-- ===== src/Tests/Tokens.antt =====
-- One token of a multi transfer, at sample accounts.
use k_vm_common_go.Prelude.{◌≡◌, refl, false, some, [], ◌∷◌, Outcome, ok}
use k_vm_common_go.Prelude.Int.{ℤ, pos, neg, ◌+ℤ◌}
use k_vm_common_go.Go.BigInt.{set_bytes, read_from, to_bytes, print_onto, uint64}
use k_vm_common_go.BuiltIn.Errors.{BuiltInError}
use k_vm_common_go.BuiltIn.GlobalSettings.{
  get_system_account, is_paused, is_limited_transfer, get_global_metadata, token_key,
}
use k_vm_common_go.BuiltIn.Roles.{
  check_allowed_to_execute, get_dct_roles_for_acnt, does_role_exist, role_index,
}
use k_vm_common_go.BuiltIn.Metadata.{user_from_bytes, global_from_bytes}
use k_vm_common_go.BuiltIn.Balance.{check_froze_and_pause}
use k_vm_common_go.BuiltIn.TokenStorage.{
  nft_token_key, get_dct_digital_token_data_from_system_account,
  get_dct_meta_data_from_system_account, get_dct_nft_token_on_destination_with_options,
  get_dct_nft_token_on_destination, get_dct_nft_token_on_sender,
  check_collection_is_frozen_for_account, check_frozen_pause_properties,
}
use k_vm_common_go.BuiltIn.TokenStorage.System.{
  marshal_and_save_data, save_metadata_if_required, set_reserved_to_nil_for_old_token,
  new_system_token, save_dct_meta_data_to_system_account, save_on_account, save_dct_nft_token,
  add_to_liquidity_system_acc,
}
use k_vm_common_go.BuiltIn.Transfer.{check_if_transfer_can_happen_with_limited_transfer}
use k_vm_common_go.BuiltIn.NftTransfer.{add_nft_to_destination}
use k_vm_common_go.BuiltIn.NftTransfer.Conservation.{IsMoved}
use k_vm_common_go.Tests.Sample.{sample_core}
use k_vm_common_go.Tests.World.{
  sample_host, sample_host-IsStore, sample_host-KeepsAccounts, sample_host-IsMarshaller, world_of,
}
use k_vm_common_go.Tests.NftSample.{token_id, nft_start, nft_transfer}
use k_vm_common_go.VmTypes.{DctTransfer}
use k_vm_common_go.BuiltIn.Host.{DcToken}
use k_vm_common_go.BuiltIn.MultiTransfer.{transfer_one_token_on_sender_shard}
use k_vm_common_go.BuiltIn.MultiTransfer.OneToken.{transfer_one_token-moves_amount}
use k_vm_common_go.BuiltIn.TokenStorage.{is_not_positive, empty_token}
use k_vm_common_go.Tests.World.{Trie}

abbrev forty : DctTransfer
forty = record {
  dct_value = pos 40;
  dct_token_name = token_id;
  dct_token_type = 1;
  dct_token_nonce = 1;
}

abbrev one_token : Outcome BuiltInError (DcToken × Trie)
one_token =
    transfer_one_token_on_sender_shard sample_host sample_core nft_transfer nft_start 5 (some 6)
      (6 ∷ []) forty false

abbrev carried_of : Outcome BuiltInError (DcToken × Trie) → DcToken
carried_of (ok (token, w)) = token
carried_of _ = empty_token

one_moved : one_token ≡ ok (carried_of one_token, world_of one_token)
unfolding transfer_one_token_on_sender_shard add_nft_to_destination
    check_if_transfer_can_happen_with_limited_transfer is_limited_transfer check_allowed_to_execute
    get_dct_roles_for_acnt does_role_exist role_index set_bytes read_from uint64 to_bytes print_onto
    get_dct_nft_token_on_sender get_dct_nft_token_on_destination
    get_dct_nft_token_on_destination_with_options get_dct_meta_data_from_system_account
    get_dct_digital_token_data_from_system_account get_system_account ◌+ℤ◌ neg save_dct_nft_token
    check_frozen_pause_properties check_froze_and_pause check_collection_is_frozen_for_account
    user_from_bytes is_paused get_global_metadata global_from_bytes
    save_dct_meta_data_to_system_account save_metadata_if_required marshal_and_save_data
    new_system_token set_reserved_to_nil_for_old_token save_on_account add_to_liquidity_system_acc
one_moved = refl

transfer_one_token-moves_amount_example :
    (x : ℤ) × (y : ℤ) × (is_not_positive (pos 40) ≡ false)
    × IsMoved sample_host sample_core sample_host-IsStore sample_host-KeepsAccounts
        sample_host-IsMarshaller nft_transfer nft_start
        (world_of one_token)
        5
        6
        (nft_token_key (token_key sample_core token_id) 1)
        x
        y
        40
unfolding get_system_account
transfer_one_token-moves_amount_example =
    transfer_one_token-moves_amount sample_host sample_core sample_host-IsStore
      sample_host-KeepsAccounts sample_host-IsMarshaller nft_transfer nft_start (world_of one_token)
      5 6 (6 ∷ []) forty false (carried_of one_token) 40 refl (λ e. cc (e)) (λ e. cc (e))
      (λ e. cc (e)) one_moved
