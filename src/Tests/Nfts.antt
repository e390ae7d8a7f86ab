-- ===== src/Tests/Nfts.antt =====
-- The functions on tokens with a nonce, at sample accounts.
use k_vm_common_go.Prelude.{
  ℕ, ◌≡◌, refl, ap, ◌==◌, Bool, true, false, some, [], ◌∷◌, Bytes, ascii, Outcome, ok,
}
use k_vm_common_go.Prelude.Int.{ℤ, pos, neg, ◌+ℤ◌}
use k_vm_common_go.Go.BigInt.{set_bytes, read_from, to_bytes, print_onto, uint64}
use k_vm_common_go.BuiltIn.Errors.{BuiltInError}
use k_vm_common_go.BuiltIn.Calls.{
  ContractCallInput, VmOutput, is_negative, check_basic_dct_arguments,
}
use k_vm_common_go.BuiltIn.GlobalSettings.{
  get_system_account, is_paused, is_burn_for_all, is_limited_transfer, get_global_metadata,
  token_key,
}
use k_vm_common_go.BuiltIn.Roles.{
  check_allowed_to_execute, get_dct_roles_for_acnt, does_role_exist, role_index, save_latest_nonce,
}
use k_vm_common_go.BuiltIn.Metadata.{user_from_bytes, global_from_bytes}
use k_vm_common_go.BuiltIn.Balance.{check_froze_and_pause}
use k_vm_common_go.BuiltIn.NftCalls.{check_dct_nft_create_burn_add_input}
use k_vm_common_go.BuiltIn.TokenStorage.{
  nft_token_key, get_dct_digital_token_data_from_system_account,
  get_dct_meta_data_from_system_account, get_dct_nft_token_on_destination_with_options,
  get_dct_nft_token_on_destination, get_dct_nft_token_on_sender,
  check_collection_is_frozen_for_account, check_frozen_pause_properties,
}
use k_vm_common_go.BuiltIn.TokenStorage.System.{
  marshal_and_save_data, save_metadata_if_required, set_reserved_to_nil_for_old_token,
  new_system_token, save_dct_meta_data_to_system_account, save_on_account, save_dct_nft_token,
  add_to_liquidity_system_acc,
}
use k_vm_common_go.BuiltIn.TokenStorage.Amounts.{IsUser}
use k_vm_common_go.BuiltIn.NftSupply.{
  save_quantity, process_nft_add_quantity, process_nft_burn, is_allowed_to_burn,
}
use k_vm_common_go.BuiltIn.NftSupply.Amounts.{
  IsQuantityCall, add_quantity-adds_amount, nft_burn-takes_amount,
}
use k_vm_common_go.BuiltIn.NftCreate.{
  process_nft_create, creator_and_uris, get_latest_nonce, total_length, royalties_of, uint32,
  new_nft, save_new_nft, get_account,
}
use k_vm_common_go.BuiltIn.NftCreate.Counter.{IsCreation, nft_create-counts}
use k_vm_common_go.BuiltIn.NftCreate.Stored.{HasDistinctKeys}
use k_vm_common_go.BuiltIn.Payable.{check_payable, must_verify_payable, determine_is_sc_call_after}
use k_vm_common_go.BuiltIn.Transfer.{check_if_transfer_can_happen_with_limited_transfer}
use k_vm_common_go.BuiltIn.TokenStorage.Sent.{
  was_already_sent_to_destination_shard_and_update_state,
}
use k_vm_common_go.BuiltIn.NftTransfer.{
  process_nft_transfer_on_sender_shard, give_on_sender_shard, add_nft_to_destination,
  create_nft_output_transfers, nft_argument, send_marshaled, send_transfer,
}
use k_vm_common_go.BuiltIn.NftTransfer.Conservation.{IsMoved, nft_transfer-moves_amount}
use k_vm_common_go.Tests.Sample.{sample_core}
use k_vm_common_go.Tests.World.{
  sample_host, sample_host-IsStore, sample_host-KeepsAccounts, sample_host-IsMarshaller, world_of,
}
use k_vm_common_go.Tests.Accounts.{out_of}
use k_vm_common_go.Tests.NftSample.{epochs, token_id, nft_start, own_call, nft_transfer}

abbrev Run : Type 0
Run = Outcome BuiltInError (VmOutput × (ℕ → Bytes → Bytes))

IsUser-5 : IsUser sample_host sample_core nft_start 5
unfolding get_system_account
IsUser-5 = λ e. cc (e)

abbrev add_30 : Run
add_30 =
    process_nft_add_quantity sample_host sample_core epochs 10 nft_start (some 5)
      (some (own_call (token_id ∷ (1 ∷ []) ∷ (30 ∷ []) ∷ [])))

added : add_30 ≡ ok (out_of add_30, world_of add_30)
unfolding process_nft_add_quantity save_quantity check_dct_nft_create_burn_add_input
    check_basic_dct_arguments check_allowed_to_execute get_dct_roles_for_acnt does_role_exist
    role_index set_bytes read_from uint64 to_bytes print_onto get_dct_nft_token_on_sender
    get_dct_nft_token_on_destination get_dct_nft_token_on_destination_with_options
    get_dct_meta_data_from_system_account get_dct_digital_token_data_from_system_account
    get_system_account ◌+ℤ◌ neg save_dct_nft_token check_frozen_pause_properties
    check_froze_and_pause check_collection_is_frozen_for_account user_from_bytes is_paused
    get_global_metadata global_from_bytes save_dct_meta_data_to_system_account
    save_metadata_if_required marshal_and_save_data new_system_token
    set_reserved_to_nil_for_old_token save_on_account add_to_liquidity_system_acc
added = refl

add_quantity-adds_amount_example :
    IsQuantityCall sample_host sample_core epochs sample_host-IsStore sample_host-KeepsAccounts
      sample_host-IsMarshaller 10
      (λ token.
        check_allowed_to_execute sample_host sample_core nft_start
          (some 5)
          token
          sample_core.dct_role_nft_add_quantity
        ≡ ok tt)
      (λ held n. Unit {0})
      pos
      nft_start
      (world_of add_30)
      5
      (own_call (token_id ∷ (1 ∷ []) ∷ (30 ∷ []) ∷ []))
      (out_of add_30)
add_quantity-adds_amount_example =
    add_quantity-adds_amount sample_host sample_core epochs sample_host-IsStore
      sample_host-KeepsAccounts sample_host-IsMarshaller 10 nft_start (world_of add_30) 5
      (own_call (token_id ∷ (1 ∷ []) ∷ (30 ∷ []) ∷ [])) (out_of add_30) IsUser-5 added

abbrev burn_100 : Run
burn_100 =
    process_nft_burn sample_host sample_core epochs 10 nft_start (some 5)
      (some (own_call (token_id ∷ (1 ∷ []) ∷ (100 ∷ []) ∷ [])))

burned : burn_100 ≡ ok (out_of burn_100, world_of burn_100)
unfolding process_nft_burn is_allowed_to_burn is_burn_for_all save_quantity
    check_dct_nft_create_burn_add_input check_basic_dct_arguments check_allowed_to_execute
    get_dct_roles_for_acnt does_role_exist role_index set_bytes read_from uint64 to_bytes print_onto
    get_dct_nft_token_on_sender get_dct_nft_token_on_destination
    get_dct_nft_token_on_destination_with_options get_dct_meta_data_from_system_account
    get_dct_digital_token_data_from_system_account get_system_account ◌+ℤ◌ neg save_dct_nft_token
    check_frozen_pause_properties check_froze_and_pause check_collection_is_frozen_for_account
    user_from_bytes is_paused get_global_metadata global_from_bytes
    save_dct_meta_data_to_system_account save_metadata_if_required marshal_and_save_data
    new_system_token set_reserved_to_nil_for_old_token save_on_account add_to_liquidity_system_acc
burned = refl

nft_burn-takes_amount_example :
    IsQuantityCall sample_host sample_core epochs sample_host-IsStore sample_host-KeepsAccounts
      sample_host-IsMarshaller 10
      (λ token.
        is_allowed_to_burn sample_host sample_core epochs 10 nft_start (some 5) token ≡ ok tt)
      (λ held n. is_negative (held +ℤ neg (pos n)) ≡ false)
      (λ n. neg (pos n))
      nft_start
      (world_of burn_100)
      5
      (own_call (token_id ∷ (1 ∷ []) ∷ (100 ∷ []) ∷ []))
      (out_of burn_100)
nft_burn-takes_amount_example =
    nft_burn-takes_amount sample_host sample_core epochs sample_host-IsStore
      sample_host-KeepsAccounts sample_host-IsMarshaller 10 nft_start (world_of burn_100) 5
      (own_call (token_id ∷ (1 ∷ []) ∷ (100 ∷ []) ∷ [])) (out_of burn_100) IsUser-5 burned

abbrev fourth_is_n : Bytes → Bool
fourth_is_n (a ∷ b ∷ c ∷ d ∷ s) = d == 110
fourth_is_n _ = false

sample_core-HasDistinctKeys : HasDistinctKeys sample_core
sample_core-HasDistinctKeys = record {
  nonce_key-ne-token =
      λ counted token nonce e. let apart : true ≡ false = ap fourth_is_n e in absurd (cc (apart));
}

-- A token of quantity 3 with the name "two".
abbrev creation : ContractCallInput
creation = own_call (token_id ∷ (3 ∷ []) ∷ ascii "two" ∷ (7 ∷ []) ∷ [] ∷ [] ∷ ascii "uri" ∷ [])

abbrev create : Run
create = process_nft_create sample_host sample_core epochs 10 1 nft_start (some 5) (some creation)

created : create ≡ ok (out_of create, world_of create)
unfolding process_nft_create creator_and_uris get_latest_nonce total_length royalties_of uint32
    new_nft save_new_nft save_latest_nonce check_dct_nft_create_burn_add_input
    check_basic_dct_arguments check_allowed_to_execute get_dct_roles_for_acnt does_role_exist
    role_index set_bytes read_from uint64 to_bytes print_onto get_dct_nft_token_on_sender
    get_dct_nft_token_on_destination get_dct_nft_token_on_destination_with_options
    get_dct_meta_data_from_system_account get_dct_digital_token_data_from_system_account
    get_system_account ◌+ℤ◌ neg save_dct_nft_token check_frozen_pause_properties
    check_froze_and_pause check_collection_is_frozen_for_account user_from_bytes is_paused
    get_global_metadata global_from_bytes save_dct_meta_data_to_system_account
    save_metadata_if_required marshal_and_save_data new_system_token
    set_reserved_to_nil_for_old_token save_on_account add_to_liquidity_system_acc
created = refl

nft_create-counts_example :
    IsCreation sample_host sample_core sample_core-HasDistinctKeys sample_host-IsStore
      sample_host-KeepsAccounts sample_host-IsMarshaller epochs 10 1 nft_start
      (world_of create)
      5
      creation
      (out_of create)
nft_create-counts_example =
    nft_create-counts sample_host sample_core sample_core-HasDistinctKeys sample_host-IsStore
      sample_host-KeepsAccounts sample_host-IsMarshaller epochs 10 1 nft_start (world_of create) 5
      creation (out_of create) IsUser-5 refl created

abbrev to_6 : ContractCallInput
to_6 = own_call (token_id ∷ (1 ∷ []) ∷ (40 ∷ []) ∷ (6 ∷ []) ∷ [])

abbrev move_40 : Run
move_40 =
    process_nft_transfer_on_sender_shard sample_host sample_core nft_transfer nft_start (some 5)
      to_6

moved : move_40 ≡ ok (out_of move_40, world_of move_40)
unfolding process_nft_transfer_on_sender_shard give_on_sender_shard add_nft_to_destination
    get_account check_payable must_verify_payable check_if_transfer_can_happen_with_limited_transfer
    is_limited_transfer create_nft_output_transfers nft_argument send_marshaled send_transfer
    determine_is_sc_call_after was_already_sent_to_destination_shard_and_update_state
    check_dct_nft_create_burn_add_input check_basic_dct_arguments check_allowed_to_execute
    get_dct_roles_for_acnt does_role_exist role_index set_bytes read_from uint64 to_bytes print_onto
    get_dct_nft_token_on_sender get_dct_nft_token_on_destination
    get_dct_nft_token_on_destination_with_options get_dct_meta_data_from_system_account
    get_dct_digital_token_data_from_system_account get_system_account ◌+ℤ◌ neg save_dct_nft_token
    check_frozen_pause_properties check_froze_and_pause check_collection_is_frozen_for_account
    user_from_bytes is_paused get_global_metadata global_from_bytes
    save_dct_meta_data_to_system_account save_metadata_if_required marshal_and_save_data
    new_system_token set_reserved_to_nil_for_old_token save_on_account add_to_liquidity_system_acc
moved = refl

nft_transfer-moves_amount_example :
    (x : ℤ) × (y : ℤ) × IsMoved sample_host sample_core sample_host-IsStore
      sample_host-KeepsAccounts sample_host-IsMarshaller nft_transfer nft_start
      (world_of move_40)
      5
      6
      (nft_token_key (token_key sample_core token_id) (uint64 (set_bytes (1 ∷ []))))
      x
      y
      (set_bytes (40 ∷ []))
unfolding get_account get_system_account
nft_transfer-moves_amount_example =
    nft_transfer-moves_amount sample_host sample_core sample_host-IsStore sample_host-KeepsAccounts
      sample_host-IsMarshaller nft_transfer nft_start (world_of move_40) 5 6 to_6 (out_of move_40)
      (6 ∷ []) token_id (1 ∷ []) (40 ∷ []) refl refl refl refl refl refl (λ e. cc (e)) IsUser-5
      (λ e. cc (e)) moved
