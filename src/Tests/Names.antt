-- ===== src/Tests/Names.antt =====
-- The container of functions, the handover of the right to create tokens, and the entries of the
-- system account, at sample values.
use k_vm_common_go.Prelude.{
  ℕ, ◌≡◌, refl, ap, ◌==◌, Bool, true, false, some, none, List, [], ◌∷◌, Bytes, ascii, Outcome, ok,
}
use k_vm_common_go.Prelude.Int.{pos, ◌+ℤ◌}
use k_vm_common_go.Go.Text.Split.{Lacks}
use k_vm_common_go.Go.BigInt.{set_bytes, read_from, to_bytes, print_onto, uint64}
use k_vm_common_go.Parsers.Tokens.{at_separator}
use k_vm_common_go.Go.Hex.{encode_to_string}
use k_vm_common_go.Parsers.CallArgs.{parse_data}
use k_vm_common_go.Parsers.CallArgs.RoundTrip.{parse_data-transaction_data}
use k_vm_common_go.BuiltIn.Errors.{BuiltInError}
use k_vm_common_go.BuiltIn.Calls.{ContractCallInput, VmOutput, OutputAccount, OutputTransfer}
use k_vm_common_go.BuiltIn.GlobalSettings.{token_key, get_system_account}
use k_vm_common_go.BuiltIn.Roles.{
  get_dct_roles_for_acnt, save_roles_to_account, has_role, does_role_exist, role_index,
  delete_roles, remove_at, save_latest_nonce,
}
use k_vm_common_go.BuiltIn.NftCreate.{get_account, get_latest_nonce}
use k_vm_common_go.BuiltIn.TokenStorage.{
  nft_token_key, get_dct_digital_token_data_from_system_account,
}
use k_vm_common_go.BuiltIn.TokenStorage.System.{
  add_to_liquidity_system_acc, marshal_and_save_data, mark_shard,
}
use k_vm_common_go.BuiltIn.TokenStorage.Liquidity.{
  HasLiquidity, IsLiquidityChange, add_to_liquidity_sound,
}
use k_vm_common_go.BuiltIn.TokenStorage.Sent.{
  was_already_sent_to_destination_shard_and_update_state,
}
use k_vm_common_go.BuiltIn.TokenStorage.Marked.{sent_once}
use k_vm_common_go.BuiltIn.CreateRoleTransfer.{
  take_create_role, give_create_role, give_in_same_shard, next_owner_account,
  delete_create_role_from_account, add_create_role_to_account,
  execute_transfer_nft_create_change_at_current_owner,
  execute_transfer_nft_create_change_at_next_owner,
}
use k_vm_common_go.BuiltIn.CreateRoleTransfer.Handover.{HasRoleKeys, IsCreator, IsFormer}
use k_vm_common_go.BuiltIn.CreateRoleTransfer.Shards.{
  IsHandover, role_transfer-hands_over, role_transfer-crosses_shards,
}
use k_vm_common_go.Container.{Call, call_get, call_remove, call_add, call_replace}
use k_vm_common_go.Container.Refinement.{run_container, run_registry, run_container-eq-run_registry}
use k_vm_common_go.Tests.Sample.{sample_core, all_below-AreBytes, all_other-Lacks}
use k_vm_common_go.Tests.World.{
  sample_host, sample_host-IsStore, sample_host-KeepsAccounts, sample_host-IsMarshaller,
  sample_host-IsRolesMarshaller, far_host, far_host-IsStore, far_host-KeepsAccounts,
  far_host-IsMarshaller, far_host-IsRolesMarshaller, world_of,
}
use k_vm_common_go.Tests.Accounts.{out_of}
use k_vm_common_go.Tests.NftSample.{
  epochs, marking_epochs, token_id, on_system, nft_start, system_call,
}

abbrev calls : List (Call ℕ)
calls =
    call_add (ascii "Burn") (some 1)
    ∷ call_add (ascii "Burn") (some 2)
    ∷ call_replace (ascii "Burn") (some 3)
    ∷ call_get (ascii "Burn")
    ∷ call_remove (ascii "Burn")
    ∷ call_get (ascii "Burn")
    ∷ call_add [] (some 4)
    ∷ []

run_container-eq-run_registry_example : run_container [] calls ≡ run_registry (λ key. none) calls
run_container-eq-run_registry_example = run_container-eq-run_registry calls

abbrev third_is_d : Bytes → Bool
third_is_d (a ∷ b ∷ c ∷ d ∷ s) = d == 114
third_is_d _ = false

sample_core-HasRoleKeys : HasRoleKeys sample_core
sample_core-HasRoleKeys = record {
  role_key-ne-nonce = λ token e. let apart : true ≡ false = ap third_is_d e in absurd (cc (apart));
}

abbrev Run : Type 0
Run = Outcome BuiltInError (VmOutput × (ℕ → Bytes → Bytes))

abbrev hand_to_6 : ContractCallInput
hand_to_6 = record (system_call (5 ∷ []) (token_id ∷ (6 ∷ []) ∷ [])) { caller_addr = 0 ∷ [] }

abbrev hand_over : Run
hand_over =
    execute_transfer_nft_create_change_at_current_owner sample_host sample_core nft_start 5
      hand_to_6

handed : hand_over ≡ ok (out_of hand_over, world_of hand_over)
unfolding execute_transfer_nft_create_change_at_current_owner take_create_role get_latest_nonce
    save_latest_nonce delete_create_role_from_account get_dct_roles_for_acnt save_roles_to_account
    delete_roles does_role_exist role_index remove_at give_in_same_shard give_create_role
    get_account add_create_role_to_account has_role set_bytes read_from to_bytes print_onto uint64
    next_owner_account
handed = refl

role_transfer-hands_over_example :
    IsHandover sample_host sample_core sample_core-HasRoleKeys sample_host-IsStore
      sample_host-KeepsAccounts sample_host-IsRolesMarshaller nft_start
      (world_of hand_over)
      5
      6
      token_id
unfolding get_account
role_transfer-hands_over_example =
    role_transfer-hands_over sample_host sample_core sample_core-HasRoleKeys sample_host-IsStore
      sample_host-KeepsAccounts sample_host-IsRolesMarshaller nft_start (world_of hand_over) 5 6
      hand_to_6 (out_of hand_over) token_id (6 ∷ []) refl refl refl refl (λ e. cc (e)) handed

-- To another shard, and there.
abbrev send_away : Run
send_away =
    execute_transfer_nft_create_change_at_current_owner far_host sample_core nft_start 5 hand_to_6

sent_away : send_away ≡ ok (out_of send_away, world_of send_away)
unfolding execute_transfer_nft_create_change_at_current_owner take_create_role get_latest_nonce
    save_latest_nonce delete_create_role_from_account get_dct_roles_for_acnt save_roles_to_account
    delete_roles does_role_exist role_index remove_at set_bytes read_from to_bytes print_onto uint64
sent_away = refl

abbrev arriving : ContractCallInput
arriving = record hand_to_6 { arguments = token_id ∷ to_bytes 1 ∷ [] }

abbrev arrive : Run
arrive =
    execute_transfer_nft_create_change_at_next_owner sample_host sample_core (λ a k. []) 6 arriving

arrived : arrive ≡ ok (out_of arrive, world_of arrive)
unfolding execute_transfer_nft_create_change_at_next_owner give_create_role save_latest_nonce
    add_create_role_to_account get_dct_roles_for_acnt save_roles_to_account has_role set_bytes
    read_from to_bytes print_onto uint64
arrived = refl

abbrev sent_account : OutputAccount
sent_account = next_owner_account far_host sample_core (0 ∷ []) (6 ∷ []) token_id 1

abbrev sent_transfer : OutputTransfer
sent_transfer = record {
  value = pos 0;
  gas_limit = 0;
  gas_locked = 0;
  payload = ascii "DCTNFTCreateRoleTransfer@544f4b@01";
  call_type = 0;
  sender_address = 0 ∷ [];
}

one_account : (out_of send_away).output_accounts ≡ (6 ∷ [], sent_account) ∷ []
unfolding execute_transfer_nft_create_change_at_current_owner take_create_role get_latest_nonce
    save_latest_nonce delete_create_role_from_account get_dct_roles_for_acnt save_roles_to_account
    delete_roles does_role_exist role_index remove_at set_bytes read_from to_bytes print_onto uint64
one_account = refl

one_transfer : sent_account.output_transfers ≡ sent_transfer ∷ []
unfolding next_owner_account encode_to_string to_bytes print_onto
one_transfer = refl

name_Lacks : Lacks at_separator sample_core.dct_nft_create_role_transfer
name_Lacks = all_other-Lacks at_separator sample_core.dct_nft_create_role_transfer refl

sent_is_parsed :
    parse_data sent_transfer.payload
    ≡ ok (sample_core.dct_nft_create_role_transfer, token_id ∷ to_bytes 1 ∷ [])
unfolding encode_to_string to_bytes print_onto
sent_is_parsed =
    parse_data-transaction_data sample_core.dct_nft_create_role_transfer
      (token_id ∷ to_bytes 1 ∷ []) (λ e. cc (e)) name_Lacks
      (all_below-AreBytes token_id refl, (all_below-AreBytes (to_bytes 1) refl, tt))

role_transfer-crosses_shards_example :
    (n : ℕ) × (get_latest_nonce far_host sample_core nft_start 5 token_id ≡ ok n)
    × IsFormer far_host sample_core sample_core-HasRoleKeys far_host-IsStore
        far_host-IsRolesMarshaller nft_start
        (world_of send_away)
        5
        token_id
    × IsCreator sample_host sample_core (world_of arrive) 6 token_id n
role_transfer-crosses_shards_example =
    role_transfer-crosses_shards far_host sample_core sample_core-HasRoleKeys far_host-IsStore
      far_host-KeepsAccounts far_host-IsRolesMarshaller sample_host sample_host-IsStore
      sample_host-IsRolesMarshaller nft_start (world_of send_away) (λ a k. []) (world_of arrive) 5 6
      hand_to_6 arriving (out_of send_away) (out_of arrive) token_id (6 ∷ [])
      sample_core.dct_nft_create_role_transfer sent_account sent_transfer
      (all_below-AreBytes token_id refl) (λ e. cc (e)) name_Lacks refl refl refl sent_away
      one_account one_transfer sent_is_parsed arrived

-- The entry of the system account, and a change of its liquidity.
held_by_system :
    get_dct_digital_token_data_from_system_account sample_host nft_start
      (nft_token_key (token_key sample_core token_id) 1)
      none
    ≡ ok (some on_system, 9)
unfolding get_dct_digital_token_data_from_system_account get_system_account to_bytes print_onto
held_by_system = refl

liquidity_100 :
    HasLiquidity sample_host sample_host-IsStore sample_host-KeepsAccounts sample_core epochs
      nft_start
      (nft_token_key (token_key sample_core token_id) 1)
      (pos 100)
liquidity_100 = record {
  system = 9;
  token = on_system;
  stored = held_by_system;
  tracked = refl;
  value = refl;
}

abbrev change : Outcome BuiltInError (ℕ → Bytes → Bytes)
change =
    add_to_liquidity_system_acc sample_host sample_core epochs nft_start
      (token_key sample_core token_id) 1 (pos 30)

abbrev state_of : Outcome BuiltInError (ℕ → Bytes → Bytes) → ℕ → Bytes → Bytes
state_of (ok w) = w
state_of _ = λ a k. []

changed : change ≡ ok (state_of change)
unfolding add_to_liquidity_system_acc get_dct_digital_token_data_from_system_account
    get_system_account to_bytes print_onto marshal_and_save_data ◌+ℤ◌
changed = refl

add_to_liquidity_sound_example :
    IsLiquidityChange sample_host sample_host-IsStore sample_host-KeepsAccounts sample_core epochs
      (state_of change)
      (nft_token_key (token_key sample_core token_id) 1)
      (pos 100)
      (pos 30)
add_to_liquidity_sound_example =
    add_to_liquidity_sound sample_host sample_host-IsStore sample_host-KeepsAccounts sample_core
      epochs sample_host-IsMarshaller nft_start (state_of change) (token_key sample_core token_id) 1
      (pos 100) (pos 30) refl refl refl liquidity_100 changed

abbrev ask : Outcome BuiltInError (Bool × (ℕ → Bytes → Bytes))
ask =
    was_already_sent_to_destination_shard_and_update_state far_host sample_core marking_epochs
      nft_start token_id 1 (6 ∷ [])

abbrev marked_state : Outcome BuiltInError (Bool × (ℕ → Bytes → Bytes)) → ℕ → Bytes → Bytes
marked_state (ok (b, w)) = w
marked_state _ = λ a k. []

asked : ask ≡ ok (false, marked_state ask)
unfolding was_already_sent_to_destination_shard_and_update_state mark_shard marshal_and_save_data
    get_dct_digital_token_data_from_system_account get_system_account to_bytes print_onto
asked = refl

far_token :
    get_dct_digital_token_data_from_system_account far_host nft_start
      (nft_token_key (token_key sample_core token_id) 1)
      none
    ≡ ok (some on_system, 9)
unfolding get_dct_digital_token_data_from_system_account get_system_account to_bytes print_onto
far_token = refl

sent_once_example :
    was_already_sent_to_destination_shard_and_update_state far_host sample_core marking_epochs
      (marked_state ask)
      token_id
      1
      (6 ∷ [])
    ≡ ok (true, marked_state ask)
sent_once_example =
    sent_once far_host sample_core marking_epochs far_host-IsStore far_host-KeepsAccounts
      far_host-IsMarshaller nft_start (marked_state ask) token_id 1 (6 ∷ []) on_system 9
      (record {
        saves = refl;
        not_always = refl;
        some_nonce = refl;
        other_shard = refl;
        not_meta = refl;
      })
      far_token asked
