-- ===== src/BuiltIn/MultiTransfer.antt =====
-- builtInFunctions/multiDCTNFTTransfer.go: the transfer of several tokens in one call, with and without
-- nonces, on the shard of the sender and on the shard of the destination.
pub mod OneToken
use k_vm_common_go.Prelude.{
  ℕ, zero, suc, ◌+◌, ◌-◌, ◌*◌, ◌^◌, ltb, ◌==◌, if◌then◌else◌, not, ◌&&◌, ◌||◌, Bool, false, Option,
  none, some, List, [], ◌∷◌, ◌++◌, Bytes, length, drop, bytes_equal, Outcome, ok, panic, ◌>>=◌,
  ◌>>◌, guard, at, or_panic,
}
use k_vm_common_go.Prelude.Int.{pos, neg, abs, ◌+ℤ◌}
use k_vm_common_go.Core.{Core}
use k_vm_common_go.Go.BigInt.{set_bytes, to_bytes, uint64}
use k_vm_common_go.Address.{is_smart_contract_address}
use k_vm_common_go.VmTypes.{DctTransfer, max_length_for_value_to_opt_transfer}
use k_vm_common_go.BuiltIn.Errors.{
  BuiltInError, invalid_arguments, invalid_rcv_addr, not_enough_gas, invalid_nft_quantity,
  insufficient_quantity_dct,
}
use k_vm_common_go.BuiltIn.Host.{Host, DcToken, lift}
use k_vm_common_go.BuiltIn.Calls.{
  ContractCallInput, VmOutput, output_with_gas, add_dct_entry_in_vm_output,
  add_output_transfer_to_vm_output, check_basic_dct_arguments, account_or_error, is_negative,
}
use k_vm_common_go.BuiltIn.GlobalSettings.{token_key}
use k_vm_common_go.BuiltIn.Balance.{add_to_dct_balance}
use k_vm_common_go.BuiltIn.Payable.{check_payable}
use k_vm_common_go.BuiltIn.Transfer.{is_nil, check_if_transfer_can_happen_with_limited_transfer}
use k_vm_common_go.BuiltIn.KeyValue.{wrap}
use k_vm_common_go.BuiltIn.NftCreate.{get_account}
use k_vm_common_go.BuiltIn.TokenStorage.{empty_token, is_not_positive, get_dct_nft_token_on_sender}
use k_vm_common_go.BuiltIn.TokenStorage.System.{save_dct_nft_token, add_to_liquidity_system_acc}
use k_vm_common_go.BuiltIn.TokenStorage.Sent.{
  arguments_per_transfer, was_already_sent_to_destination_shard_and_update_state,
}
use k_vm_common_go.BuiltIn.NftTransfer.{
  NftTransferFunc, is_one, is_invalid_transfer_to_meta, add_nft_to_destination, send_marshaled,
  send_transfer,
}

-- `make` of a slice of n pointers panics where its size in bytes is no uint64.
abbrev pub make_slice : ℕ → Outcome BuiltInError (Unit {0})
make_slice n = if ltb (n * 8) (2 ^ 64) then ok tt else panic

-- The error names the token; `%w` keeps what it wraps.
unfoldable pub compute_insufficient_quantity_dct_error : Bytes → ℕ → BuiltInError
compute_insufficient_quantity_dct_error token_id nonce = insufficient_quantity_dct

module _ (h : Host) (core : Core) (e : NftTransferFunc) where
  -- One token at the destination, from its three arguments.
  unfoldable pub receive_token :
      h.World
      → ContractCallInput
      → h.Account
      → ℕ
      → VmOutput
      → Outcome BuiltInError (VmOutput × h.World)
  receive_token w input dst start out = do
    token_id ← at input.arguments start
    nonce_bytes ← at input.arguments (start + 1)
    value_bytes ← at input.arguments (start + 2)
    let nonce = uint64 (set_bytes nonce_bytes)
    (value, w') ←
        if ltb 0 nonce
        then (do
          token ←
              if ltb max_length_for_value_to_opt_transfer (length value_bytes)
              then lift (h.unmarshal_token empty_token value_bytes)
              else ok (record empty_token {
                value = some (pos (set_bytes value_bytes));
                token_type = core.non_fungible;
              })
          value ← or_panic token.value
          (_, w1) ←
              add_nft_to_destination h core e w input.caller_addr input.recipient_addr dst token
                (token_key core token_id) nonce input.return_call_after_error
          ok (value, w1))
        else (do
          w1 ←
              add_to_dct_balance h core w dst (token_key core token_id)
                (pos (set_bytes value_bytes)) input.return_call_after_error
          ok (pos (set_bytes value_bytes), w1))
    ok (
      add_dct_entry_in_vm_output out core.multi_dct_nft_transfer token_id nonce value
          (input.caller_addr ∷ h.address_bytes dst ∷ []),
      w',
    )

  unfoldable pub receive_tokens :
      h.World
      → ContractCallInput
      → h.Account
      → ℕ
      → ℕ
      → VmOutput
      → Outcome BuiltInError (VmOutput × h.World)
  unfolding receive_token
  receive_tokens w input dst start zero out = ok (out, w)
  receive_tokens w input dst start (suc n) out = do
    (out1, w1) ← receive_token w input dst start out
    receive_tokens w1 input dst (start + arguments_per_transfer) n out1

  unfoldable pub process_multi_transfer_on_destination_shard :
      h.World
      → Option h.Account
      → Option h.Account
      → ContractCallInput
      → Outcome BuiltInError (VmOutput × h.World)
  unfolding receive_tokens
  process_multi_transfer_on_destination_shard w acnt_snd acnt_dst input = do
    guard (is_nil acnt_snd) invalid_rcv_addr
    dst ← account_or_error invalid_rcv_addr acnt_dst
    count_bytes ← at input.arguments 0
    let num_of_transfers = uint64 (set_bytes count_bytes)
    guard (not (num_of_transfers == 0)) invalid_arguments
    let min_num_of_arguments = wrap (num_of_transfers * arguments_per_transfer + 1)
    guard (not (ltb (length input.arguments) min_num_of_arguments)) invalid_arguments
    make_slice num_of_transfers
    check_payable h core e.payable_handler w input input.recipient_addr min_num_of_arguments
    (out, w') ← receive_tokens w input dst 1 num_of_transfers (output_with_gas input.gas_provided)
    called ←
        if ltb min_num_of_arguments (length input.arguments)
          && is_smart_contract_address input.recipient_addr
        then (do
          function ← at input.arguments min_num_of_arguments
          ok (
              add_output_transfer_to_vm_output input.caller_addr function
                (drop (min_num_of_arguments + 1) input.arguments) input.recipient_addr
                input.gas_locked input.call_type out))
        else ok out
    ok (called, w')

  unfoldable pub transfer_one_token_on_sender_shard :
      h.World
      → h.Account
      → Option h.Account
      → Bytes
      → DctTransfer
      → Bool
      → Outcome BuiltInError (DcToken × h.World)
  unfolding compute_insufficient_quantity_dct_error
  transfer_one_token_on_sender_shard w snd acnt_dst dst_address transfer back = do
    guard (not (is_not_positive transfer.dct_value)) invalid_nft_quantity
    let key = token_key core transfer.dct_token_name
    let nonce = transfer.dct_token_nonce
    token ← get_dct_nft_token_on_sender h core e.enable_epochs w snd key nonce
    held ← or_panic token.value
    guard (not (is_negative (held +ℤ neg transfer.dct_value)))
        (compute_insufficient_quantity_dct_error transfer.dct_token_name nonce)
    (_, w1) ←
        save_dct_nft_token h core e.enable_epochs w (h.address_bytes snd) snd key nonce
          (record token { value = some (held +ℤ neg transfer.dct_value) }) false back
    let sent : DcToken = record token { value = some transfer.dct_value }
    let token_id =
        if e.enable_epochs.is_check_correct_token_id_for_transfer_role
        then transfer.dct_token_name
        else key
    check_if_transfer_can_happen_with_limited_transfer h core e.global_settings w1 token_id key
        (h.address_bytes snd) dst_address (some snd) acnt_dst back
    elim acnt_dst [
      | some dst ↦
          add_nft_to_destination h core e w1 (h.address_bytes snd) dst_address dst sent key nonce
            back
      | none ↦ do
        w2 ←
            add_to_liquidity_system_acc h core e.enable_epochs w1 key nonce (neg transfer.dct_value)
        ok (sent, w2)
    ]

  -- listTransferData[i], from its three arguments.
  unfoldable pub transfer_data_at : List Bytes → ℕ → Outcome BuiltInError DctTransfer
  transfer_data_at arguments start = do
    value_bytes ← at arguments (start + 2)
    name ← at arguments start
    nonce_bytes ← at arguments (start + 1)
    let nonce = uint64 (set_bytes nonce_bytes)
    ok (record {
      dct_value = pos (set_bytes value_bytes);
      dct_token_name = name;
      dct_token_type = if ltb 0 nonce then core.non_fungible else 0;
      dct_token_nonce = nonce;
    })

  -- The loop of the sender's part: what was sent of each token, the output and the state. A nil
  -- account is dereferenced in it.
  unfoldable pub send_tokens :
      h.World
      → Option h.Account
      → Option h.Account
      → Bytes
      → ContractCallInput
      → ℕ
      → ℕ
      → VmOutput
      → Outcome BuiltInError ((List (DctTransfer × DcToken) × VmOutput) × h.World)
  unfolding transfer_data_at transfer_one_token_on_sender_shard
  send_tokens w acnt_snd acnt_dst dst_address input start zero out = ok (([], out), w)
  send_tokens w acnt_snd acnt_dst dst_address input start (suc n) out = do
    transfer ← transfer_data_at input.arguments start
    guard (not (is_not_positive transfer.dct_value)) invalid_nft_quantity
    snd ← or_panic acnt_snd
    (token, w1) ←
        transfer_one_token_on_sender_shard w snd acnt_dst dst_address transfer
          input.return_call_after_error
    let logged =
        add_dct_entry_in_vm_output out core.multi_dct_nft_transfer transfer.dct_token_name
          transfer.dct_token_nonce transfer.dct_value (input.caller_addr ∷ dst_address ∷ [])
    ((rest, out'), w') ←
        send_tokens w1 acnt_snd acnt_dst dst_address input (start + arguments_per_transfer) n logged
    ok (((transfer, token) ∷ rest, out'), w')

  unfoldable pub load_account_if_in_shard :
      h.World → Bytes → Outcome BuiltInError (Option h.Account)
  load_account_if_in_shard w dst_address =
      if not (h.self_id == h.compute_id dst_address)
      then ok none
      else (do account ← get_account h w dst_address; ok (some account))

  -- The third argument of a token that goes out.
  unfoldable pub value_argument :
      h.World
      → DctTransfer
      → DcToken
      → Bytes
      → VmOutput
      → Outcome BuiltInError ((Bytes × VmOutput) × h.World)
  value_argument w transfer token dst_address out =
      if ltb 0 transfer.dct_token_nonce
      then (do
        (was_already_sent, w1) ←
            was_already_sent_to_destination_shard_and_update_state h core e.enable_epochs w
              transfer.dct_token_name transfer.dct_token_nonce dst_address
        if not was_already_sent
              || (is_one transfer.dct_value
                  || ltb max_length_for_value_to_opt_transfer
                      (length (to_bytes (abs transfer.dct_value))))
            then (do
              (argument, out1) ← send_marshaled h core e token out
              ok ((argument, out1), w1))
            else ok ((to_bytes (abs transfer.dct_value), out), w1))
      else ok ((to_bytes (abs transfer.dct_value), out), w)

  -- The loop of `createDCTNFTOutputTransfers`: three arguments for each token.
  unfoldable pub call_arguments :
      h.World
      → List (DctTransfer × DcToken)
      → Bytes
      → VmOutput
      → Outcome BuiltInError ((List Bytes × VmOutput) × h.World)
  unfolding value_argument
  call_arguments w [] dst_address out = ok (([], out), w)
  call_arguments w ((transfer, token) ∷ others) dst_address out = do
    ((argument, out1), w1) ← value_argument w transfer token dst_address out
    ((rest, out2), w2) ← call_arguments w1 others dst_address out1
    let nonce_as_bytes =
        if ltb 0 transfer.dct_token_nonce then to_bytes transfer.dct_token_nonce else 0 ∷ []
    ok ((transfer.dct_token_name ∷ nonce_as_bytes ∷ argument ∷ rest, out2), w2)

  unfoldable pub create_dct_nft_output_transfers :
      h.World
      → ContractCallInput
      → VmOutput
      → List (DctTransfer × DcToken)
      → Bytes
      → Outcome BuiltInError (VmOutput × h.World)
  unfolding call_arguments
  create_dct_nft_output_transfers w input out sent dst_address = do
    ((arguments, out1), w1) ← call_arguments w sent dst_address out
    let min_num_of_arguments = length sent * arguments_per_transfer + 2
    out2 ←
        send_transfer h core e input core.multi_dct_nft_transfer dst_address
          (to_bytes (length sent) ∷ (arguments ++ drop min_num_of_arguments input.arguments))
          min_num_of_arguments out1
    ok (out2, w1)

  -- CheckPayable is asked, and the account saved, where the destination is of this shard.
  abbrev pub check_payable_in_shard :
      h.World → ContractCallInput → Option h.Account → Bytes → ℕ → Outcome BuiltInError (Unit {0})
  check_payable_in_shard w input none dst_address min_len = ok tt
  check_payable_in_shard w input (some dst) dst_address min_len =
      check_payable h core e.payable_handler w input dst_address min_len

  abbrev pub save_in_shard : h.World → Option h.Account → Outcome BuiltInError h.World
  save_in_shard w none = ok w
  save_in_shard w (some dst) = lift (h.save_account w dst)

  unfoldable pub process_dct_nft_multi_transfer_on_sender_shard :
      h.World → Option h.Account → ContractCallInput → Outcome BuiltInError (VmOutput × h.World)
  unfolding send_tokens load_account_if_in_shard create_dct_nft_output_transfers
  process_dct_nft_multi_transfer_on_sender_shard w acnt_snd input = do
    dst_address ← at input.arguments 0
    guard (length dst_address == length input.caller_addr) invalid_arguments
    guard (not (bytes_equal dst_address input.caller_addr)) invalid_arguments
    guard (not (is_invalid_transfer_to_meta h core e.enable_epochs dst_address)) invalid_rcv_addr
    count_bytes ← at input.arguments 1
    let num_of_transfers = uint64 (set_bytes count_bytes)
    guard (not (num_of_transfers == 0)) invalid_arguments
    let min_num_of_arguments = wrap (num_of_transfers * arguments_per_transfer + 2)
    guard (not (ltb (length input.arguments) min_num_of_arguments)) invalid_arguments
    let multi_transfer_cost = wrap (num_of_transfers * e.func_gas_cost)
    guard (not (ltb input.gas_provided multi_transfer_cost)) not_enough_gas
    acnt_dst ← load_account_if_in_shard w dst_address
    check_payable_in_shard w input acnt_dst dst_address min_num_of_arguments
    make_slice num_of_transfers
    ((sent, out), w1) ←
        send_tokens w acnt_snd acnt_dst dst_address input 2 num_of_transfers
          (output_with_gas (input.gas_provided - multi_transfer_cost))
    w2 ← save_in_shard w1 acnt_dst
    create_dct_nft_output_transfers w2 input out sent dst_address

  unfoldable pub process_multi_transfer :
      h.World
      → Option h.Account
      → Option h.Account
      → Option ContractCallInput
      → Outcome BuiltInError (VmOutput × h.World)
  unfolding process_dct_nft_multi_transfer_on_sender_shard
      process_multi_transfer_on_destination_shard
  process_multi_transfer w acnt_snd acnt_dst vm_input = do
    input ← check_basic_dct_arguments core vm_input
    guard (not (ltb (length input.arguments) 4)) invalid_arguments
    if bytes_equal input.caller_addr input.recipient_addr
        then process_dct_nft_multi_transfer_on_sender_shard w acnt_snd input
        else process_multi_transfer_on_destination_shard w acnt_snd acnt_dst input
