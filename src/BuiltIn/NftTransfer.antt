-- ===== src/BuiltIn/NftTransfer.antt =====
-- builtInFunctions/dctNFTTransfer.go: the transfer of a token with a nonce, on the shard of the sender,
-- where the account calls itself, and on the shard of the destination.
pub mod Arrived
pub mod Conservation
use k_vm_common_go.Prelude.{
  ℕ, ◌+◌, ◌-◌, ◌*◌, ltb, ◌==◌, if◌then◌else◌, not, ◌&&◌, Bool, true, false, Option, none, some,
  List, [], ◌∷◌, ◌++◌, Bytes, length, take, drop, bytes_equal, Outcome, ok, err, panic, ◌>>=◌, ◌>>◌,
  guard, at, or_panic,
}
use k_vm_common_go.Prelude.Int.{ℤ, pos, negsuc, neg, ◌+ℤ◌}
use k_vm_common_go.Core.{Core}
use k_vm_common_go.Go.BigInt.{set_bytes, uint64}
use k_vm_common_go.Address.{is_smart_contract_address}
use k_vm_common_go.BuiltIn.Errors.{
  BuiltInError, invalid_arguments, invalid_rcv_addr, not_enough_gas, nft_does_not_have_metadata,
  invalid_nft_quantity,
}
use k_vm_common_go.BuiltIn.Epochs.{EnableEpochs}
use k_vm_common_go.BuiltIn.Host.{Host, DcToken, lift}
use k_vm_common_go.BuiltIn.Calls.{
  ContractCallInput, VmOutput, OutputTransfer, OutputAccount, output_with_gas, append_args,
  add_dct_entry_in_vm_output, add_output_transfer_to_vm_output, check_basic_dct_arguments,
  account_or_error, is_negative,
}
use k_vm_common_go.BuiltIn.GlobalSettings.{DctGlobalSettings, token_key}
use k_vm_common_go.BuiltIn.Balance.{check_froze_and_pause}
use k_vm_common_go.BuiltIn.Payable.{PayableChecker, check_payable, determine_is_sc_call_after}
use k_vm_common_go.BuiltIn.Transfer.{is_nil, check_if_transfer_can_happen_with_limited_transfer}
use k_vm_common_go.BuiltIn.KeyValue.{wrap}
use k_vm_common_go.BuiltIn.NftCreate.{get_account}
use k_vm_common_go.BuiltIn.TokenStorage.{
  empty_token, get_dct_nft_token_on_sender, get_dct_nft_token_on_destination,
}
use k_vm_common_go.BuiltIn.TokenStorage.System.{save_dct_nft_token, add_to_liquidity_system_acc}
use k_vm_common_go.BuiltIn.TokenStorage.Sent.{
  zero_byte_array, was_already_sent_to_destination_shard_and_update_state,
}

-- The fields of dctNFTTransfer, and of dctNFTMultiTransfer, that their methods read.
pub record NftTransferFunc : Type 0 where
  pub func_gas_cost : ℕ
  pub data_copy_per_byte : ℕ
  pub global_settings : DctGlobalSettings
  pub payable_handler : PayableChecker
  pub enable_epochs : EnableEpochs

-- Value.Cmp(oneValue) == 0
abbrev pub is_one : ℤ → Bool
is_one (pos n) = n == 1
is_one (negsuc n) = false

-- addNFTTransferToVMOutput
unfoldable pub add_nft_transfer_to_vm_output :
    Bytes → Bytes → Bytes → List Bytes → ℕ → ℕ → ℕ → VmOutput → VmOutput
unfolding append_args
add_nft_transfer_to_vm_output sender recipient func_to_call arguments gas_locked gas_limit call_type
      out =
    let transfer : OutputTransfer = record {
      value = pos 0;
      gas_limit = gas_limit;
      gas_locked = gas_locked;
      payload = append_args func_to_call arguments;
      call_type = call_type;
      sender_address = sender;
    } in
    record out {
      output_accounts =
          (recipient, record { address = recipient; output_transfers = transfer ∷ [] }) ∷ [];
    }

module _ (h : Host) (core : Core) where
  -- A metachain address is no destination before the flag.
  abbrev pub is_invalid_transfer_to_meta : EnableEpochs → Bytes → Bool
  is_invalid_transfer_to_meta epochs dst_address =
      (h.compute_id dst_address == core.metachain_shard_id) && not epochs.is_transfer_to_meta

  module _ (e : NftTransferFunc) where
    -- What is there and what comes is saved as one amount; the token with it is the second result.
    unfoldable pub add_nft_to_destination :
        h.World
        → Bytes
        → Bytes
        → h.Account
        → DcToken
        → Bytes
        → ℕ
        → Bool
        → Outcome BuiltInError (DcToken × h.World)
    add_nft_to_destination w snd_address dst_address account token key nonce back = do
      (current, is_new) ←
          get_dct_nft_token_on_destination h core e.enable_epochs w account key nonce
      check_froze_and_pause h core w dst_address key current back
      transfer_value ← or_panic token.value
      current_value ← or_panic current.value
      let sum : DcToken = record token { value = some (transfer_value +ℤ current_value) }
      (_, w1) ←
          save_dct_nft_token h core e.enable_epochs w snd_address account key nonce sum false back
      w2 ←
          if h.same_shard snd_address dst_address
          then ok w1
          else add_to_liquidity_system_acc h core e.enable_epochs w1 key nonce transfer_value
      ok (sum, w2)

    -- The token goes out marshalled, and its bytes cost gas.
    unfoldable pub send_marshaled : DcToken → VmOutput → Outcome BuiltInError (Bytes × VmOutput)
    send_marshaled token out = do
      marshaled ← lift (h.marshal_token token)
      let gas_for_transfer = wrap (length marshaled * e.data_copy_per_byte)
      guard (not (ltb out.gas_remaining gas_for_transfer)) not_enough_gas
      ok (marshaled, record out { gas_remaining = out.gas_remaining - gas_for_transfer })

    -- A call of the destination, if it is a contract of this shard, or the transfer to its shard.
    unfoldable pub send_transfer :
        ContractCallInput
        → Bytes
        → Bytes
        → List Bytes
        → ℕ
        → VmOutput
        → Outcome BuiltInError VmOutput
    unfolding add_nft_transfer_to_vm_output
    send_transfer input function dst_address call_args min_len out = do
      is_sc_call_after ←
          determine_is_sc_call_after h core e.payable_handler input dst_address min_len
      if not (h.self_id == h.compute_id dst_address)
          then ok (
              add_nft_transfer_to_vm_output input.caller_addr dst_address function call_args
                input.gas_locked (if is_sc_call_after then out.gas_remaining else 0) input.call_type
                (if is_sc_call_after then record out { gas_remaining = 0 } else out))
          else if is_sc_call_after
          then (do
            called ← at input.arguments min_len
            ok (
                add_output_transfer_to_vm_output input.caller_addr called
                  (drop (min_len + 1) input.arguments) dst_address input.gas_locked input.call_type
                  out))
          else ok out

    -- The last argument of the transfer: the token, or a zero where the shard has its metadata.
    unfoldable pub nft_argument :
        Bool → DcToken → VmOutput → Outcome BuiltInError (Bytes × VmOutput)
    unfolding send_marshaled
    nft_argument false token out = send_marshaled token out
    nft_argument true token out = do
      value ← or_panic token.value
      if is_one value then send_marshaled token out else ok (zero_byte_array, out)

    unfoldable pub create_nft_output_transfers :
        h.World
        → ContractCallInput
        → VmOutput
        → DcToken
        → Bytes
        → Bytes
        → ℕ
        → Outcome BuiltInError (VmOutput × h.World)
    unfolding nft_argument send_transfer
    create_nft_output_transfers w input out token dst_address ticker_id nonce = do
      (was_already_sent, w1) ←
          was_already_sent_to_destination_shard_and_update_state h core e.enable_epochs w ticker_id
            nonce dst_address
      (argument, out1) ← nft_argument was_already_sent token out
      let rest =
          if ltb core.min_len_arguments_dct_nft_transfer (length input.arguments)
          then drop 4 input.arguments
          else []
      out2 ←
          send_transfer input core.dct_nft_transfer dst_address
            (take 3 input.arguments ++ (argument ∷ rest)) core.min_len_arguments_dct_nft_transfer
            out1
      ok (out2, w1)

    -- The destination's part on the shard of the sender, or the liquidity that leaves the shard; the
    -- account is loaded in its own shard only.
    unfoldable pub give_on_sender_shard :
        h.World
        → ContractCallInput
        → Bytes
        → DcToken
        → Bytes
        → ℕ
        → ℕ
        → Outcome BuiltInError ((DcToken × Option h.Account) × h.World)
    unfolding add_nft_to_destination
    give_on_sender_shard w input dst_address token key nonce quantity =
        if h.self_id == h.compute_id dst_address
        then (do
          account ← get_account h w dst_address
          check_payable h core e.payable_handler w input dst_address
              core.min_len_arguments_dct_nft_transfer
          (sum, w1) ←
              add_nft_to_destination w input.caller_addr dst_address account token key nonce
                input.return_call_after_error
          w2 ← lift (h.save_account w1 account)
          ok ((sum, some account), w2))
        else (do
          w1 ← add_to_liquidity_system_acc h core e.enable_epochs w key nonce (neg (pos quantity))
          ok ((token, none), w1))

    unfoldable pub process_nft_transfer_on_sender_shard :
        h.World → Option h.Account → ContractCallInput → Outcome BuiltInError (VmOutput × h.World)
    unfolding give_on_sender_shard create_nft_output_transfers
    process_nft_transfer_on_sender_shard w acnt_snd input = do
      dst_address ← at input.arguments 3
      guard (length dst_address == length input.caller_addr) invalid_arguments
      guard (not (bytes_equal dst_address input.caller_addr)) invalid_arguments
      guard (not (is_invalid_transfer_to_meta e.enable_epochs dst_address)) invalid_rcv_addr
      guard (not (ltb input.gas_provided e.func_gas_cost)) not_enough_gas
      ticker_id ← at input.arguments 0
      nonce_bytes ← at input.arguments 1
      let key = token_key core ticker_id
      let nonce = uint64 (set_bytes nonce_bytes)
      snd ← or_panic acnt_snd
      token ← get_dct_nft_token_on_sender h core e.enable_epochs w snd key nonce
      guard (not (nonce == 0)) nft_does_not_have_metadata
      quantity_bytes ← at input.arguments 2
      let quantity = set_bytes quantity_bytes
      held ← or_panic token.value
      guard (not (is_negative (held +ℤ neg (pos quantity)))) invalid_nft_quantity
      guard (not (e.enable_epochs.is_check_transfer && (quantity == 0))) invalid_nft_quantity
      (_, w1) ←
          save_dct_nft_token h core e.enable_epochs w (h.address_bytes snd) snd key nonce
            (record token { value = some (held +ℤ neg (pos quantity)) }) false
            input.return_call_after_error
      ((sent, account), w2) ←
          give_on_sender_shard w1 input dst_address (record token { value = some (pos quantity) })
            key nonce quantity
      let token_id =
          if e.enable_epochs.is_check_correct_token_id_for_transfer_role then ticker_id else key
      check_if_transfer_can_happen_with_limited_transfer h core e.global_settings w2 token_id key
          (h.address_bytes snd) dst_address (some snd) account input.return_call_after_error
      (out, w3) ←
          create_nft_output_transfers w2 input
            (output_with_gas (input.gas_provided - e.func_gas_cost)) sent dst_address ticker_id
            nonce
      ok (
        add_dct_entry_in_vm_output out core.dct_nft_transfer ticker_id nonce (pos quantity)
            (input.caller_addr ∷ dst_address ∷ []),
        w3,
      )

    -- The token that a transfer of another shard carries.
    unfoldable pub carried_token : Bytes → ℕ → Outcome BuiltInError DcToken
    carried_token argument value =
        if bytes_equal argument zero_byte_array
        then ok (record empty_token { value = some (pos value); token_type = core.non_fungible })
        else lift (h.unmarshal_token empty_token argument)

    unfoldable pub process_nft_transfer :
        h.World
        → Option h.Account
        → Option h.Account
        → Option ContractCallInput
        → Outcome BuiltInError (VmOutput × h.World)
    unfolding process_nft_transfer_on_sender_shard carried_token add_nft_to_destination
    process_nft_transfer w acnt_snd acnt_dst vm_input = do
      input ← check_basic_dct_arguments core vm_input
      guard (not (ltb (length input.arguments) 4)) invalid_arguments
      if bytes_equal input.caller_addr input.recipient_addr
          then process_nft_transfer_on_sender_shard w acnt_snd input
          else (do
            guard (is_nil acnt_snd) invalid_rcv_addr
            dst ← account_or_error invalid_rcv_addr acnt_dst
            ticker_id ← at input.arguments 0
            nonce_bytes ← at input.arguments 1
            value_bytes ← at input.arguments 2
            argument ← at input.arguments 3
            let nonce = uint64 (set_bytes nonce_bytes)
            token ← carried_token argument (set_bytes value_bytes)
            check_payable h core e.payable_handler w input input.recipient_addr
                core.min_len_arguments_dct_nft_transfer
            (_, w') ←
                add_nft_to_destination w input.caller_addr input.recipient_addr dst token
                  (token_key core ticker_id) nonce input.return_call_after_error
            let out = output_with_gas input.gas_provided
            called ←
                if ltb core.min_len_arguments_dct_nft_transfer (length input.arguments)
                  && is_smart_contract_address input.recipient_addr
                then (do
                  function ← at input.arguments core.min_len_arguments_dct_nft_transfer
                  ok (
                      add_output_transfer_to_vm_output input.caller_addr function
                        (drop (core.min_len_arguments_dct_nft_transfer + 1) input.arguments)
                        input.recipient_addr input.gas_locked input.call_type out))
                else ok out
            ok (
              add_dct_entry_in_vm_output called core.dct_nft_transfer ticker_id nonce
                  (pos (set_bytes value_bytes)) (input.caller_addr ∷ h.address_bytes dst ∷ []),
              w',
            ))
