-- ===== src/BuiltIn/TokenStorage/Sent.antt =====
-- builtInFunctions/dctDataStorage.go: which shards have the metadata of a token, and the metadata that
-- a transaction of another shard brings.
use k_vm_common_go.Prelude.{
  ℕ, zero, suc, ◌+◌, ◌-◌, ◌*◌, ltb, ◌==◌, if◌then◌else◌, not, ◌&&◌, Bool, true, false, Option, none,
  some, List, [], ◌∷◌, ◌++◌, Bytes, length, replicate, bytes_equal, Outcome, ok, err, panic, ◌>>=◌,
  ◌>>◌, guard, at,
}
use k_vm_common_go.Core.{Core}
use k_vm_common_go.Go.BigInt.{set_bytes, uint64}
use k_vm_common_go.VmTypes.{max_length_for_value_to_opt_transfer}
use k_vm_common_go.Parsers.Errors.{ParseError}
use k_vm_common_go.Parsers.CallArgs.{parse_data}
use k_vm_common_go.BuiltIn.Errors.{BuiltInError, invalid_arguments, nil_transaction_handler}
use k_vm_common_go.BuiltIn.Epochs.{EnableEpochs}
use k_vm_common_go.BuiltIn.Host.{Host, DcToken, lift}
use k_vm_common_go.BuiltIn.GlobalSettings.{token_key}
use k_vm_common_go.BuiltIn.KeyValue.{wrap}
use k_vm_common_go.BuiltIn.TokenStorage.{
  nft_token_key, empty_token, get_dct_digital_token_data_from_system_account,
}
use k_vm_common_go.BuiltIn.TokenStorage.System.{
  mark_shard, marshal_and_save_data, save_dct_meta_data_to_system_account,
}

-- zeroByteArray
abbrev pub zero_byte_array : Bytes
zero_byte_array = 0 ∷ []

-- argumentsPerTransfer
abbrev pub arguments_per_transfer : ℕ
arguments_per_transfer = 3

-- What the storage reads of a transaction.
pub record Transaction : Type 0 where
  pub snd_addr : Bytes
  pub rcv_addr : Bytes
  pub payload : Bytes

module _ (h : Host) where
  -- A byte for each shard, where there were fewer.
  abbrev pub widened : Bytes → Bytes
  widened properties =
      if ltb (length properties) h.number_of_shards
      then properties ++ replicate (h.number_of_shards - length properties) 0
      else properties

  module _ (core : Core) (epochs : EnableEpochs) where
    abbrev pub mark_as_sent :
        h.World → Option DcToken → h.Account → Bytes → ℕ → Outcome BuiltInError (Bool × h.World)
    mark_as_sent w none system key shard = ok (false, w)
    mark_as_sent w (some token) system key shard = do
      mark ← at (widened token.properties) shard
      if ltb 0 mark then ok (true, w) else (do
        properties ← mark_shard (widened token.properties) shard
        w' ← marshal_and_save_data h w system (record token { properties = properties }) key
        ok (false, w'))

    unfoldable pub was_already_sent_to_destination_shard_and_update_state :
        h.World → Bytes → ℕ → Bytes → Outcome BuiltInError (Bool × h.World)
    was_already_sent_to_destination_shard_and_update_state w ticker_id nonce dst_address =
        if not epochs.is_save_to_system_account
        then ok (false, w)
        else if nonce == 0
        then ok (true, w)
        else if h.compute_id dst_address == h.self_id
        then ok (true, w)
        else if epochs.is_send_always
        then ok (false, w)
        else if h.compute_id dst_address == core.metachain_shard_id
        then ok (true, w)
        else (do
          let key = nft_token_key (token_key core ticker_id) nonce
          (token, system) ← get_dct_digital_token_data_from_system_account h w key none
          mark_as_sent w token system key (h.compute_id dst_address))

    -- A token that the transaction carries is unmarshalled and its metadata saved.
    abbrev pub save_carried : h.World → ℕ → Bytes → ℕ → Bytes → Outcome BuiltInError h.World
    save_carried w snd_shard_id token_id nonce marshaled = do
      token ← lift (h.unmarshal_token empty_token marshaled)
      save_dct_meta_data_to_system_account h core epochs w none snd_shard_id
          (nft_token_key (token_key core token_id) nonce) nonce token true

    unfoldable pub add_meta_data_to_system_account_from_nft_transfer :
        h.World → ℕ → List Bytes → Outcome BuiltInError h.World
    add_meta_data_to_system_account_from_nft_transfer w snd_shard_id arguments = do
      carried ← at arguments 3
      if bytes_equal carried zero_byte_array then ok w else (do
        token_id ← at arguments 0
        nonce_bytes ← at arguments 1
        save_carried w snd_shard_id token_id (uint64 (set_bytes nonce_bytes)) carried)

    -- One round of the loop, for the three arguments from the index.
    unfoldable pub save_carried_at : h.World → ℕ → List Bytes → ℕ → Outcome BuiltInError h.World
    save_carried_at w snd_shard_id arguments start = do
      token_id ← at arguments start
      nonce_bytes ← at arguments (start + 1)
      if ltb 0 (uint64 (set_bytes nonce_bytes))
          then (do
            carried ← at arguments (start + 2)
            if ltb max_length_for_value_to_opt_transfer (length carried)
                then save_carried w snd_shard_id token_id (uint64 (set_bytes nonce_bytes)) carried
                else ok w)
          else ok w

    -- The slice ends before the index is out of the range of a uint64.
    unfoldable pub save_all_carried :
        h.World → ℕ → List Bytes → ℕ → ℕ → Outcome BuiltInError h.World
    unfolding save_carried_at
    save_all_carried w snd_shard_id arguments start zero = ok w
    save_all_carried w snd_shard_id arguments start (suc n) = do
      w' ← save_carried_at w snd_shard_id arguments start
      save_all_carried w' snd_shard_id arguments (start + arguments_per_transfer) n

    unfoldable pub add_meta_data_to_system_account_from_multi_transfer :
        h.World → ℕ → List Bytes → Outcome BuiltInError h.World
    unfolding save_all_carried
    add_meta_data_to_system_account_from_multi_transfer w snd_shard_id arguments = do
      count_bytes ← at arguments 0
      let num_of_transfers = uint64 (set_bytes count_bytes)
      guard (not (num_of_transfers == 0)) invalid_arguments
      guard (not (ltb (length arguments) (wrap (num_of_transfers * arguments_per_transfer + 1))))
          invalid_arguments
      save_all_carried w snd_shard_id arguments 1 num_of_transfers

    -- Data that is no call brings no metadata.
    unfoldable pub save_by_call :
        h.World → ℕ → Outcome ParseError (Bytes × List Bytes) → Outcome BuiltInError h.World
    unfolding add_meta_data_to_system_account_from_nft_transfer
        add_meta_data_to_system_account_from_multi_transfer
    save_by_call w snd_shard_id panic = panic
    save_by_call w snd_shard_id (err e) = ok w
    save_by_call w snd_shard_id (ok (function, arguments)) =
        if ltb (length arguments) 4
        then ok w
        else if bytes_equal function core.dct_nft_transfer
        then add_meta_data_to_system_account_from_nft_transfer w snd_shard_id arguments
        else if bytes_equal function core.multi_dct_nft_transfer
        then add_meta_data_to_system_account_from_multi_transfer w snd_shard_id arguments
        else ok w

    unfoldable pub save_nft_meta_data_to_system_account :
        h.World → Option Transaction → Outcome BuiltInError h.World
    unfolding save_by_call
    save_nft_meta_data_to_system_account w tx =
        if not epochs.is_save_to_system_account
        then ok w
        else if epochs.is_send_always
        then ok w
        else elim tx [
          | none ↦ err nil_transaction_handler
          | some t ↦
              if not (h.compute_id t.snd_addr == h.compute_id t.rcv_addr)
                && (h.self_id == h.compute_id t.rcv_addr)
              then save_by_call w (h.compute_id t.snd_addr) (parse_data t.payload)
              else ok w
        ]
