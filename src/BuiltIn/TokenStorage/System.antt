-- ===== src/BuiltIn/TokenStorage/System.antt =====
-- builtInFunctions/dctDataStorage.go: saving a token with a nonce, its metadata and its liquidity.
use k_vm_common_go.Prelude.{
  ℕ, zero, suc, ◌==◌, if◌then◌else◌, not, ◌||◌, ◌&&◌, Bool, Option, none, some, [], ◌∷◌, Bytes,
  replicate, Outcome, ok, err, panic, ◌>>=◌, ◌>>◌, or_panic, guard,
}
use k_vm_common_go.Prelude.Int.{ℤ, pos, ◌+ℤ◌}
use k_vm_common_go.Core.{Core}
use k_vm_common_go.BuiltIn.Errors.{
  BuiltInError, nil_user_account, nil_dct_data, invalid_liquidity_for_dct,
}
use k_vm_common_go.BuiltIn.Epochs.{EnableEpochs}
use k_vm_common_go.BuiltIn.Host.{Host, DcToken, lift}
use k_vm_common_go.BuiltIn.Calls.{is_negative, is_zero}
use k_vm_common_go.BuiltIn.GlobalSettings.{get_system_account, value_of}
use k_vm_common_go.BuiltIn.TokenStorage.{
  nft_token_key, empty_token, is_not_positive, is_empty, stored_or_none,
  get_dct_digital_token_data_from_system_account, check_frozen_pause_properties,
}

-- properties[i] = existsOnShard; an index out of range panics.
unfoldable pub mark_shard : Bytes → ℕ → Outcome BuiltInError Bytes
mark_shard [] i = panic
mark_shard (p ∷ properties) zero = ok (1 ∷ properties)
mark_shard (p ∷ properties) (suc i) = do rest ← mark_shard properties i; ok (p ∷ rest)

module _ (h : Host) where
  unfoldable pub marshal_and_save_data :
      h.World → h.Account → DcToken → Bytes → Outcome BuiltInError h.World
  marshal_and_save_data w system token key = do
    marshaled ← lift (h.marshal_token token)
    w' ← lift (h.save_key_value w system key marshaled)
    lift (h.save_account w' system)

  module _ (core : Core) (epochs : EnableEpochs) where
    -- A shard that is not the metachain is marked.
    abbrev pub mark_unless_meta : Bytes → ℕ → Outcome BuiltInError Bytes
    mark_unless_meta properties shard =
        if shard == core.metachain_shard_id then ok properties else mark_shard properties shard

    -- Metadata that was saved without liquidity is written again.
    unfoldable pub save_metadata_if_required :
        h.World → Bytes → h.Account → Bytes → DcToken → Outcome BuiltInError h.World
    save_metadata_if_required w key system current token =
        if not epochs.is_always_save_token_meta_data
        then ok w
        else if not epochs.is_send_always
        then ok w
        else if is_empty current
        then ok w
        else (do
          saved ← lift (h.unmarshal_token empty_token current)
          if not (is_empty saved.reserved)
              then ok w
              else marshal_and_save_data w system
                  (record saved { token_meta_data = token.token_meta_data }) key)

    abbrev pub reserved_for : Option DcToken → DcToken → DcToken
    reserved_for none on_system = on_system
    reserved_for (some on_user) on_system = elim on_user.token_meta_data [
      | none ↦ on_system
      | some m ↦ record on_system { reserved = [] }
    ]

    -- A token whose metadata the user's account still holds has no liquidity.
    unfoldable pub set_reserved_to_nil_for_old_token :
        h.World → DcToken → Option h.Account → Bytes → Outcome BuiltInError DcToken
    set_reserved_to_nil_for_old_token w on_system user key =
        if not epochs.is_fix_old_token_liquidity then ok on_system else elim user [
          | none ↦ err nil_user_account
          | some acnt ↦ do
            on_user ← stored_or_none h (h.retrieve_value w acnt key)
            ok (reserved_for on_user on_system)
        ]

    abbrev pub system_token : DcToken → DcToken
    system_token token = record {
      token_type = token.token_type;
      value = some (pos 0);
      properties = replicate h.number_of_shards 0;
      token_meta_data = token.token_meta_data;
      reserved = [];
    }

    -- The token for the system account, by what is there and by the flag.
    unfoldable pub new_system_token :
        h.World → Option h.Account → ℕ → Bytes → Bytes → DcToken → Outcome BuiltInError DcToken
    unfolding set_reserved_to_nil_for_old_token
    new_system_token w user sender_shard key current token =
        if not epochs.is_send_always
        then (do
          own ← mark_unless_meta (system_token token).properties h.self_id
          both ← mark_unless_meta own sender_shard
          ok (record (system_token token) { properties = both }))
        else if is_empty current
        then set_reserved_to_nil_for_old_token w
            (record (system_token token) { properties = []; reserved = 1 ∷ [] }) user key
        else ok (system_token token)

    unfoldable pub save_dct_meta_data_to_system_account :
        h.World → Option h.Account → ℕ → Bytes → ℕ → DcToken → Bool → Outcome BuiltInError h.World
    unfolding new_system_token
    save_dct_meta_data_to_system_account w user sender_shard key nonce token
          must_update_all_fields =
        if nonce == 0 then ok w else elim token.token_meta_data [
          | none ↦ ok w
          | some m ↦ do
            system ← get_system_account h w
            let current = value_of h (h.retrieve_value w system key)
            w1 ← save_metadata_if_required w key system current token
            if not must_update_all_fields && not (is_empty current) then ok w1 else (do
              on_system ← new_system_token w1 user sender_shard key current token
              marshal_and_save_data w1 system on_system key)
        ]

    -- What the account itself keeps.
    abbrev pub account_token : DcToken → DcToken
    account_token token =
        if not epochs.is_save_to_system_account
        then token
        else record token { token_meta_data = none; reserved = [] }

    -- The last step: the entry of the account goes, or is written.
    unfoldable pub save_on_account :
        h.World → h.Account → Bytes → DcToken → ℤ → Outcome BuiltInError (Bytes × h.World)
    save_on_account w acnt key token value =
        if is_not_positive value
        then (do w' ← lift (h.save_key_value w acnt key []); ok ([], w'))
        else (do
          marshaled ← lift (h.marshal_token (account_token token))
          w' ← lift (h.save_key_value w acnt key marshaled)
          ok (marshaled, w'))

    unfoldable pub save_dct_nft_token :
        h.World
        → Bytes
        → h.Account
        → Bytes
        → ℕ
        → DcToken
        → Bool
        → Bool
        → Outcome BuiltInError (Bytes × h.World)
    save_dct_nft_token w sender acnt dct_token_key nonce token must_update_all_fields back = do
      check_frozen_pause_properties h core epochs w acnt dct_token_key nonce token back
      let key = nft_token_key dct_token_key nonce
      w1 ←
          if epochs.is_save_to_system_account
          then save_dct_meta_data_to_system_account w (some acnt) (h.compute_id sender) key nonce
              token must_update_all_fields
          else ok w
      value ← or_panic token.value
      save_on_account w1 acnt key token value

    -- The liquidity with the amount added; without liquidity the entry goes.
    abbrev pub save_liquidity :
        h.World → h.Account → DcToken → Bytes → ℤ → Outcome BuiltInError h.World
    save_liquidity w system token key liquidity = do
      guard (not (is_negative liquidity)) invalid_liquidity_for_dct
      if is_zero liquidity
          then (do w' ← lift (h.save_key_value w system key []); lift (h.save_account w' system))
          else marshal_and_save_data w system (record token { value = some liquidity }) key

    abbrev pub change_liquidity :
        h.World → h.Account → DcToken → Bytes → ℤ → Outcome BuiltInError h.World
    change_liquidity w system token key value = if is_empty token.reserved then ok w else (do
      liquidity ← or_panic token.value
      if epochs.is_fix_old_token_liquidity && (is_zero liquidity && is_negative value)
          then marshal_and_save_data w system (record token { reserved = [] }) key
          else save_liquidity w system token key (liquidity +ℤ value))

    unfoldable pub add_to_liquidity_system_acc :
        h.World → Bytes → ℕ → ℤ → Outcome BuiltInError h.World
    unfolding get_dct_digital_token_data_from_system_account
    add_to_liquidity_system_acc w dct_token_key nonce value =
        if not epochs.is_save_to_system_account || (not epochs.is_send_always || (nonce == 0))
        then ok w
        else (do
          (stored, system) ←
              get_dct_digital_token_data_from_system_account h w (nft_token_key dct_token_key nonce)
                none
          elim stored [
            | none ↦ err nil_dct_data
            | some token ↦ change_liquidity w system token (nft_token_key dct_token_key nonce) value
          ])
