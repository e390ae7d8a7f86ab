-- ===== src/BuiltIn/TokenStorage.antt =====
-- builtInFunctions/dctDataStorage.go: where the tokens with a nonce are kept. An account keeps type,
-- value and properties under the token's key with the bytes of the nonce behind it; the system
-- account keeps the metadata under the same key, and there as the value the liquidity of the shard.
pub mod System
pub mod Sent
pub mod Saved
pub mod Liquidity
pub mod Found
pub mod Amounts
pub mod Marked
use k_vm_common_go.Prelude.{
  ℕ, ◌==◌, if◌then◌else◌, not, ◌||◌, Bool, true, false, Option, none, some, List, [], ◌∷◌, ◌++◌,
  Bytes, Outcome, ok, err, panic, ◌>>=◌, ◌>>◌, or_panic, guard,
}
use k_vm_common_go.Prelude.Int.{ℤ, pos}
use k_vm_common_go.Core.{Core}
use k_vm_common_go.Go.BigInt.{to_bytes}
use k_vm_common_go.Address.{system_account_address}
use k_vm_common_go.BuiltIn.Errors.{
  BuiltInError, new_nft_data_on_sender_address, nil_user_account, dct_is_frozen_for_account,
}
use k_vm_common_go.BuiltIn.Epochs.{EnableEpochs}
use k_vm_common_go.BuiltIn.Host.{Host, DcToken, MetaData, Reply, answer, failure, lift}
use k_vm_common_go.BuiltIn.Calls.{is_negative, is_zero}
use k_vm_common_go.BuiltIn.Metadata.{user_from_bytes}
use k_vm_common_go.BuiltIn.GlobalSettings.{get_system_account}
use k_vm_common_go.BuiltIn.Balance.{new_token, check_froze_and_pause}

-- computeDCTNFTTokenKey
abbrev pub nft_token_key : Bytes → ℕ → Bytes
nft_token_key dct_token_key nonce = dct_token_key ++ to_bytes nonce

-- &dct.DCToken{}
abbrev pub empty_token : DcToken
empty_token = record {
  token_type = 0;
  value = none;
  properties = [];
  token_meta_data = none;
  reserved = [];
}

-- Value.Cmp(zero) <= 0
abbrev pub is_not_positive : ℤ → Bool
is_not_positive v = is_zero v || is_negative v

abbrev pub is_empty : Bytes → Bool
is_empty [] = true
is_empty (b ∷ s) = false

-- The metadata of the system account, where it has some, takes the place of the account's.
abbrev pub with_meta_data : DcToken → Option MetaData → DcToken
with_meta_data token none = token
with_meta_data token (some m) = record token { token_meta_data = some m }

abbrev pub meta_data_of : Option DcToken → Option MetaData
meta_data_of none = none
meta_data_of (some token) = token.token_meta_data

module _ (h : Host) where
  -- `some` is the custom system account of `queryOptions`.
  abbrev pub system_account_or_custom : h.World → Option h.Account → Outcome BuiltInError h.Account
  system_account_or_custom w none = get_system_account h w
  system_account_or_custom w (some custom) = ok custom

  -- An error of the data trie counts as an account without the token.
  abbrev pub stored_or_none : Reply Bytes → Outcome BuiltInError (Option DcToken)
  stored_or_none (failure e) = ok none
  stored_or_none (answer []) = ok none
  stored_or_none (answer (b ∷ s)) = do
    token ← lift (h.unmarshal_token empty_token (b ∷ s))
    ok (some token)

  unfoldable pub get_dct_digital_token_data_from_system_account :
      h.World → Bytes → Option h.Account → Outcome BuiltInError (Option DcToken × h.Account)
  get_dct_digital_token_data_from_system_account w token_key options = do
    system ← system_account_or_custom w options
    token ← stored_or_none (h.retrieve_value w system token_key)
    ok (token, system)

  unfoldable pub get_dct_meta_data_from_system_account :
      h.World → Bytes → Option h.Account → Outcome BuiltInError (Option MetaData)
  unfolding get_dct_digital_token_data_from_system_account
  get_dct_meta_data_from_system_account w token_key options = do
    (token, system) ← get_dct_digital_token_data_from_system_account w token_key options
    ok (meta_data_of token)

  module _ (core : Core) (epochs : EnableEpochs) where
    -- What the account's own entry gives; `is_new` without one.
    abbrev pub token_on_account : Reply Bytes → Outcome BuiltInError (DcToken × Bool)
    token_on_account (failure e) = ok (new_token h core, true)
    token_on_account (answer []) = ok (new_token h core, true)
    token_on_account (answer (b ∷ s)) = do
      token ← lift (h.unmarshal_token (new_token h core) (b ∷ s))
      ok (token, false)

    unfoldable pub get_dct_nft_token_on_destination_with_options :
        h.World → h.Account → Bytes → ℕ → Option h.Account → Outcome BuiltInError (DcToken × Bool)
    unfolding get_dct_meta_data_from_system_account
    get_dct_nft_token_on_destination_with_options w accnt dct_token_key nonce options = do
      (token, is_new) ←
          token_on_account (h.retrieve_value w accnt (nft_token_key dct_token_key nonce))
      if is_new || (not epochs.is_save_to_system_account || (nonce == 0))
          then ok (token, is_new)
          else (do
            meta ←
                get_dct_meta_data_from_system_account w (nft_token_key dct_token_key nonce) options
            ok (with_meta_data token meta, false))

    unfoldable pub get_dct_nft_token_on_destination :
        h.World → h.Account → Bytes → ℕ → Outcome BuiltInError (DcToken × Bool)
    get_dct_nft_token_on_destination w accnt dct_token_key nonce =
        get_dct_nft_token_on_destination_with_options w accnt dct_token_key nonce none

    unfoldable pub get_dct_nft_token_on_destination_with_custom_system_account :
        h.World → h.Account → Bytes → ℕ → Option h.Account → Outcome BuiltInError (DcToken × Bool)
    get_dct_nft_token_on_destination_with_custom_system_account w accnt dct_token_key nonce none =
        err nil_user_account
    get_dct_nft_token_on_destination_with_custom_system_account w accnt key nonce (some custom) =
        get_dct_nft_token_on_destination_with_options w accnt key nonce (some custom)

    unfoldable pub get_dct_nft_token_on_sender :
        h.World → h.Account → Bytes → ℕ → Outcome BuiltInError DcToken
    get_dct_nft_token_on_sender w accnt dct_token_key nonce = do
      (token, is_new) ← get_dct_nft_token_on_destination w accnt dct_token_key nonce
      guard (not is_new) new_nft_data_on_sender_address
      ok token

    -- The account's entry for the whole collection.
    abbrev pub frozen_by : Reply Bytes → Outcome BuiltInError (Unit {0})
    frozen_by (failure e) = ok tt
    frozen_by (answer []) = ok tt
    frozen_by (answer (b ∷ s)) = do
      token ← lift (h.unmarshal_token (new_token h core) (b ∷ s))
      guard (not (user_from_bytes token.properties).frozen) dct_is_frozen_for_account

    unfoldable pub check_collection_is_frozen_for_account :
        h.World → h.Account → Bytes → ℕ → Bool → Outcome BuiltInError (Unit {0})
    check_collection_is_frozen_for_account w accnt dct_token_key nonce is_return_with_error =
        if not epochs.is_check_frozen_collection
        then ok tt
        else if (nonce == 0) || is_return_with_error
        then ok tt
        else frozen_by (h.retrieve_value w accnt dct_token_key)

    unfoldable pub check_frozen_pause_properties :
        h.World → h.Account → Bytes → ℕ → DcToken → Bool → Outcome BuiltInError (Unit {0})
    check_frozen_pause_properties w acnt dct_token_key nonce token is_return_with_error = do
      check_froze_and_pause h core w (h.address_bytes acnt) dct_token_key token is_return_with_error
      check_froze_and_pause h core w (h.address_bytes acnt) (nft_token_key dct_token_key nonce)
          token is_return_with_error
      check_collection_is_frozen_for_account w acnt dct_token_key nonce is_return_with_error
