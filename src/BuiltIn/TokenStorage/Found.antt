-- ===== src/BuiltIn/TokenStorage/Found.antt =====
-- What reading a token with a nonce finds: the amount is that of the account's own entry.
use k_vm_common_go.Prelude.{
  ℕ, ◌==◌, ◌≡◌, refl, sym, ap, ◌∙◌, not, ◌||◌, Bool, Option, none, some, [], ◌∷◌, Bytes, ok,
  after_ok, after_if, guard,
}
use k_vm_common_go.Prelude.Int.{ℤ}
use k_vm_common_go.Core.{Core}
use k_vm_common_go.BuiltIn.Errors.{new_nft_data_on_sender_address}
use k_vm_common_go.BuiltIn.Epochs.{EnableEpochs}
use k_vm_common_go.BuiltIn.Host.{Host, DcToken, MetaData, Reply, answer, failure, lift}
use k_vm_common_go.BuiltIn.Balance.{new_token, token_of_reply, get_dct_data_from_key}
use k_vm_common_go.BuiltIn.TokenStorage.{
  nft_token_key, with_meta_data, token_on_account, get_dct_meta_data_from_system_account,
  get_dct_nft_token_on_destination_with_options, get_dct_nft_token_on_destination,
  get_dct_nft_token_on_sender,
}
use k_vm_common_go.BuiltIn.TokenStorage.Saved.{HasAmount}

module _ (h : Host) (core : Core) (epochs : EnableEpochs) where
  on_account-of_reply :
      (r : Reply Bytes) (t : DcToken) (is_new : Bool)
      → token_on_account h core epochs r ≡ ok (t, is_new)
      → token_of_reply h core r ≡ ok t
  on_account-of_reply (failure e) t is_new h1 = cc (h1)
  on_account-of_reply (answer []) t is_new h1 = cc (h1)
  on_account-of_reply (answer (b ∷ s)) t is_new h1 =
      after_ok (lift (h.unmarshal_token (new_token h core) (b ∷ s))) _ h1
        λ token read last. let same : token ≡ t = cc (last) in rw (← same) read

  with_meta_data-value : (t : DcToken) (m : Option MetaData) → (with_meta_data t m).value ≡ t.value
  with_meta_data-value t none = refl
  with_meta_data-value t (some m) = refl

  pub HasAmount-of_destination :
      (w : h.World) (a : h.Account) (token_key : Bytes) (nonce : ℕ) (t : DcToken) (is_new : Bool)
      (v : ℤ)
      → get_dct_nft_token_on_destination h core epochs w a token_key nonce ≡ ok (t, is_new)
      → t.value ≡ some v
      → HasAmount h core w a (nft_token_key token_key nonce) v
  unfolding get_dct_nft_token_on_destination get_dct_nft_token_on_destination_with_options
      get_dct_data_from_key
  HasAmount-of_destination w a token_key nonce t is_new v e amount =
      let key = nft_token_key token_key nonce in
      after_ok (token_on_account h core epochs (h.retrieve_value w a key)) _ e λ (u, new_u) read e1.
        let stored = on_account-of_reply (h.retrieve_value w a key) u new_u read in
        after_if (new_u || (not epochs.is_save_to_system_account || (nonce == 0))) _ _ e1
          (λ plain last.
            let same : u ≡ t = cc (last) in
            record { token = u; stored = stored; amount = rw same amount })
          (λ meta e2.
            after_ok (get_dct_meta_data_from_system_account h w key none) _ e2 λ m found last.
              let same : with_meta_data u m ≡ t = cc (last) in
              let value : t.value ≡ u.value =
                ap (λ x. x.value) (sym same) ∙ with_meta_data-value u m in
              record { token = u; stored = stored; amount = sym value ∙ amount })

  pub HasAmount-of_sender :
      (w : h.World) (a : h.Account) (token_key : Bytes) (nonce : ℕ) (t : DcToken) (v : ℤ)
      → get_dct_nft_token_on_sender h core epochs w a token_key nonce ≡ ok t
      → t.value ≡ some v
      → HasAmount h core w a (nft_token_key token_key nonce) v
  unfolding get_dct_nft_token_on_sender
  HasAmount-of_sender w a token_key nonce t v e amount =
      after_ok (get_dct_nft_token_on_destination h core epochs w a token_key nonce) _ e
        λ (u, is_new) found e1.
          after_ok (guard (not is_new) new_nft_data_on_sender_address) _ e1 λ _ there last.
            let same : u ≡ t = cc (last) in
            HasAmount-of_destination w a token_key nonce u is_new v found (rw same amount)
