-- ===== src/BuiltIn/NftCreate/Stored.antt =====
-- What saving a new token leaves: the amount under the new nonce, and the counter.
use k_vm_common_go.Prelude.{
  ℕ, ◌^◌, ◌<◌, ◌≡◌, ◌≢◌, refl, sym, ap, ◌∙◌, inl, inr, arith, Bool, true, false, some, List, [],
  ◌∷◌, Bytes, Outcome, ok, after_ok, at,
}
use k_vm_common_go.Prelude.Int.{ℤ, pos}
use k_vm_common_go.Core.{Core}
use k_vm_common_go.Go.BigInt.{set_bytes, to_bytes, uint64, read_from}
use k_vm_common_go.Go.BigInt.RoundTrip.{set_bytes-to_bytes}
use k_vm_common_go.BuiltIn.Errors.{BuiltInError}
use k_vm_common_go.BuiltIn.Epochs.{EnableEpochs}
use k_vm_common_go.BuiltIn.Host.{
  Host, DcToken, IsStore, KeepsAccounts, IsMarshaller, lift, lift-eq-ok, answer,
}
use k_vm_common_go.BuiltIn.Roles.{nonce_key, save_latest_nonce}
use k_vm_common_go.BuiltIn.GlobalSettings.{token_key}
use k_vm_common_go.BuiltIn.KeyValue.{wrap}
use k_vm_common_go.BuiltIn.TokenStorage.{nft_token_key}
use k_vm_common_go.BuiltIn.TokenStorage.System.{save_dct_nft_token, add_to_liquidity_system_acc}
use k_vm_common_go.BuiltIn.TokenStorage.Saved.{HasAmount, kept_value, save_dct_nft_token_sound}
use k_vm_common_go.BuiltIn.TokenStorage.Liquidity.{
  get_system_account-kept, add_to_liquidity-IsWrite,
}
use k_vm_common_go.BuiltIn.TokenStorage.Amounts.{HasAmount-kept, IsUser}
use k_vm_common_go.BuiltIn.NftCreate.{nonce_of_reply, get_latest_nonce, new_nft, save_new_nft}

-- The key of a counter is no key of a token.
pub record HasDistinctKeys (core : Core) : Type 0 where
  pub nonce_key-ne-token :
      (counted token : Bytes) (nonce : ℕ)
      → nonce_key core counted ≢ nft_token_key (token_key core token) nonce

-- The largest nonce is that of a uint64.
pub nonce_back :
    (b : Bytes) (n : ℕ) → set_bytes b ≡ n → n < 2 ^ 64 → nonce_of_reply (answer b) ≡ ok n
unfolding set_bytes read_from uint64
nonce_back [] n e small = rw e refl
nonce_back (x ∷ b) n e small = rw e (ap (λ m. ok m) (omega arith))

pub wrap_small : (n : ℕ) → wrap n < 2 ^ 64
wrap_small n = omega arith

module _ (h : Host) (core : Core) (keys : HasDistinctKeys core) (store : IsStore h)
    (accounts : KeepsAccounts h) (marshaller : IsMarshaller h) (epochs : EnableEpochs) where
  abbrev made : DcToken → Outcome BuiltInError DcToken
  made t = ok t

  value_of_token : (t u : DcToken) → made u ≡ ok t → t.value ≡ u.value
  value_of_token t u e = let same : u ≡ t = cc (e) in ap (λ x. x.value) (sym same)

  pub new_nft-value :
      (creator : Bytes) (nonce royalties : ℕ) (uris arguments : List Bytes) (quantity : Bytes)
      (t : DcToken)
      → at {E = BuiltInError} arguments 1 ≡ ok quantity
      → new_nft h core creator nonce royalties uris arguments ≡ ok t
      → t.value ≡ some (pos (set_bytes quantity))
  unfolding new_nft
  new_nft-value creator nonce royalties uris arguments quantity t named e =
      after_ok (at arguments 1) _ e λ q q_at e1. after_ok (at arguments 2) _ e1 λ name _ e2.
        after_ok (at arguments 4) _ e2 λ hash _ e3.
          after_ok (at arguments 5) _ e3 λ attributes _ last.
            let same : q ≡ quantity = cc (q_at, named) in
            value_of_token t _ last ∙ ap (λ x. some (pos (set_bytes x))) same

  -- The new token and the new counter.
  pub record IsCreated (w w' : h.World) (a : h.Account) (token : Bytes) (nonce : ℕ) (quantity : ℤ)
      : Type 0 where
    pub counted : get_latest_nonce h core w' a token ≡ ok nonce
    pub has :
        HasAmount h core w' a (nft_token_key (token_key core token) nonce) (kept_value quantity)

  pub save_new_nft_sound :
      (w w' : h.World) (a : h.Account) (token : Bytes) (nonce : ℕ) (t : DcToken) (quantity : ℤ)
      (back : Bool)
      → IsUser h core w a
      → nonce < 2 ^ 64
      → t.value ≡ some quantity
      → save_new_nft h core epochs w a token nonce t quantity back false ≡ ok w'
      → IsCreated w w' a token nonce quantity
  unfolding save_new_nft save_latest_nonce get_latest_nonce
  save_new_nft_sound w w' a token nonce t quantity back user small amount e =
      let key = token_key core token in
      let k = nft_token_key key nonce in
      after_ok (save_dct_nft_token h core epochs w (h.address_bytes a) a key nonce t true back) _ e
        λ (s, w1) saved e1.
          let first =
            save_dct_nft_token_sound h store accounts core epochs marshaller w w1
              (h.address_bytes a) a key s nonce t quantity true back amount saved in
          after_ok (add_to_liquidity_system_acc h core epochs w1 key nonce quantity) _ e1
            λ w2 liquidity e2.
              let second =
                add_to_liquidity-IsWrite h store accounts core epochs w1 w2 key nonce quantity
                  liquidity in
              let same = get_system_account-kept h w w1 _ k first.write in
              let here : HasAmount h core w2 a k (kept_value quantity) =
                HasAmount-kept h core w1 w2 a k (kept_value quantity)
                  (second.others a k (inl (λ system. user (sym same ∙ system)))) first.holds in
              after_ok (lift (h.save_key_value w2 a (nonce_key core token) (to_bytes nonce))) _ e2
                λ w3 counted last.
                  let end : w3 ≡ w' = cc (last) in
                  let written : h.save_key_value w2 a (nonce_key core token) (to_bytes nonce)
                      ≡ answer w' =
                    rw (← end) (
                      lift-eq-ok (h.save_key_value w2 a (nonce_key core token) (to_bytes nonce))
                        counted) in
                  record {
                    counted =
                        rw
                          (store.retrieve-save_self w2 w' a (nonce_key core token) (to_bytes nonce)
                            written)
                          (nonce_back (to_bytes nonce) nonce (set_bytes-to_bytes nonce) small);
                    has =
                        HasAmount-kept h core w2 w' a k (kept_value quantity)
                          (store.retrieve-save_other w2 w' a a (nonce_key core token) k
                            (to_bytes nonce) written
                            (inr (λ same_key.
                              keys.nonce_key-ne-token token token nonce (sym same_key))))
                          here;
                  }
