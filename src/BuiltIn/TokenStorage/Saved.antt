-- ===== src/BuiltIn/TokenStorage/Saved.antt =====
-- What saving a token with a nonce leaves in the data tries.
use k_vm_common_go.Prelude.{
  ℕ, ◌==◌, ◌≡◌, ◌≢◌, ◌⊎◌, inl, inr, refl, ◌∙◌, if◌then◌else◌, not, Bool, Bool-cases, Option-cases,
  Option, some, [], ◌∷◌, Bytes, Outcome, ok, after_ok, after_if, or_panic, or_panic-eq-ok,
}
use k_vm_common_go.Prelude.Int.{ℤ, pos}
use k_vm_common_go.Core.{Core}
use k_vm_common_go.BuiltIn.Epochs.{EnableEpochs}
use k_vm_common_go.BuiltIn.Errors.{BuiltInError}
use k_vm_common_go.BuiltIn.Host.{
  Host, DcToken, answer, lift, IsStore, KeepsAccounts, IsMarshaller, lift-eq-ok,
}
use k_vm_common_go.BuiltIn.GlobalSettings.{get_system_account, value_of}
use k_vm_common_go.BuiltIn.Balance.{new_token, token_of_reply, get_dct_data_from_key}
use k_vm_common_go.BuiltIn.TokenStorage.{
  nft_token_key, is_not_positive, is_empty, empty_token, check_frozen_pause_properties,
}
use k_vm_common_go.BuiltIn.TokenStorage.System.{
  marshal_and_save_data, save_metadata_if_required, new_system_token,
  save_dct_meta_data_to_system_account, save_on_account, account_token, save_dct_nft_token,
}

-- A value that is not positive is not kept.
abbrev pub kept_value : ℤ → ℤ
kept_value v = if is_not_positive v then pos 0 else v

module _ (h : Host) (core : Core) where
  -- The account's entry under the key has the value; without an entry it is zero.
  pub record HasAmount (w : h.World) (a : h.Account) (k : Bytes) (v : ℤ) : Type 0 where
    pub token : DcToken
    pub stored : get_dct_data_from_key h core w a k ≡ ok token
    pub amount : token.value ≡ some v

module _ (h : Host) where
  -- A step that writes under one key, to accounts that may be written: all other entries of the data
  -- tries, and which account has which address, are as before.
  pub record IsWrite (w w' : h.World) (may : h.Account → Type 0) (key : Bytes) : Type 0 where
    pub others :
        (b : h.Account) (j : Bytes)
        → (¬ may b) ⊎ (j ≢ key)
        → h.retrieve_value w' b j ≡ h.retrieve_value w b j
    pub loads : (s : Bytes) → h.load_account w' s ≡ h.load_account w s

  pub IsWrite-refl : (w : h.World) (may : h.Account → Type 0) (key : Bytes) → IsWrite w w may key
  IsWrite-refl w may key = record { others = λ b j off. refl; loads = λ s. refl }

  pub IsWrite-trans :
      (w w1 w2 : h.World) (may : h.Account → Type 0) (key : Bytes)
      → IsWrite w w1 may key
      → IsWrite w1 w2 may key
      → IsWrite w w2 may key
  IsWrite-trans w w1 w2 may key first second = record {
    others = λ b j off. second.others b j off ∙ first.others b j off;
    loads = λ s. second.loads s ∙ first.loads s;
  }

  abbrev kept : h.World → Outcome BuiltInError h.World
  kept w = ok w

  pub IsWrite-of_same :
      (w w' : h.World) (may : h.Account → Type 0) (key : Bytes)
      → kept w ≡ ok w'
      → IsWrite w w' may key
  IsWrite-of_same w w' may key e = let same : w ≡ w' = cc in rw (← same) (IsWrite-refl w may key)

  off_widened :
      (may can : h.Account → Type 0) (b : h.Account) (j key : Bytes)
      → (may b → can b)
      → (¬ can b) ⊎ (j ≢ key)
      → (¬ may b) ⊎ (j ≢ key)
  off_widened may can b j key wider (inl never) = inl (λ m. never (wider m))
  off_widened may can b j key wider (inr ne) = inr ne

  pub IsWrite-widen :
      (w w' : h.World) (may can : h.Account → Type 0) (key : Bytes)
      → ((b : h.Account) → may b → can b)
      → IsWrite w w' may key
      → IsWrite w w' can key
  IsWrite-widen w w' may can key wider write = record {
    others = λ b j off. write.others b j (off_widened may can b j key (wider b) off);
    loads = write.loads;
  }

  module _ (store : IsStore h) (accounts : KeepsAccounts h) where
    pub IsWrite-of_save :
        (w w' : h.World) (a : h.Account) (key v : Bytes)
        → h.save_key_value w a key v ≡ answer w'
        → IsWrite w w' (λ b. b ≡ a) key
    IsWrite-of_save w w' a key v e = record {
      others = λ b j off. store.retrieve-save_other w w' a b key j v e off;
      loads = λ s. accounts.load-save_key_value w w' a key v s e;
    }

    pub IsWrite-of_both :
        (w w1 w' : h.World) (a : h.Account) (key v : Bytes)
        → h.save_key_value w a key v ≡ answer w1
        → h.save_account w1 a ≡ answer w'
        → IsWrite w w' (λ b. b ≡ a) key
    IsWrite-of_both w w1 w' a key v e kept =
        IsWrite-trans w w1 w' (λ b. b ≡ a) key (IsWrite-of_save w w1 a key v e)
          (record {
            others = λ b j off. accounts.retrieve-save_account w1 w' a b j kept;
            loads = λ s. accounts.load-save_account w1 w' a s kept;
          })

    pub marshal_and_save_data-IsWrite :
        (w w' : h.World) (system : h.Account) (t : DcToken) (key : Bytes)
        → marshal_and_save_data h w system t key ≡ ok w'
        → IsWrite w w' (λ b. b ≡ system) key
    unfolding marshal_and_save_data
    marshal_and_save_data-IsWrite w w' system t key e =
        after_ok (lift (h.marshal_token t)) _ e λ s marshaled e1.
          after_ok (lift (h.save_key_value w system key s)) _ e1 λ w1 written e2.
            IsWrite-of_both w w1 w' system key s
              (lift-eq-ok (h.save_key_value w system key s) written)
              (lift-eq-ok (h.save_account w1 system) e2)

    module _ (core : Core) (epochs : EnableEpochs) where
      save_metadata_if_required-IsWrite :
          (w w' : h.World) (key : Bytes) (system : h.Account) (current : Bytes) (t : DcToken)
          → save_metadata_if_required h core epochs w key system current t ≡ ok w'
          → IsWrite w w' (λ b. b ≡ system) key
      unfolding save_metadata_if_required
      save_metadata_if_required-IsWrite w w' key system current t e =
          let unchanged = IsWrite-of_same w w' (λ b. b ≡ system) key in
          after_if (not epochs.is_always_save_token_meta_data) _ _ e (λ off same. unchanged same)
            λ on e1.
              after_if (not epochs.is_send_always) _ _ e1 (λ off same. unchanged same)
                λ sends e2.
                  after_if (is_empty current) _ _ e2 (λ off same. unchanged same)
                    λ filled e3.
                      after_ok (lift (h.unmarshal_token empty_token current)) _ e3 λ saved read e4.
                        after_if (not (is_empty saved.reserved)) _ _ e4 (λ off same. unchanged same)
                          λ bare last. marshal_and_save_data-IsWrite w w' system _ key last

      saved_meta-IsWrite :
          (w w' : h.World) (user : Option h.Account) (shard : ℕ) (key : Bytes) (nonce : ℕ)
          (t : DcToken) (update : Bool)
          → save_dct_meta_data_to_system_account h core epochs w user shard key nonce t update
            ≡ ok w'
          → IsWrite w w' (λ b. get_system_account h w ≡ ok b) key
      unfolding save_dct_meta_data_to_system_account
      saved_meta-IsWrite w w' user shard key nonce t update e =
          let may : h.Account → Type 0 = λ b. get_system_account h w ≡ ok b in
          let unchanged = IsWrite-of_same w w' may key in
          after_if (nonce == 0) _ _ e (λ off same. unchanged same)
            λ on e1. elim (Option-cases t.token_meta_data) [
              | inl bare ↦ unchanged (rw bare at e1)
              | inr (m, full) ↦
                  after_ok (get_system_account h w) _ (rw full at e1) λ system loaded e2.
                    after_ok
                      (save_metadata_if_required h core epochs w key system
                        (value_of h (h.retrieve_value w system key)) t)
                      _ e2
                      λ w1 first e3.
                        let own : (b : h.Account) → b ≡ system → may b = λ b same. rw same loaded in
                        let before =
                          IsWrite-widen w w1 (λ b. b ≡ system) may key own
                            (save_metadata_if_required-IsWrite w w1 key system _ t first) in
                        after_if _ _ _ e3
                          (λ off same.
                            IsWrite-trans w w1 w' may key before
                              (IsWrite-of_same w1 w' may key same))
                          λ on e4.
                            after_ok
                              (new_system_token h core epochs w1 user shard key
                                (value_of h (h.retrieve_value w system key)) t)
                              _ e4
                              λ next made last. IsWrite-trans w w1 w' may key before (
                                IsWrite-widen w1 w' (λ b. b ≡ system) may key own
                                  (marshal_and_save_data-IsWrite w1 w' system next key last))
            ]

      -- The account, or the system account of the state.
      abbrev pub IsWritten : h.World → h.Account → h.Account → Type 0
      IsWritten w a b = (b ≡ a) ⊎ (get_system_account h w ≡ ok b)

      -- The amount is kept, and nothing else is written but the entry of the system account.
      pub record IsSaved (w w' : h.World) (a : h.Account) (key : Bytes) (v : ℤ) : Type 0 where
        pub holds : HasAmount h core w' a key (kept_value v)
        pub write : IsWrite w w' (IsWritten w a) key

      module _ (marshaller : IsMarshaller h) where
        read_back :
            (s : Bytes) (t : DcToken)
            → h.marshal_token t ≡ answer s
            → token_of_reply h core (answer s) ≡ ok t
        read_back [] t e =
            let (_, filled) = marshaller.unmarshal-marshal_token (new_token h core) t [] e in
            absurd (filled refl)
        read_back (b ∷ s) t e =
            let (back, _) = marshaller.unmarshal-marshal_token (new_token h core) t (b ∷ s) e in
            rw back

        HasAmount-of_save :
            (w w' : h.World) (a : h.Account) (key s : Bytes) (t : DcToken) (v : ℤ)
            → h.save_key_value w a key s ≡ answer w'
            → token_of_reply h core (answer s) ≡ ok t
            → t.value ≡ some v
            → HasAmount h core w' a key v
        unfolding get_dct_data_from_key
        HasAmount-of_save w w' a key s t v saved read amount = record {
          token = t;
          stored = rw (store.retrieve-save_self w w' a key s saved) read;
          amount = amount;
        }

        account_token-value : (t : DcToken) → (account_token h core epochs t).value ≡ t.value
        account_token-value t = elim (Bool-cases (not epochs.is_save_to_system_account)) [
          | inl off ↦ rw off
          | inr on ↦ rw on
        ]

        pub save_on_account_sound :
            (w w' : h.World) (a : h.Account) (key s : Bytes) (t : DcToken) (v : ℤ)
            → t.value ≡ some v
            → save_on_account h core epochs w a key t v ≡ ok (s, w')
            → HasAmount h core w' a key (kept_value v) × IsWrite w w' (λ b. b ≡ a) key
        unfolding save_on_account
        save_on_account_sound w w' a key s t v amount e =
            after_if (is_not_positive v) _ _ e
              (λ low e1. after_ok (lift (h.save_key_value w a key [])) _ e1 λ w1 saved last.
                let same : w1 ≡ w' = cc (last) in
                let written : h.save_key_value w a key [] ≡ answer w' =
                  rw (← same) (lift-eq-ok (h.save_key_value w a key []) saved) in
                (
                  rw low (
                      HasAmount-of_save w w' a key [] (new_token h core) (pos 0) written refl refl),
                  IsWrite-of_save w w' a key [] written,
                ))
              (λ high e1.
                after_ok (lift (h.marshal_token (account_token h core epochs t))) _ e1
                  λ m marshaled e2.
                    after_ok (lift (h.save_key_value w a key m)) _ e2 λ w1 saved last.
                      let same : w1 ≡ w' = cc (last) in
                      let written : h.save_key_value w a key m ≡ answer w' =
                        rw (← same) (lift-eq-ok (h.save_key_value w a key m) saved) in
                      (
                        rw high (
                            HasAmount-of_save w w' a key m (account_token h core epochs t) v written
                              (read_back m (account_token h core epochs t)
                                (lift-eq-ok (h.marshal_token _) marshaled))
                              (account_token-value t ∙ amount)),
                        IsWrite-of_save w w' a key m written,
                      ))

        abbrev saved_meta_if_on :
            h.World → h.Account → Bytes → Bytes → ℕ → DcToken → Bool → Outcome BuiltInError h.World
        saved_meta_if_on w a sender key nonce t update =
            if epochs.is_save_to_system_account
            then save_dct_meta_data_to_system_account h core epochs w (some a) (h.compute_id sender)
                key nonce t update
            else ok w

        saved_meta_if_on-IsWrite :
            (w w' : h.World) (a : h.Account) (sender key : Bytes) (nonce : ℕ) (t : DcToken)
            (update : Bool)
            → saved_meta_if_on w a sender key nonce t update ≡ ok w'
            → IsWrite w w' (λ b. get_system_account h w ≡ ok b) key
        saved_meta_if_on-IsWrite w w' a sender key nonce t update e =
            after_if epochs.is_save_to_system_account _ _ e
              (λ on e1.
                saved_meta-IsWrite w w' (some a) (h.compute_id sender) key nonce t update e1)
              (λ off same. IsWrite-of_same w w' _ key same)

        -- Where data tries hold what is saved, saving keeps the accounts, and tokens are read back
        -- from their bytes: after SaveDCTNFTToken has succeeded for a token with a value, the
        -- account has that value under the key of token and nonce, zero if it was not positive, and
        -- no other entry has changed but the one under this key of the system account.
        pub save_dct_nft_token_sound :
            (w w' : h.World) (sender : Bytes) (a : h.Account) (token_key s : Bytes) (nonce : ℕ)
            (t : DcToken) (v : ℤ) (update back : Bool)
            → t.value ≡ some v
            → save_dct_nft_token h core epochs w sender a token_key nonce t update back ≡ ok (s, w')
            → IsSaved w w' a (nft_token_key token_key nonce) v
        unfolding save_dct_nft_token
        save_dct_nft_token_sound w w' sender a token_key s nonce t v update back amount e =
            let key = nft_token_key token_key nonce in
            after_ok (check_frozen_pause_properties h core epochs w a token_key nonce t back) _ e
              λ _ allowed e1.
                after_ok (saved_meta_if_on w a sender key nonce t update) _ e1 λ w1 meta e2.
                  after_ok (or_panic t.value) _ e2 λ u got last.
                    let same : u ≡ v = cc (or_panic-eq-ok t.value got, amount) in
                    let (holds, own) =
                      save_on_account_sound w1 w' a key s t v amount (rw (← same) last) in
                    record {
                      holds = holds;
                      write =
                          IsWrite-trans w w1 w' (IsWritten w a) key
                            (IsWrite-widen w w1 (λ b. get_system_account h w ≡ ok b) (IsWritten w a)
                              key (λ b. inr)
                              (saved_meta_if_on-IsWrite w w1 a sender key nonce t update meta))
                            (IsWrite-widen w1 w' (λ b. b ≡ a) (IsWritten w a) key (λ b. inl) own);
                    }
