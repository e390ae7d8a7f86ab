-- ===== src/BuiltIn/TokenStorage/Liquidity.antt =====
-- What a change of the liquidity of a token with a nonce leaves in the data tries.
use k_vm_common_go.Prelude.{
  ℕ, ◌==◌, ◌≡◌, ◌⊎◌, inl, inr, refl, ◌∙◌, arith, not, ◌||◌, ◌&&◌, Option-cases, true, false, Option,
  none, some, [], ◌∷◌, Bytes, ok, after_ok, after_if, guard, or_panic, or_panic-eq-ok,
}
use k_vm_common_go.Prelude.Int.{ℤ, ◌+ℤ◌}
use k_vm_common_go.Core.{Core}
use k_vm_common_go.BuiltIn.Errors.{invalid_liquidity_for_dct}
use k_vm_common_go.BuiltIn.Epochs.{EnableEpochs}
use k_vm_common_go.BuiltIn.Host.{
  Host, DcToken, answer, lift, IsStore, KeepsAccounts, IsMarshaller, lift-eq-ok,
}
use k_vm_common_go.BuiltIn.Calls.{is_negative, is_zero}
use k_vm_common_go.BuiltIn.Calls.Checks.{guard-eq-ok}
use k_vm_common_go.BuiltIn.GlobalSettings.{get_system_account}
use k_vm_common_go.BuiltIn.TokenStorage.{
  nft_token_key, empty_token, is_empty, stored_or_none,
  get_dct_digital_token_data_from_system_account,
}
use k_vm_common_go.BuiltIn.TokenStorage.System.{
  marshal_and_save_data, save_liquidity, change_liquidity, add_to_liquidity_system_acc,
}
use k_vm_common_go.BuiltIn.TokenStorage.Saved.{
  IsWrite, IsWrite-widen, IsWrite-of_same, IsWrite-of_both, marshal_and_save_data-IsWrite,
}

module _ (h : Host) where
  pub get_system_account-kept :
      (w w' : h.World) (may : h.Account → Type 0) (key : Bytes)
      → IsWrite h w w' may key
      → get_system_account h w' ≡ get_system_account h w
  unfolding get_system_account
  get_system_account-kept w w' may key write = rw (write.loads _) refl

  module _ (store : IsStore h) (accounts : KeepsAccounts h) (core : Core)
      (epochs : EnableEpochs) where
    save_liquidity-IsWrite :
        (w w' : h.World) (system : h.Account) (t : DcToken) (key : Bytes) (v : ℤ)
        → save_liquidity h core epochs w system t key v ≡ ok w'
        → IsWrite h w w' (λ b. b ≡ system) key
    save_liquidity-IsWrite w w' system t key v e =
        after_ok (guard (not (is_negative v)) invalid_liquidity_for_dct) _ e λ _ enough e1.
          after_if (is_zero v) _ _ e1
            (λ empty e2. after_ok (lift (h.save_key_value w system key [])) _ e2 λ w1 saved last.
              IsWrite-of_both h store accounts w w1 w' system key []
                (lift-eq-ok (h.save_key_value w system key []) saved)
                (lift-eq-ok (h.save_account w1 system) last))
            (λ full last. marshal_and_save_data-IsWrite h store accounts w w' system _ key last)

    change_liquidity-IsWrite :
        (w w' : h.World) (system : h.Account) (t : DcToken) (key : Bytes) (v : ℤ)
        → change_liquidity h core epochs w system t key v ≡ ok w'
        → IsWrite h w w' (λ b. b ≡ system) key
    change_liquidity-IsWrite w w' system t key v e =
        after_if (is_empty t.reserved) _ _ e
          (λ off same. IsWrite-of_same h w w' (λ b. b ≡ system) key same)
          λ tracked e1. after_ok (or_panic t.value) _ e1 λ old amount e2.
            after_if (epochs.is_fix_old_token_liquidity && (is_zero old && is_negative v)) _ _ e2
              (λ old_token last.
                marshal_and_save_data-IsWrite h store accounts w w' system _ key last)
              (λ plain last. save_liquidity-IsWrite w w' system t key (old +ℤ v) last)

    pub found_token-system :
        (w : h.World) (key : Bytes) (o : Option DcToken) (system : h.Account)
        → get_dct_digital_token_data_from_system_account h w key none ≡ ok (o, system)
        → get_system_account h w ≡ ok system
    unfolding get_dct_digital_token_data_from_system_account
    found_token-system w key o system e = after_ok (get_system_account h w) _ e λ s loaded e1.
        after_ok (stored_or_none h (h.retrieve_value w s key)) _ e1
          λ t read last. let same : s ≡ system = cc (last) in rw (← same) loaded

    pub add_to_liquidity-IsWrite :
        (w w' : h.World) (token_key : Bytes) (nonce : ℕ) (v : ℤ)
        → add_to_liquidity_system_acc h core epochs w token_key nonce v ≡ ok w'
        → IsWrite h w w' (λ b. get_system_account h w ≡ ok b) (nft_token_key token_key nonce)
    unfolding add_to_liquidity_system_acc get_dct_digital_token_data_from_system_account
    add_to_liquidity-IsWrite w w' token_key nonce v e =
        let key = nft_token_key token_key nonce in
        let may : h.Account → Type 0 = λ b. get_system_account h w ≡ ok b in
        after_if
          (not epochs.is_save_to_system_account || (not epochs.is_send_always || (nonce == 0))) _ _
          e (λ off same. IsWrite-of_same h w w' may key same)
          λ on e1.
            after_ok (get_dct_digital_token_data_from_system_account h w key none) _ e1
              λ (o, system) found e2. elim (Option-cases o) [
                | inl none_there ↦ absurd (cc (none_there, e2))
                | inr (t, there) ↦
                    IsWrite-widen h w w' (λ b. b ≡ system) may key
                      (λ b same. rw same (found_token-system w key o system found))
                      (change_liquidity-IsWrite w w' system t key v (rw there at e2))
              ]

    -- The system account keeps a liquidity for the key.
    pub record HasLiquidity (w : h.World) (key : Bytes) (amount : ℤ) : Type 0 where
      pub system : h.Account
      pub token : DcToken
      pub stored :
          get_dct_digital_token_data_from_system_account h w key none ≡ ok (some token, system)
      pub tracked : is_empty token.reserved ≡ false
      pub value : token.value ≡ some amount

    -- The system account has no entry for the key.
    abbrev pub HasNone : h.World → Bytes → Type 0
    HasNone w key =
        (system : h.Account) × (get_dct_digital_token_data_from_system_account h w key none
          ≡ ok (none, system))

    -- What became of a liquidity: it is the sum, which is positive; the sum is zero and the entry
    -- gone; or nothing was there to take, and it is kept no longer.
    abbrev pub IsLiquidityChange : h.World → Bytes → ℤ → ℤ → Type 0
    IsLiquidityChange w' key amount v =
        (HasLiquidity w' key (amount +ℤ v)
          × (is_negative (amount +ℤ v) ≡ false)
          × (is_zero (amount +ℤ v) ≡ false))
        ⊎ ((HasNone w' key × (is_zero (amount +ℤ v) ≡ true))
            ⊎ ((epochs.is_fix_old_token_liquidity ≡ true)
                × (is_zero amount ≡ true)
                × (is_negative v ≡ true)))

    module _ (marshaller : IsMarshaller h) where
      stored_back :
          (s : Bytes) (t : DcToken)
          → h.marshal_token t ≡ answer s
          → stored_or_none h (answer s) ≡ ok (some t)
      stored_back [] t e =
          let (_, filled) = marshaller.unmarshal-marshal_token empty_token t [] e in
          absurd (filled refl)
      stored_back (b ∷ s) t e =
          let (back, _) = marshaller.unmarshal-marshal_token empty_token t (b ∷ s) e in rw back refl

      -- What the system account has under the key, once it is written and the account saved.
      found_again :
          (w w1 w' : h.World) (system : h.Account) (key s : Bytes) (o : Option DcToken)
          → get_system_account h w ≡ ok system
          → h.save_key_value w system key s ≡ answer w1
          → h.save_account w1 system ≡ answer w'
          → stored_or_none h (answer s) ≡ ok o
          → get_dct_digital_token_data_from_system_account h w' key none ≡ ok (o, system)
      unfolding get_dct_digital_token_data_from_system_account
      found_again w w1 w' system key s o loaded saved kept back =
          let write = IsWrite-of_both h store accounts w w1 w' system key s saved kept in
          let again = get_system_account-kept w w' (λ b. b ≡ system) key write ∙ loaded in
          let there : h.retrieve_value w' system key ≡ answer s =
            accounts.retrieve-save_account w1 w' system system key kept
            ∙ store.retrieve-save_self w w1 system key s saved in
          rw (again, there, back) refl

      pub read_token :
          (w w' : h.World) (system : h.Account) (t : DcToken) (key : Bytes)
          → get_system_account h w ≡ ok system
          → marshal_and_save_data h w system t key ≡ ok w'
          → get_dct_digital_token_data_from_system_account h w' key none ≡ ok (some t, system)
      unfolding marshal_and_save_data
      read_token w w' system t key loaded e =
          after_ok (lift (h.marshal_token t)) _ e λ s marshaled e1.
            after_ok (lift (h.save_key_value w system key s)) _ e1 λ w1 saved last.
              found_again w w1 w' system key s (some t) loaded
                (lift-eq-ok (h.save_key_value w system key s) saved)
                (lift-eq-ok (h.save_account w1 system) last)
                (stored_back s t (lift-eq-ok (h.marshal_token t) marshaled))

      save_liquidity_sound :
          (w w' : h.World) (system : h.Account) (t : DcToken) (key : Bytes) (amount v : ℤ)
          → get_system_account h w ≡ ok system
          → is_empty t.reserved ≡ false
          → save_liquidity h core epochs w system t key (amount +ℤ v) ≡ ok w'
          → IsLiquidityChange w' key amount v
      save_liquidity_sound w w' system t key amount v loaded tracked e =
          after_ok (guard (not (is_negative (amount +ℤ v))) invalid_liquidity_for_dct) _ e
            λ _ enough e1.
              after_if (is_zero (amount +ℤ v)) _ _ e1
                (λ empty e2.
                  after_ok (lift (h.save_key_value w system key [])) _ e2 λ w1 saved last. inr (
                    inl (
                      (
                        system,
                        found_again w w1 w' system key [] none loaded
                            (lift-eq-ok (h.save_key_value w system key []) saved)
                            (lift-eq-ok (h.save_account w1 system) last) refl,
                      ),
                      empty,
                    )))
                (λ full last. inl (
                  record {
                    system = system;
                    token = record t { value = some (amount +ℤ v) };
                    stored =
                        read_token w w' system (record t { value = some (amount +ℤ v) }) key loaded
                          last;
                    tracked = tracked;
                    value = refl;
                  },
                  ground (arith, guard-eq-ok _ _ enough),
                  full,
                ))

      -- Where data tries hold what is saved, saving keeps the accounts, and tokens are read back
      -- from their bytes: if the system account saves metadata and is sent it always, the nonce is
      -- not zero, and the system account tracks a liquidity for the token, then after
      -- AddToLiquiditySystemAcc has succeeded it tracks the sum of this liquidity and the change,
      -- which is neither negative nor zero; or the sum is zero and the entry is gone; or the flag
      -- for old tokens is on, the liquidity was zero and the change negative.
      pub add_to_liquidity_sound :
          (w w' : h.World) (token_key : Bytes) (nonce : ℕ) (amount v : ℤ)
          → epochs.is_save_to_system_account ≡ true
          → epochs.is_send_always ≡ true
          → (nonce == 0) ≡ false
          → HasLiquidity w (nft_token_key token_key nonce) amount
          → add_to_liquidity_system_acc h core epochs w token_key nonce v ≡ ok w'
          → IsLiquidityChange w' (nft_token_key token_key nonce) amount v
      unfolding add_to_liquidity_system_acc
      add_to_liquidity_sound w w' token_key nonce amount v saves sends some_nonce has e =
          let key = nft_token_key token_key nonce in
          let tracked = has.tracked in
          let stored = has.stored in
          let value = has.value in
          let e1 : change_liquidity h core epochs w has.system has.token key v ≡ ok w' =
            rw (saves, sends, some_nonce, stored) at e in
          let loaded = found_token-system w key (some has.token) has.system stored in
          after_if (is_empty has.token.reserved) _ _ e1 (λ off _. absurd (cc (off, tracked)))
            λ on e2. after_ok (or_panic has.token.value) _ e2 λ old got e3.
              let same : old ≡ amount = cc (or_panic-eq-ok has.token.value got, value) in
              after_if (epochs.is_fix_old_token_liquidity && (is_zero old && is_negative v)) _ _ e3
                (λ old_token _. inr (inr (rw (← same) (ground arith))))
                (λ plain last.
                  save_liquidity_sound w w' has.system has.token key amount v loaded tracked
                    (rw (← same) last))
