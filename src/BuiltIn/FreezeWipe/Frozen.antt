-- ===== src/BuiltIn/FreezeWipe/Frozen.antt =====
-- What freezing, its taking back, and wiping leave of a token in an account.
use k_vm_common_go.Prelude.{
  ℕ, ◌==◌, ◌≡◌, ◌≢◌, refl, sym, ap, ◌∙◌, inl, inr, ◌⊎◌, arith, not, ◌&&◌, Bool, true, false, Option,
  some, [], ◌∷◌, Bytes, length, bytes_equal, bytes_equal→eq, ok, after_ok, after_if, guard, at,
  or_panic, or_panic-eq-ok,
}
use k_vm_common_go.Prelude.Int.{ℤ, pos, neg}
use k_vm_common_go.Core.{Core}
use k_vm_common_go.BuiltIn.Errors.{
  BuiltInError, built_in_function_called_with_value, invalid_arguments,
  address_is_not_dct_system_sc, cannot_wipe_account_not_frozen,
}
use k_vm_common_go.BuiltIn.Epochs.{EnableEpochs}
use k_vm_common_go.BuiltIn.Host.{
  Host, DcToken, IsStore, KeepsAccounts, IsMarshaller, lift, lift-eq-ok, answer,
}
use k_vm_common_go.BuiltIn.Calls.{ContractCallInput, VmOutput, is_zero}
use k_vm_common_go.BuiltIn.Calls.Checks.{guard-eq-ok}
use k_vm_common_go.BuiltIn.Metadata.{DctUserMetadata, user_from_bytes, user_to_bytes}
use k_vm_common_go.BuiltIn.Metadata.RoundTrip.{user_round_trip}
use k_vm_common_go.BuiltIn.GlobalSettings.{token_key, get_system_account}
use k_vm_common_go.BuiltIn.Balance.{
  new_token, token_of_reply, get_dct_data_from_key, save_dct_data, are_properties_empty,
  add_to_dct_balance,
}
use k_vm_common_go.BuiltIn.Balance.Laws.{add_to_dct_balance_sound}
use k_vm_common_go.BuiltIn.WipeId.{extract_token_identifier_and_nonce_dct_wipe}
use k_vm_common_go.BuiltIn.TokenStorage.Saved.{HasAmount}
use k_vm_common_go.BuiltIn.TokenStorage.Liquidity.{add_to_liquidity-IsWrite}
use k_vm_common_go.BuiltIn.TokenStorage.Amounts.{HasAmount-kept, IsUser}
use k_vm_common_go.BuiltIn.FreezeWipe.{
  DctFreezeWipe, remove_liquidity, wipe_if_applicable, toggle_freeze, process_freeze_wipe,
}

zero_is : (v : ℤ) → is_zero v ≡ true → some (pos 0) ≡ some v
zero_is v e = ground arith

-- The bytes of the flags are empty only without the flag.
not_frozen_if_empty :
    (freeze : Bool)
    → are_properties_empty (user_to_bytes (record { frozen = freeze })) ≡ true
    → freeze ≡ false
unfolding are_properties_empty user_to_bytes
not_frozen_if_empty true e = cc (e)
not_frozen_if_empty false e = refl

empty_is_not_frozen : (user_from_bytes []).frozen ≡ false
unfolding user_from_bytes
empty_is_not_frozen = refl

module _ (h : Host) (core : Core) (store : IsStore h) (marshaller : IsMarshaller h) where
  read_back :
      (s : Bytes) (t : DcToken)
      → h.marshal_token t ≡ answer s
      → token_of_reply h core (answer s) ≡ ok t
  read_back [] t e =
      let (_, some_bytes) = marshaller.unmarshal-marshal_token (new_token h core) t [] e in
      absurd (some_bytes refl)
  read_back (b ∷ s) t e =
      let (back, _) = marshaller.unmarshal-marshal_token (new_token h core) t (b ∷ s) e in rw back

  -- What an account has after a token is saved: the token, or nothing where it was empty.
  saved_data :
      (w w' : h.World) (a : h.Account) (t : DcToken) (key : Bytes)
      → save_dct_data h core w a t key ≡ ok w'
      → (u : DcToken) × (get_dct_data_from_key h core w' a key ≡ ok u)
        × (u.value ≡ t.value)
        × ((u ≡ t) ⊎ ((u ≡ new_token h core) × (are_properties_empty t.properties ≡ true)))
  unfolding save_dct_data get_dct_data_from_key
  saved_data w w' a t key e = after_ok (or_panic t.value) _ e λ v got e1.
      let amount = or_panic-eq-ok t.value got in
      after_if (is_zero v && are_properties_empty t.properties) _ _ e1
        (λ empty last. (
          new_token h core,
          rw
              (store.retrieve-save_self w w' a key []
                (lift-eq-ok (h.save_key_value w a key []) last))
              refl,
          zero_is v (ground (arith, empty)) ∙ sym amount,
          inr (refl, ground (arith, empty)),
        ))
        (λ full e2. after_ok (lift (h.marshal_token t)) _ e2 λ s marshaled last. (
          t,
          rw (store.retrieve-save_self w w' a key s (lift-eq-ok (h.save_key_value w a key s) last))
              (read_back s t (lift-eq-ok (h.marshal_token t) marshaled)),
          refl,
          inl refl,
        ))

  -- A change of the freezing: the value is what it was, and the token is frozen, or is not.
  pub record IsFreezeChange (w w' : h.World) (a : h.Account) (key : Bytes) (freeze : Bool)
      : Type 0 where
    pub before : DcToken
    pub after : DcToken
    pub held : get_dct_data_from_key h core w a key ≡ ok before
    pub holds : get_dct_data_from_key h core w' a key ≡ ok after
    pub same_value : after.value ≡ before.value
    pub is_frozen : (user_from_bytes after.properties).frozen ≡ freeze

  frozen_properties :
      (p : Bytes) (freeze : Bool) (t u : DcToken)
      → t.properties ≡ user_to_bytes (record (user_from_bytes p) { frozen = freeze })
      → (u ≡ t) ⊎ ((u ≡ new_token h core) × (are_properties_empty t.properties ≡ true))
      → (user_from_bytes u.properties).frozen ≡ freeze
  frozen_properties p freeze t u written (inl same) =
      let flags : DctUserMetadata = record { frozen = freeze } in
      let properties : u.properties ≡ user_to_bytes flags = ap (λ x. x.properties) same ∙ written in
      ap (λ x. (user_from_bytes x).frozen) properties ∙ ap (λ m. m.frozen) (user_round_trip flags)
  frozen_properties p freeze t u written (inr (same, empty)) =
      ap (λ x. (user_from_bytes x.properties).frozen) same
      ∙ (empty_is_not_frozen
          ∙ sym (not_frozen_if_empty freeze (ap are_properties_empty (sym written) ∙ empty)))

  toggle_freeze_sound :
      (epochs : EnableEpochs) (w w' : h.World) (freeze : Bool) (a : h.Account) (key : Bytes)
      (amount : ℤ)
      → toggle_freeze h core epochs w freeze a key ≡ ok (amount, w')
      → IsFreezeChange w w' a key freeze
  unfolding toggle_freeze
  toggle_freeze_sound epochs w w' freeze a key amount e =
      after_ok (get_dct_data_from_key h core w a key) _ e λ t held e1.
        let properties = user_to_bytes (record { frozen = freeze }) in
        let next : DcToken = record t { properties = properties } in
        after_ok (save_dct_data h core w a next key) _ e1 λ w1 saved last.
          let end : w1 ≡ w' = cc (last) in
          let (u, holds, same_value, written) = saved_data w w' a next key (rw (← end) saved) in
          record {
            before = t;
            after = u;
            held = held;
            holds = holds;
            same_value = same_value;
            is_frozen = frozen_properties t.properties freeze next u refl written;
          }

  module _ (epochs : EnableEpochs) where
    -- Where data tries hold what is saved and tokens are read back from their bytes: a freeze or
    -- its taking back that succeeds was called by the system contract, keeps the value, and sets
    -- the flag of the token in the account to the function's.
    pub freeze-keeps_value :
        (e : DctFreezeWipe) (w w' : h.World) (a : h.Account) (input : ContractCallInput)
        (out : VmOutput) (argument : Bytes)
        → e.wipe ≡ false
        → at {E = BuiltInError} input.arguments 0 ≡ ok argument
        → process_freeze_wipe h core epochs e w (some a) (some input) ≡ ok (out, w')
        → (input.caller_addr ≡ core.dct_sc_address)
          × IsFreezeChange w w' a (token_key core argument) e.freeze
    unfolding process_freeze_wipe
    freeze-keeps_value e w w' a input out argument no_wipe named done =
        after_ok (or_panic input.call_value) _ (rw (named, no_wipe) at done) λ value _ e1.
          after_ok (guard (is_zero value) built_in_function_called_with_value) _ e1 λ _ _ e2.
            after_ok (guard (length input.arguments == 1) invalid_arguments) _ e2 λ _ _ e3.
              after_ok
                (guard (bytes_equal input.caller_addr core.dct_sc_address)
                  address_is_not_dct_system_sc)
                _ e3
                λ _ system e4.
                  after_ok (toggle_freeze h core epochs w e.freeze a (token_key core argument)) _ e4
                    λ (amount, w1) toggled last.
                      let end : w1 ≡ w' = cc (last) in
                      (
                        bytes_equal→eq input.caller_addr core.dct_sc_address
                            (guard-eq-ok _ _ system),
                        toggle_freeze_sound epochs w w' e.freeze a (token_key core argument) amount
                            (rw (← end) toggled),
                      )

    -- Where data tries hold what is saved and tokens are read back from their bytes: after a freeze
    -- of a token in an account that is not the system contract's, no change of this balance that is
    -- not the return of a failed call succeeds.
    pub freeze-stops_balance :
        (e : DctFreezeWipe) (w w1 w2 : h.World) (a : h.Account) (input : ContractCallInput)
        (out : VmOutput) (argument : Bytes) (value : ℤ)
        → e.wipe ≡ false
        → e.freeze ≡ true
        → at {E = BuiltInError} input.arguments 0 ≡ ok argument
        → h.address_bytes a ≢ core.dct_sc_address
        → process_freeze_wipe h core epochs e w (some a) (some input) ≡ ok (out, w1)
        → add_to_dct_balance h core w1 a (token_key core argument) value false ≢ ok w2
    freeze-stops_balance e w w1 w2 a input out argument value no_wipe freezes named user done
          moved =
        let (_, change) = freeze-keeps_value e w w1 a input out argument no_wipe named done in
        let frozen = change.is_frozen in
        let holds = change.holds in
        let balance =
          add_to_dct_balance_sound h core store marshaller w1 w2 a (token_key core argument) value
            false moved in
        let stored = balance.held.stored in
        let same : ok change.after ≡ ok balance.held.token = sym holds ∙ stored in
        let token : change.after ≡ balance.held.token = cc (same) in
        let still : (user_from_bytes balance.held.token.properties).frozen ≡ true =
          ap (λ t. (user_from_bytes t.properties).frozen) (sym token) ∙ (frozen ∙ freezes) in
        elim balance.allowed [
          | inl back ↦ absurd (cc (back))
          | inr (inl system) ↦ absurd (user system)
          | inr (inr (free, unpaused)) ↦ absurd (cc (free, still))
        ]

    -- A wipe: the account had the token, frozen, and has none of it now.
    pub record IsWiped (w w' : h.World) (a : h.Account) (key : Bytes) : Type 0 where
      pub before : DcToken
      pub held : get_dct_data_from_key h core w a key ≡ ok before
      pub was_frozen : (user_from_bytes before.properties).frozen ≡ true
      pub has_none : HasAmount h core w' a key (pos 0)

    removed-HasAmount :
        (accounts : KeepsAccounts h) (w w1 w' : h.World) (a : h.Account) (key identifier : Bytes)
        (nonce : ℕ) (v : Option ℤ)
        → IsUser h core w a
        → h.save_key_value w a key [] ≡ answer w1
        → remove_liquidity h core epochs w1 identifier nonce v ≡ ok w'
        → HasAmount h core w' a key (pos 0)
    unfolding remove_liquidity get_dct_data_from_key get_system_account
    removed-HasAmount accounts w w1 w' a key identifier nonce v user saved e =
        let none_there : HasAmount h core w1 a key (pos 0) = record {
          token = new_token h core;
          stored = rw (store.retrieve-save_self w w1 a key [] saved) refl;
          amount = refl;
        } in
        after_if (not epochs.is_wipe_single_nft_liquidity_decrease) _ _ e
          (λ off last. let end : w1 ≡ w' = cc (last) in rw (← end) none_there)
          (λ on e1. after_ok (or_panic v) _ e1 λ x got last.
            let write =
              add_to_liquidity-IsWrite h store accounts core epochs w1 w'
                (token_key core identifier) nonce (neg x) last in
            let user1 : IsUser h core w1 a =
              λ system. user (rw (← accounts.load-save_key_value w w1 a key [] _ saved) system) in
            HasAmount-kept h core w1 w' a key (pos 0) (write.others a key (inl user1)) none_there)

    -- Where data tries hold what is saved, saving keeps the accounts, and tokens are read back from
    -- their bytes: a wipe of a token in an account that is not the system account, if it succeeds,
    -- was called by the system contract, the account held the token frozen, and afterwards the
    -- account has zero of it.
    pub wipe-takes_frozen :
        (accounts : KeepsAccounts h) (e : DctFreezeWipe) (w w' : h.World) (a : h.Account)
        (input : ContractCallInput) (out : VmOutput) (argument : Bytes)
        → IsUser h core w a
        → e.wipe ≡ true
        → at {E = BuiltInError} input.arguments 0 ≡ ok argument
        → process_freeze_wipe h core epochs e w (some a) (some input) ≡ ok (out, w')
        → (input.caller_addr ≡ core.dct_sc_address) × IsWiped w w' a (token_key core argument)
    unfolding process_freeze_wipe wipe_if_applicable
    wipe-takes_frozen accounts e w w' a input out argument user wipes named done =
        let key = token_key core argument in
        let (identifier, nonce) = extract_token_identifier_and_nonce_dct_wipe argument in
        after_ok (or_panic input.call_value) _ (rw (named, wipes) at done) λ value _ e1.
          after_ok (guard (is_zero value) built_in_function_called_with_value) _ e1 λ _ _ e2.
            after_ok (guard (length input.arguments == 1) invalid_arguments) _ e2 λ _ _ e3.
              after_ok
                (guard (bytes_equal input.caller_addr core.dct_sc_address)
                  address_is_not_dct_system_sc)
                _ e3
                λ _ system e4.
                  after_ok (wipe_if_applicable h core epochs w a key identifier nonce) _ e4
                    λ (amount, w1) wiped last.
                      let end : w1 ≡ w' = cc (last) in
                      (
                        bytes_equal→eq input.caller_addr core.dct_sc_address
                            (guard-eq-ok _ _ system),
                        after_ok (get_dct_data_from_key h core w a key) _ wiped λ t held f1.
                            after_ok
                              (guard (user_from_bytes t.properties).frozen
                                cannot_wipe_account_not_frozen)
                              _ f1
                              λ _ frozen f2.
                                after_ok (lift (h.save_key_value w a key [])) _ f2 λ v saved f3.
                                  after_ok
                                    (remove_liquidity h core epochs v identifier nonce t.value) _ f3
                                    λ v' removed final.
                                      let same : v' ≡ w1 = cc (final) in
                                      record {
                                        before = t;
                                        held = held;
                                        was_frozen = guard-eq-ok _ _ frozen;
                                        has_none =
                                            removed-HasAmount accounts w v w' a key identifier nonce
                                              t.value user
                                              (lift-eq-ok (h.save_key_value w a key []) saved)
                                              (rw (← end, ← same) removed);
                                      },
                      )
