-- ===== src/BuiltIn/NftSupply/Amounts.antt =====
-- What adding to an amount of a token with a nonce, and burning of it, leaves in the data tries.
use k_vm_common_go.Prelude.{
  ℕ, ◌-◌, ◌==◌, ltb, ◌≡◌, refl, arith, not, ◌&&◌, Bool, true, false, some, Bytes, length, ok,
  after_ok, guard, at, or_panic, or_panic-eq-ok,
}
use k_vm_common_go.Prelude.Int.{ℤ, pos, neg, ◌+ℤ◌}
use k_vm_common_go.Core.{Core}
use k_vm_common_go.Go.BigInt.{set_bytes, uint64}
use k_vm_common_go.BuiltIn.Errors.{
  BuiltInError, invalid_arguments, nft_does_not_have_metadata, invalid_nft_quantity,
}
use k_vm_common_go.BuiltIn.Epochs.{EnableEpochs}
use k_vm_common_go.BuiltIn.Host.{Host, DcToken, IsStore, KeepsAccounts, IsMarshaller}
use k_vm_common_go.BuiltIn.Calls.{
  ContractCallInput, VmOutput, add_dct_entry_in_vm_output, is_negative,
}
use k_vm_common_go.BuiltIn.Calls.Checks.{guard-eq-ok}
use k_vm_common_go.BuiltIn.Roles.{check_allowed_to_execute}
use k_vm_common_go.BuiltIn.GlobalSettings.{token_key}
use k_vm_common_go.BuiltIn.NftCalls.{
  max_len_for_add_nft_quantity, check_dct_nft_create_burn_add_input, IsOwnCall,
  check-IsOwnCall_sound,
}
use k_vm_common_go.BuiltIn.TokenStorage.{nft_token_key, get_dct_nft_token_on_sender}
use k_vm_common_go.BuiltIn.TokenStorage.System.{save_dct_nft_token}
use k_vm_common_go.BuiltIn.TokenStorage.Saved.{save_dct_nft_token_sound}
use k_vm_common_go.BuiltIn.TokenStorage.Found.{HasAmount-of_sender}
use k_vm_common_go.BuiltIn.TokenStorage.Liquidity.{add_to_liquidity-IsWrite}
use k_vm_common_go.BuiltIn.TokenStorage.Amounts.{IsAmountChange, IsAmountChange-of_saved, IsUser}
use k_vm_common_go.BuiltIn.NftSupply.{
  save_quantity, process_nft_add_quantity, is_allowed_to_burn, process_nft_burn,
}

module _ (h : Host) (core : Core) where
  module _ (epochs : EnableEpochs) (store : IsStore h) (accounts : KeepsAccounts h)
      (marshaller : IsMarshaller h) where
    pub save_quantity_sound :
        (w w' : h.World) (a : h.Account) (dct_token_key : Bytes) (nonce : ℕ) (t : DcToken)
        (old change : ℤ) (back : Bool)
        → IsUser h core w a
        → get_dct_nft_token_on_sender h core epochs w a dct_token_key nonce ≡ ok t
        → t.value ≡ some old
        → save_quantity h core epochs w a dct_token_key nonce t old change back ≡ ok w'
        → IsAmountChange h core epochs store accounts w w' a
            (nft_token_key dct_token_key nonce)
            old
            change
    unfolding save_quantity
    save_quantity_sound w w' a dct_token_key nonce t old change back user found amount e =
        let key = nft_token_key dct_token_key nonce in
        let next : DcToken = record t { value = some (old +ℤ change) } in
        after_ok
          (save_dct_nft_token h core epochs w (h.address_bytes a) a dct_token_key nonce next false
            back)
          _ e
          λ (s, w1) saved last.
            IsAmountChange-of_saved h core epochs store accounts w w1 w' a key old change user
              (HasAmount-of_sender h core epochs w a dct_token_key nonce t old found amount)
              (save_dct_nft_token_sound h store accounts core epochs marshaller w w1
                (h.address_bytes a) a dct_token_key s nonce next (old +ℤ change) false back refl
                saved)
              (add_to_liquidity-IsWrite h store accounts core epochs w1 w' dct_token_key nonce
                change last)

    module _ (func_gas_cost : ℕ) where
      -- A call on the amount of one token that succeeded: the account called itself, the first
      -- arguments name the token, its nonce, which is not zero, and the quantity; the action was
      -- allowed, the amount changed, and the gas left is what was provided less the cost.
      pub record IsQuantityCall (allowed : Bytes → Type 0) (enough : ℤ → ℕ → Type 0)
          (change : ℕ → ℤ) (w w' : h.World) (a : h.Account) (input : ContractCallInput)
          (out : VmOutput) : Type 0 where
        pub token : Bytes
        pub nonce_bytes : Bytes
        pub quantity : Bytes
        pub token_named : at {E = BuiltInError} input.arguments 0 ≡ ok token
        pub nonce_named : at {E = BuiltInError} input.arguments 1 ≡ ok nonce_bytes
        pub quantity_named : at {E = BuiltInError} input.arguments 2 ≡ ok quantity
        pub some_nonce : (uint64 (set_bytes nonce_bytes) == 0) ≡ false
        pub call : IsOwnCall core input func_gas_cost
        pub is_allowed : allowed token
        pub old : ℤ
        pub is_enough : enough old (set_bytes quantity)
        pub changed :
            IsAmountChange h core epochs store accounts w w' a
              (nft_token_key (token_key core token) (uint64 (set_bytes nonce_bytes)))
              old
              (change (set_bytes quantity))
        pub gas : out.gas_remaining ≡ input.gas_provided - func_gas_cost

      IsQuantityCall-of :
          (allowed : Bytes → Type 0) (enough : ℤ → ℕ → Type 0) (change : ℕ → ℤ) (w w' : h.World)
          (a : h.Account) (input : ContractCallInput) (out : VmOutput)
          (token nonce quantity : Bytes) (t : DcToken) (old : ℤ)
          → at {E = BuiltInError} input.arguments 0 ≡ ok token
          → at {E = BuiltInError} input.arguments 1 ≡ ok nonce
          → at {E = BuiltInError} input.arguments 2 ≡ ok quantity
          → not (uint64 (set_bytes nonce) == 0) ≡ true
          → IsOwnCall core input func_gas_cost
          → allowed token
          → enough old (set_bytes quantity)
          → IsUser h core w a
          → get_dct_nft_token_on_sender h core epochs w a
              (token_key core token)
              (uint64 (set_bytes nonce))
            ≡ ok t
          → t.value ≡ some old
          → save_quantity h core epochs w a
              (token_key core token)
              (uint64 (set_bytes nonce))
              t
              old
              (change (set_bytes quantity))
              input.return_call_after_error
            ≡ ok w'
          → out.gas_remaining ≡ input.gas_provided - func_gas_cost
          → IsQuantityCall allowed enough change w w' a input out
      IsQuantityCall-of allowed enough change w w' a input out token nonce quantity t old token_at
            nonce_at quantity_at some_nonce call is_allowed is_enough user found amount saved gas =
          record {
            token = token;
            nonce_bytes = nonce;
            quantity = quantity;
            token_named = token_at;
            nonce_named = nonce_at;
            quantity_named = quantity_at;
            some_nonce = ground (arith, some_nonce);
            call = call;
            is_allowed = is_allowed;
            old = old;
            is_enough = is_enough;
            changed =
                save_quantity_sound w w' a (token_key core token) (uint64 (set_bytes nonce)) t old
                  (change (set_bytes quantity)) input.return_call_after_error user found amount
                  saved;
            gas = gas;
          }

      -- Where data tries hold what is saved, saving keeps the accounts, and tokens are read back
      -- from their bytes, for an account that is not the system account: an addition to the amount
      -- of a token that succeeds was called by the account itself with the role, a nonce that is
      -- not zero and enough gas; the account has its former amount and the quantity, of other
      -- entries only the system account's under this key may have changed, and the cost is taken
      -- from the gas.
      pub add_quantity-adds_amount :
          (w w' : h.World) (a : h.Account) (input : ContractCallInput) (out : VmOutput)
          → IsUser h core w a
          → process_nft_add_quantity h core epochs func_gas_cost w (some a) (some input)
            ≡ ok (out, w')
          → IsQuantityCall
              (λ token.
                check_allowed_to_execute h core w (some a) token core.dct_role_nft_add_quantity
                ≡ ok tt)
              (λ held n. Unit {0})
              pos
              w
              w'
              a
              input
              out
      unfolding process_nft_add_quantity add_dct_entry_in_vm_output
      add_quantity-adds_amount w w' a input out user e =
          after_ok (check_dct_nft_create_burn_add_input core (some a) (some input) func_gas_cost) _
            e
            λ i checked e1.
              let (given, call) =
                check-IsOwnCall_sound core (some a) (some input) func_gas_cost i checked in
              let same : input ≡ i = cc (given) in
              rw same (
                after_ok (guard (not (ltb (length i.arguments) 3)) invalid_arguments) _ e1
                  λ _ enough e2. after_ok (at i.arguments 0) _ e2 λ token token_at e3.
                    after_ok
                      (check_allowed_to_execute h core w (some a) token
                        core.dct_role_nft_add_quantity)
                      _ e3
                      λ _ allowed e4. after_ok (at i.arguments 1) _ e4 λ nonce nonce_at e5.
                        after_ok
                          (get_dct_nft_token_on_sender h core epochs w a (token_key core token)
                            (uint64 (set_bytes nonce)))
                          _ e5
                          λ t found e6.
                            after_ok
                              (guard (not (uint64 (set_bytes nonce) == 0))
                                nft_does_not_have_metadata)
                              _ e6
                              λ _ some_nonce e7.
                                after_ok (at i.arguments 2) _ e7 λ quantity quantity_at e8.
                                  after_ok
                                    (guard
                                      (not (
                                        epochs.is_value_length_check
                                        && ltb max_len_for_add_nft_quantity (length quantity)))
                                      invalid_arguments)
                                    _ e8
                                    λ _ short e9. after_ok (or_panic t.value) _ e9 λ old amount e10.
                                      after_ok
                                        (save_quantity h core epochs w a (token_key core token)
                                          (uint64 (set_bytes nonce)) t old
                                          (pos (set_bytes quantity)) i.return_call_after_error)
                                        _ e10
                                        λ w1 saved last.
                                          let end : w1 ≡ w' = cc (last) in
                                          IsQuantityCall-of
                                            (λ x.
                                              check_allowed_to_execute h core w (some a) x
                                                core.dct_role_nft_add_quantity
                                              ≡ ok tt)
                                            (λ old n. Unit {0}) pos w w' a i out token nonce
                                            quantity t old token_at nonce_at quantity_at
                                            (guard-eq-ok _ _ some_nonce) call allowed tt user found
                                            (or_panic-eq-ok t.value amount) (rw (← end) saved)
                                            (cc (last)))

      -- Where data tries hold what is saved, saving keeps the accounts, and tokens are read back
      -- from their bytes, for an account that is not the system account: a burn of a token with a
      -- nonce that succeeds was called by the account itself, allowed, with a nonce that is not
      -- zero and enough gas; the quantity was not more than the amount, which is left less the
      -- quantity, of other entries only the system account's under this key may have changed, and
      -- the cost is taken from the gas.
      pub nft_burn-takes_amount :
          (w w' : h.World) (a : h.Account) (input : ContractCallInput) (out : VmOutput)
          → IsUser h core w a
          → process_nft_burn h core epochs func_gas_cost w (some a) (some input) ≡ ok (out, w')
          → IsQuantityCall
              (λ token. is_allowed_to_burn h core epochs func_gas_cost w (some a) token ≡ ok tt)
              (λ held n. is_negative (held +ℤ neg (pos n)) ≡ false)
              (λ n. neg (pos n))
              w
              w'
              a
              input
              out
      unfolding process_nft_burn add_dct_entry_in_vm_output
      nft_burn-takes_amount w w' a input out user e =
          after_ok (check_dct_nft_create_burn_add_input core (some a) (some input) func_gas_cost) _
            e
            λ i checked e1.
              let (given, call) =
                check-IsOwnCall_sound core (some a) (some input) func_gas_cost i checked in
              let same : input ≡ i = cc (given) in
              rw same (
                after_ok (guard (not (ltb (length i.arguments) 3)) invalid_arguments) _ e1
                  λ _ enough e2. after_ok (at i.arguments 0) _ e2 λ token token_at e3.
                    after_ok (is_allowed_to_burn h core epochs func_gas_cost w (some a) token) _ e3
                      λ _ allowed e4. after_ok (at i.arguments 1) _ e4 λ nonce nonce_at e5.
                        after_ok
                          (get_dct_nft_token_on_sender h core epochs w a (token_key core token)
                            (uint64 (set_bytes nonce)))
                          _ e5
                          λ t found e6.
                            after_ok
                              (guard (not (uint64 (set_bytes nonce) == 0))
                                nft_does_not_have_metadata)
                              _ e6
                              λ _ some_nonce e7.
                                after_ok (at i.arguments 2) _ e7 λ quantity quantity_at e8.
                                  after_ok (or_panic t.value) _ e8 λ old amount e9.
                                    after_ok
                                      (guard
                                        (not (is_negative (old +ℤ neg (pos (set_bytes quantity)))))
                                        invalid_nft_quantity)
                                      _ e9
                                      λ _ covered e10.
                                        after_ok
                                          (save_quantity h core epochs w a (token_key core token)
                                            (uint64 (set_bytes nonce)) t old
                                            (neg (pos (set_bytes quantity)))
                                            i.return_call_after_error)
                                          _ e10
                                          λ w1 saved last.
                                            let end : w1 ≡ w' = cc (last) in
                                            IsQuantityCall-of
                                              (λ x.
                                                is_allowed_to_burn h core epochs func_gas_cost w
                                                  (some a) x
                                                ≡ ok tt)
                                              (λ held n. is_negative (held +ℤ neg (pos n)) ≡ false)
                                              (λ n. neg (pos n)) w w' a i out token nonce quantity t
                                              old token_at nonce_at quantity_at
                                              (guard-eq-ok _ _ some_nonce) call allowed
                                              (ground (arith, guard-eq-ok _ _ covered)) user found
                                              (or_panic-eq-ok t.value amount) (rw (← end) saved)
                                              (cc (last)))
