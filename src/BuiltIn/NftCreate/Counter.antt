-- ===== src/BuiltIn/NftCreate/Counter.antt =====
-- The nonces of created tokens count up, and the creator gets the amount under the new nonce.
use k_vm_common_go.Prelude.{
  ℕ, ◌+◌, ◌-◌, ◌<◌, ◌≤◌, ltb, ltb→lt, ◌≡◌, sym, ◌∙◌, arith, if◌then◌else◌, not, ◌&&◌, false, Option,
  none, some, List, [], ◌∷◌, Bytes, length, Outcome, ok, after_ok, after_if, guard, at, ◌>>=◌, ◌>>◌,
}
use k_vm_common_go.Prelude.Int.{pos}
use k_vm_common_go.Core.{Core}
use k_vm_common_go.Go.BigInt.{set_bytes, to_bytes}
use k_vm_common_go.BuiltIn.Errors.{
  BuiltInError, invalid_arguments, not_enough_gas, nil_user_account,
}
use k_vm_common_go.BuiltIn.Epochs.{EnableEpochs}
use k_vm_common_go.BuiltIn.Host.{Host, IsStore, KeepsAccounts, IsMarshaller}
use k_vm_common_go.BuiltIn.Calls.{
  ContractCallInput, VmOutput, output_with_gas, add_dct_entry_in_vm_output, account_or_error,
}
use k_vm_common_go.BuiltIn.Calls.Checks.{guard-eq-ok}
use k_vm_common_go.BuiltIn.Roles.{check_allowed_to_execute}
use k_vm_common_go.BuiltIn.KeyValue.{wrap}
use k_vm_common_go.BuiltIn.NftCalls.{
  max_len_for_add_nft_quantity, check_dct_nft_create_burn_add_input, check-IsOwnCall_sound,
}
use k_vm_common_go.BuiltIn.TokenStorage.Amounts.{IsUser}
use k_vm_common_go.BuiltIn.NftCreate.{
  royalties_of, or_empty, get_latest_nonce, is_by_caller, creator_and_uris, new_nft, save_new_nft,
  gas_to_create, process_nft_create,
}
use k_vm_common_go.BuiltIn.NftCreate.Stored.{
  HasDistinctKeys, new_nft-value, IsCreated, save_new_nft_sound, wrap_small,
}

module _ (h : Host) (core : Core) (keys : HasDistinctKeys core) (store : IsStore h)
    (accounts : KeepsAccounts h) (marshaller : IsMarshaller h) (epochs : EnableEpochs) where
  module _ (func_gas_cost store_per_byte : ℕ) where
    -- A creation that succeeded.
    pub record IsCreation (w w' : h.World) (a : h.Account) (input : ContractCallInput)
        (out : VmOutput) : Type 0 where
      pub token : Bytes
      pub quantity : Bytes
      pub royalty : Bytes
      pub nonce : ℕ
      pub token_named : at {E = BuiltInError} input.arguments 0 ≡ ok token
      pub quantity_named : at {E = BuiltInError} input.arguments 1 ≡ ok quantity
      pub royalty_named : at {E = BuiltInError} input.arguments 3 ≡ ok royalty
      pub is_allowed :
          check_allowed_to_execute h core w (some a) token core.dct_role_nft_create ≡ ok tt
      pub some_quantity : 0 < set_bytes quantity
      pub small_royalty : royalties_of royalty ≤ core.max_royalty
      pub latest : get_latest_nonce h core w a token ≡ ok nonce
      pub created :
          IsCreated h core keys store accounts marshaller epochs w w' a token
            (wrap (nonce + 1))
            (pos (set_bytes quantity))
      pub returned : out.return_data ≡ to_bytes (wrap (nonce + 1)) ∷ []

    creator-own :
        (w : h.World) (a : h.Account) (i : ContractCallInput) (owner : Option h.Account)
        (uris : List Bytes)
        → is_by_caller h core i ≡ false
        → creator_and_uris h core w (some a) i ≡ ok (owner, uris)
        → owner ≡ some a
    unfolding creator_and_uris
    creator-own w a i owner uris own e =
        after_if (is_by_caller h core i) _ _ e (λ by _. absurd (cc (by, own))) λ _ last. cc (last)

    same_account :
        (owner : Option h.Account) (account a : h.Account)
        → owner ≡ some a
        → account_or_error nil_user_account owner ≡ ok account
        → account ≡ a
    same_account none account a e opened = cc (e)
    same_account (some b) account a e opened =
        let first : b ≡ account = cc (opened) in let second : b ≡ a = cc (e) in sym first ∙ second

    -- What follows the choice of the account.
    abbrev after_checks :
        h.World
        → h.Account
        → ContractCallInput
        → Bytes
        → List Bytes
        → Outcome BuiltInError (VmOutput × h.World)
    after_checks w account input token_id uris = do
      nonce ← get_latest_nonce h core w account token_id
      guard
          (not (
            ltb input.gas_provided
              (gas_to_create h core epochs func_gas_cost store_per_byte input.arguments)))
          not_enough_gas
      royalty_bytes ← at input.arguments 3
      guard (not (ltb core.max_royalty (royalties_of royalty_bytes))) invalid_arguments
      quantity_bytes ← at input.arguments 1
      guard (ltb 0 (set_bytes quantity_bytes)) invalid_arguments
      if ltb 1 (set_bytes quantity_bytes)
          then check_allowed_to_execute h core w (some account) token_id
              core.dct_role_nft_add_quantity
          else ok tt
      guard
          (not (
            epochs.is_value_length_check
            && ltb max_len_for_add_nft_quantity (length quantity_bytes)))
          invalid_arguments
      token ←
          new_nft h core input.caller_addr (wrap (nonce + 1)) (royalties_of royalty_bytes) uris
            input.arguments
      w' ←
          save_new_nft h core epochs w account token_id (wrap (nonce + 1)) token
            (pos (set_bytes quantity_bytes)) input.return_call_after_error
            (is_by_caller h core input)
      ok (
        add_dct_entry_in_vm_output
            (record (output_with_gas (
              input.gas_provided
              - gas_to_create h core epochs func_gas_cost store_per_byte input.arguments)) {
                return_data = to_bytes (wrap (nonce + 1)) ∷ [];
              })
            core.dct_nft_create token_id (wrap (nonce + 1)) (pos (set_bytes quantity_bytes))
            (input.caller_addr ∷ or_empty (h.marshal_token token) ∷ []),
        w',
      )

    created_after_checks :
        (w w' : h.World) (a : h.Account) (i : ContractCallInput) (out : VmOutput) (token : Bytes)
        (uris : List Bytes) (account : h.Account)
        → account ≡ a
        → is_by_caller h core i ≡ false
        → IsUser h core w a
        → at {E = BuiltInError} i.arguments 0 ≡ ok token
        → check_allowed_to_execute h core w (some a) token core.dct_role_nft_create ≡ ok tt
        → after_checks w account i token uris ≡ ok (out, w')
        → IsCreation w w' a i out
    unfolding add_dct_entry_in_vm_output
    created_after_checks w w' a i out token uris account is_a own user token_at allowed e =
        let gas = gas_to_create h core epochs func_gas_cost store_per_byte i.arguments in
        after_ok (get_latest_nonce h core w account token) _ e λ nonce latest e1.
          after_ok (guard (not (ltb i.gas_provided gas)) not_enough_gas) _ e1 λ _ paid e2.
            after_ok (at i.arguments 3) _ e2 λ royalty royalty_at e3.
              after_ok (guard (not (ltb core.max_royalty (royalties_of royalty))) invalid_arguments)
                _ e3
                λ _ small e4. after_ok (at i.arguments 1) _ e4 λ quantity quantity_at e5.
                  after_ok (guard (ltb 0 (set_bytes quantity)) invalid_arguments) _ e5
                    λ _ positive e6.
                      after_ok
                        (if ltb 1 (set_bytes quantity)
                          then check_allowed_to_execute h core w (some account) token
                              core.dct_role_nft_add_quantity
                          else ok tt)
                        _ e6
                        λ _ many e7.
                          after_ok
                            (guard
                              (not (
                                epochs.is_value_length_check
                                && ltb max_len_for_add_nft_quantity (length quantity)))
                              invalid_arguments)
                            _ e7
                            λ _ short e8.
                              let next = wrap (nonce + 1) in
                              after_ok
                                (new_nft h core i.caller_addr next (royalties_of royalty) uris
                                  i.arguments)
                                _ e8
                                λ t made_of e9.
                                  after_ok
                                    (save_new_nft h core epochs w account token next t
                                      (pos (set_bytes quantity)) i.return_call_after_error
                                      (is_by_caller h core i))
                                    _ e9
                                    λ w1 saved last.
                                      let end : w1 ≡ w' = cc (last) in
                                      let value =
                                        new_nft-value h core keys store accounts marshaller epochs
                                          i.caller_addr next (royalties_of royalty) uris i.arguments
                                          quantity t quantity_at made_of in
                                      record {
                                        token = token;
                                        quantity = quantity;
                                        royalty = royalty;
                                        nonce = nonce;
                                        token_named = token_at;
                                        quantity_named = quantity_at;
                                        royalty_named = royalty_at;
                                        is_allowed = allowed;
                                        some_quantity =
                                            ltb→lt 0 (set_bytes quantity)
                                              (guard-eq-ok _ _ positive);
                                        small_royalty = ground (arith, guard-eq-ok _ _ small);
                                        latest = rw (← is_a) latest;
                                        created =
                                            save_new_nft_sound h core keys store accounts marshaller
                                              epochs w w' a token next t (pos (set_bytes quantity))
                                              i.return_call_after_error user
                                              (wrap_small (nonce + 1)) value
                                              (rw (← is_a, ← end, ← own) saved);
                                        returned = cc (last);
                                      }

    -- Where data tries hold what is saved, saving keeps the accounts, tokens are read back from
    -- their bytes, and no key of a counter is that of a token's amount: a creation by an account
    -- that is not the system account and acts for itself, if it succeeds, was by a holder of the
    -- role, of a positive quantity, with royalties that as a uint32 are within the maximum; the
    -- counter of the token goes up by one as a uint64, the account has the quantity under the new
    -- counter as nonce, and the new nonce is returned.
    pub nft_create-counts :
        (w w' : h.World) (a : h.Account) (input : ContractCallInput) (out : VmOutput)
        → IsUser h core w a
        → is_by_caller h core input ≡ false
        → process_nft_create h core epochs func_gas_cost store_per_byte w (some a) (some input)
          ≡ ok (out, w')
        → IsCreation w w' a input out
    unfolding process_nft_create creator_and_uris add_dct_entry_in_vm_output
    nft_create-counts w w' a input out user own e =
        after_ok (check_dct_nft_create_burn_add_input core (some a) (some input) func_gas_cost) _ e
          λ i checked e1.
            let (given, call) =
              check-IsOwnCall_sound core (some a) (some input) func_gas_cost i checked in
            let same : input ≡ i = cc (given) in
            let own_i : is_by_caller h core i ≡ false = rw same at own in
            rw same (
              after_ok
                (guard (not (ltb (length i.arguments) (if is_by_caller h core i then 8 else 7)))
                  invalid_arguments)
                _ e1
                λ _ enough e2.
                  after_ok (creator_and_uris h core w (some a) i) _ e2 λ (owner, uris) chosen e3.
                    let is_own = creator-own w a i owner uris own_i chosen in
                    after_ok (at i.arguments 0) _ e3 λ token token_at e4.
                      after_ok
                        (check_allowed_to_execute h core w owner token core.dct_role_nft_create) _
                        e4
                        λ _ allowed e5.
                          after_ok (account_or_error nil_user_account owner) _ e5
                            λ account opened e6.
                              let is_a : account ≡ a = same_account owner account a is_own opened in
                              created_after_checks w w' a i out token uris account is_a own_i user
                                token_at (rw is_own at allowed) e6)
