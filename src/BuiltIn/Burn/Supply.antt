-- ===== src/BuiltIn/Burn/Supply.antt =====
-- What a burn changes, and where its gas goes.
use k_vm_common_go.Prelude.{
  ◌+◌, ltb, ◌==◌, ◌<◌, ◌≤◌, ◌≡◌, arith, not, ℕ, Bool-cases, inl, inr, true, ltb→lt, some, List, [],
  ◌∷◌, Bytes, length, bytes_equal, bytes_equal→eq, ok, after_ok, guard, at,
}
use k_vm_common_go.Prelude.Int.{pos, neg}
use k_vm_common_go.Core.{Core}
use k_vm_common_go.Go.BigInt.{set_bytes}
use k_vm_common_go.Address.{is_smart_contract_address}
use k_vm_common_go.BuiltIn.Errors.{
  BuiltInError, invalid_arguments, negative_value, address_is_not_dct_system_sc, not_enough_gas,
}
use k_vm_common_go.BuiltIn.Host.{Host, IsStore, IsMarshaller}
use k_vm_common_go.BuiltIn.Calls.{
  ContractCallInput, VmOutput, OutputAccount, OutputTransfer, add_dct_entry_in_vm_output,
  add_output_transfer_to_vm_output, check_basic_dct_arguments, compute_gas_remaining,
}
use k_vm_common_go.BuiltIn.Calls.Checks.{check-IsBasic_sound, guard-eq-ok}
use k_vm_common_go.BuiltIn.GlobalSettings.{token_key}
use k_vm_common_go.BuiltIn.Balance.{add_to_dct_balance}
use k_vm_common_go.BuiltIn.Balance.Laws.{IsChange, add_to_dct_balance_sound}
use k_vm_common_go.BuiltIn.Burn.{process_burn, burn_output}

-- The gas that an output sends on with its transfers.
unfoldable pub gas_of_transfers : List OutputTransfer → ℕ
gas_of_transfers [] = 0
gas_of_transfers (t ∷ ts) = t.gas_limit + gas_of_transfers ts

unfoldable pub gas_sent : List (Bytes × OutputAccount) → ℕ
gas_sent [] = 0
gas_sent ((address, account) ∷ accounts) =
    gas_of_transfers account.output_transfers + gas_sent accounts

module _ (h : Host) (core : Core) (func_gas_cost : ℕ) (store : IsStore h)
    (marshaller : IsMarshaller h) where
  pub record IsSystemBurn (w w' : h.World) (a : h.Account) (input : ContractCallInput)
      (out : VmOutput) : Type 0 where
    pub token : Bytes
    pub value_bytes : Bytes
    pub arguments : input.arguments ≡ token ∷ value_bytes ∷ []
    pub positive : 0 < set_bytes value_bytes
    pub to_system : input.recipient_addr ≡ core.dct_sc_address
    pub change :
        IsChange h core store marshaller w w' a
          (token_key core token)
          (neg (pos (set_bytes value_bytes)))
          input.return_call_after_error
    pub gas : out.gas_remaining + gas_sent out.output_accounts + func_gas_cost ≡ input.gas_provided

  two_arguments :
      (args : List Bytes) (token value : Bytes)
      → (length args == 2) ≡ true
      → at {E = BuiltInError} args 0 ≡ ok token
      → at {E = BuiltInError} args 1 ≡ ok value
      → args ≡ token ∷ value ∷ []
  two_arguments [] token value n t v = cc
  two_arguments (x ∷ []) token value n t v = cc
  two_arguments (x ∷ y ∷ []) token value n t v = cc
  two_arguments (x ∷ y ∷ z ∷ args) token value n t v = absurd (ground (arith, n))

  burn_output_gas :
      (input : ContractCallInput) (a : h.Account) (token : Bytes) (value : ℕ)
      → func_gas_cost ≤ input.gas_provided
      → (burn_output h core func_gas_cost input (some a) token value).gas_remaining
          + gas_sent (burn_output h core func_gas_cost input (some a) token value).output_accounts
          + func_gas_cost
        ≡ input.gas_provided
  unfolding burn_output add_dct_entry_in_vm_output add_output_transfer_to_vm_output
      compute_gas_remaining gas_sent gas_of_transfers
  burn_output_gas input a token value paid =
      elim (Bool-cases (is_smart_contract_address input.caller_addr)) [
        | inl contract ↦ rw contract (ground arith)
        | inr person ↦ rw person (ground arith)
      ]

  -- Where the data tries hold what is saved and the marshaller reads back what it wrote: a burn
  -- that succeeds was a call of the system contract with two arguments, the token and a positive
  -- value; it takes the value from the balance of the account for the token, which is not negative
  -- after it, and changes nothing else that the tries hold; the gas that remains, the gas that is
  -- sent on with the output's transfers and the cost are together the gas provided.
  pub dct_burn-takes_value :
      (w w' : h.World) (a : h.Account) (input : ContractCallInput) (out : VmOutput)
      → process_burn h core func_gas_cost w (some a) (some input) ≡ ok (out, w')
      → IsSystemBurn w w' a input out
  unfolding process_burn
  dct_burn-takes_value w w' a input out e =
      after_ok (check_basic_dct_arguments core (some input)) _ e λ i checked e1.
        let (given, basic) = check-IsBasic_sound core (some input) i checked in
        let same : input ≡ i = cc (given) in
        rw same (
          after_ok (guard (length i.arguments == 2) invalid_arguments) _ e1 λ _ two e2.
            after_ok (at i.arguments 1) _ e2 λ value value_at e3.
              after_ok (guard (ltb 0 (set_bytes value)) negative_value) _ e3 λ _ positive e4.
                after_ok
                  (guard (bytes_equal i.recipient_addr core.dct_sc_address)
                    address_is_not_dct_system_sc)
                  _ e4
                  λ _ system e5. after_ok (at i.arguments 0) _ e5 λ token token_at e6.
                    after_ok (guard (not (ltb i.gas_provided func_gas_cost)) not_enough_gas) _ e6
                      λ _ paid e7.
                        after_ok
                          (add_to_dct_balance h core w a (token_key core token)
                            (neg (pos (set_bytes value))) i.return_call_after_error)
                          _ e7
                          λ w1 changed last.
                            let written : w1 ≡ w' = cc (last) in
                            let output : burn_output h core func_gas_cost i (some a) token
                                  (set_bytes value)
                                ≡ out =
                              cc (last) in
                            record {
                              token = token;
                              value_bytes = value;
                              arguments =
                                  two_arguments i.arguments token value (guard-eq-ok _ _ two)
                                    token_at value_at;
                              positive = ltb→lt 0 (set_bytes value) (guard-eq-ok _ _ positive);
                              to_system =
                                  bytes_equal→eq i.recipient_addr core.dct_sc_address
                                    (guard-eq-ok _ _ system);
                              change =
                                  add_to_dct_balance_sound h core store marshaller w w' a _ _ _
                                    (cc (changed, written));
                              gas = rw (← output) (
                                  burn_output_gas i a token (set_bytes value)
                                    (ground (arith, guard-eq-ok _ _ paid)));
                            })
