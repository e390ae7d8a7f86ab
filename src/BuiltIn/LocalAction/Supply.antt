-- ===== src/BuiltIn/LocalAction/Supply.antt =====
-- What minting and burning change: one balance, by the named amount, and the gas by the cost.
use k_vm_common_go.Prelude.{
  ℕ, ◌+◌, ◌-◌, ltb, ◌≡◌, arith, not, some, Bytes, length, ok, after_ok, guard, at,
}
use k_vm_common_go.Prelude.Int.{ℤ, pos, neg}
use k_vm_common_go.Core.{Core}
use k_vm_common_go.Go.BigInt.{set_bytes}
use k_vm_common_go.BuiltIn.Errors.{BuiltInError}
use k_vm_common_go.BuiltIn.Host.{Host, IsStore, IsMarshaller}
use k_vm_common_go.BuiltIn.Calls.{
  ContractCallInput, VmOutput, add_dct_entry_in_vm_output, check_input_arguments_for_local_action,
}
use k_vm_common_go.BuiltIn.Calls.Checks.{IsLocal, check-IsLocal_sound}
use k_vm_common_go.BuiltIn.Roles.{check_allowed_to_execute}
use k_vm_common_go.BuiltIn.GlobalSettings.{token_key}
use k_vm_common_go.BuiltIn.Balance.{add_to_dct_balance}
use k_vm_common_go.BuiltIn.Balance.Laws.{IsChange, add_to_dct_balance_sound}
use k_vm_common_go.BuiltIn.LocalAction.{process_local_mint, process_local_burn, is_allowed_to_burn}

module _ (h : Host) (core : Core) (func_gas_cost : ℕ) (store : IsStore h)
    (marshaller : IsMarshaller h) where
  -- A local action that succeeded: the checks of the call held, the token is the first argument, the
  -- action was allowed, the balance changed by the amount, and the gas left is what was provided
  -- less the cost.
  pub record IsLocalAction (allowed : Bytes → Type 0) (amount : ℕ → ℤ) (w w' : h.World)
      (a : h.Account) (input : ContractCallInput) (out : VmOutput) : Type 0 where
    pub token : Bytes
    pub named : at {E = BuiltInError} input.arguments 0 ≡ ok token
    pub local : IsLocal core input func_gas_cost
    pub is_allowed : allowed token
    pub change :
        IsChange h core store marshaller w w' a
          (token_key core token)
          (amount (set_bytes local.value_bytes))
          input.return_call_after_error
    pub gas : out.gas_remaining + func_gas_cost ≡ input.gas_provided

  IsLocalAction-of :
      (allowed : Bytes → Type 0) (amount : ℕ → ℤ) (w w' : h.World) (a : h.Account)
      (input : ContractCallInput) (out : VmOutput) (token value : Bytes)
      → at {E = BuiltInError} input.arguments 0 ≡ ok token
      → IsLocal core input func_gas_cost
      → allowed token
      → at {E = BuiltInError} input.arguments 1 ≡ ok value
      → IsChange h core store marshaller w w' a
          (token_key core token)
          (amount (set_bytes value))
          input.return_call_after_error
      → out.gas_remaining ≡ input.gas_provided - func_gas_cost
      → IsLocalAction allowed amount w w' a input out
  IsLocalAction-of allowed amount w w' a input out token value named local is_allowed given change
        gas =
      let paid = local.paid in
      let same : value ≡ local.value_bytes = cc (local.named) in
      record {
        token = token;
        named = named;
        local = local;
        is_allowed = is_allowed;
        change = rw (← same) change;
        gas = ground arith;
      }

  -- Where the data tries hold what is saved and the marshaller reads back what it wrote: a mint
  -- that succeeds was a call of the account to itself with a positive value and enough gas by a
  -- holder of the mint role; it adds the value to the balance of the account for the token, changes
  -- nothing else that the tries hold, and takes the cost from the gas.
  pub mint-adds_value :
      (w w' : h.World) (a : h.Account) (input : ContractCallInput) (out : VmOutput)
      → process_local_mint h core func_gas_cost w (some a) (some input) ≡ ok (out, w')
      → IsLocalAction
          (λ token.
            check_allowed_to_execute h core w (some a) token core.dct_role_local_mint ≡ ok tt)
          pos
          w
          w'
          a
          input
          out
  unfolding process_local_mint add_dct_entry_in_vm_output
  mint-adds_value w w' a input out e =
      after_ok (check_input_arguments_for_local_action core (some a) (some input) func_gas_cost) _ e
        λ (i, snd) checked e1.
          let (given, owner, local) =
            check-IsLocal_sound core (some a) (some input) func_gas_cost i snd checked in
          let same : input ≡ i = cc in
          let same_snd : a ≡ snd = cc in
          rw (same, same_snd)
            (after_ok (at i.arguments 0) _ e1 λ token named e2.
              after_ok (check_allowed_to_execute h core w (some snd) token core.dct_role_local_mint)
                _ e2
                λ _ allowed e3. after_ok (at i.arguments 1) _ e3 λ value value_at e4.
                  after_ok (guard (not (ltb core.max_len_for_dct_issue_mint (length value))) _) _ e4
                    λ _ short e5.
                      after_ok
                        (add_to_dct_balance h core w snd (token_key core token)
                          (pos (set_bytes value)) i.return_call_after_error)
                        _ e5
                        λ w1 changed last.
                          IsLocalAction-of _ pos w w' snd i out token value named local allowed
                            value_at
                            (add_to_dct_balance_sound h core store marshaller w w' snd _ _ _
                              (cc (changed, last)))
                            (cc last))

  -- Where the data tries hold what is saved and the marshaller reads back what it wrote: a local
  -- burn that succeeds was a call of the account to itself with a positive value and enough gas,
  -- which `is_allowed_to_burn` allowed; it takes the value from the balance of the account for the
  -- token, which is not negative after it, changes nothing else that the tries hold, and takes the
  -- cost from the gas.
  pub burn-takes_value :
      (w w' : h.World) (a : h.Account) (input : ContractCallInput) (out : VmOutput)
      → process_local_burn h core func_gas_cost w (some a) (some input) ≡ ok (out, w')
      → IsLocalAction
          (λ token. is_allowed_to_burn h core func_gas_cost w a token ≡ ok tt)
          (λ n. neg (pos n))
          w
          w'
          a
          input
          out
  unfolding process_local_burn add_dct_entry_in_vm_output
  burn-takes_value w w' a input out e =
      after_ok (check_input_arguments_for_local_action core (some a) (some input) func_gas_cost) _ e
        λ (i, snd) checked e1.
          let (given, owner, local) =
            check-IsLocal_sound core (some a) (some input) func_gas_cost i snd checked in
          let same : input ≡ i = cc in
          let same_snd : a ≡ snd = cc in
          rw (same, same_snd)
            (after_ok (at i.arguments 0) _ e1 λ token named e2.
              after_ok (is_allowed_to_burn h core func_gas_cost w snd token) _ e2 λ _ allowed e3.
                after_ok (at i.arguments 1) _ e3 λ value value_at e4.
                  after_ok
                    (add_to_dct_balance h core w snd (token_key core token)
                      (neg (pos (set_bytes value))) i.return_call_after_error)
                    _ e4
                    λ w1 changed last.
                      IsLocalAction-of _ (λ n. neg (pos n)) w w' snd i out token value named local
                        allowed value_at
                        (add_to_dct_balance_sound h core store marshaller w w' snd _ _ _
                          (cc (changed, last)))
                        (cc last))
