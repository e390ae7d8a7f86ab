-- ===== src/BuiltIn/Transfer/Conservation.antt =====
-- A transfer moves value: what the sender loses the destination gains, and nothing else changes.
use k_vm_common_go.Prelude.{
  ℕ, ltb, ◌==◌, ◌<◌, ◌≤◌, ◌≡◌, inl, inr, sym, ◌∙◌, ap, arith, not, ◌&&◌, Bool, Bool-cases, ltb→lt,
  Option, some, Bytes, ok, after_ok, guard, at,
}
use k_vm_common_go.Prelude.Int.{ℤ, pos, neg}
use k_vm_common_go.Core.{Core}
use k_vm_common_go.Go.BigInt.{set_bytes}
use k_vm_common_go.BuiltIn.Errors.{BuiltInError, not_enough_gas}
use k_vm_common_go.BuiltIn.Host.{Host, IsStore, IsMarshaller}
use k_vm_common_go.BuiltIn.Calls.{ContractCallInput, VmOutput, check_basic_dct_arguments}
use k_vm_common_go.BuiltIn.Calls.Checks.{check-IsBasic_sound, guard-eq-ok}
use k_vm_common_go.BuiltIn.GlobalSettings.{token_key}
use k_vm_common_go.BuiltIn.Balance.{add_to_dct_balance, get_dct_data_from_key}
use k_vm_common_go.BuiltIn.Balance.Laws.{Holds, IsChange, add_to_dct_balance_sound}
use k_vm_common_go.BuiltIn.Payable.{check_payable, determine_is_sc_call_after}
use k_vm_common_go.BuiltIn.Transfer.{
  DctTransferFunc, check_if_transfer_can_happen_with_limited_transfer, take_from_sender,
  give_to_destination, process_transfer,
}

module _ (h : Host) (core : Core) (store : IsStore h) (marshaller : IsMarshaller h)
    (e : DctTransferFunc) where
  -- An account holds one amount.
  pub Holds-unique :
      (w : h.World) (a : h.Account) (k : Bytes) (x y : ℤ)
      → Holds h core w a k x
      → Holds h core w a k y
      → x ≡ y
  Holds-unique w a k x y p q =
      let first = p.stored in
      let second = q.stored in
      let x_is = p.amount in
      let y_is = q.amount in
      let same : ok p.token ≡ ok q.token = sym first ∙ second in
      let same_token : p.token ≡ q.token = cc (same) in
      let values : p.token.value ≡ q.token.value = ap (λ t. t.value) same_token in
      cc (values, x_is, y_is)

  -- What a change leaves alone an account still holds.
  pub Holds-kept :
      (w w' : h.World) (b : h.Account) (k : Bytes) (x : ℤ)
      → h.retrieve_value w' b k ≡ h.retrieve_value w b k
      → Holds h core w b k x
      → Holds h core w' b k x
  unfolding get_dct_data_from_key
  Holds-kept w w' b k x same held = record {
    token = held.token;
    stored = rw same (held.stored);
    fungible = held.fungible;
    amount = held.amount;
  }

  take_sound :
      (w w1 : h.World) (a : h.Account) (input : ContractCallInput) (k : Bytes) (v : ℕ)
      → take_from_sender h core e w (some a) input k v ≡ ok w1
      → (e.func_gas_cost ≤ input.gas_provided)
        × IsChange h core store marshaller w w1 a k (neg (pos v)) input.return_call_after_error
  take_sound w w1 a input k v taken =
      after_ok (guard (not (ltb input.gas_provided e.func_gas_cost)) not_enough_gas) _ taken
        λ _ paid e1. (
          ground (arith, guard-eq-ok _ _ paid),
          add_to_dct_balance_sound h core store marshaller w w1 a k _ _ e1,
        )

  give_sound :
      (w w' : h.World) (snd : Option h.Account) (b : h.Account) (input : ContractCallInput)
      (token k : Bytes) (v : ℕ) (after : Bool) (out out' : VmOutput)
      → give_to_destination h core e w snd (some b) input token k v after out ≡ ok (out', w')
      → IsChange h core store marshaller w w' b k (pos v) input.return_call_after_error
  give_sound w w' snd b input token k v after out out' given =
      after_ok
        (check_payable h core e.payable_handler w input input.recipient_addr
          core.min_len_arguments_dct_transfer)
        _ given
        λ _ payable e1.
          after_ok (add_to_dct_balance h core w b k (pos v) input.return_call_after_error) _ e1
            λ w1 changed e2.
              let last : w1 ≡ w' = elim (Bool-cases after) [
                | inl called ↦
                    after_ok (at input.arguments core.min_len_arguments_dct_transfer) _
                      (rw called at e2) λ f _ e3. cc
                | inr plain ↦ let e3 = rw plain at e2 in cc
              ] in
              add_to_dct_balance_sound h core store marshaller w w' b k _ _ (cc (changed, last))

  -- What the two parts of a transfer do, one after the other.
  pub record IsTransfer (w w' : h.World) (a b : h.Account) (input : ContractCallInput)
      : Type 0 where
    pub token : Bytes
    pub value_bytes : Bytes
    pub token_named : at {E = BuiltInError} input.arguments 0 ≡ ok token
    pub value_named : at {E = BuiltInError} input.arguments 1 ≡ ok value_bytes
    pub positive : 0 < set_bytes value_bytes
    pub between : h.World
    pub paid : e.func_gas_cost ≤ input.gas_provided
    pub taken :
        IsChange h core store marshaller w between a
          (token_key core token)
          (neg (pos (set_bytes value_bytes)))
          input.return_call_after_error
    pub given :
        IsChange h core store marshaller between w' b
          (token_key core token)
          (pos (set_bytes value_bytes))
          input.return_call_after_error

  pub IsTransfer-sound :
      (w w' : h.World) (a b : h.Account) (input : ContractCallInput) (out : VmOutput)
      → process_transfer h core e w (some a) (some b) (some input) ≡ ok (out, w')
      → IsTransfer w w' a b input
  unfolding process_transfer
  IsTransfer-sound w w' a b input out done =
      after_ok (check_basic_dct_arguments core (some input)) _ done λ i checked e1.
        let (given, basic) = check-IsBasic_sound core (some input) i checked in
        let same : input ≡ i = cc (given) in
        rw same (
          after_ok
            (guard
              (not (
                h.compute_id i.recipient_addr == core.metachain_shard_id
                && not e.enable_epochs.is_transfer_to_meta))
              _)
            _ e1
            λ _ _ e2. after_ok (at i.arguments 1) _ e2 λ value value_at e3.
              after_ok (guard (ltb 0 (set_bytes value)) _) _ e3 λ _ positive e4.
                after_ok (at i.arguments 0) _ e4 λ token token_at e5.
                  after_ok
                    (check_if_transfer_can_happen_with_limited_transfer h core e.global_settings w _
                      (token_key core token) i.caller_addr i.recipient_addr (some a) (some b)
                      i.return_call_after_error)
                    _ e5
                    λ _ _ e6.
                      after_ok
                        (take_from_sender h core e w (some a) i (token_key core token)
                          (set_bytes value))
                        _ e6
                        λ w1 taken e7.
                          after_ok
                            (determine_is_sc_call_after h core e.payable_handler i i.recipient_addr
                              core.min_len_arguments_dct_transfer)
                            _ e7
                            λ after _ last.
                              let (paid, changed) = take_sound w w1 a i _ _ taken in
                              record {
                                token = token;
                                value_bytes = value;
                                token_named = token_at;
                                value_named = value_at;
                                positive = ltb→lt 0 (set_bytes value) (guard-eq-ok _ _ positive);
                                between = w1;
                                paid = paid;
                                taken = changed;
                                given = give_sound w1 w' (some a) b i token _ _ after _ out last;
                              })
