-- ===== src/BuiltIn/Calls/Checks.antt =====
-- What the checks of a call that succeed say of it.
use k_vm_common_go.Prelude.{
  ℕ, ◌≤◌, ◌<◌, ◌≡◌, refl, arith, Option, none, some, Bytes, length, ok, >>=-eq-ok, at, Bool, true,
  false, guard, bytes_equal, bytes_equal→eq, ltb, ltb→lt, not, ap, ◌∙◌, subst,
}
use k_vm_common_go.Prelude.Int.{ℤ, pos}
use k_vm_common_go.Core.{Core}
use k_vm_common_go.Go.BigInt.{set_bytes}
use k_vm_common_go.BuiltIn.Errors.{BuiltInError, nil_user_account}
use k_vm_common_go.BuiltIn.Calls.{
  ContractCallInput, check_basic_dct_arguments, check_input_arguments_for_local_action, is_zero,
  account_or_error,
}

pub guard-eq-ok : (b : Bool) (e : BuiltInError) → guard b e ≡ ok tt → b ≡ true
guard-eq-ok true e h = refl
guard-eq-ok false e h = cc

-- A call that carries no value and has enough arguments.
pub record IsBasic (core : Core) (input : ContractCallInput) : Type 0 where
  pub no_value : input.call_value ≡ some (pos 0)
  pub enough : core.min_len_arguments_dct_transfer ≤ length input.arguments

zero_value : (o : Option ℤ) (v : ℤ) → o ≡ some v → is_zero v ≡ true → o ≡ some (pos 0)
zero_value o v e z = ground arith

pub check-IsBasic_sound :
    (core : Core) (vm_input : Option ContractCallInput) (input : ContractCallInput)
    → check_basic_dct_arguments core vm_input ≡ ok input
    → (vm_input ≡ some input) × IsBasic core input
unfolding check_basic_dct_arguments
check-IsBasic_sound core none input h = cc
check-IsBasic_sound core (some i) input h =
    let same : i ≡ input = ground arith in
    rw (← same) (refl, record { no_value = ground arith; enough = ground arith })

-- What a local action checks: the caller calls itself, names a positive value, and pays the gas.
pub record IsLocal (core : Core) (input : ContractCallInput) (gas : ℕ) : Type 0 where
  pub basic : IsBasic core input
  pub own : input.caller_addr ≡ input.recipient_addr
  pub value_bytes : Bytes
  pub named : at {E = BuiltInError} input.arguments 1 ≡ ok value_bytes
  pub positive : 0 < set_bytes value_bytes
  pub paid : gas ≤ input.gas_provided

pub check-IsLocal_sound {ℓ} :
    {A : Type ℓ} (core : Core) (acnt : Option A) (vm_input : Option ContractCallInput) (gas : ℕ)
    (input : ContractCallInput) (snd : A)
    → check_input_arguments_for_local_action core acnt vm_input gas ≡ ok (input, snd)
    → (vm_input ≡ some input) × (acnt ≡ some snd) × IsLocal core input gas
unfolding check_input_arguments_for_local_action
check-IsLocal_sound core acnt vm_input gas input snd h =
    let (i, checked, h1) = >>=-eq-ok (check_basic_dct_arguments core vm_input) _ h in
    let (_, own, h2) = >>=-eq-ok (guard (bytes_equal i.caller_addr i.recipient_addr) _) _ h1 in
    let (a, found, h3) = >>=-eq-ok (account_or_error nil_user_account acnt) _ h2 in
    let (v, named, h4) = >>=-eq-ok (at i.arguments 1) _ h3 in
    let (_, positive, h5) = >>=-eq-ok (guard (ltb 0 (set_bytes v)) _) _ h4 in
    let (_, paid, last) = >>=-eq-ok (guard (not (ltb i.gas_provided gas)) _) _ h5 in
    let same : i ≡ input = cc in
    let same_snd : a ≡ snd = cc in
    let (given, basic) = check-IsBasic_sound core vm_input i checked in
    let own' = bytes_equal→eq i.caller_addr i.recipient_addr (guard-eq-ok _ _ own) in
    let local : IsLocal core i gas = record {
      basic = basic;
      own = own';
      value_bytes = v;
      named = named;
      positive = ltb→lt 0 (set_bytes v) (guard-eq-ok _ _ positive);
      paid = ground arith;
    } in
    (given ∙ ap some same, ground arith, subst (λ j. IsLocal core j gas) same local)
