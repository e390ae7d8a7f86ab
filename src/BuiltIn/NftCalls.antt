-- ===== src/BuiltIn/NftCalls.antt =====
-- builtInFunctions/dctNFTCreate.go: the checks that the functions on one token with a nonce share.
use k_vm_common_go.Prelude.{
  ltb, ◌==◌, not, Option, none, some, ℕ, bytes_equal, Outcome, ok, ◌>>=◌, ◌>>◌, guard, ◌||◌, Bool,
  true, false, ◌≡◌, ◌≤◌, arith, after_ok, bytes_equal→eq,
}
use k_vm_common_go.Core.{Core}
use k_vm_common_go.BuiltIn.Errors.{BuiltInError, invalid_rcv_addr, nil_user_account, not_enough_gas}
use k_vm_common_go.BuiltIn.Calls.{ContractCallInput, check_basic_dct_arguments}
use k_vm_common_go.BuiltIn.Calls.Checks.{IsBasic, check-IsBasic_sound, guard-eq-ok}

-- maxLenForAddNFTQuantity
abbrev pub max_len_for_add_nft_quantity : ℕ
max_len_for_add_nft_quantity = 32

-- !check.IfNil(account)
abbrev pub is_some {ℓ} : {A : Type ℓ} → Option A → Bool
is_some none = false
is_some (some a) = true

unfoldable pub check_dct_nft_create_burn_add_input {ℓ} :
    {A : Type ℓ}
    → Core
    → Option A
    → Option ContractCallInput
    → ℕ
    → Outcome BuiltInError ContractCallInput
unfolding check_basic_dct_arguments
check_dct_nft_create_burn_add_input core account vm_input func_gas_cost = do
  input ← check_basic_dct_arguments core vm_input
  guard (bytes_equal input.caller_addr input.recipient_addr) invalid_rcv_addr
  guard (is_some account || (input.call_type == core.exec_on_dest_by_caller)) nil_user_account
  guard (not (ltb input.gas_provided func_gas_cost)) not_enough_gas
  ok input

-- What the checks say of a call: it carries no value, the account calls itself, and pays the gas.
pub record IsOwnCall (core : Core) (input : ContractCallInput) (gas : ℕ) : Type 0 where
  pub basic : IsBasic core input
  pub own : input.caller_addr ≡ input.recipient_addr
  pub paid : gas ≤ input.gas_provided

pub check-IsOwnCall_sound {ℓ} :
    {A : Type ℓ} (core : Core) (acnt : Option A) (vm_input : Option ContractCallInput) (gas : ℕ)
    (input : ContractCallInput)
    → check_dct_nft_create_burn_add_input core acnt vm_input gas ≡ ok input
    → (vm_input ≡ some input) × IsOwnCall core input gas
unfolding check_dct_nft_create_burn_add_input
check-IsOwnCall_sound core acnt vm_input gas input h =
    after_ok (check_basic_dct_arguments core vm_input) _ h λ i checked h1.
      after_ok (guard (bytes_equal i.caller_addr i.recipient_addr) invalid_rcv_addr) _ h1
        λ _ own h2.
          after_ok
            (guard (is_some acnt || (i.call_type == core.exec_on_dest_by_caller)) nil_user_account)
            _ h2
            λ _ known h3.
              after_ok (guard (not (ltb i.gas_provided gas)) not_enough_gas) _ h3 λ _ paid last.
                let same : i ≡ input = cc (last) in
                let (given, basic) = check-IsBasic_sound core vm_input i checked in
                let own' = bytes_equal→eq i.caller_addr i.recipient_addr (guard-eq-ok _ _ own) in
                rw (← same) (given, record { basic = basic; own = own'; paid = ground arith })
