-- ===== src/BuiltIn/Calls.antt =====
-- input.go, output.go, builtInFunctions/logsAndEvents.go and the checks of a call that several
-- functions make: the input of a call, its output, and the entries of the log.
pub mod Checks
use k_vm_common_go.Prelude.{
  ℕ, ◌+◌, ◌-◌, ltb, leb, ◌==◌, if◌then◌else◌, not, Bool, true, false, Option, none, some, List, [],
  ◌∷◌, ◌++◌, Bytes, length, drop, bytes_equal, Outcome, ok, err, panic, ◌>>=◌, ◌>>◌, at, guard,
  or_panic,
}
use k_vm_common_go.Prelude.Int.{ℤ, pos, negsuc, abs}
use k_vm_common_go.Core.{Core}
use k_vm_common_go.Go.Hex.{encode_to_string}
use k_vm_common_go.Go.BigInt.{to_bytes, set_bytes}
use k_vm_common_go.BuiltIn.Errors.{
  BuiltInError, nil_vm_input, nil_value, built_in_function_called_with_value, invalid_arguments,
  invalid_rcv_addr, nil_user_account, negative_value, not_enough_gas,
}

-- The fields of ContractCallInput that the modelled functions read. A nil `CallValue` is `none`.
pub record ContractCallInput : Type 0 where
  pub caller_addr : Bytes
  pub arguments : List Bytes
  pub call_value : Option ℤ
  pub call_type : ℕ
  pub gas_provided : ℕ
  pub gas_locked : ℕ
  pub return_call_after_error : Bool
  pub recipient_addr : Bytes
  pub function : Bytes

-- `Data` is `payload`.
pub record OutputTransfer : Type 0 where
  pub value : ℤ
  pub gas_limit : ℕ
  pub gas_locked : ℕ
  pub payload : Bytes
  pub call_type : ℕ
  pub sender_address : Bytes

pub record OutputAccount : Type 0 where
  pub address : Bytes
  pub output_transfers : List OutputTransfer

pub record LogEntry : Type 0 where
  pub identifier : Bytes
  pub address : Bytes
  pub topics : List Bytes

-- The output accounts of a VMOutput are a map; the functions put at most one in.
pub record VmOutput : Type 0 where
  pub return_code : ℕ
  pub return_data : List Bytes
  pub gas_remaining : ℕ
  pub output_accounts : List (Bytes × OutputAccount)
  pub logs : List LogEntry

-- &vmcommon.VMOutput{GasRemaining: gas, ReturnCode: vmcommon.Ok}
abbrev pub output_with_gas : ℕ → VmOutput
output_with_gas gas = record {
  return_code = 0;
  return_data = [];
  gas_remaining = gas;
  output_accounts = [];
  logs = [];
}

abbrev address_of : List Bytes → Bytes
address_of [] = []
address_of (a ∷ args) = a

unfoldable pub new_entry_for_dct : Bytes → Bytes → ℕ → ℤ → List Bytes → LogEntry
new_entry_for_dct identifier token_id nonce value args = record {
  identifier = identifier;
  address = address_of args;
  topics = (token_id ∷ to_bytes nonce ∷ to_bytes (abs value) ∷ []) ++ drop 1 args;
}

unfoldable pub add_dct_entry_in_vm_output : VmOutput → Bytes → Bytes → ℕ → ℤ → List Bytes → VmOutput
unfolding new_entry_for_dct
add_dct_entry_in_vm_output out identifier token_id nonce value args = record out {
  logs = out.logs ++ (new_entry_for_dct identifier token_id nonce value args ∷ []);
}

-- The data of a call: the function, and each argument in hexadecimal form behind a separator.
unfoldable pub append_args : Bytes → List Bytes → Bytes
append_args text [] = text
append_args text (arg ∷ args) = append_args (text ++ (b'@' ∷ encode_to_string arg)) args

unfoldable pub add_output_transfer_to_vm_output :
    Bytes → Bytes → List Bytes → Bytes → ℕ → ℕ → VmOutput → VmOutput
unfolding append_args
add_output_transfer_to_vm_output sender function arguments recipient gas_locked call_type out =
    let transfer : OutputTransfer = record {
      value = pos 0;
      gas_limit = out.gas_remaining;
      gas_locked = gas_locked;
      payload = append_args function arguments;
      call_type = call_type;
      sender_address = sender;
    } in
    record out {
      output_accounts =
          (recipient, record { address = recipient; output_transfers = transfer ∷ [] }) ∷ [];
      gas_remaining = 0;
    }

-- value.Cmp(zero) == 0, value.Cmp(zero) < 0
abbrev pub is_zero : ℤ → Bool
is_zero (pos n) = n == 0
is_zero (negsuc n) = false

abbrev pub is_negative : ℤ → Bool
is_negative (pos n) = false
is_negative (negsuc n) = true

-- A function that does not test it for nil dereferences the input.
abbrev pub input_or_error : Option ContractCallInput → Outcome BuiltInError ContractCallInput
input_or_error none = err nil_vm_input
input_or_error (some input) = ok input

abbrev pub value_or_error : Option ℤ → Outcome BuiltInError ℤ
value_or_error none = err nil_value
value_or_error (some v) = ok v

unfoldable pub check_basic_dct_arguments :
    Core → Option ContractCallInput → Outcome BuiltInError ContractCallInput
check_basic_dct_arguments core vm_input = do
  input ← input_or_error vm_input
  value ← value_or_error input.call_value
  guard (is_zero value) built_in_function_called_with_value
  guard (not (ltb (length input.arguments) core.min_len_arguments_dct_transfer)) invalid_arguments
  ok input

-- check.IfNil(acnt)
abbrev pub account_or_error {ℓ} : {A : Type ℓ} → BuiltInError → Option A → Outcome BuiltInError A
account_or_error error none = err error
account_or_error error (some a) = ok a

unfoldable pub check_input_arguments_for_local_action {ℓ} :
    {A : Type ℓ}
    → Core
    → Option A
    → Option ContractCallInput
    → ℕ
    → Outcome BuiltInError (ContractCallInput × A)
unfolding check_basic_dct_arguments
check_input_arguments_for_local_action core acnt_snd vm_input func_gas_cost = do
  input ← check_basic_dct_arguments core vm_input
  guard (bytes_equal input.caller_addr input.recipient_addr) invalid_rcv_addr
  snd ← account_or_error nil_user_account acnt_snd
  value_bytes ← at input.arguments 1
  guard (ltb 0 (set_bytes value_bytes)) negative_value
  guard (not (ltb input.gas_provided func_gas_cost)) not_enough_gas
  ok (input, snd)

-- Without a sender's account the gas was taken in the sender's shard.
unfoldable pub compute_gas_remaining {ℓ} : {A : Type ℓ} → Option A → ℕ → ℕ → ℕ
compute_gas_remaining none gas_provided gas_to_use = 0
compute_gas_remaining (some snd) gas_provided gas_to_use =
    if ltb gas_provided gas_to_use then 0 else gas_provided - gas_to_use
