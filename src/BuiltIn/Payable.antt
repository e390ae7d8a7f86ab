-- ===== src/BuiltIn/Payable.antt =====
-- builtInFunctions/payable.go and builtInFunctions/disabledPayable.go: whether the destination of a
-- transfer may receive it, and whether the transfer is followed by a call of a contract.
use k_vm_common_go.Prelude.{
  ℕ, ltb, leb, ◌==◌, if◌then◌else◌, not, ◌||◌, ◌&&◌, Bool, true, false, [], ◌∷◌, Bytes, length,
  bytes_equal, Outcome, ok, err, ◌>>=◌, at,
}
use k_vm_common_go.Core.{Core}
use k_vm_common_go.Address.{is_smart_contract_address}
use k_vm_common_go.BuiltIn.Errors.{BuiltInError, account_not_payable}
use k_vm_common_go.BuiltIn.Epochs.{EnableEpochs}
use k_vm_common_go.BuiltIn.Host.{Host, lift}
use k_vm_common_go.BuiltIn.Calls.{ContractCallInput}

-- The two implementations of the interface PayableChecker.
pub data PayableChecker : Type 0 where
  payable_check : EnableEpochs → PayableChecker
  disabled_payable_handler : PayableChecker

-- len(arg) > 0
abbrev pub is_non_empty : Bytes → Bool
is_non_empty [] = false
is_non_empty (b ∷ arg) = true

module _ (h : Host) (core : Core) where
  unfoldable pub must_verify_payable :
      EnableEpochs → ContractCallInput → ℕ → Outcome BuiltInError Bool
  must_verify_payable epochs input min_len =
      let type_to_verify =
        if epochs.is_fix_async_callback_check
        then core.asynchronous_call_back
        else core.asynchronous_call in
      if epochs.is_fix_async_callback_check && input.return_call_after_error
      then ok false
      else if input.call_type == type_to_verify || input.call_type == core.dct_transfer_and_execute
      then ok false
      else if bytes_equal input.caller_addr core.dct_sc_address
      then ok false
      else if ltb min_len (length input.arguments)
      then (if epochs.is_check_function_argument
          then (do function ← at input.arguments min_len; ok (not (is_non_empty function)))
          else ok false)
      else ok true

  abbrev pub ask_if_payable :
      h.World → ContractCallInput → Bytes → Bool → Outcome BuiltInError (Unit {0})
  ask_if_payable w input dst_address false = ok tt
  ask_if_payable w input dst_address true = do
    is_payable ← lift (h.is_payable w input.caller_addr dst_address)
    if is_payable then ok tt else err account_not_payable

  unfoldable pub check_payable :
      PayableChecker → h.World → ContractCallInput → Bytes → ℕ → Outcome BuiltInError (Unit {0})
  unfolding must_verify_payable
  check_payable disabled_payable_handler w input dst_address min_len = err account_not_payable
  check_payable (payable_check epochs) w input dst_address min_len = do
    must ← must_verify_payable epochs input min_len
    ask_if_payable w input dst_address must

  unfoldable pub determine_is_sc_call_after :
      PayableChecker → ContractCallInput → Bytes → ℕ → Outcome BuiltInError Bool
  determine_is_sc_call_after disabled_payable_handler input dest_address min_len = ok false
  determine_is_sc_call_after (payable_check epochs) input dest_address min_len =
      if leb (length input.arguments) min_len
      then ok false
      else if input.return_call_after_error && not (input.call_type == core.asynchronous_call_back)
      then ok false
      else if not (is_smart_contract_address dest_address)
      then ok false
      else if epochs.is_check_function_argument
      then (do function ← at input.arguments min_len; ok (is_non_empty function))
      else ok true
