-- ===== src/BuiltIn/KeyValue.antt =====
-- builtInFunctions/keyValueStorage.go: an account writes keys and values to its own data trie.
pub mod Stored
pub mod Gas
use k_vm_common_go.Prelude.{
  ℕ, ◌+◌, ◌-◌, ◌*◌, ◌%◌, ◌^◌, ltb, ◌==◌, if◌then◌else◌, not, Bool, true, false, Option, none, some,
  List, [], ◌∷◌, Bytes, length, bytes_equal, Outcome, ok, err, panic, ◌>>=◌, ◌>>◌, guard, or_panic,
}
use k_vm_common_go.Core.{Core}
use k_vm_common_go.Address.{is_smart_contract_address, is_allowed_to_save_under_key}
use k_vm_common_go.BuiltIn.Errors.{
  BuiltInError, invalid_arguments, built_in_function_called_with_value, nil_sc_dest_account,
  operation_not_permitted, not_enough_gas,
}
use k_vm_common_go.BuiltIn.Host.{Host, lift}
use k_vm_common_go.BuiltIn.Calls.{
  ContractCallInput, VmOutput, output_with_gas, input_or_error, account_or_error, is_zero,
}
use k_vm_common_go.BuiltIn.GlobalSettings.{value_of}

-- uint64 arithmetic
abbrev pub wrap : ℕ → ℕ
wrap n = n % 2 ^ 64

-- a - b on uint64, for a, b < 2^64
abbrev pub sub_wrap : ℕ → ℕ → ℕ
sub_wrap a b = wrap (a + (2 ^ 64 - b))

-- The fields of the struct and of its `gasConfig` that the function reads.
pub record SaveKeyValueStorage : Type 0 where
  pub func_gas_cost : ℕ
  pub persist_per_byte : ℕ
  pub store_per_byte : ℕ

-- The number of bytes by which a value outgrows what it replaces.
unfoldable pub length_change : Bytes → Bytes → ℕ
length_change old value = if ltb (length old) (length value) then length value - length old else 0

unfoldable pub check_arguments_for_save_key_value {ℓ} :
    {A : Type ℓ}
    → Option A
    → Option ContractCallInput
    → Outcome BuiltInError (ContractCallInput × A)
check_arguments_for_save_key_value acnt_dst vm_input = do
  input ← input_or_error vm_input
  guard (not (ltb (length input.arguments) 2)) invalid_arguments
  guard (length input.arguments % 2 == 0) invalid_arguments
  value ← or_panic input.call_value
  guard (is_zero value) built_in_function_called_with_value
  dst ← account_or_error nil_sc_dest_account acnt_dst
  guard (bytes_equal input.caller_addr input.recipient_addr) operation_not_permitted
  guard (not (is_smart_contract_address input.caller_addr)) operation_not_permitted
  ok (input, dst)

module _ (h : Host) (core : Core) (k : SaveKeyValueStorage) where
  -- The gas for the bytes of one key and value.
  abbrev pub persist_gas : ℕ → Bytes → Bytes → ℕ
  persist_gas use_gas key value =
      wrap (use_gas + wrap (wrap (length value + length key) * k.persist_per_byte))

  -- The rest of the loop's body for one key and value: the gas and the state after it. An equal
  -- value goes on with the loop before the gas is compared.
  unfoldable pub save_pair :
      h.World → h.Account → ℕ → ℕ → Bytes → Bytes → Outcome BuiltInError (ℕ × h.World)
  save_pair w dst gas_provided use_gas key value = do
    guard (is_allowed_to_save_under_key core key) operation_not_permitted
    let old = value_of h (h.retrieve_value w dst key)
    let used = persist_gas use_gas key value
    let charged = wrap (used + wrap (k.store_per_byte * length_change old value))
    if bytes_equal old value then ok (used, w) else (do
      guard (not (ltb gas_provided charged)) not_enough_gas
      w' ← lift (h.save_key_value w dst key value)
      ok (charged, w'))

  -- The loop; a key without a value is out of range.
  unfoldable pub save_pairs :
      h.World → h.Account → ℕ → ℕ → List Bytes → Outcome BuiltInError (ℕ × h.World)
  save_pairs w dst gas_provided use_gas [] = ok (use_gas, w)
  save_pairs w dst gas_provided use_gas (key ∷ []) = panic
  save_pairs w dst gas_provided use_gas (key ∷ value ∷ arguments) = do
    (used, w') ← save_pair w dst gas_provided use_gas key value
    save_pairs w' dst gas_provided used arguments

  unfoldable pub process_key_value :
      h.World
      → Option h.Account
      → Option ContractCallInput
      → Outcome BuiltInError (VmOutput × h.World)
  process_key_value w acnt_dst vm_input = do
    (input, dst) ← check_arguments_for_save_key_value acnt_dst vm_input
    (used, w') ← save_pairs w dst input.gas_provided k.func_gas_cost input.arguments
    ok (output_with_gas (sub_wrap input.gas_provided used), w')
