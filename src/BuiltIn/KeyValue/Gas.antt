-- ===== src/BuiltIn/KeyValue/Gas.antt =====
-- What a write of a key and value costs, where the value is new and where it is there already.
use k_vm_common_go.Prelude.{
  ℕ, ◌+◌, ◌-◌, ◌*◌, ◌^◌, ◌<◌, ◌≡◌, refl, arith, true, false, some, [], ◌∷◌, Bytes, length, ok,
  bytes_equal_refl,
}
use k_vm_common_go.Prelude.Int.{pos}
use k_vm_common_go.Core.{Core}
use k_vm_common_go.Address.{is_allowed_to_save_under_key, is_smart_contract_address}
use k_vm_common_go.BuiltIn.Host.{Host, answer}
use k_vm_common_go.BuiltIn.Calls.{ContractCallInput, output_with_gas}
use k_vm_common_go.BuiltIn.KeyValue.{
  SaveKeyValueStorage, check_arguments_for_save_key_value, save_pair, save_pairs, process_key_value,
  persist_gas, wrap, sub_wrap,
}

-- The call that writes one key of the account to itself.
pub record IsOwnWrite (input : ContractCallInput) (key value : Bytes) : Type 0 where
  pub arguments : input.arguments ≡ key ∷ value ∷ []
  pub no_value : input.call_value ≡ some (pos 0)
  pub own : input.caller_addr ≡ input.recipient_addr
  pub no_contract : is_smart_contract_address input.caller_addr ≡ false

own_write_checked {ℓ} :
    {A : Type ℓ} (a : A) (input : ContractCallInput) (key value : Bytes)
    → IsOwnWrite input key value
    → check_arguments_for_save_key_value (some a) (some input) ≡ ok (input, a)
unfolding check_arguments_for_save_key_value
own_write_checked a input key value i =
    let args = i.arguments in
    let none_sent = i.no_value in
    let own = i.own in
    let person = i.no_contract in
    rw (args, none_sent, own, bytes_equal_refl input.recipient_addr, ← own, person) refl

module _ (h : Host) (core : Core) (k : SaveKeyValueStorage) where
  -- The gas that one pair costs before its value is looked at.
  abbrev pub base_gas : Bytes → Bytes → ℕ
  base_gas key value = k.func_gas_cost + (length value + length key) * k.persist_per_byte

  wrap_small : (n : ℕ) → n < 2 ^ 64 → wrap n ≡ n
  wrap_small n small = ground arith

  base_gas-persist :
      (key value : Bytes)
      → base_gas key value < 2 ^ 64
      → length value + length key < 2 ^ 64
      → persist_gas h core k k.func_gas_cost key value ≡ base_gas key value
  base_gas-persist key value small short =
      let product = (length value + length key) * k.persist_per_byte in
      rw
        (
          wrap_small (length value + length key) short,
          wrap_small product (ground arith),
          wrap_small (k.func_gas_cost + product) small,
        )
        refl

  -- A call of an account to itself that writes under an allowed key the one value that is there
  -- already, where the cost of the bytes is below 2^64 and more than the gas provided: it succeeds,
  -- and the gas that remains is 2^64 less what is missing, which is more than was provided.
  pub equal_value-gains_gas :
      (w : h.World) (a : h.Account) (input : ContractCallInput) (key value : Bytes)
      → IsOwnWrite input key value
      → is_allowed_to_save_under_key core key ≡ true
      → h.retrieve_value w a key ≡ answer value
      → base_gas key value < 2 ^ 64
      → length value + length key < 2 ^ 64
      → input.gas_provided < base_gas key value
      → (process_key_value h core k w (some a) (some input)
          ≡ ok (output_with_gas (2 ^ 64 - (base_gas key value - input.gas_provided)), w))
        × (input.gas_provided < 2 ^ 64 - (base_gas key value - input.gas_provided))
  unfolding process_key_value save_pairs save_pair
  equal_value-gains_gas w a input key value own allowed there small short poor =
      let args = own.arguments in
      let cost : persist_gas h core k k.func_gas_cost key value ≡ base_gas key value =
        base_gas-persist key value small short in
      let left : sub_wrap input.gas_provided (base_gas key value)
          ≡ 2 ^ 64 - (base_gas key value - input.gas_provided) =
        ground arith in
      (
        rw
            (
              own_write_checked a input key value own,
              args,
              allowed,
              there,
              bytes_equal_refl value,
              cost,
              left,
            )
            refl,
        ground arith,
      )
