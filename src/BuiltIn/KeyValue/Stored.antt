-- ===== src/BuiltIn/KeyValue/Stored.antt =====
-- What the data trie holds after the keys and values are saved.
use k_vm_common_go.Prelude.{
  ℕ, ◌%◌, ◌==◌, length, ltb, ◌≡◌, ◌≢◌, inl, inr, refl, sym, ◌∙◌, ap, if◌then◌else◌, not, Bool-cases,
  false, some, List, [], ◌∷◌, Bytes, ok, after_ok, guard, or_panic, bytes_equal, bytes_equal→eq,
  eq→bytes_equal,
}
use k_vm_common_go.Core.{Core}
use k_vm_common_go.BuiltIn.Errors.{
  operation_not_permitted, not_enough_gas, invalid_arguments, built_in_function_called_with_value,
}
use k_vm_common_go.BuiltIn.Host.{Host, lift, lift-eq-ok, IsStore, answer}
use k_vm_common_go.BuiltIn.Calls.{ContractCallInput, VmOutput, is_zero}
use k_vm_common_go.BuiltIn.GlobalSettings.{value_of}
use k_vm_common_go.Address.{is_allowed_to_save_under_key, is_smart_contract_address}
use k_vm_common_go.BuiltIn.KeyValue.{
  SaveKeyValueStorage, check_arguments_for_save_key_value, save_pair, save_pairs, process_key_value,
}

-- What the arguments leave under the key: the last of its values, or what was there.
unfoldable pub last_value : Bytes → List Bytes → Bytes → Bytes
last_value key [] before = before
last_value key (k ∷ []) before = before
last_value key (k ∷ v ∷ arguments) before =
    last_value key arguments (if bytes_equal k key then v else before)

unequal : (key j : Bytes) → bytes_equal key j ≡ false → j ≢ key
unequal key j other = λ e. let same = eq→bytes_equal key j (sym e) in cc

checked_self {ℓ} :
    {A : Type ℓ} (a : A) (input i : ContractCallInput) (d : A)
    → check_arguments_for_save_key_value (some a) (some input) ≡ ok (i, d)
    → (input ≡ i) × (a ≡ d)
unfolding check_arguments_for_save_key_value
checked_self a input i d e =
    after_ok (guard (not (ltb (length input.arguments) 2)) invalid_arguments) _ e λ _ _ e1.
      after_ok (guard (length input.arguments % 2 == 0) invalid_arguments) _ e1 λ _ _ e2.
        after_ok (or_panic input.call_value) _ e2 λ value _ e3.
          after_ok (guard (is_zero value) built_in_function_called_with_value) _ e3 λ _ _ e4.
            after_ok
              (guard (bytes_equal input.caller_addr input.recipient_addr) operation_not_permitted) _
              e4
              λ _ _ e5.
                after_ok
                  (guard (not (is_smart_contract_address input.caller_addr))
                    operation_not_permitted)
                  _ e5 λ _ _ last. (cc (last), cc (last))

module _ (h : Host) (store : IsStore h) (core : Core) (k : SaveKeyValueStorage) where
  abbrev pub value_at : h.World → h.Account → Bytes → Bytes
  value_at w a key = value_of h (h.retrieve_value w a key)

  unchanged :
      (w : h.World) (a : h.Account) (key value j : Bytes)
      → value_at w a key ≡ value
      → (if bytes_equal key j then value else value_at w a j) ≡ value_at w a j
  unchanged w a key value j e = elim (Bool-cases (bytes_equal key j)) [
    | inl same ↦ rw (same, ← bytes_equal→eq key j same, e) refl
    | inr other ↦ rw other refl
  ]

  written_at :
      (w w' : h.World) (a : h.Account) (key value j : Bytes)
      → h.save_key_value w a key value ≡ answer w'
      → value_at w' a j ≡ (if bytes_equal key j then value else value_at w a j)
  written_at w w' a key value j saved = elim (Bool-cases (bytes_equal key j)) [
    | inl same ↦
        rw (same, ← bytes_equal→eq key j same, store.retrieve-save_self w w' a key value saved) refl
    | inr other ↦
        rw (other, store.retrieve-save_other w w' a a key j value saved (inr (unequal key j other)))
          refl
  ]

  pair_stored :
      (w w' : h.World) (a : h.Account) (gas used used' : ℕ) (key value j : Bytes)
      → save_pair h core k w a gas used key value ≡ ok (used', w')
      → value_at w' a j ≡ (if bytes_equal key j then value else value_at w a j)
  unfolding save_pair
  pair_stored w w' a gas used used' key value j e =
      after_ok (guard (is_allowed_to_save_under_key core key) operation_not_permitted) _ e λ _ _ e1.
        elim (Bool-cases (bytes_equal (value_at w a key) value)) [
          | inl same ↦
              let e2 = rw same at e1 in
              let here : w' ≡ w = cc (e2) in
              rw (here, unchanged w a key value j (bytes_equal→eq (value_at w a key) value same))
                refl
          | inr differ ↦
              after_ok (guard (not (ltb gas _)) not_enough_gas) _ (rw differ at e1) λ _ _ e3.
                after_ok (lift (h.save_key_value w a key value)) _ e3 λ w1 saved last.
                  let here : w1 ≡ w' = cc (last) in
                  rw (← here) (
                    written_at w w1 a key value j
                      (lift-eq-ok (h.save_key_value w a key value) saved))
        ]

  pairs_stored :
      (w w' : h.World) (a : h.Account) (gas used used' : ℕ) (arguments : List Bytes) (j : Bytes)
      → save_pairs h core k w a gas used arguments ≡ ok (used', w')
      → value_at w' a j ≡ last_value j arguments (value_at w a j)
  unfolding save_pairs last_value
  pairs_stored w w' a gas used used' [] j e = cc
  pairs_stored w w' a gas used used' (key ∷ []) j e = cc
  pairs_stored w w' a gas used used' (key ∷ value ∷ arguments) j e =
      after_ok (save_pair h core k w a gas used key value) _ e λ (u, w1) first rest.
        pairs_stored w1 w' a gas u used' arguments j rest
        ∙ ap (last_value j arguments) (pair_stored w w1 a gas used u key value j first)

  -- Where the data tries hold what is saved: after a call that succeeds, each key of the data trie
  -- of the account reads as the last of the values that the arguments give for it, or as before
  -- where they give none.
  pub key_value-stores_last :
      (w w' : h.World) (a : h.Account) (input : ContractCallInput) (out : VmOutput) (j : Bytes)
      → process_key_value h core k w (some a) (some input) ≡ ok (out, w')
      → value_at w' a j ≡ last_value j input.arguments (value_at w a j)
  unfolding process_key_value check_arguments_for_save_key_value
  key_value-stores_last w w' a input out j e =
      after_ok (check_arguments_for_save_key_value (some a) (some input)) _ e λ (i, d) checked e1.
        let (same, same_dst) = checked_self a input i d checked in
        after_ok (save_pairs h core k w d i.gas_provided k.func_gas_cost i.arguments) _ e1
          λ (used, w1) saved last.
            let final : w1 ≡ w' = cc (last) in
            rw (same, same_dst, ← final)
              (pairs_stored w w1 d i.gas_provided k.func_gas_cost used i.arguments j saved)
