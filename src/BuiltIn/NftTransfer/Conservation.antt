-- ===== src/BuiltIn/NftTransfer/Conservation.antt =====
-- A transfer of a token with a nonce between two accounts of one shard: what the sender loses the
-- destination gains.
use k_vm_common_go.Prelude.{
  ℕ, ◌-◌, ◌==◌, ltb, ◌≡◌, ◌≢◌, ◌⊎◌, refl, sym, subst, ◌∙◌, inl, inr, arith, if◌then◌else◌, not,
  ◌&&◌, Bool, true, false, Option, some, [], ◌∷◌, Bytes, length, take, drop, ◌++◌, bytes_equal,
  Outcome, ok, after_ok, after_if, guard, at, or_panic, or_panic-eq-ok, ◌>>=◌, ◌>>◌,
}
use k_vm_common_go.Prelude.Int.{ℤ, pos, neg, ◌+ℤ◌}
use k_vm_common_go.Core.{Core}
use k_vm_common_go.Go.BigInt.{set_bytes, uint64}
use k_vm_common_go.BuiltIn.Errors.{
  BuiltInError, invalid_arguments, invalid_rcv_addr, not_enough_gas, nft_does_not_have_metadata,
  invalid_nft_quantity,
}
use k_vm_common_go.BuiltIn.Host.{
  Host, DcToken, IsStore, KeepsAccounts, IsMarshaller, lift, lift-eq-ok,
}
use k_vm_common_go.BuiltIn.Calls.{
  ContractCallInput, VmOutput, output_with_gas, is_negative, add_dct_entry_in_vm_output,
}
use k_vm_common_go.BuiltIn.Calls.Checks.{guard-eq-ok}
use k_vm_common_go.BuiltIn.GlobalSettings.{token_key, get_system_account}
use k_vm_common_go.BuiltIn.Payable.{check_payable}
use k_vm_common_go.BuiltIn.Transfer.{check_if_transfer_can_happen_with_limited_transfer}
use k_vm_common_go.BuiltIn.NftCreate.{get_account}
use k_vm_common_go.BuiltIn.TokenStorage.{nft_token_key, get_dct_nft_token_on_sender}
use k_vm_common_go.BuiltIn.TokenStorage.System.{save_dct_nft_token}
use k_vm_common_go.BuiltIn.TokenStorage.Sent.{
  was_already_sent_to_destination_shard_and_update_state,
}
use k_vm_common_go.BuiltIn.TokenStorage.Saved.{
  HasAmount, kept_value, IsWrite, IsWrite-trans, IsWrite-widen, IsWritten, IsSaved,
  save_dct_nft_token_sound,
}
use k_vm_common_go.BuiltIn.TokenStorage.Found.{HasAmount-of_sender}
use k_vm_common_go.BuiltIn.TokenStorage.Liquidity.{get_system_account-kept}
use k_vm_common_go.BuiltIn.TokenStorage.Amounts.{
  HasAmount-kept, IsAmountChange, IsAmountChange-save_account, IsUser,
}
use k_vm_common_go.BuiltIn.NftTransfer.{
  NftTransferFunc, is_invalid_transfer_to_meta, add_nft_to_destination, give_on_sender_shard,
  nft_argument, send_transfer, create_nft_output_transfers, process_nft_transfer_on_sender_shard,
}
use k_vm_common_go.BuiltIn.NftTransfer.Arrived.{add_nft_to_destination_sound}

module _ (h : Host) (core : Core) (store : IsStore h) (accounts : KeepsAccounts h)
    (marshaller : IsMarshaller h) (e : NftTransferFunc) where
  -- A transfer between two accounts of one shard: what the sender had and has, what the destination
  -- had and has; of the rest only the entry of the system account may have changed.
  pub record IsMoved (w w' : h.World) (a d : h.Account) (key : Bytes) (x y : ℤ) (quantity : ℕ)
      : Type 0 where
    pub sender_had : HasAmount h core w a key x
    pub destination_had : HasAmount h core w d key y
    pub enough : is_negative (x +ℤ neg (pos quantity)) ≡ false
    pub sender_has : HasAmount h core w' a key (kept_value (x +ℤ neg (pos quantity)))
    pub destination_has : HasAmount h core w' d key (kept_value (y +ℤ pos quantity))
    pub write : IsWrite h w w' (λ b. (b ≡ a) ⊎ ((b ≡ d) ⊎ (get_system_account h w ≡ ok b))) key

  -- The sender's part and the destination's part, one after the other.
  pub IsMoved-of :
      (w w1 w' : h.World) (a d : h.Account) (key : Bytes) (x y : ℤ) (quantity : ℕ)
      → d ≢ a
      → IsUser h core w a
      → IsUser h core w d
      → is_negative (x +ℤ neg (pos quantity)) ≡ false
      → HasAmount h core w a key x
      → IsSaved h store accounts core e.enable_epochs w w1 a key (x +ℤ neg (pos quantity))
      → IsAmountChange h core e.enable_epochs store accounts w1 w' d key y (pos quantity)
      → IsMoved w w' a d key x y quantity
  IsMoved-of w w1 w' a d key x y quantity other user user_d enough had taken given =
      let same = get_system_account-kept h w w1 _ key taken.write in
      let may : h.Account → Type 0 = λ b. (b ≡ a) ⊎ ((b ≡ d) ⊎ (get_system_account h w ≡ ok b)) in
      record {
        sender_had = had;
        destination_had =
            HasAmount-kept h core w1 w d key y
              (sym (
                taken.write.others d key
                  (inl (λ m. elim m [ inl itself ↦ other itself | inr system ↦ user_d system ]))))
              given.had;
        enough = enough;
        sender_has =
            HasAmount-kept h core w1 w' a key (kept_value (x +ℤ neg (pos quantity)))
              (given.write.others a key (
                inl (λ m. elim m [
                  | inl itself ↦ other (sym itself)
                  | inr system ↦ user (sym same ∙ system)
                ])))
              taken.holds;
        destination_has = given.has;
        write =
            IsWrite-trans h w w1 w' may key
              (IsWrite-widen h w w1 (IsWritten h store accounts core e.enable_epochs w a) may key
                (λ b m. elim m [ inl itself ↦ inl itself | inr system ↦ inr (inr system) ])
                taken.write)
              (IsWrite-widen h w1 w' (IsWritten h store accounts core e.enable_epochs w1 d) may key
                (λ b m. elim m [
                  | inl itself ↦ inr (inl itself)
                  | inr system ↦ inr (inr (sym same ∙ system))
                ])
                given.write);
      }

  -- Nothing is marked as sent where the destination is in the shard.
  sent_in_shard :
      (w w' : h.World) (ticker : Bytes) (nonce : ℕ) (dst : Bytes) (sent : Bool)
      → (h.compute_id dst == h.self_id) ≡ true
      → was_already_sent_to_destination_shard_and_update_state h core e.enable_epochs w ticker nonce
          dst
        ≡ ok (sent, w')
      → w ≡ w'
  unfolding was_already_sent_to_destination_shard_and_update_state
  sent_in_shard w w' ticker nonce dst sent here eq =
      after_if (not e.enable_epochs.is_save_to_system_account) _ _ eq (λ off last. cc (last))
        λ on e1.
          after_if (nonce == 0) _ _ e1 (λ off last. cc (last))
            λ on e2.
              after_if (h.compute_id dst == h.self_id) _ _ e2 (λ off last. cc (last))
                λ away _. absurd (cc (away, here))

  output_transfers-world :
      (w w' : h.World) (input : ContractCallInput) (out out' : VmOutput) (t : DcToken)
      (dst ticker : Bytes) (nonce : ℕ)
      → (h.compute_id dst == h.self_id) ≡ true
      → create_nft_output_transfers h core e w input out t dst ticker nonce ≡ ok (out', w')
      → w ≡ w'
  unfolding create_nft_output_transfers
  output_transfers-world w w' input out out' t dst ticker nonce here eq =
      after_ok
        (was_already_sent_to_destination_shard_and_update_state h core e.enable_epochs w ticker
          nonce dst)
        _ eq
        λ (sent, w1) marked e1.
          let same = sent_in_shard w w1 ticker nonce dst sent here marked in
          let rest =
            if ltb core.min_len_arguments_dct_nft_transfer (length input.arguments)
            then drop 4 input.arguments
            else [] in
          after_ok (nft_argument h core e sent t out) _ e1 λ (argument, out1) made e2.
            after_ok
              (send_transfer h core e input core.dct_nft_transfer dst
                (take 3 input.arguments ++ (argument ∷ rest))
                core.min_len_arguments_dct_nft_transfer out1)
              _ e2 λ out2 done last. let end : w1 ≡ w' = cc (last) in same ∙ end

  -- The destination's part in the shard of both.
  given_in_shard :
      (w w' : h.World) (input : ContractCallInput) (dst : Bytes) (d : h.Account) (t sent : DcToken)
      (account : Option h.Account) (key : Bytes) (nonce quantity : ℕ)
      → (h.self_id == h.compute_id dst) ≡ true
      → get_account h w dst ≡ ok d
      → IsUser h core w d
      → t.value ≡ some (pos quantity)
      → give_on_sender_shard h core e w input dst t key nonce quantity ≡ ok ((sent, account), w')
      → (y : ℤ) × IsAmountChange h core e.enable_epochs store accounts w w' d
          (nft_token_key key nonce)
          y
          (pos quantity)
  unfolding give_on_sender_shard
  given_in_shard w w' input dst d t sent account key nonce quantity here found user amount eq =
      after_if (h.self_id == h.compute_id dst) _ _ eq
        (λ on e1. after_ok (get_account h w dst) _ e1 λ c loaded e2.
          let same : c ≡ d = cc (loaded, found) in
          after_ok
            (check_payable h core e.payable_handler w input dst
              core.min_len_arguments_dct_nft_transfer)
            _ e2
            λ _ payable e3.
              after_ok
                (add_nft_to_destination h core e w input.caller_addr dst c t key nonce
                  input.return_call_after_error)
                _ e3
                λ (sum, w1) added e4. after_ok (lift (h.save_account w1 c)) _ e4 λ w2 saved last.
                  let end : w2 ≡ w' = cc (last) in
                  let (y, changed, _) =
                    add_nft_to_destination_sound h core store accounts marshaller e w w1
                      input.caller_addr dst d t sum key nonce (pos quantity)
                      input.return_call_after_error user amount (rw (← same) added) in
                  (
                    y,
                    IsAmountChange-save_account h core e.enable_epochs store accounts w w1 w' d c
                        (nft_token_key key nonce) y (pos quantity) changed
                        (rw (← end) (lift-eq-ok (h.save_account w1 c) saved)),
                  ))
        (λ off _. absurd (cc (off, here)))

  -- What follows the checks of the sender's part.
  abbrev after_checks :
      h.World
      → h.Account
      → ContractCallInput
      → Bytes
      → Bytes
      → ℕ
      → ℕ
      → DcToken
      → ℤ
      → Outcome BuiltInError (VmOutput × h.World)
  after_checks w a input dst token n q t x = do
    (_, w1) ←
        save_dct_nft_token h core e.enable_epochs w (h.address_bytes a) a (token_key core token) n
          (record t { value = some (x +ℤ neg (pos q)) }) false input.return_call_after_error
    ((sent, account), w2) ←
        give_on_sender_shard h core e w1 input dst (record t { value = some (pos q) })
          (token_key core token) n q
    check_if_transfer_can_happen_with_limited_transfer h core e.global_settings w2
        (if e.enable_epochs.is_check_correct_token_id_for_transfer_role
          then token
          else token_key core token)
        (token_key core token) (h.address_bytes a) dst (some a) account
        input.return_call_after_error
    (out, w3) ←
        create_nft_output_transfers h core e w2 input
          (output_with_gas (input.gas_provided - e.func_gas_cost)) sent dst token n
    ok (
      add_dct_entry_in_vm_output out core.dct_nft_transfer token n (pos q)
          (input.caller_addr ∷ dst ∷ []),
      w3,
    )

  IsMoved-after_checks :
      (w w' : h.World) (a d : h.Account) (input : ContractCallInput) (out : VmOutput)
      (dst token : Bytes) (n q : ℕ) (t : DcToken) (x : ℤ)
      → h.compute_id dst ≡ h.self_id
      → get_account h w dst ≡ ok d
      → d ≢ a
      → IsUser h core w a
      → IsUser h core w d
      → HasAmount h core w a (nft_token_key (token_key core token) n) x
      → is_negative (x +ℤ neg (pos q)) ≡ false
      → after_checks w a input dst token n q t x ≡ ok (out, w')
      → (x : ℤ) × (y : ℤ) × IsMoved w w' a d (nft_token_key (token_key core token) n) x y q
  unfolding get_account
  IsMoved-after_checks w w' a d input out dst token n q t x in_shard found other user user_d had
        enough eq =
      let key = token_key core token in
      let k = nft_token_key key n in
      let back = input.return_call_after_error in
      let left : DcToken = record t { value = some (x +ℤ neg (pos q)) } in
      let given : DcToken = record t { value = some (pos q) } in
      after_ok
        (save_dct_nft_token h core e.enable_epochs w (h.address_bytes a) a key n left false back) _
        eq
        λ (s, w1) saved e1.
          let taken =
            save_dct_nft_token_sound h store accounts core e.enable_epochs marshaller w w1
              (h.address_bytes a) a key s n left (x +ℤ neg (pos q)) false back refl saved in
          let same = get_system_account-kept h w w1 _ k taken.write in
          let again : get_account h w1 dst ≡ ok d = rw (taken.write.loads dst) found in
          after_ok (give_on_sender_shard h core e w1 input dst given key n q) _ e1
            λ ((sent, account), w2) moved e2.
              let (y, arrived) =
                given_in_shard w1 w2 input dst d given sent account key n q
                  (rw in_shard (ground arith)) again (λ system. user_d (sym same ∙ system)) refl
                  moved in
              after_ok
                (check_if_transfer_can_happen_with_limited_transfer h core e.global_settings w2
                  (if e.enable_epochs.is_check_correct_token_id_for_transfer_role
                    then token
                    else key)
                  key (h.address_bytes a) dst (some a) account back)
                _ e2
                λ _ can e3.
                  after_ok
                    (create_nft_output_transfers h core e w2 input
                      (output_with_gas (input.gas_provided - e.func_gas_cost)) sent dst token n)
                    _ e3
                    λ (out1, w3) sends last.
                      let end : w3 ≡ w' = cc (last) in
                      let unmoved =
                        output_transfers-world w2 w3 input
                          (output_with_gas (input.gas_provided - e.func_gas_cost)) out1 sent dst
                          token n (rw in_shard (ground arith)) sends in
                      (
                        x,
                        y,
                        subst (λ v. IsMoved w v a d k x y q) (unmoved ∙ end)
                            (IsMoved-of w w1 w2 a d k x y q other user user_d enough had taken
                              arrived),
                      )

  -- Where data tries hold what is saved, saving keeps the accounts, and tokens are read back from
  -- their bytes: a transfer of a token with a nonce, to a destination in this shard that is another
  -- account than the sender's, neither the system account, if it succeeds, was of an amount not
  -- more than what the sender had; the sender is left with the rest and the destination with its
  -- former amount and the amount sent, each zero if it is not positive, and of other entries only
  -- the system account's under this key may have changed.
  pub nft_transfer-moves_amount :
      (w w' : h.World) (a d : h.Account) (input : ContractCallInput) (out : VmOutput)
      (dst token nonce quantity : Bytes)
      → at {E = BuiltInError} input.arguments 0 ≡ ok token
      → at {E = BuiltInError} input.arguments 1 ≡ ok nonce
      → at {E = BuiltInError} input.arguments 2 ≡ ok quantity
      → at {E = BuiltInError} input.arguments 3 ≡ ok dst
      → h.compute_id dst ≡ h.self_id
      → get_account h w dst ≡ ok d
      → d ≢ a
      → IsUser h core w a
      → IsUser h core w d
      → process_nft_transfer_on_sender_shard h core e w (some a) input ≡ ok (out, w')
      → (x : ℤ) × (y : ℤ) × IsMoved w w' a d
          (nft_token_key (token_key core token) (uint64 (set_bytes nonce)))
          x
          y
          (set_bytes quantity)
  unfolding process_nft_transfer_on_sender_shard
  nft_transfer-moves_amount w w' a d input out dst token nonce quantity token_at nonce_at
        quantity_at dst_at in_shard found other user user_d eq =
      let key = token_key core token in
      let n = uint64 (set_bytes nonce) in
      let q = set_bytes quantity in
      let epochs = e.enable_epochs in
      after_ok (guard (length dst == length input.caller_addr) invalid_arguments) _
        (rw (dst_at, token_at, nonce_at, quantity_at) at eq)
        λ _ sized e1.
          after_ok (guard (not (bytes_equal dst input.caller_addr)) invalid_arguments) _ e1
            λ _ not_self e2.
              after_ok
                (guard (not (is_invalid_transfer_to_meta h core epochs dst)) invalid_rcv_addr) _ e2
                λ _ no_meta e3.
                  after_ok (guard (not (ltb input.gas_provided e.func_gas_cost)) not_enough_gas) _
                    e3
                    λ _ paid e4.
                      after_ok (get_dct_nft_token_on_sender h core epochs w a key n) _ e4
                        λ t read e5.
                          after_ok (guard (not (n == 0)) nft_does_not_have_metadata) _ e5
                            λ _ some_nonce e6. after_ok (or_panic t.value) _ e6 λ x got e7.
                              after_ok
                                (guard (not (is_negative (x +ℤ neg (pos q)))) invalid_nft_quantity)
                                _ e7
                                λ _ enough e8.
                                  after_ok
                                    (guard (not (epochs.is_check_transfer && (q == 0)))
                                      invalid_nft_quantity)
                                    _ e8
                                    λ _ positive e9.
                                      IsMoved-after_checks w w' a d input out dst token n q t x
                                        in_shard found other user user_d
                                        (HasAmount-of_sender h core epochs w a key n t x read
                                          (or_panic-eq-ok t.value got))
                                        (ground (arith, guard-eq-ok _ _ enough)) e9
