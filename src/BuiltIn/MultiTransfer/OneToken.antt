-- ===== src/BuiltIn/MultiTransfer/OneToken.antt =====
-- One token of a multi transfer between two accounts of one shard: what the sender loses the destination
-- gains.
use k_vm_common_go.Prelude.{
  ℕ, ◌≡◌, ◌≢◌, refl, sym, ◌∙◌, arith, if◌then◌else◌, not, Bool, false, some, Bytes, ok, after_ok,
  guard, or_panic, or_panic-eq-ok,
}
use k_vm_common_go.Prelude.Int.{ℤ, pos, neg, ◌+ℤ◌}
use k_vm_common_go.Core.{Core}
use k_vm_common_go.VmTypes.{DctTransfer}
use k_vm_common_go.BuiltIn.Errors.{invalid_nft_quantity}
use k_vm_common_go.BuiltIn.Host.{Host, DcToken, IsStore, KeepsAccounts, IsMarshaller}
use k_vm_common_go.BuiltIn.Calls.{is_negative}
use k_vm_common_go.BuiltIn.Calls.Checks.{guard-eq-ok}
use k_vm_common_go.BuiltIn.GlobalSettings.{token_key}
use k_vm_common_go.BuiltIn.Transfer.{check_if_transfer_can_happen_with_limited_transfer}
use k_vm_common_go.BuiltIn.TokenStorage.{
  nft_token_key, is_not_positive, get_dct_nft_token_on_sender,
}
use k_vm_common_go.BuiltIn.TokenStorage.System.{save_dct_nft_token}
use k_vm_common_go.BuiltIn.TokenStorage.Saved.{save_dct_nft_token_sound}
use k_vm_common_go.BuiltIn.TokenStorage.Found.{HasAmount-of_sender}
use k_vm_common_go.BuiltIn.TokenStorage.Liquidity.{get_system_account-kept}
use k_vm_common_go.BuiltIn.TokenStorage.Amounts.{IsUser}
use k_vm_common_go.BuiltIn.NftTransfer.{NftTransferFunc}
use k_vm_common_go.BuiltIn.NftTransfer.Arrived.{add_nft_to_destination_sound}
use k_vm_common_go.BuiltIn.NftTransfer.Conservation.{IsMoved, IsMoved-of}
use k_vm_common_go.BuiltIn.MultiTransfer.{
  compute_insufficient_quantity_dct_error, transfer_one_token_on_sender_shard,
}

module _ (h : Host) (core : Core) (store : IsStore h) (accounts : KeepsAccounts h)
    (marshaller : IsMarshaller h) (e : NftTransferFunc) where
  -- Where data tries hold what is saved, saving keeps the accounts, and tokens are read back from
  -- their bytes: one token of a multi transfer, with a nonce or without, of a sender to an account of
  -- the shard that is another one, neither the system account, if its part of the call succeeds, was
  -- of a value that is not zero and not more than what the sender had; the sender is left with the
  -- rest and the destination with its former amount and the value, each zero if it is not positive,
  -- and of other entries only the system account's under this key may have changed.
  pub transfer_one_token-moves_amount :
      (w w' : h.World) (a d : h.Account) (dst : Bytes) (transfer : DctTransfer) (back : Bool)
      (carried : DcToken) (q : ℕ)
      → transfer.dct_value ≡ pos q
      → d ≢ a
      → IsUser h core w a
      → IsUser h core w d
      → transfer_one_token_on_sender_shard h core e w a (some d) dst transfer back
        ≡ ok (carried, w')
      → (x : ℤ) × (y : ℤ) × (is_not_positive (pos q) ≡ false)
        × IsMoved h core store accounts marshaller e w w' a d
            (nft_token_key (token_key core transfer.dct_token_name) transfer.dct_token_nonce)
            x
            y
            q
  unfolding transfer_one_token_on_sender_shard
  transfer_one_token-moves_amount w w' a d dst transfer back carried q value other user user_d eq =
      let key = token_key core transfer.dct_token_name in
      let n = transfer.dct_token_nonce in
      let k = nft_token_key key n in
      let epochs = e.enable_epochs in
      after_ok (guard (not (is_not_positive (pos q))) invalid_nft_quantity) _ (rw value at eq)
        λ _ positive e1.
          after_ok (get_dct_nft_token_on_sender h core epochs w a key n) _ e1 λ t read e2.
            after_ok (or_panic t.value) _ e2 λ x got e3.
              after_ok
                (guard (not (is_negative (x +ℤ neg (pos q))))
                  (compute_insufficient_quantity_dct_error transfer.dct_token_name n))
                _ e3
                λ _ enough e4.
                  let left : DcToken = record t { value = some (x +ℤ neg (pos q)) } in
                  let sent : DcToken = record t { value = some (pos q) } in
                  after_ok
                    (save_dct_nft_token h core epochs w (h.address_bytes a) a key n left false back)
                    _ e4
                    λ (s, w1) saved e5.
                      let taken =
                        save_dct_nft_token_sound h store accounts core epochs marshaller w w1
                          (h.address_bytes a) a key s n left (x +ℤ neg (pos q)) false back refl
                          saved in
                      let same = get_system_account-kept h w w1 _ k taken.write in
                      after_ok
                        (check_if_transfer_can_happen_with_limited_transfer h core e.global_settings
                          w1
                          (if epochs.is_check_correct_token_id_for_transfer_role
                            then transfer.dct_token_name
                            else key)
                          key (h.address_bytes a) dst (some a) (some d) back)
                        _ e5
                        λ _ can added.
                          let (y, arrived, _) =
                            add_nft_to_destination_sound h core store accounts marshaller e w1 w'
                              (h.address_bytes a) dst d sent carried key n (pos q) back
                              (λ system. user_d (sym same ∙ system)) refl added in
                          (
                            x,
                            y,
                            ground (arith, guard-eq-ok _ _ positive),
                            IsMoved-of h core store accounts marshaller e w w1 w' a d k x y q other
                                user user_d (ground (arith, guard-eq-ok _ _ enough))
                                (HasAmount-of_sender h core epochs w a key n t x read
                                  (or_panic-eq-ok t.value got))
                                taken arrived,
                          )
