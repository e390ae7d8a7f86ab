-- ===== src/BuiltIn/NftTransfer/Arrived.antt =====
-- What the arrival of an amount of a token with a nonce leaves at the account of its destination.
use k_vm_common_go.Prelude.{
  ℕ, ◌≡◌, refl, sym, ap, subst, ◌∙◌, arith, if◌then◌else◌, Bool, false, some, Bytes, Outcome, ok,
  after_ok, after_if, or_panic, or_panic-eq-ok,
}
use k_vm_common_go.Prelude.Int.{ℤ, ◌+ℤ◌, +ℤ_parts, eq_of_parts}
use k_vm_common_go.Core.{Core}
use k_vm_common_go.BuiltIn.Errors.{BuiltInError}
use k_vm_common_go.BuiltIn.Host.{Host, DcToken, IsStore, KeepsAccounts, IsMarshaller}
use k_vm_common_go.BuiltIn.GlobalSettings.{token_key, get_system_account}
use k_vm_common_go.BuiltIn.Balance.{check_froze_and_pause}
use k_vm_common_go.BuiltIn.TokenStorage.{nft_token_key, get_dct_nft_token_on_destination}
use k_vm_common_go.BuiltIn.TokenStorage.System.{save_dct_nft_token, add_to_liquidity_system_acc}
use k_vm_common_go.BuiltIn.TokenStorage.Saved.{
  IsWrite, IsWrite-of_same, IsSaved, save_dct_nft_token_sound,
}
use k_vm_common_go.BuiltIn.TokenStorage.Found.{HasAmount-of_destination}
use k_vm_common_go.BuiltIn.TokenStorage.Liquidity.{add_to_liquidity-IsWrite}
use k_vm_common_go.BuiltIn.TokenStorage.Amounts.{IsAmountChange, IsAmountChange-of_saved, IsUser}
use k_vm_common_go.BuiltIn.NftTransfer.{NftTransferFunc, add_nft_to_destination}

plus_comm : (a b : ℤ) → a +ℤ b ≡ b +ℤ a
plus_comm a b = eq_of_parts _ _ (ground (arith, +ℤ_parts a b, +ℤ_parts b a))

module _ (h : Host) (core : Core) (store : IsStore h) (accounts : KeepsAccounts h)
    (marshaller : IsMarshaller h) (e : NftTransferFunc) where
  liquidity_if_other_shard :
      (w w' : h.World) (b : Bool) (token_key : Bytes) (nonce : ℕ) (v : ℤ)
      → (if b then ok w else add_to_liquidity_system_acc h core e.enable_epochs w token_key nonce v)
        ≡ ok w'
      → IsWrite h w w' (λ c. get_system_account h w ≡ ok c) (nft_token_key token_key nonce)
  liquidity_if_other_shard w w' b token_key nonce v eq =
      after_if b _ _ eq (λ here same. IsWrite-of_same h w w' _ _ same)
        λ away last.
          add_to_liquidity-IsWrite h store accounts core e.enable_epochs w w' token_key nonce v last

  abbrev and_world : DcToken → h.World → Outcome BuiltInError (DcToken × h.World)
  and_world t w = ok (t, w)

  sent_token : (t sum : DcToken) (w w' : h.World) → and_world t w ≡ and_world sum w' → t ≡ sum
  sent_token t sum w w' eq = cc (eq)

  -- Where data tries hold what is saved, saving keeps the accounts, and tokens are read back from
  -- their bytes: after addNFTToDestination has succeeded for a token with a value and an account
  -- that is not the system account, the account has its former amount and the value, zero if that
  -- is not positive, the token handed back has the sum, and of other entries only the system
  -- account's under this key may have changed.
  pub add_nft_to_destination_sound :
      (w w' : h.World) (snd dst : Bytes) (a : h.Account) (t sum : DcToken) (key : Bytes) (nonce : ℕ)
      (v : ℤ) (back : Bool)
      → IsUser h core w a
      → t.value ≡ some v
      → add_nft_to_destination h core e w snd dst a t key nonce back ≡ ok (sum, w')
      → (old : ℤ) × IsAmountChange h core e.enable_epochs store accounts w w' a
          (nft_token_key key nonce)
          old
          v
        × (sum.value ≡ some (old +ℤ v))
  unfolding add_nft_to_destination
  add_nft_to_destination_sound w w' snd dst a t sum key nonce v back user amount eq =
      let k = nft_token_key key nonce in
      after_ok (get_dct_nft_token_on_destination h core e.enable_epochs w a key nonce) _ eq
        λ (current, is_new) found e1.
          after_ok (check_froze_and_pause h core w dst key current back) _ e1 λ _ allowed e2.
            after_ok (or_panic t.value) _ e2 λ u u_got e3.
              after_ok (or_panic current.value) _ e3 λ old old_got e4.
                let same_v : u ≡ v = cc (or_panic-eq-ok t.value u_got, amount) in
                let next : DcToken = record t { value = some (u +ℤ old) } in
                after_ok
                  (save_dct_nft_token h core e.enable_epochs w snd a key nonce next false back) _ e4
                  λ (s, w1) saved e5.
                    after_ok (if h.same_shard snd dst then ok w1 else _) _ e5 λ w2 liquidity last.
                      let end : w2 ≡ w' = cc (last) in
                      let sums : u +ℤ old ≡ old +ℤ v =
                        plus_comm u old ∙ ap (λ x. old +ℤ x) same_v in
                      let stored =
                        save_dct_nft_token_sound h store accounts core e.enable_epochs marshaller w
                          w1 snd a key s nonce next (u +ℤ old) false back refl saved in
                      (
                        old,
                        IsAmountChange-of_saved h core e.enable_epochs store accounts w w1 w' a k
                            old v user
                            (HasAmount-of_destination h core e.enable_epochs w a key nonce current
                              is_new old found (or_panic-eq-ok current.value old_got))
                            (subst (λ x. IsSaved h store accounts core e.enable_epochs w w1 a k x)
                              sums stored)
                            (liquidity_if_other_shard w1 w' (h.same_shard snd dst) key nonce u
                              (rw (← end) liquidity)),
                        ap (λ x. x.value) (sym (sent_token next sum w2 w' last)) ∙ ap some sums,
                      )
