-- ===== src/BuiltIn/TokenStorage/Marked.antt =====
-- The metadata of a token is sent to each shard once: the system account marks the shard.
use k_vm_common_go.Prelude.{
  ℕ, zero, suc, ◌-◌, ◌==◌, ltb, ◌≡◌, refl, ap, inl, inr, arith, Bool-cases, true, false, none, some,
  [], ◌∷◌, Bytes, length, length-append, replicate, ok, after_ok, after_if, at,
}
use k_vm_common_go.Core.{Core}
use k_vm_common_go.BuiltIn.Errors.{BuiltInError}
use k_vm_common_go.BuiltIn.Epochs.{EnableEpochs}
use k_vm_common_go.BuiltIn.Host.{Host, DcToken, IsStore, KeepsAccounts, IsMarshaller}
use k_vm_common_go.BuiltIn.GlobalSettings.{token_key}
use k_vm_common_go.BuiltIn.TokenStorage.{
  nft_token_key, get_dct_digital_token_data_from_system_account,
}
use k_vm_common_go.BuiltIn.TokenStorage.System.{mark_shard, marshal_and_save_data}
use k_vm_common_go.BuiltIn.TokenStorage.Liquidity.{found_token-system, read_token}
use k_vm_common_go.BuiltIn.TokenStorage.Sent.{
  widened, was_already_sent_to_destination_shard_and_update_state,
}

at-mark_shard :
    (p q : Bytes) (i : ℕ)
    → mark_shard p i ≡ ok q
    → (at {E = BuiltInError} q i ≡ ok 1) × (length q ≡ length p)
unfolding mark_shard
at-mark_shard [] q i e = cc (e)
at-mark_shard (b ∷ p) q zero e = let same : 1 ∷ p ≡ q = cc (e) in rw (← same) (refl, refl)
at-mark_shard (b ∷ p) q (suc i) e = after_ok (mark_shard p i) _ e λ rest marked last.
    let (there, long) = at-mark_shard p rest i marked in
    let same : b ∷ rest ≡ q = cc (last) in rw (← same) (there, ap suc long)

length-replicate : (n b : ℕ) → length (replicate n b) ≡ n
length-replicate zero b = refl
length-replicate (suc n) b = ap suc (length-replicate n b)

module _ (h : Host) where
  length-widened : (p : Bytes) → ltb (length (widened h p)) h.number_of_shards ≡ false
  length-widened p = elim (Bool-cases (ltb (length p) h.number_of_shards)) [
    | inl short ↦ rw short (
        ground (
          arith,
          length-append p (replicate (h.number_of_shards - length p) 0),
          length-replicate (h.number_of_shards - length p) 0,
        ))
    | inr enough ↦ rw (enough, enough) refl
  ]

  module _ (core : Core) (epochs : EnableEpochs) where
    -- The flags and the destination with which the system account is asked for the mark.
    pub record IsAsked (nonce : ℕ) (dst : Bytes) : Type 0 where
      pub saves : epochs.is_save_to_system_account ≡ true
      pub not_always : epochs.is_send_always ≡ false
      pub some_nonce : (nonce == 0) ≡ false
      pub other_shard : (h.compute_id dst == h.self_id) ≡ false
      pub not_meta : (h.compute_id dst == core.metachain_shard_id) ≡ false

    -- Where data tries hold what is saved, saving keeps the accounts, and tokens are read back from
    -- their bytes: if the system account saves metadata but is not sent it always, the nonce is not
    -- zero, the destination is in another shard that is not the metachain, and the system account
    -- has the token, then a call of WasAlreadySentToDestinationShardAndUpdateState that answers
    -- false leaves a state in which the same call answers true and changes nothing.
    pub sent_once :
        (store : IsStore h) (accounts : KeepsAccounts h) (marshaller : IsMarshaller h)
        (w w' : h.World) (ticker : Bytes) (nonce : ℕ) (dst : Bytes) (t : DcToken)
        (system : h.Account)
        → IsAsked nonce dst
        → get_dct_digital_token_data_from_system_account h w
            (nft_token_key (token_key core ticker) nonce)
            none
          ≡ ok (some t, system)
        → was_already_sent_to_destination_shard_and_update_state h core epochs w ticker nonce dst
          ≡ ok (false, w')
        → was_already_sent_to_destination_shard_and_update_state h core epochs w' ticker nonce dst
          ≡ ok (true, w')
    unfolding was_already_sent_to_destination_shard_and_update_state
    sent_once store accounts marshaller w w' ticker nonce dst t system asked found e =
        let saves = asked.saves in
        let not_always = asked.not_always in
        let some_nonce = asked.some_nonce in
        let other_shard = asked.other_shard in
        let not_meta = asked.not_meta in
        let key = nft_token_key (token_key core ticker) nonce in
        let shard = h.compute_id dst in
        after_ok (at (widened h t.properties) shard) _
          (rw (saves, not_always, some_nonce, other_shard, not_meta, found) at e)
          λ mark _ e1.
            after_if (ltb 0 mark) _ _ e1 (λ marked last. absurd (cc (last)))
              λ unmarked e2. after_ok (mark_shard (widened h t.properties) shard) _ e2 λ q made e3.
                let next : DcToken = record t { properties = q } in
                after_ok (marshal_and_save_data h w system next key) _ e3 λ w1 saved last.
                  let end : w1 ≡ w' = cc (last) in
                  let loaded =
                    found_token-system h store accounts core epochs w key (some t) system found in
                  let again =
                    read_token h store accounts core epochs marshaller w w' system next key loaded
                      (rw (← end) saved) in
                  let (there, long) = at-mark_shard (widened h t.properties) q shard made in
                  let wide : ltb (length q) h.number_of_shards ≡ false =
                    rw long (length-widened t.properties) in
                  rw (saves, not_always, some_nonce, other_shard, not_meta, again, wide, there) refl
