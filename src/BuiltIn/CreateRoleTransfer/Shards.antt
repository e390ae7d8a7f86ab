-- ===== src/BuiltIn/CreateRoleTransfer/Shards.antt =====
-- The right to create tokens goes to an account of the same shard at once, and to one of another shard
-- by the call that the output carries.
use k_vm_common_go.Prelude.{
  ℕ, ◌<◌, ◌^◌, ◌==◌, ◌≡◌, ◌≢◌, refl, sym, ap, ◌∙◌, arith, false, List, [], ◌∷◌, append-nil, Bytes,
  AreBytes, length, ok, after_ok, after_if, guard, at,
}
use k_vm_common_go.Core.{Core}
use k_vm_common_go.Go.BigInt.{set_bytes, to_bytes, uint64}
use k_vm_common_go.Go.BigInt.RoundTrip.{set_bytes-to_bytes, to_bytes-AreBytes}
use k_vm_common_go.Go.Text.Split.{Lacks}
use k_vm_common_go.Parsers.Tokens.{at_separator}
use k_vm_common_go.Parsers.Tokens.Encoded.{transaction_data}
use k_vm_common_go.Parsers.CallArgs.{parse_data}
use k_vm_common_go.Parsers.CallArgs.RoundTrip.{parse_data-transaction_data}
use k_vm_common_go.BuiltIn.Errors.{BuiltInError, invalid_arguments}
use k_vm_common_go.BuiltIn.Host.{
  Host, Reply, answer, failure, lift, lift-eq-ok, IsStore, KeepsAccounts, IsRolesMarshaller,
}
use k_vm_common_go.BuiltIn.Calls.{ContractCallInput, VmOutput, OutputAccount, OutputTransfer}
use k_vm_common_go.BuiltIn.Roles.{
  role_key, nonce_key, delete_roles, get_dct_roles_for_acnt, save_roles_to_account,
  save_latest_nonce, check_allowed_to_execute,
}
use k_vm_common_go.BuiltIn.NftCreate.{nonce_of_reply, get_account, get_latest_nonce}
use k_vm_common_go.BuiltIn.CreateRoleTransfer.{
  take_create_role, give_create_role, delete_create_role_from_account, give_in_same_shard,
  next_owner_account, execute_transfer_nft_create_change_at_current_owner,
  execute_transfer_nft_create_change_at_next_owner,
}
use k_vm_common_go.BuiltIn.CreateRoleTransfer.Handover.{
  HasRoleKeys, IsCreator, IsFormer, give_create_role_sound, take_create_role_sound, counter-kept,
}

uint64_small : (n : ℕ) → uint64 n < 2 ^ 64
unfolding uint64
uint64_small n = omega arith

uint64_back : (n : ℕ) → n < 2 ^ 64 → uint64 (set_bytes (to_bytes n)) ≡ n
unfolding uint64
uint64_back n small = rw (set_bytes-to_bytes n) (omega arith)

nonce_small : (h : Host) (r : Reply Bytes) (n : ℕ) → nonce_of_reply r ≡ ok n → n < 2 ^ 64
nonce_small h (failure e) n got = cc (got)
nonce_small h (answer []) n got = let zero_is : 0 ≡ n = cc (got) in rw (← zero_is) (omega arith)
nonce_small h (answer (b ∷ s)) n got =
    let is : uint64 (set_bytes (b ∷ s)) ≡ n = cc (got) in
    rw (← is) (uint64_small (set_bytes (b ∷ s)))

module _ (h : Host) (core : Core) (keys : HasRoleKeys core) (store : IsStore h)
    (accounts : KeepsAccounts h) (marshaller : IsRolesMarshaller h) where
  latest-small :
      (w : h.World) (a : h.Account) (token : Bytes) (n : ℕ)
      → get_latest_nonce h core w a token ≡ ok n
      → n < 2 ^ 64
  unfolding get_latest_nonce
  latest-small w a token n got = nonce_small h (h.retrieve_value w a (nonce_key core token)) n got

  -- A handover in one shard: the counter and the role are the next account's, and the former owner
  -- keeps neither.
  pub record IsHandover (w w' : h.World) (a d : h.Account) (token : Bytes) : Type 0 where
    pub nonce : ℕ
    pub latest : get_latest_nonce h core w a token ≡ ok nonce
    pub former : IsFormer h core keys store marshaller w w' a token
    pub next : IsCreator h core w' d token nonce

  IsFormer-kept :
      (w w1 w' : h.World) (a : h.Account) (token : Bytes)
      → ((j : Bytes) → h.retrieve_value w' a j ≡ h.retrieve_value w1 a j)
      → IsFormer h core keys store marshaller w w1 a token
      → IsFormer h core keys store marshaller w w' a token
  unfolding get_dct_roles_for_acnt
  IsFormer-kept w w1 w' a token same former = record {
    before = former.before;
    was_new = former.was_new;
    is_new = former.is_new;
    counted =
        counter-kept h core keys store marshaller w1 w' a token 0 (same (nonce_key core token))
          former.counted;
    had = former.had;
    has = rw (same (role_key core token)) (former.has);
  }

  taken-loads :
      (w w' : h.World) (a : h.Account) (token : Bytes) (nonce : ℕ) (address : Bytes)
      → take_create_role h core w a token ≡ ok (nonce, w')
      → get_account h w' address ≡ get_account h w address
  unfolding take_create_role get_account save_latest_nonce delete_create_role_from_account
      save_roles_to_account
  taken-loads w w' a token nonce address e =
      let key = role_key core token in
      let counter = nonce_key core token in
      after_ok (get_latest_nonce h core w a token) _ e λ n _ e1.
        after_ok (lift (h.save_key_value w a counter (to_bytes 0))) _ e1 λ w1 saved e2.
          after_ok (delete_create_role_from_account h core w1 a key) _ e2 λ w2 deleted last.
            let end : w2 ≡ w' = cc (last) in
            after_ok (get_dct_roles_for_acnt h w1 a key) _ deleted λ (roles, was_new) _ d1.
              after_ok (lift (h.marshal_roles (delete_roles roles (core.dct_role_nft_create ∷ []))))
                _ d1
                λ s _ d2.
                  let first =
                    accounts.load-save_key_value w w1 a counter (to_bytes 0) address
                      (lift-eq-ok (h.save_key_value w a counter (to_bytes 0)) saved) in
                  let second =
                    accounts.load-save_key_value w1 w2 a key s address
                      (lift-eq-ok (h.save_key_value w1 a key s) d2) in
                  rw (← end, second, first) refl

  IsCreator-kept :
      (w w' : h.World) (d : h.Account) (token : Bytes) (nonce : ℕ)
      → ((j : Bytes) → h.retrieve_value w' d j ≡ h.retrieve_value w d j)
      → IsCreator h core w d token nonce
      → IsCreator h core w' d token nonce
  unfolding check_allowed_to_execute get_dct_roles_for_acnt
  IsCreator-kept w w' d token nonce same creator = record {
    counted =
        counter-kept h core keys store marshaller w w' d token nonce (same (nonce_key core token))
          creator.counted;
    may_create = rw (same (role_key core token)) (creator.may_create);
  }

  given_in_shard :
      (w w' : h.World) (a d : h.Account) (dst token : Bytes) (nonce : ℕ)
      → d ≢ a
      → nonce < 2 ^ 64
      → get_account h w dst ≡ ok d
      → give_in_same_shard h core w dst token nonce ≡ ok w'
      → IsCreator h core w' d token nonce
        × ((j : Bytes) → h.retrieve_value w' a j ≡ h.retrieve_value w a j)
  unfolding give_in_same_shard
  given_in_shard w w' a d dst token nonce other small found e =
      after_ok (get_account h w dst) _ e λ c loaded e1.
        let same : c ≡ d = cc (loaded, found) in
        after_ok (give_create_role h core w c token nonce) _ e1 λ w1 given last.
          let kept = lift-eq-ok (h.save_account w1 c) last in
          let (creator, others) =
            give_create_role_sound h core keys store marshaller w w1 d token nonce small
              (rw (← same) given) in
          (
            IsCreator-kept w1 w' d token nonce
                (λ j. accounts.retrieve-save_account w1 w' c d j kept) creator,
            λ j. accounts.retrieve-save_account w1 w' c a j kept ∙ others a j (λ n. other (sym n)),
          )

  not_here : (dst : Bytes) → h.compute_id dst ≡ h.self_id → (h.compute_id dst == h.self_id) ≢ false
  not_here dst same = rw same (λ e. ground (arith, e))

  -- Where data tries hold what is saved, saving keeps the accounts, role lists are read back from
  -- their bytes, and the key of a token's roles differs from that of its counter: if the
  -- destination that the second argument names is another account of this shard, a transfer of the
  -- right to create tokens that succeeds leaves the former owner with counter 0 and its roles less
  -- one occurrence of that right, and the destination with the counter that the former owner had
  -- and with the right.
  pub role_transfer-hands_over :
      (w w' : h.World) (a d : h.Account) (input : ContractCallInput) (out : VmOutput)
      (token dst : Bytes)
      → at {E = BuiltInError} input.arguments 0 ≡ ok token
      → at {E = BuiltInError} input.arguments 1 ≡ ok dst
      → h.compute_id dst ≡ h.self_id
      → get_account h w dst ≡ ok d
      → d ≢ a
      → execute_transfer_nft_create_change_at_current_owner h core w a input ≡ ok (out, w')
      → IsHandover w w' a d token
  unfolding execute_transfer_nft_create_change_at_current_owner
  role_transfer-hands_over w w' a d input out token dst token_at dst_at in_shard found other e =
      after_ok (guard (length input.arguments == 2) invalid_arguments) _
        (rw (token_at, dst_at) at e)
        λ _ two e1.
          after_ok (guard (length dst == length input.caller_addr) invalid_arguments) _ e1
            λ _ sized e2. after_ok (take_create_role h core w a token) _ e2 λ (n, w1) taken e3.
              let (latest, former) =
                take_create_role_sound h core keys store marshaller w w1 a token n taken in
              let loads = taken-loads w w1 a token n dst taken ∙ found in
              after_if (h.compute_id dst == h.self_id) _ _ e3
                (λ here e4.
                  after_ok (give_in_same_shard h core w1 dst token n) _ e4 λ w2 given last.
                    let end : w2 ≡ w' = cc (last) in
                    let (next, same) =
                      given_in_shard w1 w' a d dst token n other (latest-small w a token n latest)
                        loads (rw (← end) given) in
                    record {
                      nonce = n;
                      latest = latest;
                      former = IsFormer-kept w w1 w' a token same former;
                      next = next;
                    })
                (λ away _. absurd (not_here dst in_shard away))

  sent_payload :
      (sender dst token : Bytes) (n : ℕ) (account : OutputAccount) (transfer : OutputTransfer)
      → next_owner_account h core sender dst token n ≡ account
      → account.output_transfers ≡ transfer ∷ []
      → transfer.payload
        ≡ transaction_data core.dct_nft_create_role_transfer (token ∷ to_bytes n ∷ [])
  unfolding next_owner_account
  sent_payload sender dst token n account transfer same one = rw append-nil (cc (same, one))

  sent_arguments :
      (sender dst token function : Bytes) (arguments : List Bytes) (n : ℕ) (account : OutputAccount)
      (transfer : OutputTransfer)
      → AreBytes token
      → core.dct_nft_create_role_transfer ≢ []
      → Lacks at_separator core.dct_nft_create_role_transfer
      → next_owner_account h core sender dst token n ≡ account
      → account.output_transfers ≡ transfer ∷ []
      → parse_data transfer.payload ≡ ok (function, arguments)
      → arguments ≡ token ∷ to_bytes n ∷ []
  sent_arguments sender dst token function arguments n account transfer bytes name lacks same one
        parsed =
      let is = sent_payload sender dst token n account transfer same one in
      let back =
        parse_data-transaction_data core.dct_nft_create_role_transfer (token ∷ to_bytes n ∷ []) name
          lacks (bytes, (to_bytes-AreBytes n, tt)) in
      let again = sym parsed ∙ (ap parse_data is ∙ back) in cc (again)

  module _ (g : Host) (g_store : IsStore g) (g_marshaller : IsRolesMarshaller g) where
    -- The handler of the next owner's shard sets the counter that the arguments name.
    next_owner_sound :
        (v v' : g.World) (d : g.Account) (sent : ContractCallInput) (out' : VmOutput)
        (token : Bytes) (n : ℕ)
        → n < 2 ^ 64
        → sent.arguments ≡ token ∷ to_bytes n ∷ []
        → execute_transfer_nft_create_change_at_next_owner g core v d sent ≡ ok (out', v')
        → IsCreator g core v' d token n
    unfolding execute_transfer_nft_create_change_at_next_owner
    next_owner_sound v v' d sent out' token n small named e =
        after_ok (guard (length sent.arguments == 2) invalid_arguments) _ e λ _ two e1.
          after_ok (give_create_role g core v d token (uint64 (set_bytes (to_bytes n)))) _
            (rw named at e1)
            λ v1 given last.
              let end : v1 ≡ v' = cc (last) in
              let (creator, _) =
                give_create_role_sound g core keys g_store g_marshaller v v' d token n small
                  (rw (← end, ← uint64_back n small) given) in
              creator

    -- Where the data tries of both shards hold what is saved, saving keeps the accounts, role lists
    -- are read back from their bytes, and the key of a token's roles differs from that of its
    -- counter: if the destination is not in the first shard, the transfer succeeds there with one
    -- output account of one transfer, the data of this transfer is parsed as a call, and the second
    -- shard runs the call's arguments as the next owner's with success, then the former owner is
    -- left with counter 0 and its roles less one occurrence of the right, and the next owner has
    -- the counter that the former owner had, and the right. The token is bytes, and the name of the
    -- function is not empty and has no separator.
    pub role_transfer-crosses_shards :
        (w w' : h.World) (v v' : g.World) (a : h.Account) (d : g.Account)
        (input sent : ContractCallInput) (out out' : VmOutput) (token dst function : Bytes)
        (account : OutputAccount) (transfer : OutputTransfer)
        → AreBytes token
        → core.dct_nft_create_role_transfer ≢ []
        → Lacks at_separator core.dct_nft_create_role_transfer
        → at {E = BuiltInError} input.arguments 0 ≡ ok token
        → at {E = BuiltInError} input.arguments 1 ≡ ok dst
        → (h.compute_id dst == h.self_id) ≡ false
        → execute_transfer_nft_create_change_at_current_owner h core w a input ≡ ok (out, w')
        → out.output_accounts ≡ (dst, account) ∷ []
        → account.output_transfers ≡ transfer ∷ []
        → parse_data transfer.payload ≡ ok (function, sent.arguments)
        → execute_transfer_nft_create_change_at_next_owner g core v d sent ≡ ok (out', v')
        → (n : ℕ) × (get_latest_nonce h core w a token ≡ ok n)
          × IsFormer h core keys store marshaller w w' a token
          × IsCreator g core v' d token n
    unfolding execute_transfer_nft_create_change_at_current_owner
    role_transfer-crosses_shards w w' v v' a d input sent out out' token dst function account
          transfer bytes name lacks token_at dst_at away e sends one parsed given =
        after_ok (guard (length input.arguments == 2) invalid_arguments) _
          (rw (token_at, dst_at) at e)
          λ _ two e1.
            after_ok (guard (length dst == length input.caller_addr) invalid_arguments) _ e1
              λ _ sized e2. after_ok (take_create_role h core w a token) _ e2 λ (n, w1) taken e3.
                let (latest, former) =
                  take_create_role_sound h core keys store marshaller w w1 a token n taken in
                after_if (h.compute_id dst == h.self_id) _ _ e3 (λ here _. absurd (cc (here, away)))
                  (λ _ last.
                    let end : w1 ≡ w' = cc (last) in
                    let account_is : next_owner_account h core input.caller_addr dst token n
                        ≡ account =
                      cc (last, sends) in
                    (
                      n,
                      latest,
                      rw (← end) former,
                      next_owner_sound v v' d sent out' token n (latest-small w a token n latest)
                          (sent_arguments input.caller_addr dst token function sent.arguments n
                            account transfer bytes name lacks account_is one parsed)
                          given,
                    ))
