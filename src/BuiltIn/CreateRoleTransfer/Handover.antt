-- ===== src/BuiltIn/CreateRoleTransfer/Handover.antt =====
-- The counter and the role of creating tokens, before and after they go to another account.
use k_vm_common_go.Prelude.{
  ℕ, ◌<◌, ◌^◌, ◌≡◌, ◌≢◌, ◌⊎◌, refl, sym, ◌∙◌, inl, inr, arith, Bool, true, false, some, List, [],
  ◌∷◌, ◌++◌, Bytes, bytes_equal_refl, ok, after_ok, after_if,
}
use k_vm_common_go.Core.{Core}
use k_vm_common_go.Go.BigInt.{to_bytes}
use k_vm_common_go.Go.BigInt.RoundTrip.{set_bytes-to_bytes}
use k_vm_common_go.BuiltIn.Host.{
  Host, Reply, answer, failure, lift, lift-eq-ok, IsStore, IsRolesMarshaller,
}
use k_vm_common_go.BuiltIn.Roles.{
  role_key, nonce_key, has_role, delete_roles, roles_of_reply, get_dct_roles_for_acnt,
  save_roles_to_account, save_latest_nonce, check_allowed_to_execute,
}
use k_vm_common_go.BuiltIn.Roles.Grant.{get-save_roles, role_index-found}
use k_vm_common_go.BuiltIn.NftCreate.{get_latest_nonce}
use k_vm_common_go.BuiltIn.NftCreate.Stored.{nonce_back}
use k_vm_common_go.BuiltIn.CreateRoleTransfer.{
  delete_create_role_from_account, add_create_role_to_account, give_create_role, take_create_role,
}

has_role-last : (role : Bytes) (roles : List Bytes) → has_role role (roles ++ (role ∷ [])) ≡ true
unfolding has_role
has_role-last role [] = rw (bytes_equal_refl role) refl
has_role-last role (r ∷ roles) = ground (arith, has_role-last role roles)

-- Where the account of a counter and of the roles of a token are two entries.
pub record HasRoleKeys (core : Core) : Type 0 where
  pub role_key-ne-nonce : (token : Bytes) → role_key core token ≢ nonce_key core token

module _ (h : Host) (core : Core) where
  roles-not_new :
      (r : Reply Bytes) (roles : List Bytes) (is_new : Bool) (role : Bytes)
      → roles_of_reply h r ≡ ok (roles, is_new)
      → has_role role roles ≡ true
      → is_new ≡ false
  unfolding has_role
  roles-not_new (failure e) roles is_new role got has =
      let none_there : [] ≡ roles = cc (got) in absurd (cc (rw (← none_there) at has))
  roles-not_new (answer []) roles is_new role got has =
      let none_there : [] ≡ roles = cc (got) in absurd (cc (rw (← none_there) at has))
  roles-not_new (answer (b ∷ s)) roles is_new role got has =
      after_ok (lift (h.unmarshal_roles (b ∷ s))) _ got λ rs read last. cc (last)

  allowed-of_roles :
      (w : h.World) (a : h.Account) (token role : Bytes) (roles : List Bytes) (is_new : Bool)
      → get_dct_roles_for_acnt h w a (role_key core token) ≡ ok (roles, is_new)
      → has_role role roles ≡ true
      → check_allowed_to_execute h core w (some a) token role ≡ ok tt
  unfolding check_allowed_to_execute get_dct_roles_for_acnt
  allowed-of_roles w a token role roles is_new got has =
      let old =
        roles-not_new (h.retrieve_value w a (role_key core token)) roles is_new role got has in
      let (k, found) = role_index-found 0 roles role has in rw (got, old, found) refl

  -- The account has the counter and may create tokens.
  pub record IsCreator (w : h.World) (a : h.Account) (token : Bytes) (nonce : ℕ) : Type 0 where
    pub counted : get_latest_nonce h core w a token ≡ ok nonce
    pub may_create :
        check_allowed_to_execute h core w (some a) token core.dct_role_nft_create ≡ ok tt

  module _ (keys : HasRoleKeys core) (store : IsStore h) (marshaller : IsRolesMarshaller h) where
    -- Saving roles, or a counter, writes one entry of one account.
    saved_roles-others :
        (w w' : h.World) (a b : h.Account) (key j : Bytes) (roles : List Bytes)
        → save_roles_to_account h w a key roles ≡ ok w'
        → (b ≢ a) ⊎ (j ≢ key)
        → h.retrieve_value w' b j ≡ h.retrieve_value w b j
    unfolding save_roles_to_account
    saved_roles-others w w' a b key j roles e off =
        after_ok (lift (h.marshal_roles roles)) _ e λ s _ last.
          store.retrieve-save_other w w' a b key j s (lift-eq-ok (h.save_key_value w a key s) last)
            off

    saved_counter :
        (w w' : h.World) (a : h.Account) (token : Bytes) (nonce : ℕ)
        → nonce < 2 ^ 64
        → save_latest_nonce h core w a token nonce ≡ ok w'
        → get_latest_nonce h core w' a token ≡ ok nonce
    unfolding save_latest_nonce get_latest_nonce
    saved_counter w w' a token nonce small e =
        rw
          (store.retrieve-save_self w w' a (nonce_key core token) (to_bytes nonce)
            (lift-eq-ok (h.save_key_value w a (nonce_key core token) (to_bytes nonce)) e))
          (nonce_back (to_bytes nonce) nonce (set_bytes-to_bytes nonce) small)

    saved_counter-others :
        (w w' : h.World) (a b : h.Account) (token j : Bytes) (nonce : ℕ)
        → save_latest_nonce h core w a token nonce ≡ ok w'
        → b ≢ a
        → h.retrieve_value w' b j ≡ h.retrieve_value w b j
    unfolding save_latest_nonce
    saved_counter-others w w' a b token j nonce e other =
        store.retrieve-save_other w w' a b (nonce_key core token) j (to_bytes nonce)
          (lift-eq-ok (h.save_key_value w a (nonce_key core token) (to_bytes nonce)) e) (inl other)

    pub counter-kept :
        (w w' : h.World) (a : h.Account) (token : Bytes) (nonce : ℕ)
        → h.retrieve_value w' a (nonce_key core token) ≡ h.retrieve_value w a (nonce_key core token)
        → get_latest_nonce h core w a token ≡ ok nonce
        → get_latest_nonce h core w' a token ≡ ok nonce
    unfolding get_latest_nonce
    counter-kept w w' a token nonce same got = rw same got

    add_role_sound :
        (w w' : h.World) (a : h.Account) (token : Bytes)
        → add_create_role_to_account h core w a (role_key core token) ≡ ok w'
        → (check_allowed_to_execute h core w' (some a) token core.dct_role_nft_create ≡ ok tt)
          × ((b : h.Account) (j : Bytes)
              → (b ≢ a) ⊎ (j ≢ role_key core token)
              → h.retrieve_value w' b j ≡ h.retrieve_value w b j)
    unfolding add_create_role_to_account
    add_role_sound w w' a token e =
        let key = role_key core token in
        let role = core.dct_role_nft_create in
        after_ok (get_dct_roles_for_acnt h w a key) _ e λ (roles, is_new) got e1.
          after_if (has_role role roles) _ _ e1
            (λ has last.
              let end : w ≡ w' = cc (last) in
              rw (← end) (allowed-of_roles w a token role roles is_new got has, λ b j off. refl))
            (λ missing last.
              let (new, found, _) =
                get-save_roles h store marshaller w w' a key (roles ++ (role ∷ [])) last in
              (
                allowed-of_roles w' a token role (roles ++ (role ∷ [])) new found
                    (has_role-last role roles),
                λ b j off. saved_roles-others w w' a b key j (roles ++ (role ∷ [])) last off,
              ))

    pub give_create_role_sound :
        (w w' : h.World) (a : h.Account) (token : Bytes) (nonce : ℕ)
        → nonce < 2 ^ 64
        → give_create_role h core w a token nonce ≡ ok w'
        → IsCreator w' a token nonce
          × ((b : h.Account) (j : Bytes) → b ≢ a → h.retrieve_value w' b j ≡ h.retrieve_value w b j)
    unfolding give_create_role
    give_create_role_sound w w' a token nonce small e =
        after_ok (save_latest_nonce h core w a token nonce) _ e λ w1 saved last.
          let (allowed, others) = add_role_sound w1 w' a token last in
          (
            record {
              counted =
                  counter-kept w1 w' a token nonce
                    (others a (nonce_key core token)
                      (inr (λ same. keys.role_key-ne-nonce token (sym same))))
                    (saved_counter w w1 a token nonce small saved);
              may_create = allowed;
            },
            λ b j other.
                others b j (inl other) ∙ saved_counter-others w w1 a b token j nonce saved other,
          )

    -- What the account that had the right keeps: no counter, and its roles less the one.
    pub record IsFormer (w w' : h.World) (a : h.Account) (token : Bytes) : Type 0 where
      pub before : List Bytes
      pub was_new : Bool
      pub is_new : Bool
      pub counted : get_latest_nonce h core w' a token ≡ ok 0
      pub had : get_dct_roles_for_acnt h w a (role_key core token) ≡ ok (before, was_new)
      pub has :
          get_dct_roles_for_acnt h w' a (role_key core token)
          ≡ ok (delete_roles before (core.dct_role_nft_create ∷ []), is_new)

    pub take_create_role_sound :
        (w w' : h.World) (a : h.Account) (token : Bytes) (nonce : ℕ)
        → take_create_role h core w a token ≡ ok (nonce, w')
        → (get_latest_nonce h core w a token ≡ ok nonce) × IsFormer w w' a token
    unfolding take_create_role delete_create_role_from_account save_latest_nonce
        get_dct_roles_for_acnt
    take_create_role_sound w w' a token nonce e =
        let key = role_key core token in
        after_ok (get_latest_nonce h core w a token) _ e λ n latest e1.
          after_ok (save_latest_nonce h core w a token 0) _ e1 λ w1 saved e2.
            after_ok (delete_create_role_from_account h core w1 a key) _ e2 λ w2 deleted last.
              let end : w2 ≡ w' = cc (last) in
              let same : n ≡ nonce = cc (last) in
              after_ok (get_dct_roles_for_acnt h w1 a key) _ deleted λ (roles, was_new) got final.
                let left = delete_roles roles (core.dct_role_nft_create ∷ []) in
                let (new, found, _) = get-save_roles h store marshaller w1 w2 a key left final in
                let kept : h.retrieve_value w1 a key ≡ h.retrieve_value w a key =
                  store.retrieve-save_other w w1 a a (nonce_key core token) key (to_bytes 0)
                    (lift-eq-ok (h.save_key_value w a (nonce_key core token) (to_bytes 0)) saved)
                    (inr (keys.role_key-ne-nonce token)) in
                rw (← end, ← same)
                  (
                    latest,
                    record {
                      before = roles;
                      was_new = was_new;
                      is_new = new;
                      counted =
                          counter-kept w1 w2 a token 0
                            (saved_roles-others w1 w2 a a key (nonce_key core token) left final
                              (inr (λ k. keys.role_key-ne-nonce token (sym k))))
                            (saved_counter w w1 a token 0 (omega arith) saved);
                      had = rw (← kept) got;
                      has = found;
                    },
                  )
