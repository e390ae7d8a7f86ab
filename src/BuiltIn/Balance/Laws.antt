-- ===== src/BuiltIn/Balance/Laws.antt =====
-- What a change of balance does to the balances.
use k_vm_common_go.Prelude.{
  ◌==◌, ◌==◌, ◌≡◌, ◌≢◌, ◌⊎◌, inl, inr, refl, subst, arith, Bool, Bool-cases, true, false, not, ◌&&◌,
  some, [], ◌∷◌, Bytes, ok, after_ok, guard, or_panic, bytes_equal, bytes_equal→eq, ==_iff,
  or_panic-eq-ok,
}
use k_vm_common_go.Prelude.Int.{ℤ, pos, ◌+ℤ◌}
use k_vm_common_go.Core.{Core}
use k_vm_common_go.BuiltIn.Host.{Host, answer, lift, IsStore, IsMarshaller, lift-eq-ok}
use k_vm_common_go.BuiltIn.Calls.{is_zero, is_negative}
use k_vm_common_go.BuiltIn.Calls.Checks.{guard-eq-ok}
use k_vm_common_go.BuiltIn.Metadata.{user_from_bytes}
use k_vm_common_go.BuiltIn.GlobalSettings.{is_paused}
use k_vm_common_go.BuiltIn.Balance.{
  are_properties_empty, Token, new_token, token_of_reply, get_dct_data_from_key, save_dct_data,
  check_froze_and_pause, add_to_dct_balance,
}

module _ (h : Host) (core : Core) where
  -- The account holds `v` of the fungible token under the key.
  pub record Holds (w : h.World) (a : h.Account) (k : Bytes) (v : ℤ) : Type 0 where
    pub token : Token h core
    pub stored : get_dct_data_from_key h core w a k ≡ ok token
    pub fungible : token.token_type ≡ core.fungible
    pub amount : token.value ≡ some v

  -- All else that the tries hold is as before.
  pub record ChangesOnly (w w' : h.World) (a : h.Account) (k : Bytes) : Type 0 where
    pub others :
        (b : h.Account) (j : Bytes)
        → (b ≢ a) ⊎ (j ≢ k)
        → h.retrieve_value w' b j ≡ h.retrieve_value w b j

  module _ (store : IsStore h) (marshaller : IsMarshaller h) where
    answer_of_token :
        (s : Bytes) (t : Token h core)
        → h.marshal_token t ≡ answer s
        → token_of_reply h core (answer s) ≡ ok t
    answer_of_token [] t e =
        let (_, ne) = marshaller.unmarshal-marshal_token (new_token h core) t [] e in
        absurd (ne refl)
    answer_of_token (b ∷ s) t e =
        let (back, _) = marshaller.unmarshal-marshal_token (new_token h core) t (b ∷ s) e in rw back

    written-Holds :
        (w w' : h.World) (a : h.Account) (k s : Bytes) (t : Token h core) (v : ℤ)
        → h.save_key_value w a k s ≡ answer w'
        → token_of_reply h core (answer s) ≡ ok t
        → t.token_type ≡ core.fungible
        → t.value ≡ some v
        → Holds w' a k v × ChangesOnly w w' a k
    unfolding get_dct_data_from_key
    written-Holds w w' a k s t v saved read fungible amount = (
      record {
        token = t;
        stored = rw (store.retrieve-save_self w w' a k s saved) read;
        fungible = fungible;
        amount = amount;
      },
      record { others = λ b j ne. store.retrieve-save_other w w' a b k j s saved ne },
    )

    zero_amount : (v : ℤ) → is_zero v ≡ true → some (pos 0) ≡ some v
    zero_amount v e = ground arith

    pub saved-Holds :
        (w w' : h.World) (a : h.Account) (k : Bytes) (t : Token h core) (v : ℤ)
        → t.token_type ≡ core.fungible
        → t.value ≡ some v
        → save_dct_data h core w a t k ≡ ok w'
        → Holds w' a k v × ChangesOnly w w' a k
    unfolding save_dct_data
    saved-Holds w w' a k t v fungible amount e = after_ok (or_panic t.value) _ e λ u got e1.
        let same : u ≡ v = ground (arith, or_panic-eq-ok t.value got) in
        elim (Bool-cases (is_zero u && are_properties_empty t.properties)) [
          | inl empty ↦
              written-Holds w w' a k [] (new_token h core) v
                (lift-eq-ok (h.save_key_value w a k []) (rw empty at e1)) refl refl
                (zero_amount v (subst (λ x. is_zero x ≡ true) same (ground arith)))
          | inr full ↦ after_ok (lift (h.marshal_token t)) _ (rw full at e1) λ s marshaled e2.
              written-Holds w w' a k s t v (lift-eq-ok (h.save_key_value w a k s) e2)
                (answer_of_token s t (lift-eq-ok (h.marshal_token t) marshaled)) fungible amount
        ]

    -- What allowed a change of balance: it is the return of a failed call, or the account is the
    -- system contract's, or neither the account is frozen for the token nor the token paused.
    abbrev pub IsAllowed : h.World → h.Account → Bytes → Token h core → Bool → Type 0
    IsAllowed w a k t back =
        (back ≡ true)
        ⊎ (h.address_bytes a ≡ core.dct_sc_address)
        ⊎ (((user_from_bytes t.properties).frozen ≡ false) × (is_paused h w k ≡ false))

    IsAllowed-sound :
        (w : h.World) (a : h.Account) (k : Bytes) (t : Token h core) (back : Bool)
        → check_froze_and_pause h core w (h.address_bytes a) k t back ≡ ok tt
        → IsAllowed w a k t back
    unfolding check_froze_and_pause
    IsAllowed-sound w a k t back e = elim (Bool-cases back) [
      | inl returned ↦ inl returned
      | inr plain ↦ elim (Bool-cases (bytes_equal (h.address_bytes a) core.dct_sc_address)) [
        | inl system ↦ inr (inl (bytes_equal→eq (h.address_bytes a) core.dct_sc_address system))
        | inr other ↦ inr (inr (ground arith, ground arith))
      ]
    ]

    -- A change of balance that succeeded: the account held some amount of a fungible token, the
    -- change was allowed, the account now holds the sum, which is not negative, and nothing else
    -- that any account holds has changed.
    pub record IsChange (w w' : h.World) (a : h.Account) (k : Bytes) (value : ℤ) (back : Bool)
        : Type 0 where
      pub old : ℤ
      pub held : Holds w a k old
      pub allowed : IsAllowed w a k held.token back
      pub holds : Holds w' a k (old +ℤ value)
      pub not_negative : is_negative (old +ℤ value) ≡ false
      pub only : ChangesOnly w w' a k

    -- Where the data tries hold what is saved and the marshaller reads back what it wrote: a change
    -- of a balance that succeeds was of a fungible token and allowed: it returns a failed call, or
    -- the account is the system contract's, or the account is not frozen and the token not paused.
    -- The account then holds the sum, which is not negative, and no other entry of any account has
    -- changed.
    pub add_to_dct_balance_sound :
        (w w' : h.World) (a : h.Account) (k : Bytes) (value : ℤ) (back : Bool)
        → add_to_dct_balance h core w a k value back ≡ ok w'
        → IsChange w w' a k value back
    unfolding add_to_dct_balance
    add_to_dct_balance_sound w w' a k value back e =
        after_ok (get_dct_data_from_key h core w a k) _ e λ t stored e1.
          after_ok (guard (t.token_type == core.fungible) _) _ e1 λ _ fungible e2.
            after_ok (check_froze_and_pause h core w (h.address_bytes a) k t back) _ e2
              λ _ allowed e3. after_ok (or_panic t.value) _ e3 λ old amount e4.
                after_ok (guard (not (is_negative (old +ℤ value))) _) _ e4 λ _ enough e5.
                  let type : t.token_type ≡ core.fungible =
                    (==_iff t.token_type core.fungible).0 (guard-eq-ok _ _ fungible) in
                  let next : Token h core = record t { value = some (old +ℤ value) } in
                  let (holds, only) = saved-Holds w w' a k next (old +ℤ value) type refl e5 in
                  record {
                    old = old;
                    held = record {
                      token = t;
                      stored = stored;
                      fungible = type;
                      amount = or_panic-eq-ok t.value amount;
                    };
                    allowed = IsAllowed-sound w a k t back allowed;
                    holds = holds;
                    not_negative = ground arith;
                    only = only;
                  }
