-- ===== src/BuiltIn/GlobalSettings/Toggle.antt =====
-- What a change of a token's global settings leaves in the system account.
use k_vm_common_go.Prelude.{
  ◌==◌, ◌≡◌, ◌≢◌, ◌⊎◌, inl, inr, refl, ◌∙◌, arith, ◌||◌, Bool-cases, true, false, some, Bytes,
  ascii, length, ok, after_ok, guard, at, or_panic, bytes_equal, bytes_equal_refl, bytes_equal→eq,
}
use k_vm_common_go.Core.{Core}
use k_vm_common_go.Address.{is_system_account_address, system_account_address}
use k_vm_common_go.BuiltIn.Errors.{BuiltInError}
use k_vm_common_go.BuiltIn.Host.{Host, answer, lift, lift-eq-ok, IsStore, KeepsAccounts}
use k_vm_common_go.BuiltIn.Calls.{ContractCallInput, VmOutput, is_zero}
use k_vm_common_go.BuiltIn.Calls.Checks.{guard-eq-ok}
use k_vm_common_go.BuiltIn.Metadata.{DctGlobalMetadata, global_to_bytes}
use k_vm_common_go.BuiltIn.Metadata.RoundTrip.{global_round_trip}
use k_vm_common_go.BuiltIn.GlobalSettings.{
  DctGlobalSettings, token_key, sets_limited_transfer, sets_paused, sets_burn_role_for_all,
  change_setting, get_system_account, get_global_metadata, toggle_setting, process_global_settings,
}

module _ (h : Host) (store : IsStore h) (keeps : KeepsAccounts h) (core : Core)
    (e : DctGlobalSettings) where
  abbrev pub IsEither : Bytes → Bytes → Type 0
  IsEither first second = (e.function ≡ first) ⊎ (e.function ≡ second)

  -- The setting that the name of the function is for becomes the function's `set`, and the other two
  -- are as before; a function with another name changes none.
  pub data IsOneChange (before after : DctGlobalMetadata) : Type 0 where
    changes_limited_transfer :
        IsEither core.dct_set_limited_transfer core.dct_un_set_limited_transfer
        → after.limited_transfer ≡ e.set
        → after.paused ≡ before.paused
        → after.burn_role_for_all ≡ before.burn_role_for_all
        → IsOneChange before after
    changes_paused :
        IsEither core.dct_pause core.dct_un_pause
        → after.paused ≡ e.set
        → after.limited_transfer ≡ before.limited_transfer
        → after.burn_role_for_all ≡ before.burn_role_for_all
        → IsOneChange before after
    changes_burn_role_for_all :
        IsEither (ascii "DCTSetBurnRoleForAll") (ascii "DCTUnSetBurnRoleForAll")
        → after.burn_role_for_all ≡ e.set
        → after.limited_transfer ≡ before.limited_transfer
        → after.paused ≡ before.paused
        → IsOneChange before after
    changes_none :
        ¬ IsEither core.dct_set_limited_transfer core.dct_un_set_limited_transfer
        → ¬ IsEither core.dct_pause core.dct_un_pause
        → ¬ IsEither (ascii "DCTSetBurnRoleForAll") (ascii "DCTUnSetBurnRoleForAll")
        → after ≡ before
        → IsOneChange before after

  swap : {A B : Type 0} → A ⊎ B → B ⊎ A
  swap (inl a) = inr a
  swap (inr b) = inl b

  IsEither-named :
      (first second : Bytes)
      → (bytes_equal e.function first || bytes_equal e.function second) ≡ true
      → IsEither first second
  IsEither-named first second named = elim (Bool-cases (bytes_equal e.function first)) [
    | inl same ↦ inl (bytes_equal→eq e.function first same)
    | inr other ↦ inr (bytes_equal→eq e.function second (rw other at named))
  ]

  IsEither-neither :
      (first second : Bytes)
      → (bytes_equal e.function first || bytes_equal e.function second) ≡ false
      → ¬ IsEither first second
  IsEither-neither first second other (inl same) =
      absurd (cc (rw (same, bytes_equal_refl first) at other))
  IsEither-neither first second other (inr same) =
      let named : bytes_equal e.function second ≡ true = rw same (bytes_equal_refl second) in
      ground (arith, named)

  change_setting-IsOneChange : (m : DctGlobalMetadata) → IsOneChange m (change_setting core e m)
  unfolding change_setting sets_limited_transfer sets_paused sets_burn_role_for_all
  change_setting-IsOneChange m = elim (Bool-cases (sets_limited_transfer core e.function)) [
    | inl limited ↦
        rw limited (changes_limited_transfer (IsEither-named _ _ limited) refl refl refl)
    | inr not_limited ↦ elim (Bool-cases (sets_paused core e.function)) [
      | inl paused ↦
          rw (not_limited, paused) (changes_paused (IsEither-named _ _ paused) refl refl refl)
      | inr not_paused ↦ elim (Bool-cases (sets_burn_role_for_all e.function)) [
        | inl burn ↦
            rw (not_limited, not_paused, burn)
              (changes_burn_role_for_all (swap (IsEither-named _ _ burn)) refl refl refl)
        | inr not_burn ↦
            rw (not_limited, not_paused, not_burn)
              (changes_none (IsEither-neither _ _ not_limited) (IsEither-neither _ _ not_paused)
                (λ named. IsEither-neither _ _ not_burn (swap named)) refl)
      ]
    ]
  ]

  -- A toggle of the settings under a key that succeeded: the setting that the function is for has
  -- changed, and every other entry of every account is as before.
  pub record IsToggle (w w' : h.World) (key : Bytes) : Type 0 where
    pub before : DctGlobalMetadata
    pub after : DctGlobalMetadata
    pub had : get_global_metadata h w key ≡ ok before
    pub has : get_global_metadata h w' key ≡ ok after
    pub changed : IsOneChange before after
    pub system : h.Account
    pub loaded : get_system_account h w ≡ ok system
    pub others :
        (b : h.Account) (j : Bytes)
        → (b ≢ system) ⊎ (j ≢ key)
        → h.retrieve_value w' b j ≡ h.retrieve_value w b j

  system_kept :
      (w w1 w' : h.World) (s : h.Account) (key v : Bytes)
      → h.save_key_value w s key v ≡ answer w1
      → h.save_account w1 s ≡ answer w'
      → get_system_account h w' ≡ get_system_account h w
  unfolding get_system_account
  system_kept w w1 w' s key v saved kept =
      let second = keeps.load-save_account w1 w' s system_account_address kept in
      let first = keeps.load-save_key_value w w1 s key v system_account_address saved in
      rw (second, first)

  metadata_read :
      (w : h.World) (s : h.Account) (key : Bytes) (m : DctGlobalMetadata)
      → get_system_account h w ≡ ok s
      → h.retrieve_value w s key ≡ answer (global_to_bytes m)
      → get_global_metadata h w key ≡ ok m
  unfolding get_global_metadata
  metadata_read w s key m found read = rw (found, read, global_round_trip m)

  pub toggle_setting_sound :
      (w w' : h.World) (key : Bytes) → toggle_setting h core e w key ≡ ok w' → IsToggle w w' key
  unfolding toggle_setting
  toggle_setting_sound w w' key toggled = after_ok (get_system_account h w) _ toggled λ s loaded e1.
      after_ok (get_global_metadata h w key) _ e1 λ m had e2.
        let bytes = global_to_bytes (change_setting core e m) in
        after_ok (lift (h.save_key_value w s key bytes)) _ e2 λ w1 saved e3.
          let written = lift-eq-ok (h.save_key_value w s key bytes) saved in
          let kept = lift-eq-ok (h.save_account w1 s) e3 in
          let read : h.retrieve_value w' s key ≡ answer bytes =
            keeps.retrieve-save_account w1 w' s s key kept
            ∙ store.retrieve-save_self w w1 s key bytes written in
          record {
            before = m;
            after = change_setting core e m;
            changed = change_setting-IsOneChange m;
            had = had;
            has =
                metadata_read w' s key (change_setting core e m)
                  (system_kept w w1 w' s key bytes written kept ∙ loaded) read;
            system = s;
            loaded = loaded;
            others = λ b j ne.
                keeps.retrieve-save_account w1 w' s b j kept
                ∙ store.retrieve-save_other w w1 s b key j bytes written ne;
          }

  -- Where the data tries hold what is saved and saving keeps the accounts of addresses: a change of
  -- global settings that succeeds was a call of the DCT system contract to a system account, whose
  -- first argument names the token; afterwards the one setting of that token that the name of the
  -- function is for, limited transfer, pause or burning for all, is what the function sets, its other
  -- settings are as before, none has changed where the function has another name, and every entry of
  -- every account but that one of the system account is as before.
  pub global_settings-change_one :
      (w w' : h.World) (input : ContractCallInput) (out : VmOutput)
      → process_global_settings h core e w (some input) ≡ ok (out, w')
      → (input.caller_addr ≡ core.dct_sc_address)
        × (is_system_account_address input.recipient_addr ≡ true)
        × (token : Bytes) × (at {E = BuiltInError} input.arguments 0 ≡ ok token)
        × IsToggle w w' (token_key core token)
  unfolding process_global_settings
  global_settings-change_one w w' input out done =
      after_ok (or_panic input.call_value) _ done λ value _ e1.
        after_ok (guard (is_zero value) _) _ e1 λ _ _ e2.
          after_ok (guard (length input.arguments == 1) _) _ e2 λ _ _ e3.
            after_ok (guard (bytes_equal input.caller_addr core.dct_sc_address) _) _ e3
              λ _ system e4.
                after_ok (guard (is_system_account_address input.recipient_addr) _) _ e4
                  λ _ recipient e5. after_ok (at input.arguments 0) _ e5 λ token named e6.
                    after_ok (toggle_setting h core e w (token_key core token)) _ e6
                      λ w1 toggled last. (
                        bytes_equal→eq input.caller_addr core.dct_sc_address
                            (guard-eq-ok _ _ system),
                        guard-eq-ok _ _ recipient,
                        token,
                        named,
                        toggle_setting_sound w w' (token_key core token) (cc (toggled, last)),
                      )
