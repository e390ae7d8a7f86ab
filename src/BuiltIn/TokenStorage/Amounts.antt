-- ===== src/BuiltIn/TokenStorage/Amounts.antt =====
-- The amount of one account under one key before and after a step.
use k_vm_common_go.Prelude.{◌≡◌, ◌≢◌, inl, inr, sym, ◌∙◌, ok, Bytes}
use k_vm_common_go.Prelude.Int.{ℤ, ◌+ℤ◌}
use k_vm_common_go.Core.{Core}
use k_vm_common_go.BuiltIn.Epochs.{EnableEpochs}
use k_vm_common_go.BuiltIn.Host.{Host, IsStore, KeepsAccounts, answer}
use k_vm_common_go.BuiltIn.GlobalSettings.{get_system_account}
use k_vm_common_go.BuiltIn.Balance.{get_dct_data_from_key}
use k_vm_common_go.BuiltIn.TokenStorage.Saved.{
  HasAmount, kept_value, IsWrite, IsWrite-trans, IsWrite-widen, IsWritten, IsSaved,
}
use k_vm_common_go.BuiltIn.TokenStorage.Liquidity.{get_system_account-kept}

module _ (h : Host) (core : Core) where
  pub HasAmount-kept :
      (w w' : h.World) (a : h.Account) (k : Bytes) (v : ℤ)
      → h.retrieve_value w' a k ≡ h.retrieve_value w a k
      → HasAmount h core w a k v
      → HasAmount h core w' a k v
  unfolding get_dct_data_from_key
  HasAmount-kept w w' a k v same has = record {
    token = has.token;
    stored = rw same (has.stored);
    amount = has.amount;
  }

  -- The account is not the system account.
  abbrev pub IsUser : h.World → h.Account → Type 0
  IsUser w a = get_system_account h w ≢ ok a

  module _ (epochs : EnableEpochs) (store : IsStore h) (accounts : KeepsAccounts h) where
    -- The amount of one account for one key changed; of the rest of the data tries only the entry of
    -- the system account for the key may have.
    pub record IsAmountChange (w w' : h.World) (a : h.Account) (key : Bytes) (old change : ℤ)
        : Type 0 where
      pub had : HasAmount h core w a key old
      pub has : HasAmount h core w' a key (kept_value (old +ℤ change))
      pub write : IsWrite h w w' (IsWritten h store accounts core epochs w a) key

    -- The amount is saved first, and then the liquidity changed.
    pub IsAmountChange-of_saved :
        (w w1 w' : h.World) (a : h.Account) (key : Bytes) (old change : ℤ)
        → IsUser w a
        → HasAmount h core w a key old
        → IsSaved h store accounts core epochs w w1 a key (old +ℤ change)
        → IsWrite h w1 w' (λ b. get_system_account h w1 ≡ ok b) key
        → IsAmountChange w w' a key old change
    IsAmountChange-of_saved w w1 w' a key old change user had first second =
        let same = get_system_account-kept h w w1 _ key first.write in
        record {
          had = had;
          has =
              HasAmount-kept w1 w' a key (kept_value (old +ℤ change))
                (second.others a key (inl (λ system. user (sym same ∙ system)))) first.holds;
          write =
              IsWrite-trans h w w1 w' (IsWritten h store accounts core epochs w a) key first.write (
                IsWrite-widen h w1 w' (λ b. get_system_account h w1 ≡ ok b)
                  (IsWritten h store accounts core epochs w a) key
                  (λ b system. inr (sym same ∙ system)) second);
        }

    -- Saving an account changes no amount.
    pub IsAmountChange-save_account :
        (w w1 w' : h.World) (a b : h.Account) (key : Bytes) (old change : ℤ)
        → IsAmountChange w w1 a key old change
        → h.save_account w1 b ≡ answer w'
        → IsAmountChange w w' a key old change
    IsAmountChange-save_account w w1 w' a b key old change changed saved =
        let kept : (c : h.Account) (j : Bytes) → h.retrieve_value w' c j ≡ h.retrieve_value w1 c j =
          λ c j. accounts.retrieve-save_account w1 w' b c j saved in
        record {
          had = changed.had;
          has = HasAmount-kept w1 w' a key (kept_value (old +ℤ change)) (kept a key) changed.has;
          write =
              IsWrite-trans h w w1 w' (IsWritten h store accounts core epochs w a) key changed.write
                (record {
                  others = λ c j off. kept c j;
                  loads = λ s. accounts.load-save_account w1 w' b s saved;
                });
        }
