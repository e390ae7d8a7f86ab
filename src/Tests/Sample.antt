-- ===== src/Tests/Sample.antt =====
-- Sample values of the constants of k-core, and tests that decide the conditions on byte strings.
use k_vm_common_go.Prelude.{
  ℕ, ltb, ◌==◌, ◌≡◌, arith, not, ◌&&◌, Bool, true, [], ◌∷◌, ◌++◌, Bytes, ascii, replicate, AreBytes,
}
use k_vm_common_go.Go.Text.Split.{Lacks}
use k_vm_common_go.Core.{Core, HasDistinctTransfers}

abbrev pub sample_core : Core
sample_core = record {
  dct_transfer = ascii "DCTTransfer";
  dct_nft_transfer = ascii "DCTNFTTransfer";
  multi_dct_nft_transfer = ascii "MultiDCTNFTTransfer";
  dct_nft_create = ascii "DCTNFTCreate";
  dct_nft_add_quantity = ascii "DCTNFTAddQuantity";
  dct_nft_burn = ascii "DCTNFTBurn";
  dct_nft_add_uri = ascii "DCTNFTAddURI";
  dct_nft_update_attributes = ascii "DCTNFTUpdateAttributes";
  dct_nft_create_role_transfer = ascii "DCTNFTCreateRoleTransfer";
  dct_burn = ascii "DCTBurn";
  dct_local_mint = ascii "DCTLocalMint";
  dct_local_burn = ascii "DCTLocalBurn";
  dct_pause = ascii "DCTPause";
  dct_un_pause = ascii "DCTUnPause";
  dct_set_limited_transfer = ascii "DCTSetLimitedTransfer";
  dct_un_set_limited_transfer = ascii "DCTUnSetLimitedTransfer";
  fungible = 0;
  non_fungible = 1;
  protected_key_prefix = ascii "KEY";
  dct_key_identifier = ascii "dct";
  dct_role_identifier = ascii "role";
  dct_nft_latest_nonce_identifier = ascii "nonce";
  dct_role_local_mint = ascii "DCTRoleLocalMint";
  dct_role_local_burn = ascii "DCTRoleLocalBurn";
  dct_role_transfer = ascii "DCTTransferRole";
  dct_role_nft_create_multi_shard = ascii "DCTRoleNFTCreateMultiShard";
  dct_role_nft_create = ascii "DCTRoleNFTCreate";
  dct_role_nft_add_quantity = ascii "DCTRoleNFTAddQuantity";
  dct_role_nft_burn = ascii "DCTRoleNFTBurn";
  dct_role_nft_add_uri = ascii "DCTRoleNFTAddURI";
  dct_role_nft_update_attributes = ascii "DCTRoleNFTUpdateAttributes";
  dct_sc_address = replicate 10 0 ++ (255 ∷ 255 ∷ []);
  metachain_shard_id = 4294967295;
  min_len_arguments_dct_transfer = 2;
  min_len_arguments_dct_nft_transfer = 4;
  max_royalty = 10000;
  max_len_for_dct_issue_mint = 100;
  direct_call = 0;
  asynchronous_call = 1;
  asynchronous_call_back = 2;
  dct_transfer_and_execute = 3;
  exec_on_dest_by_caller = 4;
}

pub sample_core-HasDistinctTransfers : HasDistinctTransfers sample_core
sample_core-HasDistinctTransfers = record {
  single_ne_nft = λ e. cc;
  single_ne_multi = λ e. cc;
  nft_ne_multi = λ e. cc;
}

abbrev pub all_below : Bytes → Bool
all_below [] = true
all_below (b ∷ s) = ltb b 256 && all_below s

pub all_below-AreBytes : (s : Bytes) → all_below s ≡ true → AreBytes s
all_below-AreBytes [] e = tt
all_below-AreBytes (b ∷ s) e = (ground arith, all_below-AreBytes s (ground arith))

abbrev pub all_other : ℕ → Bytes → Bool
all_other sep [] = true
all_other sep (b ∷ s) = not (b == sep) && all_other sep s

pub all_other-Lacks : (sep : ℕ) (s : Bytes) → all_other sep s ≡ true → Lacks sep s
all_other-Lacks sep [] e = tt
all_other-Lacks sep (b ∷ s) e = (ground arith, all_other-Lacks sep s (ground arith))
