-- ===== src/Core.antt =====
-- The constants of the library k-core that the source names. Their values are not part of this
-- repository: each is a field of a record that the definitions take.
use k_vm_common_go.Prelude.{ℕ, ◌≢◌, Bytes}

pub record Core : Type 0 where
  -- core.BuiltInFunction…
  pub dct_transfer : Bytes
  pub dct_nft_transfer : Bytes
  pub multi_dct_nft_transfer : Bytes
  pub dct_nft_create : Bytes
  pub dct_nft_add_quantity : Bytes
  pub dct_nft_burn : Bytes
  pub dct_nft_add_uri : Bytes
  pub dct_nft_update_attributes : Bytes
  pub dct_nft_create_role_transfer : Bytes
  pub dct_burn : Bytes
  pub dct_local_mint : Bytes
  pub dct_local_burn : Bytes
  pub dct_pause : Bytes
  pub dct_un_pause : Bytes
  pub dct_set_limited_transfer : Bytes
  pub dct_un_set_limited_transfer : Bytes
  -- core.Fungible, core.NonFungible
  pub fungible : ℕ
  pub non_fungible : ℕ
  -- core.ProtectedKeyPrefix, core.DCTKeyIdentifier, core.DCTRoleIdentifier, core.DCTNFTLatestNonceIdentifier
  pub protected_key_prefix : Bytes
  pub dct_key_identifier : Bytes
  pub dct_role_identifier : Bytes
  pub dct_nft_latest_nonce_identifier : Bytes
  -- core.DCTRole…
  pub dct_role_local_mint : Bytes
  pub dct_role_local_burn : Bytes
  pub dct_role_transfer : Bytes
  pub dct_role_nft_create_multi_shard : Bytes
  pub dct_role_nft_create : Bytes
  pub dct_role_nft_add_quantity : Bytes
  pub dct_role_nft_burn : Bytes
  pub dct_role_nft_add_uri : Bytes
  pub dct_role_nft_update_attributes : Bytes
  -- core.DCTSCAddress, core.MetachainShardId
  pub dct_sc_address : Bytes
  pub metachain_shard_id : ℕ
  -- core.MinLenArgumentsDCTTransfer, core.MinLenArgumentsDCTNFTTransfer, core.MaxLenForDCTIssueMint,
  -- core.MaxRoyalty
  pub min_len_arguments_dct_transfer : ℕ
  pub min_len_arguments_dct_nft_transfer : ℕ
  pub max_royalty : ℕ
  pub max_len_for_dct_issue_mint : ℕ
  -- vm.DirectCall, vm.AsynchronousCall, vm.AsynchronousCallBack, vm.DCTTransferAndExecute,
  -- vm.ExecOnDestByCaller
  pub direct_call : ℕ
  pub asynchronous_call : ℕ
  pub asynchronous_call_back : ℕ
  pub dct_transfer_and_execute : ℕ
  pub exec_on_dest_by_caller : ℕ

-- The names that select a transfer are different names.
pub record HasDistinctTransfers (c : Core) : Type 0 where
  pub single_ne_nft : c.dct_transfer ≢ c.dct_nft_transfer
  pub single_ne_multi : c.dct_transfer ≢ c.multi_dct_nft_transfer
  pub nft_ne_multi : c.dct_nft_transfer ≢ c.multi_dct_nft_transfer
