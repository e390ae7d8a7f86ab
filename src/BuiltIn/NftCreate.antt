-- ===== src/BuiltIn/NftCreate.antt =====
-- builtInFunctions/dctNFTCreate.go: an account with the role creates a token with the next nonce.
pub mod Counter
pub mod Stored
use k_vm_common_go.Prelude.{
  ℕ, ◌+◌, ◌-◌, ltb, ◌==◌, if◌then◌else◌, not, ◌&&◌, Bool, true, false, Option, none, some, List, [],
  ◌∷◌, Bytes, length, take, drop, ◌*◌, ◌%◌, ◌^◌, bytes_equal, Outcome, ok, err, panic, ◌>>=◌, ◌>>◌,
  guard, at, or_panic,
}
use k_vm_common_go.Prelude.Int.{ℤ, pos}
use k_vm_common_go.Core.{Core}
use k_vm_common_go.Go.BigInt.{set_bytes, to_bytes, uint64}
use k_vm_common_go.BuiltIn.Errors.{
  BuiltInError, invalid_arguments, invalid_address_length, invalid_rcv_addr, not_enough_gas,
  wrong_type_assertion, nil_user_account,
}
use k_vm_common_go.BuiltIn.Epochs.{EnableEpochs}
use k_vm_common_go.BuiltIn.Host.{Host, DcToken, MetaData, Reply, answer, failure, lift}
use k_vm_common_go.BuiltIn.Calls.{
  ContractCallInput, VmOutput, output_with_gas, add_dct_entry_in_vm_output, account_or_error,
}
use k_vm_common_go.BuiltIn.Roles.{check_allowed_to_execute, nonce_key, save_latest_nonce}
use k_vm_common_go.BuiltIn.GlobalSettings.{token_key}
use k_vm_common_go.BuiltIn.KeyValue.{wrap}
use k_vm_common_go.BuiltIn.NftCalls.{
  max_len_for_add_nft_quantity, check_dct_nft_create_burn_add_input,
}
use k_vm_common_go.BuiltIn.TokenStorage.System.{save_dct_nft_token, add_to_liquidity_system_acc}

-- uint32(n)
unfoldable pub uint32 : ℕ → ℕ
uint32 n = n % 2 ^ 32

unfoldable pub royalties_of : Bytes → ℕ
unfolding uint32
royalties_of s = uint32 (uint64 (set_bytes s))

-- The bytes of all arguments; the sum is a uint64.
unfoldable pub total_length : List Bytes → ℕ
total_length [] = 0
total_length (arg ∷ args) = wrap (length arg + total_length args)

abbrev pub or_empty : Reply Bytes → Bytes
or_empty (answer s) = s
or_empty (failure e) = []

-- The error of the data trie is returned here.
abbrev pub nonce_of_reply : Reply Bytes → Outcome BuiltInError ℕ
nonce_of_reply (failure e) = lift (failure e)
nonce_of_reply (answer []) = ok 0
nonce_of_reply (answer (b ∷ s)) = ok (uint64 (set_bytes (b ∷ s)))

module _ (h : Host) where
  unfoldable pub get_account : h.World → Bytes → Outcome BuiltInError h.Account
  get_account w address = do
    loaded ← lift (h.load_account w address)
    account_or_error wrong_type_assertion loaded

  module _ (core : Core) where
    unfoldable pub get_latest_nonce : h.World → h.Account → Bytes → Outcome BuiltInError ℕ
    get_latest_nonce w acnt token_id =
        nonce_of_reply (h.retrieve_value w acnt (nonce_key core token_id))

    abbrev pub is_by_caller : ContractCallInput → Bool
    is_by_caller input = input.call_type == core.exec_on_dest_by_caller

    -- The account that has the role, and the URIs; a contract that is called by another names
    -- the account as the last argument.
    unfoldable pub creator_and_uris :
        h.World
        → Option h.Account
        → ContractCallInput
        → Outcome BuiltInError (Option h.Account × List Bytes)
    unfolding get_account
    creator_and_uris w acnt_snd input =
        if is_by_caller input
        then (do
          address ← at input.arguments (length input.arguments - 1)
          guard (length address == length input.caller_addr) invalid_address_length
          guard (not (bytes_equal address input.caller_addr)) invalid_rcv_addr
          account ← get_account w address
          ok (some account, take (length input.arguments - 1 - 6) (drop 6 input.arguments)))
        else ok (acnt_snd, drop 6 input.arguments)

    unfoldable pub new_nft : Bytes → ℕ → ℕ → List Bytes → List Bytes → Outcome BuiltInError DcToken
    new_nft creator nonce royalties uris arguments = do
      quantity ← at arguments 1
      name ← at arguments 2
      hash ← at arguments 4
      attributes ← at arguments 5
      ok (record {
        token_type = core.non_fungible;
        value = some (pos (set_bytes quantity));
        properties = [];
        token_meta_data = some (record {
          nonce = nonce;
          name = name;
          creator = creator;
          royalties = royalties;
          hash = hash;
          uris = uris;
          attributes = attributes;
        });
        reserved = [];
      })

    module _ (epochs : EnableEpochs) where
      -- The token and the new nonce are saved.
      unfoldable pub save_new_nft :
          h.World → h.Account → Bytes → ℕ → DcToken → ℤ → Bool → Bool → Outcome BuiltInError h.World
      save_new_nft w account token_id nonce token quantity back by_caller = do
        (_, w1) ←
            save_dct_nft_token h core epochs w (h.address_bytes account) account
              (token_key core token_id) nonce token true back
        w2 ← add_to_liquidity_system_acc h core epochs w1 (token_key core token_id) nonce quantity
        w3 ← save_latest_nonce h core w2 account token_id nonce
        if by_caller then lift (h.save_account w3 account) else ok w3

      module _ (func_gas_cost store_per_byte : ℕ) where
        abbrev pub gas_to_create : List Bytes → ℕ
        gas_to_create arguments = wrap (total_length arguments * store_per_byte + func_gas_cost)

        unfoldable pub process_nft_create :
            h.World
            → Option h.Account
            → Option ContractCallInput
            → Outcome BuiltInError (VmOutput × h.World)
        unfolding creator_and_uris new_nft save_new_nft
        process_nft_create w acnt_snd vm_input = do
          input ← check_dct_nft_create_burn_add_input core acnt_snd vm_input func_gas_cost
          guard (not (ltb (length input.arguments) (if is_by_caller input then 8 else 7)))
              invalid_arguments
          (account_with_roles, uris) ← creator_and_uris w acnt_snd input
          token_id ← at input.arguments 0
          check_allowed_to_execute h core w account_with_roles token_id core.dct_role_nft_create
          account ← account_or_error nil_user_account account_with_roles
          nonce ← get_latest_nonce w account token_id
          guard (not (ltb input.gas_provided (gas_to_create input.arguments))) not_enough_gas
          royalty_bytes ← at input.arguments 3
          guard (not (ltb core.max_royalty (royalties_of royalty_bytes))) invalid_arguments
          quantity_bytes ← at input.arguments 1
          let quantity = set_bytes quantity_bytes
          guard (ltb 0 quantity) invalid_arguments
          if ltb 1 quantity
              then check_allowed_to_execute h core w (some account) token_id
                  core.dct_role_nft_add_quantity
              else ok tt
          guard
              (not (
                epochs.is_value_length_check
                && ltb max_len_for_add_nft_quantity (length quantity_bytes)))
              invalid_arguments
          let next_nonce = wrap (nonce + 1)
          token ←
              new_nft input.caller_addr next_nonce (royalties_of royalty_bytes) uris input.arguments
          w' ←
              save_new_nft w account token_id next_nonce token (pos quantity)
                input.return_call_after_error (is_by_caller input)
          let out = record (output_with_gas (input.gas_provided - gas_to_create input.arguments)) {
            return_data = to_bytes next_nonce ∷ [];
          }
          ok (
            add_dct_entry_in_vm_output out core.dct_nft_create token_id next_nonce (pos quantity)
                (input.caller_addr ∷ or_empty (h.marshal_token token) ∷ []),
            w',
          )
