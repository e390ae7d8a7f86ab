-- ===== src/Address.antt =====
-- address.go: which addresses are those of smart contracts, of the system account and of the
-- metachain, and which keys an account may save under.
pub mod Kinds
use k_vm_common_go.Prelude.{
  ℕ, ◌+◌, ◌-◌, ltb, leb, ◌==◌, if◌then◌else◌, Bool, true, false, not, ◌&&◌, List, [], ◌∷◌, Bytes,
  length, take, drop, replicate, bytes_equal,
}
use k_vm_common_go.Core.{Core}

abbrev pub num_init_characters_for_sc_address : ℕ
num_init_characters_for_sc_address = 10

abbrev pub vm_type_len : ℕ
vm_type_len = 2

abbrev pub meta_chain_shard_identifier : ℕ
meta_chain_shard_identifier = 255

abbrev pub num_init_characters_for_on_metachain_sc : ℕ
num_init_characters_for_on_metachain_sc = 15

abbrev pub num_init_characters_for_system_account_address : ℕ
num_init_characters_for_system_account_address = 30

-- bytes.Repeat([]byte{255}, 32)
abbrev pub system_account_address : Bytes
system_account_address = replicate 32 255

unfoldable pub is_system_account_address : Bytes → Bool
is_system_account_address address =
    if ltb (length address) num_init_characters_for_system_account_address
    then false
    else bytes_equal (take num_init_characters_for_system_account_address address)
        (take num_init_characters_for_system_account_address system_account_address)

unfoldable pub is_empty_address : Bytes → Bool
is_empty_address address = bytes_equal address (replicate (length address) 0)

unfoldable pub is_smart_contract_address : Bytes → Bool
is_smart_contract_address rcv_address =
    if leb (length rcv_address) num_init_characters_for_sc_address
    then false
    else if is_empty_address rcv_address
    then true
    else let num_of_zeros = num_init_characters_for_sc_address - vm_type_len in
      bytes_equal (take num_of_zeros rcv_address) (replicate num_of_zeros 0)

-- The loop of `IsMetachainIdentifier`.
unfoldable pub all_metachain : Bytes → Bool
all_metachain [] = true
all_metachain (b ∷ identifier) =
    if not (b == meta_chain_shard_identifier) then false else all_metachain identifier

unfoldable pub is_metachain_identifier : Bytes → Bool
unfolding all_metachain
is_metachain_identifier identifier =
    if length identifier == 0 then false else all_metachain identifier

unfoldable pub is_smart_contract_on_metachain : Bytes → Bytes → Bool
is_smart_contract_on_metachain identifier rcv_address =
    if leb (length rcv_address)
      (num_init_characters_for_sc_address + num_init_characters_for_on_metachain_sc)
    then false
    else if not (is_metachain_identifier identifier)
    then false
    else if not (is_smart_contract_address rcv_address)
    then false
    else bytes_equal
        (take num_init_characters_for_on_metachain_sc
          (drop num_init_characters_for_sc_address rcv_address))
        (replicate num_init_characters_for_on_metachain_sc 0)

unfoldable pub is_allowed_to_save_under_key : Core → Bytes → Bool
is_allowed_to_save_under_key core key =
    let prefix_len = length core.protected_key_prefix in
    if ltb (length key) prefix_len
    then true
    else not (bytes_equal (take prefix_len key) core.protected_key_prefix)
