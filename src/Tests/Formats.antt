-- ===== src/Tests/Formats.antt =====
-- Addresses, token identifiers and metadata at sample byte strings.
use Prim.Native.Nat.{bit_and}
use k_vm_common_go.Prelude.{
  refl, ◌<◌, ◌≡◌, ◌↔◌, arith, true, false, [], ◌∷◌, ◌++◌, Bytes, ascii, length, replicate,
}
use k_vm_common_go.Address.{is_smart_contract_address}
use k_vm_common_go.Address.Kinds.{zeros, is_smart_contract_address_iff}
use k_vm_common_go.TokenId.{validate_token}
use k_vm_common_go.TokenId.Format.{IsTokenId, validate_token_iff}
use k_vm_common_go.CodeMetadata
use k_vm_common_go.CodeMetadata.{CodeMetadata, length_of_code_metadata}
use k_vm_common_go.CodeMetadata.RoundTrip.{from_bytes-to_bytes}
use k_vm_common_go.BuiltIn.Metadata.{
  DctGlobalMetadata, DctUserMetadata, global_from_bytes, global_to_bytes, user_from_bytes,
  user_to_bytes,
}
use k_vm_common_go.BuiltIn.Metadata.RoundTrip.{metadata_round_trip}
use k_vm_common_go.Go.BigInt.{set_bytes, to_bytes, uint64, print_onto}
use k_vm_common_go.BuiltIn.WipeId.{extract_token_identifier_and_nonce_dct_wipe}
use k_vm_common_go.BuiltIn.WipeId.Nonce.{
  identifier_of, argument_of, extract-argument, extract-dash_in_nonce,
}
use k_vm_common_go.Go.Text.Split.{Lacks}
use k_vm_common_go.Tests.Sample.{all_other-Lacks}

abbrev contract : Bytes
contract = replicate 25 0 ++ replicate 7 255

is_smart_contract_address_iff_example :
    (is_smart_contract_address contract ≡ true)
    ↔ ((10 < length contract) × (rest : Bytes) × (contract ≡ zeros ++ rest))
is_smart_contract_address_iff_example = is_smart_contract_address_iff contract

validate_token_iff_example :
    (validate_token (ascii "TOKEN-a1b2c3") ≡ true) ↔ IsTokenId (ascii "TOKEN-a1b2c3")
validate_token_iff_example = validate_token_iff (ascii "TOKEN-a1b2c3")

abbrev flags : CodeMetadata
flags = record { payable = true; payable_by_sc = false; upgradeable = true; readable = true }

from_bytes-to_bytes_example :
    (CodeMetadata.from_bytes (CodeMetadata.to_bytes flags) ≡ flags)
    × (length (CodeMetadata.to_bytes flags) ≡ length_of_code_metadata)
from_bytes-to_bytes_example = from_bytes-to_bytes flags

abbrev paused : DctGlobalMetadata
paused = record { paused = true; limited_transfer = false; burn_role_for_all = true }

abbrev frozen : DctUserMetadata
frozen = record { frozen = true }

metadata_round_trip_example :
    (global_from_bytes (global_to_bytes paused) ≡ paused)
    × (user_from_bytes (user_to_bytes frozen) ≡ frozen)
    × (global_to_bytes (global_from_bytes (255 ∷ 9 ∷ [])) ≡ bit_and 255 7 ∷ 0 ∷ [])
    × (user_to_bytes (user_from_bytes (255 ∷ 9 ∷ [])) ≡ bit_and 255 1 ∷ 0 ∷ [])
metadata_round_trip_example = metadata_round_trip paused frozen 255 9 (omega arith)

no_dash : Lacks b'-' (to_bytes 300)
unfolding to_bytes print_onto
no_dash = all_other-Lacks b'-' (to_bytes 300) refl

extract-argument_example :
    extract_token_identifier_and_nonce_dct_wipe
      (argument_of (ascii "CARD") (ascii "a1b2c3") (to_bytes 300))
    ≡ (identifier_of (ascii "CARD") (ascii "a1b2c3"), 300)
extract-argument_example =
    extract-argument (ascii "CARD") (ascii "a1b2c3") (all_other-Lacks b'-' (ascii "CARD") refl)
      (all_other-Lacks b'-' (ascii "a1b2c3") refl) refl 300 (omega arith) (omega arith) no_dash

extract-dash_in_nonce_example :
    (extract_token_identifier_and_nonce_dct_wipe
        (argument_of (ascii "CARD") (ascii "a1b2c3") (b'-' ∷ []))
      ≡ (argument_of (ascii "CARD") (ascii "a1b2c3") (b'-' ∷ []), 0))
    × (extract_token_identifier_and_nonce_dct_wipe
          (argument_of (ascii "CARD") (ascii "a1b2c3") ((1 ∷ []) ++ (b'-' ∷ [])))
        ≡ (identifier_of (ascii "CARD") (ascii "a1b2c3"), uint64 (set_bytes (1 ∷ []))))
extract-dash_in_nonce_example =
    extract-dash_in_nonce (ascii "CARD") (ascii "a1b2c3") (all_other-Lacks b'-' (ascii "CARD") refl)
      (all_other-Lacks b'-' (ascii "a1b2c3") refl) refl 1 [] [] (all_other-Lacks b'-' (1 ∷ []) refl)
