-- ===== src/CodeMetadata.antt =====
-- codeMetadata.go: the flags of a smart contract's code, and their two-byte form.
pub mod RoundTrip
use Prim.Native.Nat.{bit_and, bit_or}
use k_vm_common_go.Prelude.{ℕ, Bool, true, false, not, ◌==◌, if◌then◌else◌, List, [], ◌∷◌, Bytes}

abbrev pub length_of_code_metadata : ℕ
length_of_code_metadata = 2

-- Bits of the first byte.
abbrev pub metadata_upgradeable : ℕ
metadata_upgradeable = 1

abbrev pub metadata_readable : ℕ
metadata_readable = 4

-- Bits of the second byte.
abbrev pub metadata_payable : ℕ
metadata_payable = 2

abbrev pub metadata_payable_by_sc : ℕ
metadata_payable_by_sc = 4

pub record CodeMetadata : Type 0 where
  pub payable : Bool
  pub payable_by_sc : Bool
  pub upgradeable : Bool
  pub readable : Bool

abbrev pub no_metadata : CodeMetadata
no_metadata = record {
  payable = false;
  payable_by_sc = false;
  upgradeable = false;
  readable = false;
}

abbrev pub has_bit : ℕ → ℕ → Bool
has_bit b mask = not (bit_and b mask == 0)

-- The test on the length is the pattern: any list but one of two bytes gives no flag.
unfoldable pub from_bytes : Bytes → CodeMetadata
from_bytes (b ∷ c ∷ []) = record {
  payable = has_bit c metadata_payable;
  payable_by_sc = has_bit c metadata_payable_by_sc;
  upgradeable = has_bit b metadata_upgradeable;
  readable = has_bit b metadata_readable;
}
from_bytes _ = no_metadata

-- bytes[i] |= mask, if the flag is set
abbrev pub set_bit : Bool → ℕ → ℕ → ℕ
set_bit flag mask b = if flag then bit_or b mask else b

unfoldable pub to_bytes : CodeMetadata → Bytes
to_bytes m =
    set_bit m.readable metadata_readable (set_bit m.upgradeable metadata_upgradeable 0)
    ∷ set_bit m.payable_by_sc metadata_payable_by_sc (set_bit m.payable metadata_payable 0)
    ∷ []
