-- ===== src/BuiltIn/Metadata.antt =====
-- builtInFunctions/dctMetaData.go: the flags of a token, for all accounts and for one account.
pub mod RoundTrip
use Prim.Native.Nat.{bit_and, bit_or}
use k_vm_common_go.Prelude.{ℕ, Bool, true, false, not, ◌==◌, if◌then◌else◌, List, [], ◌∷◌, Bytes}

abbrev pub length_of_dct_metadata : ℕ
length_of_dct_metadata = 2

abbrev pub metadata_paused : ℕ
metadata_paused = 1

abbrev pub metadata_limited_transfer : ℕ
metadata_limited_transfer = 2

abbrev pub metadata_burn_role_for_all : ℕ
metadata_burn_role_for_all = 4

abbrev pub metadata_frozen : ℕ
metadata_frozen = 1

pub record DctGlobalMetadata : Type 0 where
  pub paused : Bool
  pub limited_transfer : Bool
  pub burn_role_for_all : Bool

pub record DctUserMetadata : Type 0 where
  pub frozen : Bool

abbrev pub has_flag : ℕ → ℕ → Bool
has_flag b mask = not (bit_and b mask == 0)

abbrev pub set_flag : Bool → ℕ → ℕ → ℕ
set_flag flag mask b = if flag then bit_or b mask else b

-- The test on the length is the pattern.
unfoldable pub global_from_bytes : Bytes → DctGlobalMetadata
global_from_bytes (b ∷ c ∷ []) = record {
  paused = has_flag b metadata_paused;
  limited_transfer = has_flag b metadata_limited_transfer;
  burn_role_for_all = has_flag b metadata_burn_role_for_all;
}
global_from_bytes _ = record { paused = false; limited_transfer = false; burn_role_for_all = false }

unfoldable pub global_to_bytes : DctGlobalMetadata → Bytes
global_to_bytes m =
    set_flag m.burn_role_for_all metadata_burn_role_for_all
      (set_flag m.limited_transfer metadata_limited_transfer (set_flag m.paused metadata_paused 0))
    ∷ 0
    ∷ []

unfoldable pub user_from_bytes : Bytes → DctUserMetadata
user_from_bytes (b ∷ c ∷ []) = record { frozen = has_flag b metadata_frozen }
user_from_bytes _ = record { frozen = false }

unfoldable pub user_to_bytes : DctUserMetadata → Bytes
user_to_bytes m = set_flag m.frozen metadata_frozen 0 ∷ 0 ∷ []
