-- ===== src/BuiltIn/Metadata/RoundTrip.antt =====
-- What is written is read back, and what reading and writing keeps of any two bytes.
use Prim.Native.Nat.{bit_and}
use k_vm_common_go.Prelude.{ℕ, ◌<◌, ◌≡◌, refl, ap, Bool, true, false, [], ◌∷◌}
use k_vm_common_go.Prelude.Bits.{agree_below, agree_below→eq}
use k_vm_common_go.BuiltIn.Metadata.{
  DctGlobalMetadata, DctUserMetadata, global_from_bytes, global_to_bytes, user_from_bytes,
  user_to_bytes, has_flag, set_flag,
}

abbrev written : Bool → Bool → Bool → ℕ
written p l b = set_flag b 4 (set_flag l 2 (set_flag p 1 0))

flags_of_written :
    (p l b : Bool)
    → (has_flag (written p l b) 1 ≡ p)
      × (has_flag (written p l b) 2 ≡ l)
      × (has_flag (written p l b) 4 ≡ b)
flags_of_written true true true = (refl, refl, refl)
flags_of_written true true false = (refl, refl, refl)
flags_of_written true false true = (refl, refl, refl)
flags_of_written true false false = (refl, refl, refl)
flags_of_written false true true = (refl, refl, refl)
flags_of_written false true false = (refl, refl, refl)
flags_of_written false false true = (refl, refl, refl)
flags_of_written false false false = (refl, refl, refl)

pub global_round_trip : (m : DctGlobalMetadata) → global_from_bytes (global_to_bytes m) ≡ m
unfolding global_from_bytes global_to_bytes
global_round_trip m =
    let (p, l, b) = flags_of_written m.paused m.limited_transfer m.burn_role_for_all in
    λ i. record { paused = p i; limited_transfer = l i; burn_role_for_all = b i }

frozen_of_written : (f : Bool) → has_flag (set_flag f 1 0) 1 ≡ f
frozen_of_written true = refl
frozen_of_written false = refl

pub user_round_trip : (m : DctUserMetadata) → user_from_bytes (user_to_bytes m) ≡ m
unfolding user_from_bytes user_to_bytes
user_round_trip m = λ i. record { frozen = frozen_of_written m.frozen i }

global_byte : ℕ → ℕ
global_byte b = written (has_flag b 1) (has_flag b 2) (has_flag b 4)

global_byte-mask : (b : ℕ) → b < 256 → global_byte b ≡ bit_and b 7
unfolding agree_below global_byte
global_byte-mask = agree_below→eq global_byte (λ b. bit_and b 7) 256 refl

user_byte : ℕ → ℕ
user_byte b = set_flag (has_flag b 1) 1 0

user_byte-mask : (b : ℕ) → b < 256 → user_byte b ≡ bit_and b 1
unfolding agree_below user_byte
user_byte-mask = agree_below→eq user_byte (λ b. bit_and b 1) 256 refl

-- The global flags and the flag of an account are read back from their bytes; and from any two
-- bytes, writing what was read keeps the low three bits, or the low bit, of the first and clears
-- all else.
pub metadata_round_trip :
    (m : DctGlobalMetadata) (u : DctUserMetadata) (b c : ℕ)
    → b < 256
    → (global_from_bytes (global_to_bytes m) ≡ m)
      × (user_from_bytes (user_to_bytes u) ≡ u)
      × (global_to_bytes (global_from_bytes (b ∷ c ∷ [])) ≡ bit_and b 7 ∷ 0 ∷ [])
      × (user_to_bytes (user_from_bytes (b ∷ c ∷ [])) ≡ bit_and b 1 ∷ 0 ∷ [])
unfolding global_from_bytes global_to_bytes user_from_bytes user_to_bytes global_byte user_byte
metadata_round_trip m u b c h = (
  global_round_trip m,
  user_round_trip u,
  ap (λ x. x ∷ 0 ∷ []) (global_byte-mask b h),
  ap (λ x. x ∷ 0 ∷ []) (user_byte-mask b h),
)
