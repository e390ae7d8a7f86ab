-- ===== src/CodeMetadata/RoundTrip.antt =====
-- The two directions of the conversion.
use Prim.Native.Nat.{bit_and}
use k_vm_common_go.Prelude.{ℕ, ◌<◌, ◌≡◌, ◌≢◌, refl, Bool, true, false, [], ◌∷◌, Bytes, length, ap₂}
use k_vm_common_go.Prelude.Bits.{agree_below, agree_below→eq}
use k_vm_common_go.CodeMetadata.{
  CodeMetadata, from_bytes, to_bytes, no_metadata, has_bit, set_bit, length_of_code_metadata,
}

first_flags :
    (u r : Bool)
    → (has_bit (set_bit r 4 (set_bit u 1 0)) 1 ≡ u) × (has_bit (set_bit r 4 (set_bit u 1 0)) 4 ≡ r)
first_flags true true = (refl, refl)
first_flags true false = (refl, refl)
first_flags false true = (refl, refl)
first_flags false false = (refl, refl)

second_flags :
    (p s : Bool)
    → (has_bit (set_bit s 4 (set_bit p 2 0)) 2 ≡ p) × (has_bit (set_bit s 4 (set_bit p 2 0)) 4 ≡ s)
second_flags true true = (refl, refl)
second_flags true false = (refl, refl)
second_flags false true = (refl, refl)
second_flags false false = (refl, refl)

-- The bytes of a metadata value are two, and reading them gives the value back.
pub from_bytes-to_bytes :
    (m : CodeMetadata)
    → (from_bytes (to_bytes m) ≡ m) × (length (to_bytes m) ≡ length_of_code_metadata)
unfolding from_bytes to_bytes
from_bytes-to_bytes m =
    let (u, r) = first_flags m.upgradeable m.readable in
    let (p, s) = second_flags m.payable m.payable_by_sc in
    (λ i. record { payable = p i; payable_by_sc = s i; upgradeable = u i; readable = r i }, refl)

first_byte : ℕ → ℕ
first_byte b = set_bit (has_bit b 4) 4 (set_bit (has_bit b 1) 1 0)

second_byte : ℕ → ℕ
second_byte c = set_bit (has_bit c 4) 4 (set_bit (has_bit c 2) 2 0)

first_byte-mask : (b : ℕ) → b < 256 → first_byte b ≡ bit_and b 5
unfolding agree_below first_byte
first_byte-mask = agree_below→eq first_byte (λ b. bit_and b 5) 256 refl

second_byte-mask : (c : ℕ) → c < 256 → second_byte c ≡ bit_and c 6
unfolding agree_below second_byte
second_byte-mask = agree_below→eq second_byte (λ c. bit_and c 6) 256 refl

-- Writing what was read from two bytes keeps the four known bits of them and clears all others.
pub to_bytes-from_bytes :
    (b c : ℕ)
    → b < 256
    → c < 256
    → to_bytes (from_bytes (b ∷ c ∷ [])) ≡ bit_and b 5 ∷ bit_and c 6 ∷ []
unfolding from_bytes to_bytes first_byte second_byte
to_bytes-from_bytes b c hb hc =
    ap₂ (λ x y. x ∷ y ∷ []) (first_byte-mask b hb) (second_byte-mask c hc)

-- A list of any other length is read as no flag at all.
pub from_bytes_of_length :
    (s : Bytes) → length s ≢ length_of_code_metadata → from_bytes s ≡ no_metadata
unfolding from_bytes
from_bytes_of_length [] h = refl
from_bytes_of_length (b ∷ []) h = refl
from_bytes_of_length (b ∷ c ∷ []) h = absurd (h refl)
from_bytes_of_length (b ∷ c ∷ d ∷ s) h = refl
