-- ===== src/Go/Hex/RoundTrip.antt =====
-- `DecodeString` undoes `EncodeToString`, and the letters that an encoding holds.
use k_vm_common_go.Prelude.{
  ℕ, ◌/◌, ◌%◌, ◌<◌, ◌≡◌, ◌≢◌, refl, arith, some, [], ◌∷◌, Bytes, All, AreBytes,
}
use k_vm_common_go.Go.Hex.{hex_digit, encode_to_string, from_hex_char, decode_string}

from_hex_char-hex_digit : (n : ℕ) → n < 16 → from_hex_char (hex_digit n) ≡ some n
unfolding from_hex_char hex_digit
from_hex_char-hex_digit n h = ground arith

pub decode_string-encode_to_string :
    (s : Bytes) → AreBytes s → decode_string (encode_to_string s) ≡ some s
unfolding encode_to_string decode_string
decode_string-encode_to_string [] h = refl
decode_string-encode_to_string (b ∷ s) (hb, hs) = ground (
  arith,
  from_hex_char-hex_digit (b / 16),
  from_hex_char-hex_digit (b % 16),
  decode_string-encode_to_string s hs,
)

-- The separator of transaction data is not a hexadecimal digit.
hex_digit-ne-separator : (n : ℕ) → n < 16 → hex_digit n ≢ b'@'
unfolding hex_digit
hex_digit-ne-separator n h = ground arith

pub encode_to_string-Lacks : (s : Bytes) → AreBytes s → All (λ c. c ≢ b'@') (encode_to_string s)
unfolding encode_to_string
encode_to_string-Lacks [] h = tt
encode_to_string-Lacks (b ∷ s) (hb, hs) = (
  hex_digit-ne-separator (b / 16) (omega arith),
  (hex_digit-ne-separator (b % 16) (omega arith), encode_to_string-Lacks s hs),
)

pub encode_to_string-ne-nil : (s : Bytes) → s ≢ [] → encode_to_string s ≢ []
unfolding encode_to_string
encode_to_string-ne-nil [] h e = h refl
encode_to_string-ne-nil (b ∷ s) h e = cc
