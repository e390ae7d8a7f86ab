-- ===== src/Go/BigInt.antt =====
-- Package math/big of Go's standard library, as the source uses it. `SetBytes` reads a big-endian
-- number, `Bytes` prints the absolute value with no leading zero, and `Uint64` keeps the low 64 bits.
pub mod RoundTrip
use k_vm_common_go.Prelude.{
  ℕ, zero, suc, ◌+◌, ◌*◌, ◌/◌, ◌%◌, ◌^◌, true, false, ltb, ◌==◌, Bool, [], ◌∷◌, ◌++◌, Bytes,
}

abbrev pub word : ℕ
word = 2 ^ 64

unfoldable pub read_from : ℕ → Bytes → ℕ
read_from n [] = n
read_from n (b ∷ s) = read_from (n * 256 + b) s

-- big.NewInt(0).SetBytes(s)
unfoldable pub set_bytes : Bytes → ℕ
unfolding read_from
set_bytes s = read_from 0 s

-- The digits of `n` in front of `out`. A round divides `n` by 256, so `n` rounds are enough.
unfoldable pub print_onto : ℕ → ℕ → Bytes → Bytes
print_onto zero n out = out
print_onto (suc fuel) n out = elim (n == 0) [
  | true ↦ out
  | false ↦ print_onto fuel (n / 256) ((n % 256) ∷ out)
]

-- value.Bytes(), for a value that is not negative
unfoldable pub to_bytes : ℕ → Bytes
unfolding print_onto
to_bytes n = print_onto n n []

unfoldable pub uint64 : ℕ → ℕ
uint64 n = n % word

unfoldable pub is_uint64 : ℕ → Bool
is_uint64 n = ltb n word
