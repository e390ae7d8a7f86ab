-- ===== src/VmTypes.antt =====
-- input.go, output.go and gasCost.go: the types that the components share. A field of type
-- `*big.Int` that the source never leaves nil is an integer; `Data` is `payload`.
use k_vm_common_go.Prelude.{ℕ, ◌-◌, ltb, if◌then◌else◌, List, Bytes, Outcome, ok, err}
use k_vm_common_go.Prelude.Int.{ℤ}

pub record DctTransfer : Type 0 where
  pub dct_value : ℤ
  pub dct_token_name : Bytes
  pub dct_token_type : ℕ
  pub dct_token_nonce : ℕ

pub record ParsedDctTransfers : Type 0 where
  pub dct_transfers : List DctTransfer
  pub rcv_addr : Bytes
  pub call_function : Bytes
  pub call_args : List Bytes

-- vmcommon.MaxLengthForValueToOptTransfer
abbrev pub max_length_for_value_to_opt_transfer : ℕ
max_length_for_value_to_opt_transfer = 32

-- The one error of `SafeSubUint64`.
pub data SubError : Type 0 where
  subtraction_overflow : SubError

unfoldable pub safe_sub_uint64 : ℕ → ℕ → Outcome SubError ℕ
safe_sub_uint64 a b = if ltb a b then err subtraction_overflow else ok (a - b)
