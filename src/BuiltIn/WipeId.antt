-- ===== src/BuiltIn/WipeId.antt =====
-- builtInFunctions/logsAndEvents.go: the identifier and the nonce of a token that is frozen or wiped,
-- from the argument that names it: the identifier and, directly behind it, the bytes of the nonce.
pub mod Nonce
use k_vm_common_go.Prelude.{ℕ, leb, if◌then◌else◌, List, [], ◌∷◌, ◌++◌, Bytes, length, take, drop}
use k_vm_common_go.Go.Text.{split}
use k_vm_common_go.Go.BigInt.{set_bytes, uint64}

-- dctIdentifierSeparator, dctRandomSequenceLength
abbrev pub dct_identifier_separator : ℕ
dct_identifier_separator = b'-'

abbrev pub dct_random_sequence_length : ℕ
dct_random_sequence_length = 6

-- What is made of the parts between separators; `args` is the whole argument.
unfoldable pub read_parts : Bytes → List Bytes → Bytes × ℕ
read_parts args [] = (args, 0)
read_parts args (first ∷ []) = (args, 0)
read_parts args (first ∷ second ∷ rest) =
    if leb (length second) dct_random_sequence_length then (args, 0) else (
      first ++ (dct_identifier_separator ∷ take dct_random_sequence_length second),
      uint64 (set_bytes (drop dct_random_sequence_length second)),
    )

unfoldable pub extract_token_identifier_and_nonce_dct_wipe : Bytes → Bytes × ℕ
unfolding read_parts
extract_token_identifier_and_nonce_dct_wipe args =
    read_parts args (split dct_identifier_separator args)
