-- ===== src/Parsers/Tokens/Encoded.antt =====
-- Transaction data as its writers build it: a text, then hexadecimal arguments behind separators.
use k_vm_common_go.Prelude.{
  ◌≡◌, ◌≢◌, refl, arith, List, [], ◌∷◌, ◌++◌, map, Bytes, All, AreBytes, ok, panic,
}
use k_vm_common_go.Go.Hex.{encode_to_string}
use k_vm_common_go.Go.Hex.RoundTrip.{decode_string-encode_to_string, encode_to_string-Lacks}
use k_vm_common_go.Go.Text.{split}
use k_vm_common_go.Go.Text.Split.{separated, Lacks, split-separated}
use k_vm_common_go.Parsers.Tokens.{
  at_separator, tokenize, check_tokens, decode_token, decode_tokens,
}

abbrev pub encoded : List Bytes → List Bytes
encoded = map encode_to_string

abbrev pub transaction_data : Bytes → List Bytes → Bytes
transaction_data first args = first ++ separated at_separator (encoded args)

pub decode_token-encode_to_string :
    (s : Bytes) → AreBytes s → decode_token (encode_to_string s) ≡ ok s
unfolding decode_token
decode_token-encode_to_string s h = rw (decode_string-encode_to_string s h)

encoded-Lacks : (args : List Bytes) → All AreBytes args → All (Lacks at_separator) (encoded args)
encoded-Lacks [] h = tt
encoded-Lacks (a ∷ args) (ha, h) = (encode_to_string-Lacks a ha, encoded-Lacks args h)

pub decode_tokens-encoded :
    (args : List Bytes) → All AreBytes args → decode_tokens (encoded args) ≡ ok args
unfolding decode_tokens
decode_tokens-encoded [] h = refl
decode_tokens-encoded (a ∷ args) (ha, h) =
    rw (decode_token-encode_to_string a ha, decode_tokens-encoded args h)

check_tokens_first :
    (first : Bytes) (tokens : List Bytes)
    → first ≢ []
    → check_tokens (first ∷ tokens) ≡ ok (first ∷ tokens)
unfolding check_tokens
check_tokens_first [] tokens h = absurd (h refl)
check_tokens_first (c ∷ first) tokens h = refl

pub tokenize-transaction_data :
    (first : Bytes) (args : List Bytes)
    → first ≢ []
    → Lacks at_separator first
    → All AreBytes args
    → tokenize (transaction_data first args) ≡ ok (first ∷ encoded args)
unfolding tokenize
tokenize-transaction_data first args ne lacks h =
    rw (split-separated at_separator first (encoded args) lacks (encoded-Lacks args h))
      (check_tokens_first first (encoded args) ne)

pub split-transaction_data :
    (first : Bytes) (args : List Bytes)
    → Lacks at_separator first
    → All AreBytes args
    → split at_separator (transaction_data first args) ≡ first ∷ encoded args
split-transaction_data first args lacks h =
    split-separated at_separator first (encoded args) lacks (encoded-Lacks args h)

pub decode_token-ne-panic : (token : Bytes) → decode_token token ≢ panic
unfolding decode_token
decode_token-ne-panic token = ground arith

pub decode_tokens-ne-panic : (tokens : List Bytes) → decode_tokens tokens ≢ panic
unfolding decode_tokens
decode_tokens-ne-panic [] e = cc
decode_tokens-ne-panic (token ∷ tokens) e =
    ground (arith, decode_token-ne-panic token, decode_tokens-ne-panic tokens)
