-- ===== src/Parsers/DeployArgs/RoundTrip.antt =====
-- What the parser of deploy data returns.
use k_vm_common_go.Prelude.{
  ◌≡◌, ◌≢◌, refl, arith, List, [], ◌∷◌, Bytes, All, AreBytes, ok, ap, ◌∙◌, panic, >>=-ne-panic,
  cons-ne-nil, some, inl, inr, Option-cases, >>=-eq-ok,
}
use k_vm_common_go.CodeMetadata
use k_vm_common_go.CodeMetadata.{CodeMetadata}
use k_vm_common_go.CodeMetadata.RoundTrip.{from_bytes-to_bytes}
use k_vm_common_go.Go.Hex.{encode_to_string, decode_string}
use k_vm_common_go.Parsers.Tokens.Spelling.{IsTokensOf, tokenize_sound, tokenize-ne-panic}
use k_vm_common_go.Go.Hex.RoundTrip.{
  decode_string-encode_to_string, encode_to_string-Lacks, encode_to_string-ne-nil,
}
use k_vm_common_go.Parsers.Tokens.{tokenize, decode_tokens}
use k_vm_common_go.Parsers.Tokens.Encoded.{
  transaction_data, tokenize-transaction_data, decode_tokens-encoded, decode_tokens-ne-panic,
}
use k_vm_common_go.Parsers.DeployArgs.{DeployArgs, parse_data, parse_tokens, require_not_empty}

-- The text that deploys code: the code itself is the first token.
abbrev pub deploy_data : Bytes → Bytes → Bytes → List Bytes → Bytes
deploy_data code vm_type metadata args =
    transaction_data (encode_to_string code) (vm_type ∷ metadata ∷ args)

require_encoded : (s : Bytes) → s ≢ [] → require_not_empty (encode_to_string s) ≡ ok tt
unfolding encode_to_string
require_encoded [] h = absurd (h refl)
require_encoded (b ∷ s) h = refl

-- Data built from code and a VM type that are not empty, metadata bytes and constructor arguments
-- is parsed into these, the metadata through `CodeMetadataFromBytes`.
pub parse_data-deploy_data :
    (code vm_type metadata : Bytes) (args : List Bytes)
    → code ≢ []
    → vm_type ≢ []
    → AreBytes code
    → All AreBytes (vm_type ∷ metadata ∷ args)
    → parse_data (deploy_data code vm_type metadata args)
      ≡ ok (record {
        code = code;
        vm_type = vm_type;
        code_metadata = CodeMetadata.from_bytes metadata;
        arguments = args;
      })
unfolding parse_data
parse_data-deploy_data code vm_type metadata args code_ne type_ne hc (hv, (hm, ha)) =
    rw
      (tokenize-transaction_data (encode_to_string code) (vm_type ∷ metadata ∷ args)
        (encode_to_string-ne-nil code code_ne) (encode_to_string-Lacks code hc) (hv, (hm, ha)))
      (ground (
        arith,
        decode_string-encode_to_string code hc,
        require_encoded vm_type type_ne,
        decode_string-encode_to_string vm_type hv,
        decode_string-encode_to_string metadata hm,
        decode_tokens-encoded args ha,
      ))

-- The metadata that `ToBytes` writes is read back.
pub parse_data-deploy_data_metadata :
    (code vm_type : Bytes) (m : CodeMetadata) (args : List Bytes)
    → code ≢ []
    → vm_type ≢ []
    → AreBytes code
    → All AreBytes (vm_type ∷ CodeMetadata.to_bytes m ∷ args)
    → parse_data (deploy_data code vm_type (CodeMetadata.to_bytes m) args)
      ≡ ok (record { code = code; vm_type = vm_type; code_metadata = m; arguments = args })
parse_data-deploy_data_metadata code vm_type m args code_ne type_ne hc h =
    parse_data-deploy_data code vm_type (CodeMetadata.to_bytes m) args code_ne type_ne hc h
    ∙ ap (λ n. ok (record { code = code; vm_type = vm_type; code_metadata = n; arguments = args }))
        (from_bytes-to_bytes m).0

-- Three tokens at least: the code, the VM type and the metadata.
pub data IsDeployOf : List Bytes → DeployArgs → Type 0 where
  deploys :
      (code vm_type metadata : Bytes) (args : List Bytes) (d : DeployArgs) (metadata_bytes : Bytes)
      → decode_string code ≡ some d.code
      → vm_type ≢ []
      → decode_string vm_type ≡ some d.vm_type
      → decode_string metadata ≡ some metadata_bytes
      → d.code_metadata ≡ CodeMetadata.from_bytes metadata_bytes
      → decode_tokens args ≡ ok d.arguments
      → IsDeployOf (code ∷ vm_type ∷ metadata ∷ args) d

parse_tokens-ne-panic : (tokens : List Bytes) → parse_tokens tokens ≢ panic
unfolding parse_tokens
parse_tokens-ne-panic [] e = cc
parse_tokens-ne-panic (t ∷ []) e = cc
parse_tokens-ne-panic (t ∷ u ∷ []) e = cc
parse_tokens-ne-panic (t ∷ [] ∷ v ∷ rest) e = ground arith
parse_tokens-ne-panic (t ∷ (c ∷ u) ∷ v ∷ rest) e = ground (arith, decode_tokens-ne-panic rest)

-- Deploy data of any form is parsed without a panic: the tokens are counted before they are indexed.
pub parse_data-ne-panic_for_deploy : (text : Bytes) → parse_data text ≢ panic
unfolding parse_data
parse_data-ne-panic_for_deploy text =
    >>=-ne-panic (tokenize text) parse_tokens (tokenize-ne-panic text)
      λ tokens _. parse_tokens-ne-panic tokens

parse_tokens_sound :
    (tokens : List Bytes) (d : DeployArgs) → parse_tokens tokens ≡ ok d → IsDeployOf tokens d
unfolding parse_tokens
parse_tokens_sound [] d h = cc
parse_tokens_sound (t ∷ []) d h = cc
parse_tokens_sound (t ∷ u ∷ []) d h = cc
parse_tokens_sound (t ∷ [] ∷ v ∷ rest) d h = absurd (ground arith)
parse_tokens_sound (t ∷ (c ∷ u) ∷ v ∷ rest) d h = elim (Option-cases (decode_string v)) [
  | inl e ↦ absurd (ground arith)
  | inr (m, e) ↦
      deploys t (c ∷ u) v rest d m (ground arith) (cons-ne-nil c u) (ground arith) e (ground arith)
        (ground arith)
]

-- A text that is parsed as a deployment is three tokens or more, which decode to the code, the VM
-- type, which is not empty, the metadata and the arguments, as `IsDeployOf` says.
pub parse_data_sound_for_deploy :
    (text : Bytes) (d : DeployArgs)
    → parse_data text ≡ ok d
    → (tokens : List Bytes) × IsTokensOf text tokens × IsDeployOf tokens d
unfolding parse_data
parse_data_sound_for_deploy text d h =
    let (tokens, t, k) = >>=-eq-ok (tokenize text) parse_tokens h in
    (tokens, tokenize_sound text tokens t, parse_tokens_sound tokens d k)
