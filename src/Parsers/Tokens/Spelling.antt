-- ===== src/Parsers/Tokens/Spelling.antt =====
-- What the success of a step says of the text that it read.
use k_vm_common_go.Prelude.{
  ◌≡◌, ◌≢◌, refl, arith, List, [], ◌∷◌, ◌++◌, Bytes, All, ok, panic, cons-ne-nil,
}
use k_vm_common_go.Go.Text.{split}
use k_vm_common_go.Go.Text.Split.{Lacks, separated, split_sound}
use k_vm_common_go.Parsers.Tokens.{at_separator, tokenize, check_tokens}

-- The tokens are a first one, which is not empty, and others, each behind a separator in the text.
pub record IsTokensOf (text : Bytes) (tokens : List Bytes) : Type 0 where
  pub first : Bytes
  pub others : List Bytes
  pub shape : tokens ≡ first ∷ others
  pub first_ne_nil : first ≢ []
  pub first_lacks : Lacks at_separator first
  pub others_lack : All (Lacks at_separator) others
  pub spelled : text ≡ first ++ separated at_separator others

check_tokens_sound :
    (text : Bytes) (parts tokens : List Bytes)
    → split at_separator text ≡ parts
    → check_tokens parts ≡ ok tokens
    → IsTokensOf text tokens
unfolding check_tokens
check_tokens_sound text [] tokens s h = cc
check_tokens_sound text ([] ∷ parts) tokens s h = cc
check_tokens_sound text ((c ∷ part) ∷ parts) tokens s h =
    let (spelled, lacks, all) = split_sound at_separator text (c ∷ part) parts s in
    record {
      first = c ∷ part;
      others = parts;
      shape = ground arith;
      first_ne_nil = cons-ne-nil c part;
      first_lacks = lacks;
      others_lack = all;
      spelled = spelled;
    }

pub tokenize_sound :
    (text : Bytes) (tokens : List Bytes) → tokenize text ≡ ok tokens → IsTokensOf text tokens
unfolding tokenize
tokenize_sound text tokens h = check_tokens_sound text (split at_separator text) tokens refl h

check_tokens-ne-panic : (parts : List Bytes) → check_tokens parts ≢ panic
unfolding check_tokens
check_tokens-ne-panic [] e = cc
check_tokens-ne-panic ([] ∷ parts) e = cc
check_tokens-ne-panic ((c ∷ part) ∷ parts) e = cc

pub tokenize-ne-panic : (text : Bytes) → tokenize text ≢ panic
unfolding tokenize
tokenize-ne-panic text = check_tokens-ne-panic (split at_separator text)
