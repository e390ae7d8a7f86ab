-- ===== src/Parsers/CallArgs/RoundTrip.antt =====
-- What the two parsers of call data return.
use k_vm_common_go.Prelude.{
  ◌≡◌, ◌≢◌, ap, ◌∙◌, arith, List, [], ◌∷◌, ◌++◌, at, Bytes, All, AreBytes, Outcome, ok, panic,
  ◌>>=◌, >>=-eq-ok, >>=-ne-panic, at-ne-panic, length_pos,
}
use k_vm_common_go.Go.Text.{split}
use k_vm_common_go.Go.Text.Split.{Lacks, separated, split-ne-nil}
use k_vm_common_go.Parsers.Tokens.{at_separator, tokenize, decode_tokens}
use k_vm_common_go.Parsers.Tokens.Encoded.{
  transaction_data, tokenize-transaction_data, split-transaction_data, decode_tokens-encoded,
  decode_tokens-ne-panic,
}
use k_vm_common_go.Parsers.Errors.{ParseError}
use k_vm_common_go.Parsers.Tokens.Spelling.{tokenize_sound, tokenize-ne-panic}
use k_vm_common_go.Parsers.CallArgs.{
  parse_function, parse_arguments_of, parse_data, parse_arguments,
}

parse_function_lem :
    (function : Bytes) (tokens : List Bytes) → parse_function (function ∷ tokens) ≡ ok function
unfolding parse_function
parse_function_lem function tokens = ground arith

-- A function name that is not empty and has no separator, followed by the hexadecimal form of any
-- byte strings, is parsed into that name and those byte strings.
pub parse_data-transaction_data :
    (function : Bytes) (args : List Bytes)
    → function ≢ []
    → Lacks at_separator function
    → All AreBytes args
    → parse_data (transaction_data function args) ≡ ok (function, args)
unfolding parse_data
parse_data-transaction_data function args ne lacks h = rw (
  tokenize-transaction_data function args ne lacks h,
  parse_function_lem,
  decode_tokens-encoded args h,
)

-- `ParseArguments` reads the same data, with a first part that may be empty, as one list.
pub parse_arguments-transaction_data :
    (first : Bytes) (args : List Bytes)
    → Lacks at_separator first
    → All AreBytes args
    → parse_arguments (transaction_data first args) ≡ ok (first ∷ args)
unfolding parse_arguments
parse_arguments-transaction_data first args lacks h =
    rw (split-transaction_data first args lacks h, decode_tokens-encoded args h)

-- What a successful parse says of the text: it is the function name, not empty and free of
-- separators, and then tokens behind separators that decode to the arguments.
pub record IsCallOf (text function : Bytes) (args : List Bytes) : Type 0 where
  pub tokens : List Bytes
  pub named : function ≢ []
  pub name_lacks : Lacks at_separator function
  pub spelled : text ≡ function ++ separated at_separator tokens
  pub decoded : decode_tokens tokens ≡ ok args

abbrev pair : Bytes → List Bytes → Outcome ParseError (Bytes × List Bytes)
pair function args = ok (function, args)

after_tokenize :
    (first function : Bytes) (others args : List Bytes)
    → (do
      name ← parse_function (first ∷ others)
      arguments ← parse_arguments_of (first ∷ others)
      pair name arguments)
      ≡ ok (function, args)
    → (first ≡ function) × (decode_tokens others ≡ ok args)
unfolding parse_function parse_arguments_of
after_tokenize first function others args h = ground arith

-- A text that is parsed as a call is the function name, not empty and without a separator, and then
-- tokens behind separators that decode to the arguments.
pub parse_data_sound :
    (text function : Bytes) (args : List Bytes)
    → parse_data text ≡ ok (function, args)
    → IsCallOf text function args
unfolding parse_data
parse_data_sound text function args h =
    let (tokens, t, k) = >>=-eq-ok (tokenize text) _ h in
    let s = tokenize_sound text tokens t in
    let (e, decoded) = after_tokenize s.first function s.others args (rw s.shape at k) in
    record {
      tokens = s.others;
      named = rw (← e) s.first_ne_nil;
      name_lacks = rw (← e) s.first_lacks;
      spelled = s.spelled ∙ ap (λ f. f ++ separated at_separator s.others) e;
      decoded = decoded;
    }

parse_function-ne-panic : (tokens : List Bytes) → parse_function tokens ≢ panic
unfolding parse_function
parse_function-ne-panic [] e = cc
parse_function-ne-panic (t ∷ tokens) e = ground arith

parse_arguments_of-ne-panic : (tokens : List Bytes) → parse_arguments_of tokens ≢ panic
unfolding parse_arguments_of
parse_arguments_of-ne-panic tokens = decode_tokens-ne-panic _

parse_call-ne-panic : (text : Bytes) → parse_data text ≢ panic
unfolding parse_data
parse_call-ne-panic text = >>=-ne-panic (tokenize text) _ (tokenize-ne-panic text) λ tokens _.
    >>=-ne-panic (parse_function tokens) _ (parse_function-ne-panic tokens) λ function _.
      >>=-ne-panic (parse_arguments_of tokens) _ (parse_arguments_of-ne-panic tokens) λ args _ e. cc

parse_list-ne-panic : (text : Bytes) → parse_arguments text ≢ panic
unfolding parse_arguments
parse_list-ne-panic text =
    >>=-ne-panic (at (split at_separator text) 0) _
      (at-ne-panic (split at_separator text) 0
        (length_pos (split at_separator text) (split-ne-nil at_separator text)))
      λ first _.
        >>=-ne-panic (parse_arguments_of (split at_separator text)) _
          (parse_arguments_of-ne-panic (split at_separator text)) λ args _ e. cc

-- Neither parser panics, on any input.
pub parse_data-ne-panic :
    (text : Bytes) → (parse_data text ≢ panic) × (parse_arguments text ≢ panic)
parse_data-ne-panic text = (parse_call-ne-panic text, parse_list-ne-panic text)
