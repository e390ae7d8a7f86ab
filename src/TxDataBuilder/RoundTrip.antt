-- ===== src/TxDataBuilder/RoundTrip.antt =====
-- What is built is parsed by the call parser, and by the parser of transfers.
use k_vm_common_go.Prelude.{
  ◌≡◌, ◌≢◌, sym, ap, ◌∙◌, List, [], ◌∷◌, ◌++◌, append_assoc, append-nil, map, Bytes, All, AreBytes,
  ok, ascii,
}
use k_vm_common_go.Go.Hex.{encode_to_string}
use k_vm_common_go.Go.Text.Split.{Lacks}
use k_vm_common_go.Parsers.CallArgs.{parse_data}
use k_vm_common_go.Parsers.CallArgs.RoundTrip.{parse_data-transaction_data}
use k_vm_common_go.TxDataBuilder.{TxDataBuilder, new_builder, to_string, func, bytes}
use k_vm_common_go.TxDataBuilder.Elements.{to_string-separated}

-- The elements that `Bytes` appends one by one.
unfoldable pub add_all : TxDataBuilder → List Bytes → TxDataBuilder
unfolding bytes
add_all b [] = b
add_all b (a ∷ args) = add_all (bytes b a) args

add_all-elements :
    (f : Bytes) (es : List Bytes) (sep : Bytes) (args : List Bytes)
    → add_all (record { function = f; elements = es; separator = sep }) args
      ≡ record { function = f; elements = es ++ map encode_to_string args; separator = sep }
unfolding add_all
add_all-elements f es sep [] =
    ap (λ l. let c : TxDataBuilder = record { function = f; elements = l; separator = sep } in c)
      (sym (append-nil es))
add_all-elements f es sep (a ∷ args) =
    add_all-elements f (es ++ (encode_to_string a ∷ [])) sep args
    ∙ ap (λ l. let c : TxDataBuilder = record { function = f; elements = l; separator = sep } in c)
        (append_assoc es (encode_to_string a ∷ []) (map encode_to_string args))

-- A new builder that is given a function name, not empty and without a separator, and then any byte
-- strings makes the text that the call parser takes apart into that name and those byte strings.
pub parse_data-to_string :
    (function : Bytes) (args : List Bytes)
    → function ≢ []
    → Lacks b'@' function
    → All AreBytes args
    → parse_data (to_string (add_all (func new_builder function) args)) ≡ ok (function, args)
unfolding func
parse_data-to_string function args ne lacks h =
    rw
      (
        add_all-elements function [] (ascii "@") args,
        to_string-separated function (map encode_to_string args),
      )
      (parse_data-transaction_data function args ne lacks h)
