-- ===== src/Tests/Parse.antt =====
-- The parsers of calls, deployments and storage updates at sample texts.
use k_vm_common_go.Prelude.{
  ◌≡◌, refl, true, false, List, [], ◌∷◌, Bytes, ascii, All, AreBytes, ok, cons-ne-nil,
}
use k_vm_common_go.Go.Hex.{decode_string, from_hex_char}
use k_vm_common_go.Go.Text.{split}
use k_vm_common_go.CodeMetadata.{CodeMetadata}
use k_vm_common_go.CodeMetadata
use k_vm_common_go.Parsers.Tokens.{
  at_separator, tokenize, check_tokens, decode_token, decode_tokens,
}
use k_vm_common_go.Parsers.Tokens.Encoded.{transaction_data}
use k_vm_common_go.Parsers.CallArgs
use k_vm_common_go.Parsers.CallArgs.RoundTrip.{
  IsCallOf, parse_data-transaction_data, parse_data_sound,
}
use k_vm_common_go.Parsers.DeployArgs
use k_vm_common_go.Parsers.DeployArgs.{DeployArgs}
use k_vm_common_go.Parsers.DeployArgs.RoundTrip.{deploy_data, parse_data-deploy_data}
use k_vm_common_go.Parsers.StorageUpdates.{
  StorageUpdate, get_storage_updates, create_data_from_storage_update,
}
use k_vm_common_go.Parsers.StorageUpdates.RoundTrip.{get_storage_updates-create_data}
use k_vm_common_go.Tests.Sample.{all_below-AreBytes, all_other-Lacks}

abbrev two_args : List Bytes
two_args = (1 ∷ 255 ∷ []) ∷ [] ∷ []

two_args-AreBytes : All AreBytes two_args
two_args-AreBytes = (all_below-AreBytes (1 ∷ 255 ∷ []) refl, (tt, tt))

parse_data-transaction_data_example :
    CallArgs.parse_data (transaction_data (ascii "mint") two_args) ≡ ok (ascii "mint", two_args)
parse_data-transaction_data_example =
    parse_data-transaction_data (ascii "mint") two_args (cons-ne-nil _ _)
      (all_other-Lacks at_separator (ascii "mint") refl) two_args-AreBytes

parsed_call : CallArgs.parse_data (ascii "mint@01FF@") ≡ ok (ascii "mint", two_args)
unfolding CallArgs.parse_data CallArgs.parse_function CallArgs.parse_arguments_of tokenize
    check_tokens split decode_tokens decode_token decode_string from_hex_char
parsed_call = refl

parse_data_sound_example : IsCallOf (ascii "mint@01FF@") (ascii "mint") two_args
parse_data_sound_example = parse_data_sound (ascii "mint@01FF@") (ascii "mint") two_args parsed_call

parse_data-deploy_data_example :
    DeployArgs.parse_data (deploy_data (ascii "code") (5 ∷ 0 ∷ []) (1 ∷ 2 ∷ []) two_args)
    ≡ ok (record {
      code = ascii "code";
      vm_type = 5 ∷ 0 ∷ [];
      code_metadata = CodeMetadata.from_bytes (1 ∷ 2 ∷ []);
      arguments = two_args;
    })
parse_data-deploy_data_example =
    parse_data-deploy_data (ascii "code") (5 ∷ 0 ∷ []) (1 ∷ 2 ∷ []) two_args (cons-ne-nil _ _)
      (cons-ne-nil _ _) (all_below-AreBytes (ascii "code") refl)
      (
        all_below-AreBytes (5 ∷ 0 ∷ []) refl,
        (all_below-AreBytes (1 ∷ 2 ∷ []) refl, two_args-AreBytes),
      )

abbrev deployed : DeployArgs
deployed = record {
  code = 1 ∷ [];
  vm_type = 5 ∷ [];
  code_metadata = record {
    payable = true;
    payable_by_sc = false;
    upgradeable = true;
    readable = false;
  };
  arguments = (7 ∷ []) ∷ [];
}

abbrev update : StorageUpdate
update = record { offset = 1 ∷ []; payload = 2 ∷ 3 ∷ [] }

get_storage_updates-create_data_example :
    (get_storage_updates (create_data_from_storage_update (update ∷ update ∷ []))
      ≡ ok (update ∷ update ∷ []))
    × (get_storage_updates (at_separator ∷ create_data_from_storage_update (update ∷ update ∷ []))
        ≡ ok (update ∷ update ∷ []))
get_storage_updates-create_data_example =
    get_storage_updates-create_data update (update ∷ []) (cons-ne-nil _ _) (
      (all_below-AreBytes (1 ∷ []) refl, all_below-AreBytes (2 ∷ 3 ∷ []) refl),
      ((all_below-AreBytes (1 ∷ []) refl, all_below-AreBytes (2 ∷ 3 ∷ []) refl), tt),
    )
