-- ===== src/Tests/Build.antt =====
-- The builder of transaction data at sample names and values.
use k_vm_common_go.Prelude.{
  ◌≡◌, refl, arith, Option, some, [], ◌∷◌, Bytes, ascii, Outcome, ok, cons-ne-nil,
}
use k_vm_common_go.Prelude.Int.{ℤ, pos}
use k_vm_common_go.Parsers.CallArgs.{parse_data}
use k_vm_common_go.TxDataBuilder.{new_builder, to_string, func, bytes, transfer_dct_nft}
use k_vm_common_go.TxDataBuilder.RoundTrip.{add_all, parse_data-to_string}
use k_vm_common_go.TxDataBuilder.Transfers.{IsName, parse_text, parse_text-transfer_dct_nft}
use k_vm_common_go.Tests.Sample.{
  sample_core, sample_core-HasDistinctTransfers, all_below-AreBytes, all_other-Lacks,
}

abbrev seven : Bytes → Outcome Bytes (Option ℤ)
seven s = ok (some (pos 7))

parse_data-to_string_example :
    parse_data (to_string (add_all (func new_builder (ascii "pay")) ((0 ∷ 9 ∷ []) ∷ [])))
    ≡ ok (ascii "pay", (0 ∷ 9 ∷ []) ∷ [])
parse_data-to_string_example =
    parse_data-to_string (ascii "pay") ((0 ∷ 9 ∷ []) ∷ []) (cons-ne-nil _ _)
      (all_other-Lacks b'@' (ascii "pay") refl) (all_below-AreBytes (0 ∷ 9 ∷ []) refl, tt)

nft-IsName : IsName sample_core.dct_nft_transfer
nft-IsName = record {
  ne_nil = cons-ne-nil _ _;
  lacks = all_other-Lacks b'@' sample_core.dct_nft_transfer refl;
}

parse_text-transfer_dct_nft_example :
    parse_text sample_core seven (1 ∷ []) (1 ∷ []) (
      to_string
        (bytes (transfer_dct_nft sample_core new_builder (ascii "CARD") (pos 3) (pos 1)) (2 ∷ [])))
    ≡ ok (record {
      dct_transfers =
          record {
            dct_value = pos 1;
            dct_token_name = ascii "CARD";
            dct_token_type = sample_core.non_fungible;
            dct_token_nonce = 3;
          }
          ∷ [];
      rcv_addr = 2 ∷ [];
      call_function = [];
      call_args = [];
    })
parse_text-transfer_dct_nft_example =
    parse_text-transfer_dct_nft sample_core seven (1 ∷ []) (ascii "CARD") (2 ∷ []) 3 1
      sample_core-HasDistinctTransfers nft-IsName (all_below-AreBytes (ascii "CARD") refl)
      (all_below-AreBytes (2 ∷ []) refl) (omega arith)
