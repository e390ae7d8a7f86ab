-- ===== src/TxDataBuilder/Transfers.antt =====
-- From the builder's transfers to the transfers that the parsers return.
use k_vm_common_go.Prelude.{
  ℕ, ◌%◌, ◌<◌, ◌≡◌, ◌≢◌, arith, List, [], ◌∷◌, Bytes, AreBytes, bytes_equal_refl, ok, err, Outcome,
  Option, ◌>>=◌,
}
use k_vm_common_go.Prelude.Int.{ℤ, pos}
use k_vm_common_go.Core.{Core, HasDistinctTransfers}
use k_vm_common_go.Go.BigInt.{to_bytes, word}
use k_vm_common_go.Go.BigInt.RoundTrip.{set_bytes-to_bytes, to_bytes-AreBytes}
use k_vm_common_go.Go.Text.Split.{Lacks}
use k_vm_common_go.VmTypes.{ParsedDctTransfers}
use k_vm_common_go.Parsers.Errors.{ParseError, not_enough_arguments}
use k_vm_common_go.Parsers.CallArgs.{parse_data}
use k_vm_common_go.Parsers.DctTransfers.{parse_dct_transfers}
use k_vm_common_go.Parsers.DctTransfers.Single.{parse_dct_transfers_lem}
use k_vm_common_go.TxDataBuilder.{new_builder, to_string, bytes, transfer_dct, transfer_dct_nft}
use k_vm_common_go.TxDataBuilder.RoundTrip.{add_all, parse_data-to_string}

-- A function name as the parsers need it.
pub record IsName (function : Bytes) : Type 0 where
  pub ne_nil : function ≢ []
  pub lacks : Lacks b'@' function

module _ (core : Core) (unmarshal : Bytes → Outcome Bytes (Option ℤ)) where
  -- The text is parsed as a call, and the call as transfers.
  unfoldable pub parse_text : Bytes → Bytes → Bytes → Outcome ParseError ParsedDctTransfers
  parse_text snd rcv text = do
    (function, args) ← parse_data text
    parse_dct_transfers core unmarshal snd rcv function args

  -- Where the names of the three transfers are different, and this one is not empty and has no
  -- separator: the text of `TransferDCT` for a value that is not negative is parsed as one fungible
  -- transfer of that token and value to the receiver, with no call behind it.
  pub parse_text-transfer_dct :
      (snd rcv token : Bytes) (value : ℕ)
      → HasDistinctTransfers core
      → IsName core.dct_transfer
      → AreBytes token
      → parse_text snd rcv (to_string (transfer_dct core new_builder token (pos value)))
        ≡ ok (record {
          dct_transfers =
              record {
                dct_value = pos value;
                dct_token_name = token;
                dct_token_type = core.fungible;
                dct_token_nonce = 0;
              }
              ∷ [];
          rcv_addr = rcv;
          call_function = [];
          call_args = [];
        })
  unfolding parse_text transfer_dct add_all
  parse_text-transfer_dct snd rcv token value distinct named h =
      let args : List Bytes = token ∷ to_bytes value ∷ [] in
      rw (
        parse_data-to_string core.dct_transfer args named.ne_nil named.lacks
            (h, (to_bytes-AreBytes value, tt)),
        (parse_dct_transfers_lem core unmarshal snd rcv args distinct).0,
        set_bytes-to_bytes value,
      )

  -- Under the same conditions on the names: the text of `TransferDCTNFT` lacks the receiver, and
  -- alone it is refused.
  pub parse_text-transfer_dct_nft_alone :
      (snd rcv token : Bytes) (nonce value : ℕ)
      → HasDistinctTransfers core
      → IsName core.dct_nft_transfer
      → AreBytes token
      → parse_text snd rcv
          (to_string (transfer_dct_nft core new_builder token (pos nonce) (pos value)))
        ≡ err not_enough_arguments
  unfolding parse_text transfer_dct_nft add_all
  parse_text-transfer_dct_nft_alone snd rcv token nonce value distinct named h =
      let args : List Bytes = token ∷ to_bytes nonce ∷ to_bytes value ∷ [] in
      rw (
        parse_data-to_string core.dct_nft_transfer args named.ne_nil named.lacks
            (h, (to_bytes-AreBytes nonce, (to_bytes-AreBytes value, tt))),
        (parse_dct_transfers_lem core unmarshal snd rcv args distinct).1,
      )

  -- Where the names of the three transfer functions differ, and that of the transfer of a token
  -- with a nonce is not empty and has no separator: with the receiver appended, and sent to the
  -- sender's own account, the text of `TransferDCTNFT` for a token and a receiver that are bytes, a
  -- nonce that is a uint64, and a value that is not negative, is parsed as one non-fungible
  -- transfer to that receiver.
  pub parse_text-transfer_dct_nft :
      (own token receiver : Bytes) (nonce value : ℕ)
      → HasDistinctTransfers core
      → IsName core.dct_nft_transfer
      → AreBytes token
      → AreBytes receiver
      → nonce < word
      → parse_text own own (
          to_string
            (bytes (transfer_dct_nft core new_builder token (pos nonce) (pos value)) receiver))
        ≡ ok (record {
          dct_transfers =
              record {
                dct_value = pos value;
                dct_token_name = token;
                dct_token_type = core.non_fungible;
                dct_token_nonce = nonce;
              }
              ∷ [];
          rcv_addr = receiver;
          call_function = [];
          call_args = [];
        })
  unfolding parse_text transfer_dct_nft bytes add_all
  parse_text-transfer_dct_nft own token receiver nonce value distinct named h hr small =
      let args : List Bytes = token ∷ to_bytes nonce ∷ to_bytes value ∷ receiver ∷ [] in
      let kept : nonce % word ≡ nonce = omega arith in
      rw (
        parse_data-to_string core.dct_nft_transfer args named.ne_nil named.lacks
            (h, (to_bytes-AreBytes nonce, (to_bytes-AreBytes value, (hr, tt)))),
        (parse_dct_transfers_lem core unmarshal own own args distinct).1,
        set_bytes-to_bytes value,
        set_bytes-to_bytes nonce,
        bytes_equal_refl own,
        kept,
      )
