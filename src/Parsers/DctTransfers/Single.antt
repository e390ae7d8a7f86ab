-- ===== src/Parsers/DctTransfers/Single.antt =====
-- The two parsers of one transfer, and the choice between the three parsers.
use k_vm_common_go.Prelude.{
  ◌%◌, ◌≡◌, refl, arith, if◌then◌else◌, List, [], ◌∷◌, Bytes, bytes_equal, bytes_equal_refl,
  ne→bytes_equal, sym, drop, Option, Outcome, ok, err,
}
use k_vm_common_go.Prelude.Int.{ℤ, pos}
use k_vm_common_go.Core.{Core, HasDistinctTransfers}
use k_vm_common_go.Go.BigInt.{word, set_bytes, uint64}
use k_vm_common_go.VmTypes.{ParsedDctTransfers}
use k_vm_common_go.Parsers.Errors.{ParseError, not_enough_arguments}
use k_vm_common_go.Parsers.DctTransfers.{
  parse_single_dct_transfer, parse_single_dct_nft_transfer, parse_multi_dct_nft_transfer,
  parse_dct_transfers,
}

-- The call behind the arguments of a transfer.
abbrev pub called : List Bytes → Bytes
called [] = []
called (f ∷ args) = f

module _ (core : Core) where
  -- What a fungible transfer says: its token, its value, and the call behind them.
  abbrev pub single_transfer : Bytes → List Bytes → Outcome ParseError ParsedDctTransfers
  single_transfer rcv (token ∷ value ∷ tail) = ok (record {
    dct_transfers =
        record {
          dct_value = pos (set_bytes value);
          dct_token_name = token;
          dct_token_type = core.fungible;
          dct_token_nonce = 0;
        }
        ∷ [];
    rcv_addr = rcv;
    call_function = called tail;
    call_args = drop 1 tail;
  })
  single_transfer rcv _ = err not_enough_arguments

  pub parse_single_lem :
      (rcv : Bytes) (args : List Bytes)
      → parse_single_dct_transfer core rcv args ≡ single_transfer rcv args
  unfolding parse_single_dct_transfer
  parse_single_lem rcv [] = refl
  parse_single_lem rcv (token ∷ []) = refl
  parse_single_lem rcv (token ∷ value ∷ []) = refl
  parse_single_lem rcv (token ∷ value ∷ f ∷ []) = refl
  parse_single_lem rcv (token ∷ value ∷ f ∷ g ∷ tail) = ground arith

  -- A transfer of one non-fungible token says also a nonce, and a receiver, which counts where the
  -- sender is the account that the transaction is sent to.
  abbrev pub single_nft_transfer :
      Bytes → Bytes → List Bytes → Outcome ParseError ParsedDctTransfers
  single_nft_transfer snd rcv (token ∷ nonce ∷ value ∷ dest ∷ tail) = ok (record {
    dct_transfers =
        record {
          dct_value = pos (set_bytes value);
          dct_token_name = token;
          dct_token_type = core.non_fungible;
          dct_token_nonce = set_bytes nonce % word;
        }
        ∷ [];
    rcv_addr = if bytes_equal snd rcv then dest else rcv;
    call_function = called tail;
    call_args = drop 1 tail;
  })
  single_nft_transfer snd rcv _ = err not_enough_arguments

  pub parse_single_nft_lem :
      (snd rcv : Bytes) (args : List Bytes)
      → parse_single_dct_nft_transfer core snd rcv args ≡ single_nft_transfer snd rcv args
  unfolding parse_single_dct_nft_transfer uint64
  parse_single_nft_lem snd rcv [] = refl
  parse_single_nft_lem snd rcv (a ∷ []) = refl
  parse_single_nft_lem snd rcv (a ∷ b ∷ []) = refl
  parse_single_nft_lem snd rcv (a ∷ b ∷ c ∷ []) = refl
  parse_single_nft_lem snd rcv (a ∷ b ∷ c ∷ d ∷ []) = ground arith
  parse_single_nft_lem snd rcv (a ∷ b ∷ c ∷ d ∷ f ∷ []) = ground arith
  parse_single_nft_lem snd rcv (a ∷ b ∷ c ∷ d ∷ f ∷ g ∷ tail) = ground arith

  -- The name of the function selects the parser, for every sender, receiver and arguments, where the
  -- names are different; the two parsers of single transfers give what the descriptions
  -- `single_transfer` and `single_nft_transfer` of their results give.
  pub parse_dct_transfers_lem :
      (unmarshal : Bytes → Outcome Bytes (Option ℤ)) (snd rcv : Bytes) (args : List Bytes)
      → HasDistinctTransfers core
      → (parse_dct_transfers core unmarshal snd rcv core.dct_transfer args
          ≡ single_transfer rcv args)
        × (parse_dct_transfers core unmarshal snd rcv core.dct_nft_transfer args
            ≡ single_nft_transfer snd rcv args)
        × (parse_dct_transfers core unmarshal snd rcv core.multi_dct_nft_transfer args
            ≡ parse_multi_dct_nft_transfer core unmarshal rcv args)
  unfolding parse_dct_transfers
  parse_dct_transfers_lem unmarshal snd rcv args h = (
    rw (bytes_equal_refl core.dct_transfer) (parse_single_lem rcv args),
    rw
        (
          ne→bytes_equal core.dct_nft_transfer core.dct_transfer (λ e. h.single_ne_nft (sym e)),
          bytes_equal_refl core.dct_nft_transfer,
        )
        (parse_single_nft_lem snd rcv args),
    rw (
      ne→bytes_equal core.multi_dct_nft_transfer core.dct_transfer (λ e. h.single_ne_multi (sym e)),
      ne→bytes_equal core.multi_dct_nft_transfer core.dct_nft_transfer
          (λ e. h.nft_ne_multi (sym e)),
      bytes_equal_refl core.multi_dct_nft_transfer,
    ),
  )
