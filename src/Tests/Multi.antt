-- ===== src/Tests/Multi.antt =====
-- The parsers of transfers at sample arguments.
use k_vm_common_go.Prelude.{
  ℕ, refl, none, ◌+◌, ◌*◌, ◌%◌, ◌≤◌, ◌<◌, ◌≡◌, arith, Option, some, List, [], ◌∷◌, ◌++◌, map, Bytes,
  ascii, length, drop, replicate, Outcome, ok, panic,
}
use k_vm_common_go.Prelude.Int.{ℤ, pos}
use k_vm_common_go.Go.BigInt.{word, set_bytes, to_bytes, uint64, is_uint64, read_from, print_onto}
use k_vm_common_go.VmTypes.{ParsedDctTransfers}
use k_vm_common_go.Parsers.DctTransfers.{
  parse_multi_dct_nft_transfer, parse_dct_transfers, args_per_transfer, parse_transfers,
  create_transfers, create_new_dct_transfer, value_of_token, call_function_at,
}
use k_vm_common_go.Parsers.DctTransfers.Single.{
  single_transfer, single_nft_transfer, parse_dct_transfers_lem,
}
use k_vm_common_go.Parsers.DctTransfers.Multi.RoundTrip.{
  Sent, AllFit, as_transfer, sent_args, function_of, parse_multi-sent,
}
use k_vm_common_go.Parsers.DctTransfers.Multi.Count.{
  IsValueless, announced, first_index, parse_multi-panics_at, parse_multi-panic,
}
use k_vm_common_go.Tests.Sample.{sample_core, sample_core-HasDistinctTransfers}

-- A marshaller that reads every token as one of value 7.
abbrev seven : Bytes → Outcome Bytes (Option ℤ)
seven s = ok (some (pos 7))

abbrev coins : Sent
coins = record { token = ascii "COIN"; nonce = 0; value = 1000 }

abbrev card : Sent
card = record { token = ascii "CARD"; nonce = 300; value = 1 }

abbrev tail : List Bytes
tail = ascii "buy" ∷ (1 ∷ []) ∷ []

fits : AllFit (coins ∷ card ∷ [])
unfolding to_bytes print_onto
fits = (
  record { nonce_lt = omega arith; value_short = omega arith },
  (record { nonce_lt = omega arith; value_short = omega arith }, tt),
)

abbrev parsed : Bytes → ParsedDctTransfers
parsed rcv = record {
  dct_transfers = map (as_transfer sample_core) (coins ∷ card ∷ []);
  rcv_addr = rcv;
  call_function = function_of tail;
  call_args = drop 1 tail;
}

parse_multi-sent_example :
    parse_multi_dct_nft_transfer sample_core seven
      (9 ∷ [])
      (to_bytes (length (coins ∷ card ∷ [])) ∷ (sent_args (coins ∷ card ∷ []) ++ tail))
    ≡ ok (parsed (9 ∷ []))
parse_multi-sent_example =
    parse_multi-sent sample_core seven (9 ∷ []) coins (card ∷ []) tail (omega arith) fits

abbrev own : Bytes
own = replicate 12 7

abbrev receiver : Bytes
receiver = replicate 12 8

large : word ≤ set_bytes receiver
unfolding set_bytes read_from
large = omega arith

abbrev two_args : List Bytes
two_args = to_bytes (length (coins ∷ card ∷ [])) ∷ (sent_args (coins ∷ card ∷ []) ++ tail)

-- A marshaller that reads every token as one whose value is nil.
abbrev no_value : Bytes → Outcome Bytes (Option ℤ)
no_value s = ok none

abbrev long_args : List Bytes
long_args = (1 ∷ []) ∷ ascii "CARD" ∷ (5 ∷ []) ∷ replicate 33 1 ∷ []

long_announced : announced (9 ∷ []) long_args * 8 < word
unfolding set_bytes read_from uint64 is_uint64
long_announced = omega arith

panicked : parse_multi_dct_nft_transfer sample_core no_value (9 ∷ []) long_args ≡ panic
unfolding parse_multi_dct_nft_transfer parse_transfers create_transfers create_new_dct_transfer
    value_of_token call_function_at set_bytes read_from uint64 is_uint64
panicked = refl

parse_multi-panics_at_example :
    (first_index (9 ∷ []) long_args ≡ 1)
    × (j : ℕ) × (j < announced (9 ∷ []) long_args)
    × IsValueless sample_core no_value long_args (1 + j * args_per_transfer)
parse_multi-panics_at_example =
    parse_multi-panics_at sample_core no_value (9 ∷ []) long_args long_announced (omega arith)
      panicked

-- (2^64 - 1) / 3 transfers are announced: three times that and one more is 2^64.
abbrev wrapping_args : List Bytes
wrapping_args = replicate 8 85 ∷ [] ∷ [] ∷ [] ∷ []

many_announced : word ≤ announced (9 ∷ []) wrapping_args * 8
unfolding set_bytes read_from uint64 is_uint64
many_announced = omega arith

wraps :
    (args_per_transfer * announced (9 ∷ []) wrapping_args + first_index (9 ∷ []) wrapping_args)
      % word
    ≤ length wrapping_args
unfolding set_bytes read_from uint64 is_uint64
wraps = omega arith

parse_multi-panic_example :
    parse_multi_dct_nft_transfer sample_core seven (9 ∷ []) wrapping_args ≡ panic
parse_multi-panic_example =
    parse_multi-panic sample_core seven (9 ∷ []) wrapping_args (omega arith) many_announced wraps

abbrev one_args : List Bytes
one_args = ascii "COIN" ∷ (5 ∷ []) ∷ []

parse_dct_transfers_lem_example :
    (parse_dct_transfers sample_core seven own (9 ∷ []) sample_core.dct_transfer one_args
      ≡ single_transfer sample_core (9 ∷ []) one_args)
    × (parse_dct_transfers sample_core seven own (9 ∷ []) sample_core.dct_nft_transfer one_args
        ≡ single_nft_transfer sample_core own (9 ∷ []) one_args)
    × (parse_dct_transfers sample_core seven own
          (9 ∷ [])
          sample_core.multi_dct_nft_transfer
          one_args
        ≡ parse_multi_dct_nft_transfer sample_core seven (9 ∷ []) one_args)
parse_dct_transfers_lem_example =
    parse_dct_transfers_lem sample_core seven own (9 ∷ []) one_args sample_core-HasDistinctTransfers
