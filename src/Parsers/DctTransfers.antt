-- ===== src/Parsers/DctTransfers.antt =====
-- parsers/dctTransferParser.go. The marshaller is a parameter: `unmarshal s` is the error of
-- `Unmarshal` or the field `Value` of the token that it fills, which may be nil.
pub mod Single
pub mod Multi
use k_vm_common_go.Prelude.{
  ℕ, zero, suc, ◌+◌, ◌*◌, ◌%◌, ltb, leb, ◌==◌, if◌then◌else◌, ◌&&◌, not, Bool, true, false, List,
  [], ◌∷◌, drop, length, Bytes, bytes_equal, Option, none, some, Outcome, ok, err, panic, ◌>>=◌,
  ◌>>◌, at, guard,
}
use k_vm_common_go.Prelude.Int.{ℤ, pos}
use k_vm_common_go.Core.{Core}
use k_vm_common_go.Go.BigInt.{word, set_bytes, uint64, is_uint64}
use k_vm_common_go.VmTypes.{DctTransfer, ParsedDctTransfers, max_length_for_value_to_opt_transfer}
use k_vm_common_go.Parsers.Errors.{
  ParseError, not_dct_transfer_input, not_enough_arguments, external,
}

abbrev pub min_args_for_dct_transfer : ℕ
min_args_for_dct_transfer = 2

abbrev pub min_args_for_dct_nft_transfer : ℕ
min_args_for_dct_nft_transfer = 4

abbrev pub min_args_for_multi_dct_nft_transfer : ℕ
min_args_for_multi_dct_nft_transfer = 4

abbrev pub args_per_transfer : ℕ
args_per_transfer = 3

-- `if len(args) > i { CallFunction = string(args[i]) }`
unfoldable pub call_function_at : List Bytes → ℕ → Outcome ParseError Bytes
call_function_at args i = if ltb i (length args) then at args i else ok []

-- `if len(args) > i+1 { CallArgs = append(CallArgs, args[i+1:]...) }`, on an empty CallArgs
unfoldable pub call_args_behind : List Bytes → ℕ → List Bytes
call_args_behind args i = if ltb (i + 1) (length args) then drop (i + 1) args else []

-- `DCTValue.Set(transferDCTData.Value)`: a nil value is dereferenced.
unfoldable pub value_of_token : Outcome Bytes (Option ℤ) → Outcome ParseError ℤ
value_of_token (ok (some v)) = ok v
value_of_token (ok none) = panic
value_of_token (err e) = err (external e)
value_of_token panic = panic

-- `make([]*DCTTransfer, n)` panics where the size in bytes, eight for a pointer, is no uint64.
abbrev pub make_pointers : ℕ → Outcome ParseError (Unit {0})
make_pointers n = if ltb (n * 8) word then ok tt else panic

module _ (core : Core) where
  unfoldable pub parse_single_dct_transfer :
      Bytes → List Bytes → Outcome ParseError ParsedDctTransfers
  unfolding call_function_at call_args_behind
  parse_single_dct_transfer rcv_addr args = do
    guard (not (ltb (length args) min_args_for_dct_transfer)) not_enough_arguments
    function ← call_function_at args min_args_for_dct_transfer
    value ← at args 1
    token ← at args 0
    let transfer : DctTransfer = record {
      dct_value = pos (set_bytes value);
      dct_token_name = token;
      dct_token_type = core.fungible;
      dct_token_nonce = 0;
    }
    ok (record {
      dct_transfers = transfer ∷ [];
      rcv_addr = rcv_addr;
      call_function = function;
      call_args = call_args_behind args min_args_for_dct_transfer;
    })

  unfoldable pub parse_single_dct_nft_transfer :
      Bytes → Bytes → List Bytes → Outcome ParseError ParsedDctTransfers
  unfolding call_function_at call_args_behind
  parse_single_dct_nft_transfer snd_addr rcv_addr args = do
    guard (not (ltb (length args) min_args_for_dct_nft_transfer)) not_enough_arguments
    receiver ← if bytes_equal snd_addr rcv_addr then at args 3 else ok rcv_addr
    function ← call_function_at args min_args_for_dct_nft_transfer
    value ← at args 2
    token ← at args 0
    nonce ← at args 1
    let transfer : DctTransfer = record {
      dct_value = pos (set_bytes value);
      dct_token_name = token;
      dct_token_type = core.non_fungible;
      dct_token_nonce = uint64 (set_bytes nonce);
    }
    ok (record {
      dct_transfers = transfer ∷ [];
      rcv_addr = receiver;
      call_function = function;
      call_args = call_args_behind args min_args_for_dct_nft_transfer;
    })

  module _ (unmarshal : Bytes → Outcome Bytes (Option ℤ)) where
    unfoldable pub create_new_dct_transfer : ℕ → List Bytes → Bool → Outcome ParseError DctTransfer
    unfolding value_of_token
    create_new_dct_transfer token_start_index args is_tx_at_sender = do
      value ← at args ((token_start_index + 2) % word)
      token ← at args token_start_index
      nonce_bytes ← at args ((token_start_index + 1) % word)
      let nonce = uint64 (set_bytes nonce_bytes)
      let transfer : DctTransfer = record {
        dct_value = pos (set_bytes value);
        dct_token_name = token;
        dct_token_type = core.fungible;
        dct_token_nonce = nonce;
      }
      if ltb 0 nonce
          then if not is_tx_at_sender && ltb max_length_for_value_to_opt_transfer (length value)
            then (do
              v ← value_of_token (unmarshal value)
              ok (record transfer { dct_token_type = core.non_fungible; dct_value = v }))
            else ok (record transfer { dct_token_type = core.non_fungible })
          else ok transfer

    -- The loop from `i` on, with `n` rounds left; the start index is computed in uint64.
    unfoldable pub create_transfers :
        ℕ → ℕ → ℕ → List Bytes → Bool → Outcome ParseError (List DctTransfer)
    create_transfers zero i start args is_tx_at_sender = ok []
    create_transfers (suc n) i start args is_tx_at_sender = do
      t ← create_new_dct_transfer ((start + i * args_per_transfer) % word) args is_tx_at_sender
      ts ← create_transfers n (i + 1) start args is_tx_at_sender
      ok (t ∷ ts)

    -- What follows the reading of the number of transfers.
    unfoldable pub parse_transfers :
        Bytes → ℕ → ℕ → Bool → List Bytes → Outcome ParseError ParsedDctTransfers
    parse_transfers rcv_addr num_of_transfer start_index is_tx_at_sender args = do
      let count = uint64 num_of_transfer
      let min_len_args = (args_per_transfer * count + start_index) % word
      guard (not (ltb (length args) min_len_args)) not_enough_arguments
      function ← call_function_at args min_len_args
      make_pointers count
      transfers ← create_transfers count 0 start_index args is_tx_at_sender
      ok (record {
        dct_transfers = transfers;
        rcv_addr = rcv_addr;
        call_function = function;
        call_args = call_args_behind args min_len_args;
      })

    unfoldable pub parse_multi_dct_nft_transfer :
        Bytes → List Bytes → Outcome ParseError ParsedDctTransfers
    parse_multi_dct_nft_transfer rcv_addr args = do
      guard (not (ltb (length args) min_args_for_multi_dct_nft_transfer)) not_enough_arguments
      first ← at args 0
      let num_of_transfer = set_bytes first
      if length first == length rcv_addr && not (is_uint64 num_of_transfer)
          then (do second ← at args 1; parse_transfers first (set_bytes second) 2 true args)
          else parse_transfers rcv_addr num_of_transfer 1 false args

    unfoldable pub parse_dct_transfers :
        Bytes → Bytes → Bytes → List Bytes → Outcome ParseError ParsedDctTransfers
    parse_dct_transfers snd_addr rcv_addr function args =
        if bytes_equal function core.dct_transfer
        then parse_single_dct_transfer rcv_addr args
        else if bytes_equal function core.dct_nft_transfer
        then parse_single_dct_nft_transfer snd_addr rcv_addr args
        else if bytes_equal function core.multi_dct_nft_transfer
        then parse_multi_dct_nft_transfer rcv_addr args
        else err not_dct_transfer_input
