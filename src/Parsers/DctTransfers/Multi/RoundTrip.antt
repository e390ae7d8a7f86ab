-- ===== src/Parsers/DctTransfers/Multi/RoundTrip.antt =====
-- A list of transfers written as arguments is read back.
use k_vm_common_go.Prelude.{
  ℕ, ◌+◌, ◌*◌, ◌%◌, ◌≤◌, ◌<◌, ◌≡◌, refl, arith, Bool, true, false, ltb, le→not_ltb, lt→ltb,
  if◌then◌else◌, List, [], ◌∷◌, ◌++◌, append_assoc, append-nil, map, Bytes, length, length-append,
  drop, drop-append_second, ◌^◌, Option, Outcome, ok, at-append, at-append_second, at-append_third,
}
use k_vm_common_go.Prelude.Int.{ℤ, pos}
use k_vm_common_go.Core.{Core}
use k_vm_common_go.Go.BigInt.{word, set_bytes, to_bytes, uint64, is_uint64}
use k_vm_common_go.Go.BigInt.RoundTrip.{set_bytes-to_bytes}
use k_vm_common_go.VmTypes.{DctTransfer, max_length_for_value_to_opt_transfer}
use k_vm_common_go.Parsers.DctTransfers.{
  create_new_dct_transfer, create_transfers, parse_transfers, parse_multi_dct_nft_transfer,
  call_function_at, call_args_behind, args_per_transfer,
}

-- A transfer as its sender means it.
pub record Sent : Type 0 where
  pub token : Bytes
  pub nonce : ℕ
  pub value : ℕ

abbrev pub sent_args : List Sent → List Bytes
sent_args [] = []
sent_args (s ∷ ss) = s.token ∷ to_bytes s.nonce ∷ to_bytes s.value ∷ sent_args ss

abbrev pub as_transfer : Core → Sent → DctTransfer
as_transfer core s = record {
  dct_value = pos s.value;
  dct_token_name = s.token;
  dct_token_type = if ltb 0 s.nonce then core.non_fungible else core.fungible;
  dct_token_nonce = s.nonce;
}

-- The nonce is a uint64, and the value is short enough to be sent as it is.
pub record Fits (s : Sent) : Type 0 where
  pub nonce_lt : s.nonce < word
  pub value_short : length (to_bytes s.value) ≤ max_length_for_value_to_opt_transfer

abbrev pub AllFit : List Sent → Type 0
AllFit [] = Unit {0}
AllFit (s ∷ ss) = Fits s × AllFit ss

module _ (core : Core) (unmarshal : Bytes → Outcome Bytes (Option ℤ)) where
  create-sent :
      (pre rest : List Bytes) (s : Sent) (i : ℕ) (at_sender : Bool)
      → i ≡ length pre
      → i + 2 < word
      → Fits s
      → create_new_dct_transfer core unmarshal i
          (pre ++ (s.token ∷ to_bytes s.nonce ∷ to_bytes s.value ∷ rest))
          at_sender
        ≡ ok (as_transfer core s)
  unfolding create_new_dct_transfer uint64
  create-sent pre rest s i at_sender e room fits =
      rw
        (
          at-append_third pre s.token (to_bytes s.nonce) (to_bytes s.value) rest ((i + 2) % word)
              (omega arith),
          at-append pre s.token (to_bytes s.nonce ∷ to_bytes s.value ∷ rest) i e,
          at-append_second pre s.token (to_bytes s.nonce) (to_bytes s.value ∷ rest) ((i + 1) % word)
              (omega arith),
          set_bytes-to_bytes s.nonce,
          set_bytes-to_bytes s.value,
        )
        (ground (arith, fits.value_short, fits.nonce_lt))

  create_transfers-sent :
      (ss : List Sent) (pre rest : List Bytes) (i start : ℕ) (at_sender : Bool)
      → start + i * args_per_transfer ≡ length pre
      → length (pre ++ (sent_args ss ++ rest)) < word
      → AllFit ss
      → create_transfers core unmarshal
          (length ss)
          i
          start
          (pre ++ (sent_args ss ++ rest))
          at_sender
        ≡ ok (map (as_transfer core) ss)
  unfolding create_transfers
  create_transfers-sent [] pre rest i start at_sender e room fits = refl
  create_transfers-sent (s ∷ ss) pre rest i start at_sender e room (fit, fits) =
      let here : List Bytes = s.token ∷ to_bytes s.nonce ∷ to_bytes s.value ∷ [] in
      let same : (pre ++ here) ++ (sent_args ss ++ rest) ≡ pre ++ (sent_args (s ∷ ss) ++ rest) =
        append_assoc pre here (sent_args ss ++ rest) in
      let longer = length-append pre (sent_args (s ∷ ss) ++ rest) in
      let next =
        create_transfers-sent ss (pre ++ here) rest (i + 1) start at_sender
          (omega (arith, length-append pre here)) (rw same room) fits in
      rw (
        create-sent pre (sent_args ss ++ rest) s ((start + i * args_per_transfer) % word) at_sender
            (omega arith) (omega arith) fit,
        rw same at next,
      )

length-sent_args : (ss : List Sent) → length (sent_args ss) ≡ args_per_transfer * length ss
length-sent_args [] = refl
length-sent_args (s ∷ ss) = omega (arith, length-sent_args ss)

-- What stands behind the transfers: a function to call, and its arguments.
abbrev pub function_of : List Bytes → Bytes
function_of [] = []
function_of (f ∷ args) = f

call_function-append :
    (pre tail : List Bytes) (i : ℕ)
    → i ≡ length pre
    → call_function_at (pre ++ tail) i ≡ ok (function_of tail)
unfolding call_function_at
call_function-append pre [] i e = ground (arith, append-nil pre)
call_function-append pre (f ∷ tail) i e =
    rw (at-append pre f tail i e) (ground (arith, length-append pre (f ∷ tail)))

call_args-append :
    (pre tail : List Bytes) (i : ℕ)
    → i ≡ length pre
    → call_args_behind (pre ++ tail) i ≡ drop 1 tail
unfolding call_args_behind
call_args-append pre [] i e = ground (arith, append-nil pre)
call_args-append pre (f ∷ []) i e = ground (arith, length-append pre (f ∷ []))
call_args-append pre (f ∷ g ∷ tail) i e =
    ground (arith, length-append pre (f ∷ g ∷ tail), drop-append_second pre f (g ∷ tail) (i + 1))

-- Fewer arguments than this fit in memory.
abbrev pub args_bound : ℕ
args_bound = 2 ^ 61

module _ (core : Core) (unmarshal : Bytes → Outcome Bytes (Option ℤ)) where
  parse_transfers-sent :
      (rcv : Bytes) (pre tail : List Bytes) (ss : List Sent) (at_sender : Bool)
      → length pre ≤ 2
      → length (pre ++ (sent_args ss ++ tail)) < args_bound
      → AllFit ss
      → parse_transfers core unmarshal rcv
          (length ss)
          (length pre)
          at_sender
          (pre ++ (sent_args ss ++ tail))
        ≡ ok (record {
          dct_transfers = map (as_transfer core) ss;
          rcv_addr = rcv;
          call_function = function_of tail;
          call_args = drop 1 tail;
        })
  unfolding parse_transfers uint64
  parse_transfers-sent rcv pre tail ss at_sender short room fits =
      let args = pre ++ (sent_args ss ++ tail) in
      let n = length ss in
      let m = length (pre ++ sent_args ss) in
      let sizes : (m ≡ 3 * n + length pre) × (length args ≡ m + length tail) = omega (
        arith,
        length-append pre (sent_args ss),
        length-append pre (sent_args ss ++ tail),
        length-append (sent_args ss) tail,
        length-sent_args ss,
      ) in
      let count : n % word ≡ n = omega (arith, sizes) in
      let wrapped : (args_per_transfer * n + length pre) % word ≡ m = omega (arith, sizes) in
      let enough : ltb (length args) m ≡ false =
        le→not_ltb (length args) m (omega (arith, sizes)) in
      let room_for : ltb (n * 8) word ≡ true = lt→ltb (n * 8) word (omega (arith, sizes)) in
      let same : (pre ++ sent_args ss) ++ tail ≡ args = append_assoc pre (sent_args ss) tail in
      rw (
        count,
        wrapped,
        enough,
        rw same at (call_function-append (pre ++ sent_args ss) tail m refl),
        room_for,
        create_transfers-sent core unmarshal ss pre tail 0 (length pre) at_sender (omega arith)
            (omega arith) fits,
        rw same at (call_args-append (pre ++ sent_args ss) tail m refl),
      )

  -- A list of transfers as a contract at the destination receives it: the number of them, one at
  -- least, the three arguments of each, and then a function and its arguments. Where each nonce is
  -- a uint64, each value has at most 32 bytes and the arguments are fewer than 2^61, the parser
  -- returns those transfers, each with its type by its nonce, and that call.
  pub parse_multi-sent :
      (rcv : Bytes) (s : Sent) (ss : List Sent) (tail : List Bytes)
      → length (sent_args (s ∷ ss) ++ tail) + 1 < args_bound
      → AllFit (s ∷ ss)
      → parse_multi_dct_nft_transfer core unmarshal rcv
          (to_bytes (length (s ∷ ss)) ∷ (sent_args (s ∷ ss) ++ tail))
        ≡ ok (record {
          dct_transfers = map (as_transfer core) (s ∷ ss);
          rcv_addr = rcv;
          call_function = function_of tail;
          call_args = drop 1 tail;
        })
  unfolding parse_multi_dct_nft_transfer is_uint64
  parse_multi-sent rcv s ss tail room fits =
      let n = length (s ∷ ss) in
      let pre : List Bytes = to_bytes n ∷ [] in
      let count : ltb n word ≡ true =
        lt→ltb n word
          (omega (arith, length-append (sent_args (s ∷ ss)) tail, length-sent_args (s ∷ ss))) in
      let parsed =
        parse_transfers-sent rcv pre tail (s ∷ ss) false (omega arith) (omega arith) fits in
      rw (set_bytes-to_bytes n) (ground (arith, count, parsed))

  -- The same transfers as their sender signs them, under the same bounds: behind the address of the
  -- receiver, which is as long as the sender's and as a number is no uint64. The parser returns
  -- those transfers to that receiver, and that call.
  pub parse_multi-sent_at_sender :
      (own rcv : Bytes) (s : Sent) (ss : List Sent) (tail : List Bytes)
      → length rcv ≡ length own
      → word ≤ set_bytes rcv
      → length (sent_args (s ∷ ss) ++ tail) + 2 < args_bound
      → AllFit (s ∷ ss)
      → parse_multi_dct_nft_transfer core unmarshal own
          (rcv ∷ to_bytes (length (s ∷ ss)) ∷ (sent_args (s ∷ ss) ++ tail))
        ≡ ok (record {
          dct_transfers = map (as_transfer core) (s ∷ ss);
          rcv_addr = rcv;
          call_function = function_of tail;
          call_args = drop 1 tail;
        })
  unfolding parse_multi_dct_nft_transfer is_uint64
  parse_multi-sent_at_sender own rcv s ss tail same large room fits =
      let n = length (s ∷ ss) in
      let pre : List Bytes = rcv ∷ to_bytes n ∷ [] in
      let parsed =
        parse_transfers-sent rcv pre tail (s ∷ ss) true (omega arith) (omega arith) fits in
      rw (set_bytes-to_bytes n) (ground (arith, parsed))
