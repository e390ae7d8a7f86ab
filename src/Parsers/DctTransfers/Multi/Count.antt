-- ===== src/Parsers/DctTransfers/Multi/Count.antt =====
-- The number of transfers that a multi transfer announces, against the arguments that it has.
use k_vm_common_go.Prelude.{
  ℕ, zero, suc, ◌+◌, ◌*◌, ◌%◌, ◌≤◌, ◌<◌, ◌==◌, ◌≡◌, refl, ap, arith, inl, inr, ◌⊎◌, Bool-cases,
  Bool, true, false, ltb, ltb→lt, le→not_ltb, not, ◌&&◌, if◌then◌else◌, List, [], ◌∷◌, Bytes,
  length, Option, none, some, Outcome, ok, err, panic, at, after_if, after_panic, >>=-eq-panic,
  at_in_range, >>=-eq-ok, guard,
}
use k_vm_common_go.Prelude.Int.{ℤ}
use k_vm_common_go.Core.{Core}
use k_vm_common_go.Go.BigInt.{word, set_bytes, uint64, is_uint64}
use k_vm_common_go.VmTypes.{DctTransfer, ParsedDctTransfers, max_length_for_value_to_opt_transfer}
use k_vm_common_go.Parsers.Errors.{ParseError, not_enough_arguments}
use k_vm_common_go.Parsers.DctTransfers.{
  create_new_dct_transfer, create_transfers, parse_transfers, parse_multi_dct_nft_transfer,
  call_function_at, args_per_transfer, min_args_for_multi_dct_nft_transfer, make_pointers,
  value_of_token,
}

call_function_total : (args : List Bytes) (i : ℕ) → (f : Bytes) × (call_function_at args i ≡ ok f)
unfolding call_function_at
call_function_total args i = elim (Bool-cases (ltb i (length args))) [
  | inl e ↦
      let (f, h) = at_in_range {E = ParseError} args i (ltb→lt i (length args) e) in (f, rw (e, h))
  | inr e ↦ ([], rw e)
]

-- Whether the first argument is taken for the address of the receiver.
abbrev pub starts_with_address : Bytes → Bytes → Bool
starts_with_address rcv first = length first == length rcv && not (is_uint64 (set_bytes first))

-- The announced number of transfers, as the uint64 that the parser computes with.
abbrev pub announced : Bytes → List Bytes → ℕ
announced rcv (first ∷ second ∷ args) =
    uint64 (if starts_with_address rcv first then set_bytes second else set_bytes first)
announced rcv _ = 0

-- The index of the first transfer's first argument.
abbrev pub first_index : Bytes → List Bytes → ℕ
first_index rcv [] = 1
first_index rcv (first ∷ args) = if starts_with_address rcv first then 2 else 1

value_of_token-panic :
    (read : Outcome Bytes (Option ℤ))
    → value_of_token read ≡ panic
    → (read ≡ ok none) ⊎ (read ≡ panic)
unfolding value_of_token
value_of_token-panic (ok none) e = inl refl
value_of_token-panic (ok (some v)) e = absurd (cc)
value_of_token-panic (err x) e = absurd (cc)
value_of_token-panic panic e = inr refl

module _ (core : Core) (unmarshal : Bytes → Outcome Bytes (Option ℤ)) where
  length-create_transfers :
      (n i start : ℕ) (args : List Bytes) (b : Bool) (ts : List DctTransfer)
      → create_transfers core unmarshal n i start args b ≡ ok ts
      → length ts ≡ n
  unfolding create_transfers
  length-create_transfers zero i start args b [] h = refl
  length-create_transfers zero i start args b (t ∷ ts) h = cc
  length-create_transfers (suc n) i start args b ts h =
      let (t, _, h') = >>=-eq-ok (create_new_dct_transfer core unmarshal _ args b) _ h in
      let (rest, r, last) =
        >>=-eq-ok (create_transfers core unmarshal n (i + 1) start args b) _ h' in
      let e : t ∷ rest ≡ ts = cc in
      rw (← e) (ap suc (length-create_transfers n (i + 1) start args b rest r))

  parse_transfers_count :
      (rcv : Bytes) (num start : ℕ) (b : Bool) (args : List Bytes) (p : ParsedDctTransfers)
      → start ≤ 2
      → parse_transfers core unmarshal rcv num start b args ≡ ok p
      → (length p.dct_transfers ≡ uint64 num)
        × (args_per_transfer * uint64 num + start ≤ length args)
        × (p.rcv_addr ≡ rcv)
  unfolding parse_transfers
  parse_transfers_count rcv num start b args p short h =
      let count = uint64 num in
      let m = (args_per_transfer * count + start) % word in
      let (_, enough, h1) = >>=-eq-ok (guard (not (ltb (length args) m)) _) _ h in
      let (f, _, h2) = >>=-eq-ok (call_function_at args m) _ h1 in
      let (_, made, h3) = >>=-eq-ok (make_pointers count) _ h2 in
      let (ts, r, last) = >>=-eq-ok (create_transfers core unmarshal count 0 start args b) _ h3 in
      let fits : count * 8 < word = ground arith in
      let least : m ≤ length args = ground arith in
      let e : ts ≡ p.dct_transfers = ground arith in
      (rw (← e) (length-create_transfers count 0 start args b ts r), omega arith, ground arith)

  least :
      (count start : ℕ) (args : List Bytes) (e : ParseError)
      → guard (not (ltb (length args) ((args_per_transfer * count + start) % word))) e ≡ ok tt
      → start ≤ 2
      → count * 8 < word
      → start + (0 + count) * args_per_transfer ≤ length args
  least count start args e h short small = ground arith

  -- A multi transfer that is parsed has three arguments for each transfer that it returns, behind
  -- the number of them.
  pub parse_multi_count :
      (rcv : Bytes) (args : List Bytes) (p : ParsedDctTransfers)
      → parse_multi_dct_nft_transfer core unmarshal rcv args ≡ ok p
      → args_per_transfer * length p.dct_transfers + 1 ≤ length args
  unfolding parse_multi_dct_nft_transfer
  parse_multi_count rcv [] p h = cc
  parse_multi_count rcv (first ∷ []) p h = absurd (ground arith)
  parse_multi_count rcv (first ∷ second ∷ rest) p h = ground (
    arith,
    parse_transfers_count first (set_bytes second) 2 true (first ∷ second ∷ rest) p,
    parse_transfers_count rcv (set_bytes first) 1 false (first ∷ second ∷ rest) p,
  )

  -- The three arguments from an index on name a token with a nonce, and the third, longer than an
  -- amount, is a token that the marshaller reads without a value, or panics at.
  pub record IsValueless (args : List Bytes) (index : ℕ) : Type 0 where
    pub nonce : Bytes
    pub marshaled : Bytes
    pub nonce_named : at {E = ParseError} args (index + 1) ≡ ok nonce
    pub marshaled_named : at {E = ParseError} args (index + 2) ≡ ok marshaled
    pub some_nonce : 0 < uint64 (set_bytes nonce)
    pub long : max_length_for_value_to_opt_transfer < length marshaled
    pub valueless : (unmarshal marshaled ≡ ok none) ⊎ (unmarshal marshaled ≡ panic)

  create_new-panic :
      (i : ℕ) (args : List Bytes) (b : Bool)
      → i + 2 < length args
      → length args < word
      → create_new_dct_transfer core unmarshal i args b ≡ panic
      → (b ≡ false) × IsValueless args i
  unfolding create_new_dct_transfer
  create_new-panic i args b h room e =
      let (value, v) = at_in_range {E = ParseError} args (i + 2) (omega arith) in
      let (token, t) = at_in_range {E = ParseError} args i (omega arith) in
      let (nonce, n) = at_in_range {E = ParseError} args (i + 1) (omega arith) in
      let second : (i + 2) % word ≡ i + 2 = omega arith in
      let first : (i + 1) % word ≡ i + 1 = omega arith in
      let e1 = rw (second, first, v, t, n) at e in
      after_if (ltb 0 (uint64 (set_bytes nonce))) _ _ e1
        (λ has e2.
          after_if (not b && ltb max_length_for_value_to_opt_transfer (length value)) _ _ e2
            (λ carried e3. (
              ground (arith, carried),
              record {
                nonce = nonce;
                marshaled = value;
                nonce_named = n;
                marshaled_named = v;
                some_nonce = ltb→lt 0 (uint64 (set_bytes nonce)) has;
                long = ground (arith, carried);
                valueless =
                    value_of_token-panic (unmarshal value)
                      (elim (>>=-eq-panic (value_of_token (unmarshal value)) _ e3) [
                        | inl p ↦ p
                        | inr (x, _, p) ↦ absurd (cc (p))
                      ]);
              },
            ))
            (λ _ e3. absurd (cc (e3))))
        (λ _ e2. absurd (cc (e2)))

  create_transfers-panic :
      (n i start : ℕ) (args : List Bytes) (b : Bool)
      → start + (i + n) * args_per_transfer ≤ length args
      → length args < word
      → create_transfers core unmarshal n i start args b ≡ panic
      → (b ≡ false) × (j : ℕ) × (j < i + n) × IsValueless args (start + j * args_per_transfer)
  unfolding create_transfers
  create_transfers-panic zero i start args b h room e = absurd (cc)
  create_transfers-panic (suc n) i start args b h room e =
      let k = (start + i * args_per_transfer) % word in
      let here : k ≡ start + i * args_per_transfer = omega arith in
      elim (>>=-eq-panic (create_new_dct_transfer core unmarshal k args b) _ e) [
        | inl p ↦
            let (off, found) = create_new-panic k args b (omega arith) room p in
            (off, i, omega arith, rw (← here) found)
        | inr (t, _, e1) ↦
            elim (>>=-eq-panic (create_transfers core unmarshal n (i + 1) start args b) _ e1) [
              | inl p ↦
                  let (off, j, below, found) =
                    create_transfers-panic n (i + 1) start args b (omega arith) room p in
                  (off, j, omega arith, found)
              | inr (ts, _, p) ↦ absurd (cc (p))
            ]
      ]

  parse_transfers-panics_at :
      (rcv : Bytes) (num start : ℕ) (b : Bool) (args : List Bytes)
      → start ≤ 2
      → uint64 num * 8 < word
      → length args < word
      → parse_transfers core unmarshal rcv num start b args ≡ panic
      → (b ≡ false) × (j : ℕ) × (j < uint64 num) × IsValueless args (start + j * args_per_transfer)
  unfolding parse_transfers
  parse_transfers-panics_at rcv num start b args short small room e =
      let count = uint64 num in
      let m = (args_per_transfer * count + start) % word in
      after_panic (guard (not (ltb (length args) m)) _) _ (ground arith) e λ _ enough e1.
        after_panic (call_function_at args m) _ (λ p. let (f, h) = call_function_total args m in cc)
          e1
          λ f _ e2. after_panic (make_pointers count) _ (ground arith) e2 λ _ _ e3.
            elim (>>=-eq-panic (create_transfers core unmarshal count 0 start args b) _ e3) [
              | inl p ↦
                  let (off, j, below, found) =
                    create_transfers-panic count 0 start args b
                      (least count start args _ enough short small) room p in
                  (off, j, omega arith, found)
              | inr (ts, _, p) ↦ absurd (cc (p))
            ]

  -- Where the announced number of pointers has a size that is a uint64, and the number of arguments
  -- is a uint64, the parser panics only where the first argument is the number of transfers, and one
  -- of these names a token with a nonce whose third argument, longer than an amount, is read by the
  -- marshaller as a token without a value, or makes the marshaller panic.
  pub parse_multi-panics_at :
      (rcv : Bytes) (args : List Bytes)
      → announced rcv args * 8 < word
      → length args < word
      → parse_multi_dct_nft_transfer core unmarshal rcv args ≡ panic
      → (first_index rcv args ≡ 1)
        × (j : ℕ) × (j < announced rcv args)
        × IsValueless args (1 + j * args_per_transfer)
  unfolding parse_multi_dct_nft_transfer
  parse_multi-panics_at rcv [] small room e = absurd (cc)
  parse_multi-panics_at rcv (first ∷ []) small room e = absurd (ground arith)
  parse_multi-panics_at rcv (first ∷ second ∷ rest) small room e =
      let args = first ∷ second ∷ rest in
      after_panic
        (guard (not (ltb (length args) min_args_for_multi_dct_nft_transfer)) not_enough_arguments) _
        (ground arith) e
        λ _ enough e1.
          after_if (starts_with_address rcv first) _ _ e1
            (λ sent e2.
              let (at_sender, _, _, _) =
                parse_transfers-panics_at first (set_bytes second) 2 true args (omega arith)
                  (ground (arith, sent)) room e2 in
              absurd (cc (at_sender)))
            (λ arrived e2.
              let (_, j, below, found) =
                parse_transfers-panics_at rcv (set_bytes first) 1 false args (omega arith)
                  (ground (arith, arrived)) room e2 in
              (ground (arith, arrived), j, ground (arith, arrived, below), found))

  parse_transfers-panic :
      (rcv : Bytes) (num start : ℕ) (b : Bool) (args : List Bytes)
      → word ≤ uint64 num * 8
      → (args_per_transfer * uint64 num + start) % word ≤ length args
      → parse_transfers core unmarshal rcv num start b args ≡ panic
  unfolding parse_transfers
  parse_transfers-panic rcv num start b args large wraps =
      let m = (args_per_transfer * uint64 num + start) % word in
      let (f, h) = call_function_total args m in
      rw (le→not_ltb (length args) m wraps, h, le→not_ltb (uint64 num * 8) word large)

  -- Where there are four arguments, the size of the announced number of pointers is no uint64, and
  -- three times the announced number wraps around to a number of arguments that is there, the
  -- parser panics.
  pub parse_multi-panic :
      (rcv : Bytes) (args : List Bytes)
      → 4 ≤ length args
      → word ≤ announced rcv args * 8
      → (args_per_transfer * announced rcv args + first_index rcv args) % word ≤ length args
      → parse_multi_dct_nft_transfer core unmarshal rcv args ≡ panic
  unfolding parse_multi_dct_nft_transfer
  parse_multi-panic rcv [] many large wraps = absurd (omega arith)
  parse_multi-panic rcv (first ∷ []) many large wraps = absurd (omega arith)
  parse_multi-panic rcv (first ∷ second ∷ rest) many large wraps =
      let args = first ∷ second ∷ rest in
      elim (Bool-cases (starts_with_address rcv first)) [
        | inl e ↦ ground (arith, e, parse_transfers-panic first (set_bytes second) 2 true args)
        | inr e ↦ ground (arith, e, parse_transfers-panic rcv (set_bytes first) 1 false args)
      ]
