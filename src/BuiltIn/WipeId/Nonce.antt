-- ===== src/BuiltIn/WipeId/Nonce.antt =====
-- When the identifier and the nonce are read back from the argument that is made of them.
use k_vm_common_go.Prelude.{
  ℕ, ◌%◌, ◌<◌, ◌≡◌, ◌≢◌, refl, sym, ap, ◌∙◌, arith, leb, true, false, List, [], ◌∷◌, ◌++◌,
  append_assoc, Bytes, All-append, length, length-append, take, drop, take-append_length,
  drop-append_length,
}
use k_vm_common_go.Go.Text.{split}
use k_vm_common_go.Go.Text.Split.{Lacks, split-append, split-part}
use k_vm_common_go.Go.BigInt.{word, set_bytes, to_bytes, uint64, read_from}
use k_vm_common_go.Go.BigInt.RoundTrip.{set_bytes-to_bytes}
use k_vm_common_go.BuiltIn.WipeId.{
  dct_identifier_separator, read_parts, extract_token_identifier_and_nonce_dct_wipe,
}

-- The identifier of a token, and the argument that names a token with the bytes of a nonce.
abbrev pub identifier_of : Bytes → Bytes → Bytes
identifier_of ticker random = ticker ++ (dct_identifier_separator ∷ random)

abbrev pub argument_of : Bytes → Bytes → Bytes → Bytes
argument_of ticker random nonce = ticker ++ (dct_identifier_separator ∷ (random ++ nonce))

take_random :
    (random tail : Bytes)
    → length random ≡ 6
    → (take 6 (random ++ tail) ≡ random) × (drop 6 (random ++ tail) ≡ tail)
take_random random tail h =
    rw (← h) (take-append_length random tail, drop-append_length random tail)

read_parts-long :
    (args ticker random : Bytes) (b : ℕ) (tail : Bytes) (rest : List Bytes)
    → length random ≡ 6
    → read_parts args (ticker ∷ (random ++ (b ∷ tail)) ∷ rest)
      ≡ (identifier_of ticker random, uint64 (set_bytes (b ∷ tail)))
unfolding read_parts
read_parts-long args ticker random b tail rest h =
    let (first, second) = take_random random (b ∷ tail) h in
    let count = length-append random (b ∷ tail) in
    let long : leb (length (random ++ (b ∷ tail))) 6 ≡ false = ground arith in
    rw (long, first, second) refl

read_parts-short :
    (args ticker random : Bytes) (rest : List Bytes)
    → length random ≡ 6
    → read_parts args (ticker ∷ random ∷ rest) ≡ (args, 0)
unfolding read_parts
read_parts-short args ticker random rest h =
    let short : leb (length random) 6 ≡ true = ground arith in rw short refl

read_nonce :
    (args ticker random s : Bytes) (nonce : ℕ)
    → length random ≡ 6
    → set_bytes s ≡ nonce
    → 0 < nonce
    → nonce < word
    → read_parts args (ticker ∷ (random ++ s) ∷ []) ≡ (identifier_of ticker random, nonce)
unfolding set_bytes read_from uint64
read_nonce args ticker random [] nonce six value positive small = absurd (omega (arith, value))
read_nonce args ticker random (b ∷ tail) nonce six value positive small =
    let modulo : nonce % word ≡ nonce = ground arith in
    read_parts-long args ticker random b tail [] six
    ∙ ap (λ n. (identifier_of ticker random, n)) (ap (λ n. n % word) value ∙ modulo)

module _ (ticker random : Bytes) (no_dash : Lacks dct_identifier_separator ticker)
    (none_in_random : Lacks dct_identifier_separator random) (six : length random ≡ 6) where
  -- Where neither the ticker nor the six random characters nor the bytes of the nonce have a dash,
  -- and the nonce is a uint64 and not zero, the identifier and the nonce are read back from the
  -- argument that is made of them.
  pub extract-argument :
      (nonce : ℕ)
      → 0 < nonce
      → nonce < word
      → Lacks dct_identifier_separator (to_bytes nonce)
      → extract_token_identifier_and_nonce_dct_wipe (argument_of ticker random (to_bytes nonce))
        ≡ (identifier_of ticker random, nonce)
  unfolding extract_token_identifier_and_nonce_dct_wipe
  extract-argument nonce positive small lacks =
      let both =
        All-append (λ c. c ≢ dct_identifier_separator) random (to_bytes nonce) none_in_random
          lacks in
      rw
        (
          split-append dct_identifier_separator ticker (random ++ to_bytes nonce) no_dash,
          split-part dct_identifier_separator (random ++ to_bytes nonce) both,
        )
        (read_nonce _ ticker random (to_bytes nonce) nonce six (set_bytes-to_bytes nonce) positive
          small)

  -- Where neither the ticker nor the six random characters have a dash, a dash among the bytes of the
  -- nonce cuts it: if it is the first of them, the whole argument is taken for the identifier and the
  -- nonce for zero, and if bytes without a dash stand before it, these alone are the nonce.
  pub extract-dash_in_nonce :
      (b : ℕ) (before after : Bytes)
      → Lacks dct_identifier_separator (b ∷ before)
      → (extract_token_identifier_and_nonce_dct_wipe
            (argument_of ticker random (dct_identifier_separator ∷ after))
          ≡ (argument_of ticker random (dct_identifier_separator ∷ after), 0))
        × (extract_token_identifier_and_nonce_dct_wipe
              (argument_of ticker random ((b ∷ before) ++ (dct_identifier_separator ∷ after)))
            ≡ (identifier_of ticker random, uint64 (set_bytes (b ∷ before))))
  unfolding extract_token_identifier_and_nonce_dct_wipe
  extract-dash_in_nonce b before after lacks =
      let dash = dct_identifier_separator in
      let both = All-append (λ c. c ≢ dash) random (b ∷ before) none_in_random lacks in
      let grouped : random ++ ((b ∷ before) ++ (dash ∷ after))
          ≡ (random ++ (b ∷ before)) ++ (dash ∷ after) =
        sym (append_assoc random (b ∷ before) (dash ∷ after)) in
      (
        rw
            (
              split-append dash ticker (random ++ (dash ∷ after)) no_dash,
              split-append dash random after none_in_random,
            )
            (read_parts-short _ ticker random (split dash after) six),
        rw
            (
              split-append dash ticker (random ++ ((b ∷ before) ++ (dash ∷ after))) no_dash,
              ap (split dash) grouped,
              split-append dash (random ++ (b ∷ before)) after both,
            )
            (read_parts-long _ ticker random b before (split dash after) six),
      )
