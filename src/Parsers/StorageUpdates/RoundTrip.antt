-- ===== src/Parsers/StorageUpdates/RoundTrip.antt =====
-- `GetStorageUpdates` reads what `CreateDataFromStorageUpdate` writes, and never panics.
use k_vm_common_go.Prelude.{
  ◌%◌, ◌==◌, ◌≡◌, ◌≢◌, refl, sym, ap, arith, List, [], ◌∷◌, ◌++◌, append_assoc, append-nil, Bytes,
  All, AreBytes, length, ok, panic, ◌>>◌, >>=-eq-ok, >>=-ne-panic, inl, inr, Bool-cases,
}
use k_vm_common_go.Go.Hex.{encode_to_string}
use k_vm_common_go.Go.Hex.RoundTrip.{encode_to_string-Lacks, encode_to_string-ne-nil}
use k_vm_common_go.Go.Text.Split.{Lacks}
use k_vm_common_go.Parsers.Tokens.{
  at_separator, tokenize, decode_token, trim_leading_separator_char, require_num_tokens_is_even,
}
use k_vm_common_go.Parsers.Tokens.Encoded.{
  transaction_data, encoded, tokenize-transaction_data, decode_token-encode_to_string,
  decode_token-ne-panic,
}
use k_vm_common_go.Parsers.Tokens.Spelling.{IsTokensOf, tokenize_sound, tokenize-ne-panic}
use k_vm_common_go.Parsers.StorageUpdates.{
  StorageUpdate, read_updates, get_storage_updates, create_data_from_storage_update,
}

abbrev pub HasBytes : StorageUpdate → Type 0
HasBytes u = AreBytes u.offset × AreBytes u.payload

-- The byte strings of the updates, in the order of the text.
abbrev fields : List StorageUpdate → List Bytes
fields [] = []
fields (u ∷ us) = u.offset ∷ u.payload ∷ fields us

fields-AreBytes : (us : List StorageUpdate) → All HasBytes us → All AreBytes (fields us)
fields-AreBytes [] h = tt
fields-AreBytes (u ∷ us) ((ho, hp), h) = (ho, (hp, fields-AreBytes us h))

create_data_text :
    (u : StorageUpdate) (us : List StorageUpdate)
    → create_data_from_storage_update (u ∷ us)
      ≡ transaction_data (encode_to_string u.offset) (u.payload ∷ fields us)
unfolding create_data_from_storage_update
create_data_text u [] =
    ap (λ t. encode_to_string u.offset ++ (at_separator ∷ t)) (sym (append-nil _))
create_data_text u (v ∷ us) = rw (append_assoc, create_data_text v us)

read_updates-fields :
    (us : List StorageUpdate) → All HasBytes us → read_updates (encoded (fields us)) ≡ ok us
unfolding read_updates
read_updates-fields [] h = refl
read_updates-fields (u ∷ us) ((ho, hp), h) = rw (
  decode_token-encode_to_string u.offset ho,
  decode_token-encode_to_string u.payload hp,
  read_updates-fields us h,
)

even-fields : (us : List StorageUpdate) → length (encoded (fields us)) % 2 ≡ 0
even-fields [] = refl
even-fields (u ∷ us) = omega (arith, even-fields us)

trim-append :
    (first rest : Bytes)
    → first ≢ []
    → Lacks at_separator first
    → trim_leading_separator_char (first ++ rest) ≡ first ++ rest
unfolding trim_leading_separator_char
trim-append [] rest ne h = absurd (ne refl)
trim-append (c ∷ first) rest ne (hc, h) = ground arith

trim_separator : (text : Bytes) → trim_leading_separator_char (at_separator ∷ text) ≡ text
unfolding trim_leading_separator_char
trim_separator text = refl

read_encoded :
    (us : List StorageUpdate)
    → All HasBytes us
    → (require_num_tokens_is_even (encoded (fields us)) >> read_updates (encoded (fields us)))
      ≡ ok us
unfolding require_num_tokens_is_even
read_encoded us h = ground (arith, even-fields us, read_updates-fields us h)

module _ (u : StorageUpdate) (us : List StorageUpdate) (ne : u.offset ≢ [])
    (h : All HasBytes (u ∷ us)) where
  text : Bytes
  text = transaction_data (encode_to_string u.offset) (u.payload ∷ fields us)

  tokenize-text : tokenize text ≡ ok (encoded (fields (u ∷ us)))
  unfolding text
  tokenize-text =
      tokenize-transaction_data (encode_to_string u.offset) (u.payload ∷ fields us)
        (encode_to_string-ne-nil u.offset ne) (encode_to_string-Lacks u.offset h.0.0)
        (h.0.1, fields-AreBytes us h.1)

  trim-text : trim_leading_separator_char text ≡ text
  unfolding text
  trim-text =
      trim-append (encode_to_string u.offset) _ (encode_to_string-ne-nil u.offset ne)
        (encode_to_string-Lacks u.offset h.0.0)

  -- Updates whose first offset is not empty are read back from the text that is made of them, with
  -- a leading separator or without.
  pub get_storage_updates-create_data :
      (get_storage_updates (create_data_from_storage_update (u ∷ us)) ≡ ok (u ∷ us))
      × (get_storage_updates (at_separator ∷ create_data_from_storage_update (u ∷ us))
          ≡ ok (u ∷ us))
  unfolding get_storage_updates
  get_storage_updates-create_data =
      let written : create_data_from_storage_update (u ∷ us) ≡ text =
        unfold text in create_data_text u us in
      (
        rw (written, trim-text, tokenize-text) (read_encoded (u ∷ us) h),
        rw (written, trim_separator text, tokenize-text) (read_encoded (u ∷ us) h),
      )

read_updates-ne-panic : (tokens : List Bytes) → length tokens % 2 ≡ 0 → read_updates tokens ≢ panic
unfolding read_updates
read_updates-ne-panic [] h e = cc
read_updates-ne-panic (t ∷ []) h e = absurd (omega arith)
read_updates-ne-panic (t ∷ u ∷ tokens) h e = ground (
  arith,
  decode_token-ne-panic t,
  decode_token-ne-panic u,
  read_updates-ne-panic tokens (omega arith),
)

after_even-ne-panic :
    (tokens : List Bytes) → (require_num_tokens_is_even tokens >> read_updates tokens) ≢ panic
unfolding require_num_tokens_is_even
after_even-ne-panic tokens = elim (Bool-cases (length tokens % 2 == 0)) [
  | inl e ↦ rw e (read_updates-ne-panic tokens (ground arith))
  | inr e ↦ rw e (λ p. cc)
]

-- The parser does not panic on any text: the pairs are complete once the number of tokens is even.
pub get_storage_updates-ne-panic : (text : Bytes) → get_storage_updates text ≢ panic
unfolding get_storage_updates
get_storage_updates-ne-panic text =
    >>=-ne-panic (tokenize (trim_leading_separator_char text)) _
      (tokenize-ne-panic (trim_leading_separator_char text)) λ tokens _. after_even-ne-panic tokens

-- Each pair of tokens decodes to the offset and the value of one update, in order.
pub data Reads : List Bytes → List StorageUpdate → Type 0 where
  reads_none : Reads [] []
  reads_pair :
      {tokens : List Bytes} {us : List StorageUpdate} (t v : Bytes) (u : StorageUpdate)
      → decode_token t ≡ ok u.offset
      → decode_token v ≡ ok u.payload
      → Reads tokens us
      → Reads (t ∷ v ∷ tokens) (u ∷ us)

read_updates_sound :
    (tokens : List Bytes) (us : List StorageUpdate) → read_updates tokens ≡ ok us → Reads tokens us
unfolding read_updates
read_updates_sound [] us h = let e : [] ≡ us = cc in rw (← e) reads_none
read_updates_sound (t ∷ []) us h = let (_, _, k) = >>=-eq-ok (decode_token t) _ h in cc
read_updates_sound (t ∷ v ∷ tokens) us h =
    let (offset, o, h') = >>=-eq-ok (decode_token t) _ h in
    let (value, p, h'') = >>=-eq-ok (decode_token v) _ h' in
    let (rest, r, last) = >>=-eq-ok (read_updates tokens) _ h'' in
    let u : StorageUpdate = record { offset = offset; payload = value } in
    let e : u ∷ rest ≡ us = cc in rw (← e) (reads_pair t v u o p (read_updates_sound tokens rest r))

-- What a successful parse says: the text without its leading separator is tokens, and these are
-- pairs that decode to the updates.
pub get_storage_updates_sound :
    (text : Bytes) (us : List StorageUpdate)
    → get_storage_updates text ≡ ok us
    → (tokens : List Bytes) × IsTokensOf (trim_leading_separator_char text) tokens × Reads tokens us
unfolding get_storage_updates
get_storage_updates_sound text us h =
    let trimmed = trim_leading_separator_char text in
    let (tokens, t, k) = >>=-eq-ok (tokenize trimmed) _ h in
    let (_, _, r) = >>=-eq-ok (require_num_tokens_is_even tokens) _ k in
    (tokens, tokenize_sound trimmed tokens t, read_updates_sound tokens us r)
