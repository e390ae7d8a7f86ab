-- ===== src/Address/Kinds.antt =====
-- What the tests of address.go decide.
use k_vm_common_go.Prelude.{
  ℕ, suc, ◌<◌, ◌≡◌, ◌≢◌, ◌↔◌, refl, ◌∙◌, arith, inl, inr, Bool-cases, true, false, ltb, [], ◌∷◌,
  ◌++◌, Bytes, length, length-append, starts_with_iff, le→not_ltb, cons-ne-nil, ◌-◌, drop,
  replicate, bytes_equal, bytes_equal→eq, All,
}
use k_vm_common_go.Core.{Core}
use k_vm_common_go.Address.{
  is_empty_address, is_smart_contract_address, is_metachain_identifier, all_metachain,
  is_smart_contract_on_metachain, is_allowed_to_save_under_key,
}

-- A key is refused exactly if it is the protected prefix with anything behind it.
pub is_allowed_to_save_under_key_iff :
    (core : Core) (key : Bytes)
    → (is_allowed_to_save_under_key core key ≡ false)
      ↔ ((rest : Bytes) × (key ≡ core.protected_key_prefix ++ rest))
unfolding is_allowed_to_save_under_key
is_allowed_to_save_under_key_iff core key =
    let p = core.protected_key_prefix in
    (
      λ e. (starts_with_iff p key).0 (ground arith),
      λ (rest, e).
          let same = (starts_with_iff p key).1 (rest, e) in
          let short : ltb (length key) (length p) ≡ false =
            le→not_ltb (length key) (length p) (rw e (omega (arith, length-append p rest))) in
          rw (short, same),
    )

abbrev pub zeros : Bytes
zeros = replicate 8 0

replicate-starts_with : (n : ℕ) → 10 < n → replicate n 0 ≡ zeros ++ drop 8 (replicate n 0)
replicate-starts_with n h =
    let e : n ≡ suc (suc (suc (suc (suc (suc (suc (suc (n - 8)))))))) = omega arith in rw e

-- An address is that of a smart contract exactly if it is longer than ten bytes and the first
-- eight are zero: an address of zeros alone, which the code tests for first, is no further case.
pub is_smart_contract_address_iff :
    (address : Bytes)
    → (is_smart_contract_address address ≡ true)
      ↔ ((10 < length address) × (rest : Bytes) × (address ≡ zeros ++ rest))
unfolding is_smart_contract_address is_empty_address
is_smart_contract_address_iff address = (
  λ e. elim (Bool-cases (bytes_equal address (replicate (length address) 0))) [
    | inl empty ↦
        let long : 10 < length address = ground arith in
        (
          long,
          drop 8 (replicate (length address) 0),
          bytes_equal→eq address _ empty ∙ replicate-starts_with (length address) long,
        )
    | inr other ↦
        let (rest, spelled) = (starts_with_iff zeros address).0 (ground arith) in
        (ground arith, rest, spelled)
  ],
  λ (long, rest, spelled). ground (arith, (starts_with_iff zeros address).1 (rest, spelled)),
)

all_metachain_sound : (s : Bytes) → all_metachain s ≡ true → All (λ b. b ≡ 255) s
unfolding all_metachain
all_metachain_sound [] e = tt
all_metachain_sound (b ∷ s) e = (ground arith, all_metachain_sound s (ground arith))

all_metachain_complete : (s : Bytes) → All (λ b. b ≡ 255) s → all_metachain s ≡ true
unfolding all_metachain
all_metachain_complete [] h = refl
all_metachain_complete (b ∷ s) (hb, h) = ground (arith, all_metachain_complete s h)

-- An identifier is the metachain's exactly if it is not empty and each of its bytes is 255.
pub is_metachain_identifier_iff :
    (identifier : Bytes)
    → (is_metachain_identifier identifier ≡ true)
      ↔ ((identifier ≢ []) × All (λ b. b ≡ 255) identifier)
unfolding is_metachain_identifier
is_metachain_identifier_iff [] = (λ e. cc, λ h. absurd (h.0 refl))
is_metachain_identifier_iff (b ∷ s) = (
  λ e. (cons-ne-nil b s, all_metachain_sound (b ∷ s) (ground arith)),
  λ h. ground (arith, all_metachain_complete (b ∷ s) h.1),
)

-- A contract on the metachain: a contract's address, the metachain's identifier, more than 25 bytes,
-- and fifteen zeros behind the first ten.
pub is_smart_contract_on_metachain_iff :
    (identifier address : Bytes)
    → (is_smart_contract_on_metachain identifier address ≡ true) ↔ (
        (25 < length address)
        × (is_metachain_identifier identifier ≡ true)
        × (is_smart_contract_address address ≡ true)
        × (rest : Bytes) × (drop 10 address ≡ replicate 15 0 ++ rest))
unfolding is_smart_contract_on_metachain
is_smart_contract_on_metachain_iff identifier address = (
  λ e.
      let (rest, spelled) = (starts_with_iff (replicate 15 0) (drop 10 address)).0 (ground arith) in
      (ground arith, ground arith, ground arith, rest, spelled),
  λ (long, meta, contract, rest, spelled).
      ground (arith, (starts_with_iff (replicate 15 0) (drop 10 address)).1 (rest, spelled)),
)
