-- ===== src/BuiltIn/Transfer/Totals.antt =====
-- The balances before and after a transfer between two accounts of the shard, or within one.
use k_vm_common_go.Prelude.{
  ℕ, ◌<◌, ◌≤◌, ◌≡◌, ◌≢◌, ◌⊎◌, inl, inr, refl, sym, ◌∙◌, ap, arith, subst, Bool, false, some, Bytes,
  ok, at,
}
use k_vm_common_go.Prelude.Int.{ℤ, pos, neg, ◌+ℤ◌, +ℤ_parts, neg_parts, eq_of_parts}
use k_vm_common_go.Core.{Core}
use k_vm_common_go.Go.BigInt.{set_bytes}
use k_vm_common_go.BuiltIn.Errors.{BuiltInError}
use k_vm_common_go.BuiltIn.Host.{Host, IsStore, IsMarshaller}
use k_vm_common_go.BuiltIn.Calls.{ContractCallInput, VmOutput, is_negative}
use k_vm_common_go.BuiltIn.GlobalSettings.{token_key}
use k_vm_common_go.BuiltIn.Balance.Laws.{Holds, ChangesOnly, IsChange}
use k_vm_common_go.BuiltIn.Transfer.{DctTransferFunc, process_transfer}
use k_vm_common_go.BuiltIn.Transfer.Conservation.{
  IsTransfer, IsTransfer-sound, Holds-unique, Holds-kept,
}

moved_total : (x y v : ℤ) → (x +ℤ neg v) +ℤ (y +ℤ v) ≡ x +ℤ y
moved_total x y v = eq_of_parts _ _ (
    ground (
      arith,
      +ℤ_parts x (neg v),
      neg_parts v,
      +ℤ_parts y v,
      +ℤ_parts (x +ℤ neg v) (y +ℤ v),
      +ℤ_parts x y,
    ))

back_again : (x v : ℤ) → (x +ℤ neg v) +ℤ v ≡ x
back_again x v =
    eq_of_parts _ _ (ground (arith, +ℤ_parts x (neg v), neg_parts v, +ℤ_parts (x +ℤ neg v) v))

module _ (h : Host) (core : Core) (store : IsStore h) (marshaller : IsMarshaller h)
    (e : DctTransferFunc) where
  -- The first argument of the call names the token, the second the amount, which is positive, and
  -- the gas provided covers the cost.
  pub record IsRequest (input : ContractCallInput) (token : Bytes) (amount : ℕ) : Type 0 where
    pub token_named : at {E = BuiltInError} input.arguments 0 ≡ ok token
    pub value_bytes : Bytes
    pub value_named : at {E = BuiltInError} input.arguments 1 ≡ ok value_bytes
    pub value : set_bytes value_bytes ≡ amount
    pub positive : 0 < amount
    pub paid : e.func_gas_cost ≤ input.gas_provided

  -- The amount moved from `a` to `b`, and nothing else changed.
  pub record IsMoved (w w' : h.World) (a b : h.Account) (k : Bytes) (v : ℤ) : Type 0 where
    pub x : ℤ
    pub y : ℤ
    pub sender_had : Holds h core w a k x
    pub receiver_had : Holds h core w b k y
    pub sender_has : Holds h core w' a k (x +ℤ neg v)
    pub receiver_has : Holds h core w' b k (y +ℤ v)
    pub enough : is_negative (x +ℤ neg v) ≡ false
    pub total : (x +ℤ neg v) +ℤ (y +ℤ v) ≡ x +ℤ y
    pub others :
        (c : h.Account) (j : Bytes)
        → ((c ≢ a) × (c ≢ b)) ⊎ (j ≢ k)
        → h.retrieve_value w' c j ≡ h.retrieve_value w c j

  IsRequest-of :
      (w w' : h.World) (a b : h.Account) (input : ContractCallInput)
      → (t : IsTransfer h core store marshaller e w w' a b input)
      → IsRequest input t.token (set_bytes t.value_bytes)
  IsRequest-of w w' a b input t = record {
    token_named = t.token_named;
    value_bytes = t.value_bytes;
    value_named = t.value_named;
    value = refl;
    positive = t.positive;
    paid = t.paid;
  }

  IsMoved-of :
      (w w1 w' : h.World) (a b : h.Account) (k : Bytes) (v : ℤ) (back : Bool)
      → a ≢ b
      → IsChange h core store marshaller w w1 a k (neg v) back
      → IsChange h core store marshaller w1 w' b k v back
      → IsMoved w w' a b k v
  IsMoved-of w w1 w' a b k v back ne taken given =
      let kept = given.only.others a k (inl ne) in
      let came = taken.only.others b k (inl (λ e. ne (sym e))) in
      record {
        x = taken.old;
        y = given.old;
        sender_had = taken.held;
        receiver_had =
            Holds-kept h core store marshaller e w1 w b k given.old (sym came) given.held;
        sender_has =
            Holds-kept h core store marshaller e w1 w' a k (taken.old +ℤ neg v) kept taken.holds;
        receiver_has = given.holds;
        enough = taken.not_negative;
        total = moved_total taken.old given.old v;
        others = λ c j d. elim d [
          | inl (na, nb) ↦ given.only.others c j (inl nb) ∙ taken.only.others c j (inl na)
          | inr nk ↦ given.only.others c j (inr nk) ∙ taken.only.others c j (inr nk)
        ];
      }

  -- Where the data tries hold what is saved and the marshaller reads back what it wrote: a transfer
  -- between two different accounts of the shard that succeeds names a token and a positive amount,
  -- and the gas provided covers its cost; the sender held at least the amount, holds that much less
  -- afterwards, the destination holds that much more, the sum of the two balances is what it was,
  -- and every other entry of every account is as before.
  pub transfer-moves_value :
      (w w' : h.World) (a b : h.Account) (input : ContractCallInput) (out : VmOutput)
      → process_transfer h core e w (some a) (some b) (some input) ≡ ok (out, w')
      → a ≢ b
      → (token : Bytes) × (amount : ℕ) × IsRequest input token amount
        × IsMoved w w' a b (token_key core token) (pos amount)
  transfer-moves_value w w' a b input out done ne =
      let t = IsTransfer-sound h core store marshaller e w w' a b input out done in
      (
        t.token,
        set_bytes t.value_bytes,
        IsRequest-of w w' a b input t,
        IsMoved-of w t.between w' a b _ _ _ ne t.taken t.given,
      )

  -- Where the data tries hold what is saved and the marshaller reads back what it wrote: a transfer
  -- of an account to itself that succeeds names a token and a positive amount that the account held
  -- at least, and the gas provided covers its cost; it leaves the balance and every other entry of
  -- every account as they were.
  pub transfer-self_keeps_value :
      (w w' : h.World) (a : h.Account) (input : ContractCallInput) (out : VmOutput)
      → process_transfer h core e w (some a) (some a) (some input) ≡ ok (out, w')
      → (token : Bytes) × (amount : ℕ) × (x : ℤ) × IsRequest input token amount
        × (is_negative (x +ℤ neg (pos amount)) ≡ false)
        × Holds h core w a (token_key core token) x
        × Holds h core w' a (token_key core token) x
        × ChangesOnly h core w w' a (token_key core token)
  transfer-self_keeps_value w w' a input out done =
      let t = IsTransfer-sound h core store marshaller e w w' a a input out done in
      let v = pos (set_bytes t.value_bytes) in
      let k = token_key core t.token in
      let x = t.taken.old in
      let same : t.given.old ≡ x +ℤ neg v =
        Holds-unique h core store marshaller e t.between a k _ _ t.given.held t.taken.holds in
      let back : t.given.old +ℤ v ≡ x = ap (λ z. z +ℤ v) same ∙ back_again x v in
      (
        t.token,
        set_bytes t.value_bytes,
        x,
        IsRequest-of w w' a a input t,
        t.taken.not_negative,
        t.taken.held,
        subst (λ z. Holds h core w' a k z) back t.given.holds,
        record { others = λ c j ne. t.given.only.others c j ne ∙ t.taken.only.others c j ne },
      )
