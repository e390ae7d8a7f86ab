-- ===== src/BuiltIn/TransferRole/Addresses.antt =====
-- The addresses with the right to a transfer, before and after a call that adds some.
use k_vm_common_go.Prelude.{
  ℕ, ltb, ◌≤◌, ◌≡◌, refl, ◌∙◌, inl, inr, arith, ◌%◌, ◌^◌, not, ◌||◌, Bool, Bool-cases, true, false,
  some, List, [], ◌∷◌, ◌++◌, Bytes, length, drop, bytes_equal, bytes_equal→eq, bytes_equal-swap, ok,
  after_ok, guard, at,
}
use k_vm_common_go.Core.{Core}
use k_vm_common_go.Address.{is_system_account_address}
use k_vm_common_go.BuiltIn.Errors.{
  BuiltInError, address_is_not_dct_system_sc, only_system_account_accepted,
  too_many_transfer_addresses,
}
use k_vm_common_go.BuiltIn.Host.{
  Host, lift, lift-eq-ok, IsStore, KeepsAccounts, IsRolesMarshaller, answer,
}
use k_vm_common_go.BuiltIn.Calls.{ContractCallInput, VmOutput, check_basic_dct_arguments}
use k_vm_common_go.BuiltIn.Calls.Checks.{check-IsBasic_sound, guard-eq-ok}
use k_vm_common_go.BuiltIn.Roles.{has_role, get_dct_roles_for_acnt, save_roles_to_account}
use k_vm_common_go.BuiltIn.Roles.Grant.{get-save_roles}
use k_vm_common_go.BuiltIn.GlobalSettings.{get_system_account, transfer_addresses_key}
use k_vm_common_go.BuiltIn.TransferRole.{append_new, add_new_addresses, process_transfer_address}

-- No address stands twice in the list.
abbrev pub AreDistinct : List Bytes → Type 0
AreDistinct [] = Unit
AreDistinct (address ∷ addresses) = (has_role address addresses ≡ false) × AreDistinct addresses

has_role-snoc :
    (x y : Bytes) (addresses : List Bytes)
    → has_role x (addresses ++ (y ∷ [])) ≡ has_role x addresses || bytes_equal y x
unfolding has_role
has_role-snoc x y [] = ground arith
has_role-snoc x y (a ∷ addresses) = ground (arith, has_role-snoc x y addresses)

different_from :
    (x y : Bytes) (addresses : List Bytes)
    → has_role x addresses ≡ true
    → has_role y addresses ≡ false
    → bytes_equal y x ≡ false
different_from x y addresses there missing = elim (Bool-cases (bytes_equal y x)) [
  | inl e ↦ let same = bytes_equal→eq y x e in absurd (cc (there, missing, same))
  | inr e ↦ e
]

distinct-snoc :
    (y : Bytes) (addresses : List Bytes)
    → AreDistinct addresses
    → has_role y addresses ≡ false
    → AreDistinct (addresses ++ (y ∷ []))
unfolding has_role
distinct-snoc y [] d missing = (refl, tt)
distinct-snoc y (a ∷ addresses) (first, d) missing =
    let other : bytes_equal a y ≡ false = ground (arith, missing) in
    let absent : has_role y addresses ≡ false = ground (arith, missing) in
    (
      has_role-snoc a y addresses ∙ ground (arith, first, bytes_equal-swap a y other),
      distinct-snoc y addresses d absent,
    )

append_new-AreDistinct :
    (addresses others : List Bytes)
    → AreDistinct addresses
    → AreDistinct (append_new addresses others)
unfolding append_new
append_new-AreDistinct addresses [] d = d
append_new-AreDistinct addresses (y ∷ others) d = elim (Bool-cases (has_role y addresses)) [
  | inl e ↦ rw e (append_new-AreDistinct addresses others d)
  | inr e ↦
      rw e (append_new-AreDistinct (addresses ++ (y ∷ [])) others (distinct-snoc y addresses d e))
]

has_role-append_new :
    (x : Bytes) (addresses others : List Bytes)
    → has_role x (append_new addresses others) ≡ has_role x addresses || has_role x others
unfolding append_new has_role
has_role-append_new x addresses [] = ground arith
has_role-append_new x addresses (y ∷ others) = elim (Bool-cases (has_role y addresses)) [
  | inl e ↦ rw e (
      has_role-append_new x addresses others ∙ elim (Bool-cases (bytes_equal y x)) [
        | inl same ↦
            let there : has_role x addresses ≡ true = rw (← bytes_equal→eq y x same) e in
            ground (arith, there, same)
        | inr other ↦ ground (arith, other)
      ])
  | inr e ↦ rw e (
      has_role-append_new x (addresses ++ (y ∷ [])) others
      ∙ ground (arith, has_role-snoc x y addresses))
]

module _ (h : Host) (core : Core) (max_num_addresses : ℕ) where
  -- A call that added addresses: the token is the first argument; the system account has the
  -- addresses from before and those of the arguments, each once if each was there once, and not more
  -- than the bound, which is compared with their number as a uint32.
  pub record IsAddressChange (w w' : h.World) (input : ContractCallInput) : Type 0 where
    pub token : Bytes
    pub named : at {E = BuiltInError} input.arguments 0 ≡ ok token
    pub by_system : input.caller_addr ≡ core.dct_sc_address
    pub system : h.Account
    pub loaded : get_system_account h w ≡ ok system
    pub before : List Bytes
    pub after : List Bytes
    pub was_new : Bool
    pub is_new : Bool
    pub held :
        get_dct_roles_for_acnt h w system (transfer_addresses_key core token) ≡ ok (before, was_new)
    pub holds :
        get_dct_roles_for_acnt h w' system (transfer_addresses_key core token) ≡ ok (after, is_new)
    pub members :
        (x : Bytes) → has_role x after ≡ has_role x before || has_role x (drop 1 input.arguments)
    pub distinct : AreDistinct before → AreDistinct after
    pub bounded : length after % 2 ^ 32 ≤ max_num_addresses

  roles_kept :
      (w w' : h.World) (a b : h.Account) (key : Bytes) (found : List Bytes × Bool)
      → KeepsAccounts h
      → h.save_account w b ≡ answer w'
      → get_dct_roles_for_acnt h w a key ≡ ok found
      → get_dct_roles_for_acnt h w' a key ≡ ok found
  unfolding get_dct_roles_for_acnt
  roles_kept w w' a b key found accounts saved got =
      rw (accounts.retrieve-save_account w w' b a key saved) got

  -- Where data tries hold what is saved, saving keeps the accounts, and lists are read back from
  -- their bytes: a call that adds addresses and succeeds was of the system contract; the system
  -- account then has for the token the addresses from before and those of the arguments and no
  -- other, each once if each was there once, and their number as a uint32 is within the bound.
  pub set_addresses-keep_distinct :
      (store : IsStore h) (accounts : KeepsAccounts h) (marshaller : IsRolesMarshaller h)
      (w w' : h.World) (input : ContractCallInput) (out : VmOutput)
      → process_transfer_address h core max_num_addresses true w (some input) ≡ ok (out, w')
      → IsAddressChange w w' input
  unfolding process_transfer_address add_new_addresses
  set_addresses-keep_distinct store accounts marshaller w w' input out e =
      after_ok (check_basic_dct_arguments core (some input)) _ e λ i checked e1.
        let (given, basic) = check-IsBasic_sound core (some input) i checked in
        let same : input ≡ i = cc (given) in
        rw same (
          after_ok
            (guard (bytes_equal i.caller_addr core.dct_sc_address) address_is_not_dct_system_sc) _
            e1
            λ _ system_called e2.
              after_ok
                (guard (is_system_account_address i.recipient_addr) only_system_account_accepted) _
                e2
                λ _ at_system e3. after_ok (get_system_account h w) _ e3 λ system loaded e4.
                  after_ok (at i.arguments 0) _ e4 λ token named e5.
                    let key = transfer_addresses_key core token in
                    after_ok (get_dct_roles_for_acnt h w system key) _ e5
                      λ (before, was_new) got e6.
                        let all = append_new before (drop 1 i.arguments) in
                        after_ok (add_new_addresses max_num_addresses i.arguments before) _ e6
                          λ changed added e7.
                            after_ok
                              (guard (not (ltb max_num_addresses (length all % 2 ^ 32)))
                                too_many_transfer_addresses)
                              _ added
                              λ _ few final.
                                let is_all : all ≡ changed = cc (final) in
                                after_ok (save_roles_to_account h w system key changed) _ e7
                                  λ w1 saved e8.
                                    after_ok (lift (h.save_account w1 system)) _ e8 λ w2 kept last.
                                      let end : w2 ≡ w' = cc (last) in
                                      let (new, found, _) =
                                        get-save_roles h store marshaller w w1 system key all
                                          (rw is_all saved) in
                                      record {
                                        token = token;
                                        named = named;
                                        by_system =
                                            bytes_equal→eq i.caller_addr core.dct_sc_address
                                              (guard-eq-ok _ _ system_called);
                                        system = system;
                                        loaded = loaded;
                                        before = before;
                                        after = all;
                                        was_new = was_new;
                                        is_new = new;
                                        held = got;
                                        holds =
                                            roles_kept w1 w' system system key (all, new) accounts
                                              (rw (← end)
                                                (lift-eq-ok (h.save_account w1 system) kept))
                                              found;
                                        members =
                                            λ x. has_role-append_new x before (drop 1 i.arguments);
                                        distinct =
                                            append_new-AreDistinct before (drop 1 i.arguments);
                                        bounded = ground (arith, guard-eq-ok _ _ few);
                                      })
