-- ===== src/BuiltIn/Roles/Grant.antt =====
-- What a change of roles leaves in the account, and what the account may then do.
use k_vm_common_go.Prelude.{
  ℕ, ◌+◌, ◌≡◌, ◌≢◌, refl, arith, inl, inr, Bool, Bool-cases, true, false, if◌then◌else◌, List, [],
  ◌∷◌, ◌++◌, Bytes, drop, bytes_equal, some, ok, >>=-eq-ok, after_ok, at, guard, cons-ne-nil, subst,
  bytes_equal→eq,
}
use k_vm_common_go.Core.{Core}
use k_vm_common_go.BuiltIn.Errors.{BuiltInError}
use k_vm_common_go.BuiltIn.Host.{Host, answer, lift, IsStore, IsRolesMarshaller, lift-eq-ok}
use k_vm_common_go.BuiltIn.Calls.{ContractCallInput, VmOutput, check_basic_dct_arguments}
use k_vm_common_go.BuiltIn.Calls.Checks.{check-IsBasic_sound, guard-eq-ok}
use k_vm_common_go.BuiltIn.Roles.{
  role_key, role_index, delete_roles, has_role, get_dct_roles_for_acnt, save_roles_to_account,
  save_start_nonce, process_roles, check_allowed_to_execute, roles_of_reply,
}

-- The lists of roles that `changed` stands for, by the kind of the change.
abbrev pub changed_roles : Bool → List Bytes → List Bytes → List Bytes
changed_roles set roles args = if set then roles ++ args else delete_roles roles args

pub role_index-found :
    (i : ℕ) (roles : List Bytes) (role : Bytes)
    → has_role role roles ≡ true
    → (k : ℕ) × (role_index i roles role ≡ some k)
unfolding role_index has_role
role_index-found i [] role h = cc
role_index-found i (r ∷ roles) role h = elim (Bool-cases (bytes_equal r role)) [
  | inl e ↦ (i, rw e)
  | inr e ↦
      let (k, found) = role_index-found (i + 1) roles role (ground (arith, e)) in (k, rw (e, found))
]

has_role-append :
    (role : Bytes) (roles args : List Bytes)
    → has_role role args ≡ true
    → has_role role (roles ++ args) ≡ true
unfolding has_role
has_role-append role [] args h = h
has_role-append role (r ∷ roles) args h = ground (arith, has_role-append role roles args h)

has_role-ne-nil : (role : Bytes) (roles : List Bytes) → has_role role roles ≡ true → roles ≢ []
unfolding has_role
has_role-ne-nil role [] h = cc
has_role-ne-nil role (r ∷ roles) h = cons-ne-nil r roles

module _ (h : Host) (store : IsStore h) (marshaller : IsRolesMarshaller h) where
  answer_of_roles :
      (s : Bytes) (rs : List Bytes)
      → h.marshal_roles rs ≡ answer s
      → (new : Bool) × (roles_of_reply h (answer s) ≡ ok (rs, new)) × (rs ≢ [] → new ≡ false)
  answer_of_roles [] rs e = elim (marshaller.unmarshal-marshal_roles rs [] e) [
    | inl (_, empty) ↦ (true, rw empty, λ n. absurd (n empty))
    | inr (ne, _) ↦ absurd (ne refl)
  ]
  answer_of_roles (b ∷ s) rs e = elim (marshaller.unmarshal-marshal_roles rs (b ∷ s) e) [
    | inl (empty, _) ↦ absurd (cons-ne-nil b s empty)
    | inr (_, back) ↦ (false, rw back, λ n. refl)
  ]

  pub get-save_roles :
      (w w' : h.World) (a : h.Account) (k : Bytes) (rs : List Bytes)
      → save_roles_to_account h w a k rs ≡ ok w'
      → (new : Bool) × (get_dct_roles_for_acnt h w' a k ≡ ok (rs, new)) × (rs ≢ [] → new ≡ false)
  unfolding save_roles_to_account get_dct_roles_for_acnt
  get-save_roles w w' a k rs e =
      let (s, m, e') = >>=-eq-ok (lift (h.marshal_roles rs)) _ e in
      let saved = lift-eq-ok (h.save_key_value w a k s) e' in
      let found = store.retrieve-save_self w w' a k s saved in
      rw found (answer_of_roles s rs (lift-eq-ok (h.marshal_roles rs) m))

  module _ (core : Core) where
    -- A change of roles that succeeded: the DCT system contract called; the token is the first
    -- argument, and the account's roles for it are those from before with the other arguments
    -- appended, or with each of them taken away once.
    pub record IsChangeOf (set : Bool) (w w' : h.World) (a : h.Account) (input : ContractCallInput)
        (token : Bytes) : Type 0 where
      pub named : at {E = BuiltInError} input.arguments 0 ≡ ok token
      pub by_system : input.caller_addr ≡ core.dct_sc_address
      pub before : List Bytes
      pub was_new : Bool
      pub is_new : Bool
      pub held : get_dct_roles_for_acnt h w a (role_key core token) ≡ ok (before, was_new)
      pub holds :
          get_dct_roles_for_acnt h w' a (role_key core token)
          ≡ ok (changed_roles set before (drop 1 input.arguments), is_new)
      pub not_new : changed_roles set before (drop 1 input.arguments) ≢ [] → is_new ≡ false

    change_of :
        (set : Bool) (w w1 w2 w' : h.World) (a : h.Account) (input i : ContractCallInput)
        (token : Bytes) (held : List Bytes × Bool) (out : VmOutput)
        → some input ≡ some i
        → i.caller_addr ≡ core.dct_sc_address
        → at {E = BuiltInError} i.arguments 0 ≡ ok token
        → get_dct_roles_for_acnt h w a (role_key core token) ≡ ok held
        → save_roles_to_account h w1 a
            (role_key core token)
            (changed_roles set held.0 (drop 1 i.arguments))
          ≡ ok w2
        → w2 ≡ w'
        → IsChangeOf set w w' a input token
    change_of set w w1 w2 w' a input i token held out given system named got saved final =
        let (new, found, ne) = get-save_roles w1 w2 a (role_key core token) _ saved in
        let same : i ≡ input = cc in
        subst (λ j. IsChangeOf set w w' a j token) same
          (record {
            named = named;
            by_system = system;
            before = held.0;
            was_new = held.1;
            is_new = new;
            held = got;
            holds = rw (← final) found;
            not_new = ne;
          })

    -- Where the data tries hold what is saved and the marshaller reads back lists of roles: a
    -- change of roles that succeeds was called by the system contract for the token that the first
    -- argument names; the account's roles for the token are those from before with the other
    -- arguments appended, or with each of them taken away once, and the account counts as new for
    -- the token only if none are left.
    pub process_roles_sound :
        (set : Bool) (w w' : h.World) (a : h.Account) (input : ContractCallInput) (out : VmOutput)
        → process_roles h core set w (some a) (some input) ≡ ok (out, w')
        → (token : Bytes) × IsChangeOf set w w' a input token
    unfolding process_roles
    process_roles_sound set w w' a input out e =
        after_ok (check_basic_dct_arguments core (some input)) _ e λ i checked e1.
          after_ok (guard (bytes_equal i.caller_addr core.dct_sc_address) _) _ e1 λ _ system e2.
            after_ok (at i.arguments 0) _ e2 λ token named e3.
              after_ok (get_dct_roles_for_acnt h w a (role_key core token)) _ e3 λ held got e4.
                after_ok (save_start_nonce h core w a token i.recipient_addr (drop 1 i.arguments)) _
                  e4
                  λ w1 _ e5.
                    after_ok
                      (save_roles_to_account h w1 a (role_key core token)
                        (changed_roles set held.0 (drop 1 i.arguments)))
                      _ e5
                      λ w2 saved last. (
                        token,
                        change_of set w w1 w2 w' a input i token held out
                            (check-IsBasic_sound core (some input) i checked).0
                            (bytes_equal→eq i.caller_addr core.dct_sc_address
                              (guard-eq-ok _ _ system))
                            named got saved (cc last),
                      )

    -- Where the data tries hold what is saved and the marshaller reads back lists of roles: after a
    -- call that set roles of an account for a token has succeeded, the account is allowed every
    -- action whose role is among them.
    pub granted-is_allowed :
        (w w' : h.World) (a : h.Account) (input : ContractCallInput) (out : VmOutput)
        (token role : Bytes)
        → process_roles h core true w (some a) (some input) ≡ ok (out, w')
        → at {E = BuiltInError} input.arguments 0 ≡ ok token
        → has_role role (drop 1 input.arguments) ≡ true
        → check_allowed_to_execute h core w' (some a) token role ≡ ok tt
    unfolding check_allowed_to_execute
    granted-is_allowed w w' a input out token role e named asked =
        let (t, c) = process_roles_sound true w w' a input out e in
        let same : t ≡ token = cc (c.named) in
        let all = c.before ++ drop 1 input.arguments in
        let has : has_role role all ≡ true = has_role-append role c.before _ asked in
        let old : c.is_new ≡ false = c.not_new (has_role-ne-nil role all has) in
        let (k, found) = role_index-found 0 all role has in rw (← same, c.holds, old, found)
