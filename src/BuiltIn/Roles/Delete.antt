-- ===== src/BuiltIn/Roles/Delete.antt =====
-- `deleteRoles` takes one occurrence of a role away for each time that it is named.
use k_vm_common_go.Prelude.{
  ℕ, suc, ◌+◌, ◌-◌, ◌≡◌, refl, arith, inl, inr, Bool-cases, if◌then◌else◌, List, [], ◌∷◌, Bytes,
  bytes_equal, bytes_equal_iff, Option, none, some,
}
use k_vm_common_go.BuiltIn.Roles.{
  role_index, does_role_exist, remove_at, without_index, delete_roles,
}

-- How often a role is in a list.
abbrev pub count : Bytes → List Bytes → ℕ
count role [] = 0
count role (r ∷ roles) = (if bytes_equal r role then 1 else 0) + count role roles

-- The list without the first occurrence of `role`.
abbrev pub remove_first : Bytes → List Bytes → List Bytes
remove_first role [] = []
remove_first role (r ∷ roles) = if bytes_equal r role then roles else r ∷ remove_first role roles

abbrev next_index : Option ℕ → Option ℕ
next_index none = none
next_index (some i) = some (suc i)

role_index-suc :
    (i : ℕ) (roles : List Bytes) (role : Bytes)
    → role_index (suc i) roles role ≡ next_index (role_index i roles role)
unfolding role_index
role_index-suc i [] role = refl
role_index-suc i (r ∷ roles) role =
    let e : suc i + 1 ≡ suc (i + 1) = omega arith in
    rw e (ground (arith, role_index-suc (i + 1) roles role))

role_index_one :
    (roles : List Bytes) (role : Bytes)
    → role_index (0 + 1) roles role ≡ next_index (role_index 0 roles role)
role_index_one roles role =
    let e : 0 + 1 ≡ suc 0 = omega arith in rw e (role_index-suc 0 roles role)

without_index-next :
    (r : Bytes) (roles : List Bytes) (o : Option ℕ)
    → without_index (r ∷ roles) (next_index o) ≡ r ∷ without_index roles o
unfolding remove_at
without_index-next r roles none = refl
without_index-next r roles (some i) = refl

without_index-first :
    (roles : List Bytes) (role : Bytes)
    → without_index roles (does_role_exist roles role) ≡ remove_first role roles
unfolding does_role_exist role_index remove_at
without_index-first [] role = refl
without_index-first (r ∷ roles) role = elim (Bool-cases (bytes_equal r role)) [
  | inl e ↦ rw e
  | inr e ↦ rw (
    e,
    role_index_one roles role,
    without_index-next r roles (role_index 0 roles role),
    without_index-first roles role,
  )
]

count-remove_first :
    (role named : Bytes) (roles : List Bytes)
    → count role (remove_first named roles)
      ≡ count role roles - (if bytes_equal named role then 1 else 0)
count-remove_first role named [] = ground arith
count-remove_first role named (r ∷ roles) = ground (
  arith,
  count-remove_first role named roles,
  bytes_equal_iff r named,
  bytes_equal_iff r role,
  bytes_equal_iff named role,
)

-- After `deleteRoles`, every role is in the list as often as it was less the times that it is
-- named, and not at all where it is named as often or more.
pub count-delete_roles :
    (role : Bytes) (roles named : List Bytes)
    → count role (delete_roles roles named) ≡ count role roles - count role named
unfolding delete_roles
count-delete_roles role roles [] = omega arith
count-delete_roles role roles (r ∷ named) = rw (without_index-first roles r) (
    omega (
      arith,
      count-delete_roles role (remove_first r roles) named,
      count-remove_first role r roles,
    ))
