-- ===== src/Container/Distinct.antt =====
-- Every key stands once in the map, whatever was done to it.
use k_vm_common_go.Prelude.{
  ◌≡◌, inl, inr, refl, Bool-cases, false, none, some, List, [], ◌∷◌, Bytes, bytes_equal,
  bytes_equal_refl, bytes_equal→eq, bytes_equal-swap,
}
use k_vm_common_go.Container.{MutexMap, get, set, remove, keys}

abbrev pub Lacks : Bytes → List Bytes → Type 0
Lacks key [] = Unit
Lacks key (k ∷ ks) = (bytes_equal k key ≡ false) × Lacks key ks

-- No key of the list stands behind itself.
abbrev pub AreDistinct : List Bytes → Type 0
AreDistinct [] = Unit
AreDistinct (k ∷ ks) = Lacks k ks × AreDistinct ks

module _ {ℓ} {V : Type ℓ} where
  pub get-Lacks : (m : MutexMap V) (key : Bytes) → Lacks key (keys m) → get m key ≡ none
  unfolding get keys
  get-Lacks [] key l = refl
  get-Lacks ((k, v) ∷ m) key (ne, l) = rw ne (get-Lacks m key l)

  pub get-set_same : (m : MutexMap V) (key : Bytes) (v : V) → get (set m key v) key ≡ some v
  unfolding get set
  get-set_same [] key v = rw (bytes_equal_refl key) refl
  get-set_same ((k, u) ∷ m) key v = elim (Bool-cases (bytes_equal k key)) [
    | inl e ↦ rw (e, e) refl
    | inr e ↦ rw (e, e) (get-set_same m key v)
  ]

  pub get-set_other :
      (m : MutexMap V) (key j : Bytes) (v : V)
      → bytes_equal key j ≡ false
      → get (set m key v) j ≡ get m j
  unfolding get set
  get-set_other [] key j v ne = rw ne refl
  get-set_other ((k, u) ∷ m) key j v ne = elim (Bool-cases (bytes_equal k key)) [
    | inl e ↦ let same = bytes_equal→eq k key e in rw (e, same, ne) refl
    | inr e ↦ rw (e, get-set_other m key j v ne) refl
  ]

  pub get-remove_same :
      (m : MutexMap V) (key : Bytes) → AreDistinct (keys m) → get (remove m key) key ≡ none
  unfolding get remove keys
  get-remove_same [] key d = refl
  get-remove_same ((k, u) ∷ m) key (l, d) = elim (Bool-cases (bytes_equal k key)) [
    | inl e ↦ let same = bytes_equal→eq k key e in rw e (get-Lacks m key (rw (← same) l))
    | inr e ↦ rw (e, e) (get-remove_same m key d)
  ]

  pub get-remove_other :
      (m : MutexMap V) (key j : Bytes) → bytes_equal key j ≡ false → get (remove m key) j ≡ get m j
  unfolding get remove
  get-remove_other [] key j ne = refl
  get-remove_other ((k, u) ∷ m) key j ne = elim (Bool-cases (bytes_equal k key)) [
    | inl e ↦ let same = bytes_equal→eq k key e in rw (e, same, ne) refl
    | inr e ↦ rw (e, get-remove_other m key j ne) refl
  ]

  Lacks-set :
      (m : MutexMap V) (key j : Bytes) (v : V)
      → bytes_equal key j ≡ false
      → Lacks j (keys m)
      → Lacks j (keys (set m key v))
  unfolding set keys
  Lacks-set [] key j v ne l = (ne, tt)
  Lacks-set ((k, u) ∷ m) key j v ne (first, l) = elim (Bool-cases (bytes_equal k key)) [
    | inl e ↦ rw e (first, l)
    | inr e ↦ rw e (first, Lacks-set m key j v ne l)
  ]

  Lacks-remove : (m : MutexMap V) (key j : Bytes) → Lacks j (keys m) → Lacks j (keys (remove m key))
  unfolding remove keys
  Lacks-remove [] key j l = tt
  Lacks-remove ((k, u) ∷ m) key j (first, l) = elim (Bool-cases (bytes_equal k key)) [
    | inl e ↦ rw e l
    | inr e ↦ rw e (first, Lacks-remove m key j l)
  ]

  pub keys-set-AreDistinct :
      (m : MutexMap V) (key : Bytes) (v : V)
      → AreDistinct (keys m)
      → AreDistinct (keys (set m key v))
  unfolding set keys
  keys-set-AreDistinct [] key v d = (tt, tt)
  keys-set-AreDistinct ((k, u) ∷ m) key v (l, d) = elim (Bool-cases (bytes_equal k key)) [
    | inl e ↦ rw e (l, d)
    | inr e ↦
        rw e (Lacks-set m key k v (bytes_equal-swap k key e) l, keys-set-AreDistinct m key v d)
  ]

  pub keys-remove-AreDistinct :
      (m : MutexMap V) (key : Bytes) → AreDistinct (keys m) → AreDistinct (keys (remove m key))
  unfolding remove keys
  keys-remove-AreDistinct [] key d = tt
  keys-remove-AreDistinct ((k, u) ∷ m) key (l, d) = elim (Bool-cases (bytes_equal k key)) [
    | inl e ↦ rw e d
    | inr e ↦ rw e (Lacks-remove m key k l, keys-remove-AreDistinct m key d)
  ]
