-- ===== src/Container/Refinement.antt =====
-- The container against its specification: a partial function from names to functions.
use k_vm_common_go.Prelude.{
  ◌≡◌, refl, ap, ◌∙◌, inl, inr, if◌then◌else◌, Bool-cases, Option, Option-cases, none, some, List,
  [], ◌∷◌, Bytes, bytes_equal, bytes_equal→eq, Outcome, ok, err, panic, ℕ,
}
use k_vm_common_go.Container.{
  get, set, insert, remove, keys, ContainerError, invalid_container_key, nil_container_element,
  empty_function_name, container_key_already_exists, Element, built_in_function, Functions,
  as_function, get_function, add_function, replace_function, remove_function, Call, call_get,
  call_add, call_replace, call_remove, Return, function_or_error, error_or_nil, nothing,
}
use k_vm_common_go.Container.Distinct.{
  AreDistinct, get-set_same, get-set_other, get-remove_same, get-remove_other, keys-set-AreDistinct,
  keys-remove-AreDistinct,
}

-- The specification: at most one function for each name.
abbrev pub Registry {ℓ} : Type ℓ → Type ℓ
Registry F = Bytes → Option F

module _ {ℓ} {F : Type ℓ} where
  -- What a change of the container that may fail leaves, and what its caller gets.
  abbrev after_change : {S : Type ℓ} → S → Outcome ContainerError S → Return F × S
  after_change old (ok new) = (error_or_nil (ok tt), new)
  after_change old (err e) = (error_or_nil (err e), old)
  after_change old panic = (error_or_nil panic, old)

  -- One call of the container.
  unfoldable pub call_container : Functions F → Call F → Return F × Functions F
  unfolding get_function add_function replace_function remove_function
  call_container objects (call_get key) = (function_or_error (get_function objects key), objects)
  call_container objects (call_add key f) = after_change objects (add_function objects key f)
  call_container objects (call_replace key f) =
      after_change objects (replace_function objects key f)
  call_container objects (call_remove key) = (nothing, remove_function objects key)

  abbrev pub updated : Registry F → Bytes → Option F → Registry F
  updated s key f j = if bytes_equal key j then f else s j

  abbrev pub found : Option F → Outcome ContainerError F
  found none = err invalid_container_key
  found (some f) = ok f

  abbrev pub register : Registry F → Bytes → F → Option F → Return F × Registry F
  register s key f none = (error_or_nil (ok tt), updated s key (some f))
  register s key f (some old) = (error_or_nil (err container_key_already_exists), s)

  unfoldable pub call_registry : Registry F → Call F → Return F × Registry F
  call_registry s (call_get key) = (function_or_error (found (s key)), s)
  call_registry s (call_add key none) = (error_or_nil (err nil_container_element), s)
  call_registry s (call_add [] (some f)) = (error_or_nil (err empty_function_name), s)
  call_registry s (call_add (b ∷ key) (some f)) = register s (b ∷ key) f (s (b ∷ key))
  call_registry s (call_replace key none) = (error_or_nil (err nil_container_element), s)
  call_registry s (call_replace [] (some f)) = (error_or_nil (err empty_function_name), s)
  call_registry s (call_replace (b ∷ key) (some f)) =
      (error_or_nil (ok tt), updated s (b ∷ key) (some f))
  call_registry s (call_remove key) = (nothing, updated s key none)

  -- What a sequence of calls returns.
  unfoldable pub run_container : Functions F → List (Call F) → List (Return F)
  unfolding call_container
  run_container objects [] = []
  run_container objects (c ∷ calls) =
      let (r, next) = call_container objects c in r ∷ run_container next calls

  unfoldable pub run_registry : Registry F → List (Call F) → List (Return F)
  unfolding call_registry
  run_registry s [] = []
  run_registry s (c ∷ calls) = let (r, next) = call_registry s c in r ∷ run_registry next calls

  abbrev as_element : Option F → Option (Element F)
  as_element none = none
  as_element (some f) = some (built_in_function f)

  -- The container holds what the registry says, every key once.
  pub record Represents (objects : Functions F) (s : Registry F) : Type ℓ where
    pub distinct : AreDistinct (keys objects)
    pub agrees : (key : Bytes) → get objects key ≡ as_element (s key)

  as_function-as_element : (o : Option F) → as_function (as_element o) ≡ found o
  as_function-as_element none = refl
  as_function-as_element (some f) = refl

  set-Represents :
      (objects : Functions F) (s : Registry F) (key : Bytes) (f : F)
      → Represents objects s
      → Represents (set objects key (built_in_function f)) (updated s key (some f))
  set-Represents objects s key f r = record {
    distinct = keys-set-AreDistinct objects key (built_in_function f) r.distinct;
    agrees = λ j. elim (Bool-cases (bytes_equal key j)) [
      | inl e ↦
          let same = bytes_equal→eq key j e in
          rw e (rw (← same) (get-set_same objects key (built_in_function f)))
      | inr e ↦ rw e (get-set_other objects key j (built_in_function f) e ∙ r.agrees j)
    ];
  }

  remove-Represents :
      (objects : Functions F) (s : Registry F) (key : Bytes)
      → Represents objects s
      → Represents (remove objects key) (updated s key none)
  remove-Represents objects s key r = record {
    distinct = keys-remove-AreDistinct objects key r.distinct;
    agrees = λ j. elim (Bool-cases (bytes_equal key j)) [
      | inl e ↦
          let same = bytes_equal→eq key j e in
          rw e (rw (← same) (get-remove_same objects key r.distinct))
      | inr e ↦ rw e (get-remove_other objects key j e ∙ r.agrees j)
    ];
  }

  -- One call: the same is returned, and what the container holds is again what the registry says.
  abbrev IsStep : Return F × Functions F → Return F × Registry F → Type ℓ
  IsStep (a, objects) (b, s) = (a ≡ b) × Represents objects s

  add-IsStep :
      (objects : Functions F) (s : Registry F) (b : ℕ) (key : Bytes) (f : F)
      → Represents objects s
      → IsStep
          (call_container objects (call_add (b ∷ key) (some f)))
          (register s (b ∷ key) f (s (b ∷ key)))
  unfolding call_container add_function insert
  add-IsStep objects s b key f r = elim (Option-cases (s (b ∷ key))) [
    | inl free ↦
        let there : get objects (b ∷ key) ≡ none = r.agrees (b ∷ key) ∙ ap as_element free in
        rw (there, free) (refl, set-Represents objects s (b ∷ key) f r)
    | inr (old, taken) ↦
        let there : get objects (b ∷ key) ≡ some (built_in_function old) =
          r.agrees (b ∷ key) ∙ ap as_element taken in
        rw (there, taken) (refl, r)
  ]

  call-IsStep :
      (objects : Functions F) (s : Registry F) (c : Call F)
      → Represents objects s
      → IsStep (call_container objects c) (call_registry s c)
  unfolding call_container call_registry get_function add_function replace_function remove_function
  call-IsStep objects s (call_get key) r =
      (ap function_or_error (ap as_function (r.agrees key) ∙ as_function-as_element (s key)), r)
  call-IsStep objects s (call_add key none) r = (refl, r)
  call-IsStep objects s (call_add [] (some f)) r = (refl, r)
  call-IsStep objects s (call_add (b ∷ key) (some f)) r = add-IsStep objects s b key f r
  call-IsStep objects s (call_replace key none) r = (refl, r)
  call-IsStep objects s (call_replace [] (some f)) r = (refl, r)
  call-IsStep objects s (call_replace (b ∷ key) (some f)) r =
      (refl, set-Represents objects s (b ∷ key) f r)
  call-IsStep objects s (call_remove key) r = (refl, remove-Represents objects s key r)

  run-same :
      (objects : Functions F) (s : Registry F) (calls : List (Call F))
      → Represents objects s
      → run_container objects calls ≡ run_registry s calls
  unfolding run_container run_registry
  run-same objects s [] r = refl
  run-same objects s (c ∷ calls) r =
      let (same, next) = call-IsStep objects s c r in
      λ i. same i ∷ run-same (call_container objects c).1 (call_registry s c).1 calls next i

  -- Any sequence of calls of a new container returns what the registry without functions returns.
  pub run_container-eq-run_registry :
      (calls : List (Call F)) → run_container [] calls ≡ run_registry (λ key. none) calls
  unfolding get keys
  run_container-eq-run_registry calls =
      run-same [] (λ key. none) calls (record { distinct = tt; agrees = λ key. refl })
