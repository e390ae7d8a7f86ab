-- ===== src/Container.antt =====
-- container/mutexMap.go and builtInFunctions/container.go: the container that holds the functions
-- under their names. A map of Go is a list of keys with their values; the container's keys are
-- strings. Every method holds the lock of the map while it reads or writes it.
pub mod Distinct
pub mod Refinement
use k_vm_common_go.Prelude.{
  ℕ, if◌then◌else◌, Bool, true, false, Option, none, some, List, [], ◌∷◌, Bytes, length,
  bytes_equal, Outcome, ok, err,
}

-- MutexMap
abbrev pub MutexMap {ℓ} : Type ℓ → Type ℓ
MutexMap V = List (Bytes × V)

module _ {ℓ} {V : Type ℓ} where
  unfoldable pub get : MutexMap V → Bytes → Option V
  get [] key = none
  get ((k, v) ∷ values) key = if bytes_equal k key then some v else get values key

  -- mm.values[key] = val
  unfoldable pub set : MutexMap V → Bytes → V → MutexMap V
  set [] key val = (key, val) ∷ []
  set ((k, v) ∷ values) key val =
      if bytes_equal k key then (k, val) ∷ values else (k, v) ∷ set values key val

  abbrev insert_unless : Option V → MutexMap V → Bytes → V → Bool × MutexMap V
  insert_unless none values key val = (true, set values key val)
  insert_unless (some old) values key val = (false, values)

  unfoldable pub insert : MutexMap V → Bytes → V → Bool × MutexMap V
  unfolding get set
  insert values key val = insert_unless (get values key) values key val

  -- delete(mm.values, key)
  unfoldable pub remove : MutexMap V → Bytes → MutexMap V
  remove [] key = []
  remove ((k, v) ∷ values) key = if bytes_equal k key then values else (k, v) ∷ remove values key

  unfoldable pub keys : MutexMap V → List Bytes
  keys [] = []
  keys ((k, v) ∷ values) = k ∷ keys values

  abbrev pub len : MutexMap V → ℕ
  len values = length values

pub data ContainerError : Type 0 where
  invalid_container_key wrong_type_in_container nil_container_element : ContainerError
  empty_function_name container_key_already_exists : ContainerError

-- What the map holds: a value of the type BuiltinFunction, or one of another type.
pub data Element {ℓ} (F : Type ℓ) : Type ℓ where
  built_in_function : F → Element F
  other_element : Element F

-- functionContainer
abbrev pub Functions {ℓ} : Type ℓ → Type ℓ
Functions F = MutexMap (Element F)

module _ {ℓ} {F : Type ℓ} where
  abbrev pub as_function : Option (Element F) → Outcome ContainerError F
  as_function none = err invalid_container_key
  as_function (some (built_in_function f)) = ok f
  as_function (some other_element) = err wrong_type_in_container

  unfoldable pub get_function : Functions F → Bytes → Outcome ContainerError F
  unfolding get
  get_function objects key = as_function (get objects key)

  abbrev added : Bool × Functions F → Outcome ContainerError (Functions F)
  added (true, objects) = ok objects
  added (false, objects) = err container_key_already_exists

  -- A nil function is `none`.
  unfoldable pub add_function :
      Functions F → Bytes → Option F → Outcome ContainerError (Functions F)
  unfolding insert
  add_function objects key none = err nil_container_element
  add_function objects [] (some f) = err empty_function_name
  add_function objects (b ∷ key) (some f) = added (insert objects (b ∷ key) (built_in_function f))

  unfoldable pub replace_function :
      Functions F → Bytes → Option F → Outcome ContainerError (Functions F)
  unfolding set
  replace_function objects key none = err nil_container_element
  replace_function objects [] (some f) = err empty_function_name
  replace_function objects (b ∷ key) (some f) = ok (set objects (b ∷ key) (built_in_function f))

  unfoldable pub remove_function : Functions F → Bytes → Functions F
  unfolding remove
  remove_function objects key = remove objects key

-- The calls of the container's methods, and what they return.
pub data Call {ℓ} (F : Type ℓ) : Type ℓ where
  call_get call_remove : Bytes → Call F
  call_add call_replace : Bytes → Option F → Call F

pub data Return {ℓ} (F : Type ℓ) : Type ℓ where
  function_or_error : Outcome ContainerError F → Return F
  error_or_nil : Outcome ContainerError (Unit {0}) → Return F
  nothing : Return F
