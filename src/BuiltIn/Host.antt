-- ===== src/BuiltIn/Host.antt =====
-- What the functions use and the repository does not implement: the accounts with their data tries,
-- the marshaller, the shard coordinator, and whether a contract is payable. The interfaces are those
-- of interface.go. A function that changes accounts takes the state of all of them and returns the
-- new state; where it returns an error its caller restores the state from before the call.
use k_vm_common_go.Prelude.{ℕ, Bool, Option, List, [], ◌≡◌, ◌≢◌, ◌⊎◌, Bytes, Outcome, ok, err}
use k_vm_common_go.Prelude.Int.{ℤ}
use k_vm_common_go.BuiltIn.Errors.{BuiltInError, external}

-- The fields of dct.MetaData.
pub record MetaData : Type 0 where
  pub nonce : ℕ
  pub name : Bytes
  pub creator : Bytes
  pub royalties : ℕ
  pub hash : Bytes
  pub uris : List Bytes
  pub attributes : Bytes

-- The fields of dct.DCToken that the source reads or writes. A nil `Value` is `none`.
pub record DcToken : Type 0 where
  pub token_type : ℕ
  pub value : Option ℤ
  pub properties : Bytes
  pub token_meta_data : Option MetaData
  pub reserved : Bytes

-- What a call of an outside component returns: a value, or an error with its message.
pub data Reply {ℓ} (A : Type ℓ) : Type ℓ where
  answer : A → Reply A
  failure : Bytes → Reply A

-- An error of an outside component is returned as it is.
abbrev pub lift {ℓ} : {A : Type ℓ} → Reply A → Outcome BuiltInError A
lift (answer a) = ok a
lift (failure e) = err (external e)

pub lift-eq-ok {ℓ} : {A : Type ℓ} (r : Reply A) {a : A} → lift r ≡ ok a → r ≡ answer a
lift-eq-ok (answer b) h = cc
lift-eq-ok (failure e) h = cc

pub record Host : Type 1 where
  pub World : Type 0
  -- an account object; two handles of one account are equal
  pub Account : Type 0
  pub address_bytes : Account → Bytes
  -- AccountDataHandler().RetrieveValue, SaveKeyValue
  pub retrieve_value : World → Account → Bytes → Reply Bytes
  pub save_key_value : World → Account → Bytes → Bytes → Reply World
  -- AccountsAdapter.LoadAccount, SaveAccount; `none` is an account of another type
  pub load_account : World → Bytes → Reply (Option Account)
  pub save_account : World → Account → Reply World
  -- Marshalizer; `unmarshal_token d s` fills `d`
  pub marshal_token : DcToken → Reply Bytes
  pub unmarshal_token : DcToken → Bytes → Reply DcToken
  pub marshal_roles : List Bytes → Reply Bytes
  pub unmarshal_roles : Bytes → Reply (List Bytes)
  -- Coordinator.ComputeId, SelfId, NumberOfShards, SameShard
  pub compute_id : Bytes → ℕ
  pub self_id : ℕ
  pub number_of_shards : ℕ
  pub same_shard : Bytes → Bytes → Bool
  -- PayableHandler.IsPayable
  pub is_payable : World → Bytes → Bytes → Reply Bool

-- A data trie holds what was saved: under the key that was written the new value, and under every
-- other key, and in every other account, what was there.
pub record IsStore (h : Host) : Type 0 where
  pub retrieve-save_self :
      (w w' : h.World) (a : h.Account) (k v : Bytes)
      → h.save_key_value w a k v ≡ answer w'
      → h.retrieve_value w' a k ≡ answer v
  pub retrieve-save_other :
      (w w' : h.World) (a b : h.Account) (k j v : Bytes)
      → h.save_key_value w a k v ≡ answer w'
      → (b ≢ a) ⊎ (j ≢ k)
      → h.retrieve_value w' b j ≡ h.retrieve_value w b j

-- Saving an account changes no data trie, and neither kind of saving changes which account object
-- belongs to an address.
pub record KeepsAccounts (h : Host) : Type 0 where
  pub retrieve-save_account :
      (w w' : h.World) (a b : h.Account) (k : Bytes)
      → h.save_account w a ≡ answer w'
      → h.retrieve_value w' b k ≡ h.retrieve_value w b k
  pub load-save_account :
      (w w' : h.World) (a : h.Account) (address : Bytes)
      → h.save_account w a ≡ answer w'
      → h.load_account w' address ≡ h.load_account w address
  pub load-save_key_value :
      (w w' : h.World) (a : h.Account) (k v address : Bytes)
      → h.save_key_value w a k v ≡ answer w'
      → h.load_account w' address ≡ h.load_account w address

-- What was marshalled is unmarshalled, and is not empty.
pub record IsMarshaller (h : Host) : Type 0 where
  pub unmarshal-marshal_token :
      (d t : DcToken) (s : Bytes)
      → h.marshal_token t ≡ answer s
      → (h.unmarshal_token d s ≡ answer t) × (s ≢ [])

-- The roles of an account; an empty list is marshalled to nothing.
pub record IsRolesMarshaller (h : Host) : Type 0 where
  pub unmarshal-marshal_roles :
      (rs : List Bytes) (s : Bytes)
      → h.marshal_roles rs ≡ answer s
      → (s ≡ []) × (rs ≡ []) ⊎ (s ≢ []) × (h.unmarshal_roles s ≡ answer rs)
