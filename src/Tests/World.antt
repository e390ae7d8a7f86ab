-- ===== src/Tests/World.antt =====
-- A host whose accounts are numbers, whose data tries are one function, and whose marshaller writes
-- lists of byte strings with a zero behind each.
use k_vm_common_go.Prelude.{
  ℕ, zero, suc, ◌==◌, ◌≡◌, ◌≢◌, ◌⊎◌, inl, inr, refl, sym, ap, ◌∙◌, arith, if◌then◌else◌, ◌&&◌,
  Bool-cases, true, false, Option, none, some, List, [], ◌∷◌, Bytes, bytes_equal, bytes_equal_refl,
  bytes_equal→eq, cons-ne-nil, Outcome, ok,
}
use k_vm_common_go.Prelude.Int.{ℤ, pos, negsuc}
use k_vm_common_go.BuiltIn.Host.{
  Host, DcToken, MetaData, Reply, answer, failure, IsStore, KeepsAccounts, IsMarshaller,
  IsRolesMarshaller,
}

-- Each byte string with its bytes raised by one, and a zero.
abbrev pub raise : Bytes → Bytes → Bytes
raise [] rest = zero ∷ rest
raise (b ∷ s) rest = suc b ∷ raise s rest

abbrev pub join : List Bytes → Bytes
join [] = []
join (s ∷ ss) = raise s (join ss)

abbrev pub put_first : ℕ → List Bytes → List Bytes
put_first b [] = (b ∷ []) ∷ []
put_first b (s ∷ ss) = (b ∷ s) ∷ ss

abbrev pub part : Bytes → List Bytes
part [] = []
part (zero ∷ s) = [] ∷ part s
part (suc b ∷ s) = put_first b (part s)

part-raise : (s rest : Bytes) → part (raise s rest) ≡ s ∷ part rest
part-raise [] rest = refl
part-raise (b ∷ s) rest = ap (put_first b) (part-raise s rest)

pub part-join : (ss : List Bytes) → part (join ss) ≡ ss
part-join [] = refl
part-join (s ∷ ss) = part-raise s (join ss) ∙ ap (λ l. s ∷ l) (part-join ss)

raise-ne-nil : (s rest : Bytes) → raise s rest ≢ []
raise-ne-nil [] rest = cons-ne-nil zero rest
raise-ne-nil (b ∷ s) rest = cons-ne-nil (suc b) (raise s rest)

abbrev pub Trie : Type 0
Trie = ℕ → Bytes → Bytes

abbrev pub Token : Type 0
Token = DcToken

abbrev value_bytes : Option ℤ → Bytes
value_bytes none = []
value_bytes (some (pos n)) = 0 ∷ n ∷ []
value_bytes (some (negsuc n)) = 1 ∷ n ∷ []

abbrev bytes_value : Bytes → Option ℤ
bytes_value (zero ∷ n ∷ []) = some (pos n)
bytes_value (suc m ∷ n ∷ []) = some (negsuc n)
bytes_value _ = none

value_back : (v : Option ℤ) → bytes_value (value_bytes v) ≡ v
value_back none = refl
value_back (some (pos n)) = refl
value_back (some (negsuc n)) = refl

abbrev meta_fields : MetaData → List Bytes
meta_fields m =
    (m.nonce ∷ []) ∷ m.name ∷ m.creator ∷ (m.royalties ∷ []) ∷ m.hash ∷ m.attributes ∷ m.uris

abbrev fields_meta : List Bytes → Option MetaData
fields_meta ((nonce ∷ []) ∷ name ∷ creator ∷ (royalties ∷ []) ∷ hash ∷ attributes ∷ uris) =
    some (record {
      nonce = nonce;
      name = name;
      creator = creator;
      royalties = royalties;
      hash = hash;
      uris = uris;
      attributes = attributes;
    })
fields_meta _ = none

abbrev meta_bytes : Option MetaData → List Bytes
meta_bytes none = []
meta_bytes (some m) = meta_fields m

meta_back : (m : Option MetaData) → fields_meta (meta_bytes m) ≡ m
meta_back none = refl
meta_back (some m) = refl

abbrev pub fields_of : Token → List Bytes
fields_of t =
    (t.token_type ∷ [])
    ∷ value_bytes t.value
    ∷ t.properties
    ∷ t.reserved
    ∷ meta_bytes t.token_meta_data

abbrev of_fields : List Bytes → Reply Token
of_fields ((type ∷ []) ∷ v ∷ p ∷ r ∷ m) = answer (record {
  token_type = type;
  value = bytes_value v;
  properties = p;
  token_meta_data = fields_meta m;
  reserved = r;
})
of_fields _ = failure []

of_fields-fields_of : (t : Token) → of_fields (fields_of t) ≡ answer t
of_fields-fields_of t = λ i. answer (record {
  token_type = t.token_type;
  value = value_back t.value i;
  properties = t.properties;
  token_meta_data = meta_back t.token_meta_data i;
  reserved = t.reserved;
})

-- An address of one byte is that account's; every other is the system account's.
abbrev account_of : Bytes → ℕ
account_of (a ∷ []) = a
account_of _ = 9

abbrev pub sample_host : Host
sample_host = record {
  World = Trie;
  Account = ℕ;
  address_bytes = λ a. a ∷ [];
  retrieve_value = λ w a k. answer (w a k);
  save_key_value = λ w a k v. answer (λ b j. if (b == a) && bytes_equal j k then v else w b j);
  load_account = λ w s. answer (some (account_of s));
  save_account = λ w a. answer w;
  marshal_token = λ t. answer (join (fields_of t));
  unmarshal_token = λ d s. of_fields (part s);
  marshal_roles = λ rs. answer (join rs);
  unmarshal_roles = λ s. answer (part s);
  compute_id = λ s. 0;
  self_id = 0;
  number_of_shards = 3;
  same_shard = λ s t. true;
  is_payable = λ w s t. answer true;
}

saved_here :
    (w : Trie) (a : ℕ) (k v : Bytes) → (if (a == a) && bytes_equal k k then v else w a k) ≡ v
saved_here w a k v = rw (bytes_equal_refl k) (ground arith)

not_here : (a b : ℕ) (k j : Bytes) → (b ≢ a) ⊎ (j ≢ k) → ((b == a) && bytes_equal j k) ≡ false
not_here a b k j (inl ne) = ground (arith, ne)
not_here a b k j (inr ne) = elim (Bool-cases (bytes_equal j k)) [
  | inl e ↦ absurd (ne (bytes_equal→eq j k e))
  | inr e ↦ ground (arith, e)
]

answers {ℓ} : {A : Type ℓ} (a b : A) → answer a ≡ answer b → b ≡ a
answers a b e = cc

pub sample_host-IsStore : IsStore sample_host
sample_host-IsStore = record {
  retrieve-save_self = λ w w' a k v e.
      ap (λ u. answer (u a k)) (answers _ w' e) ∙ ap (λ s. answer s) (saved_here w a k v);
  retrieve-save_other = λ w w' a b k j v e ne.
      ap (λ u. answer (u b j)) (answers _ w' e)
      ∙ ap (λ t. answer (if t then v else w b j)) (not_here a b k j ne);
}

pub sample_host-KeepsAccounts : KeepsAccounts sample_host
sample_host-KeepsAccounts = record {
  retrieve-save_account = λ w w' a b k e. ap (λ u. answer (u b k)) (answers w w' e);
  load-save_account = λ w w' a s e. refl;
  load-save_key_value = λ w w' a k v s e. refl;
}

pub sample_host-IsMarshaller : IsMarshaller sample_host
sample_host-IsMarshaller = record {
  unmarshal-marshal_token = λ d t s e.
      let same : s ≡ join (fields_of t) = answers _ s e in
      (
        ap (λ u. of_fields (part u)) same
            ∙ (ap of_fields (part-join (fields_of t)) ∙ of_fields-fields_of t),
        λ n. raise-ne-nil (t.token_type ∷ []) _ (sym same ∙ n),
      );
}

join_roles :
    (rs : List Bytes)
    → (join rs ≡ []) × (rs ≡ []) ⊎ (join rs ≢ []) × (answer (part (join rs)) ≡ answer rs)
join_roles [] = inl (refl, refl)
join_roles (r ∷ rs) = inr (raise-ne-nil r (join rs), ap (λ l. answer l) (part-join (r ∷ rs)))

pub sample_host-IsRolesMarshaller : IsRolesMarshaller sample_host
sample_host-IsRolesMarshaller = record {
  unmarshal-marshal_roles = λ rs s e. rw (answers _ s e) (join_roles rs);
}

-- The state after a call, and its output.
abbrev pub world_of {ℓ κ} : {E : Type ℓ} {A : Type κ} → Outcome E (A × Trie) → Trie
world_of (ok (out, w)) = w
world_of _ = λ a k. []

-- A host of the same accounts for which every address is of another shard.
abbrev pub far_host : Host
far_host = record sample_host { compute_id = λ s. 1 }

pub far_host-IsStore : IsStore far_host
far_host-IsStore = record {
  retrieve-save_self = sample_host-IsStore.retrieve-save_self;
  retrieve-save_other = sample_host-IsStore.retrieve-save_other;
}

pub far_host-KeepsAccounts : KeepsAccounts far_host
far_host-KeepsAccounts = record {
  retrieve-save_account = sample_host-KeepsAccounts.retrieve-save_account;
  load-save_account = sample_host-KeepsAccounts.load-save_account;
  load-save_key_value = sample_host-KeepsAccounts.load-save_key_value;
}

pub far_host-IsMarshaller : IsMarshaller far_host
far_host-IsMarshaller = record {
  unmarshal-marshal_token = sample_host-IsMarshaller.unmarshal-marshal_token;
}

pub far_host-IsRolesMarshaller : IsRolesMarshaller far_host
far_host-IsRolesMarshaller = record {
  unmarshal-marshal_roles = sample_host-IsRolesMarshaller.unmarshal-marshal_roles;
}
