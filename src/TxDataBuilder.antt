-- ===== src/TxDataBuilder.antt =====
-- txDataBuilder/builder.go. A method that changes the builder and returns it returns the new builder.
pub mod Elements
pub mod RoundTrip
pub mod Transfers
use k_vm_common_go.Prelude.{
  ℕ, suc, Bool, if◌then◌else◌, List, [], ◌∷◌, ◌++◌, Bytes, ascii, Outcome, ok, panic,
}
use k_vm_common_go.Prelude.Int.{ℤ, abs}
use k_vm_common_go.Core.{Core}
use k_vm_common_go.Go.Hex.{encode_to_string}
use k_vm_common_go.Go.BigInt.{to_bytes}

pub record TxDataBuilder : Type 0 where
  pub function : Bytes
  pub elements : List Bytes
  pub separator : Bytes

abbrev pub new_builder : TxDataBuilder
new_builder = record { function = []; elements = []; separator = ascii "@" }

unfoldable pub clear : TxDataBuilder → TxDataBuilder
clear b = record b { function = []; elements = [] }

unfoldable pub join_elements : Bytes → Bytes → List Bytes → Bytes
join_elements text separator [] = text
join_elements text separator (element ∷ elements) =
    join_elements ((text ++ separator) ++ element) separator elements

unfoldable pub to_string : TxDataBuilder → Bytes
unfolding join_elements
to_string b = join_elements b.function b.separator b.elements

-- elements[len-1], or "" where there is none
unfoldable pub last_element : List Bytes → Bytes
last_element [] = []
last_element (e ∷ []) = e
last_element (e ∷ f ∷ elements) = last_element (f ∷ elements)

unfoldable pub get_last : TxDataBuilder → Bytes
unfolding last_element
get_last b = last_element b.elements

-- Without elements the new one is made the only one, and is then written over by itself.
unfoldable pub replace_last : List Bytes → Bytes → List Bytes
replace_last [] element = element ∷ []
replace_last (e ∷ []) element = element ∷ []
replace_last (e ∷ f ∷ elements) element = e ∷ replace_last (f ∷ elements) element

unfoldable pub set_last : TxDataBuilder → Bytes → TxDataBuilder
unfolding replace_last
set_last b element = record b { elements = replace_last b.elements element }

unfoldable pub func : TxDataBuilder → Bytes → TxDataBuilder
func b function = record b { function = function }

-- `bytes`, `str` and `byte` append the hexadecimal form of what they are given.
unfoldable pub bytes : TxDataBuilder → Bytes → TxDataBuilder
bytes b s = record b { elements = b.elements ++ (encode_to_string s ∷ []) }

unfoldable pub byte : TxDataBuilder → ℕ → TxDataBuilder
unfolding bytes
byte b value = bytes b (value ∷ [])

unfoldable pub str : TxDataBuilder → Bytes → TxDataBuilder
unfolding bytes
str b s = bytes b s

-- The bytes of a big.Int are those of its absolute value.
unfoldable pub big_int : TxDataBuilder → ℤ → TxDataBuilder
unfolding bytes abs
big_int b value = bytes b (to_bytes (abs value))

unfoldable pub int : TxDataBuilder → ℤ → TxDataBuilder
unfolding big_int
int b value = big_int b value

unfoldable pub int64 : TxDataBuilder → ℤ → TxDataBuilder
unfolding big_int
int64 b value = big_int b value

unfoldable pub bool : TxDataBuilder → Bool → TxDataBuilder
unfolding str
bool b value = if value then str b (ascii "true") else str b (ascii "false")

unfoldable pub issue_dct : TxDataBuilder → Bytes → Bytes → ℤ → ℕ → TxDataBuilder
unfolding func str int64 byte
issue_dct b token ticker supply num_decimals =
    byte (int64 (str (str (func b (ascii "issue")) token) ticker) supply) num_decimals

module _ (core : Core) where
  unfoldable pub transfer_dct : TxDataBuilder → Bytes → ℤ → TxDataBuilder
  unfolding func str int64
  transfer_dct b token value = int64 (str (func b core.dct_transfer) token) value

  unfoldable pub transfer_dct_nft : TxDataBuilder → Bytes → ℤ → ℤ → TxDataBuilder
  unfolding func str int int64
  transfer_dct_nft b token nonce value =
      int64 (int (str (func b core.dct_nft_transfer) token) nonce) value

  unfoldable pub burn_dct : TxDataBuilder → Bytes → ℤ → TxDataBuilder
  unfolding func str int64
  burn_dct b token value = int64 (str (func b core.dct_burn) token) value

-- `CanFreeze` and the methods behind it: the name of a property, and its value.
unfoldable pub property : Bytes → TxDataBuilder → Bool → TxDataBuilder
unfolding str bool
property name b prop = bool (str b name) prop

abbrev pub can_freeze : TxDataBuilder → Bool → TxDataBuilder
can_freeze = property (ascii "canFreeze")

abbrev pub can_wipe : TxDataBuilder → Bool → TxDataBuilder
can_wipe = property (ascii "canWipe")

abbrev pub can_pause : TxDataBuilder → Bool → TxDataBuilder
can_pause = property (ascii "canPause")

abbrev pub can_mint : TxDataBuilder → Bool → TxDataBuilder
can_mint = property (ascii "canMint")

abbrev pub can_burn : TxDataBuilder → Bool → TxDataBuilder
can_burn = property (ascii "canBurn")

abbrev pub can_transfer_nft_create_role : TxDataBuilder → Bool → TxDataBuilder
can_transfer_nft_create_role = property (ascii "canTransferNFTCreateRole")

abbrev pub can_add_special_roles : TxDataBuilder → Bool → TxDataBuilder
can_add_special_roles = property (ascii "canAddSpecialRoles")
