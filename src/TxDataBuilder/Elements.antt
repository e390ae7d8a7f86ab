-- ===== src/TxDataBuilder/Elements.antt =====
-- The elements of a builder: appending, and the last one.
use k_vm_common_go.Prelude.{
  ℕ, ◌≡◌, refl, sym, ap, ◌∙◌, List, [], ◌∷◌, ◌++◌, append_assoc, append-nil, Bytes,
}
use k_vm_common_go.Go.Text.Split.{separated}
use k_vm_common_go.TxDataBuilder.{
  TxDataBuilder, join_elements, to_string, last_element, replace_last, get_last, set_last,
}

join_elements-separated :
    (text : Bytes) (c : ℕ) (elements : List Bytes)
    → join_elements text (c ∷ []) elements ≡ text ++ separated c elements
unfolding join_elements
join_elements-separated text c [] = sym (append-nil text)
join_elements-separated text c (e ∷ elements) =
    rw (join_elements-separated ((text ++ c ∷ []) ++ e) c elements)
      (append_assoc (text ++ c ∷ []) e _ ∙ append_assoc text (c ∷ []) _)

pub to_string-separated :
    (function : Bytes) (elements : List Bytes)
    → to_string (record { function = function; elements = elements; separator = b'@' ∷ [] })
      ≡ function ++ separated b'@' elements
unfolding to_string
to_string-separated function elements = join_elements-separated function b'@' elements

last_element-replace_last :
    (elements : List Bytes) (e : Bytes) → last_element (replace_last elements e) ≡ e
unfolding last_element replace_last
last_element-replace_last [] e = refl
last_element-replace_last (a ∷ []) e = refl
last_element-replace_last (a ∷ b ∷ []) e = refl
last_element-replace_last (a ∷ b ∷ c ∷ elements) e = last_element-replace_last (b ∷ c ∷ elements) e

replace_last-append :
    (elements : List Bytes) (a e : Bytes)
    → replace_last (elements ++ (a ∷ [])) e ≡ elements ++ (e ∷ [])
unfolding replace_last
replace_last-append [] a e = refl
replace_last-append (b ∷ []) a e = refl
replace_last-append (b ∷ c ∷ elements) a e =
    ap (λ l. b ∷ l) (replace_last-append (c ∷ elements) a e)

-- `SetLast` writes the element that `GetLast` then reads, on an empty builder too; and behind other
-- elements it replaces the last one and keeps all else.
pub get_last-set_last :
    (b : TxDataBuilder) (elements : List Bytes) (a e : Bytes)
    → (get_last (set_last b e) ≡ e)
      × (set_last (record b { elements = elements ++ (a ∷ []) }) e
          ≡ record b { elements = elements ++ (e ∷ []) })
unfolding get_last set_last
get_last-set_last b elements a e = (
  last_element-replace_last b.elements e,
  ap (λ l. let c : TxDataBuilder = record b { elements = l } in c)
      (replace_last-append elements a e),
)
