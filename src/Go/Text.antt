-- ===== src/Go/Text.antt =====
-- Package strings of Go's standard library, as the source uses it: `Split` with a separator of one
-- byte. A text without the separator is one part, so there is always a part.
pub mod Split
use k_vm_common_go.Prelude.{ℕ, ◌==◌, if◌then◌else◌, List, [], ◌∷◌, Bytes}

abbrev prepend : ℕ → List Bytes → List Bytes
prepend c [] = (c ∷ []) ∷ []
prepend c (part ∷ parts) = (c ∷ part) ∷ parts

unfoldable pub split : ℕ → Bytes → List Bytes
split sep [] = [] ∷ []
split sep (c ∷ s) = let parts = split sep s in if c == sep then [] ∷ parts else prepend c parts
