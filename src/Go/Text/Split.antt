-- ===== src/Go/Text/Split.antt =====
-- Laws of `split`.
use k_vm_common_go.Prelude.{
  ℕ, ◌≡◌, ◌≢◌, refl, ap, arith, inl, inr, Bool-cases, ==_iff, ◌==◌, List, [], ◌∷◌, ◌++◌, append-nil,
  Bytes, All,
}
use k_vm_common_go.Go.Text.{split, prepend}

-- Each part behind a separator.
abbrev pub separated : ℕ → List Bytes → Bytes
separated sep [] = []
separated sep (part ∷ parts) = sep ∷ (part ++ separated sep parts)

abbrev pub Lacks : ℕ → Bytes → Type 0
Lacks sep = All (λ c. c ≢ sep)

module _ (sep : ℕ) where
  pub split-ne-nil : (s : Bytes) → split sep s ≢ []
  unfolding split
  split-ne-nil [] h = cc
  split-ne-nil (c ∷ s) h = ground (arith, split-ne-nil s)

  pub split-part : (part : Bytes) → Lacks sep part → split sep part ≡ part ∷ []
  unfolding split
  split-part [] h = refl
  split-part (c ∷ part) (hc, h) = ground (arith, split-part part h)

  pub split-append :
      (part rest : Bytes)
      → Lacks sep part
      → split sep (part ++ (sep ∷ rest)) ≡ part ∷ split sep rest
  unfolding split
  split-append [] rest h = ground arith
  split-append (c ∷ part) rest (hc, h) = ground (arith, split-append part rest h)

  -- A text that is a part and further parts, each behind a separator, splits into those parts.
  pub split-separated :
      (part : Bytes) (parts : List Bytes)
      → Lacks sep part
      → All (Lacks sep) parts
      → split sep (part ++ separated sep parts) ≡ part ∷ parts
  split-separated part [] h _ = rw append-nil (split-part part h)
  split-separated part (next ∷ parts) h (hn, hs) =
      simp (split-append part (next ++ separated sep parts) h, split-separated next parts hn hs)

  -- The parts of a text spell it, and no part holds the separator.
  abbrev Spells : Bytes → List Bytes → Type 0
  Spells s [] = ⊥
  Spells s (part ∷ parts) =
      (s ≡ part ++ separated sep parts) × Lacks sep part × All (Lacks sep) parts

  Spells-prepend :
      (c : ℕ) (s : Bytes) (parts : List Bytes)
      → c ≢ sep
      → Spells s parts
      → Spells (c ∷ s) (prepend c parts)
  Spells-prepend c s [] ne h = absurd h
  Spells-prepend c s (part ∷ parts) ne (e, lacks, all) = (ap (λ t. c ∷ t) e, (ne, lacks), all)

  Spells-cut : (s : Bytes) (parts : List Bytes) → Spells s parts → Spells (sep ∷ s) ([] ∷ parts)
  Spells-cut s [] h = absurd h
  Spells-cut s (part ∷ parts) (e, lacks, all) = (ap (λ t. sep ∷ t) e, tt, (lacks, all))

  Spells-split : (s : Bytes) → Spells s (split sep s)
  unfolding split
  Spells-split [] = (refl, tt, tt)
  Spells-split (c ∷ s) = elim (Bool-cases (c == sep)) [
    | inl e ↦ rw e (rw ((==_iff c sep).0 e) (Spells-cut s (split sep s) (Spells-split s)))
    | inr e ↦ rw e (
        Spells-prepend c s (split sep s) (λ k. ground (arith, (==_iff c sep).1 k)) (Spells-split s))
  ]

  pub split_sound :
      (s part : Bytes) (parts : List Bytes)
      → split sep s ≡ part ∷ parts
      → (s ≡ part ++ separated sep parts) × Lacks sep part × All (Lacks sep) parts
  split_sound s part parts e = rw e at (Spells-split s)
