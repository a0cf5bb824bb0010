-- ===== src/Names/Reserved/Separators.antt =====
-- Spellings of a name.
use spark_ln_address.Prelude.{
  ℕ, ◌+◌, ◌<◌, ◌≡◌, refl, ap, true, Bool-cases, inl, inr, Option, [], ◌∷◌, Text, arith,
}
use spark_ln_address.Names.Normal.{to_lower_case, lower_unit}
use spark_ln_address.Names.Reserved.{
  is_separator, strip_separators, compact_name, candidate_skeletons, is_reserved_username,
}

-- The first name spells the second with other cases of letters and with more dots, underscores and
-- hyphens.
pub data Spells : Text → Text → Type 0 where
  nothing : Spells [] []
  same : {s t : Text} (c : ℕ) → Spells s t → Spells (c ∷ s) (c ∷ t)
  capital :
      {s t : Text} (letter : ℕ)
      → letter < 26
      → Spells s t
      → Spells ((b'A' + letter) ∷ s) ((b'a' + letter) ∷ t)
  dot : {s t : Text} → Spells s t → Spells (b'.' ∷ s) t
  underscore : {s t : Text} → Spells s t → Spells (b'_' ∷ s) t
  hyphen : {s t : Text} → Spells s t → Spells (b'-' ∷ s) t

compact_name-cons :
    (c d : ℕ) (s t : Text)
    → lower_unit c ≡ lower_unit d
    → compact_name s ≡ compact_name t
    → compact_name (c ∷ s) ≡ compact_name (d ∷ t)
unfolding compact_name to_lower_case strip_separators
compact_name-cons c d s t e h = elim (Bool-cases (is_separator (lower_unit d))) [
  | inl y ↦ rw (e, y) h
  | inr y ↦ rw (e, y) (ap (λ r. lower_unit d ∷ r) h)
]

compact_name-separator :
    (c : ℕ) (s t : Text)
    → is_separator (lower_unit c) ≡ true
    → compact_name s ≡ compact_name t
    → compact_name (c ∷ s) ≡ compact_name t
unfolding compact_name to_lower_case strip_separators
compact_name-separator c s t e h = rw e h

capital_unit : (letter : ℕ) → letter < 26 → lower_unit (b'A' + letter) ≡ lower_unit (b'a' + letter)
capital_unit letter l = ground arith

Spells-compact_name : {s t : Text} → Spells s t → compact_name s ≡ compact_name t
Spells-compact_name nothing = refl
Spells-compact_name (same {s} {t} c r) = compact_name-cons c c s t refl (Spells-compact_name r)
Spells-compact_name (capital {s} {t} letter l r) =
    compact_name-cons (b'A' + letter) (b'a' + letter) s t (capital_unit letter l)
      (Spells-compact_name r)
Spells-compact_name (dot {s} {t} r) = compact_name-separator b'.' s t refl (Spells-compact_name r)
Spells-compact_name (underscore {s} {t} r) =
    compact_name-separator b'_' s t refl (Spells-compact_name r)
Spells-compact_name (hyphen {s} {t} r) =
    compact_name-separator b'-' s t refl (Spells-compact_name r)

-- A name that spells another with other cases of the letters from A to Z and with dots,
-- underscores and hyphens put in anywhere is reserved exactly where the other one is.
pub reserved_of_spelling :
    (username plain : Text) (extra : Option Text)
    → Spells username plain
    → is_reserved_username username extra ≡ is_reserved_username plain extra
unfolding is_reserved_username candidate_skeletons
reserved_of_spelling username plain extra h = rw (Spells-compact_name h) refl
