-- ===== src/Json.antt =====
-- `JSON.stringify` of strings and of lists of them.
use spark_ln_address.Prelude.{
  ℕ, ◌&&◌, ◌||◌, ltb, ◌==◌, if◌then◌else◌, List, [], ◌∷◌, ◌++◌, Text, codes, map,
}
use spark_ln_address.Logging.{hex4, is_high, is_low}

abbrev hex_escape : ℕ → Text
hex_escape c = b'\\' ∷ b'u' ∷ hex4 c

-- One unit that is not half of a surrogate pair.
abbrev json_unit : ℕ → Text
json_unit c =
    if c == b'"' || c == b'\\'
    then b'\\' ∷ c ∷ []
    else if c == 8
    then codes "\\b"
    else if c == 9
    then codes "\\t"
    else if c == 10
    then codes "\\n"
    else if c == 12
    then codes "\\f"
    else if c == 13
    then codes "\\r"
    else if ltb c 32 || is_high c || is_low c
    then hex_escape c
    else c ∷ []

unfoldable pub json_units : Text → Text
json_units [] = []
json_units (c ∷ []) = json_unit c
json_units (c ∷ d ∷ s) =
    let pair = c ∷ d ∷ json_units s in
    let single = json_unit c ++ json_units (d ∷ s) in if is_high c && is_low d then pair else single

unfoldable pub stringify : Text → Text
stringify t = b'"' ∷ (json_units t ++ codes "\"")

unfoldable pub with_commas : List Text → Text
with_commas [] = []
with_commas (t ∷ []) = t
with_commas (t ∷ u ∷ ts) = t ++ (codes "," ++ with_commas (u ∷ ts))

unfoldable pub stringify_items : List Text → Text
stringify_items items = codes "[" ++ (with_commas items ++ codes "]")

abbrev pub stringify_texts : List Text → Text
stringify_texts texts = stringify_items (map stringify texts)
