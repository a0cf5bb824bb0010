-- ===== src/Logging.antt =====
-- src/common/log-sanitize.ts: how a value that a caller controls is written to a log.
pub mod Escapes
use spark_ln_address.Prelude.{
  ℕ, ◌+◌, ◌*◌, ◌/◌, ◌%◌, Bool, ◌&&◌, ◌||◌, ltb, leb, ◌==◌, if◌then◌else◌, List, [], ◌∷◌, ◌++◌,
  Option, none, some, length, take, Text, codes, decimal_text,
}

abbrev pub log_value_max_length : ℕ
log_value_max_length = 32

abbrev pub log_error_max_length : ℕ
log_error_max_length = 200

-- CONTROL_CHARACTERS.
abbrev pub is_control : ℕ → Bool
is_control c =
    leb c 0x1f
    || (leb 0x7f c && leb c 0x9f)
    || (leb 0x200b c && leb c 0x200f)
    || (leb 0x2028 c && leb c 0x202e)
    || (leb 0x2066 c && leb c 0x2069)
    || c == 0xfeff

abbrev pub is_high : ℕ → Bool
is_high c = leb 0xd800 c && leb c 0xdbff

abbrev pub is_low : ℕ → Bool
is_low c = leb 0xdc00 c && leb c 0xdfff

-- `Array.from(text)`: the code points, a surrogate pair as one.
unfoldable pub code_points : Text → List Text
code_points [] = []
code_points (c ∷ []) = (c ∷ []) ∷ []
code_points (c ∷ d ∷ s) =
    let pair = (c ∷ d ∷ []) ∷ code_points s in
    let single = (c ∷ []) ∷ code_points (d ∷ s) in if is_high c && is_low d then pair else single

-- `points.join('')`.
unfoldable pub join : List Text → Text
join [] = []
join (p ∷ ps) = p ++ join ps

abbrev pub hex_digit : ℕ → ℕ
hex_digit d = if ltb d 10 then b'0' + d else 87 + d

-- `c.toString(16).padStart(4, '0')`, of a code unit.
abbrev pub hex4 : ℕ → Text
hex4 c =
    hex_digit (c / 4096)
    ∷ hex_digit (c / 256 % 16)
    ∷ hex_digit (c / 16 % 16)
    ∷ hex_digit (c % 16)
    ∷ []

-- Both replacements, on one unit: the second does not meet a backslash.
abbrev pub escape_unit : ℕ → Text
escape_unit c =
    if c == b'\\'
    then b'\\' ∷ b'\\' ∷ []
    else if is_control c
    then b'\\' ∷ b'u' ∷ hex4 c
    else c ∷ []

unfoldable pub escape : Text → Text
escape [] = []
escape (c ∷ s) = escape_unit c ++ escape s

unfoldable pub kept_units : Text → ℕ → Text
kept_units text max_length = join (take max_length (code_points (take (max_length * 2) text)))

unfoldable pub sanitize_for_log : Text → ℕ → Text
sanitize_for_log text max_length =
    let kept = kept_units text max_length in
    if leb (length text) (length kept)
    then escape kept
    else escape kept
      ++ (codes "...[" ++ (decimal_text (length (code_points text)) ++ codes " chars]"))

-- The thrown values of `errorForLog`.
pub data Thrown : Type 0 where
  error : Text → Text → Thrown
  other : Text → Thrown
  nothing : Thrown

abbrev error_text : Thrown → Text
error_text (error name message) = name ++ (codes ": " ++ message)
error_text (other text) = text
error_text nothing = codes "unknown error"

unfoldable pub error_for_log : Thrown → Text
error_for_log e = sanitize_for_log (error_text e) log_error_max_length

-- `describeSecret`: the length of a string, and 0 of any other value.
abbrev pub describe_secret : Option Text → ℕ
describe_secret none = 0
describe_secret (some text) = length text
