-- ===== src/Names/Normal.antt =====
-- src/common/utils.ts, `normalizeUsername`. Of the letters beyond ASCII only the Kelvin sign has an
-- ASCII lower case; the others stay outside the accepted characters, whatever their case.
use spark_ln_address.Prelude.{
  ℕ, ◌+◌, Bool, not, ◌&&◌, ◌||◌, leb, ◌==◌, if◌then◌else◌, Option, none, some, [], ◌∷◌, reverse,
  Text, length, all, is_empty, is_lower, is_upper, is_digit,
}

abbrev pub lower_unit : ℕ → ℕ
lower_unit c = if is_upper c then c + 32 else if c == 0x212a then b'k' else c

unfoldable pub to_lower_case : Text → Text
to_lower_case [] = []
to_lower_case (c ∷ s) = lower_unit c ∷ to_lower_case s

-- White space and line terminators.
abbrev pub is_space : ℕ → Bool
is_space c =
    (leb 9 c && leb c 13)
    || c == 32
    || c == 0xa0
    || c == 0x1680
    || (leb 0x2000 c && leb c 0x200a)
    || c == 0x2028
    || c == 0x2029
    || c == 0x202f
    || c == 0x205f
    || c == 0x3000
    || c == 0xfeff

unfoldable pub trim_start : Text → Text
trim_start [] = []
trim_start (c ∷ s) = let rest = trim_start s in if is_space c then rest else c ∷ s

unfoldable pub trim : Text → Text
unfolding trim_start
trim s = reverse (trim_start (reverse (trim_start s)))

-- `[a-z0-9._-]`.
abbrev pub is_name_unit : ℕ → Bool
is_name_unit c = is_lower c || is_digit c || c == b'.' || c == b'_' || c == b'-'

-- `/^[a-z0-9._-]{1,30}$/`.
abbrev pub is_username : Text → Bool
is_username s = not (is_empty s) && leb (length s) 30 && all is_name_unit s

unfoldable pub normalize_username : Text → Option Text
normalize_username username =
    let normalized = trim (to_lower_case username) in
    if is_username normalized then some normalized else none
