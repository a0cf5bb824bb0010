-- ===== src/Names/Reserved.antt =====
-- src/common/reserved-usernames.ts. A `Set` is the list of its members, asked for membership alone,
-- and the cache of parsed RESERVED_USERNAMES values is left out: it holds what it would compute.
pub mod Words
pub mod Separators
use spark_ln_address.Prelude.{
  ℕ, zero, suc, ◌+◌, ◌-◌, Bool, not, ◌&&◌, ◌||◌, ltb, ◌==◌, if◌then◌else◌, Option, none, some,
  get_or_else, List, [], ◌∷◌, ◌++◌, map, reverse, Text, mem_text, length, take, drop, get_elem?,
  any, keep, is_empty, is_digit,
}
use spark_ln_address.Names.Normal.{to_lower_case, trim, is_username}
use Words.{fillers, default_reserved_usernames}

-- `LOOKALIKES[c] ?? c`, of a digit, `l` or `q`.
abbrev pub lookalike : ℕ → ℕ
lookalike c =
    if c == b'0'
    then b'o'
    else if c == b'1'
    then b'i'
    else if c == b'l'
    then b'i'
    else if c == b'2'
    then b'z'
    else if c == b'3'
    then b'e'
    else if c == b'4'
    then b'a'
    else if c == b'5'
    then b's'
    else if c == b'6'
    then b'g'
    else if c == b'7'
    then b't'
    else if c == b'8'
    then b'b'
    else if c == b'9'
    then b'g'
    else if c == b'q'
    then b'g'
    else c

abbrev pub is_separator : ℕ → Bool
is_separator c = c == b'.' || c == b'_' || c == b'-'

-- `.replace(/[._-]/g, '')`.
unfoldable pub strip_separators : Text → Text
strip_separators [] = []
strip_separators (c ∷ s) =
    let rest = strip_separators s in if is_separator c then rest else c ∷ rest

-- `.replace(/ab/g, 'm')` for two letters: the matches do not overlap.
unfoldable pub fold_pair : ℕ → ℕ → ℕ → Text → Text
fold_pair a b m [] = []
fold_pair a b m (c ∷ []) = c ∷ []
fold_pair a b m (c ∷ d ∷ s) =
    let matched = m ∷ fold_pair a b m s in
    let other = c ∷ fold_pair a b m (d ∷ s) in if c == a && d == b then matched else other

-- `.replace(/(.)\1+/g, '$1')`.
unfoldable pub collapse_repeats : Text → Text
collapse_repeats [] = []
collapse_repeats (c ∷ []) = c ∷ []
collapse_repeats (c ∷ d ∷ s) =
    let rest = collapse_repeats (d ∷ s) in if c == d then rest else c ∷ rest

-- `name.toLowerCase().replace(/[._-]/g, '')`.
unfoldable pub compact_name : Text → Text
unfolding to_lower_case strip_separators
compact_name name = strip_separators (to_lower_case name)

unfoldable pub username_skeleton : Text → Text
unfolding compact_name fold_pair collapse_repeats
username_skeleton name =
    map lookalike
      (collapse_repeats (fold_pair b'v' b'v' b'w' (fold_pair b'r' b'n' b'm' (compact_name name))))

unfoldable pub drop_leading_digits : Text → Text
drop_leading_digits [] = []
drop_leading_digits (c ∷ s) = let rest = drop_leading_digits s in if is_digit c then rest else c ∷ s

abbrev drop_trailing_digits : Text → Text
drop_trailing_digits s = reverse (drop_leading_digits (reverse s))

unfoldable pub candidate_skeletons : Text → List Text
unfolding drop_leading_digits
candidate_skeletons name =
    let compact = compact_name name in
    map username_skeleton (
      keep (λ variant. not (is_empty variant))
        (compact
          ∷ drop_trailing_digits compact
          ∷ drop_leading_digits compact
          ∷ drop_trailing_digits (drop_leading_digits compact)
          ∷ []))

-- `raw.split(',')`.
unfoldable pub split_commas : Text → List Text
split_commas [] = [] ∷ []
split_commas (c ∷ s) = elim (split_commas s) [
  | [] ↦ []
  | part ∷ parts ↦ if c == b',' then [] ∷ part ∷ parts else (c ∷ part) ∷ parts
]

unfoldable pub extra_skeletons : Option Text → List Text
unfolding split_commas trim
extra_skeletons none = []
extra_skeletons (some raw) =
    if is_empty raw
    then []
    else keep (λ skeleton. not (is_empty skeleton))
        (map username_skeleton
          (keep is_username (map (λ entry. to_lower_case (trim entry)) (split_commas raw))))

unfoldable pub protected_skeletons : List Text
unfolding username_skeleton
protected_skeletons = map username_skeleton default_reserved_usernames

unfoldable pub filler_skeletons : List Text
unfolding username_skeleton
filler_skeletons = map username_skeleton fillers

-- `skeleton.slice(from, end)`.
abbrev pub slice : Text → ℕ → ℕ → Text
slice s from end = take (end - from) (drop from s)

module _ (fillers protected : List Text) (skeleton : Text) where
  -- One word that ends at `end`, from a prefix in state `before`: 0 is not segmentable, 1 fillers
  -- only, 2 with a protected word.
  unfoldable pub try_word : (from end before current : ℕ) → ℕ
  try_word from end before current =
      let word = slice skeleton from end in
      if mem_text word protected
      then 2
      else if mem_text word fillers && ltb current before
      then before
      else current

  -- The starts of the last word, in order, up to the first that gives state 2.
  unfoldable pub scan_starts : (left start end : ℕ) → List ℕ → ℕ → ℕ
  unfolding try_word
  scan_starts zero start end state current = current
  scan_starts (suc left) start end state current =
      let before = get_or_else (get_elem? state start) 0 in
      let here = try_word start end before current in
      let next = if ltb 0 start then try_word (start - 1) end before here else here in
      let skipped = scan_starts left (start + 1) end state current in
      let onward = scan_starts left (start + 1) end state next in
      if before == 0 then skipped else if next == 2 then 2 else onward

  -- `state` holds the entries below `end`.
  unfoldable pub scan_ends : (left end : ℕ) → List ℕ → List ℕ
  unfolding scan_starts
  scan_ends zero end state = state
  scan_ends (suc left) end state =
      scan_ends left (end + 1) (state ++ scan_starts end 0 end state 0 ∷ [])

  unfoldable pub segments_into_protected : Bool
  unfolding scan_ends
  segments_into_protected =
      get_or_else (get_elem? (scan_ends (length skeleton) 1 (1 ∷ [])) (length skeleton)) 0 == 2

unfoldable pub is_reserved_username : Text → Option Text → Bool
is_reserved_username username extra =
    let protected = protected_skeletons ++ extra_skeletons extra in
    any (segments_into_protected filler_skeletons protected) (candidate_skeletons username)
