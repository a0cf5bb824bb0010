-- ===== src/Flashnet/Invoice.antt =====
-- src/flashnet/lightning-quote-validation.ts: the amount that an invoice's prefix asks for, and the
-- words of its tags as numbers.
use spark_ln_address.Prelude.{
  ℕ, ◌+◌, ◌*◌, ◌/◌, ◌%◌, Bool, true, false, ◌==◌, if◌then◌else◌, Option, none, some, [], ◌∷◌,
  is_digit, is_empty, Text, codes, decimal, starts_with, drop,
}
use spark_ln_address.Bolt11.{Words}

-- The longest run of digits at the start, and what follows it.
unfoldable pub digits : Text → Text
digits [] = []
digits (c ∷ s) = let rest = digits s in if is_digit c then c ∷ rest else []

unfoldable pub after_digits : Text → Text
after_digits [] = []
after_digits (c ∷ s) = let rest = after_digits s in if is_digit c then rest else c ∷ s

-- The entry of `factors`, of a text that `[munp]?` matches: one bitcoin is 100 billion msat.
abbrev pub factor_of : Text → Option ℕ
factor_of [] = some 100000000000
factor_of (u ∷ []) =
    if u == b'm'
    then some 100000000
    else if u == b'u'
    then some 100000
    else if u == b'n'
    then some 100
    else if u == b'p'
    then some 1
    else none
factor_of (u ∷ v ∷ s) = none

abbrev pub is_pico : Text → Bool
is_pico [] = false
is_pico (u ∷ s) = u == b'p'

-- Pico-bitcoin are tenths of a msat.
abbrev pub whole_msat : Bool → ℕ → Option ℕ
whole_msat false raw = some raw
whole_msat true raw = if raw % 10 == 0 then some (raw / 10) else none

-- The msat of a prefix that `/^lnbc(\d+)([munp]?)$/` matches.
unfoldable pub msat_of_amount : Text → Option ℕ
msat_of_amount amount =
    let number = digits amount in
    let unit = after_digits amount in
    if is_empty number then none else elim (factor_of unit) [
      | none ↦ none
      | some factor ↦ whole_msat (is_pico unit) (decimal number * factor)
    ]

unfoldable pub prefix_msat : Text → Option ℕ
prefix_msat prefix =
    if starts_with (codes "lnbc") prefix then msat_of_amount (drop 4 prefix) else none

-- `number(words)`: exact, where the source rounds from 2 ^ 53 on. A lifetime that large is refused
-- in either case.
unfoldable pub number_from : ℕ → Words → ℕ
number_from total [] = total
number_from total (w ∷ words) = number_from (total * 32 + w) words

abbrev pub number_of_words : Words → ℕ
number_of_words words = number_from 0 words
