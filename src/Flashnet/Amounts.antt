-- ===== src/Flashnet/Amounts.antt =====
-- Amounts in the prefix of an invoice are read back, and the padding of its words comes to an end.
use spark_ln_address.Prelude.{
  ℕ, zero, suc, ◌+◌, ◌-◌, ◌*◌, ◌/◌, ◌%◌, ◌≤◌, ◌<◌, ◌≡◌, refl, ◌∙◌, Bool, true, false, not, ltb,
  ◌==◌, Bool-cases, if◌then◌else◌, inl, inr, none, some, [], ◌∷◌, ◌++◌, all, length, length-append,
  is_digit, is_empty, Text, codes, starts_with, decimal_text, digits_before, decimal-decimal_text,
  arith,
}
use spark_ln_address.Bolt11.{Words}
use spark_ln_address.Flashnet.Invoice.{
  digits, after_digits, factor_of, is_pico, whole_msat, msat_of_amount, prefix_msat,
}
use spark_ln_address.Flashnet.Signing.{pad_words, padded}

digits_before-is_digit :
    (rounds n : ℕ) (rest : Text)
    → n ≤ rounds
    → all is_digit rest ≡ true
    → all is_digit (digits_before rounds n rest) ≡ true
unfolding digits_before
digits_before-is_digit zero n rest b h = ground arith
digits_before-is_digit (suc rounds) n rest b h =
    let digit : is_digit (b'0' + n % 10) ≡ true = ground arith in
    let more : all is_digit ((b'0' + n % 10) ∷ rest) ≡ true = rw digit h in
    let deep = digits_before-is_digit rounds (n / 10) ((b'0' + n % 10) ∷ rest) (omega arith) more in
    elim (Bool-cases (ltb n 10)) [ inl small ↦ rw small (ground arith) | inr big ↦ rw big deep ]

digits_before_filled : (rounds n : ℕ) (rest : Text) → is_empty (digits_before rounds n rest) ≡ false
unfolding digits_before
digits_before_filled zero n rest = refl
digits_before_filled (suc rounds) n rest = elim (Bool-cases (ltb n 10)) [
  | inl small ↦ rw small refl
  | inr big ↦ rw big (digits_before_filled rounds (n / 10) ((b'0' + n % 10) ∷ rest))
]

decimal_text-is_digit : (n : ℕ) → all is_digit (decimal_text n) ≡ true
unfolding decimal_text
decimal_text-is_digit n = digits_before-is_digit n n [] (omega arith) refl

decimal_text_filled : (n : ℕ) → is_empty (decimal_text n) ≡ false
unfolding decimal_text
decimal_text_filled n = digits_before_filled n n []

*-one : (n : ℕ) → n * 1 ≡ n
*-one n = omega arith

-- A text that no digit starts.
abbrev ends_digits : Text → Bool
ends_digits [] = true
ends_digits (c ∷ s) = not (is_digit c)

digits-append :
    (number unit : Text)
    → all is_digit number ≡ true
    → ends_digits unit ≡ true
    → (digits (number ++ unit) ≡ number) × (after_digits (number ++ unit) ≡ unit)
unfolding digits after_digits
digits-append [] [] h g = (refl, refl)
digits-append [] (c ∷ s) h g = ground (arith, g)
digits-append (c ∷ number) unit h g = ground (arith, digits-append number unit)

factor_ends : (unit : Text) (factor : ℕ) → factor_of unit ≡ some factor → ends_digits unit ≡ true
factor_ends [] factor h = refl
factor_ends (u ∷ []) factor h = ground arith
factor_ends (u ∷ v ∷ s) factor h = cc

factor_pico :
    (unit : Text) (factor : ℕ) → factor_of unit ≡ some factor → is_pico unit ≡ true → factor ≡ 1
factor_pico [] factor h e = cc
factor_pico (u ∷ []) factor h e = ground arith
factor_pico (u ∷ v ∷ s) factor h e = cc

prefix_msat-msat_of_amount :
    (amount : Text) → prefix_msat (codes "lnbc" ++ amount) ≡ msat_of_amount amount
unfolding prefix_msat starts_with
prefix_msat-msat_of_amount amount = refl

whole_msat_cases :
    (n : ℕ) (unit : Text) (factor : ℕ)
    → factor_of unit ≡ some factor
    → whole_msat (is_pico unit) (n * factor)
      ≡ (if is_pico unit then (if n % 10 == 0 then some (n / 10) else none) else some (n * factor))
whole_msat_cases n unit factor h = elim (Bool-cases (is_pico unit)) [
  | inl e ↦ rw (e, factor_pico unit factor h e) (rw (*-one n) refl)
  | inr e ↦ rw e refl
]

msat_of_amount-decimal_text :
    (n : ℕ) (unit : Text) (factor : ℕ)
    → factor_of unit ≡ some factor
    → msat_of_amount (decimal_text n ++ unit) ≡ whole_msat (is_pico unit) (n * factor)
unfolding msat_of_amount
msat_of_amount-decimal_text n unit factor h =
    let split =
      digits-append (decimal_text n) unit (decimal_text-is_digit n) (factor_ends unit factor h) in
    rw (split.0, split.1, decimal_text_filled n, h)
      (rw (split.0, split.1, decimal-decimal_text n) refl)

-- An amount written in a unit is read back in msat; tenths of a msat are refused.
pub prefix_msat-decimal_text :
    (n : ℕ) (unit : Text) (factor : ℕ)
    → factor_of unit ≡ some factor
    → prefix_msat (codes "lnbc" ++ (decimal_text n ++ unit))
      ≡ (if is_pico unit then (if n % 10 == 0 then some (n / 10) else none) else some (n * factor))
prefix_msat-decimal_text n unit factor h =
    prefix_msat-msat_of_amount (decimal_text n ++ unit)
    ∙ (msat_of_amount-decimal_text n unit factor h ∙ whole_msat_cases n unit factor h)

whole_now : (n : ℕ) → ((n + 0) * 5) % 8 ≡ 0 → ((n * 5) % 8 == 0) ≡ true
whole_now n h = ground (arith, h)

-- The words are padded by less than the rounds that there are.
pad_words_ends :
    (rounds missing : ℕ) (words : Words)
    → missing < rounds
    → ((length words + missing) * 5) % 8 ≡ 0
    → (length (pad_words rounds words) * 5) % 8 ≡ 0
unfolding pad_words
pad_words_ends zero missing words less whole = absurd (omega (arith, less))
pad_words_ends (suc rounds) zero words less whole =
    rw (whole_now (length words) whole) (omega (arith, whole))
pad_words_ends (suc rounds) (suc missing) words less whole =
    let longer = length-append words (0 ∷ []) in
    elim (Bool-cases ((length words * 5) % 8 == 0)) [
      | inl e ↦ rw e (ground (arith, e))
      | inr e ↦ rw e (
          pad_words_ends rounds missing (words ++ (0 ∷ [])) (omega (arith, less))
            (omega (arith, longer, whole)))
    ]

-- The padding comes to a whole number of bytes.
pub padded_ends : (words : Words) → (length (padded words) * 5) % 8 ≡ 0
padded_ends words = pad_words_ends 8 ((8 - length words % 8) % 8) words (omega arith) (omega arith)
