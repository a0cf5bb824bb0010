-- ===== src/Logging/Escapes.antt =====
-- What a sanitised value cannot hold, and what it cannot hide.
use spark_ln_address.Prelude.{
  ℕ, zero, suc, ◌+◌, ◌-◌, ◌*◌, ◌/◌, ◌%◌, ◌≤◌, ◌<◌, ◌≡◌, refl, ap, ◌∙◌, Bool, true, not, ltb, leb,
  ◌==◌, if◌then◌else◌, Bool-cases, inl, inr, sym, List, [], ◌∷◌, ◌++◌, Option, none, some, length,
  take, all, All, Text, codes, decimal_text, digits_before, arith,
}
use spark_ln_address.Logging.{
  is_control, hex_digit, hex4, escape_unit, escape, kept_units, sanitize_for_log, code_points, join,
}

-- `c` can be shown on a line.
abbrev pub is_printable : ℕ → Bool
is_printable c = not (is_control c)

hex_digit_printable : (d : ℕ) → d < 16 → is_printable (hex_digit d) ≡ true
hex_digit_printable d h = ground arith

all-append :
    (a b : Text)
    → all is_printable a ≡ true
    → all is_printable b ≡ true
    → all is_printable (a ++ b) ≡ true
all-append [] b h g = g
all-append (c ∷ a) b h g = ground (arith, all-append a b)

hex4_printable : (c : ℕ) → c ≤ 0xffff → all is_printable (hex4 c) ≡ true
hex4_printable c h = ground (
  arith,
  hex_digit_printable (c / 4096),
  hex_digit_printable (c / 256 % 16),
  hex_digit_printable (c / 16 % 16),
  hex_digit_printable (c % 16),
)

escape_unit_printable : (c : ℕ) → c ≤ 0xffff → all is_printable (escape_unit c) ≡ true
escape_unit_printable c h = elim (Bool-cases (c == b'\\')) [
  | inl e ↦ rw e refl
  | inr e ↦ elim (Bool-cases (is_control c)) [
    | inl f ↦ rw (e, f) (hex4_printable c h)
    | inr f ↦ rw (e, f) (rw f refl)
  ]
]

escape_printable : (s : Text) → All (λ c. c ≤ 0xffff) s → all is_printable (escape s) ≡ true
unfolding escape
escape_printable [] h = refl
escape_printable (c ∷ s) (b, h) =
    all-append (escape_unit c) (escape s) (escape_unit_printable c b) (escape_printable s h)

-- The inverse of `escape_unit`: the first unit that an escaped text shows, and the rest.
hex_value : ℕ → ℕ
hex_value d = if ltb d 87 then d - b'0' else d - 87

decode_hex4 : Text → Option (ℕ × Text)
decode_hex4 (a ∷ b ∷ c ∷ d ∷ s) =
    some (hex_value a * 4096 + hex_value b * 256 + hex_value c * 16 + hex_value d, s)
decode_hex4 _ = none

decode_escape : Text → Option (ℕ × Text)
unfolding decode_hex4
decode_escape [] = none
decode_escape (d ∷ s) = if d == b'\\' then some (b'\\', s) else decode_hex4 s

decode_unit : Text → Option (ℕ × Text)
unfolding decode_escape
decode_unit [] = none
decode_unit (c ∷ s) = if c == b'\\' then decode_escape s else some (c, s)

hex_value-hex_digit : (d : ℕ) → d < 16 → hex_value (hex_digit d) ≡ d
unfolding hex_value
hex_value-hex_digit d h = ground arith

decode_hex4-hex4 : (c : ℕ) (s : Text) → c ≤ 0xffff → decode_hex4 (hex4 c ++ s) ≡ some (c, s)
unfolding decode_hex4
decode_hex4-hex4 c s h =
    rw
      (
        hex_value-hex_digit (c / 4096) (omega arith),
        hex_value-hex_digit (c / 256 % 16) (omega arith),
        hex_value-hex_digit (c / 16 % 16) (omega arith),
        hex_value-hex_digit (c % 16) (omega arith),
      )
      (ap (λ n. some (n, s)) (omega arith))

decode_unit-escape_unit :
    (c : ℕ) (s : Text) → c ≤ 0xffff → decode_unit (escape_unit c ++ s) ≡ some (c, s)
unfolding decode_unit decode_escape
decode_unit-escape_unit c s h = elim (Bool-cases (c == b'\\')) [
  | inl e ↦ rw e (ap (λ n. some (n, s)) (ground arith))
  | inr e ↦ elim (Bool-cases (is_control c)) [
    | inl f ↦ rw (e, f) (decode_hex4-hex4 c s h)
    | inr f ↦ rw (e, f) (rw e refl)
  ]
]

-- Escaping loses nothing: two texts of code units with one escaped form are the same text.
pub escape-injective :
    (a b : Text) → All (λ c. c ≤ 0xffff) a → All (λ c. c ≤ 0xffff) b → escape a ≡ escape b → a ≡ b
unfolding escape decode_unit
escape-injective [] [] h g e = refl
escape-injective [] (d ∷ b) h (bd, g) e =
    let shown : none ≡ some (d, escape b) =
      ap decode_unit e ∙ decode_unit-escape_unit d (escape b) bd in
    cc shown
escape-injective (c ∷ a) [] (bc, h) g e =
    let shown : none ≡ some (c, escape a) =
      sym (ap decode_unit e) ∙ decode_unit-escape_unit c (escape a) bc in
    cc shown
escape-injective (c ∷ a) (d ∷ b) (bc, h) (bd, g) e =
    let same : some (c, escape a) ≡ some (d, escape b) =
      sym (decode_unit-escape_unit c (escape a) bc)
      ∙ (ap decode_unit e ∙ decode_unit-escape_unit d (escape b) bd) in
    let first : c ≡ d = cc same in
    let rest : escape a ≡ escape b = cc same in cc (first, escape-injective a b h g rest)

join-code_points : (s : Text) → join (code_points s) ≡ s
unfolding join code_points
join-code_points [] = refl
join-code_points (c ∷ []) = refl
join-code_points (c ∷ d ∷ s) = ground (arith, join-code_points s, join-code_points (d ∷ s))

All-left : (a b : Text) → All (λ c. c ≤ 0xffff) (a ++ b) → All (λ c. c ≤ 0xffff) a
All-left [] b h = tt
All-left (c ∷ a) b (bc, h) = (bc, All-left a b h)

All-right : (a b : Text) → All (λ c. c ≤ 0xffff) (a ++ b) → All (λ c. c ≤ 0xffff) b
All-right [] b h = h
All-right (c ∷ a) b (bc, h) = All-right a b h

All-both :
    (a b : Text)
    → All (λ c. c ≤ 0xffff) a
    → All (λ c. c ≤ 0xffff) b
    → All (λ c. c ≤ 0xffff) (a ++ b)
All-both [] b h g = g
All-both (c ∷ a) b (bc, h) g = (bc, All-both a b h g)

All-join-take :
    (n : ℕ) (ps : List Text)
    → All (λ c. c ≤ 0xffff) (join ps)
    → All (λ c. c ≤ 0xffff) (join (take n ps))
unfolding join
All-join-take zero ps h = tt
All-join-take (suc n) [] h = tt
All-join-take (suc n) (p ∷ ps) h =
    All-both p (join (take n ps)) (All-left p (join ps) h)
      (All-join-take n ps (All-right p (join ps) h))

All-take : (n : ℕ) (s : Text) → All (λ c. c ≤ 0xffff) s → All (λ c. c ≤ 0xffff) (take n s)
All-take zero s h = tt
All-take (suc n) [] h = tt
All-take (suc n) (c ∷ s) (bc, h) = (bc, All-take n s h)

kept_units_bounded :
    (text : Text) (max_length : ℕ)
    → All (λ c. c ≤ 0xffff) text
    → All (λ c. c ≤ 0xffff) (kept_units text max_length)
unfolding kept_units
kept_units_bounded text n h =
    All-join-take n (code_points (take (n * 2) text))
      (rw (join-code_points (take (n * 2) text)) (All-take (n * 2) text h))

digits_before_printable :
    (rounds n : ℕ) (rest : Text)
    → n ≤ rounds
    → all is_printable rest ≡ true
    → all is_printable (digits_before rounds n rest) ≡ true
unfolding digits_before
digits_before_printable zero n rest b h = ground arith
digits_before_printable (suc rounds) n rest b h =
    let digit : is_printable (b'0' + n % 10) ≡ true = ground arith in
    let more : all is_printable ((b'0' + n % 10) ∷ rest) ≡ true = rw digit h in
    let deep =
      digits_before_printable rounds (n / 10) ((b'0' + n % 10) ∷ rest) (omega arith) more in
    elim (Bool-cases (ltb n 10)) [ inl small ↦ rw small (ground arith) | inr big ↦ rw big deep ]

decimal_text_printable : (n : ℕ) → all is_printable (decimal_text n) ≡ true
unfolding decimal_text
decimal_text_printable n = digits_before_printable n n [] (omega arith) refl

-- A text of 16-bit code units, sanitised for a log under any limit, holds no control character.
pub sanitize_for_log_printable :
    (text : Text) (max_length : ℕ)
    → All (λ c. c ≤ 0xffff) text
    → all is_printable (sanitize_for_log text max_length) ≡ true
unfolding sanitize_for_log
sanitize_for_log_printable text n h =
    let kept = kept_units text n in
    let shown : all is_printable (escape kept) ≡ true =
      escape_printable kept (kept_units_bounded text n h) in
    let note : all is_printable
          (codes "...[" ++ (decimal_text (length (code_points text)) ++ codes " chars]"))
        ≡ true =
      all-append (codes "...[") (decimal_text (length (code_points text)) ++ codes " chars]") refl (
        all-append (decimal_text (length (code_points text))) (codes " chars]")
          (decimal_text_printable (length (code_points text))) refl) in
    elim (Bool-cases (leb (length text) (length kept))) [
      | inl e ↦ rw e shown
      | inr e ↦ rw e (all-append (escape kept) _ shown note)
    ]
