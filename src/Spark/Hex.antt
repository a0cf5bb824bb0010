-- ===== src/Spark/Hex.antt =====
-- Where the two readers of hex agree.
use spark_ln_address.Prelude.{
  ℕ, ◌+◌, ◌*◌, ◌≡◌, ◌%◌, refl, true, false, ◌==◌, [], ◌∷◌, all, some, length, is_hex, Text, ok,
  arith, Bool-cases, inl, inr, ap, suc,
}
use spark_ln_address.Auth.Secp256k1.{from_hex, nibble}
use spark_ln_address.Names.Normal.{to_lower_case, trim_start, lower_unit, is_space}
use spark_ln_address.Spark.{hex_to_bytes, byte_pairs, parse_byte, strip_0x}

-- A lower-case hex digit is taken as it is.
record IsPlain (c : ℕ) : Type 0 where
  hex : is_hex c ≡ true
  space : is_space c ≡ false
  minus : (c == b'-') ≡ false
  plus : (c == b'+') ≡ false
  mark : (c == b'x') ≡ false

lower_unit-IsPlain : (c : ℕ) → is_hex c ≡ true → IsPlain (lower_unit c)
lower_unit-IsPlain c h = record {
  hex = ground arith;
  space = ground arith;
  minus = ground arith;
  plus = ground arith;
  mark = ground arith;
}

nibble-lower_unit : (c : ℕ) → is_hex c ≡ true → nibble (lower_unit c) ≡ nibble c
nibble-lower_unit c h = ground arith

parse_byte-IsPlain :
    (a b : ℕ) → IsPlain a → IsPlain b → parse_byte a b ≡ some (nibble a * 16 + nibble b)
unfolding parse_byte trim_start
parse_byte-IsPlain a b p q = elim (Bool-cases (a == b'0')) [
  | inl e ↦ rw (p.space, p.minus, p.plus, e, q.mark, p.hex, q.hex) refl
  | inr e ↦ rw (p.space, p.minus, p.plus, e, p.hex, q.hex) refl
]

parse_byte-lower_unit :
    (a b : ℕ)
    → is_hex a ≡ true
    → is_hex b ≡ true
    → parse_byte (lower_unit a) (lower_unit b) ≡ some (nibble a * 16 + nibble b)
parse_byte-lower_unit a b h g =
    rw (← nibble-lower_unit a h, ← nibble-lower_unit b g)
      (parse_byte-IsPlain (lower_unit a) (lower_unit b) (lower_unit-IsPlain a h)
        (lower_unit-IsPlain b g))

byte_pairs-to_lower_case :
    (s : Text)
    → all is_hex s ≡ true
    → length s % 2 ≡ 0
    → byte_pairs (to_lower_case s) ≡ ok (from_hex s)
unfolding byte_pairs to_lower_case from_hex
byte_pairs-to_lower_case [] h e = refl
byte_pairs-to_lower_case (a ∷ []) h e = absurd (ground arith)
byte_pairs-to_lower_case (a ∷ b ∷ s) h e =
    ground (arith, parse_byte-lower_unit a b, byte_pairs-to_lower_case s)

length-to_lower_case : (s : Text) → length (to_lower_case s) ≡ length s
unfolding to_lower_case
length-to_lower_case [] = refl
length-to_lower_case (c ∷ s) = ap suc (length-to_lower_case s)

strip_0x-to_lower_case :
    (s : Text) → all is_hex s ≡ true → strip_0x (to_lower_case s) ≡ to_lower_case s
unfolding to_lower_case
strip_0x-to_lower_case [] h = refl
strip_0x-to_lower_case (a ∷ []) h = refl
strip_0x-to_lower_case (a ∷ b ∷ s) h = ground arith

-- On an even number of hex digits the two readers of hex agree.
pub hex_to_bytes-from_hex :
    (s : Text) → all is_hex s ≡ true → length s % 2 ≡ 0 → hex_to_bytes s ≡ ok (from_hex s)
unfolding hex_to_bytes
hex_to_bytes-from_hex s h e =
    ground
      (arith, strip_0x-to_lower_case s h, length-to_lower_case s, byte_pairs-to_lower_case s h e)
