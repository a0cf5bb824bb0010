-- ===== src/Spark/Keys.antt =====
-- An address names one key.
use spark_ln_address.Prelude.{
  ℕ, ◌+◌, ◌*◌, ◌≡◌, ◌%◌, ◌<◌, refl, Bool, true, false, ◌==◌, [], ◌∷◌, All, all, none, some, length,
  is_hex, if◌then◌else◌, Text, ok, arith, Option, >>=-ok, throw_if-ok, or_throw, or_throw-ok,
  is_empty, not, ◌||◌, get_or_else, get_elem?, codes, text_eq,
}
use spark_ln_address.Auth.Crypto.{Bytes}
use spark_ln_address.Auth.Secp256k1.{from_hex, nibble}
use spark_ln_address.Names.Normal.{to_lower_case, lower_unit}
use spark_ln_address.Spark.{
  Bech32m, network_prefix, compressed_bytes, encode_spark_address, address_of_key, payload,
  wrong_size, wrong_first_byte, unencodable,
}
use spark_ln_address.Spark.Hex.{hex_to_bytes-from_hex}

nibble_bound : (c : ℕ) → is_hex c ≡ true → nibble c < 16
nibble_bound c h = ground arith

nibble-injective :
    (c d : ℕ)
    → is_hex c ≡ true
    → is_hex d ≡ true
    → nibble c ≡ nibble d
    → lower_unit c ≡ lower_unit d
nibble-injective c d h g e = ground arith

from_hex_bounded : (s : Text) → all is_hex s ≡ true → All (λ n. n < 256) (from_hex s)
unfolding from_hex
from_hex_bounded [] h = tt
from_hex_bounded (a ∷ []) h = tt
from_hex_bounded (a ∷ b ∷ s) h =
    (ground (arith, nibble_bound a, nibble_bound b), from_hex_bounded s (ground arith))

length-from_hex : (s : Text) → length (from_hex s) * 2 + length s % 2 ≡ length s
unfolding from_hex
length-from_hex [] = refl
length-from_hex (a ∷ []) = refl
length-from_hex (a ∷ b ∷ s) = omega (arith, length-from_hex s)

all_pair :
    (p : ℕ → Bool) (a b : ℕ) (s : Text)
    → all p (a ∷ b ∷ s) ≡ true
    → (p a ≡ true) × (p b ≡ true) × (all p s ≡ true)
all_pair p a b s h = ground arith

nibbles_of_byte :
    (a b c d : ℕ) → a < 16 → b < 16 → c < 16 → d < 16 → a * 16 + b ≡ c * 16 + d → (a ≡ c) × (b ≡ d)
nibbles_of_byte a b c d p q r s e = (omega arith, omega arith)

-- Two texts of hex digits with the same bytes are the same but for case.
from_hex-injective :
    (s t : Text)
    → all is_hex s ≡ true
    → all is_hex t ≡ true
    → length s % 2 ≡ 0
    → length t % 2 ≡ 0
    → from_hex s ≡ from_hex t
    → to_lower_case s ≡ to_lower_case t
unfolding from_hex to_lower_case
from_hex-injective [] [] h g p q e = refl
from_hex-injective (a ∷ []) t h g p q e = absurd (ground arith)
from_hex-injective s (a ∷ []) h g p q e = absurd (ground arith)
from_hex-injective [] (a ∷ b ∷ t) h g p q e = cc
from_hex-injective (a ∷ b ∷ s) [] h g p q e = cc
from_hex-injective (a ∷ b ∷ s) (c ∷ d ∷ t) h g p q e =
    let heads : nibble a * 16 + nibble b ≡ nibble c * 16 + nibble d = cc e in
    let tails : from_hex s ≡ from_hex t = cc e in
    let (hex_a, hex_b, hex_s) = all_pair is_hex a b s h in
    let (hex_c, hex_d, hex_t) = all_pair is_hex c d t g in
    let (high, low) =
      nibbles_of_byte (nibble a) (nibble b) (nibble c) (nibble d) (nibble_bound a hex_a)
        (nibble_bound b hex_b) (nibble_bound c hex_c) (nibble_bound d hex_d) heads in
    let first = nibble-injective a c hex_a hex_c high in
    let second = nibble-injective b d hex_b hex_d low in
    let rest : to_lower_case s ≡ to_lower_case t =
      from_hex-injective s t hex_s hex_t (omega (arith, p)) (omega (arith, q)) tails in
    rw (first, second, rest) refl

-- A prefix that an encoder keeps.
abbrev IsPlain : Text → Type 0
IsPlain prefix = (to_lower_case prefix ≡ prefix) × (is_empty prefix ≡ false)

pick-IsPlain :
    (test : Bool) (known prefix : Text) (others : Option Text)
    → IsPlain known
    → (others ≡ some prefix → IsPlain prefix)
    → (if test then some known else others) ≡ some prefix
    → IsPlain prefix
pick-IsPlain true known prefix others plain later e =
    let same : known ≡ prefix = cc e in rw (← same) plain
pick-IsPlain false known prefix others plain later e = later e

network_prefix-IsPlain :
    (network prefix : Text) → network_prefix network ≡ some prefix → IsPlain prefix
unfolding network_prefix to_lower_case
network_prefix-IsPlain network prefix =
    pick-IsPlain (text_eq network (codes "MAINNET")) (codes "spark") prefix _ (refl, refl)
      (pick-IsPlain (text_eq network (codes "TESTNET")) (codes "sparkt") prefix _ (refl, refl)
        (pick-IsPlain (text_eq network (codes "REGTEST")) (codes "sparkrt") prefix _ (refl, refl)
          (pick-IsPlain (text_eq network (codes "SIGNET")) (codes "sparks") prefix _ (refl, refl)
            (pick-IsPlain (text_eq network (codes "LOCAL")) (codes "sparkl") prefix none
              (refl, refl) (λ e. cc)))))

module _ (lib : Bech32m) where
  address_of_key_parts :
      (network : Text) (key : Bytes) (address : Text)
      → address_of_key lib network key ≡ ok address
      → (prefix : Text) × (network_prefix network ≡ some prefix)
        × (lib.decode address ≡ some (prefix, lib.to_words (payload key)))
  unfolding address_of_key
  address_of_key_parts network key address e =
      let (sized, e1) = throw_if-ok (not (length key == 33)) wrong_size _ address e in
      let (fits, e2) =
        throw_if-ok
          (not (get_or_else (get_elem? key 0) 0 == 0x02 || get_or_else (get_elem? key 0) 0 == 0x03))
          wrong_first_byte _ address e1 in
      let (prefix, found, e3) =
        >>=-ok (or_throw (network_prefix network) unencodable)
          (λ p. or_throw (lib.encode p (lib.to_words (payload key))) unencodable) e2 in
      let known = or_throw-ok (network_prefix network) unencodable prefix found in
      let written =
        or_throw-ok (lib.encode prefix (lib.to_words (payload key))) unencodable address e3 in
      let plain = network_prefix-IsPlain network prefix known in
      (
        prefix,
        known,
        lib.decode-encode prefix (lib.to_words (payload key)) address plain.0 plain.1 written,
      )

  -- A compressed key given in hex is encoded as it is.
  encode_spark_address-address_of_key :
      (hex network : Text)
      → all is_hex hex ≡ true
      → length hex ≡ 66
      → encode_spark_address lib hex network ≡ address_of_key lib network (from_hex hex)
  unfolding encode_spark_address compressed_bytes
  encode_spark_address-address_of_key hex network h size =
      let even : length hex % 2 ≡ 0 = omega (arith, size) in
      let bytes_size : length (from_hex hex) ≡ 33 = omega (arith, size, length-from_hex hex) in
      rw (hex_to_bytes-from_hex hex h even, bytes_size) refl

  -- Where two compressed keys in hex are encoded to one Spark address, the keys are the same but
  -- for the case of their digits, and the networks have the same prefix.
  pub encode_spark_address-injective :
      (s t n m address : Text)
      → all is_hex s ≡ true
      → all is_hex t ≡ true
      → length s ≡ 66
      → length t ≡ 66
      → encode_spark_address lib s n ≡ ok address
      → encode_spark_address lib t m ≡ ok address
      → (to_lower_case s ≡ to_lower_case t) × (network_prefix n ≡ network_prefix m)
  encode_spark_address-injective s t n m address hs ht ls lt es et =
      let (p, np, dp) =
        address_of_key_parts n (from_hex s) address
          (rw (encode_spark_address-address_of_key s n hs ls) at es) in
      let (q, nq, dq) =
        address_of_key_parts m (from_hex t) address
          (rw (encode_spark_address-address_of_key t m ht lt) at et) in
      let same_words : lib.to_words (payload (from_hex s)) ≡ lib.to_words (payload (from_hex t)) =
        cc (dp, dq) in
      let same_prefix : p ≡ q = cc (dp, dq) in
      let bounded_s : All (λ n. n < 256) (payload (from_hex s)) =
        (omega arith, (omega arith, from_hex_bounded s hs)) in
      let bounded_t : All (λ n. n < 256) (payload (from_hex t)) =
        (omega arith, (omega arith, from_hex_bounded t ht)) in
      let back_s = lib.from_words-to_words (payload (from_hex s)) bounded_s in
      let back_t = lib.from_words-to_words (payload (from_hex t)) bounded_t in
      let same_payload : payload (from_hex s) ≡ payload (from_hex t) =
        cc (same_words, back_s, back_t) in
      let same_bytes : from_hex s ≡ from_hex t = cc same_payload in
      (
        from_hex-injective s t hs ht (omega (arith, ls)) (omega (arith, lt)) same_bytes,
        cc (np, nq, same_prefix),
      )
