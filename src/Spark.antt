-- ===== src/Spark.antt =====
-- src/common/spark-address.utils.ts: the Spark address of a public key.
pub mod Hex
pub mod Keys
use spark_ln_address.Prelude.{
  ◌>>=◌, ◌>>◌, ℕ, ◌+◌, ◌-◌, ◌*◌, ◌%◌, ◌≡◌, ◌<◌, false, not, ◌||◌, ◌==◌, if◌then◌else◌, Option, none,
  some, get_or_else, get_elem?, List, [], ◌∷◌, All, length, is_hex, is_empty, Text, codes, text_eq,
  Result, ok, err, throw_if, or_throw,
}
use spark_ln_address.Auth.Crypto.{Bytes}
use spark_ln_address.Auth.Secp256k1.{nibble}
use spark_ln_address.Names.Normal.{to_lower_case, trim_start}

-- `NetworkPrefix[network]`; a name that is no network gives no string.
unfoldable pub network_prefix : Text → Option Text
network_prefix network =
    if text_eq network (codes "MAINNET")
    then some (codes "spark")
    else if text_eq network (codes "TESTNET")
    then some (codes "sparkt")
    else if text_eq network (codes "REGTEST")
    then some (codes "sparkrt")
    else if text_eq network (codes "SIGNET")
    then some (codes "sparks")
    else if text_eq network (codes "LOCAL")
    then some (codes "sparkl")
    else none

pub data SparkError : Type 0 where
  odd_length invalid_hex_byte invalid_point wrong_size wrong_first_byte : SparkError
  unencodable : SparkError

-- The number that the leading hex digits of at most two characters write.
abbrev pub leading_hex : Text → Option ℕ
leading_hex [] = none
leading_hex (a ∷ []) = if is_hex a then some (nibble a) else none
leading_hex (a ∷ b ∷ s) =
    if not (is_hex a)
    then none
    else if is_hex b
    then some (nibble a * 16 + nibble b)
    else some (nibble a)

-- `0x`, which `parseInt(_, 16)` skips.
abbrev pub strip_0x : Text → Text
strip_0x [] = []
strip_0x (a ∷ []) = a ∷ []
strip_0x (a ∷ b ∷ s) = if a == b'0' then (if b == b'x' then s else a ∷ b ∷ s) else a ∷ b ∷ s

-- Stored in a `Uint8Array`, a negative number is taken modulo 256.
abbrev pub negated : Option ℕ → Option ℕ
negated none = none
negated (some n) = some ((256 - n) % 256)

abbrev pub signed_hex : Text → Option ℕ
signed_hex [] = none
signed_hex (c ∷ s) =
    if c == b'-'
    then negated (leading_hex (strip_0x s))
    else if c == b'+'
    then leading_hex (strip_0x s)
    else leading_hex (strip_0x (c ∷ s))

-- `parseInt(byte, 16)` of two characters in lower case, as a byte; `none` is NaN.
unfoldable pub parse_byte : ℕ → ℕ → Option ℕ
parse_byte a b = signed_hex (trim_start (a ∷ b ∷ []))

abbrev before_bytes : ℕ → Result SparkError Bytes → Result SparkError Bytes
before_bytes n (ok bytes) = ok (n ∷ bytes)
before_bytes n (err e) = err e

-- The loop of `hexToBytes`, over a text of even length.
unfoldable pub byte_pairs : Text → Result SparkError Bytes
byte_pairs [] = ok []
byte_pairs (a ∷ []) = err odd_length
byte_pairs (a ∷ b ∷ s) =
    let rest = byte_pairs s in
    elim (parse_byte a b) [ none ↦ err invalid_hex_byte | some n ↦ before_bytes n rest ]

unfoldable pub hex_to_bytes : Text → Result SparkError Bytes
hex_to_bytes hex =
    let clean = strip_0x (to_lower_case hex) in
    if not (length clean % 2 == 0) then err odd_length else byte_pairs clean

-- What the encoder takes of the bech32 package and of @noble/secp256k1, with `none` for a thrown
-- error: `bech32m`, whose decoding reads back what it has encoded, and
-- `Point.fromHex(hex).toBytes()`.
pub record Bech32m : Type 0 where
  pub to_words : Bytes → List ℕ
  pub from_words : List ℕ → Option Bytes
  pub encode : Text → List ℕ → Option Text
  pub decode : Text → Option (Text × List ℕ)
  pub compress : Text → Option Bytes
  pub from_words-to_words : (b : Bytes) → All (λ n. n < 256) b → from_words (to_words b) ≡ some b
  pub decode-encode :
      (prefix : Text) (words : List ℕ) (text : Text)
      → to_lower_case prefix ≡ prefix
      → is_empty prefix ≡ false
      → encode prefix words ≡ some text
      → decode text ≡ some (prefix, words)

-- `payload`, with its two bytes of header.
abbrev pub payload : Bytes → Bytes
payload key = 0x0a ∷ 0x21 ∷ key

module _ (lib : Bech32m) where
  -- An uncompressed key is compressed.
  unfoldable pub compressed_bytes : Text → Bytes → Result SparkError Bytes
  compressed_bytes hex bytes =
      if length bytes == 65 then or_throw (lib.compress hex) invalid_point else ok bytes

  unfoldable pub address_of_key : Text → Bytes → Result SparkError Text
  address_of_key network key = do
    throw_if (not (length key == 33)) wrong_size
    let first = get_or_else (get_elem? key 0) 0
    throw_if (not (first == 0x02 || first == 0x03)) wrong_first_byte
    prefix ← or_throw (network_prefix network) unencodable
    or_throw (lib.encode prefix (lib.to_words (payload key))) unencodable

  unfoldable pub encode_spark_address : Text → Text → Result SparkError Text
  encode_spark_address hex network = do
    bytes ← hex_to_bytes hex
    key ← compressed_bytes hex bytes
    address_of_key network key
