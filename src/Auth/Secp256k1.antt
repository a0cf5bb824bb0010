-- ===== src/Auth/Secp256k1.antt =====
-- src/auth/secp256k1.utils.ts.
pub mod Der
use spark_ln_address.Prelude.{
  ℕ, ◌+◌, ◌-◌, ◌*◌, Bool, true, false, not, ◌&&◌, ◌||◌, ltb, ◌==◌, if◌then◌else◌, Option, none,
  some, get_or_else, List, [], ◌∷◌, ◌++◌, map, Text, text_eq, mem_text, length, take, drop,
  replicate, get_elem?, all, is_empty, is_hex, is_upper, is_digit, is_lower,
}
use spark_ln_address.Auth.Crypto.{Bytes, Crypto}

-- The last 32 bytes, padded on the left with zeros.
unfoldable pub normalize : Bytes → Bytes
normalize buf =
    if ltb 32 (length buf) then drop (length buf - 32) buf else replicate (32 - length buf) 0 ++ buf

-- `buf.subarray(offset, offset + len)`.
abbrev pub subarray : Bytes → ℕ → ℕ → Bytes
subarray buf offset len = take len (drop offset buf)

-- Reading past the end gives `undefined`: it is no 0x02, and as the length of S it reads nothing.
read_s : Bytes → ℕ → Bytes → Bytes
read_s sig offset r = elim (get_elem? sig offset) [
  | none ↦ sig
  | some tag ↦
      if tag == 0x02
      then normalize r
        ++ normalize (subarray sig (offset + 2) (get_or_else (get_elem? sig (offset + 1)) 0))
      else sig
]

unfoldable pub der_to_compact : Bytes → Bytes
unfolding read_s
der_to_compact sig = elim (get_elem? sig 2) [
  | none ↦ sig
  | some tag ↦
      if tag == 0x02
      then elim (get_elem? sig 3) [
        | none ↦ sig
        | some r_len ↦ read_s sig (4 + r_len) (subarray sig 4 r_len)
      ]
      else sig
]

-- One hex digit, and `Buffer.from(text, 'hex')` of a text of hex digits.
abbrev pub nibble : ℕ → ℕ
nibble c = if is_digit c then c - b'0' else if is_lower c then c - 87 else c - 55

unfoldable pub from_hex : Text → Bytes
from_hex [] = []
from_hex (a ∷ []) = []
from_hex (a ∷ b ∷ s) = (nibble a * 16 + nibble b) ∷ from_hex s

-- `/^[0-9a-fA-F]+$/`, and the two lengths of a key.
abbrev pub is_hex_text : Text → Bool
is_hex_text s = not (is_empty s) && all is_hex s

abbrev pub is_key : Text → Bool
is_key s = all is_hex s && (length s == 66 || length s == 130)

pub data Message : Type 0 where
  buffer : Bytes → Message
  hex : Text → Message

unfoldable pub message_bytes : Message → Option Bytes
message_bytes (buffer b) = some b
message_bytes (hex s) = if is_hex_text s then some (from_hex s) else none

unfoldable pub compact_signature : Bytes → Bytes
compact_signature sig =
    if ltb 64 (length sig) && get_or_else (get_elem? sig 0) 0 == 0x30
    then der_to_compact sig
    else sig

-- `s.toLowerCase()`, on ASCII.
abbrev pub lower : Text → Text
lower = map (λ c. if is_upper c then c + 32 else c)

module _ (crypto : Crypto) where
  -- The second attempt: the UTF-8 bytes of a message given in hex.
  unfoldable pub verify_text : Message → Bytes → Bytes → Bool
  verify_text (buffer b) sig key = false
  verify_text (hex s) sig key = elim (crypto.verify sig (crypto.utf8 s) key) [
    | none ↦ false
    | some result ↦ result
  ]

  unfoldable pub verify_bytes : Message → Bytes → Bytes → Bytes → Bool
  unfolding verify_text
  verify_bytes message bytes sig key = elim (crypto.verify sig bytes key) [
    | none ↦ false
    | some raw ↦ if raw then true else verify_text message sig key
  ]

  unfoldable pub verify_signature : Message → Text → Text → Bool
  verify_signature message sig key =
      if not (is_hex_text sig)
      then false
      else if not (is_key key)
      then false
      else elim (message_bytes message) [
        | none ↦ false
        | some bytes ↦ verify_bytes message bytes (compact_signature (from_hex sig)) (from_hex key)
      ]

  -- Without a duplicate, as the `Set` of the source leaves them.
  unfoldable pub equivalent_pub_key_forms : Text → List Text
  equivalent_pub_key_forms key = elim (crypto.point_forms (lower key)) [
    | none ↦ lower key ∷ []
    | some (compressed, uncompressed) ↦
        let others =
          if text_eq compressed uncompressed
          then compressed ∷ []
          else compressed ∷ uncompressed ∷ [] in
        if mem_text (lower key) others
        then lower key
          ∷ (if text_eq (lower key) compressed then uncompressed ∷ [] else compressed ∷ [])
        else lower key ∷ others
  ]
