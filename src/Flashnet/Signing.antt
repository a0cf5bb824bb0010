-- ===== src/Flashnet/Signing.antt =====
-- src/flashnet/lightning-quote-validation.ts: the bytes that an invoice signs, and the check of the
-- signature.
pub mod Verified
use spark_ln_address.Prelude.{
  ◌>>=◌, ◌>>◌, ℕ, zero, suc, ◌+◌, ◌*◌, ◌/◌, ◌%◌, Bool, not, ltb, ◌==◌, if◌then◌else◌, Option, none,
  some, get_or_else, get_elem?, [], ◌∷◌, ◌++◌, take, drop, length, Text, Result, ok, throw_if,
  or_throw,
}
use spark_ln_address.Bolt11.{Words, Tags, Bech32, get_tag, slice}
use spark_ln_address.Auth.Crypto.{Bytes}

-- The two reasons that the check of a quote has.
pub data Refusal : Type 0 where
  invalid_quote description_hash_mismatch : Refusal

-- What the check takes of Node's `crypto` and of @noble/secp256k1, with `none` for a thrown error:
-- `verify` is the check of a SHA-256 signature in its 64-byte form by a compressed public key.
pub record Curve : Type 0 where
  pub utf8 : Text → Bytes
  pub sha256 : Bytes → Bytes
  pub recover_public_key : Bytes → Bytes → Option Bytes
  pub verify : Bytes → Bytes → Bytes → Option Bool

-- The loop that pads the words to a whole number of bytes, in at most 8 rounds.
unfoldable pub pad_words : ℕ → Words → Words
pad_words zero words = words
pad_words (suc rounds) words =
    let padded = pad_words rounds (words ++ (0 ∷ [])) in
    if (length words * 5) % 8 == 0 then words else padded

abbrev pub padded : Words → Words
padded words = pad_words 8 words

-- The number of bytes in big-endian order, and half the order of the curve.
unfoldable pub big_endian : ℕ → Bytes → ℕ
big_endian total [] = total
big_endian total (b ∷ bytes) = big_endian (total * 256 + b) bytes

abbrev pub half_order : ℕ
half_order = 0x7fffffffffffffffffffffffffffffff5d576e7357a4501ddfe92f46681b20a0

abbrev tag_payee : ℕ
tag_payee = 19

module _ (bech32 : Bech32) (curve : Curve) where
  unfoldable pub signing_bytes : Text → Words → ℕ → Option Bytes
  signing_bytes prefix words end = elim (bech32.from_words (padded (take end words))) [
    | none ↦ none
    | some unsigned ↦ some (curve.utf8 prefix ++ take ((end * 5 + 7) / 8) unsigned)
  ]

  -- The payee's key: given, with a low S, or recovered from the signature.
  unfoldable pub payee_key : Tags → Bytes → Bytes → Result Refusal Bytes
  payee_key tags signature signed = elim (get_tag tag_payee tags) [
    | some payee ↦ do
      throw_if (ltb half_order (big_endian 0 (slice signature 32 64))) invalid_quote
      pubkey ← or_throw (bech32.from_words payee) invalid_quote
      throw_if (not (length pubkey == 33)) invalid_quote
      ok pubkey
    | none ↦
        let recovery = get_or_else (get_elem? signature 64) 0 in
        or_throw (curve.recover_public_key (recovery ∷ take 64 signature) (curve.sha256 signed))
          invalid_quote
  ]

  unfoldable pub check_signature : Text → Words → Tags → ℕ → Result Refusal (Unit {0})
  check_signature prefix words tags end = do
    signature ← or_throw (bech32.from_words (drop end words)) invalid_quote
    throw_if (not (length signature == 65)) invalid_quote
    throw_if (ltb 3 (get_or_else (get_elem? signature 64) 0)) invalid_quote
    signed ← or_throw (signing_bytes prefix words end) invalid_quote
    pubkey ← payee_key tags signature signed
    verified ← or_throw (curve.verify signed pubkey (take 64 signature)) invalid_quote
    throw_if (not verified) invalid_quote
    ok tt
