-- ===== src/Auth/Crypto.antt =====
-- What the services take of Node's `crypto` and of @noble/secp256k1. `none` is a thrown error.
use spark_ln_address.Prelude.{ℕ, Bool, Option, List, Text}

abbrev pub Bytes : Type 0
Bytes = List ℕ

-- `utf8` is `Buffer.from(text, 'utf8')`, `sha256_hex` the hex digest, `verify` the library's
-- check of a compact signature over a message by a public key, `point_forms` the compressed and
-- uncompressed hex of a point given in hex, and `number_of` is `Number(text)`, with `none` for NaN
-- and for a value that is no natural number.
pub record Crypto : Type 0 where
  pub utf8 : Text → Bytes
  pub sha256_hex : Bytes → Text
  pub verify : Bytes → Bytes → Bytes → Option Bool
  pub point_forms : Text → Option (Text × Text)
  pub number_of : Text → Option ℕ
