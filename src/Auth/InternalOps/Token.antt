-- ===== src/Auth/InternalOps/Token.antt =====
-- What a request to the ops endpoints has shown.
use spark_ln_address.Prelude.{
  ◌≡◌, ◌≢◌, refl, true, Option, none, some, Text, [], codes, is_empty, starts_with, drop,
  text_eq_sound, ok, arith, Bool-cases, inl, inr,
}
use spark_ln_address.Auth.Crypto.{Crypto}
use spark_ln_address.Auth.InternalOps.{token_buffer, can_activate_ops}

-- Where the guard of the ops endpoints accepts an Authorization header, a non-empty token is
-- configured, the header begins with Bearer and a space, and what follows has the bytes of that
-- token.
pub ops_admitted :
    (crypto : Crypto) (token : Option Text) (header : Text)
    → can_activate_ops crypto token (some header) ≡ ok tt
    → (secret : Text) × (token ≡ some secret)
      × (secret ≢ [])
      × (starts_with (codes "Bearer ") header ≡ true)
      × (crypto.utf8 (drop 7 header) ≡ crypto.utf8 secret)
unfolding can_activate_ops token_buffer
ops_admitted crypto none header h = cc
ops_admitted crypto (some secret) header h = elim (Bool-cases (is_empty secret)) [
  | inl e ↦ ground arith
  | inr e ↦ (
    secret,
    refl,
    ground arith,
    ground arith,
    text_eq_sound (crypto.utf8 (drop 7 header)) (crypto.utf8 secret) (ground arith),
  )
]
