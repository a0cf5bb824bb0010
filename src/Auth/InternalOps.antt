-- ===== src/Auth/InternalOps.antt =====
-- src/refund-case/internal-ops.guard.ts, `InternalOpsGuard`: the bearer token of the ops endpoints.
pub mod Token
use spark_ln_address.Prelude.{
  ◌>>=◌, ◌>>◌, not, ◌||◌, ◌==◌, if◌then◌else◌, Option, none, some, Text, codes, is_empty,
  starts_with, length, drop, text_eq, Result, throw_if, or_throw,
}
use spark_ln_address.Auth.Crypto.{Crypto, Bytes}

pub data OpsError : Type 0 where
  not_configured malformed_header missing_token invalid_token : OpsError

-- The constructor's reading of INTERNAL_OPS_TOKEN: an empty one configures nothing.
unfoldable pub token_buffer : Crypto → Option Text → Option Bytes
token_buffer crypto none = none
token_buffer crypto (some token) = if is_empty token then none else some (crypto.utf8 token)

-- `canActivate`, with `timingSafeEqual` once the lengths agree.
unfoldable pub can_activate_ops : Crypto → Option Text → Option Text → Result OpsError (Unit {0})
can_activate_ops crypto token authorization = do
  expected ← or_throw (token_buffer crypto token) not_configured
  header ← or_throw authorization malformed_header
  throw_if (is_empty header || not (starts_with (codes "Bearer ") header)) malformed_header
  throw_if (is_empty (drop 7 header)) missing_token
  throw_if (not (length (crypto.utf8 (drop 7 header)) == length expected)) invalid_token
  throw_if (not (text_eq (crypto.utf8 (drop 7 header)) expected)) invalid_token
