-- ===== src/Swap/Gate.antt =====
-- What a Flashnet webhook passes before `applyWebhookEvent`: src/swap/webhook-timestamp.ts,
-- src/swap/flashnet-webhook.controller.ts, and `verifyWebhookSignature` of
-- src/flashnet/flashnet.service.ts.
pub mod Authentic
use spark_ln_address.Prelude.{
  ◌>>=◌, ◌>>◌, map_err, ℕ, ◌*◌, Bool, false, not, ◌&&◌, ◌||◌, ltb, leb, ◌==◌, if◌then◌else◌, Option,
  none, some, get_or_else, [], ◌++◌, all, length, is_digit, is_hex, is_empty, Text, codes, text_eq,
  decimal, Result, ok, throw_if, or_throw,
}
use spark_ln_address.Database.{Storage, Db}
use spark_ln_address.Auth.Crypto.{Bytes}
use spark_ln_address.Auth.Secp256k1.{from_hex}
use spark_ln_address.Auth.Guard.{distance}
use spark_ln_address.Swap.Webhook.{apply_webhook_event}
use spark_ln_address.Swap.Payload.{FlashnetWebhookPayload, Stamps, SwapError}

abbrev pub default_webhook_max_skew_ms : ℕ
default_webhook_max_skew_ms = 300000

abbrev pub max_webhook_max_skew_ms : ℕ
max_webhook_max_skew_ms = 3600000

abbrev millisecond_threshold : ℕ
millisecond_threshold = 1000000000000

-- `/^\d{1,n}$/`.
abbrev pub is_digits : ℕ → Text → Bool
is_digits n s = not (is_empty s) && leb (length s) n && all is_digit s

-- The value in milliseconds: a small one counts seconds. It is exact, where `Number` rounds from
-- 2 ^ 53 on; no clock of today is within an hour of such a value.
abbrev pub as_ms : ℕ → ℕ
as_ms value = if ltb value millisecond_threshold then value * 1000 else value

unfoldable pub is_fresh_timestamp : Text → ℕ → ℕ → Bool
is_fresh_timestamp raw now max_skew =
    if not (is_digits 16 raw) then false else leb (distance now (as_ms (decimal raw))) max_skew

-- The value that the controller's constructor reads of FLASHNET_WEBHOOK_MAX_SKEW_MS.
unfoldable pub read_webhook_max_skew : Option Text → ℕ
read_webhook_max_skew none = default_webhook_max_skew_ms
read_webhook_max_skew (some raw) =
    if is_digits 10 raw && (ltb 0 (decimal raw) && leb (decimal raw) max_webhook_max_skew_ms)
    then decimal raw
    else default_webhook_max_skew_ms

-- `/^[0-9a-fA-F]{64}$/`.
abbrev pub is_digest : Text → Bool
is_digest s = all is_hex s && length s == 64

-- What the gate takes of Node: `createHmac('sha256', secret).update(payload).digest('hex')`,
-- `toString('utf8')`, and `JSON.parse`, with `none` where it throws.
pub record Runtime : Type 0 where
  pub hmac_sha256_hex : Text → Text → Text
  pub to_utf8 : Bytes → Text
  pub parse : Text → Option FlashnetWebhookPayload

pub record WebhookRequest : Type 0 where
  pub raw_body : Option Bytes
  pub signature : Option Text
  pub timestamp : Option Text

pub data GateError : Type 0 where
  no_raw_body missing_headers stale_timestamp invalid_signature : GateError
  swap : SwapError → GateError

module _ (runtime : Runtime) where
  -- `timingSafeEqual` on the digests, once their lengths agree.
  unfoldable pub verify_webhook_signature : Option Text → Bytes → Text → Text → Bool
  verify_webhook_signature none raw_body signature timestamp = false
  verify_webhook_signature (some secret) raw_body signature timestamp =
      let payload = timestamp ++ (codes "." ++ runtime.to_utf8 raw_body) in
      let expected = runtime.hmac_sha256_hex secret payload in
      if is_empty secret
      then false
      else if not (is_digest signature)
      then false
      else if not (length (from_hex expected) == length (from_hex signature))
      then false
      else text_eq (from_hex expected) (from_hex signature)

  -- What the checks leave of a request.
  pub record Admitted : Type 0 where
    pub raw_body : Bytes
    pub timestamp : Text

  unfoldable pub admit_webhook : Option Text → ℕ → WebhookRequest → ℕ → Result GateError Admitted
  admit_webhook secret max_skew req now = do
    raw_body ← or_throw req.raw_body no_raw_body
    let signature = get_or_else req.signature []
    let timestamp = get_or_else req.timestamp []
    throw_if (is_empty signature || is_empty timestamp) missing_headers
    throw_if (not (is_fresh_timestamp timestamp now max_skew)) stale_timestamp
    throw_if (not (verify_webhook_signature secret raw_body signature timestamp)) invalid_signature
    ok (record { raw_body = raw_body; timestamp = timestamp })

  -- The payload of a body, with the timestamp of the header in place of its own.
  unfoldable pub stamped_payload : Admitted → Option FlashnetWebhookPayload
  stamped_payload a = elim (runtime.parse (runtime.to_utf8 a.raw_body)) [
    | none ↦ none
    | some payload ↦ some (record payload { timestamp = decimal a.timestamp })
  ]

  module _ (S : Storage) where
    unfoldable pub deliver : Option FlashnetWebhookPayload → Stamps → Db S → Result GateError (Db S)
    deliver none st db = ok db
    deliver (some payload) st db = map_err swap (apply_webhook_event S payload st db)

    unfoldable pub handle_webhook :
        Option Text → ℕ → WebhookRequest → Stamps → Db S → Result GateError (Db S)
    handle_webhook secret max_skew req st db = do
      a ← admit_webhook secret max_skew req st.now
      deliver (stamped_payload a) st db
