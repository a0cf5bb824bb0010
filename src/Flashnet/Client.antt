-- ===== src/Flashnet/Client.antt =====
-- src/flashnet/flashnet.service.ts: the calls of Flashnet, with its answers as arguments. The time
-- limit of a call is one more way for it not to be answered.
pub mod Quiet
pub mod Checked
use spark_ln_address.Prelude.{
  ◌>>=◌, ◌>>◌, map_err, ℕ, ◌+◌, Bool, true, false, not, ltb, if◌then◌else◌, Option, none, some,
  is_some, get_or_else, [], ◌++◌, is_empty, starts_with, Text, codes, decimal_text, text_eq, Result,
  ok, err, throw_if, or_throw,
}
use spark_ln_address.Swap.Payload.{FlashnetWebhookData}
use spark_ln_address.Flashnet.{
  Json, text_of, LightningQuoteRequest, LightningQuoteResponse, QuoteBody,
}
use spark_ln_address.Flashnet.Signing.{Refusal}
use spark_ln_address.Flashnet.Quote.{Checker, validate_lightning_quote, json_is}

abbrev pub missing_secret_log_interval_ms : ℕ
missing_secret_log_interval_ms = 60000

-- `logMissingSecret`: whether a line is written, and the time of the last one.
unfoldable pub log_missing_secret : Option ℕ → ℕ → Bool × Option ℕ
log_missing_secret none now = (true, some now)
log_missing_secret (some last) now =
    if ltb now (last + missing_secret_log_interval_ms) then (false, some last) else (true, some now)

pub data FlashnetError : Type 0 where
  not_configured unreachable malformed_answer status_unavailable invalid_status : FlashnetError
  bad_gateway : Text → Text → FlashnetError
  refused : Refusal → FlashnetError

-- An answer, with its body as its reader finds it: `none` where `json()` throws, or where the
-- reader's first access does.
pub record Response (Body : Type 0) : Type 0 where
  pub is_ok : Bool
  pub status : ℕ
  pub idempotency_replayed : Option Text
  pub body : Option Body
  pub error_body : Option (Option Text × Option Text)

-- The settings FLASHNET_API_BASE and FLASHNET_API_KEY.
pub record ClientConfig : Type 0 where
  pub api_base : Option Text
  pub api_key : Option Text

-- `body.order` of an answer to a question for an order.
pub data OrderBody : Type 0 where
  null_order no_order : OrderBody
  order :
      (id quote_id status updated_at : Json) (updated_at_ms : Option ℕ)
      (review_status : Option Text)
      → (info : FlashnetWebhookData) → OrderBody

-- A snapshot that has passed the checks; `info` is what a webhook carries too.
pub record OrderSnapshot : Type 0 where
  pub id : Text
  pub quote_id : Text
  pub status : Text
  pub updated_at_ms : ℕ
  pub review_status : Option Text
  pub info : FlashnetWebhookData

pub record OrderStatusResponse : Type 0 where
  pub order_id : Text
  pub status : Text
  pub amount_out : Option Text
  pub error_code : Option Text
  pub error_message : Option Text

abbrev pub api_base_of : ClientConfig → Text
api_base_of config = get_or_else config.api_base (codes "https://orchestration.flashnet.xyz")

abbrev pub api_key_of : ClientConfig → Text
api_key_of config = get_or_else config.api_key []

unfoldable pub parse_error_body : {Body : Type 0} → Response Body → Text × Text
parse_error_body response =
    let status = codes "HTTP " ++ decimal_text response.status in
    elim response.error_body [
      | none ↦ (codes "service_unavailable", status)
      | some (code, message) ↦
          (get_or_else code (codes "service_unavailable"), get_or_else message status)
    ]

abbrev gateway_error : {Body : Type 0} → Response Body → FlashnetError
gateway_error response = bad_gateway (parse_error_body response).0 (parse_error_body response).1

-- The network: what answers a request, `none` where `fetch` throws. The arguments are the URL, the
-- Authorization header, the idempotency key and the body.
pub record Network : Type 0 where
  pub encode_uri_component : Text → Text
  pub post_quote : Text → Text → Text → LightningQuoteRequest → Option (Response (Option QuoteBody))
  pub get_order : Text → Text → Option (Response OrderBody)
  pub get_status : Text → Text → Option (Response OrderStatusResponse)

abbrev is_true_header : Option Text → Bool
is_true_header none = false
is_true_header (some t) = text_eq t (codes "true")

-- The checks of `getQuoteOrder` on an order.
unfoldable pub checked_order : Text → OrderBody → Result FlashnetError (Option OrderSnapshot)
checked_order quote null_order = ok none
checked_order quote no_order = err invalid_status
checked_order quote (order id quote_id status updated_at updated_at_ms review_status info) = do
  order_id ← or_throw (text_of id) invalid_status
  throw_if (not (starts_with (codes "ord_") order_id)) invalid_status
  throw_if (not (json_is quote_id quote)) invalid_status
  status ← or_throw (text_of status) invalid_status
  throw_if (not (is_some (text_of updated_at))) invalid_status
  updated ← or_throw updated_at_ms invalid_status
  ok (
      some (record {
        id = order_id;
        quote_id = quote;
        status = status;
        updated_at_ms = updated;
        review_status = review_status;
        info = record info { id = order_id; quote_id = some quote };
      }))

module _ (network : Network) (config : ClientConfig) where
  abbrev authorization : Text
  authorization = codes "Bearer " ++ api_key_of config

  unfoldable pub order_url : Text → Text
  order_url quote_id =
      api_base_of config
      ++ (codes "/v1/orchestration/order?quoteId=" ++ network.encode_uri_component quote_id)

  -- The response, and whether Flashnet replayed it.
  unfoldable pub create_lightning_quote :
      Checker
      → LightningQuoteRequest
      → Text
      → ℕ
      → ℕ
      → Result FlashnetError (LightningQuoteResponse × Bool)
  create_lightning_quote checker params idempotency_key now later = do
    throw_if (is_empty (api_key_of config)) not_configured
    let url = api_base_of config ++ codes "/v1/orchestration/quote"
    response ← or_throw (network.post_quote url authorization idempotency_key params) unreachable
    throw_if (not response.is_ok) (gateway_error response)
    body ← or_throw response.body malformed_answer
    quote ←
        map_err refused
          (validate_lightning_quote checker body params.amount params.description_hash now later)
    ok (quote, is_true_header response.idempotency_replayed)

  -- `none` is the answer for a quote that has no order yet.
  unfoldable pub get_quote_order : Text → Result FlashnetError (Option OrderSnapshot)
  get_quote_order quote_id = do
    response ← or_throw (network.get_order (order_url quote_id) authorization) unreachable
    throw_if (not response.is_ok) status_unavailable
    body ← or_throw response.body malformed_answer
    checked_order quote_id body

  unfoldable pub get_order_status : Text → Result FlashnetError OrderStatusResponse
  get_order_status quote_id = do
    response ← or_throw (network.get_status (order_url quote_id) authorization) unreachable
    throw_if (not response.is_ok) (gateway_error response)
    or_throw response.body malformed_answer
