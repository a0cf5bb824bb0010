-- ===== src/Swap/Payload.antt =====
-- src/flashnet/flashnet.types.ts and the values of src/swap/swap.service.ts: a webhook's payload, and
-- what can be thrown on the way through it.
use spark_ln_address.Prelude.{
  ℕ, Bool, false, ◌&&◌, ◌==◌, Option, none, some, Text, codes, text_eq, is_empty, if◌then◌else◌,
}
use spark_ln_address.Database.Rows.{FlashnetWebhookEvent}
use spark_ln_address.RefundCase.{RefundError}
use spark_ln_address.Swap.StateMachine.{TransitionError}

pub record WebhookFault : Type 0 where
  pub code : Option Text
  pub message : Option Text

pub record FlashnetWebhookData : Type 0 where
  pub id : Text
  pub quote_id : Option Text
  pub fee_asset : Option Text
  pub amount_out : Option Text
  pub fee_amount : Option Text
  pub error : Option WebhookFault

-- `timestamp` is the number that `BigInt(timestamp)` makes of the header's digits.
pub record FlashnetWebhookPayload : Type 0 where
  pub event : Text
  pub timestamp : ℕ
  pub info : FlashnetWebhookData
  pub raw_body : Text

-- What the database and the clock supply: ids for the rows that may be inserted, and the time.
pub record Stamps : Type 0 where
  pub event_id : Text
  pub case_id : Text
  pub now : ℕ

pub data SwapError : Type 0 where
  quote_mismatch invalid_decimal : SwapError
  transition : TransitionError → SwapError
  refund : RefundError → SwapError

-- `s` is truthy and a string.
abbrev pub truthy : Option Text → Option Text
truthy none = none
truthy (some t) = if is_empty t then none else some t

abbrev pub opt_eq : Option Text → Text → Bool
opt_eq none t = false
opt_eq (some s) t = text_eq s t

abbrev pub same_event : FlashnetWebhookPayload → FlashnetWebhookEvent → Bool
same_event p e =
    text_eq e.order_id p.info.id && text_eq e.event p.event && e.timestamp == p.timestamp

-- `error?.code` and `error?.message`.
abbrev pub error_code : FlashnetWebhookPayload → Option Text
error_code p = elim p.info.error [ none ↦ none | some e ↦ e.code ]

abbrev pub error_message : FlashnetWebhookPayload → Option Text
error_message p = elim p.info.error [ none ↦ none | some e ↦ e.message ]

abbrev pub recovery_required : Text
recovery_required = codes "order.recovery_required"

abbrev pub recovery_reason : Text
recovery_reason = codes "PAYMENT_RECOVERY_REQUIRED"

abbrev pub order_failed : Text
order_failed = codes "order.failed"
