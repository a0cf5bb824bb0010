-- ===== src/Flashnet.antt =====
-- src/flashnet/flashnet.types.ts: what is sent to Flashnet and what it answers. A field of an
-- answer is whatever JSON value the other side put there.
pub mod Invoice
pub mod Signing
pub mod Quote
pub mod Client
pub mod Selection
pub mod Amounts
use spark_ln_address.Prelude.{
  ℕ, Bool, true, false, not, ◌==◌, Option, none, some, List, Text, is_empty,
}

-- A JSON value, as far as the checks tell values apart. `missing` is undefined or null; `natural`
-- is a number that is an integer and not negative, `number` another one; `structure` is an array
-- or an object.
pub data Json : Type 0 where
  missing number structure : Json
  flag : Bool → Json
  natural : ℕ → Json
  text : Text → Json

-- `typeof value === 'string'`.
abbrev pub text_of : Json → Option Text
text_of (text t) = some t
text_of missing = none
text_of number = none
text_of structure = none
text_of (flag b) = none
text_of (natural n) = none

-- `Number.isInteger(value) && value >= 0`.
abbrev pub natural_of : Json → Option ℕ
natural_of (natural n) = some n
natural_of missing = none
natural_of number = none
natural_of structure = none
natural_of (flag b) = none
natural_of (text t) = none

abbrev pub is_missing : Json → Bool
is_missing missing = true
is_missing number = false
is_missing structure = false
is_missing (flag b) = false
is_missing (natural n) = false
is_missing (text t) = false

abbrev pub is_truthy : Json → Bool
is_truthy missing = false
is_truthy number = true
is_truthy structure = true
is_truthy (flag b) = b
is_truthy (natural n) = not (n == 0)
is_truthy (text t) = not (is_empty t)

-- The constant fields of the type are left out: source and destination chain and asset, and
-- `amountMode: 'exact_in'`.
pub record LightningQuoteRequest : Type 0 where
  pub recipient_address : Text
  pub amount : Text
  pub slippage_bps : ℕ
  pub description_hash : Option Text

-- `Omit<LightningQuoteResponse, 'replayed'>` before its fields are checked; `route` is `none`
-- where it is no array. `paymentLinks` is not read.
pub record QuoteBody : Type 0 where
  pub quote_id : Json
  pub deposit_address : Json
  pub amount_in : Json
  pub estimated_out : Json
  pub fee_amount : Json
  pub rounding_fee_amount : Json
  pub total_fee_amount : Json
  pub fee_bps : Json
  pub fee_asset : Json
  pub route : Option (List Json)
  pub expires_at : Json
  pub price_lock_mode : Json
  pub locked_min_amount_out : Json
  pub amount_mode : Json
  pub flexible_amount : Json
  pub lightning_receive_request_id : Json

-- What the checks leave of it, with the types that they have established. `expires_at` is in
-- milliseconds. `price_lock_mode` is passed on unchecked.
pub record LightningQuoteResponse : Type 0 where
  pub quote_id : Text
  pub deposit_address : Text
  pub estimated_out : Text
  pub fee_amount : Text
  pub rounding_fee_amount : Text
  pub total_fee_amount : Text
  pub fee_bps : ℕ
  pub route : List Text
  pub expires_at : ℕ
  pub price_lock_mode : Json
  pub locked_min_amount_out : Option Text
  pub lightning_receive_request_id : Text
