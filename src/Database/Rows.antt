-- ===== src/Database/Rows.antt =====
-- The models of prisma/schema.prisma, with the columns that the services read or write.
-- A date is its number of milliseconds; a nullable column is an option.
use spark_ln_address.Prelude.{ℕ, Bool, Option, Text}
use spark_ln_address.Swap.Status.{FlashnetOrderStatus}

pub data ReceivingCurrency : Type 0 where
  sats usdb : ReceivingCurrency

pub record User : Type 0 where
  pub id : Text
  pub default_receiving_currency : ReceivingCurrency
  pub bonus_username_changes : ℕ
  pub updated_at : ℕ

pub record LightningName : Type 0 where
  pub id : Text
  pub username : Text
  pub user_id : Text
  pub linking_pub_key_hex : Text
  pub active : Bool
  pub active_pub_key : Option Text
  pub created_at : ℕ

pub record AuthNonce : Type 0 where
  pub id : Text
  pub k1 : Text
  pub expires_at : ℕ
  pub used_at : Option ℕ

pub record Invoice : Type 0 where
  pub id : Text
  pub username_id : Text
  pub amount_msat : ℕ
  pub bolt11 : Text
  pub expires_at : ℕ
  pub status : Text
  pub receiving_currency : ReceivingCurrency
  pub destination_spark_address : Option Text

pub record FlashnetOrder (Money : Type 0) : Type 0 where
  pub id : Text
  pub invoice_id : Text
  pub quote_id : Option Text
  pub order_id : Option Text
  pub lightning_receive_request_id : Option Text
  pub estimated_out : Option Money
  pub locked_min_amount_out : Option Money
  pub actual_out : Option Money
  pub fee_amount : Option Money
  pub rounding_fee_amount : Option Money
  pub total_fee_amount : Option Money
  pub fee_bps : Option ℕ
  pub fee_asset : Option Text
  pub route : Option Text
  pub price_lock_mode : Option Text
  -- NULL, or a status: the service writes no other text.
  pub status : Option FlashnetOrderStatus
  pub error_code : Option Text
  pub error_message : Option Text

pub record FlashnetWebhookEvent : Type 0 where
  pub id : Text
  pub order_id : Text
  pub event : Text
  pub timestamp : ℕ
  pub raw_body : Text
  pub signature : Text
  pub processed_at : Option ℕ

pub data CaseStatus : Type 0 where
  open_case paid abandoned : CaseStatus

pub record RefundCase : Type 0 where
  pub id : Text
  pub invoice_id : Text
  pub amount_sats : ℕ
  pub reason : Text
  pub external_ref : Option Text
  pub payee_ln_address : Option Text
  pub status : CaseStatus
  pub created_at : ℕ
  pub resolved_at : Option ℕ
