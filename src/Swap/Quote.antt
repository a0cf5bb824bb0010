-- ===== src/Swap/Quote.antt =====
-- src/swap/swap.service.ts, `initiateLightningQuote`: a quote, and the transaction that records it.
pub mod Recorded
use spark_ln_address.Prelude.{
  ◌>>=◌, ◌>>◌, map_err, ℕ, Bool, true, false, ◌||◌, if◌then◌else◌, Option, none, some, is_some,
  Text, codes, decimal_text, text_eq, Result, ok, err, or_throw,
}
use spark_ln_address.Json.{stringify_texts}
use spark_ln_address.Database.{Storage, Db}
use spark_ln_address.Database.Rows.{Invoice, FlashnetOrder, usdb}
use spark_ln_address.Names.Ledger.{DbError, p2002, p2003, primary_key, same_key}
use spark_ln_address.Swap.Status.{pending_payment}
use spark_ln_address.Swap.Units.{usdb_smallest_units_to_decimal}
use spark_ln_address.Flashnet.{
  Json, text, natural, missing, number, structure, flag, LightningQuoteRequest,
  LightningQuoteResponse,
}
use spark_ln_address.Flashnet.Quote.{Checker}
use spark_ln_address.Flashnet.Client.{FlashnetError, Network, ClientConfig, create_lightning_quote}

abbrev slippage_bps_default : ℕ
slippage_bps_default = 50

pub record InitiateLightningQuoteParams : Type 0 where
  pub idempotency_key : Text
  pub amount_sats : ℕ
  pub amount_msat : ℕ
  pub recipient_spark_address : Text
  pub lightning_name_id : Text
  pub description_hash : Text

pub record InitiateLightningQuoteResult : Type 0 where
  pub bolt11 : Text
  pub replayed : Bool

pub data QuoteError : Type 0 where
  flashnet : FlashnetError → QuoteError
  invalid_decimal invalid_column : QuoteError
  database : DbError → QuoteError

-- What the clock and the database supply: the times of the two reads of the clock, and an id.
pub record QuoteStamps : Type 0 where
  pub now : ℕ
  pub later : ℕ
  pub order_row_id : Text

-- A nullable text column takes no other value.
abbrev pub text_column : Json → Result QuoteError (Option Text)
text_column missing = ok none
text_column (text t) = ok (some t)
text_column number = err invalid_column
text_column structure = err invalid_column
text_column (flag b) = err invalid_column
text_column (natural n) = err invalid_column

abbrev pub quote_request : InitiateLightningQuoteParams → LightningQuoteRequest
quote_request params = record {
  recipient_address = params.recipient_spark_address;
  amount = decimal_text params.amount_sats;
  slippage_bps = slippage_bps_default;
  description_hash = some params.description_hash;
}

abbrev pub invoice_of : InitiateLightningQuoteParams → LightningQuoteResponse → Invoice
invoice_of params response = record {
  id = params.idempotency_key;
  username_id = params.lightning_name_id;
  amount_msat = params.amount_msat;
  bolt11 = response.deposit_address;
  expires_at = response.expires_at;
  status = codes "pending";
  receiving_currency = usdb;
  destination_spark_address = some params.recipient_spark_address;
}

module _ (S : Storage) where
  -- `invoice.create`, with the primary key and the foreign key of the schema.
  unfoldable pub insert_invoice : Invoice → Db S → Result DbError (Db S)
  insert_invoice row db =
      if is_some (S.invoices.get row.id db.invoices)
      then err (p2002 primary_key)
      else if is_some (S.names.get row.username_id db.names)
      then ok (record db { invoices = S.invoices.put row db.invoices })
      else err p2003

  abbrev pub of_invoice : Text → FlashnetOrder S.Money → Bool
  of_invoice id o = text_eq o.invoice_id id

  -- Another row with one of the unique columns.
  abbrev pub clashes : FlashnetOrder S.Money → FlashnetOrder S.Money → Bool
  clashes row o =
      text_eq o.invoice_id row.invoice_id
      || same_key o.quote_id row.quote_id
      || same_key o.order_id row.order_id
      || same_key o.lightning_receive_request_id row.lightning_receive_request_id

  -- `flashnetOrder.create`, with the keys of the schema.
  unfoldable pub insert_order : FlashnetOrder S.Money → Db S → Result DbError (Db S)
  insert_order row db =
      if is_some (S.orders.get row.id db.orders)
      then err (p2002 primary_key)
      else if is_some (S.orders.find (clashes row) db.orders)
      then err (p2002 (codes "UNIQUE"))
      else if is_some (S.invoices.get row.invoice_id db.invoices)
      then ok (record db { orders = S.orders.put row db.orders })
      else err p2003

  abbrev pub money_of : Text → Result QuoteError S.Money
  money_of t = or_throw (usdb_smallest_units_to_decimal S t) invalid_decimal

  abbrev pub optional_money_of : Option Text → Result QuoteError (Option S.Money)
  optional_money_of none = ok none
  optional_money_of (some t) = do m ← money_of t; ok (some m)

  -- The row of the order, which has no order id before it is funded. The fee's asset is the one
  -- that the check of the quote asks for.
  abbrev pub order_row :
      (id invoice_id : Text) (response : LightningQuoteResponse) (estimated : S.Money)
      (locked : Option S.Money) (fee rounding total : S.Money) (mode : Option Text)
      → FlashnetOrder S.Money
  order_row id invoice_id response estimated locked fee rounding total mode = record {
    id = id;
    invoice_id = invoice_id;
    quote_id = some response.quote_id;
    order_id = none;
    lightning_receive_request_id = some response.lightning_receive_request_id;
    estimated_out = some estimated;
    locked_min_amount_out = locked;
    actual_out = none;
    fee_amount = some fee;
    rounding_fee_amount = some rounding;
    total_fee_amount = some total;
    fee_bps = some response.fee_bps;
    fee_asset = some (codes "USDB");
    route = some (stringify_texts response.route);
    price_lock_mode = mode;
    status = some pending_payment;
    error_code = none;
    error_message = none;
  }

  unfoldable pub order_of :
      Text → Text → LightningQuoteResponse → Result QuoteError (FlashnetOrder S.Money)
  order_of id invoice_id response = do
    estimated ← money_of response.estimated_out
    locked ← optional_money_of response.locked_min_amount_out
    fee ← money_of response.fee_amount
    rounding ← money_of response.rounding_fee_amount
    total ← money_of response.total_fee_amount
    mode ← text_column response.price_lock_mode
    ok (order_row id invoice_id response estimated locked fee rounding total mode)

  -- The transaction: both rows, or neither.
  unfoldable pub record_quote :
      InitiateLightningQuoteParams → Text → LightningQuoteResponse → Db S → Result QuoteError (Db S)
  record_quote params order_row_id response db = do
    with_invoice ← map_err database (insert_invoice (invoice_of params response) db)
    order ← order_of order_row_id params.idempotency_key response
    map_err database (insert_order order with_invoice)

  -- The bolt11 of a quote that was recorded when Flashnet first answered.
  unfoldable pub recorded_bolt11 : Text → Text → Db S → Option Text
  recorded_bolt11 key bolt11 db = elim (S.orders.find (of_invoice key) db.orders) [
    | none ↦ none
    | some existing ↦ elim (S.invoices.get key db.invoices) [
      | none ↦ some bolt11
      | some invoice ↦ some invoice.bolt11
    ]
  ]

  unfoldable pub settle_quote :
      InitiateLightningQuoteParams
      → Text
      → LightningQuoteResponse
      → Db S
      → Result QuoteError (InitiateLightningQuoteResult × Db S)
  settle_quote params order_row_id response db = do
    db' ← record_quote params order_row_id response db
    ok (record { bolt11 = response.deposit_address; replayed = false }, db')

  -- The answer to a quote: `seen` is the state in which a replayed one is looked up, `db` the one
  -- that is written.
  unfoldable pub answer_quote :
      InitiateLightningQuoteParams
      → Text
      → Db S
      → Db S
      → LightningQuoteResponse × Bool
      → Result QuoteError (InitiateLightningQuoteResult × Db S)
  answer_quote params order_row_id seen db (response, false) =
      settle_quote params order_row_id response db
  answer_quote params order_row_id seen db (response, true) =
      elim (recorded_bolt11 params.idempotency_key response.deposit_address seen) [
        | none ↦ settle_quote params order_row_id response db
        | some bolt11 ↦ ok (record { bolt11 = bolt11; replayed = true }, db)
      ]

  module _ (network : Network) (config : ClientConfig) (checker : Checker) where
    unfoldable pub initiate_lightning_quote :
        InitiateLightningQuoteParams
        → QuoteStamps
        → Db S
        → Db S
        → Result QuoteError (InitiateLightningQuoteResult × Db S)
    initiate_lightning_quote params st seen db = do
      answer ← map_err flashnet (
          create_lightning_quote network config checker (quote_request params)
            params.idempotency_key st.now st.later)
      answer_quote params st.order_row_id seen db answer
