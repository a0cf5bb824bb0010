-- ===== src/Swap/Webhook.antt =====
-- src/swap/swap.service.ts, `applyWebhookEvent`: one serializable transaction. A thrown error rolls
-- it back, so the caller keeps the database that it gave; log lines are left out.
pub mod Decision
pub mod Writes
pub mod Lookup
pub mod Orders
pub mod Terminal
pub mod Redelivery
use spark_ln_address.Prelude.{
  map_err, ◌>>◌, ℕ, ◌+◌, ◌/◌, Bool, true, false, not, ◌&&◌, ◌||◌, Option, none, some, is_some,
  get_or_else, ◌++◌, Text, codes, text_eq, Result, ok, err, ◌>>=◌, if◌then◌else◌,
}
use spark_ln_address.Database.{Storage, Db}
use spark_ln_address.Database.Rows.{FlashnetOrder, FlashnetWebhookEvent, RefundCase}
use spark_ln_address.RefundCase.{create_refund_case}
use spark_ln_address.Swap.Status.{FlashnetOrderStatus}
use spark_ln_address.Swap.StateMachine.{apply, noop, skip, map_event_to_status, TransitionDecision}
use spark_ln_address.Swap.Units.{usdb_smallest_units_to_decimal}
use Decision.{is_terminal, decide}
use spark_ln_address.Swap.Payload.{
  FlashnetWebhookPayload, Stamps, SwapError, error_code, error_message, invalid_decimal, opt_eq,
  order_failed, quote_mismatch, recovery_reason, recovery_required, refund, same_event, transition,
  truthy,
}

module _ (S : Storage) where
  unfoldable pub upsert_event : FlashnetWebhookPayload → Stamps → Db S → FlashnetWebhookEvent × Db S
  upsert_event p st db = elim (S.events.find (same_event p) db.events) [
    | some e ↦ (e, db)
    | none ↦
        let e : FlashnetWebhookEvent = record {
          id = st.event_id;
          order_id = p.info.id;
          event = p.event;
          timestamp = p.timestamp;
          raw_body = p.raw_body;
          signature = codes "";
          processed_at = none;
        } in
        (e, record db { events = S.events.put e db.events })
  ]

  unfoldable pub mark_processed : Stamps → FlashnetWebhookEvent → Db S → Db S
  mark_processed st e db = record db {
    events = S.events.put (record e { processed_at = some st.now }) db.events;
  }

  unfoldable pub order_by_id : FlashnetWebhookPayload → Db S → Option (FlashnetOrder S.Money)
  order_by_id p db = S.orders.find (λ o. opt_eq o.order_id p.info.id) db.orders

  -- The order of a quote that has no order id yet.
  unfoldable pub quoted_order : Option Text → Db S → Option (FlashnetOrder S.Money)
  quoted_order none db = none
  quoted_order (some quote) db =
      S.orders.find (λ o. opt_eq o.quote_id quote && not (is_some o.order_id)) db.orders

  unfoldable pub unbound_order : FlashnetWebhookPayload → Db S → Option (FlashnetOrder S.Money)
  unbound_order p db = quoted_order (truthy p.info.quote_id) db

  abbrev pub bound : FlashnetWebhookPayload → FlashnetOrder S.Money → FlashnetOrder S.Money
  bound p o = record o { order_id = some p.info.id }

  -- The order of the snapshot: by its id, or the unbound order of its quote, which is bound.
  unfoldable pub find_or_bind :
      FlashnetWebhookPayload → Db S → Option (FlashnetOrder S.Money) × Db S
  find_or_bind p db = elim (order_by_id p db) [
    | some o ↦ (some o, db)
    | none ↦ elim (unbound_order p db) [
      | none ↦ (none, db)
      | some o ↦ (some (bound p o), record db { orders = S.orders.put (bound p o) db.orders })
    ]
  ]

  unfoldable pub quote_matches : FlashnetWebhookPayload → FlashnetOrder S.Money → Bool
  quote_matches p o = elim (truthy p.info.quote_id) [
    | none ↦ true
    | some quote ↦ opt_eq o.quote_id quote
  ]

  unfoldable pub amount_sats_of : FlashnetOrder S.Money → Db S → ℕ
  amount_sats_of o db = elim (S.invoices.get o.invoice_id db.invoices) [
    | none ↦ 0
    | some invoice ↦ invoice.amount_msat / 1000
  ]

  -- `createRefundCase` within the transaction.
  unfoldable pub opened :
      Text → Stamps → FlashnetOrder S.Money → Db S → Result SwapError (Option RefundCase × Db S)
  opened reason st o db = map_err refund (
      create_refund_case S
        (record {
          invoice_id = o.invoice_id;
          amount_sats = amount_sats_of o db;
          reason = reason;
          external_ref = none;
        })
        (record { id = st.case_id; now = st.now }) db)

  unfoldable pub open_case : Text → Stamps → FlashnetOrder S.Money → Db S → Result SwapError (Db S)
  unfolding opened
  open_case reason st o db = opened reason st o db >>= λ made. ok made.1

  unfoldable pub recovery_hold :
      Stamps → FlashnetWebhookEvent → FlashnetOrder S.Money → Db S → Result SwapError (Db S)
  recovery_hold st e o db =
      if is_terminal o.status
      then ok (mark_processed st e db)
      else do db' ← open_case recovery_reason st o db; ok (mark_processed st e db')

  -- A converted amount if the event carries one, and the old amount otherwise.
  abbrev refreshed : Bool → Option Text → Option S.Money → Result SwapError (Option S.Money)
  refreshed false t old = ok old
  refreshed true none old = ok old
  refreshed true (some t) old = elim (usdb_smallest_units_to_decimal S t) [
    | none ↦ err invalid_decimal
    | some m ↦ ok (some m)
  ]

  abbrev fee_asset_matches : FlashnetWebhookPayload → FlashnetOrder S.Money → Bool
  fee_asset_matches p o = elim (truthy p.info.fee_asset) [
    | none ↦ true
    | some asset ↦ opt_eq o.fee_asset asset
  ]

  abbrev is_completed : FlashnetWebhookPayload → Bool
  is_completed p = text_eq p.event (codes "order.completed")

  unfoldable pub actual_out_of :
      FlashnetWebhookPayload → FlashnetOrder S.Money → Result SwapError (Option S.Money)
  unfolding usdb_smallest_units_to_decimal
  actual_out_of p o = refreshed (is_completed p) (truthy p.info.amount_out) o.actual_out

  unfoldable pub fee_amount_of :
      FlashnetWebhookPayload → FlashnetOrder S.Money → Result SwapError (Option S.Money)
  unfolding usdb_smallest_units_to_decimal
  fee_amount_of p o =
      let bears_fee = text_eq p.event (codes "order.swapping") || is_completed p in
      refreshed (bears_fee && fee_asset_matches p o) p.info.fee_amount o.fee_amount

  -- The events whose error fields are kept.
  unfoldable pub is_faulty : FlashnetWebhookPayload → Bool
  is_faulty p =
      text_eq p.event order_failed
      || text_eq p.event (codes "order.refunding")
      || text_eq p.event (codes "order.refunded")

  -- A given text replaces the old one, on the events that keep error fields.
  unfoldable pub noted : Bool → Option Text → Option Text → Option Text
  noted faulty given old = if faulty && is_some (truthy given) then given else old

  -- `updateData`, applied to the row.
  unfoldable pub updated_order :
      FlashnetWebhookPayload
      → FlashnetOrderStatus
      → FlashnetOrder S.Money
      → Result SwapError (FlashnetOrder S.Money)
  updated_order p next o = do
    actual ← actual_out_of p o
    fee ← fee_amount_of p o
    ok (record o {
      status = some next;
      actual_out = actual;
      fee_amount = fee;
      error_code = noted (is_faulty p) (error_code p) o.error_code;
      error_message = noted (is_faulty p) (error_message p) o.error_message;
    })

  abbrev failure_reason : FlashnetWebhookPayload → Text
  failure_reason p =
      codes "PAYMENT_FAILED: "
      ++ (get_or_else (error_code p) (codes "no_code")
          ++ (codes " | " ++ get_or_else (error_message p) (codes "no_message")))

  -- The writes once the new row is built: the order, the event, and a case on failure.
  unfoldable pub after_update :
      FlashnetWebhookPayload
      → Stamps
      → FlashnetWebhookEvent
      → FlashnetOrder S.Money
      → Db S
      → FlashnetOrder S.Money
      → Result SwapError (Db S)
  after_update p st e o db o' =
      let db' = mark_processed st e (record db { orders = S.orders.put o' db.orders }) in
      if text_eq p.event order_failed then open_case (failure_reason p) st o db' else ok db'

  unfoldable pub advance_order :
      FlashnetWebhookPayload
      → Stamps
      → FlashnetWebhookEvent
      → FlashnetOrderStatus
      → FlashnetOrder S.Money
      → Db S
      → Result SwapError (Db S)
  advance_order p st e next o db = updated_order p next o >>= after_update p st e o db

  abbrev pub follow :
      FlashnetWebhookPayload
      → Stamps
      → FlashnetWebhookEvent
      → FlashnetOrder S.Money
      → Db S
      → TransitionDecision
      → Result SwapError (Db S)
  follow p st e o db noop = ok (mark_processed st e db)
  follow p st e o db (skip allowed) = ok (mark_processed st e db)
  follow p st e o db (apply next) = advance_order p st e next o db

  unfoldable pub classify_event :
      FlashnetWebhookPayload → FlashnetOrder S.Money → Result SwapError TransitionDecision
  classify_event p o = do
    attempted ← map_err transition (map_event_to_status p.event)
    map_err transition (decide o.status attempted)

  unfoldable pub process_order :
      FlashnetWebhookPayload
      → Stamps
      → FlashnetWebhookEvent
      → FlashnetOrder S.Money
      → Db S
      → Result SwapError (Db S)
  process_order p st e o db =
      if text_eq p.event recovery_required
      then recovery_hold st e o db
      else classify_event p o >>= follow p st e o db

  unfoldable pub process_event :
      FlashnetWebhookPayload → Stamps → FlashnetWebhookEvent → Db S → Result SwapError (Db S)
  process_event p st e db =
      let (found, db') = find_or_bind p db in
      elim found [
        | none ↦ ok db'
        | some o ↦ if quote_matches p o then process_order p st e o db' else err quote_mismatch
      ]

  unfoldable pub apply_webhook_event :
      FlashnetWebhookPayload → Stamps → Db S → Result SwapError (Db S)
  apply_webhook_event p st db =
      let (e, db') = upsert_event p st db in
      if is_some e.processed_at then ok db' else process_event p st e db'
