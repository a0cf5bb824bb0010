-- ===== src/Swap/Reconciler.antt =====
-- src/swap/quote-reconciler.service.ts, `reconcileBatch`: pages of orders, each asked for at Flashnet
-- and moved as a webhook would move it.
pub mod Advance
pub mod Pages
use spark_ln_address.Prelude.{
  ◌>>=◌, ◌>>◌, map_err, ℕ, ◌-◌, ◌*◌, Bool, true, false, not, ◌&&◌, ◌||◌, ltb, leb, ◌==◌,
  if◌then◌else◌, Option, none, some, is_some, get_or_else, List, [], ◌∷◌, ◌++◌, take, length, Text,
  codes, text_eq, mem_text, Result, ok, err, throw_if,
}
use spark_ln_address.RateLimit.{max_safe_integer}
use spark_ln_address.Database.{Storage, Db}
use spark_ln_address.Database.Rows.{FlashnetOrder}
use spark_ln_address.Swap.Status.{FlashnetOrderStatus, delivered, failed, expired, refunded, has}
use spark_ln_address.Swap.Webhook.{apply_webhook_event}
use spark_ln_address.Swap.Payload.{
  FlashnetWebhookPayload, Stamps, SwapError, recovery_required, opt_eq, truthy,
}
use spark_ln_address.Flashnet.Client.{FlashnetError, OrderSnapshot}

abbrev settlement_grace_ms : ℕ
settlement_grace_ms = 6 * 60 * 60 * 1000

-- TERMINAL.
abbrev pub final_statuses : List FlashnetOrderStatus
final_statuses = delivered ∷ failed ∷ expired ∷ refunded ∷ []

-- `status: { notIn: TERMINAL }`, which no NULL satisfies. The column holds NULL or a status.
abbrev pub may_move : Option FlashnetOrderStatus → Bool
may_move none = false
may_move (some s) = not (has final_statuses s)

-- The order of ids.
unfoldable pub text_lt : Text → Text → Bool
text_lt [] [] = false
text_lt [] (d ∷ t) = true
text_lt (c ∷ s) [] = false
text_lt (c ∷ s) (d ∷ t) = ltb c d || (c == d && text_lt s t)

-- The three queues: bound orders, quotes of invoices that have not long expired, and older ones.
pub data Queue : Type 0 where
  bound fresh stale : Queue

abbrev pub page_size : Queue → ℕ
page_size bound = 20
page_size fresh = 20
page_size stale = 5

pub record Cursors : Type 0 where
  pub at_bound : Option Text
  pub at_fresh : Option Text
  pub at_stale : Option Text

abbrev pub cursor_of : Queue → Cursors → Option Text
cursor_of bound cursors = cursors.at_bound
cursor_of fresh cursors = cursors.at_fresh
cursor_of stale cursors = cursors.at_stale

abbrev pub with_cursor : Queue → Option Text → Cursors → Cursors
with_cursor bound c cursors = record cursors { at_bound = c }
with_cursor fresh c cursors = record cursors { at_fresh = c }
with_cursor stale c cursors = record cursors { at_stale = c }

abbrev pub past_cursor : Option Text → Text → Bool
past_cursor none id = true
past_cursor (some cursor) id = text_lt cursor id

pub data RowError : Type 0 where
  flashnet : FlashnetError → RowError
  order_mismatch quote_mismatch invalid_snapshot_time : RowError

-- What a batch takes from outside: `ask` is `getQuoteOrder`, `aborted` whether the shutdown has
-- begun when a row is reached, `draw` what the clock and the database give to an event of a row, and
-- `raw_body` the body that is kept with an event.
pub record Surroundings : Type 0 where
  pub ask : Text → Result FlashnetError (Option OrderSnapshot)
  pub aborted : Text → Bool
  pub draw : Text → Text → Stamps
  pub raw_body : Text → OrderSnapshot → Text
  pub now : ℕ

-- Where a batch awaits: before a queue reads its page, and before an event of a row.
pub data Pause : Type 0 where
  before_page : Queue → Pause
  before_event : Text → Text → Pause

abbrev pub recent_expiry : Surroundings → ℕ
recent_expiry around = around.now - settlement_grace_ms

module _ (S : Storage) where
  -- Inserted before the first row with a greater id.
  unfoldable pub insert_by_id :
      FlashnetOrder S.Money → List (FlashnetOrder S.Money) → List (FlashnetOrder S.Money)
  insert_by_id o [] = o ∷ []
  insert_by_id o (q ∷ qs) =
      let deeper = q ∷ insert_by_id o qs in if text_lt q.id o.id then deeper else o ∷ q ∷ qs

  unfoldable pub by_id : List (FlashnetOrder S.Money) → List (FlashnetOrder S.Money)
  by_id [] = []
  by_id (o ∷ os) = insert_by_id o (by_id os)

  -- The expiry of the invoice of an order, against six hours ago.
  abbrev pub expires_after : ℕ → FlashnetOrder S.Money → Db S → Bool → Bool
  expires_after recent o db wanted = elim (S.invoices.get o.invoice_id db.invoices) [
    | none ↦ false
    | some invoice ↦ if wanted then ltb recent invoice.expires_at else leb invoice.expires_at recent
  ]

  abbrev pub in_queue : Queue → ℕ → Db S → FlashnetOrder S.Money → Bool
  in_queue bound recent db o = is_some o.order_id
  in_queue fresh recent db o = not (is_some o.order_id) && expires_after recent o db true
  in_queue stale recent db o = not (is_some o.order_id) && expires_after recent o db false

  unfoldable pub selected : Queue → Option Text → ℕ → Db S → FlashnetOrder S.Money → Bool
  selected queue cursor recent db o =
      in_queue queue recent db o
      && (is_some o.quote_id && (may_move o.status && past_cursor cursor o.id))

  unfoldable pub page : Queue → Option Text → ℕ → Db S → List (FlashnetOrder S.Money)
  page queue cursor recent db =
      take (page_size queue) (by_id (S.orders.select (selected queue cursor recent db) db.orders))

  unfoldable pub last_id : List (FlashnetOrder S.Money) → Option Text
  last_id [] = none
  last_id (o ∷ []) = some o.id
  last_id (o ∷ q ∷ qs) = last_id (q ∷ qs)

  -- The cursor behind a page: none where the page is not full.
  abbrev pub next_cursor : Queue → List (FlashnetOrder S.Money) → Option Text
  next_cursor queue rows = if length rows == page_size queue then last_id rows else none

  -- `meanwhile` is what other requests write while the batch awaits.
  module _ (around : Surroundings) (meanwhile : Pause → Db S → Db S) where
    -- The checks on the snapshot of a row.
    unfoldable pub checked_snapshot :
        FlashnetOrder S.Money → Text → OrderSnapshot → Result RowError OrderSnapshot
    checked_snapshot row quote_id snapshot = do
      throw_if (is_some (truthy row.order_id) && not (opt_eq row.order_id snapshot.id))
          order_mismatch
      throw_if (not (text_eq snapshot.quote_id quote_id)) quote_mismatch
      throw_if (ltb max_safe_integer snapshot.updated_at_ms) invalid_snapshot_time
      ok snapshot

    -- The snapshot of a row; `none` is a quote that awaits its payment.
    unfoldable pub snapshot_of : FlashnetOrder S.Money → Result RowError (Option OrderSnapshot)
    snapshot_of row = do
      let quote_id = get_or_else row.quote_id []
      answer ← map_err flashnet (around.ask quote_id)
      elim answer [
        | none ↦ ok none
        | some snapshot ↦ do checked ← checked_snapshot row quote_id snapshot; ok (some checked)
      ]

    abbrev pub payload_of : Text → OrderSnapshot → FlashnetWebhookPayload
    payload_of event snapshot = record {
      event = event;
      timestamp = snapshot.updated_at_ms;
      info = snapshot.info;
      raw_body = around.raw_body event snapshot;
    }

    -- One event; an error leaves the state, and is logged.
    unfoldable pub apply_event :
        FlashnetOrder S.Money → Text → OrderSnapshot → Db S → Result SwapError (Db S)
    apply_event row event snapshot db =
        apply_webhook_event S (payload_of event snapshot) (around.draw row.id event) db

    abbrev pub needs_recovery : OrderSnapshot → Bool
    needs_recovery snapshot = elim snapshot.review_status [
      | none ↦ false
      | some t ↦ mem_text t (codes "pending_review" ∷ codes "blocked_wallet" ∷ [])
    ]

    abbrev or_else : Db S → Result SwapError (Db S) → Db S
    or_else db (ok db') = db'
    or_else db (err e) = db

    unfoldable pub apply_recovery : FlashnetOrder S.Money → OrderSnapshot → Db S → Db S
    apply_recovery row snapshot db =
        let seen = meanwhile (before_event row.id recovery_required) db in
        if needs_recovery snapshot
        then or_else seen (apply_event row recovery_required snapshot seen)
        else db

    unfoldable pub apply_snapshot : FlashnetOrder S.Money → OrderSnapshot → Db S → Db S
    apply_snapshot row snapshot db =
        let event = codes "order." ++ snapshot.status in
        let seen = meanwhile (before_event row.id event) db in
        elim (apply_event row event snapshot seen) [
          | err e ↦ seen
          | ok db' ↦ apply_recovery row snapshot db'
        ]

    unfoldable pub reconcile_row : FlashnetOrder S.Money → Db S → Db S
    reconcile_row row db = elim (snapshot_of row) [
      | err e ↦ db
      | ok none ↦ db
      | ok (some snapshot) ↦ apply_snapshot row snapshot db
    ]

    -- The rows of a page, and whether the shutdown stopped them.
    unfoldable pub reconcile_rows : List (FlashnetOrder S.Money) → Db S → Bool × Db S
    reconcile_rows [] db = (false, db)
    reconcile_rows (row ∷ rows) db =
        let rest = reconcile_rows rows (reconcile_row row db) in
        if around.aborted row.id then (true, db) else rest

    -- The queues in turn.
    unfoldable pub reconcile_queues : List Queue → Cursors → Db S → Cursors × Db S
    reconcile_queues [] cursors db = (cursors, db)
    reconcile_queues (queue ∷ queues) cursors db =
        let seen = meanwhile (before_page queue) db in
        let rows = page queue (cursor_of queue cursors) (recent_expiry around) seen in
        let moved = with_cursor queue (next_cursor queue rows) cursors in
        let (stopped, db') = reconcile_rows rows seen in
        let rest = reconcile_queues queues moved db' in if stopped then (moved, db') else rest

    -- A batch does nothing while another is running.
    unfoldable pub reconcile_batch : Bool → Cursors → Db S → Cursors × Db S
    reconcile_batch running cursors db =
        if running then (cursors, db) else reconcile_queues (bound ∷ fresh ∷ stale ∷ []) cursors db
