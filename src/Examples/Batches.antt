-- ===== src/Examples/Batches.antt =====
-- A batch of the reconciler, a log line, and a bucket of the rate limit.
use spark_ln_address.Prelude.{
  ◌≡◌, refl, ◌↔◌, ◌⊎◌, true, false, none, some, ok, Text, codes, any, all, text_eq, arith,
}
use spark_ln_address.Database.{Db, memory}
use spark_ln_address.Database.Rows.{FlashnetOrder}
use spark_ln_address.Swap.Quote.{order_row}
use spark_ln_address.Swap.Reconciler.{
  Surroundings, Pause, Cursors, reconcile_batch, page, selected, fresh, next_cursor,
}
use spark_ln_address.Swap.Reconciler.Advance.{Advances, Advanced-refl, reconcile_batch_steps}
use spark_ln_address.Swap.Reconciler.Pages.{page_complete}
use spark_ln_address.Logging.{sanitize_for_log}
use spark_ln_address.Logging.Escapes.{is_printable, sanitize_for_log_printable}
use spark_ln_address.RateLimit.{payer_and_name_tracker}
use spark_ln_address.RateLimit.Buckets.{payer_and_name_tracker_iff}
use spark_ln_address.Names.Normal.{normalize_username}
use spark_ln_address.Examples.Invoices.{quote}
use spark_ln_address.Examples.Callbacks.{recorded_db}

-- Flashnet has funded the recorded quote.
abbrev around : Surroundings
around = record {
  ask = λ quote_id. ok (
      some (record {
        id = codes "ord_1";
        quote_id = quote_id;
        status = codes "processing";
        updated_at_ms = 7;
        review_status = none;
        info = record {
          id = codes "ord_1";
          quote_id = some quote_id;
          fee_asset = none;
          amount_out = none;
          fee_amount = none;
          error = none;
        };
      }));
  aborted = λ id. false;
  draw = λ id event. record { event_id = codes "e1"; case_id = codes "c1"; now = 1500 };
  raw_body = λ event snapshot. codes "";
  now = 2000;
}

-- No other request writes.
abbrev alone : Pause → Db memory → Db memory
alone pause db = db

abbrev cursors : Cursors
cursors = record { at_bound = none; at_fresh = none; at_stale = none }

abbrev unfunded : FlashnetOrder memory.Money
unfunded =
    order_row memory (codes "o1") (codes "i1") quote (12, 1000000) none (12, 1000000) (12, 1000000)
      (12, 1000000) none

unfunded_stored : memory.orders.get (codes "o1") recorded_db.orders ≡ some unfunded
unfolding spark_ln_address.Database.Memory.without spark_ln_address.Database.Memory.get_row
    spark_ln_address.Database.Memory.find_row spark_ln_address.Database.Memory.select_rows
    spark_ln_address.Database.Memory.remove_row spark_ln_address.Prelude.text_eq
    spark_ln_address.Prelude.mem_text spark_ln_address.Prelude.starts_with
    spark_ln_address.Prelude.includes spark_ln_address.Prelude.decimal_from
    spark_ln_address.Prelude.decimal spark_ln_address.Prelude.digits_before
    spark_ln_address.Prelude.decimal_text
unfunded_stored = refl

reconcile_batch_steps_example :
    (o' : FlashnetOrder memory.Money) × (memory.orders.get
        (codes "o1")
        (reconcile_batch memory around alone false cursors recorded_db).1.orders
      ≡ some o')
    × Advances memory unfunded o'
reconcile_batch_steps_example =
    reconcile_batch_steps memory around alone (λ pause db. Advanced-refl memory db) false cursors
      recorded_db (codes "o1") unfunded unfunded_stored

unfunded-selected : selected memory fresh none 0 recorded_db unfunded ≡ true
unfolding spark_ln_address.Swap.Reconciler.text_lt spark_ln_address.Swap.Reconciler.insert_by_id
    spark_ln_address.Swap.Reconciler.by_id spark_ln_address.Swap.Reconciler.selected
    spark_ln_address.Swap.Reconciler.page spark_ln_address.Swap.Reconciler.last_id
    spark_ln_address.Swap.Reconciler.checked_snapshot spark_ln_address.Swap.Reconciler.snapshot_of
    spark_ln_address.Swap.Reconciler.apply_event spark_ln_address.Swap.Reconciler.apply_recovery
    spark_ln_address.Swap.Reconciler.apply_snapshot spark_ln_address.Swap.Reconciler.reconcile_row
    spark_ln_address.Swap.Reconciler.reconcile_rows
    spark_ln_address.Swap.Reconciler.reconcile_queues
    spark_ln_address.Swap.Reconciler.reconcile_batch spark_ln_address.Database.Memory.without
    spark_ln_address.Database.Memory.get_row spark_ln_address.Database.Memory.find_row
    spark_ln_address.Database.Memory.select_rows spark_ln_address.Database.Memory.remove_row
    spark_ln_address.Prelude.text_eq spark_ln_address.Prelude.mem_text
    spark_ln_address.Prelude.starts_with spark_ln_address.Prelude.includes
    spark_ln_address.Prelude.decimal_from spark_ln_address.Prelude.decimal
    spark_ln_address.Prelude.digits_before spark_ln_address.Prelude.decimal_text
    spark_ln_address.Swap.Status.status_eq spark_ln_address.Swap.Status.has
unfunded-selected = refl

page_complete_example :
    (any (λ o. text_eq o.id (codes "o1")) (page memory fresh none 0 recorded_db) ≡ true)
    ⊎ (selected memory fresh
          (next_cursor memory fresh (page memory fresh none 0 recorded_db))
          0
          recorded_db
          unfunded
        ≡ true)
page_complete_example =
    page_complete memory fresh none 0 recorded_db (codes "o1") unfunded unfunded_stored
      unfunded-selected

abbrev two_lines : Text
two_lines = codes "a\nb"

sanitize_for_log_printable_example : all is_printable (sanitize_for_log two_lines 2) ≡ true
sanitize_for_log_printable_example =
    sanitize_for_log_printable two_lines 2 (omega arith, (omega arith, (omega arith, tt)))

al_normalised : normalize_username (codes " Al") ≡ some (codes "al")
unfolding spark_ln_address.Names.Normal.to_lower_case spark_ln_address.Names.Normal.trim_start
    spark_ln_address.Names.Normal.trim spark_ln_address.Names.Normal.normalize_username
    spark_ln_address.Prelude.text_eq spark_ln_address.Prelude.mem_text
    spark_ln_address.Prelude.starts_with spark_ln_address.Prelude.includes
    spark_ln_address.Prelude.decimal_from spark_ln_address.Prelude.decimal
    spark_ln_address.Prelude.digits_before spark_ln_address.Prelude.decimal_text
al_normalised = refl

bo_normalised : normalize_username (codes "bo") ≡ some (codes "bo")
unfolding spark_ln_address.Names.Normal.to_lower_case spark_ln_address.Names.Normal.trim_start
    spark_ln_address.Names.Normal.trim spark_ln_address.Names.Normal.normalize_username
    spark_ln_address.Prelude.text_eq spark_ln_address.Prelude.mem_text
    spark_ln_address.Prelude.starts_with spark_ln_address.Prelude.includes
    spark_ln_address.Prelude.decimal_from spark_ln_address.Prelude.decimal
    spark_ln_address.Prelude.digits_before spark_ln_address.Prelude.decimal_text
bo_normalised = refl

payer_and_name_tracker_iff_example :
    (payer_and_name_tracker (λ ip. ip) (some (codes "::1")) (some (codes " Al"))
      ≡ payer_and_name_tracker (λ ip. ip) (some (codes "::1")) (some (codes "bo")))
    ↔ (codes "al" ≡ codes "bo")
payer_and_name_tracker_iff_example =
    payer_and_name_tracker_iff (λ ip. ip) (some (codes "::1")) (codes " Al") (codes "bo")
      (codes "al") (codes "bo") al_normalised bo_normalised
