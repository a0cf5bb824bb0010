-- ===== src/Examples/Redelivery.antt =====
-- The failed order's event, delivered again, and one that comes after its order has ended.
use spark_ln_address.Prelude.{[], ◌∷◌, refl, some, none, ◌≡◌, ◌≢◌, ok, codes}
use spark_ln_address.Database.{Db, memory}
use spark_ln_address.Database.Rows.{FlashnetOrder}
use spark_ln_address.Swap.Status.{delivered}
use spark_ln_address.Swap.StateMachine.Graph.{delivered_terminal}
use spark_ln_address.Swap.Webhook.Terminal.{terminal_kept}
use spark_ln_address.Swap.Webhook.{apply_webhook_event, find_or_bind, upsert_event}
use spark_ln_address.Swap.Webhook.Redelivery.{HasOneEvent, redelivery_noop}
use spark_ln_address.Swap.Payload.{Stamps}
use spark_ln_address.Examples.Events.{quoted, quote_db, failure, stamps, state_of, failure_runs}

abbrev later : Stamps
later = record stamps { event_id = codes "e2"; case_id = codes "c2"; now = 2000000 }

no_event : HasOneEvent memory failure quote_db
unfolding spark_ln_address.Database.Memory.get_row
no_event k k' e e' at_e at_e' same same' = absurd (cc at_e)

order_found : (find_or_bind memory failure (upsert_event memory failure stamps quote_db).1).0 ≢ none
unfolding spark_ln_address.Prelude.text_eq spark_ln_address.Prelude.mem_text
    spark_ln_address.Prelude.starts_with spark_ln_address.Prelude.includes
    spark_ln_address.Prelude.decimal_from spark_ln_address.Prelude.decimal
    spark_ln_address.Database.Memory.without spark_ln_address.Database.Memory.get_row
    spark_ln_address.Database.Memory.find_row spark_ln_address.Database.Memory.select_rows
    spark_ln_address.Database.Memory.remove_row spark_ln_address.Swap.Webhook.upsert_event
    spark_ln_address.Swap.Webhook.mark_processed spark_ln_address.Swap.Webhook.order_by_id
    spark_ln_address.Swap.Webhook.quoted_order spark_ln_address.Swap.Webhook.unbound_order
    spark_ln_address.Swap.Webhook.find_or_bind spark_ln_address.Swap.Webhook.quote_matches
    spark_ln_address.Swap.Webhook.amount_sats_of spark_ln_address.Swap.Webhook.opened
    spark_ln_address.Swap.Webhook.open_case spark_ln_address.Swap.Webhook.recovery_hold
    spark_ln_address.Swap.Webhook.actual_out_of spark_ln_address.Swap.Webhook.fee_amount_of
    spark_ln_address.Swap.Webhook.is_faulty spark_ln_address.Swap.Webhook.noted
    spark_ln_address.Swap.Webhook.updated_order spark_ln_address.Swap.Webhook.after_update
    spark_ln_address.Swap.Webhook.advance_order spark_ln_address.Swap.Webhook.classify_event
    spark_ln_address.Swap.Webhook.process_order spark_ln_address.Swap.Webhook.process_event
    spark_ln_address.Swap.Webhook.apply_webhook_event
    spark_ln_address.Swap.Webhook.Decision.current_status
    spark_ln_address.Swap.Webhook.Decision.decide spark_ln_address.Swap.Status.status_eq
    spark_ln_address.Swap.Status.has spark_ln_address.Swap.StateMachine.allowed_transitions
    spark_ln_address.Swap.StateMachine.validate_transition
    spark_ln_address.Swap.StateMachine.classify_transition
    spark_ln_address.Swap.StateMachine.own_member
    spark_ln_address.Swap.StateMachine.map_event_to_status
    spark_ln_address.Swap.Units.usdb_smallest_units_to_decimal
    spark_ln_address.RefundCase.insert_case spark_ln_address.RefundCase.create_refund_case
    spark_ln_address.RefundCase.list_open_refund_cases spark_ln_address.RefundCase.find_by_id
    spark_ln_address.RefundCase.open_case_of spark_ln_address.RefundCase.mark_paid
    spark_ln_address.RefundCase.mark_abandoned
order_found h = absurd (cc h)

redelivery_noop_example :
    HasOneEvent memory failure (state_of (apply_webhook_event memory failure stamps quote_db))
    × (apply_webhook_event memory failure later
          (state_of (apply_webhook_event memory failure stamps quote_db))
        ≡ ok (state_of (apply_webhook_event memory failure stamps quote_db)))
redelivery_noop_example =
    redelivery_noop memory failure stamps later quote_db
      (state_of (apply_webhook_event memory failure stamps quote_db)) no_event order_found
      failure_runs

abbrev delivered_order : FlashnetOrder memory.Money
delivered_order = record quoted { order_id = some (codes "o1"); status = some delivered }

abbrev ended_db : Db memory
ended_db = record quote_db { orders = delivered_order ∷ [] }

-- A failure that comes after the delivery is noted and changes no order.
late_failure_runs :
    apply_webhook_event memory failure stamps ended_db
    ≡ ok (state_of (apply_webhook_event memory failure stamps ended_db))
unfolding spark_ln_address.Prelude.text_eq spark_ln_address.Prelude.mem_text
    spark_ln_address.Prelude.starts_with spark_ln_address.Prelude.includes
    spark_ln_address.Prelude.decimal_from spark_ln_address.Prelude.decimal
    spark_ln_address.Database.Memory.without spark_ln_address.Database.Memory.get_row
    spark_ln_address.Database.Memory.find_row spark_ln_address.Database.Memory.select_rows
    spark_ln_address.Database.Memory.remove_row spark_ln_address.Swap.Webhook.upsert_event
    spark_ln_address.Swap.Webhook.mark_processed spark_ln_address.Swap.Webhook.order_by_id
    spark_ln_address.Swap.Webhook.quoted_order spark_ln_address.Swap.Webhook.unbound_order
    spark_ln_address.Swap.Webhook.find_or_bind spark_ln_address.Swap.Webhook.quote_matches
    spark_ln_address.Swap.Webhook.amount_sats_of spark_ln_address.Swap.Webhook.opened
    spark_ln_address.Swap.Webhook.open_case spark_ln_address.Swap.Webhook.recovery_hold
    spark_ln_address.Swap.Webhook.actual_out_of spark_ln_address.Swap.Webhook.fee_amount_of
    spark_ln_address.Swap.Webhook.is_faulty spark_ln_address.Swap.Webhook.noted
    spark_ln_address.Swap.Webhook.updated_order spark_ln_address.Swap.Webhook.after_update
    spark_ln_address.Swap.Webhook.advance_order spark_ln_address.Swap.Webhook.classify_event
    spark_ln_address.Swap.Webhook.process_order spark_ln_address.Swap.Webhook.process_event
    spark_ln_address.Swap.Webhook.apply_webhook_event
    spark_ln_address.Swap.Webhook.Decision.current_status
    spark_ln_address.Swap.Webhook.Decision.decide spark_ln_address.Swap.Status.status_eq
    spark_ln_address.Swap.Status.has spark_ln_address.Swap.StateMachine.allowed_transitions
    spark_ln_address.Swap.StateMachine.validate_transition
    spark_ln_address.Swap.StateMachine.classify_transition
    spark_ln_address.Swap.StateMachine.own_member
    spark_ln_address.Swap.StateMachine.map_event_to_status
    spark_ln_address.Swap.Units.usdb_smallest_units_to_decimal
    spark_ln_address.RefundCase.insert_case spark_ln_address.RefundCase.create_refund_case
    spark_ln_address.RefundCase.list_open_refund_cases spark_ln_address.RefundCase.find_by_id
    spark_ln_address.RefundCase.open_case_of spark_ln_address.RefundCase.mark_paid
    spark_ln_address.RefundCase.mark_abandoned
late_failure_runs = refl

delivered_stored : memory.orders.get (codes "f1") ended_db.orders ≡ some delivered_order
unfolding spark_ln_address.Database.Memory.get_row spark_ln_address.Prelude.text_eq
delivered_stored = refl

terminal_kept_example :
    (o' : FlashnetOrder memory.Money) × (memory.orders.get
        (codes "f1")
        (state_of (apply_webhook_event memory failure stamps ended_db)).orders
      ≡ some o')
    × (o'.status ≡ some delivered)
terminal_kept_example =
    terminal_kept memory failure stamps ended_db
      (state_of (apply_webhook_event memory failure stamps ended_db)) (codes "f1") delivered_order
      delivered delivered_terminal refl delivered_stored late_failure_runs
