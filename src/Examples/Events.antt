-- ===== src/Examples/Events.antt =====
-- A quote that is funded, fails and opens a refund case; and the gate in front of it.
use spark_ln_address.Prelude.{
  ℕ, List, Option, none, some, [], ◌∷◌, ◌++◌, ◌≡◌, refl, ◌≢◌, ◌≤◌, ◌+◌, ◌↔◌, Text, codes, Result,
  ok, err, get_or_else, decimal, replicate,
}
use spark_ln_address.Database.{Db, memory, empty_db}
use spark_ln_address.Database.Rows.{FlashnetOrder, Invoice, usdb}
use spark_ln_address.Swap.Status.{pending_payment, processing, delivered, failed, swapping, has}
use spark_ln_address.Swap.StateMachine.{
  apply, classify_transition, validate_transition, map_event_to_status, allowed_transitions,
}
use spark_ln_address.Swap.StateMachine.Graph.{
  IsTerminal, ◌⟶*◌, classify_iff_validate, IsTerminal-iff, ⟶*-delivered, map_event_iff, event_of,
}
use spark_ln_address.Swap.Webhook.{apply_webhook_event}
use spark_ln_address.Swap.Payload.{FlashnetWebhookPayload, Stamps}
use spark_ln_address.Swap.Webhook.Decision.{decide, decide-apply, ◌⟿◌}
use spark_ln_address.Swap.Webhook.Orders.{OrderStep, apply_webhook_event_steps}
use spark_ln_address.Auth.Secp256k1.{from_hex}
use spark_ln_address.Swap.Gate.{
  Runtime, WebhookRequest, as_ms, handle_webhook, deliver, stamped_payload, read_webhook_max_skew,
  max_webhook_max_skew_ms,
}
use spark_ln_address.Swap.Gate.Authentic.{
  Delivered, read_webhook_max_skew_bounds, handled_is_authentic,
}

abbrev pub quoted : FlashnetOrder memory.Money
quoted = record {
  id = codes "f1";
  invoice_id = codes "i1";
  quote_id = some (codes "q1");
  order_id = none;
  lightning_receive_request_id = none;
  estimated_out = none;
  locked_min_amount_out = none;
  actual_out = none;
  fee_amount = none;
  rounding_fee_amount = none;
  total_fee_amount = none;
  fee_bps = none;
  fee_asset = none;
  route = none;
  price_lock_mode = none;
  status = some processing;
  error_code = none;
  error_message = none;
}

abbrev invoice : Invoice
invoice = record {
  id = codes "i1";
  username_id = codes "n1";
  amount_msat = 21000;
  bolt11 = codes "lnbc";
  expires_at = 5;
  status = codes "pending";
  receiving_currency = usdb;
  destination_spark_address = none;
}

abbrev pub quote_db : Db memory
quote_db = record empty_db { orders = quoted ∷ []; invoices = invoice ∷ [] }

abbrev pub failure : FlashnetWebhookPayload
failure = record {
  event = codes "order.failed";
  timestamp = 7;
  info = record {
    id = codes "o1";
    quote_id = some (codes "q1");
    fee_asset = none;
    amount_out = none;
    fee_amount = none;
    error = some (record { code = some (codes "E1"); message = none });
  };
  raw_body = codes "";
}

abbrev pub stamps : Stamps
stamps = record { event_id = codes "e1"; case_id = codes "c1"; now = 1000000 }

abbrev pub state_of : {E : Type 0} → Result E (Db memory) → Db memory
state_of (ok db) = db
state_of (err e) = empty_db

pub failure_runs :
    apply_webhook_event memory failure stamps quote_db
    ≡ ok (state_of (apply_webhook_event memory failure stamps quote_db))
unfolding spark_ln_address.Prelude.text_eq spark_ln_address.Prelude.mem_text
    spark_ln_address.Prelude.starts_with spark_ln_address.Prelude.includes
    spark_ln_address.Prelude.decimal_from spark_ln_address.Prelude.decimal
    spark_ln_address.Database.Memory.without spark_ln_address.Database.Memory.get_row
    spark_ln_address.Database.Memory.find_row spark_ln_address.Database.Memory.select_rows
    spark_ln_address.Database.Memory.remove_row spark_ln_address.Swap.Webhook.upsert_event
    spark_ln_address.Swap.Webhook.mark_processed spark_ln_address.Swap.Webhook.order_by_id
    spark_ln_address.Swap.Webhook.quoted_order spark_ln_address.Swap.Webhook.unbound_order
    spark_ln_address.Swap.Webhook.find_or_bind spark_ln_address.Swap.Webhook.quote_matches
    spark_ln_address.Swap.Webhook.amount_sats_of spark_ln_address.Swap.Webhook.opened
    spark_ln_address.Swap.Webhook.open_case spark_ln_address.Swap.Webhook.recovery_hold
    spark_ln_address.Swap.Webhook.actual_out_of spark_ln_address.Swap.Webhook.fee_amount_of
    spark_ln_address.Swap.Webhook.is_faulty spark_ln_address.Swap.Webhook.noted
    spark_ln_address.Swap.Webhook.updated_order spark_ln_address.Swap.Webhook.after_update
    spark_ln_address.Swap.Webhook.advance_order spark_ln_address.Swap.Webhook.classify_event
    spark_ln_address.Swap.Webhook.process_order spark_ln_address.Swap.Webhook.process_event
    spark_ln_address.Swap.Webhook.apply_webhook_event
    spark_ln_address.Swap.Webhook.Decision.current_status
    spark_ln_address.Swap.Webhook.Decision.decide spark_ln_address.Swap.Status.status_eq
    spark_ln_address.Swap.Status.has spark_ln_address.Swap.StateMachine.allowed_transitions
    spark_ln_address.Swap.StateMachine.validate_transition
    spark_ln_address.Swap.StateMachine.classify_transition
    spark_ln_address.Swap.StateMachine.own_member
    spark_ln_address.Swap.StateMachine.map_event_to_status
    spark_ln_address.Swap.Units.usdb_smallest_units_to_decimal
    spark_ln_address.RefundCase.insert_case spark_ln_address.RefundCase.create_refund_case
    spark_ln_address.RefundCase.list_open_refund_cases spark_ln_address.RefundCase.find_by_id
    spark_ln_address.RefundCase.open_case_of spark_ln_address.RefundCase.update_case
    spark_ln_address.RefundCase.mark_paid spark_ln_address.RefundCase.mark_abandoned
failure_runs = refl

apply_webhook_event_steps_example :
    (o' : FlashnetOrder memory.Money) × (memory.orders.get
        (codes "f1")
        (state_of (apply_webhook_event memory failure stamps quote_db)).orders
      ≡ some o')
    × OrderStep memory failure stamps quote_db.cases
        (state_of (apply_webhook_event memory failure stamps quote_db)).cases
        quoted
        o'
unfolding spark_ln_address.Prelude.text_eq spark_ln_address.Prelude.mem_text
    spark_ln_address.Prelude.starts_with spark_ln_address.Prelude.includes
    spark_ln_address.Prelude.decimal_from spark_ln_address.Prelude.decimal
    spark_ln_address.Database.Memory.without spark_ln_address.Database.Memory.get_row
    spark_ln_address.Database.Memory.find_row spark_ln_address.Database.Memory.select_rows
    spark_ln_address.Database.Memory.remove_row
apply_webhook_event_steps_example =
    apply_webhook_event_steps memory failure stamps quote_db
      (state_of (apply_webhook_event memory failure stamps quote_db)) (codes "f1") quoted refl
      failure_runs

map_event_iff_example :
    (map_event_to_status (codes "order.failed") ≡ ok (some failed))
    ↔ ((codes "order.failed" ≡ event_of failed) × (failed ≢ pending_payment))
map_event_iff_example = map_event_iff (codes "order.failed") failed

classify_iff_validate_example :
    (classify_transition (some swapping) (some delivered) ≡ ok (apply delivered))
    ↔ (validate_transition (some swapping) delivered ≡ ok delivered)
classify_iff_validate_example = classify_iff_validate swapping delivered

IsTerminal-iff_example : IsTerminal failed ↔ (allowed_transitions failed ≡ [])
IsTerminal-iff_example = IsTerminal-iff failed

processing_not-IsTerminal : ¬ (IsTerminal processing)
processing_not-IsTerminal t = elim t [ ]

⟶*-delivered_example : processing ⟶* delivered
⟶*-delivered_example = ⟶*-delivered processing processing_not-IsTerminal

decide_runs : decide (some processing) (some failed) ≡ ok (apply failed)
unfolding spark_ln_address.Swap.Webhook.Decision.current_status
    spark_ln_address.Swap.Webhook.Decision.decide spark_ln_address.Swap.Status.status_eq
    spark_ln_address.Swap.Status.has spark_ln_address.Swap.StateMachine.allowed_transitions
    spark_ln_address.Swap.StateMachine.validate_transition
    spark_ln_address.Swap.StateMachine.classify_transition
    spark_ln_address.Swap.StateMachine.own_member
    spark_ln_address.Swap.StateMachine.map_event_to_status
decide_runs = refl

decide-apply_example : (some failed ≡ some failed) × (some processing ⟿ failed)
decide-apply_example = decide-apply (some processing) (some failed) failed decide_runs

-- A runtime whose digest is the same for all messages.
abbrev runtime : Runtime
runtime = record {
  hmac_sha256_hex = λ secret payload. replicate 64 b'a';
  to_utf8 = λ bytes. bytes;
  parse = λ text. some failure;
}

abbrev request : WebhookRequest
request = record {
  raw_body = some (codes "{}");
  signature = some (replicate 64 b'a');
  timestamp = some (codes "1000");
}

abbrev secret : Option Text
secret = some (codes "s")

abbrev delivered_db : Db memory
delivered_db = state_of (handle_webhook runtime memory secret 300000 request stamps quote_db)

request_runs : handle_webhook runtime memory secret 300000 request stamps quote_db ≡ ok delivered_db
unfolding spark_ln_address.Prelude.text_eq spark_ln_address.Prelude.mem_text
    spark_ln_address.Prelude.starts_with spark_ln_address.Prelude.includes
    spark_ln_address.Prelude.decimal_from spark_ln_address.Prelude.decimal
    spark_ln_address.Database.Memory.without spark_ln_address.Database.Memory.get_row
    spark_ln_address.Database.Memory.find_row spark_ln_address.Database.Memory.select_rows
    spark_ln_address.Database.Memory.remove_row spark_ln_address.Auth.Secp256k1.normalize
    spark_ln_address.Auth.Secp256k1.der_to_compact spark_ln_address.Auth.Secp256k1.from_hex
    spark_ln_address.Auth.Secp256k1.message_bytes spark_ln_address.Auth.Secp256k1.compact_signature
    spark_ln_address.Auth.Secp256k1.verify_text spark_ln_address.Auth.Secp256k1.verify_bytes
    spark_ln_address.Auth.Secp256k1.verify_signature
    spark_ln_address.Auth.Secp256k1.equivalent_pub_key_forms
    spark_ln_address.Swap.Gate.is_fresh_timestamp spark_ln_address.Swap.Gate.read_webhook_max_skew
    spark_ln_address.Swap.Gate.verify_webhook_signature spark_ln_address.Swap.Gate.admit_webhook
    spark_ln_address.Swap.Gate.stamped_payload spark_ln_address.Swap.Gate.deliver
    spark_ln_address.Swap.Gate.handle_webhook spark_ln_address.Swap.Webhook.upsert_event
    spark_ln_address.Swap.Webhook.mark_processed spark_ln_address.Swap.Webhook.order_by_id
    spark_ln_address.Swap.Webhook.quoted_order spark_ln_address.Swap.Webhook.unbound_order
    spark_ln_address.Swap.Webhook.find_or_bind spark_ln_address.Swap.Webhook.quote_matches
    spark_ln_address.Swap.Webhook.amount_sats_of spark_ln_address.Swap.Webhook.opened
    spark_ln_address.Swap.Webhook.open_case spark_ln_address.Swap.Webhook.recovery_hold
    spark_ln_address.Swap.Webhook.actual_out_of spark_ln_address.Swap.Webhook.fee_amount_of
    spark_ln_address.Swap.Webhook.is_faulty spark_ln_address.Swap.Webhook.noted
    spark_ln_address.Swap.Webhook.updated_order spark_ln_address.Swap.Webhook.after_update
    spark_ln_address.Swap.Webhook.advance_order spark_ln_address.Swap.Webhook.classify_event
    spark_ln_address.Swap.Webhook.process_order spark_ln_address.Swap.Webhook.process_event
    spark_ln_address.Swap.Webhook.apply_webhook_event
    spark_ln_address.Swap.Webhook.Decision.current_status
    spark_ln_address.Swap.Webhook.Decision.decide spark_ln_address.Swap.Status.status_eq
    spark_ln_address.Swap.Status.has spark_ln_address.Swap.StateMachine.allowed_transitions
    spark_ln_address.Swap.StateMachine.validate_transition
    spark_ln_address.Swap.StateMachine.classify_transition
    spark_ln_address.Swap.StateMachine.own_member
    spark_ln_address.Swap.StateMachine.map_event_to_status
    spark_ln_address.Swap.Units.usdb_smallest_units_to_decimal
    spark_ln_address.RefundCase.insert_case spark_ln_address.RefundCase.create_refund_case
    spark_ln_address.RefundCase.list_open_refund_cases spark_ln_address.RefundCase.find_by_id
    spark_ln_address.RefundCase.open_case_of spark_ln_address.RefundCase.update_case
    spark_ln_address.RefundCase.mark_paid spark_ln_address.RefundCase.mark_abandoned
request_runs = refl

handled_is_authentic_example :
    (key : Text) × (body : List ℕ) × (secret ≡ some key)
    × (key ≢ [])
    × (request.raw_body ≡ some body)
    × (from_hex (get_or_else request.signature [])
        ≡ from_hex (
            runtime.hmac_sha256_hex key
              (get_or_else request.timestamp [] ++ (codes "." ++ runtime.to_utf8 body))))
    × (as_ms (decimal (get_or_else request.timestamp [])) ≤ 1000000 + 300000)
    × (1000000 ≤ as_ms (decimal (get_or_else request.timestamp [])) + 300000)
    × Delivered runtime memory body (get_or_else request.timestamp []) stamps quote_db delivered_db
handled_is_authentic_example =
    handled_is_authentic runtime memory secret 300000 request stamps quote_db delivered_db
      request_runs

read_webhook_max_skew_bounds_example :
    (1 ≤ read_webhook_max_skew (some (codes "5m")))
    × (read_webhook_max_skew (some (codes "5m")) ≤ max_webhook_max_skew_ms)
read_webhook_max_skew_bounds_example = read_webhook_max_skew_bounds (some (codes "5m"))
