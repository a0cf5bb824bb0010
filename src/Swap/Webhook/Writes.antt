-- ===== src/Swap/Webhook/Writes.antt =====
-- The writes that processing an order makes to the tables of orders and refund cases.
use spark_ln_address.Prelude.{
  map_err, map_err-ok, ◌≢◌, ◌≡◌, refl, ◌⊎◌, inl, inr, Bool-cases, true, none, some, Text, text_eq,
  text_eq_iff, ok, arith, >>=-ok,
}
use mathlib.Core.Path.{subst}
use spark_ln_address.Database.{Storage, Db}
use spark_ln_address.Database.Rows.{FlashnetOrder, FlashnetWebhookEvent}
use spark_ln_address.RefundCase.{create_refund_case, insert_case, for_invoice}
use spark_ln_address.RefundCase.Opening.{create_refund_case_finds}
use spark_ln_address.Swap.StateMachine.Graph.{map_event_iff}
use spark_ln_address.Swap.Status.{FlashnetOrderStatus, failed}
use spark_ln_address.Swap.StateMachine.{TransitionDecision, apply, noop, skip, map_event_to_status}
use spark_ln_address.Swap.Webhook.{
  opened, after_update, mark_processed, open_case, recovery_hold, updated_order, advance_order,
  process_order, classify_event, follow,
}
use spark_ln_address.Swap.Payload.{
  FlashnetWebhookPayload, Stamps, refund, transition, recovery_reason, order_failed,
  recovery_required,
}
use spark_ln_address.Swap.Webhook.Decision.{is_terminal, decide, decide-apply, ◌⟿◌}

module _ (S : Storage) where
  pub open_case_keeps :
      (reason : Text) (st : Stamps) (o : FlashnetOrder S.Money) (db db' : Db S)
      → open_case S reason st o db ≡ ok db'
      → (db'.orders ≡ db.orders) × (db'.events ≡ db.events)
  unfolding open_case create_refund_case insert_case
  open_case_keeps reason st o db db' h = ground arith

  open_case_files :
      (reason : Text) (st : Stamps) (o : FlashnetOrder S.Money) (db db' : Db S)
      → S.cases.get st.case_id db.cases ≡ none
      → open_case S reason st o db ≡ ok db'
      → S.cases.find (for_invoice o.invoice_id) db'.cases ≢ none
  unfolding open_case
  open_case_files reason st o db db' fresh h =
      let (x, made, same) = >>=-ok (opened S reason st o db) (λ c. ok c.1) h in
      let finds = create_refund_case_finds S _ _ db x.1 x.0 fresh (map_err-ok refund _ _ made) in
      let same_db : x.1 ≡ db' = cc in
      subst (λ (d : Db S). S.cases.find (for_invoice o.invoice_id) d.cases ≢ none) same_db finds

  module _ (p : FlashnetWebhookPayload) where
    pub updated_order_fields :
        (next : FlashnetOrderStatus) (o o' : FlashnetOrder S.Money)
        → updated_order S p next o ≡ ok o'
        → (o'.id ≡ o.id)
          × (o'.invoice_id ≡ o.invoice_id)
          × (o'.quote_id ≡ o.quote_id)
          × (o'.order_id ≡ o.order_id)
          × (o'.status ≡ some next)
    unfolding updated_order
    updated_order_fields next o o' h = ground arith

    classify_event-apply :
        (o : FlashnetOrder S.Money) (next : FlashnetOrderStatus)
        → classify_event S p o ≡ ok (apply next)
        → (map_event_to_status p.event ≡ ok (some next)) × (o.status ⟿ next)
    unfolding classify_event
    classify_event-apply o next h =
        let (attempted, q, h1) =
          >>=-ok (map_err transition (map_event_to_status p.event))
            (λ a. map_err transition (decide o.status a)) h in
        let (same, m) =
          decide-apply o.status attempted next
            (map_err-ok transition (decide o.status attempted) _ h1) in
        (rw (← same) (map_err-ok transition (map_event_to_status p.event) _ q), m)

    failed_event :
        (next : FlashnetOrderStatus)
        → map_event_to_status p.event ≡ ok (some next)
        → next ≡ failed
        → text_eq p.event order_failed ≡ true
    failed_event next h e =
        let named = (map_event_iff p.event failed).0 (rw e at h) in
        (text_eq_iff p.event order_failed).1 named.0

    -- A move to FAILED leaves a refund case for the invoice behind, if the id offered for a new
    -- case was fresh.
    abbrev pub Filed : Stamps → S.cases.Rows → S.cases.Rows → Text → FlashnetOrderStatus → Type 0
    Filed st before after invoice next =
        next ≡ failed
        → S.cases.get st.case_id before ≡ none
        → S.cases.find (for_invoice invoice) after ≢ none

    -- The one write that processing an order may make.
    abbrev pub Writes : Stamps → FlashnetOrder S.Money → Db S → Db S → Type 0
    Writes st o db db' =
        (db'.orders ≡ db.orders)
        ⊎ ((o' : FlashnetOrder S.Money) × (next : FlashnetOrderStatus) × (db'.orders
              ≡ S.orders.put o' db.orders)
            × (updated_order S p next o ≡ ok o')
            × (o.status ⟿ next)
            × Filed st db.cases db'.cases o.invoice_id next)

    advance_order-Writes :
        (st : Stamps) (e : FlashnetWebhookEvent) (next : FlashnetOrderStatus)
        (o : FlashnetOrder S.Money) (db db' : Db S)
        → map_event_to_status p.event ≡ ok (some next)
        → o.status ⟿ next
        → advance_order S p st e next o db ≡ ok db'
        → Writes st o db db'
    unfolding advance_order after_update mark_processed
    advance_order-Writes st e next o db db' v m h =
        let (o', u, h1) = >>=-ok (updated_order S p next o) (after_update S p st e o db) h in
        elim (Bool-cases (text_eq p.event order_failed)) [
          | inl y ↦
              let opened = rw y at h1 in
              inr (
                o',
                next,
                (open_case_keeps _ st o _ db' opened).0,
                u,
                m,
                λ _ fresh. open_case_files _ st o _ db' fresh opened,
              )
          | inr y ↦
              inr (
                o',
                next,
                ground (arith, rw y at h1),
                u,
                m,
                λ f. absurd (cc (failed_event next v f)),
              )
        ]

    follow-Writes :
        (st : Stamps) (e : FlashnetWebhookEvent) (o : FlashnetOrder S.Money) (db db' : Db S)
        (d : TransitionDecision)
        → ((next : FlashnetOrderStatus)
            → d ≡ apply next
            → (map_event_to_status p.event ≡ ok (some next)) × (o.status ⟿ next))
        → follow S p st e o db d ≡ ok db'
        → Writes st o db db'
    unfolding mark_processed
    follow-Writes st e o db db' (apply next) m h =
        advance_order-Writes st e next o db db' (m next refl).0 (m next refl).1 h
    follow-Writes st e o db db' noop m h = inl (ground arith)
    follow-Writes st e o db db' (skip l) m h = inl (ground arith)

    recovery_hold_keeps :
        (st : Stamps) (e : FlashnetWebhookEvent) (o : FlashnetOrder S.Money) (db db' : Db S)
        → recovery_hold S st e o db ≡ ok db'
        → db'.orders ≡ db.orders
    unfolding recovery_hold mark_processed
    recovery_hold_keeps st e o db db' h = elim (Bool-cases (is_terminal o.status)) [
      | inl y ↦ ground (arith, rw y at h)
      | inr y ↦
          let (db1, q, h1) =
            >>=-ok (open_case S recovery_reason st o db) (λ d. ok (mark_processed S st e d))
              (rw y at h) in
          ground (arith, open_case_keeps recovery_reason st o db db1 q, h1)
    ]

    pub process_order-Writes :
        (st : Stamps) (e : FlashnetWebhookEvent) (o : FlashnetOrder S.Money) (db db' : Db S)
        → process_order S p st e o db ≡ ok db'
        → Writes st o db db'
    unfolding process_order
    process_order-Writes st e o db db' h = elim (Bool-cases (text_eq p.event recovery_required)) [
      | inl y ↦ inl (recovery_hold_keeps st e o db db' (rw y at h))
      | inr y ↦
          let (d, q, h1) = >>=-ok (classify_event S p o) (follow S p st e o db) (rw y at h) in
          follow-Writes st e o db db' d (λ next r. classify_event-apply o next (rw r at q)) h1
    ]
