-- ===== src/Swap/Webhook/Redelivery.antt =====
-- A second delivery of an event: src/swap/swap.service.ts, `applyWebhookEvent` on a row of
-- `flashnetWebhookEvent` that carries its `processedAt`.
use spark_ln_address.Prelude.{
  ◌≢◌, ◌≡◌, refl, sym, ap, ◌∙◌, inl, inr, Bool-cases, Option-cases, true, none, some, is_some, Text,
  text_eq, text_eq_refl, text_eq_sound, ok, arith, >>=-ok,
}
use mathlib.Core.Path.{subst}
use spark_ln_address.Database.{Storage, Db}
use spark_ln_address.Database.Rows.{FlashnetOrder, FlashnetWebhookEvent}
use spark_ln_address.Swap.Webhook.{
  upsert_event, mark_processed, after_update, open_case, recovery_hold, updated_order,
  advance_order, process_order, process_event, find_or_bind, quote_matches, classify_event, follow,
  apply_webhook_event,
}
use spark_ln_address.Swap.StateMachine.{TransitionDecision, apply, noop, skip}
use spark_ln_address.Swap.Payload.{
  FlashnetWebhookPayload, Stamps, same_event, recovery_reason, recovery_required, order_failed,
}
use spark_ln_address.Swap.Webhook.Decision.{is_terminal}
use spark_ln_address.Swap.Webhook.Writes.{open_case_keeps}

module _ (S : Storage) (p : FlashnetWebhookPayload) where
  -- The unique index of the events: at most one row has the event's order id, name and timestamp.
  abbrev pub HasOneEvent : Db S → Type 0
  HasOneEvent db =
      (k k' : Text) (e e' : FlashnetWebhookEvent)
      → S.events.get k db.events ≡ some e
      → S.events.get k' db.events ≡ some e'
      → same_event p e ≡ true
      → same_event p e' ≡ true
      → k ≡ k'

  -- Every row of the event stands under one key.
  abbrev OnlyAt : Text → Db S → Type 0
  OnlyAt id db =
      (k : Text) (e : FlashnetWebhookEvent)
      → S.events.get k db.events ≡ some e
      → same_event p e ≡ true
      → id ≡ k

  abbrev processed : Stamps → FlashnetWebhookEvent → FlashnetWebhookEvent
  processed st e = record e { processed_at = some st.now }

  -- The row of the event is marked, and no other one changes.
  abbrev Marks : Stamps → FlashnetWebhookEvent → Db S → Db S → Type 0
  Marks st e db db' = db'.events ≡ S.events.put (processed st e) db.events

  after_update-Marks :
      (st : Stamps) (e : FlashnetWebhookEvent) (o o' : FlashnetOrder S.Money) (db db' : Db S)
      → after_update S p st e o db o' ≡ ok db'
      → Marks st e db db'
  unfolding after_update mark_processed
  after_update-Marks st e o o' db db' h = elim (Bool-cases (text_eq p.event order_failed)) [
    | inl y ↦ (open_case_keeps S _ st o _ db' (rw y at h)).1
    | inr y ↦ ground (arith, rw y at h)
  ]

  follow-Marks :
      (st : Stamps) (e : FlashnetWebhookEvent) (o : FlashnetOrder S.Money) (db db' : Db S)
      (d : TransitionDecision)
      → follow S p st e o db d ≡ ok db'
      → Marks st e db db'
  unfolding mark_processed advance_order
  follow-Marks st e o db db' (apply next) h =
      let (o', u, h1) = >>=-ok (updated_order S p next o) (after_update S p st e o db) h in
      after_update-Marks st e o o' db db' h1
  follow-Marks st e o db db' noop h = ground arith
  follow-Marks st e o db db' (skip l) h = ground arith

  recovery_hold-Marks :
      (st : Stamps) (e : FlashnetWebhookEvent) (o : FlashnetOrder S.Money) (db db' : Db S)
      → recovery_hold S st e o db ≡ ok db'
      → Marks st e db db'
  unfolding recovery_hold mark_processed
  recovery_hold-Marks st e o db db' h = elim (Bool-cases (is_terminal o.status)) [
    | inl y ↦ ground (arith, rw y at h)
    | inr y ↦
        let (db1, q, h1) =
          >>=-ok (open_case S recovery_reason st o db) (λ d. ok (mark_processed S st e d))
            (rw y at h) in
        ground (arith, open_case_keeps S recovery_reason st o db db1 q, h1)
  ]

  process_order-Marks :
      (st : Stamps) (e : FlashnetWebhookEvent) (o : FlashnetOrder S.Money) (db db' : Db S)
      → process_order S p st e o db ≡ ok db'
      → Marks st e db db'
  unfolding process_order
  process_order-Marks st e o db db' h = elim (Bool-cases (text_eq p.event recovery_required)) [
    | inl y ↦ recovery_hold-Marks st e o db db' (rw y at h)
    | inr y ↦
        let (d, q, h1) = >>=-ok (classify_event S p o) (follow S p st e o db) (rw y at h) in
        follow-Marks st e o db db' d h1
  ]

  find_or_bind_events : (db : Db S) → (find_or_bind S p db).1.events ≡ db.events
  unfolding find_or_bind
  find_or_bind_events db = ground arith

  process_event-Marks :
      (st : Stamps) (e : FlashnetWebhookEvent) (db db' : Db S)
      → (find_or_bind S p db).0 ≢ none
      → process_event S p st e db ≡ ok db'
      → Marks st e db db'
  unfolding process_event
  process_event-Marks st e db db' some_order h = elim (Option-cases (find_or_bind S p db).0) [
    | inl n ↦ absurd (some_order n)
    | inr (o, f) ↦ elim (Bool-cases (quote_matches S p o)) [
      | inr y ↦ absurd (cc (rw (process_event, f, y) at h))
      | inl y ↦
          process_order-Marks st e o (find_or_bind S p db).1 db' (rw (process_event, f, y) at h)
          ∙ ap (S.events.put (processed st e)) (find_or_bind_events db)
    ]
  ]

  -- A stored row of the event that is marked makes the next delivery return at once.
  marked_noop :
      (e : FlashnetWebhookEvent) (st : Stamps) (db : Db S)
      → S.events.get e.id db.events ≡ some e
      → same_event p e ≡ true
      → is_some e.processed_at ≡ true
      → OnlyAt e.id db
      → apply_webhook_event S p st db ≡ ok db
  unfolding apply_webhook_event upsert_event
  marked_noop e st db stored same marked only =
      elim (Option-cases (S.events.find (same_event p) db.events)) [
        | inl n ↦
            absurd (cc (S.events.find_complete (same_event p) db.events e.id e n stored, same))
        | inr (q, f) ↦
            let (same_q, at_q) = S.events.find_sound (same_event p) db.events q f in
            let one : e.id ≡ q.id = only q.id q at_q same_q in
            let row : q ≡ e = cc (rw (← one) at at_q, stored) in
            rw (apply_webhook_event, upsert_event, f, row, marked) refl
      ]

  -- What the upsert gives: a row of the event, stored, and the only one.
  abbrev Upserted : FlashnetWebhookEvent → Db S → Type 0
  Upserted e db = (same_event p e ≡ true) × (S.events.get e.id db.events ≡ some e) × OnlyAt e.id db

  new_event-Upserted :
      (e : FlashnetWebhookEvent) (db db' : Db S)
      → same_event p e ≡ true
      → S.events.find (same_event p) db.events ≡ none
      → db'.events ≡ S.events.put e db.events
      → Upserted e db'
  new_event-Upserted e db db' same f put = (
    same,
    rw put (S.events.get-put e.id e db.events ∙ rw (text_eq_refl e.id) refl),
    λ k x at_x same_x. elim (Bool-cases (text_eq e.id k)) [
      | inl y ↦ text_eq_sound e.id k y
      | inr y ↦
          let old = rw (put, S.events.get-put k e db.events, y) at at_x in
          absurd (cc (S.events.find_complete (same_event p) db.events k x f old, same_x))
    ],
  )

  upsert_event-Upserted :
      (st : Stamps) (db : Db S)
      → HasOneEvent db
      → Upserted (upsert_event S p st db).0 (upsert_event S p st db).1
  unfolding upsert_event
  upsert_event-Upserted st db one = elim (Option-cases (S.events.find (same_event p) db.events)) [
    | inr (q, f) ↦
        let (same_q, at_q) = S.events.find_sound (same_event p) db.events q f in
        rw (upsert_event, f)
          (same_q, at_q, λ k x at_x same_x. one q.id k q x at_q at_x same_q same_x)
    | inl f ↦
        rw (upsert_event, f)
          (new_event-Upserted _ db (record db { events = S.events.put _ db.events })
            (ground (arith, text_eq_refl p.info.id, text_eq_refl p.event)) f refl)
  ]

  -- A row of the event that is marked stays the only one.
  Marks-OnlyAt :
      (st : Stamps) (e : FlashnetWebhookEvent) (db db' : Db S)
      → Marks st e db db'
      → OnlyAt e.id db
      → OnlyAt e.id db'
  Marks-OnlyAt st e db db' put only k x at_x same_x = elim (Bool-cases (text_eq e.id k)) [
    | inl y ↦ text_eq_sound e.id k y
    | inr y ↦ only k x (rw (put, S.events.get-put k (processed st e) db.events, y) at at_x) same_x
  ]

  OnlyAt-HasOneEvent : (id : Text) (db : Db S) → OnlyAt id db → HasOneEvent db
  OnlyAt-HasOneEvent id db only k k' e e' at_e at_e' same same' =
      sym (only k e at_e same) ∙ only k' e' at_e' same'

  -- Where the event has at most one row and its order is found, a webhook event that is applied
  -- without an error still has at most one row, and applying it again, at any time, leaves the
  -- database as it is.
  pub redelivery_noop :
      (st st' : Stamps) (db db' : Db S)
      → HasOneEvent db
      → (find_or_bind S p (upsert_event S p st db).1).0 ≢ none
      → apply_webhook_event S p st db ≡ ok db'
      → HasOneEvent db' × (apply_webhook_event S p st' db' ≡ ok db')
  unfolding apply_webhook_event
  redelivery_noop st st' db db' one some_order h =
      let (e, db1) = upsert_event S p st db in
      let (same, stored, only) = upsert_event-Upserted st db one in
      elim (Bool-cases (is_some e.processed_at)) [
        | inl y ↦
            let unchanged : db1 ≡ db' = cc (rw (apply_webhook_event, y) at h) in
            subst (λ d. HasOneEvent d × (apply_webhook_event S p st' d ≡ ok d)) unchanged
              (OnlyAt-HasOneEvent e.id db1 only, marked_noop e st' db1 stored same y only)
        | inr y ↦
            let put =
              process_event-Marks st e db1 db' some_order (rw (apply_webhook_event, y) at h) in
            let only' = Marks-OnlyAt st e db1 db' put only in
            let kept : S.events.get e.id db'.events ≡ some (processed st e) =
              rw put
                (S.events.get-put e.id (processed st e) db1.events ∙ rw (text_eq_refl e.id) refl) in
            (
              OnlyAt-HasOneEvent e.id db' only',
              marked_noop (processed st e) st' db' kept same refl only',
            )
      ]
