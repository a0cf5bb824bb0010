-- ===== src/Swap/Webhook/Orders.antt =====
-- What one webhook event does to the orders.
use spark_ln_address.Prelude.{
  ◌≡◌, refl, sym, if◌then◌else◌, ◌⊎◌, inl, inr, Bool-cases, Option, none, some, is_some, Text,
  text_eq, ok, err, arith, text_eq_sound,
}
use mathlib.Core.Path.{subst}
use spark_ln_address.Database.{Storage, Db}
use spark_ln_address.Database.Rows.{FlashnetOrder, FlashnetWebhookEvent}
use spark_ln_address.Swap.Status.{FlashnetOrderStatus}
use spark_ln_address.Swap.Webhook.{
  upsert_event, find_or_bind, updated_order, process_order, process_event, apply_webhook_event,
  quote_matches,
}
use spark_ln_address.Swap.Payload.{FlashnetWebhookPayload, Stamps, quote_mismatch}
use spark_ln_address.Swap.Webhook.Decision.{◌⟿◌}
use spark_ln_address.Swap.Webhook.Writes.{Filed, updated_order_fields, process_order-Writes}
use spark_ln_address.Swap.Webhook.Lookup.{
  Kept, find_or_bind_found, find_or_bind_rows, upsert_event_keeps, find_or_bind-cases,
}

module _ (S : Storage) where
  module _ (p : FlashnetWebhookPayload) where
    module _ (st : Stamps) (before after : S.cases.Rows) where
      -- What an event may do to one order: its identity stays, it is bound to the order id of the
      -- event at most once, and its status stays or is moved as the state machine allows.
      pub record OrderStep (o o' : FlashnetOrder S.Money) : Type 0 where
        pub identity : (o'.id ≡ o.id) × (o'.invoice_id ≡ o.invoice_id) × (o'.quote_id ≡ o.quote_id)
        pub binding :
            (o'.order_id ≡ o.order_id) ⊎ ((o.order_id ≡ none) × (o'.order_id ≡ some p.info.id))
        pub status :
            (o'.status ≡ o.status)
            ⊎ ((next : FlashnetOrderStatus) × (o'.status ≡ some next)
                × (o.status ⟿ next)
                × Filed S p st before after o.invoice_id next)

      OrderStep-refl : (o : FlashnetOrder S.Money) → OrderStep o o
      OrderStep-refl o = record {
        identity = (refl, refl, refl);
        binding = inl refl;
        status = inl refl;
      }

      Kept-OrderStep : (o o' : FlashnetOrder S.Money) → Kept S p o o' → OrderStep o o'
      Kept-OrderStep o o' (inl e) = subst (OrderStep o) (sym e) (OrderStep-refl o)
      Kept-OrderStep o o' (inr (n, e)) =
          subst (OrderStep o) (sym e)
            (record { identity = (refl, refl, refl); binding = inr (n, refl); status = inl refl })

      -- The row that processing writes, after the lookup.
      written-OrderStep :
          (o q q' : FlashnetOrder S.Money) (next : FlashnetOrderStatus)
          → Kept S p o q
          → updated_order S p next q ≡ ok q'
          → q.status ⟿ next
          → Filed S p st before after q.invoice_id next
          → OrderStep o q'
      written-OrderStep o q q' next kept u m f =
          let (i, v, w, b, s) = updated_order_fields S p next q q' u in
          let old : q.status ≡ o.status = ground arith in
          let same_invoice : q.invoice_id ≡ o.invoice_id = ground arith in
          record {
            identity = ground arith;
            binding = ground arith;
            status = inr (
              next,
              s,
              subst (λ t. t ⟿ next) old m,
              subst (λ t. Filed S p st before after t next) same_invoice f,
            );
          }

      process_order_steps :
          (e : FlashnetWebhookEvent) (q o o1 : FlashnetOrder S.Money) (k : Text) (db db' : Db S)
          → S.orders.get q.id db.orders ≡ some q
          → S.orders.get k db.orders ≡ some o1
          → Kept S p o o1
          → db.cases ≡ before
          → db'.cases ≡ after
          → process_order S p st e q db ≡ ok db'
          → (o' : FlashnetOrder S.Money) × (S.orders.get k db'.orders ≡ some o') × OrderStep o o'
      process_order_steps e q o o1 k db db' at_q g kept b a h =
          elim (process_order-Writes S p st e q db db' h) [
            | inl same ↦ (o1, ground (arith, same), Kept-OrderStep o o1 kept)
            | inr (q', next, put, u, m, filed) ↦
                let fields = updated_order_fields S p next q q' u in
                elim (Bool-cases (text_eq q.id k)) [
                  | inl y ↦
                      let same : q ≡ o1 = ground (arith, text_eq_sound q.id k y) in
                      (
                        q',
                        ground (arith, S.orders.get-put k q' db.orders),
                        written-OrderStep o q q' next (subst (Kept S p o) (sym same) kept) u m
                            (rw (← b, ← a) filed),
                      )
                  | inr y ↦ (
                    o1,
                    ground (arith, S.orders.get-put k q' db.orders),
                    Kept-OrderStep o o1 kept,
                  )
                ]
          ]

      process_event_steps :
          (e : FlashnetWebhookEvent) (db db' : Db S) (k : Text) (o : FlashnetOrder S.Money)
          → S.orders.get k db.orders ≡ some o
          → db.cases ≡ before
          → db'.cases ≡ after
          → process_event S p st e db ≡ ok db'
          → (o' : FlashnetOrder S.Money) × (S.orders.get k db'.orders ≡ some o') × OrderStep o o'
      unfolding process_event
      process_event_steps e db db' k o g b a h =
          go (find_or_bind S p db).0 (find_or_bind S p db).1 refl h
        where
          go :
              (found : Option (FlashnetOrder S.Money)) (db1 : Db S)
              → find_or_bind S p db ≡ (found, db1)
              → (elim found [
                | none ↦ ok db1
                | some q ↦
                    if quote_matches S p q then process_order S p st e q db1 else err quote_mismatch
              ])
                ≡ ok db'
              → (o' : FlashnetOrder S.Money) × (S.orders.get k db'.orders ≡ some o')
                × OrderStep o o'
          go none db1 f r =
              let (o1, g1, kept) = find_or_bind_rows S p db db1 none k o f g in
              (o1, ground arith, Kept-OrderStep o o1 kept)
          go (some q) db1 f r = elim (Bool-cases (quote_matches S p q)) [
            | inr y ↦ absurd (cc (rw y at r))
            | inl y ↦
                let (o1, g1, kept) = find_or_bind_rows S p db db1 (some q) k o f g in
                process_order_steps e q o o1 k db1 db' (find_or_bind_found S p db db1 q f) g1 kept
                  (ground (arith, find_or_bind-cases S p db)) a (rw y at r)
          ]

    -- Where a webhook event is applied without an error, each order stored before it is stored
    -- after it under the same key, with the same id, invoice and quote. Its order id is unchanged,
    -- or it had none and has the event's. Its status is unchanged, or it moved along an edge of
    -- the transition table, from a non-terminal status to a terminal one, or from pending payment
    -- along an edge of processing; and where it moved to failed, the invoice has a refund case
    -- afterwards, if the new case's key was free before.
    pub apply_webhook_event_steps :
        (st : Stamps) (db db' : Db S) (k : Text) (o : FlashnetOrder S.Money)
        → S.orders.get k db.orders ≡ some o
        → apply_webhook_event S p st db ≡ ok db'
        → (o' : FlashnetOrder S.Money) × (S.orders.get k db'.orders ≡ some o')
          × OrderStep st db.cases db'.cases o o'
    unfolding apply_webhook_event
    apply_webhook_event_steps st db db' k o g h =
        let (e, db1) = upsert_event S p st db in
        let kept = upsert_event_keeps S p st db in
        elim (Bool-cases (is_some e.processed_at)) [
          | inl y ↦ (o, ground (arith, kept, rw y at h), OrderStep-refl st db.cases db'.cases o)
          | inr y ↦
              process_event_steps st db.cases db'.cases e db1 db' k o (rw kept.0 g) kept.1 refl
                (rw y at h)
        ]
