-- ===== src/Swap/Reconciler/Advance.antt =====
-- What a batch of the reconciler may do to the stored orders: what a sequence of events may.
use spark_ln_address.Prelude.{
  ◌≡◌, refl, sym, Bool, true, false, Bool-cases, Result-cases, ◌⊎◌, inl, inr, Option, none, some,
  List, [], ◌∷◌, Text, codes, ◌++◌, ok, arith,
}
use mathlib.Core.Path.{subst}
use spark_ln_address.Database.{Storage, Db}
use spark_ln_address.Database.Rows.{FlashnetOrder}
use spark_ln_address.Swap.Status.{FlashnetOrderStatus}
use spark_ln_address.Swap.Payload.{FlashnetWebhookPayload, Stamps, recovery_required}
use spark_ln_address.Swap.Webhook.Decision.{◌⟿◌}
use spark_ln_address.Swap.Webhook.Orders.{OrderStep, apply_webhook_event_steps}
use spark_ln_address.Flashnet.Client.{OrderSnapshot}
use spark_ln_address.Swap.Reconciler.{
  Queue, Cursors, Surroundings, Pause, before_page, before_event, apply_event, apply_recovery,
  apply_snapshot, reconcile_row, reconcile_rows, reconcile_queues, reconcile_batch, needs_recovery,
  snapshot_of, payload_of, page, cursor_of, with_cursor, next_cursor, recent_expiry,
}

-- Any number of moves of the state machine.
infix 40 ◌⟿⋆◌
pub data ◌⟿⋆◌ : Option FlashnetOrderStatus → Option FlashnetOrderStatus → Type 0 where
  stay : {s : Option FlashnetOrderStatus} → s ⟿⋆ s
  onwards :
      {s t : Option FlashnetOrderStatus} {next : FlashnetOrderStatus}
      → s ⟿ next
      → (some next) ⟿⋆ t
      → s ⟿⋆ t

⟿⋆-trans : {s t u : Option FlashnetOrderStatus} → s ⟿⋆ t → t ⟿⋆ u → s ⟿⋆ u
⟿⋆-trans stay later = later
⟿⋆-trans (onwards m first) later = onwards m (⟿⋆-trans first later)

module _ (S : Storage) where
  -- The identity of an order stays, its order id is set at most once, and its status moves along
  -- the state machine.
  pub record Advances (o o' : FlashnetOrder S.Money) : Type 0 where
    pub identity : (o'.id ≡ o.id) × (o'.invoice_id ≡ o.invoice_id) × (o'.quote_id ≡ o.quote_id)
    pub binding : (o'.order_id ≡ o.order_id) ⊎ (o.order_id ≡ none)
    pub status : o.status ⟿⋆ o'.status

  Advances-refl : (o : FlashnetOrder S.Money) → Advances o o
  Advances-refl o = record { identity = (refl, refl, refl); binding = inl refl; status = stay }

  Advances-trans : (o p q : FlashnetOrder S.Money) → Advances o p → Advances p q → Advances o q
  Advances-trans o p q a b = record {
    identity = ground (arith, a.identity, b.identity);
    binding = ground (arith, a.binding, b.binding);
    status = ⟿⋆-trans a.status b.status;
  }

  OrderStep-Advances :
      (p : FlashnetWebhookPayload) (st : Stamps) (before after : S.cases.Rows)
      (o o' : FlashnetOrder S.Money)
      → OrderStep S p st before after o o'
      → Advances o o'
  OrderStep-Advances p st before after o o' step = record {
    identity = step.identity;
    binding = ground (arith, step.binding);
    status = elim step.status [
      | inl same ↦ subst (λ s. o.status ⟿⋆ s) (sym same) stay
      | inr (next, e, m, filed) ↦ subst (λ s. o.status ⟿⋆ s) (sym e) (onwards m stay)
    ];
  }

  -- Every order of the one state is in the other, and has advanced.
  pub Advanced : Db S → Db S → Type 0
  Advanced db db' =
      (k : Text) (o : FlashnetOrder S.Money)
      → S.orders.get k db.orders ≡ some o
      → (o' : FlashnetOrder S.Money) × (S.orders.get k db'.orders ≡ some o') × Advances o o'

  pub Advanced-refl : (db : Db S) → Advanced db db
  unfolding Advanced
  Advanced-refl db k o g = (o, g, Advances-refl o)

  Advanced-trans : (a b c : Db S) → Advanced a b → Advanced b c → Advanced a c
  unfolding Advanced
  Advanced-trans a b c f g k o at =
      let (p, at_p, first) = f k o at in
      let (q, at_q, second) = g k p at_p in (q, at_q, Advances-trans o p q first second)

  -- The other requests leave every order stored, and advance it.
  module _ (around : Surroundings) (meanwhile : Pause → Db S → Db S)
      (others : (pause : Pause) (db : Db S) → Advanced db (meanwhile pause db)) where
    apply_event-Advanced :
        (row : FlashnetOrder S.Money) (event : Text) (snapshot : OrderSnapshot) (db db' : Db S)
        → apply_event S around meanwhile row event snapshot db ≡ ok db'
        → Advanced db db'
    unfolding apply_event Advanced
    apply_event-Advanced row event snapshot db db' h k o g =
        let payload = payload_of S around meanwhile event snapshot in
        let (o', at, step) =
          apply_webhook_event_steps S payload (around.draw row.id event) db db' k o g h in
        (o', at, OrderStep-Advances payload (around.draw row.id event) db.cases db'.cases o o' step)

    apply_recovery-Advanced :
        (row : FlashnetOrder S.Money) (snapshot : OrderSnapshot) (db : Db S)
        → Advanced db (apply_recovery S around meanwhile row snapshot db)
    unfolding apply_recovery
    apply_recovery-Advanced row snapshot db =
        let pause = before_event row.id recovery_required in
        let seen = meanwhile pause db in
        elim (Bool-cases (needs_recovery S around meanwhile snapshot)) [
          | inr e ↦ rw e (Advanced-refl db)
          | inl e ↦
              elim (Result-cases
                (apply_event S around meanwhile row recovery_required snapshot seen)) [
                  | inl (db', f) ↦
                      rw (e, f)
                        (Advanced-trans db seen db' (others pause db)
                          (apply_event-Advanced row recovery_required snapshot seen db' f))
                  | inr (r, f) ↦ rw (e, f) (others pause db)
                ]
        ]

    apply_snapshot-Advanced :
        (row : FlashnetOrder S.Money) (snapshot : OrderSnapshot) (db : Db S)
        → Advanced db (apply_snapshot S around meanwhile row snapshot db)
    unfolding apply_snapshot
    apply_snapshot-Advanced row snapshot db =
        let event = codes "order." ++ snapshot.status in
        let pause = before_event row.id event in
        let seen = meanwhile pause db in
        elim (Result-cases (apply_event S around meanwhile row event snapshot seen)) [
          | inr (r, e) ↦ rw (apply_snapshot, e) (others pause db)
          | inl (db', e) ↦
              rw (apply_snapshot, e)
                (Advanced-trans db seen (apply_recovery S around meanwhile row snapshot db')
                  (others pause db)
                  (Advanced-trans seen db' (apply_recovery S around meanwhile row snapshot db')
                    (apply_event-Advanced row event snapshot seen db' e)
                    (apply_recovery-Advanced row snapshot db')))
        ]

    reconcile_row-Advanced :
        (row : FlashnetOrder S.Money) (db : Db S)
        → Advanced db (reconcile_row S around meanwhile row db)
    unfolding reconcile_row
    reconcile_row-Advanced row db = elim (Result-cases (snapshot_of S around meanwhile row)) [
      | inr (r, e) ↦ rw (reconcile_row, e) (Advanced-refl db)
      | inl (none, e) ↦ rw (reconcile_row, e) (Advanced-refl db)
      | inl (some snapshot, e) ↦ rw (reconcile_row, e) (apply_snapshot-Advanced row snapshot db)
    ]

    reconcile_rows-Advanced :
        (rows : List (FlashnetOrder S.Money)) (db : Db S)
        → Advanced db (reconcile_rows S around meanwhile rows db).1
    unfolding reconcile_rows
    reconcile_rows-Advanced [] db = Advanced-refl db
    reconcile_rows-Advanced (row ∷ rows) db = elim (Bool-cases (around.aborted row.id)) [
      | inl e ↦ rw e (Advanced-refl db)
      | inr e ↦
          let next = reconcile_row S around meanwhile row db in
          rw e (
            Advanced-trans db next (reconcile_rows S around meanwhile rows next).1
              (reconcile_row-Advanced row db) (reconcile_rows-Advanced rows next))
    ]

    reconcile_queues-Advanced :
        (queues : List Queue) (cursors : Cursors) (db : Db S)
        → Advanced db (reconcile_queues S around meanwhile queues cursors db).1
    unfolding reconcile_queues
    reconcile_queues-Advanced [] cursors db = Advanced-refl db
    reconcile_queues-Advanced (queue ∷ queues) cursors db =
        let pause = before_page queue in
        let seen = meanwhile pause db in
        let rows = page S queue (cursor_of queue cursors) (recent_expiry around) seen in
        let moved = with_cursor queue (next_cursor S queue rows) cursors in
        let run = reconcile_rows S around meanwhile rows seen in
        let first =
          Advanced-trans db seen run.1 (others pause db) (reconcile_rows-Advanced rows seen) in
        elim (Bool-cases run.0) [
          | inl e ↦ rw e first
          | inr e ↦ rw e (
              Advanced-trans db run.1 (reconcile_queues S around meanwhile queues moved run.1).1
                first (reconcile_queues-Advanced queues moved run.1))
        ]

    -- Every order that is stored before a batch of the reconciler is stored after it under the
    -- same key, with the same id, invoice and quote; its order id is unchanged or was not set
    -- before, and its status has gone through any number of moves of the state machine, whatever
    -- Flashnet answers, wherever a shutdown stops the batch, and whatever other requests write
    -- while it awaits, if they keep and advance the orders in the same way.
    pub reconcile_batch_steps :
        (running : Bool) (cursors : Cursors) (db : Db S) (k : Text) (o : FlashnetOrder S.Money)
        → S.orders.get k db.orders ≡ some o
        → (o' : FlashnetOrder S.Money) × (S.orders.get k
              (reconcile_batch S around meanwhile running cursors db).1.orders
            ≡ some o')
          × Advances o o'
    unfolding reconcile_batch Advanced
    reconcile_batch_steps true cursors db k o g = (o, g, Advances-refl o)
    reconcile_batch_steps false cursors db k o g = reconcile_queues-Advanced _ cursors db k o g
