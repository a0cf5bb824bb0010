-- ===== src/Swap/Webhook/Terminal.antt =====
-- Orders whose status is terminal.
use spark_ln_address.Prelude.{◌≡◌, refl, ◌∙◌, true, inl, inr, some, Text, ok}
use spark_ln_address.Database.{Storage, Db}
use spark_ln_address.Database.Rows.{FlashnetOrder}
use spark_ln_address.Swap.Status.{FlashnetOrderStatus, has, delivered, failed, expired, refunded}
use spark_ln_address.Swap.Payload.{FlashnetWebhookPayload, Stamps}
use spark_ln_address.Swap.Webhook.{apply_webhook_event}
use spark_ln_address.Swap.Webhook.Decision.{terminal, terminal-⟿}
use spark_ln_address.Swap.Webhook.Orders.{apply_webhook_event_steps}
use spark_ln_address.Swap.StateMachine.Graph.{IsTerminal}

IsTerminal-terminal : (s : FlashnetOrderStatus) → IsTerminal s → has terminal s ≡ true
unfolding has
IsTerminal-terminal delivered t = refl
IsTerminal-terminal failed t = refl
IsTerminal-terminal expired t = refl
IsTerminal-terminal refunded t = refl
IsTerminal-terminal _ t = elim t [ ]

module _ (S : Storage) (p : FlashnetWebhookPayload) where
  -- Where a webhook event is applied without an error, an order whose stored status is delivered,
  -- failed, expired or refunded is stored under its key with that status afterwards, whatever the
  -- event is.
  pub terminal_kept :
      (st : Stamps) (db db' : Db S) (k : Text) (o : FlashnetOrder S.Money) (s : FlashnetOrderStatus)
      → IsTerminal s
      → o.status ≡ some s
      → S.orders.get k db.orders ≡ some o
      → apply_webhook_event S p st db ≡ ok db'
      → (o' : FlashnetOrder S.Money) × (S.orders.get k db'.orders ≡ some o') × (o'.status ≡ some s)
  terminal_kept st db db' k o s t e g h =
      let (o', at, step) = apply_webhook_event_steps S p st db db' k o g h in
      elim step.status [
        | inl kept ↦ (o', at, kept ∙ e)
        | inr (next, moved, m, filed) ↦ absurd (terminal-⟿ s next (IsTerminal-terminal s t) e m)
      ]
