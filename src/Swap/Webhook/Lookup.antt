-- ===== src/Swap/Webhook/Lookup.antt =====
-- The order that an event is about, and how the lookup binds it.
use spark_ln_address.Prelude.{
  ◌≡◌, refl, ap, text_eq_refl, ◌⊎◌, inl, inr, Bool-cases, Option-cases, Option, none, some, Text,
  text_eq, arith, text_eq_sound,
}
use spark_ln_address.Database.{Storage, Db}
use spark_ln_address.Database.Rows.{FlashnetOrder}
use spark_ln_address.Swap.Webhook.{
  upsert_event, find_or_bind, bound, order_by_id, unbound_order, quoted_order,
}
use spark_ln_address.Swap.Payload.{FlashnetWebhookPayload, Stamps, truthy}

module _ (S : Storage) where
  quoted_order_sound :
      (quote : Option Text) (db : Db S) (o : FlashnetOrder S.Money)
      → quoted_order S quote db ≡ some o
      → (o.order_id ≡ none) × (S.orders.get o.id db.orders ≡ some o)
  unfolding quoted_order
  quoted_order_sound none db o h = cc
  quoted_order_sound (some quote) db o h =
      let (q, g) = S.orders.find_sound _ db.orders o h in (ground (arith, q), g)

  module _ (p : FlashnetWebhookPayload) where
    -- The rows after the lookup.
    abbrev pub Kept : FlashnetOrder S.Money → FlashnetOrder S.Money → Type 0
    Kept o o' = (o' ≡ o) ⊎ ((o.order_id ≡ none) × (o' ≡ bound S p o))

    order_by_id_sound :
        (db : Db S) (o : FlashnetOrder S.Money)
        → order_by_id S p db ≡ some o
        → S.orders.get o.id db.orders ≡ some o
    unfolding order_by_id
    order_by_id_sound db o h = (S.orders.find_sound _ db.orders o h).1

    unbound_order_sound :
        (db : Db S) (o : FlashnetOrder S.Money)
        → unbound_order S p db ≡ some o
        → (o.order_id ≡ none) × (S.orders.get o.id db.orders ≡ some o)
    unfolding unbound_order
    unbound_order_sound db o h = quoted_order_sound (truthy p.info.quote_id) db o h

    pub find_or_bind_found :
        (db db' : Db S) (o : FlashnetOrder S.Money)
        → find_or_bind S p db ≡ (some o, db')
        → S.orders.get o.id db'.orders ≡ some o
    unfolding find_or_bind
    find_or_bind_found db db' o h = elim (Option-cases (order_by_id S p db)) [
      | inr (x, e) ↦ ground (arith, order_by_id_sound db x e)
      | inl n ↦ elim (Option-cases (unbound_order S p db)) [
        | inl m ↦ ground arith
        | inr (x, e) ↦
            ground (arith, S.orders.get-put x.id (bound S p x) db.orders, text_eq_refl x.id)
      ]
    ]

    pub find_or_bind_rows :
        (db db' : Db S) (found : Option (FlashnetOrder S.Money)) (k : Text)
        (o : FlashnetOrder S.Money)
        → find_or_bind S p db ≡ (found, db')
        → S.orders.get k db.orders ≡ some o
        → (o' : FlashnetOrder S.Money) × (S.orders.get k db'.orders ≡ some o') × Kept o o'
    unfolding find_or_bind
    find_or_bind_rows db db' found k o h g = elim (Option-cases (order_by_id S p db)) [
      | inr (x, e) ↦ (o, ground arith, inl refl)
      | inl n ↦ elim (Option-cases (unbound_order S p db)) [
        | inl m ↦ (o, ground arith, inl refl)
        | inr (x, e) ↦
            let (free, at_x) = unbound_order_sound db x e in
            elim (Bool-cases (text_eq x.id k)) [
              | inl y ↦
                  let same : x ≡ o = ground (arith, text_eq_sound x.id k y) in
                  (
                    bound S p x,
                    ground (arith, S.orders.get-put k (bound S p x) db.orders),
                    inr (ground arith, ap (bound S p) same),
                  )
              | inr y ↦ (o, ground (arith, S.orders.get-put k (bound S p x) db.orders), inl refl)
            ]
      ]
    ]

    pub upsert_event_keeps :
        (st : Stamps) (db : Db S)
        → ((upsert_event S p st db).1.orders ≡ db.orders)
          × ((upsert_event S p st db).1.cases ≡ db.cases)
    unfolding upsert_event
    upsert_event_keeps st db = ground arith

    pub find_or_bind-cases : (db : Db S) → (find_or_bind S p db).1.cases ≡ db.cases
    unfolding find_or_bind
    find_or_bind-cases db = ground arith
