-- ===== src/Swap/Quote/Recorded.antt =====
-- The rows of a recorded quote, and the answer to a replayed one.
use spark_ln_address.Prelude.{
  map_err, map_err-ok, ◌≡◌, refl, sym, ap, ◌∙◌, true, Bool-cases, Option-cases, inl, inr, Option,
  none, some, is_some, Text, text_eq_refl, ok, >>=-ok,
}
use spark_ln_address.Database.{Storage, Db}
use spark_ln_address.Database.Rows.{Invoice, FlashnetOrder}
use spark_ln_address.Swap.Status.{pending_payment}
use spark_ln_address.Flashnet.{LightningQuoteResponse}
use spark_ln_address.Swap.Quote.{
  InitiateLightningQuoteParams, invoice_of, insert_invoice, insert_order, order_of, order_row,
  money_of, optional_money_of, text_column, record_quote, recorded_bolt11, answer_quote, database,
  of_invoice, clashes,
}

module _ (S : Storage) where
  insert_invoice_rows :
      (row : Invoice) (db db' : Db S)
      → insert_invoice S row db ≡ ok db'
      → (S.invoices.get row.id db.invoices ≡ none)
        × (db' ≡ record db { invoices = S.invoices.put row db.invoices })
  unfolding insert_invoice
  insert_invoice_rows row db db' h = elim (Option-cases (S.invoices.get row.id db.invoices)) [
    | inr (old, e) ↦ absurd (cc (rw e at h))
    | inl e ↦ elim (Bool-cases (is_some (S.names.get row.username_id db.names))) [
      | inl f ↦ (e, cc (rw (e, f) at h))
      | inr f ↦ absurd (cc (rw (e, f) at h))
    ]
  ]

  -- An invoice that is inserted is found under its key.
  pub inserted_invoice :
      (row : Invoice) (db db' : Db S)
      → insert_invoice S row db ≡ ok db'
      → S.invoices.get row.id db'.invoices ≡ some row
  inserted_invoice row db db' h =
      let (free, same) = insert_invoice_rows row db db' h in
      let invoices : db'.invoices ≡ S.invoices.put row db.invoices = ap (λ d. d.invoices) same in
      rw invoices (S.invoices.get-put row.id row db.invoices ∙ rw (text_eq_refl row.id) refl)

  insert_order_rows :
      (row : FlashnetOrder S.Money) (db db' : Db S)
      → insert_order S row db ≡ ok db'
      → (S.orders.get row.id db.orders ≡ none)
        × (S.orders.find (clashes S row) db.orders ≡ none)
        × (db' ≡ record db { orders = S.orders.put row db.orders })
  unfolding insert_order
  insert_order_rows row db db' h = elim (Option-cases (S.orders.get row.id db.orders)) [
    | inr (old, e) ↦ absurd (cc (rw e at h))
    | inl e ↦ elim (Option-cases (S.orders.find (clashes S row) db.orders)) [
      | inr (old, f) ↦ absurd (cc (rw (e, f) at h))
      | inl f ↦ elim (Bool-cases (is_some (S.invoices.get row.invoice_id db.invoices))) [
        | inl g ↦ (e, f, cc (rw (e, f, g) at h))
        | inr g ↦ absurd (cc (rw (e, f, g) at h))
      ]
    ]
  ]

  order_row_fields :
      (id invoice_id : Text) (response : LightningQuoteResponse) (estimated : S.Money)
      (locked : Option S.Money) (fee rounding total : S.Money) (mode : Option Text)
      (o : FlashnetOrder S.Money)
      → order_row S id invoice_id response estimated locked fee rounding total mode ≡ o
      → (o.id ≡ id)
        × (o.invoice_id ≡ invoice_id)
        × (o.quote_id ≡ some response.quote_id)
        × (o.order_id ≡ none)
        × (o.status ≡ some pending_payment)
  order_row_fields id invoice_id response estimated locked fee rounding total mode o same = (
    ap (λ q. q.id) (sym same),
    ap (λ q. q.invoice_id) (sym same),
    ap (λ q. q.quote_id) (sym same),
    ap (λ q. q.order_id) (sym same),
    ap (λ q. q.status) (sym same),
  )

  order_of_fields :
      (id invoice_id : Text) (response : LightningQuoteResponse) (o : FlashnetOrder S.Money)
      → order_of S id invoice_id response ≡ ok o
      → (o.id ≡ id)
        × (o.invoice_id ≡ invoice_id)
        × (o.quote_id ≡ some response.quote_id)
        × (o.order_id ≡ none)
        × (o.status ≡ some pending_payment)
  unfolding order_of
  order_of_fields id invoice_id response o h =
      let (estimated, a, h1) = >>=-ok (money_of S response.estimated_out) _ h in
      let (locked, b, h2) = >>=-ok (optional_money_of S response.locked_min_amount_out) _ h1 in
      let (fee, c, h3) = >>=-ok (money_of S response.fee_amount) _ h2 in
      let (rounding, d, h4) = >>=-ok (money_of S response.rounding_fee_amount) _ h3 in
      let (total, e, h5) = >>=-ok (money_of S response.total_fee_amount) _ h4 in
      let (mode, f, h6) = >>=-ok (text_column response.price_lock_mode) _ h5 in
      order_row_fields id invoice_id response estimated locked fee rounding total mode o (cc h6)

  -- What a recorded quote leaves: an invoice and an order, both new, and no row of another order
  -- that would share one of the unique columns.
  pub record Recorded (params : InitiateLightningQuoteParams) (row_id : Text)
      (response : LightningQuoteResponse) (db db' : Db S) : Type 0 where
    pub order : FlashnetOrder S.Money
    pub new_invoice : S.invoices.get params.idempotency_key db.invoices ≡ none
    pub stored_invoice :
        S.invoices.get params.idempotency_key db'.invoices ≡ some (invoice_of params response)
    pub new_order : S.orders.get row_id db.orders ≡ none
    pub unique : S.orders.find (clashes S order) db.orders ≡ none
    pub stored_order : S.orders.get row_id db'.orders ≡ some order
    pub own_invoice : order.invoice_id ≡ params.idempotency_key
    pub own_quote : order.quote_id ≡ some response.quote_id
    pub unbound : order.order_id ≡ none
    pub pending : order.status ≡ some pending_payment

  both_rows :
      (params : InitiateLightningQuoteParams) (row_id : Text) (response : LightningQuoteResponse)
      (db db1 db' : Db S) (o : FlashnetOrder S.Money)
      → insert_invoice S (invoice_of params response) db ≡ ok db1
      → order_of S row_id params.idempotency_key response ≡ ok o
      → insert_order S o db1 ≡ ok db'
      → Recorded params row_id response db db'
  both_rows params row_id response db db1 db' o a b c =
      let row = invoice_of params response in
      let (free, same1) = insert_invoice_rows row db db1 a in
      let (own_id, own_invoice, own_quote, unbound, pending) =
        order_of_fields row_id params.idempotency_key response o b in
      let (fresh, alone, same2) = insert_order_rows o db1 db' c in
      let orders1 : db1.orders ≡ db.orders = ap (λ d. d.orders) same1 in
      let orders2 : db'.orders ≡ S.orders.put o db1.orders = ap (λ d. d.orders) same2 in
      let invoices2 : db'.invoices ≡ db1.invoices = ap (λ d. d.invoices) same2 in
      record {
        order = o;
        new_invoice = free;
        stored_invoice = rw invoices2 (inserted_invoice row db db1 a);
        new_order = rw (← own_id, ← orders1) fresh;
        unique = rw (← orders1) alone;
        stored_order =
            rw (← own_id, orders2)
              (S.orders.get-put o.id o db1.orders ∙ rw (text_eq_refl o.id) refl);
        own_invoice = own_invoice;
        own_quote = own_quote;
        unbound = unbound;
        pending = pending;
      }

  -- Where the transaction that records a quote succeeds, the invoice's key and the order's key
  -- were free, no order shared a unique column with the new one, and both rows are stored: the
  -- invoice with the quote's terms, and an order of that invoice and that quote, pending payment
  -- and with no order id.
  pub record_quote-Recorded :
      (params : InitiateLightningQuoteParams) (row_id : Text) (response : LightningQuoteResponse)
      (db db' : Db S)
      → record_quote S params row_id response db ≡ ok db'
      → Recorded params row_id response db db'
  unfolding record_quote
  record_quote-Recorded params row_id response db db' h =
      let (db1, a, h1) =
        >>=-ok (map_err database (insert_invoice S (invoice_of params response) db)) _ h in
      let (o, b, h2) = >>=-ok (order_of S row_id params.idempotency_key response) _ h1 in
      both_rows params row_id response db db1 db' o (map_err-ok database _ db1 a) b
        (map_err-ok database _ db' h2)

  -- The bolt11 of a recorded quote is found again by its key.
  recorded_bolt11_found :
      (params : InitiateLightningQuoteParams) (row_id old : Text)
      (response : LightningQuoteResponse) (db db' : Db S)
      → Recorded params row_id response db db'
      → recorded_bolt11 S params.idempotency_key old db' ≡ some response.deposit_address
  unfolding recorded_bolt11
  recorded_bolt11_found params row_id old response db db' r =
      let key = params.idempotency_key in
      elim (Option-cases (S.orders.find (of_invoice S key) db'.orders)) [
        | inl e ↦
            let missed =
              S.orders.find_complete (of_invoice S key) db'.orders row_id r.order e
                r.stored_order in
            absurd (cc (rw (r.own_invoice, text_eq_refl key) at missed))
        | inr (o, e) ↦ rw (recorded_bolt11, e, r.stored_invoice) refl
      ]

  -- Once a quote has been recorded, a replayed answer under its key gives the recorded bolt11,
  -- whatever the answer carries, and writes nothing.
  pub replayed_after_recorded :
      (params : InitiateLightningQuoteParams) (row_id row_id' : Text)
      (response response' : LightningQuoteResponse) (db db' now_stored : Db S)
      → record_quote S params row_id response db ≡ ok db'
      → answer_quote S params row_id' db' now_stored (response', true)
        ≡ ok (record { bolt11 = response.deposit_address; replayed = true }, now_stored)
  unfolding answer_quote
  replayed_after_recorded params row_id row_id' response response' db db' now_stored h =
      let found =
        recorded_bolt11_found params row_id response'.deposit_address response db db'
          (record_quote-Recorded params row_id response db db' h) in
      rw (answer_quote, found) refl
