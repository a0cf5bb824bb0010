-- ===== src/Lnurl/Callback/Origin.antt =====
-- Where the bolt11 of a callback's answer comes from: the recorded quote, the replayed one and the
-- wallet, along each route of the callback.
use spark_ln_address.Prelude.{
  map_err, map_err-ok, ℕ, ◌/◌, ◌≡◌, refl, ap, ◌∙◌, ◌==◌, codes, Bool, true, false, inl, inr,
  Bool-cases, Result-cases, Option-cases, Option, some, Text, Result, ok, err, get_or_else,
  throw_if-ok, or_throw, or_throw-ok, >>=-ok,
}
use spark_ln_address.Database.{Storage, Db}
use spark_ln_address.Database.Rows.{Invoice, LightningName, User}
use spark_ln_address.Names.Normal.{to_lower_case}
use mathlib.Core.Path.{subst}
use spark_ln_address.Spark.{encode_spark_address}
use spark_ln_address.Bolt11.{Bech32, bolt11_description_hash}
use spark_ln_address.Flashnet.{LightningQuoteResponse}
use spark_ln_address.Swap.Quote.{
  recorded_bolt11, insert_invoice, initiate_lightning_quote, answer_quote, settle_quote,
  record_quote, quote_request, invoice_of, flashnet, InitiateLightningQuoteParams,
  InitiateLightningQuoteResult,
}
use spark_ln_address.Swap.Quote.Recorded.{inserted_invoice, record_quote-Recorded}
use spark_ln_address.Lnurl.Sats.{
  sats_invoice, SparkWallet, InvoiceResult, create_invoice, issue_sats_bolt11,
}
use spark_ln_address.Flashnet.Client.{create_lightning_quote}
use spark_ln_address.Lnurl.{LnurlError}
use spark_ln_address.Lnurl.Callback.{
  Outside, Draws, Moments, invoice, answer_with_hash, answer_by_usdb, answer_by_sats,
  handle_usdb_callback, spark, quote, quote_params, use_usdb_route,
}
use spark_ln_address.Flashnet.Client.Checked.{create_lightning_quote_validated, validated_hash}

create_invoice_parts :
    (bech32 : Bech32) (ready : Option SparkWallet) (key : Text) (amount : ℕ) (hash : Text) (now : ℕ)
    (result : InvoiceResult)
    → create_invoice bech32 ready key amount hash now ≡ ok result
    → (wallet : SparkWallet) × (ready ≡ some wallet)
      × (wallet.create_lightning_invoice key (amount / 1000) hash ≡ ok result.bolt11)
unfolding create_invoice
create_invoice_parts bech32 ready key amount hash now result h =
    let (wallet, a, h1) = >>=-ok (or_throw ready (codes "Spark wallet not initialized")) _ h in
    let (fits, h2) = throw_if-ok (amount / 1000 == 0) _ _ result h1 in
    let (encoded, b, h3) = >>=-ok (wallet.create_lightning_invoice key (amount / 1000) hash) _ h2 in
    let same : encoded ≡ result.bolt11 = cc h3 in
    (wallet, or_throw-ok ready _ wallet a, b ∙ ap ok same)

module _ (S : Storage) (outside : Outside) where
  -- An invoice of the bolt11 is stored under the key.
  abbrev pub Stored : Text → Text → Db S → Type 0
  Stored key pr db =
      (row : Invoice) × (S.invoices.get key db.invoices ≡ some row) × (row.bolt11 ≡ pr)

  -- Where the bolt11 of an answer comes from: a quote whose invoice carries the hash, a quote that
  -- was recorded before, or the wallet, which was given the hash. What is new is stored.
  pub data Origin (at : Moments S) (key hash pr : Text) (db' : Db S) : Type 0 where
    quoted :
        bolt11_description_hash outside.checker.bech32 pr ≡ some (to_lower_case hash)
        → Stored key pr db'
        → Origin at key hash pr db'
    replayed :
        (old : Text) → recorded_bolt11 S key old at.replay ≡ some pr → Origin at key hash pr db'
    issued :
        (wallet : SparkWallet) (receiver : Text) (sats : ℕ)
        → outside.issuer.wallet ≡ some wallet
        → wallet.create_lightning_invoice receiver sats hash ≡ ok pr
        → Stored outside.issuer.id pr db'
        → Origin at key hash pr db'

  same_Origin :
      (at : Moments S) (key hash pr pr' : Text) (db db' : Db S)
      → pr ≡ pr'
      → db ≡ db'
      → Origin at key hash pr db
      → Origin at key hash pr' db'
  same_Origin at key hash pr pr' db db' same same_db origin =
      subst (λ d. Origin at key hash pr' d) same_db
        (subst (λ p. Origin at key hash p db) same origin)

  issue_sats_bolt11-Origin :
      (at : Moments S) (key hash pr : Text) (name : LightningName) (amount : ℕ) (db db' : Db S)
      → issue_sats_bolt11 S outside.issuer name amount hash db ≡ ok (pr, db')
      → Origin at key hash pr db'
  unfolding issue_sats_bolt11
  issue_sats_bolt11-Origin at key hash pr name amount db db' h =
      let issuer = outside.issuer in
      let (result, a, h1) =
        >>=-ok
          (create_invoice issuer.bech32 issuer.wallet name.linking_pub_key_hex amount hash
            issuer.now)
          _ h in
      let (db1, d, h2) =
        >>=-ok
          (map_err issuer.message_of
            (insert_invoice S (sats_invoice issuer.id name.id amount result) db))
          _ h1 in
      let (wallet, ready, made) =
        create_invoice_parts issuer.bech32 issuer.wallet name.linking_pub_key_hex amount hash
          issuer.now result a in
      let same : result.bolt11 ≡ pr = cc h2 in
      let same_db : db1 ≡ db' = cc h2 in
      let row = sats_invoice issuer.id name.id amount result in
      let kept = inserted_invoice S row db db1 (map_err-ok issuer.message_of _ db1 d) in
      issued wallet name.linking_pub_key_hex (amount / 1000) ready (made ∙ ap ok same)
        (row, subst (λ d. S.invoices.get issuer.id d.invoices ≡ some row) same_db kept, same)

  recorded_Origin :
      (at : Moments S) (params : InitiateLightningQuoteParams) (row_id hash : Text)
      (response : LightningQuoteResponse) (db db' : Db S)
      (result : InitiateLightningQuoteResult × Db S)
      → bolt11_description_hash outside.checker.bech32 response.deposit_address
        ≡ some (to_lower_case hash)
      → record_quote S params row_id response db ≡ ok db'
      → response.deposit_address ≡ result.0.bolt11
      → db' ≡ result.1
      → Origin at params.idempotency_key hash result.0.bolt11 result.1
  recorded_Origin at params row_id hash response db db' result carries a same same_db =
      let r = record_quote-Recorded S params row_id response db db' a in
      quoted (rw (← same) carries)
        (invoice_of params response, rw (← same_db) r.stored_invoice, same)

  answer_quote-Origin :
      (at : Moments S) (params : InitiateLightningQuoteParams) (row_id hash : Text) (db : Db S)
      (answer : LightningQuoteResponse × Bool) (result : InitiateLightningQuoteResult × Db S)
      → bolt11_description_hash outside.checker.bech32 answer.0.deposit_address
        ≡ some (to_lower_case hash)
      → answer_quote S params row_id at.replay db answer ≡ ok result
      → Origin at params.idempotency_key hash result.0.bolt11 result.1
  unfolding answer_quote settle_quote
  answer_quote-Origin at params row_id hash db (response, false) result carries h =
      let (db', a, h1) = >>=-ok (record_quote S params row_id response db) _ h in
      recorded_Origin at params row_id hash response db db' result carries a (cc h1) (cc h1)
  answer_quote-Origin at params row_id hash db (response, true) result carries h =
      elim (Option-cases
        (recorded_bolt11 S params.idempotency_key response.deposit_address at.replay)) [
          | inl e ↦
              let (db', a, h1) =
                >>=-ok (record_quote S params row_id response db) _ (rw (answer_quote, e) at h) in
              recorded_Origin at params row_id hash response db db' result carries a (cc h1) (cc h1)
          | inr (bolt11, e) ↦
              let same : bolt11 ≡ result.0.bolt11 = cc (rw (answer_quote, e) at h) in
              replayed response.deposit_address (e ∙ ap some same)
        ]

  handle_usdb_callback-Origin :
      (draws : Draws) (at : Moments S) (name : LightningName) (amount : ℕ) (hash pr : Text)
      (db' : Db S)
      → handle_usdb_callback S outside draws name amount hash at ≡ ok (pr, db')
      → Origin at draws.idempotency_key hash pr db'
  unfolding handle_usdb_callback initiate_lightning_quote
  handle_usdb_callback-Origin draws at name amount hash pr db' h =
      let network_name = get_or_else outside.spark_network (codes "MAINNET") in
      let (recipient, a, h1) =
        >>=-ok
          (map_err spark
            (encode_spark_address outside.bech32m name.linking_pub_key_hex network_name))
          _ h in
      let params = quote_params draws name amount hash recipient in
      let (result, b, h2) =
        >>=-ok
          (map_err quote (
            initiate_lightning_quote S outside.network outside.client outside.checker params
              draws.stamps at.replay at.quote))
          _ h1 in
      let (answer, c, h3) =
        >>=-ok
          (map_err flashnet (
            create_lightning_quote outside.network outside.client outside.checker
              (quote_request params) draws.idempotency_key draws.stamps.now draws.stamps.later))
          _ (map_err-ok quote _ result b) in
      let (body, v) =
        create_lightning_quote_validated outside.network outside.client outside.checker
          (quote_request params) draws.idempotency_key draws.stamps.now draws.stamps.later answer
          (map_err-ok flashnet _ answer c) in
      let carries =
        validated_hash outside.network outside.client outside.checker body _ hash _ _ _ answer.0
          refl v in
      let same : result.0.bolt11 ≡ pr = cc h2 in
      same_Origin at draws.idempotency_key hash result.0.bolt11 pr result.1 db' same (cc h2) (
        answer_quote-Origin at params draws.stamps.order_row_id hash at.quote answer result carries
          h3)

  answer_by_sats-Origin :
      (at : Moments S) (key hash pr : Text) (name : LightningName) (amount : ℕ) (db' : Db S)
      → answer_by_sats S outside name amount hash at ≡ (invoice pr, db')
      → Origin at key hash pr db'
  unfolding answer_by_sats
  answer_by_sats-Origin at key hash pr name amount db' h =
      elim (Result-cases (issue_sats_bolt11 S outside.issuer name amount hash at.sats)) [
        | inr (r, e) ↦ absurd (cc (rw (answer_by_sats, e) at h))
        | inl ((bolt11, db1), e) ↦
            let same : bolt11 ≡ pr = cc (rw (answer_by_sats, e) at h) in
            same_Origin at key hash bolt11 pr db1 db' same (cc (rw (answer_by_sats, e) at h))
              (issue_sats_bolt11-Origin at key hash bolt11 name amount at.sats db1 e)
      ]

  answer_by_usdb-Origin :
      (draws : Draws) (at : Moments S) (hash pr : Text) (name : LightningName) (amount : ℕ)
      (db' : Db S)
      → answer_by_usdb S outside draws name amount hash at ≡ (invoice pr, db')
      → Origin at draws.idempotency_key hash pr db'
  unfolding answer_by_usdb
  answer_by_usdb-Origin draws at hash pr name amount db' h =
      elim (Result-cases (handle_usdb_callback S outside draws name amount hash at)) [
        | inr (r, e) ↦
            answer_by_sats-Origin at draws.idempotency_key hash pr name amount db'
              (rw (answer_by_usdb, e) at h)
        | inl ((bolt11, db1), e) ↦
            let same : bolt11 ≡ pr = cc (rw (answer_by_usdb, e) at h) in
            same_Origin at draws.idempotency_key hash bolt11 pr db1 db' same
              (cc (rw (answer_by_usdb, e) at h))
              (handle_usdb_callback-Origin draws at name amount hash bolt11 db1 e)
      ]

  pub answer_with_hash-Origin :
      (draws : Draws) (found : LightningName × User) (amount : ℕ) (at : Moments S)
      (settled : Result LnurlError Text) (pr : Text) (db' : Db S)
      → answer_with_hash S outside draws found amount at settled ≡ (invoice pr, db')
      → (hash : Text) × (settled ≡ ok hash) × Origin at draws.idempotency_key hash pr db'
  unfolding answer_with_hash
  answer_with_hash-Origin draws found amount at (err e) pr db' h = absurd (cc h)
  answer_with_hash-Origin draws found amount at (ok hash) pr db' h =
      elim (Bool-cases (use_usdb_route outside found.1)) [
        | inl e ↦
            (hash, refl, answer_by_usdb-Origin draws at hash pr found.0 amount db' (rw e at h))
        | inr e ↦ (
          hash,
          refl,
          answer_by_sats-Origin at draws.idempotency_key hash pr found.0 amount db' (rw e at h),
        )
      ]
