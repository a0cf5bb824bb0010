-- ===== src/Lnurl/Sats.antt =====
-- src/lightspark/lightspark.service.ts and the sats route of src/lnurl/lnurl.controller.ts.
use spark_ln_address.Prelude.{
  ◌>>=◌, ◌>>◌, map_err, ℕ, ◌+◌, ◌*◌, ◌/◌, Bool, false, not, ◌==◌, Option, none, some, Text, codes,
  text_eq, Result, ok, throw_if, or_throw,
}
use spark_ln_address.Database.{Storage, Db}
use spark_ln_address.Database.Rows.{Invoice, usdb, LightningName}
use spark_ln_address.Names.Ledger.{DbError}
use spark_ln_address.Bolt11.{Bech32, bolt11_description_hash}
use spark_ln_address.Swap.Quote.{insert_invoice}

-- `createLightningInvoice` of the Spark SDK: the encoded invoice, or the message of the error.
-- The arguments are the receiver's key, the amount in sats and the description hash.
pub record SparkWallet : Type 0 where
  pub create_lightning_invoice : Text → ℕ → Text → Result Text Text

-- `mismatch_logged` says that an error was logged: the invoice lacks the hash.
pub record InvoiceResult : Type 0 where
  pub bolt11 : Text
  pub expires_at : ℕ
  pub mismatch_logged : Bool

abbrev pub carries_hash : Option Text → Text → Bool
carries_hash none hash = false
carries_hash (some found) hash = text_eq found hash

-- The wallet is `none` until the SDK has initialised it. An error is its message.
unfoldable pub create_invoice :
    Bech32 → Option SparkWallet → Text → ℕ → Text → ℕ → Result Text InvoiceResult
create_invoice bech32 wallet key amount_msat description_hash now = do
  ready ← or_throw wallet (codes "Spark wallet not initialized")
  throw_if (amount_msat / 1000 == 0) (codes "Amount must be at least 1000 msat (1 sat)")
  encoded ← ready.create_lightning_invoice key (amount_msat / 1000) description_hash
  ok (record {
    bolt11 = encoded;
    expires_at = now + 24 * 60 * 60 * 1000;
    mismatch_logged = not (carries_hash (bolt11_description_hash bech32 encoded) description_hash);
  })

-- What the sats route takes from outside: the wallet, the clock, the new row's id, and the messages
-- of database errors.
pub record SatsIssuer : Type 0 where
  pub bech32 : Bech32
  pub wallet : Option SparkWallet
  pub now : ℕ
  pub id : Text
  pub message_of : DbError → Text

-- The row of `LnurlService.createInvoice`; the columns that it does not name have the defaults of
-- the schema.
abbrev pub sats_invoice : Text → Text → ℕ → InvoiceResult → Invoice
sats_invoice id username_id amount_msat result = record {
  id = id;
  username_id = username_id;
  amount_msat = amount_msat;
  bolt11 = result.bolt11;
  expires_at = result.expires_at;
  status = codes "pending";
  receiving_currency = usdb;
  destination_spark_address = none;
}

module _ (S : Storage) where
  -- The invoice's bolt11, and the state in which it is stored.
  unfoldable pub issue_sats_bolt11 :
      SatsIssuer → LightningName → ℕ → Text → Db S → Result Text (Text × Db S)
  issue_sats_bolt11 issuer name amount_msat description_hash db = do
    result ←
        create_invoice issuer.bech32 issuer.wallet name.linking_pub_key_hex amount_msat
          description_hash issuer.now
    db' ←
        map_err issuer.message_of
          (insert_invoice S (sats_invoice issuer.id name.id amount_msat result) db)
    ok (result.bolt11, db')
