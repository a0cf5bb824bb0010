-- ===== src/Lnurl/Callback.antt =====
-- src/lnurl/lnurl.controller.ts, `handleLnurlCallback`: an invoice by the USDB route, and by the
-- sats route where that one fails. Log lines are left out.
pub mod Routes
pub mod Served
pub mod Hashes
pub mod Origin
use spark_ln_address.Prelude.{
  ◌>>=◌, ◌>>◌, map_err, ℕ, ◌/◌, Bool, true, false, ◌&&◌, if◌then◌else◌, Option, none, some,
  get_or_else, Text, codes, text_eq, is_empty, Result, ok, err, throw_if,
}
use spark_ln_address.Auth.Crypto.{Crypto}
use spark_ln_address.Account.Terms.{Config}
use spark_ln_address.Database.{Storage, Db}
use spark_ln_address.Database.Rows.{LightningName, User, sats, usdb}
use spark_ln_address.Spark.{Bech32m, SparkError, encode_spark_address}
use spark_ln_address.Flashnet.Quote.{Checker}
use spark_ln_address.Flashnet.Client.{Network, ClientConfig}
use spark_ln_address.Swap.Quote.{
  QuoteError, QuoteStamps, InitiateLightningQuoteParams, initiate_lightning_quote,
}
use spark_ln_address.Lnurl.{
  LnurlError, no_public_key, callback_amount, find_active_lightning_name_with_user,
  description_hash_for,
}
use spark_ln_address.Lnurl.Sats.{SatsIssuer, issue_sats_bolt11}

-- The answer with status 200: an invoice, or the error of LUD-06.
pub data CallbackAnswer : Type 0 where
  invoice error_answer : Text → CallbackAnswer

-- Why the USDB route fails, before the fallback.
pub data UsdbFailure : Type 0 where
  spark : SparkError → UsdbFailure
  quote : QuoteError → UsdbFailure

-- Everything outside that the two routes take: settings, libraries, the network and the wallet.
pub record Outside : Type 0 where
  pub config : Config
  pub usdb_enabled : Option Text
  pub spark_network : Option Text
  pub crypto : Crypto
  pub bech32m : Bech32m
  pub network : Network
  pub client : ClientConfig
  pub checker : Checker
  pub issuer : SatsIssuer

-- What the request draws: the key that `createId` makes, and what the clock and the database give.
pub record Draws : Type 0 where
  pub idempotency_key : Text
  pub stamps : QuoteStamps

-- The state of the database at each of the awaits.
pub record Moments (S : Storage) : Type 0 where
  pub lookup : Db S
  pub replay : Db S
  pub quote : Db S
  pub sats : Db S

abbrev pub prefers_usdb : User → Bool
prefers_usdb user = elim user.default_receiving_currency [ usdb ↦ true | sats ↦ false ]

abbrev is_on : Option Text → Bool
is_on none = false
is_on (some t) = text_eq t (codes "true")

-- The kill switch and the user's preference.
abbrev pub use_usdb_route : Outside → User → Bool
use_usdb_route outside user = is_on outside.usdb_enabled && prefers_usdb user

abbrev pub quote_params : Draws → LightningName → ℕ → Text → Text → InitiateLightningQuoteParams
quote_params draws name amount_msat description_hash recipient = record {
  idempotency_key = draws.idempotency_key;
  amount_sats = amount_msat / 1000;
  amount_msat = amount_msat;
  recipient_spark_address = recipient;
  lightning_name_id = name.id;
  description_hash = description_hash;
}

module _ (S : Storage) (outside : Outside) where
  unfoldable pub handle_usdb_callback :
      Draws → LightningName → ℕ → Text → Moments S → Result UsdbFailure (Text × Db S)
  handle_usdb_callback draws name amount_msat description_hash at = do
    let spark_network = get_or_else outside.spark_network (codes "MAINNET")
    recipient ←
        map_err spark (encode_spark_address outside.bech32m name.linking_pub_key_hex spark_network)
    result ← map_err quote (
        initiate_lightning_quote S outside.network outside.client outside.checker
          (quote_params draws name amount_msat description_hash recipient) draws.stamps at.replay
          at.quote)
    ok (result.0.bolt11, result.1)

  -- A failure of the sats route is an answer too, and leaves the state.
  abbrev pub sats_answer : Db S → Result Text (Text × Db S) → CallbackAnswer × Db S
  sats_answer db (ok (bolt11, db')) = (invoice bolt11, db')
  sats_answer db (err reason) = (error_answer reason, db)

  unfoldable pub answer_by_sats : LightningName → ℕ → Text → Moments S → CallbackAnswer × Db S
  answer_by_sats name amount_msat description_hash at =
      sats_answer at.sats
        (issue_sats_bolt11 S outside.issuer name amount_msat description_hash at.sats)

  unfoldable pub answer_by_usdb :
      Draws → LightningName → ℕ → Text → Moments S → CallbackAnswer × Db S
  answer_by_usdb draws name amount_msat description_hash at =
      elim (handle_usdb_callback draws name amount_msat description_hash at) [
        | ok (bolt11, db) ↦ (invoice bolt11, db)
        | err failure ↦ answer_by_sats name amount_msat description_hash at
      ]

  -- The answer once the hash of the metadata is known, or is not to be had.
  unfoldable pub answer_with_hash :
      Draws → LightningName × User → ℕ → Moments S → Result LnurlError Text → CallbackAnswer × Db S
  answer_with_hash draws found amount_msat at (err e) =
      (error_answer (codes "Service unavailable"), at.lookup)
  answer_with_hash draws found amount_msat at (ok hash) =
      if use_usdb_route outside found.1
      then answer_by_usdb draws found.0 amount_msat hash at
      else answer_by_sats found.0 amount_msat hash at

  unfoldable pub handle_lnurl_callback :
      Draws → Text → Text → Moments S → Result LnurlError (CallbackAnswer × Db S)
  handle_lnurl_callback draws raw_username amount at = do
    amount_msat ← callback_amount amount
    found ← find_active_lightning_name_with_user S raw_username at.lookup
    throw_if (is_empty found.0.linking_pub_key_hex) no_public_key
    ok (
        answer_with_hash draws found amount_msat at
          (description_hash_for outside.crypto outside.config found.0.username))
