-- ===== src/Lib.antt =====
-- spark-ln-address: Lightning addresses for Spark wallets. A wallet registers a username by signing
-- a challenge, changes it within a quota, and signs its requests; payments arrive through Flashnet,
-- whose webhooks move an order through a state machine and open a refund case where one fails.
--
-- A method of a service is a function of the state of the database: a query reads it, and a method
-- that writes returns the new one, or an error with which the transaction is rolled back. Where a
-- method awaits several times outside a transaction, each await takes the state that it sees, so
-- that any other request may have written in between: the states are arguments, or `meanwhile` is
-- what the others write (the purge, the reconciler's batch). createRefundCase runs within the
-- webhook's transaction. Each reading of the clock, each drawn key and each drawn challenge is an
-- argument. The status of a stored order is NULL or one of the statuses, as the service writes no
-- other text there.
--
-- - Prelude: Boolean tests, lists, texts and results. A text is the list of its character codes.
-- - Database (prisma/schema.prisma): a row for each model in Rows; Tables is the interface of one
--   table, with the documented behaviour of the Prisma calls as laws; Memory is a table as a list,
--   which meets the laws. MySQL compares names without their case; the model compares codes, which
--   is the same on normalised names and on lower-case hex.
-- - Swap: Status and StateMachine (src/swap/flashnet-order-status.ts,
--   src/swap/swap-state-machine.ts), with StateMachine/Graph on the table as a relation; Payload,
--   what a webhook carries; Webhook (applyWebhookEvent of src/swap/swap.service.ts), with
--   Decision, Writes, Lookup, Orders and Redelivery on what it decides, writes, finds, does to one
--   order and does again, and Terminal on orders that have ended;
--   Units (src/swap/usdb-units.ts); Gate (src/swap/flashnet-webhook.controller.ts,
--   src/swap/webhook-timestamp.ts, and verifyWebhookSignature of
--   src/flashnet/flashnet.service.ts), with Authentic on what it admits.
-- - RefundCase (src/refund-case/refund-case.service.ts), with Opening and Resolution.
-- - Auth: Crypto is what Node and @noble/secp256k1 supply; Secp256k1
--   (src/auth/secp256k1.utils.ts), with Der; Replay and Guard (src/auth/spark-signature.guard.ts),
--   with Memory, Bounds and Once; Purge (src/auth/auth-nonce-purge.service.ts), with Live;
--   InternalOps (src/refund-case/internal-ops.guard.ts), with Token.
-- - Names: Normal (normalizeUsername of src/common/utils.ts), Reserved
--   (src/common/reserved-usernames.ts), with Separators, and Ledger, the writes of a name under
--   the unique indexes, with Uniqueness on what each write keeps.
-- - Account: Registration (src/auth/auth.service.ts and the callback of
--   src/auth/auth.controller.ts), with Binding and Challenge; Username
--   (src/username/username.service.ts), with Ownership and Limit, and Terms for its values;
--   Preference (src/currency-preference/currency-preference.service.ts), with RoundTrip.
-- - Bolt11 (src/common/bolt11-tags.ts, src/common/bolt11-description-hash.ts), with Fields and
--   Ends; Logging (src/common/log-sanitize.ts), with Escapes; Json, the text that JSON.stringify
--   makes of strings; Spark (src/common/spark-address.utils.ts), with Hex and Keys; RateLimit
--   (src/rate-limit), with Buckets.
-- - Flashnet: the values of src/flashnet/flashnet.types.ts; Invoice, Signing and Quote
--   (src/flashnet/lightning-quote-validation.ts), with Amounts, Accepted, RequiredTags and Verified;
--   Client (src/flashnet/flashnet.service.ts), with Quiet and Checked; Selection
--   (src/flashnet/flashnet.module.ts, src/flashnet/flashnet-environment.ts,
--   src/flashnet/flashnet.mock.ts).
-- - Swap/Quote (initiateLightningQuote of src/swap/swap.service.ts), with Recorded;
--   Swap/Reconciler (reconcileBatch of src/swap/quote-reconciler.service.ts), with Pages and
--   Advance.
-- - Lnurl (src/lnurl/lnurl.service.ts, src/lnurl/lnurl-pay-metadata.ts and the metadata endpoint
--   of src/lnurl/lnurl.controller.ts); Sats (src/lightspark/lightspark.service.ts and the sats
--   route); Callback (handleLnurlCallback), with Routes, Served, Origin and
--   Hashes.
-- - Query (src/query/query.service.ts, src/query/query.controller.ts), with Results.
-- - Examples: concrete runs on tables in memory.
--
-- The calls go as in the code: Gate delivers to Webhook, which opens cases through RefundCase;
-- Registration and Username write names through Ledger and ask Names; Guard reads the names.
-- Callback asks Quote for a quote, which Client fetches and Flashnet/Quote checks with the tag
-- reader of Bolt11, and falls back to Sats; Reconciler asks Client for orders and moves them through
-- Webhook.
--
-- Bounds and fuel: the loop over a name's segments runs on the name's length, which it never
-- exceeds; the purge runs on the source's own bound of 1000 batches of 1000 rows. The reader of an
-- invoice's tags runs on the number of its words, and the padding of the words on 8 rounds, both
-- more than are taken. Other loops are structural.
--
-- Numbers of JavaScript are natural numbers here: a clock is in whole milliseconds, and a header
-- that is no such number counts as not a number. Log lines are left out, but for
-- their escaping and their number. Signature verification, hashes, the parsing of JSON, URLs, dates,
-- bech32, decimal arithmetic, the network and the Spark SDK are parameters. Not modelled: the timers
-- of the background jobs, the controllers that only pass requests on, the
-- counting of requests in the rate limiter's library, and the wiring of the framework.
pub mod Prelude
pub mod Database
pub mod Bolt11
pub mod Logging
pub mod Json
pub mod Spark
pub mod RateLimit
pub mod Flashnet
pub mod Lnurl
pub mod Query
pub mod Swap
pub mod Names
pub mod Auth
pub mod RefundCase
pub mod Account
pub mod Examples
