-- ===== src/Flashnet/Quote.antt =====
-- src/flashnet/lightning-quote-validation.ts: the check of a quote before its invoice is handed to a
-- payer.
pub mod Accepted
pub mod RequiredTags
use spark_ln_address.Prelude.{
  ◌>>=◌, ◌>>◌, ℕ, ◌+◌, ◌*◌, min, Bool, false, not, ◌&&◌, ◌||◌, ltb, leb, ◌==◌, if◌then◌else◌,
  Option, none, some, is_some, List, [], ◌∷◌, all, is_digit, take, length, is_empty, starts_with,
  Text, codes, text_eq, decimal, Result, ok, err, throw_if, or_throw,
}
use spark_ln_address.Names.Normal.{to_lower_case}
use spark_ln_address.RateLimit.{max_safe_integer}
use spark_ln_address.Bolt11.{
  Words, Tags, Bech32, Bolt11Tags, get_tag, read_bolt11_tags, bolt11_timestamp_words,
}
use spark_ln_address.Flashnet.{
  Json, text, natural, missing, number, structure, flag, text_of, natural_of, is_missing, is_truthy,
  QuoteBody, LightningQuoteResponse,
}
use spark_ln_address.Flashnet.Invoice.{prefix_msat, number_of_words}
use spark_ln_address.Flashnet.Signing.{
  Refusal, invalid_quote, description_hash_mismatch, Curve, check_signature,
}

-- `/^\d{1,38}$/`.
abbrev pub is_amount : Text → Bool
is_amount s = not (is_empty s) && leb (length s) 38 && all is_digit s

abbrev pub json_is : Json → Text → Bool
json_is (text t) s = text_eq t s
json_is missing s = false
json_is number s = false
json_is structure s = false
json_is (flag b) s = false
json_is (natural n) s = false

abbrev pub amount_of : Json → Result Refusal Text
amount_of value = do
  t ← or_throw (text_of value) invalid_quote
  throw_if (not (is_amount t)) invalid_quote
  ok t

-- The amount that may be left out. An array that reads as digits is refused here, where the source
-- refuses it at its conversion to a decimal. Where the source's regular expression reads a JSON number as its
-- digits, the text is those digits.
abbrev pub optional_amount : (ℕ → Text) → Json → Result Refusal (Option Text)
optional_amount digits_of value = if is_missing value then ok none else elim (text_of value) [
  | some t ↦ if is_amount t then ok (some t) else err invalid_quote
  | none ↦ elim (natural_of value) [
    | none ↦ err invalid_quote
    | some n ↦ if is_amount (digits_of n) then ok (some (digits_of n)) else err invalid_quote
  ]
]

-- The parts of a route, if they are all strings.
unfoldable pub texts_of : List Json → Option (List Text)
texts_of [] = some []
texts_of (v ∷ vs) =
    let rest = texts_of vs in
    elim (text_of v) [ none ↦ none | some t ↦ elim rest [ none ↦ none | some ts ↦ some (t ∷ ts) ] ]

-- What the check takes of Node and of the libraries: `Date.parse`, with `none` for NaN, and
-- `String(_)` of a number.
pub record Checker : Type 0 where
  pub date_parse : Json → Option ℕ
  pub digits_of : ℕ → Text
  pub bech32 : Bech32
  pub curve : Curve

abbrev lifetime_of : Tags → ℕ
lifetime_of tags = elim (get_tag 6 tags) [ none ↦ 3600 | some words ↦ number_of_words words ]

abbrev pub has_length : ℕ → Option Words → Bool
has_length n none = false
has_length n (some words) = length words == n

-- A payment hash, a secret, and one of the two forms of description.
abbrev pub has_required_tags : Tags → Bool
has_required_tags tags =
    has_length 52 (get_tag 1 tags)
    && has_length 52 (get_tag 16 tags)
    && (if is_some (get_tag 13 tags)
        then not (is_some (get_tag 23 tags))
        else has_length 52 (get_tag 23 tags))

module _ (checker : Checker) where
  -- The checks of the terms: all but those of the expiry and the invoice.
  unfoldable pub check_terms : QuoteBody → Text → Result Refusal LightningQuoteResponse
  check_terms quote sats = do
    quote_id ← or_throw (text_of quote.quote_id) invalid_quote
    throw_if (not (starts_with (codes "q_") quote_id)) invalid_quote
    request_id ← or_throw (text_of quote.lightning_receive_request_id) invalid_quote
    throw_if (is_empty request_id) invalid_quote
    throw_if (not (json_is quote.amount_in sats)) invalid_quote
    throw_if (is_truthy quote.flexible_amount) invalid_quote
    throw_if (not (is_missing quote.amount_mode || json_is quote.amount_mode (codes "exact_in")))
        invalid_quote
    throw_if (not (json_is quote.fee_asset (codes "USDB"))) invalid_quote
    parts ← or_throw quote.route invalid_quote
    route ← or_throw (texts_of parts) invalid_quote
    fee_bps ← or_throw (natural_of quote.fee_bps) invalid_quote
    estimated_out ← amount_of quote.estimated_out
    fee_amount ← amount_of quote.fee_amount
    rounding_fee_amount ← amount_of quote.rounding_fee_amount
    total_fee_amount ← amount_of quote.total_fee_amount
    locked ← optional_amount checker.digits_of quote.locked_min_amount_out
    expiry ← or_throw (checker.date_parse quote.expires_at) invalid_quote
    deposit_address ← or_throw (text_of quote.deposit_address) invalid_quote
    ok (record {
      quote_id = quote_id;
      deposit_address = deposit_address;
      estimated_out = estimated_out;
      fee_amount = fee_amount;
      rounding_fee_amount = rounding_fee_amount;
      total_fee_amount = total_fee_amount;
      fee_bps = fee_bps;
      route = route;
      expires_at = expiry;
      price_lock_mode = quote.price_lock_mode;
      locked_min_amount_out = locked;
      lightning_receive_request_id = request_id;
    })

  -- `Buffer.from(bech32.fromWords(tags.get(23))).toString('hex')`, which may throw.
  unfoldable pub found_hash : Tags → Result Refusal Text
  found_hash tags = do
    words ← or_throw (get_tag 23 tags) description_hash_mismatch
    bytes ← or_throw (checker.bech32.from_words words) invalid_quote
    ok (checker.bech32.to_hex bytes)

  unfoldable pub check_description_hash : Option Text → Tags → Result Refusal (Unit {0})
  check_description_hash none tags = ok tt
  check_description_hash (some hash) tags = do
    found ← found_hash tags
    throw_if (not (text_eq found (to_lower_case hash))) description_hash_mismatch
    ok tt

  abbrev pub tags_of : Words → Result Refusal Bolt11Tags
  tags_of words = elim (read_bolt11_tags words) [ err e ↦ err invalid_quote | ok read ↦ ok read ]

  -- The invoice's expiry, in milliseconds.
  unfoldable pub invoice_expiry : Words → Tags → ℕ
  invoice_expiry words tags =
      (number_of_words (take bolt11_timestamp_words words) + lifetime_of tags) * 1000

  unfoldable pub check_amount : Text → Text → Result Refusal (Unit {0})
  check_amount prefix sats = do
    msat ← or_throw (prefix_msat prefix) invalid_quote
    throw_if (not (msat == decimal sats * 1000)) invalid_quote
    ok tt

  -- The checks of the tags, with the invoice's expiry.
  unfoldable pub check_tags : Option Text → Text → Words → Bolt11Tags → Result Refusal ℕ
  check_tags description_hash prefix words read = do
    throw_if (not (has_required_tags read.tags)) invalid_quote
    check_description_hash description_hash read.tags
    check_signature checker.bech32 checker.curve prefix words read.tags read.end
    ok (invoice_expiry words read.tags)

  unfoldable pub check_words : Text → Option Text → Text × Words → Result Refusal ℕ
  check_words sats description_hash (prefix, words) = do
    throw_if (ltb (length words) 111) invalid_quote
    check_amount prefix sats
    read ← tags_of words
    check_tags description_hash prefix words read

  -- The checks of the invoice, with its expiry.
  unfoldable pub check_invoice : Text → Text → Option Text → Result Refusal ℕ
  check_invoice deposit_address sats description_hash = do
    decoded ← or_throw (checker.bech32.decode deposit_address) invalid_quote
    check_words sats description_hash decoded

  -- The expiry of the quote, at most that of the invoice.
  abbrev pub capped : LightningQuoteResponse → ℕ → LightningQuoteResponse
  capped terms expiry = record terms { expires_at = min terms.expires_at expiry }

  unfoldable pub check_expiries :
      Text → Option Text → ℕ → ℕ → LightningQuoteResponse → Result Refusal LightningQuoteResponse
  check_expiries sats description_hash now later terms = do
    throw_if (leb terms.expires_at now) invalid_quote
    expiry ← check_invoice terms.deposit_address sats description_hash
    throw_if (ltb max_safe_integer expiry || leb expiry later) invalid_quote
    ok (capped terms expiry)

  -- The clock is read before the invoice is checked, and again after it: `now` and `later`.
  unfoldable pub validate_lightning_quote :
      Option QuoteBody → Text → Option Text → ℕ → ℕ → Result Refusal LightningQuoteResponse
  validate_lightning_quote body sats description_hash now later = do
    quote ← or_throw body invalid_quote
    terms ← check_terms quote sats
    check_expiries sats description_hash now later terms
