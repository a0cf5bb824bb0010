-- ===== src/Examples/Invoices.antt =====
-- Invoices: their tags, and a quote that passes the check.
use spark_ln_address.Prelude.{
  ℕ, ◌+◌, ◌*◌, ◌/◌, ◌<◌, if◌then◌else◌, ◌≡◌, ◌≢◌, ◌≤◌, refl, true, none, some, [], ◌∷◌, ◌++◌, ok,
  err, Text, codes, text_eq, replicate, length, arith,
}
use spark_ln_address.Bolt11.{
  Words, Tags, Bech32, read_bolt11_tags, out_of_rounds, bolt11_timestamp_words,
}
use spark_ln_address.Bolt11.Ends.{read_bolt11_tags_ends}
use spark_ln_address.Bolt11.Fields.{encode_fields, stored_fields, read_bolt11_tags-encode_fields}
use spark_ln_address.Flashnet.{QuoteBody, LightningQuoteResponse, text, natural, missing}
use spark_ln_address.Flashnet.Quote.{Checker, validate_lightning_quote}
use spark_ln_address.Flashnet.Quote.Accepted.{Sound, accepted_quote_Sound}
use spark_ln_address.Names.Normal.{to_lower_case}

abbrev timestamp : Words
timestamp = replicate 7 0

abbrev signature : Words
signature = replicate 104 0

-- A payment hash, a secret and a description hash.
abbrev fields : Tags
fields = (1, replicate 52 0) ∷ (16, replicate 52 0) ∷ (23, replicate 52 0) ∷ []

abbrev invoice_words : Words
invoice_words = timestamp ++ (encode_fields fields ++ signature)

read_bolt11_tags-encode_fields_example :
    read_bolt11_tags (timestamp ++ (encode_fields fields ++ signature))
    ≡ ok (record {
      tags = stored_fields [] fields;
      end = bolt11_timestamp_words + length (encode_fields fields);
    })
unfolding spark_ln_address.Bolt11.get_tag spark_ln_address.Bolt11.set_tag
read_bolt11_tags-encode_fields_example =
    read_bolt11_tags-encode_fields timestamp signature fields refl refl (refl, (refl, (refl, tt)))

read_bolt11_tags_ends_example : read_bolt11_tags invoice_words ≢ err out_of_rounds
read_bolt11_tags_ends_example = read_bolt11_tags_ends invoice_words

-- Codings that keep lengths, and a curve that accepts every signature.
abbrev pub bech32 : Bech32
bech32 = record {
  decode = λ t. if text_eq t (codes "pr") then some (codes "lnbc10n", invoice_words) else none;
  from_words = λ w. some (replicate (length w * 5 / 8) 0);
  to_hex = λ bytes. codes "ab";
}

abbrev pub checker : Checker
checker = record {
  date_parse = λ date. some 5000;
  digits_of = λ n. codes "0";
  bech32 = bech32;
  curve = record {
    utf8 = λ t. t;
    sha256 = λ bytes. bytes;
    recover_public_key = λ bytes hash. some (replicate 33 2);
    verify = λ message key sig. some true;
  };
}

abbrev amount : Text
amount = codes "12"

abbrev pub body : QuoteBody
body = record {
  quote_id = text (codes "q_1");
  deposit_address = text (codes "pr");
  amount_in = text (codes "1");
  estimated_out = text amount;
  fee_amount = text amount;
  rounding_fee_amount = text amount;
  total_fee_amount = text amount;
  fee_bps = natural 41;
  fee_asset = text (codes "USDB");
  route = some (text (codes "BTC") ∷ text (codes "USDB") ∷ []);
  expires_at = text (codes "soon");
  price_lock_mode = missing;
  locked_min_amount_out = missing;
  amount_mode = missing;
  flexible_amount = missing;
  lightning_receive_request_id = text (codes "r");
}

abbrev pub quote : LightningQuoteResponse
quote = record {
  quote_id = codes "q_1";
  deposit_address = codes "pr";
  estimated_out = amount;
  fee_amount = amount;
  rounding_fee_amount = amount;
  total_fee_amount = amount;
  fee_bps = 41;
  route = codes "BTC" ∷ codes "USDB" ∷ [];
  expires_at = 5000;
  price_lock_mode = missing;
  locked_min_amount_out = none;
  lightning_receive_request_id = codes "r";
}

quote_accepted :
    validate_lightning_quote checker (some body) (codes "1") (some (codes "AB")) 1000 2000
    ≡ ok quote
unfolding spark_ln_address.Bolt11.get_tag spark_ln_address.Bolt11.set_tag
    spark_ln_address.Bolt11.read_field spark_ln_address.Bolt11.read_fields
    spark_ln_address.Bolt11.read_bolt11_tags spark_ln_address.Bolt11.hash_of_tags
    spark_ln_address.Bolt11.bolt11_description_hash spark_ln_address.Flashnet.Invoice.digits
    spark_ln_address.Flashnet.Invoice.after_digits spark_ln_address.Flashnet.Invoice.msat_of_amount
    spark_ln_address.Flashnet.Invoice.prefix_msat spark_ln_address.Flashnet.Invoice.number_from
    spark_ln_address.Flashnet.Signing.pad_words spark_ln_address.Flashnet.Signing.big_endian
    spark_ln_address.Flashnet.Signing.signing_bytes spark_ln_address.Flashnet.Signing.payee_key
    spark_ln_address.Flashnet.Signing.check_signature spark_ln_address.Flashnet.Quote.texts_of
    spark_ln_address.Flashnet.Quote.check_terms spark_ln_address.Flashnet.Quote.found_hash
    spark_ln_address.Flashnet.Quote.check_description_hash
    spark_ln_address.Flashnet.Quote.invoice_expiry spark_ln_address.Flashnet.Quote.check_amount
    spark_ln_address.Flashnet.Quote.check_tags spark_ln_address.Flashnet.Quote.check_words
    spark_ln_address.Flashnet.Quote.check_invoice spark_ln_address.Flashnet.Quote.check_expiries
    spark_ln_address.Flashnet.Quote.validate_lightning_quote
    spark_ln_address.Names.Normal.to_lower_case spark_ln_address.Names.Normal.trim_start
    spark_ln_address.Names.Normal.trim spark_ln_address.Names.Normal.normalize_username
    spark_ln_address.Prelude.text_eq spark_ln_address.Prelude.mem_text
    spark_ln_address.Prelude.starts_with spark_ln_address.Prelude.includes
    spark_ln_address.Prelude.decimal_from spark_ln_address.Prelude.decimal
    spark_ln_address.Prelude.digits_before spark_ln_address.Prelude.decimal_text
quote_accepted = refl

accepted_quote_Sound_example :
    (expiry : ℕ) × Sound checker quote.deposit_address (codes "1") (some (codes "AB")) expiry
    × (1000 < quote.expires_at)
    × (quote.expires_at ≤ expiry)
accepted_quote_Sound_example =
    accepted_quote_Sound checker (some body) (codes "1") (some (codes "AB")) 1000 2000 quote
      quote_accepted (omega arith)
