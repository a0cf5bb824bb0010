-- ===== src/Examples/Callbacks.antt =====
-- Runs of the LNURL callback: Spark addresses, a recorded quote and an answered request.
use spark_ln_address.Prelude.{
  ◌+◌, ◌≡◌, refl, ap, ◌∙◌, true, Option, none, some, [], ◌∷◌, ◌++◌, ok, Text, codes, text_eq,
  replicate, length, take, drop, take-length-append, drop-length-append,
}
use spark_ln_address.Database.{Db, memory, empty_db}
use spark_ln_address.Database.Rows.{usdb}
use spark_ln_address.Bolt11.{Words, read_bolt11_tags}
use spark_ln_address.Flashnet.Quote.{validate_lightning_quote}
use spark_ln_address.Names.Normal.{to_lower_case}
use spark_ln_address.Spark.{Bech32m, network_prefix, encode_spark_address}
use spark_ln_address.Spark.Keys.{encode_spark_address-injective}
use spark_ln_address.Swap.Quote.{
  InitiateLightningQuoteParams, invoice_of, order_row, record_quote, answer_quote,
}
use spark_ln_address.Swap.Quote.Recorded.{Recorded, record_quote-Recorded, replayed_after_recorded}
use spark_ln_address.Lnurl.{LnurlPayMetadata, get_lnurl_pay_metadata, lnurl_pay_description_hash}
use spark_ln_address.Lnurl.Callback.{Outside, Draws, Moments, invoice, handle_lnurl_callback}
use spark_ln_address.Lnurl.Callback.Origin.{Origin}
use spark_ln_address.Lnurl.Callback.Hashes.{callback_commits}
use spark_ln_address.Examples.Invoices.{bech32, checker, body, quote}

-- A prefix and words, after the length of the prefix.
abbrev counted : Text → Words → Text
counted prefix words = length prefix ∷ (prefix ++ words)

abbrev decoded : Text → Option (Text × Words)
decoded [] = none
decoded (n ∷ s) = some (take n s, drop n s)

counted-decoded :
    (prefix : Text) (words : Words) (t : Text)
    → some (counted prefix words) ≡ some t
    → decoded t ≡ some (prefix, words)
counted-decoded prefix words t e =
    let same : counted prefix words ≡ t = cc e in
    rw (← same) (
      ap some (
        ap (λ l. (l, drop (length prefix) (prefix ++ words))) (take-length-append prefix words)
        ∙ ap (λ l. (prefix, l)) (drop-length-append prefix words)))

-- Addresses whose words are their bytes.
abbrev bech32m : Bech32m
bech32m = record {
  to_words = λ bytes. bytes;
  from_words = λ words. some words;
  encode = λ prefix words. some (counted prefix words);
  decode = decoded;
  compress = λ hex. none;
  from_words-to_words = λ bytes h. refl;
  decode-encode = λ prefix words t plain filled e. counted-decoded prefix words t e;
}

abbrev key : Text
key = codes "02" ++ replicate 64 b'a'

abbrev key_in_capitals : Text
key_in_capitals = codes "02" ++ replicate 64 b'A'

abbrev address : Text
address = 6 ∷ (codes "sparkl" ++ (10 ∷ 33 ∷ 2 ∷ replicate 32 0xaa))

key_encoded : encode_spark_address bech32m key (codes "LOCAL") ≡ ok address
unfolding spark_ln_address.Spark.network_prefix spark_ln_address.Spark.parse_byte
    spark_ln_address.Spark.byte_pairs spark_ln_address.Spark.hex_to_bytes
    spark_ln_address.Spark.compressed_bytes spark_ln_address.Spark.address_of_key
    spark_ln_address.Spark.encode_spark_address spark_ln_address.Auth.Secp256k1.normalize
    spark_ln_address.Auth.Secp256k1.der_to_compact spark_ln_address.Auth.Secp256k1.from_hex
    spark_ln_address.Auth.Secp256k1.message_bytes spark_ln_address.Auth.Secp256k1.compact_signature
    spark_ln_address.Auth.Secp256k1.verify_text spark_ln_address.Auth.Secp256k1.verify_bytes
    spark_ln_address.Auth.Secp256k1.verify_signature
    spark_ln_address.Auth.Secp256k1.equivalent_pub_key_forms
    spark_ln_address.Names.Normal.to_lower_case spark_ln_address.Names.Normal.trim_start
    spark_ln_address.Names.Normal.trim spark_ln_address.Names.Normal.normalize_username
    spark_ln_address.Prelude.text_eq spark_ln_address.Prelude.mem_text
    spark_ln_address.Prelude.starts_with spark_ln_address.Prelude.includes
    spark_ln_address.Prelude.decimal_from spark_ln_address.Prelude.decimal
    spark_ln_address.Prelude.digits_before spark_ln_address.Prelude.decimal_text
key_encoded = refl

key_in_capitals_encoded : encode_spark_address bech32m key_in_capitals (codes "LOCAL") ≡ ok address
unfolding spark_ln_address.Spark.network_prefix spark_ln_address.Spark.parse_byte
    spark_ln_address.Spark.byte_pairs spark_ln_address.Spark.hex_to_bytes
    spark_ln_address.Spark.compressed_bytes spark_ln_address.Spark.address_of_key
    spark_ln_address.Spark.encode_spark_address spark_ln_address.Auth.Secp256k1.normalize
    spark_ln_address.Auth.Secp256k1.der_to_compact spark_ln_address.Auth.Secp256k1.from_hex
    spark_ln_address.Auth.Secp256k1.message_bytes spark_ln_address.Auth.Secp256k1.compact_signature
    spark_ln_address.Auth.Secp256k1.verify_text spark_ln_address.Auth.Secp256k1.verify_bytes
    spark_ln_address.Auth.Secp256k1.verify_signature
    spark_ln_address.Auth.Secp256k1.equivalent_pub_key_forms
    spark_ln_address.Names.Normal.to_lower_case spark_ln_address.Names.Normal.trim_start
    spark_ln_address.Names.Normal.trim spark_ln_address.Names.Normal.normalize_username
    spark_ln_address.Prelude.text_eq spark_ln_address.Prelude.mem_text
    spark_ln_address.Prelude.starts_with spark_ln_address.Prelude.includes
    spark_ln_address.Prelude.decimal_from spark_ln_address.Prelude.decimal
    spark_ln_address.Prelude.digits_before spark_ln_address.Prelude.decimal_text
key_in_capitals_encoded = refl

encode_spark_address-injective_example :
    (to_lower_case key ≡ to_lower_case key_in_capitals)
    × (network_prefix (codes "LOCAL") ≡ network_prefix (codes "LOCAL"))
encode_spark_address-injective_example =
    encode_spark_address-injective bech32m key key_in_capitals (codes "LOCAL") (codes "LOCAL")
      address refl refl refl refl key_encoded key_in_capitals_encoded

abbrev outside : Outside
outside = record {
  config = record {
    reserved_usernames = none;
    public_base_url = some (codes "b");
    hostname = λ url. some (codes "h");
  };
  usdb_enabled = some (codes "true");
  spark_network = some (codes "LOCAL");
  crypto = record {
    utf8 = λ t. t;
    sha256_hex = λ bytes. codes "AB";
    verify = λ sig message key. none;
    point_forms = λ key. none;
    number_of = λ t. none;
  };
  bech32m = bech32m;
  network = record {
    encode_uri_component = λ t. t;
    post_quote = λ url authorization key request. some (record {
      is_ok = true;
      status = 200;
      idempotency_replayed = none;
      body = some (some body);
      error_body = none;
    });
    get_order = λ url authorization. none;
    get_status = λ url authorization. none;
  };
  client = record { api_base = none; api_key = some (codes "k") };
  checker = checker;
  issuer = record {
    bech32 = bech32;
    wallet = none;
    now = 1000;
    id = codes "i2";
    message_of = λ e. codes "error";
  };
}

abbrev draws : Draws
draws = record {
  idempotency_key = codes "i1";
  stamps = record { now = 1000; later = 2000; order_row_id = codes "o1" };
}

abbrev pub registered_db : Db memory
registered_db = record empty_db {
  users =
      record {
        id = codes "u1";
        default_receiving_currency = usdb;
        bonus_username_changes = 0;
        updated_at = 0;
      }
      ∷ [];
  names =
      record {
        id = codes "n1";
        username = codes "al";
        user_id = codes "u1";
        linking_pub_key_hex = key;
        active = true;
        active_pub_key = some key;
        created_at = 0;
      }
      ∷ [];
}

abbrev at : Moments memory
at = record {
  lookup = registered_db;
  replay = registered_db;
  quote = registered_db;
  sats = registered_db;
}

abbrev params : InitiateLightningQuoteParams
params = record {
  idempotency_key = codes "i1";
  amount_sats = 1;
  amount_msat = 1000;
  recipient_spark_address = address;
  lightning_name_id = codes "n1";
  description_hash = codes "AB";
}

abbrev pub recorded_db : Db memory
recorded_db = record registered_db {
  invoices = invoice_of params quote ∷ [];
  orders =
      order_row memory (codes "o1") (codes "i1") quote (12, 1000000) none (12, 1000000)
        (12, 1000000) (12, 1000000) none
      ∷ [];
}

quote_recorded : record_quote memory params (codes "o1") quote registered_db ≡ ok recorded_db
unfolding spark_ln_address.Swap.Quote.insert_invoice spark_ln_address.Swap.Quote.insert_order
    spark_ln_address.Swap.Quote.order_of spark_ln_address.Swap.Quote.record_quote
    spark_ln_address.Swap.Quote.recorded_bolt11 spark_ln_address.Swap.Quote.settle_quote
    spark_ln_address.Swap.Quote.answer_quote spark_ln_address.Swap.Quote.initiate_lightning_quote
    spark_ln_address.Swap.Units.usdb_smallest_units_to_decimal spark_ln_address.Json.json_units
    spark_ln_address.Json.stringify spark_ln_address.Json.with_commas
    spark_ln_address.Json.stringify_items spark_ln_address.Names.Normal.to_lower_case
    spark_ln_address.Names.Normal.trim_start spark_ln_address.Names.Normal.trim
    spark_ln_address.Names.Normal.normalize_username spark_ln_address.Prelude.text_eq
    spark_ln_address.Prelude.mem_text spark_ln_address.Prelude.starts_with
    spark_ln_address.Prelude.includes spark_ln_address.Prelude.decimal_from
    spark_ln_address.Prelude.decimal spark_ln_address.Prelude.digits_before
    spark_ln_address.Prelude.decimal_text spark_ln_address.Database.Memory.without
    spark_ln_address.Database.Memory.get_row spark_ln_address.Database.Memory.find_row
    spark_ln_address.Database.Memory.select_rows spark_ln_address.Database.Memory.remove_row
quote_recorded = refl

record_quote-Recorded_example : Recorded memory params (codes "o1") quote registered_db recorded_db
record_quote-Recorded_example =
    record_quote-Recorded memory params (codes "o1") quote registered_db recorded_db quote_recorded

replayed_after_recorded_example :
    answer_quote memory params (codes "o2") recorded_db recorded_db (quote, true)
    ≡ ok (record { bolt11 = codes "pr"; replayed = true }, recorded_db)
replayed_after_recorded_example =
    replayed_after_recorded memory params (codes "o1") (codes "o2") quote quote registered_db
      recorded_db recorded_db quote_recorded

callback_run :
    handle_lnurl_callback memory outside draws (codes "Al") (codes "1000") at
    ≡ ok (invoice (codes "pr"), recorded_db)
unfolding spark_ln_address.Lnurl.build_lnurl_pay_metadata
    spark_ln_address.Lnurl.lnurl_pay_description_hash spark_ln_address.Lnurl.base_and_domain
    spark_ln_address.Lnurl.description_hash_for spark_ln_address.Lnurl.callback_amount
    spark_ln_address.Lnurl.find_active_lightning_name
    spark_ln_address.Lnurl.find_active_lightning_name_with_user
    spark_ln_address.Lnurl.get_lnurl_pay_metadata spark_ln_address.Lnurl.Sats.create_invoice
    spark_ln_address.Lnurl.Sats.issue_sats_bolt11
    spark_ln_address.Lnurl.Callback.handle_usdb_callback
    spark_ln_address.Lnurl.Callback.answer_by_sats spark_ln_address.Lnurl.Callback.answer_by_usdb
    spark_ln_address.Lnurl.Callback.answer_with_hash
    spark_ln_address.Lnurl.Callback.handle_lnurl_callback spark_ln_address.Spark.network_prefix
    spark_ln_address.Spark.parse_byte spark_ln_address.Spark.byte_pairs
    spark_ln_address.Spark.hex_to_bytes spark_ln_address.Spark.compressed_bytes
    spark_ln_address.Spark.address_of_key spark_ln_address.Spark.encode_spark_address
    spark_ln_address.Swap.Quote.insert_invoice spark_ln_address.Swap.Quote.insert_order
    spark_ln_address.Swap.Quote.order_of spark_ln_address.Swap.Quote.record_quote
    spark_ln_address.Swap.Quote.recorded_bolt11 spark_ln_address.Swap.Quote.settle_quote
    spark_ln_address.Swap.Quote.answer_quote spark_ln_address.Swap.Quote.initiate_lightning_quote
    spark_ln_address.Swap.Units.usdb_smallest_units_to_decimal spark_ln_address.Json.json_units
    spark_ln_address.Json.stringify spark_ln_address.Json.with_commas
    spark_ln_address.Json.stringify_items spark_ln_address.Flashnet.Client.log_missing_secret
    spark_ln_address.Flashnet.Client.parse_error_body spark_ln_address.Flashnet.Client.checked_order
    spark_ln_address.Flashnet.Client.order_url
    spark_ln_address.Flashnet.Client.create_lightning_quote
    spark_ln_address.Flashnet.Client.get_quote_order
    spark_ln_address.Flashnet.Client.get_order_status spark_ln_address.Bolt11.get_tag
    spark_ln_address.Bolt11.set_tag spark_ln_address.Bolt11.read_field
    spark_ln_address.Bolt11.read_fields spark_ln_address.Bolt11.read_bolt11_tags
    spark_ln_address.Bolt11.hash_of_tags spark_ln_address.Bolt11.bolt11_description_hash
    spark_ln_address.Flashnet.Invoice.digits spark_ln_address.Flashnet.Invoice.after_digits
    spark_ln_address.Flashnet.Invoice.msat_of_amount spark_ln_address.Flashnet.Invoice.prefix_msat
    spark_ln_address.Flashnet.Invoice.number_from spark_ln_address.Flashnet.Signing.pad_words
    spark_ln_address.Flashnet.Signing.big_endian spark_ln_address.Flashnet.Signing.signing_bytes
    spark_ln_address.Flashnet.Signing.payee_key spark_ln_address.Flashnet.Signing.check_signature
    spark_ln_address.Flashnet.Quote.texts_of spark_ln_address.Flashnet.Quote.check_terms
    spark_ln_address.Flashnet.Quote.found_hash
    spark_ln_address.Flashnet.Quote.check_description_hash
    spark_ln_address.Flashnet.Quote.invoice_expiry spark_ln_address.Flashnet.Quote.check_amount
    spark_ln_address.Flashnet.Quote.check_tags spark_ln_address.Flashnet.Quote.check_words
    spark_ln_address.Flashnet.Quote.check_invoice spark_ln_address.Flashnet.Quote.check_expiries
    spark_ln_address.Flashnet.Quote.validate_lightning_quote
    spark_ln_address.Names.Normal.to_lower_case spark_ln_address.Names.Normal.trim_start
    spark_ln_address.Names.Normal.trim spark_ln_address.Names.Normal.normalize_username
    spark_ln_address.Prelude.text_eq spark_ln_address.Prelude.mem_text
    spark_ln_address.Prelude.starts_with spark_ln_address.Prelude.includes
    spark_ln_address.Prelude.decimal_from spark_ln_address.Prelude.decimal
    spark_ln_address.Prelude.digits_before spark_ln_address.Prelude.decimal_text
    spark_ln_address.Database.Memory.without spark_ln_address.Database.Memory.get_row
    spark_ln_address.Database.Memory.find_row spark_ln_address.Database.Memory.select_rows
    spark_ln_address.Database.Memory.remove_row
callback_run = refl

callback_commits_example :
    (served : LnurlPayMetadata) × (get_lnurl_pay_metadata memory outside.config
        (codes "Al")
        at.lookup
      ≡ ok served)
    × Origin memory outside at draws.idempotency_key
        (lnurl_pay_description_hash outside.crypto served.metadata)
        (codes "pr")
        recorded_db
callback_commits_example =
    callback_commits memory outside draws (codes "Al") (codes "1000") (codes "pr") at recorded_db
      callback_run
