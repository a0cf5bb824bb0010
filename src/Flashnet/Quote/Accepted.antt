-- ===== src/Flashnet/Quote/Accepted.antt =====
-- What holds of a quote that has passed the check.
use spark_ln_address.Prelude.{
  List, none, ℕ, ◌*◌, ◌≤◌, ◌<◌, ◌≡◌, ap, ◌∙◌, true, not, ◌||◌, ltb, leb, ◌==◌, Option-cases,
  Result-cases, inl, inr, Option, some, length, Text, text_eq, text_eq_sound, decimal, ok,
  throw_if-ok, or_throw, or_throw-ok, >>=-ok, arith,
}
use spark_ln_address.Names.Normal.{to_lower_case}
use spark_ln_address.RateLimit.{max_safe_integer}
use spark_ln_address.Bolt11.{
  Tags, Words, Bolt11Tags, get_tag, read_bolt11_tags, bolt11_description_hash, hash_of_tags,
}
use spark_ln_address.Flashnet.{QuoteBody, LightningQuoteResponse}
use spark_ln_address.Flashnet.Invoice.{prefix_msat}
use spark_ln_address.Flashnet.Signing.{invalid_quote, description_hash_mismatch, check_signature}
use spark_ln_address.Flashnet.Signing.Verified.{Verified, check_signature-Verified}
use spark_ln_address.Flashnet.Quote.{
  Checker, has_required_tags, found_hash, check_description_hash, tags_of, invoice_expiry,
  check_amount, check_tags, check_words, check_invoice, capped, check_expiries, check_terms,
  validate_lightning_quote,
}
use spark_ln_address.Flashnet.Quote.RequiredTags.{Required, tag_parts}

module _ (checker : Checker) where
  -- The description hash that was asked for is the one of the tags, in lower case.
  abbrev pub Described : Option Text → Tags → Type 0
  Described none tags = Unit
  Described (some hash) tags =
      (words : Words) × (bytes : List ℕ) × (get_tag 23 tags ≡ some words)
      × (checker.bech32.from_words words ≡ some bytes)
      × (checker.bech32.to_hex bytes ≡ to_lower_case hash)

  -- What the check of an invoice establishes.
  pub record Sound (deposit_address sats : Text) (hash : Option Text) (expiry : ℕ) : Type 0 where
    pub prefix : Text
    pub words : Words
    pub read : Bolt11Tags
    pub decoded : checker.bech32.decode deposit_address ≡ some (prefix, words)
    pub amount : prefix_msat prefix ≡ some (decimal sats * 1000)
    pub fields : read_bolt11_tags words ≡ ok read
    pub required : Required read.tags
    pub described : Described hash read.tags
    pub signed : Verified checker.bech32 checker.curve prefix words read.tags read.end
    pub lifetime : expiry ≡ invoice_expiry checker words read.tags

  check_amount_parts :
      (prefix sats : Text)
      → check_amount checker prefix sats ≡ ok tt
      → prefix_msat prefix ≡ some (decimal sats * 1000)
  unfolding check_amount
  check_amount_parts prefix sats h = elim (Option-cases (prefix_msat prefix)) [
    | inl e ↦ absurd (cc (rw e at h))
    | inr (msat, e) ↦ ground (arith, e, rw e at h)
  ]

  tags_of_parts :
      (words : Words) (read : Bolt11Tags)
      → tags_of checker words ≡ ok read
      → read_bolt11_tags words ≡ ok read
  tags_of_parts words read h = elim (Result-cases (read_bolt11_tags words)) [
    | inl (r, e) ↦ ground (arith, e, rw (tags_of, e) at h)
    | inr (r, e) ↦ absurd (cc (rw (tags_of, e) at h))
  ]

  check_tags_parts :
      (hash : Option Text) (prefix : Text) (words : Words) (read : Bolt11Tags) (expiry : ℕ)
      → check_tags checker hash prefix words read ≡ ok expiry
      → (has_required_tags read.tags ≡ true)
        × (check_description_hash checker hash read.tags ≡ ok tt)
        × (check_signature checker.bech32 checker.curve prefix words read.tags read.end ≡ ok tt)
        × (expiry ≡ invoice_expiry checker words read.tags)
  unfolding check_tags
  check_tags_parts hash prefix words read expiry h =
      let (a, h1) = throw_if-ok (not (has_required_tags read.tags)) invalid_quote _ expiry h in
      let (t, b, h2) = >>=-ok (check_description_hash checker hash read.tags) _ h1 in
      let (u, c, h3) =
        >>=-ok (check_signature checker.bech32 checker.curve prefix words read.tags read.end) _
          h2 in
      (ground (arith, a), b, c, cc h3)

  check_description_hash-Described :
      (hash : Option Text) (tags : Tags)
      → check_description_hash checker hash tags ≡ ok tt
      → Described hash tags
  unfolding check_description_hash found_hash
  check_description_hash-Described none tags h = tt
  check_description_hash-Described (some hash) tags h =
      let (found, a, h1) = >>=-ok (found_hash checker tags) _ h in
      let (same, h2) =
        throw_if-ok (not (text_eq found (to_lower_case hash))) description_hash_mismatch (ok tt) tt
          h1 in
      let (words, b, a1) = >>=-ok (or_throw (get_tag 23 tags) description_hash_mismatch) _ a in
      let (bytes, c, a2) = >>=-ok (or_throw (checker.bech32.from_words words) invalid_quote) _ a1 in
      let equal : found ≡ to_lower_case hash = text_eq_sound found _ (ground (arith, same)) in
      (
        words,
        bytes,
        or_throw-ok (get_tag 23 tags) description_hash_mismatch words b,
        or_throw-ok (checker.bech32.from_words words) invalid_quote bytes c,
        cc a2 ∙ equal,
      )

  check_words-Sound :
      (deposit_address sats : Text) (hash : Option Text) (prefix : Text) (words : Words)
      (expiry : ℕ)
      → checker.bech32.decode deposit_address ≡ some (prefix, words)
      → check_words checker sats hash (prefix, words) ≡ ok expiry
      → Sound deposit_address sats hash expiry
  unfolding check_words
  check_words-Sound deposit_address sats hash prefix words expiry decoded h =
      let (a, h1) = throw_if-ok (ltb (length words) 111) invalid_quote _ expiry h in
      let (t, b, h2) = >>=-ok (check_amount checker prefix sats) _ h1 in
      let (read, c, h3) = >>=-ok (tags_of checker words) _ h2 in
      let (required, described, signed, lifetime) =
        check_tags_parts hash prefix words read expiry h3 in
      record {
        prefix = prefix;
        words = words;
        read = read;
        decoded = decoded;
        amount = check_amount_parts prefix sats b;
        fields = tags_of_parts words read c;
        required = tag_parts read.tags required;
        described = check_description_hash-Described hash read.tags described;
        signed =
            check_signature-Verified checker.bech32 checker.curve prefix words read.tags read.end
              signed;
        lifetime = lifetime;
      }

  check_invoice-Sound :
      (deposit_address sats : Text) (hash : Option Text) (expiry : ℕ)
      → check_invoice checker deposit_address sats hash ≡ ok expiry
      → Sound deposit_address sats hash expiry
  unfolding check_invoice
  check_invoice-Sound deposit_address sats hash expiry h =
      let (found, a, h1) =
        >>=-ok (or_throw (checker.bech32.decode deposit_address) invalid_quote)
          (check_words checker sats hash) h in
      check_words-Sound deposit_address sats hash found.0 found.1 expiry
        (or_throw-ok _ invalid_quote found a) h1

  found_hash_of :
      (hash : Text) (read : Bolt11Tags)
      → Required read.tags
      → Described (some hash) read.tags
      → hash_of_tags checker.bech32 (ok read) ≡ some (to_lower_case hash)
  unfolding hash_of_tags
  found_hash_of hash read required (words, bytes, at_tag, at_bytes, equal) =
      let sized : (length words == 52) ≡ true = elim required.2 [
        | inl (described, missing) ↦ absurd (cc (missing, at_tag))
        | inr (missing, (others, at_others, n)) ↦ ground (arith, at_tag, at_others, n)
      ] in
      rw (hash_of_tags, at_tag, sized, at_bytes) (ap some equal)

  Sound-hash :
      (deposit_address sats hash : Text) (expiry : ℕ)
      → Sound deposit_address sats (some hash) expiry
      → bolt11_description_hash checker.bech32 deposit_address ≡ some (to_lower_case hash)
  unfolding bolt11_description_hash
  Sound-hash deposit_address sats hash expiry s =
      rw (bolt11_description_hash, s.decoded, s.fields)
        (found_hash_of hash s.read s.required s.described)

  -- The terms that were read, and what the invoice and the clock said of them.
  accepted_parts :
      (body : Option QuoteBody) (sats : Text) (hash : Option Text) (now later : ℕ)
      (quote : LightningQuoteResponse)
      → validate_lightning_quote checker body sats hash now later ≡ ok quote
      → (terms : LightningQuoteResponse) × (expiry : ℕ) × Sound terms.deposit_address sats hash
          expiry
        × (now < terms.expires_at)
        × (later < expiry)
        × (quote ≡ capped checker terms expiry)
  unfolding validate_lightning_quote check_expiries
  accepted_parts body sats hash now later quote h =
      let (b, a, h1) = >>=-ok (or_throw body invalid_quote) _ h in
      let (terms, c, h2) = >>=-ok (check_terms checker b sats) _ h1 in
      let (early, h3) = throw_if-ok (leb terms.expires_at now) invalid_quote _ quote h2 in
      let (expiry, d, h4) = >>=-ok (check_invoice checker terms.deposit_address sats hash) _ h3 in
      let (live, h5) =
        throw_if-ok (ltb max_safe_integer expiry || leb expiry later) invalid_quote
          (ok (capped checker terms expiry)) quote h4 in
      (
        terms,
        expiry,
        check_invoice-Sound terms.deposit_address sats hash expiry d,
        ground (arith, early),
        ground (arith, live),
        cc h5,
      )

  -- Where the check accepts a quote and the clock has not gone back during it, the quote's invoice
  -- decodes, asks for the requested amount, has a payment hash, a secret and one form of
  -- description of the lengths that are required, and the description hash that was asked for, if
  -- one was; its last words are a signature of 65 bytes, which the curve verifies over the prefix
  -- and the words before it, by the payee's key with a low S or by the key that it recovers; and
  -- the expiry that is kept lies after the first reading of the clock and is not after the
  -- invoice's own.
  pub accepted_quote_Sound :
      (body : Option QuoteBody) (sats : Text) (hash : Option Text) (now later : ℕ)
      (quote : LightningQuoteResponse)
      → validate_lightning_quote checker body sats hash now later ≡ ok quote
      → now ≤ later
      → (expiry : ℕ) × Sound quote.deposit_address sats hash expiry
        × (now < quote.expires_at)
        × (quote.expires_at ≤ expiry)
  accepted_quote_Sound body sats hash now later quote h order =
      let (terms, expiry, sound, live, live', same) =
        accepted_parts body sats hash now later quote h in
      (expiry, rw same sound, rw same (omega (arith, live, live', order)), rw same (omega arith))

  -- Where the check accepts a quote for a description hash, the reader of the description hash
  -- finds it in the quote's invoice, in lower case.
  pub accepted_quote_hash :
      (body : Option QuoteBody) (sats hash : Text) (now later : ℕ) (quote : LightningQuoteResponse)
      → validate_lightning_quote checker body sats (some hash) now later ≡ ok quote
      → bolt11_description_hash checker.bech32 quote.deposit_address ≡ some (to_lower_case hash)
  accepted_quote_hash body sats hash now later quote h =
      let (terms, expiry, sound, live, live', same) =
        accepted_parts body sats (some hash) now later quote h in
      rw same (Sound-hash terms.deposit_address sats hash expiry sound)
