-- ===== src/Flashnet/Client/Checked.antt =====
-- What holds of a quote that Flashnet made.
use spark_ln_address.Prelude.{
  map_err, map_err-ok, ℕ, ◌≡◌, ap, ◌∙◌, not, Bool, Option, some, is_empty, Text, ok, throw_if-ok,
  or_throw, >>=-ok,
}
use spark_ln_address.Names.Normal.{to_lower_case}
use spark_ln_address.Bolt11.{bolt11_description_hash}
use spark_ln_address.Flashnet.{QuoteBody, LightningQuoteRequest, LightningQuoteResponse}
use spark_ln_address.Flashnet.Quote.{Checker, validate_lightning_quote}
use spark_ln_address.Flashnet.Quote.Accepted.{accepted_quote_hash}
use spark_ln_address.Flashnet.Client.{
  Network, ClientConfig, create_lightning_quote, api_key_of, not_configured, unreachable,
  malformed_answer, refused,
}

module _ (network : Network) (client : ClientConfig) (checker : Checker) where
  -- A quote that Flashnet made has passed the check.
  pub create_lightning_quote_validated :
      (params : LightningQuoteRequest) (key : Text) (now later : ℕ)
      (answer : LightningQuoteResponse × Bool)
      → create_lightning_quote network client checker params key now later ≡ ok answer
      → (body : Option QuoteBody) × (validate_lightning_quote checker body params.amount
            params.description_hash now later
          ≡ ok answer.0)
  unfolding create_lightning_quote
  create_lightning_quote_validated params key now later answer h =
      let (keyed, h1) = throw_if-ok (is_empty (api_key_of client)) not_configured _ answer h in
      let (response, a, h2) =
        >>=-ok (or_throw (network.post_quote _ _ key params) unreachable) _ h1 in
      let (fine, h3) = throw_if-ok (not response.is_ok) _ _ answer h2 in
      let (body, b, h4) = >>=-ok (or_throw response.body malformed_answer) _ h3 in
      let (checked, c, h5) =
        >>=-ok
          (map_err refused
            (validate_lightning_quote checker body params.amount params.description_hash now later))
          _ h4 in
      let same : checked ≡ answer.0 = cc h5 in (body, map_err-ok refused _ checked c ∙ ap ok same)

  pub validated_hash :
      (body : Option QuoteBody) (sats hash : Text) (asked : Option Text) (now later : ℕ)
      (checked : LightningQuoteResponse)
      → asked ≡ some hash
      → validate_lightning_quote checker body sats asked now later ≡ ok checked
      → bolt11_description_hash checker.bech32 checked.deposit_address ≡ some (to_lower_case hash)
  validated_hash body sats hash asked now later checked e h =
      accepted_quote_hash checker body sats hash now later checked (rw e at h)
