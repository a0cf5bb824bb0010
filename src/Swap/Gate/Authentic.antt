-- ===== src/Swap/Gate/Authentic.antt =====
-- What an accepted webhook has shown.
use spark_ln_address.Prelude.{
  ℕ, ◌≤◌, ◌≡◌, ◌⊎◌, Option-cases, map_err-ok, ◌≢◌, sym, refl, true, Bool-cases, inl, inr, ◌&&◌, ltb,
  leb, Option, none, some, get_or_else, List, [], ◌++◌, Text, codes, text_eq_sound, decimal, ok,
  >>=-ok, arith, ◌+◌,
}
use spark_ln_address.Database.{Storage, Db}
use spark_ln_address.Auth.Secp256k1.{from_hex}
use spark_ln_address.Swap.Payload.{FlashnetWebhookPayload, Stamps}
use spark_ln_address.Swap.Webhook.{apply_webhook_event}
use spark_ln_address.Swap.Gate.{
  swap, Runtime, WebhookRequest, Admitted, is_fresh_timestamp, as_ms, verify_webhook_signature,
  admit_webhook, stamped_payload, deliver, handle_webhook, read_webhook_max_skew,
  max_webhook_max_skew_ms, is_digits,
}

-- The skew that is read of any setting is at least one millisecond and at most one hour.
pub read_webhook_max_skew_bounds :
    (raw : Option Text)
    → (1 ≤ read_webhook_max_skew raw) × (read_webhook_max_skew raw ≤ max_webhook_max_skew_ms)
unfolding read_webhook_max_skew
read_webhook_max_skew_bounds none = (omega arith, omega arith)
read_webhook_max_skew_bounds (some raw) =
    elim (Bool-cases
      (is_digits 10 raw && (ltb 0 (decimal raw) && leb (decimal raw) max_webhook_max_skew_ms))) [
        | inl h ↦ rw h (ground arith)
        | inr h ↦ rw h (omega arith, omega arith)
      ]

fresh_window :
    (raw : Text) (now max_skew : ℕ)
    → is_fresh_timestamp raw now max_skew ≡ true
    → (as_ms (decimal raw) ≤ now + max_skew) × (now ≤ as_ms (decimal raw) + max_skew)
unfolding is_fresh_timestamp
fresh_window raw now max_skew h = ground arith

module _ (runtime : Runtime) where
  signature_matches :
      (secret : Option Text) (body : List ℕ) (signature timestamp : Text)
      → verify_webhook_signature runtime secret body signature timestamp ≡ true
      → (key : Text) × (secret ≡ some key)
        × (key ≢ [])
        × (from_hex signature
            ≡ from_hex
                (runtime.hmac_sha256_hex key (timestamp ++ (codes "." ++ runtime.to_utf8 body))))
  unfolding verify_webhook_signature
  signature_matches none body signature timestamp h = cc
  signature_matches (some key) body signature timestamp h =
      let expected =
        runtime.hmac_sha256_hex key (timestamp ++ (codes "." ++ runtime.to_utf8 body)) in
      (
        key,
        refl,
        ground arith,
        sym (text_eq_sound (from_hex expected) (from_hex signature) (ground arith)),
      )

  admit_facts :
      (secret : Option Text) (max_skew : ℕ) (req : WebhookRequest) (now : ℕ) (a : Admitted runtime)
      → admit_webhook runtime secret max_skew req now ≡ ok a
      → (is_fresh_timestamp a.timestamp now max_skew ≡ true)
        × (req.raw_body ≡ some a.raw_body)
        × (a.timestamp ≡ get_or_else req.timestamp [])
        × (verify_webhook_signature runtime secret a.raw_body
              (get_or_else req.signature [])
              a.timestamp
            ≡ true)
  unfolding admit_webhook
  admit_facts secret max_skew req now a h = ground arith

  module _ (S : Storage) where
    -- The body that is parsed and applied, with the timestamp of the header; one that does not
    -- parse changes nothing.
    abbrev pub Delivered : List ℕ → Text → Stamps → Db S → Db S → Type 0
    Delivered body timestamp st db db' =
        ((runtime.parse (runtime.to_utf8 body) ≡ none) × (db' ≡ db))
        ⊎ ((payload : FlashnetWebhookPayload) × (runtime.parse (runtime.to_utf8 body)
              ≡ some payload)
            × (apply_webhook_event S (record payload { timestamp = decimal timestamp }) st db
                ≡ ok db'))

    deliver-Delivered :
        (a : Admitted runtime) (st : Stamps) (db db' : Db S)
        → deliver runtime S (stamped_payload runtime a) st db ≡ ok db'
        → Delivered a.raw_body a.timestamp st db db'
    unfolding deliver stamped_payload
    deliver-Delivered a st db db' h =
        elim (Option-cases (runtime.parse (runtime.to_utf8 a.raw_body))) [
          | inl n ↦ inl (n, cc (rw (stamped_payload, n) at h))
          | inr (payload, e) ↦
              inr (payload, e, map_err-ok swap _ db' (rw (stamped_payload, e) at h))
        ]

    -- A webhook that is handled without an error came while a non-empty secret is configured, it
    -- has a body, its signature has the bytes of the HMAC of its timestamp and that body under the
    -- secret, its timestamp lies within the allowed skew of the clock, and either the body does
    -- not parse and the state is as it was, or the new state is that of applying the body's
    -- payload with the timestamp of the header.
    pub handled_is_authentic :
        (secret : Option Text) (max_skew : ℕ) (req : WebhookRequest) (st : Stamps) (db db' : Db S)
        → handle_webhook runtime S secret max_skew req st db ≡ ok db'
        → (key : Text) × (body : List ℕ) × (secret ≡ some key)
          × (key ≢ [])
          × (req.raw_body ≡ some body)
          × (from_hex (get_or_else req.signature [])
              ≡ from_hex (
                  runtime.hmac_sha256_hex key
                    (get_or_else req.timestamp [] ++ (codes "." ++ runtime.to_utf8 body))))
          × (as_ms (decimal (get_or_else req.timestamp [])) ≤ st.now + max_skew)
          × (st.now ≤ as_ms (decimal (get_or_else req.timestamp [])) + max_skew)
          × Delivered body (get_or_else req.timestamp []) st db db'
    unfolding handle_webhook
    handled_is_authentic secret max_skew req st db db' h =
        let (a, e, d) =
          >>=-ok (admit_webhook runtime secret max_skew req st.now)
            (λ a. deliver runtime S (stamped_payload runtime a) st db) h in
        let (f, b, t, v) = admit_facts secret max_skew req st.now a e in
        let (key, s, n, m) =
          signature_matches secret a.raw_body (get_or_else req.signature []) a.timestamp v in
        let (l, u) = fresh_window a.timestamp st.now max_skew f in
        (
          key,
          a.raw_body,
          s,
          n,
          b,
          rw (← t) m,
          rw (← t) l,
          rw (← t) u,
          rw (← t) (deliver-Delivered a st db db' d),
        )
