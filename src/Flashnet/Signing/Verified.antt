-- ===== src/Flashnet/Signing/Verified.antt =====
-- What an accepted signature of an invoice shows.
use spark_ln_address.Prelude.{
  ℕ, ◌+◌, ◌*◌, ◌/◌, ◌≤◌, ◌≡◌, ◌⊎◌, inl, inr, true, false, not, ltb, ◌==◌, Option-cases, none, some,
  get_or_else, get_elem?, ◌∷◌, ◌++◌, take, drop, length, Text, ok, throw_if-ok, or_throw,
  or_throw-ok, >>=-ok, arith,
}
use spark_ln_address.Auth.Crypto.{Bytes}
use spark_ln_address.Bolt11.{Words, Tags, Bech32, get_tag, slice}
use spark_ln_address.Flashnet.Signing.{
  Curve, invalid_quote, padded, big_endian, half_order, signing_bytes, payee_key, check_signature,
}

equal_of_test : (m n : ℕ) → not (m == n) ≡ false → m ≡ n
equal_of_test m n h = ground arith

at_most_of_test : (m n : ℕ) → ltb m n ≡ false → n ≤ m
at_most_of_test m n h = ground arith

module _ (bech32 : Bech32) (curve : Curve) where
  -- The key of the signature: the payee's, with a low S, or the one that the signature recovers.
  abbrev pub KeyOf : Tags → Bytes → Bytes → Bytes → Type 0
  KeyOf tags signature signed pubkey =
      ((payee : Words) × (get_tag 19 tags ≡ some payee)
        × (bech32.from_words payee ≡ some pubkey)
        × (length pubkey ≡ 33)
        × (big_endian 0 (slice signature 32 64) ≤ half_order))
      ⊎ ((get_tag 19 tags ≡ none)
          × (curve.recover_public_key (get_or_else (get_elem? signature 64) 0 ∷ take 64 signature)
                (curve.sha256 signed)
              ≡ some pubkey))

  -- The last words are a signature, and it verifies over the prefix and the words before it.
  pub record Verified (prefix : Text) (words : Words) (tags : Tags) (end : ℕ) : Type 0 where
    pub signature : Bytes
    pub unsigned : Bytes
    pub pubkey : Bytes
    pub at_end : bech32.from_words (drop end words) ≡ some signature
    pub sized : length signature ≡ 65
    pub recovery : get_or_else (get_elem? signature 64) 0 ≤ 3
    pub before_end : bech32.from_words (padded (take end words)) ≡ some unsigned
    pub key : KeyOf tags signature (curve.utf8 prefix ++ take ((end * 5 + 7) / 8) unsigned) pubkey
    pub verifies :
        curve.verify
          (curve.utf8 prefix ++ take ((end * 5 + 7) / 8) unsigned)
          pubkey
          (take 64 signature)
        ≡ some true

  payee_key-KeyOf :
      (tags : Tags) (signature signed pubkey : Bytes)
      → payee_key bech32 curve tags signature signed ≡ ok pubkey
      → KeyOf tags signature signed pubkey
  unfolding payee_key
  payee_key-KeyOf tags signature signed pubkey h = elim (Option-cases (get_tag 19 tags)) [
    | inl n ↦ inr (n, or_throw-ok _ invalid_quote pubkey (rw (payee_key, n) at h))
    | inr (payee, e) ↦
        let (low, h1) =
          throw_if-ok (ltb half_order (big_endian 0 (slice signature 32 64))) invalid_quote _ pubkey
            (rw (payee_key, e) at h) in
        let (found, a, h2) = >>=-ok (or_throw (bech32.from_words payee) invalid_quote) _ h1 in
        let (sized, h3) =
          throw_if-ok (not (length found == 33)) invalid_quote (ok found) pubkey h2 in
        let same : found ≡ pubkey = cc h3 in
        inl (
          payee,
          e,
          rw (← same) (or_throw-ok (bech32.from_words payee) invalid_quote found a),
          rw (← same) (equal_of_test (length found) 33 sized),
          at_most_of_test half_order (big_endian 0 (slice signature 32 64)) low,
        )
  ]

  signing_bytes_parts :
      (prefix : Text) (words : Words) (end : ℕ) (signed : Bytes)
      → signing_bytes bech32 curve prefix words end ≡ some signed
      → (unsigned : Bytes) × (bech32.from_words (padded (take end words)) ≡ some unsigned)
        × (signed ≡ curve.utf8 prefix ++ take ((end * 5 + 7) / 8) unsigned)
  unfolding signing_bytes
  signing_bytes_parts prefix words end signed h =
      elim (Option-cases (bech32.from_words (padded (take end words)))) [
        | inl n ↦ absurd (cc (rw (signing_bytes, n) at h))
        | inr (unsigned, e) ↦ (unsigned, e, cc (rw (signing_bytes, e) at h))
      ]

  pub check_signature-Verified :
      (prefix : Text) (words : Words) (tags : Tags) (end : ℕ)
      → check_signature bech32 curve prefix words tags end ≡ ok tt
      → Verified prefix words tags end
  unfolding check_signature
  check_signature-Verified prefix words tags end h =
      let (signature, a, h1) =
        >>=-ok (or_throw (bech32.from_words (drop end words)) invalid_quote) _ h in
      let (sized, h2) = throw_if-ok (not (length signature == 65)) invalid_quote _ tt h1 in
      let (small, h3) =
        throw_if-ok (ltb 3 (get_or_else (get_elem? signature 64) 0)) invalid_quote _ tt h2 in
      let (signed, b, h4) =
        >>=-ok (or_throw (signing_bytes bech32 curve prefix words end) invalid_quote) _ h3 in
      let (pubkey, c, h5) = >>=-ok (payee_key bech32 curve tags signature signed) _ h4 in
      let (verified, d, h6) =
        >>=-ok (or_throw (curve.verify signed pubkey (take 64 signature)) invalid_quote) _ h5 in
      let (holds, h7) = throw_if-ok (not verified) invalid_quote (ok tt) tt h6 in
      let (unsigned, e, same) =
        signing_bytes_parts prefix words end signed (or_throw-ok _ invalid_quote signed b) in
      let good : verified ≡ true = ground (arith, holds) in
      let ran =
        or_throw-ok (curve.verify signed pubkey (take 64 signature)) invalid_quote verified d in
      record {
        signature = signature;
        unsigned = unsigned;
        pubkey = pubkey;
        at_end = or_throw-ok (bech32.from_words (drop end words)) invalid_quote signature a;
        sized = equal_of_test (length signature) 65 sized;
        recovery = at_most_of_test 3 (get_or_else (get_elem? signature 64) 0) small;
        before_end = e;
        key = rw (← same) (payee_key-KeyOf tags signature signed pubkey c);
        verifies = rw (← same) (rw good at ran);
      }
