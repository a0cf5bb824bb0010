-- ===== src/Lnurl/Callback/Routes.antt =====
-- The amounts that a callback accepts, and its fallback from the USDB route to the sats route.
use spark_ln_address.Prelude.{
  ℕ, ◌*◌, ◌/◌, ◌≤◌, ◌≡◌, refl, sym, not, Bool-cases, inl, inr, none, is_empty, all, is_digit, Text,
  decimal, ok, err, throw_if-ok, arith,
}
use spark_ln_address.Database.{Storage}
use spark_ln_address.Database.Rows.{LightningName, User}
use spark_ln_address.Lnurl.{
  callback_amount, missing_amount, amount_out_of_range, min_sendable_msat, max_sendable_msat,
}
use spark_ln_address.Lnurl.Callback.{
  Outside, Draws, Moments, UsdbFailure, handle_usdb_callback, answer_by_usdb, answer_by_sats,
  answer_with_hash, use_usdb_route,
}

-- An accepted amount is the number that was given, lies within the bounds, and is a whole number
-- of sats.
pub callback_amount_bounds :
    (amount : Text) (msat : ℕ)
    → callback_amount amount ≡ ok msat
    → (msat ≡ decimal amount)
      × (min_sendable_msat ≤ msat)
      × (msat ≤ max_sendable_msat)
      × (msat / 1000 * 1000 ≡ msat)
unfolding callback_amount
callback_amount_bounds amount msat h =
    let (given, h1) = throw_if-ok (is_empty amount) missing_amount _ msat h in
    let (digits, h2) = throw_if-ok (not (all is_digit amount)) amount_out_of_range _ msat h1 in
    let (fits, h3) = throw_if-ok _ amount_out_of_range (ok (decimal amount)) msat h2 in
    let same : decimal amount ≡ msat = cc h3 in
    (sym same, ground (arith, same, fits), ground (arith, same, fits), ground (arith, same, fits))

module _ (S : Storage) (outside : Outside) where
  -- The settings with the USDB route switched off.
  abbrev switched_off : Outside
  switched_off = record outside { usdb_enabled = none }

  -- Where the USDB route fails, the answer and the state are those of a service on which it is
  -- switched off.
  pub callback_falls_back :
      (draws : Draws) (found : LightningName × User) (msat : ℕ) (at : Moments S) (hash : Text)
      (failure : UsdbFailure)
      → handle_usdb_callback S outside draws found.0 msat hash at ≡ err failure
      → answer_with_hash S outside draws found msat at (ok hash)
        ≡ answer_with_hash S switched_off draws found msat at (ok hash)
  unfolding answer_with_hash answer_by_usdb answer_by_sats
  callback_falls_back draws found msat at hash failure h =
      elim (Bool-cases (use_usdb_route outside found.1)) [
        | inl e ↦ rw (e, answer_by_usdb, h) refl
        | inr e ↦ rw e refl
      ]
