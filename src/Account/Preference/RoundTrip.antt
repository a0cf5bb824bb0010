-- ===== src/Account/Preference/RoundTrip.antt =====
-- A preference that is set and read back.
use spark_ln_address.Prelude.{
  ℕ, ◌≡◌, Option-cases, inl, inr, Text, text_eq, text_eq_refl, false, ok, arith,
}
use spark_ln_address.Database.{Storage, Db}
use spark_ln_address.Database.Rows.{User, ReceivingCurrency}
use spark_ln_address.Account.Preference.{CurrencyPreference, get_preference, set_preference}

module _ (S : Storage) where
  -- Where a preference is set, the answer has the currency that was asked for, reading the
  -- preference of that user gives the answer, and that of any other user is as it was.
  pub set_then_get :
      (user_id other : Text) (currency : ReceivingCurrency) (now : ℕ) (db db' : Db S)
      (p : CurrencyPreference)
      → set_preference S user_id currency now db ≡ ok (p, db')
      → text_eq user_id other ≡ false
      → (p.currency ≡ currency)
        × (get_preference S user_id db' ≡ ok p)
        × (get_preference S other db' ≡ get_preference S other db)
  unfolding set_preference get_preference
  set_then_get user_id other currency now db db' p e n =
      elim (Option-cases (S.users.get user_id db.users)) [
        | inl f ↦ ground arith
        | inr (u, f) ↦
            let updated : User = record u {
              default_receiving_currency = currency;
              updated_at = now;
            } in
            ground (
              arith,
              S.users.get_key user_id db.users u,
              S.users.get-put user_id updated db.users,
              S.users.get-put other updated db.users,
              text_eq_refl user_id,
            )
      ]
