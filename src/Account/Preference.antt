-- ===== src/Account/Preference.antt =====
-- src/currency-preference/currency-preference.service.ts, `CurrencyPreferenceService`. A missing
-- user is the error that Prisma throws.
pub mod RoundTrip
use spark_ln_address.Prelude.{◌>>=◌, ◌>>◌, ℕ, Text, Result, ok, or_throw}
use spark_ln_address.Database.{Storage, Db}
use spark_ln_address.Database.Rows.{User, ReceivingCurrency}
use spark_ln_address.Names.Ledger.{DbError, p2025}

pub record CurrencyPreference : Type 0 where
  pub currency : ReceivingCurrency
  pub updated_at : ℕ

abbrev preference_of : User → CurrencyPreference
preference_of user = record {
  currency = user.default_receiving_currency;
  updated_at = user.updated_at;
}

module _ (S : Storage) where
  unfoldable pub get_preference : Text → Db S → Result DbError CurrencyPreference
  get_preference user_id db = do
    user ← or_throw (S.users.get user_id db.users) p2025
    ok (preference_of user)

  -- `now` is the time that `@updatedAt` writes.
  unfoldable pub set_preference :
      Text → ReceivingCurrency → ℕ → Db S → Result DbError (CurrencyPreference × Db S)
  set_preference user_id currency now db = do
    user ← or_throw (S.users.get user_id db.users) p2025
    let updated = record user { default_receiving_currency = currency; updated_at = now }
    ok (preference_of updated, record db { users = S.users.put updated db.users })
