-- ===== src/Lnurl/Callback/Served.antt =====
-- The description hash of a name, and the metadata that is served for it.
use spark_ln_address.Prelude.{
  ◌≡◌, refl, sym, ap, ◌∙◌, false, some, is_empty, Text, ok, throw_if-ok, or_throw, or_throw-ok,
  >>=-ok,
}
use spark_ln_address.Auth.Crypto.{Crypto}
use spark_ln_address.Account.Terms.{Config}
use spark_ln_address.Database.{Storage, Db}
use spark_ln_address.Database.Rows.{LightningName, User}
use spark_ln_address.Lnurl.{
  LnurlPayMetadata, unconfigured, invalid_base_url, unknown_user, base_and_domain,
  description_hash_for, lnurl_pay_description_hash, find_active_lightning_name,
  find_active_lightning_name_with_user, get_lnurl_pay_metadata, pay_metadata,
}

base_and_domain_parts :
    (config : Config) (place : Text × Text)
    → base_and_domain config ≡ ok place
    → (config.public_base_url ≡ some place.0) × (is_empty place.0 ≡ false)
unfolding base_and_domain
base_and_domain_parts config place h =
    let (base, a, h1) = >>=-ok (or_throw config.public_base_url unconfigured) _ h in
    let (filled, h2) = throw_if-ok (is_empty base) unconfigured _ place h1 in
    let (domain, b, h3) = >>=-ok (or_throw (config.hostname base) invalid_base_url) _ h2 in
    let same : base ≡ place.0 = cc h3 in
    rw (← same) (or_throw-ok config.public_base_url unconfigured base a, filled)

module _ (S : Storage) (crypto : Crypto) (config : Config) where
  pub found_with_user :
      (raw : Text) (db : Db S) (found : LightningName × User)
      → find_active_lightning_name_with_user S raw db ≡ ok found
      → find_active_lightning_name S raw db ≡ ok found.0
  unfolding find_active_lightning_name_with_user
  found_with_user raw db found h =
      let (name, a, h1) = >>=-ok (find_active_lightning_name S raw db) _ h in
      let (user, b, h2) = >>=-ok (or_throw (S.users.get name.user_id db.users) unknown_user) _ h1 in
      a ∙ ap ok (cc h2)

  served_at :
      (raw : Text) (db : Db S) (name : LightningName) (base domain : Text)
      → find_active_lightning_name S raw db ≡ ok name
      → base_and_domain config ≡ ok (base, domain)
      → config.public_base_url ≡ some base
      → is_empty base ≡ false
      → get_lnurl_pay_metadata S config raw db ≡ ok (pay_metadata S base domain name.username)
  unfolding get_lnurl_pay_metadata
  served_at raw db name base domain found place based filled =
      let opened : or_throw config.public_base_url unconfigured ≡ ok base = rw based refl in
      rw (opened, filled, found, place) refl

  -- The hash of a name is that of the metadata that is served for it.
  pub description_hash_for-metadata :
      (raw : Text) (db : Db S) (name : LightningName) (hash : Text)
      → find_active_lightning_name S raw db ≡ ok name
      → description_hash_for crypto config name.username ≡ ok hash
      → (served : LnurlPayMetadata) × (get_lnurl_pay_metadata S config raw db ≡ ok served)
        × (hash ≡ lnurl_pay_description_hash crypto served.metadata)
  unfolding description_hash_for
  description_hash_for-metadata raw db name hash found h =
      let (place, a, h1) = >>=-ok (base_and_domain config) _ h in
      let (based, filled) = base_and_domain_parts config place a in
      (
        pay_metadata S place.0 place.1 name.username,
        served_at raw db name place.0 place.1 found a based filled,
        cc (sym h1),
      )
