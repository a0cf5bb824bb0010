-- ===== src/Lnurl.antt =====
-- src/lnurl: the LNURL-pay endpoints, and src/lightspark/lightspark.service.ts.
pub mod Sats
pub mod Callback
use spark_ln_address.Prelude.{
  ◌>>=◌, ◌>>◌, ℕ, ◌%◌, Bool, not, ◌&&◌, ◌||◌, ltb, ◌==◌, [], ◌∷◌, ◌++◌, all, is_digit, is_empty,
  Text, codes, text_eq, decimal, Result, ok, throw_if, or_throw,
}
use spark_ln_address.Json.{stringify, stringify_items}
use spark_ln_address.RateLimit.{max_safe_integer}
use spark_ln_address.Auth.Crypto.{Crypto}
use spark_ln_address.Account.Terms.{Config}
use spark_ln_address.Database.{Storage, Db}
use spark_ln_address.Database.Rows.{LightningName, User}
use spark_ln_address.Names.Normal.{normalize_username}

abbrev pub min_sendable_msat : ℕ
min_sendable_msat = 1000

abbrev pub max_sendable_msat : ℕ
max_sendable_msat = 10000000000

-- The errors that a request ends in. An unknown user is one that the name's row refers to in vain.
pub data LnurlError : Type 0 where
  unconfigured invalid_base_url invalid_username not_found unknown_user : LnurlError
  missing_amount amount_out_of_range no_public_key : LnurlError

unfoldable pub build_lnurl_pay_metadata : Text → Text → Text
build_lnurl_pay_metadata username domain =
    let identifier = username ++ (codes "@" ++ domain) in
    let pair : Text → Text = λ kind. stringify_items (stringify kind ∷ stringify identifier ∷ []) in
    stringify_items (pair (codes "text/plain") ∷ pair (codes "text/identifier") ∷ [])

unfoldable pub lnurl_pay_description_hash : Crypto → Text → Text
lnurl_pay_description_hash crypto metadata = crypto.sha256_hex (crypto.utf8 metadata)

abbrev pub is_active_name : Text → LightningName → Bool
is_active_name username n = text_eq n.username username && n.active

-- PUBLIC_BASE_URL, which neither endpoint does without, and its host.
unfoldable pub base_and_domain : Config → Result LnurlError (Text × Text)
base_and_domain config = do
  base ← or_throw config.public_base_url unconfigured
  throw_if (is_empty base) unconfigured
  domain ← or_throw (config.hostname base) invalid_base_url
  ok (base, domain)

pub record LnurlPayMetadata : Type 0 where
  pub callback : Text
  pub min_sendable : ℕ
  pub max_sendable : ℕ
  pub metadata : Text

-- `descriptionHashFor`.
unfoldable pub description_hash_for : Crypto → Config → Text → Result LnurlError Text
description_hash_for crypto config username = do
  place ← base_and_domain config
  ok (lnurl_pay_description_hash crypto (build_lnurl_pay_metadata username place.1))

-- The amount of a callback, in msat.
unfoldable pub callback_amount : Text → Result LnurlError ℕ
callback_amount amount = do
  throw_if (is_empty amount) missing_amount
  throw_if (not (all is_digit amount)) amount_out_of_range
  let msat = decimal amount
  throw_if
      (ltb max_safe_integer msat
        || not (msat % 1000 == 0)
        || ltb msat min_sendable_msat
        || ltb max_sendable_msat msat)
      amount_out_of_range
  ok msat

module _ (S : Storage) where
  unfoldable pub find_active_lightning_name : Text → Db S → Result LnurlError LightningName
  find_active_lightning_name raw db = do
    username ← or_throw (normalize_username raw) invalid_username
    or_throw (S.names.find (is_active_name username) db.names) not_found

  -- With the user that the name belongs to.
  unfoldable pub find_active_lightning_name_with_user :
      Text → Db S → Result LnurlError (LightningName × User)
  find_active_lightning_name_with_user raw db = do
    name ← find_active_lightning_name raw db
    user ← or_throw (S.users.get name.user_id db.users) unknown_user
    ok (name, user)

  abbrev pub pay_metadata : Text → Text → Text → LnurlPayMetadata
  pay_metadata base domain username = record {
    callback = base ++ (codes "/lnurl/callback/" ++ username);
    min_sendable = min_sendable_msat;
    max_sendable = max_sendable_msat;
    metadata = build_lnurl_pay_metadata username domain;
  }

  -- A setting that gives no host is met after the name has been looked up.
  unfoldable pub get_lnurl_pay_metadata : Config → Text → Db S → Result LnurlError LnurlPayMetadata
  get_lnurl_pay_metadata config raw db = do
    base ← or_throw config.public_base_url unconfigured
    throw_if (is_empty base) unconfigured
    name ← find_active_lightning_name raw db
    place ← base_and_domain config
    ok (pay_metadata base place.1 name.username)
