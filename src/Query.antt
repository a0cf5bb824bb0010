-- ===== src/Query.antt =====
-- src/query/query.service.ts and src/query/query.controller.ts: lookups of a name by its key, and of
-- keys by a part of a name.
pub mod Results
use spark_ln_address.Prelude.{
  ◌>>=◌, ◌>>◌, map_err, Bool, ◌&&◌, if◌then◌else◌, Option, none, some, List, [], ◌∷◌, ◌++◌, map,
  includes, Text, codes, text_eq, is_empty, Result, ok, err, or_throw,
}
use spark_ln_address.Account.Terms.{Config}
use spark_ln_address.Database.{Storage, Db}
use spark_ln_address.Database.Rows.{LightningName}
use spark_ln_address.Names.Normal.{normalize_username}
use spark_ln_address.Spark.{Bech32m, encode_spark_address, SparkError}
use spark_ln_address.Lnurl.{base_and_domain, LnurlError, invalid_username}

pub data QueryError : Type 0 where
  not_found : QueryError
  setting : LnurlError → QueryError

-- UsernameQueryResponseDto, and PubKeyQueryResponseDto, with the same fields.
pub record QueryResponse : Type 0 where
  pub username : Text
  pub lightning_address : Text
  pub spark_address : Text
  pub public_key : Text

-- SPARK_NETWORK, where an empty setting counts as none.
abbrev pub network_of : Option Text → Text
network_of none = codes "MAINNET"
network_of (some t) = if is_empty t then codes "MAINNET" else t

abbrev pub or_empty : Result SparkError Text → Text
or_empty (ok t) = t
or_empty (err e) = []

unfoldable pub query_response : Bech32m → Option Text → Text → LightningName → QueryResponse
query_response lib network domain n = record {
  username = n.username;
  lightning_address = n.username ++ (codes "@" ++ domain);
  spark_address = or_empty (encode_spark_address lib n.linking_pub_key_hex (network_of network));
  public_key = n.linking_pub_key_hex;
}

abbrev pub has_key : Text → LightningName → Bool
has_key key n = text_eq n.linking_pub_key_hex key && n.active

abbrev pub has_part : Text → LightningName → Bool
has_part part n = includes part n.username && n.active

module _ (S : Storage) where
  abbrev pub find_lightning_name_by_pub_key : Text → Db S → Option LightningName
  find_lightning_name_by_pub_key key db = S.names.find (has_key key) db.names

  unfoldable pub find_lightning_name_by_username :
      Text → Db S → Result LnurlError (List LightningName)
  find_lightning_name_by_username raw db = do
    username ← or_throw (normalize_username raw) invalid_username
    ok (S.names.select (has_part username) db.names)

  module _ (lib : Bech32m) (config : Config) (network : Option Text) where
    -- The domain of the answer, for at least one name.
    abbrev pub domain_of : Result QueryError Text
    domain_of = map_err setting (do place ← base_and_domain config; ok place.1)

    -- The controller answers `null` with 404.
    unfoldable pub query_by_pub_key : Text → Db S → Result QueryError QueryResponse
    query_by_pub_key key db = do
      name ← or_throw (find_lightning_name_by_pub_key key db) not_found
      domain ← domain_of
      ok (query_response lib network domain name)

    abbrev pub responses : List LightningName → Result QueryError (List QueryResponse)
    responses [] = ok []
    responses (n ∷ ns) = do
      domain ← domain_of
      ok (map (query_response lib network domain) (n ∷ ns))

    unfoldable pub query_by_username : Text → Db S → Result QueryError (List QueryResponse)
    query_by_username raw db = do
      names ← map_err setting (find_lightning_name_by_username raw db)
      responses names
