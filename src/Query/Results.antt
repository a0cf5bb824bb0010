-- ===== src/Query/Results.antt =====
-- What the answers of a query say of the stored names.
use spark_ln_address.Prelude.{
  map_err, ◌≡◌, refl, sym, ap, ◌∙◌, true, Bool-cases, Result-cases, inl, inr, Option, some, List,
  [], ◌∷◌, ◌++◌, map, All, All-imp, any, includes, Text, codes, text_eq, text_eq_sound,
  text_eq_complete, ok, or_throw, or_throw-ok, >>=-ok, arith,
}
use mathlib.Core.Path.{subst}
use spark_ln_address.Account.Terms.{Config, to_lightning_address}
use spark_ln_address.Database.{Storage, Db}
use spark_ln_address.Database.Rows.{LightningName}
use spark_ln_address.Names.Normal.{normalize_username}
use spark_ln_address.Spark.{Bech32m}
use spark_ln_address.Lnurl.{base_and_domain}
use spark_ln_address.Query.{
  QueryResponse, not_found, query_response, has_key, has_part, find_lightning_name_by_pub_key,
  find_lightning_name_by_username, domain_of, setting, responses, query_by_pub_key,
  query_by_username,
}

-- The address of a name that the account service shows.
to_lightning_address-base_and_domain :
    (config : Config) (username : Text) (place : Text × Text)
    → base_and_domain config ≡ ok place
    → to_lightning_address config username ≡ ok (username ++ (codes "@" ++ place.1))
unfolding base_and_domain to_lightning_address
to_lightning_address-base_and_domain config username place h = ground arith

domain_of_place :
    (S : Storage) (lib : Bech32m) (config : Config) (network : Option Text) (domain : Text)
    → domain_of S lib config network ≡ ok domain
    → (place : Text × Text) × (base_and_domain config ≡ ok place) × (place.1 ≡ domain)
domain_of_place S lib config network domain h = elim (Result-cases (base_and_domain config)) [
  | inl (place, e) ↦ (place, e, cc (rw (domain_of, e) at h))
  | inr (r, e) ↦ absurd (cc (rw (domain_of, e) at h))
]

module _ (S : Storage) (lib : Bech32m) (config : Config) (network : Option Text) where
  -- What an answer says of an active name with the key that was asked for.
  pub Describes : Text → Db S → QueryResponse → LightningName → Type 0
  Describes key db response name =
      (S.names.get name.id db.names ≡ some name)
      × (name.active ≡ true)
      × (name.linking_pub_key_hex ≡ key)
      × (response.username ≡ name.username)
      × (response.public_key ≡ key)
      × (to_lightning_address config name.username ≡ ok response.lightning_address)

  described :
      (key : Text) (db : Db S) (name : LightningName) (domain : Text) (response : QueryResponse)
      → find_lightning_name_by_pub_key S key db ≡ some name
      → domain_of S lib config network ≡ ok domain
      → query_response lib network domain name ≡ response
      → Describes key db response name
  unfolding Describes query_response
  described key db name domain response found at same =
      let (fits, stored) = S.names.find_sound (has_key key) db.names name found in
      let keyed : name.linking_pub_key_hex ≡ key =
        text_eq_sound name.linking_pub_key_hex key (ground (arith, fits)) in
      let (place, placed, e) = domain_of_place S lib config network domain at in
      let shown = to_lightning_address-base_and_domain config name.username place placed in
      let address : response.lightning_address ≡ name.username ++ (codes "@" ++ domain) =
        ap (λ r. r.lightning_address) (sym same) in
      (
        stored,
        ground (arith, fits),
        keyed,
        ap (λ r. r.username) (sym same),
        ap (λ r. r.public_key) (sym same) ∙ keyed,
        rw (address, ← e) shown,
      )

  -- An answer for a key describes a stored, active name with that key, under the address that the
  -- account service shows.
  pub query_by_pub_key-Describes :
      (key : Text) (db : Db S) (response : QueryResponse)
      → query_by_pub_key S lib config network key db ≡ ok response
      → (name : LightningName) × Describes key db response name
  unfolding query_by_pub_key
  query_by_pub_key-Describes key db response h =
      let (name, a, h1) =
        >>=-ok (or_throw (find_lightning_name_by_pub_key S key db) not_found) _ h in
      let (domain, b, h2) = >>=-ok (domain_of S lib config network) _ h1 in
      (name, described key db name domain response (or_throw-ok _ _ name a) b (cc h2))

  listed_name :
      (username : Text) (domain : Text) (names : List LightningName) (k : Text)
      → any (λ n. text_eq n.id k) names ≡ true
      → All (λ n. text_eq n.id k ≡ true → n.username ≡ username) names
      → any (λ r. text_eq r.username username) (map (query_response lib network domain) names)
        ≡ true
  unfolding query_response
  listed_name username domain [] k h g = cc
  listed_name username domain (n ∷ ns) k h (here, later) = elim (Bool-cases (text_eq n.id k)) [
    | inl e ↦ rw (text_eq_complete n.username username (here e)) refl
    | inr e ↦ ground (arith, listed_name username domain ns k (rw e at h) later)
  ]

  responses_listed :
      (username : Text) (names : List LightningName) (k : Text) (listed : List QueryResponse)
      → responses S lib config network names ≡ ok listed
      → any (λ n. text_eq n.id k) names ≡ true
      → All (λ n. text_eq n.id k ≡ true → n.username ≡ username) names
      → any (λ r. text_eq r.username username) listed ≡ true
  responses_listed username [] k listed h there same = cc
  responses_listed username (n ∷ ns) k listed h there same =
      let (domain, a, h1) = >>=-ok (domain_of S lib config network) _ h in
      let made : map (query_response lib network domain) (n ∷ ns) ≡ listed = cc h1 in
      subst (λ l. any (λ r. text_eq r.username username) l ≡ true) made
        (listed_name username domain (n ∷ ns) k there same)

  same_row :
      (db : Db S) (k : Text) (name n : LightningName)
      → S.names.get k db.names ≡ some name
      → S.names.get n.id db.names ≡ some n
      → text_eq n.id k ≡ true
      → n.username ≡ name.username
  same_row db k name n stored own e =
      let there : S.names.get k db.names ≡ some n = rw (← text_eq_sound n.id k e) own in
      let same : name ≡ n = cc (stored, there) in ap (λ r. r.username) (sym same)

  found_by_part :
      (raw part : Text) (db : Db S) (found : List LightningName)
      → normalize_username raw ≡ some part
      → map_err setting (find_lightning_name_by_username S raw db) ≡ ok found
      → S.names.select (has_part part) db.names ≡ found
  unfolding find_lightning_name_by_username
  found_by_part raw part db found normal h = cc (rw (find_lightning_name_by_username, normal) at h)

  -- An active name that holds the part asked for is listed.
  pub query_by_username_complete :
      (raw part : Text) (db : Db S) (k : Text) (name : LightningName) (listed : List QueryResponse)
      → query_by_username S lib config network raw db ≡ ok listed
      → normalize_username raw ≡ some part
      → S.names.get k db.names ≡ some name
      → name.active ≡ true
      → includes part name.username ≡ true
      → any (λ r. text_eq r.username name.username) listed ≡ true
  unfolding query_by_username
  query_by_username_complete raw part db k name listed h normal stored active held =
      let (found, a, h1) =
        >>=-ok (map_err setting (find_lightning_name_by_username S raw db)) _ h in
      let kept : S.names.select (has_part part) db.names ≡ found =
        found_by_part raw part db found normal a in
      let there : any (λ n. text_eq n.id k) (S.names.select (has_part part) db.names) ≡ true =
        S.names.select_complete (has_part part) db.names k name stored (rw (held, active) refl) in
      let same : All (λ n. text_eq n.id k ≡ true → n.username ≡ name.username)
          (S.names.select (has_part part) db.names) =
        All-imp _ (λ n f e. same_row db k name n stored f.1 e)
          (S.names.select_sound (has_part part) db.names) in
      responses_listed name.username (S.names.select (has_part part) db.names) k listed (rw kept h1)
        there same
