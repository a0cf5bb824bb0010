-- ===== src/Auth/Guard.antt =====
-- src/auth/spark-signature.guard.ts, `SparkSignatureGuard`.
pub mod Once
use spark_ln_address.Prelude.{
  ◌>>=◌, ◌>>◌, ℕ, ◌-◌, ◌+◌, Bool, not, ◌&&◌, ltb, leb, if◌then◌else◌, Option, none, some, List, [],
  ◌∷◌, ◌++◌, map, Text, codes, text_eq, mem_text, is_empty, is_lower, Result, ok, err, throw_if,
  or_throw,
}
use spark_ln_address.Database.{Storage, Db}
use spark_ln_address.Database.Rows.{User}
use spark_ln_address.Auth.Crypto.{Crypto}
use spark_ln_address.Auth.Secp256k1.{buffer, lower, verify_signature}
use spark_ln_address.Auth.Replay.{Seen, ReplayError, reject_replay}

abbrev pub default_max_skew_ms : ℕ
default_max_skew_ms = 60000

pub record Request : Type 0 where
  pub pubkey : Option Text
  pub timestamp : Option Text
  pub signature : Option Text
  pub method : Text
  pub original_url : Text
  pub raw_body : Option (List ℕ)

pub data AuthError : Type 0 where
  missing_headers timestamp_out_of_range invalid_signature unknown_pubkey : AuthError
  replay : ReplayError → AuthError

-- The constructor's reading of AUTH_MAX_SKEW_MS.
unfoldable pub read_max_skew : Crypto → Option Text → ℕ
read_max_skew crypto none = default_max_skew_ms
read_max_skew crypto (some raw) =
    if is_empty raw then default_max_skew_ms else elim (crypto.number_of raw) [
      | none ↦ default_max_skew_ms
      | some parsed ↦ if ltb 0 parsed then parsed else default_max_skew_ms
    ]

-- `s.toUpperCase()`, on ASCII.
abbrev upper : Text → Text
upper = map (λ c. if is_lower c then c - 32 else c)

-- `!header`: missing or empty.
abbrev pub header : Option Text → Result AuthError Text
header none = err missing_headers
header (some t) = if is_empty t then err missing_headers else ok t

-- `Math.abs(a - b)`.
abbrev pub distance : ℕ → ℕ → ℕ
distance a b = if leb a b then b - a else a - b

abbrev replay_exempt_methods : List Text
replay_exempt_methods = codes "GET" ∷ codes "HEAD" ∷ []

unfoldable pub is_exempt : Text → Bool
is_exempt method = mem_text method replay_exempt_methods

unfoldable pub body_hash : Crypto → Text → Option (List ℕ) → Text
body_hash crypto method none = []
body_hash crypto method (some raw) =
    if mem_text method (codes "POST" ∷ codes "PATCH" ∷ codes "PUT" ∷ []) && not (is_empty raw)
    then crypto.sha256_hex raw
    else []

unfoldable pub canonical_message : Crypto → Request → Text → Text
unfolding body_hash
canonical_message crypto req timestamp =
    let method = upper req.method in
    method
    ++ (codes ":"
        ++ (req.original_url
            ++ (codes ":" ++ (timestamp ++ (codes ":" ++ body_hash crypto method req.raw_body)))))

-- What a request has shown once its signature and its account are checked.
pub record Authenticated : Type 0 where
  pub pubkey : Text
  pub signed_at : ℕ
  pub canonical : Text
  pub user : Option User

abbrev as_replay : Result ReplayError (Unit {0}) → Option User → Result AuthError (Option User)
as_replay (ok _) user = ok user
as_replay (err e) user = err (replay e)

module _ (S : Storage) (crypto : Crypto) (max_skew_ms : ℕ) where
  unfoldable pub fresh_timestamp : Text → ℕ → Result AuthError ℕ
  fresh_timestamp timestamp now = do
    ts ← or_throw (crypto.number_of timestamp) timestamp_out_of_range
    throw_if (ltb max_skew_ms (distance now ts)) timestamp_out_of_range
    ok ts

  -- Steps 1 to 6: they read the request, the clock and the database only.
  unfoldable pub authenticate : Request → ℕ → Db S → Result AuthError Authenticated
  authenticate req now db = do
    pubkey ← header req.pubkey
    timestamp ← header req.timestamp
    signature ← header req.signature
    ts ← fresh_timestamp timestamp now
    let canonical = canonical_message crypto req timestamp
    let normalized = lower pubkey
    throw_if (not (verify_signature crypto (buffer (crypto.utf8 canonical)) signature normalized))
        invalid_signature
    name ←
        or_throw (S.names.find (λ n. text_eq n.linking_pub_key_hex normalized && n.active) db.names)
          unknown_pubkey
    ok (record {
      pubkey = normalized;
      signed_at = ts;
      canonical = canonical;
      user = S.users.get name.user_id db.users;
    })

  -- Steps 7 and 8. The clock is read again here, after the two awaits: `checked_at` is what
  -- `rejectReplay` reads.
  unfoldable pub admit_request :
      Request → ℕ → Seen → Result AuthError Authenticated → Result AuthError (Option User) × Seen
  admit_request req checked_at seen (err e) = (err e, seen)
  admit_request req checked_at seen (ok a) =
      if is_exempt (upper req.method)
      then (ok a.user, seen)
      else let (r, seen') =
          reject_replay max_skew_ms a.pubkey (crypto.sha256_hex (crypto.utf8 a.canonical))
            a.signed_at checked_at seen in
        (as_replay r a.user, seen')

  unfoldable pub can_activate :
      Request → (now checked_at : ℕ) → Db S → Seen → Result AuthError (Option User) × Seen
  can_activate req now checked_at db seen =
      admit_request req checked_at seen (authenticate req now db)
