-- ===== src/Account/Registration.antt =====
-- src/auth/auth.service.ts, `AuthService`, and the callback of src/auth/auth.controller.ts. Each await of `verifyAndBindUsername` reads the state of
-- the database at its own moment, and its transaction runs on the state that it commits to.
pub mod Binding
pub mod Challenge
use spark_ln_address.Prelude.{
  ◌>>=◌, ◌>>◌, ℕ, ◌+◌, Bool, true, false, ◌&&◌, not, leb, ltb, ◌==◌, if◌then◌else◌, Option, none,
  some, is_some, List, ◌++◌, length, all, is_hex, Text, codes, text_eq, mem_text, includes, Result,
  ok, err, throw_if, or_throw, is_empty, map_err,
}
use spark_ln_address.Database.{Storage, Db}
use spark_ln_address.Database.Rows.{LightningName, AuthNonce, usdb}
use spark_ln_address.Names.Normal.{normalize_username}
use spark_ln_address.Names.Reserved.{is_reserved_username}
use spark_ln_address.Names.Ledger.{DbError, p2002, p2028, p2034, create_name, primary_key}
use spark_ln_address.Auth.Crypto.{Crypto}
use spark_ln_address.Auth.Secp256k1.{
  hex, is_hex_text, is_key, verify_signature, equivalent_pub_key_forms,
}

pub data BindError : Type 0 where
  invalid_username invalid_k1 k1_used k1_expired invalid_signature invalid_key : BindError
  reserved key_has_username taken conflict : BindError
  database : DbError → BindError

-- A request without one of its parameters, or one that the service refuses.
pub data CallbackError : Type 0 where
  username_missing k1_missing sig_missing key_missing : CallbackError
  refused : BindError → CallbackError

-- Five minutes.
abbrev pub nonce_lifetime_ms : ℕ
nonce_lifetime_ms = 300000

abbrev with_k1 : Text → AuthNonce → Bool
with_k1 k1 n = text_eq n.k1 k1

-- `where: { k1, usedAt: null, expiresAt: { gt: now } }`.
abbrev pub is_live : Text → ℕ → AuthNonce → Bool
is_live k1 now n = text_eq n.k1 k1 && not (is_some n.used_at) && ltb now n.expires_at

-- `/^[0-9a-fA-F]{64}$/`.
abbrev is_k1 : Text → Bool
is_k1 s = all is_hex s && length s == 64

abbrev holds_one_of : List Text → LightningName → Bool
holds_one_of forms n = elim n.active_pub_key [ none ↦ false | some key ↦ mem_text key forms ]

-- `const expired = !current?.usedAt && current?.expiresAt <= now`: a missing row is not expired.
abbrev lost_race : ℕ → Option AuthNonce → BindError
lost_race now none = k1_used
lost_race now (some n) =
    if not (is_some n.used_at) && leb n.expires_at now then k1_expired else k1_used

-- The `catch` around the transaction.
abbrev of_db_error : DbError → BindError
of_db_error (p2002 target) =
    if includes (codes "activePubKey") target then key_has_username else taken
of_db_error p2034 = conflict
of_db_error p2028 = conflict
of_db_error e = database e

abbrev caught : {A : Type 0} → Result DbError A → Result BindError A
caught (ok a) = ok a
caught (err e) = err (of_db_error e)

-- The values that the database supplies to the two inserts.
pub record NewAccount : Type 0 where
  pub user_id : Text
  pub name_id : Text

-- One call of the endpoint: its arguments, the clock at its two readings, the rows' new keys, and
-- the failure, if any, that the database reports for the transaction.
pub record Attempt : Type 0 where
  pub k1 : Text
  pub sig : Text
  pub key : Text
  pub raw_username : Text
  pub read_at : ℕ
  pub now : ℕ
  pub fresh : NewAccount
  pub outage : Option DbError

module _ (S : Storage) (crypto : Crypto) (reserved_usernames : Option Text) where
  -- `generateAuthChallenge`, for the k1 that was drawn.
  unfoldable pub generate_auth_challenge : Text → Text → ℕ → Text → Db S → (Text × Text) × Db S
  generate_auth_challenge id k1 now public_base_url db = (
    (k1, public_base_url ++ codes "/v1/auth/lnurl/callback"),
    record db {
      nonces =
          S.nonces.put
            (record { id = id; k1 = k1; expires_at = now + nonce_lifetime_ms; used_at = none })
            db.nonces;
    },
  )

  -- The states that the three reads before the transaction see.
  pub record Reads : Type 0 where
    pub nonce : Db S
    pub holder : Db S
    pub existing : Db S

  -- The reading of the nonce, for its friendly reasons, and the formats.
  unfoldable pub check_nonce : Attempt → Db S → Result BindError (Unit {0})
  check_nonce a db = do
    nonce ← or_throw (S.nonces.find (with_k1 a.k1) db.nonces) invalid_k1
    throw_if (is_some nonce.used_at) k1_used
    throw_if (ltb nonce.expires_at a.read_at) k1_expired
    throw_if (not (is_k1 a.k1)) invalid_k1
    throw_if (not (is_hex_text a.sig)) invalid_signature
    throw_if (not (is_key a.key)) invalid_key

  unfoldable pub check_name : Attempt → Text → Reads → Result BindError (Unit {0})
  check_name a username reads = do
    throw_if (is_reserved_username username reserved_usernames) reserved
    throw_if
        (is_some
          (S.names.find (holds_one_of (equivalent_pub_key_forms crypto a.key)) reads.holder.names))
        key_has_username
    throw_if (is_some (S.names.find (λ n. text_eq n.username username) reads.existing.names)) taken

  -- Everything before the transaction: the username to bind.
  unfoldable pub check : Attempt → Reads → Result BindError Text
  check a reads = do
    username ← or_throw (normalize_username a.raw_username) invalid_username
    check_nonce a reads.nonce
    throw_if (not (verify_signature crypto (hex a.k1) a.sig a.key)) invalid_signature
    check_name a username reads
    ok username

  -- The conditional update: k1 is unique, so that it changes one row or none.
  unfoldable pub consume : Text → ℕ → Db S → Result BindError (Db S)
  consume k1 now db = do
    live ←
        or_throw (S.nonces.find (is_live k1 now) db.nonces)
          (lost_race now (S.nonces.find (with_k1 k1) db.nonces))
    ok (record db { nonces = S.nonces.put (record live { used_at = some now }) db.nonces })

  unfoldable pub create_user : Text → ℕ → Db S → Result DbError (Db S)
  create_user id now db =
      if is_some (S.users.get id db.users)
      then err (p2002 primary_key)
      else ok (record db {
        users =
            S.users.put
              (record {
                id = id;
                default_receiving_currency = usdb;
                bonus_username_changes = 0;
                updated_at = now;
              })
              db.users;
      })

  abbrev pub bound_name : Attempt → Text → LightningName
  bound_name a username = record {
    id = a.fresh.name_id;
    username = username;
    user_id = a.fresh.user_id;
    linking_pub_key_hex = a.key;
    active = true;
    active_pub_key = some a.key;
    created_at = a.now;
  }

  abbrev create_account : Attempt → Text → Db S → Result DbError (Db S)
  create_account a username db = do
    db1 ← create_user a.fresh.user_id a.now db
    create_name S (bound_name a username) db1

  -- The transaction, which the database can abort.
  unfoldable pub bind : Attempt → Text → Db S → Result BindError (Db S)
  bind a username db = do
    db1 ← consume a.k1 a.now db
    db2 ← caught (create_account a username db1)
    elim a.outage [ none ↦ ok db2 | some e ↦ err (of_db_error e) ]

  -- `verifyAndBindUsername`: the state after it where it answers OK.
  unfoldable pub verify_and_bind_username : Attempt → Reads → Db S → Result BindError (Db S)
  verify_and_bind_username a reads db = do username ← check a reads; bind a username db

  -- `handleAuthCallback`: the four parameters are looked for in this order.
  unfoldable pub handle_auth_callback : Attempt → Reads → Db S → Result CallbackError (Db S)
  handle_auth_callback a reads db = do
    throw_if (is_empty a.raw_username) username_missing
    throw_if (is_empty a.k1) k1_missing
    throw_if (is_empty a.sig) sig_missing
    throw_if (is_empty a.key) key_missing
    map_err refused (verify_and_bind_username a reads db)
