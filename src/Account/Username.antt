-- ===== src/Account/Username.antt =====
-- src/username/username.service.ts, `UsernameService`. Between the awaits of one request others
-- may write: each phase takes the state of the database that it reads.
pub mod Ownership
pub mod Limit
use spark_ln_address.Prelude.{
  ◌>>=◌, ◌>>◌, ℕ, ◌+◌, ◌-◌, Bool, true, false, ◌&&◌, not, leb, if◌then◌else◌, Option, none, some,
  is_some, map, length, find, Text, codes, text_eq, Result, ok, err, throw_if, or_throw,
}
use spark_ln_address.Database.{Storage, Db}
use spark_ln_address.Database.Rows.{LightningName}
use spark_ln_address.Names.Normal.{normalize_username, to_lower_case}
use spark_ln_address.Names.Reserved.{is_reserved_username}
use spark_ln_address.Names.Ledger.{
  DbError, retired, activated, update_name, create_name, is_unique_violation,
  is_unique_violation_on,
}
use spark_ln_address.Account.Terms.{
  ChangeError, ChangeUsernameResponse, Config, NewRow, State, UsernameInfo, build_quota,
  by_activity, change_in_progress, change_limit_reached, database, default_new_name_allowance,
  invalid_username, no_active_name, no_user, owned_by, same_username, to_lightning_address,
  username_reserved, username_taken,
}

module _ (S : Storage) (config : Config) where
  unfoldable pub load_state : Text → Db S → Result ChangeError State
  load_state user db = do
    let rows = by_activity (S.names.select (owned_by user) db.names)
    owner ← or_throw (S.users.get user db.users) no_user
    active ← or_throw (find (λ n. n.active) rows) no_active_name
    ok (record {
      rows = rows;
      active = active;
      changes_limit = default_new_name_allowance + owner.bonus_username_changes;
    })

  unfoldable pub response : Text → Bool → ℕ → ℕ → Result ChangeError ChangeUsernameResponse
  response username switched_back rows changes_limit = do
    address ← to_lightning_address config username
    ok (record {
      quota = build_quota rows changes_limit;
      username = username;
      lightning_address = address;
      switched_back = switched_back;
    })

  unfoldable pub get_username_info : Text → Db S → Result ChangeError UsernameInfo
  get_username_info user db = do
    s ← load_state user db
    address ← to_lightning_address config s.active.username
    ok (record {
      quota = build_quota (length s.rows) s.changes_limit;
      username = s.active.username;
      lightning_address = address;
      history =
          map (λ r. record { username = r.username; active = r.active; claimed_at = r.created_at })
            s.rows;
    })

  -- The answer where the account is on `username` already, and `otherwise` elsewhere.
  unfoldable pub converged_response :
      Text → Text → Bool → Db S → ChangeError → Result ChangeError ChangeUsernameResponse
  converged_response user username switched_back db otherwise = do
    s ← load_state user db
    throw_if (not (text_eq s.active.username username)) otherwise
    response username switched_back (length s.rows) s.changes_limit

  -- The states that one request reads: in `loadState`, in `findUnique`, and once more where it
  -- looks for a change that another request made.
  pub record Reads : Type 0 where
    pub loaded : Db S
    pub checked : Db S
    pub reread : Db S

  -- The plan of the transaction, or the answer of a change that converged before it.
  pub data Prepared : Type 0 where
    answered : ChangeUsernameResponse → Prepared
    planned : State → Option LightningName → Text → Prepared

  unfoldable pub check_available :
      Text → Text → State → Reads → Option LightningName → Result ChangeError Prepared
  check_available user username s reads none = ok (planned s none username)
  check_available user username s reads (some taken) = do
    throw_if (not (text_eq taken.user_id user)) username_taken
    r ← converged_response user username false reads.reread username_taken
    ok (answered r)

  -- The checks on a name that the account does not own.
  unfoldable pub check_claim : Text → Text → State → Reads → Result ChangeError Prepared
  check_claim user username s reads = do
    throw_if (is_reserved_username username config.reserved_usernames) username_reserved
    throw_if (leb s.changes_limit (length s.rows - 1)) change_limit_reached
    check_available user username s reads
        (S.names.find (λ n. text_eq n.username username) reads.checked.names)

  -- `changeUsername`, up to its transaction.
  unfoldable pub prepare : Text → Text → Reads → Result ChangeError Prepared
  prepare user raw_username reads = do
    username ← or_throw (normalize_username raw_username) invalid_username
    s ← load_state user reads.loaded
    throw_if (text_eq s.active.username username) same_username
    elim (find (λ r. text_eq r.username username) s.rows) [
      | some owned ↦ ok (planned s (some owned) username)
      | none ↦ check_claim user username s reads
    ]

  abbrev pub new_name : Text → Text → State → NewRow → LightningName
  new_name user username s fresh = record {
    id = fresh.id;
    username = username;
    user_id = user;
    linking_pub_key_hex = s.active.linking_pub_key_hex;
    active = true;
    active_pub_key = some s.active.linking_pub_key_hex;
    created_at = fresh.now;
  }

  -- The transaction: the old name retires before the new one becomes active.
  unfoldable pub transact :
      Text → Text → State → Option LightningName → NewRow → Db S → Result DbError (Db S)
  transact user username s (some owned) fresh db = do
    db1 ← update_name S s.active.id retired db
    update_name S owned.id (activated owned.linking_pub_key_hex) db1
  transact user username s none fresh db = do
    db1 ← update_name S s.active.id retired db
    create_name S (new_name user username s fresh) db1

  -- The error of a transaction that was not committed.
  abbrev pub conflict_of : DbError → ChangeError
  conflict_of e =
      if is_unique_violation_on e (codes "username")
      then username_taken
      else if is_unique_violation_on e (codes "activePubKey")
      then change_in_progress
      else database e

  -- From the outcome of the transaction on `committing` to the answer.
  unfoldable pub conclude :
      Text
      → Text
      → State
      → Option LightningName
      → Db S
      → Db S
      → Result DbError (Db S)
      → Result ChangeError ChangeUsernameResponse × Db S
  conclude user username s owned reread committing (ok db) =
      let rows = if is_some owned then length s.rows else length s.rows + 1 in
      (response username (is_some owned) rows s.changes_limit, db)
  conclude user username s owned reread committing (err e) =
      if is_unique_violation e
      then (converged_response user username (is_some owned) reread (conflict_of e), committing)
      else (err (database e), committing)

  unfoldable pub perform :
      Text
      → NewRow
      → Reads
      → Db S
      → Result ChangeError Prepared
      → Result ChangeError ChangeUsernameResponse × Db S
  perform user fresh reads committing (err e) = (err e, committing)
  perform user fresh reads committing (ok (answered r)) = (ok r, committing)
  perform user fresh reads committing (ok (planned s owned username)) =
      conclude user username s owned reads.reread committing
        (transact user username s owned fresh committing)

  unfoldable pub change_username :
      Text → Text → NewRow → Reads → Db S → Result ChangeError ChangeUsernameResponse × Db S
  change_username user raw_username fresh reads committing =
      perform user fresh reads committing (prepare user raw_username reads)

  unfoldable pub resolve_active_by_pub_key : Text → Db S → Result ChangeError LightningName
  resolve_active_by_pub_key pub_key_hex db =
      or_throw
        (S.names.find (λ n. text_eq n.linking_pub_key_hex (to_lower_case pub_key_hex) && n.active)
          db.names)
        no_active_name

  unfoldable pub get_username_info_by_pub_key : Text → Db S → Result ChangeError UsernameInfo
  get_username_info_by_pub_key pub_key_hex db = do
    active ← resolve_active_by_pub_key pub_key_hex db
    get_username_info active.user_id db

  -- `tx.user.update({ data: { bonusUsernameChanges: { increment: amount } } })`.
  unfoldable pub grant : Text → ℕ → Db S → Result ChangeError (Db S)
  grant user amount db = do
    owner ← or_throw (S.users.get user db.users) no_user
    let raised = record owner { bonus_username_changes = owner.bonus_username_changes + amount }
    ok (record db { users = S.users.put raised db.users })

  unfoldable pub grant_extra_changes : Text → ℕ → Db S → Result ChangeError (UsernameInfo × Db S)
  grant_extra_changes pub_key_hex amount db = do
    active ← resolve_active_by_pub_key pub_key_hex db
    db' ← grant active.user_id amount db
    info ← get_username_info active.user_id db'
    ok (info, db')
