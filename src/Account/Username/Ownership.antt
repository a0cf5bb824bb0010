-- ===== src/Account/Username/Ownership.antt =====
-- What a change of username keeps, whatever other requests write in between.
use spark_ln_address.Prelude.{
  ◌∙◌, ◌≡◌, refl, Bool-cases, inl, inr, Option, none, some, Text, Result, ok, err, >>=-ok, arith,
}
use spark_ln_address.Database.{Storage, Db}
use spark_ln_address.Database.Rows.{LightningName}
use spark_ln_address.Names.Ledger.{
  DbError, retired, activated, update_name, create_name, is_unique_violation,
}
use spark_ln_address.Names.Ledger.Uniqueness.{
  IsConsistent, Keeps, Keeps-refl, Keeps-trans, KeepsRow, update_name-IsConsistent,
  create_name-IsConsistent, update_name-Keeps, create_name-Keeps,
}
use spark_ln_address.Account.Username.{
  Reads, Prepared, answered, planned, transact, conclude, perform, prepare, change_username,
  new_name,
}
use spark_ln_address.Account.Terms.{Config, State, NewRow, ChangeError}

module _ (S : Storage) (config : Config) where
  pub retired-KeepsRow : (n : LightningName) → KeepsRow S n (retired n)
  retired-KeepsRow n = record {
    id = refl;
    username = refl;
    user_id = refl;
    linking_pub_key_hex = refl;
  }

  pub activated-KeepsRow : (key : Text) (n : LightningName) → KeepsRow S n (activated key n)
  activated-KeepsRow key n = record {
    id = refl;
    username = refl;
    user_id = refl;
    linking_pub_key_hex = refl;
  }

  pub transact-IsConsistent :
      (user username : Text) (s : State) (owned : Option LightningName) (fresh : NewRow)
      (db db' : Db S)
      → IsConsistent S db
      → transact S config user username s owned fresh db ≡ ok db'
      → IsConsistent S db'
  unfolding transact
  transact-IsConsistent user username s (some owned) fresh db db' h e =
      let (db1, e1, e2) =
        >>=-ok (update_name S s.active.id retired db)
          (λ d. update_name S owned.id (activated owned.linking_pub_key_hex) d) e in
      update_name-IsConsistent S owned.id (activated owned.linking_pub_key_hex) db1 db' (λ n. refl)
        (update_name-IsConsistent S s.active.id retired db db1 (λ n. refl) h e1) e2
  transact-IsConsistent user username s none fresh db db' h e =
      let (db1, e1, e2) =
        >>=-ok (update_name S s.active.id retired db)
          (λ d. create_name S (new_name S config user username s fresh) d) e in
      create_name-IsConsistent S (new_name S config user username s fresh) db1 db' refl
        (update_name-IsConsistent S s.active.id retired db db1 (λ n. refl) h e1) e2

  pub transact-Keeps :
      (user username : Text) (s : State) (owned : Option LightningName) (fresh : NewRow)
      (db db' : Db S)
      → transact S config user username s owned fresh db ≡ ok db'
      → Keeps S db db'
  unfolding transact
  transact-Keeps user username s (some owned) fresh db db' e =
      let (db1, e1, e2) =
        >>=-ok (update_name S s.active.id retired db)
          (λ d. update_name S owned.id (activated owned.linking_pub_key_hex) d) e in
      Keeps-trans S db db1 db' (update_name-Keeps S s.active.id retired db db1 retired-KeepsRow e1)
        (update_name-Keeps S owned.id (activated owned.linking_pub_key_hex) db1 db'
          (activated-KeepsRow owned.linking_pub_key_hex) e2)
  transact-Keeps user username s none fresh db db' e =
      let (db1, e1, e2) =
        >>=-ok (update_name S s.active.id retired db)
          (λ d. create_name S (new_name S config user username s fresh) d) e in
      Keeps-trans S db db1 db' (update_name-Keeps S s.active.id retired db db1 retired-KeepsRow e1)
        (create_name-Keeps S (new_name S config user username s fresh) db1 db' e2)

  conclude-induction :
      (P : Db S → Type 0) (user username : Text) (s : State) (owned : Option LightningName)
      (reread db : Db S) (r : Result DbError (Db S))
      → P db
      → ((d : Db S) → r ≡ ok d → P d)
      → P ((conclude S config user username s owned reread db r).1)
  unfolding conclude
  conclude-induction P user username s owned reread db (ok d) h g = g d refl
  conclude-induction P user username s owned reread db (err e) h g =
      elim (Bool-cases (is_unique_violation e)) [ inl q ↦ rw q h | inr q ↦ rw q h ]

  -- What the state has and every transaction which commits keeps, a request keeps.
  pub perform-induction :
      (P : Db S → Type 0) (user : Text) (fresh : NewRow) (reads : Reads S config) (db : Db S)
      (r : Result ChangeError (Prepared S config))
      → P db
      → ((s : State) (owned : Option LightningName) (username : Text) (db' : Db S)
          → r ≡ ok (planned s owned username)
          → transact S config user username s owned fresh db ≡ ok db'
          → P db')
      → P ((perform S config user fresh reads db r).1)
  unfolding perform
  perform-induction P user fresh reads db (err e) h k = h
  perform-induction P user fresh reads db (ok (answered _)) h k = h
  perform-induction P user fresh reads db (ok (planned s owned username)) h k =
      conclude-induction P user username s owned reads.reread db
        (transact S config user username s owned fresh db) h (λ d. k s owned username d refl)

  -- A change of username keeps the names consistent: no two rows with one username or one active
  -- key, and an active key in a row exactly where it is active, whatever the request read before
  -- its transaction.
  pub change_username-IsConsistent :
      (user raw_username : Text) (fresh : NewRow) (reads : Reads S config) (db : Db S)
      → IsConsistent S db
      → IsConsistent S ((change_username S config user raw_username fresh reads db).1)
  unfolding change_username
  change_username-IsConsistent user raw_username fresh reads db h =
      perform-induction (IsConsistent S) user fresh reads db
        (prepare S config user raw_username reads) h
        (λ s owned username db' _. transact-IsConsistent user username s owned fresh db db' h)

  -- keeps
  pub change_username-Keeps :
      (user raw_username : Text) (fresh : NewRow) (reads : Reads S config) (db : Db S)
      → Keeps S db ((change_username S config user raw_username fresh reads db).1)
  unfolding change_username
  change_username-Keeps user raw_username fresh reads db =
      perform-induction (Keeps S db) user fresh reads db (prepare S config user raw_username reads)
        (Keeps-refl S db)
        (λ s owned username db' _. transact-Keeps user username s owned fresh db db')

  -- On a database whose names are consistent, a row that has a stored username after a change of
  -- username, whatever the request read before its transaction, is the row that had it before,
  -- with the same owner: a retired name is claimed by nobody else.
  pub name_keeps_owner :
      (user raw_username : Text) (fresh : NewRow) (reads : Reads S config) (db : Db S) (j k : Text)
      (a b : LightningName)
      → IsConsistent S db
      → S.names.get j db.names ≡ some a
      → S.names.get k ((change_username S config user raw_username fresh reads db).1).names ≡ some b
      → a.username ≡ b.username
      → (j ≡ k) × (b.user_id ≡ a.user_id)
  name_keeps_owner user raw_username fresh reads db j k a b h p q e =
      let after = change_username-IsConsistent user raw_username fresh reads db h in
      let (c, r, n, o, l) = (change_username-Keeps user raw_username fresh reads db).kept j a p in
      let same = after.username_once j k c b r q (n ∙ e) in (same, ground (arith, same, o))
