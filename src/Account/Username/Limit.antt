-- ===== src/Account/Username/Limit.antt =====
-- The quota of new names: how many names a user can come to own.
use spark_ln_address.Prelude.{
  sym, ℕ, suc, ◌+◌, ◌-◌, ◌≤◌, ◌≡◌, refl, false, Bool-cases, inl, inr, if◌then◌else◌, Option, none,
  some, List, [], ◌∷◌, length, find, leb, Text, text_eq, text_eq_iff, ok, >>=-ok, Result-cases,
  arith, Option-cases, ap,
}
use spark_ln_address.Database.{Storage, Db}
use spark_ln_address.Database.Rows.{LightningName, User}
use spark_ln_address.Names.Ledger.{retired, activated, update_name, create_name, write_name}
use spark_ln_address.Names.Ledger.Uniqueness.{KeepsRow}
use spark_ln_address.Names.Normal.{normalize_username}
use spark_ln_address.Names.Reserved.{is_reserved_username}
use spark_ln_address.Account.Username.{
  Reads, planned, transact, prepare, change_username, new_name, load_state, check_claim,
  check_available,
}
use spark_ln_address.Account.Terms.{Config, State, NewRow, owned_by, insert_name, by_activity}
use spark_ln_address.Account.Username.Ownership.{
  perform-induction, retired-KeepsRow, activated-KeepsRow,
}

length-insert_name :
    (a : LightningName) (bs : List LightningName) → length (insert_name a bs) ≡ suc (length bs)
unfolding insert_name
length-insert_name a [] = refl
length-insert_name a (b ∷ bs) = ground (arith, length-insert_name a bs)

length-by_activity : (bs : List LightningName) → length (by_activity bs) ≡ length bs
unfolding by_activity
length-by_activity [] = refl
length-by_activity (b ∷ bs) =
    ground (arith, length-insert_name b (by_activity bs), length-by_activity bs)

module _ (S : Storage) (config : Config) where
  -- The number of names, active or retired, of a user.
  abbrev pub names_of : Text → Db S → ℕ
  names_of user db = length (S.names.select (owned_by user) db.names)

  -- Every user has at most the first name, the allowance and the names granted by support.
  pub record HasQuotas (db : Db S) : Type 0 where
    pub quota :
        (user : Text) (u : User)
        → S.users.get user db.users ≡ some u
        → names_of user db ≤ 3 + u.bonus_username_changes

  update_count :
      (id v : Text) (change : LightningName → LightningName) (db db' : Db S)
      → ((n : LightningName) → KeepsRow S n (change n))
      → update_name S id change db ≡ ok db'
      → (names_of v db' ≡ names_of v db) × (db'.users ≡ db.users)
  unfolding update_name write_name
  update_count id v change db db' m e = elim (Option-cases (S.names.get id db.names)) [
    | inl h ↦ ground arith
    | inr (n, h) ↦
        let there : S.names.get (change n).id db.names ≡ some n =
          ground (arith, S.names.get_key id db.names n, (m n).id) in
        let count =
          S.names.count_same (owned_by v) (change n) n db.names there
            (ap (λ u. text_eq u v) (sym (m n).user_id)) in
        ground (arith, count)
  ]

  create_count :
      (v : Text) (row : LightningName) (db db' : Db S)
      → create_name S row db ≡ ok db'
      → (names_of v db' ≡ (if text_eq row.user_id v then suc (names_of v db) else names_of v db))
        × (db'.users ≡ db.users)
  unfolding create_name write_name
  create_count v row db db' e = ground (arith, S.names.count_new (owned_by v) row db.names)

  -- The room that the checks leave for a new name.
  HasRoom : Text → Option LightningName → Db S → Type 0
  HasRoom user (some owned) db = Unit {0}
  HasRoom user none db =
      (u : User)
      → S.users.get user db.users ≡ some u
      → suc (names_of user db) ≤ 3 + u.bonus_username_changes

  transact-HasQuotas :
      (user username : Text) (s : State) (owned : Option LightningName) (fresh : NewRow)
      (db db' : Db S)
      → HasRoom user owned db
      → HasQuotas db
      → transact S config user username s owned fresh db ≡ ok db'
      → HasQuotas db'
  unfolding transact HasRoom
  transact-HasQuotas user username s (some owned) fresh db db' room h e =
      let (db1, e1, e2) =
        >>=-ok (update_name S s.active.id retired db)
          (λ d. update_name S owned.id (activated owned.linking_pub_key_hex) d) e in
      record {
        quota = λ v u g. ground (
          arith,
          h.quota v u,
          update_count s.active.id v retired db db1 (retired-KeepsRow S config) e1,
          update_count owned.id v (activated owned.linking_pub_key_hex) db1 db'
              (activated-KeepsRow S config owned.linking_pub_key_hex) e2,
        );
      }
  transact-HasQuotas user username s none fresh db db' room h e =
      let (db1, e1, e2) =
        >>=-ok (update_name S s.active.id retired db)
          (λ d. create_name S (new_name S config user username s fresh) d) e in
      record {
        quota = λ v u g. ground (
          arith,
          h.quota v u,
          room u,
          text_eq_iff user v,
          update_count s.active.id v retired db db1 (retired-KeepsRow S config) e1,
          create_count v (new_name S config user username s fresh) db1 db' e2,
        );
      }

  check_available_plans :
      (user username name : Text) (s t : State) (reads : Reads S config)
      (found owned : Option LightningName)
      → check_available S config user username s reads found ≡ ok (planned t owned name)
      → t ≡ s
  unfolding check_available
  check_available_plans user username name s t reads none owned e = cc
  check_available_plans user username name s t reads (some taken) owned e = ground arith

  -- A plan to claim a name comes from the state that was loaded, with a change left.
  claim_leaves_change :
      (user username name : Text) (s t : State) (reads : Reads S config)
      (owned : Option LightningName)
      → check_claim S config user username s reads ≡ ok (planned t owned name)
      → leb s.changes_limit (length s.rows - 1) ≡ false
  unfolding check_claim
  claim_leaves_change user username name s t reads owned e =
      elim (Bool-cases (leb s.changes_limit (length s.rows - 1))) [
        | inl h ↦ elim (Bool-cases (is_reserved_username username config.reserved_usernames)) [
          | inl r ↦ ground arith
          | inr r ↦ ground arith
        ]
        | inr h ↦ h
      ]

  load_state_counts :
      (user : Text) (db : Db S) (s : State) (u : User)
      → load_state S config user db ≡ ok s
      → S.users.get user db.users ≡ some u
      → (length s.rows ≡ names_of user db) × (s.changes_limit ≡ 2 + u.bonus_username_changes)
  unfolding load_state
  load_state_counts user db s u e h =
      ground (arith, length-by_activity (S.names.select (owned_by user) db.names))

  claim_leaves_room :
      (user raw_username name : Text) (reads : Reads S config) (s : State) (u : User)
      → prepare S config user raw_username reads ≡ ok (planned s none name)
      → S.users.get user reads.loaded.users ≡ some u
      → suc (names_of user reads.loaded) ≤ 3 + u.bonus_username_changes
  unfolding prepare
  claim_leaves_room user raw_username name reads s u e g =
      elim (Option-cases (normalize_username raw_username)) [
        | inl h ↦ ground arith
        | inr (username, h) ↦ elim (Result-cases (load_state S config user reads.loaded)) [
          | inr (x, l) ↦ ground arith
          | inl (t, l) ↦ elim (Bool-cases (text_eq t.active.username username)) [
            | inl b ↦ ground arith
            | inr b ↦ elim (Option-cases (find (λ r. text_eq r.username username) t.rows)) [
              | inr (o, f) ↦ ground arith
              | inl f ↦ ground (
                arith,
                claim_leaves_change user username name t s reads none,
                load_state_counts user reads.loaded t u l g,
              )
            ]
          ]
        ]
      ]

  prepare_leaves_room :
      (user raw_username name : Text) (reads : Reads S config) (s : State)
      (owned : Option LightningName)
      → prepare S config user raw_username reads ≡ ok (planned s owned name)
      → HasRoom user owned reads.loaded
  unfolding HasRoom
  prepare_leaves_room user raw_username name reads s (some owned) e = tt
  prepare_leaves_room user raw_username name reads s none e =
      λ u g. claim_leaves_room user raw_username name reads s u e g

  -- Where every user has at most three names and the names granted by support, a change of
  -- username keeps that bound for every user, if its transaction runs on the state that the
  -- request loaded.
  pub change_username-HasQuotas :
      (user raw_username : Text) (fresh : NewRow) (reads : Reads S config)
      → HasQuotas reads.loaded
      → HasQuotas ((change_username S config user raw_username fresh reads reads.loaded).1)
  unfolding change_username
  change_username-HasQuotas user raw_username fresh reads h =
      perform-induction S config HasQuotas user fresh reads reads.loaded
        (prepare S config user raw_username reads) h
        (λ s owned username db' p.
          transact-HasQuotas user username s owned fresh reads.loaded db'
            (prepare_leaves_room user raw_username username reads s owned p) h)
