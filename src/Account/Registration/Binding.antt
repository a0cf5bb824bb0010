-- ===== src/Account/Registration/Binding.antt =====
-- What a registration proves before it binds a name, and what it keeps.
use spark_ln_address.Prelude.{
  ap, sym, ◌∙◌, ℕ, ◌≡◌, refl, Option-cases, inl, inr, Option, Text, Result, ok, err, >>=-ok,
  Result-cases, arith,
}
use spark_ln_address.Database.{Storage, Db}
use spark_ln_address.Names.Ledger.{create_name, write_name}
use spark_ln_address.Names.Ledger.Uniqueness.{IsConsistent, create_name-IsConsistent}
use spark_ln_address.Auth.Crypto.{Crypto}
use spark_ln_address.Account.Registration.{
  Attempt, Reads, BindError, check, consume, create_user, create_account, bind, bound_name,
  verify_and_bind_username, is_live,
}

module _ (S : Storage) (crypto : Crypto) (reserved_usernames : Option Text) where
  pub create_account_keeps_nonces :
      (a : Attempt) (username : Text) (db db' : Db S)
      → create_account S crypto reserved_usernames a username db ≡ ok db'
      → db'.nonces ≡ db.nonces
  unfolding create_user create_name write_name
  create_account_keeps_nonces a username db db' e = ground arith

  -- The stages of a registration that was answered with OK.
  pub record Bound (a : Attempt) (reads : Reads S crypto reserved_usernames) (db db' : Db S)
      : Type 0 where
    pub username : Text
    pub checked : check S crypto reserved_usernames a reads ≡ ok username
    pub consumed : Db S
    pub consumes : consume S crypto reserved_usernames a.k1 a.now db ≡ ok consumed
    pub creates : create_account S crypto reserved_usernames a username consumed ≡ ok db'

  bind_stages :
      (a : Attempt) (username : Text) (reads : Reads S crypto reserved_usernames) (db db' : Db S)
      → check S crypto reserved_usernames a reads ≡ ok username
      → bind S crypto reserved_usernames a username db ≡ ok db'
      → Bound a reads db db'
  unfolding bind
  bind_stages a username reads db db' c e =
      elim (Result-cases (consume S crypto reserved_usernames a.k1 a.now db)) [
        | inr (x, h) ↦ ground arith
        | inl (d, h) ↦
            elim (Result-cases (create_account S crypto reserved_usernames a username d)) [
              | inr (x, g) ↦ ground arith
              | inl (d', g) ↦ record {
                username = username;
                checked = c;
                consumed = d;
                consumes = h;
                creates = ground arith;
              }
            ]
      ]

  pub Bound-stages :
      (a : Attempt) (reads : Reads S crypto reserved_usernames) (db db' : Db S)
      → verify_and_bind_username S crypto reserved_usernames a reads db ≡ ok db'
      → Bound a reads db db'
  unfolding verify_and_bind_username
  Bound-stages a reads db db' e =
      let (u, c, b) =
        >>=-ok (check S crypto reserved_usernames a reads)
          (λ u. bind S crypto reserved_usernames a u db) e in
      bind_stages a u reads db db' c b

  abbrev pub settle : Db S → Result BindError (Db S) → Db S
  settle db (ok db') = db'
  settle db (err e) = db

  pub settle-induction :
      (P : Db S → Type 0) (db : Db S) (r : Result BindError (Db S))
      → P db
      → ((d : Db S) → r ≡ ok d → P d)
      → P (settle db r)
  settle-induction P db (ok d) h k = k d refl
  settle-induction P db (err e) h k = h

  -- The state after a registration, which a refusal leaves as it was.
  abbrev pub after : Attempt × Reads S crypto reserved_usernames → Db S → Db S
  after (a, reads) db = settle db (verify_and_bind_username S crypto reserved_usernames a reads db)

  consume_keeps_names :
      (k1 : Text) (now : ℕ) (db db' : Db S)
      → consume S crypto reserved_usernames k1 now db ≡ ok db'
      → db'.names ≡ db.names
  unfolding consume
  consume_keeps_names k1 now db db' e =
      elim (Option-cases (S.nonces.find (is_live k1 now) db.nonces)) [
        | inl f ↦ ground arith
        | inr (l, f) ↦ ground arith
      ]

  create_user_keeps_names :
      (id : Text) (now : ℕ) (db db' : Db S)
      → create_user S crypto reserved_usernames id now db ≡ ok db'
      → db'.names ≡ db.names
  unfolding create_user
  create_user_keeps_names id now db db' e = ground arith

  IsConsistent-cong :
      (db db' : Db S) → db'.names ≡ db.names → IsConsistent S db → IsConsistent S db'
  IsConsistent-cong db db' e h = record {
    username_once = λ j k a b p q.
        h.username_once j k a b (ap (S.names.get j) (sym e) ∙ p) (ap (S.names.get k) (sym e) ∙ q);
    active_once = λ j k x a b p q.
        h.active_once j k x a b (ap (S.names.get j) (sym e) ∙ p) (ap (S.names.get k) (sym e) ∙ q);
    mirrored = λ k a p. h.mirrored k a (ap (S.names.get k) (sym e) ∙ p);
  }

  -- A registration, whether it succeeds or fails, keeps the names consistent: no two rows with one
  -- username or one active key, and an active key in a row exactly where it is active.
  pub register-IsConsistent :
      (a : Attempt) (reads : Reads S crypto reserved_usernames) (db : Db S)
      → IsConsistent S db
      → IsConsistent S (after (a, reads) db)
  register-IsConsistent a reads db h =
      settle-induction (IsConsistent S) db
        (verify_and_bind_username S crypto reserved_usernames a reads db) h
        λ d e.
          let b = Bound-stages a reads db d e in
          let (x, u, n) =
            >>=-ok (create_user S crypto reserved_usernames a.fresh.user_id a.now b.consumed)
              (create_name S (bound_name S crypto reserved_usernames a b.username)) b.creates in
          create_name-IsConsistent S (bound_name S crypto reserved_usernames a b.username) x d refl
            (IsConsistent-cong db x
              (create_user_keeps_names a.fresh.user_id a.now b.consumed x u
                ∙ consume_keeps_names a.k1 a.now db b.consumed b.consumes)
              h)
            n
