-- ===== src/Account/Registration/Challenge.antt =====
-- How often a challenge can be used.
use spark_ln_address.Prelude.{
  ap, sym, ◌∙◌, ℕ, ◌≡◌, ◌≢◌, true, Option-cases, inl, inr, Option, some, is_some, List, [], ◌∷◌,
  Text, text_eq_iff, ok, arith,
}
use mathlib.Core.Path.{subst}
use spark_ln_address.Database.{Storage, Db}
use spark_ln_address.Database.Rows.{AuthNonce}
use spark_ln_address.Auth.Crypto.{Crypto}
use spark_ln_address.Account.Registration.{
  Attempt, Reads, consume, verify_and_bind_username, is_live,
}
use spark_ln_address.Account.Registration.Binding.{
  Bound-stages, create_account_keeps_nonces, settle-induction, after,
}

module _ (S : Storage) (crypto : Crypto) (reserved_usernames : Option Text) where
  -- No two challenges have one k1, as the unique index of the schema keeps it.
  pub record HasUniqueNonces (db : Db S) : Type 0 where
    pub once :
        (i j : Text) (m n : AuthNonce)
        → S.nonces.get i db.nonces ≡ some m
        → S.nonces.get j db.nonces ≡ some n
        → m.k1 ≡ n.k1
        → i ≡ j

  -- Every challenge with this k1 was used.
  record IsSpent (k1 : Text) (db : Db S) : Type 0 where
    spent :
        (i : Text) (n : AuthNonce)
        → S.nonces.get i db.nonces ≡ some n
        → n.k1 ≡ k1
        → is_some n.used_at ≡ true

  consume_spends :
      (k1 : Text) (now : ℕ) (db db' : Db S)
      → HasUniqueNonces db
      → consume S crypto reserved_usernames k1 now db ≡ ok db'
      → IsSpent k1 db'
  unfolding consume
  consume_spends k1 now db db' h e =
      elim (Option-cases (S.nonces.find (is_live k1 now) db.nonces)) [
        | inl f ↦ ground arith
        | inr (l, f) ↦ record {
          spent = λ i n g q. ground (
            arith,
            S.nonces.find_sound (is_live k1 now) db.nonces l,
            S.nonces.get-put i (record l { used_at = some now }) db.nonces,
            h.once i l.id n l,
            text_eq_iff l.id i,
            text_eq_iff l.k1 k1,
          );
        }
      ]

  consume_keeps_IsSpent :
      (k1 k2 : Text) (now : ℕ) (db db' : Db S)
      → IsSpent k1 db
      → consume S crypto reserved_usernames k2 now db ≡ ok db'
      → IsSpent k1 db'
  unfolding consume
  consume_keeps_IsSpent k1 k2 now db db' h e =
      elim (Option-cases (S.nonces.find (is_live k2 now) db.nonces)) [
        | inl f ↦ ground arith
        | inr (l, f) ↦ record {
          spent = λ i n g q.
              ground (
                arith,
                h.spent i n,
                S.nonces.get-put i (record l { used_at = some now }) db.nonces,
              );
        }
      ]

  consume_of_spent :
      (k1 : Text) (now : ℕ) (db db' : Db S)
      → IsSpent k1 db
      → consume S crypto reserved_usernames k1 now db ≢ ok db'
  unfolding consume
  consume_of_spent k1 now db db' h e =
      elim (Option-cases (S.nonces.find (is_live k1 now) db.nonces)) [
        | inl f ↦ ground arith
        | inr (l, f) ↦ ground (
          arith,
          S.nonces.find_sound (is_live k1 now) db.nonces l,
          h.spent l.id l,
          text_eq_iff l.k1 k1,
        )
      ]

  IsSpent-cong :
      (k1 : Text) (db db' : Db S) → db'.nonces ≡ db.nonces → IsSpent k1 db → IsSpent k1 db'
  IsSpent-cong k1 db db' e h = record {
    spent = λ i n g q. h.spent i n (ap (S.nonces.get i) (sym e) ∙ g) q;
  }

  bind_spends :
      (a : Attempt) (reads : Reads S crypto reserved_usernames) (db db' : Db S)
      → HasUniqueNonces db
      → verify_and_bind_username S crypto reserved_usernames a reads db ≡ ok db'
      → IsSpent a.k1 db'
  bind_spends a reads db db' h e =
      let b = Bound-stages S crypto reserved_usernames a reads db db' e in
      IsSpent-cong a.k1 b.consumed db'
        (create_account_keeps_nonces S crypto reserved_usernames a b.username b.consumed db'
          b.creates)
        (consume_spends a.k1 a.now db b.consumed h b.consumes)

  pub run : List (Attempt × Reads S crypto reserved_usernames) → Db S → Db S
  run [] db = db
  run (a ∷ as') db = run as' (after S crypto reserved_usernames a db)

  after_keeps_IsSpent :
      (k1 : Text) (a : Attempt) (reads : Reads S crypto reserved_usernames) (db : Db S)
      → IsSpent k1 db
      → IsSpent k1 (after S crypto reserved_usernames (a, reads) db)
  after_keeps_IsSpent k1 a reads db h =
      settle-induction S crypto reserved_usernames (IsSpent k1) db
        (verify_and_bind_username S crypto reserved_usernames a reads db) h
        λ d e.
          let b = Bound-stages S crypto reserved_usernames a reads db d e in
          IsSpent-cong k1 b.consumed d
            (create_account_keeps_nonces S crypto reserved_usernames a b.username b.consumed d
              b.creates)
            (consume_keeps_IsSpent k1 a.k1 a.now db b.consumed h b.consumes)

  run_keeps_IsSpent :
      (k1 : Text) (others : List (Attempt × Reads S crypto reserved_usernames)) (db : Db S)
      → IsSpent k1 db
      → IsSpent k1 (run others db)
  unfolding run
  run_keeps_IsSpent k1 [] db h = h
  run_keeps_IsSpent k1 ((a, reads) ∷ others) db h =
      run_keeps_IsSpent k1 others (after S crypto reserved_usernames (a, reads) db)
        (after_keeps_IsSpent k1 a reads db h)

  -- Where no two challenges share a k1, after a registration that succeeded and any further
  -- registrations, no registration with the same k1 succeeds.
  pub k1_used_once :
      (a b : Attempt) (ra rb : Reads S crypto reserved_usernames)
      (others : List (Attempt × Reads S crypto reserved_usernames)) (db db' d : Db S)
      → HasUniqueNonces db
      → verify_and_bind_username S crypto reserved_usernames a ra db ≡ ok db'
      → b.k1 ≡ a.k1
      → verify_and_bind_username S crypto reserved_usernames b rb (run others db') ≢ ok d
  k1_used_once a b ra rb others db db' d h e q x =
      let later = run_keeps_IsSpent a.k1 others db' (bind_spends a ra db db' h e) in
      let c = Bound-stages S crypto reserved_usernames b rb (run others db') d x in
      consume_of_spent b.k1 b.now (run others db') c.consumed
        (subst (λ k. IsSpent k (run others db')) (sym q) later) c.consumes
