-- ===== src/Names/Ledger/Uniqueness.antt =====
-- What every write of a name keeps: the two unique indexes, the mirror of `active` in
-- `activePubKey`, and the rows that are there.
use spark_ln_address.Prelude.{
  ◌∙◌, ap, Bool-cases, inl, inr, if◌then◌else◌, ◌≡◌, refl, true, Option, some, is_some, Text,
  text_eq, text_eq_iff, text_eq_refl, ok, >>=-ok, or_throw, arith,
}
use spark_ln_address.Database.{Storage, Db}
use spark_ln_address.Database.Rows.{LightningName}
use spark_ln_address.Names.Ledger.{
  same_key, with_username, with_active_pub_key, write_name, update_name, create_name, p2025,
}

module _ (S : Storage) where
  -- No username and no active key stands in two rows, and a row has an active key while it is
  -- active.
  pub record IsConsistent (db : Db S) : Type 0 where
    pub username_once :
        (j k : Text) (a b : LightningName)
        → S.names.get j db.names ≡ some a
        → S.names.get k db.names ≡ some b
        → a.username ≡ b.username
        → j ≡ k
    pub active_once :
        (j k p : Text) (a b : LightningName)
        → S.names.get j db.names ≡ some a
        → S.names.get k db.names ≡ some b
        → a.active_pub_key ≡ some p
        → b.active_pub_key ≡ some p
        → j ≡ k
    pub mirrored :
        (k : Text) (a : LightningName)
        → S.names.get k db.names ≡ some a
        → is_some a.active_pub_key ≡ a.active

  -- Each row of the first state is in the second with its name, its owner and its key.
  pub record Keeps (before after : Db S) : Type 0 where
    pub kept :
        (k : Text) (a : LightningName)
        → S.names.get k before.names ≡ some a
        → (b : LightningName) × (S.names.get k after.names ≡ some b)
          × (b.username ≡ a.username)
          × (b.user_id ≡ a.user_id)
          × (b.linking_pub_key_hex ≡ a.linking_pub_key_hex)

  same_key_refl : (k p : Text) (a b : Option Text) → a ≡ some p → b ≡ some p → same_key a b ≡ true
  same_key_refl k p a b h e = rw (h, e) (text_eq_refl p)

  pub write_name-IsConsistent :
      (row : LightningName) (db db' : Db S)
      → is_some row.active_pub_key ≡ row.active
      → IsConsistent db
      → write_name S row db ≡ ok db'
      → IsConsistent db'
  unfolding write_name
  write_name-IsConsistent row db db' m h e = record {
    username_once = λ j k a b p q r. ground (
      arith,
      h.username_once j k a b,
      S.names.get-put j row db.names,
      S.names.get-put k row db.names,
      S.names.find_complete (with_username row) db.names j a,
      S.names.find_complete (with_username row) db.names k b,
      text_eq_iff row.id j,
      text_eq_iff row.id k,
      text_eq_iff a.username row.username,
      text_eq_iff b.username row.username,
      S.names.get_key j db.names a,
      S.names.get_key k db.names b,
      text_eq_iff a.id row.id,
      text_eq_iff b.id row.id,
    );
    active_once = λ j k p a b u v s t. ground (
      arith,
      h.active_once j k p a b,
      S.names.get-put j row db.names,
      S.names.get-put k row db.names,
      S.names.find_complete (with_active_pub_key row) db.names j a,
      S.names.find_complete (with_active_pub_key row) db.names k b,
      text_eq_iff row.id j,
      text_eq_iff row.id k,
      text_eq_refl p,
      S.names.get_key j db.names a,
      S.names.get_key k db.names b,
      text_eq_iff a.id row.id,
      text_eq_iff b.id row.id,
    );
    mirrored = λ k a u.
        ground (arith, h.mirrored k a, S.names.get-put k row db.names, text_eq_iff row.id k);
  }

  pub update_name-IsConsistent :
      (id : Text) (change : LightningName → LightningName) (db db' : Db S)
      → ((n : LightningName) → is_some (change n).active_pub_key ≡ (change n).active)
      → IsConsistent db
      → update_name S id change db ≡ ok db'
      → IsConsistent db'
  unfolding update_name
  update_name-IsConsistent id change db db' m h e =
      let (n, _, w) =
        >>=-ok (or_throw (S.names.get id db.names) p2025) (λ n. write_name S (change n) db) e in
      write_name-IsConsistent (change n) db db' (m n) h w

  pub create_name-IsConsistent :
      (row : LightningName) (db db' : Db S)
      → is_some row.active_pub_key ≡ row.active
      → IsConsistent db
      → create_name S row db ≡ ok db'
      → IsConsistent db'
  unfolding create_name
  create_name-IsConsistent row db db' m h e = write_name-IsConsistent row db db' m h (ground arith)

  pub Keeps-refl : (db : Db S) → Keeps db db
  Keeps-refl db = record { kept = λ k a h. (a, h, refl, refl, refl) }

  pub Keeps-trans : (a b c : Db S) → Keeps a b → Keeps b c → Keeps a c
  Keeps-trans a b c h g = record {
    kept = λ k x p.
        let (y, q, n, o, l) = h.kept k x p in
        let (z, r, m, u, v) = g.kept k y q in (z, r, m ∙ n, u ∙ o, v ∙ l);
  }

  -- A change of a row that keeps the columns of its identity.
  pub record KeepsRow (n m : LightningName) : Type 0 where
    pub id : m.id ≡ n.id
    pub username : m.username ≡ n.username
    pub user_id : m.user_id ≡ n.user_id
    pub linking_pub_key_hex : m.linking_pub_key_hex ≡ n.linking_pub_key_hex

  write_name-get :
      (row : LightningName) (db db' : Db S) (k : Text)
      → write_name S row db ≡ ok db'
      → S.names.get k db'.names ≡ (if text_eq row.id k then some row else S.names.get k db.names)
  unfolding write_name
  write_name-get row db db' k e = ground (arith, S.names.get-put k row db.names)

  write_name-Keeps :
      (n row : LightningName) (db db' : Db S)
      → S.names.get row.id db.names ≡ some n
      → KeepsRow n row
      → write_name S row db ≡ ok db'
      → Keeps db db'
  write_name-Keeps n row db db' g m e = record {
    kept = λ k a p. elim (Bool-cases (text_eq row.id k)) [
      | inl h ↦
          let same : n ≡ a = ground (arith, text_eq_iff row.id k) in
          (
            row,
            ground (arith, write_name-get row db db' k e),
            m.username ∙ ap (λ x. x.username) same,
            m.user_id ∙ ap (λ x. x.user_id) same,
            m.linking_pub_key_hex ∙ ap (λ x. x.linking_pub_key_hex) same,
          )
      | inr h ↦ (a, ground (arith, write_name-get row db db' k e), refl, refl, refl)
    ];
  }

  pub update_name-Keeps :
      (id : Text) (change : LightningName → LightningName) (db db' : Db S)
      → ((n : LightningName) → KeepsRow n (change n))
      → update_name S id change db ≡ ok db'
      → Keeps db db'
  unfolding update_name
  update_name-Keeps id change db db' m e =
      let (n, g, w) =
        >>=-ok (or_throw (S.names.get id db.names) p2025) (λ n. write_name S (change n) db) e in
      write_name-Keeps n (change n) db db' (own n g) (m n) w
    where
      own :
          (n : LightningName)
          → or_throw (S.names.get id db.names) p2025 ≡ ok n
          → S.names.get (change n).id db.names ≡ some n
      own n g = ground (arith, S.names.get_key id db.names n, (m n).id)

  pub create_name-Keeps :
      (row : LightningName) (db db' : Db S) → create_name S row db ≡ ok db' → Keeps db db'
  unfolding create_name write_name
  create_name-Keeps row db db' e = record {
    kept = λ k a p.
        (a, ground (arith, S.names.get-put k row db.names, text_eq_iff row.id k), refl, refl, refl);
  }
