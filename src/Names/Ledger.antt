-- ===== src/Names/Ledger.antt =====
-- prisma/schema.prisma, `LightningName`: the writes of its rows, with the unique indexes on
-- `username` and `activePubKey` that the services rely on, and the columns a write changes.
pub mod Uniqueness
use spark_ln_address.Prelude.{
  ◌>>=◌, ◌>>◌, Bool, true, false, not, ◌&&◌, if◌then◌else◌, Option, none, some, is_some, Text,
  codes, text_eq, includes, Result, ok, err, or_throw,
}
use spark_ln_address.Database.{Storage, Db}
use spark_ln_address.Database.Rows.{LightningName}

-- The errors of Prisma that the services tell apart. P2002 carries the index that was violated.
pub data DbError : Type 0 where
  p2002 : Text → DbError
  p2003 p2025 p2028 p2034 : DbError

abbrev pub username_key : Text
username_key = codes "LightningName_username_key"

abbrev pub active_pub_key_key : Text
active_pub_key_key = codes "LightningName_activePubKey_key"

abbrev pub primary_key : Text
primary_key = codes "PRIMARY"

-- A unique index admits any number of nulls.
abbrev pub same_key : Option Text → Option Text → Bool
same_key (some a) (some b) = text_eq a b
same_key _ _ = false

abbrev pub with_username : LightningName → LightningName → Bool
with_username row n = text_eq n.username row.username && not (text_eq n.id row.id)

abbrev pub with_active_pub_key : LightningName → LightningName → Bool
with_active_pub_key row n =
    same_key n.active_pub_key row.active_pub_key && not (text_eq n.id row.id)

-- `data: { active: false, activePubKey: null }`.
abbrev pub retired : LightningName → LightningName
retired n = record n { active = false; active_pub_key = none }

-- `data: { active: true, activePubKey: key }`.
abbrev pub activated : Text → LightningName → LightningName
activated key n = record n { active = true; active_pub_key = some key }

module _ (S : Storage) where
  unfoldable pub write_name : LightningName → Db S → Result DbError (Db S)
  write_name row db =
      if is_some (S.names.find (with_username row) db.names)
      then err (p2002 username_key)
      else if is_some (S.names.find (with_active_pub_key row) db.names)
      then err (p2002 active_pub_key_key)
      else ok (record db { names = S.names.put row db.names })

  -- `tx.lightningName.update({ where: { id }, data })`.
  unfoldable pub update_name : Text → (LightningName → LightningName) → Db S → Result DbError (Db S)
  update_name id change db = do
    current ← or_throw (S.names.get id db.names) p2025
    write_name (change current) db

  -- `tx.lightningName.create({ data })`, with the foreign key on `userId`.
  unfoldable pub create_name : LightningName → Db S → Result DbError (Db S)
  create_name row db =
      if is_some (S.names.get row.id db.names)
      then err (p2002 primary_key)
      else if is_some (S.users.get row.user_id db.users)
      then write_name row db
      else err p2003

-- `isUniqueViolation` and `isUniqueViolationOn`.
abbrev pub is_unique_violation : DbError → Bool
is_unique_violation (p2002 target) = true
is_unique_violation _ = false

abbrev pub is_unique_violation_on : DbError → Text → Bool
is_unique_violation_on (p2002 target) column = includes column target
is_unique_violation_on _ column = false
