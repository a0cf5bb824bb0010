-- ===== src/Database/Tables.antt =====
-- A table of the database, through the Prisma calls that the services make: an interface of
-- operations with the documented behaviour of each.
use spark_ln_address.Prelude.{
  suc, ◌≡◌, Bool, true, false, List, Option, none, some, Text, text_eq, if◌then◌else◌, length, All,
  any,
}

-- `get` is `findUnique` by the primary key, `find` is `findFirst`, or `findUnique` by another
-- column, `select` is `findMany`, `put` writes one row by its key (`create` of a fresh key, or
-- `update`), and `remove` deletes by the key.
pub record Table (Row : Type 0) (key : Row → Text) : Type 1 where
  pub Rows : Type 0
  pub empty : Rows
  pub get : Text → Rows → Option Row
  pub find : (Row → Bool) → Rows → Option Row
  pub select : (Row → Bool) → Rows → List Row
  pub put : Row → Rows → Rows
  pub remove : Text → Rows → Rows
  pub get-empty : (k : Text) → get k empty ≡ none
  pub get-put :
      (k : Text) (r : Row) (t : Rows)
      → get k (put r t) ≡ (if text_eq (key r) k then some r else get k t)
  pub get-remove :
      (k j : Text) (t : Rows) → get k (remove j t) ≡ (if text_eq j k then none else get k t)
  pub get_key : (k : Text) (t : Rows) (r : Row) → get k t ≡ some r → key r ≡ k
  pub find_sound :
      (p : Row → Bool) (t : Rows) (r : Row)
      → find p t ≡ some r
      → (p r ≡ true) × (get (key r) t ≡ some r)
  pub find_complete :
      (p : Row → Bool) (t : Rows) (k : Text) (r : Row)
      → find p t ≡ none
      → get k t ≡ some r
      → p r ≡ false
  pub select_sound :
      (p : Row → Bool) (t : Rows) → All (λ r. (p r ≡ true) × (get (key r) t ≡ some r)) (select p t)
  pub select_complete :
      (p : Row → Bool) (t : Rows) (k : Text) (r : Row)
      → get k t ≡ some r
      → p r ≡ true
      → any (λ q. text_eq (key q) k) (select p t) ≡ true
  -- A new row is one row more of those that it is among; a row rewritten as one of the same kind
  -- leaves their number.
  pub count_new :
      (p : Row → Bool) (r : Row) (t : Rows)
      → get (key r) t ≡ none
      → length (select p (put r t))
        ≡ (if p r then suc (length (select p t)) else length (select p t))
  pub count_same :
      (p : Row → Bool) (r q : Row) (t : Rows)
      → get (key r) t ≡ some q
      → p q ≡ p r
      → length (select p (put r t)) ≡ length (select p t)
