-- ===== src/Account/Terms.antt =====
-- src/username/dto/username-response.dto.ts and the helpers of src/username/username.service.ts: the
-- values that the service answers with.
use spark_ln_address.Prelude.{
  ◌>>=◌, ◌>>◌, ℕ, ◌-◌, Bool, ◌&&◌, ◌||◌, not, leb, if◌then◌else◌, Option, List, [], ◌∷◌, ◌++◌, Text,
  codes, text_eq, Result, ok, throw_if, or_throw, is_empty,
}
use spark_ln_address.Database.Rows.{LightningName}
use spark_ln_address.Names.Ledger.{DbError}

abbrev pub default_new_name_allowance : ℕ
default_new_name_allowance = 2

pub data ChangeError : Type 0 where
  invalid_username same_username username_reserved change_limit_reached : ChangeError
  username_taken change_in_progress no_active_name no_user unconfigured : ChangeError
  database : DbError → ChangeError

-- RESERVED_USERNAMES, PUBLIC_BASE_URL, and `new URL(_).hostname`, with `none` where it throws.
pub record Config : Type 0 where
  pub reserved_usernames : Option Text
  pub public_base_url : Option Text
  pub hostname : Text → Option Text

pub record Quota : Type 0 where
  pub changes_used : ℕ
  pub changes_limit : ℕ
  pub changes_remaining : ℕ

pub record HistoryEntry : Type 0 where
  pub username : Text
  pub active : Bool
  pub claimed_at : ℕ

pub record UsernameInfo : Type 0 where
  pub quota : Quota
  pub username : Text
  pub lightning_address : Text
  pub history : List HistoryEntry

pub record ChangeUsernameResponse : Type 0 where
  pub quota : Quota
  pub username : Text
  pub lightning_address : Text
  pub switched_back : Bool

-- What `loadState` returns.
pub record State : Type 0 where
  pub rows : List LightningName
  pub active : LightningName
  pub changes_limit : ℕ

abbrev pub owned_by : Text → LightningName → Bool
owned_by user n = text_eq n.user_id user

abbrev pub precedes : LightningName → LightningName → Bool
precedes a b =
    if a.active
    then not b.active || leb a.created_at b.created_at
    else not b.active && leb a.created_at b.created_at

unfoldable pub insert_name : LightningName → List LightningName → List LightningName
insert_name a [] = a ∷ []
insert_name a (b ∷ bs) = if precedes a b then a ∷ b ∷ bs else b ∷ insert_name a bs

-- `orderBy: [{ active: 'desc' }, { createdAt: 'asc' }]`.
unfoldable pub by_activity : List LightningName → List LightningName
by_activity [] = []
by_activity (a ∷ bs) = insert_name a (by_activity bs)

-- `buildQuota`, of the number of rows.
unfoldable pub build_quota : ℕ → ℕ → Quota
build_quota rows changes_limit =
    let changes_used = rows - 1 in
    record {
      changes_used = changes_used;
      changes_limit = changes_limit;
      changes_remaining = changes_limit - changes_used;
    }

unfoldable pub to_lightning_address : Config → Text → Result ChangeError Text
to_lightning_address config username = do
  base ← or_throw config.public_base_url unconfigured
  throw_if (is_empty base) unconfigured
  host ← or_throw (config.hostname base) unconfigured
  ok (username ++ (codes "@" ++ host))

-- The values that the database supplies to one insert.
pub record NewRow : Type 0 where
  pub id : Text
  pub now : ℕ
