-- ===== src/Examples/Accounts.antt =====
-- A registration, and the change of its username.
use spark_ln_address.Prelude.{
  text_eq, false, Result, true, none, some, [], ◌∷◌, ◌≡◌, refl, ◌≢◌, Text, codes, text_eq_iff, ok,
  arith, replicate, decimal,
}
use spark_ln_address.Database.{Db, memory, empty_db}
use spark_ln_address.Database.Rows.{LightningName, usdb, sats}
use spark_ln_address.Database.Memory.{get_row}
use spark_ln_address.Auth.Crypto.{Crypto}
use spark_ln_address.Auth.Secp256k1.{verify_signature}
use spark_ln_address.Names.Normal.{normalize_username}
use spark_ln_address.Names.Reserved.{is_reserved_username}
use spark_ln_address.Names.Ledger.Uniqueness.{IsConsistent}
use spark_ln_address.Account.Registration.{Attempt, Reads, verify_and_bind_username, bound_name}
use spark_ln_address.Account.Registration.Binding.{after, register-IsConsistent}
use spark_ln_address.Account.Registration.Challenge.{HasUniqueNonces, run, k1_used_once}
use spark_ln_address.Names.Ledger.{DbError}
use spark_ln_address.Account.Preference.{CurrencyPreference, get_preference, set_preference}
use spark_ln_address.Account.Preference.RoundTrip.{set_then_get}
use spark_ln_address.Account.Username.{change_username}
use spark_ln_address.Account.Terms.{Config, NewRow}
use spark_ln_address.Account.Username
use spark_ln_address.Account.Username.Ownership.{change_username-IsConsistent, name_keeps_owner}
use spark_ln_address.Account.Username.Limit.{HasQuotas, change_username-HasQuotas}

-- A library that accepts every signature.
abbrev crypto : Crypto
crypto = record {
  utf8 = λ t. t;
  sha256_hex = λ bytes. bytes;
  verify = λ signature message key. some true;
  point_forms = λ key. none;
  number_of = λ t. some (decimal t);
}

abbrev challenge : Text
challenge = replicate 64 b'1'

abbrev key : Text
key = replicate 66 b'a'

abbrev challenge_db : Db memory
challenge_db = record empty_db {
  nonces = record { id = codes "x"; k1 = challenge; expires_at = 500; used_at = none } ∷ [];
}

abbrev attempt : Attempt
attempt = record {
  k1 = challenge;
  sig = codes "ab";
  key = key;
  raw_username = codes " Q";
  read_at = 100;
  now = 110;
  fresh = record { user_id = codes "u1"; name_id = codes "n1" };
  outage = none;
}

abbrev reads : Reads memory crypto none
reads = record { nonce = challenge_db; holder = challenge_db; existing = challenge_db }

abbrev registered_db : Db memory
registered_db = after memory crypto none (attempt, reads) challenge_db

attempt_runs :
    verify_and_bind_username memory crypto none attempt reads challenge_db ≡ ok registered_db
unfolding spark_ln_address.Prelude.text_eq spark_ln_address.Prelude.mem_text
    spark_ln_address.Prelude.starts_with spark_ln_address.Prelude.includes
    spark_ln_address.Prelude.decimal_from spark_ln_address.Prelude.decimal
    spark_ln_address.Database.Memory.without spark_ln_address.Database.Memory.get_row
    spark_ln_address.Database.Memory.find_row spark_ln_address.Database.Memory.select_rows
    spark_ln_address.Database.Memory.remove_row spark_ln_address.Names.Normal.to_lower_case
    spark_ln_address.Names.Normal.trim_start spark_ln_address.Names.Normal.trim
    spark_ln_address.Names.Normal.normalize_username
    spark_ln_address.Names.Reserved.strip_separators spark_ln_address.Names.Reserved.fold_pair
    spark_ln_address.Names.Reserved.collapse_repeats spark_ln_address.Names.Reserved.compact_name
    spark_ln_address.Names.Reserved.username_skeleton
    spark_ln_address.Names.Reserved.drop_leading_digits
    spark_ln_address.Names.Reserved.candidate_skeletons spark_ln_address.Names.Reserved.split_commas
    spark_ln_address.Names.Reserved.extra_skeletons
    spark_ln_address.Names.Reserved.protected_skeletons
    spark_ln_address.Names.Reserved.filler_skeletons spark_ln_address.Names.Reserved.try_word
    spark_ln_address.Names.Reserved.scan_starts spark_ln_address.Names.Reserved.scan_ends
    spark_ln_address.Names.Reserved.segments_into_protected
    spark_ln_address.Names.Reserved.is_reserved_username spark_ln_address.Names.Ledger.write_name
    spark_ln_address.Names.Ledger.update_name spark_ln_address.Names.Ledger.create_name
    spark_ln_address.Auth.Secp256k1.normalize spark_ln_address.Auth.Secp256k1.der_to_compact
    spark_ln_address.Auth.Secp256k1.from_hex spark_ln_address.Auth.Secp256k1.message_bytes
    spark_ln_address.Auth.Secp256k1.compact_signature spark_ln_address.Auth.Secp256k1.verify_text
    spark_ln_address.Auth.Secp256k1.verify_bytes spark_ln_address.Auth.Secp256k1.verify_signature
    spark_ln_address.Auth.Secp256k1.equivalent_pub_key_forms
    spark_ln_address.Account.Registration.generate_auth_challenge
    spark_ln_address.Account.Registration.check_nonce
    spark_ln_address.Account.Registration.check_name spark_ln_address.Account.Registration.check
    spark_ln_address.Account.Registration.consume spark_ln_address.Account.Registration.create_user
    spark_ln_address.Account.Registration.bind
    spark_ln_address.Account.Registration.verify_and_bind_username
attempt_runs = refl

one_challenge : HasUniqueNonces memory crypto none challenge_db
unfolding spark_ln_address.Prelude.text_eq spark_ln_address.Prelude.mem_text
    spark_ln_address.Prelude.starts_with spark_ln_address.Prelude.includes
    spark_ln_address.Prelude.decimal_from spark_ln_address.Prelude.decimal
    spark_ln_address.Database.Memory.without spark_ln_address.Database.Memory.get_row
    spark_ln_address.Database.Memory.find_row spark_ln_address.Database.Memory.select_rows
    spark_ln_address.Database.Memory.remove_row
one_challenge = record {
  once = λ i j m n p q e. ground (arith, text_eq_iff (codes "x") i, text_eq_iff (codes "x") j);
}

k1_used_once_example :
    verify_and_bind_username memory crypto none attempt reads
      (run memory crypto none ((attempt, reads) ∷ []) registered_db)
    ≢ ok registered_db
k1_used_once_example =
    k1_used_once memory crypto none attempt attempt reads reads ((attempt, reads) ∷ []) challenge_db
      registered_db registered_db one_challenge attempt_runs refl

no_names : IsConsistent memory challenge_db
unfolding spark_ln_address.Prelude.text_eq spark_ln_address.Prelude.mem_text
    spark_ln_address.Prelude.starts_with spark_ln_address.Prelude.includes
    spark_ln_address.Prelude.decimal_from spark_ln_address.Prelude.decimal
    spark_ln_address.Database.Memory.without spark_ln_address.Database.Memory.get_row
    spark_ln_address.Database.Memory.find_row spark_ln_address.Database.Memory.select_rows
    spark_ln_address.Database.Memory.remove_row
no_names = record {
  username_once = λ j k a b p q r. cc;
  active_once = λ j k x a b p q r s. cc;
  mirrored = λ k a p. cc;
}

register-IsConsistent_example : IsConsistent memory registered_db
register-IsConsistent_example =
    register-IsConsistent memory crypto none attempt reads challenge_db no_names

abbrev config : Config
config = record {
  reserved_usernames = none;
  public_base_url = some (codes "https://a.b");
  hostname = λ url. some (codes "a.b");
}

abbrev fresh : NewRow
fresh = record { id = codes "n2"; now = 200 }

abbrev views : Username.Reads memory config
views = record { loaded = registered_db; checked = registered_db; reread = registered_db }

-- The registered name and its user, as they stand in the database.
abbrev first_name : LightningName
first_name = bound_name memory crypto none attempt (codes "q")

abbrev changed_db : Db memory
changed_db = (change_username memory config (codes "u1") (codes "z") fresh views registered_db).1

registered-IsConsistent : IsConsistent memory registered_db
registered-IsConsistent =
    register-IsConsistent memory crypto none attempt reads challenge_db no_names

change_username-IsConsistent_example : IsConsistent memory changed_db
change_username-IsConsistent_example =
    change_username-IsConsistent memory config (codes "u1") (codes "z") fresh views registered_db
      registered-IsConsistent

old_name_there : memory.names.get (codes "n1") registered_db.names ≡ some first_name
unfolding spark_ln_address.Prelude.text_eq spark_ln_address.Prelude.mem_text
    spark_ln_address.Prelude.starts_with spark_ln_address.Prelude.includes
    spark_ln_address.Prelude.decimal_from spark_ln_address.Prelude.decimal
    spark_ln_address.Database.Memory.without spark_ln_address.Database.Memory.get_row
    spark_ln_address.Database.Memory.find_row spark_ln_address.Database.Memory.select_rows
    spark_ln_address.Database.Memory.remove_row spark_ln_address.Names.Normal.to_lower_case
    spark_ln_address.Names.Normal.trim_start spark_ln_address.Names.Normal.trim
    spark_ln_address.Names.Normal.normalize_username
    spark_ln_address.Names.Reserved.strip_separators spark_ln_address.Names.Reserved.fold_pair
    spark_ln_address.Names.Reserved.collapse_repeats spark_ln_address.Names.Reserved.compact_name
    spark_ln_address.Names.Reserved.username_skeleton
    spark_ln_address.Names.Reserved.drop_leading_digits
    spark_ln_address.Names.Reserved.candidate_skeletons spark_ln_address.Names.Reserved.split_commas
    spark_ln_address.Names.Reserved.extra_skeletons
    spark_ln_address.Names.Reserved.protected_skeletons
    spark_ln_address.Names.Reserved.filler_skeletons spark_ln_address.Names.Reserved.try_word
    spark_ln_address.Names.Reserved.scan_starts spark_ln_address.Names.Reserved.scan_ends
    spark_ln_address.Names.Reserved.segments_into_protected
    spark_ln_address.Names.Reserved.is_reserved_username spark_ln_address.Names.Ledger.write_name
    spark_ln_address.Names.Ledger.update_name spark_ln_address.Names.Ledger.create_name
    spark_ln_address.Auth.Secp256k1.normalize spark_ln_address.Auth.Secp256k1.der_to_compact
    spark_ln_address.Auth.Secp256k1.from_hex spark_ln_address.Auth.Secp256k1.message_bytes
    spark_ln_address.Auth.Secp256k1.compact_signature spark_ln_address.Auth.Secp256k1.verify_text
    spark_ln_address.Auth.Secp256k1.verify_bytes spark_ln_address.Auth.Secp256k1.verify_signature
    spark_ln_address.Auth.Secp256k1.equivalent_pub_key_forms
    spark_ln_address.Account.Registration.generate_auth_challenge
    spark_ln_address.Account.Registration.check_nonce
    spark_ln_address.Account.Registration.check_name spark_ln_address.Account.Registration.check
    spark_ln_address.Account.Registration.consume spark_ln_address.Account.Registration.create_user
    spark_ln_address.Account.Registration.bind
    spark_ln_address.Account.Registration.verify_and_bind_username
old_name_there = refl

abbrev retired_name : LightningName
retired_name = record first_name { active = false; active_pub_key = none }

retired_name_there : memory.names.get (codes "n1") changed_db.names ≡ some retired_name
unfolding spark_ln_address.Prelude.text_eq spark_ln_address.Prelude.mem_text
    spark_ln_address.Prelude.starts_with spark_ln_address.Prelude.includes
    spark_ln_address.Prelude.decimal_from spark_ln_address.Prelude.decimal
    spark_ln_address.Database.Memory.without spark_ln_address.Database.Memory.get_row
    spark_ln_address.Database.Memory.find_row spark_ln_address.Database.Memory.select_rows
    spark_ln_address.Database.Memory.remove_row spark_ln_address.Names.Normal.to_lower_case
    spark_ln_address.Names.Normal.trim_start spark_ln_address.Names.Normal.trim
    spark_ln_address.Names.Normal.normalize_username
    spark_ln_address.Names.Reserved.strip_separators spark_ln_address.Names.Reserved.fold_pair
    spark_ln_address.Names.Reserved.collapse_repeats spark_ln_address.Names.Reserved.compact_name
    spark_ln_address.Names.Reserved.username_skeleton
    spark_ln_address.Names.Reserved.drop_leading_digits
    spark_ln_address.Names.Reserved.candidate_skeletons spark_ln_address.Names.Reserved.split_commas
    spark_ln_address.Names.Reserved.extra_skeletons
    spark_ln_address.Names.Reserved.protected_skeletons
    spark_ln_address.Names.Reserved.filler_skeletons spark_ln_address.Names.Reserved.try_word
    spark_ln_address.Names.Reserved.scan_starts spark_ln_address.Names.Reserved.scan_ends
    spark_ln_address.Names.Reserved.segments_into_protected
    spark_ln_address.Names.Reserved.is_reserved_username spark_ln_address.Names.Ledger.write_name
    spark_ln_address.Names.Ledger.update_name spark_ln_address.Names.Ledger.create_name
    spark_ln_address.Auth.Secp256k1.normalize spark_ln_address.Auth.Secp256k1.der_to_compact
    spark_ln_address.Auth.Secp256k1.from_hex spark_ln_address.Auth.Secp256k1.message_bytes
    spark_ln_address.Auth.Secp256k1.compact_signature spark_ln_address.Auth.Secp256k1.verify_text
    spark_ln_address.Auth.Secp256k1.verify_bytes spark_ln_address.Auth.Secp256k1.verify_signature
    spark_ln_address.Auth.Secp256k1.equivalent_pub_key_forms
    spark_ln_address.Account.Registration.generate_auth_challenge
    spark_ln_address.Account.Registration.check_nonce
    spark_ln_address.Account.Registration.check_name spark_ln_address.Account.Registration.check
    spark_ln_address.Account.Registration.consume spark_ln_address.Account.Registration.create_user
    spark_ln_address.Account.Registration.bind
    spark_ln_address.Account.Registration.verify_and_bind_username
    spark_ln_address.Account.Terms.insert_name spark_ln_address.Account.Terms.by_activity
    spark_ln_address.Account.Terms.build_quota spark_ln_address.Account.Terms.to_lightning_address
    spark_ln_address.Account.Username.load_state spark_ln_address.Account.Username.response
    spark_ln_address.Account.Username.get_username_info
    spark_ln_address.Account.Username.converged_response
    spark_ln_address.Account.Username.check_available spark_ln_address.Account.Username.check_claim
    spark_ln_address.Account.Username.prepare spark_ln_address.Account.Username.transact
    spark_ln_address.Account.Username.conclude spark_ln_address.Account.Username.perform
    spark_ln_address.Account.Username.change_username
    spark_ln_address.Account.Username.resolve_active_by_pub_key
    spark_ln_address.Account.Username.get_username_info_by_pub_key
    spark_ln_address.Account.Username.grant spark_ln_address.Account.Username.grant_extra_changes
retired_name_there = refl

name_keeps_owner_example : (codes "n1" ≡ codes "n1") × (codes "u1" ≡ codes "u1")
name_keeps_owner_example =
    name_keeps_owner memory config (codes "u1") (codes "z") fresh views registered_db (codes "n1")
      (codes "n1") first_name retired_name registered-IsConsistent old_name_there retired_name_there
      refl

-- An account with one name, in the database by itself.
abbrev account_db : Db memory
account_db = record empty_db {
  names = first_name ∷ [];
  users =
      record {
        id = codes "u1";
        default_receiving_currency = usdb;
        bonus_username_changes = 0;
        updated_at = 110;
      }
      ∷ [];
}

abbrev account_views : Username.Reads memory config
account_views = record { loaded = account_db; checked = account_db; reread = account_db }

account_within_quota : HasQuotas memory config account_db
unfolding spark_ln_address.Database.Memory.without spark_ln_address.Database.Memory.get_row
    spark_ln_address.Database.Memory.find_row spark_ln_address.Database.Memory.select_rows
    spark_ln_address.Database.Memory.remove_row
account_within_quota = record { quota = λ v u g. ground arith }

change_username-HasQuotas_example :
    HasQuotas memory config
      (change_username memory config (codes "u1") (codes "z") fresh account_views account_db).1
change_username-HasQuotas_example =
    change_username-HasQuotas memory config (codes "u1") (codes "z") fresh account_views
      account_within_quota

abbrev preferred : Result DbError (CurrencyPreference × Db memory)
preferred = set_preference memory (codes "u1") sats 300 account_db

abbrev preferred_db : Db memory
preferred_db = record account_db {
  users =
      record {
        id = codes "u1";
        default_receiving_currency = sats;
        bonus_username_changes = 0;
        updated_at = 300;
      }
      ∷ account_db.users;
}

preference_runs : preferred ≡ ok (record { currency = sats; updated_at = 300 }, preferred_db)
unfolding spark_ln_address.Prelude.text_eq spark_ln_address.Prelude.mem_text
    spark_ln_address.Prelude.starts_with spark_ln_address.Prelude.includes
    spark_ln_address.Prelude.decimal_from spark_ln_address.Prelude.decimal
    spark_ln_address.Database.Memory.without spark_ln_address.Database.Memory.get_row
    spark_ln_address.Database.Memory.find_row spark_ln_address.Database.Memory.select_rows
    spark_ln_address.Database.Memory.remove_row spark_ln_address.Account.Preference.get_preference
    spark_ln_address.Account.Preference.set_preference
preference_runs = refl

users_differ : text_eq (codes "u1") (codes "u2") ≡ false
unfolding spark_ln_address.Prelude.text_eq spark_ln_address.Prelude.mem_text
    spark_ln_address.Prelude.starts_with spark_ln_address.Prelude.includes
    spark_ln_address.Prelude.decimal_from spark_ln_address.Prelude.decimal
users_differ = refl

set_then_get_example :
    (sats ≡ sats)
    × (get_preference memory (codes "u1") preferred_db
        ≡ ok (record { currency = sats; updated_at = 300 }))
    × (get_preference memory (codes "u2") preferred_db
        ≡ get_preference memory (codes "u2") account_db)
set_then_get_example =
    set_then_get memory (codes "u1") (codes "u2") sats 300 account_db preferred_db
      (record { currency = sats; updated_at = 300 }) preference_runs users_differ
