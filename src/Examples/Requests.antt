-- ===== src/Examples/Requests.antt =====
-- A signed request, accepted once; and the forms of signatures, challenges and names.
use spark_ln_address.Prelude.{
  starts_with, drop, ℕ, true, false, none, some, is_some, List, [], ◌∷◌, ◌++◌, ◌≡◌, refl, ◌≢◌, ◌⊎◌,
  Text, codes, ok, err, length, arith, replicate, decimal,
}
use spark_ln_address.Database.{Db, memory, empty_db}
use spark_ln_address.Database.Rows.{User, LightningName, AuthNonce, usdb}
use spark_ln_address.Auth.InternalOps.{can_activate_ops}
use spark_ln_address.Auth.InternalOps.Token.{ops_admitted}
use spark_ln_address.Auth.Crypto.{Crypto}
use spark_ln_address.Auth.Replay.{reject_replay, replayed}
use spark_ln_address.Auth.Replay.Memory.{Call, run_calls, replay_rejected}
use spark_ln_address.Auth.Replay.Bounds.{IsCapped, reject_replay-IsCapped}
use spark_ln_address.Auth.Guard.{Request, is_exempt, can_activate}
use spark_ln_address.Auth.Guard.Once.{accepted_once}
use spark_ln_address.Auth.Secp256k1.{der_to_compact, normalize}
use spark_ln_address.Auth.Secp256k1.Der.{
  der_encode, der_to_compact-der_encode, length-der_to_compact,
}
use spark_ln_address.Account.Registration.{is_live}
use spark_ln_address.Auth.Purge.{Pause, purge_expired}
use spark_ln_address.Auth.Purge.Live.{Undisturbed, purge_keeps_live}
use spark_ln_address.Names.Reserved.{is_reserved_username}
use spark_ln_address.Names.Reserved.Separators.{
  nothing, same, capital, dot, underscore, hyphen, reserved_of_spelling,
}

-- A library that accepts every signature.
abbrev crypto : Crypto
crypto = record {
  utf8 = λ t. t;
  sha256_hex = λ bytes. bytes;
  verify = λ signature message key. some true;
  point_forms = λ key. none;
  number_of = λ t. some (decimal t);
}

abbrev pubkey : Text
pubkey = replicate 66 b'a'

abbrev user : User
user = record {
  id = codes "u1";
  default_receiving_currency = usdb;
  bonus_username_changes = 0;
  updated_at = 0;
}

abbrev name : LightningName
name = record {
  id = codes "n1";
  username = codes "ann";
  user_id = codes "u1";
  linking_pub_key_hex = pubkey;
  active = true;
  active_pub_key = some pubkey;
  created_at = 0;
}

abbrev account_db : Db memory
account_db = record empty_db { users = user ∷ []; names = name ∷ [] }

abbrev request : Request
request = record {
  pubkey = some pubkey;
  timestamp = some (codes "100");
  signature = some (codes "ab");
  method = codes "POST";
  original_url = codes "/v1/username";
  raw_body = some (codes "{}");
}

-- Another account's request, between the two of the theorems below.
abbrev other_calls : List Call
other_calls = record { pubkey = codes "z"; digest = codes "y"; signed_at_ms = 120; now = 120 } ∷ []

request_accepted :
    (can_activate memory crypto 60000 request 100 101 account_db []).0 ≡ ok (some user)
unfolding spark_ln_address.Prelude.text_eq spark_ln_address.Prelude.mem_text
    spark_ln_address.Prelude.starts_with spark_ln_address.Prelude.includes
    spark_ln_address.Prelude.decimal_from spark_ln_address.Prelude.decimal
    spark_ln_address.Database.Memory.without spark_ln_address.Database.Memory.get_row
    spark_ln_address.Database.Memory.find_row spark_ln_address.Database.Memory.select_rows
    spark_ln_address.Database.Memory.remove_row spark_ln_address.Auth.Secp256k1.normalize
    spark_ln_address.Auth.Secp256k1.der_to_compact spark_ln_address.Auth.Secp256k1.from_hex
    spark_ln_address.Auth.Secp256k1.message_bytes spark_ln_address.Auth.Secp256k1.compact_signature
    spark_ln_address.Auth.Secp256k1.verify_text spark_ln_address.Auth.Secp256k1.verify_bytes
    spark_ln_address.Auth.Secp256k1.verify_signature
    spark_ln_address.Auth.Secp256k1.equivalent_pub_key_forms spark_ln_address.Auth.Replay.get
    spark_ln_address.Auth.Replay.set spark_ln_address.Auth.Replay.prune_bucket
    spark_ln_address.Auth.Replay.sweep_seen_signatures spark_ln_address.Auth.Replay.swept
    spark_ln_address.Auth.Replay.current_bucket spark_ln_address.Auth.Replay.admit
    spark_ln_address.Auth.Replay.reject_replay spark_ln_address.Auth.Guard.read_max_skew
    spark_ln_address.Auth.Guard.is_exempt spark_ln_address.Auth.Guard.body_hash
    spark_ln_address.Auth.Guard.canonical_message spark_ln_address.Auth.Guard.fresh_timestamp
    spark_ln_address.Auth.Guard.authenticate spark_ln_address.Auth.Guard.admit_request
    spark_ln_address.Auth.Guard.can_activate
request_accepted = refl

request_not_exempt : is_exempt (codes "POST") ≡ false
unfolding spark_ln_address.Prelude.text_eq spark_ln_address.Prelude.mem_text
    spark_ln_address.Prelude.starts_with spark_ln_address.Prelude.includes
    spark_ln_address.Prelude.decimal_from spark_ln_address.Prelude.decimal
    spark_ln_address.Auth.Guard.read_max_skew spark_ln_address.Auth.Guard.is_exempt
    spark_ln_address.Auth.Guard.body_hash spark_ln_address.Auth.Guard.canonical_message
    spark_ln_address.Auth.Guard.fresh_timestamp spark_ln_address.Auth.Guard.authenticate
    spark_ln_address.Auth.Guard.admit_request spark_ln_address.Auth.Guard.can_activate
request_not_exempt = refl

hundred : crypto.number_of (codes "100") ≡ some 100
unfolding spark_ln_address.Prelude.decimal_from spark_ln_address.Prelude.decimal
hundred = refl

-- The skew check admits the request in the last millisecond of its window, and the cache forgets it
-- in the next one.
late_replay_accepted :
    (can_activate memory crypto 60000 request 60100 60101 account_db
      (can_activate memory crypto 60000 request 100 101 account_db []).1).0
    ≡ ok (some user)
unfolding spark_ln_address.Prelude.text_eq spark_ln_address.Prelude.mem_text
    spark_ln_address.Prelude.starts_with spark_ln_address.Prelude.includes
    spark_ln_address.Prelude.decimal_from spark_ln_address.Prelude.decimal
    spark_ln_address.Database.Memory.without spark_ln_address.Database.Memory.get_row
    spark_ln_address.Database.Memory.find_row spark_ln_address.Database.Memory.select_rows
    spark_ln_address.Database.Memory.remove_row spark_ln_address.Auth.Secp256k1.normalize
    spark_ln_address.Auth.Secp256k1.der_to_compact spark_ln_address.Auth.Secp256k1.from_hex
    spark_ln_address.Auth.Secp256k1.message_bytes spark_ln_address.Auth.Secp256k1.compact_signature
    spark_ln_address.Auth.Secp256k1.verify_text spark_ln_address.Auth.Secp256k1.verify_bytes
    spark_ln_address.Auth.Secp256k1.verify_signature
    spark_ln_address.Auth.Secp256k1.equivalent_pub_key_forms spark_ln_address.Auth.Replay.get
    spark_ln_address.Auth.Replay.set spark_ln_address.Auth.Replay.prune_bucket
    spark_ln_address.Auth.Replay.sweep_seen_signatures spark_ln_address.Auth.Replay.swept
    spark_ln_address.Auth.Replay.current_bucket spark_ln_address.Auth.Replay.admit
    spark_ln_address.Auth.Replay.reject_replay spark_ln_address.Auth.Guard.read_max_skew
    spark_ln_address.Auth.Guard.is_exempt spark_ln_address.Auth.Guard.body_hash
    spark_ln_address.Auth.Guard.canonical_message spark_ln_address.Auth.Guard.fresh_timestamp
    spark_ln_address.Auth.Guard.authenticate spark_ln_address.Auth.Guard.admit_request
    spark_ln_address.Auth.Guard.can_activate
late_replay_accepted = refl

accepted_once_example :
    (can_activate memory crypto 60000 request 160 161 account_db (
      run_calls 60000 other_calls
        (can_activate memory crypto 60000 request 100 101 account_db []).1)).0
    ≢ ok (some user)
accepted_once_example =
    accepted_once memory crypto 60000 request (codes "100") 100 100 101 160 161 account_db
      account_db [] other_calls (some user) request_not_exempt refl hundred request_accepted
      (omega arith, tt) (omega arith) (some user)

first_call_accepted : (reject_replay 50 (codes "k") (codes "d") 100 100 []).0 ≡ ok tt
unfolding spark_ln_address.Prelude.text_eq spark_ln_address.Prelude.mem_text
    spark_ln_address.Prelude.starts_with spark_ln_address.Prelude.includes
    spark_ln_address.Prelude.decimal_from spark_ln_address.Prelude.decimal
    spark_ln_address.Auth.Replay.get spark_ln_address.Auth.Replay.set
    spark_ln_address.Auth.Replay.prune_bucket spark_ln_address.Auth.Replay.sweep_seen_signatures
    spark_ln_address.Auth.Replay.swept spark_ln_address.Auth.Replay.current_bucket
    spark_ln_address.Auth.Replay.admit spark_ln_address.Auth.Replay.reject_replay
first_call_accepted = refl

replay_rejected_example :
    (reject_replay 50
      (codes "k")
      (codes "d")
      100
      150
      (run_calls 50 other_calls (reject_replay 50 (codes "k") (codes "d") 100 100 []).1)).0
    ≡ err replayed
replay_rejected_example =
    replay_rejected 50 (codes "k") (codes "d") 100 100 150 [] other_calls first_call_accepted
      (omega arith, tt) (omega arith)

reject_replay-IsCapped_example : IsCapped (reject_replay 50 (codes "k") (codes "d") 100 100 []).1
reject_replay-IsCapped_example = reject_replay-IsCapped 50 (codes "k") (codes "d") 100 100 [] tt

der_to_compact-der_encode_example :
    der_to_compact (der_encode (0 ∷ 200 ∷ []) (7 ∷ []))
    ≡ normalize (0 ∷ 200 ∷ []) ++ normalize (7 ∷ [])
der_to_compact-der_encode_example = der_to_compact-der_encode (0 ∷ 200 ∷ []) (7 ∷ [])

length-der_to_compact_example :
    (der_to_compact (48 ∷ 6 ∷ 2 ∷ 1 ∷ 9 ∷ []) ≡ 48 ∷ 6 ∷ 2 ∷ 1 ∷ 9 ∷ [])
    ⊎ (length (der_to_compact (48 ∷ 6 ∷ 2 ∷ 1 ∷ 9 ∷ [])) ≡ 64)
length-der_to_compact_example = length-der_to_compact (48 ∷ 6 ∷ 2 ∷ 1 ∷ 9 ∷ [])

abbrev nonce : ℕ → AuthNonce
nonce expires_at = record {
  id = codes "x";
  k1 = codes "k1";
  expires_at = expires_at;
  used_at = none;
}

-- No other request writes.
abbrev alone : Pause → memory.nonces.Rows → memory.nonces.Rows
alone pause t = t

alone-Undisturbed :
    (pause : Pause) (t : memory.nonces.Rows) → Undisturbed memory (codes "k1") 200 t (alone pause t)
alone-Undisturbed pause t = record { fixed = λ k n n' p q. cc (p, q); live = refl }

purge_keeps_live_example :
    is_some (
      memory.nonces.find
        (is_live (codes "k1") 200)
        (purge_expired memory alone 100 (nonce 300 ∷ [])).1)
    ≡ is_some (memory.nonces.find (is_live (codes "k1") 200) (nonce 300 ∷ []))
purge_keeps_live_example =
    purge_keeps_live memory alone 100 200 (codes "k1") (omega arith) alone-Undisturbed
      (nonce 300 ∷ [])

reserved_of_spelling_example :
    is_reserved_username (codes "Su_p.p-") none ≡ is_reserved_username (codes "supp") none
reserved_of_spelling_example = reserved_of_spelling (codes "Su_p.p-") (codes "supp") none (
    capital 18 (omega arith)
      (same b'u' (underscore (same b'p' (dot (same b'p' (hyphen nothing)))))))

ops_request_accepted :
    can_activate_ops crypto (some (codes "s3")) (some (codes "Bearer s3")) ≡ ok tt
unfolding spark_ln_address.Prelude.text_eq spark_ln_address.Prelude.mem_text
    spark_ln_address.Prelude.starts_with spark_ln_address.Prelude.includes
    spark_ln_address.Prelude.decimal_from spark_ln_address.Prelude.decimal
    spark_ln_address.Auth.InternalOps.token_buffer
    spark_ln_address.Auth.InternalOps.can_activate_ops
ops_request_accepted = refl

ops_admitted_example :
    (secret : Text) × (some (codes "s3") ≡ some secret)
    × (secret ≢ [])
    × (starts_with (codes "Bearer ") (codes "Bearer s3") ≡ true)
    × (crypto.utf8 (drop 7 (codes "Bearer s3")) ≡ crypto.utf8 secret)
ops_admitted_example =
    ops_admitted crypto (some (codes "s3")) (codes "Bearer s3") ops_request_accepted
