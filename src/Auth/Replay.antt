-- ===== src/Auth/Replay.antt =====
-- src/auth/spark-signature.guard.ts, the cache of accepted requests: `rejectReplay`, `pruneBucket`
-- and `sweepSeenSignatures`. A `Map` is the list of its entries in insertion order.
pub mod Memory
pub mod Bounds
use spark_ln_address.Prelude.{
  ℕ, ◌+◌, ltb, leb, if◌then◌else◌, Option, none, some, is_some, List, [], ◌∷◌, Text, text_eq,
  length, Result, ok, err, is_empty,
}

abbrev pub Bucket : Type 0
Bucket = List (Text × ℕ)

abbrev pub Seen : Type 0
Seen = List (Text × Bucket)

abbrev pub replay_cache_max_per_pubkey : ℕ
replay_cache_max_per_pubkey = 200

abbrev pub replay_cache_sweep_threshold : ℕ
replay_cache_sweep_threshold = 10000

pub data ReplayError : Type 0 where
  replayed too_many_in_flight : ReplayError

-- `map.get(k)`, `map.has(k)` and `map.set(k, v)`.
module _ {V : Type 0} where
  unfoldable pub get : Text → List (Text × V) → Option V
  get k [] = none
  get k ((j, v) ∷ m) = if text_eq j k then some v else get k m

  unfoldable pub set : Text → V → List (Text × V) → List (Text × V)
  set k v [] = (k, v) ∷ []
  set k v ((j, w) ∷ m) = if text_eq j k then (k, v) ∷ m else (j, w) ∷ set k v m

-- Entries are dropped when their expiry has passed.
unfoldable pub prune_bucket : ℕ → Bucket → Bucket
prune_bucket now [] = []
prune_bucket now ((key, expires_at) ∷ bucket) =
    let rest = prune_bucket now bucket in
    if ltb expires_at now then rest else (key, expires_at) ∷ rest

unfoldable pub sweep_seen_signatures : ℕ → Seen → Seen
sweep_seen_signatures now [] = []
sweep_seen_signatures now ((pubkey, bucket) ∷ seen) =
    let kept = prune_bucket now bucket in
    let rest = sweep_seen_signatures now seen in
    if is_empty kept then rest else (pubkey, kept) ∷ rest

unfoldable pub swept : ℕ → Seen → Seen
swept now seen =
    if ltb replay_cache_sweep_threshold (length seen) then sweep_seen_signatures now seen else seen

-- The bucket of a public key once it is pruned, or a new one.
unfoldable pub current_bucket : ℕ → Text → Seen → Bucket
current_bucket now pubkey seen = elim (get pubkey seen) [
  | some bucket ↦ prune_bucket now bucket
  | none ↦ []
]

-- The cache stays changed by the pruning also where the request is refused.
unfoldable pub admit : Text → ℕ → Bucket → Result ReplayError Bucket
admit key expires_at bucket =
    if is_some (get key bucket)
    then err replayed
    else if leb replay_cache_max_per_pubkey (length bucket)
    then err too_many_in_flight
    else ok (set key expires_at bucket)

abbrev pub stored : Bucket → Result ReplayError Bucket → Bucket
stored old (ok new) = new
stored old (err e) = old

abbrev pub verdict : Result ReplayError Bucket → Result ReplayError (Unit {0})
verdict (ok b) = ok tt
verdict (err e) = err e

-- `digest` is the hex SHA-256 of the canonical message.
unfoldable pub reject_replay :
    (max_skew_ms : ℕ) (pubkey digest : Text) (signed_at_ms now : ℕ)
    → Seen
    → Result ReplayError (Unit {0}) × Seen
reject_replay max_skew_ms pubkey digest signed_at_ms now seen =
    let seen' = swept now seen in
    let bucket = current_bucket now pubkey seen' in
    let result = admit digest (signed_at_ms + max_skew_ms) bucket in
    (verdict result, set pubkey (stored bucket result) seen')
