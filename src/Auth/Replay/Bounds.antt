-- ===== src/Auth/Replay/Bounds.antt =====
-- The cache is bounded for each public key, whatever is asked of it.
use spark_ln_address.Prelude.{
  ℕ, suc, ◌+◌, ◌≤◌, ◌≡◌, Bool-cases, inl, inr, ltb, some, List, [], ◌∷◌, Text, text_eq, arith,
  is_empty, length, All, Option-cases,
}
use spark_ln_address.Auth.Replay.{
  Bucket, Seen, replay_cache_max_per_pubkey, replay_cache_sweep_threshold, get, set, prune_bucket,
  sweep_seen_signatures, swept, current_bucket, admit, stored, reject_replay,
}

length-prune_bucket : (now : ℕ) (b : Bucket) → length (prune_bucket now b) ≤ length b
unfolding prune_bucket
length-prune_bucket now [] = omega arith
length-prune_bucket now ((k, e) ∷ b) = ground (arith, length-prune_bucket now b)

length-set :
    {V : Type 0} (k : Text) (v : V) (m : List (Text × V)) → length (set k v m) ≤ suc (length m)
unfolding set
length-set k v [] = omega arith
length-set k v ((j, w) ∷ m) = ground (arith, length-set k v m)

-- No public key holds more entries than the cap.
abbrev pub IsCapped : Seen → Type 0
IsCapped seen = All (λ e. length e.1 ≤ replay_cache_max_per_pubkey) seen

IsCapped-get :
    (pubkey : Text) (b : Bucket) (seen : Seen)
    → IsCapped seen
    → get pubkey seen ≡ some b
    → length b ≤ replay_cache_max_per_pubkey
unfolding get
IsCapped-get pubkey b [] h e = cc
IsCapped-get pubkey b ((p, c) ∷ seen) (l, h) e = ground (arith, IsCapped-get pubkey b seen h)

IsCapped-set :
    (pubkey : Text) (b : Bucket) (seen : Seen)
    → IsCapped seen
    → length b ≤ replay_cache_max_per_pubkey
    → IsCapped (set pubkey b seen)
unfolding set
IsCapped-set pubkey b [] h l = (l, tt)
IsCapped-set pubkey b ((p, c) ∷ seen) (k, h) l = elim (Bool-cases (text_eq p pubkey)) [
  | inl y ↦ rw y (l, h)
  | inr y ↦ rw y (k, IsCapped-set pubkey b seen h l)
]

IsCapped-sweep : (now : ℕ) (seen : Seen) → IsCapped seen → IsCapped (sweep_seen_signatures now seen)
unfolding sweep_seen_signatures
IsCapped-sweep now [] h = tt
IsCapped-sweep now ((p, c) ∷ seen) (l, h) = elim (Bool-cases (is_empty (prune_bucket now c))) [
  | inl y ↦ rw y (IsCapped-sweep now seen h)
  | inr y ↦ rw y (omega (arith, length-prune_bucket now c), IsCapped-sweep now seen h)
]

IsCapped-swept : (now : ℕ) (seen : Seen) → IsCapped seen → IsCapped (swept now seen)
unfolding swept
IsCapped-swept now seen h = elim (Bool-cases (ltb replay_cache_sweep_threshold (length seen))) [
  | inl y ↦ rw y (IsCapped-sweep now seen h)
  | inr y ↦ rw y h
]

length-current_bucket :
    (now : ℕ) (pubkey : Text) (seen : Seen)
    → IsCapped seen
    → length (current_bucket now pubkey seen) ≤ replay_cache_max_per_pubkey
unfolding current_bucket
length-current_bucket now pubkey seen h = elim (Option-cases (get pubkey seen)) [
  | inl n ↦ ground arith
  | inr (b, e) ↦ ground (arith, length-prune_bucket now b, IsCapped-get pubkey b seen h e)
]

length-admit :
    (digest : Text) (e : ℕ) (b : Bucket)
    → length b ≤ replay_cache_max_per_pubkey
    → length (stored b (admit digest e b)) ≤ replay_cache_max_per_pubkey
unfolding admit
length-admit digest e b h = ground (arith, length-set digest e b)

-- Where no bucket of the cache holds more than 200 entries, none does after a call.
pub reject_replay-IsCapped :
    (skew : ℕ) (pubkey digest : Text) (ts now : ℕ) (seen : Seen)
    → IsCapped seen
    → IsCapped (reject_replay skew pubkey digest ts now seen).1
unfolding reject_replay
reject_replay-IsCapped skew pubkey digest ts now seen h =
    let seen1 = swept now seen in
    let h1 = IsCapped-swept now seen h in
    let b1 = current_bucket now pubkey seen1 in
    IsCapped-set pubkey _ seen1 h1
      (length-admit digest (ts + skew) b1 (length-current_bucket now pubkey seen1 h1))
