-- ===== src/Auth/Guard/Once.antt =====
-- Repeated requests at the guard.
use spark_ln_address.Prelude.{
  ℕ, ◌+◌, ◌≤◌, ◌≡◌, some, Text, ◌≢◌, refl, inl, inr, false, Option, List, Result, ok, err, arith,
  All, All-imp, Result-cases,
}
use spark_ln_address.Database.{Storage, Db}
use spark_ln_address.Database.Rows.{User}
use spark_ln_address.Auth.Crypto.{Crypto}
use spark_ln_address.Auth.Replay.{Seen, ReplayError, reject_replay}
use spark_ln_address.Auth.Replay.Memory.{Call, run_calls, replay_rejected}
use spark_ln_address.Auth.Guard.{
  Request, AuthError, upper, is_exempt, Authenticated, authenticate, admit_request, can_activate,
  fresh_timestamp, as_replay,
}

as_replay-ok :
    (r : Result ReplayError (Unit {0})) (u : Option User) {v : Option User}
    → as_replay r u ≡ ok v
    → r ≡ ok tt
as_replay-ok (ok t) u h = refl
as_replay-ok (err e) u h = cc

module _ (S : Storage) (crypto : Crypto) (skew : ℕ) where
  -- The parts of an authenticated request that its headers and body fix.
  authenticate_fixed :
      (req : Request) (now later : ℕ) (db db' : Db S) (a a' : Authenticated)
      → authenticate S crypto skew req now db ≡ ok a
      → authenticate S crypto skew req later db' ≡ ok a'
      → (a'.pubkey ≡ a.pubkey) × (a'.signed_at ≡ a.signed_at) × (a'.canonical ≡ a.canonical)
  unfolding authenticate fresh_timestamp
  authenticate_fixed req now later db db' a a' h h' = ground arith

  authenticate_time :
      (req : Request) (timestamp : Text) (ts now : ℕ) (db : Db S) (a : Authenticated)
      → req.timestamp ≡ some timestamp
      → crypto.number_of timestamp ≡ some ts
      → authenticate S crypto skew req now db ≡ ok a
      → a.signed_at ≡ ts
  unfolding authenticate fresh_timestamp
  authenticate_time req timestamp ts now db a t n h = ground arith

  -- An acceptance of a request that is not exempt was an acceptance by the cache.
  admit_request-ok :
      (req : Request) (now : ℕ) (seen : Seen) (a : Authenticated) {u : Option User}
      → is_exempt (upper req.method) ≡ false
      → (admit_request S crypto skew req now seen (ok a)).0 ≡ ok u
      → ((reject_replay skew a.pubkey
            (crypto.sha256_hex (crypto.utf8 a.canonical))
            a.signed_at
            now
            seen).0
          ≡ ok tt)
        × ((admit_request S crypto skew req now seen (ok a)).1
            ≡ (reject_replay skew a.pubkey
                (crypto.sha256_hex (crypto.utf8 a.canonical))
                a.signed_at
                now
                seen).1)
  unfolding admit_request
  admit_request-ok req now seen a x h = (
    as_replay-ok
        (reject_replay skew a.pubkey (crypto.sha256_hex (crypto.utf8 a.canonical)) a.signed_at now
          seen).0
        a.user (rw x at h),
    rw x,
  )

  refused :
      (req : Request) (now : ℕ) (seen : Seen) (e : AuthError) {u : Option User}
      → (admit_request S crypto skew req now seen (err e)).0 ≡ ok u
      → ⊥
  unfolding admit_request
  refused req now seen e h = cc

  accepted_twice :
      (req : Request) (now checked_at later rechecked_at : ℕ) (db db' : Db S) (seen : Seen)
      (between : List Call) (a a' : Authenticated) {u u' : Option User}
      → is_exempt (upper req.method) ≡ false
      → authenticate S crypto skew req now db ≡ ok a
      → authenticate S crypto skew req later db' ≡ ok a'
      → rechecked_at ≤ a.signed_at + skew
      → (admit_request S crypto skew req checked_at seen (ok a)).0 ≡ ok u
      → All (λ c. c.now ≤ rechecked_at) between
      → (admit_request S crypto skew req rechecked_at
          (run_calls skew between (admit_request S crypto skew req checked_at seen (ok a)).1)
          (ok a')).0
        ≢ ok u'
  accepted_twice req now checked_at later rechecked_at db db' seen between a a' x p q inside h b
        h' =
      let (first, kept) = admit_request-ok req checked_at seen a x h in
      let (second, _) = admit_request-ok req rechecked_at _ a' x h' in
      let (same_key, same_time, same_message) = authenticate_fixed req now later db db' a a' p q in
      let rejected =
        replay_rejected skew a.pubkey (crypto.sha256_hex (crypto.utf8 a.canonical)) a.signed_at
          checked_at rechecked_at seen between first
          (All-imp between (λ c (l : c.now ≤ rechecked_at). omega arith) b) inside in
      cc (rw (same_key, same_time, same_message, kept) at second)

  -- A request of a method that is not exempt, once accepted by the guard, is refused whenever it
  -- is presented again, on any database and whatever its skew check reads of the clock, after any
  -- calls of the replay cache that happen no later, if the cache reads the clock before the window
  -- of the request's timestamp has closed.
  pub accepted_once :
      (req : Request) (timestamp : Text) (ts now checked_at later rechecked_at : ℕ) (db db' : Db S)
      (seen : Seen) (between : List Call) (u : Option User)
      → is_exempt (upper req.method) ≡ false
      → req.timestamp ≡ some timestamp
      → crypto.number_of timestamp ≡ some ts
      → (can_activate S crypto skew req now checked_at db seen).0 ≡ ok u
      → All (λ c. c.now ≤ rechecked_at) between
      → rechecked_at ≤ ts + skew
      → (u' : Option User)
      → (can_activate S crypto skew req later rechecked_at db'
          (run_calls skew between (can_activate S crypto skew req now checked_at db seen).1)).0
        ≢ ok u'
  unfolding can_activate
  accepted_once req timestamp ts now checked_at later rechecked_at db db' seen between u x t n h b
        inside u' h' =
      elim (Result-cases (authenticate S crypto skew req now db)) [
        | inr (e, p) ↦ refused req checked_at seen e (rw p at h)
        | inl (a, p) ↦ elim (Result-cases (authenticate S crypto skew req later db')) [
          | inr (e, q) ↦ refused req rechecked_at _ e (rw q at h')
          | inl (a', q) ↦
              let at_time = authenticate_time req timestamp ts now db a t n p in
              accepted_twice req now checked_at later rechecked_at db db' seen between a a'
                {u' = u'} x p q (rw at_time inside) (rw p at h) b (rw (p, q) at h')
        ]
      ]
