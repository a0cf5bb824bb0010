-- ===== src/Flashnet/Client/Quiet.antt =====
-- How often a missing secret is logged.
use spark_ln_address.Prelude.{
  ℕ, ◌+◌, ◌≤◌, ltb, Bool-cases, if◌then◌else◌, inl, inr, Option, none, some, List, [], ◌∷◌, arith,
}
use spark_ln_address.Flashnet.Client.{log_missing_secret, missing_secret_log_interval_ms}

-- The times at which a line is written, of those at which the secret is missed.
pub logged_times : Option ℕ → List ℕ → List ℕ
logged_times last [] = []
logged_times last (now ∷ times) =
    let (written, last') = log_missing_secret last now in
    let rest = logged_times last' times in if written then now ∷ rest else rest

-- Each time is an interval after the one before it, the first one after `last`.
pub IsSpaced : Option ℕ → List ℕ → Type 0
IsSpaced last [] = Unit
IsSpaced none (t ∷ ts) = IsSpaced (some t) ts
IsSpaced (some last) (t ∷ ts) = (last + missing_secret_log_interval_ms ≤ t) × IsSpaced (some t) ts

-- Two lines are an interval apart or more, whatever the clock does.
pub logged_times-IsSpaced :
    (last : Option ℕ) (times : List ℕ) → IsSpaced last (logged_times last times)
unfolding logged_times log_missing_secret IsSpaced
logged_times-IsSpaced last [] = tt
logged_times-IsSpaced none (now ∷ times) = logged_times-IsSpaced (some now) times
logged_times-IsSpaced (some last) (now ∷ times) =
    elim (Bool-cases (ltb now (last + missing_secret_log_interval_ms))) [
      | inl e ↦ rw e (logged_times-IsSpaced (some last) times)
      | inr e ↦ rw e (ground (arith, e), logged_times-IsSpaced (some now) times)
    ]
