-- ===== src/Auth/Purge.antt =====
-- src/auth/auth-nonce-purge.service.ts, `purgeExpired` and `runSafely`. The timers
-- around them are left out.
pub mod Live
use spark_ln_address.Prelude.{
  ℕ, zero, suc, ◌+◌, ◌-◌, Bool, true, false, ltb, if◌then◌else◌, List, [], ◌∷◌, length, take,
  is_empty, is_some, keep,
}
use spark_ln_address.Database.{Storage}
use spark_ln_address.Database.Rows.{AuthNonce}

abbrev pub purge_grace_ms : ℕ
purge_grace_ms = 3600000

abbrev purge_batch_size : ℕ
purge_batch_size = 1000

abbrev purge_max_batches : ℕ
purge_max_batches = 1000

-- `where: { expiresAt: { lt: cutoff } }`.
abbrev pub expired_before : ℕ → AuthNonce → Bool
expired_before cutoff n = ltb n.expires_at cutoff

-- Where a run awaits, in the round before which so many are left: between the reading of a batch
-- and its deletion, and after the deletion.
pub data Pause : Type 0 where
  before_delete after_delete : ℕ → Pause

module _ (S : Storage) where
  -- `deleteMany({ where: { id: { in } } })`.
  unfoldable pub delete_many : List AuthNonce → S.nonces.Rows → S.nonces.Rows
  delete_many [] t = t
  delete_many (r ∷ rs) t = S.nonces.remove r.id (delete_many rs t)

  abbrev pub batch : ℕ → S.nonces.Rows → List AuthNonce
  batch cutoff t = take purge_batch_size (S.nonces.select (expired_before cutoff) t)

  -- The number of the rows that `deleteMany` finds.
  abbrev found_count : List AuthNonce → S.nonces.Rows → ℕ
  found_count rows t = length (keep (λ r. is_some (S.nonces.get r.id t)) rows)

  -- The loop, with the number of its remaining rounds: how many rows it deleted, and the rest.
  -- `meanwhile` is what other requests write while it awaits.
  unfoldable pub purge_batches :
      (Pause → S.nonces.Rows → S.nonces.Rows) → ℕ → ℕ → S.nonces.Rows → ℕ × S.nonces.Rows
  purge_batches meanwhile zero cutoff t = (0, t)
  purge_batches meanwhile (suc rounds) cutoff t =
      let rows = batch cutoff t in
      let found = meanwhile (before_delete rounds) t in
      let left = delete_many rows found in
      let count = found_count rows found in
      let rest = purge_batches meanwhile rounds cutoff (meanwhile (after_delete rounds) left) in
      if is_empty rows
      then (0, t)
      else if ltb (length rows) purge_batch_size
      then (count, left)
      else (count + rest.0, rest.1)

  unfoldable pub purge_expired :
      (Pause → S.nonces.Rows → S.nonces.Rows) → ℕ → S.nonces.Rows → ℕ × S.nonces.Rows
  purge_expired meanwhile now t = purge_batches meanwhile purge_max_batches (now - purge_grace_ms) t

  -- `runSafely`: the flag and the rows after it. A run does nothing while another is under way.
  unfoldable pub run_safely :
      (Pause → S.nonces.Rows → S.nonces.Rows) → Bool → ℕ → S.nonces.Rows → Bool × S.nonces.Rows
  run_safely meanwhile true now t = (true, t)
  run_safely meanwhile false now t = (false, (purge_expired meanwhile now t).1)
