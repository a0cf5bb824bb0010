-- ===== src/Auth/Purge/Live.antt =====
-- The challenges that a purge leaves.
use spark_ln_address.Prelude.{
  ℕ, zero, suc, ◌-◌, ◌≤◌, ◌≡◌, refl, ◌∙◌, false, Bool-cases, Option-cases, inl, inr, ltb, List, [],
  ◌∷◌, length, take, is_empty, All, All-imp, some, is_some, Text, text_eq, text_eq_sound, true,
  arith,
}
use spark_ln_address.Database.{Storage}
use spark_ln_address.Database.Rows.{AuthNonce}
use spark_ln_address.Account.Registration.{is_live}
use spark_ln_address.Auth.Purge.{
  Pause, before_delete, after_delete, expired_before, delete_many, batch, purge_batches,
  purge_expired, purge_grace_ms, purge_batch_size, purge_max_batches,
}

All-take : {A : Type 0} (P : A → Type 0) (n : ℕ) (xs : List A) → All P xs → All P (take n xs)
All-take P zero xs h = tt
All-take P (suc n) [] h = tt
All-take P (suc n) (x ∷ xs) (h, hs) = (h, All-take P n xs hs)

module _ (S : Storage) (cutoff : ℕ) where
  -- The second table has of the first all the rows that did not expire, and no others.
  record IsPurgeOf (t t' : S.nonces.Rows) : Type 0 where
    keeps :
        (k : Text) (n : AuthNonce)
        → S.nonces.get k t ≡ some n
        → expired_before cutoff n ≡ false
        → S.nonces.get k t' ≡ some n
    invents : (k : Text) (n : AuthNonce) → S.nonces.get k t' ≡ some n → S.nonces.get k t ≡ some n

  delete_many_keeps :
      (k : Text) (n : AuthNonce) (rs : List AuthNonce) (t : S.nonces.Rows)
      → All (λ r. text_eq r.id k ≡ false) rs
      → S.nonces.get k (delete_many S rs t) ≡ S.nonces.get k t
  unfolding delete_many
  delete_many_keeps k n [] t h = refl
  delete_many_keeps k n (r ∷ rs) t (h, hs) =
      ground (arith, S.nonces.get-remove k r.id (delete_many S rs t), delete_many_keeps k n rs t hs)

  delete_many_invents :
      (k : Text) (n : AuthNonce) (rs : List AuthNonce) (t : S.nonces.Rows)
      → S.nonces.get k (delete_many S rs t) ≡ some n
      → S.nonces.get k t ≡ some n
  unfolding delete_many
  delete_many_invents k n [] t h = h
  delete_many_invents k n (r ∷ rs) t h =
      ground (arith, S.nonces.get-remove k r.id (delete_many S rs t), delete_many_invents k n rs t)

  batch-IsPurgeOf :
      (t found : S.nonces.Rows)
      → ((k : Text) (n n' : AuthNonce)
          → S.nonces.get k t ≡ some n
          → S.nonces.get k found ≡ some n'
          → n'.expires_at ≡ n.expires_at)
      → IsPurgeOf found (delete_many S (batch S cutoff t) found)
  batch-IsPurgeOf t found fixed = record {
    keeps = λ k n p q.
        delete_many_keeps k n (batch S cutoff t) found (
          All-imp (batch S cutoff t) (λ r h. elsewhere k n r p q h.0 h.1)
            (All-take _ purge_batch_size (S.nonces.select (expired_before cutoff) t)
              (S.nonces.select_sound (expired_before cutoff) t)))
        ∙ p;
    invents = λ k n. delete_many_invents k n (batch S cutoff t) found;
  }
    where
      elsewhere :
          (k : Text) (n r : AuthNonce)
          → S.nonces.get k found ≡ some n
          → expired_before cutoff n ≡ false
          → expired_before cutoff r ≡ true
          → S.nonces.get r.id t ≡ some r
          → text_eq r.id k ≡ false
      elsewhere k n r p q e g = elim (Bool-cases (text_eq r.id k)) [
        | inr y ↦ y
        | inl y ↦
            let same = fixed k r n (rw (← text_eq_sound r.id k y) g) p in
            absurd (ground (arith, same, q, e))
      ]

module _ (S : Storage) where
  live_in_purge :
      (now later : ℕ) (k1 : Text) (t t' : S.nonces.Rows)
      → now ≤ later
      → IsPurgeOf S (now - purge_grace_ms) t t'
      → is_some (S.nonces.find (is_live k1 later) t') ≡ is_some (S.nonces.find (is_live k1 later) t)
  live_in_purge now later k1 t t' h p = elim (Option-cases (S.nonces.find (is_live k1 later) t)) [
    | inl e ↦ elim (Option-cases (S.nonces.find (is_live k1 later) t')) [
      | inl f ↦ rw (e, f) refl
      | inr (n, f) ↦
          let (q, g) = S.nonces.find_sound (is_live k1 later) t' n f in
          let no = S.nonces.find_complete (is_live k1 later) t n.id n e (p.invents n.id n g) in
          ground (arith, q, no)
    ]
    | inr (m, e) ↦ elim (Option-cases (S.nonces.find (is_live k1 later) t')) [
      | inl f ↦
          let (q, g) = S.nonces.find_sound (is_live k1 later) t m e in
          let no = S.nonces.find_complete (is_live k1 later) t' m.id m f in
          ground (arith, q, no, p.keeps m.id m g)
      | inr (n, f) ↦ rw (e, f) refl
    ]
  ]

  -- The other requests leave the expiry of each challenge, and neither use up nor issue one with
  -- this k1.
  pub record Undisturbed (k1 : Text) (later : ℕ) (t t' : S.nonces.Rows) : Type 0 where
    pub fixed :
        (k : Text) (n n' : AuthNonce)
        → S.nonces.get k t ≡ some n
        → S.nonces.get k t' ≡ some n'
        → n'.expires_at ≡ n.expires_at
    pub live :
        is_some (S.nonces.find (is_live k1 later) t') ≡ is_some (S.nonces.find (is_live k1 later) t)

  module _ (meanwhile : Pause → S.nonces.Rows → S.nonces.Rows) (now later : ℕ) (k1 : Text)
      (order : now ≤ later)
      (others : (pause : Pause) (t : S.nonces.Rows)
        → Undisturbed k1 later t (meanwhile pause t)) where
    purge_batches_live :
        (rounds : ℕ) (t : S.nonces.Rows)
        → is_some (
            S.nonces.find
              (is_live k1 later)
              (purge_batches S meanwhile rounds (now - purge_grace_ms) t).1)
          ≡ is_some (S.nonces.find (is_live k1 later) t)
    unfolding purge_batches
    purge_batches_live zero t = refl
    purge_batches_live (suc rounds) t =
        let cutoff = now - purge_grace_ms in
        let rows = batch S cutoff t in
        let found = meanwhile (before_delete rounds) t in
        let left = delete_many S rows found in
        let calm = others (before_delete rounds) t in
        let one =
          live_in_purge now later k1 found left order (batch-IsPurgeOf S cutoff t found calm.fixed)
          ∙ calm.live in
        let more =
          purge_batches_live rounds (meanwhile (after_delete rounds) left)
          ∙ ((others (after_delete rounds) left).live ∙ one) in
        elim (Bool-cases (is_empty rows)) [
          | inl e ↦ rw e refl
          | inr e ↦ elim (Bool-cases (ltb (length rows) purge_batch_size)) [
            | inl f ↦ rw (e, f) one
            | inr f ↦ rw (e, f) more
          ]
        ]

    -- At any time from the purge on, a challenge with a given k1 can be consumed after the purge
    -- exactly where it could be before it, whatever other requests write while the purge awaits,
    -- if they leave the expiry of each challenge and neither use up nor issue one with that k1.
    pub purge_keeps_live :
        (t : S.nonces.Rows)
        → is_some (S.nonces.find (is_live k1 later) ((purge_expired S meanwhile now t).1))
          ≡ is_some (S.nonces.find (is_live k1 later) t)
    unfolding purge_expired
    purge_keeps_live t = purge_batches_live purge_max_batches t
