-- ===== src/Auth/Replay/Memory.antt =====
-- An accepted request is remembered for as long as it could be presented again.
use spark_ln_address.Prelude.{
  ℕ, ◌+◌, ◌≤◌, ◌≡◌, refl, inl, inr, Bool-cases, false, ltb, if◌then◌else◌, some, List, [], ◌∷◌,
  Text, text_eq, text_eq_iff, text_eq_refl, text_eq_sound, ok, err, arith, is_empty, All, length,
  ◌≢◌,
}
use spark_ln_address.Auth.Replay.{
  Bucket, Seen, replay_cache_sweep_threshold, replayed, get, set, prune_bucket,
  sweep_seen_signatures, swept, current_bucket, admit, stored, reject_replay,
}

pub get-set :
    {V : Type 0} (j k : Text) (v : V) (m : List (Text × V))
    → get j (set k v m) ≡ (if text_eq k j then some v else get j m)
unfolding get set
get-set j k v [] = refl
get-set j k v ((i, w) ∷ m) =
    ground (arith, get-set j k v m, text_eq_iff i k, text_eq_iff i j, text_eq_iff k j)

-- No entry appears twice in what a `Map` holds, so `get` decides what pruning keeps.
get-prune_bucket :
    (now : ℕ) (k : Text) (e : ℕ) (b : Bucket)
    → get k b ≡ some e
    → now ≤ e
    → get k (prune_bucket now b) ≡ some e
unfolding get prune_bucket
get-prune_bucket now k e [] h l = cc
get-prune_bucket now k e ((j, x) ∷ b) h l = ground (arith, get-prune_bucket now k e b)

get-nil : {V : Type 0} (k : Text) {v : V} → get k [] ≢ some v
unfolding get
get-nil k h = cc

-- The request with this digest is remembered until `e`.
pub Remembers : Text → Text → ℕ → Seen → Type 0
Remembers pubkey digest e seen = (b : Bucket) × (get pubkey seen ≡ some b) × (get digest b ≡ some e)

prune_bucket-ne-nil :
    (now : ℕ) (k : Text) (e : ℕ) (b : Bucket)
    → get k (prune_bucket now b) ≡ some e
    → is_empty (prune_bucket now b) ≡ false
prune_bucket-ne-nil now k e b h = nonempty (prune_bucket now b) h
  where
    nonempty : (c : Bucket) → get k c ≡ some e → is_empty c ≡ false
    nonempty [] g = absurd (get-nil k g)
    nonempty (x ∷ c) g = refl

sweep-Remembers :
    (now : ℕ) (pubkey digest : Text) (e : ℕ) (seen : Seen)
    → now ≤ e
    → Remembers pubkey digest e seen
    → Remembers pubkey digest e (sweep_seen_signatures now seen)
unfolding Remembers get sweep_seen_signatures
sweep-Remembers now pubkey digest e [] l (b, at_key, held) = cc
sweep-Remembers now pubkey digest e ((p, c) ∷ seen) l (b, at_key, held) =
    elim (Bool-cases (text_eq p pubkey)) [
      | inl y ↦
          let same : c ≡ b = ground arith in
          let kept = get-prune_bucket now digest e c (rw same held) l in
          (prune_bucket now c, ground (arith, prune_bucket-ne-nil now digest e c kept), kept)
      | inr y ↦
          let (b', at', held') =
            sweep-Remembers now pubkey digest e seen l (b, ground arith, held) in
          (b', ground arith, held')
    ]

swept-Remembers :
    (now : ℕ) (pubkey digest : Text) (e : ℕ) (seen : Seen)
    → now ≤ e
    → Remembers pubkey digest e seen
    → Remembers pubkey digest e (swept now seen)
unfolding swept
swept-Remembers now pubkey digest e seen l h =
    elim (Bool-cases (ltb replay_cache_sweep_threshold (length seen))) [
      | inl y ↦ rw y (sweep-Remembers now pubkey digest e seen l h)
      | inr y ↦ rw y h
    ]

current_bucket-held :
    (now : ℕ) (pubkey digest : Text) (e : ℕ) (seen : Seen)
    → now ≤ e
    → Remembers pubkey digest e seen
    → get digest (current_bucket now pubkey seen) ≡ some e
unfolding Remembers current_bucket
current_bucket-held now pubkey digest e seen l (b, at_key, held) =
    ground (arith, get-prune_bucket now digest e b held l)

admit-held :
    (k digest : Text) (x e : ℕ) (b : Bucket)
    → get digest b ≡ some e
    → get digest (stored b (admit k x b)) ≡ some e
unfolding admit
admit-held k digest x e b h = ground (arith, get-set digest k x b, text_eq_iff k digest)

-- Whoever makes the next request, and whatever becomes of it.
pub reject_replay-Remembers :
    (skew : ℕ) (pubkey digest p d : Text) (e ts now : ℕ) (seen : Seen)
    → now ≤ e
    → Remembers pubkey digest e seen
    → Remembers pubkey digest e (reject_replay skew p d ts now seen).1
unfolding reject_replay Remembers
reject_replay-Remembers skew pubkey digest p d e ts now seen l h =
    let seen1 = swept now seen in
    let h1 = swept-Remembers now pubkey digest e seen l h in
    let b1 = current_bucket now p seen1 in
    let b2 = stored b1 (admit d (ts + skew) b1) in
    elim (Bool-cases (text_eq p pubkey)) [
      | inl y ↦
          let same = text_eq_sound p pubkey y in
          (
            b2,
            ground (arith, get-set pubkey p b2 seen1),
            admit-held d digest (ts + skew) e b1
                (rw same (current_bucket-held now pubkey digest e seen1 l h1)),
          )
      | inr y ↦ (h1.0, ground (arith, get-set pubkey p b2 seen1, h1.1), h1.2)
    ]

accepted-Remembers :
    (skew : ℕ) (pubkey digest : Text) (ts now : ℕ) (seen : Seen)
    → (reject_replay skew pubkey digest ts now seen).0 ≡ ok tt
    → Remembers pubkey digest (ts + skew) (reject_replay skew pubkey digest ts now seen).1
unfolding reject_replay Remembers admit
accepted-Remembers skew pubkey digest ts now seen h =
    let seen1 = swept now seen in
    let b1 = current_bucket now pubkey seen1 in
    let b2 = stored b1 (admit digest (ts + skew) b1) in
    (
      b2,
      ground (arith, get-set pubkey pubkey b2 seen1, text_eq_refl pubkey),
      ground (arith, get-set digest digest (ts + skew) b1, text_eq_refl digest),
    )

remembered-rejected :
    (skew : ℕ) (pubkey digest : Text) (e ts now : ℕ) (seen : Seen)
    → now ≤ e
    → Remembers pubkey digest e seen
    → (reject_replay skew pubkey digest ts now seen).0 ≡ err replayed
unfolding reject_replay admit
remembered-rejected skew pubkey digest e ts now seen l h = ground (
  arith,
  current_bucket-held now pubkey digest e (swept now seen) l
      (swept-Remembers now pubkey digest e seen l h),
)

-- One call of the cache: who calls, with what, and when.
pub record Call : Type 0 where
  pub pubkey : Text
  pub digest : Text
  pub signed_at_ms : ℕ
  pub now : ℕ

pub run_calls : ℕ → List Call → Seen → Seen
run_calls skew [] seen = seen
run_calls skew (c ∷ cs) seen =
    run_calls skew cs (reject_replay skew c.pubkey c.digest c.signed_at_ms c.now seen).1

run_calls-Remembers :
    (skew : ℕ) (pubkey digest : Text) (e : ℕ) (calls : List Call) (seen : Seen)
    → All (λ c. c.now ≤ e) calls
    → Remembers pubkey digest e seen
    → Remembers pubkey digest e (run_calls skew calls seen)
unfolding run_calls
run_calls-Remembers skew pubkey digest e [] seen a h = h
run_calls-Remembers skew pubkey digest e (c ∷ cs) seen (l, a) h =
    run_calls-Remembers skew pubkey digest e cs _ a
      (reject_replay-Remembers skew pubkey digest c.pubkey c.digest e c.signed_at_ms c.now seen l h)

-- A digest that the cache accepted for a public key is refused as a replay up to the end of the
-- window of its timestamp, after any other calls made within that window.
pub replay_rejected :
    (skew : ℕ) (pubkey digest : Text) (ts now later : ℕ) (seen : Seen) (between : List Call)
    → (reject_replay skew pubkey digest ts now seen).0 ≡ ok tt
    → All (λ c. c.now ≤ ts + skew) between
    → later ≤ ts + skew
    → (reject_replay skew pubkey digest ts later
        (run_calls skew between (reject_replay skew pubkey digest ts now seen).1)).0
      ≡ err replayed
replay_rejected skew pubkey digest ts now later seen between h a l =
    remembered-rejected skew pubkey digest (ts + skew) ts later _ l (
      run_calls-Remembers skew pubkey digest (ts + skew) between _ a
        (accepted-Remembers skew pubkey digest ts now seen h))
