-- ===== src/RateLimit/Buckets.antt =====
-- What a bucket of the LNURL callback is keyed by, and what the settings can come to.
use spark_ln_address.Prelude.{
  ℕ, zero, suc, ◌≤◌, ◌<◌, ◌≡◌, ◌≢◌, refl, sym, ap, ◌↔◌, false, Bool-cases, inl, inr, Option, none,
  some, [], ◌∷◌, ◌++◌, All, Text, codes, text_eq, is_empty, length, take, drop, drop-length-append,
  Option-cases, get_or_else, if◌then◌else◌, arith, text_eq_iff, leb, ltb, ◌&&◌,
}
use mathlib.Core.Path.{◌∙◌}
use spark_ln_address.Names.Normal.{normalize_username, is_username, to_lower_case, trim, trim_start}
use spark_ln_address.RateLimit.{
  payer_and_name_tracker, positive_int, throttler_options, Settings, configure_trust_proxy, proxies,
  max_safe_integer, trusted_setting, default_trust_proxy,
}

take_all : (n : ℕ) (s : Text) → length s ≤ n → take n s ≡ s
take_all zero [] h = refl
take_all zero (c ∷ s) h = absurd (omega (arith, h))
take_all (suc n) [] h = refl
take_all (suc n) (c ∷ s) h = ap (λ t. c ∷ t) (take_all n s (omega (arith, h)))

normalize_username-length : (raw u : Text) → normalize_username raw ≡ some u → length u ≤ 30
unfolding normalize_username
normalize_username-length raw u h = elim (Bool-cases (is_username (trim (to_lower_case raw)))) [
  | inl e ↦ ground (arith, e, rw e at h)
  | inr e ↦ absurd (cc (rw e at h))
]

append-injective : (a b c : Text) → a ++ b ≡ a ++ c → b ≡ c
append-injective a b c h =
    sym (drop-length-append a b) ∙ (ap (drop (length a)) h ∙ drop-length-append a c)

payer_and_name_tracker-normalize_username :
    (normalize_ip : Text → Text) (ip : Option Text) (raw u : Text)
    → normalize_username raw ≡ some u
    → payer_and_name_tracker normalize_ip ip (some raw)
      ≡ normalize_ip (get_or_else ip (codes "")) ++ (codes ":" ++ u)
unfolding payer_and_name_tracker
payer_and_name_tracker-normalize_username normalize_ip ip raw u h =
    rw (h, take_all 32 u (omega (arith, normalize_username-length raw u h))) refl

-- Two requests of one client for names that can be normalised share a bucket exactly where the
-- normalised names are the same.
pub payer_and_name_tracker_iff :
    (normalize_ip : Text → Text) (ip : Option Text) (a b u v : Text)
    → normalize_username a ≡ some u
    → normalize_username b ≡ some v
    → (payer_and_name_tracker normalize_ip ip (some a)
        ≡ payer_and_name_tracker normalize_ip ip (some b))
      ↔ (u ≡ v)
payer_and_name_tracker_iff normalize_ip ip a b u v h g =
    let client = normalize_ip (get_or_else ip (codes "")) in
    rw
      (
        payer_and_name_tracker-normalize_username normalize_ip ip a u h,
        payer_and_name_tracker-normalize_username normalize_ip ip b v g,
      )
      (
        (λ e.
            append-injective (codes ":") u v
              (append-injective client (codes ":" ++ u) (codes ":" ++ v) e)),
        λ e. rw e refl,
      )

-- A limit that lets something through, and that a number holds exactly.
pub InRange : ℕ → Type 0
InRange n = (0 < n) × (n ≤ max_safe_integer)

positive_int-InRange :
    (number_of : Text → Option ℕ) (raw : Option Text) (fallback : ℕ)
    → InRange fallback
    → InRange (positive_int number_of raw fallback)
unfolding positive_int InRange
positive_int-InRange number_of none fallback f = f
positive_int-InRange number_of (some raw) fallback f = elim (Bool-cases (is_empty raw)) [
  | inl e ↦ rw e f
  | inr e ↦ elim (Option-cases (number_of raw)) [
    | inl g ↦ rw (e, g) f
    | inr (value, g) ↦ elim (Bool-cases (leb value max_safe_integer && ltb 0 value)) [
      | inl t ↦ rw (e, g, t) (ground (arith, t))
      | inr t ↦ rw (e, g, t) f
    ]
  ]
]

-- Whatever the settings are, every throttler has a positive window and a positive limit, both
-- exact as JavaScript numbers.
pub throttler_options_bounds :
    (number_of : Text → Option ℕ) (settings : Settings)
    → All (λ t. InRange t.ttl × InRange t.limit) (throttler_options number_of settings).throttlers
unfolding throttler_options InRange
throttler_options_bounds number_of settings = (
  (
    positive_int-InRange number_of settings.window_ms 60000 (omega arith, omega arith),
    positive_int-InRange number_of settings.max_requests 600 (omega arith, omega arith),
  ),
  (((omega arith, omega arith), (omega arith, omega arith)), tt),
)

trusted_setting_named :
    (value : Option Text)
    → text_eq (to_lower_case (trim (trusted_setting value))) (codes "true") ≡ false
unfolding to_lower_case trim trim_start text_eq
trusted_setting_named none = refl
trusted_setting_named (some value) =
    let setting = if is_empty value then default_trust_proxy else value in
    elim (Bool-cases (text_eq (to_lower_case (trim setting)) (codes "true"))) [
      | inl e ↦ rw e refl
      | inr e ↦ rw (e, e) refl
    ]

-- No setting makes Express trust the value true, in any case or spacing.
pub configure_trust_proxy_safe :
    (value : Option Text) (setting : Text)
    → configure_trust_proxy value ≡ proxies setting
    → to_lower_case (trim setting) ≢ codes "true"
unfolding configure_trust_proxy
configure_trust_proxy_safe value setting h =
    let named = trusted_setting_named value in
    ground (arith, named, text_eq_iff (to_lower_case (trim setting)) (codes "true"))
