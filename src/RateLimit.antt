-- ===== src/RateLimit.antt =====
-- src/rate-limit: the settings of the throttlers, the bucket of the LNURL callback, and the answer
-- to a throttled request. The counting is in @nestjs/throttler.
pub mod Buckets
use spark_ln_address.Prelude.{
  ℕ, max, Bool, true, false, ◌&&◌, not, leb, ltb, if◌then◌else◌, Option, none, some, get_or_else,
  List, [], ◌∷◌, ◌++◌, all, take, is_digit, is_empty, Text, codes, text_eq, decimal, decimal_text,
}
use spark_ln_address.Names.Normal.{normalize_username, to_lower_case, trim}

abbrev max_name_in_key : ℕ
max_name_in_key = 32

abbrev pub default_rate_limit_window_ms : ℕ
default_rate_limit_window_ms = 60000

abbrev pub default_rate_limit_max : ℕ
default_rate_limit_max = 600

abbrev pub max_safe_integer : ℕ
max_safe_integer = 9007199254740991

abbrev pub default_trust_proxy : Text
default_trust_proxy = codes "loopback"

-- The name that a request asks for, normalised where it can be.
abbrev pub requested_name : Text → Text
requested_name raw = get_or_else (normalize_username raw) (to_lower_case (trim raw))

-- The tracker of a request: `normalize_ip` is `normalizeIp(_, DEFAULT_IPV6_SUBNET_PREFIX)` of
-- @nestjs/throttler, `ip` is `req.ip` and `username` is `req.params?.username`.
unfoldable pub payer_and_name_tracker : (Text → Text) → Option Text → Option Text → Text
payer_and_name_tracker normalize_ip ip username =
    let client = normalize_ip (get_or_else ip (codes "")) in
    let name = requested_name (get_or_else username (codes "")) in
    client ++ (codes ":" ++ take max_name_in_key name)

-- `number_of` is `Number(text)`, with `none` for NaN and for a value that is no natural number.
unfoldable pub positive_int : (Text → Option ℕ) → Option Text → ℕ → ℕ
positive_int number_of none fallback = fallback
positive_int number_of (some raw) fallback =
    if is_empty raw then fallback else elim (number_of raw) [
      | none ↦ fallback
      | some value ↦ if leb value max_safe_integer && ltb 0 value then value else fallback
    ]

pub record Throttler : Type 0 where
  pub name : Text
  pub ttl : ℕ
  pub limit : ℕ

pub record Options : Type 0 where
  pub skip : Bool
  pub throttlers : List Throttler

-- The settings RATE_LIMIT_ENABLED, RATE_LIMIT_WINDOW_MS and RATE_LIMIT_MAX.
pub record Settings : Type 0 where
  pub enabled : Option Text
  pub window_ms : Option Text
  pub max_requests : Option Text

abbrev pub is_off : Option Text → Bool
is_off none = false
is_off (some t) = text_eq t (codes "false")

-- `useFactory`.
unfoldable pub throttler_options : (Text → Option ℕ) → Settings → Options
throttler_options number_of settings = record {
  skip = is_off settings.enabled;
  throttlers =
      record {
        name = codes "default";
        ttl = positive_int number_of settings.window_ms default_rate_limit_window_ms;
        limit = positive_int number_of settings.max_requests default_rate_limit_max;
      }
      ∷ record {
        name = codes "route";
        ttl = default_rate_limit_window_ms;
        limit = max_safe_integer;
      }
      ∷ [];
}

-- What Express is told of the proxies to trust.
pub data TrustProxy : Type 0 where
  no_proxy : TrustProxy
  hops : ℕ → TrustProxy
  proxies : Text → TrustProxy

-- The setting, with the default for none, for an empty one, and for one that trusts every hop.
abbrev pub trusted_setting : Option Text → Text
trusted_setting none = default_trust_proxy
trusted_setting (some value) =
    let setting = if is_empty value then default_trust_proxy else value in
    if text_eq (to_lower_case (trim setting)) (codes "true") then default_trust_proxy else setting

abbrev pub effective_setting : Text → TrustProxy
effective_setting setting =
    let number = trim setting in
    if text_eq setting (codes "false")
    then no_proxy
    else if not (is_empty number) && all is_digit number
    then hops (decimal number)
    else proxies setting

unfoldable pub configure_trust_proxy : Option Text → TrustProxy
configure_trust_proxy value = effective_setting (trusted_setting value)

pub record Throttled : Type 0 where
  pub status : ℕ
  pub retry_after : Text
  pub reason : Text

-- `throwThrottlingException`, as the answer that it makes.
unfoldable pub throttling_answer : ℕ → Throttled
throttling_answer time_to_block_expire = record {
  status = 429;
  retry_after = decimal_text (max 1 time_to_block_expire);
  reason = codes "Too many requests, retry later";
}
