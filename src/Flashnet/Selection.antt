-- ===== src/Flashnet/Selection.antt =====
-- src/flashnet/flashnet.module.ts, src/flashnet/flashnet-environment.ts and
-- src/flashnet/flashnet.mock.ts: which service answers, and what the stand-in for tests answers.
use spark_ln_address.Prelude.{
  ℕ, ◌+◌, ◌*◌, ◌≡◌, refl, Bool, false, ◌&&◌, Bool-cases, if◌then◌else◌, inl, inr, Option, none,
  some, is_some, is_empty, [], ◌∷◌, ◌++◌, Text, codes, text_eq,
}
use spark_ln_address.Auth.Crypto.{Bytes}
use spark_ln_address.Swap.Gate.{Runtime, verify_webhook_signature}
use spark_ln_address.Flashnet.{text, LightningQuoteResponse}
use spark_ln_address.Flashnet.Client.{OrderStatusResponse, OrderSnapshot}

-- NODE_ENV and JEST_WORKER_ID.
pub record Environment : Type 0 where
  pub node_env : Option Text
  pub jest_worker_id : Option Text

abbrev is_test : Option Text → Bool
is_test none = false
is_test (some t) = text_eq t (codes "test")

unfoldable pub is_test_environment : Environment → Bool
is_test_environment env = is_test env.node_env && is_some env.jest_worker_id

pub data Service : Type 0 where
  real mock : Service

-- The factory of FLASHNET_SERVICE, on FLASHNET_API_KEY; an empty key counts as none.
abbrev without_key : Environment → Service
without_key env = if is_test_environment env then mock else real

unfoldable pub flashnet_service : Option Text → Environment → Service
flashnet_service none env = without_key env
flashnet_service (some key) env = if is_empty key then without_key env else real

-- The stand-in's quote, of the amount asked for: `random_hex` draws as many bytes as it is given.
unfoldable pub mock_quote : (ℕ → Text) → ℕ → LightningQuoteResponse
mock_quote random_hex now = record {
  quote_id = codes "q_mock_" ++ random_hex 8;
  deposit_address = codes "lnbcmock" ++ random_hex 16;
  estimated_out = codes "920000";
  fee_amount = codes "10000";
  rounding_fee_amount = codes "2162";
  total_fee_amount = codes "12162";
  fee_bps = 41;
  route = codes "BTC" ∷ codes "USDB" ∷ [];
  expires_at = now + 2 * 60 * 1000;
  price_lock_mode = text (codes "approval_required");
  locked_min_amount_out = some (codes "838945");
  lightning_receive_request_id = codes "SparkLightningReceiveRequest:mock-" ++ random_hex 8;
}

abbrev pub mock_quote_order : Text → Option OrderSnapshot
mock_quote_order quote_id = none

abbrev pub mock_order_status : Text → OrderStatusResponse
mock_order_status order_id = record {
  order_id = order_id;
  status = codes "completed";
  amount_out = some (codes "920000");
  error_code = none;
  error_message = none;
}

-- The check of a webhook's signature by the service that was chosen.
unfoldable pub verify_by :
    Runtime → Service → Environment → Option Text → Bytes → Text → Text → Bool
verify_by runtime mock env secret raw_body signature timestamp = is_test_environment env
verify_by runtime real env secret raw_body signature timestamp =
    verify_webhook_signature runtime secret raw_body signature timestamp

-- Outside the test runner the signature of every webhook is checked for real, with or without a
-- key.
pub verify_by_real :
    (runtime : Runtime) (api_key : Option Text) (env : Environment) (secret : Option Text)
    (raw_body : Bytes) (signature timestamp : Text)
    → is_test_environment env ≡ false
    → verify_by runtime (flashnet_service api_key env) env secret raw_body signature timestamp
      ≡ verify_webhook_signature runtime secret raw_body signature timestamp
unfolding verify_by flashnet_service
verify_by_real runtime none env secret raw_body signature timestamp e = rw e refl
verify_by_real runtime (some key) env secret raw_body signature timestamp e =
    elim (Bool-cases (is_empty key)) [ inl f ↦ rw (f, e) refl | inr f ↦ rw f refl ]
