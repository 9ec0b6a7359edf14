-- ===== src/RateLimit/Service.antt =====
-- src/rate-limit/rate-limit.service.ts: which limits apply to a request, and the decision.
-- `now` is the clock's reading. The cleanup timer's callback is `cleanup`.
pub mod Check
pub mod Accounting
pub mod Decisions
pub mod Frames
pub mod Admitting
use atraport_api.Prelude.{
  ℕ, ◌+◌, ◌*◌, ◌-◌, String, Bool, true, false, not, ◌&&◌, ◌||◌, Option, none, some, List, [], ◌∷◌,
  ◌++◌, ltb, find, any, length, opt_eq, ◌<>◌, truthy, to_upper_case, before, without_last,
  if◌then◌else◌,
}
use mathlib.Core.Option
use text.Mathlib.Text.{◌==◌, starts_with}
use atraport_api.Prelude.JsMap
use atraport_api.Prelude.JsMap.{JsMap}
use atraport_api.Monitoring.Metrics.{Metrics, increment_counter, set_gauge}
use atraport_api.RateLimit.Algorithms.{
  RateLimitAlgorithm, token_bucket, sliding_window, RateLimitPolicy, RateLimitResult,
  TokenBucketRateLimiter, SlidingWindowRateLimiter, bucket_consume, window_consume, bucket_prune,
  window_prune,
}

pub data RateLimitScope : Type 0 where
  ip user endpoint : RateLimitScope

-- `EndpointRateLimitPolicy`: its own `scope` says whose requests are counted together.
pub record EndpointPolicy : Type 0 where
  pub policy : RateLimitPolicy
  pub path : String
  pub method : Option String
  pub by_ip : Bool

pub record RateLimitConfiguration : Type 0 where
  pub enabled : Bool
  pub fail_open : Bool
  pub ip_policy : RateLimitPolicy
  pub user_policy : RateLimitPolicy
  pub endpoints : List EndpointPolicy
  pub whitelist_ips : List String
  pub whitelist_user_ids : List String
  pub whitelist_api_keys : List String

pub record RateLimitOverride : Type 0 where
  pub limit : ℕ
  pub window_ms : ℕ
  pub algorithm : Option RateLimitAlgorithm
  pub by_ip : Option Bool

-- A header is missing, given once, or given as a list.
pub data HeaderValue : Type 0 where
  missing : HeaderValue
  single : String → HeaderValue
  multiple : List String → HeaderValue

pub record RateLimitRequest : Type 0 where
  pub method : Option String
  pub ip_address : Option String
  pub url : Option String
  pub original_url : Option String
  pub route_path : Option String
  pub api_key_header : HeaderValue
  pub remote_address : Option String
  pub user_id : Option String

pub record Outcomes : Type 0 where
  pub allowed : ℕ
  pub rejected : ℕ

pub record RateLimitAnalytics : Type 0 where
  pub total : ℕ
  pub allowed : ℕ
  pub rejected : ℕ
  pub bypassed : ℕ
  pub by_ip : Outcomes
  pub by_user : Outcomes
  pub by_endpoint : Outcomes

pub record AppliedLimit : Type 0 where
  pub scope : RateLimitScope
  pub algorithm : RateLimitAlgorithm
  pub result : RateLimitResult

pub record RateLimitDecision : Type 0 where
  pub result : RateLimitResult
  pub bypassed : Bool
  pub scope : Option RateLimitScope
  pub algorithm : Option RateLimitAlgorithm

pub record RateLimitService : Type 0 where
  pub config : RateLimitConfiguration
  pub token_buckets : TokenBucketRateLimiter
  pub sliding_windows : SlidingWindowRateLimiter
  pub analytics : RateLimitAnalytics
  pub metrics : Metrics

abbrev pub scope_name : RateLimitScope → String
scope_name ip = "ip"
scope_name user = "user"
scope_name endpoint = "endpoint"

abbrev pub algorithm_name : RateLimitAlgorithm → String
algorithm_name token_bucket = "token-bucket"
algorithm_name sliding_window = "sliding-window"

unfoldable pub active_keys : RateLimitService → ℕ
active_keys s = length s.token_buckets + length s.sliding_windows

unfoldable pub update_active_keys_metric : RateLimitService → RateLimitService
unfolding active_keys
update_active_keys_metric s = record s {
  metrics = set_gauge "rate_limit_active_keys" (active_keys s) [] s.metrics;
}

unfoldable pub bypass : String → ℕ → RateLimitService → RateLimitDecision × RateLimitService
bypass reason now s = (
  record {
    result = record {
      allowed = true;
      limit = 0;
      remaining = 0;
      reset_at = now;
      retry_after_ms = 0;
    };
    bypassed = true;
    scope = none;
    algorithm = none;
  },
  record s {
    analytics = record s.analytics { bypassed = s.analytics.bypassed + 1 };
    metrics = increment_counter "rate_limit_bypassed_total" (("reason", reason) ∷ []) 1 s.metrics;
  },
)

unfoldable pub count_outcome : Bool → Outcomes → Outcomes
count_outcome allowed o =
    if allowed then record o { allowed = o.allowed + 1 } else record o { rejected = o.rejected + 1 }

unfoldable pub count_scope : RateLimitScope → Bool → RateLimitAnalytics → RateLimitAnalytics
unfolding count_outcome
count_scope ip allowed a = record a { by_ip = count_outcome allowed a.by_ip }
count_scope user allowed a = record a { by_user = count_outcome allowed a.by_user }
count_scope endpoint allowed a = record a { by_endpoint = count_outcome allowed a.by_endpoint }

-- `limiter.consume(...)`, for the limiter of the policy's algorithm.
unfoldable pub consume :
    RateLimitAlgorithm
    → String
    → RateLimitPolicy
    → ℕ
    → RateLimitService
    → RateLimitResult × RateLimitService
consume token_bucket key policy now s =
    let (result, buckets) = bucket_consume key policy now s.token_buckets in
    (result, record s { token_buckets = buckets })
consume sliding_window key policy now s =
    let (result, windows) = window_consume key policy now s.sliding_windows in
    (result, record s { sliding_windows = windows })

count_checks : RateLimitScope → RateLimitAlgorithm → Bool → Metrics → Metrics
count_checks scope algorithm allowed ms =
    let checked =
      increment_counter "rate_limit_checks_total"
        (("scope", scope_name scope)
          ∷ ("algorithm", algorithm_name algorithm)
          ∷ ("outcome", if allowed then "allowed" else "rejected")
          ∷ [])
        1 ms in
    if allowed
    then checked
    else increment_counter "rate_limit_exceeded_total" (("scope", scope_name scope) ∷ []) 1 checked

unfoldable pub apply :
    RateLimitScope
    → String
    → RateLimitPolicy
    → ℕ
    → RateLimitService
    → AppliedLimit × RateLimitService
unfolding count_checks
apply scope key policy now s =
    let (result, s') = consume policy.algorithm (scope_name scope <> ":" <> key) policy now s in
    (
      record { scope = scope; algorithm = policy.algorithm; result = result },
      record s' {
        analytics = count_scope scope result.allowed s'.analytics;
        metrics = count_checks scope policy.algorithm result.allowed s'.metrics;
      },
    )
