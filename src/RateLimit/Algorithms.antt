-- ===== src/RateLimit/Algorithms.antt =====
-- src/rate-limit/rate-limit.algorithms.ts, and the policies and results of rate-limit.types.ts.
-- A bucket's tokens are a fraction of a token over the window, `tokens = units / windowMs`: one
-- millisecond adds `limit` units, one request takes `windowMs` units. The program computes the same
-- fractions in floating point, whose rounding is left out. Limits and windows are positive, as the
-- configuration loader makes sure.
pub mod Bucket
pub mod Rate
pub mod Window
pub mod Retry
use atraport_api.Prelude.{
  ℕ, ◌+◌, ◌-◌, ◌*◌, ◌/◌, String, Bool, not, ◌||◌, Option, none, some, List, [], ◌∷◌, ◌++◌, max, min,
  ltb, leb, nat_eq, length, filter, if◌then◌else◌,
}
use atraport_api.Prelude.JsMap
use atraport_api.Prelude.JsMap.{JsMap}

pub data RateLimitAlgorithm : Type 0 where
  token_bucket sliding_window : RateLimitAlgorithm

pub record RateLimitPolicy : Type 0 where
  pub limit : ℕ
  pub window_ms : ℕ
  pub algorithm : RateLimitAlgorithm

pub record RateLimitResult : Type 0 where
  pub allowed : Bool
  pub limit : ℕ
  pub remaining : ℕ
  pub reset_at : ℕ
  pub retry_after_ms : ℕ

-- `Math.ceil(a / b)` for a positive `b`.
abbrev pub ceil_div : ℕ → ℕ → ℕ
ceil_div a b = (a + b - 1) / b

pub record TokenBucketState : Type 0 where
  pub units : ℕ
  pub last_refill : ℕ
  pub limit : ℕ
  pub window_ms : ℕ

abbrev pub full_bucket : RateLimitPolicy → ℕ → TokenBucketState
full_bucket policy now = record {
  units = policy.limit * policy.window_ms;
  last_refill = now;
  limit = policy.limit;
  window_ms = policy.window_ms;
}

-- The bucket that `consume` works on: a new key, or a changed policy, starts with a full one.
unfoldable pub current_bucket : RateLimitPolicy → ℕ → Option TokenBucketState → TokenBucketState
current_bucket policy now none = full_bucket policy now
current_bucket policy now (some b) =
    if not (nat_eq b.limit policy.limit) || not (nat_eq b.window_ms policy.window_ms)
    then full_bucket policy now
    else b

unfoldable pub refilled : RateLimitPolicy → ℕ → TokenBucketState → ℕ
refilled policy now b =
    min (policy.limit * policy.window_ms) (b.units + (now - b.last_refill) * policy.limit)

unfoldable pub bucket_result : RateLimitPolicy → ℕ → Bool → ℕ → RateLimitResult
bucket_result policy now allowed units = record {
  allowed = allowed;
  limit = policy.limit;
  remaining = units / policy.window_ms;
  reset_at = now + ceil_div (policy.limit * policy.window_ms - units) policy.limit;
  retry_after_ms = if allowed then 0 else max 1 (ceil_div (policy.window_ms - units) policy.limit);
}

-- The rest of `consume`, once the bucket is found.
unfoldable pub take_token :
    RateLimitPolicy → ℕ → TokenBucketState → RateLimitResult × TokenBucketState
unfolding refilled bucket_result
take_token policy now b =
    let units = refilled policy now b in
    let allowed = leb policy.window_ms units in
    let left = if allowed then units - policy.window_ms else units in
    (bucket_result policy now allowed left, record b { units = left; last_refill = now })

abbrev pub TokenBucketRateLimiter : Type 0
TokenBucketRateLimiter = JsMap TokenBucketState

unfoldable pub bucket_consume :
    String → RateLimitPolicy → ℕ → TokenBucketRateLimiter → RateLimitResult × TokenBucketRateLimiter
unfolding current_bucket
bucket_consume key policy now buckets =
    let (result, b) = take_token policy now (current_bucket policy now (JsMap.get key buckets)) in
    (result, JsMap.set key b buckets)

unfoldable pub bucket_prune : ℕ → TokenBucketRateLimiter → TokenBucketRateLimiter
bucket_prune older_than buckets = JsMap.retain (λ key b. not (ltb b.last_refill older_than)) buckets

pub record SlidingWindowState : Type 0 where
  pub timestamps : List ℕ
  pub last_seen : ℕ

abbrev pub SlidingWindowRateLimiter : Type 0
SlidingWindowRateLimiter = JsMap SlidingWindowState

-- `timestamp > now - windowMs`, where the difference may be negative.
abbrev pub in_window : RateLimitPolicy → ℕ → ℕ → Bool
in_window policy now timestamp = ltb now (timestamp + policy.window_ms)

unfoldable pub reset_time : RateLimitPolicy → ℕ → List ℕ → ℕ
reset_time policy now [] = now + policy.window_ms
reset_time policy now (oldest ∷ rest) = oldest + policy.window_ms

unfoldable pub window_result : RateLimitPolicy → ℕ → Bool → List ℕ → RateLimitResult
unfolding reset_time
window_result policy now allowed timestamps = record {
  allowed = allowed;
  limit = policy.limit;
  remaining = policy.limit - length timestamps;
  reset_at = reset_time policy now timestamps;
  retry_after_ms = if allowed then 0 else max 1 (reset_time policy now timestamps - now);
}

-- The body of `consume`, from the timestamps that the key has.
unfoldable pub take_slot : RateLimitPolicy → ℕ → List ℕ → RateLimitResult × List ℕ
unfolding window_result
take_slot policy now timestamps =
    let recent = filter (in_window policy now) timestamps in
    let allowed = ltb (length recent) policy.limit in
    let kept = if allowed then recent ++ now ∷ [] else recent in
    (window_result policy now allowed kept, kept)

abbrev pub timestamps_of : Option SlidingWindowState → List ℕ
timestamps_of none = []
timestamps_of (some state) = state.timestamps

unfoldable pub window_consume :
    String
    → RateLimitPolicy
    → ℕ
    → SlidingWindowRateLimiter
    → RateLimitResult × SlidingWindowRateLimiter
window_consume key policy now windows =
    let (result, kept) = take_slot policy now (timestamps_of (JsMap.get key windows)) in
    (result, JsMap.set key (record { timestamps = kept; last_seen = now }) windows)

unfoldable pub window_prune : ℕ → SlidingWindowRateLimiter → SlidingWindowRateLimiter
window_prune older_than windows =
    JsMap.retain (λ key state. not (ltb state.last_seen older_than)) windows
