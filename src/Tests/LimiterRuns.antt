-- ===== src/Tests/LimiterRuns.antt =====
-- src/rate-limit/rate-limit.algorithms.ts and rate-limit.interceptor.ts: runs of the limiters.
use atraport_api.Prelude.{
  ◌+◌, ◌-◌, ◌*◌, ◌≤◌, ◌<◌, true, false, none, some, [], ◌∷◌, max, ◌≡◌, refl, arith, length, filter,
}
use atraport_api.Prelude.JsMap
use atraport_api.RateLimit.Algorithms.{
  RateLimitPolicy, TokenBucketState, token_bucket, sliding_window,
}
use atraport_api.RateLimit.Algorithms.Rate.{admitted, admitted_rate}
use atraport_api.RateLimit.Algorithms.Window.{admitted_times, within, window_never_exceeded}
use atraport_api.RateLimit.Service.{RateLimitDecision}
use atraport_api.RateLimit.Interceptor.{
  intercept, too_many_requests, number, retry_after_seconds, intercept_refused,
}
use atraport_api.Logging.ExceptionFilter.{
  http, value, log_warning, catch_exception, rate_limit_exceeded,
}
use atraport_api.Logging.ExceptionFilter.Answers.{thrown, caught, refused_answered}

abbrev bucket_policy : RateLimitPolicy
bucket_policy = record { limit = 2; window_ms = 1000; algorithm = token_bucket }

abbrev window_policy : RateLimitPolicy
window_policy = record { limit = 2; window_ms = 1000; algorithm = sliding_window }

abbrev spent_bucket : TokenBucketState
spent_bucket = record { units = 400; last_refill = 100; limit = 2; window_ms = 1000 }

admitted_rate_example :
    admitted "k" bucket_policy (10 ∷ 11 ∷ 12 ∷ 13 ∷ []) [] * 1000 ≤ 2 * 1000 + (13 - 10) * 2
admitted_rate_example =
    admitted_rate "k" bucket_policy 10 13 (11 ∷ 12 ∷ 13 ∷ []) []
      ((omega arith), ((omega arith), ((omega arith), (omega arith))))

window_never_exceeded_example :
    length
      (filter (within window_policy 13) (admitted_times "k" window_policy (10 ∷ 11 ∷ 12 ∷ []) []))
    ≤ 2
unfolding JsMap.get
window_never_exceeded_example =
    window_never_exceeded "k" window_policy (10 ∷ 11 ∷ 12 ∷ []) 10 12 13 [] refl
      ((omega arith), ((omega arith), ((omega arith), (omega arith))))

abbrev refusal : RateLimitDecision
refusal = record {
  result = record {
    allowed = false;
    limit = 2;
    remaining = 0;
    reset_at = 5000;
    retry_after_ms = 1200;
  };
  bypassed = false;
  scope = none;
  algorithm = none;
}

intercept_refused_example :
    let (ending, sent) = intercept true (some refusal) true [] in
    (ending ≡ too_many_requests (retry_after_seconds refusal))
    × (JsMap.get "Retry-After" sent ≡ some (number (retry_after_seconds refusal)))
    × (1 ≤ retry_after_seconds refusal)
    × (1200 ≤ 1000 * retry_after_seconds refusal)
    × (1000 * retry_after_seconds refusal < max 1 1200 + 1000)
intercept_refused_example = intercept_refused refusal true [] refl refl

refused_answered_example :
    let seconds = retry_after_seconds refusal in
    let (ending, sent) = intercept true (some refusal) true [] in
    let answer = catch_exception (http (rate_limit_exceeded seconds)) "id" "/trades" 7 in
    (caught (thrown value ending) "id" "/trades" 7 ≡ some answer)
    × (answer.response.status_code ≡ 429)
    × (answer.response.code ≡ some "RATE_LIMIT_EXCEEDED")
    × (answer.response.retry_after ≡ some seconds)
    × (JsMap.get "Retry-After" sent ≡ some (number seconds))
    × (1 ≤ seconds)
    × (answer.log ≡ some log_warning)
    × (answer.reported ≡ true)
refused_answered_example = refused_answered refusal true [] value "id" "/trades" 7 refl refl
