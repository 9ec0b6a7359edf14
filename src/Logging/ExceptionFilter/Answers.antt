-- ===== src/Logging/ExceptionFilter/Answers.antt =====
-- What a client is answered when the rate limiter refuses a request, through the interceptor and the filter.
use atraport_api.Prelude.{ℕ, ◌≤◌, String, Bool, true, false, Option, none, some, ◌≡◌, refl}
use atraport_api.Prelude.JsMap
use atraport_api.Prelude.JsMap.{JsMap}
use atraport_api.RateLimit.Service.{RateLimitDecision}
use atraport_api.RateLimit.Interceptor.{
  HeaderText, number, Interception, handled, too_many_requests, check_failed, intercept,
  retry_after_seconds, intercept_refused,
}
use atraport_api.Logging.ExceptionFilter.{
  Exception, http, Caught, log_warning, derive, logged, is_operational, is_error, catch_exception,
  rate_limit_exceeded,
}

-- The exception that an interception ends with, where the check's own failure is an exception of its own.
abbrev pub thrown : Exception → Interception → Option Exception
thrown failure handled = none
thrown failure (too_many_requests seconds) = some (http (rate_limit_exceeded seconds))
thrown failure check_failed = some failure

abbrev pub caught : Option Exception → String → String → ℕ → Option Caught
caught none correlation_id path now = none
caught (some e) correlation_id path now = some (catch_exception e correlation_id path now)

-- A refused request, that no exemption lets through, is answered with the status 429, the code
-- RATE_LIMIT_EXCEEDED and the seconds that its `Retry-After` header states, which are at least one; it is logged
-- as a warning, and reported to the error tracking.
pub refused_answered :
    (decision : RateLimitDecision) (fail_open : Bool) (headers : JsMap HeaderText)
    (failure : Exception) (correlation_id path : String) (now : ℕ)
    → decision.result.allowed ≡ false
    → decision.bypassed ≡ false
    → let seconds = retry_after_seconds decision in
      let (ending, sent) = intercept true (some decision) fail_open headers in
      let answer = catch_exception (http (rate_limit_exceeded seconds)) correlation_id path now in
      (caught (thrown failure ending) correlation_id path now ≡ some answer)
      × (answer.response.status_code ≡ 429)
      × (answer.response.code ≡ some "RATE_LIMIT_EXCEEDED")
      × (answer.response.retry_after ≡ some seconds)
      × (JsMap.get "Retry-After" sent ≡ some (number seconds))
      × (1 ≤ seconds)
      × (answer.log ≡ some log_warning)
      × (answer.reported ≡ true)
unfolding catch_exception derive rate_limit_exceeded logged is_operational is_error
refused_answered decision fail_open headers failure correlation_id path now refused limited =
    let sent = intercept_refused decision fail_open headers refused limited in
    (rw sent.0 refl, refl, refl, refl, sent.1, sent.2, refl, refl)
