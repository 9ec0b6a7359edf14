-- ===== src/RateLimit/Interceptor.antt =====
-- src/rate-limit/rate-limit.interceptor.ts: what a client sees of a decision. What the service's
-- `check` gives, a decision or an exception, is an argument, as are the request's kind and the service's
-- `shouldFailOpen()`.
use atraport_api.Prelude.{
  ℕ, ◌+◌, ◌*◌, ◌/◌, ◌≤◌, ◌<◌, String, Bool, true, false, Option, none, some, ◌≡◌, ◌↔◌, refl, arith,
  max, if◌then◌else◌,
}
use native.Mathlib.Nat.{div-add-mod', mod-lt}
use atraport_api.Prelude.JsMap
use atraport_api.Prelude.JsMap.{JsMap}
use atraport_api.RateLimit.Service.{RateLimitScope, RateLimitDecision, scope_name}

pub data HeaderText : Type 0 where
  number : ℕ → HeaderText
  word : String → HeaderText

-- The handler is called, or an exception ends the request: `RateLimitExceededException`, with its
-- `retryAfter` in seconds, or the one that `check` threw.
pub data Interception : Type 0 where
  handled : Interception
  too_many_requests : ℕ → Interception
  check_failed : Interception

-- `Math.ceil(ms / 1000)`
unfoldable pub whole_seconds : ℕ → ℕ
whole_seconds ms = (ms + 999) / 1000

-- `Math.max(1, Math.ceil(retryAfterMs / 1000))`
unfoldable pub retry_after_seconds : RateLimitDecision → ℕ
retry_after_seconds decision = max 1 (whole_seconds decision.result.retry_after_ms)

scope_header : Option RateLimitScope → JsMap HeaderText → JsMap HeaderText
scope_header none headers = headers
scope_header (some scope) headers = JsMap.set "X-RateLimit-Scope" (word (scope_name scope)) headers

limit_headers : RateLimitDecision → JsMap HeaderText → JsMap HeaderText
limit_headers decision headers =
    JsMap.set "X-RateLimit-Reset" (number (whole_seconds decision.result.reset_at)) (
      JsMap.set "X-RateLimit-Remaining" (number decision.result.remaining)
        (JsMap.set "X-RateLimit-Limit" (number decision.result.limit) headers))

unfoldable pub set_headers : RateLimitDecision → JsMap HeaderText → JsMap HeaderText
unfolding scope_header limit_headers
set_headers decision headers =
    if decision.bypassed
    then JsMap.set "X-RateLimit-Policy" (word "bypass") headers
    else (let described = scope_header decision.scope (limit_headers decision headers) in
        if decision.result.allowed
        then described
        else JsMap.set "Retry-After" (number (retry_after_seconds decision)) described)

unfoldable pub intercept_checked :
    Option RateLimitDecision → Bool → JsMap HeaderText → Interception × JsMap HeaderText
intercept_checked none fail_open headers =
    if fail_open
    then (handled, JsMap.set "X-RateLimit-Policy" (word "degraded") headers)
    else (check_failed, headers)
intercept_checked (some decision) fail_open headers = (
  if decision.result.allowed then handled else too_many_requests (retry_after_seconds decision),
  set_headers decision headers,
)

-- A request that is not HTTP is not checked at all.
unfoldable pub intercept :
    (is_http : Bool)
    → Option RateLimitDecision
    → (fail_open : Bool) → JsMap HeaderText
    → Interception × JsMap HeaderText
intercept is_http checked fail_open headers =
    if is_http then intercept_checked checked fail_open headers else (handled, headers)

whole_seconds_bound :
    (ms : ℕ) → (ms ≤ 1000 * whole_seconds ms) × (1000 * whole_seconds ms < ms + 1000)
unfolding whole_seconds
whole_seconds_bound ms =
    let split = div-add-mod' (ms + 999) 1000 in
    let pos : 0 < 1000 = omega arith in
    let small = mod-lt (ms + 999) pos in (omega (arith, split, small), omega (arith, split, small))

-- A refused request, that no exemption lets through, ends with the seconds that its `Retry-After` header
-- also states: at least one, no less than the decision's wait, and less than a second more than that wait
-- or than a millisecond.
pub intercept_refused :
    (decision : RateLimitDecision) (fail_open : Bool) (headers : JsMap HeaderText)
    → decision.result.allowed ≡ false
    → decision.bypassed ≡ false
    → let seconds = retry_after_seconds decision in
      let (ending, sent) = intercept true (some decision) fail_open headers in
      (ending ≡ too_many_requests seconds)
      × (JsMap.get "Retry-After" sent ≡ some (number seconds))
      × (1 ≤ seconds)
      × (decision.result.retry_after_ms ≤ 1000 * seconds)
      × (1000 * seconds < max 1 decision.result.retry_after_ms + 1000)
unfolding intercept intercept_checked set_headers retry_after_seconds
intercept_refused decision fail_open headers refused limited =
    let bound = whole_seconds_bound decision.result.retry_after_ms in
    (
      rw refused refl,
      rw (refused, limited)
          (JsMap.get-set "Retry-After" "Retry-After" (number (retry_after_seconds decision))
            (scope_header decision.scope (limit_headers decision headers))),
      ground arith,
      ground (arith, bound),
      ground (arith, bound),
    )

-- Not HTTP, admitted, or unchecked where the service fails open.
abbrev pub MayPass : Bool → Option RateLimitDecision → Bool → Type 0
MayPass false checked fail_open = Unit
MayPass true none fail_open = fail_open ≡ true
MayPass true (some decision) fail_open = decision.result.allowed ≡ true

-- The handler is called exactly if the request is not HTTP, its check admits it, or its check throws
-- while the service fails open.
pub intercept_handled_iff :
    (is_http : Bool) (checked : Option RateLimitDecision) (fail_open : Bool)
    (headers : JsMap HeaderText)
    → ((intercept is_http checked fail_open headers).0 ≡ handled)
      ↔ MayPass is_http checked fail_open
unfolding intercept intercept_checked
intercept_handled_iff false checked fail_open headers = ((λ h. tt), (λ h. refl))
intercept_handled_iff true none fail_open headers = ground arith
intercept_handled_iff true (some decision) fail_open headers = ground arith
