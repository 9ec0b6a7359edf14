-- ===== src/RateLimit/Service/Check.antt =====
-- `check` of rate-limit.service.ts: the limits of a request, and which of them speaks for the decision.
use atraport_api.Prelude.{
  ℕ, ◌+◌, ◌*◌, ◌-◌, String, Bool, true, false, not, ◌&&◌, ◌||◌, Option, none, some, List, [], ◌∷◌,
  ◌++◌, ltb, find, any, ◌<>◌, truthy, to_upper_case, before, without_last, if◌then◌else◌,
}
use mathlib.Core.Option
use text.Mathlib.Text.{◌==◌, starts_with}
use atraport_api.RateLimit.Algorithms.{token_bucket, bucket_prune, window_prune}
use atraport_api.RateLimit.Service.{
  ip, user, endpoint, EndpointPolicy, RateLimitOverride, RateLimitRequest, HeaderValue, missing,
  single, multiple, RateLimitConfiguration, AppliedLimit, RateLimitDecision, RateLimitService,
  apply, bypass, update_active_keys_metric,
}

-- `request.ip ?? request.socket?.remoteAddress ?? 'unknown'`
unfoldable pub client_ip : RateLimitRequest → String
client_ip request =
    Option.get_or request.ip_address (Option.get_or request.remote_address "unknown")

unfoldable pub header : HeaderValue → Option String
header missing = none
header (single s) = some s
header (multiple []) = none
header (multiple (s ∷ rest)) = some s

includes : List String → String → Bool
includes set s = any (λ item. item == s) set

includes? : List String → Option String → Bool
includes? set none = false
includes? set (some s) = includes set s

unfoldable pub is_whitelisted :
    RateLimitConfiguration → String → Option String → Option String → Bool
unfolding includes includes?
is_whitelisted config ip_address user_id api_key =
    includes config.whitelist_ips ip_address
    || includes? config.whitelist_user_ids user_id
    || includes? config.whitelist_api_keys api_key

requested_path : Option String → RateLimitRequest → String
requested_path (some route) request = route
requested_path none request =
    before "?" (Option.get_or request.original_url (Option.get_or request.url "/"))

unfoldable pub request_path : RateLimitRequest → String
unfolding requested_path
request_path request = requested_path (truthy request.route_path) request

-- `policy.method && policy.method !== method`, negated.
method_fits : Option String → String → Bool
method_fits none method = true
method_fits (some m) method = m == method

path_fits : Option String → String → String → Bool
path_fits (some prefix) pattern path = starts_with path prefix
path_fits none pattern path = path == pattern

unfoldable pub policy_fits : String → String → EndpointPolicy → Bool
unfolding method_fits path_fits
policy_fits method path p =
    method_fits (truthy p.method) method && path_fits (without_last "*" p.path) p.path path

unfoldable pub endpoint_policy : RateLimitRequest → RateLimitConfiguration → Option EndpointPolicy
unfolding policy_fits
endpoint_policy request config =
    let method = to_upper_case (Option.get_or request.method "GET") in
    find (policy_fits method (request_path request)) config.endpoints

unfoldable pub override_policy : RateLimitRequest → RateLimitOverride → EndpointPolicy
override_policy request override = record {
  policy = record {
    limit = override.limit;
    window_ms = override.window_ms;
    algorithm = Option.get_or override.algorithm token_bucket;
  };
  path = request_path request;
  method = none;
  by_ip = Option.get_or override.by_ip false;
}

unfoldable pub chosen_policy :
    RateLimitRequest → Option RateLimitOverride → RateLimitConfiguration → Option EndpointPolicy
chosen_policy request (some override) config = some (override_policy request override)
chosen_policy request none config = endpoint_policy request config

unfoldable pub identity : EndpointPolicy → String → Option String → String
identity p ip_address none = "ip:" <> ip_address
identity p ip_address (some user_id) = if p.by_ip then "ip:" <> ip_address else "user:" <> user_id

unfoldable pub apply_user :
    Option String → ℕ → RateLimitService → List AppliedLimit × RateLimitService
apply_user none now s = ([], s)
apply_user (some user_id) now s =
    let (limit, s') = apply user ("user:" <> user_id) s.config.user_policy now s in (limit ∷ [], s')

unfoldable pub apply_endpoint :
    RateLimitRequest
    → Option EndpointPolicy
    → ℕ
    → RateLimitService
    → List AppliedLimit × RateLimitService
apply_endpoint request none now s = ([], s)
apply_endpoint request (some p) now s =
    let key =
      "endpoint:"
      <> request_path request
      <> ":"
      <> identity p (client_ip request) (truthy request.user_id) in
    let (limit, s') = apply endpoint key p.policy now s in (limit ∷ [], s')

-- The limits of a request, applied in this order: those of its address, its user and its endpoint.
unfoldable pub apply_limits :
    RateLimitRequest
    → Option RateLimitOverride
    → ℕ
    → RateLimitService
    → AppliedLimit × List AppliedLimit × RateLimitService
apply_limits request override now s =
    let (first, s1) = apply ip ("ip:" <> client_ip request) s.config.ip_policy now s in
    let (by_user, s2) = apply_user (truthy request.user_id) now s1 in
    let (by_endpoint, s3) =
      apply_endpoint request (chosen_policy request override s2.config) now s2 in
    (first, by_user ++ by_endpoint, s3)

-- `remaining / limit` of the candidate is less, for positive limits.
abbrev pub is_tighter : AppliedLimit → AppliedLimit → Bool
is_tighter candidate selected =
    ltb (candidate.result.remaining * selected.result.limit)
      (selected.result.remaining * candidate.result.limit)

unfoldable pub most_restrictive : AppliedLimit → List AppliedLimit → AppliedLimit
most_restrictive selected [] = selected
most_restrictive selected (candidate ∷ rest) =
    most_restrictive (if is_tighter candidate selected then candidate else selected) rest

abbrev pub is_denied : AppliedLimit → Bool
is_denied limit = not limit.result.allowed

count_decision : Option AppliedLimit → RateLimitService → RateLimitService
count_decision none s = record s {
  analytics = record s.analytics { allowed = s.analytics.allowed + 1 };
}
count_decision (some denied) s = record s {
  analytics = record s.analytics { rejected = s.analytics.rejected + 1 };
}

abbrev pub decision_of : AppliedLimit → RateLimitDecision
decision_of selected = record {
  result = selected.result;
  bypassed = false;
  scope = some selected.scope;
  algorithm = some selected.algorithm;
}

unfoldable pub decide :
    AppliedLimit → List AppliedLimit → RateLimitService → RateLimitDecision × RateLimitService
unfolding count_decision
decide first rest s =
    let denied = find is_denied (first ∷ rest) in
    let selected = Option.get_or denied (most_restrictive first rest) in
    (decision_of selected, update_active_keys_metric (count_decision denied s))

unfoldable pub limit_request :
    RateLimitRequest
    → Option RateLimitOverride
    → ℕ
    → RateLimitService
    → RateLimitDecision × RateLimitService
limit_request request override now s =
    let (first, rest, s') = apply_limits request override now s in decide first rest s'

abbrev pub is_exempt : RateLimitRequest → RateLimitConfiguration → Bool
is_exempt request config =
    is_whitelisted config (client_ip request) request.user_id (header request.api_key_header)

unfoldable pub check :
    RateLimitRequest
    → Option RateLimitOverride
    → Bool
    → ℕ
    → RateLimitService
    → RateLimitDecision × RateLimitService
check request override skip now s =
    let counted = record s { analytics = record s.analytics { total = s.analytics.total + 1 } } in
    if not s.config.enabled || skip
    then bypass "configuration" now counted
    else if is_exempt request s.config
    then bypass "whitelist" now counted
    else limit_request request override now counted

abbrev max_idle_ms : ℕ
max_idle_ms = 60 * 60 * 1000

-- The callback of the cleanup timer.
unfoldable pub cleanup : ℕ → RateLimitService → RateLimitService
cleanup now s = update_active_keys_metric (record s {
  token_buckets = bucket_prune (now - max_idle_ms) s.token_buckets;
  sliding_windows = window_prune (now - max_idle_ms) s.sliding_windows;
})
