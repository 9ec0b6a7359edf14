-- ===== src/RateLimit/Service/Admitting.antt =====
-- The limits of one request do not disturb each other: each answers as if it were asked alone.
use atraport_api.Prelude.{
  ℕ, String, Bool, true, false, ◌&&◌, Option, none, some, List, [], ◌∷◌, ◌++◌, ◌≡◌, refl, ap, ◌∙◌,
  arith, all, ◌<>◌, truthy,
}
use atraport_api.RateLimit.Algorithms.{RateLimitPolicy, RateLimitResult}
use atraport_api.RateLimit.Service.{
  RateLimitScope, ip, user, endpoint, EndpointPolicy, RateLimitRequest, RateLimitOverride,
  RateLimitService, apply, consume, scope_name,
}
use atraport_api.RateLimit.Service.Frames.{
  consume-SameLimiters, consume-apply, config-apply, ip_user, ip_endpoint, user_endpoint,
}
use atraport_api.RateLimit.Service.Check.{
  check, is_exempt, apply_limits, apply_user, apply_endpoint, chosen_policy, client_ip, identity,
  request_path,
}
use atraport_api.RateLimit.Service.Decisions.{is_allowed, counted, check_all_applied}

-- Whether the limiter of the policy admits another request under the key of the scope.
abbrev pub admits : RateLimitScope → String → RateLimitPolicy → ℕ → RateLimitService → Bool
admits scope key policy now s =
    (consume policy.algorithm (scope_name scope <> (":" <> key)) policy now s).0.allowed

abbrev pub user_admits : Option String → ℕ → RateLimitService → Bool
user_admits none now s = true
user_admits (some user_id) now s = admits user ("user:" <> user_id) s.config.user_policy now s

-- The requests to a path are counted by user, or by address where there is no user or the policy asks for it.
abbrev pub endpoint_key : RateLimitRequest → EndpointPolicy → String
endpoint_key request p =
    "endpoint:"
    <> (request_path request <> (":" <> identity p (client_ip request) (truthy request.user_id)))

abbrev pub endpoint_admits : RateLimitRequest → Option EndpointPolicy → ℕ → RateLimitService → Bool
endpoint_admits request none now s = true
endpoint_admits request (some p) now s = admits endpoint (endpoint_key request p) p.policy now s

all-append :
    {A : Type 0} → (p : A → Bool) (xs ys : List A) → all p (xs ++ ys) ≡ (all p xs && all p ys)
all-append p [] ys = refl
all-append p (x ∷ xs) ys = ground (arith, all-append p xs ys)

all_user :
    (user_id : Option String) (now : ℕ) (s : RateLimitService)
    → all is_allowed (apply_user user_id now s).0 ≡ user_admits user_id now s
unfolding apply_user apply
all_user none now s = refl
all_user (some user_id) now s = ground arith

all_endpoint :
    (request : RateLimitRequest) (p : Option EndpointPolicy) (now : ℕ) (s : RateLimitService)
    → all is_allowed (apply_endpoint request p now s).0 ≡ endpoint_admits request p now s
unfolding apply_endpoint apply
all_endpoint request none now s = refl
all_endpoint request (some p) now s = ground arith

user_after_ip :
    (key : String) (p : RateLimitPolicy) (user_id : Option String) (now : ℕ) (s : RateLimitService)
    → user_admits user_id now (apply ip key p now s).1 ≡ user_admits user_id now s
user_after_ip key p none now s = refl
user_after_ip key p (some user_id) now s = rw (config-apply ip key p now s) (
    ap (λ (r : RateLimitResult). r.allowed)
      (consume-apply ip key p s.config.user_policy.algorithm _ s.config.user_policy now s
        (ip_user key ("user:" <> user_id))))

endpoint_after_ip :
    (key : String) (p : RateLimitPolicy) (request : RateLimitRequest) (e : Option EndpointPolicy)
    (now : ℕ) (s : RateLimitService)
    → endpoint_admits request e now (apply ip key p now s).1 ≡ endpoint_admits request e now s
endpoint_after_ip key p request none now s = refl
endpoint_after_ip key p request (some e) now s =
    ap (λ (r : RateLimitResult). r.allowed)
      (consume-apply ip key p e.policy.algorithm _ e.policy now s
        (ip_endpoint key (endpoint_key request e)))

endpoint_after_user :
    (user_id : Option String) (request : RateLimitRequest) (e : Option EndpointPolicy) (now : ℕ)
    (s : RateLimitService)
    → endpoint_admits request e now (apply_user user_id now s).1 ≡ endpoint_admits request e now s
unfolding apply_user
endpoint_after_user user_id request none now s = refl
endpoint_after_user none request (some e) now s = refl
endpoint_after_user (some user_id) request (some e) now s =
    ap (λ (r : RateLimitResult). r.allowed)
      (consume-apply user ("user:" <> user_id) s.config.user_policy e.policy.algorithm _ e.policy
        now s (user_endpoint ("user:" <> user_id) (endpoint_key request e)))

config-apply_user :
    (user_id : Option String) (now : ℕ) (s : RateLimitService)
    → (apply_user user_id now s).1.config ≡ s.config
unfolding apply_user
config-apply_user none now s = refl
config-apply_user (some user_id) now s =
    config-apply user ("user:" <> user_id) s.config.user_policy now s

first_allowed :
    (key : String) (p : RateLimitPolicy) (now : ℕ) (s : RateLimitService)
    → (apply ip key p now s).0.result.allowed ≡ admits ip key p now s
unfolding apply
first_allowed key p now s = refl

all_limits :
    (request : RateLimitRequest) (override : Option RateLimitOverride) (now : ℕ)
    (s : RateLimitService)
    → let applied = apply_limits request override now s in
      all is_allowed (applied.0 ∷ applied.1) ≡ (
        admits ip ("ip:" <> client_ip request) s.config.ip_policy now s
        && (user_admits (truthy request.user_id) now s
            && endpoint_admits request (chosen_policy request override s.config) now s))
unfolding apply_limits
all_limits request override now s =
    let key = "ip:" <> client_ip request in
    let user_id = truthy request.user_id in
    let s1 = (apply ip key s.config.ip_policy now s).1 in
    let s2 = (apply_user user_id now s1).1 in
    let same : s2.config ≡ s.config =
      config-apply_user user_id now s1 ∙ config-apply ip key s.config.ip_policy now s in
    rw same (
      rw
        (all-append is_allowed (apply_user user_id now s1).0
          (apply_endpoint request (chosen_policy request override s.config) now s2).0)
        (rw (all_user user_id now s1) (
          rw (all_endpoint request (chosen_policy request override s.config) now s2) (
            rw (first_allowed key s.config.ip_policy now s) (
              rw (user_after_ip key s.config.ip_policy user_id now s) (
                rw
                  (endpoint_after_user user_id request (chosen_policy request override s.config) now
                    s1)
                  (rw
                    (endpoint_after_ip key s.config.ip_policy request
                      (chosen_policy request override s.config) now s)
                    refl)))))))

admits-counted :
    (scope : RateLimitScope) (key : String) (p : RateLimitPolicy) (now : ℕ) (s : RateLimitService)
    → admits scope key p now (counted s) ≡ admits scope key p now s
admits-counted scope key p now s =
    ap (λ (r : RateLimitResult). r.allowed)
      (consume-SameLimiters p.algorithm (scope_name scope <> (":" <> key)) p now (counted s) s
        (record { buckets = refl; windows = refl }))

user_counted :
    (user_id : Option String) (now : ℕ) (s : RateLimitService)
    → user_admits user_id now (counted s) ≡ user_admits user_id now s
user_counted none now s = refl
user_counted (some user_id) now s =
    admits-counted user ("user:" <> user_id) s.config.user_policy now s

endpoint_counted :
    (request : RateLimitRequest) (e : Option EndpointPolicy) (now : ℕ) (s : RateLimitService)
    → endpoint_admits request e now (counted s) ≡ endpoint_admits request e now s
endpoint_counted request none now s = refl
endpoint_counted request (some e) now s =
    admits-counted endpoint (endpoint_key request e) e.policy now s

-- While limiting is on, a request that is neither skipped nor exempt is admitted exactly if the limiter of its
-- address, that of its user if it has one, and that of the policy of its path if there is one, each asked alone
-- in the state before the request, admit it.
pub check_admits_iff :
    (request : RateLimitRequest) (override : Option RateLimitOverride) (now : ℕ)
    (s : RateLimitService)
    → s.config.enabled ≡ true
    → is_exempt request s.config ≡ false
    → (check request override false now s).0.result.allowed ≡ (
        admits ip ("ip:" <> client_ip request) s.config.ip_policy now s
        && (user_admits (truthy request.user_id) now s
            && endpoint_admits request (chosen_policy request override s.config) now s))
check_admits_iff request override now s on subject =
    let key = "ip:" <> client_ip request in
    let user_id = truthy request.user_id in
    let chosen = chosen_policy request override s.config in
    check_all_applied request override now s on subject
    ∙ all_limits request override now (counted s)
    ∙ ap
        (λ (b : Bool).
          b
          && (user_admits user_id now (counted s)
              && endpoint_admits request chosen now (counted s)))
        (admits-counted ip key s.config.ip_policy now s)
    ∙ ap
        (λ (b : Bool).
          admits ip key s.config.ip_policy now s
          && (b && endpoint_admits request chosen now (counted s)))
        (user_counted user_id now s)
    ∙ ap (λ (b : Bool). admits ip key s.config.ip_policy now s && (user_admits user_id now s && b))
        (endpoint_counted request chosen now s)
