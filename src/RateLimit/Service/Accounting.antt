-- ===== src/RateLimit/Service/Accounting.antt =====
-- The service's analytics: each request is counted once, as it was decided.
use atraport_api.Prelude.{
  ℕ, ◌+◌, String, Bool, Option, none, some, List, ◌∷◌, ◌≡◌, refl, arith, false, Bool-cases, inl,
  inr, not, ◌&&◌, ◌||◌, ◌<>◌, truthy, if◌then◌else◌,
}
use atraport_api.RateLimit.Algorithms.{
  RateLimitAlgorithm, token_bucket, sliding_window, RateLimitPolicy,
}
use atraport_api.RateLimit.Service.{
  RateLimitScope, ip, user, endpoint, EndpointPolicy, RateLimitAnalytics, RateLimitRequest,
  RateLimitOverride, AppliedLimit, RateLimitDecision, RateLimitService, apply, consume, bypass,
  update_active_keys_metric, count_scope,
}
use atraport_api.RateLimit.Service.Check.{
  check, limit_request, apply_limits, apply_user, apply_endpoint, decide, client_ip, chosen_policy,
  is_exempt,
}
use atraport_api.RateLimit.Service.Decisions.{find_denied, most_restrictive-allowed}

-- Every request that was counted was admitted, rejected or let through unchecked, and the limit of its
-- address was applied to each that was not let through unchecked.
pub record IsBalanced (a : RateLimitAnalytics) : Type 0 where
  pub totals : a.total ≡ a.allowed + a.rejected + a.bypassed
  pub by_address : a.by_ip.allowed + a.by_ip.rejected ≡ a.allowed + a.rejected

analytics-consume :
    (algorithm : RateLimitAlgorithm) (key : String) (policy : RateLimitPolicy) (now : ℕ)
    (s : RateLimitService)
    → (consume algorithm key policy now s).1.analytics ≡ s.analytics
unfolding consume
analytics-consume token_bucket key policy now s = refl
analytics-consume sliding_window key policy now s = refl

analytics-apply :
    (scope : RateLimitScope) (key : String) (policy : RateLimitPolicy) (now : ℕ)
    (s : RateLimitService)
    → (apply scope key policy now s).1.analytics
      ≡ count_scope scope (apply scope key policy now s).0.result.allowed s.analytics
unfolding apply
analytics-apply scope key policy now s = rw analytics-consume

abbrev one_if : Bool → ℕ
one_if b = if b then 1 else 0

-- From one to the other, one request is counted, as the decision says: as let through unchecked, as admitted or as
-- rejected.
pub record CountedOnce (d : RateLimitDecision) (a b : RateLimitAnalytics) : Type 0 where
  pub total : b.total ≡ a.total + 1
  pub bypassed : b.bypassed ≡ a.bypassed + one_if d.bypassed
  pub allowed : b.allowed ≡ a.allowed + one_if (not d.bypassed && d.result.allowed)
  pub rejected : b.rejected ≡ a.rejected + one_if (not d.bypassed && not d.result.allowed)

-- The user's and the endpoint's own outcomes aside, the two agree.
record SameMain (a b : RateLimitAnalytics) : Type 0 where
  total : a.total ≡ b.total
  allowed : a.allowed ≡ b.allowed
  rejected : a.rejected ≡ b.rejected
  bypassed : a.bypassed ≡ b.bypassed
  by_ip_allowed : a.by_ip.allowed ≡ b.by_ip.allowed
  by_ip_rejected : a.by_ip.rejected ≡ b.by_ip.rejected

count_user : (allowed : Bool) (a : RateLimitAnalytics) → SameMain (count_scope user allowed a) a
unfolding count_scope
count_user allowed a = record {
  total = refl;
  allowed = refl;
  rejected = refl;
  bypassed = refl;
  by_ip_allowed = refl;
  by_ip_rejected = refl;
}

count_endpoint :
    (allowed : Bool) (a : RateLimitAnalytics) → SameMain (count_scope endpoint allowed a) a
unfolding count_scope
count_endpoint allowed a = record {
  total = refl;
  allowed = refl;
  rejected = refl;
  bypassed = refl;
  by_ip_allowed = refl;
  by_ip_rejected = refl;
}

SameMain-refl : (a : RateLimitAnalytics) → SameMain a a
SameMain-refl a = record {
  total = refl;
  allowed = refl;
  rejected = refl;
  bypassed = refl;
  by_ip_allowed = refl;
  by_ip_rejected = refl;
}

apply_user-SameMain :
    (user_id : Option String) (now : ℕ) (s : RateLimitService)
    → SameMain (apply_user user_id now s).1.analytics s.analytics
unfolding apply_user
apply_user-SameMain none now s = SameMain-refl s.analytics
apply_user-SameMain (some u) now s = rw analytics-apply (count_user _ s.analytics)

apply_endpoint-SameMain :
    (request : RateLimitRequest) (p : Option EndpointPolicy) (now : ℕ) (s : RateLimitService)
    → SameMain (apply_endpoint request p now s).1.analytics s.analytics
unfolding apply_endpoint
apply_endpoint-SameMain request none now s = SameMain-refl s.analytics
apply_endpoint-SameMain request (some p) now s = rw analytics-apply (count_endpoint _ s.analytics)

-- One more outcome of the address, and nothing else but the outcomes of users and endpoints.
record OneMore (a b : RateLimitAnalytics) : Type 0 where
  total : a.total ≡ b.total
  allowed : a.allowed ≡ b.allowed
  rejected : a.rejected ≡ b.rejected
  bypassed : a.bypassed ≡ b.bypassed
  by_ip_sum : a.by_ip.allowed + a.by_ip.rejected ≡ b.by_ip.allowed + b.by_ip.rejected + 1

count_ip : (allowed : Bool) (a : RateLimitAnalytics) → OneMore (count_scope ip allowed a) a
unfolding count_scope
count_ip allowed a = ground arith

OneMore-SameMain : (a b c : RateLimitAnalytics) → SameMain a b → OneMore b c → OneMore a c
OneMore-SameMain a b c h k = omega arith

apply_limits-OneMore :
    (request : RateLimitRequest) (override : Option RateLimitOverride) (now : ℕ)
    (s : RateLimitService)
    → OneMore (apply_limits request override now s).2.analytics s.analytics
unfolding apply_limits
apply_limits-OneMore request override now s =
    let s1 = (apply ip ("ip:" <> client_ip request) s.config.ip_policy now s).1 in
    let s2 = (apply_user (truthy request.user_id) now s1).1 in
    let first : OneMore s1.analytics s.analytics = rw analytics-apply (count_ip _ s.analytics) in
    OneMore-SameMain _ s2.analytics s.analytics
      (apply_endpoint-SameMain request (chosen_policy request override s2.config) now s2)
      (OneMore-SameMain s2.analytics s1.analytics s.analytics
        (apply_user-SameMain (truthy request.user_id) now s1) first)

-- The analytics of a request that was counted in the total before its limits were applied.
record Applied (a b : RateLimitAnalytics) : Type 0 where
  total : b.total ≡ a.total + 1
  allowed : b.allowed ≡ a.allowed
  rejected : b.rejected ≡ a.rejected
  bypassed : b.bypassed ≡ a.bypassed
  by_ip_sum : b.by_ip.allowed + b.by_ip.rejected ≡ a.by_ip.allowed + a.by_ip.rejected + 1

-- A decision counts the request, and keeps the outcomes of addresses.
record Decided (d : RateLimitDecision) (a b : RateLimitAnalytics) : Type 0 where
  once : CountedOnce d a b
  by_ip_sum : b.by_ip.allowed + b.by_ip.rejected ≡ a.by_ip.allowed + a.by_ip.rejected + 1
  checked : d.bypassed ≡ false

decide-Decided :
    (first : AppliedLimit) (rest : List AppliedLimit) (s : RateLimitService)
    (a : RateLimitAnalytics)
    → Applied a s.analytics
    → let done = decide first rest s in Decided done.0 a done.1.analytics
unfolding decide update_active_keys_metric
decide-Decided first rest s a h = elim (find_denied (first ∷ rest)) [
  | inl (none_denied, admitted) ↦
      let let_in = most_restrictive-allowed first rest admitted in
      rw none_denied (record {
        once = record {
          total = h.total;
          bypassed = omega (arith, h);
          allowed = rw let_in (omega (arith, h));
          rejected = rw let_in (omega (arith, h));
        };
        by_ip_sum = h.by_ip_sum;
        checked = refl;
      })
  | inr (denied, found, refused, not_all) ↦ rw found (record {
    once = record {
      total = h.total;
      bypassed = omega (arith, h);
      allowed = rw refused (omega (arith, h));
      rejected = rw refused (omega (arith, h));
    };
    by_ip_sum = h.by_ip_sum;
    checked = refl;
  })
]

abbrev counted : RateLimitService → RateLimitService
counted s = record s { analytics = record s.analytics { total = s.analytics.total + 1 } }

-- A balanced state stays balanced, and one request is counted.
abbrev Kept : RateLimitDecision × RateLimitService → RateLimitService → Type 0
Kept done s = IsBalanced done.1.analytics × CountedOnce done.0 s.analytics done.1.analytics

bypass-Kept :
    (reason : String) (now : ℕ) (s : RateLimitService)
    → IsBalanced s.analytics
    → Kept (bypass reason now (counted s)) s
unfolding bypass
bypass-Kept reason now s h = (
  record { totals = omega arith; by_address = omega arith },
  record { total = refl; bypassed = refl; allowed = omega arith; rejected = omega arith },
)

one_of_two : (b c : Bool) → b ≡ false → one_if (not b && c) + one_if (not b && not c) ≡ 1
one_of_two b c h = ground arith

Decided-IsBalanced :
    (d : RateLimitDecision) (a b : RateLimitAnalytics) → IsBalanced a → Decided d a b → IsBalanced b
Decided-IsBalanced d a b h k =
    let one = one_of_two d.bypassed d.result.allowed k.checked in
    let unbypassed : one_if d.bypassed ≡ 0 = rw k.checked refl in
    let once = k.once in
    let by_ip_sum = k.by_ip_sum in
    record { totals = omega (arith, once); by_address = omega (arith, once) }

limit_request-Kept :
    (request : RateLimitRequest) (override : Option RateLimitOverride) (now : ℕ)
    (s : RateLimitService)
    → IsBalanced s.analytics
    → Kept (limit_request request override now (counted s)) s
unfolding limit_request
limit_request-Kept request override now s h =
    let applied = apply_limits request override now (counted s) in
    let more = apply_limits-OneMore request override now (counted s) in
    let whole : Applied s.analytics applied.2.analytics = record {
      total = more.total;
      allowed = more.allowed;
      rejected = more.rejected;
      bypassed = more.bypassed;
      by_ip_sum = more.by_ip_sum;
    } in
    let decided = decide-Decided applied.0 applied.1 applied.2 s.analytics whole in
    (Decided-IsBalanced _ s.analytics _ h decided, decided.once)

-- `check` keeps the analytics balanced, and counts each request once, as its decision says: as let through
-- unchecked, as admitted or as rejected. Being balanced says too that an outcome of the address is counted for
-- each request that is checked.
pub check-IsBalanced :
    (request : RateLimitRequest) (override : Option RateLimitOverride) (skip : Bool) (now : ℕ)
    (s : RateLimitService)
    → IsBalanced s.analytics
    → let done = check request override skip now s in
      IsBalanced done.1.analytics × CountedOnce done.0 s.analytics done.1.analytics
unfolding check
check-IsBalanced request override skip now s h = elim (Bool-cases (not s.config.enabled || skip)) [
  | inl off ↦ rw off (bypass-Kept "configuration" now s h)
  | inr on ↦ rw on (elim (Bool-cases (is_exempt request s.config)) [
    | inl exempt ↦ rw exempt (bypass-Kept "whitelist" now s h)
    | inr limited ↦ rw limited (limit_request-Kept request override now s h)
  ])
]
