-- ===== src/RateLimit/Configuration/Positive.antt =====
-- The limits of a loaded configuration are positive, and what this bounds.
use atraport_api.Prelude.{
  ℕ, ◌+◌, ◌-◌, ◌*◌, ◌/◌, ◌≤◌, String, ◌&&◌, Option, none, some, List, ◌∷◌, arith, All, ltb,
  Bool-cases, inl, inr,
}
use atraport_api.Prelude.Json.{
  Value, null, undefined, bool, num, str, array, object, Fields, no_entries, entry,
}
use atraport_api.Environment.{Conversions, positive_integer-le}
use atraport_api.RateLimit.Algorithms.{RateLimitPolicy, TokenBucketRateLimiter}
use atraport_api.RateLimit.Algorithms.Rate.{Ascending, admitted, admitted_rate}
use atraport_api.RateLimit.Service.{EndpointPolicy}
use atraport_api.RateLimit.Configuration.{
  push_positive, policies_of, parsed_policies, raw_policies, parse_endpoint_policies,
  policy_from_environment, load_rate_limit_configuration,
}
use native.Mathlib.Nat.{le-div_iff_mul-le, mul-add-div_right}

abbrev pub IsPositive : RateLimitPolicy → Type 0
IsPositive p = (1 ≤ p.limit) × (1 ≤ p.window_ms)

abbrev pub AllPositive : List EndpointPolicy → Type 0
AllPositive es = All (λ (e : EndpointPolicy). IsPositive e.policy) es

module _ (c : Conversions) where
  push-AllPositive :
      (key : String) (candidate : Fields) (limit window_ms : Option ℕ)
      (policies : List EndpointPolicy)
      → AllPositive policies
      → AllPositive (push_positive key candidate limit window_ms policies)
  unfolding push_positive
  push-AllPositive key candidate none w policies h = h
  push-AllPositive key candidate (some l) none policies h = h
  push-AllPositive key candidate (some l) (some w) policies h =
      elim (Bool-cases (ltb 0 l && ltb 0 w)) [
        | inl both ↦ rw both ((ground arith, ground arith), h)
        | inr other ↦ rw other h
      ]

  policies-AllPositive : (fs : Fields) → AllPositive (policies_of c fs)
  unfolding policies_of
  policies-AllPositive no_entries = tt
  policies-AllPositive (entry key (object candidate) fs) =
      push-AllPositive key candidate _ _ _ (policies-AllPositive fs)
  policies-AllPositive (entry key (array xs) fs) = policies-AllPositive fs
  policies-AllPositive (entry key null fs) = policies-AllPositive fs
  policies-AllPositive (entry key undefined fs) = policies-AllPositive fs
  policies-AllPositive (entry key (num n) fs) = policies-AllPositive fs
  policies-AllPositive (entry key (str s) fs) = policies-AllPositive fs
  policies-AllPositive (entry key (bool b) fs) = policies-AllPositive fs

  parsed-AllPositive : (v : Option Value) → AllPositive (parsed_policies c v)
  parsed-AllPositive none = tt
  parsed-AllPositive (some (object fs)) = policies-AllPositive fs
  parsed-AllPositive (some (array xs)) = tt
  parsed-AllPositive (some null) = tt
  parsed-AllPositive (some undefined) = tt
  parsed-AllPositive (some (num n)) = tt
  parsed-AllPositive (some (str s)) = tt
  parsed-AllPositive (some (bool b)) = tt

  raw-AllPositive : (raw : Option String) → AllPositive (raw_policies c raw)
  raw-AllPositive none = tt
  raw-AllPositive (some raw) = parsed-AllPositive (c.parse raw)

  policy-IsPositive :
      (env : String → Option String) (prefix : String) (defaults : RateLimitPolicy)
      → IsPositive defaults
      → IsPositive (policy_from_environment c env prefix defaults)
  unfolding policy_from_environment
  policy-IsPositive env prefix defaults (l, w) =
      (positive_integer-le c _ defaults.limit l, positive_integer-le c _ defaults.window_ms w)

-- Whatever the environment holds, and whatever the language makes of it, the policies of the loaded configuration
-- have positive limits and windows, those for single endpoints included.
pub load-AllPositive :
    (c : Conversions) (env : String → Option String)
    → let loaded = load_rate_limit_configuration c env in
      IsPositive loaded.ip_policy × IsPositive loaded.user_policy × AllPositive loaded.endpoints
unfolding load_rate_limit_configuration parse_endpoint_policies
load-AllPositive c env = (
  policy-IsPositive c env "IP" _ (omega arith, omega arith),
  policy-IsPositive c env "USER" _ (omega arith, omega arith),
  raw-AllPositive c _,
)

-- Under the loaded policy for addresses, whatever the token bucket has seen before, the requests of one key at
-- times that do not go backwards are admitted at most limit + (end - start) * limit / window times.
pub loaded_rate :
    (c : Conversions) (env : String → Option String) (key : String) (start end : ℕ) (rest : List ℕ)
    (buckets : TokenBucketRateLimiter)
    → Ascending start rest end
    → let policy = (load_rate_limit_configuration c env).ip_policy in
      admitted key policy (start ∷ rest) buckets
      ≤ policy.limit + (end - start) * policy.limit / policy.window_ms
loaded_rate c env key start end rest buckets h =
    let policy = (load_rate_limit_configuration c env).ip_policy in
    let positive : 1 ≤ policy.window_ms = (load-AllPositive c env).0.1 in
    rw (← mul-add-div_right positive policy.limit ((end - start) * policy.limit))
      ((le-div_iff_mul-le positive).1 (admitted_rate key policy start end rest buckets h))
