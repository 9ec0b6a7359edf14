-- ===== src/Tests/ConfigurationRuns.antt =====
-- Runs of the configuration loaders at concrete environments.
use atraport_api.Prelude.{
  ℕ, ◌+◌, ◌-◌, ◌*◌, ◌/◌, ◌≤◌, String, Option, none, some, [], ◌∷◌, ◌≡◌, refl, arith, trim,
  trim_start, trim_end, is_space, to_upper_case, if◌then◌else◌,
}
use atraport_api.Prelude.Json.{Value, num, str, object, no_entries, entry}
use atraport_api.Environment.{Conversions}
use atraport_api.RateLimit.Algorithms.Rate.{admitted}
use atraport_api.RateLimit.Configuration.{
  load_rate_limit_configuration, parse_endpoint_key, letters, starts_with_space, is_letter,
  is_inline, all_inline,
}
use atraport_api.RateLimit.Configuration.Positive.{loaded_rate}
use text.Mathlib.Text.{◌==◌}

abbrev policies : Value
policies = object (
    entry "POST /trades" (object (entry "limit" (num 5) (entry "windowMs" (num 1000) no_entries))) (
      entry "/free" (object (entry "limit" (num 0) (entry "windowMs" (num 1000) no_entries)))
        no_entries))

abbrev number : Value → Option ℕ
number (num n) = some n
number (str s) = if s == "50" then some 50 else none
number _ = none

abbrev conversions : Conversions
conversions = record { to_number = number; to_text = λ v. "50"; parse = λ s. some policies }

abbrev env : String → Option String
env name =
    if name == "RATE_LIMIT_IP_LIMIT"
    then some "50"
    else if name == "RATE_LIMIT_ENDPOINTS_JSON"
    then some "{..}"
    else none

loaded_rate_example :
    let policy = (load_rate_limit_configuration conversions env).ip_policy in
    admitted "a" policy (1 ∷ 2 ∷ 3 ∷ []) []
    ≤ policy.limit + (5 - 1) * policy.limit / policy.window_ms
loaded_rate_example =
    loaded_rate conversions env "a" 1 5 (2 ∷ 3 ∷ []) [] (omega arith, (omega arith, omega arith))

key_parsed : parse_endpoint_key " post  /trades " ≡ (some "POST", "/trades")
unfolding parse_endpoint_key letters starts_with_space is_letter is_inline all_inline trim
    trim_start trim_end is_space to_upper_case
key_parsed = refl

key_without_method : parse_endpoint_key "/trades" ≡ (none, "/trades")
unfolding parse_endpoint_key letters starts_with_space is_letter is_inline all_inline trim
    trim_start trim_end is_space to_upper_case
key_without_method = refl
