-- ===== src/RateLimit/Configuration.antt =====
-- src/rate-limit/rate-limit.config.ts. A set is the list of what was added to it.
pub mod Positive
use Prim.Native.Char.{Char, code}
use atraport_api.Prelude.{
  ℕ, String, Bool, true, false, not, ◌&&◌, ◌||◌, Option, none, some, List, [], ◌∷◌, map, filter,
  ltb, leb, nat_eq, split, trim, trim_start, is_space, truthy, to_upper_case, ◌<>◌, if◌then◌else◌,
}
use atraport_api.Prelude.Json.{
  Value, null, undefined, bool, num, str, array, object, Fields, no_entries, entry, property,
}
use atraport_api.Environment.{Conversions, positive_integer, boolean_value}
use atraport_api.RateLimit.Algorithms.{
  RateLimitAlgorithm, token_bucket, sliding_window, RateLimitPolicy,
}
use atraport_api.RateLimit.Service.{EndpointPolicy, RateLimitConfiguration}
use text.Mathlib.Text.{◌==◌}

abbrev pub default_window_ms : ℕ
default_window_ms = 60000

unfoldable pub algorithm_value : Value → RateLimitAlgorithm → RateLimitAlgorithm
algorithm_value (str s) fallback =
    if s == "sliding-window"
    then sliding_window
    else if s == "token-bucket"
    then token_bucket
    else fallback
algorithm_value _ fallback = fallback

abbrev pub text_of : Option String → Value
text_of none = undefined
text_of (some s) = str s

abbrev pub or_empty : Option String → String
or_empty none = ""
or_empty (some s) = s

unfoldable pub string_set : Option String → List String
string_set value = filter (λ s. not (s == "")) (map trim (split "," (or_empty value)))

-- `[A-Za-z]`
unfoldable pub is_letter : Char → Bool
is_letter c = leb 65 (code c) && leb (code c) 90 || leb 97 (code c) && leb (code c) 122

-- What `.` of a regular expression matches.
unfoldable pub is_inline : Char → Bool
is_inline c =
    not (nat_eq (code c) 10)
    && not (nat_eq (code c) 13)
    && not (nat_eq (code c) 8232)
    && not (nat_eq (code c) 8233)

unfoldable pub all_inline : String → Bool
all_inline String.[] = true
all_inline (String.◌∷◌ c s) = is_inline c && all_inline s

-- The letters that text begins with, and the rest.
unfoldable pub letters : String → String × String
letters String.[] = ("", "")
letters (String.◌∷◌ c s) =
    let rest = letters s in
    if is_letter c then (String.◌∷◌ c rest.0, rest.1) else ("", String.◌∷◌ c s)

unfoldable pub starts_with_space : String → Bool
starts_with_space String.[] = false
starts_with_space (String.◌∷◌ c s) = is_space c

-- The key is trimmed, so that after its letters and white space something is left.
unfoldable pub parse_endpoint_key : String → Option String × String
parse_endpoint_key key =
    let trimmed = trim key in
    let (method, rest) = letters trimmed in
    let path = trim_start rest in
    if not (method == "") && starts_with_space rest && all_inline path
    then (some (to_upper_case method), trim path)
    else (none, trimmed)

abbrev pub is_ip : Value → Bool
is_ip (str s) = s == "ip"
is_ip _ = false

abbrev pub endpoint_policy_of : String → Fields → ℕ → ℕ → EndpointPolicy
endpoint_policy_of key candidate limit window_ms =
    let selector = parse_endpoint_key key in
    record {
      policy = record {
        limit = limit;
        window_ms = window_ms;
        algorithm = algorithm_value (property "algorithm" candidate) token_bucket;
      };
      path = selector.1;
      method = selector.0;
      by_ip = is_ip (property "scope" candidate);
    }

-- The policy in front of the others, if both its numbers are positive integers.
unfoldable pub push_positive :
    String → Fields → Option ℕ → Option ℕ → List EndpointPolicy → List EndpointPolicy
push_positive key candidate (some limit) (some window_ms) policies =
    if ltb 0 limit && ltb 0 window_ms
    then endpoint_policy_of key candidate limit window_ms ∷ policies
    else policies
push_positive key candidate _ _ policies = policies

module _ (c : Conversions) where
  abbrev pub push_policy : String → Value → List EndpointPolicy → List EndpointPolicy
  push_policy key (object candidate) policies =
      push_positive key candidate (c.to_number (property "limit" candidate))
        (c.to_number (property "windowMs" candidate)) policies
  push_policy key _ policies = policies

  unfoldable pub policies_of : Fields → List EndpointPolicy
  policies_of no_entries = []
  policies_of (entry key value fs) = push_policy key value (policies_of fs)

  abbrev pub parsed_policies : Option Value → List EndpointPolicy
  parsed_policies (some (object fs)) = policies_of fs
  parsed_policies _ = []

  abbrev pub raw_policies : Option String → List EndpointPolicy
  raw_policies none = []
  raw_policies (some raw) = parsed_policies (c.parse raw)

  unfoldable pub parse_endpoint_policies : Option String → List EndpointPolicy
  parse_endpoint_policies raw = raw_policies (truthy raw)

  module _ (env : String → Option String) where
    unfoldable pub policy_from_environment : String → RateLimitPolicy → RateLimitPolicy
    policy_from_environment prefix defaults = record {
      limit = positive_integer c (env ("RATE_LIMIT_" <> prefix <> "_LIMIT")) defaults.limit;
      window_ms =
          positive_integer c (env ("RATE_LIMIT_" <> prefix <> "_WINDOW_MS")) defaults.window_ms;
      algorithm =
          algorithm_value (text_of (env ("RATE_LIMIT_" <> prefix <> "_ALGORITHM")))
            defaults.algorithm;
    }

    unfoldable pub load_rate_limit_configuration : RateLimitConfiguration
    load_rate_limit_configuration = record {
      enabled = boolean_value (env "RATE_LIMIT_ENABLED") true;
      fail_open = boolean_value (env "RATE_LIMIT_FAIL_OPEN") true;
      ip_policy =
          policy_from_environment "IP"
            (record { limit = 100; window_ms = default_window_ms; algorithm = token_bucket });
      user_policy =
          policy_from_environment "USER"
            (record { limit = 300; window_ms = default_window_ms; algorithm = sliding_window });
      endpoints = parse_endpoint_policies (env "RATE_LIMIT_ENDPOINTS_JSON");
      whitelist_ips = string_set (env "RATE_LIMIT_WHITELIST_IPS");
      whitelist_user_ids = string_set (env "RATE_LIMIT_WHITELIST_USER_IDS");
      whitelist_api_keys = string_set (env "RATE_LIMIT_WHITELIST_API_KEYS");
    }
