-- ===== src/Tests/ServiceRuns.antt =====
-- src/rate-limit/rate-limit.service.ts: runs of the service.
use atraport_api.Prelude.{String, true, false, none, some, [], ◌∷◌, ◌≡◌, refl, ◌&&◌, ◌<>◌, truthy}
use atraport_api.RateLimit.Algorithms.{token_bucket, sliding_window}
use atraport_api.RateLimit.Service.{
  user, ip, RateLimitConfiguration, RateLimitRequest, missing, AppliedLimit, RateLimitService,
}
use atraport_api.RateLimit.Service.Check
use atraport_api.RateLimit.Service.Check.{check, client_ip, chosen_policy, header}
use atraport_api.RateLimit.Service.Accounting.{IsBalanced, CountedOnce, check-IsBalanced}
use atraport_api.RateLimit.Service.Admitting.{
  admits, user_admits, endpoint_admits, check_admits_iff,
}

abbrev config : RateLimitConfiguration
config = record {
  enabled = true;
  fail_open = true;
  ip_policy = record { limit = 2; window_ms = 1000; algorithm = token_bucket };
  user_policy = record { limit = 3; window_ms = 1000; algorithm = sliding_window };
  endpoints = [];
  whitelist_ips = "10.0.0.1" ∷ [];
  whitelist_user_ids = [];
  whitelist_api_keys = [];
}

abbrev fresh_service : RateLimitService
fresh_service = record {
  config = config;
  token_buckets = [];
  sliding_windows = [];
  analytics = record {
    total = 0;
    allowed = 0;
    rejected = 0;
    bypassed = 0;
    by_ip = record { allowed = 0; rejected = 0 };
    by_user = record { allowed = 0; rejected = 0 };
    by_endpoint = record { allowed = 0; rejected = 0 };
  };
  metrics = [];
}

abbrev request_from : String → RateLimitRequest
request_from address = record {
  method = some "GET";
  ip_address = some address;
  url = some "/a";
  original_url = none;
  route_path = none;
  api_key_header = missing;
  remote_address = none;
  user_id = some "u";
}

check-IsBalanced_example :
    let done = check (request_from "10.0.0.2") none false 50 fresh_service in
    IsBalanced done.1.analytics × CountedOnce done.0 fresh_service.analytics done.1.analytics
check-IsBalanced_example =
    check-IsBalanced (request_from "10.0.0.2") none false 50 fresh_service
      (record { totals = refl; by_address = refl })

abbrev ip_limit : AppliedLimit
ip_limit = record {
  scope = ip;
  algorithm = token_bucket;
  result = record { allowed = true; limit = 2; remaining = 1; reset_at = 100; retry_after_ms = 0 };
}

abbrev user_limit : AppliedLimit
user_limit = record {
  scope = user;
  algorithm = sliding_window;
  result = record { allowed = true; limit = 3; remaining = 1; reset_at = 100; retry_after_ms = 0 };
}

check_admits_iff_example :
    (check (request_from "10.0.0.2") none false 50 fresh_service).0.result.allowed ≡ (
      admits ip ("ip:" <> client_ip (request_from "10.0.0.2")) config.ip_policy 50 fresh_service
      && (user_admits (truthy (some "u")) 50 fresh_service
          && endpoint_admits
              (request_from "10.0.0.2")
              (chosen_policy (request_from "10.0.0.2") none config)
              50
              fresh_service))
unfolding Check.is_whitelisted Check.client_ip Check.header
check_admits_iff_example =
    check_admits_iff (request_from "10.0.0.2") none 50 fresh_service refl refl
