-- ===== src/Cache/Configuration.antt =====
-- src/cache/cache.config.ts: what the environment says of the cache. The value of a warm-up task is JSON.
pub mod Positive
use atraport_api.Prelude.{
  ℕ, zero, suc, String, Bool, true, Option, none, some, List, [], ◌∷◌, truthy,
}
use atraport_api.Prelude.Json.{
  Value, null, undefined, object, Fields, no_entries, entry, property, lookup,
}
use atraport_api.Environment.{Conversions, positive_integer, boolean_value}
use atraport_api.Cache.Service.{Produced, value, nothing, CacheWarmTask, CacheConfiguration}

pub record RedisConfiguration : Type 0 where
  pub enabled : Bool
  pub host : String
  pub port : ℕ
  pub password : Option String
  pub db : ℕ
  pub prefix : String

-- What the service reads itself, and what the two tiers are set up with.
pub record LoadedConfiguration : Type 0 where
  pub service : CacheConfiguration Value
  pub max_keys : ℕ
  pub redis : RedisConfiguration

abbrev pub produced : Value → Produced Value
produced null = nothing
produced undefined = nothing
produced v = value v

-- A lifetime of 0 is none.
abbrev pub given_ttl : ℕ → Option ℕ
given_ttl zero = none
given_ttl (suc n) = some (suc n)

abbrev pub or_text : Option String → String → String
or_text none fallback = fallback
or_text (some s) fallback = s

module _ (c : Conversions) where
  -- `String(v ?? '')`
  abbrev pub text_of : Value → String
  text_of null = ""
  text_of undefined = ""
  text_of v = c.to_text v

  -- The task in front of the others, if the entry has a value.
  abbrev pub push_valued :
      String → Fields → Option Value → List (CacheWarmTask Value) → List (CacheWarmTask Value)
  push_valued key candidate none tasks = tasks
  push_valued key candidate (some v) tasks =
      record {
        key = key;
        ttl = given_ttl (positive_integer c (some (text_of (property "ttl" candidate))) 0);
        producer = produced v;
      }
      ∷ tasks

  abbrev pub push_task : String → Value → List (CacheWarmTask Value) → List (CacheWarmTask Value)
  push_task key (object candidate) tasks =
      push_valued key candidate (lookup "value" candidate) tasks
  push_task key _ tasks = tasks

  unfoldable pub tasks_of : Fields → List (CacheWarmTask Value)
  tasks_of no_entries = []
  tasks_of (entry key v fs) = push_task key v (tasks_of fs)

  abbrev pub parsed_tasks : Option Value → List (CacheWarmTask Value)
  parsed_tasks (some (object fs)) = tasks_of fs
  parsed_tasks _ = []

  abbrev pub raw_tasks : Option String → List (CacheWarmTask Value)
  raw_tasks none = []
  raw_tasks (some raw) = parsed_tasks (c.parse raw)

  unfoldable pub parse_warm_keys : Option String → List (CacheWarmTask Value)
  parse_warm_keys raw = raw_tasks (truthy raw)

  unfoldable pub load_cache_configuration : (String → Option String) → LoadedConfiguration
  load_cache_configuration env = record {
    service = record {
      enabled = boolean_value (env "CACHE_ENABLED") true;
      default_ttl_ms = positive_integer c (env "CACHE_DEFAULT_TTL_MS") 60000;
      warm_enabled = boolean_value (env "CACHE_WARM_ENABLED") true;
      warm_on_startup = boolean_value (env "CACHE_WARM_ON_STARTUP") true;
      warm_keys = parse_warm_keys (env "CACHE_WARM_KEYS_JSON");
    };
    max_keys = positive_integer c (env "CACHE_MEMORY_MAX_KEYS") 10000;
    redis = record {
      enabled = boolean_value (env "CACHE_REDIS_ENABLED") true;
      host = or_text (env "CACHE_REDIS_HOST") "127.0.0.1";
      port = positive_integer c (env "CACHE_REDIS_PORT") 6379;
      password = truthy (env "CACHE_REDIS_PASSWORD");
      db = positive_integer c (env "CACHE_REDIS_DB") 0;
      prefix = or_text (env "CACHE_REDIS_PREFIX") "astraport:cache:";
    };
  }
