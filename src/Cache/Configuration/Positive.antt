-- ===== src/Cache/Configuration/Positive.antt =====
-- The sizes and lifetimes of a loaded configuration are positive.
use atraport_api.Prelude.{ℕ, zero, suc, ◌≤◌, String, Option, none, some, List, arith, All}
use atraport_api.Prelude.Json.{
  Value, null, undefined, bool, num, str, array, object, Fields, no_entries, entry, lookup,
}
use atraport_api.Environment.{Conversions, positive_integer-le}
use atraport_api.Cache.Service.{CacheWarmTask}
use atraport_api.Cache.Configuration.{
  given_ttl, push_valued, tasks_of, parsed_tasks, raw_tasks, parse_warm_keys,
  load_cache_configuration,
}

abbrev pub IsPositiveTtl : Option ℕ → Type 0
IsPositiveTtl none = Unit
IsPositiveTtl (some n) = 1 ≤ n

abbrev pub AllTimed : List (CacheWarmTask Value) → Type 0
AllTimed tasks = All (λ (t : CacheWarmTask Value). IsPositiveTtl t.ttl) tasks

given-IsPositiveTtl : (n : ℕ) → IsPositiveTtl (given_ttl n)
given-IsPositiveTtl zero = tt
given-IsPositiveTtl (suc n) = omega arith

module _ (c : Conversions) where
  push-AllTimed :
      (key : String) (candidate : Fields) (v : Option Value) (tasks : List (CacheWarmTask Value))
      → AllTimed tasks
      → AllTimed (push_valued c key candidate v tasks)
  push-AllTimed key candidate none tasks h = h
  push-AllTimed key candidate (some v) tasks h = (given-IsPositiveTtl _, h)

  tasks-AllTimed : (fs : Fields) → AllTimed (tasks_of c fs)
  unfolding tasks_of
  tasks-AllTimed no_entries = tt
  tasks-AllTimed (entry key (object candidate) fs) =
      push-AllTimed key candidate (lookup "value" candidate) _ (tasks-AllTimed fs)
  tasks-AllTimed (entry key (array xs) fs) = tasks-AllTimed fs
  tasks-AllTimed (entry key null fs) = tasks-AllTimed fs
  tasks-AllTimed (entry key undefined fs) = tasks-AllTimed fs
  tasks-AllTimed (entry key (num n) fs) = tasks-AllTimed fs
  tasks-AllTimed (entry key (str s) fs) = tasks-AllTimed fs
  tasks-AllTimed (entry key (bool b) fs) = tasks-AllTimed fs

  parsed-AllTimed : (v : Option Value) → AllTimed (parsed_tasks c v)
  parsed-AllTimed none = tt
  parsed-AllTimed (some (object fs)) = tasks-AllTimed fs
  parsed-AllTimed (some (array xs)) = tt
  parsed-AllTimed (some null) = tt
  parsed-AllTimed (some undefined) = tt
  parsed-AllTimed (some (num n)) = tt
  parsed-AllTimed (some (str s)) = tt
  parsed-AllTimed (some (bool b)) = tt

  raw-AllTimed : (raw : Option String) → AllTimed (raw_tasks c raw)
  raw-AllTimed none = tt
  raw-AllTimed (some raw) = parsed-AllTimed (c.parse raw)

-- Whatever the environment holds, and whatever the language makes of it, the loaded cache has room for an entry,
-- its default lifetime and the port are positive, and a warm-up task that states a lifetime states a positive one.
pub load-AllTimed :
    (c : Conversions) (env : String → Option String)
    → let loaded = load_cache_configuration c env in
      (1 ≤ loaded.max_keys)
      × (1 ≤ loaded.service.default_ttl_ms)
      × (1 ≤ loaded.redis.port)
      × AllTimed loaded.service.warm_keys
unfolding load_cache_configuration parse_warm_keys
load-AllTimed c env = (
  positive_integer-le c _ 10000 (omega arith),
  positive_integer-le c _ 60000 (omega arith),
  positive_integer-le c _ 6379 (omega arith),
  raw-AllTimed c _,
)
