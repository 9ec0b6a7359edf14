-- ===== src/Cache/Service.antt =====
-- src/cache/cache.service.ts: a memory tier in front of a second tier, with statistics and warm-up.
-- A method takes the clock's reading as `now`; it returns its result and the new state.
pub mod Tiers
pub mod Wrap
use mathlib.Core.Option
use atraport_api.Prelude.{
  ℕ, ◌+◌, String, Bool, true, false, not, ◌&&◌, ◌||◌, Option, none, some, List, [], ◌∷◌, ◌++◌, max,
  nat_eq, if◌then◌else◌,
}
use atraport_api.Prelude.JsMap
use atraport_api.Prelude.JsMap.{JsMap}
use atraport_api.Monitoring.Metrics.{Metrics, increment_counter}
use atraport_api.Cache.Memory
use atraport_api.Cache.Memory.{MemoryCache, ValueWithTtl}
use atraport_api.Cache.Backend.{CacheBackend}

-- What a producer does: it gives a value, gives `undefined` or `null`, or throws.
pub data Produced (V : Type 0) : Type 0 where
  value : V → Produced V
  nothing : Produced V
  throws : Produced V

pub record CacheWarmTask (V : Type 0) : Type 0 where
  pub key : String
  pub ttl : Option ℕ
  pub producer : Produced V

pub record Statistics : Type 0 where
  pub hits : ℕ
  pub misses : ℕ
  pub sets : ℕ
  pub invalidations : ℕ
  pub warmups : ℕ

pub record CacheConfiguration (V : Type 0) : Type 0 where
  pub enabled : Bool
  pub default_ttl_ms : ℕ
  pub warm_enabled : Bool
  pub warm_on_startup : Bool
  pub warm_keys : List (CacheWarmTask V)

pub record CacheService (V R : Type 0) : Type 0 where
  pub config : CacheConfiguration V
  pub memory : MemoryCache V
  pub redis : R
  pub warmup_tasks : JsMap (CacheWarmTask V)
  pub stats : Statistics
  pub metrics : Metrics

-- The rate is a fraction: hits over lookups.
pub record CacheStatistics : Type 0 where
  pub stats : Statistics
  pub hit_rate : ℕ × ℕ
  pub memory_size : ℕ
  pub redis_available : Bool
  pub redis_size : ℕ

module _ {V R : Type 0} where
  unfoldable pub record_hit : String → CacheService V R → CacheService V R
  record_hit backend s = record s {
    stats = record s.stats { hits = s.stats.hits + 1 };
    metrics = increment_counter "cache_hits_total" (("backend", backend) ∷ []) 1 s.metrics;
  }

  unfoldable pub record_miss : CacheService V R → CacheService V R
  record_miss s = record s {
    stats = record s.stats { misses = s.stats.misses + 1 };
    metrics = increment_counter "cache_misses_total" [] 1 s.metrics;
  }

  unfoldable pub record_set : CacheService V R → CacheService V R
  record_set s = record s {
    stats = record s.stats { sets = s.stats.sets + 1 };
    metrics = increment_counter "cache_sets_total" [] 1 s.metrics;
  }

  unfoldable pub record_invalidation : CacheService V R → CacheService V R
  record_invalidation s = record s {
    stats = record s.stats { invalidations = s.stats.invalidations + 1 };
    metrics = increment_counter "cache_invalidations_total" [] 1 s.metrics;
  }

  unfoldable pub record_warmup : CacheService V R → CacheService V R
  record_warmup s = record s {
    stats = record s.stats { warmups = s.stats.warmups + 1 };
    metrics = increment_counter "cache_warmups_total" [] 1 s.metrics;
  }

  unfoldable pub register_warmup :
      String → Produced V → Option ℕ → CacheService V R → CacheService V R
  register_warmup key producer ttl s = record s {
    warmup_tasks =
        JsMap.set key (record { key = key; ttl = ttl; producer = producer }) s.warmup_tasks;
  }

  module _ (backend : CacheBackend V R) where
    -- The memory tier missed.
    unfoldable pub get_second :
        String → ℕ → Option (ValueWithTtl V) → CacheService V R → Option V × CacheService V R
    get_second key now none s = (none, record_miss s)
    get_second key now (some r) s =
        let hit = record_hit "redis" s in
        (
          some r.value,
          record hit { memory = Memory.set key r.value (max 1 r.pttl_ms) now hit.memory },
        )

    unfoldable pub get_first :
        String → ℕ → Option V → CacheService V R → Option V × CacheService V R
    unfolding get_second
    get_first key now (some v) s = (some v, record_hit "memory" s)
    get_first key now none s = get_second key now (backend.get_with_ttl key now s.redis) s

    unfoldable pub get : String → ℕ → CacheService V R → Option V × CacheService V R
    unfolding get_first
    get key now s =
        if not s.config.enabled
        then (none, s)
        else let (found, memory') = Memory.get key now s.memory in
          get_first key now found (record s { memory = memory' })

    unfoldable pub set : String → V → Option ℕ → ℕ → CacheService V R → CacheService V R
    set key v ttl_ms now s =
        if not s.config.enabled
        then s
        else let ttl = Option.get_or ttl_ms s.config.default_ttl_ms in
          let counted = record_set s in
          record counted {
            memory = Memory.set key v ttl now counted.memory;
            redis = backend.set key v ttl now counted.redis;
          }

    unfoldable pub del : String → CacheService V R → CacheService V R
    del key s =
        if not s.config.enabled
        then s
        else record s { memory = Memory.del key s.memory; redis = backend.del key s.redis }

    -- The value that the producer gave goes to the caller, and into the cache unless it is nothing.
    unfoldable pub store_produced :
        String → Produced V → Option ℕ → ℕ → CacheService V R → Produced V × CacheService V R
    unfolding set
    store_produced key (value v) ttl_ms now s = (value v, set key v ttl_ms now s)
    store_produced key nothing ttl_ms now s = (nothing, s)
    store_produced key throws ttl_ms now s = (throws, s)

    unfoldable pub wrap_found :
        String
        → Produced V
        → Option ℕ
        → ℕ
        → Option V
        → CacheService V R
        → Produced V × CacheService V R
    unfolding store_produced
    wrap_found key producer ttl_ms now (some v) s = (value v, s)
    wrap_found key producer ttl_ms now none s = store_produced key producer ttl_ms now s

    unfoldable pub wrap :
        String → Produced V → Option ℕ → ℕ → CacheService V R → Produced V × CacheService V R
    unfolding wrap_found
    wrap key producer ttl_ms now s =
        let (found, s') = get key now s in wrap_found key producer ttl_ms now found s'

    unfoldable pub invalidate_by_prefix : String → CacheService V R → ℕ × CacheService V R
    invalidate_by_prefix prefix s =
        if not s.config.enabled
        then (0, s)
        else let (memory_count, memory') = Memory.invalidate_by_prefix prefix s.memory in
          let (redis_count, redis') = backend.invalidate_by_prefix prefix s.redis in
          (
            memory_count + redis_count,
            record_invalidation (record s { memory = memory'; redis = redis' }),
          )

    unfoldable pub clear : CacheService V R → CacheService V R
    clear s =
        if not s.config.enabled
        then s
        else record_invalidation
            (record s { memory = Memory.clear s.memory; redis = backend.clear s.redis })

    -- One round of the loop of `warmup`; an error of the producer is logged and passed over.
    unfoldable pub warm_task :
        CacheWarmTask V → Produced V → ℕ → CacheService V R → CacheService V R
    warm_task task (value v) now s = record_warmup (set task.key v task.ttl now s)
    warm_task task nothing now s = s
    warm_task task throws now s = s

    unfoldable pub warm_tasks : List (CacheWarmTask V) → ℕ → CacheService V R → CacheService V R
    warm_tasks [] now s = s
    warm_tasks (task ∷ rest) now s = warm_tasks rest now (warm_task task task.producer now s)

    unfoldable pub warmup : ℕ → CacheService V R → ℕ × CacheService V R
    warmup now s =
        if not s.config.warm_enabled
        then (0, s)
        else let warmed = warm_tasks (s.config.warm_keys ++ JsMap.values s.warmup_tasks) now s in
          (warmed.stats.warmups, warmed)

    unfoldable pub warm_on_startup : ℕ → CacheService V R → ℕ × CacheService V R
    unfolding warmup
    warm_on_startup now s =
        if not s.config.warm_enabled || not s.config.warm_on_startup then (0, s) else warmup now s

    unfoldable pub get_statistics : CacheService V R → CacheStatistics
    get_statistics s =
        let total = s.stats.hits + s.stats.misses in
        record {
          stats = s.stats;
          hit_rate = if nat_eq total 0 then (0, 1) else (s.stats.hits, total);
          memory_size = Memory.size s.memory;
          redis_available = backend.available s.redis;
          redis_size = backend.size s.redis;
        }
