-- ===== src/Cache/Service/Tiers.antt =====
-- How the service uses its two tiers, and what it counts.
use atraport_api.Prelude.{
  ℕ, ◌+◌, ◌<◌, String, true, false, Option, none, some, ◌≡◌, arith, leb, max, if◌then◌else◌,
  Option-cases, inl, inr, ◌⊎◌,
}
use atraport_api.Cache.Memory
use atraport_api.Cache.Memory.{ValueWithTtl}
use atraport_api.Cache.Memory.Expiry.{get-set_self}
use atraport_api.Cache.Backend.{CacheBackend}
use atraport_api.Cache.Service.{
  CacheService, get, set, del, clear, invalidate_by_prefix, record_hit, record_miss, record_set,
}

module _ {V R : Type 0} (backend : CacheBackend V R) where
  -- While the cache is on, a value that was set with a time to live is returned before that time has
  -- passed, whatever the second tier does.
  pub service-get-set :
      (s : CacheService V R) (key : String) (v : V) (ttl now now' : ℕ)
      → s.config.enabled ≡ true
      → now' < now + ttl
      → (get backend key now' (set backend key v (some ttl) now s)).0 ≡ some v
  unfolding get set record_set
  service-get-set s key v ttl now now' on fresh =
      rw on (rw (get-set_self key v ttl now now' s.memory) (ground arith))

  -- When the memory tier misses and the second tier has the key with `pttl` milliseconds left, `get`
  -- returns that value, and the promoted copy is served by the memory tier for max(1, pttl)
  -- milliseconds and not longer.
  pub get_promotes :
      (s : CacheService V R) (key : String) (now now' : ℕ) (r : ValueWithTtl V)
      → s.config.enabled ≡ true
      → (Memory.get key now s.memory).0 ≡ none
      → backend.get_with_ttl key now s.redis ≡ some r
      → ((get backend key now s).0 ≡ some r.value)
        × ((Memory.get key now' (get backend key now s).1.memory).0
            ≡ (if leb (now + max 1 r.pttl_ms) now' then none else some r.value))
  unfolding get record_hit
  get_promotes s key now now' r on missed second = (
    rw on (rw missed (rw second)),
    rw on (
        rw missed (
          rw second
            (get-set_self key r.value (max 1 r.pttl_ms) now now' (Memory.get key now s.memory).1))),
  )

  -- While the cache is on, each `get` counts one hit if it returns a value and one miss if it does
  -- not, and leaves the other counters.
  pub get_counts :
      (s : CacheService V R) (key : String) (now : ℕ)
      → s.config.enabled ≡ true
      → (((get backend key now s).0 ≡ none)
          × ((get backend key now s).1.stats ≡ record s.stats { misses = s.stats.misses + 1 }))
        ⊎ ((v : V) × ((get backend key now s).0 ≡ some v)
            × ((get backend key now s).1.stats ≡ record s.stats { hits = s.stats.hits + 1 }))
  unfolding get record_hit record_miss
  get_counts s key now on = elim (Option-cases (Memory.get key now s.memory).0) [
    | inl missed ↦ elim (Option-cases (backend.get_with_ttl key now s.redis)) [
      | inl missed_too ↦ inl (rw on (rw missed (rw missed_too)), rw on (rw missed (rw missed_too)))
      | inr second ↦
          inr (second.0.value, rw on (rw missed (rw second.1)), rw on (rw missed (rw second.1)))
    ]
    | inr first ↦ inr (first.0, rw on (rw first.1), rw on (rw first.1))
  ]

  -- While the cache is off every operation leaves the state, `get` finds nothing, and an invalidation
  -- drops nothing.
  pub disabled_noop :
      (s : CacheService V R) (key : String) (v : V) (ttl : Option ℕ) (now : ℕ)
      → s.config.enabled ≡ false
      → (get backend key now s ≡ (none, s))
        × (set backend key v ttl now s ≡ s)
        × (del backend key s ≡ s)
        × (clear backend s ≡ s)
        × (invalidate_by_prefix backend key s ≡ (0, s))
  unfolding get set del clear invalidate_by_prefix
  disabled_noop s key v ttl now off = (rw off, rw off, rw off, rw off, rw off)
