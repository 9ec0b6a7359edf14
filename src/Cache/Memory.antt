-- ===== src/Cache/Memory.antt =====
-- src/cache/backends/memory-cache.ts: the in-memory tier, a bounded LRU map whose entries expire.
-- A method takes the clock's reading as `now`; it returns its result and the new state.
mod Recency
pub mod Lru
pub mod Expiry
pub mod Valid
use text.Mathlib.Text.{starts_with}
use atraport_api.Prelude.{
  ℕ, ◌+◌, ◌-◌, String, Bool, not, Option, none, some, List, [], ◌∷◌, ltb, leb, length,
  if◌then◌else◌,
}
use atraport_api.Prelude.JsMap
use atraport_api.Prelude.JsMap.{JsMap}

pub record CacheEntry {ℓ} (V : Type ℓ) : Type ℓ where
  pub value : V
  pub expires_at : ℕ

pub record MemoryCache {ℓ} (V : Type ℓ) : Type ℓ where
  pub store : JsMap (CacheEntry V)
  pub max_keys : ℕ

pub record ValueWithTtl {ℓ} (V : Type ℓ) : Type ℓ where
  pub value : V
  pub pttl_ms : ℕ

module _ {ℓ} {V : Type ℓ} where
  -- `this.store.delete(key); this.store.set(key, entry)`
  unfoldable pub refresh : String → CacheEntry V → MemoryCache V → MemoryCache V
  refresh key entry s = record s { store = JsMap.set key entry (JsMap.delete key s.store) }

  -- `this.store.delete(key)`
  unfoldable pub del : String → MemoryCache V → MemoryCache V
  del key s = record s { store = JsMap.delete key s.store }

  unfoldable pub get_entry :
      String → ℕ → Option (CacheEntry V) → MemoryCache V → Option V × MemoryCache V
  get_entry key now none s = (none, s)
  get_entry key now (some entry) s =
      if leb entry.expires_at now
      then (none, del key s)
      else (some entry.value, refresh key entry s)

  unfoldable pub get : String → ℕ → MemoryCache V → Option V × MemoryCache V
  unfolding get_entry refresh del
  get key now s = get_entry key now (JsMap.get key s.store) s

  unfoldable pub get_entry_with_ttl :
      String → ℕ → Option (CacheEntry V) → MemoryCache V → Option (ValueWithTtl V) × MemoryCache V
  get_entry_with_ttl key now none s = (none, s)
  get_entry_with_ttl key now (some entry) s =
      if leb entry.expires_at now then (none, del key s) else (
        some (record { value = entry.value; pttl_ms = entry.expires_at - now }),
        refresh key entry s,
      )

  unfoldable pub get_with_ttl : String → ℕ → MemoryCache V → Option (ValueWithTtl V) × MemoryCache V
  unfolding get_entry_with_ttl refresh del
  get_with_ttl key now s = get_entry_with_ttl key now (JsMap.get key s.store) s

  abbrev is_fresh : ℕ → String → CacheEntry V → Bool
  is_fresh now key entry = not (leb entry.expires_at now)

  -- `evictExpired`
  unfoldable pub evict_expired : ℕ → JsMap (CacheEntry V) → JsMap (CacheEntry V)
  evict_expired now store = JsMap.retain (is_fresh now) store

  -- The loop of `set`: while the map is full the oldest key goes. An empty map ends it (`break`).
  unfoldable pub evict_oldest : ℕ → JsMap (CacheEntry V) → JsMap (CacheEntry V)
  evict_oldest max_keys [] = []
  evict_oldest max_keys (oldest ∷ rest) =
      let next = evict_oldest max_keys rest in
      if leb max_keys (length (oldest ∷ rest)) then next else oldest ∷ rest

  unfoldable pub set : String → V → ℕ → ℕ → MemoryCache V → MemoryCache V
  set key value ttl_ms now s = record s {
    store =
        JsMap.set key (record { value = value; expires_at = now + ttl_ms })
          (evict_oldest s.max_keys (evict_expired now s.store));
  }

  abbrev lacks_prefix : String → String → CacheEntry V → Bool
  lacks_prefix prefix key entry = not (starts_with key prefix)

  unfoldable pub invalidate_by_prefix : String → MemoryCache V → ℕ × MemoryCache V
  invalidate_by_prefix prefix s =
      let kept = JsMap.retain (lacks_prefix prefix) s.store in
      (length s.store - length kept, record s { store = kept })

  unfoldable pub clear : MemoryCache V → MemoryCache V
  clear s = record s { store = [] }

  abbrev pub size : MemoryCache V → ℕ
  size s = length s.store
