-- ===== src/Cache/Backend.antt =====
-- src/cache/cache.types.ts: the interface of a cache tier, over the tier's state `R`. What the service
-- asks of the second tier goes through it; a tier that is down answers with nothing and stays as it is.
use atraport_api.Prelude.{ℕ, String, Bool, Option}
use atraport_api.Cache.Memory.{ValueWithTtl}

pub record CacheBackend (V R : Type 0) : Type 0 where
  pub available : R → Bool
  pub get_with_ttl : String → ℕ → R → Option (ValueWithTtl V)
  pub set : String → V → ℕ → ℕ → R → R
  pub del : String → R → R
  pub invalidate_by_prefix : String → R → ℕ × R
  pub clear : R → R
  pub size : R → ℕ
