-- ===== src/Cache/Memory/Expiry.antt =====
-- What a reader of the memory tier gets, by the clock.
use mathlib.Core.Option
use text.Mathlib.Text.{starts_with}
use atraport_api.Prelude.{
  ℕ, ◌+◌, ◌<◌, String, ◌≡◌, refl, Option, none, some, arith, leb, eq_refl, ◌↔◌, Bool-cases, inl,
  inr, if◌then◌else◌,
}
use atraport_api.Prelude.JsMap
use atraport_api.Prelude.JsMap.{
  JsMap, IsDistinct, length-delete, length-retain, get-delete, get-set, get-retain,
  get-retain_missing, retain-IsDistinct, set-IsDistinct, delete-IsDistinct,
}
use atraport_api.Cache.Memory.{
  CacheEntry, MemoryCache, ValueWithTtl, get, get_with_ttl, get_entry, get_entry_with_ttl, set,
  invalidate_by_prefix, lacks_prefix, size,
}

module _ {ℓ} {V : Type ℓ} where
  -- A `get` returns a value exactly when the key has an entry that expires later, and it is that
  -- entry's value.
  pub get_iff :
      (k : String) (now : ℕ) (s : MemoryCache V) (v : V)
      → ((get k now s).0 ≡ some v) ↔ (
          (e : CacheEntry V) × (JsMap.get k s.store ≡ some e)
          × (now < e.expires_at)
          × (e.value ≡ v))
  unfolding get
  get_iff k now s v = (to (JsMap.get k s.store), from)
    where
      to :
          (found : Option (CacheEntry V))
          → (get_entry k now found s).0 ≡ some v
          → (e : CacheEntry V) × (found ≡ some e) × (now < e.expires_at) × (e.value ≡ v)
      to none h = cc
      to (some e) h = (e, refl, ground arith, ground arith)

      from :
          ((e : CacheEntry V) × (JsMap.get k s.store ≡ some e)
            × (now < e.expires_at)
            × (e.value ≡ v))
          → (get_entry k now (JsMap.get k s.store) s).0 ≡ some v
      from (e, found, fresh, same) = rw found (ground arith)

  -- A `get` after a `set` of the same key returns the value until the time to live has passed, and
  -- nothing from then on.
  pub get-set_self :
      (k : String) (v : V) (ttl now now' : ℕ) (s : MemoryCache V)
      → (get k now' (set k v ttl now s)).0 ≡ (if leb (now + ttl) now' then none else some v)
  unfolding get set
  get-set_self k v ttl now now' s = rw get-set (rw (eq_refl k) (ground arith))

  -- `getWithTtl` returns the value that `get` returns, leaves the state that `get` leaves, and the
  -- time to live that it reports is positive and ends when the entry expires.
  pub get_with_ttl-get :
      (k : String) (now : ℕ) (s : MemoryCache V)
      → (Option.map (λ (r : ValueWithTtl V). r.value) (get_with_ttl k now s).0 ≡ (get k now s).0)
        × ((get_with_ttl k now s).1 ≡ (get k now s).1)
        × ((r : ValueWithTtl V)
            → (get_with_ttl k now s).0 ≡ some r
            → (e : CacheEntry V) × (JsMap.get k s.store ≡ some e)
              × (now + r.pttl_ms ≡ e.expires_at)
              × (0 < r.pttl_ms))
  unfolding get get_with_ttl
  get_with_ttl-get k now s = go (JsMap.get k s.store)
    where
      go :
          (found : Option (CacheEntry V))
          → (Option.map (λ (r : ValueWithTtl V). r.value) (get_entry_with_ttl k now found s).0
              ≡ (get_entry k now found s).0)
            × ((get_entry_with_ttl k now found s).1 ≡ (get_entry k now found s).1)
            × ((r : ValueWithTtl V)
                → (get_entry_with_ttl k now found s).0 ≡ some r
                → (e : CacheEntry V) × (found ≡ some e)
                  × (now + r.pttl_ms ≡ e.expires_at)
                  × (0 < r.pttl_ms))
      go none = (refl, refl, λ r h. cc)
      go (some e) = (ground arith, ground arith, λ r h. (e, refl, ground arith, ground arith))

  keep-lacks_prefix :
      (prefix k : String) (found : Option (CacheEntry V))
      → JsMap.keep (lacks_prefix prefix) k found ≡ (if starts_with k prefix then none else found)
  keep-lacks_prefix prefix k none = elim (Bool-cases (starts_with k prefix)) [
    | inl h ↦ rw h
    | inr h ↦ rw h
  ]
  keep-lacks_prefix prefix k (some e) = elim (Bool-cases (starts_with k prefix)) [
    | inl h ↦ rw h
    | inr h ↦ rw h
  ]

  -- `invalidateByPrefix` drops exactly the keys with the prefix, keeps the entries of the others, and
  -- returns how many it dropped.
  pub invalidate_by_prefix_exact :
      (prefix k : String) (s : MemoryCache V)
      → IsDistinct s.store
      → (JsMap.get k (invalidate_by_prefix prefix s).1.store
          ≡ (if starts_with k prefix then none else JsMap.get k s.store))
        × ((invalidate_by_prefix prefix s).0 + size (invalidate_by_prefix prefix s).1 ≡ size s)
  unfolding invalidate_by_prefix
  invalidate_by_prefix_exact prefix k s d = (
    rw (get-retain (lacks_prefix prefix) k s.store d)
        (keep-lacks_prefix prefix k (JsMap.get k s.store)),
    omega (arith, length-retain (lacks_prefix prefix) s.store),
  )
