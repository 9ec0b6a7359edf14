-- ===== src/Cache/Memory/Lru.antt =====
-- The capacity of the memory tier, and that the least recently used key goes first.
use atraport_api.Prelude.{
  ℕ, ◌+◌, ◌≤◌, ◌<◌, String, ◌≡◌, refl, ◌≢◌, some, List, [], ◌∷◌, arith, length,
}
use atraport_api.Prelude.JsMap
use atraport_api.Prelude.JsMap.{
  JsMap, keys, IsDistinct, length-set, length-delete, length-retain, get-delete, get-set, set_new,
  get-retain, get-retain_missing, retain-IsDistinct, set-IsDistinct, delete-IsDistinct,
}
use atraport_api.Cache.Memory.{
  CacheEntry, MemoryCache, get, set, refresh, del, evict_oldest, evict_expired, size,
}
use atraport_api.Cache.Memory.Recency.{
  Recent, get_hit, get_entry-Recent, set-Recent, del-Recent, refresh-Recent_self,
}

-- A request to the tier.
pub data Access {ℓ} (V : Type ℓ) : Type ℓ where
  read : String → Access V
  write : String → V → ℕ → Access V
  remove : String → Access V

module _ {ℓ} {V : Type ℓ} where
  length-evict_oldest :
      (max_keys : ℕ) (m : JsMap (CacheEntry V))
      → 0 < max_keys
      → length (evict_oldest max_keys m) < max_keys
  unfolding evict_oldest
  length-evict_oldest max_keys [] h = omega arith
  length-evict_oldest max_keys (e ∷ m) h = ground (arith, length-evict_oldest max_keys m)

  -- Whatever the state, a `set` leaves at most `maxKeys` entries, if `maxKeys` is positive.
  pub size-set :
      (s : MemoryCache V) (key : String) (value : V) (ttl now : ℕ)
      → 0 < s.max_keys
      → size (set key value ttl now s) ≤ s.max_keys
  unfolding set
  size-set s key value ttl now h = omega (
    arith,
    length-set key (record { value = value; expires_at = now + ttl })
        (evict_oldest s.max_keys (evict_expired now s.store)),
    length-evict_oldest s.max_keys (evict_expired now s.store),
  )

  abbrev pub key_of : Access V → String
  key_of (read k) = k
  key_of (write k v ttl) = k
  key_of (remove k) = k

  unfoldable pub access : Access V → ℕ → MemoryCache V → MemoryCache V
  access (read k) now s = (get k now s).1
  access (write k v ttl) now s = set k v ttl now s
  access (remove k) now s = del k s

  unfoldable pub serve : List (ℕ × Access V) → MemoryCache V → MemoryCache V
  serve [] s = s
  serve ((now, a) ∷ rest) s = serve rest (access a now s)

  -- Accesses to other keys before the entry expires.
  abbrev pub Others : String → CacheEntry V → List (ℕ × Access V) → Type 0
  Others k e [] = Unit
  Others k e ((now, a) ∷ rest) = (k ≢ key_of a) × (now < e.expires_at) × Others k e rest

  pub max_keys-access :
      (a : Access V) (now : ℕ) (s : MemoryCache V) → (access a now s).max_keys ≡ s.max_keys
  unfolding access get set del
  max_keys-access (read k) now s = ground arith
  max_keys-access (write k v ttl) now s = refl
  max_keys-access (remove k) now s = refl

  access-Recent :
      (k : String) (e : CacheEntry V) (n now : ℕ) (a : Access V) (s : MemoryCache V)
      → k ≢ key_of a
      → now < e.expires_at
      → n + 2 ≤ s.max_keys
      → Recent k e n s.store
      → Recent k e (n + 1) (access a now s).store
  unfolding access
  access-Recent k e n now (read j) s ne fresh room r =
      unfold get in get_entry-Recent k j e n now (JsMap.get j s.store) s ne r
  access-Recent k e n now (write j v ttl) s ne fresh room r =
      set-Recent k j v e n ttl now s ne fresh room r
  access-Recent k e n now (remove j) s ne fresh room r = record {
    present = (del-Recent k j e n s ne r).present;
    recent = omega (arith, (del-Recent k j e n s ne r).recent);
  }

  serve-Recent :
      (k : String) (e : CacheEntry V) (n : ℕ) (later : List (ℕ × Access V)) (s : MemoryCache V)
      → Others k e later
      → n + length later < s.max_keys
      → Recent k e n s.store
      → Recent k e (n + length later) (serve later s).store
  unfolding serve
  serve-Recent k e n [] s others room r = record {
    present = r.present;
    recent = omega (arith, r.recent);
  }
  serve-Recent k e n ((now, a) ∷ rest) s (ne, fresh, others) room r =
      let ih =
        serve-Recent k e (n + 1) rest (access a now s) others
          (omega (arith, max_keys-access a now s))
          (access-Recent k e n now a s ne fresh (omega arith) r) in
      record { present = ih.present; recent = omega (arith, ih.recent) }

  -- An entry that was just read, and has not expired, survives any accesses to other keys, writes
  -- included, as long as they are fewer than `maxKeys`: the next read returns its value.
  pub get-serve-get :
      (s : MemoryCache V) (k : String) (e : CacheEntry V) (t now : ℕ) (later : List (ℕ × Access V))
      → JsMap.get k s.store ≡ some e
      → t < e.expires_at
      → Others k e later
      → length later < s.max_keys
      → now < e.expires_at
      → (get k now (serve later (get k t s).1)).0 ≡ some e.value
  get-serve-get s k e t now later found fresh others room live =
      let r =
        serve-Recent k e 0 later (refresh k e s) others (unfold refresh in omega arith)
          (refresh-Recent_self k e s) in
      rw (get_hit k t e s found fresh)
        (rw (get_hit k now e (serve later (refresh k e s)) r.present live))
