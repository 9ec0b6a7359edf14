-- ===== src/Cache/Memory/Valid.antt =====
-- The invariant of the memory tier's state, kept by every access.
use atraport_api.Prelude.{
  ℕ, ◌+◌, ◌≤◌, ◌<◌, String, ◌≡◌, refl, sym, Option, none, some, List, [], ◌∷◌, arith, leb, length,
  Bool-cases, inl, inr,
}
use atraport_api.Prelude.JsMap
use atraport_api.Prelude.JsMap.{
  JsMap, IsDistinct, length-delete, length-set, get-delete, retain-IsDistinct, set-IsDistinct,
  delete-IsDistinct,
}
use atraport_api.Cache.Memory.{
  CacheEntry, MemoryCache, get, set, get_entry, refresh, del, evict_oldest, evict_expired, is_fresh,
  size,
}
use atraport_api.Cache.Memory.Lru.{
  Access, read, write, remove, access, serve, size-set, max_keys-access,
}

module _ {ℓ} {V : Type ℓ} where
  -- No key twice, and at most `maxKeys` entries.
  pub record IsValid (s : MemoryCache V) : Type ℓ where
    pub distinct : IsDistinct s.store
    pub bounded : size s ≤ s.max_keys

  evict_oldest-IsDistinct :
      (max_keys : ℕ) (m : JsMap (CacheEntry V))
      → IsDistinct m
      → IsDistinct (evict_oldest max_keys m)
  unfolding evict_oldest
  evict_oldest-IsDistinct max_keys [] d = tt
  evict_oldest-IsDistinct max_keys (e ∷ m) d = ground (arith, evict_oldest-IsDistinct max_keys m)

  length-delete_present :
      (k : String) (e : CacheEntry V) (m : JsMap (CacheEntry V))
      → JsMap.get k m ≡ some e
      → length (JsMap.delete k m) + 1 ≤ length m
  unfolding JsMap.get JsMap.delete
  length-delete_present k e [] h = cc
  length-delete_present k e ((i, w) ∷ m) h =
      ground (arith, length-delete_present k e m, length-delete k m)

  get_entry-IsValid :
      (k : String) (now : ℕ) (found : Option (CacheEntry V)) (s : MemoryCache V)
      → found ≡ JsMap.get k s.store
      → IsValid s
      → IsValid (get_entry k now found s).1
  unfolding get_entry refresh del
  get_entry-IsValid k now none s e v = v
  get_entry-IsValid k now (some w) s e v = elim (Bool-cases (leb w.expires_at now)) [
    | inl old ↦ rw old (record {
      distinct = delete-IsDistinct k s.store v.distinct;
      bounded = omega (arith, v.bounded, length-delete k s.store);
    })
    | inr fresh ↦ rw fresh (record {
      distinct =
          set-IsDistinct k w (JsMap.delete k s.store) (delete-IsDistinct k s.store v.distinct);
      bounded = omega (
        arith,
        v.bounded,
        length-set k w (JsMap.delete k s.store),
        length-delete_present k w s.store (sym e),
      );
    })
  ]

  access-IsValid :
      (a : Access V) (now : ℕ) (s : MemoryCache V)
      → 0 < s.max_keys
      → IsValid s
      → IsValid (access a now s)
  unfolding access
  access-IsValid (read k) now s pos v =
      unfold get in get_entry-IsValid k now (JsMap.get k s.store) s refl v
  access-IsValid (write k w ttl) now s pos v = record {
    distinct =
        unfold set evict_expired in
        set-IsDistinct k _ (evict_oldest s.max_keys (evict_expired now s.store)) (
          evict_oldest-IsDistinct s.max_keys (evict_expired now s.store)
            (retain-IsDistinct (is_fresh now) s.store v.distinct));
    bounded = unfold set in unfold set in size-set s k w ttl now pos;
  }
  access-IsValid (remove k) now s pos v =
      unfold del in
      record {
        distinct = delete-IsDistinct k s.store v.distinct;
        bounded = omega (arith, v.bounded, length-delete k s.store);
      }

  -- Every sequence of reads, writes and removals, at any times, keeps the state valid: no key twice,
  -- and at most `maxKeys` entries, if `maxKeys` is positive.
  pub serve-IsValid :
      (requests : List (ℕ × Access V)) (s : MemoryCache V)
      → 0 < s.max_keys
      → IsValid s
      → IsValid (serve requests s)
  unfolding serve
  serve-IsValid [] s pos v = v
  serve-IsValid ((now, a) ∷ rest) s pos v =
      serve-IsValid rest (access a now s) (omega (arith, max_keys-access a now s))
        (access-IsValid a now s pos v)
