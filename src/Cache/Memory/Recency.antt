-- ===== src/Cache/Memory/Recency.antt =====
-- How far a key of the memory tier is from the newest place, and what each operation does to that.
use atraport_api.Prelude.{
  ℕ, ◌+◌, ◌≤◌, ◌<◌, String, ◌≡◌, ◌≢◌, Bool, true, Option, none, some, [], ◌∷◌, ◌++◌, arith, leb,
  length, eq_iff, Bool-cases, inl, inr, if◌then◌else◌,
}
use text.Mathlib.Text.{◌==◌}
use atraport_api.Prelude.JsMap
use atraport_api.Prelude.JsMap.{
  JsMap, keys, IsDistinct, length-set, length-delete, length-retain, get-delete, get-set, set_new,
  get-retain, get-retain_missing, retain-IsDistinct, set-IsDistinct, delete-IsDistinct,
}
use atraport_api.Cache.Memory.{
  CacheEntry, MemoryCache, get, set, refresh, del, get_entry, evict_oldest, evict_expired, is_fresh,
}

module _ {ℓ} {V : Type ℓ} where
  -- The number of entries that were inserted or read after the key.
  abbrev pub after : String → JsMap (CacheEntry V) → ℕ
  after k [] = 0
  after k ((j, w) ∷ m) = if j == k then length m else after k m

  -- The key is there with this entry, and at most `n` others are more recent.
  pub record Recent (k : String) (e : CacheEntry V) (n : ℕ) (m : JsMap (CacheEntry V))
      : Type ℓ where
    pub present : JsMap.get k m ≡ some e
    pub recent : after k m ≤ n

  pub after-delete :
      (k j : String) (m : JsMap (CacheEntry V)) → k ≢ j → after k (JsMap.delete j m) ≤ after k m
  unfolding JsMap.delete
  after-delete k j [] ne = omega arith
  after-delete k j ((i, w) ∷ m) ne =
      ground (arith, after-delete k j m ne, length-delete j m, eq_iff i k, eq_iff i j, eq_iff j k)

  pub after-set :
      (k j : String) (v e : CacheEntry V) (m : JsMap (CacheEntry V))
      → k ≢ j
      → JsMap.get k m ≡ some e
      → after k (JsMap.set j v m) ≤ after k m + 1
  unfolding JsMap.set JsMap.get
  after-set k j v e [] ne h = cc
  after-set k j v e ((i, w) ∷ m) ne h =
      ground (arith, after-set k j v e m ne, length-set j v m, eq_iff i k, eq_iff i j, eq_iff j k)

  pub retain-Recent :
      (p : String → CacheEntry V → Bool) (k : String) (e : CacheEntry V) (m : JsMap (CacheEntry V))
      → p k e ≡ true
      → JsMap.get k m ≡ some e
      → (JsMap.get k (JsMap.retain p m) ≡ some e) × (after k (JsMap.retain p m) ≤ after k m)
  unfolding JsMap.retain JsMap.get
  retain-Recent p k e [] kept h = cc
  retain-Recent p k e ((i, w) ∷ m) kept h =
      ground (arith, retain-Recent p k e m kept, length-retain p m, eq_iff i k)

  pub evict_oldest-Recent :
      (max_keys : ℕ) (k : String) (e : CacheEntry V) (m : JsMap (CacheEntry V))
      → after k m + 2 ≤ max_keys
      → JsMap.get k m ≡ some e
      → (JsMap.get k (evict_oldest max_keys m) ≡ some e)
        × (after k (evict_oldest max_keys m) ≤ after k m)
  unfolding evict_oldest JsMap.get
  evict_oldest-Recent max_keys k e [] room h = cc
  evict_oldest-Recent max_keys k e ((i, w) ∷ m) room h =
      ground (arith, evict_oldest-Recent max_keys k e m, eq_iff i k)

  pub refresh-Recent :
      (k j : String) (e w : CacheEntry V) (n : ℕ) (s : MemoryCache V)
      → k ≢ j
      → Recent k e n s.store
      → Recent k e (n + 1) (refresh j w s).store
  unfolding refresh
  refresh-Recent k j e w n s ne r = record {
    present = ground (
      arith,
      r.present,
      get-set j k w (JsMap.delete j s.store),
      get-delete j k s.store,
      eq_iff j k,
    );
    recent = omega (
      arith,
      r.recent,
      after-delete k j s.store ne,
      after-set k j w e (JsMap.delete j s.store) ne
          (ground (arith, r.present, get-delete j k s.store, eq_iff j k)),
    );
  }

  pub del-Recent :
      (k j : String) (e : CacheEntry V) (n : ℕ) (s : MemoryCache V)
      → k ≢ j
      → Recent k e n s.store
      → Recent k e n (del j s).store
  unfolding del
  del-Recent k j e n s ne r = record {
    present = ground (arith, r.present, get-delete j k s.store, eq_iff j k);
    recent = omega (arith, r.recent, after-delete k j s.store ne);
  }

  pub get_entry-Recent :
      (k j : String) (e : CacheEntry V) (n now : ℕ) (found : Option (CacheEntry V))
      (s : MemoryCache V)
      → k ≢ j
      → Recent k e n s.store
      → Recent k e (n + 1) (get_entry j now found s).1.store
  unfolding get_entry
  get_entry-Recent k j e n now none s ne r = record { present = r.present; recent = omega arith }
  get_entry-Recent k j e n now (some w) s ne r = elim (Bool-cases (leb w.expires_at now)) [
    | inl old ↦ rw old (record {
      present = (del-Recent k j e n s ne r).present;
      recent = omega (arith, (del-Recent k j e n s ne r).recent);
    })
    | inr fresh ↦ rw fresh (refresh-Recent k j e w n s ne r)
  ]

  pub set-Recent :
      (k j : String) (v : V) (e : CacheEntry V) (n ttl now : ℕ) (s : MemoryCache V)
      → k ≢ j
      → now < e.expires_at
      → n + 2 ≤ s.max_keys
      → Recent k e n s.store
      → Recent k e (n + 1) (set j v ttl now s).store
  unfolding set evict_expired
  set-Recent k j v e n ttl now s ne fresh room r =
      let entry : CacheEntry V = record { value = v; expires_at = now + ttl } in
      let live = JsMap.retain (is_fresh now) s.store in
      let (there, fewer) = retain-Recent (is_fresh now) k e s.store (ground arith) r.present in
      let (kept, less) = evict_oldest-Recent s.max_keys k e live (omega (arith, r.recent)) there in
      record {
        present =
            ground (arith, kept, get-set j k entry (evict_oldest s.max_keys live), eq_iff j k);
        recent =
            omega (arith, r.recent, after-set k j entry e (evict_oldest s.max_keys live) ne kept);
      }

  pub after-append :
      (k : String) (e : CacheEntry V) (m : JsMap (CacheEntry V))
      → JsMap.get k m ≡ none
      → after k (m ++ (k, e) ∷ []) ≡ 0
  unfolding JsMap.get
  after-append k e [] h = ground (arith, eq_iff k k)
  after-append k e ((i, w) ∷ m) h = ground (arith, after-append k e m)

  pub refresh-Recent_self :
      (k : String) (e : CacheEntry V) (s : MemoryCache V) → Recent k e 0 (refresh k e s).store
  unfolding refresh
  refresh-Recent_self k e s =
      let gone : JsMap.get k (JsMap.delete k s.store) ≡ none =
        ground (arith, get-delete k k s.store, eq_iff k k) in
      record {
        present = ground (arith, get-set k k e (JsMap.delete k s.store), eq_iff k k);
        recent =
            rw (set_new k e (JsMap.delete k s.store) gone)
              (omega (arith, after-append k e (JsMap.delete k s.store) gone));
      }

  -- A hit returns the value and makes the key the newest.
  pub get_hit :
      (k : String) (now : ℕ) (e : CacheEntry V) (s : MemoryCache V)
      → JsMap.get k s.store ≡ some e
      → now < e.expires_at
      → get k now s ≡ (some e.value, refresh k e s)
  unfolding get
  get_hit k now e s found fresh = rw found (ground arith)
