-- ===== src/Cache/Service/Wrap.antt =====
-- Reading through the cache, and warming it.
use atraport_api.Prelude.{
  ℕ, ◌+◌, ◌<◌, String, Bool, true, false, Option, none, some, List, [], ◌∷◌, ◌++◌, ◌≡◌, refl, arith,
  if◌then◌else◌, Option-cases, Bool-cases, inl, inr, ◌⊎◌, length, filter,
}
use atraport_api.Prelude.JsMap
use atraport_api.Cache.Memory
use atraport_api.Cache.Backend.{CacheBackend}
use atraport_api.Cache.Service.{
  Produced, value, nothing, throws, CacheWarmTask, CacheService, get, set, wrap, wrap_found,
  store_produced, warm_task, warm_tasks, warmup, record_hit, record_miss, record_set, record_warmup,
}
use atraport_api.Cache.Service.Tiers.{service-get-set}

module _ {V R : Type 0} (backend : CacheBackend V R) where
  no_value_unchanged :
      (p : Produced V) (key : String) (ttl : Option ℕ) (now : ℕ) (s : CacheService V R)
      → ((store_produced backend key p ttl now s).0 ≡ p)
        × (((v : V) × (p ≡ value v)) ⊎ ((store_produced backend key p ttl now s).1 ≡ s))
  unfolding store_produced
  no_value_unchanged (value v) key ttl now s = (refl, inl (v, refl))
  no_value_unchanged nothing key ttl now s = (refl, inr refl)
  no_value_unchanged throws key ttl now s = (refl, inr refl)

  -- `wrap` answers what `get` finds, and the producer has no say. Where `get` finds nothing, it answers
  -- what the producer gave, and either that is a value or `wrap` changes the cache no more than `get`.
  pub wrap_lem :
      (s : CacheService V R) (key : String) (producer : Produced V) (ttl : Option ℕ) (now : ℕ)
      → ((v : V) × ((get backend key now s).0 ≡ some v)
          × (wrap backend key producer ttl now s ≡ (value v, (get backend key now s).1)))
        ⊎ (((get backend key now s).0 ≡ none)
            × ((wrap backend key producer ttl now s).0 ≡ producer)
            × (((v : V) × (producer ≡ value v))
                ⊎ ((wrap backend key producer ttl now s).1 ≡ (get backend key now s).1)))
  unfolding wrap
  wrap_lem s key producer ttl now = elim (Option-cases (get backend key now s).0) [
    | inl missed ↦
        let given = no_value_unchanged producer key ttl now (get backend key now s).1 in
        inr (missed, rw missed given.0, rw missed given.1)
    | inr (v, found) ↦ inl (v, found, rw found)
  ]

  config-get :
      (s : CacheService V R) (key : String) (now : ℕ) → (get backend key now s).1.config ≡ s.config
  unfolding get record_hit record_miss
  config-get s key now = elim (Bool-cases s.config.enabled) [
    | inr off ↦ rw off
    | inl on ↦ elim (Option-cases (Memory.get key now s.memory).0) [
      | inr first ↦ rw on (rw first.1)
      | inl missed ↦ elim (Option-cases (backend.get_with_ttl key now s.redis)) [
        | inl missed_too ↦ rw on (rw missed (rw missed_too))
        | inr second ↦ rw on (rw missed (rw second.1))
      ]
    ]
  ]

  -- While the cache is on, a value produced on a miss is what `get` returns until its time to live
  -- has passed.
  pub get-wrap :
      (s : CacheService V R) (key : String) (v : V) (ttl now now' : ℕ)
      → s.config.enabled ≡ true
      → (get backend key now s).0 ≡ none
      → now' < now + ttl
      → (get backend key now' (wrap backend key (value v) (some ttl) now s).1).0 ≡ some v
  unfolding wrap_found
  get-wrap s key v ttl now now' on missed fresh =
      let e : (wrap backend key (value v) (some ttl) now s).1
          ≡ set backend key v (some ttl) now (get backend key now s).1 =
        unfold wrap in rw missed in
      rw e (
        service-get-set backend (get backend key now s).1 key v ttl now now' (rw config-get on)
          fresh)

  abbrev pub produces : CacheWarmTask V → Bool
  produces task = elim task.producer [ value v ↦ true | _ ↦ false ]

  warmups-set :
      (key : String) (v : V) (ttl : Option ℕ) (now : ℕ) (s : CacheService V R)
      → (set backend key v ttl now s).stats.warmups ≡ s.stats.warmups
  unfolding set record_set
  warmups-set key v ttl now s = ground arith

  warmups-warm_task :
      (task : CacheWarmTask V) (p : Produced V) (now : ℕ) (s : CacheService V R)
      → (warm_task backend task p now s).stats.warmups
        ≡ s.stats.warmups + (elim p [ value v ↦ 1 | _ ↦ 0 ])
  unfolding warm_task record_warmup
  warmups-warm_task task (value v) now s = omega (arith, warmups-set task.key v task.ttl now s)
  warmups-warm_task task nothing now s = omega arith
  warmups-warm_task task throws now s = omega arith

  warmups-warm_tasks :
      (tasks : List (CacheWarmTask V)) (now : ℕ) (s : CacheService V R)
      → (warm_tasks backend tasks now s).stats.warmups
        ≡ s.stats.warmups + length (filter produces tasks)
  unfolding warm_tasks
  warmups-warm_tasks [] now s = omega arith
  warmups-warm_tasks (task ∷ rest) now s = ground (
    arith,
    warmups-warm_tasks rest now (warm_task backend task task.producer now s),
    warmups-warm_task task task.producer now s,
  )

  -- `warmup` returns 0 where warming is off. Otherwise it returns the warmed keys so far: those of
  -- before and one for each task whose producer gave a value, where one that throws or gives nothing
  -- stops no other.
  pub warmup_total :
      (s : CacheService V R) (now : ℕ)
      → (warmup backend now s).0 ≡ (
          if s.config.warm_enabled
          then s.stats.warmups
            + length (filter produces (s.config.warm_keys ++ JsMap.values s.warmup_tasks))
          else 0)
  unfolding warmup
  warmup_total s now =
      ground (arith, warmups-warm_tasks (s.config.warm_keys ++ JsMap.values s.warmup_tasks) now s)
