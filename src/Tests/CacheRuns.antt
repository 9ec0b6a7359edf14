-- ===== src/Tests/CacheRuns.antt =====
-- src/cache: runs of the memory tier, the service and a page of src/pagination.
use atraport_api.Prelude.{
  ℕ, ◌*◌, ◌<◌, true, false, none, some, List, [], ◌∷◌, ◌≡◌, refl, ◌↔◌, arith, eq_iff,
}
use atraport_api.Prelude.JsMap
use atraport_api.Cache.Memory
use atraport_api.Cache.Memory.{MemoryCache, CacheEntry, size, invalidate_by_prefix}
use atraport_api.Cache.Memory.Lru.{read, write, serve, get-serve-get}
use atraport_api.Cache.Memory.Valid.{IsValid, serve-IsValid}
use atraport_api.Cache.Backend.{CacheBackend}
use atraport_api.Cache.Service.{CacheService, Produced, value}
use atraport_api.Pagination.{build_pagination_meta}
use atraport_api.Pagination.Pages.{first_pages, pages_cover}

abbrev entry_of_7 : CacheEntry ℕ
entry_of_7 = record { value = 7; expires_at = 100 }

abbrev small_cache : MemoryCache ℕ
small_cache = record {
  store = ("a", entry_of_7) ∷ ("b", record { value = 8; expires_at = 100 }) ∷ [];
  max_keys = 2;
}

get-serve-get_example :
    (Memory.get "a" 12 (serve ((11, write "c" 9 50) ∷ []) (Memory.get "a" 10 small_cache).1)).0
    ≡ some 7
unfolding JsMap.get
get-serve-get_example =
    get-serve-get small_cache "a" entry_of_7 10 12 ((11, write "c" 9 50) ∷ []) refl (omega arith)
      ((λ h. ground (arith, (eq_iff "a" "c").1 h)), (omega arith), tt) (omega arith) (omega arith)

serve-IsValid_example : IsValid (serve ((11, write "c" 9 50) ∷ (12, read "a") ∷ []) small_cache)
unfolding JsMap.get
serve-IsValid_example =
    serve-IsValid ((11, write "c" 9 50) ∷ (12, read "a") ∷ []) small_cache (omega arith)
      (record { distinct = (refl, (refl, tt)); bounded = omega arith })

-- A second tier that is down.
abbrev no_backend : CacheBackend ℕ Unit
no_backend = record {
  available = λ r. false;
  get_with_ttl = λ key now r. none;
  set = λ key v ttl now r. r;
  del = λ key r. r;
  invalidate_by_prefix = λ prefix r. (0, r);
  clear = λ r. r;
  size = λ r. 0;
}

abbrev service : CacheService ℕ Unit
service = record {
  config = record {
    enabled = true;
    default_ttl_ms = 1000;
    warm_enabled = true;
    warm_on_startup = true;
    warm_keys = [];
  };
  memory = small_cache;
  redis = tt;
  warmup_tasks = [];
  stats = record { hits = 0; misses = 0; sets = 0; invalidations = 0; warmups = 0 };
  metrics = [];
}

abbrev three : Produced ℕ
three = value 3

abbrev items : List ℕ
items = 7 ∷ 8 ∷ 9 ∷ []

pages_cover_example :
    (first_pages (build_pagination_meta 3 1 2).total_pages 2 items ≡ items)
    × (((build_pagination_meta 3 1 2).has_next ≡ true) ↔ (1 * 2 < 3))
pages_cover_example = pages_cover 2 1 items (omega arith)
