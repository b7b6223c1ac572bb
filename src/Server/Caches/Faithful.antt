-- ===== src/Server/Caches/Faithful.antt =====
-- What the cache that the configuration selects returns, for `AppCache` of server.rs.
use imgx.Base.{Text, some, ◌≡◌}
use imgx.Cache.{CacheEntry, Cache, IsSmall, IsFaithful}
use imgx.Cache.Faithful.{Only, IsCache-IsFaithful}
use imgx.Cache.Lru.{LruCache}
use imgx.Cache.Memory.{StoredEntry, MemoryCache, memory_cache}
use imgx.Cache.Memory.Contract.{memory_cache-IsCache}
use imgx.Cache.Memory.Laws.{IsValid}
use imgx.Cache.Tiered
use imgx.Cache.Tiered.Soundness.{IsSound, Step-IsSound, tiered_cache-IsFaithful}
use imgx.Server.Caches.{AppCache, Work, runs, loses, app_cache, get, put, delete, clear}

module _ (lru : LruCache StoredEntry) {S₂ : Type 0} {l2 : Cache S₂} {G₂ : S₂ → Type 0}
    {P : Text → CacheEntry → Type 0} (f₂ : IsFaithful l2 P G₂)
    (small : (k : Text) (e : CacheEntry) → P k e → IsSmall e) where
  -- The memory cache is valid and holds only what satisfies the predicate.
  abbrev GoodMemory : MemoryCache lru → Type 0
  GoodMemory c = IsValid lru c × Only (memory_cache-IsCache lru) P small c

  abbrev f₁ : IsFaithful (memory_cache lru) P GoodMemory
  f₁ = IsCache-IsFaithful (memory_cache-IsCache lru) P small

  -- The cache is valid and holds only what satisfies the predicate, and so do the writes that the
  -- tiered cache has spawned.
  abbrev pub Good : AppCache lru l2 → Type 0
  Good AppCache.noop = Unit
  Good (AppCache.memory c) = GoodMemory c
  Good (AppCache.tiered c) = IsSound f₁ f₂ c

  f : IsFaithful (Tiered.tiered_cache (memory_cache lru) l2) P (IsSound f₁ f₂)
  f = tiered_cache-IsFaithful f₁ f₂

  get-Good : (k : Text) (s : AppCache lru l2) → Good s → Good (get lru l2 k s).1
  unfolding get
  get-Good k AppCache.noop g = g
  get-Good k (AppCache.memory c) g = IsFaithful.get-Good f₁ k c g
  get-Good k (AppCache.tiered c) g = IsFaithful.get-Good f k c g

  put-Good :
      (k : Text) (e : CacheEntry) (s : AppCache lru l2) → P k e → Good s → Good (put lru l2 k e s)
  unfolding put
  put-Good k e AppCache.noop p g = g
  put-Good k e (AppCache.memory c) p g = IsFaithful.put-Good f₁ k e c p g
  put-Good k e (AppCache.tiered c) p g = IsFaithful.put-Good f k e c p g

  delete-Good : (k : Text) (s : AppCache lru l2) → Good s → Good (delete lru l2 k s).1
  unfolding delete
  delete-Good k AppCache.noop g = g
  delete-Good k (AppCache.memory c) g = IsFaithful.delete-Good f₁ k c g
  delete-Good k (AppCache.tiered c) g = IsFaithful.delete-Good f k c g

  clear-Good : (s : AppCache lru l2) → Good s → Good (clear lru l2 s)
  unfolding clear
  clear-Good AppCache.noop g = g
  clear-Good (AppCache.memory c) g = IsFaithful.clear-Good f₁ c g
  clear-Good (AppCache.tiered c) g = IsFaithful.clear-Good f c g

  get_sound :
      (k : Text) (e : CacheEntry) (s : AppCache lru l2)
      → Good s
      → (get lru l2 k s).0 ≡ some e
      → P k e
  unfolding get
  get_sound k e AppCache.noop g h = absurd cc
  get_sound k e (AppCache.memory c) g h = IsFaithful.get_sound f₁ k e c g h
  get_sound k e (AppCache.tiered c) g h = IsFaithful.get_sound f k e c g h

  pub Work-Good : (s t : AppCache lru l2) → Work lru l2 s t → Good s → Good t
  Work-Good _ _ (runs k e before after c same) g =
      Step-IsSound f₁ f₂ (Tiered.running k e before after c same) g
  Work-Good _ _ (loses k e before after c same) g =
      Step-IsSound f₁ f₂ (Tiered.losing k e before after c same) g

  -- Take a predicate of entries that Rust can hold, and a second tier that returns only what satisfies
  -- it as long as only that is put. Then whichever of the three caches is selected, it returns under a
  -- key only what satisfies the predicate there, as long as only that is put, through gets, puts,
  -- deletes and clears.
  pub app_cache-IsFaithful : IsFaithful (app_cache lru l2) P Good
  app_cache-IsFaithful = record {
    get-Good = get-Good;
    put-Good = put-Good;
    delete-Good = delete-Good;
    clear-Good = clear-Good;
    get_sound = get_sound;
  }
