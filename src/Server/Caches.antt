-- ===== src/Server/Caches.antt =====
-- crates/imgx/src/server.rs: the cache and the origin that the configuration selects, and the state at
-- the start. The second tier is any cache: the server takes the one of cache/r2.rs.
pub mod Faithful
use imgx.Base.{
  ℕ, List, ◌∷◌, ◌++◌, ◌≡◌, Text, Bool, true, false, Option, none, some, if◌then◌else◌, Result, ok,
  err, ◌>>=◌,
}
use imgx.Cache.{CacheEntry, Cache}
use imgx.Cache.Lru.{LruCache}
use imgx.Cache.Memory
use imgx.Cache.Memory.{StoredEntry, MemoryCache, memory_cache}
use imgx.Cache.Noop.{noop_cache}
use imgx.Cache.Tiered
use imgx.Cache.Tiered.{TieredCache, tiered_cache}
use imgx.Config.{Config, OriginType}
use imgx.Origin.R2.{S3Error}
use imgx.Server.{AppOrigin}
use imgx.Server.Handler.{AppState}

abbrev pub is_r2 : OriginType → Bool
is_r2 OriginType.r2 = true
is_r2 OriginType.http = false

module _ (lru : LruCache StoredEntry) {S₂ : Type 0} (l2 : Cache S₂) where
  pub data AppCache : Type 0 where
    noop : AppCache
    memory : MemoryCache lru → AppCache
    tiered : TieredCache (memory_cache lru) l2 → AppCache

  unfoldable pub get : Text → AppCache → Option CacheEntry × AppCache
  unfolding Memory.get Tiered.get
  get key noop = (none, noop)
  get key (memory c) = let (found, c') = Memory.get lru key c in (found, memory c')
  get key (tiered c) =
      let (found, c') = Tiered.get (memory_cache lru) l2 key c in (found, tiered c')

  unfoldable pub put : Text → CacheEntry → AppCache → AppCache
  unfolding Memory.put Tiered.put
  put key entry noop = noop
  put key entry (memory c) = memory (Memory.put lru key entry c)
  put key entry (tiered c) = tiered (Tiered.put (memory_cache lru) l2 key entry c)

  unfoldable pub delete : Text → AppCache → Bool × AppCache
  unfolding Memory.delete Tiered.delete
  delete key noop = (false, noop)
  delete key (memory c) = let (found, c') = Memory.delete lru key c in (found, memory c')
  delete key (tiered c) =
      let (found, c') = Tiered.delete (memory_cache lru) l2 key c in (found, tiered c')

  unfoldable pub clear : AppCache → AppCache
  unfolding Memory.clear Tiered.clear
  clear noop = noop
  clear (memory c) = memory (Memory.clear lru c)
  clear (tiered c) = tiered (Tiered.clear (memory_cache lru) l2 c)

  unfoldable pub size : AppCache → ℕ
  unfolding Memory.size Tiered.size
  size noop = 0
  size (memory c) = Memory.size lru c
  size (tiered c) = Tiered.size (memory_cache lru) l2 c

  abbrev pub app_cache : Cache AppCache
  app_cache = record { get = get; put = put; delete = delete; clear = clear; size = size }

  -- A write that the tiered cache has spawned runs, or is lost.
  pub data Work : AppCache → AppCache → Type 0 where
    runs :
        (k : Text) (e : CacheEntry) (before after : List (Text × CacheEntry))
        (c : TieredCache (memory_cache lru) l2)
        → c.tasks ≡ before ++ (k, e) ∷ after
        → Work (tiered c) (
            tiered
              (Tiered.run_task (memory_cache lru) l2 k e (record c { tasks = before ++ after })))
    loses :
        (k : Text) (e : CacheEntry) (before after : List (Text × CacheEntry))
        (c : TieredCache (memory_cache lru) l2)
        → c.tasks ≡ before ++ (k, e) ∷ after
        → Work (tiered c) (tiered (record c { tasks = before ++ after }))

  -- `connect endpoint bucket access_key_id secret_access_key` is `S3Client::new`, whose error is a
  -- panic at the start (`expect`).
  module _ (connect : Text → Text → Text → Text → Result S3Error S₂) where
    unfoldable pub new_cache : Config → Result S3Error AppCache
    unfolding Memory.new Tiered.new
    new_cache config =
        if config.cache.enabled
        then (if is_r2 config.origin.origin_type
            then (do
              variants ←
                  connect config.r2.endpoint config.r2.bucket_variants config.r2.access_key_id
                    config.r2.secret_access_key
              ok (
                  tiered (
                    Tiered.new (memory_cache lru) l2 (Memory.new lru config.cache.max_size_bytes)
                      variants)))
            else ok (memory (Memory.new lru config.cache.max_size_bytes)))
        else ok noop

    unfoldable pub new_origin : Config → Result S3Error AppOrigin
    new_origin config =
        if is_r2 config.origin.origin_type
        then (do
          originals ←
              connect config.r2.endpoint config.r2.bucket_originals config.r2.access_key_id
                config.r2.secret_access_key
          ok AppOrigin.r2)
        else ok (AppOrigin.http config.origin.base_url)

    -- `AppState::new`, with the number of processors, if it is known
    unfoldable pub new_state : Option ℕ → Config → Result S3Error (AppState AppCache × AppOrigin)
    unfolding new_cache new_origin
    new_state parallelism config = do
      cache ← new_cache config
      origin ← new_origin config
      let permits : ℕ = elim parallelism [ none ↦ 4 | some n ↦ n ]
      ok (
        record {
          cache = cache;
          permits = permits;
          requests_total = 0;
          cache_hits_total = 0;
          cache_misses_total = 0;
        },
        origin,
      )
