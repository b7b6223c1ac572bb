-- ===== src/Cache/Tiered.antt =====
-- crates/imgx/src/cache/tiered.rs: a fast cache before a persistent one. A write to the second is a
-- task of its own: the state keeps the tasks that were spawned and have not run. A method is one
-- step; the tasks run between the steps, in any order, and a task may be lost.
pub mod Soundness
use imgx.Base.{◌≡◌, ℕ, Text, Bool, ◌||◌, Option, none, some, List, [], ◌∷◌, ◌++◌}
use imgx.Cache.{CacheEntry, Cache}

module _ {S₁ S₂ : Type 0} (l1 : Cache S₁) (l2 : Cache S₂) where
  pub record TieredCache : Type 0 where
    pub first : S₁
    pub second : S₂
    pub tasks : List (Text × CacheEntry)

  unfoldable pub new : S₁ → S₂ → TieredCache
  new s₁ s₂ = record { first = s₁; second = s₂; tasks = [] }

  unfoldable pub put_l2_async : Text → CacheEntry → TieredCache → TieredCache
  put_l2_async key entry t = record t { tasks = t.tasks ++ (key, entry) ∷ [] }

  -- the body of a spawned task
  unfoldable pub run_task : Text → CacheEntry → TieredCache → TieredCache
  run_task key entry t = record t { second = l2.put key entry t.second }

  -- an L1 miss: check L2, promote to L1 on a hit
  unfoldable pub get_l2 : Text → TieredCache → Option CacheEntry × TieredCache
  get_l2 key t =
      let (found, s₂) = l2.get key t.second in
      elim found [
        | some entry ↦ (some entry, record t { first = l1.put key entry t.first; second = s₂ })
        | none ↦ (none, record t { second = s₂ })
      ]

  unfoldable pub get : Text → TieredCache → Option CacheEntry × TieredCache
  get key t =
      let (found, s₁) = l1.get key t.first in
      elim found [
        | some entry ↦ (some entry, record t { first = s₁ })
        | none ↦ get_l2 key (record t { first = s₁ })
      ]

  unfoldable pub put : Text → CacheEntry → TieredCache → TieredCache
  put key entry t = put_l2_async key entry (record t { first = l1.put key entry t.first })

  unfoldable pub delete : Text → TieredCache → Bool × TieredCache
  delete key t =
      let (d1, s₁) = l1.delete key t.first in
      let (d2, s₂) = l2.delete key t.second in (d1 || d2, record t { first = s₁; second = s₂ })

  unfoldable pub clear : TieredCache → TieredCache
  clear t = record t { first = l1.clear t.first; second = l2.clear t.second }

  unfoldable pub size : TieredCache → ℕ
  size t = l1.size t.first

  abbrev pub tiered_cache : Cache TieredCache
  tiered_cache = record { get = get; put = put; delete = delete; clear = clear; size = size }

  -- What can happen to the cache, if a client puts only what satisfies `P`.
  pub data Step (P : Text → CacheEntry → Type 0) : TieredCache → TieredCache → Type 0 where
    getting : (k : Text) (t : TieredCache) → Step P t (get k t).1
    putting : (k : Text) (e : CacheEntry) (t : TieredCache) → P k e → Step P t (put k e t)
    deleting : (k : Text) (t : TieredCache) → Step P t (delete k t).1
    clearing : (t : TieredCache) → Step P t (clear t)
    running :
        (k : Text) (e : CacheEntry) (before after : List (Text × CacheEntry)) (t : TieredCache)
        → t.tasks ≡ before ++ (k, e) ∷ after
        → Step P t (run_task k e (record t { tasks = before ++ after }))
    losing :
        (k : Text) (e : CacheEntry) (before after : List (Text × CacheEntry)) (t : TieredCache)
        → t.tasks ≡ before ++ (k, e) ∷ after
        → Step P t (record t { tasks = before ++ after })

  pub data Reach (P : Text → CacheEntry → Type 0) (t : TieredCache) : TieredCache → Type 0 where
    start : Reach P t t
    next : {u v : TieredCache} → Reach P t u → Step P u v → Reach P t v
