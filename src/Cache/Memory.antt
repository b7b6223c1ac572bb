-- ===== src/Cache/Memory.antt =====
-- crates/imgx/src/cache/memory.rs: the cache in memory, bounded by the bytes of its payloads. The
-- lock is held for the whole of each method, so a method is one step on the locked state.
pub mod Eviction
pub mod Laws
pub mod Contract
use imgx.Base.{
  ℕ, zero, suc, Text, Bool, true, false, not, ◌&&◌, Option, none, some, List, [], ◌∷◌, ◌+◌, ℤ, ltb,
  if◌then◌else◌, length, add_usize, sub_usize,
}
use imgx.Cache.{CacheEntry, Cache}
use imgx.Cache.Lru.{LruCache}

pub record StoredEntry : Type 0 where
  pub data_bytes : Text
  pub content_type : Text
  pub created_at : ℤ

unfoldable pub stored_size : StoredEntry → ℕ
stored_size e = add_usize (length e.data_bytes) (length e.content_type)

abbrev pub to_stored : CacheEntry → StoredEntry
to_stored e = record {
  data_bytes = e.data_bytes;
  content_type = e.content_type;
  created_at = e.created_at;
}

abbrev pub from_stored : StoredEntry → CacheEntry
from_stored e = record {
  data_bytes = e.data_bytes;
  content_type = e.content_type;
  created_at = e.created_at;
}

module _ (lru : LruCache StoredEntry) where
  pub record MemoryCache : Type 0 where
    pub max_size_bytes : ℕ
    pub map : LruCache.Map lru
    pub current_size_bytes : ℕ

  unfoldable pub new : ℕ → MemoryCache
  new max = record { max_size_bytes = max; map = lru.unbounded; current_size_bytes = 0 }

  unfoldable pub get : Text → MemoryCache → Option CacheEntry × MemoryCache
  get key c =
      let (stored, map') = lru.get key c.map in
      (elim stored [ none ↦ none | some e ↦ some (from_stored e) ], record c { map = map' })

  -- `if let Some(old) = inner.map.pop(key) { inner.current_size_bytes -= old.size(); }`
  unfoldable pub pop_key : Text → MemoryCache → Option StoredEntry × MemoryCache
  pop_key key c =
      let (old, map') = lru.pop key c.map in
      (
        old,
        elim old [
          | none ↦ record c { map = map' }
          | some e ↦ record c {
            map = map';
            current_size_bytes = sub_usize c.current_size_bytes (stored_size e);
          }
        ],
      )

  -- one round of the loop in `put`
  unfoldable pub evict_one : MemoryCache → MemoryCache
  evict_one c =
      let (old, map') = lru.pop_lru c.map in
      elim old [
        | none ↦ record c { map = map' }
        | some e ↦ record c {
          map = map';
          current_size_bytes = sub_usize c.current_size_bytes (stored_size e.1);
        }
      ]

  -- the loop in `put`, with fuel for its rounds
  unfoldable pub evict : ℕ → ℕ → MemoryCache → MemoryCache
  evict zero new_size c = c
  evict (suc f) new_size c =
      let rest = evict f new_size (evict_one c) in
      if ltb c.max_size_bytes (add_usize c.current_size_bytes new_size) && not (lru.is_empty c.map)
      then rest
      else c

  -- the end of `put`, from the test on an entry that is bigger than the whole cache
  unfoldable pub store : Text → CacheEntry → ℕ → MemoryCache → MemoryCache
  store key entry new_size c = if ltb c.max_size_bytes new_size then c else record c {
    map = lru.put key (to_stored entry) c.map;
    current_size_bytes = add_usize c.current_size_bytes new_size;
  }

  unfoldable pub put : Text → CacheEntry → MemoryCache → MemoryCache
  put key entry c =
      let new_size : ℕ = add_usize (length entry.data_bytes) (length entry.content_type) in
      let popped : MemoryCache = (pop_key key c).1 in
      store key entry new_size (evict (lru.len popped.map) new_size popped)

  unfoldable pub delete : Text → MemoryCache → Bool × MemoryCache
  delete key c = let (old, c') = pop_key key c in (elim old [ none ↦ false | some _ ↦ true ], c')

  unfoldable pub clear : MemoryCache → MemoryCache
  clear c = record c { map = lru.clear c.map; current_size_bytes = 0 }

  unfoldable pub size : MemoryCache → ℕ
  size c = lru.len c.map

  abbrev pub memory_cache : Cache MemoryCache
  memory_cache = record { get = get; put = put; delete = delete; clear = clear; size = size }
