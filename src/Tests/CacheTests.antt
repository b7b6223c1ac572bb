-- ===== src/Tests/CacheTests.antt =====
-- The caches, over the list as the map.
use imgx.Base.{
  ap, sym, ◌∙◌, length, contains, starts_with, text_eq, Text, bytes, none, some, [], ◌∷◌, ◌≡◌, refl,
  arith, pos, add_usize, sub_usize, text_beq,
}
use imgx.Cache.{Cache, CacheEntry, IsCache, is_some}
use imgx.Cache.Lru.{lookup, remove, promote}
use imgx.Cache.Memory
use imgx.Cache.Memory.{StoredEntry, stored_size, to_stored, MemoryCache, memory_cache}
use imgx.Cache.Memory.Eviction.{total, fit, kept}
use imgx.Cache.Memory.Laws.{IsValid}
use imgx.Cache.Memory.Contract.{peek, put_entries, memory_cache-IsCache, entry_of}
use imgx.Cache.Tiered
use imgx.Cache.Tiered.{TieredCache, Reach, Step, putting, running, deleting, start, next}
use imgx.Cache.Tiered.Soundness.{IsSound, Reach-get}
use imgx.Cache.Faithful.{IsCache-IsFaithful}
use imgx.Cache.R2.{r2_cache, sanitize_key, sanitize_loop, to_entry}
use imgx.Cache.R2.Faithful.{IsClosed, r2_cache-IsFaithful}
use imgx.Tests.Bucket.{Objects, no_objects, client, honest, nothing_held}
use imgx.Tests.ListLru.{list_lru}

abbrev lru : imgx.Cache.Lru.LruCache StoredEntry
lru = list_lru StoredEntry

abbrev entry : Text → CacheEntry
entry s = record { data_bytes = s; content_type = bytes "t"; created_at = pos 1 }

memory : Unit {0}
unfolding Memory.new Memory.get Memory.put Memory.delete Memory.pop_key Memory.evict_one
    Memory.evict Memory.store stored_size add_usize sub_usize lookup remove promote text_beq
memory = tt

-- the test `memory_cache_eviction_evicts_least_recently_used`
abbrev three : MemoryCache lru
three = Memory.put lru (bytes "c") (entry (bytes "ccccc")) (
    Memory.put lru (bytes "b") (entry (bytes "bbbbb"))
      (Memory.put lru (bytes "a") (entry (bytes "aaaaa")) (Memory.new lru 30)))

abbrev four : MemoryCache lru
four =
    Memory.put lru (bytes "d") (entry (bytes "ddddddddddddddd"))
      (Memory.get lru (bytes "a") three).1

evicts_least_recently_used :
    ((Memory.get lru (bytes "b") four).0 ≡ none)
    × ((Memory.get lru (bytes "a") four).0 ≡ some (entry (bytes "aaaaa")))
    × ((Memory.get lru (bytes "d") four).0 ≡ some (entry (bytes "ddddddddddddddd")))
unfolding memory
evicts_least_recently_used = (refl, refl, refl)

three-IsValid : IsValid lru three
unfolding memory total
three-IsValid = record { counted = refl; bounded = omega arith; in_usize = omega arith }

put_entries_example :
    (lru.entries four.map
      ≡ (bytes "d", to_stored (entry (bytes "ddddddddddddddd")))
        ∷ (bytes "a", to_stored (entry (bytes "aaaaa")))
        ∷ (bytes "c", to_stored (entry (bytes "ccccc")))
        ∷ [])
    × (four.max_size_bytes ≡ 30)
    × IsValid lru four
unfolding memory total fit kept
put_entries_example =
    put_entries lru (bytes "d") (entry (bytes "ddddddddddddddd"))
      (Memory.get lru (bytes "a") three).1 (omega arith)
      (record { counted = refl; bounded = omega arith; in_usize = omega arith })

memory_cache-IsCache_example : IsCache (memory_cache lru) (IsValid lru) (peek lru)
memory_cache-IsCache_example = memory_cache-IsCache lru

abbrev tiers : TieredCache (memory_cache lru) (memory_cache lru)
tiers = Tiered.new (memory_cache lru) (memory_cache lru) (Memory.new lru 100) (Memory.new lru 100)

abbrev contract : IsCache (memory_cache lru) (IsValid lru) (peek lru)
contract = memory_cache-IsCache lru

tiered : Unit {0}
unfolding memory Tiered.new Tiered.get Tiered.get_l2 Tiered.put Tiered.put_l2_async Tiered.run_task
    Tiered.delete entry_of
tiered = tt

new-IsValid : IsValid lru (Memory.new lru 100)
unfolding memory total
new-IsValid = record { counted = refl; bounded = omega arith; in_usize = omega arith }

-- What may be cached under a key that is sanitised to `a`.
abbrev IsA : Text → CacheEntry → Type 0
IsA k e =
    (sanitize_key k ≡ some (bytes "a")) × (e.data_bytes ≡ bytes "x") × (e.content_type ≡ bytes "t")

IsA-small : (k : Text) (e : CacheEntry) → IsA k e → imgx.Cache.IsSmall e
IsA-small k e (p, q, r) = omega (arith, ap length q, ap length r)

IsA-IsClosed : IsClosed IsA
unfolding to_entry text_beq
IsA-IsClosed k k' key e now h h' (p, q, r) = (h' ∙ sym h ∙ p, q, rw r refl)

-- the memory cache before the cache in an object store
abbrev store : Cache Objects
store = r2_cache client (pos 5)

abbrev both : TieredCache (memory_cache lru) store
both = Tiered.new (memory_cache lru) store (Memory.new lru 100) no_objects

both-IsSound :
    IsSound
      (IsCache-IsFaithful contract IsA IsA-small)
      (r2_cache-IsFaithful client honest (pos 5) IsA-IsClosed)
      both
unfolding tiered
both-IsSound = record {
  good₁ = (new-IsValid, λ k e p. absurd cc);
  good₂ = λ k key body type read named held. absurd (nothing_held key body type held);
  queued = tt;
}

named_a : sanitize_key (bytes "a") ≡ some (bytes "a")
unfolding sanitize_key sanitize_loop contains starts_with
named_a = refl

-- a put, and a run of the write that it spawned
abbrev after_a : TieredCache (memory_cache lru) store
after_a =
    Tiered.run_task (memory_cache lru) store (bytes "a") (entry (bytes "x"))
      (record both { first = Memory.put lru (bytes "a") (entry (bytes "x")) both.first })

Reach-get_example : IsA (bytes "a") (entry (bytes "x"))
unfolding tiered
Reach-get_example =
    Reach-get (IsCache-IsFaithful contract IsA IsA-small)
      (r2_cache-IsFaithful client honest (pos 5) IsA-IsClosed) {u = after_a} (bytes "a")
      both-IsSound
      (next (next start (putting (bytes "a") (entry (bytes "x")) both (named_a, refl, refl))) (
        running (bytes "a") (entry (bytes "x")) [] []
          (Tiered.put (memory_cache lru) store (bytes "a") (entry (bytes "x")) both) refl))
      refl

-- the tiers after a put of `a` and a delete of it
abbrev deleted : TieredCache (memory_cache lru) (memory_cache lru)
deleted =
    (Tiered.delete (memory_cache lru) (memory_cache lru) (bytes "a")
      (Tiered.put (memory_cache lru) (memory_cache lru) (bytes "a") (entry (bytes "x")) tiers)).1
