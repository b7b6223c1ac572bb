-- ===== src/Cache/Memory/Contract.antt =====
-- The cache in memory keeps the promises of the trait, and its byte count never leaves the limit.
use imgx.Base.{
  ℕ, Text, Option, none, some, [], ◌∷◌, ◌-◌, ◌≤◌, ◌≡◌, ◌≢◌, ◌⊎◌, refl, sym, ◌∙◌, ap, arith, ltb,
  if◌then◌else◌, Option-cases, Bool-cases, inl, inr, text_eq,
}
use imgx.Cache.{CacheEntry, IsSmall, IsCache, is_some}
use imgx.Cache.Lru.{LruCache, lookup, remove, promote}
use imgx.Cache.Memory.{
  StoredEntry, stored_size, to_stored, from_stored, MemoryCache, get, pop_key, put, delete, clear,
  memory_cache,
}
use imgx.Cache.Memory.Eviction.{Entries, total, total-remove, fit, kept, total-kept}
use imgx.Cache.Memory.Laws.{
  IsValid, IsValid-Holds, Holds-IsValid, pop_key-Holds, after_put, put-Holds, lookup-remove_self,
  total-remove-le,
}

lookup-remove_other : (j k : Text) (l : Entries) → j ≢ k → lookup j (remove k l) ≡ lookup j l
unfolding lookup remove
lookup-remove_other j k [] h = refl
lookup-remove_other j k ((i, v) ∷ l) h =
    ground (arith, text_eq.agrees i k, text_eq.agrees i j, lookup-remove_other j k l h)

lookup-fit :
    (j : Text) (budget : ℕ) (l : Entries)
    → (lookup j (fit budget l) ≡ none) ⊎ (lookup j (fit budget l) ≡ lookup j l)
unfolding lookup fit
lookup-fit j budget [] = inl refl
lookup-fit j budget ((i, v) ∷ l) = ground (arith, lookup-fit j (budget - stored_size v) l)

lookup-kept :
    (j : Text) (max n : ℕ) (l : Entries)
    → (lookup j (kept max n l) ≡ none) ⊎ (lookup j (kept max n l) ≡ lookup j l)
unfolding kept lookup
lookup-kept j max n l = ground (arith, lookup-fit j (max - n) l)

lookup-promote : (j k : Text) (l : Entries) → lookup j (promote k l) ≡ lookup j l
unfolding lookup promote
lookup-promote j k l = ground (
  arith,
  text_eq.agrees k j,
  Option-cases (lookup k l),
  λ (h : j ≢ k). lookup-remove_other j k l h,
)

total-promote : (k : Text) (l : Entries) → total (promote k l) ≡ total l
unfolding promote total
total-promote k l = elim (Option-cases (lookup k l)) [
  | inl miss ↦ rw (miss, promote)
  | inr (e, hit) ↦ rw (hit, promote) (omega (arith, total-remove k l e hit))
]

lookup-after_put_self :
    (max : ℕ) (k : Text) (e : StoredEntry) (l : Entries)
    → lookup k (after_put max k e l) ≡ (if ltb max (stored_size e) then none else some e)
unfolding lookup
lookup-after_put_self max k e l = ground (arith, text_eq.agrees k k)

lookup-after_put_other :
    (j : Text) (max : ℕ) (k : Text) (e : StoredEntry) (l : Entries)
    → j ≢ k
    → (lookup j (after_put max k e l) ≡ none) ⊎ (lookup j (after_put max k e l) ≡ lookup j l)
unfolding lookup
lookup-after_put_other j max k e l h = ground (
  arith,
  text_eq.agrees k j,
  lookup-kept j max (stored_size e) (remove k l),
  lookup-remove_other j k l h,
)

total-after_put :
    (max : ℕ) (k : Text) (e : StoredEntry) (l : Entries) → total (after_put max k e l) ≤ max
unfolding total
total-after_put max k e l = ground (arith, total-kept max (stored_size e) (remove k l))

unfoldable pub entry_of : Option StoredEntry → Option CacheEntry
entry_of none = none
entry_of (some e) = some (from_stored e)

module _ (lru : LruCache StoredEntry) where
  abbrev pub peek : Text → MemoryCache lru → Option CacheEntry
  peek k c = entry_of (lookup k (lru.entries c.map))

  pub put-IsValid :
      (k : Text) (e : CacheEntry) (c : MemoryCache lru)
      → IsSmall e
      → IsValid lru c
      → IsValid lru (put lru k e c)
  put-IsValid k e c small v =
      Holds-IsValid lru (put lru k e c) (put-Holds lru k e c small v)
        (total-after_put c.max_size_bytes k (to_stored e) (lru.entries c.map)) v.in_usize

  pub get-IsValid : (k : Text) (c : MemoryCache lru) → IsValid lru c → IsValid lru (get lru k c).1
  unfolding get
  get-IsValid k c v = record {
    counted =
        v.counted ∙ sym (ap total (lru.entries-get k c.map) ∙ total-promote k (lru.entries c.map));
    bounded = v.bounded;
    in_usize = v.in_usize;
  }

  pub delete-IsValid :
      (k : Text) (c : MemoryCache lru) → IsValid lru c → IsValid lru (delete lru k c).1
  unfolding delete
  delete-IsValid k c v =
      Holds-IsValid lru (pop_key lru k c).1
        (pop_key-Holds lru k c (lru.entries c.map) (IsValid-Holds lru c v)
          (omega (arith, v.counted, v.bounded, v.in_usize)))
        (omega (arith, v.counted, v.bounded, total-remove-le k (lru.entries c.map))) v.in_usize

  entries-delete :
      (k : Text) (c : MemoryCache lru)
      → IsValid lru c
      → lru.entries (MemoryCache.map {lru = lru} (delete lru k c).1) ≡ remove k (lru.entries c.map)
  unfolding delete
  entries-delete k c v =
      (pop_key-Holds lru k c (lru.entries c.map) (IsValid-Holds lru c v)
        (omega (arith, v.counted, v.bounded, v.in_usize))).listed

  -- After `put` of an entry with a payload that Rust can hold, into a valid cache: an entry bigger
  -- than the limit leaves the cache empty; any other stands at the front, and behind it stands the
  -- longest part of the other entries, from the most recently used on, that fits beside it. The
  -- limit is unchanged, the count is the sum of the entries' sizes, and it is within the limit.
  pub put_entries :
      (k : Text) (e : CacheEntry) (c : MemoryCache lru)
      → IsSmall e
      → IsValid lru c
      → (lru.entries (MemoryCache.map {lru = lru} (put lru k e c))
          ≡ after_put c.max_size_bytes k (to_stored e) (lru.entries c.map))
        × (MemoryCache.max_size_bytes {lru = lru} (put lru k e c) ≡ c.max_size_bytes)
        × IsValid lru (put lru k e c)
  put_entries k e c small v =
      let h = put-Holds lru k e c small v in (h.listed, h.limit, put-IsValid k e c small v)

  peek-delete_self :
      (k : Text) (c : MemoryCache lru) → IsValid lru c → peek k (delete lru k c).1 ≡ none
  unfolding entry_of
  peek-delete_self k c v =
      ap (λ l. entry_of (lookup k l)) (entries-delete k c v)
      ∙ ap entry_of (lookup-remove_self k _ (lru.entries-IsDistinct c.map))

  peek-delete_other :
      (j k : Text) (c : MemoryCache lru)
      → IsValid lru c
      → j ≢ k
      → peek j (delete lru k c).1 ≡ peek j c
  peek-delete_other j k c v h =
      ap (λ l. entry_of (lookup j l)) (entries-delete k c v)
      ∙ ap entry_of (lookup-remove_other j k _ h)

  delete_value : (k : Text) (c : MemoryCache lru) → (delete lru k c).0 ≡ is_some (peek k c)
  unfolding delete pop_key entry_of
  delete_value k c = ground (arith, lru.pop_value k c.map)

  get_value : (k : Text) (c : MemoryCache lru) → (get lru k c).0 ≡ peek k c
  unfolding get entry_of
  get_value k c = ground (arith, lru.get_value k c.map)

  peek-get : (j k : Text) (c : MemoryCache lru) → peek j (get lru k c).1 ≡ peek j c
  unfolding get
  peek-get j k c =
      ap (λ l. entry_of (lookup j l)) (lru.entries-get k c.map)
      ∙ ap entry_of (lookup-promote j k (lru.entries c.map))

  clear-IsValid : (c : MemoryCache lru) → IsValid lru c → IsValid lru (clear lru c)
  unfolding clear total
  clear-IsValid c v = record {
    counted = sym (ap total (lru.entries-clear c.map));
    bounded = omega arith;
    in_usize = v.in_usize;
  }

  peek-clear : (j : Text) (c : MemoryCache lru) → peek j (clear lru c) ≡ none
  unfolding clear entry_of lookup
  peek-clear j c = ap (λ l. entry_of (lookup j l)) (lru.entries-clear c.map)

  -- What is read after a `put` under the same key: the new entry, unless it exceeds the limit.
  pub get-put :
      (k : Text) (e : CacheEntry) (c : MemoryCache lru)
      → IsSmall e
      → IsValid lru c
      → (get lru k (put lru k e c)).0
        ≡ (if ltb c.max_size_bytes (stored_size (to_stored e)) then none else some e)
  unfolding entry_of
  get-put k e c small v =
      get_value k (put lru k e c)
      ∙ ap (λ l. entry_of (lookup k l)) (put-Holds lru k e c small v).listed
      ∙ ap entry_of (lookup-after_put_self c.max_size_bytes k (to_stored e) (lru.entries c.map))
      ∙ elim (Bool-cases (ltb c.max_size_bytes (stored_size (to_stored e)))) [
        | inl over ↦ rw over refl
        | inr room ↦ rw room refl
      ]

  peek-put_self :
      (k : Text) (e : CacheEntry) (c : MemoryCache lru)
      → IsSmall e
      → IsValid lru c
      → (peek k (put lru k e c) ≡ none) ⊎ (peek k (put lru k e c) ≡ some e)
  peek-put_self k e c small v =
      let e' = sym (get_value k (put lru k e c)) ∙ get-put k e c small v in
      elim (Bool-cases (ltb c.max_size_bytes (stored_size (to_stored e)))) [
        | inl over ↦ inl (e' ∙ ap (λ b. if b then none else some e) over)
        | inr room ↦ inr (e' ∙ ap (λ b. if b then none else some e) room)
      ]

  peek-put_other :
      (j k : Text) (e : CacheEntry) (c : MemoryCache lru)
      → IsSmall e
      → IsValid lru c
      → j ≢ k
      → (peek j (put lru k e c) ≡ none) ⊎ (peek j (put lru k e c) ≡ peek j c)
  unfolding entry_of
  peek-put_other j k e c small v h =
      let l = ap (λ l. entry_of (lookup j l)) (put-Holds lru k e c small v).listed in
      elim (lookup-after_put_other j c.max_size_bytes k (to_stored e) (lru.entries c.map) h) [
        | inl gone ↦ inl (l ∙ ap entry_of gone)
        | inr same ↦ inr (l ∙ ap entry_of same)
      ]

  -- The cache in memory, with any map that works as `LruCache` is documented to, keeps all the
  -- promises of `IsCache`: what `get` returns is what `peek` sees, no method changes another key
  -- except that `put` may forget it, and the invariant is kept.
  pub memory_cache-IsCache : IsCache (memory_cache lru) (IsValid lru) peek
  memory_cache-IsCache = record {
    get-Valid = get-IsValid;
    put-Valid = put-IsValid;
    delete-Valid = delete-IsValid;
    clear-Valid = clear-IsValid;
    peek-clear = λ j c _. inl (peek-clear j c);
    get_value = λ k c _. get_value k c;
    peek-get = λ j k c _. peek-get j k c;
    peek-put_self = peek-put_self;
    peek-put_other = peek-put_other;
    delete_value = λ k c _. delete_value k c;
    peek-delete_self = peek-delete_self;
    peek-delete_other = peek-delete_other;
  }
