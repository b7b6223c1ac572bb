-- ===== src/Cache/Memory/Laws.antt =====
-- What `put`, `get` and `delete` of the cache in memory do to its entries and to its byte count.
use imgx.Base.{
  ℕ, zero, suc, Text, not, ◌&&◌, none, [], ◌∷◌, ◌+◌, ◌-◌, ◌≤◌, ◌<◌, ◌≡◌, refl, sym, ◌∙◌, ap, arith,
  ltb, if◌then◌else◌, length, usize_mod, add_usize, add_usize_exact, sub_usize_exact, Option-cases,
  Bool-cases, inl, ◌^◌, text_eq, inr, ltb→lt,
}
use imgx.Cache.{CacheEntry, IsSmall}
use imgx.Cache.Lru.{
  LruCache, lookup, remove, last_of, init_of, last?, without_last, is_nil, IsDistinct,
}
use imgx.Cache.Memory.{
  StoredEntry, stored_size, to_stored, MemoryCache, pop_key, evict_one, evict, store, put,
}
use imgx.Cache.Memory.Eviction.{
  Entries, total, fit, total-last, total-remove, total-remove-none, kept, kept_all, kept_last,
  kept-nil, total-kept, kept_over,
}

length-init_of : (x : Text × StoredEntry) (l : Entries) → length (init_of x l) ≡ length l
length-init_of x [] = refl
length-init_of x (y ∷ l) = ap suc (length-init_of y l)

pub total-remove-le : (k : Text) (l : Entries) → total (remove k l) ≤ total l
total-remove-le k l = elim (Option-cases (lookup k l)) [
  | inl miss ↦ omega (arith, ap total (total-remove-none k l miss))
  | inr (e, hit) ↦ omega (arith, total-remove k l e hit)
]

pub lookup-remove_self : (k : Text) (l : Entries) → IsDistinct l → lookup k (remove k l) ≡ none
unfolding lookup remove
lookup-remove_self k [] d = refl
lookup-remove_self k ((j, v) ∷ l) (d, ds) =
    ground (arith, text_eq.agrees j k, lookup-remove_self k l ds)

lookup-fit_none :
    (k : Text) (budget : ℕ) (l : Entries) → lookup k l ≡ none → lookup k (fit budget l) ≡ none
unfolding lookup fit
lookup-fit_none k budget [] h = refl
lookup-fit_none k budget ((j, v) ∷ l) h =
    ground (arith, lookup-fit_none k (budget - stored_size v) l)

lookup-kept-none :
    (k : Text) (max new_size : ℕ) (l : Entries)
    → lookup k l ≡ none
    → lookup k (kept max new_size l) ≡ none
unfolding kept lookup
lookup-kept-none k max new_size l h = ground (arith, lookup-fit_none k (max - new_size) l h)

stored_size-lt : (e : CacheEntry) → IsSmall e → stored_size (to_stored e) < 2 ^ 63
unfolding stored_size
stored_size-lt e h =
    rw (add_usize_exact (length e.data_bytes) (length e.content_type) (omega arith)) h

-- What `put` leaves: the new entry at the front and, behind it, as many of the other entries as
-- fit, the most recently used first; nothing at all if the new entry exceeds the limit.
abbrev pub after_put : ℕ → Text → StoredEntry → Entries → Entries
after_put max k e l =
    if ltb max (stored_size e) then [] else (k, e) ∷ kept max (stored_size e) (remove k l)

module _ (lru : LruCache StoredEntry) where
  -- The state stands for the given limit and entries, and its count of bytes is right.
  pub record Holds (c : MemoryCache lru) (max : ℕ) (l : Entries) : Type 0 where
    pub limit : c.max_size_bytes ≡ max
    pub listed : lru.entries c.map ≡ l
    pub counted : c.current_size_bytes ≡ total l

  -- The count of bytes is the sum over the entries, and within the limit, which is a `usize`.
  pub record IsValid (c : MemoryCache lru) : Type 0 where
    pub counted : c.current_size_bytes ≡ total (lru.entries c.map)
    pub bounded : c.current_size_bytes ≤ c.max_size_bytes
    pub in_usize : c.max_size_bytes < 2 ^ 63

  pub pop_key-Holds :
      (k : Text) (c : MemoryCache lru) {max : ℕ} (l : Entries)
      → Holds c max l
      → total l < usize_mod
      → Holds (pop_key lru k c).1 max (remove k l)
  unfolding pop_key
  pop_key-Holds k c {max} l h small = elim (Option-cases (lookup k l)) [
    | inl miss ↦
        let e = lru.pop_value k c.map ∙ ap (lookup k) h.listed ∙ miss in
        rw (e, pop_key)
          (record {
            limit = h.limit;
            listed = lru.entries-pop k c.map ∙ ap (remove k) h.listed;
            counted = h.counted ∙ sym (ap total (total-remove-none k l miss));
          })
    | inr (v, hit) ↦
        let e = lru.pop_value k c.map ∙ ap (lookup k) h.listed ∙ hit in
        let t = total-remove k l v hit in
        let s = sub_usize_exact (total l) (stored_size v) (omega arith) small in
        rw (e, pop_key)
          (record {
            limit = h.limit;
            listed = lru.entries-pop k c.map ∙ ap (remove k) h.listed;
            counted = rw h.counted (s ∙ omega arith);
          })
  ]

  evict_one-Holds :
      (c : MemoryCache lru) {max : ℕ} (x : Text × StoredEntry) (l : Entries)
      → Holds c max (x ∷ l)
      → total (x ∷ l) < usize_mod
      → Holds (evict_one lru c) max (init_of x l)
  unfolding evict_one
  evict_one-Holds c x l h small =
      let e = lru.pop_lru_value c.map ∙ ap last? h.listed in
      let t = total-last x l in
      let s = sub_usize_exact (total (x ∷ l)) (stored_size (last_of x l).1) (omega arith) small in
      rw (e, evict_one)
        (record {
          limit = h.limit;
          listed = lru.entries-pop_lru c.map ∙ ap without_last h.listed;
          counted = rw h.counted (s ∙ omega arith);
        })

  -- The test of the loop, on what the state stands for.
  evict_test :
      (new_size : ℕ) (c : MemoryCache lru) {max : ℕ} (l : Entries)
      → Holds c max l
      → total l + new_size < usize_mod
      → (ltb c.max_size_bytes (add_usize c.current_size_bytes new_size) && not (lru.is_empty c.map))
        ≡ (ltb max (total l + new_size) && not (is_nil l))
  evict_test new_size c l h small =
      let sum = add_usize_exact (total l) new_size small in
      let nil = lru.is_empty-entries c.map ∙ ap is_nil h.listed in
      rw (h.limit, h.counted, sum, nil) refl

  -- The loop stops with what `kept` describes, if the fuel is the number of the entries.
  evict-Holds :
      (f new_size : ℕ) (c : MemoryCache lru) (max : ℕ) (l : Entries)
      → Holds c max l
      → length l ≤ f
      → total l ≤ max
      → max + new_size < usize_mod
      → Holds (evict lru f new_size c) max (kept max new_size l)
  unfolding evict
  evict-Holds zero new_size c max [] h enough bounded small = rw kept-nil h
  evict-Holds zero new_size c max (x ∷ l) h enough bounded small = absurd (omega arith)
  evict-Holds (suc f) new_size c max [] h enough bounded small =
      rw (evict_test new_size c [] h (omega arith), kept-nil)
        (elim (Bool-cases (ltb max (total [] + new_size))) [ inl e ↦ rw e h | inr e ↦ rw e h ])
  evict-Holds (suc f) new_size c max (x ∷ l) h enough bounded small =
      rw (evict_test new_size c (x ∷ l) h (omega arith))
        (elim (Bool-cases (ltb max (total (x ∷ l) + new_size))) [
          | inl over ↦
              rw (over, kept_last max new_size (x ∷ l) (ltb→lt _ _ over))
                (evict-Holds f new_size (evict_one lru c) max (init_of x l)
                  (evict_one-Holds c x l h (omega arith)) (omega (arith, length-init_of x l))
                  (omega (arith, total-last x l)) small)
          | inr room ↦ rw (room, kept_all max new_size (x ∷ l) (ground arith)) h
        ])

  -- The count and the limit come out of `Holds`.
  pub IsValid-Holds :
      (c : MemoryCache lru) → IsValid c → Holds c c.max_size_bytes (lru.entries c.map)
  IsValid-Holds c v = record { limit = refl; listed = refl; counted = v.counted }

  pub Holds-IsValid :
      (c : MemoryCache lru) {max : ℕ} {l : Entries}
      → Holds c max l
      → total l ≤ max
      → max < 2 ^ 63
      → IsValid c
  Holds-IsValid c h bounded small = record {
    counted = h.counted ∙ sym (ap total h.listed);
    bounded = rw (h.counted, h.limit) bounded;
    in_usize = rw h.limit small;
  }

  store-Holds :
      (k : Text) (e : CacheEntry) (c : MemoryCache lru) {max : ℕ} (l : Entries)
      → Holds c max (kept max (stored_size (to_stored e)) (remove k l))
      → IsDistinct l
      → max < 2 ^ 63
      → Holds (store lru k e (stored_size (to_stored e)) c) max (after_put max k (to_stored e) l)
  unfolding store total
  store-Holds k e c {max} l h d small =
      let n = stored_size (to_stored e) in
      let same : ltb c.max_size_bytes n ≡ ltb max n = ap (λ m. ltb m n) h.limit in
      (elim (Bool-cases (ltb max n)) [
        | inl over ↦ rw (same ∙ over, over, ← kept_over max n (remove k l) (ltb→lt _ _ over)) h
        | inr room ↦
            let fits = total-kept max n (remove k l) (ground arith) in
            let absent = lookup-kept-none k max n (remove k l) (lookup-remove_self k l d) in
            let sum = add_usize_exact (total (kept max n (remove k l))) n (omega arith) in
            rw (same ∙ room, room)
              (record {
                limit = h.limit;
                listed =
                    lru.entries-put k (to_stored e) c.map
                    ∙ ap (λ m. (k, to_stored e) ∷ m)
                        (ap (remove k) h.listed ∙ total-remove-none k _ absent);
                counted = rw h.counted (sum ∙ omega arith);
              })
      ])

  pub put-Holds :
      (k : Text) (e : CacheEntry) (c : MemoryCache lru)
      → IsSmall e
      → IsValid c
      → Holds
          (put lru k e c)
          c.max_size_bytes
          (after_put c.max_size_bytes k (to_stored e) (lru.entries c.map))
  unfolding put stored_size
  put-Holds k e c small v =
      let l = lru.entries c.map in
      let max = c.max_size_bytes in
      let popped : MemoryCache lru = (pop_key lru k c).1 in
      let n = stored_size (to_stored e) in
      let within : total l ≤ max = omega (arith, v.counted, v.bounded) in
      let h = pop_key-Holds k c l (IsValid-Holds c v) (omega (arith, v.in_usize)) in
      let evicted =
        evict-Holds (lru.len popped.map) n popped max (remove k l) h
          (omega (arith, lru.len-entries popped.map, ap length h.listed))
          (omega (arith, total-remove-le k l))
          (omega (arith, v.in_usize, stored_size-lt e small)) in
      store-Holds k e (evict lru (lru.len popped.map) n popped) l evicted
        (lru.entries-IsDistinct c.map) v.in_usize
