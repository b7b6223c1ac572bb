-- ===== src/Cache.antt =====
-- crates/imgx/src/cache/mod.rs: the entry, the key, and the trait that every cache implements.
-- An asynchronous method is a function of the cache's state; `&self` methods that change what is
-- behind a lock return the new state.
pub mod Faithful
pub mod Lru
pub mod Memory
pub mod Tiered
pub mod Noop
pub mod R2
pub mod Keys
use imgx.Base.{
  ℕ, Text, bytes, Bool, true, false, Option, none, some, ℤ, ◌++◌, ◌+◌, ◌<◌, ◌^◌, ◌≡◌, ◌≢◌, ◌⊎◌,
  length,
}

pub record CacheEntry : Type 0 where
  pub data_bytes : Text
  pub content_type : Text
  pub created_at : ℤ

-- The trait `Cache`, over the state of an implementation.
pub record Cache (S : Type 0) : Type 0 where
  pub get : Text → S → Option CacheEntry × S
  pub put : Text → CacheEntry → S → S
  pub delete : Text → S → Bool × S
  pub clear : S → S
  pub size : S → ℕ

-- A payload that Rust can hold: no allocation exceeds `isize::MAX` bytes.
abbrev pub IsSmall : CacheEntry → Type 0
IsSmall e = length e.data_bytes + length e.content_type < 2 ^ 63

abbrev pub is_some : {A : Type 0} → Option A → Bool
is_some none = false
is_some (some _) = true

-- What the callers rely on: a cache may forget an entry, and never invents or mixes up one. `peek`
-- is what a `get` would return, and `Valid` an invariant of the implementation.
pub record IsCache {S : Type 0} (cache : Cache S) (Valid : S → Type 0)
    (peek : Text → S → Option CacheEntry) : Type 0 where
  pub get-Valid : (k : Text) (s : S) → Valid s → Valid (cache.get k s).1
  pub put-Valid :
      (k : Text) (e : CacheEntry) (s : S) → IsSmall e → Valid s → Valid (cache.put k e s)
  pub delete-Valid : (k : Text) (s : S) → Valid s → Valid (cache.delete k s).1
  pub clear-Valid : (s : S) → Valid s → Valid (cache.clear s)
  pub get_value : (k : Text) (s : S) → Valid s → (cache.get k s).0 ≡ peek k s
  pub peek-get : (j k : Text) (s : S) → Valid s → peek j (cache.get k s).1 ≡ peek j s
  pub peek-put_self :
      (k : Text) (e : CacheEntry) (s : S)
      → IsSmall e
      → Valid s
      → (peek k (cache.put k e s) ≡ none) ⊎ (peek k (cache.put k e s) ≡ some e)
  pub peek-put_other :
      (j k : Text) (e : CacheEntry) (s : S)
      → IsSmall e
      → Valid s
      → j ≢ k
      → (peek j (cache.put k e s) ≡ none) ⊎ (peek j (cache.put k e s) ≡ peek j s)
  pub delete_value : (k : Text) (s : S) → Valid s → (cache.delete k s).0 ≡ is_some (peek k s)
  pub peek-delete_self : (k : Text) (s : S) → Valid s → peek k (cache.delete k s).1 ≡ none
  pub peek-clear :
      (j : Text) (s : S)
      → Valid s
      → (peek j (cache.clear s) ≡ none) ⊎ (peek j (cache.clear s) ≡ peek j s)
  pub peek-delete_other :
      (j k : Text) (s : S) → Valid s → j ≢ k → peek j (cache.delete k s).1 ≡ peek j s

-- What the server relies on: with an invariant `Good` of the implementation, a cache into which a
-- client puts only what satisfies `P` returns only what satisfies `P`.
pub record IsFaithful {ℓ κ} {S : Type 0} (cache : Cache S) (P : Text → CacheEntry → Type ℓ)
    (Good : S → Type κ) : Type (ℓ ⊔ κ) where
  pub get-Good : (k : Text) (s : S) → Good s → Good (cache.get k s).1
  pub put-Good : (k : Text) (e : CacheEntry) (s : S) → P k e → Good s → Good (cache.put k e s)
  pub delete-Good : (k : Text) (s : S) → Good s → Good (cache.delete k s).1
  pub clear-Good : (s : S) → Good s → Good (cache.clear s)
  pub get_sound : (k : Text) (e : CacheEntry) (s : S) → Good s → (cache.get k s).0 ≡ some e → P k e

unfoldable pub compute_cache_key : Text → Text → Text → Text
compute_cache_key image_path transform_string format =
    image_path ++ (bytes "|" ++ (transform_string ++ (bytes "|" ++ format)))
