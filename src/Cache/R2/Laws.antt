-- ===== src/Cache/R2/Laws.antt =====
-- Reading back from the object store what was put into it.
use imgx.Base.{Text, bytes, true, false, none, some, ◌≡◌, refl, ok, ℤ, if◌then◌else◌, ◌==◌, text_eq}
use imgx.Cache.{CacheEntry}
use imgx.Cache.R2.{
  S3Client, sanitize_key, detect_content_type, to_entry, get_from, get, put, delete,
}

module _ {S E : Type 0} (client : S3Client S E) where
  -- A key that is rejected is a miss for `get` and `delete`, and neither they nor `put` touch the
  -- store.
  pub rejected :
      (now : ℤ) (k : Text) (e : CacheEntry) (s : S)
      → sanitize_key k ≡ none
      → (get client now k s ≡ (none, s)) × (put client k e s ≡ s) × (delete client k s ≡ (false, s))
  unfolding get put delete
  rejected now k e s h = (rw (h, get) refl, rw (h, put) refl, rw (h, delete) refl)

module _ {S E : Type 0} (client : S3Client S E)
    (kept : (key d ct : Text) (s : S)
      → (client.put_object key d ct s).0 ≡ ok true
      → client.get_object key (client.put_object key d ct s).1
        ≡ ok (some (record { data_bytes = d; content_type = ct }))) where
  -- If the store gives back what it accepted, then after an accepted `put` a `get` under any key that
  -- is sanitised to the same object key returns the data, with the time of the `get`, and with the
  -- content type of the `put`, or the one that the data shows where that is
  -- `application/octet-stream`.
  pub get-put_same_key :
      (now : ℤ) (k k' key : Text) (e : CacheEntry) (s : S)
      → sanitize_key k ≡ some key
      → sanitize_key k' ≡ some key
      → (client.put_object key e.data_bytes e.content_type s).0 ≡ ok true
      → (get client now k' (put client k e s)).0
        ≡ some (record {
          data_bytes = e.data_bytes;
          content_type =
              if e.content_type == bytes "application/octet-stream"
              then detect_content_type e.data_bytes
              else e.content_type;
          created_at = now;
        })
  unfolding get put get_from to_entry
  get-put_same_key now k k' key e s hk hk' accepted =
      rw (hk, put)
        (rw (hk', get) (rw (kept key e.data_bytes e.content_type s accepted, get_from) refl))
