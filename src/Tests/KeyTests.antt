-- ===== src/Tests/KeyTests.antt =====
-- Cache keys, and the cache in an object store over a bucket that is a list.
use imgx.Base.{
  Text, bytes, true, Option, none, some, List, [], ◌∷◌, ◌≡◌, refl, ok, pos, contains, starts_with,
  has_byte, if◌then◌else◌, ◌==◌, text_eq, text_beq,
}
use imgx.Cache.{CacheEntry}
use imgx.Cache.Keys.{compute_cache_key_injective}
use imgx.Cache.R2
use imgx.Cache.R2.{S3Client, Response, sanitize_key, detect_content_type, get_from, to_entry}
use imgx.Cache.R2.Keys.{sanitize_key_collision}

compute_cache_key_injective_example :
    (bytes "a|b.jpg" ≡ bytes "a|b.jpg")
    × (bytes "w=1" ≡ bytes "w=1")
    × (bytes "auto:" ≡ bytes "auto:")
compute_cache_key_injective_example =
    compute_cache_key_injective (bytes "a|b.jpg") (bytes "a|b.jpg") (bytes "w=1") (bytes "w=1")
      (bytes "auto:") (bytes "auto:") (unfold has_byte in refl) (unfold has_byte in refl)
      (unfold has_byte in refl) (unfold has_byte in refl) refl

keys : Unit {0}
unfolding sanitize_key R2.sanitize_loop contains starts_with text_beq
keys = tt

sanitize_key_collision_example : sanitize_key (bytes "a|b.jpg") ≡ sanitize_key (bytes "a/b.jpg")
sanitize_key_collision_example = sanitize_key_collision (bytes "a") (bytes "b.jpg")

abbrev Bucket : Type 0
Bucket = List (Text × Response)

abbrev find : Text → Bucket → Option Response
find key [] = none
find key ((k, r) ∷ b) = let rest = find key b in if k == key then some r else rest

-- A bucket that accepts every object.
abbrev client : S3Client Bucket Unit
client = record {
  get_object = λ key b. ok (find key b);
  put_object = λ key d ct b. (ok true, (key, record { data_bytes = d; content_type = ct }) ∷ b);
  delete_object = λ key b. (ok true, b);
}

find-put :
    (key d ct : Text) (b : Bucket)
    → (client.put_object key d ct b).0 ≡ ok true
    → client.get_object key (client.put_object key d ct b).1
      ≡ ok (some (record { data_bytes = d; content_type = ct }))
find-put key d ct b h = rw ((text_eq.agrees key key).1 refl) refl

abbrev png : CacheEntry
png = record {
  data_bytes = 0x89 ∷ b'P' ∷ b'N' ∷ b'G' ∷ [];
  content_type = bytes "application/octet-stream";
  created_at = pos 1;
}
