-- ===== src/S3/Store.antt =====
-- Reading back what was put, through the client and the cache over it.
use imgx.Base.{
  ℤ, ℕ, Text, bytes, true, ◌||◌, none, some, Result, ok, err, leb, ◌==◌, nat_eq, text_eq, ◌≡◌, ◌⊎◌,
  refl, arith, ok_injective, fail_if-eq-ok, if◌then◌else◌,
}
use imgx.Cache.{CacheEntry}
use imgx.Cache.R2
use imgx.Cache.R2.{sanitize_key, detect_content_type}
use imgx.Cache.R2.Laws.{get-put_same_key}
use imgx.S3.{
  Method, Reply, Http, check_status, read_object, replied, get_object, put_object, delete_object,
  s3_client,
}

-- What the service is documented to do: an upload that it accepts is kept, under its key, with its
-- content type; an object that it keeps is sent with status 200; after a deletion that it accepts,
-- the key is answered with 404.
pub record IsService {S : Type 0} (http : Http S) : Type 1 where
  pub Keeps : S → Text → Text → Text → Type 0
  pub Lacks : S → Text → Type 0
  pub put_keeps :
      (key body content_type : Text) (s : S) (reply : Reply)
      → (http.send Method.put (http.sign Method.put key) (some (content_type, body)) s).0 ≡ ok reply
      → (reply.status ≡ 200) ⊎ (reply.status ≡ 201)
      → Keeps
          (http.send Method.put (http.sign Method.put key) (some (content_type, body)) s).1
          key
          body
          content_type
  pub get_kept :
      (key body content_type : Text) (s : S)
      → Keeps s key body content_type
      → (http.send Method.get (http.sign Method.get key) none s).0
        ≡ ok (record { status = 200; content_type = some content_type; body = ok body })
  pub delete_lacks :
      (key : Text) (s : S) (reply : Reply)
      → (http.send Method.delete (http.sign Method.delete key) none s).0 ≡ ok reply
      → (reply.status ≡ 200) ⊎ (reply.status ≡ 204)
      → Lacks (http.send Method.delete (http.sign Method.delete key) none s).1 key
  pub get_lacking :
      (key : Text) (s : S)
      → Lacks s key
      → (reply : Reply) × ((http.send Method.get (http.sign Method.get key) none s).0 ≡ ok reply)
        × (reply.status ≡ 404)

either : (a b n : ℕ) → (n == a || n == b) ≡ true → (n ≡ a) ⊎ (n ≡ b)
either a b n h = ground arith

-- A status is a success only if it is one of the two.
check_status-eq-ok : (n a b : ℕ) → check_status n a b ≡ ok true → (n ≡ a) ⊎ (n ≡ b)
unfolding check_status
check_status-eq-ok n a b h =
    let (allowed, h₁) = fail_if-eq-ok (n == 403) _ _ h in
    let (no_error, h₂) = fail_if-eq-ok (leb 500 n) _ _ h₁ in either a b n (ok_injective h₂)

-- An upload or a deletion that reports success was answered with success.
accepted :
    (answer : Result Text Reply) (a b : ℕ)
    → replied (λ reply. check_status reply.status a b) answer ≡ ok true
    → (reply : Reply) × (answer ≡ ok reply) × ((reply.status ≡ a) ⊎ (reply.status ≡ b))
accepted (err e) a b h = absurd cc
accepted (ok reply) a b h = (reply, refl, check_status-eq-ok reply.status a b h)

module _ {S : Type 0} (http : Http S) (service : IsService http) where
  kept :
      (key body content_type : Text) (s : S)
      → (put_object http key body content_type s).0 ≡ ok true
      → (get_object http key (put_object http key body content_type s).1).0
        ≡ ok (some (record { data_bytes = body; content_type = content_type; status = 200 }))
  unfolding put_object get_object read_object
  kept key body content_type s h =
      let sent = http.send Method.put (http.sign Method.put key) (some (content_type, body)) s in
      let (reply, answered, success) = accepted sent.0 200 201 h in
      rw
        (service.get_kept key body content_type sent.1
          (service.put_keeps key body content_type s reply answered success))
        refl

  missing :
      (key : Text) (s : S)
      → (delete_object http key s).0 ≡ ok true
      → (get_object http key (delete_object http key s).1).0 ≡ ok none
  unfolding delete_object get_object read_object
  missing key s h =
      let sent = http.send Method.delete (http.sign Method.delete key) none s in
      let (reply, answered, success) = accepted sent.0 200 204 h in
      let (r, lacking, absent) =
        service.get_lacking key sent.1 (service.delete_lacks key s reply answered success) in
      rw (lacking, absent) refl

  s3_client-kept :
      (key body content_type : Text) (s : S)
      → (put_object http key body content_type s).0 ≡ ok true
      → (s3_client http).get_object key (put_object http key body content_type s).1
        ≡ ok (some (record { data_bytes = body; content_type = content_type }))
  s3_client-kept key body content_type s h = rw (kept key body content_type s h) refl

  -- Over a service that keeps what it accepts, an object that was put is read back with its content
  -- type, and a deleted one is missing. So the cache over it gives an entry, whose upload succeeded, to
  -- every key that is sanitised as the key of the entry was.
  pub put_object-IsKept :
      (now : ℤ) (k k' key : Text) (e : CacheEntry) (s : S)
      → sanitize_key k ≡ some key
      → sanitize_key k' ≡ some key
      → (put_object http key e.data_bytes e.content_type s).0 ≡ ok true
      → ((get_object http key (put_object http key e.data_bytes e.content_type s).1).0
          ≡ ok (
              some (record {
                data_bytes = e.data_bytes;
                content_type = e.content_type;
                status = 200;
              })))
        × ((t : S)
            → (delete_object http key t).0 ≡ ok true
            → (get_object http key (delete_object http key t).1).0 ≡ ok none)
        × ((R2.get (s3_client http) now k' (R2.put (s3_client http) k e s)).0
            ≡ some (record {
              data_bytes = e.data_bytes;
              content_type =
                  if e.content_type == bytes "application/octet-stream"
                  then detect_content_type e.data_bytes
                  else e.content_type;
              created_at = now;
            }))
  put_object-IsKept now k k' key e s h h' success = (
    kept key e.data_bytes e.content_type s success,
    missing key,
    get-put_same_key (s3_client http) s3_client-kept now k k' key e s h h' success,
  )
