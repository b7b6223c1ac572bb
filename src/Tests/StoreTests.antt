-- ===== src/Tests/StoreTests.antt =====
-- The client of the object store, over a service that is a function from keys to objects.
use imgx.Base.{
  ℕ, Text, bytes, true, false, Option, none, some, pos, Result, ok, ◌==◌, text_eq, if◌then◌else◌,
  ◌≡◌, ◌↔◌, refl, [], contains, starts_with,
}
use imgx.Cache.{CacheEntry}
use imgx.Cache.R2
use imgx.Cache.R2.{sanitize_key, sanitize_loop, detect_content_type}
use imgx.Origin.R2.{S3Response}
use imgx.S3.{
  Method, Reply, Http, read_object, get_object, put_object, delete_object, head_object,
  check_status, s3_client,
}
use imgx.S3.Replies.{IsObject, read_object_iff}
use imgx.S3.Store.{IsService, put_object-IsKept}

abbrev Objects : Type 0
Objects = Text → Option (Text × Text)

abbrev reply_of : Option (Text × Text) → Reply
reply_of none = record { status = 404; content_type = none; body = ok [] }
reply_of (some (content_type, body)) = record {
  status = 200;
  content_type = some content_type;
  body = ok body;
}

abbrev done : ℕ → Reply
done status = record { status = status; content_type = none; body = ok [] }

-- a change at one key
abbrev with_object : Text → Option (Text × Text) → Objects → Objects
with_object key object s = λ k. if k == key then object else s k

abbrev answering : Method → Text → Option (Text × Text) → Objects → Result Text Reply × Objects
answering Method.get url upload s = (ok (reply_of (s url)), s)
answering Method.head url upload s = (ok (reply_of (s url)), s)
answering Method.put url upload s = (ok (done 200), with_object url upload s)
answering Method.delete url upload s = (ok (done 204), with_object url none s)

abbrev service : Http Objects
service = record { sign = λ m key. key; send = answering }

same_text : (t : Text) → (t == t) ≡ true
same_text t = (text_eq.agrees t t).1 refl

service-IsService : IsService service
service-IsService = record {
  Keeps = λ s key body content_type. s key ≡ some (content_type, body);
  Lacks = λ s key. s key ≡ none;
  put_keeps = λ key body content_type s reply h k. rw (same_text key) refl;
  get_kept = λ key body content_type s h. rw h refl;
  delete_lacks = λ key s reply h k. rw (same_text key) refl;
  get_lacking = λ key s h. (done 404, rw h refl, refl);
}

abbrev nothing : Objects
nothing k = none

abbrev entry : CacheEntry
entry = record { data_bytes = bytes "img"; content_type = bytes "image/png"; created_at = pos 1 }

sanitized : sanitize_key (bytes "a|b") ≡ some (bytes "a/b")
unfolding sanitize_key sanitize_loop contains starts_with
sanitized = refl

already : sanitize_key (bytes "a/b") ≡ some (bytes "a/b")
unfolding sanitize_key sanitize_loop contains starts_with
already = refl

put_done :
    (put_object service (bytes "a/b") entry.data_bytes entry.content_type nothing).0 ≡ ok true
unfolding put_object check_status
put_done = refl

put_object-IsKept_example :
    ((get_object service
        (bytes "a/b")
        (put_object service (bytes "a/b") entry.data_bytes entry.content_type nothing).1).0
      ≡ ok (
          some (record {
            data_bytes = entry.data_bytes;
            content_type = entry.content_type;
            status = 200;
          })))
    × ((t : Objects)
        → (delete_object service (bytes "a/b") t).0 ≡ ok true
        → (get_object service (bytes "a/b") (delete_object service (bytes "a/b") t).1).0 ≡ ok none)
    × ((R2.get
          (s3_client service)
          (pos 7)
          (bytes "a/b")
          (R2.put (s3_client service) (bytes "a|b") entry nothing)).0
        ≡ some (record {
          data_bytes = entry.data_bytes;
          content_type =
              if entry.content_type == bytes "application/octet-stream"
              then detect_content_type entry.data_bytes
              else entry.content_type;
          created_at = pos 7;
        }))
put_object-IsKept_example =
    put_object-IsKept service service-IsService (pos 7) (bytes "a|b") (bytes "a/b") (bytes "a/b")
      entry nothing sanitized already put_done

-- a reply that the service is too busy
abbrev busy : Reply
busy = record {
  status = 429;
  content_type = some (bytes "application/xml");
  body = ok (bytes "<E/>");
}

abbrev busy_object : S3Response
busy_object = record {
  data_bytes = bytes "<E/>";
  content_type = bytes "application/xml";
  status = 429;
}

read_object_iff_example :
    ((read_object busy ≡ ok (some busy_object)) ↔ IsObject busy busy_object)
    × ((read_object busy ≡ ok none) ↔ (busy.status ≡ 404))
read_object_iff_example = read_object_iff busy busy_object

read_busy : read_object busy ≡ ok (some busy_object)
unfolding read_object
read_busy = refl

-- a HEAD of a missing object
head_missing : (head_object service (bytes "a") nothing).0 ≡ ok false
unfolding head_object check_status
head_missing = refl
