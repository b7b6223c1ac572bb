-- ===== src/S3.antt =====
-- crates/imgx/src/s3/client.rs: the client of the object store, over the crates rusty-s3, which signs
-- URLs, and reqwest, which sends requests. A reply may change what the store holds.
pub mod Replies
pub mod Store
use imgx.Base.{
  ℕ, Text, bytes, Bool, true, false, ◌||◌, Option, none, some, Result, ok, err, ◌>>=◌, ◌>>◌,
  fail_if, leb, ◌==◌, nat_eq, if◌then◌else◌,
}
use imgx.Cache.R2
use imgx.Cache.R2.{S3Client}
use imgx.Origin.R2.{S3Error, S3Response}

pub data Method : Type 0 where
  get put delete head : Method

-- A response of the network: `to_str().ok()` of its content type, and what reading its body gives.
pub record Reply : Type 0 where
  pub status : ℕ
  pub content_type : Option Text
  pub body : Result Text Text

-- The signed URL for a method and a key, and sending a request to it, with the content type and the
-- bytes of an upload.
pub record Http (S : Type 0) : Type 0 where
  pub sign : Method → Text → Text
  pub send : Method → Text → Option (Text × Text) → S → Result Text Reply × S

-- `S3Client::new`, over the parsers of the two crates
unfoldable pub connect :
    {U B : Type 0}
    → (Text → Result Text U)
    → (U → Text → Text → Result Text B)
    → Text
    → Text
    → Text
    → Result S3Error B
connect parse new_bucket endpoint bucket_name region = elim (parse endpoint) [
  | err e ↦ err (S3Error.invalid_endpoint e)
  | ok url ↦ elim (new_bucket url bucket_name region) [
    | err e ↦ err (S3Error.invalid_endpoint e)
    | ok bucket ↦ ok bucket
  ]
]

unfoldable pub check_status : ℕ → ℕ → ℕ → Result S3Error Bool
check_status status success₁ success₂ = do
  fail_if (status == 403) S3Error.access_denied
  fail_if (leb 500 status) (S3Error.server_error status)
  ok (status == success₁ || status == success₂)

abbrev pub type_or_default : Option Text → Text
type_or_default none = bytes "application/octet-stream"
type_or_default (some t) = t

-- what `get_object` makes of a reply
unfoldable pub read_object : Reply → Result S3Error (Option S3Response)
read_object reply =
    if reply.status == 404
    then ok none
    else if reply.status == 403
    then err S3Error.access_denied
    else if leb 500 reply.status
    then err (S3Error.server_error reply.status)
    else elim reply.body [
      | err e ↦ err (S3Error.connection_failed e)
      | ok read ↦ ok (
          some (record {
            data_bytes = read;
            content_type = type_or_default reply.content_type;
            status = reply.status;
          }))
    ]

-- the operator `?` on what was sent
abbrev pub replied :
    {A : Type 0} → (Reply → Result S3Error A) → Result Text Reply → Result S3Error A
replied read (err e) = err (S3Error.connection_failed e)
replied read (ok reply) = read reply

module _ {S : Type 0} (http : Http S) where
  unfoldable pub get_object : Text → S → Result S3Error (Option S3Response) × S
  unfolding read_object
  get_object key s =
      let (answer, s') = http.send Method.get (http.sign Method.get key) none s in
      (replied read_object answer, s')

  unfoldable pub put_object : Text → Text → Text → S → Result S3Error Bool × S
  unfolding check_status
  put_object key body content_type s =
      let (answer, s') =
        http.send Method.put (http.sign Method.put key) (some (content_type, body)) s in
      (replied (λ reply. check_status reply.status 200 201) answer, s')

  unfoldable pub delete_object : Text → S → Result S3Error Bool × S
  unfolding check_status
  delete_object key s =
      let (answer, s') = http.send Method.delete (http.sign Method.delete key) none s in
      (replied (λ reply. check_status reply.status 200 204) answer, s')

  unfoldable pub head_object : Text → S → Result S3Error Bool × S
  unfolding check_status
  head_object key s =
      let (answer, s') = http.send Method.head (http.sign Method.head key) none s in
      (replied (λ reply. check_status reply.status 200 200) answer, s')

  abbrev to_response : Result S3Error (Option S3Response) → Result S3Error (Option R2.Response)
  to_response (err e) = err e
  to_response (ok none) = ok none
  to_response (ok (some resp)) =
      ok (some (record { data_bytes = resp.data_bytes; content_type = resp.content_type }))

  -- the client as the cache uses it; what a read does to the store is not looked at again
  abbrev pub s3_client : S3Client S S3Error
  s3_client = record {
    get_object = λ key s. to_response (get_object key s).0;
    put_object = put_object;
    delete_object = delete_object;
  }
