-- ===== src/S3/Replies.antt =====
-- What the client makes of the replies of the store.
use imgx.Base.{
  ℕ, Text, Bool, true, false, Option, none, some, Result, ok, err, leb, ◌<◌, ◌==◌, nat_eq, ◌≡◌, ◌≢◌,
  ◌↔◌, refl, sym, ap, arith, if◌then◌else◌,
}
use imgx.Origin.R2.{S3Error, S3Response}
use imgx.S3.{Reply, read_object, type_or_default}

-- A reply is taken for an object.
pub record IsObject (reply : Reply) (r : S3Response) : Type 0 where
  pub found : reply.status ≢ 404
  pub allowed : reply.status ≢ 403
  pub no_error : reply.status < 500
  pub read : reply.body ≡ ok r.data_bytes
  pub type : r.content_type ≡ type_or_default reply.content_type
  pub status : r.status ≡ reply.status

-- the four tests of `get_object`, in their order
abbrev answer :
    Bool → Bool → Bool → ℕ → Text → Result Text Text → Result S3Error (Option S3Response)
answer missing denied failed status type body =
    if missing
    then ok none
    else if denied
    then err S3Error.access_denied
    else if failed
    then err (S3Error.server_error status)
    else elim body [
      | err e ↦ err (S3Error.connection_failed e)
      | ok read ↦ ok (some (record { data_bytes = read; content_type = type; status = status }))
    ]

abbrev or_object : S3Response → Result S3Error (Option S3Response) → S3Response
or_object d (ok (some r)) = r
or_object d _ = d

abbrev is_there : Result S3Error (Option S3Response) → Bool
is_there (ok (some r)) = true
is_there _ = false

answer-object :
    (missing denied failed : Bool) (status : ℕ) (type : Text) (body : Result Text Text)
    (r : S3Response)
    → answer missing denied failed status type body ≡ ok (some r)
    → (missing ≡ false)
      × (denied ≡ false)
      × (failed ≡ false)
      × (body ≡ ok r.data_bytes)
      × (r.content_type ≡ type)
      × (r.status ≡ status)
answer-object true denied failed status type body r h = absurd cc
answer-object false true failed status type body r h = absurd cc
answer-object false false true status type body r h = absurd cc
answer-object false false false status type (err e) r h = absurd cc
answer-object false false false status type (ok read) r h =
    let same = ap (or_object r) h in
    (
      refl,
      refl,
      refl,
      ap (λ (x : S3Response). ok x.data_bytes) same,
      sym (ap (λ (x : S3Response). x.content_type) same),
      sym (ap (λ (x : S3Response). x.status) same),
    )

answer-missing :
    (missing denied failed : Bool) (status : ℕ) (type : Text) (body : Result Text Text)
    → answer missing denied failed status type body ≡ ok none
    → missing ≡ true
answer-missing true denied failed status type body h = refl
answer-missing false true failed status type body h = absurd cc
answer-missing false false true status type body h = absurd cc
answer-missing false false false status type (err e) h = absurd cc
answer-missing false false false status type (ok read) h = absurd (ground (arith, ap is_there h))

test_false : (a b : ℕ) → a ≢ b → (a == b) ≡ false
test_false a b h = ground arith

-- A reply is taken for an object exactly if its status is below 500 and neither 403 nor 404, and its
-- body can be read: also if the status is another error of the client, such as 401 or 429. It is
-- taken for a missing object exactly if its status is 404.
pub read_object_iff :
    (reply : Reply) (r : S3Response)
    → ((read_object reply ≡ ok (some r)) ↔ IsObject reply r)
      × ((read_object reply ≡ ok none) ↔ (reply.status ≡ 404))
unfolding read_object
read_object_iff reply r =
    let type = type_or_default reply.content_type in
    (
      (
        λ h.
            let (missing, denied, failed, read, type, status) =
              answer-object (reply.status == 404) (reply.status == 403) (leb 500 reply.status)
                reply.status type reply.body r h in
            record {
              found = ground (arith, missing);
              allowed = ground (arith, denied);
              no_error = ground (arith, failed);
              read = read;
              type = type;
              status = status;
            },
        λ o.
            let failed : leb 500 reply.status ≡ false = ground (arith, o.no_error) in
            rw
              (
                test_false reply.status 404 o.found,
                test_false reply.status 403 o.allowed,
                failed,
                o.read,
                sym o.type,
                sym o.status,
              )
              refl,
      ),
      (
        λ h. ground (
          arith,
          answer-missing (reply.status == 404) (reply.status == 403) (leb 500 reply.status)
              reply.status type reply.body h,
        ),
        λ e. rw e refl,
      ),
    )
