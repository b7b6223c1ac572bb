-- ===== src/Server/Failures.antt =====
-- What a failed transform is answered with (INV-13, INV-19 and INV-28).
use imgx.Base.{
  ℕ, Text, bytes, true, ◌||◌, Option, none, some, text_eq, text_beq, if◌then◌else◌, ◌≡◌, inl, inr,
  refl, arith, Bool-cases,
}
use imgx.Config.{Config}
use imgx.Http.Errors
use imgx.Http.Errors.{HttpError, to_json_response}
use imgx.Router.{ImageRequest}
use imgx.Transform.Floats.{Floats}
use imgx.Transform.Params.{TransformParams}
use imgx.Transform.Pipeline.{TransformError}
use imgx.Server.{
  Response, header, TransformFailure, AppOrigin, error_response, failure_error,
  thumbhash_failure_response, fail_closed_response, fail_closed, is_thumbhash, error_of,
  failed_transform_response,
}

-- An image that libvips cannot process.
abbrev pub bad_image : HttpError
bad_image = record {
  status = 422;
  message = bytes "Unprocessable Entity";
  detail = some (bytes "source image could not be processed");
}

-- A fault of the service.
abbrev pub fault : HttpError
fault = record { status = 500; message = bytes "Internal Server Error"; detail = none }

-- The error that a failure is reported as.
abbrev pub reported : TransformFailure → HttpError
reported (TransformFailure.failed (TransformError.exceeds_max_pixels n max)) = bad_image
reported (TransformFailure.failed (TransformError.vips e)) = bad_image
reported (TransformFailure.failed (TransformError.thumbhash e)) = fault
reported TransformFailure.panicked = fault

-- The response is the envelope of this error, with no redirect and no entity tag.
pub record IsEnvelope (cause : HttpError) (r : Response) : Type 0 where
  pub body : r.body ≡ to_json_response cause
  pub status : r.status ≡ cause.status
  pub not_redirected : header (bytes "location") r.headers ≡ none
  pub untagged : header (bytes "etag") r.headers ≡ none

failure_error-reported :
    (failure : TransformFailure) → failure_error (error_of failure) ≡ reported failure
unfolding failure_error Errors.unprocessable_entity Errors.internal_error
failure_error-reported (TransformFailure.failed (TransformError.exceeds_max_pixels n max)) = refl
failure_error-reported (TransformFailure.failed (TransformError.vips e)) = refl
failure_error-reported (TransformFailure.failed (TransformError.thumbhash e)) = refl
failure_error-reported TransformFailure.panicked = refl

module _ (fl : Floats) (xxh3_64 : Text → ℕ) (config : Config) (origin : AppOrigin)
    (req : ImageRequest) (tp : TransformParams fl) (failure : TransformFailure)
    (closed : (fail_closed config || is_thumbhash tp.format) ≡ true) where
  -- If the server is configured to fail closed, or a thumbhash is asked for, a failed or panicked
  -- transform is answered with exactly the envelope of its error: 422 with a fixed detail if the image
  -- has too many pixels or libvips fails, and 500 without a detail if the hash fails or the task
  -- panics. The response has no redirect and no entity tag, is marked `no-store` exactly if the server
  -- is configured to fail closed, and is the same for any source bytes and any `if-none-match`.
  pub failed_transform_response-IsEnvelope :
      (raw_data : Text) (if_none_match : Option Text)
      → let r =
          failed_transform_response fl xxh3_64 config origin req tp raw_data if_none_match
            failure in
        IsEnvelope (reported failure) r
        × (header (bytes "cache-control") r.headers
            ≡ (if fail_closed config then some (bytes "no-store") else none))
        × ((other : Text) (tag : Option Text)
            → failed_transform_response fl xxh3_64 config origin req tp other tag failure ≡ r)
  unfolding failed_transform_response fail_closed_response thumbhash_failure_response error_response
      header text_beq
  failed_transform_response-IsEnvelope raw_data if_none_match =
      rw (← failure_error-reported failure) (elim (Bool-cases (fail_closed config)) [
        | inl fails ↦ rw fails (
          record { body = refl; status = refl; not_redirected = refl; untagged = refl },
          refl,
          λ other tag. refl,
        )
        | inr passthrough ↦
            let thumbhash : is_thumbhash tp.format ≡ true = ground (arith, passthrough, closed) in
            rw (passthrough, thumbhash)
              (
                record { body = refl; status = refl; not_redirected = refl; untagged = refl },
                refl,
                λ other tag. refl,
              )
      ])
