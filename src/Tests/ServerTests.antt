-- ===== src/Tests/ServerTests.antt =====
-- Failure responses and revalidation.
use imgx.Base.{
  Option, ℕ, Text, bytes, none, some, [], ◌∷◌, text_eq, text_beq, if◌then◌else◌, ◌≡◌, refl, take,
  starts_with, contains,
}
use imgx.Config.{defaults}
use imgx.Router.{ImageRequest, is_absolute_url_source}
use imgx.Http.Errors.{lower_hex}
use imgx.Http.Response.{hex_fixed, generate_etag, should_return_304}
use imgx.Http.Response.Etags.{IsForm}
use imgx.Origin.Fetcher.{build_url, clean_base, clean_path}
use imgx.Transform.Options.{OutputFormat, OnErrorMode}
use imgx.Transform.Params.{TransformParams, default_params}
use imgx.Transform.Pipeline.{VipsError, TransformError}
use imgx.Server.{
  Response, header, TransformFailure, AppOrigin, build_image_response, fail_closed,
  failed_transform_response, handle_transform_failure, location, redirect_url, strip_path_prefix,
}
use imgx.Server.Failures.{IsEnvelope, fault, failed_transform_response-IsEnvelope}
use imgx.Server.Revalidation.{build_image_response-revalidate}
use imgx.Tests.Decimals.{decimals}

abbrev hash : Text → ℕ
hash t = 255

abbrev request : ImageRequest
request = record { image_path = bytes "a.jpg"; transform_string = some (bytes "f=thumbhash") }

abbrev hashed : TransformParams decimals
hashed = record (default_params decimals) {
  format = some OutputFormat.thumbhash;
  onerror = some OnErrorMode.redirect;
}

abbrev failed_hash : Response
failed_hash =
    failed_transform_response decimals hash defaults (AppOrigin.http (bytes "http://o")) request
      hashed (bytes "raw") none TransformFailure.panicked

failed_transform_response-IsEnvelope_example :
    IsEnvelope fault failed_hash
    × (header (bytes "cache-control") failed_hash.headers
        ≡ (if fail_closed defaults then some (bytes "no-store") else none))
    × ((other : Text) (tag : Option Text)
        → failed_transform_response decimals hash defaults
            (AppOrigin.http (bytes "http://o"))
            request
            hashed
            other
            tag
            TransformFailure.panicked
          ≡ failed_hash)
failed_transform_response-IsEnvelope_example =
    failed_transform_response-IsEnvelope decimals hash defaults (AppOrigin.http (bytes "http://o"))
      request hashed TransformFailure.panicked refl (bytes "raw") none

-- `onerror=redirect` with another format
redirected :
    failed_transform_response decimals hash defaults
      (AppOrigin.http (bytes "http://o/"))
      request
      (record hashed { format = none })
      (bytes "raw")
      none
      (TransformFailure.failed (TransformError.vips (VipsError.load_failed [])))
    ≡ record { status = 302; headers = (bytes "location", bytes "http://o/a.jpg") ∷ []; body = [] }
unfolding failed_transform_response handle_transform_failure location redirect_url strip_path_prefix
    is_absolute_url_source build_url clean_base clean_path contains starts_with text_beq
redirected = refl

abbrev tag : Text
tag = bytes "00000000000000ff"

revalidating : Unit {0}
unfolding build_image_response header generate_etag hex_fixed take lower_hex text_beq
    should_return_304
revalidating = tt

build_image_response-revalidate_example :
    ((build_image_response hash defaults (bytes "x") (bytes "image/png") (some tag)).status ≡ 304)
    × ((build_image_response hash defaults (bytes "x") (bytes "image/png") (some tag)).body ≡ [])
    × (header
          (bytes "etag")
          (build_image_response hash defaults (bytes "x") (bytes "image/png") (some tag)).headers
        ≡ some tag)
unfolding revalidating
build_image_response-revalidate_example =
    build_image_response-revalidate hash defaults (bytes "x") (bytes "image/png") none tag tag refl
      IsForm.bare
