-- ===== src/Server.antt =====
-- crates/imgx/src/server.rs: the responses that the request handler ends in. Header names are in
-- lower case, in the order in which they are set.
pub mod Failures
pub mod Revalidation
pub mod Prefixes
pub mod Fetches
pub mod Requests
pub mod Handler
pub mod Caches
use imgx.Base.{
  ℕ, Text, bytes, Bool, true, false, Option, none, some, List, [], ◌∷◌, ◌++◌, ◌==◌, text_eq, nat_eq,
  if◌then◌else◌, Result, ok, err, strip_prefix,
}
use imgx.Config.{Config, TransformFailureMode}
use imgx.Http.Errors
use imgx.Http.Errors.{HttpError, to_json_response}
use imgx.Http.Response.{generate_etag, should_return_304, build_cache_control}
use imgx.Origin.Fetcher.{build_url}
use imgx.Router.{ImageRequest, is_absolute_url_source}
use imgx.Transform.Options.{OutputFormat, OnErrorMode, content_type}
use imgx.Transform.Floats.{Floats}
use imgx.Transform.Params.{TransformParams}
use imgx.Transform.Pipeline.{TransformError}

pub record Response : Type 0 where
  pub status : ℕ
  pub headers : List (Text × Text)
  pub body : Text

-- the value of the first header with a name
unfoldable pub header : Text → List (Text × Text) → Option Text
header name [] = none
header name ((n, v) ∷ headers) =
    let rest = header name headers in if n == name then some v else rest

pub data TransformFailure : Type 0 where
  failed : TransformError → TransformFailure
  panicked : TransformFailure

-- the configured origin, with the base URL of an HTTP origin
pub data AppOrigin : Type 0 where
  http : Text → AppOrigin
  r2 : AppOrigin

abbrev result_ok : {E A : Type 0} → Result E A → Option A
result_ok (ok a) = some a
result_ok (err e) = none

unfoldable pub redirect_url : AppOrigin → Text → Option Text
unfolding build_url
redirect_url (AppOrigin.http base_url) path = result_ok (build_url base_url path)
redirect_url AppOrigin.r2 path = none

-- what `rest.strip_prefix('/')` gives after the prefix, or the whole path
abbrev pub after_prefix : Text → Text → Text
after_prefix path [] = path
after_prefix path (b ∷ rest) = if b == b'/' then rest else path

unfoldable pub strip_path_prefix : Text → Text → Text
unfolding strip_prefix
strip_path_prefix [] path = path
strip_path_prefix (b ∷ prefix) path = elim (strip_prefix (b ∷ prefix) path) [
  | none ↦ path
  | some rest ↦ after_prefix path rest
]

unfoldable pub error_response : HttpError → Response
unfolding to_json_response
error_response e = record {
  status = e.status;
  headers = (bytes "content-type", bytes "application/json") ∷ [];
  body = to_json_response e;
}

-- the error of a failed transform; `none` stands for a panicked task
unfoldable pub failure_error : Option TransformError → HttpError
unfolding Errors.unprocessable_entity Errors.internal_error
failure_error (some (TransformError.exceeds_max_pixels n max)) =
    Errors.unprocessable_entity (some (bytes "source image could not be processed"))
failure_error (some (TransformError.vips e)) =
    Errors.unprocessable_entity (some (bytes "source image could not be processed"))
failure_error (some (TransformError.thumbhash e)) = Errors.internal_error none
failure_error none = Errors.internal_error none

unfoldable pub thumbhash_failure_response : Option TransformError → Response
unfolding error_response failure_error
thumbhash_failure_response e = error_response (failure_error e)

unfoldable pub fail_closed_response : Option TransformError → Response
unfolding thumbhash_failure_response
fail_closed_response e =
    let response = thumbhash_failure_response e in
    record response { headers = response.headers ++ (bytes "cache-control", bytes "no-store") ∷ [] }

abbrev type_of : Option OutputFormat → Text
type_of none = bytes "application/octet-stream"
type_of (some f) = content_type f

-- where `onerror=redirect` sends the client
unfoldable pub location : Config → AppOrigin → ImageRequest → Option OnErrorMode → Option Text
unfolding is_absolute_url_source strip_path_prefix redirect_url
location config origin req none = none
location config origin req (some OnErrorMode.redirect) =
    if is_absolute_url_source req.image_path
    then some req.image_path
    else redirect_url origin (strip_path_prefix config.origin.path_prefix req.image_path)

abbrev pub fail_closed : Config → Bool
fail_closed config = elim config.transform.on_failure [
  | TransformFailureMode.error ↦ true
  | TransformFailureMode.passthrough ↦ false
]

abbrev pub is_thumbhash : Option OutputFormat → Bool
is_thumbhash (some OutputFormat.thumbhash) = true
is_thumbhash _ = false

abbrev pub error_of : TransformFailure → Option TransformError
error_of (TransformFailure.failed e) = some e
error_of TransformFailure.panicked = none

module _ (xxh3_64 : Text → ℕ) where
  unfoldable pub build_image_response : Config → Text → Text → Option Text → Response
  unfolding generate_etag should_return_304 build_cache_control
  build_image_response config data_bytes type if_none_match =
      let etag = generate_etag xxh3_64 data_bytes in
      if should_return_304 if_none_match etag
      then record {
        status = 304;
        headers = (bytes "content-type", type) ∷ (bytes "etag", etag) ∷ [];
        body = [];
      }
      else record {
        status = 200;
        headers =
            (bytes "content-type", type)
            ∷ (bytes "cache-control", build_cache_control config.cache.default_ttl_seconds true)
            ∷ (bytes "etag", etag)
            ∷ (bytes "vary", bytes "Accept")
            ∷ [];
        body = data_bytes;
      }

module _ (fl : Floats) (xxh3_64 : Text → ℕ) where
  unfoldable pub handle_transform_failure :
      Config → AppOrigin → ImageRequest → TransformParams fl → Text → Option Text → Response
  unfolding location build_image_response content_type
  handle_transform_failure config origin req tp raw_data if_none_match =
      elim (location config origin req tp.onerror) [
        | some l ↦ record { status = 302; headers = (bytes "location", l) ∷ []; body = [] }
        | none ↦ build_image_response xxh3_64 config raw_data (type_of tp.format) if_none_match
      ]

  -- In each arm of the `match` a failure and a panic differ only in the error that they pass on.
  unfoldable pub failed_transform_response :
      Config
      → AppOrigin
      → ImageRequest
      → TransformParams fl
      → Text
      → Option Text
      → TransformFailure
      → Response
  unfolding fail_closed_response thumbhash_failure_response handle_transform_failure
  failed_transform_response config origin req tp raw_data if_none_match failure =
      if fail_closed config
      then fail_closed_response (error_of failure)
      else if is_thumbhash tp.format
      then thumbhash_failure_response (error_of failure)
      else handle_transform_failure config origin req tp raw_data if_none_match
