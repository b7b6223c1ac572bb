-- ===== src/Server/Requests.antt =====
-- crates/imgx/src/server.rs: the guards of `handle_image_request`, from the text of the options to the
-- key of the cache.
use imgx.Base.{
  Text, bytes, Bool, not, ◌&&◌, ◌||◌, Option, none, some, [], ltb, Result, ok, err, fail_if, ◌>>◌,
  ◌>>=◌,
}
use imgx.Cache.{compute_cache_key}
use imgx.Config.{Config}
use imgx.Http.Errors
use imgx.Http.Errors.{HttpError}
use imgx.Router.{ImageRequest, is_absolute_url_source}
use imgx.Server.{Response, error_response}
use imgx.Transform.Floats.{Floats}
use imgx.Transform.Negotiate.{cache_format_segment}
use imgx.Transform.Numbers.{Fault, panic, error}
use imgx.Transform.Options
use imgx.Transform.Options.{ParseError}
use imgx.Transform.Params.{TransformParams}
use imgx.Transform.Params.CacheKey.{to_cache_key}
use imgx.Transform.Params.Hints.{is_slow_connection}
use imgx.Transform.Params.Parse.{parse}
use imgx.Transform.Params.Validate.{validate, apply_scq_override, has_elements, is_some_and}

-- `headers.get(name).and_then(|v| v.to_str().ok())`, by the name in lower case
abbrev pub Headers : Type 0
Headers = Text → Option Text

-- Why a request is not served from the cache or the origin: the handler panics, or it answers.
pub data Refusal : Type 0 where
  crashed : Refusal
  answered : Response → Refusal

-- `return error_response(..)`
unfoldable pub refuse : HttpError → Refusal
unfolding error_response
refuse e = answered (error_response e)

-- `req.transform_string.as_deref().unwrap_or("")`
abbrev pub transform_string : ImageRequest → Text
transform_string req = elim req.transform_string [ none ↦ [] | some s ↦ s ]

-- the detail of a failed check
unfoldable pub invalid_detail : ParseError → Text
invalid_detail Options.draw_with_thumbhash =
    bytes "draw overlays cannot be combined with format=thumbhash"
invalid_detail e = bytes "transform parameters out of range"

abbrev pub out_of_range : Refusal
out_of_range =
    refuse (Errors.unprocessable_entity (some (bytes "transform parameters out of range")))

abbrev pub no_overlays : Refusal
no_overlays = refuse (
    Errors.forbidden (
      some (
        bytes
          "draw overlays are not enabled: set IMGX_ALLOW_DRAW_OVERLAYS=true to allow fetching draw[].url overlays")))

abbrev pub no_remote_sources : Refusal
no_remote_sources = refuse (
    Errors.forbidden (
      some (
        bytes
          "remote image sources are not enabled: set IMGX_ALLOW_REMOTE_SOURCES=true to allow fetching absolute http(s):// source URLs")))

module _ (fl : Floats) where
  abbrev pub or_refuse : Result Fault (TransformParams fl) → Result Refusal (TransformParams fl)
  or_refuse (ok tp) = ok tp
  or_refuse (err panic) = err crashed
  or_refuse (err (error e)) =
      err (refuse (Errors.bad_request (some (bytes "invalid transform parameters"))))

  unfoldable pub parse_options : ImageRequest → Result Refusal (TransformParams fl)
  unfolding parse refuse
  parse_options req = or_refuse (parse fl (transform_string req))

  abbrev pub valid_or_refuse : Result ParseError (Unit {0}) → Result Refusal (Unit {0})
  valid_or_refuse (ok u) = ok u
  valid_or_refuse (err e) = err (refuse (Errors.unprocessable_entity (some (invalid_detail e))))

  unfoldable pub check_options : TransformParams fl → Result Refusal (Unit {0})
  unfolding validate refuse invalid_detail
  check_options tp = valid_or_refuse (validate fl tp)

  unfoldable pub is_slow : Headers → Bool
  unfolding is_slow_connection
  is_slow headers =
      is_slow_connection fl (headers (bytes "rtt")) (headers (bytes "save-data"))
        (headers (bytes "ect")) (headers (bytes "downlink"))

  -- the operator's limits on width and height
  abbrev pub exceeds_limits : Config → TransformParams fl → Bool
  exceeds_limits config tp =
      is_some_and (ltb config.transform.max_width) tp.width
      || is_some_and (ltb config.transform.max_height) tp.height

  -- the guards that need the parameters, in their order
  unfoldable pub check_request :
      Config → Headers → ImageRequest → TransformParams fl → Result Refusal (TransformParams fl)
  unfolding check_options refuse is_slow apply_scq_override is_absolute_url_source
  check_request config headers req tp = do
    check_options tp
    fail_if (has_elements tp.draw && not config.origin.allow_draw_overlays) no_overlays
    fail_if (is_absolute_url_source req.image_path && not config.origin.allow_remote_sources)
        no_remote_sources
    let tp' = apply_scq_override fl (is_slow headers) tp
    fail_if (exceeds_limits config tp') out_of_range
    ok tp'

  unfoldable pub admit : Config → Headers → ImageRequest → Result Refusal (TransformParams fl)
  unfolding parse_options check_request
  admit config headers req = do tp ← parse_options req; check_request config headers req tp

  unfoldable pub key_of : Headers → ImageRequest → TransformParams fl → Text
  unfolding compute_cache_key to_cache_key cache_format_segment
  key_of headers req tp =
      compute_cache_key req.image_path (to_cache_key fl tp)
        (cache_format_segment fl (headers (bytes "accept")) tp.format)
