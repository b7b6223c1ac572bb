-- ===== src/Server/Fetches.antt =====
-- crates/imgx/src/server.rs: the fetches of a request's source and of its overlays, and what a failed
-- fetch is answered with. The HTTP clients, the DNS and the object store are parameters.
use imgx.Base.{
  Text, bytes, true, Option, none, some, List, [], ◌∷◌, ◌++◌, Result, ok, err, ◌>>=◌, if◌then◌else◌,
}
use imgx.Config.{Config}
use imgx.Http.Errors
use imgx.Http.Errors.{HttpError}
use imgx.Origin.Fetcher
use imgx.Origin.Fetcher.{SendError, FetchError, FetchResult}
use imgx.Origin.R2
use imgx.Origin.R2.{S3Error, S3Response}
use imgx.Origin.Remote
use imgx.Origin.Remote.{Urls, SendFailure, RemoteFetchError, RemoteFetchResult}
use imgx.Router.{ImageRequest, is_absolute_url_source}
use imgx.Server.{AppOrigin, Response, error_response, strip_path_prefix}
use imgx.Transform.Floats.{Floats}
use imgx.Transform.Params.{DrawOverlay}
use imgx.Transform.Print.{decimal}

-- What the network answers.
pub record World (urls : Urls) : Type 0 where
  -- the client of the configured origin
  pub send : Text → Result SendError Fetcher.Response
  pub get_object : Text → Result S3Error (Option S3Response)
  -- the client of the remote fetcher, redirects followed
  pub send_remote : urls.Url → Result SendFailure Fetcher.Response

-- `e.to_string()`
unfoldable pub remote_error_text : RemoteFetchError → Text
unfolding decimal
remote_error_text (RemoteFetchError.invalid_url e) = bytes "invalid remote url: " ++ e
remote_error_text RemoteFetchError.unsupported_scheme =
    bytes "only http:// and https:// urls are supported"
remote_error_text RemoteFetchError.private_address =
    bytes "remote host resolves to a non-public address"
remote_error_text RemoteFetchError.too_many_redirects = bytes "too many redirects"
remote_error_text (RemoteFetchError.connection_failed e) = bytes "remote connection failed: " ++ e
remote_error_text RemoteFetchError.timeout = bytes "remote request timed out"
remote_error_text RemoteFetchError.not_found = bytes "remote server returned not found"
remote_error_text (RemoteFetchError.server_error status) =
    bytes "remote server returned a server error (status " ++ (decimal status ++ bytes ")")
remote_error_text RemoteFetchError.response_too_large =
    bytes "remote response exceeded the size limit"

abbrev rejected_remote : RemoteFetchError → HttpError
rejected_remote e = Errors.forbidden (some (bytes "remote fetch rejected: " ++ remote_error_text e))

unfoldable pub remote_fetch_error_to_http : RemoteFetchError → HttpError
unfolding Errors.forbidden Errors.not_found Errors.gateway_timeout Errors.payload_too_large
    Errors.bad_gateway remote_error_text
remote_fetch_error_to_http RemoteFetchError.not_found =
    Errors.not_found (some (bytes "remote image not found"))
remote_fetch_error_to_http RemoteFetchError.timeout =
    Errors.gateway_timeout (some (bytes "remote server timed out"))
remote_fetch_error_to_http RemoteFetchError.response_too_large =
    Errors.payload_too_large (some (bytes "remote image exceeds size limit"))
remote_fetch_error_to_http (RemoteFetchError.server_error status) =
    Errors.bad_gateway (some (bytes "failed to fetch remote image"))
remote_fetch_error_to_http (RemoteFetchError.connection_failed e) =
    Errors.bad_gateway (some (bytes "failed to fetch remote image"))
remote_fetch_error_to_http (RemoteFetchError.invalid_url e) =
    rejected_remote (RemoteFetchError.invalid_url e)
remote_fetch_error_to_http RemoteFetchError.unsupported_scheme =
    rejected_remote RemoteFetchError.unsupported_scheme
remote_fetch_error_to_http RemoteFetchError.private_address =
    rejected_remote RemoteFetchError.private_address
remote_fetch_error_to_http RemoteFetchError.too_many_redirects =
    rejected_remote RemoteFetchError.too_many_redirects

-- the arms of `match state.origin.fetch(effective_path).await`
unfoldable pub fetch_error_to_http : FetchError → HttpError
unfolding Errors.not_found Errors.gateway_timeout Errors.payload_too_large Errors.bad_gateway
fetch_error_to_http FetchError.not_found =
    Errors.not_found (some (bytes "image not found at origin"))
fetch_error_to_http FetchError.timeout =
    Errors.gateway_timeout (some (bytes "origin server timed out"))
fetch_error_to_http FetchError.response_too_large =
    Errors.payload_too_large (some (bytes "image exceeds size limit"))
fetch_error_to_http e = Errors.bad_gateway (some (bytes "failed to fetch from origin"))

-- a result, or the response to its error
abbrev pub or_respond : {E A : Type 0} → (E → HttpError) → Result E A → Result Response A
or_respond to_http (ok a) = ok a
or_respond to_http (err e) = err (error_response (to_http e))

abbrev pub to_fetch_result : RemoteFetchResult → FetchResult
to_fetch_result r = record {
  data_bytes = r.data_bytes;
  content_type = r.content_type;
  status_code = r.status_code;
}

module _ {urls : Urls} (w : World urls) (config : Config) where
  -- `AppOrigin::fetch`, over the fetcher that `AppState::new` builds
  unfoldable pub origin_fetch : AppOrigin → Text → Result FetchError FetchResult
  unfolding Fetcher.fetch R2.fetch
  origin_fetch (AppOrigin.http base_url) path =
      Fetcher.fetch w.send base_url config.server.max_request_size path
  origin_fetch AppOrigin.r2 path = R2.fetch w.get_object path

  -- `state.remote_fetcher.fetch`, over the fetcher that `AppState::new` builds
  unfoldable pub remote_fetch : Text → Result RemoteFetchError RemoteFetchResult
  unfolding Remote.fetch
  remote_fetch url = Remote.fetch urls w.send_remote true config.server.max_request_size url

  unfoldable pub fetch_source : AppOrigin → ImageRequest → Result Response FetchResult
  unfolding is_absolute_url_source origin_fetch remote_fetch remote_fetch_error_to_http
      fetch_error_to_http error_response strip_path_prefix
  fetch_source origin req =
      if is_absolute_url_source req.image_path
      then (do
        r ← or_respond remote_fetch_error_to_http (remote_fetch req.image_path)
        ok (to_fetch_result r))
      else or_respond fetch_error_to_http
          (origin_fetch origin (strip_path_prefix config.origin.path_prefix req.image_path))

  -- the loop over `tp.draw`
  module _ (fl : Floats) where
    unfoldable pub fetch_overlays : List (DrawOverlay fl) → Result Response (List Text)
    unfolding remote_fetch remote_fetch_error_to_http error_response
    fetch_overlays [] = ok []
    fetch_overlays (overlay ∷ draw) = elim overlay.url [
      | none ↦ fetch_overlays draw
      | some url ↦ do
        r ← or_respond remote_fetch_error_to_http (remote_fetch url)
        rest ← fetch_overlays draw
        ok (r.data_bytes ∷ rest)
    ]
