-- ===== src/Server/Handler/Gateway.antt =====
-- What a request is answered with when a fetch fails.
use imgx.Base.{
  ℕ, Text, true, false, none, some, List, [], ◌∷◌, ok, err, ◌≡◌, inl, inr, ap, sym, ◌∙◌,
  Result-cases, Bool-cases, Option-cases, err_injective,
}
use imgx.Config.{Config}
use imgx.Http.Errors
use imgx.Http.Errors.{HttpError}
use imgx.Origin.Fetcher.{FetchError, FetchResult, UrlError}
use imgx.Origin.Remote.{Urls, RemoteFetchError, RemoteFetchResult}
use imgx.Router.{is_absolute_url_source}
use imgx.Server.{AppOrigin, Response, error_response, strip_path_prefix}
use imgx.Server.Fetches.{
  World, remote_fetch_error_to_http, fetch_error_to_http, origin_fetch, remote_fetch, fetch_source,
  fetch_overlays,
}
use imgx.Server.Handler.{Waiting, fetch_all}
use imgx.Transform.Floats.{Floats}
use imgx.Transform.Params.{DrawOverlay}

-- The status for each error of the configured origin.
pub data OriginStatus : FetchError → ℕ → Type 0 where
  not_found : OriginStatus FetchError.not_found 404
  too_large : OriginStatus FetchError.response_too_large 413
  timeout : OriginStatus FetchError.timeout 504
  connection : (e : Text) → OriginStatus (FetchError.connection_failed e) 502
  server : (s : ℕ) → OriginStatus (FetchError.server_error s) 502
  bad_url : (e : UrlError) → OriginStatus (FetchError.invalid_url e) 502

-- The status for each error of a remote fetch; 403 is for what a guard of it refused.
pub data RemoteStatus : RemoteFetchError → ℕ → Type 0 where
  not_found : RemoteStatus RemoteFetchError.not_found 404
  too_large : RemoteStatus RemoteFetchError.response_too_large 413
  timeout : RemoteStatus RemoteFetchError.timeout 504
  connection : (e : Text) → RemoteStatus (RemoteFetchError.connection_failed e) 502
  server : (s : ℕ) → RemoteStatus (RemoteFetchError.server_error s) 502
  bad_url : (e : Text) → RemoteStatus (RemoteFetchError.invalid_url e) 403
  scheme : RemoteStatus RemoteFetchError.unsupported_scheme 403
  address : RemoteStatus RemoteFetchError.private_address 403
  redirects : RemoteStatus RemoteFetchError.too_many_redirects 403

fetch_error_to_http-status : (e : FetchError) → OriginStatus e (fetch_error_to_http e).status
unfolding fetch_error_to_http Errors.not_found Errors.gateway_timeout Errors.payload_too_large
    Errors.bad_gateway
fetch_error_to_http-status FetchError.not_found = OriginStatus.not_found
fetch_error_to_http-status FetchError.timeout = OriginStatus.timeout
fetch_error_to_http-status FetchError.response_too_large = OriginStatus.too_large
fetch_error_to_http-status (FetchError.connection_failed e) = OriginStatus.connection e
fetch_error_to_http-status (FetchError.server_error s) = OriginStatus.server s
fetch_error_to_http-status (FetchError.invalid_url e) = OriginStatus.bad_url e

remote_fetch_error_to_http-status :
    (e : RemoteFetchError) → RemoteStatus e (remote_fetch_error_to_http e).status
unfolding remote_fetch_error_to_http Errors.forbidden Errors.not_found Errors.gateway_timeout
    Errors.payload_too_large Errors.bad_gateway
remote_fetch_error_to_http-status RemoteFetchError.not_found = RemoteStatus.not_found
remote_fetch_error_to_http-status RemoteFetchError.timeout = RemoteStatus.timeout
remote_fetch_error_to_http-status RemoteFetchError.response_too_large = RemoteStatus.too_large
remote_fetch_error_to_http-status (RemoteFetchError.server_error s) = RemoteStatus.server s
remote_fetch_error_to_http-status (RemoteFetchError.connection_failed e) = RemoteStatus.connection e
remote_fetch_error_to_http-status (RemoteFetchError.invalid_url e) = RemoteStatus.bad_url e
remote_fetch_error_to_http-status RemoteFetchError.unsupported_scheme = RemoteStatus.scheme
remote_fetch_error_to_http-status RemoteFetchError.private_address = RemoteStatus.address
remote_fetch_error_to_http-status RemoteFetchError.too_many_redirects = RemoteStatus.redirects

-- The response is the envelope of an error, whose status is one that is fit.
pub record IsEnvelopeOf (Fit : ℕ → Type 0) (r : Response) : Type 0 where
  pub cause : HttpError
  pub envelope : r ≡ error_response cause
  pub status : Fit cause.status

module _ (fl : Floats) {urls : Urls} (world : World urls) (config : Config) where
  -- The first overlay that cannot be fetched, and why; those before it have no URL or are fetched.
  pub data FirstLost : List (DrawOverlay fl) → RemoteFetchError → Type 0 where
    unfetched :
        (d : DrawOverlay fl) (draw : List (DrawOverlay fl)) (url : Text) (e : RemoteFetchError)
        → d.url ≡ some url
        → remote_fetch world config url ≡ err e
        → FirstLost (d ∷ draw) e
    absent :
        (d : DrawOverlay fl) (draw : List (DrawOverlay fl)) (e : RemoteFetchError)
        → d.url ≡ none
        → FirstLost draw e
        → FirstLost (d ∷ draw) e
    fetched :
        (d : DrawOverlay fl) (draw : List (DrawOverlay fl)) (url : Text) (e : RemoteFetchError)
        (found : RemoteFetchResult)
        → d.url ≡ some url
        → remote_fetch world config url ≡ ok found
        → FirstLost draw e
        → FirstLost (d ∷ draw) e

  -- Which fetch of a request failed, and the envelope of its error.
  pub data IsFetchFailure (origin : AppOrigin) (w : Waiting fl) (r : Response) : Type 0 where
    remote :
        (e : RemoteFetchError)
        → is_absolute_url_source w.request.image_path ≡ true
        → remote_fetch world config w.request.image_path ≡ err e
        → IsEnvelopeOf (RemoteStatus e) r
        → IsFetchFailure origin w r
    configured :
        (e : FetchError)
        → is_absolute_url_source w.request.image_path ≡ false
        → origin_fetch world config origin
            (strip_path_prefix config.origin.path_prefix w.request.image_path)
          ≡ err e
        → IsEnvelopeOf (OriginStatus e) r
        → IsFetchFailure origin w r
    overlay :
        (e : RemoteFetchError) (found : FetchResult)
        → fetch_source world config origin w.request ≡ ok found
        → FirstLost w.params.draw e
        → IsEnvelopeOf (RemoteStatus e) r
        → IsFetchFailure origin w r

  remote_envelope :
      (e : RemoteFetchError) (r : Response)
      → error_response (remote_fetch_error_to_http e) ≡ r
      → IsEnvelopeOf (RemoteStatus e) r
  remote_envelope e r h = record {
    cause = remote_fetch_error_to_http e;
    envelope = sym h;
    status = remote_fetch_error_to_http-status e;
  }

  origin_envelope :
      (e : FetchError) (r : Response)
      → error_response (fetch_error_to_http e) ≡ r
      → IsEnvelopeOf (OriginStatus e) r
  origin_envelope e r h = record {
    cause = fetch_error_to_http e;
    envelope = sym h;
    status = fetch_error_to_http-status e;
  }

  fetch_source-failure :
      (origin : AppOrigin) (w : Waiting fl) (r : Response)
      → fetch_source world config origin w.request ≡ err r
      → IsFetchFailure origin w r
  unfolding fetch_source
  fetch_source-failure origin w r h =
      elim (Bool-cases (is_absolute_url_source w.request.image_path)) [
        | inl absolute ↦ elim (Result-cases (remote_fetch world config w.request.image_path)) [
          | inl (found, got) ↦ absurd (cc (rw (absolute, got, fetch_source) at h))
          | inr (e, lost) ↦
              IsFetchFailure.remote e absolute lost
                (remote_envelope e r (err_injective (rw (absolute, lost, fetch_source) at h)))
        ]
        | inr relative ↦
            elim (Result-cases (
              origin_fetch world config origin
                (strip_path_prefix config.origin.path_prefix w.request.image_path))) [
                  | inl (found, got) ↦ absurd (cc (rw (relative, got, fetch_source) at h))
                  | inr (e, lost) ↦
                      IsFetchFailure.configured e relative lost (
                        origin_envelope e r
                          (err_injective (rw (relative, lost, fetch_source) at h)))
                ]
      ]

  fetch_overlays-failure :
      (draw : List (DrawOverlay fl)) (r : Response)
      → fetch_overlays world config fl draw ≡ err r
      → (e : RemoteFetchError) × FirstLost draw e × IsEnvelopeOf (RemoteStatus e) r
  unfolding fetch_overlays
  fetch_overlays-failure [] r h = absurd cc
  fetch_overlays-failure (d ∷ draw) r h = elim (Option-cases d.url) [
    | inl none_given ↦
        let (e, first, envelope) =
          fetch_overlays-failure draw r (rw (none_given, fetch_overlays) at h) in
        (e, FirstLost.absent d draw e none_given first, envelope)
    | inr (url, named) ↦ elim (Result-cases (remote_fetch world config url)) [
      | inr (e, failed) ↦ (
        e,
        FirstLost.unfetched d draw url e named failed,
        remote_envelope e r (err_injective (rw (named, failed, fetch_overlays) at h)),
      )
      | inl (found, got) ↦ elim (Result-cases (fetch_overlays world config fl draw)) [
        | inl (rest, all) ↦ absurd (cc (rw (named, got, all, fetch_overlays) at h))
        | inr (answer, failed) ↦
            let (e, first, envelope) =
              fetch_overlays-failure draw r
                (failed ∙ ap err (err_injective (rw (named, got, failed, fetch_overlays) at h))) in
            (e, FirstLost.fetched d draw url e found named got first, envelope)
      ]
    ]
  ]

  -- When a request cannot be fetched, the answer is the envelope of the error of the fetch that failed:
  -- of the remote fetch, if the source is an absolute URL, and of the configured origin if not; or,
  -- with the source fetched, of the first overlay that is lost. The status is 404 for what is not
  -- found, 413 for what is too large, 504 for a timeout, 403 exactly for what a guard of the remote
  -- fetcher refused, and 502 for every other error.
  pub fetch_all-failure :
      (origin : AppOrigin) (w : Waiting fl) (r : Response)
      → fetch_all fl world config origin w ≡ err r
      → IsFetchFailure origin w r
  unfolding fetch_all
  fetch_all-failure origin w r h =
      elim (Result-cases (fetch_source world config origin w.request)) [
        | inr (e, lost) ↦
            fetch_source-failure origin w r
              (lost ∙ ap err (err_injective (rw (lost, fetch_all) at h)))
        | inl (found, got) ↦ elim (Result-cases (fetch_overlays world config fl w.params.draw)) [
          | inl (overlays, all) ↦ absurd (cc (rw (got, all, fetch_all) at h))
          | inr (answer, failed) ↦
              let (e, first, envelope) =
                fetch_overlays-failure w.params.draw r
                  (failed ∙ ap err (err_injective (rw (got, failed, fetch_all) at h))) in
              IsFetchFailure.overlay e found got first envelope
        ]
      ]
