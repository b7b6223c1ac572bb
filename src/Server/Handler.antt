-- ===== src/Server/Handler.antt =====
-- crates/imgx/src/server.rs: the request handler over the shared state. The handler awaits between its
-- phases, and other requests run meanwhile: each phase is a function of its own, and
-- `handle_image_request` composes them. The hash of entity tags, the cache, the pipeline, the network
-- and the clock are parameters.
pub mod Guards
pub mod Permits
pub mod Fetched
pub mod Machine
pub mod Hits
pub mod Gateway
use imgx.Base.{
  ℕ, zero, suc, ◌+◌, Text, bytes, Bool, true, false, Option, none, some, List, [], ◌∷◌, ℤ, Result,
  ok, err, ◌>>=◌, if◌then◌else◌,
}
use imgx.Cache.{CacheEntry, Cache}
use imgx.Config.{Config}
use imgx.Http.Errors
use imgx.Origin.Remote.{Urls}
use imgx.Router.{ImageRequest, Route, resolve}
use imgx.Server.{
  AppOrigin, Response, TransformFailure, error_response, build_image_response,
  failed_transform_response,
}
use imgx.Server.Fetches.{World, fetch_source, fetch_overlays}
use imgx.Server.Requests.{Headers, Refusal, crashed, answered, admit, key_of}
use imgx.Transform.Floats.{Floats}
use imgx.Transform.Options.{content_type}
use imgx.Transform.Params.{TransformParams}
use imgx.Transform.Pipeline.{Stop, TransformResult, TransformSettings, Pipeline, new_options}

abbrev pub json_response : ℕ → Text → Response
json_response status body = record {
  status = status;
  headers = (bytes "content-type", bytes "application/json") ∷ [];
  body = body;
}

unfoldable pub at_capacity : Response
at_capacity = json_response 503 (
    bytes
      "{\"error\":{\"status\":503,\"message\":\"Service Unavailable\",\"detail\":\"server at transform capacity, retry shortly\"}}")

-- the answer of the layer that caps the number of connections
unfoldable pub handle_overload : Response
handle_overload = json_response 503 (
    bytes
      "{\"error\":{\"status\":503,\"message\":\"Service Unavailable\",\"detail\":\"server at connection capacity, retry shortly\"}}")

unfoldable pub settings_of : Config → TransformSettings
settings_of config = record {
  limits = record {
    max_pixels = config.transform.max_pixels;
    max_frames = config.transform.max_frames;
    max_animated_pixels = config.transform.max_animated_pixels;
  };
  encoder = record { avif_effort = config.transform.avif_effort };
}

-- A request that the cache could not answer.
pub record Waiting (fl : Floats) : Type 0 where
  pub request : ImageRequest
  pub params : TransformParams fl
  pub cache_key : Text
  pub accept_header : Option Text
  pub if_none_match : Option Text

-- A request whose transform task holds a permit, with the bytes of the source and of the overlays.
pub record Running (fl : Floats) : Type 0 where
  pub waiting : Waiting fl
  pub source : Text
  pub overlay_bytes : List Text

-- A request whose task has ended; what the task gives.
pub record Finished (fl : Floats) : Type 0 where
  pub running : Running fl
  pub outcome : Result TransformFailure TransformResult

-- The shared state that the handler changes.
pub record AppState (S : Type 0) : Type 0 where
  pub cache : S
  pub permits : ℕ
  pub requests_total : ℕ
  pub cache_hits_total : ℕ
  pub cache_misses_total : ℕ

module _ (fl : Floats) where
  -- the fetches of the source and of the overlays
  unfoldable pub fetch_all :
      {urls : Urls} → World urls → Config → AppOrigin → Waiting fl → Result Response (Running fl)
  unfolding fetch_source fetch_overlays
  fetch_all w config origin waiting = do
    fetched ← fetch_source w config origin waiting.request
    overlays ← fetch_overlays w config fl waiting.params.draw
    ok (record { waiting = waiting; source = fetched.data_bytes; overlay_bytes = overlays })

  module _ (pipeline : Pipeline fl) where
    -- the body of the task
    unfoldable pub transform_task : Config → Running fl → Result Stop TransformResult
    unfolding settings_of
    transform_task config r = do
      let tp = r.waiting.params
      result ← pipeline.transform r.source tp r.waiting.accept_header (some (settings_of config))
      pipeline.apply_draw_overlays result tp.draw r.overlay_bytes
          (new_options fl tp (settings_of config).encoder)

    abbrev pub joined : Result Stop TransformResult → Result TransformFailure TransformResult
    joined (ok result) = ok result
    joined (err (Stop.failed e)) = err (TransformFailure.failed e)
    joined (err Stop.panic) = err TransformFailure.panicked

    -- the end of the task; `panics` stands for a panic outside of the pipeline
    unfoldable pub end_task : Bool → Config → Running fl → Finished fl
    unfolding transform_task
    end_task panics config r = record {
      running = r;
      outcome = if panics then err TransformFailure.panicked else joined (transform_task config r);
    }

  module _ {S : Type 0} where
    unfoldable pub acquire : Running fl → AppState S → Result Response (Running fl) × AppState S
    acquire r s = elim s.permits [
      | zero ↦ (err at_capacity, s)
      | suc n ↦ (ok r, record s { permits = n })
    ]

    unfoldable pub release : AppState S → AppState S
    release s = record s { permits = suc s.permits }

  module _ (xxh3_64 : Text → ℕ) {S : Type 0} (cache : Cache S) (config : Config) where
    -- from the key of the cache to a hit or a miss
    unfoldable pub lookup :
        Headers
        → ImageRequest
        → TransformParams fl
        → AppState S
        → Result Refusal (Waiting fl) × AppState S
    unfolding key_of build_image_response
    lookup headers req tp s =
        let key = key_of fl headers req tp in
        let if_none_match = headers (bytes "if-none-match") in
        let (found, c) = cache.get key s.cache in
        elim found [
          | some entry ↦ (
            err (
                answered (
                  build_image_response xxh3_64 config entry.data_bytes entry.content_type
                    if_none_match)),
            record s { cache = c; cache_hits_total = s.cache_hits_total + 1 },
          )
          | none ↦ (
            ok (record {
              request = req;
              params = tp;
              cache_key = key;
              accept_header = headers (bytes "accept");
              if_none_match = if_none_match;
            }),
            record s { cache = c; cache_misses_total = s.cache_misses_total + 1 },
          )
        ]

    -- all that `handle_image_request` does before it awaits a fetch
    unfoldable pub begin :
        Headers → ImageRequest → AppState S → Result Refusal (Waiting fl) × AppState S
    unfolding admit lookup
    begin headers req s = elim (admit fl config headers req) [
      | err refusal ↦ (err refusal, s)
      | ok tp ↦ lookup headers req tp s
    ]

    -- what follows `transform_task.await`
    unfoldable pub respond : AppOrigin → ℤ → Finished fl → AppState S → Response × AppState S
    unfolding content_type build_image_response failed_transform_response
    respond origin now f s = elim f.outcome [
      | ok result ↦ (
        build_image_response xxh3_64 config result.data_bytes (content_type result.format)
            f.running.waiting.if_none_match,
        record s {
          cache =
              cache.put f.running.waiting.cache_key
                (record {
                  data_bytes = result.data_bytes;
                  content_type = content_type result.format;
                  created_at = now;
                })
                s.cache;
        },
      )
      | err failure ↦ (
        failed_transform_response fl xxh3_64 config origin f.running.waiting.request
            f.running.waiting.params f.running.source f.running.waiting.if_none_match failure,
        s,
      )
    ]

    module _ (pipeline : Pipeline fl) {urls : Urls} (w : World urls) (panics : Bool) (now : ℤ)
        (origin : AppOrigin) where
      -- from the permit on
      unfoldable pub run : Running fl → AppState S → Response × AppState S
      unfolding acquire release end_task respond
      run r s =
          let (started, s₁) = acquire r s in
          elim started [
            | err response ↦ (response, s₁)
            | ok r' ↦ respond origin now (end_task pipeline panics config r') (release s₁)
          ]

      -- from the fetch on
      unfoldable pub serve : Waiting fl → AppState S → Response × AppState S
      unfolding fetch_all run
      serve waiting s = elim (fetch_all w config origin waiting) [
        | err response ↦ (response, s)
        | ok r ↦ run r s
      ]

      unfoldable pub handle_image_request :
          Headers → ImageRequest → AppState S → Refusal × AppState S
      unfolding begin serve
      handle_image_request headers req s =
          let (begun, s₁) = begin headers req s in
          elim begun [
            | err refusal ↦ (refusal, s₁)
            | ok waiting ↦ let (response, s₂) = serve waiting s₁ in (answered response, s₂)
          ]

      -- `render` is the text of the metrics recorder, over the counters and the two gauges.
      module _ (render : AppState S → ℕ → ℕ → Text) (uptime_seconds : ℕ) where
        unfoldable pub route_request : Headers → Route → AppState S → Refusal × AppState S
        unfolding handle_image_request error_response
        route_request headers Route.health s =
            (answered (json_response 200 (bytes "{\"status\":\"ok\"}")), s)
        route_request headers Route.ready s =
            (answered (json_response 200 (bytes "{\"ready\":true}")), s)
        route_request headers Route.metrics s = (
          answered (record {
            status = 200;
            headers = (bytes "content-type", bytes "text/plain; version=0.0.4") ∷ [];
            body = render s (cache.size s.cache) uptime_seconds;
          }),
          s,
        )
        route_request headers Route.not_found s =
            (answered (error_response (Errors.not_found none)), s)
        route_request headers (Route.image_request req) s = handle_image_request headers req s

        unfoldable pub handle_request : Headers → Text → AppState S → Refusal × AppState S
        unfolding resolve route_request
        handle_request headers path s =
            route_request headers (resolve path)
              (record s { requests_total = s.requests_total + 1 })
