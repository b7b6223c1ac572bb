-- ===== src/Server/Handler/Hits.antt =====
-- What a request is answered with when its transform succeeds, and what the same request is answered
-- with afterwards.
use imgx.Base.{ℕ, suc, ◌+◌, Text, bytes, Bool, false, none, some, ℤ, ok, err, ◌≡◌, refl, ap}
use imgx.Cache.{CacheEntry, Cache}
use imgx.Config.{Config}
use imgx.Origin.Remote.{Urls}
use imgx.Router.{ImageRequest}
use imgx.Server.{AppOrigin, Response, build_image_response}
use imgx.Server.Fetches.{World}
use imgx.Server.Handler.{
  Waiting, Running, AppState, fetch_all, transform_task, end_task, acquire, release, lookup, begin,
  respond, run, serve, handle_image_request,
}
use imgx.Server.Handler.Fetched.{waiting-fetch_all}
use imgx.Server.Requests.{Headers, answered, admit, key_of}
use imgx.Transform.Floats.{Floats}
use imgx.Transform.Options.{content_type}
use imgx.Transform.Params.{TransformParams}
use imgx.Transform.Pipeline.{TransformResult, Pipeline}

module _ (fl : Floats) (xxh3_64 : Text → ℕ) {S : Type 0} (cache : Cache S) (config : Config)
    (headers : Headers) (req : ImageRequest) (tp : TransformParams fl)
    (admitted : admit fl config headers req ≡ ok tp) where
  abbrev key : Text
  key = key_of fl headers req tp

  abbrev pub asked : Waiting fl
  asked = record {
    request = req;
    params = tp;
    cache_key = key;
    accept_header = headers (bytes "accept");
    if_none_match = headers (bytes "if-none-match");
  }

  abbrev after_miss : AppState S → AppState S
  after_miss s = record s {
    cache = (cache.get key s.cache).1;
    cache_misses_total = s.cache_misses_total + 1;
  }

  begin-miss :
      (s : AppState S)
      → (cache.get key s.cache).0 ≡ none
      → begin fl xxh3_64 cache config headers req s ≡ (ok asked, after_miss s)
  unfolding begin lookup
  begin-miss s miss = rw (admitted, miss, begin, lookup) refl

  abbrev after_hit : AppState S → AppState S
  after_hit s = record s {
    cache = (cache.get key s.cache).1;
    cache_hits_total = s.cache_hits_total + 1;
  }

  -- the response that a hit is answered with
  abbrev hit_response : CacheEntry → Response
  hit_response e =
      build_image_response xxh3_64 config e.data_bytes e.content_type
        (headers (bytes "if-none-match"))

  begin-hit :
      (s : AppState S) (e : CacheEntry)
      → (cache.get key s.cache).0 ≡ some e
      → begin fl xxh3_64 cache config headers req s ≡ (err (answered (hit_response e)), after_hit s)
  unfolding begin lookup
  begin-hit s e hit = rw (admitted, hit, begin, lookup) refl

  handle-hit :
      (pipeline : Pipeline fl) {urls : Urls} (w : World urls) (panics : Bool) (now : ℤ)
      (origin : AppOrigin) (s : AppState S) (e : CacheEntry)
      → (cache.get key s.cache).0 ≡ some e
      → handle_image_request fl xxh3_64 cache config pipeline w panics now origin headers req s
        ≡ (answered (hit_response e), after_hit s)
  unfolding handle_image_request
  handle-hit pipeline w panics now origin s e hit =
      let begun = begin-hit s e hit in
      rw (ap (λ x. x.0) begun, ap (λ x. x.1) begun, handle_image_request) refl

  module _ (pipeline : Pipeline fl) {urls : Urls} (w : World urls) (origin : AppOrigin) (now : ℤ)
      (r : Running fl) (fetched : fetch_all fl w config origin asked ≡ ok r)
      (result : TransformResult) (done : transform_task fl pipeline config r ≡ ok result)
      (s : AppState S) (n : ℕ) (permitted : s.permits ≡ suc n) where
    abbrev pub stored : CacheEntry
    stored = record {
      data_bytes = result.data_bytes;
      content_type = content_type result.format;
      created_at = now;
    }

    abbrev pub served : Response
    served =
        build_image_response xxh3_64 config result.data_bytes (content_type result.format)
          (headers (bytes "if-none-match"))

    abbrev after_put : AppState S → AppState S
    after_put t = record t { cache = cache.put key stored t.cache; permits = suc n }

    end_task-success :
        end_task fl pipeline false config r ≡ record { running = r; outcome = ok result }
    unfolding end_task
    end_task-success = rw (done, end_task) refl

    respond-success :
        (t : AppState S)
        → respond fl xxh3_64 cache config origin now (record { running = r; outcome = ok result }) t
          ≡ (served, record t { cache = cache.put key stored t.cache })
    unfolding respond
    respond-success t = rw (waiting-fetch_all fl w config origin asked r fetched) refl

    acquire-success :
        (t : AppState S) → t.permits ≡ suc n → acquire fl r t ≡ (ok r, record t { permits = n })
    unfolding acquire
    acquire-success t left = rw (left, acquire) refl

    run-success :
        (t : AppState S)
        → t.permits ≡ suc n
        → run fl xxh3_64 cache config pipeline w false now origin r t ≡ (served, after_put t)
    unfolding run acquire release
    run-success t left =
        let acquired = acquire-success t left in
        rw (ap (λ x. x.0) acquired, ap (λ x. x.1) acquired, run)
          (rw end_task-success (respond-success (record t { permits = suc n })))

    serve-success :
        (t : AppState S)
        → t.permits ≡ suc n
        → serve fl xxh3_64 cache config pipeline w false now origin asked t ≡ (served, after_put t)
    unfolding serve
    serve-success t left = rw (fetched, serve) (run-success t left)

    handle-success :
        (cache.get key s.cache).0 ≡ none
        → handle_image_request fl xxh3_64 cache config pipeline w false now origin headers req s
          ≡ (answered served, after_put (after_miss s))
    unfolding handle_image_request
    handle-success miss =
        let begun = begin-miss s miss in
        let answer = serve-success (after_miss s) permitted in
        rw (ap (λ x. x.0) begun, ap (λ x. x.1) begun, handle_image_request)
          (rw (ap (λ x. x.0) answer, ap (λ x. x.1) answer) refl)

    -- A request that passes the guards, misses the cache, is fetched, gets a permit and is transformed
    -- is answered with the transformed bytes. If the cache gives back what is put into it then, the
    -- same request sent again is answered with the same response, whatever the network and the
    -- pipeline do by then, and one hit and one miss are counted for the two.
    pub handle-handle :
        (cache.get key s.cache).0 ≡ none
        → (cache.get key (cache.put key stored (cache.get key s.cache).1)).0 ≡ some stored
        → {urls' : Urls} (w' : World urls') (panics : Bool) (now' : ℤ) (pipeline' : Pipeline fl)
        → let (answer, s') =
            handle_image_request fl xxh3_64 cache config pipeline w false now origin headers req
              s in
          let (answer', s'') =
            handle_image_request fl xxh3_64 cache config pipeline' w' panics now' origin headers req
              s' in
          (answer ≡ answered served)
          × (answer' ≡ answered served)
          × (s''.cache_hits_total ≡ s.cache_hits_total + 1)
          × (s''.cache_misses_total ≡ s.cache_misses_total + 1)
    handle-handle miss kept w' panics now' pipeline' =
        let t = after_put (after_miss s) in
        let handled = handle-success miss in
        let hit = handle-hit pipeline' w' panics now' origin t stored kept in
        rw (ap (λ x. x.0) handled, ap (λ x. x.1) handled)
          (
            refl,
            ap (λ x. x.0) hit,
            ap (λ x. AppState.cache_hits_total x.1) hit,
            ap (λ x. AppState.cache_misses_total x.1) hit,
          )
