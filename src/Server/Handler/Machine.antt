-- ===== src/Server/Handler/Machine.antt =====
-- Requests that interleave: each step is one phase of the handler for one request, or a client that
-- goes away. The tasks that run hold the permits, also those whose client is gone.
pub mod Phases
pub mod Invariant
pub mod Decoded
pub mod Served
use imgx.Base.{ℕ, suc, ◌+◌, Text, Bool, List, ◌∷◌, ◌++◌, ℤ, Result, ok, err, ◌≡◌}
use imgx.Cache.{Cache}
use imgx.Config.{Config}
use imgx.Origin.Remote.{Urls}
use imgx.Router.{ImageRequest}
use imgx.Server.{AppOrigin, Response}
use imgx.Server.Fetches.{World}
use imgx.Server.Handler.{
  Waiting, Running, Finished, AppState, fetch_all, end_task, acquire, release, begin, respond,
}
use imgx.Server.Requests.{Headers, Refusal}
use imgx.Transform.Floats.{Floats}
use imgx.Transform.Pipeline.{Pipeline}

-- The shared state, and the requests in flight by their phase.
pub record Machine (fl : Floats) (S : Type 0) : Type 0 where
  pub state : AppState S
  pub waiting : List (Waiting fl)
  pub running : List (Running fl)
  pub finished : List (Finished fl)

-- a request counted
abbrev pub counted : {S : Type 0} → AppState S → AppState S
counted s = record s { requests_total = s.requests_total + 1 }

module _ (fl : Floats) (xxh3_64 : Text → ℕ) {S : Type 0} (cache : Cache S) (config : Config)
    (pipeline : Pipeline fl) (urls : Urls) (origin : AppOrigin) (Work : S → S → Type 0) where
  -- `Work` is what the cache does between its methods: the tasks that it has spawned.
  pub data Step : Machine fl S → Machine fl S → Type 0 where
    -- a request that the guards or the cache answer
    answering :
        (headers : Headers) (req : ImageRequest) (r : Refusal) (s : AppState S) (m : Machine fl S)
        → begin fl xxh3_64 cache config headers req (counted m.state) ≡ (err r, s)
        → Step m (record m { state = s })
    -- a request that has to be fetched
    arriving :
        (headers : Headers) (req : ImageRequest) (w : Waiting fl) (s : AppState S)
        (m : Machine fl S)
        → begin fl xxh3_64 cache config headers req (counted m.state) ≡ (ok w, s)
        → Step m (record m { state = s; waiting = w ∷ m.waiting })
    -- a fetch that fails, or a client that goes away while it waits
    dropping :
        (w : Waiting fl) (before after : List (Waiting fl)) (m : Machine fl S)
        → m.waiting ≡ before ++ w ∷ after
        → Step m (record m { waiting = before ++ after })
    -- the fetches succeed, and no permit is left
    refusing :
        (world : World urls) (w : Waiting fl) (r : Running fl) (response : Response)
        (s : AppState S) (before after : List (Waiting fl)) (m : Machine fl S)
        → m.waiting ≡ before ++ w ∷ after
        → fetch_all fl world config origin w ≡ ok r
        → acquire fl r m.state ≡ (err response, s)
        → Step m (record m { state = s; waiting = before ++ after })
    -- the fetches succeed, and the task starts
    starting :
        (world : World urls) (w : Waiting fl) (r t : Running fl) (s : AppState S)
        (before after : List (Waiting fl)) (m : Machine fl S)
        → m.waiting ≡ before ++ w ∷ after
        → fetch_all fl world config origin w ≡ ok r
        → acquire fl r m.state ≡ (ok t, s)
        → Step m (record m { state = s; waiting = before ++ after; running = t ∷ m.running })
    -- a task ends, by itself or by a panic
    ending :
        (panics : Bool) (r : Running fl) (before after : List (Running fl)) (m : Machine fl S)
        → m.running ≡ before ++ r ∷ after
        → Step m (record m {
          state = release fl m.state;
          running = before ++ after;
          finished = end_task fl pipeline panics config r ∷ m.finished;
        })
    -- the handler continues after its task
    responding :
        (now : ℤ) (f : Finished fl) (before after : List (Finished fl)) (m : Machine fl S)
        → m.finished ≡ before ++ f ∷ after
        → Step m (record m {
          state = (respond fl xxh3_64 cache config origin now f m.state).1;
          finished = before ++ after;
        })
    -- the client is gone when the task ends
    leaving :
        (f : Finished fl) (before after : List (Finished fl)) (m : Machine fl S)
        → m.finished ≡ before ++ f ∷ after
        → Step m (record m { finished = before ++ after })
    -- a task of the cache runs
    working :
        (c : S) (m : Machine fl S)
        → Work m.state.cache c
        → Step m (record m { state = record m.state { cache = c } })

  pub data Reach (m : Machine fl S) : Machine fl S → Type 0 where
    start : Reach m m
    next : {u v : Machine fl S} → Reach m u → Step u v → Reach m v
