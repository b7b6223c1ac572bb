-- ===== src/Server/Handler/Machine/Phases.antt =====
-- What each phase of the handler does to what is known of a request, to the cache, and to the counters.
use imgx.Base.{
  ℕ, ◌+◌, ◌≤◌, Text, Bool, true, false, ℤ, Result, ok, err, ◌≡◌, refl, ap, subst, arith, inl, inr,
  Option-cases, Result-cases, ok_injective,
}
use imgx.Cache.{CacheEntry, Cache, IsFaithful}
use imgx.Config.{Config}
use imgx.Origin.Remote.{Urls}
use imgx.Router.{ImageRequest}
use imgx.Server.{AppOrigin}
use imgx.Server.Fetches.{World}
use imgx.Server.Handler.{
  Waiting, Running, Finished, AppState, fetch_all, transform_task, joined, end_task, lookup, begin,
  respond,
}
use imgx.Server.Handler.Guards.{IsAdmitted, admit_iff}
use imgx.Server.Requests.{Headers, Refusal, admit, key_of}
use imgx.Transform.Floats.{Floats}
use imgx.Transform.Options.{content_type}
use imgx.Transform.Params.{TransformParams}
use imgx.Transform.Pipeline.{Stop, TransformResult, Pipeline}

module _ (fl : Floats) (config : Config) where
  -- A request that passed the guards, under the key of the cache for it.
  pub record IsAsked (w : Waiting fl) : Type 0 where
    pub headers : Headers
    pub admitted : IsAdmitted fl config headers w.request w.params
    pub key : w.cache_key ≡ key_of fl headers w.request w.params

module _ (fl : Floats) (config : Config) (urls : Urls) where
  -- A request that passed the guards, with the source and the overlays that the network answered.
  pub record IsFetched (origin : AppOrigin) (r : Running fl) : Type 0 where
    pub asked : IsAsked fl config r.waiting
    pub world : World urls
    pub fetched : fetch_all fl world config origin r.waiting ≡ ok r

  -- The entry holds what the pipeline gives for a fetched request with this key.
  pub record IsTransformed (origin : AppOrigin) (pipeline : Pipeline fl) (k : Text) (e : CacheEntry)
      : Type 0 where
    pub running : Running fl
    pub fetched : IsFetched origin running
    pub key : k ≡ running.waiting.cache_key
    pub result : TransformResult
    pub transformed : transform_task fl pipeline config running ≡ ok result
    pub body : e.data_bytes ≡ result.data_bytes
    pub type : e.content_type ≡ content_type result.format

module _ (fl : Floats) (xxh3_64 : Text → ℕ) {S : Type 0} (cache : Cache S) (config : Config)
    (pipeline : Pipeline fl) (urls : Urls) (origin : AppOrigin) {P : Text → CacheEntry → Type 0}
    (cached : (k : Text) (e : CacheEntry)
      → IsTransformed fl config urls origin pipeline k e
      → P k e)
    {Good : S → Type 0} (c : IsFaithful cache P Good) where
  -- What the first phase does to the state.
  pub record Begins (s : AppState S) (b : Result Refusal (Waiting fl)) (t : AppState S)
      : Type 0 where
    pub permits : t.permits ≡ s.permits
    pub requests : t.requests_total ≡ s.requests_total
    pub good : Good s.cache → Good t.cache
    pub counts :
        t.cache_hits_total + t.cache_misses_total ≤ s.cache_hits_total + s.cache_misses_total + 1
    pub misses : s.cache_misses_total ≤ t.cache_misses_total
    pub asked :
        (w : Waiting fl)
        → b ≡ ok w
        → IsAsked fl config w × (t.cache_misses_total ≡ s.cache_misses_total + 1)

  lookup-Begins :
      (headers : Headers) (req : ImageRequest) (tp : TransformParams fl) (s : AppState S)
      → IsAdmitted fl config headers req tp
      → Begins s
          (lookup fl xxh3_64 cache config headers req tp s).0
          (lookup fl xxh3_64 cache config headers req tp s).1
  unfolding lookup
  lookup-Begins headers req tp s a =
      let k = key_of fl headers req tp in
      elim (Option-cases (cache.get k s.cache).0) [
        | inl miss ↦
            rw (miss, lookup)
              (record {
                permits = refl;
                requests = refl;
                good = c.get-Good k s.cache;
                counts = omega arith;
                misses = omega arith;
                asked = λ w e. (
                  subst (IsAsked fl config) (ok_injective e)
                      (record { headers = headers; admitted = a; key = refl }),
                  refl,
                );
              })
        | inr (entry, hit) ↦
            rw (hit, lookup)
              (record {
                permits = refl;
                requests = refl;
                good = c.get-Good k s.cache;
                counts = omega arith;
                misses = omega arith;
                asked = λ w e. absurd cc;
              })
      ]

  pub begin-Begins :
      (headers : Headers) (req : ImageRequest) (s : AppState S)
      → Begins s
          (begin fl xxh3_64 cache config headers req s).0
          (begin fl xxh3_64 cache config headers req s).1
  unfolding begin
  begin-Begins headers req s = elim (Result-cases (admit fl config headers req)) [
    | inr (refusal, refused) ↦
        rw (refused, begin)
          (record {
            permits = refl;
            requests = refl;
            good = λ g. g;
            counts = omega arith;
            misses = omega arith;
            asked = λ w e. absurd cc;
          })
    | inl (tp, admitted) ↦
        rw (admitted, begin)
          (lookup-Begins headers req tp s ((admit_iff fl config headers req tp).0 admitted))
  ]

  -- What a task that ended gives, if it gives anything.
  abbrev pub IsOutcome : Finished fl → Type 0
  IsOutcome f =
      IsFetched fl config urls origin f.running
      × ((result : TransformResult)
          → f.outcome ≡ ok result
          → transform_task fl pipeline config f.running ≡ ok result)

  joined-eq-ok :
      (m : Result Stop TransformResult) (result : TransformResult)
      → joined fl pipeline m ≡ ok result
      → m ≡ ok result
  joined-eq-ok (ok a) result h = ap ok (ok_injective h)
  joined-eq-ok (err (Stop.failed e)) result h = absurd cc
  joined-eq-ok (err Stop.panic) result h = absurd cc

  pub end_task-IsOutcome :
      (panics : Bool) (r : Running fl)
      → IsFetched fl config urls origin r
      → IsOutcome (end_task fl pipeline panics config r)
  unfolding end_task
  end_task-IsOutcome true r f = (f, λ result h. absurd cc)
  end_task-IsOutcome false r f =
      (f, λ result h. joined-eq-ok (transform_task fl pipeline config r) result h)

  pub respond-good :
      (now : ℤ) (f : Finished fl) (s : AppState S)
      → IsOutcome f
      → Good s.cache
      → Good (AppState.cache (respond fl xxh3_64 cache config origin now f s).1)
  unfolding respond
  respond-good now f s (fetched, succeeds) g = elim (Result-cases f.outcome) [
    | inr (failure, failed) ↦ rw (failed, respond) g
    | inl (result, done) ↦
        rw (done, respond)
          (c.put-Good f.running.waiting.cache_key _ s.cache
            (cached f.running.waiting.cache_key _ (record {
              running = f.running;
              fetched = fetched;
              key = refl;
              result = result;
              transformed = succeeds result done;
              body = refl;
              type = refl;
            }))
            g)
  ]

  pub respond-Same :
      (now : ℤ) (f : Finished fl) (s : AppState S)
      → (AppState.permits (respond fl xxh3_64 cache config origin now f s).1 ≡ s.permits)
        × (AppState.requests_total (respond fl xxh3_64 cache config origin now f s).1
            ≡ s.requests_total)
        × (AppState.cache_hits_total (respond fl xxh3_64 cache config origin now f s).1
            ≡ s.cache_hits_total)
        × (AppState.cache_misses_total (respond fl xxh3_64 cache config origin now f s).1
            ≡ s.cache_misses_total)
  unfolding respond
  respond-Same now f s = elim (Result-cases f.outcome) [
    | inr (failure, failed) ↦ rw (failed, respond) (refl, refl, refl, refl)
    | inl (result, done) ↦ rw (done, respond) (refl, refl, refl, refl)
  ]
