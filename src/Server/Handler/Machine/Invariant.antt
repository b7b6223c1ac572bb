-- ===== src/Server/Handler/Machine/Invariant.antt =====
-- What every order of the phases keeps: the permits, the counters, what is known of the requests in
-- flight, and what the cache is relied on for.
use imgx.Base.{
  ℕ, ◌+◌, ◌≤◌, Text, some, ok, err, All, All-pick, length-omit, length, ◌≡◌, refl, sym, ap, ◌∙◌,
  subst, arith,
}
use imgx.Cache.{CacheEntry, Cache, IsFaithful}
use imgx.Config.{Config}
use imgx.Origin.Remote.{Urls}
use imgx.Server.{AppOrigin}
use imgx.Server.Handler.{fetch_all, release}
use imgx.Server.Handler.Machine.{
  Machine, counted, Step, answering, arriving, dropping, refusing, starting, ending, responding,
  leaving, working, Reach, start, next,
}
use imgx.Server.Handler.Fetched.{waiting-fetch_all}
use imgx.Server.Handler.Permits.{acquire-eq-ok, acquire-eq-err}
use imgx.Transform.Floats.{Floats}
use imgx.Transform.Pipeline.{Pipeline}
use imgx.Server.Handler.Machine.Phases.{
  IsAsked, IsFetched, IsTransformed, Begins, begin-Begins, IsOutcome, end_task-IsOutcome,
  respond-good, respond-Same,
}

module _ (fl : Floats) (xxh3_64 : Text → ℕ) {S : Type 0} (cache : Cache S) (config : Config)
    (pipeline : Pipeline fl) (urls : Urls) (origin : AppOrigin) {P : Text → CacheEntry → Type 0}
    (cached : (k : Text) (e : CacheEntry)
      → IsTransformed fl config urls origin pipeline k e
      → P k e)
    {Good : S → Type 0} (c : IsFaithful cache P Good) where
  -- Every step keeps this: the requests in flight passed the guards and were fetched, `Good` of the
  -- cache, as many permits as are not held by tasks, and counters that agree.
  pub record IsSound (total : ℕ) (m : Machine fl S) : Type 0 where
    pub good : Good m.state.cache
    pub permits : m.state.permits + length m.running ≡ total
    pub counts : m.state.cache_hits_total + m.state.cache_misses_total ≤ m.state.requests_total
    pub in_flight :
        length m.waiting + length m.running + length m.finished ≤ m.state.cache_misses_total
    pub asked : All (IsAsked fl config) m.waiting
    pub fetched : All (IsFetched fl config urls origin) m.running
    pub outcomes : All (IsOutcome fl xxh3_64 cache config pipeline urls origin cached c) m.finished

  module _ (Work : S → S → Type 0) (works : (s t : S) → Work s t → Good s → Good t) where
    Step-IsSound :
        (total : ℕ) {m n : Machine fl S}
        → Step fl xxh3_64 cache config pipeline urls origin Work m n
        → IsSound total m
        → IsSound total n
    unfolding release
    Step-IsSound total (answering headers req r s m e) v =
        let b : Begins fl xxh3_64 cache config pipeline urls origin cached c (counted m.state)
            (err r) s =
          subst
            (λ x.
              Begins fl xxh3_64 cache config pipeline urls origin cached c (counted m.state) x.0
                x.1)
            e
            (begin-Begins fl xxh3_64 cache config pipeline urls origin cached c headers req
              (counted m.state)) in
        record {
          good = b.good v.good;
          permits = omega (arith, b.permits, v.permits);
          counts = omega (arith, b.counts, b.requests, v.counts);
          in_flight = omega (arith, b.misses, v.in_flight);
          asked = v.asked;
          fetched = v.fetched;
          outcomes = v.outcomes;
        }
    Step-IsSound total (arriving headers req w s m e) v =
        let b : Begins fl xxh3_64 cache config pipeline urls origin cached c (counted m.state)
            (ok w) s =
          subst
            (λ x.
              Begins fl xxh3_64 cache config pipeline urls origin cached c (counted m.state) x.0
                x.1)
            e
            (begin-Begins fl xxh3_64 cache config pipeline urls origin cached c headers req
              (counted m.state)) in
        let (asked, more) = b.asked w refl in
        record {
          good = b.good v.good;
          permits = omega (arith, b.permits, v.permits);
          counts = omega (arith, b.counts, b.requests, v.counts);
          in_flight = omega (arith, more, v.in_flight);
          asked = (asked, v.asked);
          fetched = v.fetched;
          outcomes = v.outcomes;
        }
    Step-IsSound total (dropping w before after m e) v = record {
      good = v.good;
      permits = v.permits;
      counts = v.counts;
      in_flight = omega (arith, length-omit before after w e, v.in_flight);
      asked = (All-pick (IsAsked fl config) before after e v.asked).1;
      fetched = v.fetched;
      outcomes = v.outcomes;
    }
    Step-IsSound total (refusing world w r response s before after m e f a) v =
        let same : m.state ≡ s = acquire-eq-err fl r response m.state s a in
        rw (← same) (record {
          good = v.good;
          permits = v.permits;
          counts = v.counts;
          in_flight = omega (arith, length-omit before after w e, v.in_flight);
          asked = (All-pick (IsAsked fl config) before after e v.asked).1;
          fetched = v.fetched;
          outcomes = v.outcomes;
        })
    Step-IsSound total (starting world w r t s before after m e f a) v =
        let (same, left, (c₁, c₂, c₃, c₄)) = acquire-eq-ok fl r t m.state s a in
        let (asked, rest) = All-pick (IsAsked fl config) before after e v.asked in
        let fetched : IsFetched fl config urls origin r = record {
          asked =
              subst (IsAsked fl config) (sym (waiting-fetch_all fl world config origin w r f))
                asked;
          world = world;
          fetched =
              ap (fetch_all fl world config origin) (waiting-fetch_all fl world config origin w r f)
              ∙ f;
        } in
        record {
          good = subst Good c₁ v.good;
          permits = omega (arith, left, v.permits);
          counts = omega (arith, c₂, c₃, c₄, v.counts);
          in_flight = omega (arith, c₄, length-omit before after w e, v.in_flight);
          asked = rest;
          fetched = (subst (IsFetched fl config urls origin) same fetched, v.fetched);
          outcomes = v.outcomes;
        }
    Step-IsSound total (ending panics r before after m e) v =
        let (fetched, rest) = All-pick (IsFetched fl config urls origin) before after e v.fetched in
        record {
          good = v.good;
          permits = omega (arith, length-omit before after r e, v.permits);
          counts = v.counts;
          in_flight = omega (arith, length-omit before after r e, v.in_flight);
          asked = v.asked;
          fetched = rest;
          outcomes = (
            end_task-IsOutcome fl xxh3_64 cache config pipeline urls origin cached c panics r
                fetched,
            v.outcomes,
          );
        }
    Step-IsSound total (responding now f before after m e) v =
        let (outcome, rest) =
          All-pick (IsOutcome fl xxh3_64 cache config pipeline urls origin cached c) before after e
            v.outcomes in
        let (p, q, h, i) =
          respond-Same fl xxh3_64 cache config pipeline urls origin cached c now f m.state in
        record {
          good =
              respond-good fl xxh3_64 cache config pipeline urls origin cached c now f m.state
                outcome v.good;
          permits = omega (arith, p, v.permits);
          counts = omega (arith, q, h, i, v.counts);
          in_flight = omega (arith, i, length-omit before after f e, v.in_flight);
          asked = v.asked;
          fetched = v.fetched;
          outcomes = rest;
        }
    Step-IsSound total (leaving f before after m e) v = record {
      good = v.good;
      permits = v.permits;
      counts = v.counts;
      in_flight = omega (arith, length-omit before after f e, v.in_flight);
      asked = v.asked;
      fetched = v.fetched;
      outcomes =
          (All-pick (IsOutcome fl xxh3_64 cache config pipeline urls origin cached c) before after e
            v.outcomes).1;
    }
    Step-IsSound total (working cache' m w) v = record {
      good = works m.state.cache cache' w v.good;
      permits = v.permits;
      counts = v.counts;
      in_flight = v.in_flight;
      asked = v.asked;
      fetched = v.fetched;
      outcomes = v.outcomes;
    }

    -- From a sound state, after any interleaving of the phases of any requests, whatever the network
    -- answers, whichever tasks panic, whichever clients go away and whatever the cache does in between: the state is sound. In particular no
    -- more transforms run than there are permits, and every miss and hit was a request.
    pub Reach-IsSound :
        (total : ℕ) {m n : Machine fl S}
        → IsSound total m
        → Reach fl xxh3_64 cache config pipeline urls origin Work m n
        → IsSound total n
    Reach-IsSound total v start = v
    Reach-IsSound total v (next r st) = Step-IsSound total st (Reach-IsSound total v r)

    -- What the cache returns for a key satisfies there what every transformed image satisfies.
    pub Reach-get :
        (total : ℕ) {m n : Machine fl S} (k : Text) (e : CacheEntry)
        → IsSound total m
        → Reach fl xxh3_64 cache config pipeline urls origin Work m n
        → (cache.get k n.state.cache).0 ≡ some e
        → P k e
    Reach-get total {n = n} k e v r h =
        c.get_sound k e n.state.cache (IsSound.good (Reach-IsSound total v r)) h
