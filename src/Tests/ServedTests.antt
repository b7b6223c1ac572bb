-- ===== src/Tests/ServedTests.antt =====
-- A run of the handler over the tiered cache of the server.
use imgx.Base.{
  ℕ, ◌+◌, Text, bytes, false, some, [], ◌∷◌, pos, ok, ◌≡◌, refl, sym, ap, ◌∙◌, ◌<◌, ◌^◌, arith,
  ok_injective, length, text_eq,
}
use imgx.Cache.{CacheEntry, IsFaithful}
use imgx.Cache.Memory
use imgx.Cache.Memory.{StoredEntry, stored_size, MemoryCache, memory_cache}
use imgx.Cache.Tiered
use imgx.Config.{defaults}
use imgx.Server.{AppOrigin, Response, error_response, strip_path_prefix, build_image_response}
use imgx.Server.Caches.{Work, runs, AppCache, app_cache, get, put}
use imgx.Server.Caches.Faithful.{Good, Work-Good, app_cache-IsFaithful}
use imgx.Server.Handler.{
  Waiting, Running, Finished, AppState, fetch_all, transform_task, end_task, handle_image_request,
  acquire, release, begin, respond,
}
use imgx.Server.Handler.Machine.{
  Machine, Step, Reach, arriving, starting, ending, responding, working, start, next,
}
use imgx.Server.Handler.Machine.Phases.{IsTransformed}
use imgx.Server.Handler.Machine.Invariant.{IsSound, Reach-IsSound}
use imgx.Server.Handler.Machine.Served.{IsServed, faithful, fits, r2, served, Reach-IsServed}
use imgx.Tests.Bucket.{no_objects, client, honest, nothing_held}
use imgx.Tests.Decimals.{decimals}
use imgx.Tests.HandlerTests.{
  pipeline, picture, lru, store, picture_entry, printing, caching, waiting, fetched, hash, origin,
  urls, world, request, no_headers, admitting, fetching,
}
use imgx.Transform.Options.{content_type}
use imgx.Cache.Memory.Contract.{entry_of}
use imgx.Cache.Memory.Eviction.{total}
use imgx.Transform.Pipeline.{TransformResult}

abbrev Caches : Type 0
Caches = AppCache lru store

abbrev first_state : AppState Caches
first_state = record {
  cache = AppCache.tiered (Tiered.new (memory_cache lru) store (Memory.new lru 100) no_objects);
  permits = 2;
  requests_total = 0;
  cache_hits_total = 0;
  cache_misses_total = 0;
}

abbrev Transformed : Text → CacheEntry → Type 0
Transformed = IsTransformed decimals defaults urls origin pipeline

small :
    (k : Text) (e : CacheEntry)
    → Transformed k e
    → length e.data_bytes + length e.content_type + 24 < 2 ^ 63
unfolding transform_task content_type
small k e t =
    let same : picture ≡ t.result = ok_injective t.transformed in
    let body : e.data_bytes ≡ bytes "img" =
      t.body ∙ ap (λ (r : TransformResult). r.data_bytes) (sym same) in
    let type : e.content_type ≡ bytes "image/jpeg" =
      t.type ∙ ap (λ (r : TransformResult). content_type r.format) (sym same) in
    omega (arith, ap length body, ap length type)

-- the caches of the server are faithful to what is transformed
abbrev Kept : Caches → Type 0
Kept =
    Good lru (r2 decimals defaults urls origin pipeline small lru client honest (pos 5))
      (fits decimals defaults urls origin pipeline small lru client honest (pos 5))

abbrev kept_faithful :
    IsFaithful (app_cache lru store) (IsServed decimals defaults urls origin pipeline) (
      Good lru
        (r2 decimals defaults urls origin pipeline small lru client honest (pos 5))
        (fits decimals defaults urls origin pipeline small lru client honest (pos 5)))
kept_faithful = faithful decimals defaults urls origin pipeline small lru client honest (pos 5)

works : (s t : Caches) → Work lru store s t → Kept s → Kept t
works =
    Work-Good lru (r2 decimals defaults urls origin pipeline small lru client honest (pos 5))
      (fits decimals defaults urls origin pipeline small lru client honest (pos 5))

abbrev Sound : ℕ → Machine decimals Caches → Type 0
Sound =
    IsSound decimals hash (app_cache lru store) defaults pipeline urls origin
      (served decimals defaults urls origin pipeline small lru client honest (pos 5)) kept_faithful

abbrev first : Machine decimals Caches
first = record { state = first_state; waiting = []; running = []; finished = [] }

abbrev second : Machine decimals Caches
second = record {
  state = record first_state { requests_total = 1; cache_misses_total = 1 };
  waiting = waiting ∷ [];
  running = [];
  finished = [];
}

abbrev third : Machine decimals Caches
third = record {
  state = record first_state { permits = 1; requests_total = 1; cache_misses_total = 1 };
  waiting = [];
  running = fetched ∷ [];
  finished = [];
}

abbrev outcome : Finished decimals
outcome = record { running = fetched; outcome = ok picture }

abbrev fourth : Machine decimals Caches
fourth = record {
  state = record first_state { permits = 2; requests_total = 1; cache_misses_total = 1 };
  waiting = [];
  running = [];
  finished = outcome ∷ [];
}

abbrev fifth : Machine decimals Caches
fifth = record {
  state = record first_state {
    cache = put lru store waiting.cache_key picture_entry first_state.cache;
    requests_total = 1;
    cache_misses_total = 1;
  };
  waiting = [];
  running = [];
  finished = [];
}

-- Steps of the machine with these parameters.
abbrev Next : Machine decimals Caches → Machine decimals Caches → Type 0
Next = Step decimals hash (app_cache lru store) defaults pipeline urls origin (Work lru store)

arrives : Next first second
unfolding printing admitting begin imgx.Server.Handler.lookup caching
arrives = arriving no_headers request waiting second.state first refl

starts : Next second third
unfolding fetching acquire
starts = starting world waiting fetched fetched third.state [] [] second refl refl refl

ends : Next third fourth
unfolding end_task transform_task release
ends = ending false fetched [] [] third refl

responds : Next fourth fifth
unfolding respond content_type
responds = responding (pos 7) outcome [] [] fourth refl

first-IsSound : Sound 2 first
unfolding caching entry_of total
first-IsSound = record {
  good = record {
    good₁ = (
      record { counted = refl; bounded = omega arith; in_usize = omega arith },
      λ k e h. absurd cc,
    );
    good₂ = λ k key body type read named held. absurd (nothing_held key body type held);
    queued = tt;
  };
  permits = refl;
  counts = omega arith;
  in_flight = omega arith;
  asked = tt;
  fetched = tt;
  outcomes = tt;
}

-- the write to the object store has run
abbrev sixth : Machine decimals Caches
sixth = record fifth {
  state = record fifth.state {
    cache = AppCache.tiered (
        Tiered.run_task (memory_cache lru) store waiting.cache_key picture_entry (record {
          first = Memory.put lru waiting.cache_key picture_entry (Memory.new lru 100);
          second = no_objects;
          tasks = [];
        }));
  };
}

writes : Next fifth sixth
unfolding put Tiered.put Tiered.put_l2_async Tiered.new
writes = working sixth.state.cache fifth (
    runs waiting.cache_key picture_entry [] []
      (Tiered.put (memory_cache lru) store waiting.cache_key picture_entry
        (Tiered.new (memory_cache lru) store (Memory.new lru 100) no_objects))
      refl)

abbrev run :
    Reach decimals hash
      (app_cache lru store)
      defaults
      pipeline
      urls
      origin
      (Work lru store)
      first
      sixth
run = next (next (next (next (next start arrives) starts) ends) responds) writes

hit : (get lru store waiting.cache_key sixth.state.cache).0 ≡ some picture_entry
unfolding printing caching Tiered.run_task
hit = refl

Reach-IsServed_example :
    IsServed decimals defaults urls origin pipeline waiting.cache_key picture_entry
Reach-IsServed_example =
    Reach-IsServed decimals defaults urls origin pipeline small lru client honest (pos 5) hash 2
      waiting.cache_key picture_entry first-IsSound run hit

Reach-IsSound_example : Sound 2 sixth
Reach-IsSound_example =
    Reach-IsSound decimals hash (app_cache lru store) defaults pipeline urls origin
      (served decimals defaults urls origin pipeline small lru client honest (pos 5)) kept_faithful
      (Work lru store) works 2 first-IsSound run

app_cache-IsFaithful_example :
    IsFaithful (app_cache lru store) (IsServed decimals defaults urls origin pipeline) (
      Good lru
        (r2 decimals defaults urls origin pipeline small lru client honest (pos 5))
        (fits decimals defaults urls origin pipeline small lru client honest (pos 5)))
app_cache-IsFaithful_example =
    app_cache-IsFaithful lru
      (r2 decimals defaults urls origin pipeline small lru client honest (pos 5))
      (fits decimals defaults urls origin pipeline small lru client honest (pos 5))
