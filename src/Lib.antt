-- ===== src/Lib.antt =====
-- The image service imgx: a verification library for the crate crates/imgx.
--
-- A request comes in as a path. The router (crates/imgx/src/router.rs) splits it into options and a
-- source; the options are parsed and checked (transform/params.rs); the format is negotiated from
-- the `Accept` header (transform/negotiate.rs); path, options and format make the cache key
-- (cache/mod.rs). On a miss the source is fetched from the origin (origin/fetcher.rs) or, if it is a
-- URL and that is allowed, by the guarded fetcher (origin/remote.rs), transformed by libvips, put
-- into the cache, and sent with an entity tag (http/response.rs). Errors are sent as a JSON envelope
-- (http/errors.rs). The process starts from a checked configuration (config.rs). The handler of
-- server.rs runs these in order; a semaphore caps the transforms that run at once.
--
-- Which file models which part:
-- - Base: texts as lists of bytes with the methods of `&str` that the source calls, results with
--   `do` blocks, chains of checks, machine arithmetic, and laws of these.
-- - Router: `sanitize_path`, `resolve`, `is_absolute_url_source`; Router/Traversal is about the
--   tests for `..`, Router/Accepted and Router/Routes about what is accepted and what it means.
-- - Cache: the trait `Cache` as a record of operations on a state, its contract `IsCache`, what the
--   server relies on (`IsFaithful`, from the contract in Cache/Faithful), and `compute_cache_key`.
--   Cache/R2/Faithful states as `IsHonest` what is asked of the object store. Cache/Lru is the crate lru as a parameter with its documented laws;
--   Cache/Memory, Cache/Noop, Cache/Tiered and Cache/R2 are the four implementations. The L2 writes
--   that the tiered cache spawns are a queue in its state: they run, or are lost, between the calls
--   of methods in any order.
-- - Transform/Options, Numbers, Print: the values of options, read and written. Transform/Params:
--   `parse`, `validate`, `apply_scq_override`, `to_cache_key`. Transform/Negotiate: negotiate.rs.
--   Transform/Floats is `f32` as a parameter: a type and the operations that the source calls.
-- - Http/Errors and Http/Response: the envelope, `status_text`, entity tags and cache control. The
--   hash of the crate xxhash-rust is a parameter.
-- - Origin/Fetcher: `build_url` and `fetch`, over what a request of the crate reqwest gives.
--   Origin/R2: the fetch from a bucket, over the client of the object store.
--   Origin/Addresses and Origin/Remote: the guards of remote.rs, over the crates url and reqwest and
--   the DNS; Origin/Remote/Reach states how reqwest is documented to follow redirects and to connect
--   as two relations.
-- - S3: the client of the object store (s3/client.rs), over the crates rusty-s3 and reqwest as the
--   record `Http`; S3/Store states what the service is documented to do, and composes the client with
--   the cache over it.
-- - Config: `load_from_env`, over the environment as a function, and `validate`.
-- - Transform/Vips: the readers of images of crates/imgx-vips, over libvips as the record `Vips` and
--   the arithmetic of `f64` as the record `Doubles`. Transform/Pipeline: transform/pipeline.rs, a file
--   for each stage: Probe (first frame, budgets, animation), Crops (frame, trims, rotation), Resize and
--   Stages (the resizes), Effects, Encode, Run (`transform`), Overlays (`apply_draw_overlays`). The
--   record `Pipeline` is what the server calls. Transform/Thumbhash: transform/thumbhash.rs, its
--   channels, its hash and its base64.
-- - Server: the responses of server.rs to a failed transform and to an image. Server/Requests: the
--   guards and the cache key of `handle_image_request`; Server/Fetches: its fetches, over the network
--   as the record `World`; Server/Handler: its phases, and `handle_request`; Server/Handler/Machine:
--   many requests, whose phases interleave in any order, over the caches of the server in
--   Server/Handler/Machine/Served; Server/Handler/Machine/Decoded is about the pipeline itself;
--   Server/Caches: `AppCache` and `AppState::new`.
-- - Tests: runs on concrete inputs and instances of the theorems, with a list as the map of the LRU,
--   a list as the bucket, hundredths as the numbers of type `f32`, ten-thousandths as those of `f64`,
--   and sizes as images.
--
-- Numbers are natural numbers; where the source can overflow, the bound of the type is written out:
-- `usize` has 64 bits and wraps in the sums of the memory cache, as in a release build, and parsing
-- a number fails above the bound of its type. `IsSmall` says that an entry is no bigger than an
-- allocation can be. The eviction loop runs on as much fuel as the map has entries, and each round
-- removes one; the loop stops by its own condition at the latest when the map is empty. A number is
-- printed with fuel for 20 digits, enough for 64 bits.
--
-- An `i32` is an integer with a sign (Base/Signed), and its sums, differences and products wrap as in
-- a release build. The loop over the coefficients of one row of a hash has fuel for one more than the
-- number of columns, more than its test admits. A panic inside of the pipeline is a value, and the
-- task that runs it may panic for other reasons, by the argument `panics`.
--
-- The handler awaits between its phases, and each phase is one step: other requests run between the
-- lookup in the cache, the fetches, the task, and the put into the cache, and a client may go away at
-- each await. A task keeps its permit until it ends, also when its client is gone.
--
-- Not modelled: what libvips does inside (crates/imgx-vips, the parameter `Vips`), the layer that
-- sheds requests above the number of connections but for its answer, the rendering of the metrics,
-- and the start of the process (main.rs, crates/imgx-edge). Log lines are left out, and the clock is
-- an argument. Two awaits inside one method of the tiered cache are one step. `set_int` changes an
-- image in place in the source; here it gives the changed image, which every later stage uses.
pub mod Base
pub mod Cache
pub mod Router
pub mod S3
pub mod Transform
pub mod Http
pub mod Origin
pub mod Config
pub mod Server
pub mod Tests
