-- ===== src/Tests/HandlerTests.antt =====
-- The handler, on requests for one image.
use imgx.Base.{
  ℕ, ◌+◌, Text, bytes, true, false, none, some, [], pos, ok, err, ◌≡◌, ◌↔◌, refl, text_beq, text_eq,
  starts_with, contains, take, strip_prefix, join, add_usize, sub_usize,
}
use imgx.Cache.{Cache, CacheEntry, IsSmall, IsFaithful, compute_cache_key}
use imgx.Cache.Lru.{lookup, remove, promote}
use imgx.Cache.Memory
use imgx.Cache.Memory.{StoredEntry, stored_size, MemoryCache, memory_cache}
use imgx.Cache.R2
use imgx.Cache.Tiered
use imgx.Cache.R2.{S3Client, r2_cache, sanitize_key, sanitize_loop}
use imgx.Config.{defaults}
use imgx.Origin.Fetcher
use imgx.Origin.Fetcher.{
  Body, SendError, send_error, FetchResult, build_url, clean_base, clean_path, read_chunks,
  read_response,
}
use imgx.Origin.Remote.{Urls, Host}
use imgx.Origin.R2.{S3Error}
use imgx.Router.{
  ImageRequest, is_absolute_url_source, starts_with_ignore_ascii_case, eq_ignore_ascii_case,
}
use imgx.Http.Errors
use imgx.Server.Handler.Gateway.{IsFetchFailure, fetch_all-failure}
use imgx.Server.{AppOrigin, Response, error_response, strip_path_prefix, build_image_response}
use imgx.Server.Caches.{app_cache, get, put}
use imgx.Server.Fetches.{World, fetch_error_to_http, fetch_source, fetch_overlays, origin_fetch}
use imgx.Server.Requests.{
  Headers, Refusal, admit, parse_options, check_options, check_request, is_slow, key_of,
}
use imgx.Server.Handler.{
  Waiting, Running, AppState, fetch_all, transform_task, handle_image_request,
}
use imgx.Server.Handler.Guards.{IsAdmitted, admit_iff}
use imgx.Server.Handler.Hits.{asked, handle-handle}
use imgx.Tests.Bucket.{Objects, client}
use imgx.Tests.Decimals.{decimals}
use imgx.Tests.ListLru.{list_lru}
use imgx.Transform.Negotiate.{
  cache_format_segment, auto_segment, accept_of, supported_names, supports,
}
use imgx.Transform.Options.{
  OutputFormat, content_type, format_str, fit_str, gravity_str, metadata_str, anim_str,
}
use imgx.Transform.Params.{TransformParams, default_params}
use imgx.Transform.Params.CacheKey.{
  to_cache_key, parts, concat, field, draw_field, draw_parts, all_draw_parts, metadata_part,
  anim_part,
}
use imgx.Transform.Print.{decimal, digits}
use imgx.Transform.Params.Hints.{is_slow_connection}
use imgx.Transform.Params.Parse.{parse}
use imgx.Transform.Params.Validate.{validate, validate_draw, fail_each, apply_scq_override}
use imgx.Transform.Pipeline.{TransformResult, Pipeline}

abbrev pub request : ImageRequest
request = record { image_path = bytes "a.jpg"; transform_string = none }

abbrev pub no_headers : Headers
no_headers name = none

abbrev pub params : TransformParams decimals
params = default_params decimals

unfoldable pub admitting : Unit {0}
unfolding admit parse_options parse check_request check_options validate validate_draw fail_each
    is_slow is_slow_connection apply_scq_override is_absolute_url_source
    starts_with_ignore_ascii_case eq_ignore_ascii_case take
admitting = tt

pub admitted : admit decimals defaults no_headers request ≡ ok params
unfolding admitting
admitted = refl

admit_iff_example :
    (admit decimals defaults no_headers request ≡ ok params)
    ↔ IsAdmitted decimals defaults no_headers request params
admit_iff_example = admit_iff decimals defaults no_headers request params

abbrev pub picture : TransformResult
picture = record {
  data_bytes = bytes "img";
  format = OutputFormat.jpeg;
  width = 1;
  height = 1;
  is_animated = false;
  frame_count = none;
  decoded_at_reduced_size = false;
}

-- a pipeline that gives the same picture for every source
abbrev pub pipeline : Pipeline decimals
pipeline = record {
  transform = λ source tp accept settings. ok picture;
  apply_draw_overlays = λ result draw overlays options. ok result;
}

abbrev pub urls : Urls
urls = record {
  Url = Text;
  parse = λ t. ok t;
  scheme = λ u. bytes "https";
  host = λ u. some (Host.domain u);
}

abbrev pub world : World urls
world = record {
  send = λ url. ok (record {
    status = 200;
    content_type = none;
    content_length = none;
    body = Body.chunk (bytes "raw") Body.done;
  });
  get_object = λ key. err S3Error.not_found;
  send_remote =
      λ url. err (record { is_timeout = true; is_redirect = false; text = []; sources = [] });
}

abbrev pub hash : Text → ℕ
hash t = 255

abbrev pub origin : AppOrigin
origin = AppOrigin.http (bytes "http://o")

abbrev pub lru : imgx.Cache.Lru.LruCache StoredEntry
lru = list_lru StoredEntry

abbrev pub store : Cache Objects
store = r2_cache client (pos 5)

abbrev pub waiting : Waiting decimals
waiting = asked decimals hash (app_cache lru store) defaults no_headers request params admitted

abbrev pub fetched : Running decimals
fetched = record { waiting = waiting; source = bytes "raw"; overlay_bytes = [] }

unfoldable pub fetching : Unit {0}
unfolding fetch_all fetch_source fetch_overlays origin_fetch Fetcher.fetch build_url clean_base
    clean_path read_response read_chunks contains starts_with strip_path_prefix strip_prefix
    admitting
fetching = tt

fetch_all_waiting : fetch_all decimals world defaults origin waiting ≡ ok fetched
unfolding fetching
fetch_all_waiting = refl

abbrev pub picture_entry : CacheEntry
picture_entry = record {
  data_bytes = bytes "img";
  content_type = bytes "image/jpeg";
  created_at = pos 7;
}

unfoldable pub printing : Unit {0}
unfolding key_of compute_cache_key to_cache_key parts concat field draw_field draw_parts
    all_draw_parts metadata_part anim_part join decimal digits format_str fit_str gravity_str
    metadata_str anim_str cache_format_segment auto_segment accept_of supported_names supports
printing = tt

unfoldable pub caching : Unit {0}
unfolding get put Tiered.new Tiered.get Tiered.get_l2 Tiered.put Tiered.put_l2_async R2.get
    R2.get_from R2.put sanitize_key sanitize_loop contains starts_with Memory.new Memory.get
    Memory.put Memory.delete Memory.pop_key Memory.evict_one Memory.evict Memory.store stored_size
    add_usize sub_usize lookup remove promote text_beq
caching = tt

abbrev down : World urls
down = record {
  send = λ url. err (SendError.failed (bytes "down"));
  get_object = λ key. err S3Error.not_found;
  send_remote =
      λ url. err (record { is_timeout = true; is_redirect = false; text = []; sources = [] });
}

fetch_all-down :
    fetch_all decimals down defaults origin waiting
    ≡ err (error_response (Errors.bad_gateway (some (bytes "failed to fetch from origin"))))
unfolding fetching send_error fetch_error_to_http
fetch_all-down = refl

fetch_all-failure_example :
    IsFetchFailure decimals down defaults origin waiting
      (error_response (Errors.bad_gateway (some (bytes "failed to fetch from origin"))))
fetch_all-failure_example =
    fetch_all-failure decimals down defaults origin waiting
      (error_response (Errors.bad_gateway (some (bytes "failed to fetch from origin"))))
      fetch_all-down

abbrev empty_state : AppState (MemoryCache lru)
empty_state = record {
  cache = Memory.new lru 100;
  permits = 1;
  requests_total = 1;
  cache_hits_total = 0;
  cache_misses_total = 0;
}

-- the first answer, and the answer when the origin is down afterwards
abbrev answers : Refusal × AppState (MemoryCache lru)
answers =
    handle_image_request decimals hash (memory_cache lru) defaults pipeline world false (pos 7)
      origin no_headers request empty_state

abbrev picture_response : Response
picture_response =
    build_image_response hash defaults (bytes "img") (content_type OutputFormat.jpeg) none

transformed : transform_task decimals pipeline defaults fetched ≡ ok picture
unfolding transform_task
transformed = refl

empty : (Memory.get lru waiting.cache_key (Memory.new lru 100)).0 ≡ none
unfolding caching
empty = refl

kept :
    (Memory.get lru waiting.cache_key (
      Memory.put lru waiting.cache_key picture_entry
        (Memory.get lru waiting.cache_key (Memory.new lru 100)).1)).0
    ≡ some picture_entry
unfolding printing caching
kept = refl

-- the state after both
abbrev both : Refusal × AppState (MemoryCache lru)
both =
    handle_image_request decimals hash (memory_cache lru) defaults pipeline down true (pos 9) origin
      no_headers request answers.1

handle-handle_example :
    (answers.0 ≡ Refusal.answered picture_response)
    × (both.0 ≡ Refusal.answered picture_response)
    × (both.1.cache_hits_total ≡ empty_state.cache_hits_total + 1)
    × (both.1.cache_misses_total ≡ empty_state.cache_misses_total + 1)
unfolding content_type
handle-handle_example =
    handle-handle decimals hash (memory_cache lru) defaults no_headers request params admitted
      pipeline world origin (pos 7) fetched fetch_all_waiting picture transformed empty_state 0 refl
      empty kept down true (pos 9) pipeline
