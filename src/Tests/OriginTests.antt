-- ===== src/Tests/OriginTests.antt =====
-- Fetches and their guards.
use imgx.Base.{
  Text, bytes, true, not, Option, none, some, List, [], ◌∷◌, ◌≡◌, ◌↔◌, ◌≤◌, refl, arith, contains,
  starts_with, Result, ok, Any, text_beq,
}
use imgx.Origin.Addresses.{Ipv4Addr, IpAddr, is_v4_globally_routable, is_globally_routable}
use imgx.Origin.Addresses.Blocks.{is_in, number, blocked, is_v4_globally_routable_lem}
use imgx.Origin.Fetcher.{
  Body, Response, SendError, FetchResult, build_url, clean_base, clean_path, read_chunks,
  read_response, fetch,
}
use imgx.Base.{if◌then◌else◌, ◌==◌, text_eq}
use imgx.Origin.R2
use imgx.Origin.R2.{S3Error, S3Response, r2_fetch_iff}
use imgx.Origin.Fetcher.Limits.{IsServed, fetch_iff}
use imgx.Origin.Remote.{
  Urls, Host, is_http, keep_routable, resolve, literal_ip_host_is_private, redirect_policy,
  check_url,
}
use imgx.Origin.Remote.Reach.{Requests, Connects, Requests-Connects}

abbrev metadata_service : Ipv4Addr
metadata_service = record { a = 169; b = 254; c = 169; d = 254 }

is_v4_globally_routable_lem_example :
    is_v4_globally_routable metadata_service ≡ not (is_in (number metadata_service) blocked)
is_v4_globally_routable_lem_example = is_v4_globally_routable_lem metadata_service (omega arith)

-- `198.18.0.1`, of the block for benchmarks, and `240.0.0.1`, of the reserved block
open_blocks :
    (is_v4_globally_routable (record { a = 198; b = 18; c = 0; d = 1 }) ≡ true)
    × (is_v4_globally_routable (record { a = 240; b = 0; c = 0; d = 1 }) ≡ true)
unfolding is_v4_globally_routable
open_blocks = (refl, refl)

abbrev answer : Response
answer = record {
  status = 200;
  content_type = some (bytes "image/png");
  content_length = none;
  body = Body.chunk (bytes "ab") (Body.chunk (bytes "c") Body.done);
}

abbrev origin : Text → Result SendError Response
origin url = ok answer

abbrev fetched : FetchResult
fetched = record { data_bytes = bytes "abc"; content_type = bytes "image/png"; status_code = 200 }

fetching : fetch origin (bytes "http://o/") 3 (bytes "/a.png") ≡ ok fetched
unfolding fetch build_url clean_base clean_path read_response read_chunks contains starts_with
fetching = refl

fetch_iff_example : (fetch origin (bytes "http://o/") 3 (bytes "/a.png") ≡ ok fetched) ↔ (
    (url : Text) × (resp : Response) × (build_url (bytes "http://o/") (bytes "/a.png") ≡ ok url)
    × (origin url ≡ ok resp)
    × IsServed 3 resp fetched)
fetch_iff_example = fetch_iff origin (bytes "http://o/") 3 (bytes "/a.png") fetched

-- URLs for the tests: the scheme and the host.
abbrev urls : Urls
urls = record {
  Url = Text × Option Host;
  parse = λ t. ok (bytes "https", some (Host.domain t));
  scheme = λ u. u.0;
  host = λ u. u.1;
}

abbrev public : IpAddr
public = IpAddr.v4 (record { a = 93; b = 184; c = 215; d = 14 })

abbrev dns : Text → Result Text (List IpAddr)
dns name = ok (IpAddr.v4 (record { a = 127; b = 0; c = 0; d = 1 }) ∷ public ∷ [])

abbrev start : Text × Option Host
start = (bytes "https", some (Host.domain (bytes "example.com")))

remote : Unit {0}
unfolding check_url literal_ip_host_is_private resolve keep_routable is_globally_routable
    is_v4_globally_routable text_beq redirect_policy
remote = tt

Requests-Connects_example :
    (1 ≤ 2) × (is_http (urls.scheme start) ≡ true) × (is_globally_routable public ≡ true)
unfolding remote
Requests-Connects_example =
    Requests-Connects urls dns (bytes "example.com") start 1 start public refl
      (Requests.redirected Requests.first refl)
      (Connects.resolved {name = bytes "example.com"} {ips = public ∷ []} refl refl (Any.here refl))

abbrev stored : S3Response
stored = record { data_bytes = bytes "abc"; content_type = bytes "image/png"; status = 200 }

abbrev bucket : Text → Result S3Error (Option S3Response)
bucket key = if key == bytes "a.png" then ok (some stored) else ok none

fetching_r2 : R2.fetch bucket (bytes "/a.png") ≡ ok fetched
unfolding R2.fetch clean_path text_beq
fetching_r2 = refl
