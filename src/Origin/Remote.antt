-- ===== src/Origin/Remote.antt =====
-- crates/imgx/src/origin/remote.rs: the fetch of a URL that a request names, with its guards (INV-14).
-- The crates url and reqwest and the DNS are parameters.
pub mod Reach
use imgx.Base.{
  ℕ, suc, Text, bytes, Bool, true, false, not, ◌&&◌, ◌||◌, Option, none, some, List, [], ◌∷◌, leb,
  ◌==◌, nat_eq, text_eq, if◌then◌else◌, Result, ok, err, contains, ◌>>=◌,
}
use imgx.Origin.Addresses.{Ipv4Addr, Ipv6Addr, IpAddr, is_globally_routable}
use imgx.Origin.Fetcher.{Response, read_chunks, declares_too_much, type_or_default}

-- `url::Host`
pub data Host : Type 0 where
  domain : Text → Host
  ipv4 : Ipv4Addr → Host
  ipv6 : Ipv6Addr → Host

-- The crate url: its type of URLs and the methods that the source calls.
pub record Urls : Type 1 where
  pub Url : Type 0
  pub parse : Text → Result Text Url
  pub scheme : Url → Text
  pub host : Url → Option Host

-- An error of the crate reqwest, with the texts of itself and of its chain of sources.
pub record SendFailure : Type 0 where
  pub is_timeout : Bool
  pub is_redirect : Bool
  pub text : Text
  pub sources : List Text

pub data RemoteFetchError : Type 0 where
  invalid_url connection_failed : Text → RemoteFetchError
  unsupported_scheme private_address too_many_redirects timeout not_found response_too_large :
      RemoteFetchError
  server_error : ℕ → RemoteFetchError

pub record RemoteFetchResult : Type 0 where
  pub data_bytes : Text
  pub content_type : Text
  pub status_code : ℕ

abbrev pub max_redirects : ℕ
max_redirects = 3

abbrev pub private_address_marker : Text
private_address_marker = bytes "not globally routable"

abbrev any_contains : Text → List Text → Bool
any_contains needle [] = false
any_contains needle (s ∷ sources) = contains needle s || any_contains needle sources

unfoldable pub error_chain_contains : SendFailure → Text → Bool
unfolding contains
error_chain_contains e needle =
    if contains needle e.text then true else any_contains needle e.sources

unfoldable pub classify_send_error : SendFailure → RemoteFetchError
unfolding error_chain_contains
classify_send_error e =
    if e.is_timeout
    then RemoteFetchError.timeout
    else if error_chain_contains e private_address_marker
    then RemoteFetchError.private_address
    else if e.is_redirect
    then (if error_chain_contains e (bytes "too many redirects")
        then RemoteFetchError.too_many_redirects
        else RemoteFetchError.unsupported_scheme)
    else RemoteFetchError.connection_failed e.text

abbrev pub is_http : Text → Bool
is_http scheme = scheme == bytes "http" || scheme == bytes "https"

-- `SafeResolver::resolve`
unfoldable pub keep_routable : List IpAddr → List IpAddr
unfolding is_globally_routable
keep_routable [] = []
keep_routable (ip ∷ ips) =
    let rest = keep_routable ips in if is_globally_routable ip then ip ∷ rest else rest

abbrev pub some_address : List IpAddr → Result Text (List IpAddr)
some_address [] = err (bytes "resolved address is not globally routable")
some_address (ip ∷ ips) = ok (ip ∷ ips)

unfoldable pub resolve : (Text → Result Text (List IpAddr)) → Text → Result Text (List IpAddr)
unfolding keep_routable
resolve lookup_host name = elim (lookup_host name) [
  | err e ↦ err e
  | ok resolved ↦ some_address (keep_routable resolved)
]

-- What the redirect policy answers.
pub data Action : Type 0 where
  follow : Action
  error : Text → Action

module _ (urls : Urls) where
  unfoldable pub literal_ip_host_is_private : urls.Url → Bool
  unfolding is_globally_routable
  literal_ip_host_is_private url = elim (urls.host url) [
    | none ↦ false
    | some (Host.domain name) ↦ false
    | some (Host.ipv4 ip) ↦ not (is_globally_routable (IpAddr.v4 ip))
    | some (Host.ipv6 ip) ↦ not (is_globally_routable (IpAddr.v6 ip))
  ]

  -- The policy of `build`: `previous` is the number of URLs already requested, the first included.
  unfoldable pub redirect_policy : Bool → ℕ → urls.Url → Action
  unfolding literal_ip_host_is_private
  redirect_policy enforce previous url =
      if leb max_redirects previous
      then Action.error (bytes "too many redirects")
      else if not (is_http (urls.scheme url))
      then Action.error (bytes "redirect to unsupported scheme")
      else if enforce && literal_ip_host_is_private url
      then Action.error private_address_marker
      else Action.follow

  -- the checks of `fetch` before anything is sent
  unfoldable pub check_url : Bool → Text → Result RemoteFetchError urls.Url
  unfolding literal_ip_host_is_private
  check_url enforce url = elim (urls.parse url) [
    | err e ↦ err (RemoteFetchError.invalid_url e)
    | ok parsed ↦
        if not (is_http (urls.scheme parsed))
        then err RemoteFetchError.unsupported_scheme
        else if enforce && literal_ip_host_is_private parsed
        then err RemoteFetchError.private_address
        else ok parsed
  ]

  -- `fetch` from the response on
  unfoldable pub read_remote : ℕ → Response → Result RemoteFetchError RemoteFetchResult
  unfolding read_chunks
  read_remote max_size resp =
      if leb 300 resp.status && not (leb 400 resp.status)
      then err RemoteFetchError.unsupported_scheme
      else if resp.status == 404
      then err RemoteFetchError.not_found
      else if leb 500 resp.status
      then err (RemoteFetchError.server_error resp.status)
      else if declares_too_much max_size resp.content_length
      then err RemoteFetchError.response_too_large
      else (do
        body ←
            read_chunks RemoteFetchError.connection_failed RemoteFetchError.response_too_large
              max_size [] resp.body
        ok (record {
          data_bytes = body;
          content_type = type_or_default resp.content_type;
          status_code = resp.status;
        }))

  unfoldable pub fetch :
      (urls.Url → Result SendFailure Response)
      → Bool
      → ℕ
      → Text
      → Result RemoteFetchError RemoteFetchResult
  unfolding check_url read_remote classify_send_error
  fetch send enforce max_size url = elim (check_url enforce url) [
    | err e ↦ err e
    | ok parsed ↦ elim (send parsed) [
      | err e ↦ err (classify_send_error e)
      | ok resp ↦ read_remote max_size resp
    ]
  ]
