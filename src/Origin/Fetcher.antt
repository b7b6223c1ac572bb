-- ===== src/Origin/Fetcher.antt =====
-- crates/imgx/src/origin/source.rs and fetcher.rs: the URL of a source image, and its fetch. The
-- HTTP client (the crate reqwest) is a parameter: what a request gives, with the body in chunks.
pub mod Limits
use imgx.Base.{
  ℕ, Text, bytes, Bool, true, false, Option, none, some, List, [], ◌∷◌, ◌++◌, ltb, leb, ◌==◌,
  nat_eq, if◌then◌else◌, length, Result, ok, err, contains, ◌>>=◌, strip_prefix,
}

pub data UrlError : Type 0 where
  empty_path path_traversal : UrlError

-- `strip_prefix('/').unwrap_or(path)`
unfoldable pub clean_path : Text → Text
clean_path [] = []
clean_path (b ∷ path) = if b == b'/' then path else b ∷ path

-- `strip_suffix('/').unwrap_or(base)`
unfoldable pub clean_base : Text → Text
clean_base [] = []
clean_base (b ∷ []) = if b == b'/' then [] else b ∷ []
clean_base (b ∷ c ∷ base) = b ∷ clean_base (c ∷ base)

unfoldable pub build_url : Text → Text → Result UrlError Text
unfolding contains clean_base clean_path
build_url base_url [] = err UrlError.empty_path
build_url base_url (b ∷ path) =
    if contains (bytes "..") (b ∷ path)
    then err UrlError.path_traversal
    else ok (clean_base base_url ++ b'/' ∷ clean_path (b ∷ path))

-- The body of a response as the client delivers it: chunks, then its end or an error.
pub data Body : Type 0 where
  done : Body
  broken : Text → Body
  chunk : Text → Body → Body

pub record Response : Type 0 where
  pub status : ℕ
  pub content_type : Option Text
  pub content_length : Option ℕ
  pub body : Body

pub data SendError : Type 0 where
  timed_out : SendError
  failed : Text → SendError

pub data FetchError : Type 0 where
  connection_failed : Text → FetchError
  timeout not_found response_too_large : FetchError
  server_error : ℕ → FetchError
  invalid_url : UrlError → FetchError

pub record FetchResult : Type 0 where
  pub data_bytes : Text
  pub content_type : Text
  pub status_code : ℕ

-- The loop over the chunks, from the bytes read so far; `remote.rs` has the same loop with errors of
-- its own.
unfoldable pub read_chunks : {E : Type 0} → (Text → E) → E → ℕ → Text → Body → Result E Text
read_chunks broken_off too_large max_size acc Body.done = ok acc
read_chunks broken_off too_large max_size acc (Body.broken e) = err (broken_off e)
read_chunks broken_off too_large max_size acc (Body.chunk c body) =
    let rest = read_chunks broken_off too_large max_size (acc ++ c) body in
    if ltb max_size (length (acc ++ c)) then err too_large else rest

-- `content_length().is_some_and(|len| len as usize > max_size)`, where `usize` has 64 bits
abbrev pub declares_too_much : ℕ → Option ℕ → Bool
declares_too_much max_size none = false
declares_too_much max_size (some len) = ltb max_size len

abbrev pub type_or_default : Option Text → Text
type_or_default none = bytes "application/octet-stream"
type_or_default (some t) = t

-- `fetch` from the response on
unfoldable pub read_response : ℕ → Response → Result FetchError FetchResult
unfolding read_chunks
read_response max_size resp =
    if resp.status == 404
    then err FetchError.not_found
    else if leb 500 resp.status
    then err (FetchError.server_error resp.status)
    else if declares_too_much max_size resp.content_length
    then err FetchError.response_too_large
    else (do
      body ←
          read_chunks FetchError.connection_failed FetchError.response_too_large max_size []
            resp.body
      ok (record {
        data_bytes = body;
        content_type = type_or_default resp.content_type;
        status_code = resp.status;
      }))

unfoldable pub send_error : SendError → FetchError
send_error SendError.timed_out = FetchError.timeout
send_error (SendError.failed e) = FetchError.connection_failed e

unfoldable pub fetch :
    (Text → Result SendError Response) → Text → ℕ → Text → Result FetchError FetchResult
unfolding build_url send_error read_response
fetch send base_url max_size image_path = elim (build_url base_url image_path) [
  | err e ↦ err (FetchError.invalid_url e)
  | ok url ↦ elim (send url) [ err e ↦ err (send_error e) | ok resp ↦ read_response max_size resp ]
]
