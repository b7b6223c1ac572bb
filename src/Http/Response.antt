-- ===== src/Http/Response.antt =====
-- crates/imgx/src/http/response.rs: entity tags, cache control, and when a 304 is the answer. The
-- 64-bit hash of the crate xxhash-rust is a parameter.
pub mod Etags
use imgx.Base.{
  ℕ, zero, suc, ◌+◌, ◌-◌, ◌/◌, ◌%◌, Text, bytes, Bool, true, false, ◌&&◌, Option, none, some, List,
  [], ◌∷◌, ◌++◌, leb, ◌==◌, text_eq, if◌then◌else◌, take, drop, length, starts_with, ends_with,
  strip_prefix,
}
use imgx.Transform.Print.{decimal}
use imgx.Http.Errors.{lower_hex}

-- `{n:0kx}` for a number below `16 ^ k`
unfoldable pub hex_fixed : ℕ → ℕ → Text
unfolding lower_hex
hex_fixed zero n = []
hex_fixed (suc k) n = hex_fixed k (n / 16) ++ lower_hex (n % 16) ∷ []

-- the first 8192 bytes, or all of them
unfoldable pub generate_etag : (Text → ℕ) → Text → Text
unfolding hex_fixed take
generate_etag xxh3_64 data_bytes =
    let limit = if leb (length data_bytes) 8192 then length data_bytes else 8192 in
    hex_fixed 16 (xxh3_64 (take limit data_bytes))

unfoldable pub build_cache_control : ℕ → Bool → Text
unfolding decimal
build_cache_control max_age is_public =
    (if is_public then bytes "public" else bytes "private")
    ++ (bytes ", max-age=" ++ decimal max_age)

-- `etag.strip_prefix("W/").unwrap_or(etag)`
unfoldable pub strip_weak : Text → Text
unfolding strip_prefix
strip_weak etag = elim (strip_prefix (bytes "W/") etag) [ none ↦ etag | some s ↦ s ]

-- `&s[1..s.len() - 1]` if the text is in quotes
unfoldable pub strip_quotes : Text → Text
unfolding starts_with ends_with take drop
strip_quotes s =
    if leb 2 (length s) && (starts_with (bytes "\"") s && ends_with (bytes "\"") s)
    then take (length s - 2) (drop 1 s)
    else s

unfoldable pub strip_etag_decorations : Text → Text
unfolding strip_weak strip_quotes
strip_etag_decorations etag = strip_quotes (strip_weak etag)

unfoldable pub should_return_304 : Option Text → Text → Bool
unfolding strip_etag_decorations
should_return_304 none response_etag = false
should_return_304 (some raw) response_etag =
    strip_etag_decorations raw == strip_etag_decorations response_etag
