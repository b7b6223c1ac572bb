-- ===== src/Cache/R2.antt =====
-- crates/imgx/src/cache/r2.rs: the cache in an object store, over the store's client as a parameter:
-- the client of `s3/client.rs` sends signed requests over the network. Log lines are left out.
pub mod Detected
pub mod Faithful
pub mod Keys
pub mod Laws
use imgx.Base.{
  String, drop, ℕ, suc, Text, bytes, Bool, true, false, ◌&&◌, ◌||◌, Option, none, some, List, [],
  ◌∷◌, ◌++◌, ℤ, ltb, leb, ◌==◌, nat_eq, text_eq, if◌then◌else◌, length, contains, Result, ok, err,
  starts_with,
}
use imgx.Cache.{CacheEntry, Cache}

pub record Response : Type 0 where
  pub data_bytes : Text
  pub content_type : Text

-- The methods of `S3Client`, with the state of the bucket and the errors of the network.
pub record S3Client (S E : Type 0) : Type 0 where
  pub get_object : Text → S → Result E (Option Response)
  pub put_object : Text → Text → Text → S → Result E Bool × S
  pub delete_object : Text → S → Result E Bool × S

-- the loop of `sanitize_key`; `prev_slash` says that the last byte written is a slash
unfoldable pub sanitize_loop : Bool → Text → Text
sanitize_loop prev_slash [] = []
sanitize_loop prev_slash (raw ∷ key) =
    let ch : ℕ = if raw == b'|' then b'/' else raw in
    let rest = sanitize_loop (ch == b'/') key in
    if (ch == b'/') && prev_slash then rest else ch ∷ rest

unfoldable pub sanitize_key : Text → Option Text
sanitize_key key =
    let out : Text = sanitize_loop false key in if contains (bytes "..") out then none else some out

-- `&data[i..i + n] == lit`, for a literal of `n` bytes that lies inside the data
unfoldable pub slice_is : ℕ → String → Text → Bool
unfolding drop starts_with
slice_is i lit data' = starts_with (bytes lit) (drop i data')

-- `data[i] == b`, for an index inside the data
unfoldable pub byte_is : ℕ → ℕ → Text → Bool
unfolding drop starts_with
byte_is i b data' = starts_with (b ∷ []) (drop i data')

-- the blocks of `detect_content_type`, each with what follows it
unfoldable pub detect_jpeg : Text → Text
unfolding byte_is
detect_jpeg d =
    if byte_is 0 0xff d && byte_is 1 0xd8 d
    then bytes "image/jpeg"
    else bytes "application/octet-stream"

unfoldable pub detect_short : Text → Text
unfolding byte_is slice_is detect_jpeg
detect_short d =
    if leb 4 (length d)
    then (if byte_is 0 0x89 d && slice_is 1 "PNG" d
        then bytes "image/png"
        else if slice_is 0 "GIF8" d
        then bytes "image/gif"
        else detect_jpeg d)
    else detect_jpeg d

unfoldable pub detect_long : Text → Text
unfolding slice_is detect_short
detect_long d =
    if slice_is 0 "RIFF" d && slice_is 8 "WEBP" d
    then bytes "image/webp"
    else if slice_is 4 "ftyp" d
        && (slice_is 8 "avif" d
            || slice_is 8 "avis" d
            || slice_is 8 "heic" d
            || slice_is 8 "heix" d
            || slice_is 8 "mif1" d)
    then bytes "image/avif"
    else detect_short d

unfoldable pub detect_content_type : Text → Text
unfolding detect_long
detect_content_type d =
    if ltb (length d) 2
    then bytes "application/octet-stream"
    else if leb 12 (length d)
    then detect_long d
    else detect_short d

-- the entry that `get` makes of a response, at the time of the call
unfoldable pub to_entry : ℤ → Response → CacheEntry
to_entry now resp = record {
  data_bytes = resp.data_bytes;
  content_type =
      if resp.content_type == bytes "application/octet-stream"
      then detect_content_type resp.data_bytes
      else resp.content_type;
  created_at = now;
}

module _ {S E : Type 0} (client : S3Client S E) where
  unfoldable pub get_from : ℤ → Text → S → Option CacheEntry
  get_from now s3_key s = elim (client.get_object s3_key s) [
    | err _ ↦ none
    | ok found ↦ elim found [ none ↦ none | some resp ↦ some (to_entry now resp) ]
  ]

  unfoldable pub get : ℤ → Text → S → Option CacheEntry × S
  get now key s = elim (sanitize_key key) [
    | none ↦ (none, s)
    | some s3_key ↦ (get_from now s3_key s, s)
  ]

  unfoldable pub put : Text → CacheEntry → S → S
  put key entry s = elim (sanitize_key key) [
    | none ↦ s
    | some s3_key ↦ (client.put_object s3_key entry.data_bytes entry.content_type s).1
  ]

  unfoldable pub delete : Text → S → Bool × S
  delete key s = elim (sanitize_key key) [
    | none ↦ (false, s)
    | some s3_key ↦
        let (r, s') = client.delete_object s3_key s in
        (elim r [ ok deleted ↦ deleted | err _ ↦ false ], s')
  ]

  unfoldable pub clear : S → S
  clear s = s

  unfoldable pub size : S → ℕ
  size s = 0

  abbrev pub r2_cache : ℤ → Cache S
  r2_cache now = record { get = get now; put = put; delete = delete; clear = clear; size = size }
