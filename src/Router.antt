-- ===== src/Router.antt =====
-- crates/imgx/src/router.rs: from a request path to a route. A path is the list of its bytes.
pub mod Traversal
pub mod Accepted
pub mod Routes
use imgx.Base.{
  ℕ, ◌+◌, Text, bytes, Bool, true, false, ◌&&◌, ◌||◌, Option, none, some, List, [], ◌∷◌, ltb, leb,
  ◌==◌, nat_eq, text_eq, if◌then◌else◌, length, take, Result, ok, err, starts_with, strip_prefix,
  ends_with, contains, has_byte, split_once, fail_if, ◌>>◌, ◌>>=◌,
}

pub data RouterError : Type 0 where
  path_traversal invalid_path empty_path : RouterError

pub record ImageRequest : Type 0 where
  pub image_path : Text
  pub transform_string : Option Text

pub data Route : Type 0 where
  image_request : ImageRequest → Route
  health metrics ready not_found : Route

abbrev pub image_prefix : Text
image_prefix = bytes "image/"

abbrev pub is_empty : Text → Bool
is_empty [] = true
is_empty (b ∷ s) = false

-- `..` as a whole component, by four tests
unfoldable pub contains_traversal : Text → Bool
contains_traversal path =
    path == bytes ".."
    || starts_with (bytes "../") path
    || ends_with (bytes "/..") path
    || contains (bytes "/../") path

-- the tests of the loop on the two bytes after a `%`; false where fewer than two are left
unfoldable pub escapes : Text → Bool
escapes (hi ∷ lo ∷ s) =
    (hi == b'2' && (lo == b'e' || lo == b'E' || lo == b'f' || lo == b'F'))
    || (hi == b'0' && lo == b'0')
escapes _ = false

-- the loop over the index, as a recursion on what is left of the path
unfoldable pub contains_encoded_traversal : Text → Bool
contains_encoded_traversal [] = false
contains_encoded_traversal (b ∷ s) = (b == b'%' && escapes s) || contains_encoded_traversal s

-- `path.strip_prefix('/').unwrap_or(path)`
unfoldable pub strip_slash : Text → Text
strip_slash [] = []
strip_slash (b ∷ s) = if b == b'/' then s else b ∷ s

unfoldable pub sanitize_path : Text → Result RouterError Text
sanitize_path path = do
  fail_if (has_byte 0 path) invalid_path
  let stripped = strip_slash path
  fail_if (is_empty stripped) empty_path
  fail_if (starts_with (bytes "/") stripped) invalid_path
  fail_if (contains_traversal stripped || contains_encoded_traversal stripped) path_traversal
  ok stripped

abbrev pub image : Text → Option Text → Route
image path transforms = image_request (record { image_path = path; transform_string = transforms })

-- the `match` on the first slash after the prefix
unfoldable pub resolve_rest : Text → Route
resolve_rest rest = elim (split_once b'/' rest) [
  | some (first, remainder) ↦
      if has_byte b'=' first
      then if is_empty remainder then not_found else image remainder (some first)
      else image rest none
  | none ↦ if has_byte b'=' rest then not_found else image rest none
]

unfoldable pub resolve_clean : Text → Route
resolve_clean clean =
    if clean == bytes "health"
    then health
    else if clean == bytes "metrics"
    then metrics
    else if clean == bytes "ready"
    then ready
    else elim (strip_prefix image_prefix clean) [
      | none ↦ not_found
      | some rest ↦ if is_empty rest then not_found else resolve_rest rest
    ]

unfoldable pub resolve : Text → Route
resolve path = elim (sanitize_path path) [ ok clean ↦ resolve_clean clean | err _ ↦ not_found ]

unfoldable pub to_lower : ℕ → ℕ
to_lower b = if leb b'A' b && leb b b'Z' then b + 32 else b

unfoldable pub eq_ignore_ascii_case : Text → Text → Bool
unfolding to_lower
eq_ignore_ascii_case [] [] = true
eq_ignore_ascii_case (a ∷ s) (b ∷ t) = (to_lower a == to_lower b) && eq_ignore_ascii_case s t
eq_ignore_ascii_case _ _ = false

unfoldable pub starts_with_ignore_ascii_case : Text → Text → Bool
unfolding eq_ignore_ascii_case
starts_with_ignore_ascii_case s prefix =
    leb (length prefix) (length s) && eq_ignore_ascii_case (take (length prefix) s) prefix

unfoldable pub is_absolute_url_source : Text → Bool
unfolding starts_with_ignore_ascii_case
is_absolute_url_source image_path =
    starts_with_ignore_ascii_case image_path (bytes "http://")
    || starts_with_ignore_ascii_case image_path (bytes "https://")
