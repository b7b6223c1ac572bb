-- ===== src/Transform/Negotiate.antt =====
-- crates/imgx/src/transform/negotiate.rs: which output format a request gets. Header values are
-- ASCII, so `trim` removes the ASCII white space.
pub mod Offers
pub mod Priority
pub mod Segment
use imgx.Base.{
  ℕ, Text, bytes, match_str, Bool, true, false, ◌&&◌, ◌||◌, Option, none, some, List, [], ◌∷◌, ◌++◌,
  leb, ◌==◌, nat_eq, if◌then◌else◌, strip_prefix, split, join,
}
use imgx.Transform.Floats.{Floats}
use imgx.Transform.Options.{OutputFormat, format_str, supports_animation}

pub record AcceptResult : Type 0 where
  pub supports_avif : Bool
  pub supports_webp : Bool
  pub supports_jpeg : Bool
  pub supports_png : Bool
  pub supports_gif : Bool
  pub wildcard : Bool

abbrev pub default_accept : AcceptResult
default_accept = record {
  supports_avif = false;
  supports_webp = false;
  supports_jpeg = false;
  supports_png = false;
  supports_gif = false;
  wildcard = false;
}

unfoldable pub supports : AcceptResult → OutputFormat → Bool
supports a OutputFormat.avif = a.supports_avif
supports a OutputFormat.webp = a.supports_webp || a.wildcard
supports a OutputFormat.jpeg = a.supports_jpeg || a.wildcard
supports a OutputFormat.png = a.supports_png || a.wildcard
supports a OutputFormat.gif = a.supports_gif || a.wildcard
supports a OutputFormat.baseline_jpeg = a.supports_jpeg || a.wildcard
supports a OutputFormat.auto = true
supports a OutputFormat.json = true
supports a OutputFormat.thumbhash = true

abbrev is_space : ℕ → Bool
is_space b = b == 32 || (leb 9 b && leb b 13)

abbrev pub is_empty : Text → Bool
is_empty [] = true
is_empty (b ∷ s) = false

unfoldable pub trim_start : Text → Text
trim_start [] = []
trim_start (b ∷ s) = if is_space b then trim_start s else b ∷ s

unfoldable pub trim_end : Text → Text
trim_end [] = []
trim_end (b ∷ s) = let t = trim_end s in if is_space b && is_empty t then [] else b ∷ t

unfoldable pub trim : Text → Text
unfolding trim_start trim_end
trim s = trim_start (trim_end s)

-- the `match` on the media type
unfoldable pub set_media : Text → AcceptResult → AcceptResult
unfolding match_str
set_media media_type r =
    match_str media_type
      (("*/*", record r { wildcard = true })
        ∷ ("image/*", record r { wildcard = true })
        ∷ ("image/avif", record r { supports_avif = true })
        ∷ ("image/webp", record r { supports_webp = true })
        ∷ ("image/jpeg", record r { supports_jpeg = true })
        ∷ ("image/jpg", record r { supports_jpeg = true })
        ∷ ("image/png", record r { supports_png = true })
        ∷ ("image/gif", record r { supports_gif = true })
        ∷ [])
      r

-- `param.strip_prefix("q=").or_else(|| param.strip_prefix("Q="))`
unfoldable pub q_param : Text → Option Text
unfolding strip_prefix
q_param param = elim (strip_prefix (bytes "q=") param) [
  | some rest ↦ some rest
  | none ↦ strip_prefix (bytes "Q=") param
]

module _ (fl : Floats) where
  -- one round of the loop over the parameters of an entry
  unfoldable pub next_q : Text → fl.F32 → fl.F32
  next_q param_raw q = elim (q_param (trim param_raw)) [
    | none ↦ q
    | some rest ↦ elim (fl.parse rest) [ none ↦ fl.literal 1 0 | some v ↦ v ]
  ]

  unfoldable pub q_value : fl.F32 → List Text → fl.F32
  q_value q [] = q
  q_value q (param_raw ∷ parts) = q_value (next_q param_raw q) parts

  -- an entry that is not empty, split at `;`
  unfoldable pub accept_parts : List Text → AcceptResult → AcceptResult
  accept_parts [] r = r
  accept_parts (media_type ∷ parts) r =
      if fl.eq (q_value (fl.literal 1 0) parts) (fl.literal 0 0)
      then r
      else set_media (trim media_type) r

  -- one round of the loop over the entries
  unfoldable pub accept_entry : Text → AcceptResult → AcceptResult
  accept_entry raw_entry r =
      if is_empty (trim raw_entry) then r else accept_parts (split b';' (trim raw_entry)) r

  unfoldable pub accept_entries : List Text → AcceptResult → AcceptResult
  accept_entries [] r = r
  accept_entries (raw_entry ∷ entries) r = accept_entries entries (accept_entry raw_entry r)

  unfoldable pub parse_accept_header : Text → AcceptResult
  parse_accept_header accept =
      if is_empty accept then default_accept else accept_entries (split b',' accept) default_accept

  -- `accept_header.map(parse_accept_header).unwrap_or_default()`
  unfoldable pub accept_of : Option Text → AcceptResult
  accept_of none = default_accept
  accept_of (some h) = parse_accept_header h

-- the requested format, if it is given and is not `auto`
abbrev pub explicit : Option OutputFormat → Option OutputFormat
explicit none = none
explicit (some OutputFormat.auto) = none
explicit (some f) = some f

-- the part of `negotiate_format` after the header is parsed
unfoldable pub choose_format : AcceptResult → Bool → OutputFormat
choose_format a true =
    if supports a OutputFormat.avif
    then OutputFormat.avif
    else if supports a OutputFormat.webp
    then OutputFormat.webp
    else if supports a OutputFormat.png
    then OutputFormat.png
    else OutputFormat.jpeg
choose_format a false =
    if supports a OutputFormat.avif
    then OutputFormat.avif
    else if supports a OutputFormat.webp
    then OutputFormat.webp
    else if supports a OutputFormat.jpeg
    then OutputFormat.jpeg
    else if supports a OutputFormat.png
    then OutputFormat.png
    else OutputFormat.jpeg

-- the part of `negotiate_animated_format` after the header is parsed
unfoldable pub choose_animated : AcceptResult → Option OutputFormat
choose_animated a =
    if supports a OutputFormat.webp
    then some OutputFormat.webp
    else if supports a OutputFormat.gif
    then some OutputFormat.gif
    else none

abbrev pub negotiable_formats : List OutputFormat
negotiable_formats =
    OutputFormat.avif ∷ OutputFormat.webp ∷ OutputFormat.jpeg ∷ OutputFormat.png ∷ OutputFormat.gif
    ∷ []

-- `.iter().filter(|fmt| accept.supports(**fmt)).map(|fmt| fmt.as_str())`
unfoldable pub supported_names : AcceptResult → List OutputFormat → List Text
supported_names a [] = []
supported_names a (f ∷ fs) =
    let rest = supported_names a fs in if supports a f then format_str f ∷ rest else rest

unfoldable pub auto_segment : AcceptResult → Text
auto_segment a = bytes "auto:" ++ join (bytes "+") (supported_names a negotiable_formats)

module _ (fl : Floats) where
  unfoldable pub negotiate_format : Option Text → Bool → Option OutputFormat → OutputFormat
  negotiate_format accept_header source_has_alpha requested = elim (explicit requested) [
    | some fmt ↦ fmt
    | none ↦ choose_format (accept_of fl accept_header) source_has_alpha
  ]

  unfoldable pub negotiate_animated_format : Option Text → Option OutputFormat → Option OutputFormat
  negotiate_animated_format accept_header requested = elim (explicit requested) [
    | some fmt ↦ if supports_animation fmt then some fmt else none
    | none ↦ choose_animated (accept_of fl accept_header)
  ]

  unfoldable pub cache_format_segment : Option Text → Option OutputFormat → Text
  cache_format_segment accept_header requested = elim (explicit requested) [
    | some fmt ↦ format_str fmt
    | none ↦ auto_segment (accept_of fl accept_header)
  ]

unfoldable pub apply_compression_fast : OutputFormat → Bool → OutputFormat
apply_compression_fast OutputFormat.avif true = OutputFormat.jpeg
apply_compression_fast OutputFormat.webp true = OutputFormat.jpeg
apply_compression_fast format _ = format
