-- ===== src/Transform/Options.antt =====
-- crates/imgx/src/transform/params.rs: the enumerations of the options, with the text that each is
-- read from and written as.
pub mod RoundTrip
use imgx.Base.{Text, bytes, match_str, Bool, true, false, List, [], ◌∷◌, Result, ok, err}

pub data ParseError : Type 0 where
  invalid_width invalid_height invalid_format invalid_quality invalid_fit_mode invalid_gravity
        invalid_sharpen invalid_blur invalid_dpr invalid_rotation invalid_flip invalid_brightness
        invalid_contrast invalid_saturation invalid_gamma invalid_background invalid_metadata
        invalid_trim invalid_anim invalid_frame invalid_parameter empty_value invalid_onerror
        invalid_compression invalid_border invalid_draw draw_with_thumbhash :
      ParseError

pub data OutputFormat : Type 0 where
  auto jpeg png webp avif gif baseline_jpeg json thumbhash : OutputFormat

unfoldable pub parse_format : Text → Result ParseError OutputFormat
unfolding match_str
parse_format s =
    match_str s
      (("jpeg", ok OutputFormat.jpeg)
        ∷ ("jpg", ok OutputFormat.jpeg)
        ∷ ("png", ok OutputFormat.png)
        ∷ ("webp", ok OutputFormat.webp)
        ∷ ("avif", ok OutputFormat.avif)
        ∷ ("gif", ok OutputFormat.gif)
        ∷ ("baseline-jpeg", ok OutputFormat.baseline_jpeg)
        ∷ ("json", ok OutputFormat.json)
        ∷ ("thumbhash", ok OutputFormat.thumbhash)
        ∷ ("auto", ok OutputFormat.auto)
        ∷ [])
      (err invalid_format)

unfoldable pub format_str : OutputFormat → Text
format_str OutputFormat.jpeg = bytes "jpeg"
format_str OutputFormat.png = bytes "png"
format_str OutputFormat.webp = bytes "webp"
format_str OutputFormat.avif = bytes "avif"
format_str OutputFormat.gif = bytes "gif"
format_str OutputFormat.baseline_jpeg = bytes "baseline-jpeg"
format_str OutputFormat.json = bytes "json"
format_str OutputFormat.thumbhash = bytes "thumbhash"
format_str OutputFormat.auto = bytes "auto"

pub data Rotation : Type 0 where
  deg0 deg90 deg180 deg270 : Rotation

unfoldable pub parse_rotation : Text → Result ParseError Rotation
unfolding match_str
parse_rotation s =
    match_str s
      (("0", ok Rotation.deg0)
        ∷ ("90", ok Rotation.deg90)
        ∷ ("180", ok Rotation.deg180)
        ∷ ("270", ok Rotation.deg270)
        ∷ [])
      (err invalid_rotation)

unfoldable pub rotation_str : Rotation → Text
rotation_str Rotation.deg0 = bytes "0"
rotation_str Rotation.deg90 = bytes "90"
rotation_str Rotation.deg180 = bytes "180"
rotation_str Rotation.deg270 = bytes "270"

pub data FlipMode : Type 0 where
  h v hv : FlipMode

unfoldable pub parse_flip : Text → Result ParseError FlipMode
unfolding match_str
parse_flip s =
    match_str s
      (("h", ok FlipMode.h)
        ∷ ("v", ok FlipMode.v)
        ∷ ("hv", ok FlipMode.hv)
        ∷ ("vh", ok FlipMode.hv)
        ∷ [])
      (err invalid_flip)

unfoldable pub flip_str : FlipMode → Text
flip_str FlipMode.h = bytes "h"
flip_str FlipMode.v = bytes "v"
flip_str FlipMode.hv = bytes "hv"

pub data MetadataMode : Type 0 where
  strip keep copyright : MetadataMode

unfoldable pub parse_metadata : Text → Result ParseError MetadataMode
unfolding match_str
parse_metadata s =
    match_str s
      (("strip", ok MetadataMode.strip)
        ∷ ("none", ok MetadataMode.strip)
        ∷ ("keep", ok MetadataMode.keep)
        ∷ ("all", ok MetadataMode.keep)
        ∷ ("copyright", ok MetadataMode.copyright)
        ∷ [])
      (err invalid_metadata)

unfoldable pub metadata_str : MetadataMode → Text
metadata_str MetadataMode.strip = bytes "strip"
metadata_str MetadataMode.keep = bytes "keep"
metadata_str MetadataMode.copyright = bytes "copyright"

pub data OnErrorMode : Type 0 where
  redirect : OnErrorMode

unfoldable pub parse_onerror : Text → Result ParseError OnErrorMode
unfolding match_str
parse_onerror s = match_str s (("redirect", ok OnErrorMode.redirect) ∷ []) (err invalid_onerror)

unfoldable pub onerror_str : OnErrorMode → Text
onerror_str OnErrorMode.redirect = bytes "redirect"

pub data CompressionMode : Type 0 where
  fast : CompressionMode

unfoldable pub parse_compression : Text → Result ParseError CompressionMode
unfolding match_str
parse_compression s = match_str s (("fast", ok CompressionMode.fast) ∷ []) (err invalid_compression)

unfoldable pub compression_str : CompressionMode → Text
compression_str CompressionMode.fast = bytes "fast"

pub data DrawRepeat : Type 0 where
  both x y : DrawRepeat

unfoldable pub parse_draw_repeat : Text → Result ParseError DrawRepeat
unfolding match_str
parse_draw_repeat s =
    match_str s
      (("true", ok DrawRepeat.both) ∷ ("x", ok DrawRepeat.x) ∷ ("y", ok DrawRepeat.y) ∷ [])
      (err invalid_draw)

unfoldable pub draw_repeat_str : DrawRepeat → Text
draw_repeat_str DrawRepeat.both = bytes "true"
draw_repeat_str DrawRepeat.x = bytes "x"
draw_repeat_str DrawRepeat.y = bytes "y"

pub data AnimMode : Type 0 where
  auto static animate : AnimMode

unfoldable pub parse_anim : Text → Result ParseError AnimMode
unfolding match_str
parse_anim s =
    match_str s
      (("auto", ok AnimMode.auto)
        ∷ ("true", ok AnimMode.auto)
        ∷ ("static", ok AnimMode.static)
        ∷ ("false", ok AnimMode.static)
        ∷ ("animate", ok AnimMode.animate)
        ∷ [])
      (err invalid_anim)

unfoldable pub anim_str : AnimMode → Text
anim_str AnimMode.auto = bytes "auto"
anim_str AnimMode.static = bytes "static"
anim_str AnimMode.animate = bytes "animate"

pub data FitMode : Type 0 where
  contain cover fill inside outside pad crop aspect_crop : FitMode

unfoldable pub parse_fit : Text → Result ParseError FitMode
unfolding match_str
parse_fit s =
    match_str s
      (("contain", ok FitMode.contain)
        ∷ ("cover", ok FitMode.cover)
        ∷ ("fill", ok FitMode.fill)
        ∷ ("inside", ok FitMode.inside)
        ∷ ("outside", ok FitMode.outside)
        ∷ ("pad", ok FitMode.pad)
        ∷ ("crop", ok FitMode.crop)
        ∷ ("aspect-crop", ok FitMode.aspect_crop)
        ∷ ("squeeze", ok FitMode.fill)
        ∷ ("scale-up", ok FitMode.outside)
        ∷ ("scale-down", ok FitMode.contain)
        ∷ [])
      (err invalid_fit_mode)

unfoldable pub fit_str : FitMode → Text
fit_str FitMode.contain = bytes "contain"
fit_str FitMode.cover = bytes "cover"
fit_str FitMode.fill = bytes "fill"
fit_str FitMode.inside = bytes "inside"
fit_str FitMode.outside = bytes "outside"
fit_str FitMode.pad = bytes "pad"
fit_str FitMode.crop = bytes "crop"
fit_str FitMode.aspect_crop = bytes "aspect-crop"

pub data Gravity : Type 0 where
  center north south east west northeast northwest southeast southwest smart attention : Gravity

unfoldable pub parse_gravity : Text → Result ParseError Gravity
unfolding match_str
parse_gravity s =
    match_str s
      (("center", ok Gravity.center)
        ∷ ("centre", ok Gravity.center)
        ∷ ("north", ok Gravity.north)
        ∷ ("n", ok Gravity.north)
        ∷ ("top", ok Gravity.north)
        ∷ ("south", ok Gravity.south)
        ∷ ("s", ok Gravity.south)
        ∷ ("bottom", ok Gravity.south)
        ∷ ("east", ok Gravity.east)
        ∷ ("e", ok Gravity.east)
        ∷ ("right", ok Gravity.east)
        ∷ ("west", ok Gravity.west)
        ∷ ("w", ok Gravity.west)
        ∷ ("left", ok Gravity.west)
        ∷ ("northeast", ok Gravity.northeast)
        ∷ ("ne", ok Gravity.northeast)
        ∷ ("northwest", ok Gravity.northwest)
        ∷ ("nw", ok Gravity.northwest)
        ∷ ("southeast", ok Gravity.southeast)
        ∷ ("se", ok Gravity.southeast)
        ∷ ("southwest", ok Gravity.southwest)
        ∷ ("sw", ok Gravity.southwest)
        ∷ ("smart", ok Gravity.smart)
        ∷ ("auto", ok Gravity.smart)
        ∷ ("attention", ok Gravity.attention)
        ∷ ("att", ok Gravity.attention)
        ∷ [])
      (err invalid_gravity)

unfoldable pub gravity_str : Gravity → Text
gravity_str Gravity.center = bytes "center"
gravity_str Gravity.north = bytes "north"
gravity_str Gravity.south = bytes "south"
gravity_str Gravity.east = bytes "east"
gravity_str Gravity.west = bytes "west"
gravity_str Gravity.northeast = bytes "northeast"
gravity_str Gravity.northwest = bytes "northwest"
gravity_str Gravity.southeast = bytes "southeast"
gravity_str Gravity.southwest = bytes "southwest"
gravity_str Gravity.smart = bytes "smart"
gravity_str Gravity.attention = bytes "attention"

abbrev pub default_metadata : MetadataMode
default_metadata = MetadataMode.strip

abbrev pub default_anim : AnimMode
default_anim = AnimMode.auto

abbrev pub default_fit : FitMode
default_fit = FitMode.contain

abbrev pub default_gravity : Gravity
default_gravity = Gravity.center

unfoldable pub content_type : OutputFormat → Text
content_type OutputFormat.jpeg = bytes "image/jpeg"
content_type OutputFormat.baseline_jpeg = bytes "image/jpeg"
content_type OutputFormat.png = bytes "image/png"
content_type OutputFormat.webp = bytes "image/webp"
content_type OutputFormat.avif = bytes "image/avif"
content_type OutputFormat.gif = bytes "image/gif"
content_type OutputFormat.json = bytes "application/json"
content_type OutputFormat.thumbhash = bytes "text/plain; charset=utf-8"
content_type OutputFormat.auto = bytes "application/octet-stream"

unfoldable pub extension : OutputFormat → Text
extension OutputFormat.jpeg = bytes "jpg"
extension OutputFormat.baseline_jpeg = bytes "jpg"
extension OutputFormat.png = bytes "png"
extension OutputFormat.webp = bytes "webp"
extension OutputFormat.avif = bytes "avif"
extension OutputFormat.gif = bytes "gif"
extension OutputFormat.json = bytes "json"
extension OutputFormat.thumbhash = bytes "txt"
extension OutputFormat.auto = bytes ""

unfoldable pub supports_animation : OutputFormat → Bool
supports_animation OutputFormat.gif = true
supports_animation OutputFormat.webp = true
supports_animation _ = false

unfoldable pub produces_text_body : OutputFormat → Bool
produces_text_body OutputFormat.json = true
produces_text_body OutputFormat.thumbhash = true
produces_text_body _ = false
