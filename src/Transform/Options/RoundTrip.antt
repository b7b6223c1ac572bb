-- ===== src/Transform/Options/RoundTrip.antt =====
-- Each option is read back from the text that it is written as.
use imgx.Base.{◌≡◌, refl, ok, text_beq}
use imgx.Transform.Options.{
  OutputFormat, parse_format, format_str, Rotation, parse_rotation, rotation_str, FlipMode,
  parse_flip, flip_str, MetadataMode, parse_metadata, metadata_str, OnErrorMode, parse_onerror,
  onerror_str, CompressionMode, parse_compression, compression_str, DrawRepeat, parse_draw_repeat,
  draw_repeat_str, AnimMode, parse_anim, anim_str, FitMode, parse_fit, fit_str, Gravity,
  parse_gravity, gravity_str,
}

pub format-roundtrip : (x : OutputFormat) → parse_format (format_str x) ≡ ok x
unfolding parse_format format_str text_beq
format-roundtrip OutputFormat.auto = refl
format-roundtrip OutputFormat.jpeg = refl
format-roundtrip OutputFormat.png = refl
format-roundtrip OutputFormat.webp = refl
format-roundtrip OutputFormat.avif = refl
format-roundtrip OutputFormat.gif = refl
format-roundtrip OutputFormat.baseline_jpeg = refl
format-roundtrip OutputFormat.json = refl
format-roundtrip OutputFormat.thumbhash = refl

pub rotation-roundtrip : (x : Rotation) → parse_rotation (rotation_str x) ≡ ok x
unfolding parse_rotation rotation_str text_beq
rotation-roundtrip Rotation.deg0 = refl
rotation-roundtrip Rotation.deg90 = refl
rotation-roundtrip Rotation.deg180 = refl
rotation-roundtrip Rotation.deg270 = refl

pub flip-roundtrip : (x : FlipMode) → parse_flip (flip_str x) ≡ ok x
unfolding parse_flip flip_str text_beq
flip-roundtrip FlipMode.h = refl
flip-roundtrip FlipMode.v = refl
flip-roundtrip FlipMode.hv = refl

pub metadata-roundtrip : (x : MetadataMode) → parse_metadata (metadata_str x) ≡ ok x
unfolding parse_metadata metadata_str text_beq
metadata-roundtrip MetadataMode.strip = refl
metadata-roundtrip MetadataMode.keep = refl
metadata-roundtrip MetadataMode.copyright = refl

pub onerror-roundtrip : (x : OnErrorMode) → parse_onerror (onerror_str x) ≡ ok x
unfolding parse_onerror onerror_str text_beq
onerror-roundtrip OnErrorMode.redirect = refl

pub compression-roundtrip : (x : CompressionMode) → parse_compression (compression_str x) ≡ ok x
unfolding parse_compression compression_str text_beq
compression-roundtrip CompressionMode.fast = refl

pub draw_repeat-roundtrip : (x : DrawRepeat) → parse_draw_repeat (draw_repeat_str x) ≡ ok x
unfolding parse_draw_repeat draw_repeat_str text_beq
draw_repeat-roundtrip DrawRepeat.both = refl
draw_repeat-roundtrip DrawRepeat.x = refl
draw_repeat-roundtrip DrawRepeat.y = refl

pub anim-roundtrip : (x : AnimMode) → parse_anim (anim_str x) ≡ ok x
unfolding parse_anim anim_str text_beq
anim-roundtrip AnimMode.auto = refl
anim-roundtrip AnimMode.static = refl
anim-roundtrip AnimMode.animate = refl

pub fit-roundtrip : (x : FitMode) → parse_fit (fit_str x) ≡ ok x
unfolding parse_fit fit_str text_beq
fit-roundtrip FitMode.contain = refl
fit-roundtrip FitMode.cover = refl
fit-roundtrip FitMode.fill = refl
fit-roundtrip FitMode.inside = refl
fit-roundtrip FitMode.outside = refl
fit-roundtrip FitMode.pad = refl
fit-roundtrip FitMode.crop = refl
fit-roundtrip FitMode.aspect_crop = refl

pub gravity-roundtrip : (x : Gravity) → parse_gravity (gravity_str x) ≡ ok x
unfolding parse_gravity gravity_str text_beq
gravity-roundtrip Gravity.center = refl
gravity-roundtrip Gravity.north = refl
gravity-roundtrip Gravity.south = refl
gravity-roundtrip Gravity.east = refl
gravity-roundtrip Gravity.west = refl
gravity-roundtrip Gravity.northeast = refl
gravity-roundtrip Gravity.northwest = refl
gravity-roundtrip Gravity.southeast = refl
gravity-roundtrip Gravity.southwest = refl
gravity-roundtrip Gravity.smart = refl
gravity-roundtrip Gravity.attention = refl

-- Every value of every enumeration of the options is read back from the text that it is written as.
pub options-roundtrip :
    ((x : OutputFormat) → parse_format (format_str x) ≡ ok x)
    × ((x : Rotation) → parse_rotation (rotation_str x) ≡ ok x)
    × ((x : FlipMode) → parse_flip (flip_str x) ≡ ok x)
    × ((x : MetadataMode) → parse_metadata (metadata_str x) ≡ ok x)
    × ((x : OnErrorMode) → parse_onerror (onerror_str x) ≡ ok x)
    × ((x : CompressionMode) → parse_compression (compression_str x) ≡ ok x)
    × ((x : DrawRepeat) → parse_draw_repeat (draw_repeat_str x) ≡ ok x)
    × ((x : AnimMode) → parse_anim (anim_str x) ≡ ok x)
    × ((x : FitMode) → parse_fit (fit_str x) ≡ ok x)
    × ((x : Gravity) → parse_gravity (gravity_str x) ≡ ok x)
options-roundtrip = (
  format-roundtrip, rotation-roundtrip, flip-roundtrip, metadata-roundtrip, onerror-roundtrip,
  compression-roundtrip, draw_repeat-roundtrip, anim-roundtrip, fit-roundtrip, gravity-roundtrip,
)
