-- ===== src/Transform/Vips.antt =====
-- crates/imgx-vips/src/image.rs and ffi.rs: images, over the C library libvips as a parameter, and the
-- arithmetic of `f64`, a parameter too. An image is immutable but for its metadata: `set_int` gives
-- the image with the field changed.
pub mod Consts
use imgx.Base.{
  ℕ, Text, bytes, Bool, true, false, ◌||◌, Option, none, some, List, ℤ, pos, Result, max_i32, leb_ℤ,
  ltb, if◌then◌else◌, pos_part, neg_part, starts_with,
}
use imgx.Transform.Floats.{Floats}
use imgx.Transform.Pipeline.{VipsError}

-- Rust's `f64`, with the conversions from and to the other types.
pub record Doubles (fl : Floats) : Type 1 where
  pub F64 : Type 0
  pub of_f32 : fl.F32 → F64
  pub of_i32 : ℤ → F64
  pub of_u64 : ℕ → F64
  -- the literal `n / 10 ^ k`
  pub literal : ℕ → ℕ → F64
  pub add : F64 → F64 → F64
  pub sub : F64 → F64 → F64
  pub mul : F64 → F64 → F64
  pub div : F64 → F64 → F64
  pub max : F64 → F64 → F64
  pub min : F64 → F64 → F64
  pub ceil : F64 → F64
  pub round : F64 → F64
  pub abs : F64 → F64
  -- `libm::cos` and `PI`
  pub cos : F64 → F64
  pub pi : F64
  pub eq : F64 → F64 → Bool
  pub lt : F64 → F64 → Bool
  -- the saturating `x as i32` and `x as u32`
  pub to_i32 : F64 → ℤ
  pub to_u32 : F64 → ℕ
  -- the same on `f32`, with `round` and `max`
  pub round_f32 : fl.F32 → fl.F32
  pub max_f32 : fl.F32 → fl.F32 → fl.F32
  pub f32_to_i32 : fl.F32 → ℤ

pub record ThumbnailOptions : Type 0 where
  pub height : Option ℤ
  pub crop : Option ℤ
  pub size : Option ℤ
  pub no_rotate : Bool

abbrev pub default_thumbnail : ThumbnailOptions
default_thumbnail = record { height = none; crop = none; size = none; no_rotate = false }

-- What the wrapper calls of libvips; an operation gives an image or an error.
pub record Vips {fl : Floats} (d : Doubles fl) : Type 1 where
  pub Image : Type 0
  pub from_buffer : Text → Result VipsError Image
  pub from_buffer_strict : Text → Result VipsError Image
  pub from_buffer_animated : Text → ℤ → Result VipsError Image
  pub from_buffer_animated_strict : Text → ℤ → Result VipsError Image
  pub get_width : Image → ℤ
  pub get_height : Image → ℤ
  pub get_bands : Image → ℤ
  pub has_alpha : Image → Bool
  pub get_string : Text → Image → Option Text
  pub get_int : Text → Image → Option ℤ
  pub set_int : Text → ℤ → Image → Image
  pub save_jpeg : ℤ → Bool → Image → Result VipsError Text
  pub save_png : ℤ → Bool → Image → Result VipsError Text
  pub save_webp_with_effort : ℤ → ℕ → Bool → Image → Result VipsError Text
  pub save_avif : ℤ → ℕ → Bool → Image → Result VipsError Text
  pub save_gif : Image → Result VipsError Text
  pub write_to_memory : Image → Result VipsError Text
  pub thumbnail : ℤ → ThumbnailOptions → Image → Result VipsError Image
  pub thumbnail_buffer : Text → ℤ → ThumbnailOptions → Result VipsError Image
  pub crop : ℤ → ℤ → ℤ → ℤ → Image → Result VipsError Image
  pub rot : ℤ → Image → Result VipsError Image
  pub autorot : Image → Result VipsError Image
  pub flip : ℤ → Image → Result VipsError Image
  pub find_trim : d.F64 → Image → Result VipsError (ℤ × ℤ × ℤ × ℤ)
  pub sharpen : d.F64 → Image → Result VipsError Image
  pub gaussblur : d.F64 → Image → Result VipsError Image
  pub linear1 : d.F64 → d.F64 → Image → Result VipsError Image
  pub gamma : d.F64 → Image → Result VipsError Image
  pub colourspace : ℤ → Image → Result VipsError Image
  pub extract_band : ℤ → ℤ → Image → Result VipsError Image
  pub bandjoin2 : Image → Image → Result VipsError Image
  pub flatten : d.F64 × d.F64 × d.F64 → Image → Result VipsError Image
  pub embed : ℤ → ℤ → ℤ → ℤ → d.F64 × d.F64 × d.F64 → Image → Result VipsError Image
  pub composite_over : Image → ℤ → ℤ → Image → Result VipsError Image
  pub tile_to_size : ℤ → ℤ → Image → Result VipsError Image
  pub arrayjoin_vertical : List Image → Result VipsError Image

module _ {fl : Floats} {d : Doubles fl} (v : Vips d) where
  -- A negative value of libvips reads as 0.
  unfoldable pub width : v.Image → ℤ
  width image = max_i32 (v.get_width image) (pos 0)

  unfoldable pub height : v.Image → ℤ
  height image = max_i32 (v.get_height image) (pos 0)

  unfoldable pub bands : v.Image → ℤ
  bands image = max_i32 (v.get_bands image) (pos 0)

  unfoldable pub n_pages : v.Image → Option ℤ
  n_pages image = v.get_int (bytes "n-pages") image

  unfoldable pub page_height : v.Image → Option ℤ
  page_height image = v.get_int (bytes "page-height") image

  unfoldable pub shrinks_on_load : v.Image → Bool
  unfolding starts_with
  shrinks_on_load image = elim (v.get_string (bytes "vips-loader") image) [
    | none ↦ false
    | some loader ↦ starts_with (bytes "jpegload") loader || starts_with (bytes "webpload") loader
  ]
