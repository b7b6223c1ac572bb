-- ===== src/Transform/Pipeline/Encode.antt =====
-- crates/imgx/src/transform/pipeline.rs: the encoders.
pub mod Pages
use imgx.Base.{
  ℕ, ◌%◌, Text, bytes, Bool, true, false, ◌||◌, Option, none, some, ℤ, pos, negsuc, Result, ok, err,
  ◌>>=◌, ltb_ℤ, leb_ℤ, as_u32, pos_part, neg_part, ◌+◌, ◌==◌, nat_eq, not, if◌then◌else◌,
}
use imgx.Transform.Floats.{Floats}
use imgx.Transform.Options.{OutputFormat, MetadataMode}
use imgx.Transform.Pipeline.{VipsError, Stop, panic, failed, TransformError, EncodeOptions}
use imgx.Transform.Pipeline.Probe.{lift}
use imgx.Transform.Thumbhash.{max_side, rgba_from_bands}
use imgx.Transform.Vips.{Doubles, Vips, default_thumbnail, width, height, bands, page_height}
use imgx.Transform.Vips.Consts

abbrev pub large_webp_min_width : ℤ
large_webp_min_width = pos 1280

abbrev pub large_webp_effort : ℕ
large_webp_effort = 2

-- `DEFAULT_WEBP_EFFORT`
abbrev pub default_webp_effort : ℕ
default_webp_effort = 4

unfoldable pub webp_effort : ℤ → ℕ
webp_effort encoded_width =
    if leb_ℤ large_webp_min_width encoded_width then large_webp_effort else default_webp_effort

abbrev is_strip : MetadataMode → Bool
is_strip MetadataMode.strip = true
is_strip _ = false

-- `ph > h || h % ph != 0`, which panics if `ph` is 0
unfoldable pub pages_are_stale : ℤ → ℤ → Result Stop Bool
pages_are_stale ph h =
    if ltb_ℤ h ph
    then ok true
    else if pos_part ph + neg_part ph == 0
    then err panic
    else ok (not (pos_part h % (pos_part ph + neg_part ph) == 0))

module _ {fl : Floats} {d : Doubles fl} (v : Vips d) where
  -- the image that is encoded as GIF: one frame, if the page height is stale
  unfoldable pub with_pages : v.Image → Result Stop v.Image
  unfolding page_height height pages_are_stale
  with_pages image = elim (page_height v image) [
    | none ↦ ok image
    | some ph ↦ do
      stale ← pages_are_stale ph (height v image)
      ok (
          if stale
          then v.set_int (bytes "n-pages") (pos 1)
              (v.set_int (bytes "page-height") (height v image) image)
          else image)
  ]

  unfoldable pub encode_gif : v.Image → Result Stop Text
  unfolding with_pages
  encode_gif image = do checked ← with_pages image; lift (v.save_gif checked)

  unfoldable pub encode_image : v.Image → OutputFormat → EncodeOptions → Result Stop Text
  unfolding webp_effort encode_gif width
  encode_image image format options =
      let q : ℤ = pos options.quality in
      let do_strip : Bool = is_strip options.metadata in
      elim format [
        | OutputFormat.jpeg ↦ lift (v.save_jpeg q do_strip image)
        | OutputFormat.baseline_jpeg ↦ lift (v.save_jpeg q do_strip image)
        | OutputFormat.auto ↦ lift (v.save_jpeg q do_strip image)
        | OutputFormat.png ↦ lift (v.save_png (pos 6) do_strip image)
        | OutputFormat.webp ↦
            lift (v.save_webp_with_effort q (webp_effort (width v image)) do_strip image)
        | OutputFormat.avif ↦ lift (v.save_avif q options.avif_effort do_strip image)
        | OutputFormat.gif ↦ encode_gif image
        | OutputFormat.json ↦ lift (v.save_jpeg q do_strip image)
        | OutputFormat.thumbhash ↦ lift (v.save_jpeg q do_strip image)
      ]

  -- the raster that is hashed: its width, height and bytes
  unfoldable pub thumbhash_rgba : v.Image → Result Stop (ℕ × ℕ × Text)
  unfolding width height bands rgba_from_bands
  thumbhash_rgba image = do
    small ← lift (
        v.thumbnail (pos max_side)
          (record {
            height = some (pos max_side);
            crop = none;
            size = some Consts.size_down;
            no_rotate = true;
          })
          image)
    raster ← lift (v.write_to_memory small)
    let w = as_u32 (width v small)
    let h = as_u32 (height v small)
    elim (rgba_from_bands raster w h (as_u32 (bands v small))) [
      | ok rgba ↦ ok (w, h, rgba)
      | err e ↦ err (failed (TransformError.thumbhash e))
    ]
