-- ===== src/Transform/Pipeline/Resize.antt =====
-- crates/imgx/src/transform/pipeline.rs: how one resize runs: its options, the size that it must give,
-- and when it may decode the source bytes again at reduced size.
pub mod Reduced
use imgx.Base.{
  ℕ, Text, bytes, Bool, true, false, not, ◌&&◌, ◌||◌, Option, none, some, List, [], ◌∷◌, ℤ, pos,
  negsuc, Result, ok, err, ◌>>=◌, leb_ℤ, if◌then◌else◌,
}
use imgx.Transform.Floats.{Floats}
use imgx.Transform.Options.{OutputFormat, Rotation, FitMode, Gravity}
use imgx.Transform.Params.{TransformParams}
use imgx.Transform.Pipeline.{VipsError}
use imgx.Transform.Pipeline.Probe.{is_some, is_thumbhash}
use imgx.Transform.Vips.{Doubles, Vips, ThumbnailOptions, default_thumbnail, width, height}
use imgx.Transform.Vips.Consts

-- `Some(5..=8)`
abbrev pub is_quarter_turn : Option ℤ → Bool
is_quarter_turn none = false
is_quarter_turn (some n) = leb_ℤ (pos 5) n && leb_ℤ n (pos 8)

abbrev same_size : ℤ × ℤ → ℤ × ℤ → Bool
same_size (a, b) (c, e) = leb_ℤ a c && leb_ℤ c a && (leb_ℤ b e && leb_ℤ e b)

abbrev turns : Option Rotation → Bool
turns none = false
turns (some Rotation.deg0) = false
turns (some _) = true

-- the fits that crop to the box
abbrev crops : FitMode → Bool
crops FitMode.cover = true
crops FitMode.crop = true
crops FitMode.aspect_crop = true
crops _ = false

abbrev by_content : Gravity → Bool
by_content Gravity.smart = true
by_content Gravity.attention = true
by_content _ = false

unfoldable pub map_gravity_to_crop : Gravity → ℤ
map_gravity_to_crop Gravity.center = Consts.interesting_centre
map_gravity_to_crop Gravity.smart = Consts.interesting_entropy
map_gravity_to_crop Gravity.attention = Consts.interesting_attention
map_gravity_to_crop _ = Consts.interesting_centre

unfoldable pub build_thumbnail_options : FitMode → Gravity → Option ℤ → ThumbnailOptions
unfolding map_gravity_to_crop
build_thumbnail_options fit gravity height =
    let opts : ThumbnailOptions = record default_thumbnail { height = height } in
    elim fit [
      | FitMode.contain ↦ record opts { size = some Consts.size_down }
      | FitMode.pad ↦ record opts { size = some Consts.size_down }
      | FitMode.inside ↦ record opts { size = some Consts.size_down }
      | FitMode.cover ↦ record opts { crop = some (map_gravity_to_crop gravity) }
      | FitMode.fill ↦ record opts { size = some Consts.size_force }
      | FitMode.outside ↦ record opts { size = some Consts.size_up }
      | FitMode.crop ↦ record opts {
        crop = some (map_gravity_to_crop gravity);
        size = some Consts.size_down;
      }
      | FitMode.aspect_crop ↦ record opts {
        crop = some (map_gravity_to_crop gravity);
        size = some Consts.size_down;
      }
    ]

module _ (fl : Floats) where
  -- a trim of a side that is not exactly 0
  abbrev trims : Option fl.F32 → Bool
  trims none = false
  trims (some t) = not (fl.eq t (fl.literal 0 0))

  unfoldable pub trims_a_side : TransformParams fl → Bool
  trims_a_side tp =
      trims tp.trim_top || trims tp.trim_right || trims tp.trim_bottom || trims tp.trim_left

  unfoldable pub crops_by_content : TransformParams fl → Bool
  crops_by_content tp = crops tp.fit && by_content tp.gravity

  unfoldable pub resize_reads_source : TransformParams fl → Bool → Bool
  unfolding trims_a_side crops_by_content
  resize_reads_source tp animated_output =
      not (is_thumbhash tp.format)
      && not animated_output
      && not (is_some tp.frame)
      && not (is_some tp.trim)
      && not (trims_a_side tp)
      && not (turns tp.rotate)
      && not (is_some tp.flip)
      && not (crops_by_content tp)

module _ {fl : Floats} (d : Doubles fl) where
  abbrev int : ℕ → d.F64
  int n = d.literal n 0

  unfoldable pub reduced_side : ℤ → d.F64 → ℤ
  reduced_side length shrink =
      let l : d.F64 = d.of_i32 length in
      let reduce : d.F64 = d.div (int 1) (d.div (int 1) (d.min shrink l)) in
      d.to_i32 (d.add (d.div l reduce) (d.literal 5 1))

  unfoldable pub contain_size : ℤ × ℤ → ℤ × ℤ → ℤ × ℤ
  unfolding reduced_side
  contain_size source target =
      let shrink : d.F64 =
        d.max
          (d.max (d.div (d.of_i32 source.0) (d.of_i32 target.0))
            (d.div (d.of_i32 source.1) (d.of_i32 target.1)))
          (int 1) in
      (reduced_side source.0 shrink, reduced_side source.1 shrink)

  abbrev is_down : Option ℤ → Bool
  is_down none = false
  is_down (some s) = leb_ℤ s Consts.size_down && leb_ℤ Consts.size_down s

  unfoldable pub full_decode_size : ℤ × ℤ → ℤ → ThumbnailOptions → Option (ℤ × ℤ)
  unfolding contain_size
  full_decode_size oriented w opts =
      if is_some opts.crop || not (is_down opts.size)
      then none
      else elim opts.height [ none ↦ none | some h ↦ some (contain_size oriented (w, h)) ]

module _ {fl : Floats} {d : Doubles fl} (v : Vips d) where
  unfoldable pub oriented_size : v.Image → ℤ × ℤ
  unfolding width height
  oriented_size image =
      if is_quarter_turn (v.get_int (bytes "orientation") image)
      then (height v image, width v image)
      else (width v image, height v image)

  -- The image, and whether the resize decoded the source.
  abbrev pub Resized : Type 0
  Resized = v.Image × Bool

  abbrev whole_size : Option (ℤ × ℤ) → ℤ → ThumbnailOptions → Option (ℤ × ℤ)
  whole_size none w opts = none
  whole_size (some size) w opts = full_decode_size d size w opts

  -- the reduced decode again, with the exact size, if the first one missed it
  abbrev corrected : Text → ThumbnailOptions → Option (ℤ × ℤ) → v.Image → Result VipsError v.Image
  corrected source opts none image = ok image
  corrected source opts (some (box_width, box_height)) image =
      if same_size (width v image, height v image) (box_width, box_height)
      then ok image
      else v.thumbnail_buffer source box_width
          (record opts { height = some box_height; size = some Consts.size_force })

  unfoldable pub resize :
      v.Image → Option Text → Option (ℤ × ℤ) → ℤ → ThumbnailOptions → Result VipsError Resized
  unfolding full_decode_size width height
  resize current none oriented w opts = do image ← v.thumbnail w opts current; ok (image, false)
  resize current (some source) oriented w opts = do
    first ← v.thumbnail_buffer source w opts
    image ← corrected source opts (whole_size oriented w opts) first
    ok (image, true)
