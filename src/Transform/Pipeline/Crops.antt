-- ===== src/Transform/Pipeline/Crops.antt =====
-- crates/imgx/src/transform/pipeline.rs: the stages before the resize, which extract a frame, trim,
-- rotate and flip.
pub mod Sides
use imgx.Base.{
  ℕ, Text, Bool, true, false, not, ◌&&◌, ◌||◌, Option, none, some, List, [], ◌∷◌, ℤ, pos, negsuc,
  Result, ok, err, ◌>>=◌, ◌==◌, ltb_ℤ, leb_ℤ, max_i32, clamp_i32, wrap_i32, sub_i32, mul_i32,
  if◌then◌else◌,
}
use imgx.Transform.Floats.{Floats}
use imgx.Transform.Options.{Rotation, FlipMode}
use imgx.Transform.Params.{TransformParams}
use imgx.Transform.Pipeline.{VipsError}
use imgx.Transform.Pipeline.Probe.{
  Probe, load_pages, page_height_of, several_pages, unwrap_or, is_some,
}
use imgx.Transform.Vips.{Doubles, Vips, width, height}
use imgx.Transform.Vips.Consts

-- A rectangle inside or outside of an image.
pub record Window : Type 0 where
  pub left : ℤ
  pub top : ℤ
  pub width : ℤ
  pub height : ℤ

unfoldable pub rotation_angle : Rotation → ℤ
rotation_angle Rotation.deg0 = Consts.angle_d0
rotation_angle Rotation.deg90 = Consts.angle_d90
rotation_angle Rotation.deg180 = Consts.angle_d180
rotation_angle Rotation.deg270 = Consts.angle_d270

abbrev turns : Rotation → Bool
turns Rotation.deg0 = false
turns _ = true

abbrev flips_h : FlipMode → Bool
flips_h FlipMode.v = false
flips_h _ = true

abbrev flips_v : FlipMode → Bool
flips_v FlipMode.h = false
flips_v _ = true

-- the frame that is extracted: the last one, if the source has fewer
unfoldable pub safe_frame : ℕ → ℤ → ℤ
unfolding wrap_i32 sub_i32
safe_frame frame actual_pages =
    if leb_ℤ actual_pages (wrap_i32 (pos frame))
    then sub_i32 actual_pages (pos 1)
    else wrap_i32 (pos frame)

module _ {fl : Floats} (d : Doubles fl) where
  -- a trim of one side, in pixels or as a fraction of the side
  unfoldable pub resolve_trim : Option fl.F32 → ℤ → ℤ
  resolve_trim none dim = pos 0
  resolve_trim (some t) dim =
      if fl.lt t (fl.literal 1 0)
      then d.to_i32 (d.round (d.mul (d.of_f32 t) (d.of_i32 dim)))
      else d.f32_to_i32 (d.round_f32 t)

  -- the window that is left by the trims of the sides of a `w` by `h` image
  unfoldable pub side_window : TransformParams fl → ℤ → ℤ → Window
  unfolding resolve_trim sub_i32
  side_window tp w h =
      let top : ℤ = clamp_i32 (resolve_trim tp.trim_top h) (pos 0) h in
      let left : ℤ = clamp_i32 (resolve_trim tp.trim_left w) (pos 0) w in
      let right : ℤ = clamp_i32 (resolve_trim tp.trim_right w) (pos 0) w in
      let bottom : ℤ = clamp_i32 (resolve_trim tp.trim_bottom h) (pos 0) h in
      record {
        left = left;
        top = top;
        width = max_i32 (sub_i32 (sub_i32 w left) right) (pos 1);
        height = max_i32 (sub_i32 (sub_i32 h top) bottom) (pos 1);
      }

abbrev pub trims_sides : {fl : Floats} → TransformParams fl → Bool
trims_sides tp =
    is_some tp.trim_top || is_some tp.trim_right || is_some tp.trim_bottom || is_some tp.trim_left

module _ {fl : Floats} {d : Doubles fl} (v : Vips d) where
  abbrev crop_window : Window → v.Image → Result VipsError v.Image
  crop_window w image = v.crop w.left w.top w.width w.height image

  -- a requested frame of an animated source
  unfoldable pub extract_frame : Text → Bool → Option ℕ → Probe v → Result VipsError v.Image
  unfolding load_pages page_height_of safe_frame mul_i32 width height
  extract_frame input_data strict none p = ok p.current
  extract_frame input_data strict (some frame) p =
      if several_pages v p.n_pages
      then (do
        whole ←
            if is_some p.animated_format
            then ok p.current
            else load_pages v input_data (negsuc 0) strict
        let page_height = unwrap_or (height v whole) (page_height_of v whole)
        let safe = safe_frame frame (unwrap_or (pos 1) p.n_pages)
        v.crop (pos 0) (mul_i32 safe page_height) (width v whole) page_height whole)
      else ok p.current

  -- the border of one colour, found by libvips; skipped for animated output
  unfoldable pub trim_border : Bool → Option fl.F32 → v.Image → Result VipsError v.Image
  trim_border true threshold image = ok image
  trim_border false none image = ok image
  trim_border false (some threshold) image = do
    (left, top, w, h) ← v.find_trim (d.of_f32 threshold) image
    if ltb_ℤ (pos 0) w && ltb_ℤ (pos 0) h then v.crop left top w h image else ok image

  unfoldable pub trim_sides : Bool → TransformParams fl → v.Image → Result VipsError v.Image
  unfolding side_window width height
  trim_sides animated_output tp image =
      if not animated_output && trims_sides tp
      then crop_window (side_window d tp (width v image) (height v image)) image
      else ok image

  unfoldable pub rotate : Option Rotation → v.Image → Result VipsError v.Image
  unfolding rotation_angle
  rotate none image = ok image
  rotate (some rotation) image =
      if turns rotation then v.rot (rotation_angle rotation) image else ok image

  unfoldable pub flip : Option FlipMode → v.Image → Result VipsError v.Image
  flip none image = ok image
  flip (some mode) image = do
    flipped ← if flips_h mode then v.flip Consts.direction_horizontal image else ok image
    if flips_v mode then v.flip Consts.direction_vertical flipped else ok flipped

  unfoldable pub before_resize :
      Text → Bool → TransformParams fl → Probe v → Result VipsError v.Image
  unfolding extract_frame trim_border trim_sides rotate flip
  before_resize input_data strict tp p = do
    let animated_output = is_some p.animated_format
    frame ← extract_frame input_data strict tp.frame p
    trimmed ← trim_border animated_output tp.trim frame
    cropped ← trim_sides animated_output tp trimmed
    rotated ← rotate tp.rotate cropped
    flip tp.flip rotated
