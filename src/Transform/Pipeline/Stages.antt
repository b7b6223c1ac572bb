-- ===== src/Transform/Pipeline/Stages.antt =====
-- crates/imgx/src/transform/pipeline.rs: the resize stage, with its cases for animated covers, for
-- crops to an aspect ratio and for padding.
use imgx.Base.{
  ℕ, zero, suc, ◌+◌, Text, bytes, Bool, true, false, not, ◌&&◌, ◌||◌, Option, none, some, List, [],
  ◌∷◌, ℤ, pos, Result, ok, err, ◌>>=◌, ltb_ℤ, leb_ℤ, max_i32, min_i32, wrap_i32, add_i32, sub_i32,
  mul_i32, div_i32, pos_part, neg_part, ◌==◌, nat_eq, if◌then◌else◌,
}
use imgx.Transform.Floats.{Floats}
use imgx.Transform.Numbers.{Rgb}
use imgx.Transform.Options.{FitMode}
use imgx.Transform.Params.{TransformParams}
use imgx.Transform.Pipeline.{VipsError, Stop, panic}
use imgx.Transform.Pipeline.Probe.{lift, page_height_of, unwrap_or}
use imgx.Transform.Pipeline.Resize.{
  Resized, oriented_size, resize, build_thumbnail_options, map_gravity_to_crop,
}
use imgx.Transform.Vips.{Doubles, Vips, default_thumbnail, width, height}
use imgx.Transform.Vips.Consts

abbrev pub as_i32 : Option ℕ → Option ℤ
as_i32 none = none
as_i32 (some n) = some (wrap_i32 (pos n))

-- the fits with a box of their own
abbrev has_box : FitMode → Bool
has_box FitMode.cover = true
has_box FitMode.fill = true
has_box FitMode.crop = true
has_box FitMode.aspect_crop = true
has_box _ = false

abbrev pub is_pad : FitMode → Bool
is_pad FitMode.pad = true
is_pad _ = false

abbrev pub or_else : Option ℤ → Option ℤ → Option ℤ
or_else (some a) b = some a
or_else none b = b

abbrev equal : ℤ → ℤ → Bool
equal a b = leb_ℤ a b && leb_ℤ b a

-- `a / b`, which panics if `b` is 0
unfoldable pub divide : ℤ → ℤ → Result Stop ℤ
unfolding div_i32
divide a b = if pos_part b + neg_part b == 0 then err panic else ok (div_i32 a b)

module _ {fl : Floats} (d : Doubles fl) where
  abbrev int : ℕ → d.F64
  int n = d.literal n 0

  abbrev ratio_of : ℤ → ℤ → d.F64
  ratio_of a b = d.div (d.of_i32 a) (d.of_i32 b)

  -- the width of the box, derived from the height if it is not given
  unfoldable pub thumb_width : ℤ × ℤ → Option ℤ → Option ℤ → ℤ
  thumb_width oriented (some w) h = w
  thumb_width oriented none h =
      max_i32
        (d.to_i32 (
          d.min (d.mul (d.of_i32 (unwrap_or (pos 0) h)) (ratio_of oriented.0 oriented.1))
            (int 8192)))
        (pos 1)

  -- the height of the box, derived from the width if it is not given and the fit needs it
  unfoldable pub derived_height : FitMode → ℤ × ℤ → ℤ → Option ℤ → Option ℤ
  derived_height fit oriented thumb (some h) = some h
  derived_height fit oriented thumb none =
      if not (has_box fit) && ltb_ℤ (pos 0) oriented.0
      then some (
          max_i32
            (d.to_i32 (
              d.min (d.round (d.mul (d.of_i32 thumb) (ratio_of oriented.1 oriented.0))) (int 8192)))
            (pos 1))
      else none

  -- the larger of the two scales
  abbrev cover_scale : ℤ × ℤ → ℤ → ℤ → d.F64
  cover_scale size tw th = d.max (ratio_of tw size.0) (ratio_of th size.1)

  -- the rectangle of the target's aspect ratio in a smaller image
  unfoldable pub aspect_size : ℤ × ℤ → ℤ → ℤ → ℤ × ℤ
  aspect_size (w, h) tw th =
      let target : d.F64 = ratio_of tw th in
      if d.lt target (ratio_of w h)
      then (max_i32 (min_i32 (d.to_i32 (d.round (d.mul (d.of_i32 h) target))) w) (pos 1), h)
      else (w, max_i32 (min_i32 (d.to_i32 (d.round (d.div (d.of_i32 w) target))) h) (pos 1))

  unfoldable pub bg_color_from_params : Option Rgb → d.F64 × d.F64 × d.F64
  bg_color_from_params none = (int 255, int 255, int 255)
  bg_color_from_params (some c) = (d.of_u64 c.r, d.of_u64 c.g, d.of_u64 c.b)

module _ {fl : Floats} {d : Doubles fl} (v : Vips d) where
  -- the loop over the frames, from frame `i` on
  unfoldable pub crop_frames : ℕ → ℕ → ℤ → ℤ → ℤ → ℤ → ℤ → v.Image → Result VipsError (List v.Image)
  unfolding add_i32 mul_i32 wrap_i32
  crop_frames zero i left top tw th page image = ok []
  crop_frames (suc n) i left top tw th page image = do
    frame ← v.crop left (add_i32 (mul_i32 (wrap_i32 (pos i)) page) top) tw th image
    rest ← crop_frames n (i + 1) left top tw th page image
    ok (frame ∷ rest)

  -- Step 2, for pages of a height. `Vec::with_capacity` panics for a negative number of frames.
  unfoldable pub crop_pages : ℤ → ℤ → ℤ → ℤ → v.Image → Result Stop v.Image
  unfolding width height sub_i32 div_i32 crop_frames
  crop_pages page pages tw th image =
      let left : ℤ = div_i32 (sub_i32 (width v image) tw) (pos 2) in
      let top : ℤ = div_i32 (sub_i32 page th) (pos 2) in
      let count : ℤ = min_i32 pages (pos 256) in
      if not (ltb_ℤ th page || ltb_ℤ tw (width v image))
      then ok image
      else if equal top (pos 0)
      then lift (v.crop left (pos 0) tw (height v image) image)
      else if ltb_ℤ count (pos 0)
      then err panic
      else (do
        frames ← lift (crop_frames (pos_part count) 0 left top tw th page image)
        lift (v.arrayjoin_vertical frames))

  unfoldable pub crop_stack : ℤ → ℤ → ℤ → v.Image → Result Stop v.Image
  unfolding height divide crop_pages
  crop_stack pages tw th image = do
    page ← divide (height v image) pages
    crop_pages page pages tw th image

  -- an animated cover: a resize of the stack, then a crop of each frame
  unfoldable pub cover_stack : ℤ → ℤ → ℤ → v.Image → Result Stop v.Image
  unfolding width height page_height_of mul_i32 divide crop_stack
  cover_stack pages tw th image = do
    share ← divide (height v image) pages
    let page_h = unwrap_or share (page_height_of v image)
    let scale = cover_scale d (width v image, page_h) tw th
    let resize_w = max_i32 (d.to_i32 (d.ceil (d.mul (d.of_i32 (width v image)) scale))) (pos 1)
    let resize_page_h = max_i32 (d.to_i32 (d.ceil (d.mul (d.of_i32 page_h) scale))) (pos 1)
    resized ← lift (
        v.thumbnail resize_w
          (record default_thumbnail { height = some (mul_i32 resize_page_h pages) }) image)
    cropped ← crop_stack pages tw th resized
    ok (v.set_int (bytes "page-height") th cropped)

  -- `fit=aspect-crop`: a crop of the image itself if it is smaller than the target
  unfoldable pub aspect_crop :
      TransformParams fl → Option Text → ℤ → ℤ → v.Image → Result Stop (Resized v)
  unfolding oriented_size resize aspect_size map_gravity_to_crop sub_i32 div_i32
  aspect_crop tp source tw th image =
      let size : ℤ × ℤ = oriented_size v image in
      let (crop_w, crop_h) = aspect_size d size tw th in
      if d.lt (int d 1) (cover_scale d size tw th)
      then (do
        upright ← lift (v.autorot image)
        cropped ← lift (
            v.crop (div_i32 (sub_i32 size.0 crop_w) (pos 2))
              (div_i32 (sub_i32 size.1 crop_h) (pos 2)) crop_w crop_h upright)
        ok (cropped, false))
      else lift (
          resize v image source none tw (record default_thumbnail {
            height = some th;
            crop = some (map_gravity_to_crop tp.gravity);
            size = some Consts.size_down;
          }))

  -- the page height of a resized stack
  unfoldable pub refresh_pages : Bool → ℤ → v.Image → Result Stop v.Image
  unfolding height divide
  refresh_pages false pages image = ok image
  refresh_pages true pages image = do
    page ← divide (height v image) pages
    ok (if ltb_ℤ (pos 0) page then v.set_int (bytes "page-height") page image else image)

  -- every other resize
  unfoldable pub plain_resize :
      TransformParams fl
      → FitMode
      → Bool
      → ℤ
      → Option Text
      → Option ℤ
      → Option ℤ
      → v.Image
      → Result Stop (Resized v)
  unfolding oriented_size resize build_thumbnail_options thumb_width derived_height refresh_pages
  plain_resize tp fit animated_output pages source eff_w eff_h image = do
    let size = oriented_size v image
    let thumb = thumb_width d size eff_w eff_h
    (resized, reduced) ← lift (
        resize v image source (some size) thumb
          (build_thumbnail_options fit tp.gravity (derived_height d fit size thumb eff_h)))
    refreshed ← refresh_pages animated_output pages resized
    ok (refreshed, reduced)

  -- `fit=pad`: the image on a canvas of the target's size
  unfoldable pub pad : TransformParams fl → Option ℤ → Option ℤ → v.Image → Result Stop v.Image
  unfolding width height sub_i32 div_i32 bg_color_from_params
  pad tp eff_w eff_h image =
      let target_w : ℤ = unwrap_or (width v image) eff_w in
      let target_h : ℤ = unwrap_or (height v image) eff_h in
      if ltb_ℤ (width v image) target_w || ltb_ℤ (height v image) target_h
      then lift (
          v.embed (div_i32 (sub_i32 target_w (width v image)) (pos 2))
            (div_i32 (sub_i32 target_h (height v image)) (pos 2)) target_w target_h
            (bg_color_from_params d tp.background) image)
      else ok image
