-- ===== src/Transform/Pipeline/Effects.antt =====
-- crates/imgx/src/transform/pipeline.rs: the choice of the resize, and the stages after it.
use imgx.Base.{
  ℕ, Text, Bool, false, not, ◌&&◌, ◌||◌, Option, none, some, ℤ, pos, Result, ok, ◌>>=◌, ltb_ℤ,
  add_i32, if◌then◌else◌,
}
use imgx.Transform.Floats.{Floats}
use imgx.Transform.Numbers.{Rgb}
use imgx.Transform.Options.{FitMode}
use imgx.Transform.Params.{TransformParams}
use imgx.Transform.Params.Validate.{effective_width, effective_height}
use imgx.Transform.Pipeline.{VipsError, Stop}
use imgx.Transform.Pipeline.Probe.{Probe, unwrap_or, is_some}
use imgx.Transform.Pipeline.Resize.{Resized, resize_reads_source}
use imgx.Transform.Pipeline.Stages.{
  as_i32, or_else, is_pad, cover_stack, aspect_crop, plain_resize, pad, bg_color_from_params,
}
use imgx.Transform.Vips.{Doubles, Vips, width, height, shrinks_on_load}
use imgx.Transform.Vips.Consts

-- `fit=pad` resizes as `fit=contain`.
abbrev pub effective_fit : FitMode → FitMode
effective_fit FitMode.pad = FitMode.contain
effective_fit fit = fit

module _ {fl : Floats} (d : Doubles fl) where
  -- the pixels of the border on one side
  unfoldable pub scaled_border : TransformParams fl → Option ℕ → ℤ
  scaled_border tp side =
      let px : fl.F32 = fl.of_u32 (elim side [ none ↦ unwrap_or 0 tp.border_width | some n ↦ n ]) in
      d.f32_to_i32 (d.max_f32 (d.round_f32 (fl.mul px tp.dpr)) (fl.literal 0 0))

  abbrev has_border : TransformParams fl → Bool
  has_border tp =
      is_some tp.border_width
      || is_some tp.border_top
      || is_some tp.border_right
      || is_some tp.border_bottom
      || is_some tp.border_left

  unfoldable pub border_color : Option Rgb → d.F64 × d.F64 × d.F64
  border_color none = (d.literal 0 0, d.literal 0 0, d.literal 0 0)
  border_color (some c) = (d.of_u64 c.r, d.of_u64 c.g, d.of_u64 c.b)

module _ {fl : Floats} {d : Doubles fl} (v : Vips d) where
  -- the choice between the three resizes, by the fit and the sizes that are given
  unfoldable pub resize_to :
      TransformParams fl
      → Probe v
      → Option Text
      → Option ℤ
      → Option ℤ
      → v.Image
      → Result Stop (Resized v)
  unfolding cover_stack aspect_crop plain_resize
  resize_to tp p source eff_w eff_h image =
      let animated_output : Bool = is_some p.animated_format in
      let pages : ℤ = unwrap_or (pos 1) (or_else p.effective_pages p.n_pages) in
      let fit : FitMode = effective_fit tp.fit in
      let plain = plain_resize v tp fit animated_output pages source eff_w eff_h image in
      elim eff_w [
        | none ↦ plain
        | some tw ↦ elim eff_h [
          | none ↦ plain
          | some th ↦ elim fit [
            | FitMode.cover ↦
                if animated_output
                then (do covered ← cover_stack v pages tw th image; ok (covered, false))
                else plain
            | FitMode.aspect_crop ↦
                if animated_output then plain else aspect_crop v tp source tw th image
            | _ ↦ plain
          ]
        ]
      ]

  -- `resize_source`
  unfoldable pub source_of : TransformParams fl → Bool → Text → v.Image → Option Text
  unfolding resize_reads_source shrinks_on_load
  source_of tp animated_output input_data image =
      if resize_reads_source fl tp animated_output && shrinks_on_load v image
      then some input_data
      else none

  unfoldable pub resize_stage :
      TransformParams fl → Probe v → Text → v.Image → Result Stop (Resized v)
  unfolding resize_to source_of pad effective_width effective_height
  resize_stage tp p input_data image =
      let animated_output : Bool = is_some p.animated_format in
      let eff_w : Option ℤ = as_i32 (effective_width fl tp) in
      let eff_h : Option ℤ = as_i32 (effective_height fl tp) in
      if is_some eff_w || is_some eff_h
      then (do
        (resized, reduced) ←
            resize_to tp p (source_of tp animated_output input_data image) eff_w eff_h image
        padded ←
            if is_pad tp.fit && not animated_output
            then pad v tp eff_w eff_h resized
            else ok resized
        ok (padded, reduced))
      else ok (image, false)

  -- an effect with one parameter, if it is given
  abbrev effect :
      {A : Type 0}
      → (A → v.Image → Result VipsError v.Image)
      → Option A
      → v.Image
      → Result VipsError v.Image
  effect run none image = ok image
  effect run (some a) image = run a image

  abbrev given : {A : Type 0} → (A → d.F64) → d.F64 → Option A → d.F64
  given f default none = default
  given f default (some a) = f a

  unfoldable pub brighten : TransformParams fl → v.Image → Result VipsError v.Image
  brighten tp image =
      if is_some tp.brightness || is_some tp.contrast
      then v.linear1 (given d.of_f32 (d.literal 1 0) tp.contrast)
          (given (λ b. d.mul (d.sub (d.of_f32 b) (d.literal 1 0)) (d.literal 128 0)) (d.literal 0 0)
            tp.brightness)
          image
      else ok image

  unfoldable pub saturate : fl.F32 → v.Image → Result VipsError v.Image
  saturate saturation image = do
    lch ← v.colourspace Consts.interpretation_lch image
    l_band ← v.extract_band (pos 0) (pos 1) lch
    c_band ← v.extract_band (pos 1) (pos 1) lch
    h_band ← v.extract_band (pos 2) (pos 1) lch
    c_scaled ← v.linear1 (d.of_f32 saturation) (d.literal 0 0) c_band
    lc ← v.bandjoin2 l_band c_scaled
    joined ← v.bandjoin2 lc h_band
    v.colourspace Consts.interpretation_srgb joined

  unfoldable pub effects : TransformParams fl → v.Image → Result VipsError v.Image
  unfolding brighten saturate
  effects tp image = do
    sharp ← effect (λ s. v.sharpen (d.of_f32 s)) tp.sharpen image
    blurred ← effect (λ s. v.gaussblur (d.of_f32 s)) tp.blur sharp
    bright ← brighten tp blurred
    corrected ← effect (λ g. v.gamma (d.of_f32 g)) tp.gamma bright
    effect saturate tp.saturation corrected

  unfoldable pub flatten_background : TransformParams fl → v.Image → Result VipsError v.Image
  unfolding bg_color_from_params
  flatten_background tp image =
      if is_some tp.background && not (is_pad tp.fit) && v.has_alpha image
      then v.flatten (bg_color_from_params d tp.background) image
      else ok image

  -- skipped for animated output
  unfoldable pub add_border : Bool → TransformParams fl → v.Image → Result VipsError v.Image
  unfolding scaled_border border_color width height add_i32
  add_border animated_output tp image =
      let top : ℤ = scaled_border d tp tp.border_top in
      let right : ℤ = scaled_border d tp tp.border_right in
      let bottom : ℤ = scaled_border d tp tp.border_bottom in
      let left : ℤ = scaled_border d tp tp.border_left in
      if not animated_output
        && has_border d tp
        && (ltb_ℤ (pos 0) top || ltb_ℤ (pos 0) right || ltb_ℤ (pos 0) bottom || ltb_ℤ (pos 0) left)
      then v.embed left top (add_i32 (add_i32 (width v image) left) right)
          (add_i32 (add_i32 (height v image) top) bottom) (border_color d tp.border_color) image
      else ok image

  unfoldable pub after_resize : Bool → TransformParams fl → v.Image → Result VipsError v.Image
  unfolding effects flatten_background add_border
  after_resize animated_output tp image = do
    shown ← effects tp image
    flat ← flatten_background tp shown
    add_border animated_output tp flat
