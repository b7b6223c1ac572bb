-- ===== src/Transform/Params/Parse/Arms.antt =====
-- Every arm of the two matches keeps the ranges of the numbers.
use imgx.Base.{◌≤◌, Text, All, length, Result, ok_or, text_eq}
use imgx.Transform.Floats.{Floats}
use imgx.Transform.Numbers.{Fault, error, parse_f32}
use imgx.Transform.Numbers.Bounds.{IsRgb}
use imgx.Transform.Options
use imgx.Transform.Options.{ParseError}
use imgx.Transform.Params.{DrawOverlay, TransformParams}
use imgx.Transform.Params.Parse.{lift, draw_arms, param_arms}
use imgx.Transform.Params.Parse.Ensures.{
  IsOpt, IsU32, AllArms, Ensures-bind, IsU32-Ensures, quality-Ensures, color-Ensures, any, ◌&◌,
}

module _ (fl : Floats) where
  abbrev pub IsRangedOverlay : DrawOverlay fl → Type 0
  IsRangedOverlay d = IsOpt IsRgb d.background

  -- Every number fits its machine type, every colour is three bytes, and at most 64 overlays.
  pub record IsRanged (p : TransformParams fl) : Type 0 where
    pub width : IsOpt IsU32 p.width
    pub height : IsOpt IsU32 p.height
    pub quality : p.quality ≤ 255
    pub background : IsOpt IsRgb p.background
    pub frame : IsOpt IsU32 p.frame
    pub scq : IsOpt (λ n. n ≤ 255) p.scq
    pub border_width : IsOpt IsU32 p.border_width
    pub border_color : IsOpt IsRgb p.border_color
    pub border_top : IsOpt IsU32 p.border_top
    pub border_right : IsOpt IsU32 p.border_right
    pub border_bottom : IsOpt IsU32 p.border_bottom
    pub border_left : IsOpt IsU32 p.border_left
    pub overlays : length p.draw ≤ 64
    pub each : All IsRangedOverlay p.draw

  pub draw_arms-IsRanged :
      (value : Text) (d : DrawOverlay fl)
      → IsRangedOverlay d
      → AllArms IsRangedOverlay (draw_arms fl value d)
  unfolding draw_arms
  draw_arms-IsRanged value d h =
      h
      & any R (float' value) _ (λ v. h)
      & any R (float' value) _ (λ v. h)
      & any R (float' value) _ (λ v. h)
      & any R (float' value) _ (λ v. h)
      & any R (float' value) _ (λ v. h)
      & any R (float' value) _ (λ v. h)
      & any R (float' value) _ (λ v. h)
      & any R (lift (Options.parse_draw_repeat value)) _ (λ v. h)
      & Ensures-bind IsRgb R _ _ (color-Ensures value Options.invalid_draw) (λ c q. q)
      & any R (lift (Options.parse_rotation value)) _ (λ v. h)
      & any R (lift (Options.parse_fit value)) _ (λ v. h)
      & any R (lift (Options.parse_gravity value)) _ (λ v. h)
      & tt
    where
      R : DrawOverlay fl → Type 0
      R = IsRangedOverlay

      float' : Text → Result Fault fl.F32
      float' s = ok_or (parse_f32 fl s) (error Options.invalid_draw)

  pub param_arms-IsRanged :
      (value : Text) (p : TransformParams fl)
      → IsRanged p
      → AllArms IsRanged (param_arms fl value p)
  unfolding param_arms
  param_arms-IsRanged value p h =
      Ensures-bind IsU32 R _ _ (IsU32-Ensures value Options.invalid_width) (λ n q. assumption)
      & Ensures-bind IsU32 R _ _ (IsU32-Ensures value Options.invalid_width) (λ n q. assumption)
      & Ensures-bind IsU32 R _ _ (IsU32-Ensures value Options.invalid_height) (λ n q. assumption)
      & Ensures-bind IsU32 R _ _ (IsU32-Ensures value Options.invalid_height) (λ n q. assumption)
      & Ensures-bind (λ n. n ≤ 255) R _ _ (quality-Ensures value) (λ n q. assumption)
      & Ensures-bind (λ n. n ≤ 255) R _ _ (quality-Ensures value) (λ n q. assumption)
      & any R (lift (Options.parse_format value)) _ (λ v. assumption)
      & any R (lift (Options.parse_format value)) _ (λ v. assumption)
      & any R (lift (Options.parse_format value)) _ (λ v. assumption)
      & any R (lift (Options.parse_fit value)) _ (λ v. assumption)
      & any R (lift (Options.parse_gravity value)) _ (λ v. assumption)
      & any R (lift (Options.parse_gravity value)) _ (λ v. assumption)
      & any R (float' Options.invalid_sharpen) _ (λ v. assumption)
      & any R (float' Options.invalid_blur) _ (λ v. assumption)
      & any R (float' Options.invalid_dpr) _ (λ v. assumption)
      & any R (lift (Options.parse_rotation value)) _ (λ v. assumption)
      & any R (lift (Options.parse_flip value)) _ (λ v. assumption)
      & any R (float' Options.invalid_brightness) _ (λ v. assumption)
      & any R (float' Options.invalid_contrast) _ (λ v. assumption)
      & any R (float' Options.invalid_saturation) _ (λ v. assumption)
      & any R (float' Options.invalid_gamma) _ (λ v. assumption)
      & Ensures-bind IsRgb R _ _ (color-Ensures value Options.invalid_background)
          (λ c q. assumption)
      & Ensures-bind IsRgb R _ _ (color-Ensures value Options.invalid_background)
          (λ c q. assumption)
      & any R (lift (Options.parse_metadata value)) _ (λ v. assumption)
      & any R (float' Options.invalid_trim) _ (λ v. assumption)
      & any R (lift (Options.parse_anim value)) _ (λ v. assumption)
      & Ensures-bind IsU32 R _ _ (IsU32-Ensures value Options.invalid_frame) (λ n q. assumption)
      & any R (float' Options.invalid_trim) _ (λ v. assumption)
      & any R (float' Options.invalid_trim) _ (λ v. assumption)
      & any R (float' Options.invalid_trim) _ (λ v. assumption)
      & any R (float' Options.invalid_trim) _ (λ v. assumption)
      & any R (lift (Options.parse_onerror value)) _ (λ v. assumption)
      & any R (lift (Options.parse_compression value)) _ (λ v. assumption)
      & Ensures-bind (λ n. n ≤ 255) R _ _ (quality-Ensures value) (λ n q. assumption)
      & Ensures-bind (λ n. n ≤ 255) R _ _ (quality-Ensures value) (λ n q. assumption)
      & Ensures-bind IsU32 R _ _ (IsU32-Ensures value Options.invalid_border) (λ n q. assumption)
      & Ensures-bind IsRgb R _ _ (color-Ensures value Options.invalid_border) (λ c q. assumption)
      & Ensures-bind IsU32 R _ _ (IsU32-Ensures value Options.invalid_border) (λ n q. assumption)
      & Ensures-bind IsU32 R _ _ (IsU32-Ensures value Options.invalid_border) (λ n q. assumption)
      & Ensures-bind IsU32 R _ _ (IsU32-Ensures value Options.invalid_border) (λ n q. assumption)
      & Ensures-bind IsU32 R _ _ (IsU32-Ensures value Options.invalid_border) (λ n q. assumption)
      & tt
    where
      R : TransformParams fl → Type 0
      R = IsRanged

      float' : ParseError → Result Fault fl.F32
      float' e = ok_or (parse_f32 fl value) (error e)
