-- ===== src/Transform/Params.antt =====
-- crates/imgx/src/transform/params.rs: the parameters of a transform and their defaults.
pub mod Parse
pub mod Validate
pub mod CacheKey
pub mod Hints
use imgx.Base.{ℕ, Text, Option, none, List, []}
use imgx.Transform.Floats.{Floats}
use imgx.Transform.Numbers.{Rgb}
use imgx.Transform.Options.{
  OutputFormat, Rotation, FlipMode, MetadataMode, OnErrorMode, CompressionMode, DrawRepeat,
  AnimMode, FitMode, Gravity, default_metadata, default_anim, default_fit, default_gravity,
}

module _ (fl : Floats) where
  pub record DrawOverlay : Type 0 where
    pub url : Option Text
    pub width : Option fl.F32
    pub height : Option fl.F32
    pub top : Option fl.F32
    pub left : Option fl.F32
    pub bottom : Option fl.F32
    pub right : Option fl.F32
    pub opacity : Option fl.F32
    pub repeat : Option DrawRepeat
    pub background : Option Rgb
    pub rotate : Option Rotation
    pub fit : Option FitMode
    pub gravity : Option Gravity

  abbrev pub default_overlay : DrawOverlay
  default_overlay = record {
    url = none;
    width = none;
    height = none;
    top = none;
    left = none;
    bottom = none;
    right = none;
    opacity = none;
    repeat = none;
    background = none;
    rotate = none;
    fit = none;
    gravity = none;
  }

  pub record TransformParams : Type 0 where
    pub width : Option ℕ
    pub height : Option ℕ
    pub quality : ℕ
    pub format : Option OutputFormat
    pub fit : FitMode
    pub gravity : Gravity
    pub sharpen : Option fl.F32
    pub blur : Option fl.F32
    pub dpr : fl.F32
    pub rotate : Option Rotation
    pub flip : Option FlipMode
    pub brightness : Option fl.F32
    pub contrast : Option fl.F32
    pub saturation : Option fl.F32
    pub gamma : Option fl.F32
    pub background : Option Rgb
    pub metadata : MetadataMode
    pub trim : Option fl.F32
    pub anim : AnimMode
    pub frame : Option ℕ
    pub trim_top : Option fl.F32
    pub trim_right : Option fl.F32
    pub trim_bottom : Option fl.F32
    pub trim_left : Option fl.F32
    pub onerror : Option OnErrorMode
    pub compression : Option CompressionMode
    pub scq : Option ℕ
    pub border_width : Option ℕ
    pub border_color : Option Rgb
    pub border_top : Option ℕ
    pub border_right : Option ℕ
    pub border_bottom : Option ℕ
    pub border_left : Option ℕ
    pub draw : List DrawOverlay

  abbrev pub default_params : TransformParams
  default_params = record {
    width = none;
    height = none;
    quality = 80;
    format = none;
    fit = default_fit;
    gravity = default_gravity;
    sharpen = none;
    blur = none;
    dpr = fl.literal 1 0;
    rotate = none;
    flip = none;
    brightness = none;
    contrast = none;
    saturation = none;
    gamma = none;
    background = none;
    metadata = default_metadata;
    trim = none;
    anim = default_anim;
    frame = none;
    trim_top = none;
    trim_right = none;
    trim_bottom = none;
    trim_left = none;
    onerror = none;
    compression = none;
    scq = none;
    border_width = none;
    border_color = none;
    border_top = none;
    border_right = none;
    border_bottom = none;
    border_left = none;
    draw = [];
  }
