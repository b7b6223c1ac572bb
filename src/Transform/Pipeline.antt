-- ===== src/Transform/Pipeline.antt =====
-- crates/imgx/src/transform/pipeline.rs: what a transform takes and gives, and the interface that
-- the server calls.
pub mod Probe
pub mod Crops
pub mod Resize
pub mod Stages
pub mod Effects
pub mod Encode
pub mod Run
pub mod Overlays
use imgx.Base.{ℕ, Text, Bool, Option, List, Result}
use imgx.Config.{default_avif_effort}
use imgx.Transform.Floats.{Floats}
use imgx.Transform.Options.{OutputFormat, MetadataMode}
use imgx.Transform.Params.{DrawOverlay, TransformParams}

-- `ThumbhashError` of thumbhash.rs
pub data ThumbhashError : Type 0 where
  invalid_dimensions : ℕ → ℕ → ThumbhashError
  buffer_length_mismatch : ℕ → ℕ → ThumbhashError
  unsupported_bands : ℕ → ThumbhashError

-- `VipsError` of crates/imgx-vips/src/error.rs, each with the message of the C library
pub data VipsError : Type 0 where
  init_failed load_failed save_failed resize_failed operation_failed : Text → VipsError

pub data TransformError : Type 0 where
  vips : VipsError → TransformError
  exceeds_max_pixels : ℕ → ℕ → TransformError
  thumbhash : ThumbhashError → TransformError

-- How a run ends without a result.
pub data Stop : Type 0 where
  panic : Stop
  failed : TransformError → Stop

pub record TransformResult : Type 0 where
  pub data_bytes : Text
  pub format : OutputFormat
  pub width : ℕ
  pub height : ℕ
  pub is_animated : Bool
  pub frame_count : Option ℕ
  pub decoded_at_reduced_size : Bool

pub record TransformLimits : Type 0 where
  pub max_pixels : ℕ
  pub max_frames : ℕ
  pub max_animated_pixels : ℕ

abbrev pub default_limits : TransformLimits
default_limits = record {
  max_pixels = 71_000_000;
  max_frames = 100;
  max_animated_pixels = 50_000_000;
}

pub record EncoderSettings : Type 0 where
  pub avif_effort : ℕ

abbrev pub default_encoder : EncoderSettings
default_encoder = record { avif_effort = default_avif_effort }

pub record TransformSettings : Type 0 where
  pub limits : TransformLimits
  pub encoder : EncoderSettings

pub record EncodeOptions : Type 0 where
  pub quality : ℕ
  pub avif_effort : ℕ
  pub metadata : MetadataMode

module _ (fl : Floats) where
  abbrev pub new_options : TransformParams fl → EncoderSettings → EncodeOptions
  new_options tp encoder = record {
    quality = tp.quality;
    avif_effort = encoder.avif_effort;
    metadata = tp.metadata;
  }

  -- What the server calls of this module.
  pub record Pipeline : Type 0 where
    pub transform :
        Text
        → TransformParams fl
        → Option Text
        → Option TransformSettings
        → Result Stop TransformResult
    pub apply_draw_overlays :
        TransformResult
        → List (DrawOverlay fl)
        → List Text
        → EncodeOptions
        → Result Stop TransformResult
