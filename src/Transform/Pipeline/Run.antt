-- ===== src/Transform/Pipeline/Run.antt =====
-- crates/imgx/src/transform/pipeline.rs: the whole transform.
pub mod Results
use imgx.Base.{
  ℕ, Text, bytes, Bool, true, false, Option, none, some, ◌++◌, ℤ, Result, ok, err, ◌>>=◌, as_u32,
  length, if◌then◌else◌,
}
use imgx.Transform.Floats.{Floats}
use imgx.Transform.Negotiate.{negotiate_format, apply_compression_fast}
use imgx.Transform.Options.{OutputFormat, CompressionMode, format_str}
use imgx.Transform.Params.{TransformParams}
use imgx.Transform.Pipeline.{
  Stop, failed, TransformError, TransformResult, TransformSettings, EncodeOptions, new_options,
  default_limits, default_encoder,
}
use imgx.Transform.Pipeline.Crops.{before_resize}
use imgx.Transform.Pipeline.Effects.{resize_stage, after_resize}
use imgx.Transform.Pipeline.Encode.{encode_image, thumbhash_rgba}
use imgx.Transform.Pipeline.Probe.{Probe, probe, lift, is_some, is_thumbhash}
use imgx.Transform.Print.{decimal}
use imgx.Transform.Thumbhash.{to_base64}
use imgx.Transform.Thumbhash.Hash.{encode}
use imgx.Transform.Vips.{Doubles, Vips, width, height}

abbrev pub or_default : Option TransformSettings → TransformSettings
or_default none = record { limits = default_limits; encoder = default_encoder }
or_default (some settings) = settings

abbrev pub is_fast : Option CompressionMode → Bool
is_fast (some CompressionMode.fast) = true
is_fast _ = false

abbrev frames : Option ℤ → Option ℕ
frames none = none
frames (some n) = some (as_u32 n)

-- the text of `format=json`
unfoldable pub json_text : ℕ → ℕ → ℕ → ℕ → ℕ → OutputFormat → ℕ → Text
unfolding decimal format_str
json_text original_width original_height file_size out_width out_height format encoded_size =
    bytes "{\"original\":{\"width\":"
    ++ (decimal original_width
        ++ (bytes ",\"height\":"
            ++ (decimal original_height
                ++ (bytes ",\"file_size\":"
                    ++ (decimal file_size
                        ++ (bytes "},\"transformed\":{\"width\":"
                            ++ (decimal out_width
                                ++ (bytes ",\"height\":"
                                    ++ (decimal out_height
                                        ++ (bytes ",\"format\":\""
                                            ++ (format_str format
                                                ++ (bytes "\",\"file_size\":"
                                                    ++ (decimal encoded_size
                                                        ++ bytes "}}")))))))))))))

module _ {fl : Floats} {d : Doubles fl} (v : Vips d) where
  module _ (input_data : Text) (tp : TransformParams fl) (accept_header : Option Text)
      (options : EncodeOptions) (p : Probe v) (image : v.Image) (reduced : Bool) where
    abbrev animated_output : Bool
    animated_output = is_some p.animated_format

    abbrev frame_count : Option ℕ
    frame_count = if animated_output then frames p.effective_pages else none

    -- `compression=fast`, which animated output ignores
    abbrev pub fast_unless_animated : OutputFormat → OutputFormat
    fast_unless_animated format =
        if animated_output then format else apply_compression_fast format (is_fast tp.compression)

    unfoldable pub json_result : Result Stop TransformResult
    unfolding negotiate_format encode_image json_text width height
    json_result = do
      let format = fast_unless_animated (negotiate_format fl accept_header (v.has_alpha image) none)
      encoded ← encode_image v image format options
      ok (record {
        data_bytes =
            json_text p.original_width p.original_height (length input_data)
              (as_u32 (width v image)) (as_u32 (height v image)) format (length encoded);
        format = OutputFormat.json;
        width = as_u32 (width v image);
        height = as_u32 (height v image);
        is_animated = animated_output;
        frame_count = frame_count;
        decoded_at_reduced_size = reduced;
      })

    abbrev hashed : Result Stop Text
    hashed = do
      (w, h, rgba) ← thumbhash_rgba v image
      elim (encode d w h rgba) [
        | ok hash ↦ ok hash
        | err e ↦ err (failed (TransformError.thumbhash e))
      ]

    unfoldable pub thumbhash_result : Result Stop TransformResult
    unfolding thumbhash_rgba encode to_base64 width height
    thumbhash_result = do
      hash ← hashed
      ok (record {
        data_bytes = to_base64 hash;
        format = OutputFormat.thumbhash;
        width = as_u32 (width v image);
        height = as_u32 (height v image);
        is_animated = false;
        frame_count = none;
        decoded_at_reduced_size = reduced;
      })

    -- the format of a response with an image
    unfoldable pub output_format : OutputFormat
    unfolding negotiate_format apply_compression_fast
    output_format = elim p.animated_format [
      | some format ↦ fast_unless_animated format
      | none ↦
          fast_unless_animated (negotiate_format fl accept_header (v.has_alpha image) tp.format)
    ]

    unfoldable pub image_result : Result Stop TransformResult
    unfolding output_format encode_image width height
    image_result = do
      encoded ← encode_image v image output_format options
      ok (record {
        data_bytes = encoded;
        format = output_format;
        width = as_u32 (width v image);
        height = as_u32 (height v image);
        is_animated = animated_output;
        frame_count = frame_count;
        decoded_at_reduced_size = reduced;
      })

    -- the three ways in which a transform ends
    unfoldable pub finish : Result Stop TransformResult
    unfolding json_result thumbhash_result image_result
    finish = elim tp.format [
      | some OutputFormat.json ↦ json_result
      | some OutputFormat.thumbhash ↦ thumbhash_result
      | _ ↦ image_result
    ]

  unfoldable pub transform :
      Text
      → TransformParams fl
      → Option Text
      → Option TransformSettings
      → Result Stop TransformResult
  unfolding probe before_resize resize_stage after_resize finish
  transform input_data tp accept_header settings = do
    let s = or_default settings
    p ← probe v input_data tp accept_header s.limits
    ready ← lift (before_resize v input_data (is_thumbhash tp.format) tp p)
    (resized, reduced) ← resize_stage v tp p input_data ready
    image ← lift (after_resize v (is_some p.animated_format) tp resized)
    finish input_data tp accept_header (new_options fl tp s.encoder) p image reduced
