-- ===== src/Transform/Pipeline/Probe.antt =====
-- crates/imgx/src/transform/pipeline.rs: the first frame of the source, the budgets, and the decision
-- between animated and static output.
pub mod Budget
use imgx.Base.{
  ℕ, ◌*◌, ◌%◌, ◌^◌, Text, Bool, true, false, not, ◌&&◌, Option, none, some, ℤ, pos, negsuc, Result,
  ok, err, ◌>>=◌, ◌>>◌, fail_if, ltb, ltb_ℤ, leb_ℤ, min_i32, as_u32, as_u64, wrap_i32, sub_i32,
  mul_i32, if◌then◌else◌,
}
use imgx.Transform.Floats.{Floats}
use imgx.Transform.Negotiate.{negotiate_animated_format}
use imgx.Transform.Options.{OutputFormat, AnimMode}
use imgx.Transform.Params.{TransformParams}
use imgx.Transform.Pipeline.{Stop, failed, TransformError, VipsError, TransformLimits}
use imgx.Transform.Vips.{Doubles, Vips, width, height, n_pages, page_height}

-- the operator `?` on a result of libvips
abbrev pub lift : {A : Type 0} → Result VipsError A → Result Stop A
lift (ok a) = ok a
lift (err e) = err (failed (TransformError.vips e))

abbrev pub unwrap_or : {A : Type 0} → A → Option A → A
unwrap_or d none = d
unwrap_or d (some a) = a

abbrev pub is_some : {A : Type 0} → Option A → Bool
is_some none = false
is_some (some a) = true

-- `o.filter(|&n| n >= 1)`
abbrev pub positive : Option ℤ → Option ℤ
positive none = none
positive (some n) = if leb_ℤ (pos 1) n then some n else none

abbrev pub is_thumbhash : Option OutputFormat → Bool
is_thumbhash (some OutputFormat.thumbhash) = true
is_thumbhash _ = false

abbrev pub is_static : AnimMode → Bool
is_static AnimMode.static = true
is_static _ = false

module _ {fl : Floats} {d : Doubles fl} (v : Vips d) where
  unfoldable pub load_first_frame : Text → Bool → Result VipsError v.Image
  load_first_frame data_bytes strict =
      if strict then v.from_buffer_strict data_bytes else v.from_buffer data_bytes

  unfoldable pub load_pages : Text → ℤ → Bool → Result VipsError v.Image
  load_pages data_bytes n strict =
      if strict
      then v.from_buffer_animated_strict data_bytes n
      else v.from_buffer_animated data_bytes n

  unfoldable pub n_pages_of : v.Image → Option ℤ
  unfolding n_pages
  n_pages_of image = positive (n_pages v image)

  unfoldable pub page_height_of : v.Image → Option ℤ
  unfolding page_height
  page_height_of image = positive (page_height v image)

  unfoldable pub first_frame_pixels : v.Image → ℕ
  unfolding width height
  first_frame_pixels image = as_u64 (width v image) * as_u64 (height v image) % 2 ^ 64

  unfoldable pub check_pixels : TransformLimits → v.Image → Result Stop (Unit {0})
  unfolding first_frame_pixels
  check_pixels limits image =
      fail_if (ltb limits.max_pixels (first_frame_pixels image))
        (failed (TransformError.exceeds_max_pixels (first_frame_pixels image) limits.max_pixels))

  abbrev pub several_pages : Option ℤ → Bool
  several_pages none = false
  several_pages (some n) = ltb_ℤ (pos 1) n

  unfoldable pub over_budget : TransformLimits → v.Image → Bool
  unfolding width height n_pages_of page_height_of
  over_budget limits image =
      let page_h : ℤ = unwrap_or (height v image) (page_height_of image) in
      let frames : ℤ = unwrap_or (pos 1) (n_pages_of image) in
      if several_pages (n_pages_of image)
      then ltb limits.max_animated_pixels
          (as_u64 (width v image) * as_u64 page_h * as_u64 frames % 2 ^ 64)
      else false

  -- the number of frames after clamping to `max_frames`
  unfoldable pub effective_pages : TransformLimits → v.Image → Option ℤ
  unfolding n_pages_of over_budget wrap_i32
  effective_pages limits image = elim (n_pages_of image) [
    | none ↦ none
    | some n ↦
        if ltb_ℤ (pos 1) n && not (over_budget limits image)
        then some (min_i32 n (wrap_i32 (pos limits.max_frames)))
        else some n
  ]

  unfoldable pub animated_format :
      TransformLimits → Option Text → TransformParams fl → v.Image → Option OutputFormat
  unfolding n_pages_of over_budget negotiate_animated_format
  animated_format limits accept_header tp image =
      if several_pages (n_pages_of image)
        && not (over_budget limits image)
        && not (is_static tp.anim)
        && not (is_some tp.frame)
      then negotiate_animated_format fl accept_header tp.format
      else none

  -- What is known after the probe.
  pub record Probe : Type 0 where
    pub current : v.Image
    pub original_width : ℕ
    pub original_height : ℕ
    pub n_pages : Option ℤ
    pub effective_pages : Option ℤ
    pub animated_format : Option OutputFormat

  -- all pages of an animated source, clamped to the effective number of pages
  unfoldable pub reload :
      Text → Bool → Option OutputFormat → Option ℤ → Option ℤ → v.Image → Result VipsError v.Image
  unfolding load_pages
  reload input_data strict (some format) (some effective) (some n) current =
      load_pages input_data (if ltb_ℤ effective n then effective else negsuc 0) strict
  reload input_data strict _ _ _ current = ok current

  unfoldable pub probe :
      Text → TransformParams fl → Option Text → TransformLimits → Result Stop Probe
  unfolding load_first_frame check_pixels n_pages_of effective_pages animated_format reload width
      height
  probe input_data tp accept_header limits = do
    first ← lift (load_first_frame input_data (is_thumbhash tp.format))
    check_pixels limits first
    let pages = n_pages_of first
    let effective = effective_pages limits first
    let animated = animated_format limits accept_header tp first
    current ← lift (reload input_data (is_thumbhash tp.format) animated effective pages first)
    ok (record {
      current = current;
      original_width = as_u32 (width v first);
      original_height = as_u32 (height v first);
      n_pages = pages;
      effective_pages = effective;
      animated_format = animated;
    })
