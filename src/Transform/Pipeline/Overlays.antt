-- ===== src/Transform/Pipeline/Overlays.antt =====
-- crates/imgx/src/transform/pipeline.rs: overlays on a transformed image.
pub mod Pairs
use imgx.Base.{
  ℕ, Text, Bool, true, false, not, ◌&&◌, ◌||◌, Option, none, some, List, [], ◌∷◌, ℤ, pos, Result,
  ok, err, ◌>>=◌, max_i32, sub_i32, div_i32, if◌then◌else◌,
}
use imgx.Transform.Floats.{Floats}
use imgx.Transform.Numbers.{Rgb}
use imgx.Transform.Options.{
  OutputFormat, Rotation, FitMode, Gravity, DrawRepeat, produces_text_body,
}
use imgx.Transform.Params.{DrawOverlay}
use imgx.Transform.Params.Validate.{has_elements}
use imgx.Transform.Pipeline.{VipsError, Stop, TransformResult, EncodeOptions, Pipeline}
use imgx.Transform.Pipeline.Crops.{rotate}
use imgx.Transform.Pipeline.Encode.{encode_image}
use imgx.Transform.Pipeline.Probe.{lift, is_some, unwrap_or}
use imgx.Transform.Pipeline.Resize.{build_thumbnail_options}
use imgx.Transform.Pipeline.Run.{transform}
use imgx.Transform.Vips.{Doubles, Vips, width, height, bands}

module _ {fl : Floats} (d : Doubles fl) where
  unfoldable pub resolve_overlay_dim : fl.F32 → ℤ → ℤ
  resolve_overlay_dim x base_dim =
      if fl.lt x (fl.literal 1 0)
      then d.to_i32 (d.round (d.mul (d.of_f32 x) (d.of_i32 base_dim)))
      else d.f32_to_i32 (d.round_f32 x)

  -- a position along one axis: from its start, from its end, or in the middle
  unfoldable pub position : Option fl.F32 → Option fl.F32 → ℤ → ℤ → ℤ
  unfolding resolve_overlay_dim sub_i32 div_i32
  position (some near) far base size = resolve_overlay_dim near base
  position none (some far) base size = sub_i32 (sub_i32 base size) (resolve_overlay_dim far base)
  position none none base size = div_i32 (sub_i32 base size) (pos 2)

module _ {fl : Floats} {d : Doubles fl} (v : Vips d) where
  abbrev dim : Option fl.F32 → ℤ → Option ℤ
  dim none base = none
  dim (some x) base = some (resolve_overlay_dim d x base)

  unfoldable pub size_overlay : v.Image → DrawOverlay fl → v.Image → Result VipsError v.Image
  unfolding resolve_overlay_dim build_thumbnail_options width height
  size_overlay base entry overlay =
      let target_w : Option ℤ = dim entry.width (width v base) in
      let target_h : Option ℤ = dim entry.height (height v base) in
      if is_some target_w || is_some target_h
      then v.thumbnail (max_i32 (unwrap_or (width v overlay) target_w) (pos 1))
          (build_thumbnail_options (unwrap_or FitMode.contain entry.fit)
            (unwrap_or Gravity.center entry.gravity) target_h)
          overlay
      else ok overlay

  unfoldable pub tile_overlay : v.Image → DrawOverlay fl → v.Image → Result VipsError v.Image
  unfolding width height
  tile_overlay base entry overlay = elim entry.repeat [
    | none ↦ ok overlay
    | some repeat ↦
        let tile_w : ℤ = elim repeat [
          | DrawRepeat.both ↦ width v base
          | DrawRepeat.x ↦ width v base
          | DrawRepeat.y ↦ width v overlay
        ] in
        let tile_h : ℤ = elim repeat [
          | DrawRepeat.both ↦ height v base
          | DrawRepeat.x ↦ height v overlay
          | DrawRepeat.y ↦ height v base
        ] in
        v.tile_to_size (max_i32 tile_w (pos 1)) (max_i32 tile_h (pos 1)) overlay
  ]

  unfoldable pub flatten_overlay : Option Rgb → v.Image → Result VipsError v.Image
  flatten_overlay none overlay = ok overlay
  flatten_overlay (some bg) overlay =
      if v.has_alpha overlay
      then v.flatten (d.of_u64 bg.r, d.of_u64 bg.g, d.of_u64 bg.b) overlay
      else ok overlay

  unfoldable pub fade_overlay : Option fl.F32 → v.Image → Result VipsError v.Image
  unfolding bands sub_i32
  fade_overlay none overlay = ok overlay
  fade_overlay (some opacity) overlay =
      if v.has_alpha overlay
      then (do
        let last = sub_i32 (bands v overlay) (pos 1)
        color ← v.extract_band (pos 0) last overlay
        alpha ← v.extract_band last (pos 1) overlay
        scaled ← v.linear1 (d.of_f32 opacity) (d.literal 0 0) alpha
        v.bandjoin2 color scaled)
      else ok overlay

  unfoldable pub composite_draw_overlay : v.Image → Text → DrawOverlay fl → Result VipsError v.Image
  unfolding size_overlay rotate tile_overlay flatten_overlay fade_overlay position width height
  composite_draw_overlay base overlay_bytes entry = do
    loaded ← v.from_buffer overlay_bytes
    sized ← size_overlay base entry loaded
    rotated ← rotate v entry.rotate sized
    tiled ← tile_overlay base entry rotated
    flat ← flatten_overlay entry.background tiled
    overlay ← fade_overlay entry.opacity flat
    v.composite_over overlay (position d entry.left entry.right (width v base) (width v overlay))
        (position d entry.top entry.bottom (height v base) (height v overlay)) base

  -- the loop over the entries, with the bytes that are left
  unfoldable pub composite_all :
      List (DrawOverlay fl) → List Text → v.Image → Result VipsError v.Image
  unfolding composite_draw_overlay
  composite_all [] overlay_bytes base = ok base
  composite_all (entry ∷ draw) [] base =
      if is_some entry.url then ok base else composite_all draw [] base
  composite_all (entry ∷ draw) (first ∷ overlay_bytes) base =
      let skipped = composite_all draw (first ∷ overlay_bytes) base in
      let drawn = (do
        next ← composite_draw_overlay base first entry
        composite_all draw overlay_bytes next) in
      if is_some entry.url then drawn else skipped

  unfoldable pub apply_draw_overlays :
      TransformResult
      → List (DrawOverlay fl)
      → List Text
      → EncodeOptions
      → Result Stop TransformResult
  unfolding composite_all encode_image produces_text_body
  apply_draw_overlays result draw overlay_bytes options =
      if not (has_elements draw) || not (has_elements overlay_bytes) || result.is_animated
      then ok result
      else if produces_text_body result.format
      then ok result
      else (do
        base ← lift (v.from_buffer result.data_bytes)
        composed ← lift (composite_all draw overlay_bytes base)
        encoded ← encode_image v composed result.format options
        ok (record result { data_bytes = encoded }))

  -- what the server calls
  abbrev pub vips_pipeline : Pipeline fl
  vips_pipeline = record { transform = transform v; apply_draw_overlays = apply_draw_overlays }
