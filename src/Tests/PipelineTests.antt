-- ===== src/Tests/PipelineTests.antt =====
-- The pipeline, over images that are a size and their metadata.
use imgx.Base.{
  ℕ, nat_eq, starts_with, ap, ◌<◌, Text, bytes, true, false, Option, none, some, [], ◌∷◌, ℤ, pos,
  ok, err, ◌==◌, text_eq, if◌then◌else◌, ◌≡◌, ◌↔◌, refl, arith, sub_i32, wrap_i32,
}
use imgx.Tests.Decimals.{decimals}
use imgx.Tests.Fractions.{fractions}
use imgx.Transform.Negotiate.{choose_format, supports, accept_of}
use imgx.Transform.Options.{OutputFormat}
use imgx.Transform.Params.{TransformParams, DrawOverlay, default_overlay, default_params}
use imgx.Transform.Pipeline.{TransformResult, VipsError, default_limits}
use imgx.Transform.Pipeline.Crops.{
  side_window, before_resize, trim_sides, resolve_trim, extract_frame, trim_border, rotate, flip,
}
use imgx.Transform.Pipeline.Effects.{
  source_of, resize_stage, after_resize, effects, brighten, flatten_background, add_border,
}
use imgx.Transform.Pipeline.Crops.Sides.{IsInside, window, cut_left, cut_top, side_window_lem}
use imgx.Transform.Pipeline.Encode.{with_pages, encode_image}
use imgx.Transform.Pipeline.Encode.Pages.{KeepsMetadata, IsPaged, with_pages-IsPaged}
use imgx.Transform.Pipeline.Overlays.{composite_all}
use imgx.Transform.Pipeline.Overlays.Pairs.{with_url, pairs, draw_all, composite_all-pairs}
use imgx.Transform.Pipeline.Probe.{
  Probe, probe, is_some, is_thumbhash, load_first_frame, first_frame_pixels, check_pixels,
  n_pages_of, effective_pages, animated_format, reload, over_budget, page_height_of,
}
use imgx.Transform.Pipeline.Resize.{resize_reads_source, trims_a_side, crops_by_content}
use imgx.Transform.Pipeline.Resize.Reduced.{ZeroCutsNothing, IsAsItWas, before_resize-first}
use imgx.Transform.Pipeline.Run.{transform, finish, image_result, output_format}
use imgx.Transform.Vips.{shrinks_on_load, Vips, width, height, n_pages, page_height}

-- an image without pixels
pub record Sized : Type 0 where
  pub wide : ℤ
  pub high : ℤ
  pub fields : Text → Option ℤ

abbrev pub plain : ℤ → ℤ → Sized
plain w h = record { wide = w; high = h; fields = λ name. none }

abbrev pub sized : Vips fractions
sized = record {
  Image = Sized;
  from_buffer = λ t. ok (plain (pos 10) (pos 8));
  from_buffer_strict = λ t. ok (plain (pos 10) (pos 8));
  from_buffer_animated = λ t n. ok (plain (pos 10) (pos 8));
  from_buffer_animated_strict = λ t n. ok (plain (pos 10) (pos 8));
  get_width = λ i. i.wide;
  get_height = λ i. i.high;
  get_bands = λ i. pos 3;
  has_alpha = λ i. false;
  get_string = λ name i. none;
  get_int = λ name i. i.fields name;
  set_int = λ name n i. record i { fields = λ k. if k == name then some n else i.fields k };
  save_jpeg = λ q s i. ok (bytes "jpeg");
  save_png = λ q s i. ok (bytes "png");
  save_webp_with_effort = λ q e s i. ok (bytes "webp");
  save_avif = λ q e s i. ok (bytes "avif");
  save_gif = λ i. ok (bytes "gif");
  write_to_memory = λ i. ok [];
  thumbnail = λ w o i. ok (plain w (elim o.height [ none ↦ w | some h ↦ h ]));
  thumbnail_buffer = λ t w o. ok (plain w (elim o.height [ none ↦ w | some h ↦ h ]));
  crop = λ l t w h i. ok (plain w h);
  rot = λ a i. ok (plain i.high i.wide);
  autorot = λ i. ok i;
  flip = λ a i. ok i;
  find_trim = λ t i. ok (pos 0, pos 0, i.wide, i.high);
  sharpen = λ s i. ok i;
  gaussblur = λ s i. ok i;
  linear1 = λ a b i. ok i;
  gamma = λ g i. ok i;
  colourspace = λ c i. ok i;
  extract_band = λ b n i. ok i;
  bandjoin2 = λ i j. ok i;
  flatten = λ c i. ok i;
  embed = λ l t w h c i. ok (plain w h);
  composite_over = λ o x y i. ok i;
  tile_to_size = λ w h i. ok (plain w h);
  arrayjoin_vertical = λ l. err (VipsError.operation_failed []);
}

abbrev params : TransformParams decimals
params = default_params decimals

same_text : (t : Text) → (t == t) ≡ true
same_text t = (text_eq.agrees t t).1 refl

sized-KeepsMetadata : KeepsMetadata sized
sized-KeepsMetadata = record {
  get-set = λ name n image. rw (same_text name) refl;
  get-set_other = λ name other n image h. rw h refl;
  height-set = λ name n image. refl;
}

abbrev page : ℕ
page = 3

-- ten rows in pages of three
abbrev stale : Sized
stale = record { wide = pos 4; high = pos 10; fields = λ name. some (pos 3) }

tall : height sized stale ≡ pos 10
unfolding height
tall = refl

with_pages-IsPaged_example : IsPaged sized stale 10 (with_pages sized stale)
with_pages-IsPaged_example = with_pages-IsPaged sized sized-KeepsMetadata stale 10 tall

abbrev overlay : DrawOverlay decimals
overlay = record (default_overlay decimals) { url = some (bytes "http://o/x.png") }

composite_all-pairs_example :
    composite_all sized (overlay ∷ []) (bytes "a" ∷ bytes "b" ∷ []) stale
    ≡ draw_all sized (pairs (with_url (overlay ∷ [])) (bytes "a" ∷ bytes "b" ∷ [])) stale
composite_all-pairs_example =
    composite_all-pairs sized (overlay ∷ []) (bytes "a" ∷ bytes "b" ∷ []) stale

-- two pixels off the left of ten
abbrev trimmed : TransformParams decimals
trimmed = record params { trim_left = some 200 }

side_window_lem_example :
    (side_window fractions trimmed (pos 10) (pos 8) ≡ window fractions trimmed 10 8)
    × (IsInside 10 8 (side_window fractions trimmed (pos 10) (pos 8))
        ↔ ((cut_left fractions trimmed 10 8 < 10) × (cut_top fractions trimmed 10 8 < 8)))
side_window_lem_example = side_window_lem fractions trimmed 10 8 (omega arith) (omega arith)

-- the whole width off the left: the window begins beyond the image
all_trimmed :
    side_window fractions (record params { trim_left = some 1000 }) (pos 10) (pos 8)
    ≡ record { left = pos 10; top = pos 0; width = pos 1; height = pos 8 }
unfolding side_window resolve_trim sub_i32 wrap_i32
all_trimmed = refl

probing : Unit {0}
unfolding probe load_first_frame check_pixels n_pages_of effective_pages animated_format reload
    width height first_frame_pixels over_budget n_pages page_height page_height_of
probing = tt

-- a trim of 0 pixels off the left
abbrev uncut : TransformParams decimals
uncut = record params { trim_left = some 0 }

-- images of a loader of JPEG
abbrev loaded : Vips fractions
loaded = record sized { get_string = λ name i. some (bytes "jpegload_buffer") }

abbrev probed_jpeg : Probe loaded
probed_jpeg = record {
  current = plain (pos 10) (pos 8);
  original_width = 10;
  original_height = 8;
  n_pages = none;
  effective_pages = none;
  animated_format = none;
}

probe_jpeg : probe loaded (bytes "src") uncut none default_limits ≡ ok probed_jpeg
unfolding probing
probe_jpeg = refl

given :
    source_of loaded uncut
      (is_some probed_jpeg.animated_format)
      (bytes "src")
      (plain (pos 10) (pos 8))
    ≡ some (bytes "src")
unfolding source_of resize_reads_source trims_a_side crops_by_content shrinks_on_load starts_with
given = refl

nothing_cut : ZeroCutsNothing loaded
unfolding resolve_trim
nothing_cut t n h = let zero_t : t ≡ 0 = (nat_eq.agrees t 0).0 h in rw zero_t (ap pos (omega arith))

wide_jpeg : width loaded probed_jpeg.current ≡ pos 10
unfolding width
wide_jpeg = refl

high_jpeg : height loaded probed_jpeg.current ≡ pos 8
unfolding height
high_jpeg = refl

before_resize-first_example :
    (bytes "src" ≡ bytes "src")
    × (shrinks_on_load loaded (plain (pos 10) (pos 8)) ≡ true)
    × (load_first_frame loaded (bytes "src") false ≡ ok probed_jpeg.current)
    × IsAsItWas loaded nothing_cut 10 8 probed_jpeg.current
        (before_resize loaded (bytes "src") (is_thumbhash uncut.format) uncut probed_jpeg)
    × (crops_by_content decimals uncut ≡ false)
before_resize-first_example =
    before_resize-first loaded nothing_cut (bytes "src") (bytes "src") uncut none default_limits
      probed_jpeg (plain (pos 10) (pos 8)) 10 8 probe_jpeg (wide_jpeg, omega arith, omega arith)
      (high_jpeg, omega arith, omega arith) given

abbrev pub result : TransformResult
result = record {
  data_bytes = bytes "jpeg";
  format = OutputFormat.jpeg;
  width = 10;
  height = 8;
  is_animated = false;
  frame_count = none;
  decoded_at_reduced_size = false;
}

unfoldable pub running : Unit {0}
unfolding transform probing before_resize extract_frame trim_border trim_sides rotate flip
    resize_stage after_resize effects brighten flatten_background add_border finish image_result
    output_format encode_image choose_format supports accept_of
running = tt
