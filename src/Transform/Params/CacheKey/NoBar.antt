-- ===== src/Transform/Params/CacheKey/NoBar.antt =====
-- The part of the cache key that stands for the parameters holds no `|`, which separates the parts
-- of a cache key.
use imgx.Base.{ℕ, suc, bytes, has_byte, false, List, [], ◌∷◌, All, ◌≡◌, refl}
use imgx.Transform.Floats.{Floats}
use imgx.Transform.Numbers.Bounds.{IsRgb}
use imgx.Transform.Options.{
  format_str, rotation_str, flip_str, compression_str, draw_repeat_str, fit_str, gravity_str,
}
use imgx.Transform.Print.{decimal, hex_color}
use imgx.Transform.Params.{DrawOverlay, TransformParams}
use imgx.Transform.Params.Parse.Ensures.{IsOpt, ◌&◌}
use imgx.Transform.Params.Parse.Arms.{IsRanged, IsRangedOverlay}
use imgx.Transform.Params.CacheKey.{
  draw_groups, draw_parts, all_draw_parts, groups, parts, to_cache_key,
}
use imgx.Transform.Params.CacheKey.Clean.{
  IsClean, append-IsClean, All-append, concat-IsClean, join-IsClean, field-IsClean,
  draw_field-IsClean, any_opt, decimal-IsClean, hex_color-IsClean, format-IsClean, rotation-IsClean,
  flip-IsClean, compression-IsClean, draw_repeat-IsClean, fit-IsClean, gravity-IsClean,
  metadata_part-IsClean, anim_part-IsClean,
}

-- The numbers that `format!` writes hold no `|`.
module _ (fl : Floats) (fixed_clean : (k : ℕ) (x : fl.F32) → IsClean (fl.fixed k x)) where
  draw_parts-IsClean :
      (i : ℕ) (d : DrawOverlay fl)
      → IsRangedOverlay fl d
      → IsOpt IsClean d.url
      → All IsClean (draw_parts fl i d)
  unfolding draw_parts has_byte
  draw_parts-IsClean i d h u = concat-IsClean (draw_groups fl i d) (
      draw_field-IsClean IsClean i ".url=" (λ url. url) d.url refl (λ url c. c) u
      & draw_field-IsClean (λ _. Unit) i ".width=" (fl.fixed 2) d.width refl
          (λ x _. fixed_clean 2 x) (any_opt d.width)
      & draw_field-IsClean (λ _. Unit) i ".height=" (fl.fixed 2) d.height refl
          (λ x _. fixed_clean 2 x) (any_opt d.height)
      & draw_field-IsClean (λ _. Unit) i ".top=" (fl.fixed 2) d.top refl (λ x _. fixed_clean 2 x)
          (any_opt d.top)
      & draw_field-IsClean (λ _. Unit) i ".left=" (fl.fixed 2) d.left refl (λ x _. fixed_clean 2 x)
          (any_opt d.left)
      & draw_field-IsClean (λ _. Unit) i ".bottom=" (fl.fixed 2) d.bottom refl
          (λ x _. fixed_clean 2 x) (any_opt d.bottom)
      & draw_field-IsClean (λ _. Unit) i ".right=" (fl.fixed 2) d.right refl
          (λ x _. fixed_clean 2 x) (any_opt d.right)
      & draw_field-IsClean (λ _. Unit) i ".opacity=" (fl.fixed 2) d.opacity refl
          (λ x _. fixed_clean 2 x) (any_opt d.opacity)
      & draw_field-IsClean (λ _. Unit) i ".repeat=" draw_repeat_str d.repeat refl
          (λ x _. draw_repeat-IsClean x) (any_opt d.repeat)
      & draw_field-IsClean IsRgb i ".background=" hex_color d.background refl hex_color-IsClean h
      & draw_field-IsClean (λ _. Unit) i ".rotate=" rotation_str d.rotate refl
          (λ x _. rotation-IsClean x) (any_opt d.rotate)
      & draw_field-IsClean (λ _. Unit) i ".fit=" fit_str d.fit refl (λ x _. fit-IsClean x)
          (any_opt d.fit)
      & draw_field-IsClean (λ _. Unit) i ".gravity=" gravity_str d.gravity refl
          (λ x _. gravity-IsClean x) (any_opt d.gravity)
      & tt)

  all_draw_parts-IsClean :
      (i : ℕ) (ds : List (DrawOverlay fl))
      → All (IsRangedOverlay fl) ds
      → All (λ d. IsOpt IsClean d.url) ds
      → All IsClean (all_draw_parts fl i ds)
  unfolding all_draw_parts
  all_draw_parts-IsClean i [] h u = tt
  all_draw_parts-IsClean i (d ∷ ds) (h, hs) (u, us) =
      All-append (draw_parts fl i d) (all_draw_parts fl (suc i) ds) (draw_parts-IsClean i d h u)
        (all_draw_parts-IsClean (suc i) ds hs us)

  parts-IsClean :
      (p : TransformParams fl)
      → IsRanged fl p
      → All (λ d. IsOpt IsClean d.url) p.draw
      → All IsClean (parts fl p)
  unfolding parts has_byte
  parts-IsClean p h u = concat-IsClean (groups fl p) (
      field-IsClean (λ _. Unit) "w=" decimal p.width refl (λ n _. decimal-IsClean n)
        (any_opt p.width)
      & field-IsClean (λ _. Unit) "h=" decimal p.height refl (λ n _. decimal-IsClean n)
          (any_opt p.height)
      & (append-IsClean (bytes "q=") (decimal p.quality) refl (decimal-IsClean p.quality), tt)
      & field-IsClean (λ _. Unit) "f=" format_str p.format refl (λ x _. format-IsClean x)
          (any_opt p.format)
      & (append-IsClean (bytes "fit=") (fit_str p.fit) refl (fit-IsClean p.fit), tt)
      & (append-IsClean (bytes "g=") (gravity_str p.gravity) refl (gravity-IsClean p.gravity), tt)
      & field-IsClean (λ _. Unit) "sharpen=" (fl.fixed 2) p.sharpen refl (λ x _. fixed_clean 2 x)
          (any_opt p.sharpen)
      & field-IsClean (λ _. Unit) "blur=" (fl.fixed 2) p.blur refl (λ x _. fixed_clean 2 x)
          (any_opt p.blur)
      & (append-IsClean (bytes "dpr=") (fl.fixed 1 p.dpr) refl (fixed_clean 1 p.dpr), tt)
      & field-IsClean (λ _. Unit) "rotate=" rotation_str p.rotate refl (λ x _. rotation-IsClean x)
          (any_opt p.rotate)
      & field-IsClean (λ _. Unit) "flip=" flip_str p.flip refl (λ x _. flip-IsClean x)
          (any_opt p.flip)
      & field-IsClean (λ _. Unit) "brightness=" (fl.fixed 2) p.brightness refl
          (λ x _. fixed_clean 2 x) (any_opt p.brightness)
      & field-IsClean (λ _. Unit) "contrast=" (fl.fixed 2) p.contrast refl (λ x _. fixed_clean 2 x)
          (any_opt p.contrast)
      & field-IsClean (λ _. Unit) "saturation=" (fl.fixed 2) p.saturation refl
          (λ x _. fixed_clean 2 x) (any_opt p.saturation)
      & field-IsClean (λ _. Unit) "gamma=" (fl.fixed 2) p.gamma refl (λ x _. fixed_clean 2 x)
          (any_opt p.gamma)
      & field-IsClean IsRgb "bg=" hex_color p.background refl hex_color-IsClean h.background
      & metadata_part-IsClean p.metadata
      & field-IsClean (λ _. Unit) "trim=" (fl.fixed 1) p.trim refl (λ x _. fixed_clean 1 x)
          (any_opt p.trim)
      & anim_part-IsClean p.anim
      & field-IsClean (λ _. Unit) "frame=" decimal p.frame refl (λ n _. decimal-IsClean n)
          (any_opt p.frame)
      & field-IsClean (λ _. Unit) "trim.top=" (fl.fixed 1) p.trim_top refl (λ x _. fixed_clean 1 x)
          (any_opt p.trim_top)
      & field-IsClean (λ _. Unit) "trim.right=" (fl.fixed 1) p.trim_right refl
          (λ x _. fixed_clean 1 x) (any_opt p.trim_right)
      & field-IsClean (λ _. Unit) "trim.bottom=" (fl.fixed 1) p.trim_bottom refl
          (λ x _. fixed_clean 1 x) (any_opt p.trim_bottom)
      & field-IsClean (λ _. Unit) "trim.left=" (fl.fixed 1) p.trim_left refl
          (λ x _. fixed_clean 1 x) (any_opt p.trim_left)
      & field-IsClean (λ _. Unit) "compression=" compression_str p.compression refl
          (λ x _. compression-IsClean x) (any_opt p.compression)
      & field-IsClean (λ _. Unit) "border=" decimal p.border_width refl (λ n _. decimal-IsClean n)
          (any_opt p.border_width)
      & field-IsClean IsRgb "border.color=" hex_color p.border_color refl hex_color-IsClean
          h.border_color
      & field-IsClean (λ _. Unit) "border.top=" decimal p.border_top refl (λ n _. decimal-IsClean n)
          (any_opt p.border_top)
      & field-IsClean (λ _. Unit) "border.right=" decimal p.border_right refl
          (λ n _. decimal-IsClean n) (any_opt p.border_right)
      & field-IsClean (λ _. Unit) "border.bottom=" decimal p.border_bottom refl
          (λ n _. decimal-IsClean n) (any_opt p.border_bottom)
      & field-IsClean (λ _. Unit) "border.left=" decimal p.border_left refl
          (λ n _. decimal-IsClean n) (any_opt p.border_left)
      & all_draw_parts-IsClean 0 p.draw h.each u
      & tt)

  -- If no overlay URL and no number that `format!` writes holds a `|`, parameters in the ranges that parsing gives them are written into
  -- the cache key without a `|`.
  pub to_cache_key-no_bar :
      (p : TransformParams fl)
      → IsRanged fl p
      → All (λ d. IsOpt IsClean d.url) p.draw
      → has_byte b'|' (to_cache_key fl p) ≡ false
  unfolding to_cache_key has_byte
  to_cache_key-no_bar p h u = join-IsClean (bytes ",") (parts fl p) refl (parts-IsClean p h u)
