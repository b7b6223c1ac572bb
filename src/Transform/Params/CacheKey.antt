-- ===== src/Transform/Params/CacheKey.antt =====
-- crates/imgx/src/transform/params.rs: the part of the cache key that stands for the parameters.
pub mod Clean
pub mod NoBar
use imgx.Base.{ℕ, suc, Text, bytes, String, join, Option, none, some, List, [], ◌∷◌, ◌++◌}
use imgx.Transform.Floats.{Floats}
use imgx.Transform.Options.{
  MetadataMode, AnimMode, format_str, rotation_str, flip_str, metadata_str, compression_str,
  draw_repeat_str, anim_str, fit_str, gravity_str,
}
use imgx.Transform.Print.{decimal, hex_color}
use imgx.Transform.Params.{DrawOverlay, TransformParams}

-- the pushes of the statements, one after the other
unfoldable pub concat : List (List Text) → List Text
concat [] = []
concat (l ∷ ls) = l ++ concat ls

-- `if let Some(v) = o { parts.push(format!("name={v}")); }`
unfoldable pub field : {A : Type 0} → String → (A → Text) → Option A → List Text
field name f none = []
field name f (some v) = (bytes name ++ f v) ∷ []

-- `if let Some(v) = o { parts.push(format!("draw.{i}.name={v}")); }`
unfoldable pub draw_field : {A : Type 0} → ℕ → String → (A → Text) → Option A → List Text
unfolding decimal
draw_field i name f none = []
draw_field i name f (some v) = (bytes "draw." ++ (decimal i ++ (bytes name ++ f v))) ∷ []

-- pushed only if it is not the default
unfoldable pub metadata_part : MetadataMode → List Text
unfolding metadata_str
metadata_part MetadataMode.strip = []
metadata_part m = (bytes "metadata=" ++ metadata_str m) ∷ []

unfoldable pub anim_part : AnimMode → List Text
unfolding anim_str
anim_part AnimMode.auto = []
anim_part m = (bytes "anim=" ++ anim_str m) ∷ []

module _ (fl : Floats) where
  abbrev pub draw_groups : ℕ → DrawOverlay fl → List (List Text)
  draw_groups i d =
      draw_field i ".url=" (λ url. url) d.url
      ∷ draw_field i ".width=" (fl.fixed 2) d.width
      ∷ draw_field i ".height=" (fl.fixed 2) d.height
      ∷ draw_field i ".top=" (fl.fixed 2) d.top
      ∷ draw_field i ".left=" (fl.fixed 2) d.left
      ∷ draw_field i ".bottom=" (fl.fixed 2) d.bottom
      ∷ draw_field i ".right=" (fl.fixed 2) d.right
      ∷ draw_field i ".opacity=" (fl.fixed 2) d.opacity
      ∷ draw_field i ".repeat=" draw_repeat_str d.repeat
      ∷ draw_field i ".background=" hex_color d.background
      ∷ draw_field i ".rotate=" rotation_str d.rotate
      ∷ draw_field i ".fit=" fit_str d.fit
      ∷ draw_field i ".gravity=" gravity_str d.gravity
      ∷ []

  unfoldable pub draw_parts : ℕ → DrawOverlay fl → List Text
  unfolding concat
  draw_parts i d = concat (draw_groups i d)

  -- the loop over `draw.iter().enumerate()`
  unfoldable pub all_draw_parts : ℕ → List (DrawOverlay fl) → List Text
  unfolding draw_parts
  all_draw_parts i [] = []
  all_draw_parts i (d ∷ draw) = draw_parts i d ++ all_draw_parts (suc i) draw

  -- what each statement pushes, in order
  abbrev pub groups : TransformParams fl → List (List Text)
  groups p =
      field "w=" decimal p.width
      ∷ field "h=" decimal p.height
      ∷ ((bytes "q=" ++ decimal p.quality) ∷ [])
      ∷ field "f=" format_str p.format
      ∷ ((bytes "fit=" ++ fit_str p.fit) ∷ [])
      ∷ ((bytes "g=" ++ gravity_str p.gravity) ∷ [])
      ∷ field "sharpen=" (fl.fixed 2) p.sharpen
      ∷ field "blur=" (fl.fixed 2) p.blur
      ∷ ((bytes "dpr=" ++ fl.fixed 1 p.dpr) ∷ [])
      ∷ field "rotate=" rotation_str p.rotate
      ∷ field "flip=" flip_str p.flip
      ∷ field "brightness=" (fl.fixed 2) p.brightness
      ∷ field "contrast=" (fl.fixed 2) p.contrast
      ∷ field "saturation=" (fl.fixed 2) p.saturation
      ∷ field "gamma=" (fl.fixed 2) p.gamma
      ∷ field "bg=" hex_color p.background
      ∷ metadata_part p.metadata
      ∷ field "trim=" (fl.fixed 1) p.trim
      ∷ anim_part p.anim
      ∷ field "frame=" decimal p.frame
      ∷ field "trim.top=" (fl.fixed 1) p.trim_top
      ∷ field "trim.right=" (fl.fixed 1) p.trim_right
      ∷ field "trim.bottom=" (fl.fixed 1) p.trim_bottom
      ∷ field "trim.left=" (fl.fixed 1) p.trim_left
      ∷ field "compression=" compression_str p.compression
      ∷ field "border=" decimal p.border_width
      ∷ field "border.color=" hex_color p.border_color
      ∷ field "border.top=" decimal p.border_top
      ∷ field "border.right=" decimal p.border_right
      ∷ field "border.bottom=" decimal p.border_bottom
      ∷ field "border.left=" decimal p.border_left
      ∷ all_draw_parts 0 p.draw
      ∷ []

  unfoldable pub parts : TransformParams fl → List Text
  unfolding concat
  parts p = concat (groups p)

  unfoldable pub to_cache_key : TransformParams fl → Text
  unfolding join parts
  to_cache_key p = join (bytes ",") (parts p)
