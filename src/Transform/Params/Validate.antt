-- ===== src/Transform/Params/Validate.antt =====
-- crates/imgx/src/transform/params.rs: the bounds that every transform is checked against, and the
-- quality for slow connections.
pub mod Bounds
pub mod Slow
use imgx.Base.{
  ℕ, Text, Bool, true, false, not, ◌&&◌, Option, none, some, List, [], ◌∷◌, leb, ltb, Result, ok,
  fail_if, ◌>>◌, ◌>>=◌,
}
use imgx.Transform.Floats.{Floats}
use imgx.Transform.Options
use imgx.Transform.Options.{ParseError, OutputFormat}
use imgx.Transform.Params.{DrawOverlay, TransformParams}

-- `if let Some(v) = o && p(v)`
abbrev pub is_some_and : {A : Type 0} → (A → Bool) → Option A → Bool
is_some_and p none = false
is_some_and p (some v) = p v

-- `!(lo..=hi).contains(&n)` on an unsigned type
abbrev pub outside : ℕ → ℕ → ℕ → Bool
outside lo hi n = not (leb lo n && leb n hi)

-- `for v in [..].into_iter().flatten() { if bad(v) { return Err(e); } }`
unfoldable pub fail_each :
    {A : Type 0} → (A → Bool) → ParseError → List (Option A) → Result ParseError Unit
fail_each bad e [] = ok tt
fail_each bad e (none ∷ l) = fail_each bad e l
fail_each bad e (some v ∷ l) = fail_if (bad v) e >> fail_each bad e l

-- `url.as_deref().is_none_or(str::is_empty)`
abbrev pub lacks_url : Option Text → Bool
lacks_url none = true
lacks_url (some []) = true
lacks_url (some (b ∷ url)) = false

abbrev pub is_thumbhash : Option OutputFormat → Bool
is_thumbhash (some OutputFormat.thumbhash) = true
is_thumbhash _ = false

abbrev pub has_elements : {A : Type 0} → List A → Bool
has_elements [] = false
has_elements (a ∷ l) = true

abbrev pub both : {A B : Type 0} → Option A → Option B → Bool
both (some a) (some b) = true
both _ _ = false

module _ (fl : Floats) where
  -- `!(lo..=hi).contains(&x)` on `f32`
  abbrev pub outside_f32 : fl.F32 → fl.F32 → fl.F32 → Bool
  outside_f32 lo hi x = not (fl.le lo x && fl.le x hi)

  abbrev pub negative : fl.F32 → Bool
  negative x = fl.lt x (fl.literal 0 0)

  -- one round of the loop over `draw`
  unfoldable pub validate_entry : DrawOverlay fl → Result ParseError Unit
  unfolding fail_each
  validate_entry entry = do
    fail_if (lacks_url entry.url) Options.invalid_draw
    fail_if (both entry.top entry.bottom) Options.invalid_draw
    fail_if (both entry.left entry.right) Options.invalid_draw
    fail_if (is_some_and (outside_f32 (fl.literal 0 0) (fl.literal 1 0)) entry.opacity)
        Options.invalid_draw
    fail_each negative Options.invalid_draw
        (entry.width ∷ entry.height ∷ entry.top ∷ entry.left ∷ entry.bottom ∷ entry.right ∷ [])

  unfoldable pub validate_draw : List (DrawOverlay fl) → Result ParseError Unit
  unfolding validate_entry
  validate_draw [] = ok tt
  validate_draw (entry ∷ draw) = validate_entry entry >> validate_draw draw

  unfoldable pub validate : TransformParams fl → Result ParseError Unit
  unfolding fail_each validate_draw
  validate p = do
    fail_if (is_some_and (outside 1 8192) p.width) Options.invalid_width
    fail_if (is_some_and (outside 1 8192) p.height) Options.invalid_height
    fail_if (outside 1 100 p.quality) Options.invalid_quality
    fail_if (outside_f32 (fl.literal 1 0) (fl.literal 5 0) p.dpr) Options.invalid_dpr
    fail_if (is_some_and (outside_f32 (fl.literal 0 0) (fl.literal 10 0)) p.sharpen)
        Options.invalid_sharpen
    fail_if (is_some_and (outside_f32 (fl.literal 1 1) (fl.literal 250 0)) p.blur)
        Options.invalid_blur
    fail_if (is_some_and (outside_f32 (fl.literal 0 0) (fl.literal 2 0)) p.brightness)
        Options.invalid_brightness
    fail_if (is_some_and (outside_f32 (fl.literal 0 0) (fl.literal 2 0)) p.contrast)
        Options.invalid_contrast
    fail_if (is_some_and (outside_f32 (fl.literal 0 0) (fl.literal 2 0)) p.saturation)
        Options.invalid_saturation
    fail_if (is_some_and (outside_f32 (fl.literal 1 1) (fl.literal 10 0)) p.gamma)
        Options.invalid_gamma
    fail_if (is_some_and (outside_f32 (fl.literal 1 0) (fl.literal 100 0)) p.trim)
        Options.invalid_trim
    fail_if (is_some_and (ltb 999) p.frame) Options.invalid_frame
    fail_each negative Options.invalid_trim
        (p.trim_top ∷ p.trim_right ∷ p.trim_bottom ∷ p.trim_left ∷ [])
    fail_if (is_some_and (outside 1 100) p.scq) Options.invalid_quality
    fail_each (ltb 2000) Options.invalid_border
        (p.border_width ∷ p.border_top ∷ p.border_right ∷ p.border_bottom ∷ p.border_left ∷ [])
    fail_if (is_thumbhash p.format && has_elements p.draw) Options.draw_with_thumbhash
    validate_draw p.draw

  abbrev override : Option ℕ → TransformParams fl → TransformParams fl
  override none p = p
  override (some v) p = record p { quality = v }

  unfoldable pub apply_scq_override : Bool → TransformParams fl → TransformParams fl
  apply_scq_override true p = override p.scq p
  apply_scq_override false p = p

  -- `width` and `height` times the ratio, at most 8192
  unfoldable pub effective : Option ℕ → fl.F32 → Option ℕ
  effective none dpr = none
  effective (some n) dpr = some (fl.to_u32 (fl.min (fl.mul (fl.of_u32 n) dpr) (fl.literal 8192 0)))

  unfoldable pub effective_width : TransformParams fl → Option ℕ
  unfolding effective
  effective_width p = effective p.width p.dpr

  unfoldable pub effective_height : TransformParams fl → Option ℕ
  unfolding effective
  effective_height p = effective p.height p.dpr
