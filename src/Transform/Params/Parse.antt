-- ===== src/Transform/Params/Parse.antt =====
-- crates/imgx/src/transform/params.rs: from the options segment of a URL to the parameters.
pub mod Ensures
pub mod Arms
pub mod Overlays
pub mod Laws
pub mod Compose
use imgx.Base.{
  String, ℕ, ◌+◌, ◌-◌, Text, bytes, match_str, Bool, true, false, Option, none, some, List, [], ◌∷◌,
  ◌++◌, leb, ltb, if◌then◌else◌, length, Result, ok, err, ok_or, ◌>>=◌, strip_prefix, split_once,
  split,
}
use imgx.Transform.Floats.{Floats}
use imgx.Transform.Numbers.{
  Fault, error, Rgb, parse_u32, parse_usize, parse_quality, parse_f32, parse_hex_color,
}
use imgx.Transform.Options
use imgx.Transform.Options.{ParseError}
use imgx.Transform.Params.{DrawOverlay, default_overlay, TransformParams, default_params}

-- `Result<A, ParseError>` where a panic is possible
abbrev pub lift : {A : Type 0} → Result ParseError A → Result Fault A
lift (ok a) = ok a
lift (err e) = err (error e)

-- `.ok_or(e)?` on a colour
abbrev pub color_or : Result Fault (Option Rgb) → ParseError → Result Fault Rgb
color_or (ok none) e = err (error e)
color_or (ok (some c)) e = ok c
color_or (err f) e = err f

-- `while draw.len() <= idx { draw.push(..) }`, whose number of pushes is known
unfoldable pub push_many {ℓ} : {A : Type ℓ} → ℕ → A → List A → List A
push_many ℕ.zero a l = l
push_many (ℕ.suc n) a l = push_many n a (l ++ a ∷ [])

-- `draw[idx] = e` for an index in range
unfoldable pub set_at {ℓ} : {A : Type ℓ} → List A → ℕ → A → List A
set_at [] i a = []
set_at (x ∷ xs) ℕ.zero a = a ∷ xs
set_at (x ∷ xs) (ℕ.suc i) a = x ∷ set_at xs i a

-- `draw[idx]`, with the default for an index out of range, which does not occur
unfoldable pub get_or {ℓ} : {A : Type ℓ} → List A → ℕ → A → A
get_or [] i d = d
get_or (x ∷ xs) ℕ.zero d = x
get_or (x ∷ xs) (ℕ.suc i) d = get_or xs i d

abbrev pub is_empty : Text → Bool
is_empty [] = true
is_empty (b ∷ s) = false

module _ (fl : Floats) where
  abbrev float : Text → ParseError → Result Fault fl.F32
  float value e = ok_or (parse_f32 fl value) (error e)

  -- the arms of the `match field` of `parse_draw_field`
  unfoldable pub draw_arms : Text → DrawOverlay fl → List (String × Result Fault (DrawOverlay fl))
  draw_arms value entry =
      ("url", ok (record entry { url = some value }))
      ∷ ("width", (do v ← float value Options.invalid_draw; ok (record entry { width = some v })))
      ∷ ("height", (do v ← float value Options.invalid_draw; ok (record entry { height = some v })))
      ∷ ("top", (do v ← float value Options.invalid_draw; ok (record entry { top = some v })))
      ∷ ("left", (do v ← float value Options.invalid_draw; ok (record entry { left = some v })))
      ∷ ("bottom", (do v ← float value Options.invalid_draw; ok (record entry { bottom = some v })))
      ∷ ("right", (do v ← float value Options.invalid_draw; ok (record entry { right = some v })))
      ∷ (
        "opacity",
        (do v ← float value Options.invalid_draw; ok (record entry { opacity = some v })),
      )
      ∷ (
        "repeat",
        (do v ← lift (Options.parse_draw_repeat value); ok (record entry { repeat = some v })),
      )
      ∷ (
        "background",
        (do
          v ← color_or (parse_hex_color value) Options.invalid_draw
          ok (record entry { background = some v })),
      )
      ∷ (
        "rotate",
        (do v ← lift (Options.parse_rotation value); ok (record entry { rotate = some v })),
      )
      ∷ ("fit", (do v ← lift (Options.parse_fit value); ok (record entry { fit = some v })))
      ∷ (
        "gravity",
        (do v ← lift (Options.parse_gravity value); ok (record entry { gravity = some v })),
      )
      ∷ []

  unfoldable pub set_draw_field : Text → Text → DrawOverlay fl → Result Fault (DrawOverlay fl)
  unfolding match_str draw_arms
  set_draw_field field value entry =
      match_str field (draw_arms value entry) (err (error Options.invalid_parameter))

  -- `parse_draw_field` after the index is parsed
  unfoldable pub set_draw_entry :
      ℕ → Text → Text → List (DrawOverlay fl) → Result Fault (List (DrawOverlay fl))
  set_draw_entry idx field value draw =
      if leb 64 idx
      then err (error Options.invalid_draw)
      else (let grown : List (DrawOverlay fl) =
            push_many (idx + 1 - length draw) (default_overlay fl) draw in
          do
            entry ← set_draw_field field value (get_or grown idx (default_overlay fl))
            ok (set_at grown idx entry))

  -- `rest.splitn(2, '.')` has a second part exactly if there is a dot
  unfoldable pub parse_draw_field :
      List (DrawOverlay fl) → Text → Text → Result Fault (List (DrawOverlay fl))
  unfolding split_once
  parse_draw_field draw rest value = elim (split_once b'.' rest) [
    | none ↦ err (error Options.invalid_parameter)
    | some (idx_str, field) ↦ do
      idx ← ok_or (parse_usize idx_str) (error Options.invalid_parameter)
      set_draw_entry idx field value draw
  ]

  -- the arms of the `match key` of `parse`
  unfoldable pub param_arms :
      Text → TransformParams fl → List (String × Result Fault (TransformParams fl))
  param_arms value params =
      (
        "w",
        (do
          v ← ok_or (parse_u32 value) (error Options.invalid_width)
          ok (record params { width = some v })),
      )
      ∷ (
        "width",
        (do
          v ← ok_or (parse_u32 value) (error Options.invalid_width)
          ok (record params { width = some v })),
      )
      ∷ (
        "h",
        (do
          v ← ok_or (parse_u32 value) (error Options.invalid_height)
          ok (record params { height = some v })),
      )
      ∷ (
        "height",
        (do
          v ← ok_or (parse_u32 value) (error Options.invalid_height)
          ok (record params { height = some v })),
      )
      ∷ ("q", (do v ← parse_quality value; ok (record params { quality = v })))
      ∷ ("quality", (do v ← parse_quality value; ok (record params { quality = v })))
      ∷ (
        "format",
        (do v ← lift (Options.parse_format value); ok (record params { format = some v })),
      )
      ∷ ("fmt", (do v ← lift (Options.parse_format value); ok (record params { format = some v })))
      ∷ ("f", (do v ← lift (Options.parse_format value); ok (record params { format = some v })))
      ∷ ("fit", (do v ← lift (Options.parse_fit value); ok (record params { fit = v })))
      ∷ ("gravity", (do v ← lift (Options.parse_gravity value); ok (record params { gravity = v })))
      ∷ ("g", (do v ← lift (Options.parse_gravity value); ok (record params { gravity = v })))
      ∷ (
        "sharpen",
        (do v ← float value Options.invalid_sharpen; ok (record params { sharpen = some v })),
      )
      ∷ ("blur", (do v ← float value Options.invalid_blur; ok (record params { blur = some v })))
      ∷ ("dpr", (do v ← float value Options.invalid_dpr; ok (record params { dpr = v })))
      ∷ (
        "rotate",
        (do v ← lift (Options.parse_rotation value); ok (record params { rotate = some v })),
      )
      ∷ ("flip", (do v ← lift (Options.parse_flip value); ok (record params { flip = some v })))
      ∷ (
        "brightness",
        (do v ← float value Options.invalid_brightness; ok (record params { brightness = some v })),
      )
      ∷ (
        "contrast",
        (do v ← float value Options.invalid_contrast; ok (record params { contrast = some v })),
      )
      ∷ (
        "saturation",
        (do v ← float value Options.invalid_saturation; ok (record params { saturation = some v })),
      )
      ∷ ("gamma", (do v ← float value Options.invalid_gamma; ok (record params { gamma = some v })))
      ∷ (
        "bg",
        (do
          v ← color_or (parse_hex_color value) Options.invalid_background
          ok (record params { background = some v })),
      )
      ∷ (
        "background",
        (do
          v ← color_or (parse_hex_color value) Options.invalid_background
          ok (record params { background = some v })),
      )
      ∷ (
        "metadata",
        (do v ← lift (Options.parse_metadata value); ok (record params { metadata = v })),
      )
      ∷ ("trim", (do v ← float value Options.invalid_trim; ok (record params { trim = some v })))
      ∷ ("anim", (do v ← lift (Options.parse_anim value); ok (record params { anim = v })))
      ∷ (
        "frame",
        (do
          v ← ok_or (parse_u32 value) (error Options.invalid_frame)
          ok (record params { frame = some v })),
      )
      ∷ (
        "trim.top",
        (do v ← float value Options.invalid_trim; ok (record params { trim_top = some v })),
      )
      ∷ (
        "trim.right",
        (do v ← float value Options.invalid_trim; ok (record params { trim_right = some v })),
      )
      ∷ (
        "trim.bottom",
        (do v ← float value Options.invalid_trim; ok (record params { trim_bottom = some v })),
      )
      ∷ (
        "trim.left",
        (do v ← float value Options.invalid_trim; ok (record params { trim_left = some v })),
      )
      ∷ (
        "onerror",
        (do v ← lift (Options.parse_onerror value); ok (record params { onerror = some v })),
      )
      ∷ (
        "compression",
        (do
          v ← lift (Options.parse_compression value)
          ok (record params { compression = some v })),
      )
      ∷ ("scq", (do v ← parse_quality value; ok (record params { scq = some v })))
      ∷ (
        "slow-connection-quality",
        (do v ← parse_quality value; ok (record params { scq = some v })),
      )
      ∷ (
        "border",
        (do
          v ← ok_or (parse_u32 value) (error Options.invalid_border)
          ok (record params { border_width = some v })),
      )
      ∷ (
        "border.color",
        (do
          v ← color_or (parse_hex_color value) Options.invalid_border
          ok (record params { border_color = some v })),
      )
      ∷ (
        "border.top",
        (do
          v ← ok_or (parse_u32 value) (error Options.invalid_border)
          ok (record params { border_top = some v })),
      )
      ∷ (
        "border.right",
        (do
          v ← ok_or (parse_u32 value) (error Options.invalid_border)
          ok (record params { border_right = some v })),
      )
      ∷ (
        "border.bottom",
        (do
          v ← ok_or (parse_u32 value) (error Options.invalid_border)
          ok (record params { border_bottom = some v })),
      )
      ∷ (
        "border.left",
        (do
          v ← ok_or (parse_u32 value) (error Options.invalid_border)
          ok (record params { border_left = some v })),
      )
      ∷ []

  unfoldable pub set_param : Text → Text → TransformParams fl → Result Fault (TransformParams fl)
  unfolding match_str param_arms
  set_param key value params =
      match_str key (param_arms value params) (err (error Options.invalid_parameter))

  -- a pair with a key and a value that is not empty
  unfoldable pub apply_key : Text → Text → TransformParams fl → Result Fault (TransformParams fl)
  unfolding strip_prefix
  apply_key key value params = elim (strip_prefix (bytes "draw.") key) [
    | some rest ↦ do
      draw' ← parse_draw_field params.draw rest value
      ok (record params { draw = draw' })
    | none ↦ set_param key value params
  ]

  -- one round of the loop of `parse`
  unfoldable pub apply_pair : Text → TransformParams fl → Result Fault (TransformParams fl)
  apply_pair [] params = ok params
  apply_pair (b ∷ pair) params = elim (split_once b'=' (b ∷ pair)) [
    | none ↦ err (error Options.invalid_parameter)
    | some (key, value) ↦
        if is_empty value then err (error Options.empty_value) else apply_key key value params
  ]

  unfoldable pub apply_pairs : List Text → TransformParams fl → Result Fault (TransformParams fl)
  apply_pairs [] params = ok params
  apply_pairs (pair ∷ pairs) params = do next ← apply_pair pair params; apply_pairs pairs next

  unfoldable pub parse : Text → Result Fault (TransformParams fl)
  parse input =
      if is_empty input
      then ok (default_params fl)
      else apply_pairs (split b',' input) (default_params fl)
