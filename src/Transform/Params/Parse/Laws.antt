-- ===== src/Transform/Params/Parse/Laws.antt =====
-- What every parsed set of parameters satisfies, whatever the text.
use imgx.Base.{
  ℕ, ◌+◌, ◌-◌, ◌≤◌, Text, bytes, All, List, [], ◌∷◌, ◌≡◌, subst, arith, leb, length, ok, ok_or,
  split_once, split, strip_prefix, Option-cases, Bool-cases, inl, inr, text_eq,
}
use imgx.Transform.Floats.{Floats}
use imgx.Transform.Numbers.{error, parse_usize}
use imgx.Transform.Options
use imgx.Transform.Options.{ParseError}
use imgx.Transform.Params.{DrawOverlay, default_overlay, TransformParams, default_params}
use imgx.Transform.Params.Parse.{
  push_many, get_or, is_empty, set_draw_field, draw_arms, param_arms, set_draw_entry,
  parse_draw_field, set_param, apply_key, apply_pair, apply_pairs, parse,
}
use imgx.Transform.Params.Parse.Ensures.{Ensures, Ensures-match_str, Ensures-bind, Ensures-any}
use imgx.Transform.Params.Parse.Arms.{
  IsRangedOverlay, IsRanged, draw_arms-IsRanged, param_arms-IsRanged,
}
use imgx.Transform.Params.Parse.Overlays.{
  length-push_many, length-set_at, All-push_many, All-set_at, All-get_or,
}

module _ (fl : Floats) where
  -- At most 64 overlays, each with a colour of bytes.
  record IsRangedDraw (draw : List (DrawOverlay fl)) : Type 0 where
    overlays : length draw ≤ 64
    each : All (IsRangedOverlay fl) draw

  set_draw_entry-IsRanged :
      (idx : ℕ) (field value : Text) (draw : List (DrawOverlay fl))
      → IsRangedDraw draw
      → Ensures IsRangedDraw (set_draw_entry fl idx field value draw)
  unfolding set_draw_entry set_draw_field
  set_draw_entry-IsRanged idx field value draw h = elim (Bool-cases (leb 64 idx)) [
    | inl over ↦ rw over tt
    | inr room ↦
        let grown = push_many (idx + 1 - length draw) (default_overlay fl) draw in
        let few : length grown ≤ 64 = ground (
          arith,
          room,
          h.overlays,
          length-push_many (idx + 1 - length draw) (default_overlay fl) draw,
        ) in
        let ranged =
          All-push_many (IsRangedOverlay fl) (idx + 1 - length draw) (default_overlay fl) draw
            h.each tt in
        let old = get_or grown idx (default_overlay fl) in
        let old_ranged = All-get_or (IsRangedOverlay fl) grown idx (default_overlay fl) ranged tt in
        rw room (
          Ensures-bind (IsRangedOverlay fl) IsRangedDraw (set_draw_field fl field value old) _
            (Ensures-match_str (IsRangedOverlay fl) field (draw_arms fl value old) _
              (draw_arms-IsRanged fl value old old_ranged) tt)
            (λ e q. record {
              overlays = omega (arith, length-set_at grown idx e, few);
              each = All-set_at (IsRangedOverlay fl) grown idx e ranged q;
            }))
  ]

  parse_draw_field-IsRanged :
      (draw : List (DrawOverlay fl)) (rest value : Text)
      → IsRangedDraw draw
      → Ensures IsRangedDraw (parse_draw_field fl draw rest value)
  unfolding parse_draw_field
  parse_draw_field-IsRanged draw rest value h = elim (Option-cases (split_once b'.' rest)) [
    | inl no_dot ↦ rw (no_dot, parse_draw_field) tt
    | inr (w, cut) ↦
        rw (cut, parse_draw_field)
          (Ensures-bind (λ _. Unit) IsRangedDraw
            (ok_or (parse_usize w.0) (error Options.invalid_parameter)) _ (Ensures-any _)
            (λ idx _. set_draw_entry-IsRanged idx w.1 value draw h))
  ]

  apply_key-IsRanged :
      (key value : Text) (p : TransformParams fl)
      → IsRanged fl p
      → Ensures (IsRanged fl) (apply_key fl key value p)
  unfolding apply_key set_param
  apply_key-IsRanged key value p h = elim (Option-cases (strip_prefix (bytes "draw.") key)) [
    | inl other ↦
        rw (other, apply_key)
          (Ensures-match_str (IsRanged fl) key (param_arms fl value p) _
            (param_arms-IsRanged fl value p h) tt)
    | inr (rest, found) ↦
        rw (found, apply_key)
          (Ensures-bind IsRangedDraw (IsRanged fl) (parse_draw_field fl p.draw rest value) _
            (parse_draw_field-IsRanged p.draw rest value
              (record { overlays = h.overlays; each = h.each }))
            (λ d q. assumption))
  ]

  apply_pair-IsRanged :
      (pair : Text) (p : TransformParams fl)
      → IsRanged fl p
      → Ensures (IsRanged fl) (apply_pair fl pair p)
  unfolding apply_pair
  apply_pair-IsRanged [] p h = h
  apply_pair-IsRanged (b ∷ pair) p h = elim (Option-cases (split_once b'=' (b ∷ pair))) [
    | inl no_equals ↦ rw (no_equals, apply_pair) tt
    | inr (w, cut) ↦
        rw (cut, apply_pair)
          (elim (Bool-cases (is_empty w.1)) [
            | inl empty ↦ rw empty tt
            | inr some_value ↦ rw some_value (apply_key-IsRanged w.0 w.1 p h)
          ])
  ]

  apply_pairs-IsRanged :
      (pairs : List Text) (p : TransformParams fl)
      → IsRanged fl p
      → Ensures (IsRanged fl) (apply_pairs fl pairs p)
  unfolding apply_pairs
  apply_pairs-IsRanged [] p h = h
  apply_pairs-IsRanged (pair ∷ pairs) p h =
      Ensures-bind (IsRanged fl) (IsRanged fl) (apply_pair fl pair p) _
        (apply_pair-IsRanged pair p h) (λ next q. apply_pairs-IsRanged pairs next q)

  default_params-IsRanged : IsRanged fl (default_params fl)
  default_params-IsRanged = omega arith

  -- Whatever the text, the parameters that it is parsed to have every number in its machine type
  -- (`u32`, `u8`), every colour in three bytes, and at most 64 overlays.
  pub parse-IsRanged :
      (input : Text) (p : TransformParams fl) → parse fl input ≡ ok p → IsRanged fl p
  unfolding parse
  parse-IsRanged [] p h = subst (Ensures (IsRanged fl)) h default_params-IsRanged
  parse-IsRanged (b ∷ input) p h =
      subst (Ensures (IsRanged fl)) h
        (apply_pairs-IsRanged (split b',' (b ∷ input)) (default_params fl) default_params-IsRanged)
