-- ===== src/Transform/Params/Validate/Bounds.antt =====
-- Exactly which parameters pass the checks.
use imgx.Base.{
  ℕ, All, Bool, true, false, ◌&&◌, Option, none, some, List, [], ◌∷◌, ◌≡◌, ◌↔◌, refl, arith, ◌≤◌,
  ltb, ok, Decides, guard, seq, via, same,
}
use imgx.Transform.Floats.{Floats}
use imgx.Transform.Options
use imgx.Transform.Options.{ParseError, OutputFormat}
use imgx.Transform.Params.{DrawOverlay, TransformParams}
use imgx.Transform.Params.Parse.Ensures.{IsOpt}
use imgx.Transform.Params.Validate.{
  is_some_and, outside, fail_each, lacks_url, is_thumbhash, has_elements, both, outside_f32,
  negative, validate_entry, validate_draw, validate,
}

on_some :
    {A : Type 0} {P : A → Type 0} (bad : A → Bool) (o : Option A)
    → ((a : A) → (bad a ≡ false) ↔ P a)
    → (is_some_and bad o ≡ false) ↔ IsOpt P o
on_some bad none h = (λ _. tt, λ _. refl)
on_some bad (some a) h = h a

each :
    {A : Type 0} {P : A → Type 0} (bad : A → Bool) (e : ParseError) (l : List (Option A))
    → ((a : A) → (bad a ≡ false) ↔ P a)
    → Decides (fail_each bad e l) (All (IsOpt P) l)
unfolding fail_each
each bad e [] h = (λ _. tt, λ _. refl)
each bad e (none ∷ l) h = (λ k. (tt, (each bad e l h).0 k), λ (_, k). (each bad e l h).1 k)
each bad e (some a ∷ l) h = guard (bad a) e (fail_each bad e l) (h a) (each bad e l h)

-- The bounds of a whole number.
abbrev pub Within : ℕ → ℕ → ℕ → Type 0
Within lo hi n = (lo ≤ n) × (n ≤ hi)

outside_iff : (lo hi n : ℕ) → (outside lo hi n ≡ false) ↔ Within lo hi n
outside_iff lo hi n = ground arith

abbrev pub AtMost : ℕ → ℕ → Type 0
AtMost hi n = n ≤ hi

over_iff : (hi n : ℕ) → (ltb hi n ≡ false) ↔ AtMost hi n
over_iff hi n = ground arith

module _ (fl : Floats) where
  -- The bounds of a number of type `f32`, which exclude NaN.
  abbrev pub WithinF32 : fl.F32 → fl.F32 → fl.F32 → Type 0
  WithinF32 lo hi x = (fl.le lo x ≡ true) × (fl.le x hi ≡ true)

  abbrev pub IsNonNegative : fl.F32 → Type 0
  IsNonNegative x = fl.lt x (fl.literal 0 0) ≡ false

  outside_f32_iff : (lo hi x : fl.F32) → (outside_f32 fl lo hi x ≡ false) ↔ WithinF32 lo hi x
  outside_f32_iff lo hi x = ground arith

  negative_iff : (x : fl.F32) → (negative fl x ≡ false) ↔ IsNonNegative x
  negative_iff x = (λ h. h, λ h. h)

  -- An overlay has a URL, is placed from one side in each direction, and has no negative size.
  pub record IsValidOverlay (d : DrawOverlay fl) : Type 0 where
    pub url : lacks_url d.url ≡ false
    pub vertical : both d.top d.bottom ≡ false
    pub horizontal : both d.left d.right ≡ false
    pub opacity : IsOpt (WithinF32 (fl.literal 0 0) (fl.literal 1 0)) d.opacity
    pub sizes :
        All (IsOpt IsNonNegative) (d.width ∷ d.height ∷ d.top ∷ d.left ∷ d.bottom ∷ d.right ∷ [])

  validate_entry_iff : (d : DrawOverlay fl) → Decides (validate_entry fl d) (IsValidOverlay d)
  unfolding validate_entry
  validate_entry_iff d =
      via
        (guard _ _ _ (same (lacks_url d.url)) (
          guard _ _ _ (same (both d.top d.bottom)) (
            guard _ _ _ (same (both d.left d.right)) (
              guard _ _ _ (on_some _ d.opacity (outside_f32_iff (fl.literal 0 0) (fl.literal 1 0)))
                (each _ Options.invalid_draw
                  (d.width ∷ d.height ∷ d.top ∷ d.left ∷ d.bottom ∷ d.right ∷ []) negative_iff)))))
        (λ (url', (v, (h', (o, s)))). record {
          url = url';
          vertical = v;
          horizontal = h';
          opacity = o;
          sizes = s;
        })
        (λ w. (w.url, (w.vertical, (w.horizontal, (w.opacity, w.sizes)))))

  validate_draw_iff :
      (ds : List (DrawOverlay fl)) → Decides (validate_draw fl ds) (All IsValidOverlay ds)
  unfolding validate_draw
  validate_draw_iff [] = (λ _. tt, λ _. refl)
  validate_draw_iff (d ∷ ds) =
      seq (validate_entry fl d) (validate_draw fl ds) (validate_entry_iff d) (validate_draw_iff ds)

  -- Every number is in the range of its option.
  pub record IsValid (p : TransformParams fl) : Type 0 where
    pub width : IsOpt (Within 1 8192) p.width
    pub height : IsOpt (Within 1 8192) p.height
    pub quality : Within 1 100 p.quality
    pub dpr : WithinF32 (fl.literal 1 0) (fl.literal 5 0) p.dpr
    pub sharpen : IsOpt (WithinF32 (fl.literal 0 0) (fl.literal 10 0)) p.sharpen
    pub blur : IsOpt (WithinF32 (fl.literal 1 1) (fl.literal 250 0)) p.blur
    pub brightness : IsOpt (WithinF32 (fl.literal 0 0) (fl.literal 2 0)) p.brightness
    pub contrast : IsOpt (WithinF32 (fl.literal 0 0) (fl.literal 2 0)) p.contrast
    pub saturation : IsOpt (WithinF32 (fl.literal 0 0) (fl.literal 2 0)) p.saturation
    pub gamma : IsOpt (WithinF32 (fl.literal 1 1) (fl.literal 10 0)) p.gamma
    pub trim : IsOpt (WithinF32 (fl.literal 1 0) (fl.literal 100 0)) p.trim
    pub frame : IsOpt (AtMost 999) p.frame
    pub trim_sides :
        All (IsOpt IsNonNegative) (p.trim_top ∷ p.trim_right ∷ p.trim_bottom ∷ p.trim_left ∷ [])
    pub scq : IsOpt (Within 1 100) p.scq
    pub borders :
        All
          (IsOpt (AtMost 2000))
          (p.border_width ∷ p.border_top ∷ p.border_right ∷ p.border_bottom ∷ p.border_left ∷ [])
    pub thumbhash : (is_thumbhash p.format && has_elements p.draw) ≡ false
    pub draw : All IsValidOverlay p.draw

  -- The checks accept parameters exactly if every option that is set is in its range, a thumbhash
  -- has no overlays, and every overlay has a URL, at most one side in each direction, an opacity
  -- from 0 to 1 and no negative size.
  pub validate_iff : (p : TransformParams fl) → (validate fl p ≡ ok tt) ↔ IsValid p
  unfolding validate
  validate_iff p =
      via
        (guard _ _ _ (on_some _ p.width (outside_iff 1 8192)) (
          guard _ _ _ (on_some _ p.height (outside_iff 1 8192)) (
            guard _ _ _ (outside_iff 1 100 p.quality) (
              guard _ _ _ (outside_f32_iff (fl.literal 1 0) (fl.literal 5 0) p.dpr) (
                guard _ _ _
                  (on_some _ p.sharpen (outside_f32_iff (fl.literal 0 0) (fl.literal 10 0)))
                  (guard _ _ _
                    (on_some _ p.blur (outside_f32_iff (fl.literal 1 1) (fl.literal 250 0)))
                    (guard _ _ _
                      (on_some _ p.brightness (outside_f32_iff (fl.literal 0 0) (fl.literal 2 0)))
                      (guard _ _ _
                        (on_some _ p.contrast (outside_f32_iff (fl.literal 0 0) (fl.literal 2 0)))
                        (guard _ _ _
                          (on_some _ p.saturation
                            (outside_f32_iff (fl.literal 0 0) (fl.literal 2 0)))
                          (guard _ _ _
                            (on_some _ p.gamma (outside_f32_iff (fl.literal 1 1) (fl.literal 10 0)))
                            (guard _ _ _
                              (on_some _ p.trim
                                (outside_f32_iff (fl.literal 1 0) (fl.literal 100 0)))
                              (guard _ _ _ (on_some _ p.frame (over_iff 999)) (
                                seq _ _
                                  (each _ Options.invalid_trim
                                    (p.trim_top ∷ p.trim_right ∷ p.trim_bottom ∷ p.trim_left ∷ [])
                                    negative_iff)
                                  (guard _ _ _ (on_some _ p.scq (outside_iff 1 100)) (
                                    seq _ _
                                      (each _ Options.invalid_border
                                        (p.border_width ∷ p.border_top ∷ p.border_right
                                          ∷ p.border_bottom ∷ p.border_left ∷ [])
                                        (over_iff 2000))
                                      (guard _ _ _
                                        (same (is_thumbhash p.format && has_elements p.draw))
                                        (validate_draw_iff p.draw)))))))))))))))))
        (λ (
          w,
          (h', (q, (d, (s, (b, (br, (c, (sa, (g, (t, (f, (ts, (sc, (bo, (th, dr))))))))))))))),
        ).
          record {
            width = w;
            height = h';
            quality = q;
            dpr = d;
            sharpen = s;
            blur = b;
            brightness = br;
            contrast = c;
            saturation = sa;
            gamma = g;
            trim = t;
            frame = f;
            trim_sides = ts;
            scq = sc;
            borders = bo;
            thumbhash = th;
            draw = dr;
          })
        (λ w. (
          w.width,
          (
            w.height,
            (
              w.quality,
              (
                w.dpr,
                (
                  w.sharpen,
                  (
                    w.blur,
                    (
                      w.brightness,
                      (
                        w.contrast,
                        (
                          w.saturation,
                          (
                            w.gamma,
                            (
                              w.trim,
                              (
                                w.frame,
                                (w.trim_sides, (w.scq, (w.borders, (w.thumbhash, w.draw)))),
                              ),
                            ),
                          ),
                        ),
                      ),
                    ),
                  ),
                ),
              ),
            ),
          ),
        ))
