-- ===== src/Transform/Pipeline/Probe/Budget.antt =====
-- What is known of the first frame and of the frames once a probe has succeeded.
use imgx.Base.{
  ℕ, ◌≤◌, ◌<◌, ◌^◌, ◌&&◌, Text, Bool, true, false, not, Option, none, some, ℤ, pos, negsuc, Result,
  ok, err, ltb, ltb_ℤ, min_i32, as_u32, as_u64, ◌*◌, ◌%◌, wrap_i32, if◌then◌else◌, >>=-eq-ok,
  ok_injective, fail_if-eq-ok, subst, ◌≡◌, refl, ap, sym, ◌∙◌, inl, inr, Option-cases, arith,
}
use imgx.Transform.Floats.{Floats}
use imgx.Transform.Negotiate.{negotiate_animated_format}
use imgx.Transform.Options.{OutputFormat}
use imgx.Transform.Params.{TransformParams}
use imgx.Transform.Pipeline.{VipsError, TransformLimits}
use imgx.Transform.Pipeline.Probe.{
  Probe, probe, lift, is_some, is_thumbhash, is_static, effective_pages, animated_format,
  check_pixels, first_frame_pixels, load_first_frame, over_budget, n_pages_of, several_pages,
  page_height_of, unwrap_or, reload,
}
use imgx.Transform.Vips.{Doubles, Vips, width, height}

-- Output is animated only if animation was allowed and no frame was picked; its frames are counted, and
-- are at most `max_frames`, where that fits in 31 bits.
abbrev pub IsAllowed : Bool → Bool → ℕ → Option OutputFormat → Option ℤ → Type 0
IsAllowed static picked max_frames none effective = Unit
IsAllowed static picked max_frames (some format) none = ⊥
IsAllowed static picked max_frames (some format) (some n) =
    (static ≡ false) × (picked ≡ false) × (max_frames < 2 ^ 31 → as_u32 n ≤ max_frames)

clamped-le :
    (n : ℤ) (m : ℕ)
    → ltb_ℤ (pos 1) n ≡ true
    → m < 2 ^ 31
    → as_u32 (min_i32 n (wrap_i32 (pos m))) ≤ m
unfolding wrap_i32
clamped-le (pos n) m h k = ground arith
clamped-le (negsuc n) m h k = ground arith

-- the guards of animated output
guards-IsAllowed :
    (several over static picked : Bool) (format : Option OutputFormat) (n m : ℤ) (max_frames : ℕ)
    → (several ≡ true → max_frames < 2 ^ 31 → as_u32 m ≤ max_frames)
    → IsAllowed static picked max_frames
        (if several && not over && not static && not picked then format else none)
        (if several && not over then some m else some n)
guards-IsAllowed false over static picked format n m mx h = tt
guards-IsAllowed true true static picked format n m mx h = tt
guards-IsAllowed true false true picked format n m mx h = tt
guards-IsAllowed true false false true format n m mx h = tt
guards-IsAllowed true false false false none n m mx h = tt
guards-IsAllowed true false false false (some f) n m mx h = (refl, refl, h refl)

module _ {fl : Floats} {d : Doubles fl} (v : Vips d) where
  -- the budget for `n` frames
  abbrev exceeds : TransformLimits → v.Image → ℤ → Bool
  exceeds limits image n =
      if several_pages v (some n)
      then ltb limits.max_animated_pixels (
          as_u64 (width v image)
          * as_u64 (unwrap_or (height v image) (page_height_of v image))
          * as_u64 n
          % 2 ^ 64)
      else false

  animated_format-IsAllowed :
      (limits : TransformLimits) (accept : Option Text) (tp : TransformParams fl) (image : v.Image)
      → IsAllowed
          (is_static tp.anim)
          (is_some tp.frame)
          limits.max_frames
          (animated_format v limits accept tp image)
          (effective_pages v limits image)
  unfolding animated_format effective_pages over_budget
  animated_format-IsAllowed limits accept tp image = elim (Option-cases (n_pages_of v image)) [
    | inl e ↦ rw (e, effective_pages) tt
    | inr (n, e) ↦
        rw (e, effective_pages, over_budget, e)
          (guards-IsAllowed (several_pages v (some n)) (exceeds limits image n) (is_static tp.anim)
            (is_some tp.frame) (negotiate_animated_format fl accept tp.format) n
            (min_i32 n (wrap_i32 (pos limits.max_frames))) limits.max_frames
            (clamped-le n limits.max_frames))
  ]

  -- What a probe that succeeds has found.
  pub record IsProbed (input_data : Text) (tp : TransformParams fl) (limits : TransformLimits)
      (p : Probe v) : Type 0 where
    pub first : v.Image
    pub reads : load_first_frame v input_data (is_thumbhash tp.format) ≡ ok first
    pub small : first_frame_pixels v first ≤ limits.max_pixels
    pub allowed :
        IsAllowed
          (is_static tp.anim)
          (is_some tp.frame)
          limits.max_frames
          p.animated_format
          p.effective_pages
    pub untouched : p.animated_format ≡ none → p.current ≡ first

  lift-eq-ok : {A : Type 0} (m : Result VipsError A) (a : A) → lift m ≡ ok a → m ≡ ok a
  lift-eq-ok (ok b) a h = ap ok (ok_injective h)
  lift-eq-ok (err e) a h = absurd cc

  -- Static output keeps the first frame.
  reload-static :
      (input_data : Text) (strict : Bool) (format : Option OutputFormat)
      (effective pages : Option ℤ) (first current : v.Image)
      → format ≡ none
      → lift (reload v input_data strict format effective pages first) ≡ ok current
      → current ≡ first
  unfolding reload
  reload-static input_data strict none effective pages first current e h = sym (ok_injective h)
  reload-static input_data strict (some f) effective pages first current e h = absurd cc

  pub probe-IsProbed :
      (input_data : Text) (tp : TransformParams fl) (accept : Option Text)
      (limits : TransformLimits) (p : Probe v)
      → probe v input_data tp accept limits ≡ ok p
      → IsProbed input_data tp limits p
  unfolding probe check_pixels
  probe-IsProbed input_data tp accept limits p h =
      let (first, loads, h₁) =
        >>=-eq-ok (lift (load_first_frame v input_data (is_thumbhash tp.format))) _ h in
      let (fits, h₂) = fail_if-eq-ok (ltb limits.max_pixels (first_frame_pixels v first)) _ _ h₁ in
      let (current, reloads, h₃) =
        >>=-eq-ok
          (lift (
            reload v input_data (is_thumbhash tp.format) (animated_format v limits accept tp first)
              (effective_pages v limits first) (n_pages_of v first) first))
          _ h₂ in
      record {
        first = first;
        reads = lift-eq-ok (load_first_frame v input_data (is_thumbhash tp.format)) first loads;
        small = ground (arith, fits);
        allowed =
            subst
              (λ (q : Probe v).
                IsAllowed (is_static tp.anim) (is_some tp.frame) limits.max_frames q.animated_format
                  q.effective_pages)
              (ok_injective h₃) (animated_format-IsAllowed limits accept tp first);
        untouched = λ static.
            ap (λ q. q.current) (sym (ok_injective h₃))
            ∙ reload-static input_data (is_thumbhash tp.format)
                (animated_format v limits accept tp first) (effective_pages v limits first)
                (n_pages_of v first) first current
                (ap (λ q. q.animated_format) (ok_injective h₃) ∙ static) reloads;
      }
