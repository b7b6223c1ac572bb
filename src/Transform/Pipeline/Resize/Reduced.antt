-- ===== src/Transform/Pipeline/Resize/Reduced.antt =====
-- When a resize may decode the source bytes again: no stage before it has changed the image.
use imgx.Base.{
  ℕ, ◌<◌, ◌^◌, ◌||◌, ◌⊎◌, ℤ, pos, inl, inr, arith, subst, Bool-cases, Text, Bool, true, false, not,
  ◌&&◌, Option, none, some, Result, ok, err, ◌>>=◌, ◌≡◌, refl, ap, sym, ◌∙◌,
}
use imgx.Transform.Floats.{Floats}
use imgx.Transform.Options.{Rotation, FlipMode}
use imgx.Transform.Params.{TransformParams}
use imgx.Transform.Pipeline.{VipsError, TransformLimits}
use imgx.Transform.Pipeline.Crops.Sides.{side_window_lem}
use imgx.Transform.Pipeline.Effects.{source_of}
use imgx.Transform.Pipeline.Crops.{
  before_resize, side_window, resolve_trim, trims_sides, extract_frame, trim_border, trim_sides,
  rotate, flip,
}
use imgx.Transform.Pipeline.Probe.{Probe, probe, is_some, is_thumbhash, load_first_frame}
use imgx.Transform.Pipeline.Probe.Budget.{probe-IsProbed}
use imgx.Transform.Pipeline.Resize.{resize_reads_source, trims_a_side, crops_by_content, turns}
use imgx.Transform.Vips.{Doubles, Vips, width, height, shrinks_on_load}

all_unset :
    (a b c e f g h k : Bool)
    → (not a && not b && not c && not e && not f && not g && not h && not k) ≡ true
    → (a ≡ false)
      × (b ≡ false)
      × (c ≡ false)
      × (e ≡ false)
      × (f ≡ false)
      × (g ≡ false)
      × (h ≡ false)
      × (k ≡ false)
all_unset true b c e f g h k q = absurd cc
all_unset false true c e f g h k q = absurd cc
all_unset false false true e f g h k q = absurd cc
all_unset false false false true f g h k q = absurd cc
all_unset false false false false true g h k q = absurd cc
all_unset false false false false false true h k q = absurd cc
all_unset false false false false false false true k q = absurd cc
all_unset false false false false false false false true q = absurd cc
all_unset false false false false false false false false q =
    (refl, refl, refl, refl, refl, refl, refl, refl)

none_of : {A : Type 0} (o : Option A) → is_some o ≡ false → o ≡ none
none_of none h = refl
none_of (some a) h = absurd cc

-- What the test asks.
pub record IsUnchanged (fl : Floats) (tp : TransformParams fl) (animated : Bool) : Type 0 where
  pub unhashed : is_thumbhash tp.format ≡ false
  pub static : animated ≡ false
  pub no_frame : tp.frame ≡ none
  pub no_trim : tp.trim ≡ none
  pub no_side : trims_a_side fl tp ≡ false
  pub upright : turns tp.rotate ≡ false
  pub no_flip : tp.flip ≡ none
  pub by_position : crops_by_content fl tp ≡ false

resize_reads_source-IsUnchanged :
    (fl : Floats) (tp : TransformParams fl) (animated : Bool)
    → resize_reads_source fl tp animated ≡ true
    → IsUnchanged fl tp animated
unfolding resize_reads_source
resize_reads_source-IsUnchanged fl tp animated h =
    let (a, b, c, e, f, g, k, m) =
      all_unset (is_thumbhash tp.format) animated (is_some tp.frame) (is_some tp.trim)
        (trims_a_side fl tp) (turns tp.rotate) (is_some tp.flip) (crops_by_content fl tp) h in
    record {
      unhashed = a;
      static = b;
      no_frame = none_of tp.frame c;
      no_trim = none_of tp.trim e;
      no_side = f;
      upright = g;
      no_flip = none_of tp.flip k;
      by_position = m;
    }

-- A step that changes nothing can be left out.
bind_unit :
    {E A : Type 0} (m : Result E A) (k : A → Result E A) → ((a : A) → k a ≡ ok a) → (m >>= k) ≡ m
bind_unit (ok a) k h = h a
bind_unit (err e) k h = refl

module _ {fl : Floats} {d : Doubles fl} (v : Vips d) where
  rotate-upright :
      (rotation : Option Rotation) (image : v.Image)
      → turns rotation ≡ false
      → rotate v rotation image ≡ ok image
  unfolding rotate
  rotate-upright none image h = refl
  rotate-upright (some Rotation.deg0) image h = refl
  rotate-upright (some Rotation.deg90) image h = absurd cc
  rotate-upright (some Rotation.deg180) image h = absurd cc
  rotate-upright (some Rotation.deg270) image h = absurd cc

  extract_frame-none :
      (input_data : Text) (strict : Bool) (frame : Option ℕ) (p : Probe v)
      → frame ≡ none
      → extract_frame v input_data strict frame p ≡ ok p.current
  unfolding extract_frame
  extract_frame-none input_data strict none p h = refl
  extract_frame-none input_data strict (some n) p h = absurd cc

  trim_border-none :
      (threshold : Option fl.F32) (image : v.Image)
      → threshold ≡ none
      → trim_border v false threshold image ≡ ok image
  unfolding trim_border
  trim_border-none none image h = refl
  trim_border-none (some t) image h = absurd cc

  flip-none :
      (mode : Option FlipMode) (image : v.Image) → mode ≡ none → flip v mode image ≡ ok image
  unfolding flip
  flip-none none image h = refl
  flip-none (some m) image h = absurd cc

  before_resize-eq :
      (input_data : Text) (strict : Bool) (tp : TransformParams fl) (p : Probe v)
      → IsUnchanged fl tp (is_some p.animated_format)
      → before_resize v input_data strict tp p ≡ trim_sides v false tp p.current
  unfolding before_resize
  before_resize-eq input_data strict tp p u =
      rw
        (
          before_resize,
          extract_frame-none input_data strict tp.frame p u.no_frame,
          u.static,
          trim_border-none tp.trim p.current u.no_trim,
        )
        (bind_unit (trim_sides v false tp p.current)
          (λ cropped. rotate v tp.rotate cropped >>= flip v tp.flip)
          (λ image.
            rw (rotate-upright tp.rotate image u.upright) (flip-none tp.flip image u.no_flip)))

  source_of-eq-some :
      (tp : TransformParams fl) (animated : Bool) (input_data data' : Text) (image : v.Image)
      → source_of v tp animated input_data image ≡ some data'
      → (resize_reads_source fl tp animated ≡ true)
        × (shrinks_on_load v image ≡ true)
        × (data' ≡ input_data)
  unfolding source_of
  source_of-eq-some tp animated input_data data' image h =
      elim (Bool-cases (resize_reads_source fl tp animated && shrinks_on_load v image)) [
        | inr unread ↦ absurd (cc (rw unread at h))
        | inl both ↦
            let (reads, shrinks) = both_true _ _ both in
            (reads, shrinks, sym (from_some (rw both at h)))
      ]
    where
      both_true : (a b : Bool) → (a && b) ≡ true → (a ≡ true) × (b ≡ true)
      both_true a b h = ground arith

      from_some : {x y : Text} → some x ≡ some y → x ≡ y
      from_some h = cc

  -- A trim of exactly 0 cuts off nothing.
  abbrev pub ZeroCutsNothing : Type 0
  ZeroCutsNothing =
      (t : fl.F32) (n : ℤ) → fl.eq t (fl.literal 0 0) ≡ true → resolve_trim d (some t) n ≡ pos 0

  module _ (zero : ZeroCutsNothing) where
    resolve_trim-zero :
        (t : Option fl.F32) (n : ℤ)
        → elim t [ none ↦ false | some x ↦ not (fl.eq x (fl.literal 0 0)) ] ≡ false
        → resolve_trim d t n ≡ pos 0
    unfolding resolve_trim
    resolve_trim-zero none n h = refl
    resolve_trim-zero (some t) n h = zero t n (ground (arith, h))

    whole_window :
        (tp : TransformParams fl) (w h : ℕ)
        → trims_a_side fl tp ≡ false
        → 0 < w
        → w < 2 ^ 31
        → 0 < h
        → h < 2 ^ 31
        → side_window d tp (pos w) (pos h)
          ≡ record { left = pos 0; top = pos 0; width = pos w; height = pos h }
    unfolding trims_a_side
    whole_window tp w h no_side some_w fits_w some_h fits_h =
        let (t, r, b, l) = all_false _ _ _ _ no_side in
        (side_window_lem d tp w h fits_w fits_h).0
        ∙ rw
            (
              resolve_trim-zero tp.trim_left (pos w) l,
              resolve_trim-zero tp.trim_right (pos w) r,
              resolve_trim-zero tp.trim_top (pos h) t,
              resolve_trim-zero tp.trim_bottom (pos h) b,
            )
            (ground (arith, some_w, some_h))
      where
        all_false :
            (a b e f : Bool)
            → (a || b || e || f) ≡ false
            → (a ≡ false) × (b ≡ false) × (e ≡ false) × (f ≡ false)
        all_false false false false false h = (refl, refl, refl, refl)
        all_false true b e f h = absurd cc
        all_false false true e f h = absurd cc
        all_false false false true f h = absurd cc
        all_false false false false true h = absurd cc

    -- The image, or a crop of it to the whole of it.
    abbrev pub IsAsItWas : ℕ → ℕ → v.Image → Result VipsError v.Image → Type 0
    IsAsItWas w h image m = (m ≡ ok image) ⊎ (m ≡ v.crop (pos 0) (pos 0) (pos w) (pos h) image)

    trim_sides-IsAsItWas :
        (tp : TransformParams fl) (image : v.Image) (w h : ℕ)
        → trims_a_side fl tp ≡ false
        → (width v image ≡ pos w) × (0 < w) × (w < 2 ^ 31)
        → (height v image ≡ pos h) × (0 < h) × (h < 2 ^ 31)
        → IsAsItWas w h image (trim_sides v false tp image)
    unfolding trim_sides
    trim_sides-IsAsItWas tp image w h no_side (wide, some_w, fits_w) (high, some_h, fits_h) =
        let whole = whole_window tp w h no_side some_w fits_w some_h fits_h in
        elim (Bool-cases (trims_sides tp)) [
          | inr none_given ↦ inl (rw (none_given, trim_sides) refl)
          | inl given ↦ inr (rw (given, trim_sides, wide, high, whole) refl)
        ]

    -- When the resize is given the source bytes to decode again, they are the bytes of the request, and
    -- the image before the resize comes from a loader that can decode at reduced size. It is then the
    -- first frame of the source, read in the lenient way that the second decode uses: as it was
    -- decoded, or cropped to the whole of it, by trims of the sides that are exactly 0. And the
    -- resize does not choose its window by the content. The probed image has a size of `i32`, and
    -- the arithmetic of floats makes a cut of 0 pixels of a trim of 0.
    pub before_resize-first :
        (input_data data' : Text) (tp : TransformParams fl) (accept : Option Text)
        (limits : TransformLimits) (p : Probe v) (ready : v.Image) (w h : ℕ)
        → probe v input_data tp accept limits ≡ ok p
        → (width v p.current ≡ pos w) × (0 < w) × (w < 2 ^ 31)
        → (height v p.current ≡ pos h) × (0 < h) × (h < 2 ^ 31)
        → source_of v tp (is_some p.animated_format) input_data ready ≡ some data'
        → (data' ≡ input_data)
          × (shrinks_on_load v ready ≡ true)
          × (load_first_frame v data' false ≡ ok p.current)
          × IsAsItWas w h p.current (before_resize v input_data (is_thumbhash tp.format) tp p)
          × (crops_by_content fl tp ≡ false)
    before_resize-first input_data data' tp accept limits p ready w h probes wide high given =
        let (reads, shrinks, same) =
          source_of-eq-some tp (is_some p.animated_format) input_data data' ready given in
        let u = resize_reads_source-IsUnchanged fl tp (is_some p.animated_format) reads in
        let known = probe-IsProbed v input_data tp accept limits p probes in
        let first : p.current ≡ known.first =
          known.untouched (none_of p.animated_format u.static) in
        (
          same,
          shrinks,
          ap (λ x. load_first_frame v x false) same
              ∙ ap (load_first_frame v input_data) (sym u.unhashed)
              ∙ known.reads
              ∙ ap ok (sym first),
          subst (IsAsItWas w h p.current)
              (sym (before_resize-eq input_data (is_thumbhash tp.format) tp p u))
              (trim_sides-IsAsItWas tp p.current w h u.no_side wide high),
          u.by_position,
        )
