-- ===== src/Transform/Negotiate/Segment.antt =====
-- The format segment of a cache key determines the output format (INV-27).
use imgx.Base.{
  Text, bytes, Bool, true, false, Option, none, some, List, [], ◌∷◌, ◌++◌, ◌≡◌, ◌≢◌, refl, sym, ap,
  ◌∙◌, join, starts_with, contains, if◌then◌else◌,
}
use imgx.Transform.Floats.{Floats}
use imgx.Transform.Options.{OutputFormat, format_str, parse_format, supports_animation}
use imgx.Transform.Options.RoundTrip.{format-roundtrip}
use imgx.Transform.Negotiate.{
  AcceptResult, supports, explicit, accept_of, choose_format, choose_animated, supported_names,
  auto_segment, negotiate_format, negotiate_animated_format, cache_format_segment,
}

-- What the choices read of the header, in the order of the segment.
record Flags : Type 0 where
  avif : Bool
  webp : Bool
  jpeg : Bool
  png : Bool
  gif : Bool

flags : AcceptResult → Flags
flags a = record {
  avif = supports a OutputFormat.avif;
  webp = supports a OutputFormat.webp;
  jpeg = supports a OutputFormat.jpeg;
  png = supports a OutputFormat.png;
  gif = supports a OutputFormat.gif;
}

abbrev name : Bool → Text → List Text → List Text
name b s rest = if b then s ∷ rest else rest

write : Flags → Text
write f =
    bytes "auto:"
    ++ join (bytes "+") (
        name f.avif (bytes "avif") (
          name f.webp (bytes "webp")
            (name f.jpeg (bytes "jpeg") (name f.png (bytes "png") (name f.gif (bytes "gif") [])))))

write-flags : (a : AcceptResult) → auto_segment a ≡ write (flags a)
unfolding auto_segment write flags supported_names format_str
write-flags a = refl

read : Text → Flags
read s = record {
  avif = contains (bytes "avif") s;
  webp = contains (bytes "webp") s;
  jpeg = contains (bytes "jpeg") s;
  png = contains (bytes "png") s;
  gif = contains (bytes "gif") s;
}

read_table :
    (a b c d e : Bool)
    → read (write (record { avif = a; webp = b; jpeg = c; png = d; gif = e }))
      ≡ record { avif = a; webp = b; jpeg = c; png = d; gif = e }
unfolding read write join contains starts_with
read_table true true true true true = refl
read_table true true true true false = refl
read_table true true true false true = refl
read_table true true true false false = refl
read_table true true false true true = refl
read_table true true false true false = refl
read_table true true false false true = refl
read_table true true false false false = refl
read_table true false true true true = refl
read_table true false true true false = refl
read_table true false true false true = refl
read_table true false true false false = refl
read_table true false false true true = refl
read_table true false false true false = refl
read_table true false false false true = refl
read_table true false false false false = refl
read_table false true true true true = refl
read_table false true true true false = refl
read_table false true true false true = refl
read_table false true true false false = refl
read_table false true false true true = refl
read_table false true false true false = refl
read_table false true false false true = refl
read_table false true false false false = refl
read_table false false true true true = refl
read_table false false true true false = refl
read_table false false true false true = refl
read_table false false true false false = refl
read_table false false false true true = refl
read_table false false false true false = refl
read_table false false false false true = refl
read_table false false false false false = refl

-- The segment of an `auto` request determines what the header supports.
auto_segment_injective : (a b : AcceptResult) → auto_segment a ≡ auto_segment b → flags a ≡ flags b
unfolding flags
auto_segment_injective a b e =
    sym (read_table _ _ _ _ _)
    ∙ ap read (sym (write-flags a) ∙ e ∙ write-flags b)
    ∙ read_table _ _ _ _ _

choose_from : Flags → Bool → OutputFormat
choose_from f true =
    if f.avif
    then OutputFormat.avif
    else if f.webp
    then OutputFormat.webp
    else if f.png
    then OutputFormat.png
    else OutputFormat.jpeg
choose_from f false =
    if f.avif
    then OutputFormat.avif
    else if f.webp
    then OutputFormat.webp
    else if f.jpeg
    then OutputFormat.jpeg
    else if f.png
    then OutputFormat.png
    else OutputFormat.jpeg

choose_format-flags :
    (a : AcceptResult) (alpha : Bool) → choose_format a alpha ≡ choose_from (flags a) alpha
unfolding choose_format choose_from flags
choose_format-flags a true = refl
choose_format-flags a false = refl

animated_from : Flags → Option OutputFormat
animated_from f =
    if f.webp then some OutputFormat.webp else if f.gif then some OutputFormat.gif else none

choose_animated-flags : (a : AcceptResult) → choose_animated a ≡ animated_from (flags a)
unfolding choose_animated animated_from flags
choose_animated-flags a = refl

format_str-not_auto : (f : OutputFormat) → starts_with (bytes "auto:") (format_str f) ≡ false
unfolding format_str starts_with
format_str-not_auto OutputFormat.auto = refl
format_str-not_auto OutputFormat.jpeg = refl
format_str-not_auto _ = refl

auto_segment-auto : (a : AcceptResult) → starts_with (bytes "auto:") (auto_segment a) ≡ true
unfolding auto_segment starts_with
auto_segment-auto a = refl

format_str_ne : (f : OutputFormat) (a : AcceptResult) → format_str f ≢ auto_segment a
format_str_ne f a e =
    cc (ap (starts_with (bytes "auto:")) e, format_str-not_auto f, auto_segment-auto a)

format_str_injective : (f g : OutputFormat) → format_str f ≡ format_str g → f ≡ g
format_str_injective f g e = cc (ap parse_format e, format-roundtrip f, format-roundtrip g)

module _ (fl : Floats) where
  -- Two requests whose format segments are equal get the same output format, static or animated,
  -- for every source.
  pub cache_format_segment-negotiate :
      (h h' : Option Text) (r r' : Option OutputFormat)
      → cache_format_segment fl h r ≡ cache_format_segment fl h' r'
      → ((alpha : Bool) → negotiate_format fl h alpha r ≡ negotiate_format fl h' alpha r')
        × (negotiate_animated_format fl h r ≡ negotiate_animated_format fl h' r')
  unfolding cache_format_segment negotiate_format negotiate_animated_format
  cache_format_segment-negotiate h h' r r' e = by_cases (explicit r) (explicit r') e
    where
      a : AcceptResult
      a = accept_of fl h

      b : AcceptResult
      b = accept_of fl h'

      Same : Option OutputFormat → Option OutputFormat → Type 0
      Same x y =
          ((alpha : Bool)
            → (elim x [ some f ↦ f | none ↦ choose_format a alpha ])
              ≡ (elim y [ some f ↦ f | none ↦ choose_format b alpha ]))
          × ((elim x [
            | some f ↦ if supports_animation f then some f else none
            | none ↦ choose_animated a
          ])
              ≡ (elim y [
                | some f ↦ if supports_animation f then some f else none
                | none ↦ choose_animated b
              ]))

      by_cases :
          (x y : Option OutputFormat)
          → (elim x [ some f ↦ format_str f | none ↦ auto_segment a ])
            ≡ (elim y [ some f ↦ format_str f | none ↦ auto_segment b ])
          → Same x y
      by_cases (some f) (some g) q =
          let same = format_str_injective f g q in
          (λ alpha. same, ap (λ k. if supports_animation k then some k else none) same)
      by_cases (some f) none q = absurd (format_str_ne f b q)
      by_cases none (some g) q = absurd (format_str_ne g a (sym q))
      by_cases none none q =
          let same = auto_segment_injective a b q in
          (
            λ alpha.
                choose_format-flags a alpha
                ∙ ap (λ k. choose_from k alpha) same
                ∙ sym (choose_format-flags b alpha),
            choose_animated-flags a ∙ ap animated_from same ∙ sym (choose_animated-flags b),
          )
