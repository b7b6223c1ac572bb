-- ===== src/Transform/Params/CacheKey/Clean.antt =====
-- What holds no `|`.
use imgx.Base.{
  ℕ, ◌/◌, ◌%◌, ◌<◌, Text, bytes, String, Option, none, some, List, [], ◌∷◌, ◌++◌, All, ◌≡◌, refl,
  arith, false, ◌==◌, nat_eq, has_byte, has_byte-append, join,
}
use imgx.Transform.Options.{
  OutputFormat, Rotation, FlipMode, MetadataMode, CompressionMode, DrawRepeat, AnimMode, FitMode,
  Gravity, format_str, rotation_str, flip_str, metadata_str, compression_str, draw_repeat_str,
  anim_str, fit_str, gravity_str,
}
use imgx.Transform.Numbers.{Rgb}
use imgx.Transform.Numbers.Bounds.{IsRgb}
use imgx.Transform.Print.{digits, decimal, hex_digit, hex_byte, hex_color}
use imgx.Transform.Print.RoundTrip.{IsDigit, digits-IsDigit}
use imgx.Transform.Params.Parse.Ensures.{IsOpt}
use imgx.Transform.Params.CacheKey.{concat, field, draw_field, metadata_part, anim_part}

abbrev pub IsClean : Text → Type 0
IsClean s = has_byte b'|' s ≡ false

pub append-IsClean : (s t : Text) → IsClean s → IsClean t → IsClean (s ++ t)
append-IsClean s t h k = ground (arith, has_byte-append b'|' s t)

pub All-append : (xs ys : List Text) → All IsClean xs → All IsClean ys → All IsClean (xs ++ ys)
All-append [] ys h k = k
All-append (x ∷ xs) ys (h, hs) k = (h, All-append xs ys hs k)

pub concat-IsClean : (ls : List (List Text)) → All (All IsClean) ls → All IsClean (concat ls)
unfolding concat
concat-IsClean [] h = tt
concat-IsClean (l ∷ ls) (h, hs) = All-append l (concat ls) h (concat-IsClean ls hs)

pub join-IsClean : (d : Text) (ss : List Text) → IsClean d → All IsClean ss → IsClean (join d ss)
unfolding join has_byte
join-IsClean d [] h k = refl
join-IsClean d (s ∷ []) h (k, _) = k
join-IsClean d (s ∷ t ∷ ss) h (k, ks) =
    append-IsClean s _ k (append-IsClean d _ h (join-IsClean d (t ∷ ss) h ks))

digits-IsClean : (s : Text) → All IsDigit s → IsClean s
unfolding has_byte
digits-IsClean [] h = refl
digits-IsClean (b ∷ s) (h, hs) = ground (arith, digits-IsClean s hs)

pub decimal-IsClean : (n : ℕ) → IsClean (decimal n)
unfolding decimal
decimal-IsClean n = digits-IsClean (digits 20 n) (digits-IsDigit 20 n)

hex_digit-other : (n : ℕ) → n < 16 → (hex_digit n == b'|') ≡ false
unfolding hex_digit
hex_digit-other n h = ground arith

hex_byte-IsClean : (n : ℕ) → n < 256 → IsClean (hex_byte n)
unfolding hex_byte has_byte
hex_byte-IsClean n h =
    rw (hex_digit-other (n / 16) (omega arith), hex_digit-other (n % 16) (omega arith)) refl

pub hex_color-IsClean : (c : Rgb) → IsRgb c → IsClean (hex_color c)
unfolding hex_color
hex_color-IsClean c h =
    append-IsClean (hex_byte c.r) _ (hex_byte-IsClean c.r h.red)
      (append-IsClean (hex_byte c.g) _ (hex_byte-IsClean c.g h.green) (hex_byte-IsClean c.b h.blue))

pub field-IsClean :
    {A : Type 0} (P : A → Type 0) (name : String) (f : A → Text) (o : Option A)
    → IsClean (bytes name)
    → ((a : A) → P a → IsClean (f a))
    → IsOpt P o
    → All IsClean (field name f o)
unfolding field
field-IsClean P name f none n h k = tt
field-IsClean P name f (some a) n h k = (append-IsClean (bytes name) (f a) n (h a k), tt)

pub draw_field-IsClean :
    {A : Type 0} (P : A → Type 0) (i : ℕ) (name : String) (f : A → Text) (o : Option A)
    → IsClean (bytes name)
    → ((a : A) → P a → IsClean (f a))
    → IsOpt P o
    → All IsClean (draw_field i name f o)
unfolding draw_field has_byte
draw_field-IsClean P i name f none n h k = tt
draw_field-IsClean P i name f (some a) n h k = (
  append-IsClean (bytes "draw.") (decimal i ++ (bytes name ++ f a)) refl (
      append-IsClean (decimal i) (bytes name ++ f a) (decimal-IsClean i)
        (append-IsClean (bytes name) (f a) n (h a k))),
  tt,
)

pub any_opt : {A : Type 0} (o : Option A) → IsOpt (λ _. Unit) o
any_opt none = tt
any_opt (some a) = tt

pub format-IsClean : (x : OutputFormat) → IsClean (format_str x)
unfolding format_str has_byte
format-IsClean OutputFormat.auto = refl
format-IsClean OutputFormat.jpeg = refl
format-IsClean OutputFormat.png = refl
format-IsClean OutputFormat.webp = refl
format-IsClean OutputFormat.avif = refl
format-IsClean OutputFormat.gif = refl
format-IsClean OutputFormat.baseline_jpeg = refl
format-IsClean OutputFormat.json = refl
format-IsClean OutputFormat.thumbhash = refl

pub rotation-IsClean : (x : Rotation) → IsClean (rotation_str x)
unfolding rotation_str has_byte
rotation-IsClean Rotation.deg0 = refl
rotation-IsClean Rotation.deg90 = refl
rotation-IsClean Rotation.deg180 = refl
rotation-IsClean Rotation.deg270 = refl

pub flip-IsClean : (x : FlipMode) → IsClean (flip_str x)
unfolding flip_str has_byte
flip-IsClean FlipMode.h = refl
flip-IsClean FlipMode.v = refl
flip-IsClean FlipMode.hv = refl

pub metadata-IsClean : (x : MetadataMode) → IsClean (metadata_str x)
unfolding metadata_str has_byte
metadata-IsClean MetadataMode.strip = refl
metadata-IsClean MetadataMode.keep = refl
metadata-IsClean MetadataMode.copyright = refl

pub compression-IsClean : (x : CompressionMode) → IsClean (compression_str x)
unfolding compression_str has_byte
compression-IsClean CompressionMode.fast = refl

pub draw_repeat-IsClean : (x : DrawRepeat) → IsClean (draw_repeat_str x)
unfolding draw_repeat_str has_byte
draw_repeat-IsClean DrawRepeat.both = refl
draw_repeat-IsClean DrawRepeat.x = refl
draw_repeat-IsClean DrawRepeat.y = refl

pub anim-IsClean : (x : AnimMode) → IsClean (anim_str x)
unfolding anim_str has_byte
anim-IsClean AnimMode.auto = refl
anim-IsClean AnimMode.static = refl
anim-IsClean AnimMode.animate = refl

pub fit-IsClean : (x : FitMode) → IsClean (fit_str x)
unfolding fit_str has_byte
fit-IsClean FitMode.contain = refl
fit-IsClean FitMode.cover = refl
fit-IsClean FitMode.fill = refl
fit-IsClean FitMode.inside = refl
fit-IsClean FitMode.outside = refl
fit-IsClean FitMode.pad = refl
fit-IsClean FitMode.crop = refl
fit-IsClean FitMode.aspect_crop = refl

pub gravity-IsClean : (x : Gravity) → IsClean (gravity_str x)
unfolding gravity_str has_byte
gravity-IsClean Gravity.center = refl
gravity-IsClean Gravity.north = refl
gravity-IsClean Gravity.south = refl
gravity-IsClean Gravity.east = refl
gravity-IsClean Gravity.west = refl
gravity-IsClean Gravity.northeast = refl
gravity-IsClean Gravity.northwest = refl
gravity-IsClean Gravity.southeast = refl
gravity-IsClean Gravity.southwest = refl
gravity-IsClean Gravity.smart = refl
gravity-IsClean Gravity.attention = refl

pub metadata_part-IsClean : (m : MetadataMode) → All IsClean (metadata_part m)
unfolding metadata_part metadata_str has_byte
metadata_part-IsClean MetadataMode.strip = tt
metadata_part-IsClean MetadataMode.keep = (refl, tt)
metadata_part-IsClean MetadataMode.copyright = (refl, tt)

pub anim_part-IsClean : (m : AnimMode) → All IsClean (anim_part m)
unfolding anim_part anim_str has_byte
anim_part-IsClean AnimMode.auto = tt
anim_part-IsClean AnimMode.static = (refl, tt)
anim_part-IsClean AnimMode.animate = (refl, tt)
