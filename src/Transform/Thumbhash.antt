-- ===== src/Transform/Thumbhash.antt =====
-- crates/imgx/src/transform/thumbhash.rs: the encoder of thumbhashes. A buffer is the list of its
-- bytes; `f64` is a parameter.
pub mod Base64
pub mod Channels
pub mod Hash
use imgx.Base.{
  ℕ, zero, suc, ◌+◌, ◌-◌, ◌*◌, ◌/◌, ◌%◌, ◌^◌, Text, bytes, Bool, true, false, not, ◌&&◌, ◌||◌,
  Option, none, some, List, [], ◌∷◌, ◌++◌, Result, ok, err, ◌>>=◌, ◌>>◌, fail_if, ltb, leb, ◌==◌,
  nat_eq, length, map, if◌then◌else◌,
}
use Prim.Native.Nat.{bit_or}
use imgx.Transform.Floats.{Floats}
use imgx.Transform.Pipeline.{
  ThumbhashError, invalid_dimensions, buffer_length_mismatch, unsupported_bands,
}
use imgx.Transform.Vips.{Doubles}

abbrev pub max_side : ℕ
max_side = 100

-- what samples of one, two and three bands become; a rest of fewer samples is dropped
unfoldable pub expand_gray : Text → Text
expand_gray [] = []
expand_gray (gray ∷ samples) = gray ∷ gray ∷ gray ∷ 255 ∷ expand_gray samples

unfoldable pub expand_gray_alpha : Text → Text
expand_gray_alpha (gray ∷ alpha ∷ samples) = gray ∷ gray ∷ gray ∷ alpha ∷ expand_gray_alpha samples
expand_gray_alpha _ = []

unfoldable pub expand_rgb : Text → Text
expand_rgb (r ∷ g ∷ b ∷ samples) = r ∷ g ∷ b ∷ 255 ∷ expand_rgb samples
expand_rgb _ = []

-- a number that fits `usize`, which has 64 bits
abbrev checked : ℕ → Option ℕ
checked n = if ltb n (2 ^ 64) then some n else none

abbrev is_length : Option ℕ → ℕ → Bool
is_length none n = false
is_length (some expected) n = expected == n

abbrev or_max : Option ℕ → ℕ
or_max none = 2 ^ 64 - 1
or_max (some n) = n

unfoldable pub rgba_from_bands : Text → ℕ → ℕ → ℕ → Result ThumbhashError Text
unfolding expand_gray expand_gray_alpha expand_rgb
rgba_from_bands buffer width height bands = do
  let expected = checked (width * height * bands)
  fail_if (not (leb 1 bands && leb bands 4)) (unsupported_bands bands)
  fail_if (not (is_length expected (length buffer)))
      (buffer_length_mismatch (or_max expected) (length buffer))
  ok (
      if bands == 4
      then buffer
      else if bands == 1
      then expand_gray buffer
      else if bands == 2
      then expand_gray_alpha buffer
      else expand_rgb buffer)

-- `ALPHABET[n]` for a number below 64
unfoldable pub alphabet : ℕ → ℕ
alphabet n =
    if ltb n 26
    then b'A' + n
    else if ltb n 52
    then b'a' + (n - 26)
    else if ltb n 62
    then b'0' + (n - 52)
    else if n == 62
    then b'+'
    else b'/'

-- `(b0 << 16) | (b1 << 8) | b2`: the bytes do not overlap, so `|` is a sum
abbrev pub group_of : ℕ → ℕ → ℕ → ℕ
group_of b0 b1 b2 = b0 * 65536 + b1 * 256 + b2

-- `ALPHABET[(group >> k) as usize & 63]`, with the divisor 2 ^ k
abbrev pub sextet_at : ℕ → ℕ → ℕ
sextet_at divisor group = alphabet (group / divisor % 64)

unfoldable pub to_base64 : Text → Text
unfolding alphabet
to_base64 [] = []
to_base64 (b0 ∷ []) =
    sextet_at 262144 (group_of b0 0 0) ∷ sextet_at 4096 (group_of b0 0 0) ∷ b'=' ∷ b'=' ∷ []
to_base64 (b0 ∷ b1 ∷ []) =
    sextet_at 262144 (group_of b0 b1 0)
    ∷ sextet_at 4096 (group_of b0 b1 0)
    ∷ sextet_at 64 (group_of b0 b1 0)
    ∷ b'='
    ∷ []
to_base64 (b0 ∷ b1 ∷ b2 ∷ rest) =
    sextet_at 262144 (group_of b0 b1 b2)
    ∷ sextet_at 4096 (group_of b0 b1 b2)
    ∷ sextet_at 64 (group_of b0 b1 b2)
    ∷ sextet_at 1 (group_of b0 b1 b2)
    ∷ to_base64 rest

-- `as_chunks::<4>().0`
pub record Pixel : Type 0 where
  pub r : ℕ
  pub g : ℕ
  pub b : ℕ
  pub a : ℕ

unfoldable pub pixels : Text → List Pixel
pixels (r ∷ g ∷ b ∷ a ∷ rest) = record { r = r; g = g; b = b; a = a } ∷ pixels rest
pixels _ = []

module _ {fl : Floats} (d : Doubles fl) where
  abbrev pub int : ℕ → d.F64
  int n = d.literal n 0

  unfoldable pub round_to_u32 : d.F64 → ℕ
  round_to_u32 value = d.to_u32 (d.round value)

  pub record Channel : Type 0 where
    pub dc : d.F64
    pub ac : List d.F64
    pub scale : d.F64

  -- the weight of the coefficient `c` at position `i` of `n`
  abbrev wave : ℕ → ℕ → ℕ → d.F64
  wave n c i =
      d.cos
        (d.mul (d.mul (d.div d.pi (d.of_u64 n)) (d.of_u64 c)) (d.add (d.of_u64 i) (d.literal 5 1)))

  -- the loops over y and x, from the position (x, y) on, over the samples in their order
  unfoldable pub weigh : ℕ → ℕ → ℕ → ℕ → List d.F64 → ℕ → ℕ → d.F64 → d.F64
  weigh w h cx cy [] x y f = f
  weigh w h cx cy (sample ∷ channel) x y f =
      let f' : d.F64 = d.add f (d.mul (d.mul sample (wave w cx x)) (wave h cy y)) in
      let next_row = weigh w h cx cy channel 0 (y + 1) f' in
      let next_column = weigh w h cx cy channel (x + 1) y f' in
      if x + 1 == w then next_row else next_column

  -- what one coefficient adds to the channel
  unfoldable pub add_term : ℕ → ℕ → d.F64 → Channel → Channel
  add_term cx cy f c =
      if ltb 0 cx || ltb 0 cy
      then record c { ac = c.ac ++ f ∷ []; scale = d.max c.scale (d.abs f) }
      else record c { dc = f }

  module _ (channel : List d.F64) (w h nx ny : ℕ) where
    -- the `while` loop over cx, with fuel for its rounds
    unfoldable pub row : ℕ → ℕ → ℕ → Channel → Channel
    unfolding weigh add_term
    row zero cy cx c = c
    row (suc fuel) cy cx c =
        let f : d.F64 = d.div (weigh w h cx cy channel 0 0 (int 0)) (d.of_u64 (w * h)) in
        let rest = row fuel cy (cx + 1) (add_term cx cy f c) in
        if ltb (cx * ny) (nx * (ny - cy)) then rest else c

    -- the loop over cy, from row `cy` on
    unfoldable pub rows : ℕ → ℕ → Channel → Channel
    unfolding row
    rows zero cy c = c
    rows (suc n) cy c = rows n (cy + 1) (row (suc nx) cy 0 c)

    unfoldable pub encode_channel : Channel
    unfolding rows
    encode_channel =
        let c : Channel = rows ny 0 (record { dc = int 0; ac = []; scale = int 0 }) in
        if d.eq c.scale (int 0) then c else record c {
          ac =
              map (λ value. d.add (d.literal 5 1) (d.mul (d.div (d.literal 5 1) c.scale) value))
                c.ac;
        }
