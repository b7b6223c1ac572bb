-- ===== src/Transform/Thumbhash/Hash.antt =====
-- crates/imgx/src/transform/thumbhash.rs: the bytes of a hash, from the pixels.
pub mod Lengths
pub mod Counts
pub mod Size
use Prim.Native.Nat.{bit_or}
use imgx.Base.{
  ℕ, zero, suc, ◌+◌, ◌-◌, ◌*◌, ◌/◌, ◌%◌, ◌^◌, Text, Bool, true, false, not, ◌&&◌, ◌||◌, Option,
  none, some, List, [], ◌∷◌, ◌++◌, Result, ok, err, ◌>>=◌, ◌>>◌, fail_if, ltb, leb, ◌==◌, nat_eq,
  length, map, if◌then◌else◌,
}
use imgx.Transform.Floats.{Floats}
use imgx.Transform.Pipeline.{ThumbhashError, invalid_dimensions, buffer_length_mismatch}
use imgx.Transform.Thumbhash.{max_side, Pixel, pixels, round_to_u32, Channel, encode_channel}
use imgx.Transform.Vips.{Doubles}

abbrev max_ℕ : ℕ → ℕ → ℕ
max_ℕ a b = if leb a b then b else a

-- `a << k` on `u32`, with the factor 2 ^ k
abbrev shl : ℕ → ℕ → ℕ
shl a factor = a * factor % 2 ^ 32

-- `hash[position] |= byte`
unfoldable pub or_at : ℕ → ℕ → Text → Text
or_at position byte [] = []
or_at zero byte (b ∷ hash) = bit_or b byte ∷ hash
or_at (suc position) byte (b ∷ hash) = b ∷ or_at position byte hash

abbrev bit : Bool → ℕ
bit true = 1
bit false = 0

module _ {fl : Floats} (d : Doubles fl) where
  abbrev int : ℕ → d.F64
  int n = d.literal n 0

  -- a colour, or the sums of the pixels' colours
  pub record Average : Type 0 where
    pub r : d.F64
    pub g : d.F64
    pub b : d.F64
    pub a : d.F64

  abbrev alpha_of : Pixel → d.F64
  alpha_of px = d.div (d.of_u64 px.a) (int 255)

  abbrev part : d.F64 → ℕ → d.F64
  part alpha n = d.mul (d.div alpha (int 255)) (d.of_u64 n)

  unfoldable pub sums : List Pixel → Average → Average
  sums [] s = s
  sums (px ∷ rest) s = sums rest (record {
    r = d.add s.r (part (alpha_of px) px.r);
    g = d.add s.g (part (alpha_of px) px.g);
    b = d.add s.b (part (alpha_of px) px.b);
    a = d.add s.a (alpha_of px);
  })

  unfoldable pub average : List Pixel → Average
  unfolding sums
  average pxs =
      let s : Average = sums pxs (record { r = int 0; g = int 0; b = int 0; a = int 0 }) in
      if d.eq s.a (int 0)
      then s
      else record s { r = d.div s.r s.a; g = d.div s.g s.a; b = d.div s.b s.a }

  -- a pixel over the average colour
  abbrev blend : Average → Pixel → Average
  blend avg px =
      let rest : d.F64 = d.sub (int 1) (alpha_of px) in
      record {
        r = d.add (d.mul avg.r rest) (part (alpha_of px) px.r);
        g = d.add (d.mul avg.g rest) (part (alpha_of px) px.g);
        b = d.add (d.mul avg.b rest) (part (alpha_of px) px.b);
        a = alpha_of px;
      }

  abbrev luminance : Average → d.F64
  luminance c = d.div (d.add (d.add c.r c.g) c.b) (int 3)

  abbrev yellow_blue : Average → d.F64
  yellow_blue c = d.sub (d.div (d.add c.r c.g) (int 2)) c.b

  -- the values of the four channels
  abbrev pub l_values : Average → List Pixel → List d.F64
  l_values avg pxs = map (λ px. luminance (blend avg px)) pxs

  abbrev pub p_values : Average → List Pixel → List d.F64
  p_values avg pxs = map (λ px. yellow_blue (blend avg px)) pxs

  abbrev pub q_values : Average → List Pixel → List d.F64
  q_values avg pxs = map (λ px. d.sub (blend avg px).r (blend avg px).g) pxs

  abbrev pub a_values : List Pixel → List d.F64
  a_values pxs = map alpha_of pxs

  -- the number of luminance coefficients along a side
  unfoldable pub l_count : Bool → ℕ → ℕ → ℕ → ℕ
  unfolding round_to_u32
  l_count has_alpha width height side =
      let limit : d.F64 = if has_alpha then int 5 else int 7 in
      max_ℕ (round_to_u32 d (d.div (d.mul limit (d.of_u64 side)) (d.of_u64 (max_ℕ width height)))) 1

  -- 15 times a term, as `u8`
  abbrev nibble : d.F64 → ℕ
  nibble f = round_to_u32 d (d.mul (int 15) f) % 256

  unfoldable pub header24 : Channel d → Channel d → Channel d → Bool → ℕ
  unfolding round_to_u32
  header24 l p q has_alpha =
      bit_or
        (bit_or
          (bit_or
            (bit_or (round_to_u32 d (d.mul (int 63) l.dc)) (
              shl (round_to_u32 d (d.add (d.literal 315 1) (d.mul (d.literal 315 1) p.dc)))
                (2 ^ 6)))
            (shl (round_to_u32 d (d.add (d.literal 315 1) (d.mul (d.literal 315 1) q.dc)))
              (2 ^ 12)))
          (shl (round_to_u32 d (d.mul (int 31) l.scale)) (2 ^ 18)))
        (shl (bit has_alpha) (2 ^ 23))

  unfoldable pub header16 : Channel d → Channel d → ℕ → Bool → ℕ
  unfolding round_to_u32
  header16 p q l_side is_landscape =
      bit_or
        (bit_or (bit_or l_side (shl (round_to_u32 d (d.mul (int 63) p.scale)) (2 ^ 3)))
          (shl (round_to_u32 d (d.mul (int 63) q.scale)) (2 ^ 9)))
        (shl (bit is_landscape) (2 ^ 15))

  abbrev header_bytes : ℕ → ℕ → Text
  header_bytes h24 h16 =
      h24 % 256 ∷ h24 / 256 % 256 ∷ h24 / 65536 % 256 ∷ h16 % 256 ∷ h16 / 256 % 256 ∷ []

  abbrev alpha_byte : Option (Channel d) → Text
  alpha_byte none = []
  alpha_byte (some a) = bit_or (nibble a.dc) (nibble a.scale * 16 % 256) ∷ []

  abbrev terms_of : Option (Channel d) → List d.F64
  terms_of none = []
  terms_of (some a) = a.ac

  -- the loop over the terms, which go two to a byte; `ac_index` counts them
  unfoldable pub push_terms : ℕ → ℕ → List d.F64 → Text → Text
  unfolding or_at round_to_u32
  push_terms ac_start ac_index [] hash = hash
  push_terms ac_start ac_index (f ∷ terms) hash =
      let position : ℕ = ac_start + ac_index / 2 in
      let grown : Text = if leb (length hash) position then hash ++ 0 ∷ [] else hash in
      let byte : ℕ = if ac_index % 2 == 0 then nibble f else nibble f * 16 % 256 in
      push_terms ac_start (ac_index + 1) terms (or_at position byte grown)

  -- the hash of channels that are encoded
  unfoldable pub assemble :
      Channel d → Channel d → Channel d → Option (Channel d) → ℕ → Bool → Bool → Text
  unfolding header24 header16 push_terms
  assemble l p q a l_side has_alpha is_landscape =
      let start : Text =
        header_bytes (header24 l p q has_alpha) (header16 p q l_side is_landscape)
        ++ alpha_byte a in
      push_terms (length start) 0 (l.ac ++ (p.ac ++ (q.ac ++ terms_of a))) start

  -- the hash of pixels of a `width` by `height` image
  unfoldable pub hash_of : ℕ → ℕ → List Pixel → Text
  unfolding average l_count encode_channel assemble
  hash_of width height pxs =
      let avg : Average = average pxs in
      let has_alpha : Bool = d.lt avg.a (d.of_u64 (width * height)) in
      let lx : ℕ = l_count has_alpha width height width in
      let ly : ℕ = l_count has_alpha width height height in
      let is_landscape : Bool = ltb height width in
      assemble (encode_channel d (l_values avg pxs) width height (max_ℕ lx 3) (max_ℕ ly 3))
        (encode_channel d (p_values avg pxs) width height 3 3)
        (encode_channel d (q_values avg pxs) width height 3 3)
        (if has_alpha then some (encode_channel d (a_values pxs) width height 5 5) else none)
        (if is_landscape then ly else lx) has_alpha is_landscape

  unfoldable pub encode : ℕ → ℕ → Text → Result ThumbhashError Text
  unfolding hash_of pixels
  encode width height rgba = do
    fail_if (not (leb 1 width && leb width max_side) || not (leb 1 height && leb height max_side))
        (invalid_dimensions width height)
    fail_if (not (length rgba == 4 * (width * height)))
        (buffer_length_mismatch (4 * (width * height)) (length rgba))
    ok (hash_of width height (pixels rgba))
