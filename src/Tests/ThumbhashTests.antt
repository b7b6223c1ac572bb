-- ===== src/Tests/ThumbhashTests.antt =====
-- Hashes and their text.
use imgx.Base.{
  ◌*◌, ◌/◌, ◌+◌, ◌≤◌, Text, bytes, some, All, [], ◌∷◌, ok, err, ◌≡◌, refl, length, arith,
}
use imgx.Tests.Fractions.{fractions, fractions-IsRounded}
use imgx.Transform.Pipeline.{invalid_dimensions, buffer_length_mismatch}
use imgx.Transform.Thumbhash.{
  Channel, row, rows, add_term, weigh, to_base64, pixels, encode_channel, round_to_u32,
  rgba_from_bands, expand_rgb,
}
use imgx.Transform.Thumbhash.Base64.{decode, IsByte, IsStandard, decode-to_base64}
use imgx.Transform.Thumbhash.Channels.{row_fuel}
use imgx.Transform.Thumbhash.Hash.{
  encode, hash_of, assemble, push_terms, or_at, sums, average, l_count, header24, header16,
}
use imgx.Transform.Thumbhash.Hash.Size.{encode-size}

man_IsByte : All IsByte (bytes "Man!")
man_IsByte = (omega arith, (omega arith, (omega arith, (omega arith, tt))))

decode-to_base64_example :
    (decode (to_base64 (bytes "Man!")) ≡ some (bytes "Man!"))
    × All IsStandard (to_base64 (bytes "Man!"))
    × (length (to_base64 (bytes "Man!")) ≡ 4 * ((length (bytes "Man!") + 2) / 3))
decode-to_base64_example = decode-to_base64 (bytes "Man!") man_IsByte

to_base64_man : to_base64 (bytes "Man!") ≡ bytes "TWFuIQ=="
unfolding to_base64
to_base64_man = refl

abbrev no_terms : Channel fractions
no_terms = record { dc = 0; ac = []; scale = 0 }

row_fuel_example :
    row fractions (5000 ∷ []) 1 1 3 3 4 0 0 no_terms
    ≡ row fractions (5000 ∷ []) 1 1 3 3 6 0 0 no_terms
row_fuel_example =
    row_fuel fractions (5000 ∷ []) 1 1 3 3 4 6 0 0 no_terms (omega arith) (omega arith)

computing : Unit {0}
unfolding encode hash_of assemble push_terms or_at sums average l_count header24 header16
    encode_channel rows row weigh add_term round_to_u32 pixels
computing = tt

abbrev pixel : Text
pixel = 200 ∷ 100 ∷ 50 ∷ 255 ∷ []

abbrev the_hash : Text
the_hash =
    29 ∷ 203 ∷ 2 ∷ 7 ∷ 0 ∷ 0 ∷ 0 ∷ 0 ∷ 0 ∷ 0 ∷ 0 ∷ 0 ∷ 0 ∷ 0 ∷ 0 ∷ 0 ∷ 0 ∷ 0 ∷ 0 ∷ 0 ∷ 0 ∷ 0 ∷ 0 ∷ 0
    ∷ []

encoded : encode fractions 1 1 pixel ≡ ok the_hash
unfolding computing
encoded = refl

encode-size_example :
    ((1 ≤ 1) × (1 ≤ 100) × (1 ≤ 1) × (1 ≤ 100))
    × (length pixel ≡ 4 * (1 * 1))
    × (17 ≤ length the_hash)
    × (length the_hash ≤ 25)
encode-size_example = encode-size fractions fractions-IsRounded 1 1 pixel the_hash encoded

-- a width of 0, and a buffer that is too short
wide : encode fractions 0 1 [] ≡ err (invalid_dimensions 0 1)
unfolding computing
wide = refl

short : encode fractions 1 1 (200 ∷ []) ≡ err (buffer_length_mismatch 4 1)
unfolding computing
short = refl

-- three bands get an opaque alpha
three_bands : rgba_from_bands (1 ∷ 2 ∷ 3 ∷ []) 1 1 3 ≡ ok (1 ∷ 2 ∷ 3 ∷ 255 ∷ [])
unfolding rgba_from_bands expand_rgb
three_bands = refl
