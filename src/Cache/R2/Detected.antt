-- ===== src/Cache/R2/Detected.antt =====
-- How long a detected content type is.
use imgx.Base.{
  ◌≤◌, Text, bytes, Bool, true, false, ◌&&◌, ◌||◌, length, leb, ltb, if◌then◌else◌, arith,
}
use imgx.Cache.R2.{detect_content_type, detect_long, detect_short, detect_jpeg, byte_is, slice_is}

-- A choice of texts that are not longer than a content type that says nothing.
either_le :
    (b : Bool) (s t : Text) → length s ≤ 24 → length t ≤ 24 → length (if b then s else t) ≤ 24
either_le true s t h j = h
either_le false s t h j = j

detect_jpeg-le : (d : Text) → length (detect_jpeg d) ≤ 24
unfolding detect_jpeg
detect_jpeg-le d =
    either_le (byte_is 0 0xff d && byte_is 1 0xd8 d) (bytes "image/jpeg")
      (bytes "application/octet-stream") (omega arith) (omega arith)

detect_short-le : (d : Text) → length (detect_short d) ≤ 24
unfolding detect_short
detect_short-le d =
    let gif : Text = if slice_is 0 "GIF8" d then bytes "image/gif" else detect_jpeg d in
    let is_png : Bool = byte_is 0 0x89 d && slice_is 1 "PNG" d in
    either_le (leb 4 (length d)) (if is_png then bytes "image/png" else gif) (detect_jpeg d)
      (either_le is_png (bytes "image/png") gif (omega arith) (
        either_le (slice_is 0 "GIF8" d) (bytes "image/gif") (detect_jpeg d) (omega arith)
          (detect_jpeg-le d)))
      (detect_jpeg-le d)

detect_long-le : (d : Text) → length (detect_long d) ≤ 24
unfolding detect_long
detect_long-le d =
    let is_avif : Bool =
      slice_is 4 "ftyp" d
      && (slice_is 8 "avif" d
          || slice_is 8 "avis" d
          || slice_is 8 "heic" d
          || slice_is 8 "heix" d
          || slice_is 8 "mif1" d) in
    either_le (slice_is 0 "RIFF" d && slice_is 8 "WEBP" d) (bytes "image/webp")
      (if is_avif then bytes "image/avif" else detect_short d) (omega arith)
      (either_le is_avif (bytes "image/avif") (detect_short d) (omega arith) (detect_short-le d))

-- A detected type is no longer than the one that says nothing.
pub detect_content_type-le : (d : Text) → length (detect_content_type d) ≤ 24
unfolding detect_content_type
detect_content_type-le d =
    let by_length : Text = if leb 12 (length d) then detect_long d else detect_short d in
    either_le (ltb (length d) 2) (bytes "application/octet-stream") by_length (omega arith) (
      either_le (leb 12 (length d)) (detect_long d) (detect_short d) (detect_long-le d)
        (detect_short-le d))
