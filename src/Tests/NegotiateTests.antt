-- ===== src/Tests/NegotiateTests.antt =====
-- Format negotiation.
use imgx.Base.{
  Text, bytes, Bool, true, false, Option, none, some, ◌≡◌, ◌≢◌, ◌⊎◌, refl, split, text_beq,
  strip_prefix, join, split_once,
}
use imgx.Transform.Options.{OutputFormat, format_str}
use imgx.Transform.Negotiate.{
  supports, explicit, accept_of, set_media, q_param, next_q, q_value, accept_parts, accept_entry,
  accept_entries, parse_accept_header, choose_format, choose_animated, supported_names,
  auto_segment, negotiate_format, negotiate_animated_format, cache_format_segment,
  apply_compression_fast, trim, trim_start, trim_end,
}
use imgx.Transform.Negotiate.Offers.{offered, negotiate_format-IsBest}
use imgx.Transform.Negotiate.Priority.{priority, IsBest}
use imgx.Transform.Negotiate.Segment.{cache_format_segment-negotiate}
use imgx.Transform.Numbers.{from_str_radix, parse_u32, parse_digits, digit}
use imgx.Tests.Decimals.{decimals, parse_decimal}

header : Unit {0}
unfolding accept_of parse_decimal split_once from_str_radix parse_u32 parse_digits digit split trim
    trim_start trim_end q_param next_q q_value accept_parts accept_entry accept_entries
    parse_accept_header set_media choose_format supports supported_names auto_segment
    negotiate_format negotiate_animated_format choose_animated cache_format_segment text_beq join
    strip_prefix format_str
header = tt

abbrev chrome : Option Text
chrome = some (bytes "image/webp,image/png")

abbrev reversed : Option Text
reversed = some (bytes "image/png , image/webp")

run : negotiate_format decimals chrome false none ≡ OutputFormat.webp
unfolding header
run = refl

refused :
    negotiate_format decimals (some (bytes "image/webp;q=0,image/png")) false none
    ≡ OutputFormat.png
unfolding header
refused = refl

negotiate_format-IsBest_example :
    ((explicit none ≡ some (negotiate_format decimals chrome false none))
      ⊎ ((explicit none ≡ none)
          × IsBest
              (offered decimals chrome)
              (priority false)
              (negotiate_format decimals chrome false none)))
    × (negotiate_format decimals chrome false none ≢ OutputFormat.auto)
negotiate_format-IsBest_example = negotiate_format-IsBest decimals chrome false none

compressed :
    (apply_compression_fast OutputFormat.avif true ≡ OutputFormat.jpeg)
    × (apply_compression_fast OutputFormat.png true ≡ OutputFormat.png)
unfolding apply_compression_fast
compressed = (refl, refl)

cache_format_segment-negotiate_example :
    ((alpha : Bool)
      → negotiate_format decimals chrome alpha none ≡ negotiate_format decimals reversed alpha none)
    × (negotiate_animated_format decimals chrome none
        ≡ negotiate_animated_format decimals reversed none)
unfolding header
cache_format_segment-negotiate_example =
    cache_format_segment-negotiate decimals chrome reversed none none refl
