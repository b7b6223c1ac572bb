-- ===== src/Tests/ParamsTests.antt =====
-- Transform parameters.
use imgx.Base.{
  ℕ, bytes, false, some, [], ◌∷◌, ◌++◌, ◌≡◌, ◌↔◌, refl, arith, split, text_beq, strip_prefix, join,
  take, drop, split_once, match_str, ok, err, has_byte, ◌/◌, ◌%◌, if◌then◌else◌, ◌==◌, nat_eq,
  Bool-cases, inl, inr,
}
use imgx.Transform.Options.{
  OutputFormat, Gravity, FitMode, parse_format, parse_gravity, parse_fit, format_str, fit_str,
  gravity_str, metadata_str, anim_str, rotation_str, flip_str, compression_str, draw_repeat_str,
}
use imgx.Transform.Numbers.{
  Rgb, from_str_radix, parse_u32, parse_usize, parse_digits, digit, parse_f32, parse_quality,
  parse_quality_number, parse_hex_color, hex_pair, slice_two, is_char_boundary, panic,
}
use imgx.Transform.Numbers.Bounds.{IsRgb}
use imgx.Transform.Print.{digits, decimal, hex_digit, hex_byte, hex_color}
use imgx.Transform.Params.{TransformParams, default_params}
use imgx.Transform.Params.Parse.{
  parse, apply_pairs, apply_pair, apply_key, set_param, param_arms, draw_arms, set_draw_field,
  set_draw_entry, parse_draw_field, push_many, set_at, get_or,
}
use imgx.Transform.Params.Parse.Arms.{IsRanged}
use imgx.Transform.Params.Parse.Laws.{parse-IsRanged}
use imgx.Transform.Params.Validate.{validate, validate_draw, validate_entry, fail_each}
use imgx.Transform.Params.Validate.Bounds.{IsValid, validate_iff}
use imgx.Transform.Params.CacheKey.{
  to_cache_key, parts, concat, field, draw_field, draw_parts, all_draw_parts, metadata_part,
  anim_part,
}
use imgx.Transform.Params.CacheKey.Clean.{IsClean, append-IsClean, decimal-IsClean}
use imgx.Transform.Params.CacheKey.NoBar.{to_cache_key-no_bar}
use imgx.Tests.Decimals.{decimals, parse_decimal}

parsing : Unit {0}
unfolding parse apply_pairs apply_pair apply_key set_param param_arms draw_arms set_draw_field
    set_draw_entry parse_draw_field push_many set_at get_or split split_once strip_prefix match_str
    text_beq from_str_radix parse_u32 parse_usize parse_digits digit parse_f32 parse_quality
    parse_quality_number parse_hex_color hex_pair slice_two is_char_boundary take drop parse_decimal
    parse_format parse_gravity parse_fit
parsing = tt

abbrev params : TransformParams decimals
params = record (default_params decimals) { width = some 400; quality = 75; scq = some 50 }

small : parse decimals (bytes "w=400,q=75,scq=50") ≡ ok params
unfolding parsing
small = refl

-- the test `cache_key_is_deterministic`
abbrev sized : TransformParams decimals
sized = record (default_params decimals) { width = some 400; format = some OutputFormat.webp }

printing : Unit {0}
unfolding to_cache_key parts concat field draw_field draw_parts all_draw_parts metadata_part
    anim_part join decimal digits hex_digit hex_byte hex_color format_str fit_str gravity_str
    metadata_str anim_str
printing = tt

key_of_sized : to_cache_key decimals sized ≡ bytes "w=400,q=80,f=webp,fit=contain,g=center,dpr=1.0"
unfolding printing
key_of_sized = refl

parse-IsRanged_example : IsRanged decimals params
unfolding parsing
parse-IsRanged_example = parse-IsRanged decimals (bytes "w=400,q=75,scq=50") params refl

abbrev orange : Rgb
orange = record { r = 255; g = 128; b = 0 }

orange-IsRgb : IsRgb orange
orange-IsRgb = omega arith

-- `aéabc`, of six bytes
torn_colour : parse_hex_color (b'a' ∷ 0xc3 ∷ 0xa9 ∷ b'a' ∷ b'b' ∷ b'c' ∷ []) ≡ err panic
unfolding parse_hex_color hex_pair slice_two is_char_boundary drop
torn_colour = refl

checking : Unit {0}
unfolding validate validate_draw validate_entry fail_each
checking = tt

validate_iff_example : (validate decimals params ≡ ok tt) ↔ IsValid decimals params
validate_iff_example = validate_iff decimals params

too_wide :
    validate decimals (record params { width = some 9000 })
    ≡ err imgx.Transform.Options.invalid_width
unfolding checking
too_wide = refl

fixed-IsClean : (k : ℕ) (x : ℕ) → IsClean (decimals.fixed k x)
unfolding has_byte
fixed-IsClean k x =
    append-IsClean (decimal (x / 100))
      (b'.' ∷ (decimal (x % 100 / 10) ++ (if k == 1 then [] else decimal (x % 10))))
      (decimal-IsClean (x / 100))
      (append-IsClean (decimal (x % 100 / 10)) (if k == 1 then [] else decimal (x % 10))
        (decimal-IsClean (x % 100 / 10))
        (elim (Bool-cases (k == 1)) [
          | inl one ↦ rw one refl
          | inr other ↦ rw other (decimal-IsClean (x % 10))
        ]))

to_cache_key-no_bar_example : has_byte b'|' (to_cache_key decimals params) ≡ false
unfolding parsing
to_cache_key-no_bar_example =
    to_cache_key-no_bar decimals fixed-IsClean params
      (parse-IsRanged decimals (bytes "w=400,q=75,scq=50") params refl) tt
