-- ===== src/Transform/Numbers.antt =====
-- crates/imgx/src/transform/params.rs: the numbers, qualities and colours in option values. A text
-- is the list of the bytes of a `&str`.
pub mod Bounds
use imgx.Base.{
  ℕ, ◌+◌, ◌-◌, ◌*◌, ◌^◌, Text, bytes, match_str, Bool, true, false, not, ◌&&◌, ◌||◌, Option, none,
  some, List, [], ◌∷◌, ltb, leb, ◌==◌, nat_eq, if◌then◌else◌, length, take, drop, Result, ok, err,
  ok_or, fail_if, ◌>>=◌, ◌>>◌,
}
use imgx.Transform.Floats.{Floats}
use imgx.Transform.Options.{ParseError, invalid_quality}

-- How a parser fails: by its error, or by a panic.
pub data Fault : Type 0 where
  error : ParseError → Fault
  panic : Fault

-- the value of a digit in a radix of 10 or 16
unfoldable pub digit : ℕ → ℕ → Option ℕ
digit radix b =
    if leb b'0' b && leb b b'9'
    then some (b - b'0')
    else if radix == 16 && (leb b'a' b && leb b b'f')
    then some (b - b'a' + 10)
    else if radix == 16 && (leb b'A' b && leb b b'F')
    then some (b - b'A' + 10)
    else none

-- the digits of `from_str_radix`, with the overflow of the type that has `bound` values
unfoldable pub parse_digits : ℕ → ℕ → ℕ → Text → Option ℕ
parse_digits radix bound acc [] = some acc
parse_digits radix bound acc (b ∷ s) = elim (digit radix b) [
  | none ↦ none
  | some d ↦
      let rest = parse_digits radix bound (acc * radix + d) s in
      if ltb (acc * radix + d) bound then rest else none
]

-- `from_str_radix` on an unsigned type: one leading `+` is allowed, and a digit is needed
unfoldable pub from_str_radix : ℕ → ℕ → Text → Option ℕ
unfolding parse_digits digit
from_str_radix radix bound [] = none
from_str_radix radix bound (b ∷ []) =
    if b == b'+' || b == b'-' then none else parse_digits radix bound 0 (b ∷ [])
from_str_radix radix bound (b ∷ c ∷ s) =
    if b == b'+' then parse_digits radix bound 0 (c ∷ s) else parse_digits radix bound 0 (b ∷ c ∷ s)

unfoldable pub parse_u32 : Text → Option ℕ
unfolding from_str_radix
parse_u32 s = from_str_radix 10 (2 ^ 32) s

unfoldable pub parse_usize : Text → Option ℕ
unfolding from_str_radix
parse_usize s = from_str_radix 10 (2 ^ 64) s

unfoldable pub parse_quality_number : Text → Result Fault ℕ
parse_quality_number s = do
  q ← ok_or (parse_u32 s) (error invalid_quality)
  fail_if (ltb 255 q) (error invalid_quality)
  ok q

unfoldable pub parse_quality : Text → Result Fault ℕ
unfolding match_str parse_quality_number
parse_quality s =
    match_str s
      (("high", ok 90) ∷ ("medium-high", ok 80) ∷ ("medium-low", ok 60) ∷ ("low", ok 40) ∷ [])
      (parse_quality_number s)

module _ (fl : Floats) where
  unfoldable pub parse_f32 : Text → Option fl.F32
  parse_f32 s = elim (fl.parse s) [
    | none ↦ none
    | some val ↦ if fl.is_nan val || fl.is_infinite val then none else some val
  ]

pub record Rgb : Type 0 where
  pub r : ℕ
  pub g : ℕ
  pub b : ℕ

-- A `&str` may be cut at an index only if no character of several bytes spans it.
abbrev continues : Text → Bool
continues [] = false
continues (b ∷ s) = leb 0x80 b && leb b 0xbf

unfoldable pub is_char_boundary : Text → ℕ → Bool
unfolding drop
is_char_boundary s i = not (continues (drop i s))

-- `&s[i..i + 2]`, which panics inside a character
unfoldable pub slice_two : Text → ℕ → Result Fault Text
unfolding is_char_boundary take drop
slice_two s i =
    if is_char_boundary s i && is_char_boundary s (i + 2) then ok (take 2 (drop i s)) else err panic

-- `u8::from_str_radix(&s[i..i + 2], 16).ok()?`; `none` is the early return
unfoldable pub hex_pair : Text → ℕ → Result Fault (Option ℕ)
unfolding slice_two from_str_radix
hex_pair s i = do two ← slice_two s i; ok (from_str_radix 16 256 two)

infixl 5 ◌>>=?◌
-- the operator `?` on an option
abbrev pub ◌>>=?◌ :
    {A B : Type 0}
    → Result Fault (Option A)
    → (A → Result Fault (Option B))
    → Result Fault (Option B)
m >>=? f = m >>= λ o. elim o [ none ↦ ok none | some a ↦ f a ]

unfoldable pub parse_hex_color : Text → Result Fault (Option Rgb)
unfolding hex_pair
parse_hex_color s =
    if not (length s == 6)
    then ok none
    else (hex_pair s 0 >>=? λ r'. hex_pair s 2 >>=? λ g'.
        hex_pair s 4 >>=? λ b'. ok (some (record { r = r'; g = g'; b = b' })))
