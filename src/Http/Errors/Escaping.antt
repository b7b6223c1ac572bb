-- ===== src/Http/Errors/Escaping.antt =====
-- The escaped detail is read back by a decoder of JSON strings.
use imgx.Base.{
  ℕ, zero, suc, ◌+◌, ◌*◌, ◌/◌, ◌%◌, ◌<◌, Text, ◌||◌, Option, none, some, [], ◌∷◌, ◌++◌, ltb, ◌==◌,
  nat_eq, if◌then◌else◌, ◌≡◌, refl, arith, ap, ◌∙◌,
}
use imgx.Transform.Numbers.{digit}
use imgx.Http.Errors.{escape_char, json_escape, lower_hex}

abbrev cons : ℕ → Option Text → Option Text
cons b none = none
cons b (some s) = some (b ∷ s)

-- Where a decoder of JSON strings (RFC 8259, section 7) stands: outside an escape, after a
-- backslash, or before the last hexadecimal digits of a code below 256.
pub data Place : Type 0 where
  outside after_backslash : Place
  in_code : ℕ → ℕ → Place

-- the character of a short escape
abbrev short : ℕ → Option ℕ
short c =
    if c == b'"' || c == 92 || c == b'/'
    then some c
    else if c == b'n'
    then some 10
    else if c == b'r'
    then some 13
    else if c == b't'
    then some 9
    else if c == b'b'
    then some 8
    else if c == b'f'
    then some 12
    else none

unfoldable pub decode : Place → Text → Option Text
unfolding digit
decode Place.outside [] = some []
decode Place.after_backslash [] = none
decode (Place.in_code k n) [] = none
decode Place.outside (c ∷ s) =
    let plain = cons c (decode Place.outside s) in
    let escape = decode Place.after_backslash s in
    if c == b'"' || ltb c 0x20 then none else if c == 92 then escape else plain
decode Place.after_backslash (c ∷ s) =
    let code = decode (Place.in_code 3 0) s in
    let rest = decode Place.outside s in
    if c == b'u' then code else elim (short c) [ none ↦ none | some d ↦ cons d rest ]
decode (Place.in_code zero n) (c ∷ s) =
    let rest = decode Place.outside s in
    elim (digit 16 c) [ none ↦ none | some d ↦ cons (n * 16 + d) rest ]
decode (Place.in_code (suc k) n) (c ∷ s) = elim (digit 16 c) [
  | none ↦ none
  | some d ↦ decode (Place.in_code k (n * 16 + d)) s
]

digit-lower_hex : (n : ℕ) → n < 16 → digit 16 (lower_hex n) ≡ some n
unfolding digit lower_hex
digit-lower_hex n h = ground arith

decode-code :
    (c : ℕ) (t : Text)
    → c < 0x20
    → decode (Place.in_code 3 0) (b'0' ∷ b'0' ∷ lower_hex (c / 16) ∷ lower_hex (c % 16) ∷ t)
      ≡ cons c (decode Place.outside t)
unfolding decode
decode-code c t h =
    rw
      (
        decode,
        digit-lower_hex (c / 16) (omega arith),
        decode,
        digit-lower_hex (c % 16) (omega arith),
      )
      (ap (λ n. cons n (decode Place.outside t)) (omega arith))

decode-escape_char :
    (c : ℕ) (t : Text) → decode Place.outside (escape_char c ++ t) ≡ cons c (decode Place.outside t)
unfolding decode escape_char
decode-escape_char c t = ground (
  arith,
  nat_eq.agrees c b'"',
  nat_eq.agrees c 92,
  nat_eq.agrees c 10,
  nat_eq.agrees c 13,
  nat_eq.agrees c 9,
  decode-code c t,
)

-- The text between the quotes of `detail` is a JSON string, with no quote and no control character
-- that is not escaped, and the decoder reads the detail back from it.
pub decode-json_escape : (s : Text) → decode Place.outside (json_escape s) ≡ some s
unfolding json_escape decode
decode-json_escape [] = refl
decode-json_escape (c ∷ s) =
    decode-escape_char c (json_escape s) ∙ ap (cons c) (decode-json_escape s)
