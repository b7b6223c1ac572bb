-- ===== src/Transform/Print/Colors.antt =====
-- A colour is read back from the six digits that it is written as.
use imgx.Base.{ℕ, ◌+◌, ◌*◌, ◌/◌, ◌%◌, ◌≤◌, ◌<◌, [], ◌∷◌, ◌≡◌, refl, arith, some, ok, ap, ◌∙◌}
use imgx.Transform.Numbers.{
  Rgb, digit, parse_digits, from_str_radix, parse_hex_color, hex_pair, slice_two, is_char_boundary,
}
use imgx.Transform.Numbers.Bounds.{IsRgb}
use imgx.Transform.Print.{hex_digit, hex_byte, hex_color}

digit-hex_digit : (n : ℕ) → n < 16 → digit 16 (hex_digit n) ≡ some n
unfolding digit hex_digit
digit-hex_digit n h = ground arith

hex_digit-ascii : (n : ℕ) → n < 16 → (b'0' ≤ hex_digit n) × (hex_digit n < 0x80)
unfolding hex_digit
hex_digit-ascii n h = ground arith

from_str_radix-two :
    (x y m n : ℕ)
    → b'0' ≤ x
    → digit 16 x ≡ some m
    → digit 16 y ≡ some n
    → m * 16 + n < 256
    → from_str_radix 16 256 (x ∷ y ∷ []) ≡ some (m * 16 + n)
unfolding from_str_radix parse_digits
from_str_radix-two x y m n low p q h = ground (arith, p, q)

boundaries :
    (a b c d e f : ℕ)
    → a < 0x80
    → c < 0x80
    → e < 0x80
    → (slice_two (a ∷ b ∷ c ∷ d ∷ e ∷ f ∷ []) 0 ≡ ok (a ∷ b ∷ []))
      × (slice_two (a ∷ b ∷ c ∷ d ∷ e ∷ f ∷ []) 2 ≡ ok (c ∷ d ∷ []))
      × (slice_two (a ∷ b ∷ c ∷ d ∷ e ∷ f ∷ []) 4 ≡ ok (e ∷ f ∷ []))
unfolding slice_two is_char_boundary
boundaries a b c d e f h k l = ground arith

from_str_radix-hex_byte : (n : ℕ) → n < 256 → from_str_radix 16 256 (hex_byte n) ≡ some n
unfolding hex_byte
from_str_radix-hex_byte n h =
    from_str_radix-two (hex_digit (n / 16)) (hex_digit (n % 16)) (n / 16) (n % 16)
      (hex_digit-ascii (n / 16) (omega arith)).0 (digit-hex_digit (n / 16) (omega arith))
      (digit-hex_digit (n % 16) (omega arith)) (omega arith)
    ∙ ap some (omega arith)

-- A colour of three bytes is read back from the six digits that it is written as.
pub parse_hex_color-hex_color : (c : Rgb) → IsRgb c → parse_hex_color (hex_color c) ≡ ok (some c)
unfolding parse_hex_color hex_color hex_pair hex_byte
parse_hex_color-hex_color c h =
    let (p, q, r') =
      boundaries (hex_digit (c.r / 16)) (hex_digit (c.r % 16)) (hex_digit (c.g / 16))
        (hex_digit (c.g % 16)) (hex_digit (c.b / 16)) (hex_digit (c.b % 16))
        (hex_digit-ascii (c.r / 16) (omega (arith, h.red))).1
        (hex_digit-ascii (c.g / 16) (omega (arith, h.green))).1
        (hex_digit-ascii (c.b / 16) (omega (arith, h.blue))).1 in
    rw
      (
        p,
        from_str_radix-hex_byte c.r h.red,
        q,
        from_str_radix-hex_byte c.g h.green,
        r',
        from_str_radix-hex_byte c.b h.blue,
      )
      refl
