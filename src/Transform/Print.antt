-- ===== src/Transform/Print.antt =====
-- How `format!` writes unsigned numbers and colours, as crates/imgx/src/transform/params.rs uses it.
pub mod RoundTrip
pub mod Colors
use imgx.Base.{ℕ, zero, suc, ◌+◌, ◌-◌, ◌/◌, ◌%◌, Text, [], ◌∷◌, ◌++◌, ltb, if◌then◌else◌}
use imgx.Transform.Numbers.{Rgb}

-- the digits of a number below `10 ^ fuel`
unfoldable pub digits : ℕ → ℕ → Text
digits zero n = []
digits (suc fuel) n =
    let rest = digits fuel (n / 10) in
    if ltb n 10 then (b'0' + n) ∷ [] else rest ++ (b'0' + n % 10) ∷ []

-- `{n}`, for any number of 64 bits
unfoldable pub decimal : ℕ → Text
unfolding digits
decimal n = digits 20 n

unfoldable pub hex_digit : ℕ → ℕ
hex_digit n = if ltb n 10 then b'0' + n else b'A' + (n - 10)

-- `{n:02X}`, for a byte
unfoldable pub hex_byte : ℕ → Text
unfolding hex_digit
hex_byte n = hex_digit (n / 16) ∷ hex_digit (n % 16) ∷ []

-- `{:02X}{:02X}{:02X}`
unfoldable pub hex_color : Rgb → Text
unfolding hex_byte
hex_color c = hex_byte c.r ++ hex_byte c.g ++ hex_byte c.b
