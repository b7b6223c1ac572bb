-- ===== src/Transform/Numbers/Bounds.antt =====
-- The ranges of the parsed numbers.
use imgx.Base.{
  ℕ, ◌+◌, ◌*◌, ◌≤◌, ◌<◌, ◌^◌, Text, Option, none, some, [], ◌∷◌, ◌≡◌, refl, subst, arith, length,
  Result, ok, err, Option-cases, Bool-cases, Result-cases, inl, inr, ◌==◌, nat_eq,
}
use imgx.Transform.Numbers.{
  Fault, digit, parse_digits, from_str_radix, parse_u32, parse_quality_number, parse_quality, Rgb,
  slice_two, hex_pair, parse_hex_color, ◌>>=?◌,
}

parse_digits-lt :
    (radix bound acc : ℕ) (s : Text) (n : ℕ)
    → acc < bound
    → parse_digits radix bound acc s ≡ some n
    → n < bound
unfolding parse_digits
parse_digits-lt radix bound acc [] n h e = ground arith
parse_digits-lt radix bound acc (b ∷ s) n h e = elim (Option-cases (digit radix b)) [
  | inl bad ↦ absurd (ground (arith, bad))
  | inr (d, good) ↦ ground (arith, good, parse_digits-lt radix bound (acc * radix + d) s n)
]

pub from_str_radix-lt :
    (radix bound : ℕ) (s : Text) (n : ℕ)
    → 0 < bound
    → from_str_radix radix bound s ≡ some n
    → n < bound
unfolding from_str_radix
from_str_radix-lt radix bound [] n p h = cc
from_str_radix-lt radix bound (b ∷ []) n p h =
    ground (arith, parse_digits-lt radix bound 0 (b ∷ []) n)
from_str_radix-lt radix bound (b ∷ c ∷ s) n p h =
    ground
      (arith, parse_digits-lt radix bound 0 (c ∷ s) n, parse_digits-lt radix bound 0 (b ∷ c ∷ s) n)

pub parse_u32-lt : (s : Text) (n : ℕ) → parse_u32 s ≡ some n → n < 2 ^ 32
unfolding parse_u32
parse_u32-lt s n h = from_str_radix-lt 10 (2 ^ 32) s n (omega arith) h

parse_quality_number-le : (s : Text) (n : ℕ) → parse_quality_number s ≡ ok n → n ≤ 255
unfolding parse_quality_number
parse_quality_number-le s n h = ground (arith, Option-cases (parse_u32 s))

pub parse_quality-le : (s : Text) (n : ℕ) → parse_quality s ≡ ok n → n ≤ 255
unfolding parse_quality
parse_quality-le s n h = ground (arith, parse_quality_number-le s n)

hex_pair-lt : (s : Text) (i n : ℕ) → hex_pair s i ≡ ok (some n) → n < 256
unfolding hex_pair
hex_pair-lt s i n h = elim (Result-cases (slice_two s i)) [
  | inl (t, cut) ↦ from_str_radix-lt 16 256 t n (omega arith) (ground (arith, cut))
  | inr (e, bad) ↦ absurd (ground (arith, bad))
]

pub record IsRgb (c : Rgb) : Type 0 where
  pub red : c.r < 256
  pub green : c.g < 256
  pub blue : c.b < 256

>>=?-eq-some :
    {A B : Type 0} (m : Result Fault (Option A)) (f : A → Result Fault (Option B)) {b : B}
    → (m >>=? f) ≡ ok (some b)
    → (a : A) × (m ≡ ok (some a)) × (f a ≡ ok (some b))
>>=?-eq-some (ok none) f h = cc
>>=?-eq-some (ok (some a)) f h = (a, refl, h)
>>=?-eq-some (err e) f h = cc

-- A colour that is read has three components of a byte, from a text of six bytes.
pub parse_hex_color-IsRgb :
    (s : Text) (c : Rgb) → parse_hex_color s ≡ ok (some c) → IsRgb c × (length s ≡ 6)
unfolding parse_hex_color
parse_hex_color-IsRgb s c h = elim (Bool-cases (length s == 6)) [
  | inl six ↦
      let h' = rw (six, parse_hex_color) at h in
      let (r, hr, h₁) = >>=?-eq-some (hex_pair s 0) _ h' in
      let (g, hg, h₂) = >>=?-eq-some (hex_pair s 2) _ h₁ in
      let (b, hb, h₃) = >>=?-eq-some (hex_pair s 4) _ h₂ in
      let whole : record { r = r; g = g; b = b } ≡ c = cc in
      (
        subst IsRgb whole (record {
          red = hex_pair-lt s 0 r hr;
          green = hex_pair-lt s 2 g hg;
          blue = hex_pair-lt s 4 b hb;
        }),
        (nat_eq.agrees (length s) 6).0 six,
      )
  | inr other ↦ absurd (ground (arith, other))
]
