-- ===== src/Tests/Decimals.antt =====
-- A stand-in for `f32`: numbers that are not negative, in hundredths.
use imgx.Base.{
  ℕ, ◌+◌, ◌*◌, ◌/◌, ◌%◌, ◌^◌, Text, false, Option, none, some, [], ◌∷◌, ◌++◌, ltb, leb, ◌==◌,
  nat_eq, if◌then◌else◌, split_once,
}
use imgx.Transform.Numbers.{parse_u32}
use imgx.Transform.Floats.{Floats}
use imgx.Transform.Print.{decimal}

abbrev hundredths : Text → Option ℕ
hundredths (a ∷ []) = elim (parse_u32 (a ∷ [])) [ none ↦ none | some n ↦ some (n * 10) ]
hundredths (a ∷ b ∷ []) = parse_u32 (a ∷ b ∷ [])
hundredths _ = none

abbrev whole : Text → Option ℕ
whole s = elim (parse_u32 s) [ none ↦ none | some n ↦ some (n * 100) ]

abbrev add : Option ℕ → Option ℕ → Option ℕ
add (some m) (some n) = some (m + n)
add _ _ = none

unfoldable pub parse_decimal : Text → Option ℕ
unfolding split_once parse_u32
parse_decimal s = elim (split_once b'.' s) [
  | none ↦ whole s
  | some (n, f) ↦ add (whole n) (hundredths f)
]

abbrev fixed_decimal : ℕ → ℕ → Text
fixed_decimal k n =
    decimal (n / 100)
    ++ (b'.' ∷ (decimal (n % 100 / 10) ++ (if k == 1 then [] else decimal (n % 10))))

abbrev pub decimals : Floats
decimals = record {
  F32 = ℕ;
  parse = parse_decimal;
  literal = λ n k. n * 100 / 10 ^ k;
  is_nan = λ n. false;
  is_infinite = λ n. false;
  eq = λ m n. m == n;
  le = leb;
  lt = ltb;
  mul = λ m n. m * n / 100;
  min = λ m n. if leb m n then m else n;
  of_u32 = λ n. n * 100;
  to_u32 = λ n. n / 100;
  fixed = fixed_decimal;
}
