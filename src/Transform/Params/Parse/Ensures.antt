-- ===== src/Transform/Params/Parse/Ensures.antt =====
-- Postconditions of parsers that can fail.
use imgx.Base.{
  ℕ, ◌≤◌, ◌<◌, ◌^◌, Text, bytes, match_str, String, Option, none, some, List, [], ◌∷◌, ◌≡◌, refl,
  arith, Result, ok, err, ok_or, ◌>>=◌, Option-cases, Bool-cases, inl, inr, ◌==◌, text_eq,
}
use imgx.Transform.Numbers.{Fault, error, Rgb, parse_u32, parse_quality, parse_hex_color}
use imgx.Transform.Numbers.Bounds.{IsRgb, parse_u32-lt, parse_quality-le, parse_hex_color-IsRgb}
use imgx.Transform.Options.{ParseError}
use imgx.Transform.Params.Parse.{color_or}

abbrev pub IsOpt : {A : Type 0} → (A → Type 0) → Option A → Type 0
IsOpt P none = Unit
IsOpt P (some a) = P a

abbrev pub IsU32 : ℕ → Type 0
IsU32 n = n < 2 ^ 32

-- A postcondition of a parser that can fail.
abbrev pub Ensures : {A : Type 0} → (A → Type 0) → Result Fault A → Type 0
Ensures P (ok a) = P a
Ensures P (err e) = Unit

abbrev pub AllArms : {A : Type 0} → (A → Type 0) → List (String × Result Fault A) → Type 0
AllArms P [] = Unit
AllArms P ((lit, m) ∷ arms) = Ensures P m × AllArms P arms

pub Ensures-match_str :
    {A : Type 0} (P : A → Type 0) (s : Text) (arms : List (String × Result Fault A))
    (d : Result Fault A)
    → AllArms P arms
    → Ensures P d
    → Ensures P (match_str s arms d)
unfolding match_str
Ensures-match_str P s [] d h k = k
Ensures-match_str P s ((lit, m) ∷ arms) d (h, hs) k = elim (Bool-cases (s == bytes lit)) [
  | inl same ↦ rw same h
  | inr other ↦ rw other (Ensures-match_str P s arms d hs k)
]

pub Ensures-bind :
    {A B : Type 0} (Q : A → Type 0) (P : B → Type 0) (m : Result Fault A) (f : A → Result Fault B)
    → Ensures Q m
    → ((a : A) → Q a → Ensures P (f a))
    → Ensures P (m >>= f)
Ensures-bind Q P (ok a) f h k = k a h
Ensures-bind Q P (err e) f h k = tt

pub Ensures-any : {A : Type 0} (m : Result Fault A) → Ensures (λ _. Unit) m
Ensures-any (ok a) = tt
Ensures-any (err e) = tt

Ensures-of_ok :
    {A : Type 0} (P : A → Type 0) (m : Result Fault A) → ((a : A) → m ≡ ok a → P a) → Ensures P m
Ensures-of_ok P (ok a) h = h a refl
Ensures-of_ok P (err e) h = tt

pub IsU32-Ensures : (s : Text) (e : ParseError) → Ensures IsU32 (ok_or (parse_u32 s) (error e))
IsU32-Ensures s e =
    Ensures-of_ok IsU32 (ok_or (parse_u32 s) (error e)) (λ n h. parse_u32-lt s n (of_ok n h))
  where
    of_ok : (n : ℕ) → ok_or (parse_u32 s) (error e) ≡ ok n → parse_u32 s ≡ some n
    of_ok n h = ground (arith, Option-cases (parse_u32 s))

pub quality-Ensures : (s : Text) → Ensures (λ n. n ≤ 255) (parse_quality s)
quality-Ensures s = Ensures-of_ok (λ n. n ≤ 255) (parse_quality s) (parse_quality-le s)

pub color-Ensures : (s : Text) (e : ParseError) → Ensures IsRgb (color_or (parse_hex_color s) e)
color-Ensures s e =
    Ensures-of_ok IsRgb (color_or (parse_hex_color s) e)
      (λ c h. (parse_hex_color-IsRgb s c (of_ok (parse_hex_color s) c h)).0)
  where
    of_ok : (m : Result Fault (Option Rgb)) (c : Rgb) → color_or m e ≡ ok c → m ≡ ok (some c)
    of_ok (ok none) c h = cc
    of_ok (ok (some c')) c h = cc
    of_ok (err f) c h = cc

-- A bind whose result does not depend on what is bound.
pub any :
    {A B : Type 0} (P : B → Type 0) (m : Result Fault A) (f : A → B)
    → ((a : A) → P (f a))
    → Ensures P (m >>= λ a. ok (f a))
any P m f k = Ensures-bind (λ _. Unit) P m (λ a. ok (f a)) (Ensures-any m) (λ a _. k a)

infixr 3 ◌&◌
abbrev pub ◌&◌ : {A B : Type 0} → A → B → A × B
a & b = (a, b)
