-- ===== src/Transform/Print/RoundTrip.antt =====
-- Numbers and colours are read back from what they are written as.
use imgx.Base.{
  ℕ, zero, suc, ◌+◌, ◌*◌, ◌/◌, ◌%◌, ◌^◌, ◌≤◌, ◌<◌, Text, [], ◌∷◌, ◌++◌, ltb, ◌≡◌, refl, ◌∙◌, arith,
  Option, none, some, Bool-cases, inl, inr, Option-cases, All, ◌≢◌, lt→ltb, ltb→lt,
}
use native.Mathlib.Numerals.{unary_clauses}
use imgx.Transform.Numbers.{digit, parse_digits, from_str_radix, parse_u32}
use imgx.Transform.Print.{digits, decimal}

digit-decimal : (d : ℕ) → d < 10 → digit 10 (b'0' + d) ≡ some d
unfolding digit
digit-decimal d h = ground (arith)

abbrev and_then : Option ℕ → (ℕ → Option ℕ) → Option ℕ
and_then none f = none
and_then (some a) f = f a

parse_digits-append :
    (radix bound acc : ℕ) (s t : Text)
    → parse_digits radix bound acc (s ++ t)
      ≡ and_then (parse_digits radix bound acc s) (λ a. parse_digits radix bound a t)
unfolding parse_digits
parse_digits-append radix bound acc [] t = refl
parse_digits-append radix bound acc (b ∷ s) t = elim (Option-cases (digit radix b)) [
  | inl bad ↦ rw (bad, parse_digits) refl
  | inr (d, good) ↦
      rw (good, parse_digits)
        (elim (Bool-cases (ltb (acc * radix + d) bound)) [
          | inl small ↦ rw small (parse_digits-append radix bound (acc * radix + d) s t)
          | inr big ↦ rw big refl
        ])
]

parse_digits-one :
    (bound acc d n : ℕ)
    → d < 10
    → acc * 10 + d ≡ n
    → n < bound
    → parse_digits 10 bound acc ((b'0' + d) ∷ []) ≡ some n
unfolding parse_digits
parse_digits-one bound acc d n h e k = rw (digit-decimal d h, parse_digits) (ground arith)

pow_suc : (n : ℕ) → 10 ^ suc n ≡ 10 * 10 ^ n
pow_suc n = simp unary_clauses (omega arith)

parse_digits-digits :
    (bound fuel n : ℕ)
    → n < 10 ^ suc fuel
    → n < bound
    → parse_digits 10 bound 0 (digits (suc fuel) n) ≡ some n
unfolding digits
parse_digits-digits bound zero n h k =
    rw (lt→ltb n 10 (omega (arith, h)))
      (parse_digits-one bound 0 n n (omega (arith, h)) (omega arith) k)
parse_digits-digits bound (suc fuel) n h k = elim (Bool-cases (ltb n 10)) [
  | inl one ↦ rw one (parse_digits-one bound 0 n n (ltb→lt n 10 one) (omega arith) k)
  | inr more ↦
      let ih =
        parse_digits-digits bound fuel (n / 10) (omega (arith, pow_suc (suc fuel))) (omega arith) in
      rw (more, parse_digits-append, ih)
        (parse_digits-one bound (n / 10) (n % 10) n (omega arith) (omega arith) k)
]

abbrev pub IsDigit : ℕ → Type 0
IsDigit b = (b'0' ≤ b) × (b ≤ b'9')

All-append : (P : ℕ → Type 0) (s t : Text) → All P s → All P t → All P (s ++ t)
All-append P [] t h k = k
All-append P (b ∷ s) t (h, hs) k = (h, All-append P s t hs k)

pub digits-IsDigit : (fuel n : ℕ) → All IsDigit (digits fuel n)
unfolding digits
digits-IsDigit zero n = tt
digits-IsDigit (suc fuel) n = elim (Bool-cases (ltb n 10)) [
  | inl one ↦ rw one ((omega arith, omega (arith, ltb→lt n 10 one)), tt)
  | inr more ↦ rw more (
      All-append IsDigit (digits fuel (n / 10)) _ (digits-IsDigit fuel (n / 10))
        ((omega arith, omega arith), tt))
]

digits-nonempty : (fuel n : ℕ) → digits (suc fuel) n ≢ []
unfolding digits
digits-nonempty fuel n = elim (Bool-cases (ltb n 10)) [
  | inl one ↦ rw one (λ h. cc)
  | inr more ↦ rw more (snoc _ (digits fuel (n / 10)))
]
  where
    snoc : (b : ℕ) (s : Text) → s ++ b ∷ [] ≢ []
    snoc b [] h = cc
    snoc b (c ∷ s) h = cc

from_str_radix-digits :
    (radix bound : ℕ) (s : Text)
    → s ≢ []
    → All IsDigit s
    → from_str_radix radix bound s ≡ parse_digits radix bound 0 s
unfolding from_str_radix
from_str_radix-digits radix bound [] h k = absurd (h refl)
from_str_radix-digits radix bound (b ∷ []) h k = ground arith
from_str_radix-digits radix bound (b ∷ c ∷ s) h k = ground arith

-- A number of 32 bits is read back from its decimal digits.
pub parse_u32-decimal : (n : ℕ) → n < 2 ^ 32 → parse_u32 (decimal n) ≡ some n
unfolding parse_u32 decimal
parse_u32-decimal n h =
    from_str_radix-digits 10 (2 ^ 32) (digits 20 n) (digits-nonempty 19 n) (digits-IsDigit 20 n)
    ∙ parse_digits-digits (2 ^ 32) 19 n (omega arith) h
