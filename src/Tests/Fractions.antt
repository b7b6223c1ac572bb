-- ===== src/Tests/Fractions.antt =====
-- A stand-in for `f64`: numbers that are not negative, in ten-thousandths, over the stand-in for `f32`.
use native.Mathlib.Nat.{mul-le-mul_left, mul-div_cancel, le-div_iff_mul-le}
use imgx.Base.{
  ℕ, ◌+◌, ◌*◌, ◌-◌, ◌/◌, ◌^◌, ◌≤◌, ltb, leb, ◌==◌, nat_eq, pos, pos_part, if◌then◌else◌, ◌≡◌, ap,
  ◌∙◌, arith,
}
use imgx.Tests.Decimals.{decimals}
use imgx.Transform.Thumbhash.{round_to_u32}
use imgx.Transform.Thumbhash.Hash.Size.{IsRounded}
use imgx.Transform.Vips.{Doubles}

abbrev pub fractions : Doubles decimals
fractions = record {
  F64 = ℕ;
  of_f32 = λ n. n * 100;
  of_i32 = λ z. pos_part z * 10000;
  of_u64 = λ n. n * 10000;
  literal = λ n k. n * 10000 / 10 ^ k;
  add = λ m n. m + n;
  sub = λ m n. m - n;
  mul = λ m n. m * n / 10000;
  div = λ m n. m * 10000 / n;
  max = λ m n. if leb m n then n else m;
  min = λ m n. if leb m n then m else n;
  ceil = λ n. (n + 9999) / 10000 * 10000;
  round = λ n. (n + 5000) / 10000 * 10000;
  abs = λ n. n;
  cos = λ n. 10000 - n * n / 20000;
  pi = 31416;
  eq = λ m n. m == n;
  lt = ltb;
  to_i32 = λ n. pos (n / 10000);
  to_u32 = λ n. n / 10000;
  round_f32 = λ n. (n + 50) / 100 * 100;
  max_f32 = λ m n. if leb m n then n else m;
  f32_to_i32 = λ n. pos (n / 100);
}

-- `m * k / n` in ten-thousandths
abbrev quotient : ℕ → ℕ → ℕ → ℕ
quotient m k n = m * 10000 / 1 * (k * 10000) / 10000 * 10000 / (n * 10000)

product : (m k : ℕ) → m * 10000 / 1 * (k * 10000) / 10000 * 10000 ≡ m * k * 100000000
product m k = let whole : m * 10000 / 1 ≡ m * 10000 = omega arith in rw whole (omega arith)

quotient_le : (m k n : ℕ) → k ≤ n → 1 ≤ n → quotient m k n ≤ m * 10000
quotient_le m k n h j =
    let few : m * k ≤ m * n = mul-le-mul_left m h in
    let (to, from) =
      le-div_iff_mul-le {k = n * 10000} {x = m * 10000 + 1}
        {y = m * 10000 / 1 * (k * 10000) / 10000 * 10000} (omega arith) in
    ground (arith, to, few, product m k)

quotient_eq : (m n : ℕ) → 1 ≤ n → quotient m n n ≡ m * 10000
quotient_eq m n j =
    ap (λ x. x / (n * 10000)) (product m n ∙ omega arith)
    ∙ mul-div_cancel (m * 10000) {n = n * 10000} (omega arith)

rounded_le : (m k n : ℕ) → k ≤ n → 1 ≤ n → (quotient m k n + 5000) / 10000 * 10000 / 10000 ≤ m
rounded_le m k n h j = let q : quotient m k n ≤ m * 10000 = quotient_le m k n h j in omega arith

rounded_eq : (m n : ℕ) → 1 ≤ n → (quotient m n n + 5000) / 10000 * 10000 / 10000 ≡ m
rounded_eq m n j = rw (quotient_eq m n j) (omega arith)

pub fractions-IsRounded : IsRounded fractions
unfolding round_to_u32
fractions-IsRounded = record {
  at_most = λ m k n a b c e. rounded_le m k n c (omega arith);
  exact = λ m n a b c. rounded_eq m n b;
}
