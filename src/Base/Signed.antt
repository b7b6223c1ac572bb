-- ===== src/Base/Signed.antt =====
-- Signed integers over the native numbers, and the arithmetic of `i32` as a release build does it.
use Prim.Native.Nat.{ℕ, suc, ◌+◌, ◌-◌, ◌*◌, ◌/◌, ◌%◌, ◌^◌, ◌≤◌}
use mathlib.Core.Bool.{Bool}
use imgx.Base.Numbers.{ℤ, pos, negsuc}
use imgx.Base.Tests.{ltb, leb, if◌then◌else◌}

abbrev pub pos_part : ℤ → ℕ
pos_part (pos n) = n
pos_part (negsuc n) = 0

abbrev pub neg_part : ℤ → ℕ
neg_part (pos n) = 0
neg_part (negsuc n) = suc n

-- a - b, as an integer
abbrev pub sub_ℕ : ℕ → ℕ → ℤ
sub_ℕ a b = if leb b a then pos (a - b) else negsuc (b - a - 1)

infix 50 ◌≤ℤ◌
abbrev pub ◌≤ℤ◌ : ℤ → ℤ → Type 0
a ≤ℤ b = pos_part a + neg_part b ≤ pos_part b + neg_part a

abbrev pub ltb_ℤ : ℤ → ℤ → Bool
ltb_ℤ a b = ltb (pos_part a + neg_part b) (pos_part b + neg_part a)

abbrev pub leb_ℤ : ℤ → ℤ → Bool
leb_ℤ a b = leb (pos_part a + neg_part b) (pos_part b + neg_part a)

-- the 32-bit integer with the same remainder by 2 ^ 32
abbrev signed : ℕ → ℤ
signed m = if ltb m (2 ^ 31) then pos m else negsuc (2 ^ 32 - m - 1)

-- `x as i32` of a wider integer, and what `+`, `-` and `*` give after an overflow
unfoldable pub wrap_i32 : ℤ → ℤ
wrap_i32 (pos n) = signed (n % 2 ^ 32)
wrap_i32 (negsuc n) = signed (2 ^ 32 - 1 - n % 2 ^ 32)

unfoldable pub add_i32 : ℤ → ℤ → ℤ
unfolding wrap_i32
add_i32 a b = wrap_i32 (sub_ℕ (pos_part a + pos_part b) (neg_part a + neg_part b))

unfoldable pub sub_i32 : ℤ → ℤ → ℤ
unfolding wrap_i32
sub_i32 a b = wrap_i32 (sub_ℕ (pos_part a + neg_part b) (neg_part a + pos_part b))

unfoldable pub mul_i32 : ℤ → ℤ → ℤ
unfolding wrap_i32
mul_i32 a b = wrap_i32 (
    sub_ℕ (pos_part a * pos_part b + neg_part a * neg_part b)
      (pos_part a * neg_part b + neg_part a * pos_part b))

-- `a / b`, rounded to 0, for a divisor that is not 0
unfoldable pub div_i32 : ℤ → ℤ → ℤ
div_i32 (pos a) (pos b) = pos (a / b)
div_i32 (pos a) (negsuc b) = sub_ℕ 0 (a / suc b)
div_i32 (negsuc a) (pos b) = sub_ℕ 0 (suc a / b)
div_i32 (negsuc a) (negsuc b) = pos (suc a / suc b)

abbrev pub min_i32 : ℤ → ℤ → ℤ
min_i32 a b = if leb_ℤ a b then a else b

abbrev pub max_i32 : ℤ → ℤ → ℤ
max_i32 a b = if leb_ℤ a b then b else a

-- `x.clamp(lo, hi)`, where `lo` is at most `hi`
abbrev pub clamp_i32 : ℤ → ℤ → ℤ → ℤ
clamp_i32 x lo hi = if ltb_ℤ x lo then lo else if ltb_ℤ hi x then hi else x

-- `x as u32` and `x as u64`
abbrev pub as_u32 : ℤ → ℕ
as_u32 (pos n) = n
as_u32 (negsuc n) = 2 ^ 32 - 1 - n

abbrev pub as_u64 : ℤ → ℕ
as_u64 (pos n) = n
as_u64 (negsuc n) = 2 ^ 64 - 1 - n
