-- ===== src/Transform/Pipeline/Crops/Sides.antt =====
-- The window that the trims of the sides leave.
use imgx.Base.{
  ℕ, ◌+◌, ◌-◌, ◌^◌, ◌≤◌, ◌<◌, ℤ, pos, negsuc, ◌≤ℤ◌, pos_part, ltb, max_i32, clamp_i32, sub_i32,
  wrap_i32, if◌then◌else◌, ◌≡◌, ◌↔◌, refl, arith,
}
use imgx.Transform.Floats.{Floats}
use imgx.Transform.Params.{TransformParams}
use imgx.Transform.Pipeline.Crops.{Window, resolve_trim, side_window}
use imgx.Transform.Vips.{Doubles}

-- a clamped number, as a natural one
abbrev clamped : ℤ → ℕ → ℕ
clamped x hi = if ltb hi (pos_part x) then hi else pos_part x

clamp-clamped : (x : ℤ) (hi : ℕ) → clamp_i32 x (pos 0) (pos hi) ≡ pos (clamped x hi)
clamp-clamped (pos n) hi = ground arith
clamp-clamped (negsuc n) hi = ground arith

-- What is left of a side between two cuts, and at least one pixel.
side_left :
    (n a b : ℕ)
    → n < 2 ^ 31
    → a ≤ n
    → b ≤ n
    → max_i32 (sub_i32 (sub_i32 (pos n) (pos a)) (pos b)) (pos 1)
      ≡ pos (if ltb (a + b) n then n - a - b else 1)
unfolding sub_i32 wrap_i32
side_left n a b h j k = ground arith

abbrev pub left_over : ℕ → ℕ → ℕ → ℕ
left_over n a b = if ltb (a + b) n then n - a - b else 1

-- The window lies in a `w` by `h` image.
abbrev pub IsInside : ℕ → ℕ → Window → Type 0
IsInside w h win =
    (pos 0 ≤ℤ win.left)
    × (pos 0 ≤ℤ win.top)
    × (pos_part win.left + pos_part win.width ≤ w)
    × (pos_part win.top + pos_part win.height ≤ h)

clamped-le : (x : ℤ) (hi : ℕ) → clamped x hi ≤ hi
clamped-le x hi = ground arith

inside_iff : (n a b : ℕ) → a ≤ n → b ≤ n → (a + left_over n a b ≤ n) ↔ (a < n)
inside_iff n a b h k = (λ i. ground arith, λ i. ground arith)

module _ {fl : Floats} (d : Doubles fl) (tp : TransformParams fl) (w h : ℕ) where
  -- the pixels that are cut off at each side
  abbrev pub cut_left : ℕ
  cut_left = clamped (resolve_trim d tp.trim_left (pos w)) w

  abbrev pub cut_right : ℕ
  cut_right = clamped (resolve_trim d tp.trim_right (pos w)) w

  abbrev pub cut_top : ℕ
  cut_top = clamped (resolve_trim d tp.trim_top (pos h)) h

  abbrev pub cut_bottom : ℕ
  cut_bottom = clamped (resolve_trim d tp.trim_bottom (pos h)) h

  le_left : cut_left ≤ w
  le_left = clamped-le (resolve_trim d tp.trim_left (pos w)) w

  le_right : cut_right ≤ w
  le_right = clamped-le (resolve_trim d tp.trim_right (pos w)) w

  le_top : cut_top ≤ h
  le_top = clamped-le (resolve_trim d tp.trim_top (pos h)) h

  le_bottom : cut_bottom ≤ h
  le_bottom = clamped-le (resolve_trim d tp.trim_bottom (pos h)) h

  abbrev pub window : Window
  window = record {
    left = pos cut_left;
    top = pos cut_top;
    width = pos (left_over w cut_left cut_right);
    height = pos (left_over h cut_top cut_bottom);
  }

  side_window-eq : w < 2 ^ 31 → h < 2 ^ 31 → side_window d tp (pos w) (pos h) ≡ window
  unfolding side_window
  side_window-eq j k =
      rw
        (
          clamp-clamped (resolve_trim d tp.trim_left (pos w)) w,
          clamp-clamped (resolve_trim d tp.trim_right (pos w)) w,
          clamp-clamped (resolve_trim d tp.trim_top (pos h)) h,
          clamp-clamped (resolve_trim d tp.trim_bottom (pos h)) h,
          side_left w cut_left cut_right j le_left le_right,
          side_left h cut_top cut_bottom k le_top le_bottom,
        )
        refl

  -- For an image of any size, each side is cut by its trim, at most by the whole side, and at least one
  -- pixel of width and height is asked for. The window lies in the image exactly if the trim at the left
  -- is less than the width and the trim at the top less than the height.
  pub side_window_lem :
      w < 2 ^ 31
      → h < 2 ^ 31
      → (side_window d tp (pos w) (pos h) ≡ window)
        × (IsInside w h (side_window d tp (pos w) (pos h)) ↔ ((cut_left < w) × (cut_top < h)))
  side_window_lem j k =
      let same = side_window-eq j k in
      let (a, b) = inside_iff w cut_left cut_right le_left le_right in
      let (e, f) = inside_iff h cut_top cut_bottom le_top le_bottom in
      (same, rw same (λ (p, q, x, y). (a x, e y), λ (x, y). (omega arith, omega arith, b x, f y)))
