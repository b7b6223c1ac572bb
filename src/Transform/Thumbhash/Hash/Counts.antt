-- ===== src/Transform/Thumbhash/Hash/Counts.antt =====
-- How many terms the channels have.
use imgx.Base.{
  ℕ, ◌+◌, ◌≤◌, Bool, true, ◌&&◌, nat_eq, leb, ltb, if◌then◌else◌, passes_below, passes_below_at,
  ◌≡◌, ◌⊎◌, refl, arith, inl, inr,
}
use imgx.Transform.Thumbhash.Channels.{row_count, rows_count, ac_count}
use imgx.Transform.Thumbhash.Hash.{max_ℕ}

-- The number of luminance terms, with one side at its limit and the other one from 3 on.
abbrev pub is_between : ℕ → ℕ → ℕ → Bool
is_between lo hi n = leb lo n && leb n hi

abbrev pub sides_ok : ℕ → ℕ → ℕ → ℕ → Bool
sides_ok limit lo hi n =
    if ltb n 3
    then true
    else is_between lo hi (ac_count limit n) && is_between lo hi (ac_count n limit)

pub opaque_table : passes_below 8 (sides_ok 7 14 27) ≡ true
unfolding ac_count row_count rows_count
opaque_table = refl

pub alpha_table : passes_below 6 (sides_ok 5 10 14) ≡ true
unfolding ac_count row_count rows_count
alpha_table = refl

pub chroma_count : ac_count 3 3 ≡ 5
unfolding ac_count row_count rows_count
chroma_count = refl

pub alpha_count : ac_count 5 5 ≡ 14
unfolding ac_count row_count rows_count
alpha_count = refl

sides_ok_sound :
    (limit lo hi n : ℕ)
    → sides_ok limit lo hi n ≡ true
    → 3 ≤ n
    → ((lo ≤ ac_count limit n) × (ac_count limit n ≤ hi))
      × ((lo ≤ ac_count n limit) × (ac_count n limit ≤ hi))
sides_ok_sound limit lo hi n passed h = ground arith

-- A side at its limit gives a count between the bounds, whatever the other side.
pub sides_count :
    (limit lo hi lx ly : ℕ)
    → 3 ≤ limit
    → passes_below (limit + 1) (sides_ok limit lo hi) ≡ true
    → lx ≤ limit
    → ly ≤ limit
    → (lx ≡ limit) ⊎ (ly ≡ limit)
    → (lo ≤ ac_count (max_ℕ lx 3) (max_ℕ ly 3)) × (ac_count (max_ℕ lx 3) (max_ℕ ly 3) ≤ hi)
sides_count limit lo hi lx ly three table h k (inl e) =
    let same : max_ℕ lx 3 ≡ limit = ground arith in
    let passed =
      passes_below_at (limit + 1) (sides_ok limit lo hi) (max_ℕ ly 3) table (ground arith) in
    rw same (sides_ok_sound limit lo hi (max_ℕ ly 3) passed (ground arith)).0
sides_count limit lo hi lx ly three table h k (inr e) =
    let same : max_ℕ ly 3 ≡ limit = ground arith in
    let passed =
      passes_below_at (limit + 1) (sides_ok limit lo hi) (max_ℕ lx 3) table (ground arith) in
    rw same (sides_ok_sound limit lo hi (max_ℕ lx 3) passed (ground arith)).1
