-- ===== src/Transform/Thumbhash/Channels.antt =====
-- How many coefficients a channel has, and that the loops end by their tests.
use imgx.Base.{
  ℕ, zero, suc, ◌+◌, ◌-◌, ◌*◌, ◌≤◌, ◌<◌, Bool, true, false, ◌||◌, List, [], ◌∷◌, ltb, if◌then◌else◌,
  length, length-append, map, ◌≡◌, refl, ap, ◌∙◌, arith, Bool-cases, inl, inr, ◌⊎◌,
}
use imgx.Transform.Floats.{Floats}
use imgx.Transform.Thumbhash.{int, Channel, add_term, row, rows, encode_channel}
use imgx.Transform.Vips.{Doubles}

ℕ-cases : (n : ℕ) → (n ≡ 0) ⊎ ((m : ℕ) × (n ≡ suc m))
ℕ-cases zero = inl refl
ℕ-cases (suc n) = inr (n, refl)

-- the rounds of the loop over cx in row `cy`, with fuel
unfoldable pub row_count : ℕ → ℕ → ℕ → ℕ → ℕ → ℕ
row_count zero nx ny cy cx = 0
row_count (suc fuel) nx ny cy cx =
    let rest = row_count fuel nx ny cy (cx + 1) in
    if ltb (cx * ny) (nx * (ny - cy)) then suc rest else 0

unfoldable pub rows_count : ℕ → ℕ → ℕ → ℕ → ℕ
unfolding row_count
rows_count zero nx ny cy = 0
rows_count (suc n) nx ny cy = row_count (suc nx) nx ny cy 0 + rows_count n nx ny (cy + 1)

-- The test fails at the latest when cx is nx.
row_stops : (nx ny cy cx : ℕ) → nx ≤ cx → ltb (cx * ny) (nx * (ny - cy)) ≡ false
row_stops nx ny cy cx h =
    let small : nx * (ny - cy) ≤ nx * ny = grind arith in
    let large : nx * ny ≤ cx * ny = grind arith in ground (arith, small, large)

module _ {fl : Floats} (d : Doubles fl) (channel : List d.F64) (w h nx ny : ℕ) where
  -- The loop ends by its test: any two amounts of fuel above the number of coefficients that are left
  -- give the same channel.
  pub row_fuel :
      (f g cy cx : ℕ) (c : Channel d)
      → nx < cx + f
      → nx < cx + g
      → row d channel w h nx ny f cy cx c ≡ row d channel w h nx ny g cy cx c
  unfolding row
  row_fuel zero zero cy cx c j k = refl
  row_fuel zero (suc g) cy cx c j k = rw (row_stops nx ny cy cx (omega arith)) refl
  row_fuel (suc f) zero cy cx c j k = rw (row_stops nx ny cy cx (omega arith)) refl
  row_fuel (suc f) (suc g) cy cx c j k = elim (Bool-cases (ltb (cx * ny) (nx * (ny - cy)))) [
    | inr stop ↦ rw stop refl
    | inl continue ↦ rw continue (row_fuel f g cy (cx + 1) _ (omega arith) (omega arith))
  ]

  length-add_term :
      (cx cy : ℕ) (f : d.F64) (c : Channel d)
      → 0 < cx + cy
      → length (add_term d cx cy f c).ac ≡ length c.ac + 1
  unfolding add_term
  length-add_term cx cy f c k =
      let later : (ltb 0 cx || ltb 0 cy) ≡ true = ground arith in
      rw later (length-append c.ac (f ∷ []))

  length-row :
      (f cy cx : ℕ) (c : Channel d)
      → 0 < cx + cy
      → length (row d channel w h nx ny f cy cx c).ac ≡ length c.ac + row_count f nx ny cy cx
  unfolding row row_count
  length-row zero cy cx c k = omega arith
  length-row (suc f) cy cx c k = elim (Bool-cases (ltb (cx * ny) (nx * (ny - cy)))) [
    | inr stop ↦ rw stop (omega arith)
    | inl continue ↦
        rw continue
          (omega (arith, length-row f cy (cx + 1) _ (omega arith), length-add_term cx cy _ c k))
  ]

  length-rows :
      (n cy : ℕ) (c : Channel d)
      → 0 < cy
      → length (rows d channel w h nx ny n cy c).ac ≡ length c.ac + rows_count n nx ny cy
  unfolding rows rows_count
  length-rows zero cy c k = omega arith
  length-rows (suc n) cy c k = omega (
    arith,
    length-rows n (cy + 1) (row d channel w h nx ny (suc nx) cy 0 c) (omega arith),
    length-row (suc nx) cy 0 c (omega arith),
  )

length-map : {A B : Type 0} (f : A → B) (xs : List A) → length (map f xs) ≡ length xs
length-map f [] = refl
length-map f (x ∷ xs) = ap suc (length-map f xs)

-- the number of AC terms of a channel with `nx` by `ny` coefficients, of which the first is no AC term
unfoldable pub ac_count : ℕ → ℕ → ℕ
unfolding row_count rows_count
ac_count nx ny = row_count nx nx ny 0 1 + rows_count (ny - 1) nx ny 1

module _ {fl : Floats} (d : Doubles fl) (channel : List d.F64) (w h nx ny : ℕ) where
  -- the first row, whose first round sets the constant term
  length-first_row :
      (c : Channel d)
      → 0 < nx
      → 0 < ny
      → length (row d channel w h nx ny (suc nx) 0 0 c).ac ≡ length c.ac + row_count nx nx ny 0 1
  unfolding row add_term
  length-first_row c k l =
      let more : ltb (0 * ny) (nx * (ny - 0)) ≡ true = grind arith in
      rw more (length-row d channel w h nx ny nx 0 1 (add_term d 0 0 _ c) (omega arith))

  length-some_rows :
      (m : ℕ) (c : Channel d)
      → 0 < nx
      → 0 < ny
      → length (rows d channel w h nx ny (suc m) 0 c).ac
        ≡ length c.ac + row_count nx nx ny 0 1 + rows_count m nx ny 1
  unfolding rows
  length-some_rows m c k l = omega (
    arith,
    length-first_row c k l,
    length-rows d channel w h nx ny m 1 (row d channel w h nx ny (suc nx) 0 0 c) (omega arith),
  )

  length-all_rows :
      (c : Channel d)
      → 0 < nx
      → 0 < ny
      → length (rows d channel w h nx ny ny 0 c).ac ≡ length c.ac + ac_count nx ny
  unfolding ac_count
  length-all_rows c k l = elim (ℕ-cases ny) [
    | inl e ↦ absurd (omega (arith, e))
    | inr (m, e) ↦
        let same : ny - 1 ≡ m = omega (arith, e) in
        let count = length-some_rows m c k l in
        rw same (ap (λ n. length (rows d channel w h nx ny n 0 c).ac) e ∙ (count ∙ omega arith))
  ]

  length-scaled :
      (c : Channel d) (k : Bool) (f : d.F64 → d.F64)
      → length (if k then c else record c { ac = map f c.ac }).ac ≡ length c.ac
  length-scaled c true f = refl
  length-scaled c false f = length-map f c.ac

  -- A channel with `nx` by `ny` coefficients has as many AC terms as the loops have rounds, but one.
  pub length-encode_channel :
      0 < nx → 0 < ny → length (encode_channel d channel w h nx ny).ac ≡ ac_count nx ny
  unfolding encode_channel
  length-encode_channel k l =
      length-scaled (rows d channel w h nx ny ny 0 _) (d.eq _ _) _
      ∙ (length-all_rows (record { dc = int d 0; ac = []; scale = int d 0 }) k l ∙ omega arith)
