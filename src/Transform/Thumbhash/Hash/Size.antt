-- ===== src/Transform/Thumbhash/Hash/Size.antt =====
-- How long a hash is (INV-18).
use imgx.Base.{
  ℕ, ◌+◌, ◌*◌, ◌/◌, ◌≤◌, ◌<◌, Text, Bool, true, false, ◌&&◌, none, some, List, ok, ◌==◌, nat_eq,
  leb, ltb, length, if◌then◌else◌, passes_below, fail_if-eq-ok, ok_injective, not, ◌||◌, ◌≡◌, ◌⊎◌,
  refl, ap, sym, subst, ◌∙◌, arith, inl, inr, Bool-cases,
}
use imgx.Transform.Floats.{Floats}
use imgx.Transform.Pipeline.{invalid_dimensions, buffer_length_mismatch}
use imgx.Transform.Thumbhash.{int, max_side, pixels, Pixel, round_to_u32, encode_channel}
use imgx.Transform.Thumbhash.Channels.{ac_count, length-encode_channel}
use imgx.Transform.Thumbhash.Hash.{
  max_ℕ, average, l_values, p_values, q_values, a_values, l_count, assemble, hash_of, encode,
}
use imgx.Transform.Vips.{Doubles}
use imgx.Transform.Thumbhash.Hash.Lengths.{length-assemble_opaque, length-assemble_alpha}
use imgx.Transform.Thumbhash.Hash.Counts.{
  sides_ok, opaque_table, alpha_table, chroma_count, alpha_count, sides_count,
}

-- What the sizes rely on of `f64`: for small numbers, the quotient m * k / n is rounded to m at most if
-- k is at most n, and to m if k is n.
pub record IsRounded {fl : Floats} (d : Doubles fl) : Type 0 where
  pub at_most :
      (m k n : ℕ)
      → m ≤ 7
      → 1 ≤ k
      → k ≤ n
      → n ≤ 100
      → round_to_u32 d (d.div (d.mul (int d m) (d.of_u64 k)) (d.of_u64 n)) ≤ m
  pub exact :
      (m n : ℕ)
      → m ≤ 7
      → 1 ≤ n
      → n ≤ 100
      → round_to_u32 d (d.div (d.mul (int d m) (d.of_u64 n)) (d.of_u64 n)) ≡ m

module _ {fl : Floats} (d : Doubles fl) (rounded : IsRounded d) where
  abbrev limit : Bool → ℕ
  limit true = 5
  limit false = 7

  l_count-le :
      (has_alpha : Bool) (w h side : ℕ)
      → 1 ≤ side
      → side ≤ max_ℕ w h
      → max_ℕ w h ≤ 100
      → l_count d has_alpha w h side ≤ limit has_alpha
  unfolding l_count
  l_count-le true w h side one small bound =
      ground (arith, rounded.at_most 5 side (max_ℕ w h) (omega arith) one small bound)
  l_count-le false w h side one small bound =
      ground (arith, rounded.at_most 7 side (max_ℕ w h) (omega arith) one small bound)

  l_count-eq :
      (has_alpha : Bool) (w h : ℕ)
      → 1 ≤ max_ℕ w h
      → max_ℕ w h ≤ 100
      → l_count d has_alpha w h (max_ℕ w h) ≡ limit has_alpha
  unfolding l_count
  l_count-eq true w h one bound = rw (rounded.exact 5 (max_ℕ w h) (omega arith) one bound) refl
  l_count-eq false w h one bound = rw (rounded.exact 7 (max_ℕ w h) (omega arith) one bound) refl

  longest_side :
      (has_alpha : Bool) (w h : ℕ)
      → 1 ≤ max_ℕ w h
      → max_ℕ w h ≤ 100
      → (l_count d has_alpha w h w ≡ limit has_alpha)
        ⊎ (l_count d has_alpha w h h ≡ limit has_alpha)
  longest_side has_alpha w h one bound = elim (Bool-cases (leb w h)) [
    | inl wide ↦
        let same : max_ℕ w h ≡ h = rw wide refl in
        inr (ap (l_count d has_alpha w h) (sym same) ∙ l_count-eq has_alpha w h one bound)
    | inr high ↦
        let same : max_ℕ w h ≡ w = rw high refl in
        inl (ap (l_count d has_alpha w h) (sym same) ∙ l_count-eq has_alpha w h one bound)
  ]

  luminance_count :
      (has_alpha : Bool) (w h lo hi : ℕ)
      → 1 ≤ w
      → w ≤ 100
      → 1 ≤ h
      → h ≤ 100
      → passes_below (limit has_alpha + 1) (sides_ok (limit has_alpha) lo hi) ≡ true
      → let n =
          ac_count (max_ℕ (l_count d has_alpha w h w) 3) (max_ℕ (l_count d has_alpha w h h) 3) in
        (lo ≤ n) × (n ≤ hi)
  luminance_count has_alpha w h lo hi w1 w2 h1 h2 table =
      let one : 1 ≤ max_ℕ w h = ground arith in
      let bound : max_ℕ w h ≤ 100 = ground arith in
      sides_count (limit has_alpha) lo hi (l_count d has_alpha w h w) (l_count d has_alpha w h h)
        (elim has_alpha as (λ b. 3 ≤ limit b) [ true ↦ omega arith | false ↦ omega arith ]) table
        (l_count-le has_alpha w h w w1 (ground arith) bound)
        (l_count-le has_alpha w h h h1 (ground arith) bound) (longest_side has_alpha w h one bound)

  length-opaque :
      (cl cp cq : List d.F64) (w h nx ny side : ℕ) (has_alpha is_landscape : Bool)
      → 0 < nx
      → 0 < ny
      → length (
          assemble d
            (encode_channel d cl w h nx ny)
            (encode_channel d cp w h 3 3)
            (encode_channel d cq w h 3 3)
            none
            side
            has_alpha
            is_landscape)
        ≡ 5 + (ac_count nx ny + 11) / 2
  length-opaque cl cp cq w h nx ny side has_alpha is_landscape j k =
      length-assemble_opaque d _ _ _ side has_alpha is_landscape
      ∙ omega (
        arith,
        chroma_count,
        length-encode_channel d cl w h nx ny j k,
        length-encode_channel d cp w h 3 3 (omega arith) (omega arith),
        length-encode_channel d cq w h 3 3 (omega arith) (omega arith),
      )

  length-alpha :
      (cl cp cq ca : List d.F64) (w h nx ny side : ℕ) (has_alpha is_landscape : Bool)
      → 0 < nx
      → 0 < ny
      → length (
          assemble d
            (encode_channel d cl w h nx ny)
            (encode_channel d cp w h 3 3)
            (encode_channel d cq w h 3 3)
            (some (encode_channel d ca w h 5 5))
            side
            has_alpha
            is_landscape)
        ≡ 6 + (ac_count nx ny + 25) / 2
  length-alpha cl cp cq ca w h nx ny side has_alpha is_landscape j k =
      length-assemble_alpha d _ _ _ _ side has_alpha is_landscape
      ∙ omega (
        arith,
        chroma_count,
        alpha_count,
        length-encode_channel d cl w h nx ny j k,
        length-encode_channel d cp w h 3 3 (omega arith) (omega arith),
        length-encode_channel d cq w h 3 3 (omega arith) (omega arith),
        length-encode_channel d ca w h 5 5 (omega arith) (omega arith),
      )

  abbrev InRange : ℕ → Type 0
  InRange n = (17 ≤ n) × (n ≤ 25)

  length-hash_of :
      (w h : ℕ) (pxs : List Pixel)
      → 1 ≤ w
      → w ≤ 100
      → 1 ≤ h
      → h ≤ 100
      → (17 ≤ length (hash_of d w h pxs)) × (length (hash_of d w h pxs) ≤ 25)
  unfolding hash_of
  length-hash_of w h pxs w1 w2 h1 h2 =
      let avg = average d pxs in
      elim (Bool-cases (d.lt (average d pxs).a (d.of_u64 (w * h)))) [
        | inl alpha ↦
            let (lo, hi) = luminance_count true w h 10 14 w1 w2 h1 h2 alpha_table in
            rw alpha (
              subst InRange
                (sym (
                  length-alpha (l_values d avg pxs) (p_values d avg pxs) (q_values d avg pxs)
                    (a_values d pxs) w h (max_ℕ (l_count d true w h w) 3)
                    (max_ℕ (l_count d true w h h) 3)
                    (if ltb h w then l_count d true w h h else l_count d true w h w) true (ltb h w)
                    (ground arith) (ground arith)))
                (omega (arith, lo, hi)))
        | inr opaque ↦
            let (lo, hi) = luminance_count false w h 14 27 w1 w2 h1 h2 opaque_table in
            rw opaque (
              subst InRange
                (sym (
                  length-opaque (l_values d avg pxs) (p_values d avg pxs) (q_values d avg pxs) w h
                    (max_ℕ (l_count d false w h w) 3) (max_ℕ (l_count d false w h h) 3)
                    (if ltb h w then l_count d false w h h else l_count d false w h w) false
                    (ltb h w) (ground arith) (ground arith)))
                (omega (arith, lo, hi)))
      ]

  -- If the pixels are encoded, the sides are from 1 to 100, the buffer has four bytes for each pixel,
  -- and the hash has 17 to 25 bytes; `f64` rounds the quotients of small numbers as it must.
  pub encode-size :
      (w h : ℕ) (rgba hash : Text)
      → encode d w h rgba ≡ ok hash
      → ((1 ≤ w) × (w ≤ 100) × (1 ≤ h) × (h ≤ 100))
        × (length rgba ≡ 4 * (w * h))
        × (17 ≤ length hash)
        × (length hash ≤ 25)
  unfolding encode
  encode-size w h rgba hash e =
      let (sides, rest) =
        fail_if-eq-ok (not (leb 1 w && leb w max_side) || not (leb 1 h && leb h max_side))
          (invalid_dimensions w h) _ e in
      let (size, result) =
        fail_if-eq-ok (not (length rgba == 4 * (w * h)))
          (buffer_length_mismatch (4 * (w * h)) (length rgba)) (ok (hash_of d w h (pixels rgba)))
          rest in
      let bounds : (1 ≤ w) × (w ≤ 100) × (1 ≤ h) × (h ≤ 100) = ground arith in
      let (w1, w2, h1, h2) = bounds in
      let (lo, hi) = length-hash_of w h (pixels rgba) w1 w2 h1 h2 in
      let same = ok_injective result in
      (
        bounds,
        ground (arith, size),
        subst (λ x. 17 ≤ length x) same lo,
        subst (λ x. length x ≤ 25) same hi,
      )
