-- ===== src/Transform/Pipeline/Encode/Pages.antt =====
-- The pages of the image that is encoded as GIF.
use imgx.Base.{
  ℕ, zero, suc, ◌+◌, ◌%◌, ◌≤◌, ◌<◌, Text, bytes, Bool, true, false, not, none, some, ℤ, pos, negsuc,
  Result, ok, err, ltb_ℤ, pos_part, neg_part, ◌==◌, nat_eq, text_eq, text_beq, if◌then◌else◌, ◌≡◌,
  ◌≢◌, refl, ap, ◌∙◌, ◌⊎◌, inl, inr, arith, Option-cases, Bool-cases,
}
use imgx.Transform.Floats.{Floats}
use imgx.Transform.Pipeline.{Stop, panic}
use imgx.Transform.Pipeline.Encode.{with_pages, pages_are_stale}
use imgx.Transform.Vips.{Doubles, Vips, height, page_height}

-- What libvips says of the metadata: a field reads as it was set, and setting it changes no other
-- field and no size.
pub record KeepsMetadata {fl : Floats} {d : Doubles fl} (v : Vips d) : Type 0 where
  pub get-set :
      (name : Text) (n : ℤ) (image : v.Image) → v.get_int name (v.set_int name n image) ≡ some n
  pub get-set_other :
      (name other : Text) (n : ℤ) (image : v.Image)
      → (name == other) ≡ false
      → v.get_int name (v.set_int other n image) ≡ v.get_int name image
  pub height-set :
      (name : Text) (n : ℤ) (image : v.Image)
      → v.get_height (v.set_int name n image) ≡ v.get_height image

-- Pages of this height, of either sign, do not stack up to the height of the image.
abbrev pub IsStale : ℕ → ℕ → ℤ → Type 0
IsStale page h ph = (h < pos_part ph) ⊎ (h % suc page ≢ 0)

-- Pages of this height, of either sign, stack up to the height of the image.
abbrev pub IsWhole : ℕ → ℕ → ℤ → Type 0
IsWhole page h ph = (pos_part ph ≤ h) × (h % suc page ≡ 0)

tests :
    (a b : Bool)
    → (Path (Result Stop Bool) (if a then ok true else ok (not b)) (ok true)
        × ((a ≡ true) ⊎ (b ≡ false)))
      ⊎ (Path (Result Stop Bool) (if a then ok true else ok (not b)) (ok false)
          × (a ≡ false)
          × (b ≡ true))
tests true b = inl (refl, inl refl)
tests false true = inr (refl, refl, refl)
tests false false = inl (refl, inr refl)

pages_are_stale_positive :
    (page h : ℕ)
    → ((pages_are_stale (pos (suc page)) (pos h) ≡ ok true) × IsStale page h (pos (suc page)))
      ⊎ ((pages_are_stale (pos (suc page)) (pos h) ≡ ok false) × IsWhole page h (pos (suc page)))
unfolding pages_are_stale
pages_are_stale_positive page h =
    elim (tests (ltb_ℤ (pos h) (pos (suc page))) (h % (suc page + 0) == 0)) [
      | inl (test, inl taller) ↦ inl (ground (arith, test), inl (ground (arith, taller)))
      | inl (test, inr other) ↦ inl (ground (arith, test), inr (ground (arith, other)))
      | inr (test, fits, divides) ↦
          inr (ground (arith, test), (ground (arith, fits), ground (arith, divides)))
    ]

pages_are_stale_negative :
    (page h : ℕ)
    → ((pages_are_stale (negsuc page) (pos h) ≡ ok true) × IsStale page h (negsuc page))
      ⊎ ((pages_are_stale (negsuc page) (pos h) ≡ ok false) × IsWhole page h (negsuc page))
unfolding pages_are_stale
pages_are_stale_negative page h = elim (Bool-cases (h % suc page == 0)) [
  | inl divides ↦ inr (ground (arith, divides), (omega arith, ground (arith, divides)))
  | inr other ↦ inl (ground (arith, other), inr (ground (arith, other)))
]

module _ {fl : Floats} {d : Doubles fl} (v : Vips d) where
  -- The image with its metadata set to one page, and everything else as it was.
  pub record IsOnePage (image out : v.Image) : Type 0 where
    pub page : page_height v out ≡ some (height v image)
    pub pages : v.get_int (bytes "n-pages") out ≡ some (pos 1)
    pub high : height v out ≡ height v image
    pub others :
        (name : Text)
        → (name == bytes "page-height") ≡ false
        → (name == bytes "n-pages") ≡ false
        → v.get_int name out ≡ v.get_int name image

  -- What an image of this height is encoded as, by the page height of its metadata.
  pub data IsPaged (image : v.Image) (h : ℕ) : Result Stop v.Image → Type 0 where
    unpaged : page_height v image ≡ none → IsPaged image h (ok image)
    no_height : page_height v image ≡ some (pos 0) → IsPaged image h (err panic)
    whole :
        (page : ℕ) (ph : ℤ)
        → page_height v image ≡ some ph
        → pos_part ph + neg_part ph ≡ suc page
        → IsWhole page h ph
        → IsPaged image h (ok image)
    stale :
        (page : ℕ) (ph : ℤ) (out : v.Image)
        → page_height v image ≡ some ph
        → pos_part ph + neg_part ph ≡ suc page
        → IsStale page h ph
        → IsOnePage image out
        → IsPaged image h (ok out)

  module _ (laws : KeepsMetadata v) where
    abbrev one_page : v.Image → v.Image
    one_page image =
        v.set_int (bytes "n-pages") (pos 1) (v.set_int (bytes "page-height") (height v image) image)

    height-one_page : (image : v.Image) → height v (one_page image) ≡ height v image
    unfolding height
    height-one_page image =
        rw
          (
            laws.height-set (bytes "n-pages") (pos 1)
                (v.set_int (bytes "page-height") (height v image) image),
            laws.height-set (bytes "page-height") (height v image) image,
          )
          refl

    one_page-IsOnePage : (image : v.Image) → IsOnePage image (one_page image)
    unfolding page_height text_beq
    one_page-IsOnePage image =
        let set = v.set_int (bytes "page-height") (height v image) image in
        record {
          page =
              laws.get-set_other (bytes "page-height") (bytes "n-pages") (pos 1) set refl
              ∙ laws.get-set (bytes "page-height") (height v image) image;
          pages = laws.get-set (bytes "n-pages") (pos 1) set;
          high = height-one_page image;
          others = λ name p q.
              laws.get-set_other name (bytes "n-pages") (pos 1) set q
              ∙ laws.get-set_other name (bytes "page-height") (height v image) image p;
        }

    module _ (image : v.Image) (h : ℕ) (tall : height v image ≡ pos h) where
      with_pages-eq :
          (ph : ℤ) (b : Bool)
          → page_height v image ≡ some ph
          → pages_are_stale ph (pos h) ≡ ok b
          → with_pages v image ≡ ok (if b then one_page image else image)
      unfolding with_pages
      with_pages-eq ph b e k = rw (e, with_pages, ap (pages_are_stale ph) tall ∙ k) refl

      by_test :
          (page : ℕ) (ph : ℤ)
          → page_height v image ≡ some ph
          → pos_part ph + neg_part ph ≡ suc page
          → ((pages_are_stale ph (pos h) ≡ ok true) × IsStale page h ph)
            ⊎ ((pages_are_stale ph (pos h) ≡ ok false) × IsWhole page h ph)
          → IsPaged image h (with_pages v image)
      by_test page ph e size (inl (test, off)) =
          rw (with_pages-eq ph true e test)
            (IsPaged.stale page ph (one_page image) e size off (one_page-IsOnePage image))
      by_test page ph e size (inr (test, exact)) =
          rw (with_pages-eq ph false e test) (IsPaged.whole page ph e size exact)

      no_height-panic : pages_are_stale (pos 0) (pos h) ≡ err panic
      unfolding pages_are_stale
      no_height-panic = ground arith

      with_pages-panic : page_height v image ≡ some (pos 0) → with_pages v image ≡ err panic
      unfolding with_pages
      with_pages-panic e =
          rw (e, with_pages, ap (pages_are_stale (pos 0)) tall ∙ no_height-panic) refl

      paged : (ph : ℤ) → page_height v image ≡ some ph → IsPaged image h (with_pages v image)
      paged (pos zero) e = rw (with_pages-panic e) (IsPaged.no_height e)
      paged (pos (suc page)) e =
          by_test page (pos (suc page)) e (omega arith) (pages_are_stale_positive page h)
      paged (negsuc page) e =
          by_test page (negsuc page) e (omega arith) (pages_are_stale_negative page h)

      -- What is encoded for an image of any height, by the page height of its metadata: the image as it
      -- is, if there is no page height, or if the page height, whatever its sign, divides the height of
      -- the image and is not above it; a panic, if the page height is 0; and otherwise the image
      -- with its metadata set to one page of its own height, and nothing else changed.
      pub with_pages-IsPaged : IsPaged image h (with_pages v image)
      unfolding with_pages
      with_pages-IsPaged = elim (Option-cases (page_height v image)) [
        | inl absent ↦ rw (absent, with_pages) (IsPaged.unpaged absent)
        | inr (ph, e) ↦ paged ph e
      ]
