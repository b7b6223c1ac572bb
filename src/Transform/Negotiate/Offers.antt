-- ===== src/Transform/Negotiate/Offers.antt =====
-- Which formats a header offers (INV-7: a wildcard does not stand for avif), and which is chosen.
use imgx.Base.{
  Text, bytes, Bool, true, false, not, ◌&&◌, ◌||◌, Option, none, some, List, [], ◌∷◌, ◌==◌, text_eq,
  text_beq, ◌≡◌, ◌≢◌, ◌⊎◌, inl, inr, refl, ap, ap₂, ◌∙◌, arith, Bool-cases, Option-cases, split,
  All,
}
use mathlib.Core.List.{foldr}
use imgx.Transform.Floats.{Floats}
use imgx.Transform.Options.{OutputFormat}
use imgx.Transform.Negotiate.{
  AcceptResult, default_accept, supports, explicit, accept_of, choose_format, set_media, q_value,
  accept_parts, accept_entry, negotiate_format, is_empty, trim,
}
use imgx.Transform.Negotiate.Priority.{
  priority, IsBest, merge, accept_entry-merge, parse_accept_header-foldr, choose_format-IsBest,
  choose_format-ne-auto, explicit-ne-auto,
}

abbrev wildcards : List Text
wildcards = bytes "*/*" ∷ bytes "image/*" ∷ []

-- The media types that stand for a format.
abbrev pub media_types : OutputFormat → List Text
media_types OutputFormat.avif = bytes "image/avif" ∷ []
media_types OutputFormat.webp = bytes "image/webp" ∷ wildcards
media_types OutputFormat.jpeg = bytes "image/jpeg" ∷ bytes "image/jpg" ∷ wildcards
media_types OutputFormat.png = bytes "image/png" ∷ wildcards
media_types _ = []

abbrev pub one_of : Text → List Text → Bool
one_of m [] = false
one_of m (t ∷ ts) = m == t || one_of m ts

abbrev pub any : (Text → Bool) → List Text → Bool
any p [] = false
any p (x ∷ xs) = p x || any p xs

-- What one media type gives, field by field.
abbrev by_type : Text → AcceptResult
by_type m = record {
  supports_avif = m == bytes "image/avif";
  supports_webp = m == bytes "image/webp";
  supports_jpeg = m == bytes "image/jpeg" || m == bytes "image/jpg";
  supports_png = m == bytes "image/png";
  supports_gif = m == bytes "image/gif";
  wildcard = m == bytes "*/*" || m == bytes "image/*";
}

same : (m t : Text) → (m == t) ≡ true → m ≡ t
same m t h = (text_eq.agrees m t).0 h

set_media-by_type : (m : Text) → set_media m default_accept ≡ by_type m
unfolding set_media text_beq
set_media-by_type m = elim (Bool-cases (m == bytes "*/*")) [
  | inl a ↦ rw (same m (bytes "*/*") a) refl
  | inr a ↦ elim (Bool-cases (m == bytes "image/*")) [
    | inl b ↦ rw (same m (bytes "image/*") b) refl
    | inr b ↦ elim (Bool-cases (m == bytes "image/avif")) [
      | inl c ↦ rw (same m (bytes "image/avif") c) refl
      | inr c ↦ elim (Bool-cases (m == bytes "image/webp")) [
        | inl d ↦ rw (same m (bytes "image/webp") d) refl
        | inr d ↦ elim (Bool-cases (m == bytes "image/jpeg")) [
          | inl e ↦ rw (same m (bytes "image/jpeg") e) refl
          | inr e ↦ elim (Bool-cases (m == bytes "image/jpg")) [
            | inl f ↦ rw (same m (bytes "image/jpg") f) refl
            | inr f ↦ elim (Bool-cases (m == bytes "image/png")) [
              | inl g ↦ rw (same m (bytes "image/png") g) refl
              | inr g ↦ elim (Bool-cases (m == bytes "image/gif")) [
                | inl h ↦ rw (same m (bytes "image/gif") h) refl
                | inr h ↦ rw (set_media, a, b, c, d, e, f, g, h) refl
              ]
            ]
          ]
        ]
      ]
    ]
  ]
]

-- A format that is chosen by negotiation.
data IsNegotiated : OutputFormat → Type 0 where
  avif : IsNegotiated OutputFormat.avif
  webp : IsNegotiated OutputFormat.webp
  jpeg : IsNegotiated OutputFormat.jpeg
  png : IsNegotiated OutputFormat.png

supports-set_media :
    (f : OutputFormat) (m : Text)
    → IsNegotiated f
    → supports (set_media m default_accept) f ≡ one_of m (media_types f)
unfolding supports
supports-set_media _ m IsNegotiated.avif = rw (set_media-by_type m) (ground arith)
supports-set_media _ m IsNegotiated.webp = rw (set_media-by_type m) (ground arith)
supports-set_media _ m IsNegotiated.jpeg = rw (set_media-by_type m) (ground arith)
supports-set_media _ m IsNegotiated.png = rw (set_media-by_type m) (ground arith)

supports-merge :
    (f : OutputFormat) (a b : AcceptResult)
    → IsNegotiated f
    → supports (merge a b) f ≡ (supports a f || supports b f)
unfolding supports merge
supports-merge _ a b IsNegotiated.avif = refl
supports-merge _ a b IsNegotiated.webp = ground arith
supports-merge _ a b IsNegotiated.jpeg = ground arith
supports-merge _ a b IsNegotiated.png = ground arith

supports-default : (f : OutputFormat) → IsNegotiated f → supports default_accept f ≡ false
unfolding supports
supports-default _ IsNegotiated.avif = refl
supports-default _ IsNegotiated.webp = refl
supports-default _ IsNegotiated.jpeg = refl
supports-default _ IsNegotiated.png = refl

module _ (fl : Floats) where
  abbrev pub offers_parts : OutputFormat → List Text → Bool
  offers_parts f [] = false
  offers_parts f (media ∷ ps) =
      not (fl.eq (q_value fl (fl.literal 1 0) ps) (fl.literal 0 0))
      && one_of (trim media) (media_types f)

  -- An entry names a media type of the format, with a quality that is not 0.
  abbrev pub offers : OutputFormat → Text → Bool
  offers f x = not (is_empty (trim x)) && offers_parts f (split b';' (trim x))

  -- Some entry of the header offers the format.
  abbrev pub offered : Option Text → OutputFormat → Bool
  offered none f = false
  offered (some h) f = any (offers f) (split b',' h)

  supports-accept_parts :
      (f : OutputFormat) (ss : List Text)
      → IsNegotiated f
      → supports (accept_parts fl ss default_accept) f ≡ offers_parts f ss
  unfolding accept_parts
  supports-accept_parts f [] n = supports-default f n
  supports-accept_parts f (m ∷ ps) n =
      elim (Bool-cases (fl.eq (q_value fl (fl.literal 1 0) ps) (fl.literal 0 0))) [
        | inl refused ↦ rw (refused, accept_parts) (supports-default f n)
        | inr allowed ↦ rw (allowed, accept_parts) (supports-set_media f (trim m) n)
      ]

  supports-accept_entry :
      (f : OutputFormat) (x : Text)
      → IsNegotiated f
      → supports (accept_entry fl x default_accept) f ≡ offers f x
  unfolding accept_entry
  supports-accept_entry f x n = elim (Bool-cases (is_empty (trim x))) [
    | inl nothing ↦ rw (nothing, accept_entry) (supports-default f n)
    | inr something ↦ rw (something, accept_entry) (supports-accept_parts f (split b';' (trim x)) n)
  ]

  supports-foldr :
      (f : OutputFormat) (xs : List Text)
      → IsNegotiated f
      → supports (foldr (accept_entry fl) default_accept xs) f ≡ any (offers f) xs
  supports-foldr f [] n = supports-default f n
  supports-foldr f (x ∷ xs) n =
      let rest = foldr (accept_entry fl) default_accept xs in
      ap (λ a. supports a f) (accept_entry-merge fl x rest)
      ∙ supports-merge f (accept_entry fl x default_accept) rest n
      ∙ ap₂ (λ a b. a || b) (supports-accept_entry f x n) (supports-foldr f xs n)

  supports-offered :
      (f : OutputFormat) (h : Option Text)
      → IsNegotiated f
      → supports (accept_of fl h) f ≡ offered h f
  unfolding accept_of
  supports-offered f none n = supports-default f n
  supports-offered f (some h) n =
      ap (λ a. supports a f) (parse_accept_header-foldr fl h) ∙ supports-foldr f (split b',' h) n

  IsBest-same :
      (s t : OutputFormat → Bool) (gs : List OutputFormat) (f : OutputFormat)
      → All (λ g. s g ≡ t g) gs
      → IsBest s gs f
      → IsBest t gs f
  IsBest-same s t [] f e best = best
  IsBest-same s t (g ∷ gs) f (e, es) (inl (yes_g, chosen)) = inl (rw (← e) yes_g, chosen)
  IsBest-same s t (g ∷ gs) f (e, es) (inr (no_g, best)) =
      inr (rw (← e) no_g, IsBest-same s t gs f es best)

  all_offered :
      (h : Option Text) (alpha : Bool)
      → All (λ g. supports (accept_of fl h) g ≡ offered h g) (priority alpha)
  all_offered h true =
      let for_png = supports-offered OutputFormat.png h IsNegotiated.png in
      let for_webp = supports-offered OutputFormat.webp h IsNegotiated.webp in
      (supports-offered OutputFormat.avif h IsNegotiated.avif, (for_webp, (for_png, tt)))
  all_offered h false =
      let for_png = supports-offered OutputFormat.png h IsNegotiated.png in
      let for_jpeg = supports-offered OutputFormat.jpeg h IsNegotiated.jpeg in
      let for_webp = supports-offered OutputFormat.webp h IsNegotiated.webp in
      (
        supports-offered OutputFormat.avif h IsNegotiated.avif,
        (for_webp, (for_jpeg, (for_png, tt))),
      )

  -- Either a format other than `auto` is requested, and it is the result; or the result is the first
  -- format in the order of preference that some entry of the header offers, or jpeg if there is none.
  -- An entry offers a format if it names a media type of it with a quality that is not 0: for avif
  -- only `image/avif` itself, for the others also a wildcard. The result is never `auto`.
  pub negotiate_format-IsBest :
      (h : Option Text) (alpha : Bool) (r : Option OutputFormat)
      → ((explicit r ≡ some (negotiate_format fl h alpha r))
          ⊎ ((explicit r ≡ none)
              × IsBest (offered h) (priority alpha) (negotiate_format fl h alpha r)))
        × (negotiate_format fl h alpha r ≢ OutputFormat.auto)
  unfolding negotiate_format
  negotiate_format-IsBest h alpha r = elim (Option-cases (explicit r)) [
    | inl open_choice ↦
        let a = accept_of fl h in
        rw (open_choice, negotiate_format)
          (
            inr (
              refl,
              IsBest-same (supports a) (offered h) (priority alpha) (choose_format a alpha)
                  (all_offered h alpha) (choose_format-IsBest a alpha),
            ),
            choose_format-ne-auto a alpha,
          )
    | inr (f, given) ↦ rw (given, negotiate_format) (inl refl, explicit-ne-auto r f given)
  ]
