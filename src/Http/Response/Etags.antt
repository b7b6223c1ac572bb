-- ===== src/Http/Response/Etags.antt =====
-- Which `If-None-Match` values match an entity tag that the server made.
use imgx.Base.{
  ℕ, zero, suc, ◌-◌, ◌/◌, ◌%◌, ◌<◌, Text, bytes, true, false, ◌&&◌, Option, none, some, [], ◌∷◌,
  ◌++◌, ◌==◌, nat_eq, text_eq, text_beq, if◌then◌else◌, take, drop, length, starts_with, ends_with,
  strip_prefix, ◌≡◌, ◌↔◌, ◌⊎◌, inl, inr, refl, sym, ap, ◌∙◌, arith, Bool-cases, Option-cases,
  strip_prefix_sound, has_byte, has_byte-append, length-append, ap₂, subst,
}
use imgx.Http.Errors.{lower_hex}
use imgx.Http.Response.{
  hex_fixed, generate_etag, strip_weak, strip_quotes, strip_etag_decorations, should_return_304,
}

-- The four ways to write a tag: bare, in quotes, and each of these as weak.
pub data IsForm (tag : Text) : Text → Type 0 where
  bare : IsForm tag tag
  quoted : IsForm tag (b'"' ∷ tag ++ b'"' ∷ [])
  weak : IsForm tag (b'W' ∷ b'/' ∷ tag)
  weak_quoted : IsForm tag (b'W' ∷ b'/' ∷ b'"' ∷ tag ++ b'"' ∷ [])

last_quote :
    (s : Text) (n : ℕ)
    → length s ≡ suc n
    → ends_with (bytes "\"") s ≡ true
    → s ≡ take n s ++ b'"' ∷ []
unfolding ends_with text_beq take
last_quote [] n l h = absurd cc
last_quote (b ∷ []) zero l h = ap (λ x. x ∷ []) (ground (arith, nat_eq.agrees b b'"'))
last_quote (b ∷ []) (suc n) l h = absurd (omega arith)
last_quote (b ∷ c ∷ s) zero l h = absurd (omega arith)
last_quote (b ∷ c ∷ s) (suc n) l h =
    ap (λ t. b ∷ t) (last_quote (c ∷ s) n (omega arith) (ground arith))

ends_with-quote : (t : Text) → ends_with (bytes "\"") (t ++ b'"' ∷ []) ≡ true
unfolding ends_with text_beq
ends_with-quote [] = refl
ends_with-quote (b ∷ t) = ground (arith, ends_with-quote t)

take-quote : (t : Text) (n : ℕ) → n ≡ length t → take n (t ++ b'"' ∷ []) ≡ t
unfolding take
take-quote [] zero h = refl
take-quote [] (suc n) h = absurd (omega arith)
take-quote (b ∷ t) zero h = absurd (omega arith)
take-quote (b ∷ t) (suc n) h = ap (λ x. b ∷ x) (take-quote t n (omega arith))

strip_quotes-plain : (t : Text) → has_byte b'"' t ≡ false → strip_quotes t ≡ t
unfolding strip_quotes starts_with has_byte
strip_quotes-plain [] h = refl
strip_quotes-plain (b ∷ t) h = ground (arith, nat_eq.agrees b b'"')

strip_quotes-cons :
    (b c : ℕ) (s : Text)
    → strip_quotes (b ∷ c ∷ s) ≡ (
        if (b == b'"') && ends_with (bytes "\"") (c ∷ s)
        then take (length s) (c ∷ s)
        else b ∷ c ∷ s)
unfolding strip_quotes starts_with ends_with text_beq drop
strip_quotes-cons b c s =
    let shorter : suc (suc (length s)) - 2 ≡ length s = omega arith in
    rw shorter (ground (arith, nat_eq.agrees b b'"', nat_eq.agrees b'"' b))

strip_quotes-quoted : (t : Text) → strip_quotes (b'"' ∷ t ++ b'"' ∷ []) ≡ t
strip_quotes-quoted [] = unfold strip_quotes starts_with ends_with text_beq take drop in refl
strip_quotes-quoted (c ∷ t) =
    rw (strip_quotes-cons b'"' c (t ++ b'"' ∷ []), ends_with-quote (c ∷ t))
      (take-quote (c ∷ t) (length (t ++ b'"' ∷ [])) (omega (arith, length-append t (b'"' ∷ []))))

strip_quotes_form : (s : Text) → (s ≡ strip_quotes s) ⊎ (s ≡ b'"' ∷ strip_quotes s ++ b'"' ∷ [])
strip_quotes_form [] = inl (unfold strip_quotes in refl)
strip_quotes_form (b ∷ []) = inl (unfold strip_quotes in refl)
strip_quotes_form (b ∷ c ∷ s) = elim (Bool-cases ((b == b'"') && ends_with (bytes "\"") (c ∷ s))) [
  | inl both ↦
      let first : b ≡ b'"' = ground (arith, nat_eq.agrees b b'"', both) in
      let last = last_quote (c ∷ s) (length s) refl (ground (arith, both)) in
      inr (rw (strip_quotes-cons b c s, both) (ap₂ (λ x xs. x ∷ xs) first last))
  | inr other ↦ inl (rw (strip_quotes-cons b c s, other) refl)
]

strip_weak_form : (s : Text) → (s ≡ strip_weak s) ⊎ (s ≡ b'W' ∷ b'/' ∷ strip_weak s)
unfolding strip_weak
strip_weak_form s = elim (Option-cases (strip_prefix (bytes "W/") s)) [
  | inl strong ↦ inl (rw (strong, strip_weak) refl)
  | inr (t, cut) ↦ inr (rw (cut, strip_weak) (strip_prefix_sound (bytes "W/") s t cut))
]

form : (s : Text) → IsForm (strip_etag_decorations s) s
unfolding strip_etag_decorations
form s = elim (strip_weak_form s) [
  | inl strong ↦ elim (strip_quotes_form (strip_weak s)) [
    | inl plain ↦ subst (IsForm _) (sym (strong ∙ plain)) IsForm.bare
    | inr in_quotes ↦ subst (IsForm _) (sym (strong ∙ in_quotes)) IsForm.quoted
  ]
  | inr weak' ↦ elim (strip_quotes_form (strip_weak s)) [
    | inl plain ↦ subst (IsForm _) (sym (weak' ∙ ap (λ t. b'W' ∷ b'/' ∷ t) plain)) IsForm.weak
    | inr in_quotes ↦
        subst (IsForm _) (sym (weak' ∙ ap (λ t. b'W' ∷ b'/' ∷ t) in_quotes)) IsForm.weak_quoted
  ]
]

-- A tag has no quote and no `W`.
record IsTag (t : Text) : Type 0 where
  no_quote : has_byte b'"' t ≡ false
  no_w : has_byte b'W' t ≡ false

strip_weak-strong : (t : Text) → has_byte b'W' t ≡ false → strip_weak t ≡ t
unfolding strip_weak strip_prefix has_byte
strip_weak-strong [] h = refl
strip_weak-strong (b ∷ t) h = ground (arith, nat_eq.agrees b b'W', nat_eq.agrees b'W' b)

strip-form : (tag s : Text) → IsTag tag → IsForm tag s → strip_etag_decorations s ≡ tag
unfolding strip_etag_decorations strip_weak strip_prefix
strip-form tag _ t IsForm.bare =
    ap strip_quotes (strip_weak-strong tag t.no_w) ∙ strip_quotes-plain tag t.no_quote
strip-form tag _ t IsForm.quoted = strip_quotes-quoted tag
strip-form tag _ t IsForm.weak = strip_quotes-plain tag t.no_quote
strip-form tag _ t IsForm.weak_quoted = strip_quotes-quoted tag

lower_hex-IsTag :
    (n : ℕ) → n < 16 → ((lower_hex n == b'"') ≡ false) × ((lower_hex n == b'W') ≡ false)
unfolding lower_hex
lower_hex-IsTag n h = ground arith

hex_fixed-IsTag : (k n : ℕ) → IsTag (hex_fixed k n)
unfolding hex_fixed has_byte
hex_fixed-IsTag zero n = record { no_quote = refl; no_w = refl }
hex_fixed-IsTag (suc k) n =
    let ih = hex_fixed-IsTag k (n / 16) in
    let (q, w) = lower_hex-IsTag (n % 16) (omega arith) in
    record {
      no_quote = ground (
        arith,
        ih.no_quote,
        q,
        has_byte-append b'"' (hex_fixed k (n / 16)) (lower_hex (n % 16) ∷ []),
      );
      no_w = ground (
        arith,
        ih.no_w,
        w,
        has_byte-append b'W' (hex_fixed k (n / 16)) (lower_hex (n % 16) ∷ []),
      );
    }

-- The answer to a request is 304 exactly if its `If-None-Match` is there and is the entity tag of
-- the data in one of four forms: bare, in quotes, weak, or weak in quotes. Whatever the hash is.
pub should_return_304_iff :
    (xxh3_64 : Text → ℕ) (data_bytes : Text) (request_etag : Option Text)
    → (should_return_304 request_etag (generate_etag xxh3_64 data_bytes) ≡ true)
      ↔ ((raw : Text) × (request_etag ≡ some raw) × IsForm (generate_etag xxh3_64 data_bytes) raw)
unfolding should_return_304
should_return_304_iff xxh3_64 data_bytes none = (λ h. absurd cc, λ (raw, e, f). absurd cc)
should_return_304_iff xxh3_64 data_bytes (some raw) =
    let etag = generate_etag xxh3_64 data_bytes in
    let plain : IsTag etag = unfold generate_etag in hex_fixed-IsTag 16 _ in
    let self = strip-form etag etag plain IsForm.bare in
    (
      λ h. (raw, refl, subst (λ t. IsForm t raw) ((text_eq.agrees _ _).0 h ∙ self) (form raw)),
      λ (raw', e, f).
          (text_eq.agrees _ _).1
            (strip-form etag raw plain (subst (IsForm etag) (sym (ap unsome e)) f) ∙ sym self),
    )
  where
    unsome : Option Text → Text
    unsome none = []
    unsome (some t) = t
