-- ===== src/Transform/Negotiate/Priority.antt =====
-- The order of preference (INV-7), and what of the header the choice depends on.
use mathlib.Core.List.Perm
use mathlib.Core.List.{Perm, foldr}
use imgx.Base.{
  Text, Bool, true, false, ◌||◌, Option, none, some, List, [], ◌∷◌, ◌≡◌, ◌≢◌, ◌⊎◌, inl, inr, refl,
  sym, ap, ◌∙◌, arith, Bool-cases, split,
}
use imgx.Transform.Floats.{Floats}
use imgx.Transform.Options.{OutputFormat}
use imgx.Transform.Negotiate.{
  AcceptResult, default_accept, supports, explicit, choose_format, set_media, q_value, accept_parts,
  accept_entry, accept_entries, parse_accept_header, is_empty, trim, trim_start, trim_end,
}

-- The order of preference, for a source with an alpha channel and for one without.
abbrev pub priority : Bool → List OutputFormat
priority true = OutputFormat.avif ∷ OutputFormat.webp ∷ OutputFormat.png ∷ []
priority false = OutputFormat.avif ∷ OutputFormat.webp ∷ OutputFormat.jpeg ∷ OutputFormat.png ∷ []

-- The first of the list that is supported, or jpeg if none is.
abbrev pub IsBest : (OutputFormat → Bool) → List OutputFormat → OutputFormat → Type 0
IsBest s [] f = f ≡ OutputFormat.jpeg
IsBest s (g ∷ gs) f = ((s g ≡ true) × (f ≡ g)) ⊎ ((s g ≡ false) × IsBest s gs f)

pub choose_format-IsBest :
    (a : AcceptResult) (alpha : Bool) → IsBest (supports a) (priority alpha) (choose_format a alpha)
unfolding choose_format
choose_format-IsBest a true = ground arith
choose_format-IsBest a false = ground arith

pub choose_format-ne-auto :
    (a : AcceptResult) (alpha : Bool) → choose_format a alpha ≢ OutputFormat.auto
unfolding choose_format
choose_format-ne-auto a true = ground arith
choose_format-ne-auto a false = ground arith

pub explicit-ne-auto :
    (r : Option OutputFormat) (f : OutputFormat) → explicit r ≡ some f → f ≢ OutputFormat.auto
explicit-ne-auto none f h = cc
explicit-ne-auto (some OutputFormat.auto) f h = cc
explicit-ne-auto (some OutputFormat.jpeg) f h = ground arith
explicit-ne-auto (some _) f h = ground arith

-- Both headers list the same formats, whatever the order of their entries.
unfoldable pub merge : AcceptResult → AcceptResult → AcceptResult
merge a b = record {
  supports_avif = a.supports_avif || b.supports_avif;
  supports_webp = a.supports_webp || b.supports_webp;
  supports_jpeg = a.supports_jpeg || b.supports_jpeg;
  supports_png = a.supports_png || b.supports_png;
  supports_gif = a.supports_gif || b.supports_gif;
  wildcard = a.wildcard || b.wildcard;
}

set_media-merge :
    (m : Text) (r : AcceptResult) → set_media m r ≡ merge (set_media m default_accept) r
unfolding set_media merge
set_media-merge m r = ground arith

merge-default : (r : AcceptResult) → r ≡ merge default_accept r
unfolding merge
merge-default r = refl

merge_comm : (a b r : AcceptResult) → merge a (merge b r) ≡ merge b (merge a r)
unfolding merge
merge_comm a b r = ground arith

AcceptResult-set : IsSet AcceptResult
AcceptResult-set = hlevel

module _ (fl : Floats) where
  pub accept_entry-merge :
      (x : Text) (r : AcceptResult)
      → accept_entry fl x r ≡ merge (accept_entry fl x default_accept) r
  unfolding accept_entry
  accept_entry-merge x r = elim (Bool-cases (is_empty (trim x))) [
    | inl nothing ↦ rw nothing (merge-default r)
    | inr something ↦ rw something (parts (split b';' (trim x)))
  ]
    where
      parts : (ss : List Text) → accept_parts fl ss r ≡ merge (accept_parts fl ss default_accept) r
      parts [] = unfold accept_parts in (merge-default r)
      parts (m ∷ ps) =
          unfold accept_parts in
          (elim (Bool-cases (fl.eq (q_value fl (fl.literal 1 0) ps) (fl.literal 0 0))) [
            | inl zero_q ↦ rw zero_q (merge-default r)
            | inr some_q ↦ rw some_q (set_media-merge (trim m) r)
          ])

  accept_entry_comm :
      (x y : Text) (r : AcceptResult)
      → accept_entry fl x (accept_entry fl y r) ≡ accept_entry fl y (accept_entry fl x r)
  accept_entry_comm x y r =
      let a = accept_entry fl x default_accept in
      let b = accept_entry fl y default_accept in
      accept_entry-merge x _
      ∙ ap (merge a) (accept_entry-merge y r)
      ∙ merge_comm a b r
      ∙ ap (merge b) (sym (accept_entry-merge x r))
      ∙ sym (accept_entry-merge y _)

  accept_entries_swap :
      (xs : List Text) (x : Text) (r : AcceptResult)
      → accept_entries fl xs (accept_entry fl x r) ≡ accept_entry fl x (accept_entries fl xs r)
  unfolding accept_entries
  accept_entries_swap [] x r = refl
  accept_entries_swap (y ∷ xs) x r =
      ap (accept_entries fl xs) (accept_entry_comm y x r) ∙ accept_entries_swap xs x _

  accept_entries-foldr :
      (xs : List Text) (r : AcceptResult) → accept_entries fl xs r ≡ foldr (accept_entry fl) r xs
  unfolding accept_entries
  accept_entries-foldr [] r = refl
  accept_entries-foldr (x ∷ xs) r =
      accept_entries_swap xs x r ∙ ap (accept_entry fl x) (accept_entries-foldr xs r)

  pub parse_accept_header-foldr :
      (h : Text) → parse_accept_header fl h ≡ foldr (accept_entry fl) default_accept (split b',' h)
  unfolding parse_accept_header
  parse_accept_header-foldr [] = unfold split accept_entry trim trim_start trim_end in refl
  parse_accept_header-foldr (b ∷ h) = accept_entries-foldr (split b',' (b ∷ h)) default_accept

  -- A header means the same whatever the order of its entries.
  pub parse_accept_header-Perm :
      (h h' : Text)
      → Perm (split b',' h) (split b',' h')
      → parse_accept_header fl h ≡ parse_accept_header fl h'
  parse_accept_header-Perm h h' p =
      parse_accept_header-foldr h
      ∙ Perm.foldr-eq AcceptResult-set (accept_entry fl) accept_entry_comm p default_accept
      ∙ sym (parse_accept_header-foldr h')
