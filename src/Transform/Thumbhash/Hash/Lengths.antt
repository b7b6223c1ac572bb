-- ===== src/Transform/Thumbhash/Hash/Lengths.antt =====
-- The length of an assembled hash, by the numbers of its terms.
use imgx.Base.{
  ℕ, zero, suc, ◌+◌, ◌/◌, Text, Bool, none, some, List, [], ◌∷◌, ◌++◌, nat_eq, leb, length,
  length-append, if◌then◌else◌, ◌≡◌, refl, ap, ◌∙◌, arith, inl, inr, Bool-cases,
}
use imgx.Transform.Floats.{Floats}
use imgx.Transform.Thumbhash.{Channel}
use imgx.Transform.Thumbhash.Hash.{or_at, push_terms, assemble}
use imgx.Transform.Vips.{Doubles}

length-or_at : (i b : ℕ) (hash : Text) → length (or_at i b hash) ≡ length hash
unfolding or_at
length-or_at i b [] = refl
length-or_at zero b (c ∷ hash) = refl
length-or_at (suc i) b (c ∷ hash) = ap suc (length-or_at i b hash)

length-grown :
    (start index : ℕ) (hash : Text)
    → length hash ≡ start + (index + 1) / 2
    → length (if leb (length hash) (start + index / 2) then hash ++ 0 ∷ [] else hash)
      ≡ start + (index + 2) / 2
length-grown start index hash h = elim (Bool-cases (leb (length hash) (start + index / 2))) [
  | inl short ↦ rw short (length-append hash (0 ∷ []) ∙ ground arith)
  | inr long ↦ rw long (ground arith)
]

module _ {fl : Floats} (d : Doubles fl) where
  -- Two terms go to a byte.
  length-push_terms :
      (start index : ℕ) (terms : List d.F64) (hash : Text)
      → length hash ≡ start + (index + 1) / 2
      → length (push_terms d start index terms hash) ≡ start + (index + length terms + 1) / 2
  unfolding push_terms
  length-push_terms start index [] hash h = h ∙ omega arith
  length-push_terms start index (f ∷ terms) hash h =
      length-push_terms start (index + 1) terms _
        (length-or_at _ _ _ ∙ length-grown start index hash h ∙ omega arith)
      ∙ omega arith

  length-four :
      (xs ys zs ts : List d.F64)
      → length (xs ++ (ys ++ (zs ++ ts))) ≡ length xs + length ys + length zs + length ts
  length-four xs ys zs ts =
      omega (
        arith,
        length-append xs (ys ++ (zs ++ ts)),
        length-append ys (zs ++ ts),
        length-append zs ts,
      )

  pub length-assemble_opaque :
      (l p q : Channel d) (side : ℕ) (has_alpha is_landscape : Bool)
      → length (assemble d l p q none side has_alpha is_landscape)
        ≡ 5 + (length l.ac + length p.ac + length q.ac + 1) / 2
  unfolding assemble
  length-assemble_opaque l p q side has_alpha is_landscape =
      length-push_terms 5 0 (l.ac ++ (p.ac ++ (q.ac ++ []))) _ refl
      ∙ omega (arith, length-four l.ac p.ac q.ac [])

  pub length-assemble_alpha :
      (l p q a : Channel d) (side : ℕ) (has_alpha is_landscape : Bool)
      → length (assemble d l p q (some a) side has_alpha is_landscape)
        ≡ 6 + (length l.ac + length p.ac + length q.ac + length a.ac + 1) / 2
  unfolding assemble
  length-assemble_alpha l p q a side has_alpha is_landscape =
      length-push_terms 6 0 (l.ac ++ (p.ac ++ (q.ac ++ a.ac))) _ refl
      ∙ omega (arith, length-four l.ac p.ac q.ac a.ac)
