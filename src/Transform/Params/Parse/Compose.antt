-- ===== src/Transform/Params/Parse/Compose.antt =====
-- The options of a request are applied from left to right.
use imgx.Base.{
  ℕ, Text, List, [], ◌∷◌, ◌++◌, ◌≡◌, refl, sym, ap, ◌∙◌, arith, split, cons_head, Result, ok, err,
  ◌>>=◌, Bool-cases, inl, inr, nat_eq, ◌==◌,
}
use imgx.Transform.Floats.{Floats}
use imgx.Transform.Numbers.{Fault}
use imgx.Transform.Params.{TransformParams, default_params}
use imgx.Transform.Params.Parse.{apply_pair, apply_pairs, parse}

cons_head-append :
    (b c : ℕ) (s : Text) (ys : List Text)
    → cons_head b (split c s ++ ys) ≡ cons_head b (split c s) ++ ys
unfolding split
cons_head-append b c [] ys = refl
cons_head-append b c (x ∷ s) ys = elim (Bool-cases (x == c)) [
  | inl same ↦ rw same refl
  | inr other ↦ rw other (twice (split c s))
]
  where
    twice : (l : List Text) → cons_head b (cons_head x l ++ ys) ≡ cons_head b (cons_head x l) ++ ys
    twice [] = refl
    twice (p ∷ l) = refl

split-append : (c : ℕ) (s t : Text) → split c (s ++ c ∷ t) ≡ split c s ++ split c t
unfolding split
split-append c [] t = ground (arith, nat_eq.agrees c c)
split-append c (b ∷ s) t = elim (Bool-cases (b == c)) [
  | inl same ↦ rw same (ap (λ l. [] ∷ l) (split-append c s t))
  | inr other ↦
      rw other (ap (cons_head b) (split-append c s t) ∙ cons_head-append b c s (split c t))
]

module _ (fl : Floats) where
  apply_pairs-append :
      (xs ys : List Text) (p : TransformParams fl)
      → apply_pairs fl (xs ++ ys) p ≡ (apply_pairs fl xs p >>= apply_pairs fl ys)
  unfolding apply_pairs
  apply_pairs-append [] ys p = refl
  apply_pairs-append (x ∷ xs) ys p = go (apply_pair fl x p) (apply_pairs-append xs ys)
    where
      go :
          (m : Result Fault (TransformParams fl))
          → ((q : TransformParams fl)
              → apply_pairs fl (xs ++ ys) q ≡ (apply_pairs fl xs q >>= apply_pairs fl ys))
          → (m >>= λ q. apply_pairs fl (xs ++ ys) q)
            ≡ ((m >>= λ q. apply_pairs fl xs q) >>= apply_pairs fl ys)
      go (ok q) ih = ih q
      go (err e) ih = refl

  parse-split : (s : Text) → parse fl s ≡ apply_pairs fl (split b',' s) (default_params fl)
  unfolding parse
  parse-split [] = unfold split apply_pairs apply_pair in refl
  parse-split (b ∷ s) = refl

  -- Options joined by a comma are parsed as the first ones and then, from the parameters that they
  -- give, the others; an error of the first ones is the error of the whole.
  pub parse-append :
      (s t : Text) → parse fl (s ++ b',' ∷ t) ≡ (parse fl s >>= apply_pairs fl (split b',' t))
  parse-append s t =
      parse-split (s ++ b',' ∷ t)
      ∙ ap (λ l. apply_pairs fl l (default_params fl)) (split-append b',' s t)
      ∙ apply_pairs-append (split b',' s) (split b',' t) (default_params fl)
      ∙ ap (λ m. m >>= apply_pairs fl (split b',' t)) (sym (parse-split s))
