-- ===== src/Transform/Params/Parse/Overlays.antt =====
-- Growing and writing the list of overlays.
use imgx.Base.{
  ℕ, zero, suc, ◌+◌, All, List, [], ◌∷◌, ◌++◌, ◌≡◌, refl, arith, length, length-append, text_eq,
}
use imgx.Transform.Params.Parse.{push_many, set_at, get_or}

module _ {A : Type 0} where
  pub length-push_many : (n : ℕ) (a : A) (l : List A) → length (push_many n a l) ≡ n + length l
  unfolding push_many
  length-push_many zero a l = omega arith
  length-push_many (suc n) a l =
      omega (arith, length-push_many n a (l ++ a ∷ []), length-append l (a ∷ []))

  pub length-set_at : (l : List A) (i : ℕ) (a : A) → length (set_at l i a) ≡ length l
  unfolding set_at
  length-set_at [] i a = refl
  length-set_at (x ∷ l) zero a = refl
  length-set_at (x ∷ l) (suc i) a = omega (arith, length-set_at l i a)

  module _ (P : A → Type 0) where
    pub All-concat : (l : List A) (a : A) → All P l → P a → All P (l ++ a ∷ [])
    All-concat [] a h q = (q, tt)
    All-concat (x ∷ l) a (p, h) q = (p, All-concat l a h q)

    pub All-push_many : (n : ℕ) (a : A) (l : List A) → All P l → P a → All P (push_many n a l)
    unfolding push_many
    All-push_many zero a l h q = h
    All-push_many (suc n) a l h q = All-push_many n a (l ++ a ∷ []) (All-concat l a h q) q

    pub All-set_at : (l : List A) (i : ℕ) (a : A) → All P l → P a → All P (set_at l i a)
    unfolding set_at
    All-set_at [] i a h q = tt
    All-set_at (x ∷ l) zero a (p, h) q = (q, h)
    All-set_at (x ∷ l) (suc i) a (p, h) q = (p, All-set_at l i a h q)

    pub All-get_or : (l : List A) (i : ℕ) (d : A) → All P l → P d → P (get_or l i d)
    unfolding get_or
    All-get_or [] i d h q = q
    All-get_or (x ∷ l) zero d (p, h) q = p
    All-get_or (x ∷ l) (suc i) d (p, h) q = All-get_or l i d h q
