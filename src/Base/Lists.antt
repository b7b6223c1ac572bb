-- ===== src/Base/Lists.antt =====
-- Lists measured by native numbers, under the library's names.
use Prim.Native.Nat.{ℕ, zero, suc, ◌+◌}
use mathlib.Core.Path.{◌≡◌, refl, ap, ◌∙◌, subst}
use mathlib.Core.Bool.{Bool, true, ◌&&◌}
use mathlib.Core.List.{List, [], ◌∷◌, ◌++◌}
use native.Mathlib.Omega.{arith}

module _ {ℓ} {A : Type ℓ} where
  abbrev pub length : List A → ℕ
  length [] = 0
  length (x ∷ xs) = suc (length xs)

  unfoldable pub drop : ℕ → List A → List A
  drop zero xs = xs
  drop (suc n) [] = []
  drop (suc n) (x ∷ xs) = drop n xs

  unfoldable pub take : ℕ → List A → List A
  take zero xs = []
  take (suc n) [] = []
  take (suc n) (x ∷ xs) = x ∷ take n xs

  abbrev pub all : (A → Bool) → List A → Bool
  all p [] = true
  all p (x ∷ xs) = p x && all p xs

  pub length-append : (xs ys : List A) → length (xs ++ ys) ≡ length xs + length ys
  length-append [] ys = omega arith
  length-append (x ∷ xs) ys = omega (arith, length-append xs ys)

pub length-omit {ℓ} :
    {A : Type ℓ} (xs ys : List A) (x : A) {l : List A}
    → l ≡ xs ++ x ∷ ys
    → length l ≡ suc (length (xs ++ ys))
length-omit [] ys x e = ap length e
length-omit (y ∷ xs) ys x e = ap length e ∙ ap suc (length-omit xs ys x refl)

module _ {ℓ κ} {A : Type ℓ} (P : A → Type κ) where
  abbrev pub All : List A → Type κ
  All [] = Unit
  All (x ∷ xs) = P x × All xs

  -- Some element of the list has the property; which one is kept.
  pub data Any : List A → Type (ℓ ⊔ κ) where
    here : {x : A} {xs : List A} → P x → Any (x ∷ xs)
    there : {x : A} {xs : List A} → Any xs → Any (x ∷ xs)

  pub All-insert : (xs ys : List A) {x : A} → All xs → All ys → P x → All (xs ++ x ∷ ys)
  All-insert [] ys h k p = (p, k)
  All-insert (y ∷ xs) ys (q, h) k p = (q, All-insert xs ys h k p)

  pub All-omit : (xs ys : List A) {x : A} → All (xs ++ x ∷ ys) → P x × All (xs ++ ys)
  All-omit [] ys h = h
  All-omit (y ∷ xs) ys (q, h) = let (p, r) = All-omit xs ys h in (p, (q, r))

  -- what holds of a list holds of an element and of the others
  pub All-pick :
      (xs ys : List A) {x : A} {l : List A} → l ≡ xs ++ x ∷ ys → All l → P x × All (xs ++ ys)
  All-pick xs ys e h = All-omit xs ys (subst All e h)
