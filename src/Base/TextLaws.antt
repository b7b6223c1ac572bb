-- ===== src/Base/TextLaws.antt =====
-- Laws of the operations on texts.
use Prim.Native.Nat.{ℕ}
use mathlib.Core.Path.{◌≡◌, refl, sym, ap, ap₂}
use mathlib.Core.Logic.{◌≢◌, ◌⊎◌, inl, inr}
use mathlib.Core.Bool.{true, false, ◌||◌}
use mathlib.Core.Option.{none, some}
use mathlib.Core.List.{[], ◌∷◌, ◌++◌}
use native.Mathlib.Omega.{arith}
use imgx.Base.Tests.{◌==◌, nat_eq, Bool-cases, Option-cases}
use imgx.Base.Texts.{Text, has_byte, strip_prefix, split_once, text_eq}

pub has_byte-append : (c : ℕ) (s t : Text) → has_byte c (s ++ t) ≡ (has_byte c s || has_byte c t)
unfolding has_byte
has_byte-append c [] t = refl
has_byte-append c (b ∷ s) t = ground (arith, has_byte-append c s t)

pub has_byte_middle : (c : ℕ) (s t : Text) → has_byte c (s ++ c ∷ t) ≡ true
unfolding has_byte
has_byte_middle c [] t = ground arith
has_byte_middle c (b ∷ s) t = ground (arith, has_byte_middle c s t)

-- A text is cut at the last separator in one way only.
pub cut_last_injective :
    (c : ℕ) (s s' t t' : Text)
    → has_byte c t ≡ false
    → has_byte c t' ≡ false
    → s ++ c ∷ t ≡ s' ++ c ∷ t'
    → (s ≡ s') × (t ≡ t')
cut_last_injective c [] [] t t' h h' e = (refl, cc)
cut_last_injective c [] (b ∷ s') t t' h h' e =
    let tail : t ≡ s' ++ c ∷ t' = cc in
    absurd (cc (ap (has_byte c) tail, h, has_byte_middle c s' t'))
cut_last_injective c (b ∷ s) [] t t' h h' e =
    let tail : s ++ c ∷ t ≡ t' = cc in absurd (cc (ap (has_byte c) tail, h', has_byte_middle c s t))
cut_last_injective c (b ∷ s) (b' ∷ s') t t' h h' e =
    let rest : s ++ c ∷ t ≡ s' ++ c ∷ t' = cc in
    let (p, q) = cut_last_injective c s s' t t' h h' rest in
    let first : b ≡ b' = cc in (ap₂ (λ x xs. x ∷ xs) first p, q)

pub text_cases : (j k : Text) → (j ≡ k) ⊎ (j ≢ k)
text_cases j k = elim (Bool-cases (j == k)) [
  | inl same ↦ inl ((text_eq.agrees j k).0 same)
  | inr other ↦ inr (λ e. cc ((text_eq.agrees j k).1 e, other))
]

pub strip_prefix_sound : (p s r : Text) → strip_prefix p s ≡ some r → s ≡ p ++ r
unfolding strip_prefix
strip_prefix_sound [] s r h = cc
strip_prefix_sound (a ∷ p) [] r h = cc
strip_prefix_sound (a ∷ p) (b ∷ s) r h =
    let (same, rest) : (a ≡ b) × (strip_prefix p s ≡ some r) = (ground arith, ground arith) in
    ap₂ (λ x xs. x ∷ xs) (sym same) (strip_prefix_sound p s r rest)

pub strip_prefix-append : (p r : Text) → strip_prefix p (p ++ r) ≡ some r
unfolding strip_prefix
strip_prefix-append [] r = refl
strip_prefix-append (a ∷ p) r = ground (arith, strip_prefix-append p r)

pub split_once_sound :
    (c : ℕ) (s a b : Text)
    → split_once c s ≡ some (a, b)
    → (s ≡ a ++ c ∷ b) × (has_byte c a ≡ false)
unfolding split_once has_byte
split_once_sound c [] a b h = cc
split_once_sound c (x ∷ s) [] b h = ground (arith, Option-cases (split_once c s))
split_once_sound c (x ∷ s) (y ∷ a) b h =
    ground (arith, split_once_sound c s a b, Option-cases (split_once c s))

pub split_once-append :
    (c : ℕ) (a b : Text) → has_byte c a ≡ false → split_once c (a ++ c ∷ b) ≡ some (a, b)
unfolding split_once has_byte
split_once-append c [] b h = ground arith
split_once-append c (x ∷ a) b h = ground (arith, split_once-append c a b)

pub split_once-none : (c : ℕ) (s : Text) → split_once c s ≡ none → has_byte c s ≡ false
unfolding split_once has_byte
split_once-none c [] h = refl
split_once-none c (x ∷ s) h = ground (arith, split_once-none c s, Option-cases (split_once c s))

pub split_once-of_absent : (c : ℕ) (s : Text) → has_byte c s ≡ false → split_once c s ≡ none
unfolding split_once has_byte
split_once-of_absent c [] h = refl
split_once-of_absent c (x ∷ s) h = ground (arith, split_once-of_absent c s)

pub has_byte-suffix : (c : ℕ) (s t : Text) → has_byte c (s ++ t) ≡ false → has_byte c t ≡ false
unfolding has_byte
has_byte-suffix c [] t h = h
has_byte-suffix c (b ∷ s) t h = has_byte-suffix c s t (ground arith)
