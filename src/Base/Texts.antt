-- ===== src/Base/Texts.antt =====
-- Texts as lists of bytes, as the source's `&str` methods on ASCII patterns read them.
use Prim.Native.Nat.{ℕ}
use Prim.Native.Char.{code}
use Prim.Native.String.{String}
use mathlib.Core.Path.{◌≡◌}
use mathlib.Core.Logic.{◌↔◌}
use mathlib.Core.Bool.{Bool, true, false, ◌&&◌, ◌||◌}
use mathlib.Core.Option.{Option, none, some}
use mathlib.Core.List.{List, [], ◌∷◌, ◌++◌}
use native.Mathlib.Omega.{arith}
use imgx.Base.Tests.{HasTest, ◌==◌, nat_eq, if◌then◌else◌}

abbrev pub Text : Type 0
Text = List ℕ

-- The bytes of an ASCII literal.
abbrev pub bytes : String → Text
bytes String.[] = []
bytes (String.◌∷◌ c s) = code c ∷ bytes s

unfoldable pub text_beq : Text → Text → Bool
text_beq [] [] = true
text_beq (a ∷ s) (b ∷ t) = (a == b) && text_beq s t
text_beq _ _ = false

pub text_beq_iff : (s t : Text) → (text_beq s t ≡ true) ↔ (s ≡ t)
unfolding text_beq
text_beq_iff [] [] = ground arith
text_beq_iff [] (b ∷ t) = ground arith
text_beq_iff (a ∷ s) [] = ground arith
text_beq_iff (a ∷ s) (b ∷ t) = ground (arith, text_beq_iff s t)

instance abbrev pub text_eq : HasTest Text
text_eq = record { test = text_beq; agrees = text_beq_iff }

-- `s.starts_with(p)`
unfoldable pub starts_with : Text → Text → Bool
starts_with [] s = true
starts_with (a ∷ p) [] = false
starts_with (a ∷ p) (b ∷ s) = (a == b) && starts_with p s

-- `s.strip_prefix(p)`
unfoldable pub strip_prefix : Text → Text → Option Text
strip_prefix [] s = some s
strip_prefix (a ∷ p) [] = none
strip_prefix (a ∷ p) (b ∷ s) = if a == b then strip_prefix p s else none

-- `s.contains(c)` for a byte
unfoldable pub has_byte : ℕ → Text → Bool
has_byte c [] = false
has_byte c (b ∷ s) = (b == c) || has_byte c s

-- `s.contains(p)` for a text
unfoldable pub contains : Text → Text → Bool
contains p [] = starts_with p []
contains p (b ∷ s) = starts_with p (b ∷ s) || contains p s

-- `s.ends_with(p)`
unfoldable pub ends_with : Text → Text → Bool
ends_with p [] = text_beq [] p
ends_with p (b ∷ s) = text_beq (b ∷ s) p || ends_with p s

abbrev pub cons_first : ℕ → Option (Text × Text) → Option (Text × Text)
cons_first b none = none
cons_first b (some (s, t)) = some (b ∷ s, t)

-- The slices `&s[..i]` and `&s[i + 1..]` at `i = s.find(c)`.
unfoldable pub split_once : ℕ → Text → Option (Text × Text)
split_once c [] = none
split_once c (b ∷ s) =
    let later = cons_first b (split_once c s) in if b == c then some ([], s) else later

abbrev pub cons_head : ℕ → List Text → List Text
cons_head b [] = (b ∷ []) ∷ []
cons_head b (s ∷ ss) = (b ∷ s) ∷ ss

-- `s.split(c)`: at least one piece, and empty pieces are kept
unfoldable pub split : ℕ → Text → List Text
split c [] = [] ∷ []
split c (b ∷ s) = let rest = split c s in if b == c then [] ∷ rest else cons_head b rest

-- `ss.join(d)`
unfoldable pub join : Text → List Text → Text
join d [] = []
join d (s ∷ []) = s
join d (s ∷ t ∷ ss) = s ++ (d ++ join d (t ∷ ss))

-- `match s { lit => a, …, _ => d }`: the first arm whose literal is the text
unfoldable pub match_str {ℓ} : {A : Type ℓ} → Text → List (String × A) → A → A
match_str s [] d = d
match_str s ((lit, a) ∷ arms) d = if s == bytes lit then a else match_str s arms d
