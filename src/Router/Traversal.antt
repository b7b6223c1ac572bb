-- ===== src/Router/Traversal.antt =====
-- The tests on a path, against the components between its slashes.
use imgx.Base.{
  ℕ, Text, bytes, Bool, true, false, ◌&&◌, ◌||◌, List, [], ◌∷◌, ◌++◌, ◌≡◌, ◌≢◌, ◌↔◌, refl, sym, ap,
  ap₂, ◌∙◌, arith, ◌==◌, nat_eq, text_eq, text_beq, if◌then◌else◌, starts_with, ends_with, contains,
  split, All,
}
use imgx.Router.{contains_traversal, escapes, contains_encoded_traversal}

-- Some component is `..`.
unfoldable pub any_dots : List Text → Bool
any_dots [] = false
any_dots (s ∷ ss) = s == bytes ".." || any_dots ss

-- The first component is `..`.
head_dots : Text → Bool
head_dots s = s == bytes ".." || starts_with (bytes "../") s

-- A component behind a slash is `..`.
later_dots : Text → Bool
later_dots [] = false
later_dots (b ∷ s) = (b == b'/' && head_dots s) || later_dots s

-- The component before the first slash.
unfoldable pub first_piece : Text → Text
first_piece [] = []
first_piece (b ∷ s) = if b == b'/' then [] else b ∷ first_piece s

later_pieces : Text → List Text
later_pieces [] = []
later_pieces (b ∷ s) = if b == b'/' then split b'/' s else later_pieces s

split-pieces : (s : Text) → split b'/' s ≡ first_piece s ∷ later_pieces s
unfolding split first_piece later_pieces
split-pieces [] = refl
split-pieces (b ∷ s) = ground (arith, split-pieces s)

first_piece-dots : (s : Text) → (first_piece s == bytes "..") ≡ head_dots s
unfolding first_piece head_dots starts_with text_beq
first_piece-dots [] = refl
first_piece-dots (a ∷ []) = ground arith
first_piece-dots (a ∷ b ∷ []) = ground arith
first_piece-dots (a ∷ b ∷ c ∷ s) = ground arith

any_dots-later : (s : Text) → any_dots (later_pieces s) ≡ later_dots s
unfolding any_dots later_pieces later_dots
any_dots-later [] = refl
any_dots-later (b ∷ s) = ground (arith, split-pieces s, first_piece-dots s, any_dots-later s)

gather : (p x e y c : Bool) → (((p && x) || e) || ((p && y) || c)) ≡ ((p && (x || y)) || (e || c))
gather p x e y c = ground arith

beq_slash : (b : ℕ) → (b'/' == b) ≡ (b == b'/')
beq_slash b = ground arith

starts_with_slash :
    (b : ℕ) (s : Text)
    → starts_with (bytes "/../") (b ∷ s) ≡ ((b == b'/') && starts_with (bytes "../") s)
unfolding starts_with
starts_with_slash b s = ap (λ p. p && starts_with (bytes "../") s) (beq_slash b)

ends_with_slash :
    (b : ℕ) (s : Text) → text_beq (b ∷ s) (bytes "/..") ≡ ((b == b'/') && text_beq s (bytes ".."))
unfolding text_beq
ends_with_slash b s = refl

later_dots-tests :
    (s : Text) → (ends_with (bytes "/..") s || contains (bytes "/../") s) ≡ later_dots s
later_dots-tests [] = unfold ends_with contains later_dots text_beq starts_with in refl
later_dots-tests (b ∷ s) = step (later_dots-tests s)
  where
    e : Bool
    e = ends_with (bytes "/..") s

    c : Bool
    c = contains (bytes "/../") s

    step :
        (e || c) ≡ later_dots s
        → (ends_with (bytes "/..") (b ∷ s) || contains (bytes "/../") (b ∷ s)) ≡ later_dots (b ∷ s)
    step ih =
        unfold ends_with contains later_dots head_dots in
        (ap₂ (λ p q. (p || e) || (q || c)) (ends_with_slash b s) (starts_with_slash b s)
          ∙ gather (b == b'/') (text_beq s (bytes "..")) e (starts_with (bytes "../") s) c
          ∙ ap (λ r. ((b == b'/') && head_dots s) || r) ih)

any_dots-split : (s : Text) → any_dots (split b'/' s) ≡ (head_dots s || later_dots s)
unfolding any_dots
any_dots-split s = rw (split-pieces, any_dots-later, first_piece-dots) refl

contains_traversal-split : (s : Text) → contains_traversal s ≡ any_dots (split b'/' s)
unfolding contains_traversal head_dots any_dots
contains_traversal-split s =
    assoc_tests (s == bytes "..") (starts_with (bytes "../") s) (ends_with (bytes "/..") s)
      (contains (bytes "/../") s)
    ∙ ap (λ r. head_dots s || r) (later_dots-tests s)
    ∙ sym (any_dots-split s)
  where
    assoc_tests : (a b c d : Bool) → (a || b || c || d) ≡ ((a || b) || (c || d))
    assoc_tests a b c d = ground arith

All-of_any_dots : (ss : List Text) → (any_dots ss ≡ false) ↔ All (λ s. s ≢ bytes "..") ss
unfolding any_dots
All-of_any_dots [] = ground arith
All-of_any_dots (s ∷ ss) =
    let eq = text_eq.agrees s (bytes "..") in
    let (to, from) = All-of_any_dots ss in
    (
      λ h. (λ e. absurd (ground (arith, eq)), to (ground (arith, eq))),
      λ (n, h). ground (arith, eq, from h),
    )

-- A path passes the tests for `..` exactly if none of the components between its slashes is `..`.
pub contains_traversal_iff :
    (s : Text) → (contains_traversal s ≡ false) ↔ All (λ c. c ≢ bytes "..") (split b'/' s)
contains_traversal_iff s = rw (contains_traversal-split s) (All-of_any_dots (split b'/' s))

or_right : (a c : Bool) → (a || c) ≡ false → c ≡ false
or_right a c e = ground arith

later_dots-suffix :
    (s t : Text) → later_dots (s ++ b'/' ∷ t) ≡ false → (head_dots t || later_dots t) ≡ false
unfolding later_dots
later_dots-suffix [] t h = h
later_dots-suffix (b ∷ s) t h = later_dots-suffix s t (or_right _ _ h)

-- What follows a slash passes the tests if the whole path does.
pub contains_traversal-suffix :
    (s t : Text) → contains_traversal (s ++ b'/' ∷ t) ≡ false → contains_traversal t ≡ false
contains_traversal-suffix s t h =
    contains_traversal-split t
    ∙ any_dots-split t
    ∙ later_dots-suffix s t
        (or_right _ _ (sym (any_dots-split _) ∙ sym (contains_traversal-split _) ∙ h))

pub contains_encoded_traversal-suffix :
    (s t : Text)
    → contains_encoded_traversal (s ++ t) ≡ false
    → contains_encoded_traversal t ≡ false
unfolding contains_encoded_traversal
contains_encoded_traversal-suffix [] t h = h
contains_encoded_traversal-suffix (b ∷ s) t h =
    contains_encoded_traversal-suffix s t (or_right _ _ h)

escape_starts :
    (b : ℕ) (s : Text)
    → ((b == b'%') && escapes s) ≡ (
        starts_with (bytes "%2e") (b ∷ s)
        || starts_with (bytes "%2E") (b ∷ s)
        || starts_with (bytes "%2f") (b ∷ s)
        || starts_with (bytes "%2F") (b ∷ s)
        || starts_with (bytes "%00") (b ∷ s))
unfolding escapes starts_with
escape_starts b [] = ground arith
escape_starts b (h ∷ []) = ground arith
escape_starts b (h ∷ l ∷ s) = ground arith

pair_up :
    (a b c d e a' b' c' d' e' : Bool)
    → ((a || b || c || d || e) || (a' || b' || c' || d' || e'))
      ≡ ((a || a') || (b || b') || (c || c') || (d || d') || (e || e'))
pair_up false b c d e a' b' c' d' e' = ground arith
pair_up true b c d e a' b' c' d' e' = refl

-- The loop finds exactly the paths that hold one of the five escapes.
pub contains_encoded_traversal-contains :
    (s : Text)
    → contains_encoded_traversal s ≡ (
        contains (bytes "%2e") s
        || contains (bytes "%2E") s
        || contains (bytes "%2f") s
        || contains (bytes "%2F") s
        || contains (bytes "%00") s)
unfolding contains_encoded_traversal contains
contains_encoded_traversal-contains [] = unfold starts_with in refl
contains_encoded_traversal-contains (b ∷ s) =
    ap₂ (λ p q. p || q) (escape_starts b s) (contains_encoded_traversal-contains s)
    ∙ pair_up (starts_with (bytes "%2e") (b ∷ s)) (starts_with (bytes "%2E") (b ∷ s))
        (starts_with (bytes "%2f") (b ∷ s)) (starts_with (bytes "%2F") (b ∷ s))
        (starts_with (bytes "%00") (b ∷ s)) (contains (bytes "%2e") s) (contains (bytes "%2E") s)
        (contains (bytes "%2f") s) (contains (bytes "%2F") s) (contains (bytes "%00") s)
