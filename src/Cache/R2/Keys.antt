-- ===== src/Cache/R2/Keys.antt =====
-- What `sanitize_key` makes of a cache key.
use imgx.Base.{
  Text, bytes, Bool, true, false, ◌&&◌, some, [], ◌∷◌, ◌++◌, ◌≡◌, ◌≢◌, refl, subst, arith, ◌==◌,
  nat_eq, contains, Bool-cases, inl, inr,
}
use imgx.Cache.R2.{sanitize_loop, sanitize_key}

-- The key as it is written: no `|`, no two slashes in a row, and, after a slash, none at the start.
abbrev pub IsWritten : Bool → Text → Type 0
IsWritten prev [] = Unit
IsWritten prev (b ∷ s) = (b ≢ b'|') × (((b == b'/') && prev) ≡ false) × IsWritten (b == b'/') s

sanitize_loop-IsWritten : (prev : Bool) (key : Text) → IsWritten prev (sanitize_loop prev key)
unfolding sanitize_loop
sanitize_loop-IsWritten prev [] = tt
sanitize_loop-IsWritten prev (raw ∷ key) =
    ground (arith, sanitize_loop-IsWritten true key, sanitize_loop-IsWritten false key)

sanitize_loop-of_IsWritten : (prev : Bool) (s : Text) → IsWritten prev s → sanitize_loop prev s ≡ s
unfolding sanitize_loop
sanitize_loop-of_IsWritten prev [] h = refl
sanitize_loop-of_IsWritten prev (b ∷ s) (p, q, h) =
    ground (arith, p, q, sanitize_loop-of_IsWritten true s, sanitize_loop-of_IsWritten false s)

same_loop :
    (prev : Bool) (s t : Text)
    → sanitize_loop prev (s ++ b'|' ∷ t) ≡ sanitize_loop prev (s ++ b'/' ∷ t)
unfolding sanitize_loop
same_loop prev [] t = refl
same_loop prev (b ∷ s) t = ground (arith, same_loop true s t, same_loop false s t)

-- What is written for a key that is not rejected holds no `|`, no two slashes in a row and no two
-- dots in a row, and writing it again changes nothing.
pub sanitize_key_lem :
    (key s : Text)
    → sanitize_key key ≡ some s
    → IsWritten false s × (contains (bytes "..") s ≡ false) × (sanitize_key s ≡ some s)
unfolding sanitize_key
sanitize_key_lem key s h =
    let written = sanitize_loop-IsWritten false key in
    elim (Bool-cases (contains (bytes "..") (sanitize_loop false key))) [
      | inl dots ↦ absurd (ground (arith, dots))
      | inr clean ↦
          let same : sanitize_loop false key ≡ s = ground (arith, clean) in
          let w = subst (IsWritten false) same written in
          let c = subst (λ t. contains (bytes "..") t ≡ false) same clean in
          (w, c, rw (sanitize_loop-of_IsWritten false s w, c) refl)
    ]

-- A `|` and a `/` in the same place give the same object key.
pub sanitize_key_collision :
    (s t : Text) → sanitize_key (s ++ b'|' ∷ t) ≡ sanitize_key (s ++ b'/' ∷ t)
unfolding sanitize_key
sanitize_key_collision s t = rw (same_loop false s t) refl
