-- ===== src/Server/Prefixes.antt =====
-- Which paths lose the configured prefix.
use imgx.Base.{
  Text, some, [], ◌∷◌, ◌++◌, ◌==◌, nat_eq, ◌≡◌, ◌≢◌, ◌⊎◌, inl, inr, refl, ap, ◌∙◌, strip_prefix,
  strip_prefix_sound, strip_prefix-append, Option-cases, Bool-cases,
}
use imgx.Server.{strip_path_prefix, after_prefix}

-- The path is the prefix, a slash and the rest.
pub record IsUnder (prefix path rest : Text) : Type 0 where
  pub nonempty : prefix ≢ []
  pub whole : path ≡ prefix ++ b'/' ∷ rest

after_prefix_lem :
    (path rest : Text)
    → ((r : Text) × (rest ≡ b'/' ∷ r) × (after_prefix path rest ≡ r))
      ⊎ (((r : Text) → rest ≢ b'/' ∷ r) × (after_prefix path rest ≡ path))
after_prefix_lem path [] = inr (λ r e. cc, refl)
after_prefix_lem path (b ∷ rest) = elim (Bool-cases (b == b'/')) [
  | inl slash ↦ inl (rest, ap (λ x. x ∷ rest) ((nat_eq.agrees b b'/').0 slash), rw slash refl)
  | inr other ↦ inr (λ r e. cc ((nat_eq.agrees b b'/').1 (cc e), other), rw other refl)
]

strip_prefix-IsUnder :
    (prefix path rest : Text)
    → IsUnder prefix path rest
    → strip_prefix prefix path ≡ some (b'/' ∷ rest)
strip_prefix-IsUnder prefix path rest w =
    ap (strip_prefix prefix) w.whole ∙ strip_prefix-append prefix (b'/' ∷ rest)

-- A path that is the prefix, a slash and a rest becomes the rest; every other path, and every path
-- if the prefix is empty, is left as it is.
pub strip_path_prefix_lem :
    (prefix path : Text)
    → ((rest : Text) × IsUnder prefix path rest × (strip_path_prefix prefix path ≡ rest))
      ⊎ (((rest : Text) → ¬ (IsUnder prefix path rest)) × (strip_path_prefix prefix path ≡ path))
unfolding strip_path_prefix
strip_path_prefix_lem [] path = inr (λ rest w. w.nonempty refl, refl)
strip_path_prefix_lem (b ∷ p) path = elim (Option-cases (strip_prefix (b ∷ p) path)) [
  | inl absent ↦ inr (
    λ rest w. cc (absent, strip_prefix-IsUnder (b ∷ p) path rest w),
    rw (absent, strip_path_prefix) refl,
  )
  | inr (after, found) ↦
      let cut = strip_prefix_sound (b ∷ p) path after found in
      elim (after_prefix_lem path after) [
        | inl (r, e, same) ↦ inl (
          r,
          record { nonempty = λ q. cc; whole = cut ∙ ap (λ t. (b ∷ p) ++ t) e },
          rw (found, strip_path_prefix) same,
        )
        | inr (no_slash, same) ↦ inr (
          λ rest w. no_slash rest (cc (found, strip_prefix-IsUnder (b ∷ p) path rest w)),
          rw (found, strip_path_prefix) same,
        )
      ]
]
