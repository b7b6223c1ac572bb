-- ===== src/Router/Accepted.antt =====
-- Which paths pass `sanitize_path`.
use imgx.Base.{
  ℕ, Text, bytes, false, [], ◌∷◌, ◌≡◌, ◌≢◌, ◌↔◌, refl, sym, arith, nat_eq, text_eq, starts_with,
  has_byte, split, All, ok, subst,
}
use imgx.Router.{
  is_empty, contains_traversal, contains_encoded_traversal, strip_slash, sanitize_path,
}
use imgx.Router.Traversal.{contains_traversal_iff}

-- A path that `sanitize_path` lets through.
pub record IsClean (s : Text) : Type 0 where
  pub nonempty : s ≢ []
  pub relative : starts_with (bytes "/") s ≡ false
  pub no_nul : has_byte 0 s ≡ false
  pub no_dots : All (λ c. c ≢ bytes "..") (split b'/' s)
  pub no_escapes : contains_encoded_traversal s ≡ false

has_byte-strip_slash :
    (c : ℕ) (s : Text) → has_byte c s ≡ false → has_byte c (strip_slash s) ≡ false
unfolding has_byte strip_slash
has_byte-strip_slash c [] h = refl
has_byte-strip_slash c (b ∷ s) h = ground arith

pub is_empty_iff : (s : Text) → (is_empty s ≡ false) ↔ (s ≢ [])
is_empty_iff [] = ground arith
is_empty_iff (b ∷ s) = ground arith

sanitize_path_tests :
    (path clean : Text)
    → (sanitize_path path ≡ ok clean) ↔ (
        (clean ≡ strip_slash path)
        × (has_byte 0 path ≡ false)
        × (is_empty clean ≡ false)
        × (starts_with (bytes "/") clean ≡ false)
        × (contains_traversal clean ≡ false)
        × (contains_encoded_traversal clean ≡ false))
unfolding sanitize_path
sanitize_path_tests path clean = (λ h. ground arith, λ (e, a, b, c, d, f). ground arith)

-- `sanitize_path` accepts a path exactly if, without its first slash, it is not empty, starts with
-- no further slash, has no component `..` and none of the escapes, and there is no NUL in the path;
-- what it returns is the path without its first slash.
pub sanitize_path_iff :
    (path clean : Text)
    → (sanitize_path path ≡ ok clean)
      ↔ ((clean ≡ strip_slash path) × (has_byte 0 path ≡ false) × IsClean clean)
sanitize_path_iff path clean = (
  λ h.
      let (e, n, nonempty, relative, dots, escapes) = (sanitize_path_tests path clean).0 h in
      (
        e,
        n,
        record {
          nonempty = (is_empty_iff clean).0 nonempty;
          relative = relative;
          no_nul = subst (λ s. has_byte 0 s ≡ false) (sym e) (has_byte-strip_slash 0 path n);
          no_dots = (contains_traversal_iff clean).0 dots;
          no_escapes = escapes;
        },
      ),
  λ (e, n, c). (sanitize_path_tests path clean).1 (
    e,
    n,
    (is_empty_iff clean).1 c.nonempty,
    c.relative,
    (contains_traversal_iff clean).1 c.no_dots,
    c.no_escapes,
  ),
)
