-- ===== src/Router/Routes.antt =====
-- Which route a path resolves to.
use imgx.Base.{
  Text, bytes, true, false, none, some, [], ◌∷◌, ◌++◌, ◌≡◌, ◌≢◌, ◌↔◌, ◌⊎◌, inl, inr, refl, sym, ap,
  ◌∙◌, arith, nat_eq, text_eq, text_beq, strip_prefix, has_byte, split_once, split, All, ok,
  Bool-cases, Result-cases, Option-cases, append_assoc, subst, split_once-none, split_once_sound,
  split_once-append, has_byte-suffix, strip_prefix_sound, strip_prefix-append,
}
use imgx.Router.{
  ImageRequest, image_request, image_prefix, is_empty, contains_traversal,
  contains_encoded_traversal, sanitize_path, resolve_rest, resolve_clean, resolve,
}
use imgx.Router.Traversal.{
  first_piece, contains_traversal_iff, contains_traversal-suffix, contains_encoded_traversal-suffix,
}
use imgx.Router.Accepted.{sanitize_path_iff, is_empty_iff}

-- What the path after `image/` says, in its two forms: options, which hold a `=` and no slash, then
-- a slash and a source; or a source alone, with no `=` before its first slash.
pub record WithOptions (rest : Text) (r : ImageRequest) : Type 0 where
  pub options : Text
  pub given : r.transform_string ≡ some options
  pub whole : rest ≡ options ++ b'/' ∷ r.image_path
  pub has_equals : has_byte b'=' options ≡ true
  pub no_slash : has_byte b'/' options ≡ false
  pub nonempty : r.image_path ≢ []

pub record SourceOnly (rest : Text) (r : ImageRequest) : Type 0 where
  pub not_given : r.transform_string ≡ none
  pub whole : rest ≡ r.image_path
  pub no_options : has_byte b'=' (first_piece rest) ≡ false
  pub nonempty : r.image_path ≢ []

abbrev pub Says : Text → ImageRequest → Type 0
Says rest r = WithOptions rest r ⊎ SourceOnly rest r

first_piece-append : (o s : Text) → has_byte b'/' o ≡ false → first_piece (o ++ b'/' ∷ s) ≡ o
unfolding first_piece has_byte
first_piece-append [] s h = refl
first_piece-append (b ∷ o) s h = ground (arith, first_piece-append o s)

first_piece-of_absent : (s : Text) → has_byte b'/' s ≡ false → first_piece s ≡ s
unfolding first_piece has_byte
first_piece-of_absent [] h = refl
first_piece-of_absent (b ∷ s) h = ground (arith, first_piece-of_absent s)

resolve_rest_sound :
    (rest : Text) (r : ImageRequest) → rest ≢ [] → resolve_rest rest ≡ image_request r → Says rest r
unfolding resolve_rest
resolve_rest_sound rest r n h = elim (Option-cases (split_once b'/' rest)) [
  | inl whole ↦
      let absent = split_once-none b'/' rest whole in
      let piece = first_piece-of_absent rest absent in
      let plain : has_byte b'=' rest ≡ false = ground (arith, whole) in
      inr (record {
        not_given = ground (arith, whole);
        whole = ground (arith, whole);
        no_options = rw piece plain;
        nonempty = λ e. n (ground (arith, whole));
      })
  | inr (w, cut) ↦
      let (eq, absent) = split_once_sound b'/' rest w.0 w.1 cut in
      elim (Bool-cases (has_byte b'=' w.0)) [
        | inl options ↦ elim (Bool-cases (is_empty w.1)) [
          | inl nothing ↦ absurd (ground (arith, cut, options, nothing))
          | inr something ↦
              let same : record { image_path = w.1; transform_string = some w.0 } ≡ r =
                ground (arith, cut, options, something) in
              inl (
                subst (WithOptions rest) same (record {
                  options = w.0;
                  given = refl;
                  whole = eq;
                  has_equals = options;
                  no_slash = absent;
                  nonempty = (is_empty_iff w.1).0 something;
                }))
        ]
        | inr plain ↦
            let same : record { image_path = rest; transform_string = none } ≡ r =
              ground (arith, cut, plain) in
            let piece = ap first_piece eq ∙ first_piece-append w.0 w.1 absent in
            inr (
              subst (SourceOnly rest) same (record {
                not_given = refl;
                whole = refl;
                no_options = rw piece plain;
                nonempty = n;
              }))
      ]
]

resolve_rest_complete :
    (rest : Text) (r : ImageRequest) → Says rest r → resolve_rest rest ≡ image_request r
unfolding resolve_rest
resolve_rest_complete rest r (inl w) =
    let cut =
      ap (split_once b'/') w.whole ∙ split_once-append b'/' w.options r.image_path w.no_slash in
    let something = (is_empty_iff r.image_path).1 w.nonempty in
    ground (arith, cut, w.has_equals, something, w.given)
resolve_rest_complete rest r (inr s) = elim (Option-cases (split_once b'/' rest)) [
  | inl uncut ↦
      let piece = first_piece-of_absent rest (split_once-none b'/' rest uncut) in
      let plain : has_byte b'=' rest ≡ false =
        subst (λ t. has_byte b'=' t ≡ false) piece s.no_options in
      ground (arith, uncut, plain, s.whole, s.not_given)
  | inr (w, cut) ↦
      let (eq, absent) = split_once_sound b'/' rest w.0 w.1 cut in
      let piece = ap first_piece eq ∙ first_piece-append w.0 w.1 absent in
      let plain : has_byte b'=' w.0 ≡ false =
        subst (λ t. has_byte b'=' t ≡ false) piece s.no_options in
      ground (arith, cut, plain, s.whole, s.not_given)
]

nonempty-Says : (rest : Text) (r : ImageRequest) → Says rest r → is_empty rest ≡ false
nonempty-Says rest r (inl w) = rw w.whole (nonempty-cons w.options r.image_path)
  where
    nonempty-cons : (o s : Text) → is_empty (o ++ b'/' ∷ s) ≡ false
    nonempty-cons [] s = refl
    nonempty-cons (b ∷ o) s = refl
nonempty-Says rest r (inr s) = (is_empty_iff rest).1 (λ e. s.nonempty (sym s.whole ∙ e))

resolve_clean_sound :
    (clean : Text) (r : ImageRequest)
    → resolve_clean clean ≡ image_request r
    → (rest : Text) × (clean ≡ image_prefix ++ rest) × Says rest r
unfolding resolve_clean
resolve_clean_sound clean r h = elim (Option-cases (strip_prefix image_prefix clean)) [
  | inl other ↦ absurd (ground (arith, other))
  | inr (rest, found) ↦
      let something : is_empty rest ≡ false = ground (arith, found) in
      let resolved : resolve_rest rest ≡ image_request r = ground (arith, found, something) in
      (
        rest,
        strip_prefix_sound image_prefix clean rest found,
        resolve_rest_sound rest r ((is_empty_iff rest).0 something) resolved,
      )
]

resolve_clean_complete :
    (rest : Text) (r : ImageRequest)
    → Says rest r
    → resolve_clean (image_prefix ++ rest) ≡ image_request r
unfolding resolve_clean text_beq
resolve_clean_complete rest r s =
    rw (strip_prefix-append image_prefix rest, nonempty-Says rest r s)
      (resolve_rest_complete rest r s)

-- A path resolves to an image request exactly if `sanitize_path` accepts it, what is accepted starts
-- with `image/`, and the rest says that request: options and a source, or a source alone.
pub resolve_iff :
    (path : Text) (r : ImageRequest)
    → (resolve path ≡ image_request r)
      ↔ ((rest : Text) × (sanitize_path path ≡ ok (image_prefix ++ rest)) × Says rest r)
unfolding resolve
resolve_iff path r = (
  λ h. elim (Result-cases (sanitize_path path)) [
    | inl (clean, accepted) ↦
        let (rest, eq, says) = resolve_clean_sound clean r (ground (arith, accepted)) in
        (rest, accepted ∙ ap ok eq, says)
    | inr (e, refused) ↦ absurd (ground (arith, refused))
  ],
  λ (rest, accepted, says). rw (accepted, resolve) (resolve_clean_complete rest r says),
)

image_path-suffix :
    (rest : Text) (r : ImageRequest)
    → Says rest r
    → (before : Text) × (image_prefix ++ rest ≡ before ++ b'/' ∷ r.image_path)
image_path-suffix rest r (inl w) = (
  image_prefix ++ w.options,
  ap (λ t. image_prefix ++ t) w.whole
      ∙ sym (append_assoc image_prefix w.options (b'/' ∷ r.image_path)),
)
image_path-suffix rest r (inr s) = (bytes "image", ap (λ t. image_prefix ++ t) s.whole)

-- Whatever the path, the source of an image request is not empty, none of the components between
-- its slashes is `..`, and it holds no NUL and none of the escapes.
pub resolve-IsSafe :
    (path : Text) (r : ImageRequest)
    → resolve path ≡ image_request r
    → (r.image_path ≢ [])
      × All (λ c. c ≢ bytes "..") (split b'/' r.image_path)
      × (has_byte 0 r.image_path ≡ false)
      × (contains_encoded_traversal r.image_path ≡ false)
resolve-IsSafe path r h =
    let (rest, accepted, says) = (resolve_iff path r).0 h in
    let (e, n, c) = (sanitize_path_iff path (image_prefix ++ rest)).0 accepted in
    let (before, whole) = image_path-suffix rest r says in
    let cut = whole ∙ sym (append_assoc before (b'/' ∷ []) r.image_path) in
    let dots = (contains_traversal_iff (image_prefix ++ rest)).1 c.no_dots in
    (
      elim says [ inl w ↦ w.nonempty | inr s ↦ s.nonempty ],
      (contains_traversal_iff r.image_path).0 (
          contains_traversal-suffix before r.image_path
            (subst (λ t. contains_traversal t ≡ false) whole dots)),
      has_byte-suffix 0 (before ++ b'/' ∷ []) r.image_path
          (subst (λ t. has_byte 0 t ≡ false) cut c.no_nul),
      contains_encoded_traversal-suffix (before ++ b'/' ∷ []) r.image_path
          (subst (λ t. contains_encoded_traversal t ≡ false) cut c.no_escapes),
    )
