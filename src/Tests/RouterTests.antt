-- ===== src/Tests/RouterTests.antt =====
-- The router at the paths of the source's own tests, and at paths that they leave out.
use imgx.Base.{
  Text, bytes, true, false, none, some, [], ◌++◌, ◌≡◌, ◌≢◌, ◌↔◌, refl, split, All, text_beq,
  starts_with, strip_prefix, ends_with, contains, has_byte, split_once, ok, err, take,
}
use imgx.Router.{
  path_traversal, invalid_path, empty_path, health, not_found, image, image_prefix,
  contains_traversal, escapes, contains_encoded_traversal, strip_slash, sanitize_path, resolve_rest,
  resolve_clean, resolve, is_absolute_url_source,
}
use imgx.Router.Routes.{Says, resolve_iff, resolve-IsSafe}

router : Unit {0}
unfolding resolve resolve_clean resolve_rest sanitize_path strip_slash contains_traversal escapes
    contains_encoded_traversal text_beq starts_with strip_prefix ends_with contains has_byte
    split_once is_absolute_url_source take
router = tt

resolve_tests :
    (resolve (bytes "/health") ≡ health)
    × (resolve (bytes "/image/w=400,h=300/photos/cat.jpg")
        ≡ image (bytes "photos/cat.jpg") (some (bytes "w=400,h=300")))
    × (resolve (bytes "/image/photos/cat.jpg") ≡ image (bytes "photos/cat.jpg") none)
    × (resolve (bytes "/image/w=400") ≡ not_found)
    × (resolve (bytes "/photos/cat.jpg") ≡ not_found)
unfolding router
resolve_tests = (refl, refl, refl, refl, refl)

sanitize_path_tests :
    (sanitize_path (bytes "/photos/../etc/passwd") ≡ err path_traversal)
    × (sanitize_path (bytes "/a%2Eb") ≡ err path_traversal)
    × (sanitize_path (bytes "//etc/passwd") ≡ err invalid_path)
    × (sanitize_path (bytes "/") ≡ err empty_path)
    × (sanitize_path (bytes "/photos//etc/passwd") ≡ ok (bytes "photos//etc/passwd"))
unfolding router
sanitize_path_tests = (refl, refl, refl, refl, refl)

-- Only a path that starts with two slashes is refused: here the source starts with one.
embedded_absolute_path :
    resolve (bytes "/image/w=1//etc/passwd") ≡ image (bytes "/etc/passwd") (some (bytes "w=1"))
unfolding router
embedded_absolute_path = refl

absolute_url_tests :
    (is_absolute_url_source (bytes "HTTPS://a.b/c") ≡ true)
    × (is_absolute_url_source (bytes "ftp://a.b/c") ≡ false)
unfolding router
absolute_url_tests = (refl, refl)

resolve_iff_example : (resolve (bytes "/image/w=1/a") ≡ image (bytes "a") (some (bytes "w=1"))) ↔ (
    (rest : Text) × (sanitize_path (bytes "/image/w=1/a") ≡ ok (image_prefix ++ rest))
    × Says rest (record { image_path = bytes "a"; transform_string = some (bytes "w=1") }))
resolve_iff_example =
    resolve_iff (bytes "/image/w=1/a")
      (record { image_path = bytes "a"; transform_string = some (bytes "w=1") })

resolve-IsSafe_example :
    (bytes "a/b" ≢ [])
    × All (λ c. c ≢ bytes "..") (split b'/' (bytes "a/b"))
    × (has_byte 0 (bytes "a/b") ≡ false)
    × (contains_encoded_traversal (bytes "a/b") ≡ false)
unfolding router
resolve-IsSafe_example =
    resolve-IsSafe (bytes "/image/w=1/a/b")
      (record { image_path = bytes "a/b"; transform_string = some (bytes "w=1") }) refl
