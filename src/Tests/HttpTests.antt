-- ===== src/Tests/HttpTests.antt =====
-- Errors and entity tags.
use imgx.Base.{ℕ, Text, bytes, some, ◌≡◌, refl, take}
use imgx.Transform.Print.{decimal, digits}
use imgx.Http.Errors.{json_escape, escape_char, lower_hex, to_json_response, bad_request}
use imgx.Http.Errors.Escaping.{Place, decode, decode-json_escape}
use imgx.Http.Response.{hex_fixed, generate_etag}

envelope :
    to_json_response (bad_request (some (bytes "invalid width")))
    ≡ bytes "{\"error\":{\"status\":400,\"message\":\"Bad Request\",\"detail\":\"invalid width\"}}"
unfolding to_json_response bad_request json_escape escape_char decimal digits
envelope = refl

decode-json_escape_example :
    decode Place.outside (json_escape (bytes "a\"b\n")) ≡ some (bytes "a\"b\n")
decode-json_escape_example = decode-json_escape (bytes "a\"b\n")

-- A hash for the tests.
abbrev hash : Text → ℕ
hash t = 255

tag : generate_etag hash (bytes "x") ≡ bytes "00000000000000ff"
unfolding generate_etag hex_fixed take lower_hex
tag = refl
