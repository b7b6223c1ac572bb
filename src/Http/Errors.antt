-- ===== src/Http/Errors.antt =====
-- crates/imgx/src/http/errors.rs: structured errors and their JSON envelope. A `&str` is the list of
-- its bytes; every character that is escaped is one byte.
pub mod Escaping
use imgx.Base.{
  ℕ, ◌+◌, ◌-◌, ◌/◌, ◌%◌, Text, bytes, Bool, Option, none, some, List, [], ◌∷◌, ◌++◌, ltb, ◌==◌,
  nat_eq, if◌then◌else◌,
}
use imgx.Transform.Print.{decimal}

pub record HttpError : Type 0 where
  pub status : ℕ
  pub message : Text
  pub detail : Option Text

abbrev make : ℕ → Text → Option Text → HttpError
make s m d = record { status = s; message = m; detail = d }

unfoldable pub bad_request : Option Text → HttpError
bad_request d = make 400 (bytes "Bad Request") d

unfoldable pub forbidden : Option Text → HttpError
forbidden d = make 403 (bytes "Forbidden") d

unfoldable pub not_found : Option Text → HttpError
not_found d = make 404 (bytes "Not Found") d

unfoldable pub payload_too_large : Option Text → HttpError
payload_too_large d = make 413 (bytes "Payload Too Large") d

unfoldable pub unprocessable_entity : Option Text → HttpError
unprocessable_entity d = make 422 (bytes "Unprocessable Entity") d

unfoldable pub internal_error : Option Text → HttpError
internal_error d = make 500 (bytes "Internal Server Error") d

unfoldable pub bad_gateway : Option Text → HttpError
bad_gateway d = make 502 (bytes "Bad Gateway") d

unfoldable pub gateway_timeout : Option Text → HttpError
gateway_timeout d = make 504 (bytes "Gateway Timeout") d

-- a digit of `{:x}`
unfoldable pub lower_hex : ℕ → ℕ
lower_hex n = if ltb n 10 then b'0' + n else b'a' + (n - 10)

-- what one character is written as
unfoldable pub escape_char : ℕ → Text
unfolding lower_hex
escape_char c =
    if c == b'"'
    then 92 ∷ b'"' ∷ []
    else if c == 92
    then 92 ∷ 92 ∷ []
    else if c == 10
    then 92 ∷ b'n' ∷ []
    else if c == 13
    then 92 ∷ b'r' ∷ []
    else if c == 9
    then 92 ∷ b't' ∷ []
    else if ltb c 0x20
    then 92 ∷ b'u' ∷ b'0' ∷ b'0' ∷ lower_hex (c / 16) ∷ lower_hex (c % 16) ∷ []
    else c ∷ []

unfoldable pub json_escape : Text → Text
unfolding escape_char
json_escape [] = []
json_escape (c ∷ s) = escape_char c ++ json_escape s

unfoldable pub to_json_response : HttpError → Text
unfolding json_escape decimal
to_json_response e = elim e.detail [
  | some detail ↦
      bytes "{\"error\":{\"status\":"
      ++ (decimal e.status
          ++ (bytes ",\"message\":\""
              ++ (e.message ++ (bytes "\",\"detail\":\"" ++ (json_escape detail ++ bytes "\"}}")))))
  | none ↦
      bytes "{\"error\":{\"status\":"
      ++ (decimal e.status ++ (bytes ",\"message\":\"" ++ (e.message ++ bytes "\"}}")))
]

abbrev match_code : ℕ → List (ℕ × Text) → Text → Text
match_code code [] d = d
match_code code ((n, text) ∷ arms) d =
    let rest = match_code code arms d in if code == n then text else rest

unfoldable pub status_text : ℕ → Text
status_text code =
    match_code code
      ((200, bytes "OK")
        ∷ (204, bytes "No Content")
        ∷ (301, bytes "Moved Permanently")
        ∷ (302, bytes "Found")
        ∷ (304, bytes "Not Modified")
        ∷ (400, bytes "Bad Request")
        ∷ (401, bytes "Unauthorized")
        ∷ (403, bytes "Forbidden")
        ∷ (404, bytes "Not Found")
        ∷ (405, bytes "Method Not Allowed")
        ∷ (408, bytes "Request Timeout")
        ∷ (413, bytes "Payload Too Large")
        ∷ (414, bytes "URI Too Long")
        ∷ (415, bytes "Unsupported Media Type")
        ∷ (422, bytes "Unprocessable Entity")
        ∷ (429, bytes "Too Many Requests")
        ∷ (500, bytes "Internal Server Error")
        ∷ (502, bytes "Bad Gateway")
        ∷ (503, bytes "Service Unavailable")
        ∷ (504, bytes "Gateway Timeout")
        ∷ [])
      (bytes "Unknown")
