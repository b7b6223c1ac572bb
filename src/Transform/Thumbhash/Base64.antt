-- ===== src/Transform/Thumbhash/Base64.antt =====
-- Base64 against a decoder.
use imgx.Base.{
  ℕ, ◌+◌, ◌-◌, ◌*◌, ◌/◌, ◌%◌, ◌<◌, Text, false, ◌&&◌, Option, none, some, [], ◌∷◌, leb, ◌==◌,
  nat_eq, if◌then◌else◌, length, All, ◌≡◌, refl, ap, ap₂, arith,
}
use imgx.Transform.Thumbhash.{alphabet, group_of, sextet_at, to_base64}

-- what a letter of the alphabet stands for
unfoldable pub sextet : ℕ → Option ℕ
sextet c =
    if leb b'A' c && leb c b'Z'
    then some (c - b'A')
    else if leb b'a' c && leb c b'z'
    then some (c - b'a' + 26)
    else if leb b'0' c && leb c b'9'
    then some (c - b'0' + 52)
    else if c == b'+'
    then some 62
    else if c == b'/'
    then some 63
    else none

-- Four letters are three bytes, three letters and `=` are two, two letters and `==` are one.
abbrev three_bytes : ℕ → ℕ → ℕ → ℕ → Text → Text
three_bytes a b c d rest = (a * 4 + b / 16) ∷ (b % 16 * 16 + c / 4) ∷ (c % 4 * 64 + d) ∷ rest

abbrev quad : Option ℕ → Option ℕ → Option ℕ → Option ℕ → Option Text → Option Text
quad (some a) (some b) (some c) (some d) (some rest) = some (three_bytes a b c d rest)
quad _ _ _ _ _ = none

abbrev last_two : Option ℕ → Option ℕ → Option ℕ → Option Text
last_two (some a) (some b) (some c) = some ((a * 4 + b / 16) ∷ (b % 16 * 16 + c / 4) ∷ [])
last_two _ _ _ = none

abbrev last_one : Option ℕ → Option ℕ → Option Text
last_one (some a) (some b) = some ((a * 4 + b / 16) ∷ [])
last_one _ _ = none

unfoldable pub decode : Text → Option Text
unfolding sextet
decode [] = some []
decode (p ∷ q ∷ r ∷ s ∷ text) =
    let rest = decode text in
    if r == b'='
    then last_one (sextet p) (sextet q)
    else if s == b'='
    then last_two (sextet p) (sextet q) (sextet r)
    else quad (sextet p) (sextet q) (sextet r) (sextet s) rest
decode _ = none

abbrev pub IsByte : ℕ → Type 0
IsByte b = b < 256

sextet-alphabet : (n : ℕ) → n < 64 → sextet (alphabet n) ≡ some n
unfolding sextet alphabet
sextet-alphabet n h = ground arith

alphabet-not_pad : (n : ℕ) → (alphabet n == b'=') ≡ false
unfolding alphabet
alphabet-not_pad n = ground arith

-- The standard alphabet and `=`.
pub data IsStandard : ℕ → Type 0 where
  pad : IsStandard b'='
  letter : (n : ℕ) → n < 64 → IsStandard (alphabet n)

sextet-sextet_at : (k g : ℕ) → sextet (sextet_at k g) ≡ some (g / k % 64)
sextet-sextet_at k g = sextet-alphabet (g / k % 64) (omega arith)

at : (k g : ℕ) → IsStandard (sextet_at k g)
at k g = letter (g / k % 64) (omega arith)

one_byte : (b : ℕ) → b < 256 → decode (to_base64 (b ∷ [])) ≡ some (b ∷ [])
unfolding to_base64 decode
one_byte b h =
    let g = group_of b 0 0 in
    rw (sextet-sextet_at 262144 g, sextet-sextet_at 4096 g) (ap (λ x. some (x ∷ [])) (omega arith))

two_bytes : (b c : ℕ) → b < 256 → c < 256 → decode (to_base64 (b ∷ c ∷ [])) ≡ some (b ∷ c ∷ [])
unfolding to_base64 decode
two_bytes b c h k =
    let g = group_of b c 0 in
    rw
      (
        alphabet-not_pad (g / 64 % 64),
        sextet-sextet_at 262144 g,
        sextet-sextet_at 4096 g,
        sextet-sextet_at 64 g,
      )
      (ap₂ (λ x y. some (x ∷ y ∷ [])) (omega arith) (omega arith))

three_read :
    (b c e : ℕ) (text rest : Text)
    → b < 256
    → c < 256
    → e < 256
    → decode text ≡ some rest
    → decode (
        sextet_at 262144 (group_of b c e)
        ∷ sextet_at 4096 (group_of b c e)
        ∷ sextet_at 64 (group_of b c e)
        ∷ sextet_at 1 (group_of b c e)
        ∷ text)
      ≡ some (b ∷ c ∷ e ∷ rest)
unfolding decode
three_read b c e text rest h k l read =
    let g = group_of b c e in
    rw
      (
        alphabet-not_pad (g / 64 % 64),
        alphabet-not_pad (g / 1 % 64),
        sextet-sextet_at 262144 g,
        sextet-sextet_at 4096 g,
        sextet-sextet_at 64 g,
        sextet-sextet_at 1 g,
        read,
      )
      (ap some (
        ap₂ (λ x xs. x ∷ xs) (omega arith)
          (ap₂ (λ x xs. x ∷ xs) (omega arith) (ap (λ x. x ∷ rest) (omega arith)))))

-- Whatever bytes are written, a decoder reads them back; the text has the letters of the standard
-- alphabet and `=`, four for each three bytes or fewer.
pub decode-to_base64 :
    (buffer : Text)
    → All IsByte buffer
    → (decode (to_base64 buffer) ≡ some buffer)
      × All IsStandard (to_base64 buffer)
      × (length (to_base64 buffer) ≡ 4 * ((length buffer + 2) / 3))
unfolding to_base64 decode
decode-to_base64 [] h = (refl, tt, refl)
decode-to_base64 (b ∷ []) h = (
  one_byte b h.0,
  (at 262144 (group_of b 0 0), (at 4096 (group_of b 0 0), (pad, (pad, tt)))),
  refl,
)
decode-to_base64 (b ∷ c ∷ []) h = (
  two_bytes b c h.0 h.1.0,
  (at 262144 (group_of b c 0), (at 4096 (group_of b c 0), (at 64 (group_of b c 0), (pad, tt)))),
  refl,
)
decode-to_base64 (b ∷ c ∷ e ∷ buffer) h =
    let (read, standard, count) = decode-to_base64 buffer h.1.1.1 in
    let g = group_of b c e in
    (
      three_read b c e (to_base64 buffer) buffer h.0 h.1.0 h.1.1.0 read,
      (at 262144 g, (at 4096 g, (at 64 g, (at 1 g, standard)))),
      omega (arith, count),
    )
