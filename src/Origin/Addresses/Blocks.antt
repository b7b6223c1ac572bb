-- ===== src/Origin/Addresses/Blocks.antt =====
-- The IPv4 addresses that are kept out, as a list of address blocks.
use imgx.Base.{
  ℕ, ◌+◌, ◌-◌, ◌*◌, ◌/◌, ◌^◌, ◌<◌, Bool, true, false, not, ◌&&◌, ◌||◌, ◌==◌, nat_eq, leb,
  if◌then◌else◌, ◌≡◌, refl, arith, ap, ap₂, ◌∙◌, List, [], ◌∷◌,
}
use imgx.Origin.Addresses.{
  Ipv4Addr, is_multicast, is_broadcast, is_unspecified, is_v4_globally_routable,
}

-- A block of addresses: its first address as a number, and how many addresses it has.
abbrev pub Block : Type 0
Block = ℕ × ℕ

abbrev pub number : Ipv4Addr → ℕ
number ip = ((ip.a * 256 + ip.b) * 256 + ip.c) * 256 + ip.d

abbrev pub address : ℕ → ℕ → ℕ → ℕ → ℕ
address a b c d = ((a * 256 + b) * 256 + c) * 256 + d

abbrev pub within : ℕ → Block → Bool
within n (first, size) = leb first n && leb n (first + size - 1)

abbrev pub is_in : ℕ → List Block → Bool
is_in n [] = false
is_in n (block ∷ blocks) = within n block || is_in n blocks

-- `10/8`, `172.16/12`, `192.168/16`, `127/8`, `169.254/16`, `255.255.255.255`, `224/4`,
-- `192.0.2/24`, `198.51.100/24`, `203.0.113/24`, `0/8` and `100.64/10`
abbrev pub blocked : List Block
blocked =
    (address 10 0 0 0, 2 ^ 24)
    ∷ (address 172 16 0 0, 2 ^ 20)
    ∷ (address 192 168 0 0, 2 ^ 16)
    ∷ (address 127 0 0 0, 2 ^ 24)
    ∷ (address 169 254 0 0, 2 ^ 16)
    ∷ (address 255 255 255 255, 1)
    ∷ (address 224 0 0 0, 2 ^ 28)
    ∷ (address 192 0 2 0, 2 ^ 8)
    ∷ (address 198 51 100 0, 2 ^ 8)
    ∷ (address 203 0 113 0, 2 ^ 8)
    ∷ (address 0 0 0 0, 2 ^ 24)
    ∷ (address 100 64 0 0, 2 ^ 22)
    ∷ []

-- The octets are bytes.
pub record IsAddress (ip : Ipv4Addr) : Type 0 where
  pub a_byte : ip.a < 256
  pub b_byte : ip.b < 256
  pub c_byte : ip.c < 256
  pub d_byte : ip.d < 256

module _ (ip : Ipv4Addr) (h : IsAddress ip) where
  one_octet : (k : ℕ) → (ip.a == k) ≡ within (number ip) (address k 0 0 0, 2 ^ 24)
  one_octet k = ground (arith, h)

  two_octets :
      (k l : ℕ) → l < 256 → (ip.a == k && ip.b == l) ≡ within (number ip) (address k l 0 0, 2 ^ 16)
  two_octets k l q = ground (arith, h)

  three_octets :
      (k l m : ℕ)
      → l < 256
      → m < 256
      → (ip.a == k && (ip.b == l && ip.c == m)) ≡ within (number ip) (address k l m 0, 2 ^ 8)
  three_octets k l m q r = ground (arith, h)

  private_twelve :
      (ip.a == 172 && (leb 16 ip.b && leb ip.b 31))
      ≡ within (number ip) (address 172 16 0 0, 2 ^ 20)
  private_twelve = ground (arith, h)

  shared_ten : (ip.a == 100 && ip.b / 64 == 1) ≡ within (number ip) (address 100 64 0 0, 2 ^ 22)
  shared_ten = ground (arith, h)

  multicast_four : is_multicast ip ≡ within (number ip) (address 224 0 0 0, 2 ^ 28)
  multicast_four = ground (arith, h)

  broadcast_one : is_broadcast ip ≡ within (number ip) (address 255 255 255 255, 1)
  broadcast_one = ground (arith, h)

  tests_agree :
      (p₁ p₂ p₃ l k b m d₁ d₂ d₃ z s u : Bool)
      → (u ≡ true → z ≡ true)
      → (if p₁ || p₂ || p₃ || l || k || b || m || u || (d₁ || d₂ || d₃)
          then false
          else if z
          then false
          else if s
          then false
          else true)
        ≡ not (
            p₁
            || (p₂
                || (p₃ || (l || (k || (b || (m || (d₁ || (d₂ || (d₃ || (z || (s || false))))))))))))
  tests_agree true p₂ p₃ l k b m d₁ d₂ d₃ z s u h = refl
  tests_agree false true p₃ l k b m d₁ d₂ d₃ z s u h = refl
  tests_agree false false true l k b m d₁ d₂ d₃ z s u h = refl
  tests_agree false false false true k b m d₁ d₂ d₃ z s u h = refl
  tests_agree false false false false true b m d₁ d₂ d₃ z s u h = refl
  tests_agree false false false false false true m d₁ d₂ d₃ z s u h = refl
  tests_agree false false false false false false true d₁ d₂ d₃ z s u h = refl
  tests_agree false false false false false false false d₁ d₂ d₃ z s u h = ground arith

  unspecified-zero : is_unspecified ip ≡ true → (ip.a == 0) ≡ true
  unspecified-zero e = ground (arith, e)

  -- An address of four bytes is taken as globally routable exactly if it is in none of the twelve
  -- blocks, as a number of 32 bits.
  pub is_v4_globally_routable_lem : is_v4_globally_routable ip ≡ not (is_in (number ip) blocked)
  unfolding is_v4_globally_routable
  is_v4_globally_routable_lem =
      tests_agree (ip.a == 10) (ip.a == 172 && (leb 16 ip.b && leb ip.b 31))
        (ip.a == 192 && ip.b == 168) (ip.a == 127) (ip.a == 169 && ip.b == 254) (is_broadcast ip)
        (is_multicast ip) (ip.a == 192 && (ip.b == 0 && ip.c == 2))
        (ip.a == 198 && (ip.b == 51 && ip.c == 100)) (ip.a == 203 && (ip.b == 0 && ip.c == 113))
        (ip.a == 0) (ip.a == 100 && ip.b / 64 == 1) (is_unspecified ip) unspecified-zero
      ∙ ap not (
          ap₂ ◌||◌ (one_octet 10) (
            ap₂ ◌||◌ private_twelve (
              ap₂ ◌||◌ (two_octets 192 168 (omega arith)) (
                ap₂ ◌||◌ (one_octet 127) (
                  ap₂ ◌||◌ (two_octets 169 254 (omega arith)) (
                    ap₂ ◌||◌ broadcast_one (
                      ap₂ ◌||◌ multicast_four (
                        ap₂ ◌||◌ (three_octets 192 0 2 (omega arith) (omega arith)) (
                          ap₂ ◌||◌ (three_octets 198 51 100 (omega arith) (omega arith)) (
                            ap₂ ◌||◌ (three_octets 203 0 113 (omega arith) (omega arith))
                              (ap₂ ◌||◌ (one_octet 0) (ap₂ ◌||◌ shared_ten refl))))))))))))
