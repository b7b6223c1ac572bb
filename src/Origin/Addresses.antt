-- ===== src/Origin/Addresses.antt =====
-- crates/imgx/src/origin/remote.rs: which addresses a remote fetch may reach. The predicates of
-- `std::net` stand here with the ranges that its documentation gives.
pub mod Blocks
use imgx.Base.{
  ℕ, ◌/◌, ◌%◌, Bool, true, false, not, ◌&&◌, ◌||◌, ◌==◌, nat_eq, leb, Option, none, some,
  if◌then◌else◌,
}

-- the four octets of an address
pub record Ipv4Addr : Type 0 where
  pub a : ℕ
  pub b : ℕ
  pub c : ℕ
  pub d : ℕ

-- the eight segments of an address, of 16 bits each
pub record Ipv6Addr : Type 0 where
  pub s0 : ℕ
  pub s1 : ℕ
  pub s2 : ℕ
  pub s3 : ℕ
  pub s4 : ℕ
  pub s5 : ℕ
  pub s6 : ℕ
  pub s7 : ℕ

pub data IpAddr : Type 0 where
  v4 : Ipv4Addr → IpAddr
  v6 : Ipv6Addr → IpAddr

abbrev pub is_private : Ipv4Addr → Bool
is_private ip =
    ip.a == 10 || (ip.a == 172 && (leb 16 ip.b && leb ip.b 31)) || (ip.a == 192 && ip.b == 168)

abbrev pub is_loopback : Ipv4Addr → Bool
is_loopback ip = ip.a == 127

abbrev pub is_link_local : Ipv4Addr → Bool
is_link_local ip = ip.a == 169 && ip.b == 254

abbrev pub is_broadcast : Ipv4Addr → Bool
is_broadcast ip = ip.a == 255 && (ip.b == 255 && (ip.c == 255 && ip.d == 255))

abbrev pub is_multicast : Ipv4Addr → Bool
is_multicast ip = leb 224 ip.a && leb ip.a 239

abbrev pub is_unspecified : Ipv4Addr → Bool
is_unspecified ip = ip.a == 0 && (ip.b == 0 && (ip.c == 0 && ip.d == 0))

abbrev pub is_documentation : Ipv4Addr → Bool
is_documentation ip =
    (ip.a == 192 && (ip.b == 0 && ip.c == 2))
    || (ip.a == 198 && (ip.b == 51 && ip.c == 100))
    || (ip.a == 203 && (ip.b == 0 && ip.c == 113))

-- `o[1] & 0xC0 == 64` tests the two high bits of an octet
unfoldable pub is_v4_globally_routable : Ipv4Addr → Bool
is_v4_globally_routable ip =
    if is_private ip
      || is_loopback ip
      || is_link_local ip
      || is_broadcast ip
      || is_multicast ip
      || is_unspecified ip
      || is_documentation ip
    then false
    else if ip.a == 0
    then false
    else if ip.a == 100 && ip.b / 64 == 1
    then false
    else true

abbrev are_zero : ℕ → ℕ → ℕ → ℕ → ℕ → Bool
are_zero a b c d e = a == 0 && (b == 0 && (c == 0 && (d == 0 && e == 0)))

-- `::ffff:a.b.c.d`
unfoldable pub to_ipv4_mapped : Ipv6Addr → Option Ipv4Addr
to_ipv4_mapped ip =
    if are_zero ip.s0 ip.s1 ip.s2 ip.s3 ip.s4 && ip.s5 == 0xffff
    then some (record { a = ip.s6 / 256; b = ip.s6 % 256; c = ip.s7 / 256; d = ip.s7 % 256 })
    else none

-- The masks on the first segment: the high 8 bits for multicast, the high 7 for unique local, and
-- the high 10 for link local.
unfoldable pub is_v6_globally_routable : Ipv6Addr → Bool
is_v6_globally_routable ip =
    if (are_zero ip.s0 ip.s1 ip.s2 ip.s3 ip.s4 && (ip.s5 == 0 && (ip.s6 == 0 && ip.s7 == 1)))
      || (are_zero ip.s0 ip.s1 ip.s2 ip.s3 ip.s4 && (ip.s5 == 0 && (ip.s6 == 0 && ip.s7 == 0)))
      || ip.s0 / 256 == 255
      || ip.s0 / 512 == 126
    then false
    else if ip.s0 / 64 == 1018
    then false
    else true

unfoldable pub is_globally_routable : IpAddr → Bool
unfolding is_v4_globally_routable is_v6_globally_routable to_ipv4_mapped
is_globally_routable (IpAddr.v4 ip) = is_v4_globally_routable ip
is_globally_routable (IpAddr.v6 ip) = elim (to_ipv4_mapped ip) [
  | some mapped ↦ is_v4_globally_routable mapped
  | none ↦ is_v6_globally_routable ip
]
