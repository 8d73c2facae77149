-- ===== src/Inet/Translate.antt =====
-- IPv6 addresses of IPv4 hosts: `sockaddr_in6_to_in` of tftp/src/utils/inet.c.
use file_transfer_over_udp.Prelude.{
  ℕ, ◌+◌, ◌*◌, ◌≡◌, refl, Bool, true, Option, none, some, [], ◌∷◌, ◌++◌, take, drop, if◌then◌else◌,
}
use file_transfer_over_udp.Prelude.Words.{Bytes}
use file_transfer_over_udp.Prelude.Text.{text_eq}
use file_transfer_over_udp.Inet.{Address, ipv4, ipv6, other_family}

abbrev unspecified : Bytes
unspecified = 0 ∷ 0 ∷ 0 ∷ 0 ∷ 0 ∷ 0 ∷ 0 ∷ 0 ∷ 0 ∷ 0 ∷ 0 ∷ 0 ∷ 0 ∷ 0 ∷ 0 ∷ 0 ∷ []

-- The first twelve bytes of the address of an IPv4 host.
abbrev v4mapped : Bytes
v4mapped = 0 ∷ 0 ∷ 0 ∷ 0 ∷ 0 ∷ 0 ∷ 0 ∷ 0 ∷ 0 ∷ 0 ∷ 255 ∷ 255 ∷ []

-- Four bytes in network order as a number.
unfoldable pub in_addr : Bytes → ℕ
in_addr (a ∷ b ∷ c ∷ d ∷ rest) = ((a * 256 + b) * 256 + c) * 256 + d
in_addr _ = 0

-- The port and the bytes of `sin6_addr` in a `struct sockaddr_storage`. In that of an IPv4 address they are
-- the padding and the storage behind it, which reads as zero; `getnameinfo` refuses another family.
unfoldable pub sockaddr_in6 : Address → Option (ℕ × Bytes)
sockaddr_in6 (ipv4 port a) = some (port, unspecified)
sockaddr_in6 (ipv6 port a scope) = some (port, a)
sockaddr_in6 (other_family family) = none

-- `sockaddr_in6_to_in`, with the answers of `getnameinfo` and of `getaddrinfo` for the name.
unfoldable pub sockaddr_in6_to_in : Bool → Option Address → Address → Option Address
unfolding text_eq
sockaddr_in6_to_in has_name found src = elim (sockaddr_in6 src) [
  | none ↦ none
  | some sin6 ↦
      let mapped = ipv4 sin6.0 (in_addr (drop 12 sin6.1)) in
      if has_name
      then (if text_eq sin6.1 unspecified
          then some (ipv4 sin6.0 0)
          else if text_eq (take 12 sin6.1) v4mapped
          then some mapped
          else found)
      else none
]

-- An IPv4 host that has sent to an IPv6 socket is given its own address and port, whatever its name.
pub sockaddr_in6_to_in_mapped :
    (found : Option Address) (port a b c d scope : ℕ)
    → sockaddr_in6_to_in true found (ipv6 port (v4mapped ++ a ∷ b ∷ c ∷ d ∷ []) scope)
      ≡ some (ipv4 port (((a * 256 + b) * 256 + c) * 256 + d))
unfolding sockaddr_in6_to_in sockaddr_in6 in_addr text_eq
sockaddr_in6_to_in_mapped found port a b c d scope = refl

-- The host of an IPv4 address is forgotten.
pub sockaddr_in6_to_in_ipv4 :
    (found : Option Address) (port a : ℕ)
    → sockaddr_in6_to_in true found (ipv4 port a) ≡ some (ipv4 port 0)
unfolding sockaddr_in6_to_in sockaddr_in6 text_eq
sockaddr_in6_to_in_ipv4 found port a = refl
