-- ===== src/Inet.antt =====
-- Socket addresses, from tftp/src/utils/inet.c: what `sockaddr_equals` and `set_address_family` of
-- tftp/src/server/session.c read of a `struct sockaddr_storage`.
pub mod Translate
use file_transfer_over_udp.Prelude.{ℕ, ◌≡◌, ◌↔◌, Bool, true, false, ◌&&◌, ◌==◌, arith}
use file_transfer_over_udp.Prelude.Words.{Bytes}
use file_transfer_over_udp.Prelude.Text.{text_eq, text_eq_iff}

-- Port and address of the two families that the code knows, the 16 bytes and the scope of an IPv6
-- address, and any other family by its number.
pub data Address : Type 0 where
  ipv4 : ℕ → ℕ → Address
  ipv6 : ℕ → Bytes → ℕ → Address
  other_family : ℕ → Address

-- `sockaddr_equals`; `memcmp` of the address bytes is equality of the lists.
unfoldable pub sockaddr_equals : Address → Address → Bool
unfolding text_eq
sockaddr_equals (ipv4 p a) (ipv4 q b) = p == q && a == b
sockaddr_equals (ipv6 p a s) (ipv6 q b t) = p == q && text_eq a b && s == t
sockaddr_equals _ _ = false

-- `set_address_family` refuses an address of an unknown family.
unfoldable pub has_known_family : Address → Bool
has_known_family (ipv4 p a) = true
has_known_family (ipv6 p a s) = true
has_known_family (other_family f) = false

-- Two addresses are equal for the code exactly if they are the same address of a known family.
pub sockaddr_equals_iff :
    (a b : Address) → (sockaddr_equals a b ≡ true) ↔ ((a ≡ b) × (has_known_family a ≡ true))
unfolding sockaddr_equals has_known_family
sockaddr_equals_iff (ipv4 p a) (ipv4 q b) = (λ h. ground arith, λ h. ground arith)
sockaddr_equals_iff (ipv6 p a s) (ipv6 q b t) =
    (λ h. ground (arith, text_eq_iff a b), λ h. ground (arith, text_eq_iff a b))
sockaddr_equals_iff _ _ = (λ h. ground arith, λ h. ground arith)
