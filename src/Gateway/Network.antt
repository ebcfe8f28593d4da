-- ===== src/Gateway/Network.antt =====
-- gateway-service/src/config.ts: `assertPublicAddress`, and app.ts: `assertSafeDns`.
--
-- An address is the parts that the source splits off an IPv4 address, the lower-case text of an
-- IPv6 address, or any other text. `isIP` decides which.
pub mod Ranges
use text.Mathlib.Text.{starts_with}
use stellar_facilitator.Common.{
  ℕ, String, Bool, true, false, not, ◌&&◌, ◌||◌, Option, none, some, List, [], ◌∷◌, ◌==◌, string_eq,
  nat_eq, if◌then◌else◌, leb, every,
}

pub data Address : Type 0 where
  ipv4 : ℕ → ℕ → ℕ → ℕ → Address
  ipv6 : String → Address
  other : String → Address

unfoldable pub is_blocked_ipv4 : ℕ → ℕ → Bool
is_blocked_ipv4 a b =
    a == 0
    || a == 10
    || a == 127
    || (a == 100 && leb 64 b && leb b 127)
    || (a == 169 && b == 254)
    || (a == 172 && leb 16 b && leb b 31)
    || (a == 192 && b == 0)
    || (a == 192 && b == 168)
    || (a == 198 && (b == 18 || b == 19))
    || leb 224 a

unfoldable pub is_blocked_ipv6 : String → Bool
is_blocked_ipv6 normalized =
    normalized == "::"
    || normalized == "::1"
    || starts_with normalized "fc"
    || starts_with normalized "fd"
    || starts_with normalized "fe8"
    || starts_with normalized "fe9"
    || starts_with normalized "fea"
    || starts_with normalized "feb"
    || starts_with normalized "ff"
    || starts_with normalized "2001:db8:"
    || starts_with normalized "::ffff:"

-- False where `assertPublicAddress` throws.
unfoldable pub assert_public_address : Address → Bool
assert_public_address (ipv4 a b c d) = not (is_blocked_ipv4 a b)
assert_public_address (ipv6 normalized) = not (is_blocked_ipv6 normalized)
assert_public_address (other text) = true

-- The resolver's addresses, `none` where it throws, and whether the upstream is one of the origins
-- allowed for development. False where `assertSafeDns` throws.
unfoldable pub assert_safe_dns : Bool → Option (List Address) → Bool
assert_safe_dns development_origin_allowed none = false
assert_safe_dns development_origin_allowed (some []) = false
assert_safe_dns development_origin_allowed (some (address ∷ addresses)) =
    development_origin_allowed || every assert_public_address (address ∷ addresses)
