-- ===== src/Gateway/Network/Ranges.antt =====
-- gateway-service/src/config.ts: the blocked IPv4 addresses as ranges of 32-bit numbers.
use stellar_facilitator.Common.{
  ℕ, ◌+◌, ◌*◌, ◌≤◌, ◌<◌, ◌≡◌, ◌↔◌, true, List, [], ◌∷◌, nat_eq, ◌⊎◌, arith,
}
use stellar_facilitator.Gateway.Network.{is_blocked_ipv4}

abbrev pub address_number : ℕ → ℕ → ℕ → ℕ → ℕ
address_number a b c d = ((a * 256 + b) * 256 + c) * 256 + d

-- The networks by their first address and their size, 2 ^ (32 - prefix).
abbrev pub blocked_networks : List (ℕ × ℕ)
blocked_networks =
    (0, 16777216)  -- 0.0.0.0/8
    ∷ (167772160, 16777216)  -- 10.0.0.0/8
    ∷ (2130706432, 16777216)  -- 127.0.0.0/8
    ∷ (1681915904, 4194304)  -- 100.64.0.0/10
    ∷ (2851995648, 65536)  -- 169.254.0.0/16
    ∷ (2886729728, 1048576)  -- 172.16.0.0/12
    ∷ (3221225472, 65536)  -- 192.0.0.0/16
    ∷ (3232235520, 65536)  -- 192.168.0.0/16
    ∷ (3323068416, 131072)  -- 198.18.0.0/15
    ∷ (3758096384, 536870912)  -- 224.0.0.0/3
    ∷ []

abbrev pub IsIn : ℕ → List (ℕ × ℕ) → Type 0
IsIn n [] = ⊥
IsIn n ((first, size) ∷ networks) = ((first ≤ n) × (n < first + size)) ⊎ IsIn n networks

-- Of four octets, the test of the first two refuses exactly the addresses of these networks.
pub is_blocked_ipv4_iff :
    (a b c d : ℕ)
    → a < 256
    → b < 256
    → c < 256
    → d < 256
    → (is_blocked_ipv4 a b ≡ true) ↔ IsIn (address_number a b c d) blocked_networks
unfolding is_blocked_ipv4
is_blocked_ipv4_iff a b c d ha hb hc hd = ground arith
