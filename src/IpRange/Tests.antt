-- ===== src/IpRange/Tests.antt =====
-- Sweeps of ranges, and the theorems at concrete ranges.
use snmpclient.Prelude.{
  ℕ, ◌+◌, ◌-◌, ◌^◌, ◌≤◌, ◌<◌, ◌≡◌, ◌↔◌, refl, Option, none, some, List, [], ◌∷◌, arith, Bytes,
  codes, Any, Pairs, ok, panic, bytes_eq, if◌then◌else◌,
}
use snmpclient.Golang.Strings.{split}
use snmpclient.IpRange.{IpRange, Ip, v4, v6, Network, Net, sweep, reset, parse_ip_range, has_next}
use snmpclient.IpRange.Sweep.{IsHost, sweep-reset}
use snmpclient.IpRange.Parse.{IsValid, parse_ip_range-IsValid, network_overrun}

-- A network stack that knows one address and one network, 10.0.0.0/25.
abbrev known_ip : Bytes → Option Ip
known_ip s =
    if bytes_eq s (codes "10.0.0.1")
    then some (v4 167772161)
    else if bytes_eq s (codes "::1")
    then some v6
    else none

abbrev half_block : Network
half_block = record { address = v4 167772160; ones = 25; bits = 32 }

abbrev known_cidr : Bytes → Option Network
known_cidr s = if bytes_eq s (codes "10.0.0.0/25") then some half_block else none

known_ip-fits : (s : Bytes) (a : ℕ) → known_ip s ≡ some (v4 a) → a < 2 ^ 32
known_ip-fits s a h = ground arith

abbrev net : Net
net = record { parse_ip = known_ip; parse_cidr = known_cidr; ip_fits = known_ip-fits }

abbrev border : IpRange
border = record { start = 1021; end = 1026; cur = 1030 }

sweep-border : sweep 7 (reset border) ≡ some (1021 ∷ 1022 ∷ 1025 ∷ 1026 ∷ [])
unfolding sweep reset has_next
sweep-border = refl

sweep-reset_example :
    (ips : List ℕ) × (sweep 7 (reset border) ≡ some ips)
    × Pairs (λ a b. a < b) ips
    × ((ip : ℕ) → Any (λ x. x ≡ ip) ips ↔ ((1021 ≤ ip) × (ip ≤ 1026) × IsHost ip))
sweep-reset_example = sweep-reset border (omega arith) (omega arith) (omega arith)

parsed :
    parse_ip_range net (codes "10.0.0.1")
    ≡ ok (record { start = 167772161; end = 167772161; cur = 167772160 })
unfolding parse_ip_range split bytes_eq
parsed = refl

parse_ip_range-IsValid_example :
    IsValid (record { start = 167772161; end = 167772161; cur = 167772160 })
parse_ip_range-IsValid_example =
    parse_ip_range-IsValid net (codes "10.0.0.1")
      (record { start = 167772161; end = 167772161; cur = 167772160 }) parsed

network_facts :
    (known_ip (codes "10.0.0.0/25") ≡ none) × (known_cidr (codes "10.0.0.0/25") ≡ some half_block)
unfolding bytes_eq
network_facts = (refl, refl)

network_overrun_example :
    parse_ip_range net (codes "10.0.0.0/25")
    ≡ ok (record { start = 167772160; end = 167772160 + 2 ^ (32 - 25); cur = 167772160 - 1 })
network_overrun_example =
    network_overrun net (codes "10.0.0.0/25") half_block 167772160 (omega arith) network_facts.0
      network_facts.1 refl refl (omega arith) (omega arith)

-- `To4` of an IPv6 address is nil, and reading a uint32 from it panics.
ipv6_panics : parse_ip_range net (codes "::1") ≡ panic
unfolding parse_ip_range split bytes_eq
ipv6_panics = refl
