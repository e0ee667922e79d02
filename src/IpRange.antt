-- ===== src/IpRange.antt =====
-- The address ranges of nping: nping/ip_range.go, and the loop over them in nping/nping.go. An
-- address is a uint32. `net.ParseIP` and `net.ParseCIDR` are the parameter `Net`.
pub mod Sweep
pub mod Parse
mod Tests
use snmpclient.Prelude.{
  ℕ, zero, suc, ◌+◌, ◌-◌, ◌*◌, ◌/◌, ◌%◌, ◌^◌, ◌≤◌, ◌<◌, ◌≡◌, Bool, true, false, ◌||◌, Option, none,
  some, List, [], ◌∷◌, ◌++◌, Bytes, Outcome, ok, err, panic, generic, ◌>>=◌, ltb, leb, ◌==◌,
  if◌then◌else◌,
}
use snmpclient.Golang.Strings.{split}
use snmpclient.Golang.Strconv.{format_uint}

abbrev pub u32 : ℕ → ℕ
u32 n = n % 2 ^ 32

pub record IpRange : Type 0 where
  pub start : ℕ
  pub end : ℕ
  pub cur : ℕ

unfoldable pub reset : IpRange → IpRange
reset self = record self { cur = u32 (self.start + 2 ^ 32 - 1) }

-- The last of the four octets, `b[3]`.
abbrev pub last_octet : ℕ → ℕ
last_octet ip = ip % 256

-- The loop of `HasNext` over `self.cur`; `none` is no fuel left.
advance : ℕ → ℕ → ℕ → Option (ℕ × Bool)
advance zero end cur = none
advance (suc fuel) end cur =
    let next = u32 (cur + 1) in
    let again = advance fuel end next in
    if leb end cur
    then some (cur, false)
    else if (last_octet next == 0) || (last_octet next == 255)
    then again
    else some (next, true)

-- `cur` grows by one in each round, up to `end`.
unfoldable pub has_next : IpRange → Option (IpRange × Bool)
unfolding advance
has_next self = elim (advance (suc (self.end - self.cur)) self.end self.cur) [
  | none ↦ none
  | some (cur, more) ↦ some (record self { cur = cur }, more)
]

visit : ℕ → Option (List ℕ) → Option (List ℕ)
visit ip none = none
visit ip (some rest) = some (ip ∷ rest)

-- The addresses that `for ip_range.HasNext() { … ip_range.Current() … }` sends to.
unfoldable pub sweep : ℕ → IpRange → Option (List ℕ)
unfolding visit
sweep zero self = none
sweep (suc fuel) self = elim (has_next self) [
  | none ↦ none
  | some (self', more) ↦
      let rest = visit self'.cur (sweep fuel self') in if more then rest else some []
]

unfoldable pub ip_string : ℕ → Bytes
ip_string ip =
    format_uint (ip / 2 ^ 24 % 256)
    ++ (b'.'
        ∷ (format_uint (ip / 2 ^ 16 % 256)
            ++ (b'.' ∷ (format_uint (ip / 2 ^ 8 % 256) ++ (b'.' ∷ format_uint (ip % 256))))))

unfoldable pub to_string : IpRange → Bytes
unfolding ip_string
to_string ipr = ip_string ipr.start ++ (b'-' ∷ ip_string ipr.end)

-- A `net.IP`: `v6` is one for which `To4` is nil.
pub data Ip : Type 0 where
  v4 : ℕ → Ip
  v6 : Ip

-- A `net.IPNet`: the address of the network, and the size of its mask.
pub record Network : Type 0 where
  pub address : Ip
  pub ones : ℕ
  pub bits : ℕ

-- What the documentation of `net` says: an IPv4 address has four bytes.
pub record Net : Type 0 where
  pub parse_ip : Bytes → Option Ip
  pub parse_cidr : Bytes → Option Network
  pub ip_fits : (s : Bytes) (a : ℕ) → parse_ip s ≡ some (v4 a) → a < 2 ^ 32

-- `binary.BigEndian.Uint32(ip.To4())` panics on the nil slice.
uint32_of : Ip → Outcome ℕ
uint32_of (v4 a) = ok a
uint32_of v6 = panic

checked : ℕ → ℕ → Outcome IpRange
checked start end =
    if start == 0
    then err generic
    else if end == 0
    then err generic
    else if ltb end start
    then err generic
    else ok (record { start = start; end = end; cur = u32 (start + 2 ^ 32 - 1) })

module _ (net : Net) where
  parse_ipv4 : Bytes → Outcome ℕ
  unfolding uint32_of
  parse_ipv4 s = elim (net.parse_ip s) [ none ↦ ok 0 | some ip ↦ uint32_of ip ]

  of_network : Option Network → Outcome IpRange
  unfolding uint32_of checked
  of_network none = err generic
  of_network (some ip_net) = do
    start ← uint32_of ip_net.address
    checked start (u32 (start + u32 (2 ^ (ip_net.bits - ip_net.ones))))

  -- A text with one field: an address, or a network.
  single : Bytes → Outcome IpRange
  unfolding parse_ipv4 of_network
  single raw = do
    ip ← parse_ipv4 raw
    if ip == 0
        then of_network (net.parse_cidr raw)
        else ok (record { start = ip; end = ip; cur = u32 (ip + 2 ^ 32 - 1) })

  of_fields : List Bytes → Bytes → Outcome IpRange
  unfolding parse_ipv4 single
  of_fields (first ∷ second ∷ []) raw = do
    start ← parse_ipv4 first
    end ← parse_ipv4 second
    checked start end
  of_fields _ raw = single raw

  unfoldable pub parse_ip_range : Bytes → Outcome IpRange
  unfolding of_fields
  parse_ip_range raw = of_fields (split b'-' raw) raw
