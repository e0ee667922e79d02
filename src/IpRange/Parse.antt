-- ===== src/IpRange/Parse.antt =====
-- What `ParseIPRange` of nping/ip_range.go accepts.
use snmpclient.Prelude.{
  ℕ, ◌+◌, ◌-◌, ◌^◌, ◌≤◌, ◌<◌, ◌≡◌, refl, false, Option, none, some, List, [], ◌∷◌, arith, Bytes,
  Outcome, ok, >>=-eq-ok, Bool-cases, ◌==◌, inl, inr, Lacks,
}
use snmpclient.Golang.Strings.{split, split-Lacks}
use snmpclient.IpRange.{
  IpRange, u32, Ip, v4, v6, Network, Net, uint32_of, checked, parse_ipv4, of_network, single,
  of_fields, parse_ip_range,
}

-- A range that a sweep may start from.
pub record IsValid (r : IpRange) : Type 0 where
  pub nonzero : 0 < r.start
  pub ordered : r.start ≤ r.end
  pub fits : r.end < 2 ^ 32
  pub before : r.cur ≡ r.start - 1

checked-IsValid :
    (start end : ℕ) {r : IpRange} → end < 2 ^ 32 → checked start end ≡ ok r → IsValid r
unfolding checked
checked-IsValid start end fits h = ground arith

checked_lem :
    (a e f : ℕ)
    → 0 < a
    → e ≡ f
    → a ≤ f
    → f < 2 ^ 32
    → checked a e ≡ ok (record { start = a; end = f; cur = a - 1 })
unfolding checked
checked_lem a e f nonzero same le fits = ground arith

uint32_of-fits :
    (o : Option Ip) {a : ℕ}
    → ((b : ℕ) → o ≡ some (v4 b) → b < 2 ^ 32)
    → (elim o [ none ↦ ok 0 | some ip ↦ uint32_of ip ]) ≡ ok a
    → a < 2 ^ 32
unfolding uint32_of
uint32_of-fits none fits h = ground arith
uint32_of-fits (some (v4 b)) fits h = ground (arith, fits b refl)
uint32_of-fits (some v6) fits h = ground arith

module _ (net : Net) where
  parse_ipv4-fits : (s : Bytes) {a : ℕ} → parse_ipv4 net s ≡ ok a → a < 2 ^ 32
  unfolding parse_ipv4
  parse_ipv4-fits s h = uint32_of-fits (net.parse_ip s) (net.ip_fits s) h

  of_network-IsValid : (n : Option Network) {r : IpRange} → of_network net n ≡ ok r → IsValid r
  unfolding of_network
  of_network-IsValid none h = ground arith
  of_network-IsValid (some n) h =
      let (start, _, e) = >>=-eq-ok (uint32_of n.address) _ h in
      checked-IsValid start (u32 (start + u32 (2 ^ (n.bits - n.ones)))) (omega arith) e

  single-IsValid : (raw : Bytes) {r : IpRange} → single net raw ≡ ok r → IsValid r
  unfolding single
  single-IsValid raw h =
      let (ip, p, e) = >>=-eq-ok (parse_ipv4 net raw) _ h in
      let fits : ip < 2 ^ 32 = parse_ipv4-fits raw p in
      elim (Bool-cases (ip == 0)) [
        | inl z ↦ of_network-IsValid (net.parse_cidr raw) (rw z at e)
        | inr z ↦ address_valid ip fits z (rw z at e)
      ]
    where
      address_valid :
          (a : ℕ) {r : IpRange}
          → a < 2 ^ 32
          → (a == 0) ≡ false
          → ◌≡◌ {A = Outcome IpRange}
              (ok (record { start = a; end = a; cur = u32 (a + 2 ^ 32 - 1) }))
              (ok r)
          → IsValid r
      address_valid a fits z e = ground arith

  of_fields-IsValid :
      (fs : List Bytes) (raw : Bytes) {r : IpRange} → of_fields net fs raw ≡ ok r → IsValid r
  unfolding of_fields
  of_fields-IsValid (first ∷ second ∷ []) raw h =
      let (start, _, e) = >>=-eq-ok (parse_ipv4 net first) _ h in
      let (end, p, e') = >>=-eq-ok (parse_ipv4 net second) _ e in
      checked-IsValid start end (parse_ipv4-fits second p) e'
  of_fields-IsValid [] raw h = single-IsValid raw h
  of_fields-IsValid (a ∷ []) raw h = single-IsValid raw h
  of_fields-IsValid (a ∷ b ∷ c ∷ fs) raw h = single-IsValid raw h

  -- Every range that `ParseIPRange` accepts starts above 0, does not end before it starts, fits in
  -- 32 bits and stands right before its start.
  pub parse_ip_range-IsValid :
      (raw : Bytes) (r : IpRange) → parse_ip_range net raw ≡ ok r → IsValid r
  unfolding parse_ip_range
  parse_ip_range-IsValid raw r h = of_fields-IsValid (split b'-' raw) raw h

  no_ipv4 : (raw : Bytes) → net.parse_ip raw ≡ none → parse_ipv4 net raw ≡ ok 0
  unfolding parse_ipv4
  no_ipv4 raw no_address = rw (no_address, parse_ipv4)

  single_network :
      (raw : Bytes) → net.parse_ip raw ≡ none → single net raw ≡ of_network net (net.parse_cidr raw)
  unfolding single
  single_network raw no_address = rw (no_ipv4 raw no_address)

  of_network_lem :
      (n : Network) (a : ℕ)
      → n.address ≡ v4 a
      → n.bits ≡ 32
      → of_network net (some n) ≡ checked a (u32 (a + u32 (2 ^ (32 - n.ones))))
  unfolding of_network uint32_of
  of_network_lem n a e b = rw (e, b)

  -- The range of an IPv4 network with a mask of 32 bits ends one address behind the network, where
  -- that address is below 2 ^ 32 and the text is no address and has no `-`.
  pub network_overrun :
      (raw : Bytes) (n : Network) (a : ℕ)
      → Lacks b'-' raw
      → net.parse_ip raw ≡ none
      → net.parse_cidr raw ≡ some n
      → n.address ≡ v4 a
      → n.bits ≡ 32
      → 0 < a
      → a + 2 ^ (32 - n.ones) < 2 ^ 32
      → parse_ip_range net raw ≡ ok (record { start = a; end = a + 2 ^ (32 - n.ones); cur = a - 1 })
  unfolding parse_ip_range of_fields
  network_overrun raw n a one no_address network v4_address mask nonzero fits =
      rw
        (
          split-Lacks b'-' raw one,
          single_network raw no_address,
          network,
          of_network_lem n a v4_address mask,
        )
        (checked_lem a (u32 (a + u32 (2 ^ (32 - n.ones)))) (a + 2 ^ (32 - n.ones)) nonzero
          (omega arith) (omega arith) (omega arith))
