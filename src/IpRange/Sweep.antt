-- ===== src/IpRange/Sweep.antt =====
-- What a sweep of a range visits: `HasNext` and `Current` of nping/ip_range.go, in the loop of
-- nping/nping.go.
use snmpclient.Prelude.{
  ℕ, zero, suc, ◌+◌, ◌-◌, ◌^◌, ◌≤◌, ◌<◌, ◌≡◌, ◌≢◌, ◌↔◌, inl, inr, refl, ap, ◌∙◌, Bool, true, false,
  ◌||◌, Option, none, some, List, [], ◌∷◌, arith, All, Any, Pairs, leb, ◌==◌, Bool-cases,
  if◌then◌else◌, leb→le, All-map,
}
use snmpclient.IpRange.{IpRange, u32, last_octet, reset, advance, has_next, sweep, visit}
use native.Mathlib.Decide.{ℕ_discrete}

-- An address that is neither the network nor the broadcast address of its block of 256.
abbrev pub IsHost : ℕ → Type 0
IsHost ip = (last_octet ip ≢ 0) × (last_octet ip ≢ 255)

is_skipped : ℕ → Bool
is_skipped ip = (last_octet ip == 0) || (last_octet ip == 255)

-- The host addresses among the `n` addresses behind `c`.
hosts : ℕ → ℕ → List ℕ
hosts zero c = []
hosts (suc n) c = let rest = hosts n (c + 1) in if is_skipped (c + 1) then rest else (c + 1) ∷ rest

abbrev Found : ℕ → ℕ → Option (ℕ × Bool) → Type 0
Found end cur (some (c, true)) =
    (cur < c) × (c ≤ end) × (hosts (end - cur) cur ≡ c ∷ hosts (end - c) c)
Found end cur (some (c, false)) = hosts (end - cur) cur ≡ []
Found end cur none = ⊥

hosts_done : (end cur : ℕ) → end ≤ cur → hosts (end - cur) cur ≡ []
unfolding hosts
hosts_done end cur h = let e : end - cur ≡ 0 = omega arith in rw e

hosts_skip :
    (end cur : ℕ)
    → cur < end
    → is_skipped (cur + 1) ≡ true
    → hosts (end - cur) cur ≡ hosts (end - (cur + 1)) (cur + 1)
unfolding hosts
hosts_skip end cur h s = let e : end - cur ≡ suc (end - (cur + 1)) = omega arith in rw (e, s)

hosts_take :
    (end cur : ℕ)
    → cur < end
    → is_skipped (cur + 1) ≡ false
    → hosts (end - cur) cur ≡ (cur + 1) ∷ hosts (end - (cur + 1)) (cur + 1)
unfolding hosts
hosts_take end cur h s = let e : end - cur ≡ suc (end - (cur + 1)) = omega arith in rw (e, s)

Found-skip :
    (end cur : ℕ) (r : Option (ℕ × Bool))
    → hosts (end - cur) cur ≡ hosts (end - (cur + 1)) (cur + 1)
    → Found end (cur + 1) r
    → Found end cur r
Found-skip end cur none e h = h
Found-skip end cur (some (c, true)) e (lo, hi, same) = (omega arith, hi, e ∙ same)
Found-skip end cur (some (c, false)) e h = e ∙ h

-- the loop ends, at the first host address if there is one
advance_lem :
    (fuel end cur : ℕ) → end < 2 ^ 32 → end - cur < fuel → Found end cur (advance fuel end cur)
unfolding advance is_skipped
advance_lem zero end cur fits enough = absurd (omega arith)
advance_lem (suc fuel) end cur fits enough = elim (Bool-cases (leb end cur)) [
  | inl done ↦ rw done (hosts_done end cur (leb→le end cur done))
  | inr more ↦
      let lt : cur < end = ground arith in
      let e : u32 (cur + 1) ≡ cur + 1 = omega arith in
      elim (Bool-cases (is_skipped (cur + 1))) [
        | inl s ↦
            rw (more, e, s)
              (Found-skip end cur _ (hosts_skip end cur lt s)
                (advance_lem fuel end (cur + 1) fits (omega arith)))
        | inr s ↦ rw (more, e, s) (omega arith, omega arith, hosts_take end cur lt s)
      ]
]

abbrev NextIf : IpRange → IpRange → Bool → Type 0
NextIf r r' true =
    (r' ≡ record r { cur = r'.cur })
    × (r.cur < r'.cur)
    × (r'.cur ≤ r.end)
    × (hosts (r.end - r.cur) r.cur ≡ r'.cur ∷ hosts (r.end - r'.cur) r'.cur)
NextIf r r' false = hosts (r.end - r.cur) r.cur ≡ []

abbrev Next : IpRange → Option (IpRange × Bool) → Type 0
Next r none = ⊥
Next r (some p) = NextIf r p.0 p.1

Next-Found :
    (r : IpRange) (o : Option (ℕ × Bool))
    → Found r.end r.cur o
    → Next r (elim o [ none ↦ none | some (cur, more) ↦ some (record r { cur = cur }, more) ])
Next-Found r none h = h
Next-Found r (some (c, true)) (lo, hi, same) = (refl, lo, hi, same)
Next-Found r (some (c, false)) h = h

has_next_lem : (r : IpRange) → r.end < 2 ^ 32 → Next r (has_next r)
unfolding has_next
has_next_lem r fits =
    Next-Found r _ (advance_lem (suc (r.end - r.cur)) r.end r.cur fits (omega arith))

-- the sweep from a state, with the fuel that it needs
sweep-hosts :
    (fuel : ℕ) (r : IpRange)
    → r.end < 2 ^ 32
    → r.end - r.cur < fuel
    → sweep fuel r ≡ some (hosts (r.end - r.cur) r.cur)
unfolding sweep
sweep-hosts zero r fits enough = absurd (omega arith)
sweep-hosts (suc fuel) r fits enough = after (has_next r) (has_next_lem r fits) (sweep-hosts fuel)
  where
    after :
        (o : Option (IpRange × Bool))
        → Next r o
        → ((q : IpRange)
            → q.end < 2 ^ 32
            → q.end - q.cur < fuel
            → sweep fuel q ≡ some (hosts (q.end - q.cur) q.cur))
        → (elim o [
          | none ↦ none
          | some (self', more) ↦
              let rest = visit self'.cur (sweep fuel self') in if more then rest else some []
        ])
          ≡ some (hosts (r.end - r.cur) r.cur)
    after none h ih = absurd h
    after (some (q, false)) h ih = rw h
    after (some (q, true)) (e, lo, hi, same) ih =
        let end_same : q.end ≡ r.end = ap (λ (t : IpRange). t.end) e in
        rw (ih q (omega arith) (omega arith), end_same, same)

skipped_not-IsHost : (ip : ℕ) → is_skipped ip ≡ true → ¬ IsHost ip
unfolding is_skipped
skipped_not-IsHost ip s h = ground arith

taken-IsHost : (ip : ℕ) → is_skipped ip ≡ false → IsHost ip
unfolding is_skipped
taken-IsHost ip s = ground arith

hosts-behind : (n c : ℕ) → All (λ x. c < x) (hosts n c)
unfolding hosts
hosts-behind zero c = tt
hosts-behind (suc n) c =
    let later =
      All-map (λ x (h : c + 1 < x). lt_later c x h) (hosts n (c + 1)) (hosts-behind n (c + 1)) in
    elim (Bool-cases (is_skipped (c + 1))) [
      | inl s ↦ rw s later
      | inr s ↦ rw s (omega arith, later)
    ]
  where
    lt_later : (a b : ℕ) → a + 1 < b → a < b
    lt_later a b h = omega arith

hosts-ascending : (n c : ℕ) → Pairs (λ a b. a < b) (hosts n c)
unfolding hosts
hosts-ascending zero c = tt
hosts-ascending (suc n) c = elim (Bool-cases (is_skipped (c + 1))) [
  | inl s ↦ rw s (hosts-ascending n (c + 1))
  | inr s ↦ rw s (hosts-behind n (c + 1), hosts-ascending n (c + 1))
]

hosts_iff : (n c ip : ℕ) → Any (λ x. x ≡ ip) (hosts n c) ↔ ((c < ip) × (ip ≤ c + n) × IsHost ip)
unfolding hosts
hosts_iff zero c ip = ground arith
hosts_iff (suc n) c ip =
    let (fwd, bwd) = hosts_iff n (c + 1) ip in
    elim (Bool-cases (is_skipped (c + 1))) [
      | inl s ↦ rw s (
        λ m. let (lo, hi, h) = fwd m in (omega arith, omega arith, h),
        λ (lo, hi, h). elim (ℕ_discrete (c + 1) ip) [
          | yes e ↦ absurd (skipped_not-IsHost (c + 1) s (rw e h))
          | no n' ↦ bwd (omega arith, omega arith, h)
        ],
      )
      | inr s ↦ rw s (
        λ m. elim m [
          | inl e ↦ (omega arith, omega arith, rw (← e) (taken-IsHost (c + 1) s))
          | inr m' ↦ let (lo, hi, h) = fwd m' in (omega arith, omega arith, h)
        ],
        λ (lo, hi, h). elim (ℕ_discrete (c + 1) ip) [
          | yes e ↦ inl e
          | no n' ↦ inr (bwd (omega arith, omega arith, h))
        ],
      )
    ]

-- After `Reset`, the sweep of a range visits exactly the addresses from its start to its end that
-- are neither the first nor the last of their block of 256, each once, in ascending order.
pub sweep-reset :
    (r : IpRange)
    → 0 < r.start
    → r.start ≤ r.end
    → r.end < 2 ^ 32
    → (ips : List ℕ) × (sweep (r.end - r.start + 2) (reset r) ≡ some ips)
      × Pairs (λ a b. a < b) ips
      × ((ip : ℕ) → Any (λ x. x ≡ ip) ips ↔ ((r.start ≤ ip) × (ip ≤ r.end) × IsHost ip))
unfolding reset
sweep-reset r nonzero le fits =
    let before : u32 (r.start + 2 ^ 32 - 1) ≡ r.start - 1 = omega arith in
    let n = r.end - (r.start - 1) in
    (
      hosts n (r.start - 1),
      rw (sweep-hosts (r.end - r.start + 2) (reset r) fits (omega arith), before),
      hosts-ascending n (r.start - 1),
      λ ip.
          let (fwd, bwd) = hosts_iff n (r.start - 1) ip in
          (
            λ m. let (lo, hi, h) = fwd m in (omega arith, omega arith, h),
            λ (lo, hi, h). bwd (omega arith, omega arith, h),
          ),
    )
