-- ===== src/MessageV3/Flags.antt =====
-- The three flags of a V3 message: the getters and the setters of `globalDataV3` (message.go).
use Prim.Native.Nat.{bit_and, bit_or}
use snmpclient.Prelude.{
  ℕ, zero, suc, ◌<◌, ◌≡◌, refl, Bool, true, false, not, ◌&&◌, [], ◌∷◌, Bytes, ◌==◌, &&_both,
  if◌then◌else◌, arith,
}
use snmpclient.MessageV3.{
  GlobalDataV3, init_flags, on_first, on_flags, first_has, set_reportable, reportable, set_privacy,
  privacy, set_authentication, authentication,
}

-- The first byte of the flags is a byte.
abbrev pub IsFlags : Bytes → Type 0
IsFlags [] = Unit
IsFlags (f ∷ fs) = f < 256

-- A test on every number under a bound, by running it.
holds_under : ℕ → (ℕ → Bool) → Bool
holds_under zero test = true
holds_under (suc bound) test = test bound && holds_under bound test

holds_under_lem :
    (bound : ℕ) (test : ℕ → Bool)
    → holds_under bound test ≡ true
    → (n : ℕ) → n < bound
    → test n ≡ true
unfolding holds_under
holds_under_lem zero test h n lt = absurd (omega arith)
holds_under_lem (suc bound) test h n lt =
    let (p, q) = &&_both (test bound) _ h in ground (arith, holds_under_lem bound test q n)

agree : Bool → Bool → Bool
agree true b = b
agree false b = not b

agree_eq : (x y : Bool) → agree x y ≡ true → x ≡ y
unfolding agree
agree_eq true true h = refl
agree_eq true false h = ground arith
agree_eq false true h = ground arith
agree_eq false false h = refl

-- The bit of a mask.
bit : ℕ → ℕ → Bool
bit mask f = not (bit_and f mask == 0)

-- Setting or clearing the bit of `mask` in a byte gives it the value asked for, and leaves the
-- bits of `other` and of `third` alone.
writes_bit : (clear mask other third : ℕ) → Bool → ℕ → Bool
unfolding agree bit
writes_bit clear mask other third b f =
    let g = (if b then bit_or f mask else bit_and f clear) in
    agree (bit mask g) b && (agree (bit other g) (bit other f) && agree (bit third g) (bit third f))

WritesBit : (clear mask other third : ℕ) → Bool → ℕ → Type 0
WritesBit clear mask other third b f =
    let g = (if b then bit_or f mask else bit_and f clear) in
    (bit mask g ≡ b) × (bit other g ≡ bit other f) × (bit third g ≡ bit third f)

writes_bit-WritesBit :
    (clear mask other third : ℕ) (b : Bool) (f : ℕ)
    → writes_bit clear mask other third b f ≡ true
    → WritesBit clear mask other third b f
unfolding writes_bit WritesBit
writes_bit-WritesBit clear mask other third b f h =
    let (p, q) = &&_both _ _ h in
    let (r, s) = &&_both _ _ q in (agree_eq _ _ p, agree_eq _ _ r, agree_eq _ _ s)

reportable_table : (b : Bool) → holds_under 256 (writes_bit 0xfb 0x04 0x02 0x01 b) ≡ true
unfolding holds_under writes_bit
reportable_table true = refl
reportable_table false = refl

privacy_table : (b : Bool) → holds_under 256 (writes_bit 0xfd 0x02 0x04 0x01 b) ≡ true
unfolding holds_under writes_bit
privacy_table true = refl
privacy_table false = refl

authentication_table : (b : Bool) → holds_under 256 (writes_bit 0xfe 0x01 0x04 0x02 b) ≡ true
unfolding holds_under writes_bit
authentication_table true = refl
authentication_table false = refl

-- What a setter does: the flag it is for reads back as set, the two others are not changed.
abbrev pub Sets :
    (GlobalDataV3 → GlobalDataV3)
    → Bool
    → (own other third : GlobalDataV3 → Bool) → GlobalDataV3
    → Type 0
Sets set b own other third h =
    (own (set h) ≡ b) × (other (set h) ≡ other h) × (third (set h) ≡ third h)

sets :
    (clear mask other third : ℕ) (b : Bool)
    → holds_under 256 (writes_bit clear mask other third b) ≡ true
    → (flags : Bytes) → IsFlags flags
    → let g = on_first (λ f. if b then bit_or f mask else bit_and f clear) (init_flags flags) in
      (first_has mask (init_flags g) ≡ b)
      × (first_has other (init_flags g) ≡ first_has other (init_flags flags))
      × (first_has third (init_flags g) ≡ first_has third (init_flags flags))
unfolding on_first init_flags first_has WritesBit bit
sets clear mask other third b table [] is =
    writes_bit-WritesBit clear mask other third b 0 (holds_under_lem 256 _ table 0 (omega arith))
sets clear mask other third b table (f ∷ fs) is =
    writes_bit-WritesBit clear mask other third b f (holds_under_lem 256 _ table f is)

-- The three flags are independent: whatever the flags are, empty ones included, if the first is a
-- byte, each setter gives its flag the value asked for and changes neither of the two others.
pub flags_apart :
    (h : GlobalDataV3) (b : Bool)
    → IsFlags h.message_flags
    → Sets (set_reportable b) b reportable privacy authentication h
      × Sets (set_privacy b) b privacy reportable authentication h
      × Sets (set_authentication b) b authentication reportable privacy h
unfolding set_reportable reportable set_privacy privacy set_authentication authentication on_flags
flags_apart h b is = (
  sets 0xfb 0x04 0x02 0x01 b (reportable_table b) h.message_flags is,
  sets 0xfd 0x02 0x04 0x01 b (privacy_table b) h.message_flags is,
  sets 0xfe 0x01 0x04 0x02 b (authentication_table b) h.message_flags is,
)
