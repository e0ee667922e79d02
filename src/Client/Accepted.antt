-- ===== src/Client/Accepted.antt =====
-- The arguments that `NewSNMP` of snmpgo.go accepts.
use snmpclient.Prelude.{
  ℕ, ◌≤◌, ◌≡◌, ◌≢◌, ◌⊎◌, inl, inr, refl, Bool, true, false, Bool-cases, [], ◌∷◌, Outcome, ok,
  >>=-elim, arith, length, one_of, if◌then◌else◌, ltb, ◌||◌, ◌&&◌, not,
}
use snmpclient.Prelude.Int.{ℤ, pos, ◌≤ℤ◌, eqb_ℤ, ltb_ℤ, negsuc}
use snmpclient.Variable.{max_int32}
use snmpclient.Client.{
  ClientArguments, set_default, refuse_if, unknown_version, bad_size, bad_user, bad_auth, bad_priv,
  engine_field, validate_v3, validate, new_snmp, msg_size_minimum, timeout_default,
  msg_size_default,
}

pub refuse_if-eq-ok : (b : Bool) {u : Unit {0}} → refuse_if b ≡ ok u → b ≡ false
unfolding refuse_if
refuse_if-eq-ok false h = refl
refuse_if-eq-ok true h = ground arith

-- What is asked of the arguments of V3, beside the engine identifiers.
abbrev pub IsSecure : ClientArguments → Type 0
IsSecure a =
    (1 ≤ length a.user_name)
    × (length a.user_name ≤ 32)
    × ((a.security_level ≤ℤ pos 0)
        ⊎ ((8 ≤ length a.auth_password) × (one_of a.auth_protocol ("MD5" ∷ "SHA" ∷ []) ≡ true)))
    × ((a.security_level ≤ℤ pos 1)
        ⊎ ((8 ≤ length a.priv_password) × (one_of a.priv_protocol ("DES" ∷ "AES" ∷ []) ≡ true)))

user_tests : (n : ℕ) → (ltb n 1 || ltb 32 n) ≡ false → (1 ≤ n) × (n ≤ 32)
user_tests n h = ground arith

level_tests :
    (level least : ℤ) (n : ℕ) (known : Bool)
    → (ltb_ℤ least level && (ltb n 8 || not known)) ≡ false
    → (level ≤ℤ least) ⊎ ((8 ≤ n) × (known ≡ true))
level_tests level least n known h = ground arith

IsSecure-tests :
    (a : ClientArguments)
    → bad_user a.user_name ≡ false
    → bad_auth a ≡ false
    → bad_priv a ≡ false
    → IsSecure a
unfolding bad_user bad_auth bad_priv
IsSecure-tests a u p q =
    let (least, most) = user_tests (length a.user_name) u in
    (
      least,
      most,
      level_tests a.security_level (pos 0) (length a.auth_password)
          (one_of a.auth_protocol ("MD5" ∷ "SHA" ∷ [])) p,
      level_tests a.security_level (pos 1) (length a.priv_password)
          (one_of a.priv_protocol ("DES" ∷ "AES" ∷ [])) q,
    )

ok_inj : (a b : ClientArguments) → ◌≡◌ {A = Outcome ClientArguments} (ok a) (ok b) → b ≡ a
ok_inj a b h = ground arith

-- The arguments `b` that `validate_v3` makes of `a`.
abbrev IsSecured : ClientArguments → ClientArguments → Type 0
IsSecured a b = IsSecure b × (b.version ≡ a.version) × (b.message_max_size ≡ a.message_max_size)

validate_v3-IsSecure : (a b : ClientArguments) → validate_v3 a ≡ ok b → IsSecured a b
unfolding validate_v3
validate_v3-IsSecure a b h = >>=-elim (refuse_if (bad_user a.user_name)) _ h (λ _ u h1.
    >>=-elim (refuse_if (bad_auth a)) _ h1 (λ _ p h2.
      >>=-elim (refuse_if (bad_priv a)) _ h2 (λ _ q h3.
        >>=-elim (engine_field a.security_engine_id) _ h3 (λ s _ h4.
          >>=-elim (engine_field a.context_engine_id) _ h4 (λ c _ h5. rw (ok_inj _ b h5) (
            IsSecure-tests a (refuse_if-eq-ok _ u) (refuse_if-eq-ok _ p) (refuse_if-eq-ok _ q),
            refl,
            refl,
          ))))))

-- What the requests of a client rely on.
pub record IsReady (a : ClientArguments) : Type 0 where
  pub version_known : (a.version ≡ pos 0) ⊎ (a.version ≡ pos 1) ⊎ (a.version ≡ pos 3)
  pub size_least : pos msg_size_minimum ≤ℤ a.message_max_size
  pub size_most : a.message_max_size ≤ℤ pos max_int32
  pub waits : pos 1 ≤ℤ a.timeout
  pub secured : (a.version ≢ pos 3) ⊎ IsSecure a

-- A version is known, and the size of messages is not given or in its range.
abbrev IsChecked : ClientArguments → Type 0
IsChecked a =
    ((a.version ≡ pos 0) ⊎ (a.version ≡ pos 1) ⊎ (a.version ≡ pos 3))
    × ((a.message_max_size ≡ pos 0)
        ⊎ ((pos msg_size_minimum ≤ℤ a.message_max_size) × (a.message_max_size ≤ℤ pos max_int32)))

version_tests : (v : ℤ) → unknown_version v ≡ false → (v ≡ pos 0) ⊎ (v ≡ pos 1) ⊎ (v ≡ pos 3)
unfolding unknown_version
version_tests (pos n) h = ground arith
version_tests (negsuc n) h = ground arith

size_tests :
    (m : ℤ)
    → bad_size m ≡ false
    → (m ≡ pos 0) ⊎ ((pos msg_size_minimum ≤ℤ m) × (m ≤ℤ pos max_int32))
unfolding bad_size
size_tests (pos n) h = ground arith
size_tests (negsuc n) h = ground arith

checked :
    (a : ClientArguments)
    → unknown_version a.version ≡ false
    → bad_size a.message_max_size ≡ false
    → IsChecked a
checked a v m = (version_tests a.version v, size_tests a.message_max_size m)

validate_lem :
    (a b : ClientArguments) → validate a ≡ ok b → IsChecked b × ((b.version ≢ pos 3) ⊎ IsSecure b)
unfolding validate
validate_lem a b h = >>=-elim (refuse_if (unknown_version a.version)) _ h (λ _ v h1.
    >>=-elim (refuse_if (bad_size a.message_max_size)) _ h1 (λ _ m h2.
      by_version (Bool-cases (eqb_ℤ a.version (pos 3)))
        (checked a (refuse_if-eq-ok _ v) (refuse_if-eq-ok _ m)) h2))
  where
    by_version :
        (eqb_ℤ a.version (pos 3) ≡ true) ⊎ (eqb_ℤ a.version (pos 3) ≡ false)
        → IsChecked a
        → (if eqb_ℤ a.version (pos 3) then validate_v3 a else ok a) ≡ ok b
        → IsChecked b × ((b.version ≢ pos 3) ⊎ IsSecure b)
    by_version (inl is_v3) c e =
        let (secure, v, m) = validate_v3-IsSecure a b (rw is_v3 at e) in
        ((rw v c.0, rw m c.1), inr secure)
    by_version (inr other) c e = rw (ok_inj a b (rw other at e)) (c, inl (λ is_v3. ground arith))

timeout_set : (t : ℤ) → pos 1 ≤ℤ (if ltb_ℤ (pos 0) t then t else pos timeout_default)
timeout_set (pos n) = ground arith
timeout_set (negsuc n) = ground arith

size_set :
    (m : ℤ)
    → (m ≡ pos 0) ⊎ ((pos msg_size_minimum ≤ℤ m) × (m ≤ℤ pos max_int32))
    → (pos msg_size_minimum ≤ℤ (if eqb_ℤ m (pos 0) then pos msg_size_default else m))
      × ((if eqb_ℤ m (pos 0) then pos msg_size_default else m) ≤ℤ pos max_int32)
size_set (pos n) h = ground arith
size_set (negsuc n) h = ground arith

defaults :
    (a : ClientArguments)
    → IsChecked a × ((a.version ≢ pos 3) ⊎ IsSecure a)
    → IsReady (set_default a)
unfolding set_default
defaults a ((v, m), secure) = record {
  version_known = v;
  size_least = (size_set a.message_max_size m).0;
  size_most = (size_set a.message_max_size m).1;
  waits = timeout_set a.timeout;
  secured = secure;
}

-- The arguments that `NewSNMP` keeps have a known version, a size of messages from 484 to the
-- greatest int32, and a time-out; and for V3 a user name of 1 to 32 bytes and, as far as the level
-- asks for them, passwords of at least 8 bytes with known protocols.
pub new_snmp-IsReady : (a b : ClientArguments) → new_snmp a ≡ ok b → IsReady b
unfolding new_snmp
new_snmp-IsReady a b h =
    >>=-elim (validate a) _ h
      (λ c valid h1. rw (ok_inj (set_default c) b h1) (defaults c (validate_lem a c valid)))
