-- ===== src/MessageV3/Safe.antt =====
-- `messageProcessingV3.PrepareOutgoingMessage` with arguments that `validate` accepts (message.go,
-- security.go, snmpgo.go).
use snmpclient.Prelude.{
  ℕ, ◌≤◌, ◌≡◌, ◌⊎◌, inl, inr, refl, Bool, true, false, ◌&&◌, Option, none, some, [], ◌∷◌, Bytes,
  Error, ok, ◌>>=◌, Returns, ok-Returns, err-Returns, >>=-Returns, length, one_of, if◌then◌else◌,
  arith,
}
use snmpclient.Prelude.Int.{ℤ, pos, ltb_ℤ, ◌≤ℤ◌}
use snmpclient.Util.{confirmed_type}
use snmpclient.Client.{ClientArguments}
use snmpclient.Client.Accepted.{IsSecure}
use snmpclient.Asn1.{Asn1}
use snmpclient.Pdu.{ScopedPdu, scoped, set_request_id}
use snmpclient.Pdu.Wire.{marshal_scoped}
use snmpclient.Pdu.Wire.Encode.{scoped-Returns}
use snmpclient.MessageV3.{
  GlobalDataV3, MessageV3, set_reportable, set_authentication, set_privacy, authentication, privacy,
  new_message_v3,
}
use snmpclient.MessageV3.Processing.{outgoing_v3, prepare_outgoing_v3}
use snmpclient.Usm.{Usm, update_engine_boots_time}
use snmpclient.Usm.Crypto.{Crypto, encrypt, mac}
use snmpclient.Usm.Crypto.Total.{Gives, password_to_key-Gives, encrypt-Returns, mac-Returns}
use snmpclient.Usm.Requests.{
  set_level, request_header, request_security, with_context, key_or_password, secure_privacy,
  secure_digest, secure, finish_request, with_clock, with_pdu, generate_request_v3,
}

-- `set_level` on what its tests come to.
abbrev at_level : Bool → Bool → GlobalDataV3 → GlobalDataV3
at_level some_level all_levels h =
    if some_level
    then (if all_levels
        then set_privacy true (set_authentication true h)
        else set_authentication true h)
    else h

-- The flags, set twice on a new header, are those of the level.
level_flags :
    (confirmed some_level all_levels : Bool) (h n : GlobalDataV3)
    → h.message_flags ≡ 0 ∷ []
    → n.message_flags ≡ (at_level some_level all_levels (set_reportable confirmed h)).message_flags
    → let g = at_level some_level all_levels (set_reportable confirmed n) in
      (authentication g ≡ some_level) × (privacy g ≡ some_level && all_levels)
unfolding set_privacy set_authentication set_reportable authentication privacy
level_flags true true true h n e f = rw (f, e) (refl, refl)
level_flags true true false h n e f = rw (f, e) (refl, refl)
level_flags true false true h n e f = rw (f, e) (refl, refl)
level_flags true false false h n e f = rw (f, e) (refl, refl)
level_flags false true true h n e f = rw (f, e) (refl, refl)
level_flags false true false h n e f = rw (f, e) (refl, refl)
level_flags false false true h n e f = rw (f, e) (refl, refl)
level_flags false false false h n e f = rw (f, e) (refl, refl)

header_flags :
    (message_id : ℤ) (args : ClientArguments) (p : ScopedPdu)
    → let n = request_header args (scoped p) (outgoing_v3 message_id args (scoped p)).global in
      (authentication n ≡ ltb_ℤ (pos 0) args.security_level)
      × (privacy n ≡ ltb_ℤ (pos 0) args.security_level && ltb_ℤ (pos 1) args.security_level)
unfolding request_header outgoing_v3 set_level
header_flags message_id args p =
    level_flags (confirmed_type p.pdu_v1.pdu_type) (ltb_ℤ (pos 0) args.security_level)
      (ltb_ℤ (pos 1) args.security_level)
      (record (new_message_v3 args.version (scoped p)).global {
        message_id = message_id;
        message_max_size = args.message_max_size;
        security_model = pos 3;
      })
      _ refl refl

-- A level above `least` brings what is asked of it.
asked : {P : Type 0} (level least : ℤ) → ltb_ℤ least level ≡ true → (level ≤ℤ least) ⊎ P → P
asked level least h (inl le) = absurd (ground arith)
asked level least h (inr p) = p

-- The key of the arguments is none, or long enough to be cut.
abbrev pub IsKey : Bytes → Type 0
IsKey key = (key ≡ []) ⊎ (16 ≤ length key)

module _ (c : Crypto) (a : Asn1) where
  key_long :
      (key proto password id : Bytes)
      → IsKey key
      → one_of proto ("MD5" ∷ "SHA" ∷ []) ≡ true
      → 1 ≤ length password
      → Gives (key_or_password c a key proto password id) (λ k. 16 ≤ length k)
  unfolding key_or_password
  key_long [] proto password id is known some_password =
      password_to_key-Gives c proto password id known some_password
  key_long (x ∷ key) proto password id (inl e) known some_password = absurd (ground (arith, e))
  key_long (x ∷ key) proto password id (inr long) known some_password = (x ∷ key, refl, long)

  key_any :
      (key proto password id : Bytes)
      → one_of proto ("MD5" ∷ "SHA" ∷ []) ≡ true
      → 1 ≤ length password
      → Returns (key_or_password c a key proto password id)
  unfolding key_or_password
  key_any [] proto password id known some_password =
      let (k, e, _) = password_to_key-Gives c proto password id known some_password in
      rw e (ok-Returns k)
  key_any (x ∷ key) proto password id known some_password = ok-Returns (x ∷ key)

  digest-Returns :
      (args : ClientArguments) (id : Bytes) (m : MessageV3)
      → (8 ≤ length args.auth_password) × (one_of args.auth_protocol ("MD5" ∷ "SHA" ∷ []) ≡ true)
      → Returns (secure_digest c a args id m)
  unfolding secure_digest
  digest-Returns args id m (long, known) =
      >>=-Returns (key_or_password c a args.auth_key args.auth_protocol args.auth_password id) _
        (key_any args.auth_key args.auth_protocol args.auth_password id known (omega (arith, long)))
        (λ k _.
          >>=-Returns (mac c a m args.auth_protocol k) _ (mac-Returns c a m args.auth_protocol k)
            (λ d _. ok-Returns _))

  secure-Returns :
      (args : ClientArguments) (id : Bytes) (salt : ℤ) (m : MessageV3)
      → IsSecure args
      → IsKey args.priv_key
      → (authentication m.global ≡ ltb_ℤ (pos 0) args.security_level)
      → (privacy m.global ≡ ltb_ℤ (pos 0) args.security_level && ltb_ℤ (pos 1) args.security_level)
      → Returns (secure c a args id salt m)
  unfolding secure secure_privacy secure_digest
  secure-Returns args id salt m (_, _, authentic, private) key auth priv =
      rw (auth, priv)
        (by_level (ltb_ℤ (pos 0) args.security_level) (ltb_ℤ (pos 1) args.security_level) refl refl)
    where
      by_level :
          (some_level all_levels : Bool)
          → ltb_ℤ (pos 0) args.security_level ≡ some_level
          → ltb_ℤ (pos 1) args.security_level ≡ all_levels
          → Returns (
              if some_level
              then (do
                v ←
                    if some_level && all_levels
                    then (do
                      k ← key_or_password c a args.priv_key args.auth_protocol args.priv_password id
                      encrypt c a salt m args.priv_protocol k)
                    else ok m
                secure_digest c a args id v)
              else ok m)
      by_level false l hs hl = ok-Returns m
      by_level true false hs hl =
          digest-Returns args id m (asked args.security_level (pos 0) hs authentic)
      by_level true true hs hl =
          let (long, known) = asked args.security_level (pos 0) hs authentic in
          let (enough, _) = asked args.security_level (pos 1) hl private in
          let (k, e, size) =
            key_long args.priv_key args.auth_protocol args.priv_password id key known
              (omega (arith, enough)) in
          >>=-Returns _ _ (rw e (encrypt-Returns c a salt m args.priv_protocol k size))
            (λ v _. digest-Returns args id v (long, known))

  with_clock-Returns :
      (args : ClientArguments) (s : Usm × Option Error) (salt : ℤ) (m : MessageV3) (p : ScopedPdu)
      → IsSecure args
      → IsKey args.priv_key
      → (authentication m.global ≡ ltb_ℤ (pos 0) args.security_level)
      → (privacy m.global ≡ ltb_ℤ (pos 0) args.security_level && ltb_ℤ (pos 1) args.security_level)
      → Returns (with_clock c a args s salt m p)
  unfolding with_clock finish_request request_security
  with_clock-Returns args (u, some e) salt m p is key auth priv = err-Returns e
  with_clock-Returns args (u, none) salt m p is key auth priv =
      let q = with_context args u.auth_engine_id p in
      >>=-Returns (marshal_scoped a q) _ (scoped-Returns a q) (λ b _.
        let w = request_security args u m in
        secure-Returns args u.auth_engine_id salt
          (record w { message = record w.message { pdu_bytes = b; pdu = some (scoped q) } }) is key
          auth priv)

  -- With arguments that pass the tests of V3, and a privacy key that is left out or has at least
  -- 16 bytes, `PrepareOutgoingMessage` gives a message or an error for every scoped unit, whatever
  -- the state of the engine and its clock: no password is repeated zero times, no key is cut too
  -- short, and no protocol is unknown to `PasswordToKey`.
  pub prepare_outgoing_v3-Returns :
      (id message_id : ℤ) (args : ClientArguments) (u : Usm) (now : ℕ) (salt : ℤ) (p : ScopedPdu)
      → IsSecure args
      → IsKey args.priv_key
      → Returns (prepare_outgoing_v3 c a id message_id args u now salt (scoped p))
  unfolding prepare_outgoing_v3 generate_request_v3 with_pdu set_request_id
  prepare_outgoing_v3-Returns id message_id args u now salt p is key =
      let q : ScopedPdu = record p { pdu_v1 = record p.pdu_v1 { request_id = id } } in
      let m = outgoing_v3 message_id args (scoped q) in
      let (auth, priv) = header_flags message_id args q in
      with_clock-Returns args (update_engine_boots_time now u) salt
        (record m { global = request_header args (scoped q) m.global }) q is key auth priv
