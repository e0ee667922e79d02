-- ===== src/Usm/Requests/Secured.antt =====
-- `ProcessIncomingMessage` on what `GenerateRequestMessage` makes, with an engine of the same
-- identifier (security.go).
use snmpclient.Prelude.{
  ℕ, ◌<◌, ◌≡◌, refl, sym, ap, ◌∙◌, Bool, true, false, Option, none, some, [], ◌∷◌, ◌++◌, Bytes,
  Error, Outcome, ok, ◌>>=◌, >>=-elim, append-nil, All, if◌then◌else◌, arith,
}
use snmpclient.Prelude.Int.{ℤ, pos}
use snmpclient.Client.{ClientArguments}
use snmpclient.Asn1.{Asn1}
use snmpclient.Pdu.{ScopedPdu, Pdu, scoped, base}
use snmpclient.Pdu.Wire.{marshal_scoped, unmarshal_any}
use snmpclient.Pdu.Wire.Items.{IsBinding}
use snmpclient.Pdu.Wire.RoundTrip.{NamesEnterprise, carried, unmarshal_scoped-marshal_scoped}
use snmpclient.Message.{as_response}
use snmpclient.MessageV3.{
  GlobalDataV3, MessageV3, privacy, authentication, init_flags, octets, set_privacy,
  set_authentication, on_flags, set_reportable, security_usm,
}
use snmpclient.Usm.{Usm, update_engine_boots_time}
use snmpclient.Usm.Crypto.{Crypto, encrypt, encrypt_by, decrypt, mac}
use snmpclient.Usm.Crypto.Ciphers.{decrypt-encrypt}
use snmpclient.Usm.Requests.{
  with_context, request_header, request_security, key_or_password, secure_privacy, secure_digest,
  secure, finish_request, with_clock, with_pdu, generate_request_v3, bad_engine, open_privacy,
  read_scoped, process_incoming_v3, set_level,
}

message_inj : (m e : MessageV3) → ◌≡◌ {A = Outcome MessageV3} (ok m) (ok e) → e ≡ m
message_inj m e h = ground arith

-- The message `w` has the flags, the security parameters and the bytes of `e`.
pub record IsReceived (e w : MessageV3) : Type 0 where
  pub same_authentication : authentication w.global ≡ authentication e.global
  pub same_privacy : privacy w.global ≡ privacy e.global
  pub same_security : w.security ≡ e.security
  pub same_bytes : w.message.pdu_bytes ≡ e.message.pdu_bytes

-- The header and the version are the same.
abbrev Keeps : MessageV3 → MessageV3 → Type 0
Keeps m e = (m.global ≡ e.global) × (m.message.version ≡ e.message.version)

keeps : (m e : MessageV3) → e ≡ m → (m.global ≡ e.global) × (m.message.version ≡ e.message.version)
keeps m e h = (sym (ap (λ v. v.global) h), sym (ap (λ v. v.message.version) h))

-- `w` with the bytes of the unit `b` and something behind them.
abbrev Opened : Outcome MessageV3 → MessageV3 → Bytes → Type 0
Opened o w b =
    (pad : Bytes) × (o ≡ ok (record w { message = record w.message { pdu_bytes = b ++ pad } }))

module _ (c : Crypto) (a : Asn1) where
  -- Nothing to open.
  plain : (w : MessageV3) (b : Bytes) → w.message.pdu_bytes ≡ b → Opened (ok w) w b
  plain w b same = (
    [],
    ap (λ (l : Bytes). ok (record w { message = record w.message { pdu_bytes = l } }))
        (same ∙ sym (append-nil b)),
  )

  -- The branch of the flag of privacy.
  private_back :
      (is_private : Bool) (args : ClientArguments) (id : Bytes) (salt : ℤ) (m e w : MessageV3)
      (d : Bytes)
      → (if is_private
          then (do
            key ← key_or_password c a args.priv_key args.auth_protocol args.priv_password id
            encrypt c a salt m args.priv_protocol key)
          else ok m)
        ≡ ok e
      → w.security ≡ record e.security { auth_parameter = d }
      → w.message.pdu_bytes ≡ e.message.pdu_bytes
      → Opened
          (if is_private
            then (do
              key ← key_or_password c a args.priv_key args.auth_protocol args.priv_password id
              as_response (decrypt c a w args.priv_protocol key w.security.priv_parameter))
            else ok w)
          w
          m.message.pdu_bytes
  unfolding as_response
  private_back true args id salt m e w d h sec bytes =
      >>=-elim (key_or_password c a args.priv_key args.auth_protocol args.priv_password id) _ h
        (λ key mk h1.
          let (pad, back) = decrypt-encrypt c a salt m e w args.priv_protocol key d h1 sec bytes in
          (pad, rw (mk, back) refl))
  private_back false args id salt m e w d h sec bytes =
      plain w m.message.pdu_bytes (bytes ∙ ap (λ v. v.message.pdu_bytes) (message_inj m e h))

  private-Keeps :
      (is_private : Bool) (args : ClientArguments) (id : Bytes) (salt : ℤ) (m e : MessageV3)
      → (if is_private
          then (do
            key ← key_or_password c a args.priv_key args.auth_protocol args.priv_password id
            encrypt c a salt m args.priv_protocol key)
          else ok m)
        ≡ ok e
      → Keeps m e
  unfolding encrypt
  private-Keeps true args id salt m e h =
      >>=-elim (key_or_password c a args.priv_key args.auth_protocol args.priv_password id) _ h
        (λ key _ h1.
          >>=-elim (encrypt_by c args.priv_protocol salt m.security key m.message.pdu_bytes) _ h1
            (λ x _ h2.
              >>=-elim (a.marshal_raw (octets x.0)) _ h2
                (λ b _ h3. keeps _ e (message_inj _ e h3))))
  private-Keeps false args id salt m e h = keeps m e (message_inj m e h)

  -- The branch of the flag of authentication.
  secured_by :
      (is_authentic : Bool) (args : ClientArguments) (u : Usm) (salt : ℤ) (m e w : MessageV3)
      → authentication m.global ≡ is_authentic
      → (if is_authentic
          then (do
            v ← secure_privacy c a args u.auth_engine_id salt m
            secure_digest c a args u.auth_engine_id v)
          else ok m)
        ≡ ok e
      → IsReceived e w
      → Opened (open_privacy c a args u w) w m.message.pdu_bytes
  unfolding secure_privacy secure_digest open_privacy
  secured_by true args u salt m e w auth h is =
      >>=-elim (secure_privacy c a args u.auth_engine_id salt m) _ h (λ v hv h1.
        >>=-elim
          (key_or_password c a args.auth_key args.auth_protocol args.auth_password u.auth_engine_id)
          _ h1
          (λ key _ h2. >>=-elim (mac c a v args.auth_protocol key) _ h2 (λ d _ h3.
            let done = message_inj _ e h3 in
            let (kept, _) = private-Keeps (privacy m.global) args u.auth_engine_id salt m v hv in
            let header : m.global ≡ e.global = kept ∙ sym (ap (λ x. x.global) done) in
            let au : authentication w.global ≡ true =
              is.same_authentication ∙ ap authentication (sym header) ∙ auth in
            let pr : privacy w.global ≡ privacy m.global =
              is.same_privacy ∙ ap privacy (sym header) in
            rw (au, pr)
              (private_back (privacy m.global) args u.auth_engine_id salt m v w d hv
                (is.same_security ∙ ap (λ x. x.security) done)
                (is.same_bytes ∙ ap (λ x. x.message.pdu_bytes) done)))))
  secured_by false args u salt m e w auth h is =
      let done = message_inj m e h in
      let au : authentication w.global ≡ false =
        is.same_authentication ∙ ap (λ x. authentication x.global) done ∙ auth in
      rw au (plain w m.message.pdu_bytes (is.same_bytes ∙ ap (λ x. x.message.pdu_bytes) done))

  secure_by-Keeps :
      (is_authentic : Bool) (args : ClientArguments) (id : Bytes) (salt : ℤ) (m e : MessageV3)
      → (if is_authentic
          then (do v ← secure_privacy c a args id salt m; secure_digest c a args id v)
          else ok m)
        ≡ ok e
      → Keeps m e
  unfolding secure_privacy secure_digest
  secure_by-Keeps true args id salt m e h =
      >>=-elim (secure_privacy c a args id salt m) _ h (λ v hv h1.
        >>=-elim (key_or_password c a args.auth_key args.auth_protocol args.auth_password id) _ h1
          (λ key _ h2. >>=-elim (mac c a v args.auth_protocol key) _ h2 (λ d _ h3.
            let (g, n) = private-Keeps (privacy m.global) args id salt m v hv in
            let done = message_inj _ e h3 in
            (g ∙ sym (ap (λ x. x.global) done), n ∙ sym (ap (λ x. x.message.version) done)))))
  secure_by-Keeps false args id salt m e h = keeps m e (message_inj m e h)

  finished :
      (args : ClientArguments) (s : Usm × Option Error) (salt : ℤ) (m e : MessageV3) (p : ScopedPdu)
      → with_clock c a args s salt m p ≡ ok e
      → finish_request c a args s.0 salt m p ≡ ok e
  unfolding with_clock
  finished args (u, none) salt m e p h = h
  finished args (u, some x) salt m e p h = ground arith

  touched : (f : Bytes) → init_flags (init_flags f) ≡ init_flags f
  unfolding init_flags
  touched [] = refl
  touched (x ∷ f) = refl

  touched-IsReceived :
      (e w : MessageV3)
      → IsReceived e w
      → IsReceived e (record w {
        global = record w.global { message_flags = init_flags w.global.message_flags };
      })
  unfolding authentication privacy
  touched-IsReceived e w is = record {
    same_authentication = rw (touched w.global.message_flags) is.same_authentication;
    same_privacy = rw (touched w.global.message_flags) is.same_privacy;
    same_security = is.same_security;
    same_bytes = is.same_bytes;
  }

  read_back :
      (w : MessageV3) (q t : ScopedPdu) (b pad : Bytes)
      → q.pdu_v1.pdu_type < 31
      → NamesEnterprise q.pdu_v1
      → All IsBinding q.pdu_v1.variable_bindings
      → marshal_scoped a q ≡ ok b
      → w.message.pdu_bytes ≡ b ++ pad
      → read_scoped c a w (some (scoped t))
        ≡ ok (record w {
          message = record w.message {
            pdu = some (scoped (record q { pdu_v1 = carried q.pdu_v1 }));
          };
        })
  unfolding read_scoped as_response unmarshal_any
  read_back w q t b pad kind named bound written bytes =
      rw (bytes, unmarshal_scoped-marshal_scoped a q b pad kind named bound written) refl

engine_kept :
    (now : ℕ) (u : Usm) → (update_engine_boots_time now u).0.auth_engine_id ≡ u.auth_engine_id
unfolding update_engine_boots_time
engine_kept now u = ground arith

request_header_kept :
    (args : ClientArguments) (pdu : Pdu) (h : GlobalDataV3)
    → ((request_header args pdu h).message_id ≡ (base pdu).request_id)
      × ((request_header args pdu h).security_model ≡ pos security_usm)
unfolding request_header set_level set_privacy set_authentication set_reportable on_flags
request_header_kept args pdu h = (ground arith, ground arith)

-- The message that is secured: the engine `u` after the update of its clock, and the unit `q` with
-- its bytes `b`.
abbrev ready : ClientArguments → Usm → MessageV3 → ScopedPdu → Bytes → MessageV3
ready args u m q b =
    let n : MessageV3 = record m { global = request_header args (scoped q) m.global } in
    let y = request_security args u n in
    record y { message = record y.message { pdu_bytes = b; pdu = some (scoped q) } }

module _ (c : Crypto) (a : Asn1) where
  parts :
      (args : ClientArguments) (u : Usm) (now : ℕ) (salt : ℤ) (m e : MessageV3) (p : ScopedPdu)
      → generate_request_v3 c a args u now salt m ≡ ok e
      → m.message.pdu ≡ some (scoped p)
      → let s = (update_engine_boots_time now u).0 in
        let q = with_context args u.auth_engine_id p in
        (b : Bytes) × (marshal_scoped a q ≡ ok b)
        × (secure c a args u.auth_engine_id salt (ready args s m q b) ≡ ok e)
  unfolding generate_request_v3 with_pdu finish_request request_header base with_context
  parts args u now salt m e p h sent =
      let s = update_engine_boots_time now u in
      let n : MessageV3 = record m { global = request_header args (scoped p) m.global } in
      let h1 =
        finished c a args s salt n e p
          (ap (λ o. with_pdu c a args u now salt m o) (sym sent) ∙ h) in
      >>=-elim (marshal_scoped a (with_context args s.0.auth_engine_id p)) _ h1 (λ b mb h2. (
        b,
        ap (λ (l : Bytes). marshal_scoped a (with_context args l p)) (sym (engine_kept now u)) ∙ mb,
        ap (λ (l : Bytes). secure c a args l salt (ready args s.0 m (with_context args l p) b))
              (sym (engine_kept now u))
            ∙ h2,
      ))

  -- The identifier of a message is that of the request, and its version the one asked for.
  pub generated :
      (args : ClientArguments) (u : Usm) (now : ℕ) (salt : ℤ) (m e : MessageV3) (p : ScopedPdu)
      → generate_request_v3 c a args u now salt m ≡ ok e
      → m.message.pdu ≡ some (scoped p)
      → (e.global.message_id ≡ p.pdu_v1.request_id)
        × (e.global.security_model ≡ pos security_usm)
        × (e.message.version ≡ m.message.version)
  unfolding base with_context secure request_header request_security
  generated args u now salt m e p h sent =
      let s = (update_engine_boots_time now u).0 in
      let q = with_context args u.auth_engine_id p in
      let (b, mb, h2) = parts args u now salt m e p h sent in
      let n = ready args s m q b in
      let (g, v) =
        secure_by-Keeps c a (authentication n.global) args u.auth_engine_id salt n e h2 in
      let (i, model) = request_header_kept args (scoped q) m.global in
      (sym (ap (λ x. x.message_id) g) ∙ i, sym (ap (λ x. x.security_model) g) ∙ model, sym v)

  -- The peer of the same engine identifier, with the same arguments, opens what a request holds,
  -- whatever the level and the protocols are: `ProcessIncomingMessage`, on a message `w` with the
  -- flags, the security parameters and the bytes that `GenerateRequestMessage` made, gives the unit
  -- sent, in the context that the arguments ask for and with the fields that its type carries. The
  -- parameters of the engine are in range, the type is below 31, and the encoding carries the
  -- bindings and the enterprise.
  pub process_incoming_v3-generate_request_v3 :
      (args : ClientArguments) (u peer : Usm) (now : ℕ) (salt : ℤ) (m e w : MessageV3)
      (p t : ScopedPdu)
      → generate_request_v3 c a args u now salt m ≡ ok e
      → m.message.pdu ≡ some (scoped p)
      → p.pdu_v1.pdu_type < 31
      → NamesEnterprise p.pdu_v1
      → All IsBinding p.pdu_v1.variable_bindings
      → peer.auth_engine_id ≡ u.auth_engine_id
      → IsReceived e w
      → w.message.pdu ≡ some (scoped t)
      → bad_engine w ≡ false
      → (x : MessageV3) × (process_incoming_v3 c a args peer w ≡ ok x)
        × (x.message.pdu
            ≡ some (
                scoped
                  (record (with_context args u.auth_engine_id p) { pdu_v1 = carried p.pdu_v1 })))
  unfolding process_incoming_v3 with_context secure
  process_incoming_v3-generate_request_v3 args u peer now salt m e w p t h sent kind named bound
        same is into good =
      let s = (update_engine_boots_time now u).0 in
      let q = with_context args u.auth_engine_id p in
      let (b, mb, h2) = parts args u now salt m e p h sent in
      let n = ready args s m q b in
      let v : MessageV3 = record w {
        global = record w.global { message_flags = init_flags w.global.message_flags };
      } in
      let (pad, opened) =
        secured_by c a (authentication n.global) args peer salt n e v refl
          (ap (λ (l : Bytes). secure c a args l salt n) same ∙ h2)
          (touched-IsReceived c a e w is) in
      let d : MessageV3 = record v { message = record v.message { pdu_bytes = b ++ pad } } in
      let read = read_back c a d q t b pad kind named bound mb refl in
      (
        record d {
          message = record d.message {
            pdu = some (scoped (record q { pdu_v1 = carried q.pdu_v1 }));
          };
        },
        rw (good, opened, into) read,
        refl,
      )
