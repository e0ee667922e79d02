-- ===== src/Usm/Requests.antt =====
-- `USM.GenerateRequestMessage` and `USM.ProcessIncomingMessage` of security.go.
pub mod Secured
use snmpclient.Prelude.{
  ℕ, ◌+◌, ◌≡◌, Bool, true, false, not, ◌&&◌, ◌||◌, Option, none, some, List, [], ◌∷◌, ◌++◌, Bytes,
  Error, response, Outcome, ok, err, panic, no_fuel, ◌>>=◌, length, is_empty, ltb, if◌then◌else◌,
}
use snmpclient.Prelude.Int.{ℤ, pos, ltb_ℤ}
use snmpclient.Variable.{max_int32}
use snmpclient.Util.{confirmed_type, engine_id_to_bytes}
use snmpclient.Client.{ClientArguments}
use snmpclient.Asn1.{Asn1}
use snmpclient.Pdu.{ScopedPdu, Pdu, v1, scoped, base}
use snmpclient.Pdu.Wire.{marshal_scoped, unmarshal_any}
use snmpclient.Message.{MessageV1, as_response}
use snmpclient.MessageV3.{
  GlobalDataV3, MessageV3, security_usm, set_reportable, set_privacy, set_authentication, privacy,
  authentication, init_flags,
}
use snmpclient.Usm.{Usm, update_engine_boots_time}
use snmpclient.Usm.Crypto.{Crypto, password_to_key, encrypt, decrypt, mac}

-- The size of messages that is sent if none above 256 is asked for.
abbrev pub default_max_size : ℕ
default_max_size = 65507

-- The flags of a level, on a header.
unfoldable pub set_level : ℤ → GlobalDataV3 → GlobalDataV3
unfolding set_authentication set_privacy
set_level level h =
    if ltb_ℤ (pos 0) level
    then (if ltb_ℤ (pos 1) level
        then set_privacy true (set_authentication true h)
        else set_authentication true h)
    else h

-- The header that `GenerateRequestMessage` writes: the identifier is that of the request.
unfoldable pub request_header : ClientArguments → Pdu → GlobalDataV3 → GlobalDataV3
unfolding set_level set_reportable confirmed_type base
request_header args pdu h = set_level args.security_level (
    set_reportable (confirmed_type (base pdu).pdu_type) (record h {
      message_id = (base pdu).request_id;
      message_max_size =
          if ltb_ℤ (pos 256) args.message_max_size
          then args.message_max_size
          else pos default_max_size;
      security_model = pos security_usm;
    }))

-- The bytes of `engineIdToBytes`, nil with an error, which is dropped.
unfoldable pub or_nil : Outcome Bytes → Bytes
or_nil (ok b) = b
or_nil _ = []

-- The context that the arguments ask for.
unfoldable pub with_context : ClientArguments → Bytes → ScopedPdu → ScopedPdu
unfolding or_nil engine_id_to_bytes
with_context args engine_id p = record p {
  context_engine_id =
      if is_empty args.context_engine_id
      then engine_id
      else or_nil (engine_id_to_bytes args.context_engine_id);
  context_name = if is_empty args.context_name then p.context_name else args.context_name;
}

-- The security parameters of a request, of the engine at its time after the update.
unfoldable pub request_security : ClientArguments → Usm → MessageV3 → MessageV3
request_security args u m = record m {
  security = record m.security {
    user_name = args.user_name;
    auth_engine_id = u.auth_engine_id;
    auth_engine_boots = pos u.auth_engine_boots;
    auth_engine_time = pos u.auth_engine_time;
  };
}

-- The state of the engine after the call: the clock is updated before anything fails, but a
-- message without a scoped unit panics.
unfoldable pub usm_after : ℕ → Usm → Usm
unfolding update_engine_boots_time
usm_after now u = (update_engine_boots_time now u).0

-- The tests of the security parameters of an answer.
unfoldable pub bad_engine : MessageV3 → Bool
bad_engine m =
    (ltb (length m.security.auth_engine_id) 5 || ltb 32 (length m.security.auth_engine_id))
    || ((ltb_ℤ m.security.auth_engine_boots (pos 0)
          || ltb_ℤ (pos max_int32) m.security.auth_engine_boots)
        || (ltb_ℤ m.security.auth_engine_time (pos 0)
            || ltb_ℤ (pos max_int32) m.security.auth_engine_time))

module _ (c : Crypto) (a : Asn1) where
  -- A key that is given, or that of the password for the engine.
  unfoldable pub key_or_password : Bytes → Bytes → Bytes → Bytes → Outcome Bytes
  unfolding password_to_key
  key_or_password key proto password engine_id =
      if is_empty key then password_to_key c proto password engine_id else ok key

  -- The encryption, if the flag asks for it, with the salt drawn.
  unfoldable pub secure_privacy : ClientArguments → Bytes → ℤ → MessageV3 → Outcome MessageV3
  unfolding privacy key_or_password encrypt
  secure_privacy args engine_id salt m =
      if privacy m.global
      then (do
        key ← key_or_password args.priv_key args.auth_protocol args.priv_password engine_id
        encrypt c a salt m args.priv_protocol key)
      else ok m

  unfoldable pub secure_digest : ClientArguments → Bytes → MessageV3 → Outcome MessageV3
  unfolding key_or_password mac
  secure_digest args engine_id m = do
    key ← key_or_password args.auth_key args.auth_protocol args.auth_password engine_id
    d ← mac c a m args.auth_protocol key
    ok (record m { security = record m.security { auth_parameter = d } })

  unfoldable pub secure : ClientArguments → Bytes → ℤ → MessageV3 → Outcome MessageV3
  unfolding authentication secure_privacy secure_digest
  secure args engine_id salt m =
      if authentication m.global
      then (do e ← secure_privacy args engine_id salt m; secure_digest args engine_id e)
      else ok m

  -- The part behind the update of the clock. The PDU is shared with the caller.
  unfoldable pub finish_request :
      ClientArguments → Usm → ℤ → MessageV3 → ScopedPdu → Outcome MessageV3
  unfolding request_security with_context marshal_scoped secure
  finish_request args u salt m p =
      let q = with_context args u.auth_engine_id p in
      (do
        b ← marshal_scoped a q
        let w = request_security args u m in
            secure args u.auth_engine_id salt
              (record w { message = record w.message { pdu_bytes = b; pdu = some (scoped q) } }))

  unfoldable pub with_clock :
      ClientArguments → Usm × Option Error → ℤ → MessageV3 → ScopedPdu → Outcome MessageV3
  unfolding finish_request
  with_clock args (u, none) salt m p = finish_request args u salt m p
  with_clock args (u, some e) salt m p = err e

  -- The unit is cast behind the error of the clock.
  not_scoped : Usm × Option Error → Outcome MessageV3
  not_scoped (u, none) = panic
  not_scoped (u, some e) = err e

  unfoldable pub with_pdu :
      ClientArguments → Usm → ℕ → ℤ → MessageV3 → Option Pdu → Outcome MessageV3
  unfolding with_clock request_header update_engine_boots_time not_scoped
  with_pdu args u now salt m (some (scoped p)) =
      with_clock args (update_engine_boots_time now u) salt
        (record m { global = request_header args (scoped p) m.global }) p
  with_pdu args u now salt m (some (v1 p)) = not_scoped (update_engine_boots_time now u)
  with_pdu args u now salt m none = panic

  -- The message that `GenerateRequestMessage` leaves, at the time `now`.
  unfoldable pub generate_request_v3 : ClientArguments → Usm → ℕ → ℤ → MessageV3 → Outcome MessageV3
  unfolding with_pdu
  generate_request_v3 args u now salt m = with_pdu args u now salt m m.message.pdu

  unfoldable pub open_privacy : ClientArguments → Usm → MessageV3 → Outcome MessageV3
  unfolding authentication privacy key_or_password decrypt as_response
  open_privacy args u m =
      if authentication m.global && privacy m.global
      then (do
        key ← key_or_password args.priv_key args.auth_protocol args.priv_password u.auth_engine_id
        as_response (decrypt c a m args.priv_protocol key m.security.priv_parameter))
      else ok m

  unfoldable pub read_scoped : MessageV3 → Option Pdu → Outcome MessageV3
  unfolding unmarshal_any as_response
  read_scoped m (some (scoped p)) = do
    (q, _) ← as_response (unmarshal_any a (scoped p) m.message.pdu_bytes)
    ok (record m { message = record m.message { pdu = some q } })
  read_scoped m (some (v1 p)) = do
    _ ← as_response (unmarshal_any a (v1 p) m.message.pdu_bytes)
    panic
  read_scoped m none = panic

  -- `ProcessIncomingMessage` with the message that it leaves, whose flags `initFlags` has touched.
  unfoldable pub process_incoming_v3 : ClientArguments → Usm → MessageV3 → Outcome MessageV3
  unfolding bad_engine open_privacy read_scoped init_flags
  process_incoming_v3 args u m = if bad_engine m then err response else (do
    d ← open_privacy args u (record m {
      global = record m.global { message_flags = init_flags m.global.message_flags };
    })
    read_scoped d d.message.pdu)
