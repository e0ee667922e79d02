-- ===== src/MessageV3/Forged.antt =====
-- What `messageProcessingV3.PrepareDataElements` does not look at (message.go, security.go).
use snmpclient.Prelude.{
  ◌≡◌, refl, ap, ◌∙◌, Bool, true, false, not, ◌&&◌, Option, none, some, Bytes, Outcome, ok, err,
  panic, no_fuel, response, asn1, ◌>>=◌, if◌then◌else◌,
}
use snmpclient.Prelude.Int.{pos, eqb_ℤ}
use snmpclient.Client.{ClientArguments}
use snmpclient.Asn1.{Asn1}
use snmpclient.Pdu.{Pdu, v1, scoped}
use snmpclient.Pdu.Wire.{unmarshal_any}
use snmpclient.Message.{as_response}
use snmpclient.MessageV3.{MessageV3, security_usm, is_octets, privacy, authentication, init_flags}
use snmpclient.MessageV3.Processing.{check_pdu_v3, accept_v3}
use snmpclient.Usm.{Usm}
use snmpclient.Usm.Crypto.{Crypto, decrypt_by, decrypt}
use snmpclient.Usm.Requests.{
  key_or_password, bad_engine, open_privacy, read_scoped, process_incoming_v3,
}

-- A message with another user and another digest.
abbrev pub forge : Bytes → Bytes → MessageV3 → MessageV3
forge user digest m = record m {
  security = record m.security { user_name = user; auth_parameter = digest };
}

through :
    {X Y Z : Type 0} (o : Outcome X) (f : X → Outcome Z) (g : X → Outcome Y) (k : Y → Outcome Z)
    → ((x : X) → f x ≡ g x >>= k)
    → o >>= f ≡ o >>= g >>= k
through (ok x) f g k h = h x
through (err e) f g k h = refl
through panic f g k h = refl
through no_fuel f g k h = refl

guard_through :
    {Y Z : Type 0} (t : Bool) (o : Outcome Z) (p : Outcome Y) (k : Y → Outcome Z)
    → o ≡ p >>= k
    → (if t then o else err asn1) ≡ (if t then p else err asn1) >>= k
guard_through true o p k h = h
guard_through false o p k h = refl

response_through :
    {X Y : Type 0} (o : Outcome X) (f : X → Y)
    → as_response (o >>= λ x. ok (f x)) ≡ as_response o >>= λ x. ok (f x)
unfolding as_response
response_through (ok x) f = refl
response_through (err e) f = refl
response_through panic f = refl
response_through no_fuel f = refl

through_ok :
    {X Y Z : Type 0} (o : Outcome X) (f g : X → Y) (k l : Y → Outcome Z)
    → ((x : X) → k (f x) ≡ l (g x))
    → (o >>= λ x. ok (f x)) >>= k ≡ (o >>= λ x. ok (g x)) >>= l
through_ok (ok x) f g k l h = h x
through_ok (err e) f g k l h = refl
through_ok panic f g k l h = refl
through_ok no_fuel f g k l h = refl

module _ (c : Crypto) (a : Asn1) (user digest : Bytes) where
  decrypt-forge :
      (m : MessageV3) (proto key priv : Bytes)
      → decrypt c a (forge user digest m) proto key priv
        ≡ decrypt c a m proto key priv >>= λ v. ok (forge user digest v)
  unfolding decrypt decrypt_by
  decrypt-forge m proto key priv = through (a.unmarshal_raw m.message.pdu_bytes) _ _ _ (λ x.
      guard_through (is_octets x.0) _ _ _
        (through (decrypt_by c proto m.security key priv x.0.content) _ _ _ (λ d. refl)))

  open_by :
      (t : Bool) (args : ClientArguments) (u : Usm) (m : MessageV3)
      → (if t
          then (do
            key ←
                key_or_password c a args.priv_key args.auth_protocol args.priv_password
                  u.auth_engine_id
            as_response (
                decrypt c a (forge user digest m) args.priv_protocol key m.security.priv_parameter))
          else ok (forge user digest m))
        ≡ (if t
            then (do
              key ←
                  key_or_password c a args.priv_key args.auth_protocol args.priv_password
                    u.auth_engine_id
              as_response (decrypt c a m args.priv_protocol key m.security.priv_parameter))
            else ok m)
          >>= λ v. ok (forge user digest v)
  open_by true args u m =
      through
        (key_or_password c a args.priv_key args.auth_protocol args.priv_password u.auth_engine_id) _
        _ _
        (λ key.
          ap as_response (decrypt-forge m args.priv_protocol key m.security.priv_parameter)
          ∙ response_through (decrypt c a m args.priv_protocol key m.security.priv_parameter)
              (forge user digest))
  open_by false args u m = refl

  read_forged :
      (m : MessageV3) (o : Option Pdu) (k : Option Pdu → Outcome Pdu)
      → read_scoped c a (forge user digest m) o >>= (λ v. k v.message.pdu)
        ≡ read_scoped c a m o >>= (λ v. k v.message.pdu)
  unfolding read_scoped
  read_forged m none k = refl
  read_forged m (some (v1 p)) k = refl
  read_forged m (some (scoped p)) k =
      through_ok (as_response (unmarshal_any a (scoped p) m.message.pdu_bytes)) _ _ _ _ (λ x. refl)

  process_forged :
      (t : Bool) (args : ClientArguments) (u : Usm) (m : MessageV3) (k : Option Pdu → Outcome Pdu)
      → (if t then err response else (do
        d ← open_privacy c a args u (forge user digest m)
        read_scoped c a d d.message.pdu))
          >>= (λ v. k v.message.pdu)
        ≡ (if t
            then err response
            else (do d ← open_privacy c a args u m; read_scoped c a d d.message.pdu))
          >>= (λ v. k v.message.pdu)
  unfolding open_privacy
  process_forged true args u m k = refl
  process_forged false args u m k =
      ap (λ o. o >>= (λ d. read_scoped c a d d.message.pdu) >>= (λ v. k v.message.pdu))
        (open_by (authentication m.global && privacy m.global) args u m)
      ∙ unforged (open_privacy c a args u m)
    where
      unforged :
          (o : Outcome MessageV3)
          → o
              >>= (λ v. ok (forge user digest v))
              >>= (λ d. read_scoped c a d d.message.pdu)
              >>= (λ v. k v.message.pdu)
            ≡ o >>= (λ d. read_scoped c a d d.message.pdu) >>= (λ v. k v.message.pdu)
      unforged (ok d) = read_forged d d.message.pdu k
      unforged (err e) = refl
      unforged panic = refl
      unforged no_fuel = refl

  -- An answer is neither authenticated nor matched with the user: whatever the level that the
  -- arguments ask for, an answer `r` with another digest and another user name is accepted or
  -- refused as `r` is, with the same unit.
  pub accept_v3-forge :
      (args : ClientArguments) (u : Usm) (sent r : MessageV3)
      → accept_v3 c a args u sent (forge user digest r) ≡ accept_v3 c a args u sent r
  unfolding accept_v3 process_incoming_v3 bad_engine
  accept_v3-forge args u sent r =
      let touch : MessageV3 = record r {
        global = record r.global { message_flags = init_flags r.global.message_flags };
      } in
      ap
        (λ o.
          if not (eqb_ℤ sent.message.version r.message.version)
          then err response
          else if not (eqb_ℤ sent.global.message_id r.global.message_id)
          then err response
          else if not (eqb_ℤ r.global.security_model (pos security_usm))
          then err response
          else o)
        (process_forged (bad_engine r) args u touch (check_pdu_v3 sent.global sent.message.pdu))
