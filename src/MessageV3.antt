-- ===== src/MessageV3.antt =====
-- The messages of SNMP V3: the header with its flags, the security parameters, and `MessageV3`
-- itself, of message.go.
pub mod Flags
mod Tests
pub mod Safe
pub mod Forged
pub mod Exchange
pub mod Processing
pub mod Decode
pub mod RoundTrip
use snmpclient.Prelude.{
  ℕ, ◌≡◌, Bool, true, false, not, ◌&&◌, Option, none, some, List, [], ◌∷◌, ◌++◌, Bytes, Outcome, ok,
  err, panic, no_fuel, asn1, ◌>>=◌, ◌==◌, if◌then◌else◌,
}
use Prim.Native.Nat.{bit_and, bit_or}
use snmpclient.Prelude.Int.{ℤ, pos}
use snmpclient.Asn1.{Asn1, Parser, RawValue, class_universal}
use snmpclient.Pdu.{Pdu}
use snmpclient.Pdu.Wire.{sequence, is_sequence}
use snmpclient.Message.{MessageV1}

-- The value of the constant in message.go.
abbrev pub security_usm : ℕ
security_usm = 3

pub record GlobalDataV3 : Type 0 where
  pub message_id : ℤ
  pub message_max_size : ℤ
  pub message_flags : Bytes
  pub security_model : ℤ

pub record SecurityParameterV3 : Type 0 where
  pub auth_engine_id : Bytes
  pub auth_engine_boots : ℤ
  pub auth_engine_time : ℤ
  pub user_name : Bytes
  pub auth_parameter : Bytes
  pub priv_parameter : Bytes

-- The three structs that `MessageV3` embeds.
pub record MessageV3 : Type 0 where
  pub global : GlobalDataV3
  pub security : SecurityParameterV3
  pub message : MessageV1

unfoldable pub init_flags : Bytes → Bytes
init_flags [] = 0 ∷ []
init_flags (f ∷ fs) = f ∷ fs

-- An assignment to the first byte, behind `initFlags`.
unfoldable pub on_first : (ℕ → ℕ) → Bytes → Bytes
on_first g [] = g 0 ∷ []
on_first g (f ∷ fs) = g f ∷ fs

unfoldable pub on_flags : (ℕ → ℕ) → GlobalDataV3 → GlobalDataV3
unfolding on_first init_flags
on_flags g h = record h { message_flags = on_first g (init_flags h.message_flags) }

-- The test of a mask on the first byte, which is 0 where `initFlags` puts it.
unfoldable pub first_has : ℕ → Bytes → Bool
first_has mask [] = false
first_has mask (f ∷ fs) = not (bit_and f mask == 0)

unfoldable pub set_reportable : Bool → GlobalDataV3 → GlobalDataV3
unfolding on_flags
set_reportable b = on_flags (λ f. if b then bit_or f 0x04 else bit_and f 0xfb)

unfoldable pub reportable : GlobalDataV3 → Bool
unfolding first_has init_flags
reportable h = first_has 0x04 (init_flags h.message_flags)

unfoldable pub set_privacy : Bool → GlobalDataV3 → GlobalDataV3
unfolding on_flags
set_privacy b = on_flags (λ f. if b then bit_or f 0x02 else bit_and f 0xfd)

unfoldable pub privacy : GlobalDataV3 → Bool
unfolding first_has init_flags
privacy h = first_has 0x02 (init_flags h.message_flags)

unfoldable pub set_authentication : Bool → GlobalDataV3 → GlobalDataV3
unfolding on_flags
set_authentication b = on_flags (λ f. if b then bit_or f 0x01 else bit_and f 0xfe)

unfoldable pub authentication : GlobalDataV3 → Bool
unfolding first_has init_flags
authentication h = first_has 0x01 (init_flags h.message_flags)

-- The test of a header that `decrypt` and the security parameters share.
unfoldable pub is_octets : RawValue → Bool
is_octets raw = (raw.class == class_universal) && (raw.tag == 4) && not raw.is_compound

abbrev pub octets : Bytes → RawValue
octets b = record { class = class_universal; tag = 4; is_compound = false; content = b }

-- `NewMessage` for V3.
unfoldable pub new_message_v3 : ℤ → Pdu → MessageV3
new_message_v3 ver pdu = record {
  global = record {
    message_id = pos 0;
    message_max_size = pos 0;
    message_flags = 0 ∷ [];
    security_model = pos 0;
  };
  security = record {
    auth_engine_id = [];
    auth_engine_boots = pos 0;
    auth_engine_time = pos 0;
    user_name = [];
    auth_parameter = [];
    priv_parameter = [];
  };
  message = record { version = ver; community = []; pdu_bytes = []; pdu = some pdu };
}

module _ (a : Asn1) where
  -- `asn1.Marshal` and `asn1.Unmarshal` of a struct: the sequence of its fields, in which what
  -- follows the last field is not read.
  unfoldable pub marshal_global : GlobalDataV3 → Outcome Bytes
  marshal_global h = do
    i ← a.marshal_int h.message_id
    m ← a.marshal_int h.message_max_size
    f ← a.marshal_octets h.message_flags
    s ← a.marshal_int h.security_model
    a.marshal_raw (sequence (i ++ (m ++ (f ++ s))))

  unfoldable pub unmarshal_global : Parser GlobalDataV3
  unfolding is_sequence
  unmarshal_global b = do
    (raw, rest) ← a.unmarshal_raw b
    if is_sequence raw
        then (do
          (i, next) ← a.unmarshal_int raw.content
          (m, next) ← a.unmarshal_int next
          (f, next) ← a.unmarshal_octets next
          (s, _) ← a.unmarshal_int next
          ok (
            record { message_id = i; message_max_size = m; message_flags = f; security_model = s },
            rest,
          ))
        else err asn1

  unfoldable pub marshal_security_fields : SecurityParameterV3 → Outcome Bytes
  marshal_security_fields sec = do
    e ← a.marshal_octets sec.auth_engine_id
    eb ← a.marshal_int sec.auth_engine_boots
    et ← a.marshal_int sec.auth_engine_time
    u ← a.marshal_octets sec.user_name
    ap ← a.marshal_octets sec.auth_parameter
    pp ← a.marshal_octets sec.priv_parameter
    a.marshal_raw (sequence (e ++ (eb ++ (et ++ (u ++ (ap ++ pp))))))

  unfoldable pub unmarshal_security_fields : Parser SecurityParameterV3
  unfolding is_sequence
  unmarshal_security_fields b = do
    (raw, rest) ← a.unmarshal_raw b
    if is_sequence raw
        then (do
          (e, next) ← a.unmarshal_octets raw.content
          (eb, next) ← a.unmarshal_int next
          (et, next) ← a.unmarshal_int next
          (u, next) ← a.unmarshal_octets next
          (ap, next) ← a.unmarshal_octets next
          (pp, _) ← a.unmarshal_octets next
          ok (
            record {
              auth_engine_id = e;
              auth_engine_boots = eb;
              auth_engine_time = et;
              user_name = u;
              auth_parameter = ap;
              priv_parameter = pp;
            },
            rest,
          ))
        else err asn1

  -- The struct is wrapped in an octet string.
  unfoldable pub marshal_security : SecurityParameterV3 → Outcome Bytes
  unfolding marshal_security_fields
  marshal_security sec = do buf ← marshal_security_fields sec; a.marshal_raw (octets buf)

  unfoldable pub unmarshal_security : Parser SecurityParameterV3
  unfolding unmarshal_security_fields is_octets
  unmarshal_security b = do
    (raw, rest) ← a.unmarshal_raw b
    if is_octets raw
        then (do (sec, _) ← unmarshal_security_fields raw.content; ok (sec, rest))
        else err asn1

  unfoldable pub marshal_message_v3 : MessageV3 → Outcome Bytes
  unfolding marshal_global marshal_security
  marshal_message_v3 msg = do
    v ← a.marshal_int msg.message.version
    g ← marshal_global msg.global
    s ← marshal_security msg.security
    a.marshal_raw (sequence (v ++ (g ++ (s ++ msg.message.pdu_bytes))))

  -- `msg.Unmarshal(b)` with the message that `msg` then is.
  unfoldable pub unmarshal_message_v3 : MessageV3 → Parser MessageV3
  unfolding unmarshal_global unmarshal_security is_sequence
  unmarshal_message_v3 msg b = do
    (raw, rest) ← a.unmarshal_raw b
    if is_sequence raw
        then (do
          (version, next) ← a.unmarshal_int raw.content
          (global, next) ← unmarshal_global next
          (security, next) ← unmarshal_security next
          ok (
            record {
              global = global;
              security = security;
              message = record msg.message { version = version; pdu_bytes = next };
            },
            rest,
          ))
        else err asn1
