-- ===== src/Pinger.antt =====
-- The pinger, pinger.go: the message that `internal_pinger.Send` writes, and what
-- `internal_pinger.serve` makes of a datagram.
pub mod Pong
pub mod Fatal
mod Tests
use snmpclient.Prelude.{
  ℕ, ◌≡◌, Bool, true, false, not, ◌&&◌, ◌||◌, Option, none, some, List, [], ◌∷◌, ◌++◌, Bytes, Error,
  generic, asn1, Outcome, ok, err, panic, no_fuel, ◌>>=◌, ◌==◌, if◌then◌else◌,
}
use snmpclient.Prelude.Int.{ℤ, pos, eqb_ℤ}
use snmpclient.Util.{confirmed_type}
use snmpclient.Client.{ClientArguments}
use snmpclient.Asn1.{Asn1, RawValue}
use snmpclient.Oid.{Oid, new_oid}
use snmpclient.Pdu.{
  ScopedPdu, Pdu, v1, scoped, base, empty_pdu, new_pdu_with_oids, set_request_id, get_request,
}
use snmpclient.Pdu.Wire.{is_sequence, marshal_any, marshal_scoped, unmarshal_pdu}
use snmpclient.Message.{MessageV1, marshal_message, unmarshal_message}
use snmpclient.MessageV3.{
  MessageV3, security_usm, set_reportable, set_authentication, set_privacy, new_message_v3,
  marshal_message_v3,
}

-- The fields of `PingResult` but the address and the time.
pub record PingResult : Type 0 where
  pub id : ℤ
  pub version : ℤ
  pub community : Bytes
  pub username : Bytes
  pub failed : Bool

-- What one round of `serve` does: it goes on, with or without a result, or it ends the goroutine.
pub data Reaction : Type 0 where
  silent ends : Reaction
  reports : PingResult → Reaction

-- What `ReadFrom` gives: a datagram, or an error, which is one of the two that are dropped or not.
pub data Event : Type 0 where
  datagram : Bytes → Event
  unread : Bool → Event

-- Send's number: the next one of the pinger for 0, and the number kept.
unfoldable pub next_id : ℤ → ℤ → ℤ × ℤ
next_id kept_id id =
    if eqb_ℤ id (pos 0)
    then (snmpclient.Prelude.Int.◌+ℤ◌ kept_id (pos 1), snmpclient.Prelude.Int.◌+ℤ◌ kept_id (pos 1))
    else (id, kept_id)

abbrev engine_zero : Bytes
engine_zero = 0 ∷ 0 ∷ 0 ∷ 0 ∷ 0 ∷ []

-- The discovery of V3: no authentication, no privacy, and an engine of zeros.
unfoldable pub discovery : ℤ → ClientArguments → Bytes → ScopedPdu → MessageV3
unfolding new_message_v3 set_reportable set_authentication set_privacy confirmed_type
discovery id args b p =
    let m = new_message_v3 args.version (scoped p) in
    record m {
      global = set_privacy false (
          set_authentication false (
            set_reportable (confirmed_type p.pdu_v1.pdu_type) (record m.global {
              message_id = id;
              message_max_size = pos 65507;
              security_model = pos security_usm;
            })));
      security = record m.security { user_name = args.user_name; auth_engine_id = engine_zero };
      message = record m.message { pdu_bytes = b };
    }

-- The unit of the discovery.
unfoldable pub discovery_pdu : ℤ → ScopedPdu
unfolding empty_pdu
discovery_pdu id = record {
  context_engine_id = engine_zero;
  context_name = [];
  pdu_v1 = record (empty_pdu get_request) { request_id = id };
}

module _ (a : Asn1) where
  -- The bytes of the two kinds of messages that `Send` writes; the list `test_oid` is a variable.
  probe_v1 : ℤ → ClientArguments → Option Pdu → Outcome Bytes
  unfolding set_request_id marshal_any marshal_message
  probe_v1 id args none = panic
  probe_v1 id args (some p) = do
    let pdu = set_request_id id p
    b ← marshal_any a pdu
    marshal_message a (record {
      version = args.version;
      community = args.community;
      pdu_bytes = b;
      pdu = some pdu;
    })

  unfoldable pub probe : List ℕ → ℤ → ClientArguments → Outcome Bytes
  unfolding probe_v1 new_pdu_with_oids new_oid discovery discovery_pdu marshal_scoped
      marshal_message_v3
  probe test_oid id args =
      if eqb_ℤ args.version (pos 0) || eqb_ℤ args.version (pos 1)
      then (do
        pdu ← new_pdu_with_oids args.version get_request (new_oid test_oid ∷ [])
        probe_v1 id args pdu)
      else if eqb_ℤ args.version (pos 3)
      then (do
        b ← marshal_scoped a (discovery_pdu id)
        marshal_message_v3 a (discovery id args b (discovery_pdu id)))
      else err generic

  -- A header of V3 that is no value ends the goroutine.
  header_v3 : ClientArguments → ℤ → Outcome (RawValue × Bytes) → Outcome Reaction
  header_v3 args version (err e) = ok ends
  header_v3 args version (ok (raw, rest)) = do
    (id, _) ← a.unmarshal_int raw.content
    ok (
        reports (record {
          id = id;
          version = version;
          community = [];
          username = args.user_name;
          failed = false;
        }))
  header_v3 args version panic = panic
  header_v3 args version no_fuel = no_fuel

  answer_v1 : ℤ → Bytes → Outcome Reaction
  unfolding unmarshal_message unmarshal_pdu empty_pdu
  answer_v1 version b = do
    (m, _) ←
        unmarshal_message a
          (record {
            version = version;
            community = [];
            pdu_bytes = [];
            pdu = some (v1 (empty_pdu get_request));
          })
          b
    (p, _) ← unmarshal_pdu a (empty_pdu get_request) m.pdu_bytes
    ok (
        reports (record {
          id = p.request_id;
          version = version;
          community = m.community;
          username = [];
          failed = false;
        }))

  -- The body of the loop before an error is logged.
  decode : ClientArguments → Bytes → Outcome Reaction
  unfolding is_sequence header_v3 answer_v1
  decode args b = do
    (raw, _) ← a.unmarshal_raw b
    if is_sequence raw
        then (do
          (version, next) ← a.unmarshal_int raw.content
          if eqb_ℤ version (pos 3)
              then header_v3 args version (a.unmarshal_raw next)
              else answer_v1 version b)
        else err asn1

  -- Behind `continue`.
  unfoldable pub logged : Outcome Reaction → Outcome Reaction
  logged (err e) = ok silent
  logged (ok r) = ok r
  logged panic = panic
  logged no_fuel = no_fuel

  unfoldable pub on_event : ClientArguments → Event → Outcome Reaction
  unfolding decode logged
  on_event args (datagram b) = logged (decode args b)
  on_event args (unread dropped) =
      if dropped
      then ok silent
      else ok (
          reports
            (record { id = pos 0; version = pos 0; community = []; username = []; failed = true }))

  -- The results that `serve` sends while it runs, and whether the goroutine is still there.
  unfoldable pub serve : ClientArguments → List Event → Outcome (List PingResult × Bool)
  unfolding on_event
  serve args [] = ok ([], true)
  serve args (e ∷ es) = do
    r ← on_event args e
    elim r [
      | silent ↦ serve args es
      | ends ↦ ok ([], false)
      | reports p ↦ (serve args es >>= λ (ps, running). ok (p ∷ ps, running))
    ]
