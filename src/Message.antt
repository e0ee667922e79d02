-- ===== src/Message.antt =====
-- The messages of SNMP V1 and V2c: `MessageV1` and `messageProcessingV1` of message.go, and the
-- community of security.go. `NewSNMP` picks this processing for the versions V1 and V2c.
pub mod RoundTrip
pub mod Exchange
pub mod Requests
pub mod Total
mod Tests
use snmpclient.Prelude.{
  ℕ, ◌≡◌, Bool, true, false, ◌&&◌, ◌||◌, not, Option, none, some, List, [], ◌∷◌, ◌++◌, Bytes,
  Outcome, ok, err, panic, no_fuel, asn1, response, ◌>>=◌, ◌==◌, if◌then◌else◌, is_empty,
}
use snmpclient.Prelude.Int.{ℤ, pos, eqb_ℤ}
use snmpclient.Asn1.{Asn1, Parser}
use snmpclient.Pdu.{Pdu, v1, base, empty_pdu, set_request_id, get_request, get_response}
use snmpclient.Pdu.Wire.{sequence, is_sequence, marshal_any, unmarshal_any}

-- The PDU is shared with the caller; a nil one is `none`.
pub record MessageV1 : Type 0 where
  pub version : ℤ
  pub community : Bytes
  pub pdu_bytes : Bytes
  pub pdu : Option Pdu

-- The fields of `Arguments` that these versions read.
pub record Arguments : Type 0 where
  pub version : ℤ
  pub community : Bytes

-- `NewMessage` for V1 and V2c.
unfoldable pub new_message : ℤ → Pdu → MessageV1
new_message ver pdu = record { version = ver; community = []; pdu_bytes = []; pdu = some pdu }

-- An error is wrapped in a `ResponseError`.
unfoldable pub as_response : {A : Type 0} → Outcome A → Outcome A
as_response (err e) = err response
as_response (ok a) = ok a
as_response panic = panic
as_response no_fuel = no_fuel

-- The tests behind `ProcessIncomingMessage`.
unfoldable pub check_request_id : Option Pdu → Pdu → Outcome Pdu
unfolding base
check_request_id none received = panic
check_request_id (some sent) received =
    if not (eqb_ℤ (base sent).request_id (base received).request_id)
    then err response
    else ok received

unfoldable pub check_answer : Option Pdu → Option Pdu → Outcome Pdu
unfolding base check_request_id
check_answer sent none = panic
check_answer sent (some received) =
    if not ((base received).pdu_type == get_response)
    then err response
    else check_request_id sent received

module _ (a : Asn1) where
  unfoldable pub marshal_message : MessageV1 → Outcome Bytes
  marshal_message msg = do
    v ← a.marshal_int msg.version
    c ← a.marshal_octets msg.community
    a.marshal_raw (sequence (v ++ (c ++ msg.pdu_bytes)))

  -- `msg.Unmarshal(b)` with the message that `msg` then is.
  unfoldable pub unmarshal_message : MessageV1 → Parser MessageV1
  unfolding is_sequence
  unmarshal_message msg b = do
    (raw, rest) ← a.unmarshal_raw b
    if is_sequence raw
        then (do
          (version, next) ← a.unmarshal_int raw.content
          (community, next) ← a.unmarshal_octets next
          ok (record msg { version = version; community = community; pdu_bytes = next }, rest))
        else err asn1

  -- `community.GenerateRequestMessage`: a message with bytes and without a PDU is left as it is.
  marshal_own : Option Pdu → Outcome Bytes
  unfolding marshal_any
  marshal_own none = panic
  marshal_own (some pdu) = marshal_any a pdu

  no_pdu : Option Pdu → Bool
  no_pdu none = true
  no_pdu (some pdu) = false

  unfoldable pub generate_request_message : Arguments → MessageV1 → Outcome MessageV1
  unfolding marshal_own no_pdu
  generate_request_message args msg =
      if not (is_empty msg.pdu_bytes) && no_pdu msg.pdu
      then ok (record msg { community = args.community })
      else (do
        b ← marshal_own msg.pdu
        ok (record msg { community = args.community; pdu_bytes = b }))

  -- `community.ProcessIncomingMessage`: the community of the answer is not compared.
  read_own : Option Pdu → Bytes → Outcome Pdu
  unfolding unmarshal_any as_response
  read_own none b = panic
  read_own (some pdu) b = do (p, _) ← as_response (unmarshal_any a pdu b); ok p

  unfoldable pub process_incoming_message : MessageV1 → Outcome MessageV1
  unfolding read_own
  process_incoming_message msg = do
    p ← read_own msg.pdu msg.pdu_bytes
    ok (record msg { pdu = some p })

  -- `PrepareOutgoingMessage`, with the number that `genRequestId` draws.
  unfoldable pub prepare_outgoing_message : ℤ → Arguments → Pdu → Outcome MessageV1
  unfolding new_message set_request_id generate_request_message
  prepare_outgoing_message id args pdu =
      generate_request_message args (new_message args.version (set_request_id id pdu))

  -- `PrepareDataElements` behind `Unmarshal`.
  unfoldable pub accept : MessageV1 → MessageV1 → Outcome Pdu
  unfolding process_incoming_message check_answer
  accept sent received =
      if not (eqb_ℤ sent.version received.version)
      then err response
      else (do processed ← process_incoming_message received; check_answer sent.pdu processed.pdu)

  unfoldable pub prepare_data_elements : Arguments → MessageV1 → Bytes → Outcome Pdu
  unfolding new_message unmarshal_message accept as_response empty_pdu
  prepare_data_elements args sent b = do
    (received, _) ←
        as_response (unmarshal_message (new_message args.version (v1 (empty_pdu get_request))) b)
    accept sent received
