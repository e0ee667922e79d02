-- ===== src/MessageV3/Processing.antt =====
-- `messageProcessingV3` of message.go: the requests that it prepares and the answers that it
-- accepts, with the user-based security of Usm/Requests.
use snmpclient.Prelude.{
  ℕ, not, ◌&&◌, Option, none, some, [], Bytes, Outcome, ok, err, panic, response, ◌>>=◌, ◌==◌,
  if◌then◌else◌,
}
use snmpclient.Prelude.Int.{ℤ, pos, eqb_ℤ}
use snmpclient.Util.{confirmed_type}
use snmpclient.Client.{ClientArguments}
use snmpclient.Asn1.{Asn1}
use snmpclient.Pdu.{
  ScopedPdu, Pdu, scoped, base, empty_pdu, set_request_id, get_request, get_response, report,
}
use snmpclient.Message.{as_response}
use snmpclient.MessageV3.{
  GlobalDataV3, MessageV3, security_usm, set_reportable, reportable, new_message_v3,
  unmarshal_message_v3,
}
use snmpclient.Usm.{Usm}
use snmpclient.Usm.Crypto.{Crypto}
use snmpclient.Usm.Requests.{set_level, generate_request_v3, process_incoming_v3}

-- The message that `PrepareOutgoingMessage` hands to `GenerateRequestMessage`, with the number of
-- `genMessageId`.
unfoldable pub outgoing_v3 : ℤ → ClientArguments → Pdu → MessageV3
unfolding new_message_v3 set_level set_reportable confirmed_type base
outgoing_v3 message_id args pdu =
    let m = new_message_v3 args.version pdu in
    record m {
      global = set_level args.security_level (
          set_reportable (confirmed_type (base pdu).pdu_type) (record m.global {
            message_id = message_id;
            message_max_size = args.message_max_size;
            security_model = pos security_usm;
          }));
    }

-- A new `ScopedPdu`.
abbrev pub new_scoped : ScopedPdu
unfolding empty_pdu
new_scoped = record { context_engine_id = []; context_name = []; pdu_v1 = empty_pdu get_request }

-- The tests behind `ProcessIncomingMessage`: a response has the request id sent, and a report is
-- taken if the message sent was reportable.
unfoldable pub check_pdu_v3 : GlobalDataV3 → Option Pdu → Option Pdu → Outcome Pdu
unfolding base reportable
check_pdu_v3 header (some sent) (some received) =
    if (base received).pdu_type == get_response
    then (if not (eqb_ℤ (base sent).request_id (base received).request_id)
        then err response
        else ok received)
    else if ((base received).pdu_type == report) && reportable header
    then ok received
    else err response
check_pdu_v3 header none (some received) =
    if (base received).pdu_type == get_response
    then panic
    else if ((base received).pdu_type == report) && reportable header
    then ok received
    else err response
check_pdu_v3 header sent none = panic

module _ (c : Crypto) (a : Asn1) where
  -- `PrepareOutgoingMessage` with the numbers that are drawn, at the time `now`.
  unfoldable pub prepare_outgoing_v3 :
      ℤ → ℤ → ClientArguments → Usm → ℕ → ℤ → Pdu → Outcome MessageV3
  unfolding outgoing_v3 set_request_id generate_request_v3
  prepare_outgoing_v3 id message_id args u now salt pdu =
      generate_request_v3 c a args u now salt (outgoing_v3 message_id args (set_request_id id pdu))

  -- `PrepareDataElements` behind `Unmarshal`.
  unfoldable pub accept_v3 : ClientArguments → Usm → MessageV3 → MessageV3 → Outcome Pdu
  unfolding process_incoming_v3 check_pdu_v3
  accept_v3 args u sent received =
      if not (eqb_ℤ sent.message.version received.message.version)
      then err response
      else if not (eqb_ℤ sent.global.message_id received.global.message_id)
      then err response
      else if not (eqb_ℤ received.global.security_model (pos security_usm))
      then err response
      else (do
        processed ← process_incoming_v3 c a args u received
        check_pdu_v3 sent.global sent.message.pdu processed.message.pdu)

  unfoldable pub prepare_data_elements_v3 : ClientArguments → Usm → MessageV3 → Bytes → Outcome Pdu
  unfolding new_message_v3 unmarshal_message_v3 accept_v3 as_response
  prepare_data_elements_v3 args u sent b = do
    (received, _) ←
        as_response (unmarshal_message_v3 a (new_message_v3 args.version (scoped new_scoped)) b)
    accept_v3 args u sent received
