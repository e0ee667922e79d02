-- ===== src/Message/Tests.antt =====
-- Concrete exchanges, and the theorems at them.
use snmpclient.Prelude.{◌≡◌, refl, none, some, [], ◌∷◌, ◌++◌, Bytes, ok, err, response}
use snmpclient.Prelude.Int.{pos}
use snmpclient.Asn1.Sample.{sample, tlv}
use snmpclient.Oid.{empty_oid}
use snmpclient.Pdu.{PduV1, v1, base, get_response}
use snmpclient.Pdu.Wire.{marshal_pdu}
use snmpclient.Pdu.Wire.RoundTrip.{carried}
use snmpclient.Message.{
  MessageV1, Arguments, marshal_message, unmarshal_message, prepare_data_elements,
}
use snmpclient.Message.RoundTrip.{unmarshal_message-marshal_message}
use snmpclient.Message.Exchange.{IsAnswer, prepare_data_elements-IsAnswer, answer_accepted}

abbrev args : Arguments
args = record { version = pos 1; community = 112 ∷ [] }

abbrev answer : PduV1
answer = record {
  pdu_type = get_response;
  request_id = pos 42;
  error_status = pos 0;
  error_index = pos 0;
  variable_bindings = [];
  enterprise = empty_oid;
  agent_address = [];
  generic_trap = pos 0;
  specific_trap = pos 0;
  timestamp = pos 0;
}

abbrev request : PduV1
request = record answer { pdu_type = 0 }

abbrev sent : MessageV1
sent = record { version = pos 1; community = 112 ∷ []; pdu_bytes = []; pdu = some (v1 request) }

abbrev pdu_bytes : Bytes
pdu_bytes = 162 ∷ 14 ∷ 2 ∷ 2 ∷ 0 ∷ 42 ∷ 2 ∷ 2 ∷ 0 ∷ 0 ∷ 2 ∷ 2 ∷ 0 ∷ 0 ∷ 48 ∷ 0 ∷ []

abbrev reply : MessageV1
reply = record { version = pos 1; community = 112 ∷ []; pdu_bytes = pdu_bytes; pdu = none }

abbrev reply_bytes : Bytes
reply_bytes = 48 ∷ 23 ∷ 2 ∷ 2 ∷ 0 ∷ 1 ∷ 4 ∷ 1 ∷ 112 ∷ pdu_bytes

pdu_encoding : marshal_pdu sample answer ≡ ok pdu_bytes
unfolding marshal_pdu sample
pdu_encoding = refl

reply_encoding : marshal_message sample reply ≡ ok reply_bytes
unfolding marshal_message sample
reply_encoding = refl

unmarshal_message-marshal_message_example :
    unmarshal_message sample sent (reply_bytes ++ 0 ∷ [])
    ≡ ok (record reply { pdu = some (v1 request) }, 0 ∷ [])
unmarshal_message-marshal_message_example =
    unmarshal_message-marshal_message sample reply sent reply_bytes (0 ∷ []) reply_encoding

answer_accepted_example :
    prepare_data_elements sample args sent (reply_bytes ++ 0 ∷ 0 ∷ []) ≡ ok (v1 (carried answer))
answer_accepted_example =
    answer_accepted sample args sent (v1 request) answer (112 ∷ []) pdu_bytes reply_bytes
      (0 ∷ 0 ∷ []) refl refl refl (unfold base in refl) tt pdu_encoding reply_encoding

accepted : prepare_data_elements sample args sent reply_bytes ≡ ok (v1 answer)
unfolding prepare_data_elements sample tlv
accepted = refl

prepare_data_elements-IsAnswer_example : IsAnswer sample args sent reply_bytes (v1 answer)
prepare_data_elements-IsAnswer_example =
    prepare_data_elements-IsAnswer sample args sent reply_bytes (v1 answer) accepted

-- An answer to another request is refused.
refused :
    prepare_data_elements sample args
      (record sent { pdu = some (v1 (record request { request_id = pos 43 })) })
      reply_bytes
    ≡ err response
unfolding prepare_data_elements sample tlv
refused = refl
