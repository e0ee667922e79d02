-- ===== src/Simulator/Tests.antt =====
-- A walk over a concrete tree, and a request to a concrete server.
use snmpclient.Prelude.{inr, Bytes, true, ok, ◌++◌, ◌≡◌, refl, some, none, List, [], ◌∷◌, arith}
use snmpclient.Prelude.Int.{pos}
use snmpclient.Oid.{compare_oid_and_value, new_oid}
use snmpclient.Asn1.Sample.{sample, tlv}
use snmpclient.Pdu.{PduV1, v1, empty_pdu, get_next_request, get_response}
use snmpclient.Pdu.Wire.Items.{IsBinding}
use snmpclient.Pdu.Wire.{marshal_pdu}
use snmpclient.Pdu.Wire.RoundTrip.{carried}
use snmpclient.Message.{
  MessageV1, Arguments, marshal_message, prepare_outgoing_message, prepare_data_elements,
}
use snmpclient.Variable.{integer, null}
use snmpclient.Variable.Wire.{marshal, unmarshal_variable}
use snmpclient.Simulator.{
  OidAndValue, before, from, MibTree, walk, get_next_value_by_oid, get_next_all, on_v2,
}
use snmpclient.Simulator.Serve.{UdpServer, mibs_for, on_datagram, serve_all}
use snmpclient.Simulator.Answers.{request_answered}
use snmpclient.Simulator.Walk.{InOrder, walk_lem}

abbrev one : OidAndValue
one = record { oid = record { value = 1 ∷ 3 ∷ [] }; value = integer (pos 1) }

abbrev two : OidAndValue
two = record { oid = record { value = 1 ∷ 3 ∷ 6 ∷ [] }; value = integer (pos 2) }

abbrev three : OidAndValue
three = record { oid = record { value = 1 ∷ 4 ∷ [] }; value = integer (pos 3) }

abbrev stored : List OidAndValue
stored = one ∷ two ∷ three ∷ []

abbrev tree : MibTree
tree = record {
  items = stored;
  get = λ o. none;
  find_ge = λ o. from o stored;
  find_ge_lem = λ o. refl;
}

stored-InOrder : InOrder stored
unfolding before compare_oid_and_value
stored-InOrder = ((refl, (refl, tt)), ((refl, tt), (tt, tt)))

walk_lem_example : walk tree 5 one.oid ≡ two ∷ three ∷ []
walk_lem_example = walk_lem tree 5 [] one (two ∷ three ∷ []) refl stored-InOrder (omega arith)

-- A name between two items.
next-between : get_next_value_by_oid tree (record { value = 1 ∷ 3 ∷ 5 ∷ [] }) ≡ some two
unfolding get_next_value_by_oid from compare_oid_and_value
next-between = refl

abbrev args : Arguments
args = record { version = pos 1; community = 112 ∷ [] }

abbrev request : PduV1
request = record (empty_pdu get_next_request) {
  variable_bindings = record { name = one.oid; variable = some null } ∷ [];
}

abbrev answer : PduV1
answer = record (empty_pdu get_response) {
  request_id = pos 7;
  variable_bindings = record { name = two.oid; variable = some (integer (pos 2)) } ∷ [];
}

abbrev server : UdpServer
server = record {
  miss = pos 3;
  strict = true;
  community = [];
  mibs = tree;
  mibs_by_engine = λ c. none;
}

one-IsBinding : IsBinding (record { name = one.oid; variable = some null })
one-IsBinding = ((omega arith, inr (omega arith), omega arith, tt), tt)

two-IsBinding : IsBinding (record { name = two.oid; variable = some (integer (pos 2)) })
two-IsBinding =
    ((omega arith, inr (omega arith), omega arith, (omega arith, tt)), (omega arith, omega arith))

abbrev request_pdu : Bytes
request_pdu =
    161 ∷ 22 ∷ 2 ∷ 2 ∷ 0 ∷ 7 ∷ 2 ∷ 2 ∷ 0 ∷ 0 ∷ 2 ∷ 2 ∷ 0 ∷ 0 ∷ 48 ∷ 8 ∷ 48 ∷ 6 ∷ 6 ∷ 2 ∷ 1 ∷ 3 ∷ 5
    ∷ 0 ∷ []

abbrev request_bytes : Bytes
request_bytes = 48 ∷ 31 ∷ 2 ∷ 2 ∷ 0 ∷ 1 ∷ 4 ∷ 1 ∷ 112 ∷ request_pdu

abbrev answer_pdu : Bytes
answer_pdu =
    162 ∷ 25 ∷ 2 ∷ 2 ∷ 0 ∷ 7 ∷ 2 ∷ 2 ∷ 0 ∷ 0 ∷ 2 ∷ 2 ∷ 0 ∷ 0 ∷ 48 ∷ 11 ∷ 48 ∷ 9 ∷ 6 ∷ 3 ∷ 1 ∷ 3 ∷ 6
    ∷ 2 ∷ 2 ∷ 0 ∷ 2 ∷ []

abbrev answer_bytes : Bytes
answer_bytes = 48 ∷ 33 ∷ 2 ∷ 2 ∷ 0 ∷ 1 ∷ 4 ∷ 0 ∷ answer_pdu

abbrev sent : MessageV1
sent = record {
  version = pos 1;
  community = 112 ∷ [];
  pdu_bytes = request_pdu;
  pdu = some (v1 (record request { request_id = pos 7 }));
}

prepared : prepare_outgoing_message sample (pos 7) args (v1 request) ≡ ok sent
unfolding prepare_outgoing_message marshal_pdu sample tlv empty_pdu marshal
prepared = refl

sent_encoding : marshal_message sample sent ≡ ok request_bytes
unfolding marshal_message sample
sent_encoding = refl

made : on_v2 tree true (record request { request_id = pos 7 }) ≡ v1 answer
unfolding on_v2 get_next_all get_next_value_by_oid from compare_oid_and_value before empty_pdu
made = refl

answer_encoding : marshal_pdu sample answer ≡ ok answer_pdu
unfolding marshal_pdu sample empty_pdu marshal
answer_encoding = refl

reply_encoding :
    marshal_message sample
      (record { version = pos 1; community = []; pdu_bytes = answer_pdu; pdu = some (v1 answer) })
    ≡ ok answer_bytes
unfolding marshal_message sample
reply_encoding = refl

request_answered_example :
    (on_datagram sample server (request_bytes ++ 0 ∷ []) ≡ ok (some answer_bytes))
    × (prepare_data_elements sample args sent (answer_bytes ++ 0 ∷ 0 ∷ [])
        ≡ ok (v1 (carried answer)))
request_answered_example =
    request_answered sample server tree args (pos 7) request answer sent request_bytes (0 ∷ [])
      answer_pdu answer_bytes (0 ∷ 0 ∷ []) refl (unfold mibs_for in refl)
      (unfold empty_pdu in omega arith) (unfold empty_pdu in refl)
      (unfold empty_pdu in (one-IsBinding, tt)) prepared sent_encoding made
      (unfold empty_pdu in (two-IsBinding, tt)) answer_encoding reply_encoding

-- The third datagram is dropped, and the fourth is no message.
served :
    serve_all sample server 0 (request_bytes ∷ request_bytes ∷ request_bytes ∷ (0 ∷ []) ∷ [])
    ≡ ok (some answer_bytes ∷ some answer_bytes ∷ none ∷ none ∷ [])
unfolding serve_all mibs_for get_next_value_by_oid from compare_oid_and_value sample tlv marshal
    unmarshal_variable new_oid
served = refl
