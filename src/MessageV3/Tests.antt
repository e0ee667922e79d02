-- ===== src/MessageV3/Tests.antt =====
-- A concrete V3 exchange with authentication and privacy, and the theorems at it.
use snmpclient.Prelude.{
  ◌≡◌, refl, some, [], ◌∷◌, ◌++◌, Bytes, codes, ok, inr, arith, Returns, false, one_of,
}
use snmpclient.Prelude.Int.{pos}
use snmpclient.Client.{ClientArguments}
use snmpclient.Asn1.Sample.{sample, tlv}
use snmpclient.Oid.{empty_oid}
use snmpclient.Pdu.{PduV1, ScopedPdu, scoped, base, get_response, get_request}
use snmpclient.MessageV3.{
  MessageV3, marshal_message_v3, set_privacy, privacy, reportable, authentication,
  unmarshal_message_v3, set_reportable, set_authentication,
}
use snmpclient.MessageV3.Processing.{prepare_data_elements_v3, prepare_outgoing_v3, accept_v3}
use snmpclient.Usm.{Usm}
use snmpclient.Usm.Crypto.Sample.{sample_crypto}
use snmpclient.Usm.Requests.{generate_request_v3, with_context, bad_engine}
use snmpclient.MessageV3.Flags.{Sets, flags_apart}
use snmpclient.MessageV3.RoundTrip.{unmarshal_message_v3-marshal_message_v3}
use snmpclient.MessageV3.Decode.{unmarshal_message_v3-Returns}
use snmpclient.MessageV3.Exchange.{
  IsAnswerV3, answer_accepted_v3, prepare_data_elements_v3-IsAnswerV3,
}
use snmpclient.MessageV3.Forged.{forge, accept_v3-forge}
use snmpclient.MessageV3.Safe.{prepare_outgoing_v3-Returns}
use snmpclient.Client.Accepted.{IsSecure}
use snmpclient.Pdu.Wire.RoundTrip.{carried}

abbrev key : Bytes
key = 1 ∷ 2 ∷ 3 ∷ 4 ∷ 5 ∷ 6 ∷ 7 ∷ 8 ∷ 9 ∷ 10 ∷ 11 ∷ 12 ∷ 13 ∷ 14 ∷ 15 ∷ 16 ∷ []

abbrev args : ClientArguments
args = record {
  version = pos 3;
  timeout = pos 5;
  retries = 0;
  message_max_size = pos 1400;
  community = [];
  user_name = 117 ∷ [];
  security_level = pos 2;
  auth_password = codes "password";
  auth_protocol = codes "MD5";
  auth_key = key;
  priv_password = codes "password";
  priv_protocol = codes "DES";
  priv_key = key;
  security_engine_id = [];
  context_engine_id = [];
  context_name = [];
}

abbrev engine : Usm
engine = record {
  auth_engine_id = 128 ∷ 0 ∷ 0 ∷ 0 ∷ 1 ∷ [];
  auth_engine_boots = 1;
  auth_engine_time = 10;
  updated_time = 100;
}

abbrev answer : PduV1
answer = record {
  pdu_type = get_response;
  request_id = pos 42;
  error_status = pos 0;
  error_index = pos 0;
  variable_bindings = [];
  enterprise = empty_oid;
  agent_address = [];
  generic_trap = pos 0;
  specific_trap = pos 0;
  timestamp = pos 0;
}

abbrev unit_sent : ScopedPdu
unit_sent = record { context_engine_id = []; context_name = []; pdu_v1 = answer }

abbrev blank : MessageV3
blank = record {
  global = record {
    message_id = pos 0;
    message_max_size = pos 0;
    message_flags = 0 ∷ [];
    security_model = pos 0;
  };
  security = record {
    auth_engine_id = [];
    auth_engine_boots = pos 0;
    auth_engine_time = pos 0;
    user_name = [];
    auth_parameter = [];
    priv_parameter = [];
  };
  message = record {
    version = pos 3;
    community = [];
    pdu_bytes = [];
    pdu = some (scoped unit_sent);
  };
}

-- What the peer makes of the answer.
abbrev made : MessageV3
made = record {
  global = record {
    message_id = pos 42;
    message_max_size = pos 1400;
    message_flags = 3 ∷ [];
    security_model = pos 3;
  };
  security = record {
    auth_engine_id = 128 ∷ 0 ∷ 0 ∷ 0 ∷ 1 ∷ [];
    auth_engine_boots = pos 1;
    auth_engine_time = pos 13;
    user_name = 117 ∷ [];
    auth_parameter = 119 ∷ 7 ∷ 7 ∷ 7 ∷ 7 ∷ 7 ∷ 7 ∷ 7 ∷ 7 ∷ 7 ∷ 7 ∷ 7 ∷ [];
    priv_parameter = 0 ∷ 0 ∷ 0 ∷ 1 ∷ 0 ∷ 0 ∷ 0 ∷ 7 ∷ [];
  };
  message = record {
    version = pos 3;
    community = [];
    pdu_bytes =
        4 ∷ 32 ∷ 49 ∷ 26 ∷ 5 ∷ 6 ∷ 129 ∷ 1 ∷ 1 ∷ 1 ∷ 2 ∷ 5 ∷ 1 ∷ 163 ∷ 15 ∷ 3 ∷ 3 ∷ 1 ∷ 43 ∷ 3 ∷ 3
        ∷ 1 ∷ 1 ∷ 3 ∷ 3 ∷ 1 ∷ 1 ∷ 49 ∷ 1 ∷ 1 ∷ 1 ∷ 1 ∷ 1 ∷ 1 ∷ [];
    pdu = some (scoped (record unit_sent { context_engine_id = 128 ∷ 0 ∷ 0 ∷ 0 ∷ 1 ∷ [] }));
  };
}

request_made :
    generate_request_v3 sample_crypto sample args engine 3000000103 (pos 7) blank ≡ ok made
unfolding generate_request_v3 sample sample_crypto
request_made = refl

abbrev made_bytes : Bytes
made_bytes =
    48 ∷ 101 ∷ 2 ∷ 2 ∷ 0 ∷ 3 ∷ 48 ∷ 15 ∷ 2 ∷ 2 ∷ 0 ∷ 42 ∷ 2 ∷ 2 ∷ 0 ∷ 1400 ∷ 4 ∷ 1 ∷ 3 ∷ 2 ∷ 2 ∷ 0
    ∷ 3 ∷ 4 ∷ 44 ∷ 48 ∷ 42 ∷ 4 ∷ 5 ∷ 128 ∷ 0 ∷ 0 ∷ 0 ∷ 1 ∷ 2 ∷ 2 ∷ 0 ∷ 1 ∷ 2 ∷ 2 ∷ 0 ∷ 13 ∷ 4 ∷ 1
    ∷ 117 ∷ 4 ∷ 12 ∷ 119 ∷ 7 ∷ 7 ∷ 7 ∷ 7 ∷ 7 ∷ 7 ∷ 7 ∷ 7 ∷ 7 ∷ 7 ∷ 7 ∷ 4 ∷ 8 ∷ 0 ∷ 0 ∷ 0 ∷ 1 ∷ 0 ∷ 0
    ∷ 0 ∷ 7 ∷ 4 ∷ 32 ∷ 49 ∷ 26 ∷ 5 ∷ 6 ∷ 129 ∷ 1 ∷ 1 ∷ 1 ∷ 2 ∷ 5 ∷ 1 ∷ 163 ∷ 15 ∷ 3 ∷ 3 ∷ 1 ∷ 43 ∷ 3
    ∷ 3 ∷ 1 ∷ 1 ∷ 3 ∷ 3 ∷ 1 ∷ 1 ∷ 49 ∷ 1 ∷ 1 ∷ 1 ∷ 1 ∷ 1 ∷ 1 ∷ []

made_encoding : marshal_message_v3 sample made ≡ ok made_bytes
unfolding marshal_message_v3 sample
made_encoding = refl

-- The message that the client has sent.
abbrev sent : MessageV3
sent = record made {
  message = record made.message {
    pdu = some (scoped (record unit_sent { pdu_v1 = record answer { pdu_type = get_request } }));
  };
}

IsSecure-args : IsSecure args
unfolding one_of
IsSecure-args = (omega arith, omega arith, inr (omega arith, refl), inr (omega arith, refl))

flags_apart_example :
    Sets (set_reportable false) false reportable privacy authentication made.global
    × Sets (set_privacy false) false privacy reportable authentication made.global
    × Sets (set_authentication false) false authentication reportable privacy made.global
flags_apart_example = flags_apart made.global false (omega arith)

unmarshal_message_v3-marshal_message_v3_example :
    unmarshal_message_v3 sample blank (made_bytes ++ 0 ∷ [])
    ≡ ok (record made { message = record made.message { pdu = some (scoped unit_sent) } }, 0 ∷ [])
unmarshal_message_v3-marshal_message_v3_example =
    unmarshal_message_v3-marshal_message_v3 sample made blank made_bytes (0 ∷ []) made_encoding

unmarshal_message_v3-Returns_example : Returns (unmarshal_message_v3 sample blank made_bytes)
unmarshal_message_v3-Returns_example = unmarshal_message_v3-Returns sample blank made_bytes

answer_accepted_v3_example :
    prepare_data_elements_v3 sample_crypto sample args engine sent (made_bytes ++ 0 ∷ [])
    ≡ ok (
        scoped
          (record (with_context args engine.auth_engine_id unit_sent) { pdu_v1 = carried answer }))
answer_accepted_v3_example =
    answer_accepted_v3 sample_crypto sample args engine engine 3000000103 (pos 7) sent blank made
      (scoped (record unit_sent { pdu_v1 = record answer { pdu_type = get_request } })) unit_sent
      made_bytes (0 ∷ []) request_made made_encoding (unfold bad_engine in refl) refl refl tt refl
      refl refl refl (unfold base in refl)

taken :
    prepare_data_elements_v3 sample_crypto sample args engine sent made_bytes
    ≡ ok (scoped (record unit_sent { context_engine_id = 128 ∷ 0 ∷ 0 ∷ 0 ∷ 1 ∷ [] }))
unfolding prepare_data_elements_v3 sample sample_crypto tlv
taken = refl

prepare_data_elements_v3-IsAnswerV3_example :
    IsAnswerV3 sample_crypto sample args engine sent made_bytes
      (scoped (record unit_sent { context_engine_id = 128 ∷ 0 ∷ 0 ∷ 0 ∷ 1 ∷ [] }))
prepare_data_elements_v3-IsAnswerV3_example =
    prepare_data_elements_v3-IsAnswerV3 sample_crypto sample args engine sent made_bytes
      (scoped (record unit_sent { context_engine_id = 128 ∷ 0 ∷ 0 ∷ 0 ∷ 1 ∷ [] })) taken

accept_v3-forge_example :
    accept_v3 sample_crypto sample args engine sent (forge (120 ∷ []) [] made)
    ≡ accept_v3 sample_crypto sample args engine sent made
accept_v3-forge_example = accept_v3-forge sample_crypto sample (120 ∷ []) [] args engine sent made

prepare_outgoing_v3-Returns_example : Returns (
    prepare_outgoing_v3 sample_crypto sample
      (pos 1)
      (pos 2)
      args
      engine
      3000000103
      (pos 7)
      (scoped unit_sent))
prepare_outgoing_v3-Returns_example =
    prepare_outgoing_v3-Returns sample_crypto sample (pos 1) (pos 2) args engine 3000000103 (pos 7)
      unit_sent IsSecure-args (inr (omega arith))
