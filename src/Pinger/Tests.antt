-- ===== src/Pinger/Tests.antt =====
-- Datagrams that the pinger reads, and the theorems at them.
use snmpclient.Prelude.{
  ◌≡◌, refl, [], ◌∷◌, ◌++◌, Bytes, codes, ok, true, false, none, arith, Returns,
}
use snmpclient.Prelude.Int.{pos}
use snmpclient.Client.{ClientArguments}
use snmpclient.Asn1.Sample.{sample, tlv}
use snmpclient.Oid.{empty_oid}
use snmpclient.Pdu.{PduV1, get_response}
use snmpclient.Pdu.Wire.{marshal_pdu, is_sequence}
use snmpclient.Message.{MessageV1, marshal_message}
use snmpclient.MessageV3.{MessageV3, marshal_message_v3}
use snmpclient.Pinger.{reports, datagram, unread, on_event, serve, probe}
use snmpclient.Pinger.Pong.{
  pong, on_event-marshal_message, on_event-marshal_message_v3, serve-Returns,
}
use snmpclient.Pinger.Fatal.{IsFatal}

abbrev args : ClientArguments
args = record {
  version = pos 1;
  timeout = pos 5;
  retries = 0;
  message_max_size = pos 1400;
  community = codes "public";
  user_name = codes "user";
  security_level = pos 0;
  auth_password = [];
  auth_protocol = [];
  auth_key = [];
  priv_password = [];
  priv_protocol = [];
  priv_key = [];
  security_engine_id = [];
  context_engine_id = [];
  context_name = [];
}

abbrev answer : PduV1
answer = record {
  pdu_type = get_response;
  request_id = pos 42;
  error_status = pos 0;
  error_index = pos 0;
  variable_bindings = [];
  enterprise = empty_oid;
  agent_address = [];
  generic_trap = pos 0;
  specific_trap = pos 0;
  timestamp = pos 0;
}

abbrev reply : MessageV1
reply = record {
  version = pos 1;
  community = 112 ∷ [];
  pdu_bytes = 162 ∷ 14 ∷ 2 ∷ 2 ∷ 0 ∷ 42 ∷ 2 ∷ 2 ∷ 0 ∷ 0 ∷ 2 ∷ 2 ∷ 0 ∷ 0 ∷ 48 ∷ 0 ∷ [];
  pdu = none;
}

abbrev reply_bytes : Bytes
reply_bytes = 48 ∷ 23 ∷ 2 ∷ 2 ∷ 0 ∷ 1 ∷ 4 ∷ 1 ∷ 112 ∷ reply.pdu_bytes

unit_encoding : marshal_pdu sample answer ≡ ok reply.pdu_bytes
unfolding marshal_pdu sample
unit_encoding = refl

reply_encoding : marshal_message sample reply ≡ ok reply_bytes
unfolding marshal_message sample
reply_encoding = refl

on_event-marshal_message_example :
    on_event sample args (datagram (reply_bytes ++ 0 ∷ []))
    ≡ ok (reports (pong (pos 42) (pos 1) (112 ∷ []) []))
on_event-marshal_message_example =
    on_event-marshal_message sample args reply answer reply_bytes (0 ∷ []) unit_encoding
      reply_encoding refl (omega arith) refl tt

abbrev reply_v3 : MessageV3
reply_v3 = record {
  global = record {
    message_id = pos 42;
    message_max_size = pos 1400;
    message_flags = 0 ∷ [];
    security_model = pos 3;
  };
  security = record {
    auth_engine_id = [];
    auth_engine_boots = pos 0;
    auth_engine_time = pos 0;
    user_name = [];
    auth_parameter = [];
    priv_parameter = [];
  };
  message = record { version = pos 3; community = []; pdu_bytes = []; pdu = none };
}

abbrev reply_v3_bytes : Bytes
reply_v3_bytes =
    48 ∷ 41 ∷ 2 ∷ 2 ∷ 0 ∷ 3 ∷ 48 ∷ 15 ∷ 2 ∷ 2 ∷ 0 ∷ 42 ∷ 2 ∷ 2 ∷ 0 ∷ 1400 ∷ 4 ∷ 1 ∷ 0 ∷ 2 ∷ 2 ∷ 0
    ∷ 3 ∷ 4 ∷ 18 ∷ 48 ∷ 16 ∷ 4 ∷ 0 ∷ 2 ∷ 2 ∷ 0 ∷ 0 ∷ 2 ∷ 2 ∷ 0 ∷ 0 ∷ 4 ∷ 0 ∷ 4 ∷ 0 ∷ 4 ∷ 0 ∷ []

reply_v3_encoding : marshal_message_v3 sample reply_v3 ≡ ok reply_v3_bytes
unfolding marshal_message_v3 sample
reply_v3_encoding = refl

on_event-marshal_message_v3_example :
    on_event sample args (datagram (reply_v3_bytes ++ []))
    ≡ ok (reports (pong (pos 42) (pos 3) [] (codes "user")))
on_event-marshal_message_v3_example =
    on_event-marshal_message_v3 sample args reply_v3 reply_v3_bytes [] reply_v3_encoding refl

-- A sequence of the version 3 and nothing else.
abbrev cut_short : Bytes
cut_short = 48 ∷ 4 ∷ 2 ∷ 2 ∷ 0 ∷ 3 ∷ []

cut_short-IsFatal : IsFatal sample cut_short
unfolding sample tlv is_sequence
cut_short-IsFatal = record {
  raw = record { class = 0; tag = 16; is_compound = true; content = 2 ∷ 2 ∷ 0 ∷ 3 ∷ [] };
  rest = [];
  behind = [];
  why = snmpclient.Prelude.asn1;
  raw_read = refl;
  sequence_read = refl;
  version_read = refl;
  no_header = refl;
}

-- The second answer is not read.
ended_early :
    serve sample args (datagram reply_bytes ∷ datagram cut_short ∷ datagram reply_bytes ∷ [])
    ≡ ok (pong (pos 42) (pos 1) (112 ∷ []) [] ∷ [], false)
unfolding serve sample tlv
ended_early = refl

serve-Returns_example :
    Returns (serve sample args (unread true ∷ datagram reply_bytes ∷ datagram cut_short ∷ []))
serve-Returns_example =
    serve-Returns sample args (unread true ∷ datagram reply_bytes ∷ datagram cut_short ∷ [])

-- An unknown version is an error of `Send`.
unsupported :
    probe sample (1 ∷ 3 ∷ []) (pos 1) (record args { version = pos 2 })
    ≡ snmpclient.Prelude.err snmpclient.Prelude.generic
unfolding probe
unsupported = refl
