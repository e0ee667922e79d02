-- ===== src/Message/Requests.antt =====
-- The message that is prepared for a unit of V1 or V2c, and what its receiver makes of it
-- (message.go, security.go).
use snmpclient.Prelude.{
  ◌<◌, ◌≡◌, refl, sym, ap, ◌∙◌, some, [], Bytes, ok, >>=-elim, append-nil, All,
}
use snmpclient.Prelude.Int.{ℤ}
use snmpclient.Asn1.{Asn1}
use snmpclient.Pdu.{PduV1, v1, empty_pdu, get_request, set_request_id}
use snmpclient.Pdu.Wire.{unmarshal_any, marshal_any, marshal_pdu, unmarshal_pdu}
use snmpclient.Pdu.Wire.Items.{IsBinding}
use snmpclient.Pdu.Wire.RoundTrip.{carried, NamesEnterprise, unmarshal_pdu-marshal_pdu}
use snmpclient.Message.Exchange.{inj_ok}
use snmpclient.Message.{
  MessageV1, Arguments, new_message, marshal_own, generate_request_message,
  prepare_outgoing_message, as_response, read_own, process_incoming_message,
}

module _ (a : Asn1) where
  -- A message without bytes gets those of its unit, and the community of the arguments.
  pub generated :
      (args : Arguments) (version : ℤ) (p : PduV1) (pb : Bytes)
      → marshal_pdu a p ≡ ok pb
      → generate_request_message a args (new_message version (v1 p))
        ≡ ok (record {
          version = version;
          community = args.community;
          pdu_bytes = pb;
          pdu = some (v1 p);
        })
  unfolding generate_request_message marshal_own marshal_any new_message
  generated args version p pb h = rw h refl

  -- The message that is prepared for a unit: its bytes are those of the unit with the number
  -- drawn, its version and community those of the arguments.
  pub prepared :
      (id : ℤ) (args : Arguments) (p : PduV1) (sent : MessageV1)
      → prepare_outgoing_message a id args (v1 p) ≡ ok sent
      → (pb : Bytes) × (marshal_pdu a (record p { request_id = id }) ≡ ok pb)
        × (sent ≡ record {
          version = args.version;
          community = args.community;
          pdu_bytes = pb;
          pdu = some (v1 (record p { request_id = id }));
        })
  unfolding prepare_outgoing_message set_request_id generate_request_message marshal_own marshal_any
      new_message
  prepared id args p sent h =
      >>=-elim (marshal_pdu a (record p { request_id = id })) _ h
        (λ pb e h1. (pb, e, sym (inj_ok _ sent h1)))

  -- Processing a message that holds the bytes of a unit puts the unit into it.
  pub processed :
      (version : ℤ) (c pb : Bytes) (p : PduV1)
      → p.pdu_type < 31
      → NamesEnterprise p
      → All IsBinding p.variable_bindings
      → marshal_pdu a p ≡ ok pb
      → process_incoming_message a (record {
        version = version;
        community = c;
        pdu_bytes = pb;
        pdu = some (v1 (empty_pdu get_request));
      })
        ≡ ok (record {
          version = version;
          community = c;
          pdu_bytes = pb;
          pdu = some (v1 (carried p));
        })
  unfolding process_incoming_message read_own unmarshal_any as_response empty_pdu
  processed version c pb p fits named bound written =
      rw
        (ap (λ (l : Bytes). unmarshal_pdu a (empty_pdu 0) l) (sym (append-nil pb))
          ∙ unmarshal_pdu-marshal_pdu a p (empty_pdu 0) pb [] fits named bound written)
        refl
