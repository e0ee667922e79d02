-- ===== src/Message/Total.antt =====
-- The messages of V1 and V2c neither panic nor run for ever when they hold a unit (message.go,
-- security.go).
use snmpclient.Prelude.{
  ◌≡◌, refl, sym, ap, some, Bytes, >>=-elim, Outcome, ok, err, panic, no_fuel, Returns, ok-Returns,
  err-Returns, >>=-Returns,
}
use snmpclient.Prelude.Int.{ℤ}
use snmpclient.Asn1.{Asn1}
use snmpclient.Pdu.{Pdu, v1, scoped}
use snmpclient.Pdu.Wire.{is_sequence, marshal_any, unmarshal_any}
use snmpclient.Pdu.Wire.Decode.{guarded, unmarshal_any-Returns}
use snmpclient.Pdu.Wire.Encode.{pdu-Returns, scoped-Returns}
use snmpclient.Message.Exchange.{inj_ok}
use snmpclient.Message.{
  MessageV1, Arguments, new_message, as_response, marshal_message, unmarshal_message, marshal_own,
  generate_request_message, read_own, process_incoming_message,
}

as_response-Returns : {A : Type 0} (o : Outcome A) → Returns o → Returns (as_response o)
unfolding as_response
as_response-Returns (ok x) h = ok-Returns x
as_response-Returns (err e) h = err-Returns _
as_response-Returns panic (p, n) = absurd (p refl)
as_response-Returns no_fuel (p, n) = absurd (n refl)

module _ (a : Asn1) where
  pub marshal_message-Returns : (m : MessageV1) → Returns (marshal_message a m)
  unfolding marshal_message
  marshal_message-Returns m =
      >>=-Returns (a.marshal_int m.version) _ (a.int_written m.version) (λ v _.
        >>=-Returns (a.marshal_octets m.community) _ (a.octets_written m.community)
          (λ c _. a.raw_written _))

  pub unmarshal_message-Returns : (m : MessageV1) (b : Bytes) → Returns (unmarshal_message a m b)
  unfolding unmarshal_message
  unmarshal_message-Returns m b = >>=-Returns (a.unmarshal_raw b) _ (a.raw_returns b) (λ x _.
      guarded (is_sequence x.0) _ (
        >>=-Returns (a.unmarshal_int x.0.content) _ (a.int_returns x.0.content) (λ v _.
          >>=-Returns (a.unmarshal_octets v.1) _ (a.octets_returns v.1) (λ c _. ok-Returns _))))

  own-Returns : (pdu : Pdu) → Returns (marshal_own a (some pdu))
  unfolding marshal_own marshal_any
  own-Returns (v1 p) = pdu-Returns a p
  own-Returns (scoped p) = scoped-Returns a p

  pub generate-Returns :
      (args : Arguments) (version : ℤ) (pdu : Pdu)
      → Returns (generate_request_message a args (new_message version pdu))
  unfolding generate_request_message new_message
  generate-Returns args version pdu =
      >>=-Returns (marshal_own a (some pdu)) _ (own-Returns pdu) (λ b _. ok-Returns _)

  pub process-Returns :
      (m : MessageV1) (p : Pdu) → m.pdu ≡ some p → Returns (process_incoming_message a m)
  unfolding process_incoming_message read_own
  process-Returns m p h = rw h (
      >>=-Returns (read_own a (some p) m.pdu_bytes) _
        (>>=-Returns (as_response (unmarshal_any a p m.pdu_bytes)) _
          (as_response-Returns _ (unmarshal_any-Returns a p m.pdu_bytes)) (λ x _. ok-Returns x.0))
        (λ q _. ok-Returns _))

  -- A processed message has a unit.
  pub process_unit :
      (m n : MessageV1) → process_incoming_message a m ≡ ok n → (q : Pdu) × (n.pdu ≡ some q)
  unfolding process_incoming_message
  process_unit m n h =
      >>=-elim (read_own a m.pdu m.pdu_bytes) _ h
        (λ q _ h1. (q, ap (λ x. x.pdu) (sym (inj_ok _ n h1))))
