-- ===== src/Message/RoundTrip.antt =====
-- `MessageV1.Unmarshal` on the bytes that `MessageV1.Marshal` writes (message.go).
use snmpclient.Prelude.{◌≡◌, refl, ◌++◌, Bytes, ok, >>=-elim, arith}
use snmpclient.Asn1.{Asn1}
use snmpclient.Pdu.Wire.{sequence, is_sequence}
use snmpclient.Message.{MessageV1, marshal_message, unmarshal_message}

module _ (a : Asn1) where
  -- A message is read back with its version, its community and the bytes of its PDU, whatever
  -- bytes follow it, and the PDU of the message that it is read into stays.
  pub unmarshal_message-marshal_message :
      (m n : MessageV1) (b r : Bytes)
      → marshal_message a m ≡ ok b
      → unmarshal_message a n (b ++ r) ≡ ok (record m { pdu = n.pdu }, r)
  unfolding marshal_message unmarshal_message is_sequence
  unmarshal_message-marshal_message m n b r h = >>=-elim (a.marshal_int m.version) _ h (λ v mv h1.
      >>=-elim (a.marshal_octets m.community) _ h1 (λ c mc h2.
        rw
          (
            a.raw_back (sequence (v ++ (c ++ m.pdu_bytes))) b r (omega arith) (omega arith) h2,
            a.int_back m.version v (c ++ m.pdu_bytes) mv,
            a.octets_back m.community c m.pdu_bytes mc,
          )
          refl))
