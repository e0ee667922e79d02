-- ===== src/MessageV3/RoundTrip.antt =====
-- `MessageV3.Unmarshal` on the bytes that `MessageV3.Marshal` writes (message.go).
use snmpclient.Prelude.{◌≡◌, refl, sym, ap, ◌∙◌, [], ◌++◌, Bytes, ok, >>=-elim, append-nil, arith}
use snmpclient.Asn1.{Asn1}
use snmpclient.Pdu.Wire.{sequence, is_sequence}
use snmpclient.MessageV3.{
  GlobalDataV3, SecurityParameterV3, MessageV3, is_octets, octets, marshal_global, unmarshal_global,
  marshal_security_fields, unmarshal_security_fields, marshal_security, unmarshal_security,
  marshal_message_v3, unmarshal_message_v3,
}

module _ (a : Asn1) where
  global_back :
      (h : GlobalDataV3) (b r : Bytes)
      → marshal_global a h ≡ ok b
      → unmarshal_global a (b ++ r) ≡ ok (h, r)
  unfolding marshal_global unmarshal_global is_sequence
  global_back h b r e = >>=-elim (a.marshal_int h.message_id) _ e (λ i mi e1.
      >>=-elim (a.marshal_int h.message_max_size) _ e1 (λ m mm e2.
        >>=-elim (a.marshal_octets h.message_flags) _ e2 (λ f mf e3.
          >>=-elim (a.marshal_int h.security_model) _ e3 (λ s ms e4.
            rw
              (
                a.raw_back (sequence (i ++ (m ++ (f ++ s)))) b r (omega arith) (omega arith) e4,
                a.int_back h.message_id i (m ++ (f ++ s)) mi,
                a.int_back h.message_max_size m (f ++ s) mm,
                a.octets_back h.message_flags f s mf,
                ap (λ (l : Bytes). a.unmarshal_int l) (sym (append-nil s))
                    ∙ a.int_back h.security_model s [] ms,
              )
              refl))))

  security_fields_back :
      (c : SecurityParameterV3) (b r : Bytes)
      → marshal_security_fields a c ≡ ok b
      → unmarshal_security_fields a (b ++ r) ≡ ok (c, r)
  unfolding marshal_security_fields unmarshal_security_fields is_sequence
  security_fields_back c b r h = >>=-elim (a.marshal_octets c.auth_engine_id) _ h (λ e me h1.
      >>=-elim (a.marshal_int c.auth_engine_boots) _ h1 (λ eb meb h2.
        >>=-elim (a.marshal_int c.auth_engine_time) _ h2 (λ et met h3.
          >>=-elim (a.marshal_octets c.user_name) _ h3 (λ u mu h4.
            >>=-elim (a.marshal_octets c.auth_parameter) _ h4 (λ p mp h5.
              >>=-elim (a.marshal_octets c.priv_parameter) _ h5 (λ q mq h6.
                rw
                  (
                    a.raw_back (sequence (e ++ (eb ++ (et ++ (u ++ (p ++ q)))))) b r (omega arith)
                        (omega arith) h6,
                    a.octets_back c.auth_engine_id e (eb ++ (et ++ (u ++ (p ++ q)))) me,
                    a.int_back c.auth_engine_boots eb (et ++ (u ++ (p ++ q))) meb,
                    a.int_back c.auth_engine_time et (u ++ (p ++ q)) met,
                    a.octets_back c.user_name u (p ++ q) mu,
                    a.octets_back c.auth_parameter p q mp,
                    ap (λ (l : Bytes). a.unmarshal_octets l) (sym (append-nil q))
                        ∙ a.octets_back c.priv_parameter q [] mq,
                  )
                  refl))))))

  security_back :
      (c : SecurityParameterV3) (b r : Bytes)
      → marshal_security a c ≡ ok b
      → unmarshal_security a (b ++ r) ≡ ok (c, r)
  unfolding marshal_security unmarshal_security is_octets
  security_back c b r h = >>=-elim (marshal_security_fields a c) _ h (λ s ms h1.
      rw
        (
          a.raw_back (octets s) b r (omega arith) (omega arith) h1,
          ap (λ (l : Bytes). unmarshal_security_fields a l) (sym (append-nil s))
              ∙ security_fields_back c s [] ms,
        )
        refl)

  -- A V3 message is read back with its version, its header, its security parameters and the bytes
  -- of its PDU, whatever bytes follow it. The community and the PDU of the message that it is read
  -- into stay.
  pub unmarshal_message_v3-marshal_message_v3 :
      (m n : MessageV3) (b r : Bytes)
      → marshal_message_v3 a m ≡ ok b
      → unmarshal_message_v3 a n (b ++ r)
        ≡ ok (
          record m {
            message = record n.message {
              version = m.message.version;
              pdu_bytes = m.message.pdu_bytes;
            };
          },
          r,
        )
  unfolding marshal_message_v3 unmarshal_message_v3 is_sequence
  unmarshal_message_v3-marshal_message_v3 m n b r h =
      >>=-elim (a.marshal_int m.message.version) _ h (λ v mv h1.
        >>=-elim (marshal_global a m.global) _ h1 (λ g mg h2.
          >>=-elim (marshal_security a m.security) _ h2 (λ s ms h3.
            let p = m.message.pdu_bytes in
            rw
              (
                a.raw_back (sequence (v ++ (g ++ (s ++ p)))) b r (omega arith) (omega arith) h3,
                a.int_back m.message.version v (g ++ (s ++ p)) mv,
                global_back m.global g (s ++ p) mg,
                security_back m.security s p ms,
              )
              refl)))
