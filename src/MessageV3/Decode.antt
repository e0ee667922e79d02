-- ===== src/MessageV3/Decode.antt =====
-- `MessageV3.Unmarshal` on arbitrary bytes (message.go).
use snmpclient.Prelude.{Bytes, Returns, ok-Returns, >>=-Returns}
use snmpclient.Asn1.{Asn1}
use snmpclient.Pdu.Wire.{is_sequence}
use snmpclient.Pdu.Wire.Decode.{guarded}
use snmpclient.MessageV3.{
  MessageV3, is_octets, unmarshal_global, unmarshal_security_fields, unmarshal_security,
  unmarshal_message_v3,
}

module _ (a : Asn1) where
  global-Returns : (b : Bytes) → Returns (unmarshal_global a b)
  unfolding unmarshal_global
  global-Returns b = >>=-Returns (a.unmarshal_raw b) _ (a.raw_returns b) (λ x _.
      guarded (is_sequence x.0) _ (
        >>=-Returns (a.unmarshal_int x.0.content) _ (a.int_returns x.0.content) (λ i _.
          >>=-Returns (a.unmarshal_int i.1) _ (a.int_returns i.1) (λ m _.
            >>=-Returns (a.unmarshal_octets m.1) _ (a.octets_returns m.1) (λ f _.
              >>=-Returns (a.unmarshal_int f.1) _ (a.int_returns f.1) (λ s _. ok-Returns _))))))

  fields-Returns : (b : Bytes) → Returns (unmarshal_security_fields a b)
  unfolding unmarshal_security_fields
  fields-Returns b = >>=-Returns (a.unmarshal_raw b) _ (a.raw_returns b) (λ x _.
      guarded (is_sequence x.0) _ (
        >>=-Returns (a.unmarshal_octets x.0.content) _ (a.octets_returns x.0.content) (λ e _.
          >>=-Returns (a.unmarshal_int e.1) _ (a.int_returns e.1) (λ eb _.
            >>=-Returns (a.unmarshal_int eb.1) _ (a.int_returns eb.1) (λ et _.
              >>=-Returns (a.unmarshal_octets et.1) _ (a.octets_returns et.1) (λ u _.
                >>=-Returns (a.unmarshal_octets u.1) _ (a.octets_returns u.1) (λ p _.
                  >>=-Returns (a.unmarshal_octets p.1) _ (a.octets_returns p.1)
                    (λ q _. ok-Returns _))))))))

  security-Returns : (b : Bytes) → Returns (unmarshal_security a b)
  unfolding unmarshal_security
  security-Returns b = >>=-Returns (a.unmarshal_raw b) _ (a.raw_returns b) (λ x _.
      guarded (is_octets x.0) _ (
        >>=-Returns (unmarshal_security_fields a x.0.content) _ (fields-Returns x.0.content)
          (λ s _. ok-Returns _)))

  -- Reading a V3 message from any bytes gives a message or an error.
  pub unmarshal_message_v3-Returns :
      (m : MessageV3) (b : Bytes) → Returns (unmarshal_message_v3 a m b)
  unfolding unmarshal_message_v3
  unmarshal_message_v3-Returns m b = >>=-Returns (a.unmarshal_raw b) _ (a.raw_returns b) (λ x _.
      guarded (is_sequence x.0) _ (
        >>=-Returns (a.unmarshal_int x.0.content) _ (a.int_returns x.0.content) (λ v _.
          >>=-Returns (unmarshal_global a v.1) _ (global-Returns v.1) (λ g _.
            >>=-Returns (unmarshal_security a g.1) _ (security-Returns g.1)
              (λ s _. ok-Returns _)))))
