-- ===== src/Pdu/Wire/Encode.antt =====
-- `Marshal` of values and of protocol data units gives bytes or an error (variables.go, pdu.go).
use snmpclient.Prelude.{
  ℕ, Bool, true, false, Option, none, some, List, [], ◌∷◌, ◌++◌, Bytes, ◌>>=◌, Returns, ok-Returns,
  >>=-Returns, ◌==◌, if◌then◌else◌, arith,
}
use snmpclient.Prelude.Int.{pos}
use snmpclient.Variable.{
  Variable, integer, octet_string, null, oid, ipaddress, counter32, gauge32, time_ticks, opaque,
  counter64, no_suche_object, no_suche_instance, end_of_mib_view,
}
use snmpclient.Variable.Wire.{set_tag, marshal}
use snmpclient.Oid.{Oid}
use snmpclient.Asn1.{Asn1, Parser, RawValue, Retags}
use snmpclient.Pdu.{VariableBinding, PduV1, ScopedPdu, trap}
use snmpclient.Pdu.Wire.{
  sequence, marshal_named, marshal_binding, marshal_bindings, marshal_trap, marshal_request,
  marshal_fields, marshal_pdu, marshal_scoped,
}

-- An encoding is not empty, so that its tag can be replaced.
set_tag-Returns :
    (parse : Parser RawValue) (tag t : ℕ) (b : Bytes) → Retags parse tag b → Returns (set_tag t b)
unfolding set_tag
set_tag-Returns parse tag t [] (s, e, _) = absurd (ground (arith, e))
set_tag-Returns parse tag t (x ∷ b) r = ok-Returns (t ∷ b)

module _ (a : Asn1) where
  tagged_int : (n t : ℕ) → Returns (a.marshal_int (pos n) >>= set_tag t)
  tagged_int n t =
      >>=-Returns (a.marshal_int (pos n)) _ (a.int_written (pos n))
        (λ b e. set_tag-Returns a.unmarshal_raw 2 t b (a.int_tag (pos n) b e))

  tagged_octets : (s : Bytes) (t : ℕ) → Returns (a.marshal_octets s >>= set_tag t)
  tagged_octets s t =
      >>=-Returns (a.marshal_octets s) _ (a.octets_written s)
        (λ b e. set_tag-Returns a.unmarshal_raw 4 t b (a.octets_tag s b e))

  marshal-Returns : (v : Variable) → Returns (marshal a v)
  unfolding marshal
  marshal-Returns (integer z) = a.int_written z
  marshal-Returns (octet_string s) = a.octets_written s
  marshal-Returns null = ok-Returns _
  marshal-Returns (oid o) = a.oid_written o.value
  marshal-Returns (ipaddress s) = tagged_octets s 0x40
  marshal-Returns (counter32 n) = tagged_int n 0x41
  marshal-Returns (gauge32 n) = tagged_int n 0x42
  marshal-Returns (time_ticks n) = tagged_int n 0x43
  marshal-Returns (opaque s) = tagged_octets s 0x44
  marshal-Returns (counter64 n) =
      >>=-Returns (a.marshal_big (pos n)) _ (a.big_written (pos n))
        (λ b e. set_tag-Returns a.unmarshal_raw 2 0x46 b (a.big_tag (pos n) b e))
  marshal-Returns no_suche_object = ok-Returns _
  marshal-Returns no_suche_instance = ok-Returns _
  marshal-Returns end_of_mib_view = ok-Returns _

  named-Returns : (o : Oid) (v : Option Variable) → Returns (marshal_named a o v)
  unfolding marshal_named
  named-Returns o none = a.raw_written (sequence [])
  named-Returns o (some v) = >>=-Returns (a.marshal_oid o.value) _ (a.oid_written o.value) (λ b _.
      >>=-Returns (marshal a v) _ (marshal-Returns v) (λ s _. a.raw_written (sequence (b ++ s))))

  bindings-Returns : (vs : List VariableBinding) → Returns (marshal_bindings a vs)
  unfolding marshal_bindings
  bindings-Returns [] = ok-Returns []
  bindings-Returns (v ∷ vs) =
      >>=-Returns (marshal_binding a v) _ (binding-Returns v)
        (λ b _. >>=-Returns (marshal_bindings a vs) _ (bindings-Returns vs) (λ r _. ok-Returns _))
    where
      binding-Returns : (v : VariableBinding) → Returns (marshal_binding a v)
      binding-Returns v = unfold marshal_binding in named-Returns v.name v.variable

  fields-Returns : (pdu : PduV1) → Returns (marshal_fields a pdu)
  unfolding marshal_fields
  fields-Returns pdu = by_type (pdu.pdu_type == trap)
    where
      by_type :
          (is_trap : Bool) → Returns (if is_trap then marshal_trap a pdu else marshal_request a pdu)
      by_type true =
          unfold marshal_trap in
          >>=-Returns (a.marshal_oid pdu.enterprise.value) _ (a.oid_written pdu.enterprise.value)
            (λ e _.
              >>=-Returns (marshal a (ipaddress pdu.agent_address)) _
                (marshal-Returns (ipaddress pdu.agent_address))
                (λ i _.
                  >>=-Returns (a.marshal_int pdu.generic_trap) _ (a.int_written pdu.generic_trap)
                    (λ g _.
                      >>=-Returns (a.marshal_int pdu.specific_trap) _
                        (a.int_written pdu.specific_trap)
                        (λ s _.
                          >>=-Returns (a.marshal_int pdu.timestamp) _ (a.int_written pdu.timestamp)
                            (λ t _. ok-Returns _)))))
      by_type false =
          unfold marshal_request in
          >>=-Returns (a.marshal_int pdu.request_id) _ (a.int_written pdu.request_id) (λ i _.
            >>=-Returns (a.marshal_int pdu.error_status) _ (a.int_written pdu.error_status) (λ e _.
              >>=-Returns (a.marshal_int pdu.error_index) _ (a.int_written pdu.error_index)
                (λ x _. ok-Returns _)))

  pub pdu-Returns : (pdu : PduV1) → Returns (marshal_pdu a pdu)
  unfolding marshal_pdu
  pdu-Returns pdu = >>=-Returns (marshal_fields a pdu) _ (fields-Returns pdu) (λ f _.
      >>=-Returns (marshal_bindings a pdu.variable_bindings) _
        (bindings-Returns pdu.variable_bindings)
        (λ bs _.
          >>=-Returns (a.marshal_raw (sequence bs)) _ (a.raw_written (sequence bs))
            (λ b _. a.raw_written _)))

  pub scoped-Returns : (p : ScopedPdu) → Returns (marshal_scoped a p)
  unfolding marshal_scoped
  scoped-Returns p =
      >>=-Returns (a.marshal_octets p.context_engine_id) _ (a.octets_written p.context_engine_id)
        (λ e _.
          >>=-Returns (a.marshal_octets p.context_name) _ (a.octets_written p.context_name) (λ n _.
            >>=-Returns (marshal_pdu a p.pdu_v1) _ (pdu-Returns p.pdu_v1) (λ q _. a.raw_written _)))
