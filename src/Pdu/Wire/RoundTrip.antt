-- ===== src/Pdu/Wire/RoundTrip.antt =====
-- `Unmarshal` of a protocol data unit on the bytes that `Marshal` writes (pdu.go).
use snmpclient.Prelude.{
  ◌≡◌, refl, sym, ap, ◌∙◌, true, [], ◌++◌, arith, Bytes, ok, append-nil, ◌==◌, if◌then◌else◌,
  >>=-elim, ◌<◌, length, append_assoc, All, false, Bool,
}
use snmpclient.Prelude.Int.{pos, ℤ}
use snmpclient.Oid.{Oid, new_oid, empty_oid, IsIdentifier}
use snmpclient.Variable.{ipaddress}
use snmpclient.Variable.Wire.{marshal}
use snmpclient.Variable.Wire.RoundTrip.{address_back}
use snmpclient.Asn1.{Asn1, RawValue}
use snmpclient.Pdu.{PduV1, trap, get_response, ScopedPdu, empty_pdu}
use snmpclient.Pdu.Wire.{
  is_sequence, sequence, marshal_bindings, marshal_trap, marshal_request, marshal_fields,
  marshal_pdu, unmarshal_address, unmarshal_trap, unmarshal_request, unmarshal_fields,
  unmarshal_pdu, marshal_scoped, unmarshal_scoped,
}
use snmpclient.Pdu.Wire.Items.{IsBinding, ok_inj, bindings_back}

-- What of a unit its encoding carries: a V1 trap has no request and loses its time stamp, and the
-- other types have no fields of a trap.
abbrev pub carried_as : Bool → PduV1 → PduV1
carried_as is_trap p = record p {
  request_id = if is_trap then pos 0 else p.request_id;
  error_status = if is_trap then pos 0 else p.error_status;
  error_index = if is_trap then pos 0 else p.error_index;
  enterprise = if is_trap then p.enterprise else empty_oid;
  agent_address = if is_trap then p.agent_address else [];
  generic_trap = if is_trap then p.generic_trap else pos 0;
  specific_trap = if is_trap then p.specific_trap else pos 0;
  timestamp = pos 0;
}

abbrev pub carried : PduV1 → PduV1
carried p = carried_as (p.pdu_type == trap) p

-- The enterprise of a trap is an identifier that an encoding carries.
abbrev pub NamesIf : Bool → Oid → Type 0
NamesIf true o = IsIdentifier o.value
NamesIf false o = Unit

abbrev pub NamesEnterprise : PduV1 → Type 0
NamesEnterprise p = NamesIf (p.pdu_type == trap) p.enterprise

pub plain-NamesEnterprise : (p : PduV1) → (p.pdu_type == trap) ≡ false → NamesEnterprise p
plain-NamesEnterprise p plain = rw plain tt

pub response-NamesEnterprise : (p : PduV1) → p.pdu_type ≡ get_response → NamesEnterprise p
response-NamesEnterprise p kind = rw kind tt

module _ (a : Asn1) where
  request_back :
      (p q : PduV1) (b r : Bytes)
      → marshal_request a p ≡ ok b
      → unmarshal_request a q (b ++ r)
        ≡ ok (
          record q {
            request_id = p.request_id;
            error_status = p.error_status;
            error_index = p.error_index;
          },
          r,
        )
  unfolding marshal_request unmarshal_request
  request_back p q b r h = >>=-elim (a.marshal_int p.request_id) _ h (λ i mi h1.
      >>=-elim (a.marshal_int p.error_status) _ h1 (λ e me h2.
        >>=-elim (a.marshal_int p.error_index) _ h2 (λ x mx h3.
          rw
            (
              ok_inj h3,
              append_assoc i (e ++ x) r,
              a.int_back p.request_id i ((e ++ x) ++ r) mi,
              append_assoc e x r,
              a.int_back p.error_status e (x ++ r) me,
              a.int_back p.error_index x r mx,
            )
            refl)))

  unmarshal_address_back :
      (x b r : Bytes) → marshal a (ipaddress x) ≡ ok b → unmarshal_address a (b ++ r) ≡ ok (x, r)
  unfolding unmarshal_address
  unmarshal_address_back x b r h = rw (address_back a x b r h)

  time_skipped :
      (z : ℤ) (b r : Bytes)
      → a.marshal_int z ≡ ok b
      → (raw : RawValue) × (a.unmarshal_raw (b ++ r) ≡ ok (raw, r))
  time_skipped z b r h =
      let (s, e, f) = a.int_tag z b h in
      let (raw, q, _, _) = f 2 r (omega arith) (omega arith) in
      (raw, ap (λ (l : Bytes). a.unmarshal_raw (l ++ r)) e ∙ q)

  trap_back :
      (p q : PduV1) (b r : Bytes)
      → IsIdentifier p.enterprise.value
      → marshal_trap a p ≡ ok b
      → unmarshal_trap a q (b ++ r)
        ≡ ok (
          record q {
            enterprise = p.enterprise;
            agent_address = p.agent_address;
            generic_trap = p.generic_trap;
            specific_trap = p.specific_trap;
          },
          r,
        )
  unfolding marshal_trap unmarshal_trap new_oid
  trap_back p q b r named h = >>=-elim (a.marshal_oid p.enterprise.value) _ h (λ e me h1.
      >>=-elim (marshal a (ipaddress p.agent_address)) _ h1 (λ ag mag h2.
        >>=-elim (a.marshal_int p.generic_trap) _ h2 (λ g mg h3.
          >>=-elim (a.marshal_int p.specific_trap) _ h3 (λ s ms h4.
            >>=-elim (a.marshal_int p.timestamp) _ h4 (λ t mt h5.
              rw
                (
                  ok_inj h5,
                  append_assoc e (ag ++ (g ++ (s ++ t))) r,
                  a.oid_back p.enterprise.value e ((ag ++ (g ++ (s ++ t))) ++ r) named me,
                  append_assoc ag (g ++ (s ++ t)) r,
                  unmarshal_address_back p.agent_address ag ((g ++ (s ++ t)) ++ r) mag,
                  append_assoc g (s ++ t) r,
                  a.int_back p.generic_trap g ((s ++ t) ++ r) mg,
                  append_assoc s t r,
                  a.int_back p.specific_trap s (t ++ r) ms,
                  (time_skipped p.timestamp t r mt).1,
                )
                refl)))))

  fields_back_as :
      (is_trap : Bool) (p : PduV1) (b r : Bytes)
      → NamesIf is_trap p.enterprise
      → (if is_trap then marshal_trap a p else marshal_request a p) ≡ ok b
      → (if is_trap
          then unmarshal_trap a (empty_pdu p.pdu_type) (b ++ r)
          else unmarshal_request a (empty_pdu p.pdu_type) (b ++ r))
        ≡ ok (record (carried_as is_trap p) { variable_bindings = [] }, r)
  unfolding empty_pdu
  fields_back_as true p b r named h = trap_back p (empty_pdu p.pdu_type) b r named h
  fields_back_as false p b r named h = request_back p (empty_pdu p.pdu_type) b r h

  fields_back :
      (p : PduV1) (b r : Bytes)
      → NamesEnterprise p
      → marshal_fields a p ≡ ok b
      → unmarshal_fields a (empty_pdu p.pdu_type) (b ++ r)
        ≡ ok (record (carried p) { variable_bindings = [] }, r)
  unfolding marshal_fields unmarshal_fields empty_pdu
  fields_back p b r named h = fields_back_as (p.pdu_type == trap) p b r named h

  whole :
      (v : RawValue) (b : Bytes)
      → v.class < 4
      → v.tag < 31
      → a.marshal_raw v ≡ ok b
      → a.unmarshal_raw b ≡ ok (v, [])
  whole v b hk ht h =
      ap (λ (l : Bytes). a.unmarshal_raw l) (sym (append-nil b)) ∙ a.raw_back v b [] hk ht h

  -- `Unmarshal` into a unit `q`, on what `Marshal` writes for `p` and whatever follows it, gives
  -- the fields of `p` that its type carries, and the bindings of `p` behind those of `q`. The type
  -- of `p` is below 31; each of its bindings has a variable in the range of its Go type; and every
  -- identifier in it, the enterprise of a trap included, has at least two sub-identifiers, the
  -- first at most 2 and the second below 40 if the first is not 2, whose numbers fit in an int.
  pub unmarshal_pdu-marshal_pdu :
      (p q : PduV1) (b r : Bytes)
      → p.pdu_type < 31
      → NamesEnterprise p
      → All IsBinding p.variable_bindings
      → marshal_pdu a p ≡ ok b
      → unmarshal_pdu a q (b ++ r)
        ≡ ok (
          record (carried p) { variable_bindings = q.variable_bindings ++ p.variable_bindings },
          r,
        )
  unfolding marshal_pdu unmarshal_pdu is_sequence
  unmarshal_pdu-marshal_pdu p q b r fits named bound h =
      >>=-elim (marshal_fields a p) _ h (λ f mf h1.
        >>=-elim (marshal_bindings a p.variable_bindings) _ h1 (λ bs mb h2.
          >>=-elim (a.marshal_raw (sequence bs)) _ h2 (λ buf ms h3.
            rw
              (
                a.raw_back
                    (record { class = 2; tag = p.pdu_type; is_compound = true; content = f ++ buf })
                    b r (omega arith) fits h3,
                fields_back p f buf named mf,
                whole (sequence bs) buf (omega arith) (omega arith) ms,
                bindings_back a p.variable_bindings (length bs) bs bound (omega arith) mb,
              )
              refl)))

  -- A `ScopedPdu` is read back with its context and the fields of its unit that the type carries.
  -- That type is below 31, and the codec carries its bindings and its enterprise.
  pub unmarshal_scoped-marshal_scoped :
      (p : ScopedPdu) (b r : Bytes)
      → p.pdu_v1.pdu_type < 31
      → NamesEnterprise p.pdu_v1
      → All IsBinding p.pdu_v1.variable_bindings
      → marshal_scoped a p ≡ ok b
      → unmarshal_scoped a (b ++ r) ≡ ok (record p { pdu_v1 = carried p.pdu_v1 }, r)
  unfolding marshal_scoped unmarshal_scoped is_sequence
  unmarshal_scoped-marshal_scoped p b r fits named bound h =
      >>=-elim (a.marshal_octets p.context_engine_id) _ h (λ e me h1.
        >>=-elim (a.marshal_octets p.context_name) _ h1 (λ n mn h2.
          >>=-elim (marshal_pdu a p.pdu_v1) _ h2 (λ x mx h3.
            rw
              (
                a.raw_back (sequence (e ++ (n ++ x))) b r (omega arith) (omega arith) h3,
                a.octets_back p.context_engine_id e (n ++ x) me,
                a.octets_back p.context_name n x mn,
                ap (λ (l : Bytes). unmarshal_pdu a (empty_pdu 0) l) (sym (append-nil x))
                    ∙ unmarshal_pdu-marshal_pdu p.pdu_v1 (empty_pdu 0) x [] fits named bound mx,
                empty_pdu,
              )
              refl)))
