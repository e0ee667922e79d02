-- ===== src/Pdu/Wire.antt =====
-- The encodings of protocol data units: the `Marshal` and `Unmarshal` methods of pdu.go.
pub mod Items
pub mod RoundTrip
pub mod Decode
pub mod Encode
use snmpclient.Prelude.{
  ℕ, zero, suc, ◌≡◌, Bool, true, false, not, ◌&&◌, ◌||◌, Option, none, some, List, [], ◌∷◌, ◌++◌,
  Bytes, Outcome, ok, err, panic, no_fuel, asn1, ◌>>=◌, length, ◌==◌, if◌then◌else◌,
}
use snmpclient.Oid.{Oid, new_oid}
use snmpclient.Variable.{Variable, ipaddress}
use snmpclient.Variable.Wire.{marshal, unmarshal_string, unmarshal_variable}
use snmpclient.Asn1.{Asn1, Parser, RawValue, class_universal, class_context_specific, tag_sequence}
use snmpclient.Pdu.{
  VariableBinding, PduV1, ScopedPdu, Pdu, v1, scoped, empty_pdu, trap, get_request,
}

-- The class, the tag and the form that the headers of sequences have.
unfoldable pub is_sequence : RawValue → Bool
is_sequence raw = (raw.class == class_universal) && (raw.tag == tag_sequence) && raw.is_compound

abbrev pub sequence : Bytes → RawValue
sequence b = record { class = class_universal; tag = tag_sequence; is_compound = true; content = b }

module _ (a : Asn1) where
  -- The rest of `VariableBinding.Marshal` behind the test of the variable.
  unfoldable pub marshal_named : Oid → Option Variable → Outcome Bytes
  marshal_named name none = a.marshal_raw (sequence [])
  marshal_named name (some variable) = do
    o ← a.marshal_oid name.value
    buf ← marshal a variable
    a.marshal_raw (sequence (o ++ buf))

  unfoldable pub marshal_binding : VariableBinding → Outcome Bytes
  unfolding marshal_named
  marshal_binding v = marshal_named v.name v.variable

  unfoldable pub unmarshal_binding : Parser VariableBinding
  unfolding is_sequence
  unmarshal_binding b = do
    (raw, rest) ← a.unmarshal_raw b
    if is_sequence raw
        then (do
          (o, next) ← a.unmarshal_oid raw.content
          (variable, _) ← unmarshal_variable a next
          ok (record { name = new_oid o; variable = some variable }, rest))
        else err asn1

  unfoldable pub marshal_bindings : List VariableBinding → Outcome Bytes
  unfolding marshal_binding
  marshal_bindings [] = ok []
  marshal_bindings (v ∷ vs) = do
    buf ← marshal_binding v
    rest ← marshal_bindings vs
    ok (buf ++ rest)

  -- The loop of `Unmarshal` over the bytes of the bindings.
  unfoldable pub unmarshal_bindings : ℕ → Bytes → Outcome (List VariableBinding)
  unfolding unmarshal_binding
  unmarshal_bindings fuel [] = ok []
  unmarshal_bindings zero (c ∷ b) = no_fuel
  unmarshal_bindings (suc fuel) (c ∷ b) = do
    (v, next) ← unmarshal_binding (c ∷ b)
    vs ← unmarshal_bindings fuel next
    ok (v ∷ vs)

  -- The fields in front of the bindings.
  unfoldable pub marshal_trap : PduV1 → Outcome Bytes
  marshal_trap pdu = do
    e ← a.marshal_oid pdu.enterprise.value
    ag ← marshal a (ipaddress pdu.agent_address)
    g ← a.marshal_int pdu.generic_trap
    s ← a.marshal_int pdu.specific_trap
    t ← a.marshal_int pdu.timestamp
    ok (e ++ (ag ++ (g ++ (s ++ t))))

  unfoldable pub marshal_request : PduV1 → Outcome Bytes
  marshal_request pdu = do
    i ← a.marshal_int pdu.request_id
    e ← a.marshal_int pdu.error_status
    x ← a.marshal_int pdu.error_index
    ok (i ++ (e ++ x))

  unfoldable pub marshal_fields : PduV1 → Outcome Bytes
  unfolding marshal_trap marshal_request
  marshal_fields pdu = if pdu.pdu_type == trap then marshal_trap pdu else marshal_request pdu

  -- `PduV1.Marshal`.
  unfoldable pub marshal_pdu : PduV1 → Outcome Bytes
  unfolding marshal_fields marshal_bindings
  marshal_pdu pdu = do
    fields ← marshal_fields pdu
    bindings ← marshal_bindings pdu.variable_bindings
    buf ← a.marshal_raw (sequence bindings)
    a.marshal_raw (record {
      class = class_context_specific;
      tag = pdu.pdu_type;
      is_compound = true;
      content = fields ++ buf;
    })

  -- `agentAddress.Unmarshal(next)`.
  unfoldable pub unmarshal_address : Parser Bytes
  unmarshal_address b = unmarshal_string a b 0x40 (λ s. s)

  -- The time stamp is read into a raw value and dropped.
  unfoldable pub unmarshal_trap : PduV1 → Parser PduV1
  unfolding unmarshal_address
  unmarshal_trap pdu b = do
    (e, next) ← a.unmarshal_oid b
    (ag, next) ← unmarshal_address next
    (g, next) ← a.unmarshal_int next
    (s, next) ← a.unmarshal_int next
    (_, next) ← a.unmarshal_raw next
    ok (
      record pdu {
        enterprise = new_oid e;
        agent_address = ag;
        generic_trap = g;
        specific_trap = s;
      },
      next,
    )

  unfoldable pub unmarshal_request : PduV1 → Parser PduV1
  unmarshal_request pdu b = do
    (i, next) ← a.unmarshal_int b
    (e, next) ← a.unmarshal_int next
    (x, next) ← a.unmarshal_int next
    ok (record pdu { request_id = i; error_status = e; error_index = x }, next)

  unfoldable pub unmarshal_fields : PduV1 → Parser PduV1
  unfolding unmarshal_trap unmarshal_request
  unmarshal_fields pdu b =
      if pdu.pdu_type == trap then unmarshal_trap pdu b else unmarshal_request pdu b

  -- `pdu.Unmarshal(b)` with the unit that `pdu` then holds: the bindings are appended to those
  -- that it has, and every other field is set.
  unfoldable pub unmarshal_pdu : PduV1 → Parser PduV1
  unfolding unmarshal_fields unmarshal_bindings is_sequence empty_pdu
  unmarshal_pdu pdu b = do
    (raw, rest) ← a.unmarshal_raw b
    if (raw.class == class_context_specific) && raw.is_compound
        then (do
          (fields, next) ← unmarshal_fields (empty_pdu raw.tag) raw.content
          (vbs, _) ← a.unmarshal_raw next
          if is_sequence vbs
              then (do
                bindings ← unmarshal_bindings (length vbs.content) vbs.content
                ok (record fields { variable_bindings = pdu.variable_bindings ++ bindings }, rest))
              else err asn1)
        else err asn1

  -- `ScopedPdu.Marshal` and `ScopedPdu.Unmarshal`.
  unfoldable pub marshal_scoped : ScopedPdu → Outcome Bytes
  unfolding marshal_pdu
  marshal_scoped pdu = do
    e ← a.marshal_octets pdu.context_engine_id
    n ← a.marshal_octets pdu.context_name
    p ← marshal_pdu pdu.pdu_v1
    a.marshal_raw (sequence (e ++ (n ++ p)))

  unfoldable pub unmarshal_scoped : Parser ScopedPdu
  unfolding unmarshal_pdu is_sequence empty_pdu
  unmarshal_scoped b = do
    (raw, rest) ← a.unmarshal_raw b
    if is_sequence raw
        then (do
          (e, next) ← a.unmarshal_octets raw.content
          (n, next) ← a.unmarshal_octets next
          (p, _) ← unmarshal_pdu (empty_pdu get_request) next
          ok (record { context_engine_id = e; context_name = n; pdu_v1 = p }, rest))
        else err asn1

  unfoldable pub marshal_any : Pdu → Outcome Bytes
  unfolding marshal_pdu marshal_scoped
  marshal_any (v1 p) = marshal_pdu p
  marshal_any (scoped p) = marshal_scoped p

  unfoldable pub unmarshal_any : Pdu → Parser Pdu
  unfolding unmarshal_pdu unmarshal_scoped
  unmarshal_any (v1 p) b = do (q, rest) ← unmarshal_pdu p b; ok (v1 q, rest)
  unmarshal_any (scoped p) b = do (q, rest) ← unmarshal_scoped b; ok (scoped q, rest)
