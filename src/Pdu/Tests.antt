-- ===== src/Pdu/Tests.antt =====
-- Concrete units, and the theorems at them.
use snmpclient.Prelude.{
  ◌≡◌, refl, none, some, List, [], ◌∷◌, ◌++◌, Bytes, ok, err, asn1, arith, Returns, All, ◌⊎◌, inr,
  false, true,
}
use snmpclient.Prelude.Int.{pos}
use snmpclient.Oid.{empty_oid, equal}
use snmpclient.Variable.{counter32}
use snmpclient.Variable.Wire.{marshal}
use snmpclient.Asn1.Sample.{sample, tlv}
use snmpclient.Pdu.{
  VariableBinding, PduV1, ScopedPdu, v1, scoped, empty_pdu, get_response, trap, match_oid,
  new_pdu_with_var_binds,
}
use snmpclient.Pdu.Wire.{
  marshal_pdu, unmarshal_pdu, marshal_scoped, unmarshal_scoped, unmarshal_any,
}
use snmpclient.Pdu.Wire.Items.{IsBinding}
use snmpclient.Pdu.Wire.RoundTrip.{
  carried, unmarshal_pdu-marshal_pdu, unmarshal_scoped-marshal_scoped,
}
use snmpclient.Pdu.Wire.Decode.{unmarshal_any-Returns}
use snmpclient.Pdu.Bindings.{bound, match_oid_lem, new_pdu_with_var_binds_lem}

abbrev ticks : VariableBinding
ticks = record { name = record { value = 1 ∷ 3 ∷ 6 ∷ [] }; variable = some (counter32 7) }

ticks-IsBinding : IsBinding ticks
ticks-IsBinding = ((omega arith, inr (omega arith), omega arith, (omega arith, tt)), omega arith)

abbrev answer : PduV1
answer = record {
  pdu_type = get_response;
  request_id = pos 42;
  error_status = pos 0;
  error_index = pos 0;
  variable_bindings = ticks ∷ [];
  enterprise = empty_oid;
  agent_address = [];
  generic_trap = pos 0;
  specific_trap = pos 0;
  timestamp = pos 0;
}

abbrev answer_bytes : Bytes
answer_bytes =
    162 ∷ 25 ∷ 2 ∷ 2 ∷ 0 ∷ 42 ∷ 2 ∷ 2 ∷ 0 ∷ 0 ∷ 2 ∷ 2 ∷ 0 ∷ 0 ∷ 48 ∷ 11 ∷ 48 ∷ 9 ∷ 6 ∷ 3 ∷ 1 ∷ 3 ∷ 6
    ∷ 65 ∷ 2 ∷ 0 ∷ 7 ∷ []

encoding : marshal_pdu sample answer ≡ ok answer_bytes
unfolding marshal_pdu marshal sample
encoding = refl

unmarshal_pdu-marshal_pdu_example :
    unmarshal_pdu sample (empty_pdu 0) (answer_bytes ++ 9 ∷ [])
    ≡ ok (
      record (carried answer) { variable_bindings = (empty_pdu 0).variable_bindings ++ ticks ∷ [] },
      9 ∷ [],
    )
unmarshal_pdu-marshal_pdu_example =
    unmarshal_pdu-marshal_pdu sample answer (empty_pdu 0) answer_bytes (9 ∷ []) (omega arith) tt
      (ticks-IsBinding, tt) encoding

abbrev scoped_answer : ScopedPdu
scoped_answer = record { context_engine_id = 5 ∷ []; context_name = []; pdu_v1 = answer }

scoped_encoding :
    marshal_scoped sample scoped_answer ≡ ok (48 ∷ 32 ∷ 4 ∷ 1 ∷ 5 ∷ 4 ∷ 0 ∷ answer_bytes)
unfolding marshal_scoped marshal sample
scoped_encoding = refl

unmarshal_scoped-marshal_scoped_example :
    unmarshal_scoped sample ((48 ∷ 32 ∷ 4 ∷ 1 ∷ 5 ∷ 4 ∷ 0 ∷ answer_bytes) ++ [])
    ≡ ok (record scoped_answer { pdu_v1 = carried answer }, [])
unmarshal_scoped-marshal_scoped_example =
    unmarshal_scoped-marshal_scoped sample scoped_answer
      (48 ∷ 32 ∷ 4 ∷ 1 ∷ 5 ∷ 4 ∷ 0 ∷ answer_bytes) [] (omega arith) tt (ticks-IsBinding, tt)
      scoped_encoding

unmarshal_any-Returns_example :
    Returns (unmarshal_any sample (v1 (empty_pdu 0)) (162 ∷ 200 ∷ 2 ∷ []))
unmarshal_any-Returns_example = unmarshal_any-Returns sample (v1 (empty_pdu 0)) (162 ∷ 200 ∷ 2 ∷ [])

cut_short : unmarshal_any sample (v1 (empty_pdu 0)) (162 ∷ 200 ∷ 2 ∷ []) ≡ err asn1
unfolding unmarshal_any sample tlv
cut_short = refl

-- The time stamp of a V1 trap is lost.
abbrev restart : PduV1
restart = record answer { pdu_type = trap; timestamp = pos 99; variable_bindings = [] }

time_lost : (carried restart).timestamp ≡ pos 0
time_lost = refl

match_oid_lem_example :
    ((match_oid empty_oid (ticks ∷ []) ≡ none)
      × All (λ v. equal v.name (some empty_oid) ≡ false) (ticks ∷ []))
    ⊎ ((before : List VariableBinding) × (v : VariableBinding) × (after : List VariableBinding)
        × ((ticks ∷ []) ≡ before ++ v ∷ after)
        × All (λ u. equal u.name (some empty_oid) ≡ false) before
        × (equal v.name (some empty_oid) ≡ true)
        × (match_oid empty_oid (ticks ∷ []) ≡ some v))
match_oid_lem_example = match_oid_lem empty_oid (ticks ∷ [])

new_pdu_with_var_binds_lem_example :
    new_pdu_with_var_binds (pos 3) 0 (ticks ∷ [])
    ≡ ok (
        some (
          scoped (record {
            context_engine_id = [];
            context_name = [];
            pdu_v1 = record (empty_pdu 0) { variable_bindings = bound (ticks ∷ []) };
          })))
new_pdu_with_var_binds_lem_example =
    new_pdu_with_var_binds_lem (pos 3) 0 (ticks ∷ []) (inr (inr refl))
