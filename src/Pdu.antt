-- ===== src/Pdu.antt =====
-- The protocol data units of pdu.go: variable bindings, `PduV1`, `ScopedPdu`, and the `PDU`
-- interface over the two. The encodings are in Pdu/Wire.
pub mod Wire
pub mod Bindings
mod Tests
use snmpclient.Prelude.{
  ℕ, zero, suc, ◌≡◌, Bool, true, false, not, ◌&&◌, ◌||◌, Option, none, some, List, [], ◌∷◌, ◌++◌,
  Bytes, Outcome, ok, err, panic, no_fuel, asn1, ◌>>=◌, length, ◌==◌, if◌then◌else◌,
}
use snmpclient.Prelude.Int.{ℤ, pos, eqb_ℤ}
use snmpclient.Oid.{Oid, new_oid, contains, equal, uniq, empty_oid}
use snmpclient.Variable.{Variable, ipaddress, null}
use snmpclient.Variable.Wire.{marshal, unmarshal_string, unmarshal_variable}
use snmpclient.Asn1.{Asn1, Parser, RawValue, class_universal, class_context_specific, tag_sequence}

-- A nil `Variable` is `none`.
pub record VariableBinding : Type 0 where
  pub name : Oid
  pub variable : Option Variable

pub record PduV1 : Type 0 where
  pub pdu_type : ℕ
  pub request_id : ℤ
  pub error_status : ℤ
  pub error_index : ℤ
  pub variable_bindings : List VariableBinding
  pub enterprise : Oid
  pub agent_address : Bytes
  pub generic_trap : ℤ
  pub specific_trap : ℤ
  pub timestamp : ℤ

pub record ScopedPdu : Type 0 where
  pub context_engine_id : Bytes
  pub context_name : Bytes
  pub pdu_v1 : PduV1

pub data Pdu : Type 0 where
  v1 : PduV1 → Pdu
  scoped : ScopedPdu → Pdu

-- The constants of `PduType` in constants.go.
abbrev pub get_request : ℕ
get_request = 0

abbrev pub get_next_request : ℕ
get_next_request = 1

abbrev pub get_response : ℕ
get_response = 2

abbrev pub set_request : ℕ
set_request = 3

abbrev pub trap : ℕ
trap = 4

abbrev pub get_bulk_request : ℕ
get_bulk_request = 5

abbrev pub inform_request : ℕ
inform_request = 6

abbrev pub snmp_trap_v2 : ℕ
snmp_trap_v2 = 7

abbrev pub report : ℕ
report = 8

-- `PduV1{pduType: t}`.
unfoldable pub empty_pdu : ℕ → PduV1
empty_pdu t = record {
  pdu_type = t;
  request_id = pos 0;
  error_status = pos 0;
  error_index = pos 0;
  variable_bindings = [];
  enterprise = empty_oid;
  agent_address = [];
  generic_trap = pos 0;
  specific_trap = pos 0;
  timestamp = pos 0;
}

-- The unit that both implementations of the interface have.
unfoldable pub base : Pdu → PduV1
base (v1 p) = p
base (scoped p) = p.pdu_v1

unfoldable pub on_base : (PduV1 → PduV1) → Pdu → Pdu
on_base f (v1 p) = v1 (f p)
on_base f (scoped p) = scoped (record p { pdu_v1 = f p.pdu_v1 })

unfoldable pub set_request_id : ℤ → Pdu → Pdu
unfolding on_base
set_request_id i = on_base (λ p. record p { request_id = i })

unfoldable pub set_error_status : ℤ → Pdu → Pdu
unfolding on_base
set_error_status i = on_base (λ p. record p { error_status = i })

unfoldable pub set_error_index : ℤ → Pdu → Pdu
unfolding on_base
set_error_index i = on_base (λ p. record p { error_index = i })

-- A bulk request keeps these two in the places of the error.
unfoldable pub set_nonrepeaters : ℤ → Pdu → Pdu
unfolding on_base
set_nonrepeaters i = on_base (λ p. record p { error_status = i })

unfoldable pub set_max_repetitions : ℤ → Pdu → Pdu
unfolding on_base
set_max_repetitions i = on_base (λ p. record p { error_index = i })

or_null : Option Variable → Variable
or_null none = null
or_null (some v) = v

unfoldable pub append_variable_binding : Oid → Option Variable → Pdu → Pdu
unfolding on_base or_null
append_variable_binding o variable = on_base (λ p. record p {
  variable_bindings =
      p.variable_bindings ++ record { name = o; variable = some (or_null variable) } ∷ [];
})

-- The versions 0, 1 and 3; a nil `PDU` is `none`.
unfoldable pub new_pdu : ℤ → ℕ → Option Pdu
unfolding empty_pdu
new_pdu ver t =
    if eqb_ℤ ver (pos 0) || eqb_ℤ ver (pos 1)
    then some (v1 (empty_pdu t))
    else if eqb_ℤ ver (pos 3)
    then some (scoped (record { context_engine_id = []; context_name = []; pdu_v1 = empty_pdu t }))
    else none

append_oids : List Oid → Pdu → Pdu
unfolding append_variable_binding
append_oids [] p = p
append_oids (o ∷ os) p = append_oids os (append_variable_binding o (some null) p)

append_var_binds : List VariableBinding → Pdu → Pdu
unfolding append_variable_binding
append_var_binds [] p = p
append_var_binds (v ∷ vs) p = append_var_binds vs (append_variable_binding v.name v.variable p)

-- Appending to a nil `PDU` panics, and an empty list leaves it nil.
fill_oids : Option Pdu → List Oid → Outcome (Option Pdu)
unfolding append_oids
fill_oids (some p) oids = ok (some (append_oids oids p))
fill_oids none oids = if length oids == 0 then ok none else panic

fill_var_binds : Option Pdu → List VariableBinding → Outcome (Option Pdu)
unfolding append_var_binds
fill_var_binds (some p) vbs = ok (some (append_var_binds vbs p))
fill_var_binds none vbs = if length vbs == 0 then ok none else panic

unfoldable pub new_pdu_with_oids : ℤ → ℕ → List Oid → Outcome (Option Pdu)
unfolding fill_oids new_pdu
new_pdu_with_oids ver t oids = fill_oids (new_pdu ver t) oids

unfoldable pub new_pdu_with_var_binds : ℤ → ℕ → List VariableBinding → Outcome (Option Pdu)
unfolding fill_var_binds new_pdu
new_pdu_with_var_binds ver t vbs = fill_var_binds (new_pdu ver t) vbs

unfoldable pub match_oid : Oid → List VariableBinding → Option VariableBinding
match_oid o [] = none
match_oid o (v ∷ vs) = let rest = match_oid o vs in if equal v.name (some o) then some v else rest

matching : Oid → List VariableBinding → List VariableBinding
matching prefix [] = []
matching prefix (v ∷ vs) =
    let rest = matching prefix vs in if contains v.name (some prefix) then v ∷ rest else rest

unfoldable pub match_base_oids : Oid → List VariableBinding → List VariableBinding
unfolding matching
match_base_oids prefix vs = if length prefix.value == 0 then [] else matching prefix vs

same_oid : VariableBinding → VariableBinding → Bool
same_oid x y = equal y.name (some x.name)

unfoldable pub uniq_bindings : List VariableBinding → List VariableBinding
unfolding same_oid
uniq_bindings = uniq same_oid (record { name = empty_oid; variable = none })
