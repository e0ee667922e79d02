-- ===== src/Simulator.antt =====
-- The answers of the simulator: `GetValueByOid`, `GetNextValueByOid` and the bindings of `on_v2` in
-- udp_server.go. The tree of mib_tree.go is the parameter `MibTree`.
pub mod Walk
pub mod Serve
pub mod Load
pub mod Values
pub mod Stored
pub mod Answers
mod Total
mod Tests
mod LoadTests
use snmpclient.Prelude.{
  ℕ, zero, suc, ◌≡◌, Bool, true, false, Option, none, some, List, [], ◌∷◌, ◌==◌, if◌then◌else◌,
}
use snmpclient.Prelude.Int.{ℤ, pos, ltb_ℤ, eqb_ℤ}
use snmpclient.Oid.{Oid, compare_oid_and_value}
use snmpclient.Variable.{Variable}
use snmpclient.Pdu.{
  VariableBinding, PduV1, Pdu, v1, get_request, get_next_request, get_response, empty_pdu,
  append_variable_binding, set_error_status, set_request_id,
}

-- `OidAndValue`.
pub record OidAndValue : Type 0 where
  pub oid : Oid
  pub value : Variable

-- The first item is before the second in the order of the tree.
unfoldable pub before : Oid → Oid → Bool
before a b = ltb_ℤ (compare_oid_and_value a b) (pos 0)

-- The items that are not before `o`, in a list in order.
unfoldable pub from : Oid → List OidAndValue → List OidAndValue
unfolding before
from o [] = []
from o (x ∷ xs) = let rest = from o xs in if before x.oid o then rest else x ∷ xs

-- What the simulator uses of the tree: its items in order, and an iterator as the items from it
-- on, which is empty at the limit.
pub record MibTree : Type 0 where
  pub items : List OidAndValue
  pub get : Oid → Option OidAndValue
  pub find_ge : Oid → List OidAndValue
  pub find_ge_lem : (o : Oid) → find_ge o ≡ from o items

unfoldable pub first : List OidAndValue → Option OidAndValue
first [] = none
first (x ∷ xs) = some x

-- `GetNextValueByOid` behind `FindGE`.
unfoldable pub past : Oid → List OidAndValue → Option OidAndValue
unfolding first
past o [] = none
past o (x ∷ xs) = if eqb_ℤ (compare_oid_and_value o x.oid) (pos 0) then first xs else some x

unfoldable pub follow : (Oid → List OidAndValue) → Option OidAndValue → List OidAndValue
follow go none = []
follow go (some x) = x ∷ go x.oid

module _ (mibs : MibTree) where
  unfoldable pub get_value_by_oid : Oid → Option Variable
  get_value_by_oid o = elim (mibs.get o) [ none ↦ none | some x ↦ some x.value ]

  unfoldable pub get_next_value_by_oid : Oid → Option OidAndValue
  unfolding past
  get_next_value_by_oid o = past o (mibs.find_ge o)

  -- The loop of a GetRequest: a missing value is skipped, or ends the loop with `NoSuchName`.
  unfoldable pub get_all : Bool → List VariableBinding → Pdu → Pdu
  unfolding append_variable_binding set_error_status
  get_all strict [] pdu = pdu
  get_all strict (vb ∷ vbs) pdu = elim (get_value_by_oid vb.name) [
    | some v ↦ get_all strict vbs (append_variable_binding vb.name (some v) pdu)
    | none ↦ elim strict [ true ↦ set_error_status (pos 2) pdu | false ↦ get_all strict vbs pdu ]
  ]

  -- The loop of a GetNextRequest.
  unfoldable pub get_next_all : List VariableBinding → Pdu → Pdu
  unfolding append_variable_binding
  get_next_all [] pdu = pdu
  get_next_all (vb ∷ vbs) pdu = elim (get_next_value_by_oid vb.name) [
    | some x ↦ get_next_all vbs (append_variable_binding x.oid (some x.value) pdu)
    | none ↦ get_next_all vbs pdu
  ]

  -- The unit that `on_v2` answers `request` with.
  unfoldable pub on_v2 : Bool → PduV1 → Pdu
  unfolding empty_pdu get_all get_next_all
  on_v2 strict request =
      let pdu : Pdu = v1 (record (empty_pdu get_response) { request_id = request.request_id }) in
      if request.pdu_type == get_request
      then get_all strict request.variable_bindings pdu
      else if request.pdu_type == get_next_request
      then get_next_all request.variable_bindings pdu
      else pdu

  -- A client that asks for the next item after the one that it has got, up to `n` times.
  unfoldable pub walk : ℕ → Oid → List OidAndValue
  unfolding follow
  walk zero o = []
  walk (suc n) o = follow (λ p. walk n p) (get_next_value_by_oid o)
