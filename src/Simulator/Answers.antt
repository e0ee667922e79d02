-- ===== src/Simulator/Answers.antt =====
-- Requests of the client and the answers of `UdpServer` to them (message.go, udp_server.go), and
-- that no datagram makes the server panic.
use snmpclient.Prelude.{
  ◌<◌, ◌≡◌, refl, sym, ap, ◌∙◌, Bool, true, false, none, some, List, [], ◌∷◌, ◌++◌, Bytes, ok,
  ◌>>=◌, >>=-elim, All, ◌==◌, if◌then◌else◌, arith,
}
use snmpclient.Prelude.Int.{ℤ, pos, eqb_ℤ}
use snmpclient.Asn1.{Asn1}
use snmpclient.Pdu.{
  VariableBinding, PduV1, Pdu, v1, base, empty_pdu, get_request, get_next_request, get_response,
  trap, append_variable_binding, set_error_status,
}
use snmpclient.Pdu.Wire.{sequence, is_sequence, marshal_pdu}
use snmpclient.Pdu.Wire.Items.{IsBinding}
use snmpclient.Pdu.Wire.RoundTrip.{NamesEnterprise, plain-NamesEnterprise, carried}
use snmpclient.Message.{
  MessageV1, Arguments, new_message, marshal_message, prepare_outgoing_message,
  prepare_data_elements,
}
use snmpclient.Message.Exchange.{answer_accepted}
use snmpclient.Message.Requests.{generated, prepared, processed}
use snmpclient.Simulator.{
  MibTree, on_v2, get_all, get_next_all, get_value_by_oid, get_next_value_by_oid,
}
use snmpclient.Simulator.Serve.{
  UdpServer, mibs_for, unanswered, write_answer, answer_request, read_request, on_datagram,
}

-- A response unit with the request id `i`.
abbrev pub IsReply : ℤ → Pdu → Type 0
IsReply i pdu = (q : PduV1) × (pdu ≡ v1 q) × (q.pdu_type ≡ get_response) × (q.request_id ≡ i)

appended :
    (i : ℤ) (o : _) (v : _) (pdu : Pdu)
    → IsReply i pdu
    → IsReply i (append_variable_binding o v pdu)
unfolding append_variable_binding
appended i o v pdu (q, e, kind, id) = (_, ap (append_variable_binding o v) e, kind, id)

refused : (i : ℤ) (pdu : Pdu) → IsReply i pdu → IsReply i (set_error_status (pos 2) pdu)
unfolding set_error_status
refused i pdu (q, e, kind, id) = (_, ap (set_error_status (pos 2)) e, kind, id)

module _ (mibs : MibTree) where
  get_all-IsReply :
      (i : ℤ) (strict : Bool) (vs : List VariableBinding) (pdu : Pdu)
      → IsReply i pdu
      → IsReply i (get_all mibs strict vs pdu)
  unfolding get_all
  get_all-IsReply i strict [] pdu h = h
  get_all-IsReply i true (v ∷ vs) pdu h =
      elim (get_value_by_oid mibs v.name)
        as (λ m. IsReply i (elim m [
          | some x ↦ get_all mibs true vs (append_variable_binding v.name (some x) pdu)
          | none ↦ set_error_status (pos 2) pdu
        ])) [
          | some x ↦ get_all-IsReply i true vs _ (appended i v.name (some x) pdu h)
          | none ↦ refused i pdu h
        ]
  get_all-IsReply i false (v ∷ vs) pdu h =
      elim (get_value_by_oid mibs v.name)
        as (λ m. IsReply i (elim m [
          | some x ↦ get_all mibs false vs (append_variable_binding v.name (some x) pdu)
          | none ↦ get_all mibs false vs pdu
        ])) [
          | some x ↦ get_all-IsReply i false vs _ (appended i v.name (some x) pdu h)
          | none ↦ get_all-IsReply i false vs pdu h
        ]

  get_next_all-IsReply :
      (i : ℤ) (vs : List VariableBinding) (pdu : Pdu)
      → IsReply i pdu
      → IsReply i (get_next_all mibs vs pdu)
  unfolding get_next_all
  get_next_all-IsReply i [] pdu h = h
  get_next_all-IsReply i (v ∷ vs) pdu h =
      elim (get_next_value_by_oid mibs v.name)
        as (λ m. IsReply i (elim m [
          | some x ↦ get_next_all mibs vs (append_variable_binding x.oid (some x.value) pdu)
          | none ↦ get_next_all mibs vs pdu
        ])) [
          | some x ↦ get_next_all-IsReply i vs _ (appended i x.oid (some x.value) pdu h)
          | none ↦ get_next_all-IsReply i vs pdu h
        ]

  pub on_v2-IsReply : (strict : Bool) (p : PduV1) → IsReply p.request_id (on_v2 mibs strict p)
  unfolding on_v2 empty_pdu
  on_v2-IsReply strict p = by_type (p.pdu_type == get_request) (p.pdu_type == get_next_request)
    where
      start : PduV1
      start = record (empty_pdu get_response) { request_id = p.request_id }

      by_type :
          (get next : Bool)
          → IsReply p.request_id (
              if get
              then get_all mibs strict p.variable_bindings (v1 start)
              else if next
              then get_next_all mibs p.variable_bindings (v1 start)
              else v1 start)
      by_type true next =
          get_all-IsReply p.request_id strict p.variable_bindings (v1 start)
            (start, refl, refl, refl)
      by_type false true =
          get_next_all-IsReply p.request_id p.variable_bindings (v1 start) (start, refl, refl, refl)
      by_type false false = (start, refl, refl, refl)

unit_of :
    {i : ℤ} {pdu : Pdu} (q : PduV1)
    → IsReply i pdu
    → pdu ≡ v1 q
    → (q.pdu_type ≡ get_response) × (q.request_id ≡ i)
unfolding base
unit_of q (q1, e, kind, id) h =
    let same : q ≡ q1 = ap base (sym h ∙ e) in
    (ap (λ x. x.pdu_type) same ∙ kind, ap (λ x. x.request_id) same ∙ id)

module _ (a : Asn1) where
  -- The bytes of an answer, for a unit that the codec writes.
  answer_written :
      (version : ℤ) (q : PduV1) (pb reply : Bytes)
      → marshal_pdu a q ≡ ok pb
      → marshal_message a
          (record { version = version; community = []; pdu_bytes = pb; pdu = some (v1 q) })
        ≡ ok reply
      → write_answer a version (v1 q) ≡ ok (some reply)
  unfolding write_answer new_message
  answer_written version q pb reply unit_written written =
      ap (λ o. o >>= λ res. marshal_message a res >>= λ b. ok (some b))
        (generated a (record { version = pos 0; community = [] }) version q pb unit_written)
      ∙ ap (λ o. o >>= λ b. ok (some b)) written

  -- What the server does with a unit that is written in a message of another version than V3.
  request_read :
      (s : UdpServer) (version : ℤ) (c pb b r : Bytes) (p : PduV1)
      → eqb_ℤ version (pos 3) ≡ false
      → p.pdu_type < 31
      → NamesEnterprise p
      → All IsBinding p.variable_bindings
      → marshal_pdu a p ≡ ok pb
      → marshal_message a
          (record { version = version; community = c; pdu_bytes = pb; pdu = some (v1 p) })
        ≡ ok b
      → on_datagram a s (b ++ r)
        ≡ unanswered (
            answer_request a s (record {
              version = version;
              community = c;
              pdu_bytes = pb;
              pdu = some (v1 (carried p));
            }))
  unfolding on_datagram read_request marshal_message is_sequence
  request_read s version c pb b r p old fits named bound unit_written written =
      >>=-elim (a.marshal_int version) _ written (λ v mv h1.
        >>=-elim (a.marshal_octets c) _ h1 (λ o mo h2.
          rw
            (
              a.raw_back (sequence (v ++ (o ++ pb))) b r (omega arith) (omega arith) h2,
              a.int_back version v (o ++ pb) mv,
              old,
              a.octets_back c o pb mo,
              processed a version c pb p fits named bound unit_written,
            )
            refl))

  answer_made :
      (s : UdpServer) (mibs : MibTree) (version : ℤ) (c qb pb reply : Bytes) (p q : PduV1)
      → mibs_for s c ≡ some mibs
      → (p.pdu_type == trap) ≡ false
      → on_v2 mibs s.strict p ≡ v1 q
      → marshal_pdu a q ≡ ok pb
      → marshal_message a
          (record { version = version; community = []; pdu_bytes = pb; pdu = some (v1 q) })
        ≡ ok reply
      → answer_request a s
          (record { version = version; community = c; pdu_bytes = qb; pdu = some (v1 (carried p)) })
        ≡ ok (some reply)
  unfolding answer_request base
  answer_made s mibs version c qb pb reply p q tree plain answer unit_written written =
      rw (tree, answer_request, plain)
        (ap (write_answer a version) answer
          ∙ answer_written version q pb reply unit_written written)

  -- A request of a client and the answer of the server to it. The client prepares a message for a
  -- unit that is no trap, of a type below 31, in another version than that of V3, and the community
  -- of its arguments has a tree. The server answers with `q`, the unit of `on_v2` for that tree and
  -- the number that the client has drawn, if the codec writes `q`, and the client takes `q` as the
  -- answer to its message, whatever bytes follow the datagrams in the receive buffers. Of both
  -- units an encoding carries each binding: it has a variable in the range of its Go type, and
  -- every identifier has at least two sub-identifiers, the first at most 2 and the second below 40
  -- if the first is not 2, whose numbers fit in an int.
  pub request_answered :
      (s : UdpServer) (mibs : MibTree) (args : Arguments) (id : ℤ) (p q : PduV1) (sent : MessageV1)
      (b r pb reply r2 : Bytes)
      → eqb_ℤ args.version (pos 3) ≡ false
      → mibs_for s args.community ≡ some mibs
      → p.pdu_type < 31
      → (p.pdu_type == trap) ≡ false
      → All IsBinding p.variable_bindings
      → prepare_outgoing_message a id args (v1 p) ≡ ok sent
      → marshal_message a sent ≡ ok b
      → on_v2 mibs s.strict (record p { request_id = id }) ≡ v1 q
      → All IsBinding q.variable_bindings
      → marshal_pdu a q ≡ ok pb
      → marshal_message a
          (record { version = args.version; community = []; pdu_bytes = pb; pdu = some (v1 q) })
        ≡ ok reply
      → (on_datagram a s (b ++ r) ≡ ok (some reply))
        × (prepare_data_elements a args sent (reply ++ r2) ≡ ok (v1 (carried q)))
  unfolding marshal_message base unanswered
  request_answered s mibs args id p q sent b r pb reply r2 old tree fits plain bound prepare send
        answer in_range unit_written written =
      let drawn : PduV1 = record p { request_id = id } in
      let (qb, request_written, sent_eq) = prepared a id args p sent prepare in
      let (kind, same_id) = unit_of q (on_v2-IsReply mibs s.strict drawn) answer in
      (
        request_read s args.version args.community qb b r drawn old fits
              (plain-NamesEnterprise drawn plain) bound request_written
              (ap (marshal_message a) (sym sent_eq) ∙ send)
            ∙ ap unanswered (
                answer_made s mibs args.version args.community qb pb reply drawn q tree plain answer
                  unit_written written),
        answer_accepted a args sent (v1 drawn) q [] pb reply r2 (ap (λ m. m.version) sent_eq)
            (ap (λ m. m.pdu) sent_eq) kind (sym same_id) in_range unit_written written,
      )
