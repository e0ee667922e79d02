-- ===== src/Simulator/Serve.antt =====
-- `UdpServer` of udp_server.go: the loop of `serve`, the choice of the tree by the community in
-- `on_v2`, and the bytes of the answer.
use snmpclient.Prelude.{
  bytes_eq, ℕ, suc, ◌%◌, Bool, ◌&&◌, ◌||◌, Option, none, some, List, [], ◌∷◌, Bytes, Outcome, ok,
  err, panic, no_fuel, asn1, ◌>>=◌, ◌==◌, if◌then◌else◌, is_empty,
}
use snmpclient.Prelude.Int.{ℤ, pos, pos_part, ltb_ℤ, eqb_ℤ}
use snmpclient.Asn1.{Asn1}
use snmpclient.Pdu.{Pdu, v1, base, empty_pdu, get_request}
use snmpclient.Pdu.Wire.{is_sequence}
use snmpclient.Message.{
  MessageV1, marshal_message, unmarshal_message, generate_request_message, process_incoming_message,
}
use snmpclient.Simulator.{MibTree, on_v2}

-- The fields that `serve` and `on_v2` read; `strict` is `return_error_if_oid_not_exists`.
pub record UdpServer : Type 0 where
  pub miss : ℤ
  pub strict : Bool
  pub community : Bytes
  pub mibs : MibTree
  pub mibs_by_engine : Bytes → Option MibTree

-- The tree for the community of a message.
unfoldable pub mibs_for : UdpServer → Bytes → Option MibTree
mibs_for s c = elim (s.mibs_by_engine c) [
  | some mibs ↦ some mibs
  | none ↦ if is_empty s.community || bytes_eq s.community c then some s.mibs else none
]

-- Every datagram whose number is a multiple of `miss` is dropped, for a `miss` above 1.
unfoldable pub missed : UdpServer → ℕ → Bool
missed s count = ltb_ℤ (pos 1) s.miss && ((count % pos_part s.miss) == 0)

-- An error is logged, and nothing is written.
unfoldable pub unanswered : Outcome (Option Bytes) → Outcome (Option Bytes)
unanswered (err e) = ok none
unanswered (ok b) = ok b
unanswered panic = panic
unanswered no_fuel = no_fuel

module _ (a : Asn1) where
  -- `on_v2` behind the loops: the answer has the version of the request and no community.
  unfoldable pub write_answer : ℤ → Pdu → Outcome (Option Bytes)
  unfolding generate_request_message marshal_message
  write_answer version pdu = do
    res ←
        generate_request_message a (record { version = pos 0; community = [] })
          (record { version = version; community = []; pdu_bytes = []; pdu = some pdu })
    b ← marshal_message a res
    ok (some b)

  unfoldable pub answer_request : UdpServer → MessageV1 → Outcome (Option Bytes)
  unfolding write_answer on_v2 base
  answer_request s m = elim (mibs_for s m.community) [
    | none ↦ ok none
    | some mibs ↦ elim m.pdu [
      | none ↦ panic
      | some pdu ↦ write_answer m.version (on_v2 mibs s.strict (base pdu))
    ]
  ]

  -- A datagram of V1 or V2c.
  unfoldable pub read_request : UdpServer → ℤ → Bytes → Outcome (Option Bytes)
  unfolding unmarshal_message process_incoming_message answer_request empty_pdu
  read_request s version b = do
    (m, _) ←
        unmarshal_message a
          (record {
            version = version;
            community = [];
            pdu_bytes = [];
            pdu = some (v1 (empty_pdu get_request));
          })
          b
    p ← process_incoming_message a m
    answer_request s p

  -- The function that `serve` calls on a datagram, with the bytes that it writes back.
  unfoldable pub on_datagram : UdpServer → Bytes → Outcome (Option Bytes)
  unfolding is_sequence read_request unanswered
  on_datagram s b = unanswered (do
    (raw, _) ← a.unmarshal_raw b
    if is_sequence raw
        then (do
          (version, _) ← a.unmarshal_int raw.content
          if eqb_ℤ version (pos 3) then ok none else read_request s version b)
        else err asn1)

  -- The loop of `serve`, behind `count` datagrams: what is written for each of the next ones.
  unfoldable pub serve_all : UdpServer → ℕ → List Bytes → Outcome (List (Option Bytes))
  unfolding missed on_datagram
  serve_all s count [] = ok []
  serve_all s count (b ∷ bs) = do
    r ← if missed s (suc count) then ok none else on_datagram s b
    rs ← serve_all s (suc count) bs
    ok (r ∷ rs)
