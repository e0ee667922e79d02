-- ===== src/MessageV3/Exchange.antt =====
-- Which answers `messageProcessingV3.PrepareDataElements` accepts (message.go, security.go).
use snmpclient.Prelude.{
  ◌≡◌, ◌⊎◌, inl, inr, refl, ap, sym, ◌∙◌, Bool, true, false, not, ◌&&◌, Option, none, some, ◌++◌,
  Bytes, Outcome, ok, err, panic, response, ◌>>=◌, >>=-elim, arith, All, ◌==◌, ==_iff, &&_both,
  if◌then◌else◌, ℕ,
}
use snmpclient.Prelude.Int.{ℤ, pos, eqb_ℤ}
use snmpclient.Client.{ClientArguments}
use snmpclient.Asn1.{Asn1}
use snmpclient.Pdu.{ScopedPdu, Pdu, scoped, base, get_response, report}
use snmpclient.Pdu.Wire.Items.{IsBinding}
use snmpclient.Pdu.Wire.RoundTrip.{carried, response-NamesEnterprise}
use snmpclient.Message.{as_response}
use snmpclient.Message.Exchange.{
  as_response-eq-ok, eqb_eq, eqb_refl, passed, negated, carried-request_id,
}
use snmpclient.MessageV3.{
  GlobalDataV3, MessageV3, security_usm, reportable, new_message_v3, marshal_message_v3,
  unmarshal_message_v3,
}
use snmpclient.MessageV3.RoundTrip.{unmarshal_message_v3-marshal_message_v3}
use snmpclient.MessageV3.Processing.{new_scoped, check_pdu_v3, accept_v3, prepare_data_elements_v3}
use snmpclient.Usm.{Usm}
use snmpclient.Usm.Crypto.{Crypto}
use snmpclient.Usm.Requests.{with_context, generate_request_v3, bad_engine, process_incoming_v3}
use snmpclient.Usm.Requests.Secured.{generated, IsReceived, process_incoming_v3-generate_request_v3}
use mathlib.Core.Path.{subst}

-- The unit `p` answers the request: it is a response with the request id sent, or a report to a
-- message that was reportable.
abbrev pub Answers : GlobalDataV3 → Option Pdu → Pdu → Type 0
Answers header sent p =
    (((base p).pdu_type ≡ get_response)
      × ((request : Pdu) × (sent ≡ some request)
          × ((base request).request_id ≡ (base p).request_id)))
    ⊎ (((base p).pdu_type ≡ report) × (reportable header ≡ true))

-- What an accepted answer `p` to the message `sent` is: `b` holds a message with the version and
-- the identifier sent and the user-based security model, whose security parameters are in range,
-- from which `ProcessIncomingMessage` makes `p`.
pub record IsAnswerV3 (c : Crypto) (a : Asn1) (args : ClientArguments) (u : Usm) (sent : MessageV3)
    (b : Bytes) (p : Pdu) : Type 0 where
  pub received : MessageV3
  pub processed : MessageV3
  pub behind : Bytes
  pub message_read :
      unmarshal_message_v3 a (new_message_v3 args.version (scoped new_scoped)) b
      ≡ ok (received, behind)
  pub same_version : sent.message.version ≡ received.message.version
  pub same_id : sent.global.message_id ≡ received.global.message_id
  pub model : received.global.security_model ≡ pos security_usm
  pub engine_in_range : bad_engine received ≡ false
  pub opened : process_incoming_v3 c a args u received ≡ ok processed
  pub unit_read : processed.message.pdu ≡ some p
  pub answers : Answers sent.global sent.message.pdu p

some_ok : (q p : Pdu) → ◌≡◌ {A = Outcome Pdu} (ok q) (ok p) → q ≡ p
some_ok q p h = ground arith

-- The tests of the type and of the request id, on what they come to.
tested :
    (is_response apart taken : Bool) (q p : Pdu)
    → (if is_response
        then (if apart then err response else ok q)
        else if taken
        then ok q
        else err response)
      ≡ ok p
    → (q ≡ p) × (((is_response ≡ true) × (apart ≡ false)) ⊎ (taken ≡ true))
tested true true taken q p h = ground arith
tested true false taken q p h = (some_ok q p h, inl (refl, refl))
tested false apart true q p h = (some_ok q p h, inr refl)
tested false apart false q p h = ground arith

tested_none :
    (is_response taken : Bool) (q p : Pdu)
    → (if is_response then panic else if taken then ok q else err response) ≡ ok p
    → (q ≡ p) × (taken ≡ true)
tested_none true taken q p h = ground arith
tested_none false true q p h = (some_ok q p h, refl)
tested_none false false q p h = ground arith

-- A report that is taken.
reported :
    (header : GlobalDataV3) (sent : Option Pdu) (q : Pdu)
    → (((base q).pdu_type == report) && reportable header) ≡ true
    → Answers header sent q
reported header sent q h =
    let (kind, flag) = &&_both _ _ h in inr ((==_iff (base q).pdu_type report).0 kind, flag)

answered :
    (header : GlobalDataV3) (x q : Pdu)
    → ((base q).pdu_type == get_response) ≡ true
    → not (eqb_ℤ (base x).request_id (base q).request_id) ≡ false
    → Answers header (some x) q
answered header x q kind same =
    inl ((==_iff (base q).pdu_type get_response).0 kind, (x, refl, eqb_eq _ _ (negated _ same)))

check_pdu_v3_ok :
    (header : GlobalDataV3) (sent r : Option Pdu) (p : Pdu)
    → check_pdu_v3 header sent r ≡ ok p
    → (r ≡ some p) × Answers header sent p
unfolding check_pdu_v3
check_pdu_v3_ok header (some x) none p h = ground arith
check_pdu_v3_ok header none none p h = ground arith
check_pdu_v3_ok header (some x) (some q) p h =
    let (same, which) =
      tested ((base q).pdu_type == get_response)
        (not (eqb_ℤ (base x).request_id (base q).request_id))
        (((base q).pdu_type == report) && reportable header) q p h in
    let answers : Answers header (some x) q = elim which [
      | inl (kind, id) ↦ answered header x q kind id
      | inr taken ↦ reported header (some x) q taken
    ] in
    (ap some same, subst (λ r. Answers header (some x) r) same answers)
check_pdu_v3_ok header none (some q) p h =
    let (same, taken) =
      tested_none ((base q).pdu_type == get_response)
        (((base q).pdu_type == report) && reportable header) q p h in
    (ap some same, subst (λ r. Answers header none r) same (reported header none q taken))

checked_response :
    (header : GlobalDataV3) (x q : Pdu)
    → (base q).pdu_type ≡ get_response
    → (base x).request_id ≡ (base q).request_id
    → check_pdu_v3 header (some x) (some q) ≡ ok q
unfolding check_pdu_v3
checked_response header x q kind id = rw (kind, id, eqb_refl (base q).request_id)

guards :
    (x y z : Bool) (body : Outcome Pdu)
    → x ≡ true
    → y ≡ true
    → z ≡ true
    → (if not x
        then err response
        else if not y
        then err response
        else if not z
        then err response
        else body)
      ≡ body
guards x y z body hx hy hz = rw (hx, hy, hz) refl

eqb_of : (i j : ℤ) → i ≡ j → eqb_ℤ i j ≡ true
eqb_of i j e = rw e (eqb_refl j)

module _ (c : Crypto) (a : Asn1) where
  in_range :
      (args : ClientArguments) (u : Usm) (r d : MessageV3)
      → process_incoming_v3 c a args u r ≡ ok d
      → bad_engine r ≡ false
  unfolding process_incoming_v3
  in_range args u r d h = (passed (bad_engine r) _ h).0

  -- With V3, `PrepareDataElements` accepts only an answer: a message of the version and with the
  -- identifier sent, under the user-based security model and with security parameters in range,
  -- that opens to the unit it returns, which is a response with the request id sent, or a report
  -- if the message sent was reportable.
  pub prepare_data_elements_v3-IsAnswerV3 :
      (args : ClientArguments) (u : Usm) (sent : MessageV3) (b : Bytes) (p : Pdu)
      → prepare_data_elements_v3 c a args u sent b ≡ ok p
      → IsAnswerV3 c a args u sent b p
  unfolding prepare_data_elements_v3 accept_v3
  prepare_data_elements_v3-IsAnswerV3 args u sent b p h =
      let n : MessageV3 = new_message_v3 args.version (scoped new_scoped) in
      >>=-elim (as_response (unmarshal_message_v3 a n b)) _ h (λ x e h1.
        let r : MessageV3 = x.0 in
        let (version, h2) = passed (not (eqb_ℤ sent.message.version r.message.version)) _ h1 in
        let (id, h3) = passed (not (eqb_ℤ sent.global.message_id r.global.message_id)) _ h2 in
        let (model, h4) = passed (not (eqb_ℤ r.global.security_model (pos security_usm))) _ h3 in
        >>=-elim (process_incoming_v3 c a args u r) _ h4 (λ d opened h5.
          let (unit_read, answers) =
            check_pdu_v3_ok sent.global sent.message.pdu d.message.pdu p h5 in
          record {
            received = r;
            processed = d;
            behind = x.1;
            message_read = as_response-eq-ok (unmarshal_message_v3 a n b) e;
            same_version = eqb_eq _ _ (negated _ version);
            same_id = eqb_eq _ _ (negated _ id);
            model = eqb_eq _ _ (negated _ model);
            engine_in_range = in_range args u r d opened;
            opened = opened;
            unit_read = unit_read;
            answers = answers;
          }))

  accepted :
      (args : ClientArguments) (u : Usm) (sent r d : MessageV3) (p : Pdu)
      → sent.message.version ≡ r.message.version
      → sent.global.message_id ≡ r.global.message_id
      → r.global.security_model ≡ pos security_usm
      → process_incoming_v3 c a args u r ≡ ok d
      → check_pdu_v3 sent.global sent.message.pdu d.message.pdu ≡ ok p
      → accept_v3 c a args u sent r ≡ ok p
  unfolding accept_v3
  accepted args u sent r d p version id model processed answer =
      guards (eqb_ℤ sent.message.version r.message.version)
        (eqb_ℤ sent.global.message_id r.global.message_id)
        (eqb_ℤ r.global.security_model (pos security_usm)) _ (eqb_of _ _ version) (eqb_of _ _ id)
        (eqb_of _ _ model)
      ∙ ap (λ o. o >>= λ v. check_pdu_v3 sent.global sent.message.pdu v.message.pdu) processed
      ∙ answer

  -- An answer that the same code writes at the peer is accepted, at every level and with each of
  -- the protocols: the peer, whose engine identifier is the one that the client keeps, generates a
  -- message `e` of the version sent for a response unit `p` with the request id sent; the engine's
  -- numbers are in range, and an encoding carries each binding: it has a variable in the range of
  -- its Go type, and every identifier has at least two sub-identifiers, the first at most 2 and the
  -- second below 40 if the first is not 2, whose numbers fit in an int. The client gets the unit,
  -- in the context that the arguments ask for, whatever bytes follow the message.
  pub answer_accepted_v3 :
      (args : ClientArguments) (u peer : Usm) (now : ℕ) (salt : ℤ) (sent m e : MessageV3) (s : Pdu)
      (p : ScopedPdu) (b r : Bytes)
      → generate_request_v3 c a args peer now salt m ≡ ok e
      → marshal_message_v3 a e ≡ ok b
      → bad_engine e ≡ false
      → m.message.pdu ≡ some (scoped p)
      → p.pdu_v1.pdu_type ≡ get_response
      → All IsBinding p.pdu_v1.variable_bindings
      → u.auth_engine_id ≡ peer.auth_engine_id
      → sent.message.version ≡ m.message.version
      → sent.global.message_id ≡ p.pdu_v1.request_id
      → sent.message.pdu ≡ some s
      → (base s).request_id ≡ p.pdu_v1.request_id
      → prepare_data_elements_v3 c a args u sent (b ++ r)
        ≡ ok (
            scoped (record (with_context args peer.auth_engine_id p) { pdu_v1 = carried p.pdu_v1 }))
  unfolding prepare_data_elements_v3 as_response base new_message_v3
  answer_accepted_v3 args u peer now salt sent m e s p b r made written good held kind bound engine
        version id unit request =
      let n : MessageV3 = new_message_v3 args.version (scoped new_scoped) in
      let w : MessageV3 = record e {
        message = record n.message { version = e.message.version; pdu_bytes = e.message.pdu_bytes };
      } in
      let read = unmarshal_message_v3-marshal_message_v3 a e n b r written in
      let (ei, em, ev) = generated c a args peer now salt m e p made held in
      let is : IsReceived e w = record {
        same_authentication = refl;
        same_privacy = refl;
        same_security = refl;
        same_bytes = refl;
      } in
      let (x, opened, holds) =
        process_incoming_v3-generate_request_v3 c a args peer u now salt m e w p new_scoped made
          held (omega (arith, kind)) (response-NamesEnterprise p.pdu_v1 kind) bound engine is refl
          good in
      let q : ScopedPdu = record (with_context args peer.auth_engine_id p) {
        pdu_v1 = carried p.pdu_v1;
      } in
      let answer =
        ap (λ o. check_pdu_v3 sent.global o x.message.pdu) unit
        ∙ ap (λ o. check_pdu_v3 sent.global (some s) o) holds
        ∙ checked_response sent.global s (scoped q) kind
            (request ∙ sym (carried-request_id p.pdu_v1 kind)) in
      ap (λ o. as_response o >>= λ y. accept_v3 c a args u sent y.0) read
      ∙ accepted args u sent w x (scoped q) (version ∙ sym ev) (id ∙ sym ei) em opened answer
