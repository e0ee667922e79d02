-- ===== src/Message/Exchange.antt =====
-- Which answers `PrepareDataElements` accepts (message.go, security.go).
use snmpclient.Prelude.{
  ◌+◌, ◌≡◌, refl, ap, sym, ◌∙◌, Bool, true, false, not, Option, none, some, [], ◌++◌, Bytes,
  Outcome, ok, err, panic, no_fuel, response, ◌>>=◌, >>=-elim, arith, All, ◌==◌, ==_iff, ==_refl,
  if◌then◌else◌, append-nil,
}
use snmpclient.Prelude.Int.{ℤ, pos_part, neg_part, eqb_ℤ, eq_of_parts}
use snmpclient.Asn1.{Asn1}
use snmpclient.Pdu.{PduV1, Pdu, v1, base, empty_pdu, get_request, get_response}
use snmpclient.Pdu.Wire.{is_sequence, unmarshal_any, marshal_pdu, unmarshal_pdu}
use snmpclient.Pdu.Wire.Items.{IsBinding}
use snmpclient.Pdu.Wire.RoundTrip.{carried, response-NamesEnterprise, unmarshal_pdu-marshal_pdu}
use snmpclient.Pdu.Wire.Decode.{guarded-eq-ok}
use snmpclient.Message.{
  MessageV1, Arguments, new_message, as_response, marshal_message, unmarshal_message, read_own,
  process_incoming_message, check_request_id, check_answer, accept, prepare_data_elements,
}
use snmpclient.Message.RoundTrip.{unmarshal_message-marshal_message}

pub as_response-eq-ok : {A : Type 0} (m : Outcome A) {x : A} → as_response m ≡ ok x → m ≡ ok x
unfolding as_response
as_response-eq-ok (ok y) h = h
as_response-eq-ok (err e) h = ground arith
as_response-eq-ok panic h = ground arith
as_response-eq-ok no_fuel h = ground arith

pub eqb_eq : (i j : ℤ) → eqb_ℤ i j ≡ true → i ≡ j
eqb_eq i j h = eq_of_parts i j ((==_iff (pos_part i + neg_part j) (pos_part j + neg_part i)).0 h)

pub eqb_refl : (i : ℤ) → eqb_ℤ i i ≡ true
eqb_refl i = ==_refl (pos_part i + neg_part i)

-- The branch of a guard that does not return an error.
pub passed :
    {A : Type 0} (failed : Bool) (body : Outcome A) {x : A}
    → (if failed then err response else body) ≡ ok x
    → (failed ≡ false) × (body ≡ ok x)
passed false body h = (refl, h)
passed true body h = ground arith

pub negated : (b : Bool) → not b ≡ false → b ≡ true
negated true h = refl
negated false h = ground arith

-- What an accepted answer `p` to the message `sent` is: `b` holds a message of the version sent,
-- whose bytes hold the unit `p`, a response with the request id sent.
pub record IsAnswer (a : Asn1) (args : Arguments) (sent : MessageV1) (b : Bytes) (p : Pdu)
    : Type 0 where
  pub received : MessageV1
  pub behind : Bytes
  pub behind_pdu : Bytes
  pub request : Pdu
  pub message_read :
      unmarshal_message a (new_message args.version (v1 (empty_pdu get_request))) b
      ≡ ok (received, behind)
  pub same_version : sent.version ≡ received.version
  pub pdu_read :
      unmarshal_any a (v1 (empty_pdu get_request)) received.pdu_bytes ≡ ok (p, behind_pdu)
  pub response_type : (base p).pdu_type ≡ get_response
  pub request_sent : sent.pdu ≡ some request
  pub same_id : (base request).request_id ≡ (base p).request_id

pub inj_ok : {A : Type 0} (q p : A) → ◌≡◌ {A = Outcome A} (ok q) (ok p) → q ≡ p
inj_ok q p h = ground arith

check_answer-eq-ok :
    (s : Option Pdu) (q p : Pdu)
    → check_answer s (some q) ≡ ok p
    → (x : Pdu) × (s ≡ some x)
      × (q ≡ p)
      × ((base p).pdu_type ≡ get_response)
      × ((base x).request_id ≡ (base p).request_id)
unfolding check_answer
check_answer-eq-ok s q p h =
    let (t, h1) = passed (not ((base q).pdu_type == get_response)) _ h in
    by_request s h1 ((==_iff (base q).pdu_type get_response).0 (negated _ t))
  where
    by_request :
        (s : Option Pdu)
        → check_request_id s q ≡ ok p
        → (base q).pdu_type ≡ get_response
        → (x : Pdu) × (s ≡ some x)
          × (q ≡ p)
          × ((base p).pdu_type ≡ get_response)
          × ((base x).request_id ≡ (base p).request_id)
    by_request none h1 kind = unfold check_request_id in ground arith
    by_request (some x) h1 kind =
        unfold check_request_id in
        let (i, h2) = passed (not (eqb_ℤ (base x).request_id (base q).request_id)) _ h1 in
        let same : q ≡ p = inj_ok q p h2 in
        let id : (base x).request_id ≡ (base q).request_id = eqb_eq _ _ (negated _ i) in
        (
          x,
          refl,
          same,
          ap (λ r. (base r).pdu_type) (sym same) ∙ kind,
          id ∙ ap (λ r. (base r).request_id) same,
        )

first_eq :
    {A : Type 0} (x y : A) (r s : Bytes)
    → ◌≡◌ {A = Outcome (A × Bytes)} (ok (x, r)) (ok (y, s))
    → x ≡ y
first_eq x y r s h = ground arith

check_answer_ok :
    (s q : Pdu)
    → (base q).pdu_type ≡ get_response
    → (base s).request_id ≡ (base q).request_id
    → check_answer (some s) (some q) ≡ ok q
unfolding check_answer
check_answer_ok s q kind id = rw (kind, id, eqb_refl (base q).request_id)

pub carried-request_id :
    (p : PduV1) → p.pdu_type ≡ get_response → (base (v1 (carried p))).request_id ≡ p.request_id
unfolding base
carried-request_id p kind = rw kind

module _ (a : Asn1) where
  -- Reading a message leaves its PDU alone.
  pub unmarshal_message-pdu :
      (n m : MessageV1) (b r : Bytes) → unmarshal_message a n b ≡ ok (m, r) → m.pdu ≡ n.pdu
  unfolding unmarshal_message
  unmarshal_message-pdu n m b r h = >>=-elim (a.unmarshal_raw b) _ h (λ x _ h1.
      >>=-elim (a.unmarshal_int x.0.content) _ (guarded-eq-ok (is_sequence x.0) _ h1) (λ v _ h2.
        >>=-elim (a.unmarshal_octets v.1) _ h2
          (λ c _ h3. sym (ap (λ w. w.pdu) (first_eq _ m x.1 r h3)))))

  read_own-eq-ok :
      (q p : Pdu) (b : Bytes)
      → read_own a (some q) b ≡ ok p
      → (r : Bytes) × (unmarshal_any a q b ≡ ok (p, r))
  unfolding read_own
  read_own-eq-ok q p b h =
      >>=-elim (as_response (unmarshal_any a q b)) _ h
        (λ x e h1. (x.1, as_response-eq-ok _ e ∙ ap (λ l. ok (l, x.1)) (inj_ok x.0 p h1)))

  -- `PrepareDataElements` accepts only an answer: a message of the version sent that holds the
  -- unit it returns, which is a response and has the request id sent.
  pub prepare_data_elements-IsAnswer :
      (args : Arguments) (sent : MessageV1) (b : Bytes) (p : Pdu)
      → prepare_data_elements a args sent b ≡ ok p
      → IsAnswer a args sent b p
  unfolding prepare_data_elements accept process_incoming_message
  prepare_data_elements-IsAnswer args sent b p h =
      let n : MessageV1 = new_message args.version (v1 (empty_pdu get_request)) in
      >>=-elim (as_response (unmarshal_message a n b)) _ h (λ x e h1.
        let read = as_response-eq-ok (unmarshal_message a n b) e in
        let (same, h2) = passed (not (eqb_ℤ sent.version x.0.version)) _ h1 in
        >>=-elim (process_incoming_message a x.0) _ h2 (λ y processed h3.
          >>=-elim (read_own a x.0.pdu x.0.pdu_bytes) _ processed (λ q own e1.
            let keeps = unmarshal_message-pdu n x.0 b x.1 read in
            let answer = ap (λ w. check_answer sent.pdu w.pdu) (inj_ok _ y e1) ∙ h3 in
            let (s, sent_pdu, q_p, kind, id) = check_answer-eq-ok sent.pdu q p answer in
            let (rest, pdu_read) =
              read_own-eq-ok (v1 (empty_pdu get_request)) p x.0.pdu_bytes
                (ap (λ w. read_own a w x.0.pdu_bytes) (sym keeps) ∙ own ∙ ap ok q_p) in
            record {
              received = x.0;
              behind = x.1;
              behind_pdu = rest;
              request = s;
              message_read = read;
              same_version = eqb_eq _ _ (negated _ same);
              pdu_read = pdu_read;
              response_type = kind;
              request_sent = sent_pdu;
              same_id = id;
            })))

  read_own_answer :
      (p : PduV1) (pb : Bytes)
      → p.pdu_type ≡ get_response
      → All IsBinding p.variable_bindings
      → marshal_pdu a p ≡ ok pb
      → read_own a (some (v1 (empty_pdu get_request))) pb ≡ ok (v1 (carried p))
  unfolding read_own unmarshal_any as_response empty_pdu
  read_own_answer p pb kind bound written =
      rw
        (ap (λ (l : Bytes). unmarshal_pdu a (empty_pdu 0) l) (sym (append-nil pb))
          ∙ unmarshal_pdu-marshal_pdu a p (empty_pdu 0) pb [] (omega (arith, kind))
              (response-NamesEnterprise p kind) bound written)
        refl

  accept_answer :
      (args : Arguments) (sent : MessageV1) (s : Pdu) (p : PduV1) (c pb : Bytes)
      → sent.version ≡ args.version
      → sent.pdu ≡ some s
      → p.pdu_type ≡ get_response
      → (base s).request_id ≡ p.request_id
      → All IsBinding p.variable_bindings
      → marshal_pdu a p ≡ ok pb
      → accept a sent (record {
        version = args.version;
        community = c;
        pdu_bytes = pb;
        pdu = some (v1 (empty_pdu get_request));
      })
        ≡ ok (v1 (carried p))
  unfolding accept process_incoming_message
  accept_answer args sent s p c pb version sent_pdu kind id bound written =
      rw (version, eqb_refl args.version, read_own_answer p pb kind bound written, sent_pdu)
        (check_answer_ok s (v1 (carried p)) kind (id ∙ sym (carried-request_id p kind)))

  -- An answer that the codec writes is accepted: a response unit `p` with the request id of the
  -- message sent, in a message of the version sent with any community, and whatever bytes follow it
  -- in the receive buffer. Here an encoding carries each binding: it has a variable in the range of
  -- its Go type, and every identifier has at least two sub-identifiers, the first at most 2 and the
  -- second below 40 if the first is not 2, whose numbers fit in an int.
  pub answer_accepted :
      (args : Arguments) (sent : MessageV1) (s : Pdu) (p : PduV1) (c pb b r : Bytes)
      → sent.version ≡ args.version
      → sent.pdu ≡ some s
      → p.pdu_type ≡ get_response
      → (base s).request_id ≡ p.request_id
      → All IsBinding p.variable_bindings
      → marshal_pdu a p ≡ ok pb
      → marshal_message a
          (record { version = args.version; community = c; pdu_bytes = pb; pdu = none })
        ≡ ok b
      → prepare_data_elements a args sent (b ++ r) ≡ ok (v1 (carried p))
  unfolding prepare_data_elements as_response new_message
  answer_accepted args sent s p c pb b r version sent_pdu kind id bound written m =
      let n : MessageV1 = new_message args.version (v1 (empty_pdu get_request)) in
      let w : MessageV1 = record {
        version = args.version;
        community = c;
        pdu_bytes = pb;
        pdu = none;
      } in
      ap (λ o. as_response o >>= λ x. accept a sent x.0)
        (unmarshal_message-marshal_message a w n b r m)
      ∙ accept_answer args sent s p c pb version sent_pdu kind id bound written
