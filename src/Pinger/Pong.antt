-- ===== src/Pinger/Pong.antt =====
-- What `serve` makes of the answers that the codec of this repository writes, and of all other
-- datagrams (pinger.go).
use snmpclient.Prelude.{
  ◌<◌, ◌≡◌, refl, sym, ap, ◌∙◌, Bool, true, false, some, List, [], ◌∷◌, ◌++◌, Bytes, Outcome, ok,
  err, panic, no_fuel, ◌>>=◌, >>=-elim, Returns, ok-Returns, >>=-Returns, append-nil, All, ◌==◌,
  if◌then◌else◌, arith,
}
use snmpclient.Prelude.Int.{ℤ, pos, eqb_ℤ}
use snmpclient.Client.{ClientArguments}
use snmpclient.Asn1.{Asn1, RawValue}
use snmpclient.Pdu.{PduV1, v1, empty_pdu, get_request, trap}
use snmpclient.Pdu.Wire.{sequence, is_sequence, marshal_pdu, unmarshal_pdu}
use snmpclient.Pdu.Wire.Items.{IsBinding}
use snmpclient.Pdu.Wire.RoundTrip.{plain-NamesEnterprise, unmarshal_pdu-marshal_pdu}
use snmpclient.Pdu.Wire.Decode.{guarded, pdu-Returns}
use snmpclient.Message.{MessageV1, marshal_message, unmarshal_message}
use snmpclient.Message.Total.{unmarshal_message-Returns}
use snmpclient.MessageV3.{MessageV3, marshal_global, marshal_security, marshal_message_v3}
use snmpclient.Pinger.{
  PingResult, Reaction, silent, ends, reports, Event, datagram, unread, header_v3, answer_v1,
  decode, logged, on_event, serve,
}

-- The result that the answer to the number `id` gives.
abbrev pub pong : ℤ → ℤ → Bytes → Bytes → PingResult
pong id version community username = record {
  id = id;
  version = version;
  community = community;
  username = username;
  failed = false;
}

-- The message that an answer of V1 or V2c is read into.
abbrev blank : ℤ → MessageV1
blank version = record {
  version = version;
  community = [];
  pdu_bytes = [];
  pdu = some (v1 (empty_pdu get_request));
}

module _ (a : Asn1) where
  -- An answer of V1 or V2c, with a unit that is no trap, is reported with the request id of its
  -- unit and with its community, whatever bytes follow it: the version is not that of V3, the type
  -- is below 31, and an encoding carries each binding: it has a variable in the range of its Go
  -- type, and every identifier has at least two sub-identifiers, the first at most 2 and the second
  -- below 40 if the first is not 2, whose numbers fit in an int.
  pub on_event-marshal_message :
      (args : ClientArguments) (m : MessageV1) (p : PduV1) (b r : Bytes)
      → marshal_pdu a p ≡ ok m.pdu_bytes
      → marshal_message a m ≡ ok b
      → eqb_ℤ m.version (pos 3) ≡ false
      → p.pdu_type < 31
      → (p.pdu_type == trap) ≡ false
      → All IsBinding p.variable_bindings
      → on_event a args (datagram (b ++ r))
        ≡ ok (reports (pong p.request_id m.version m.community []))
  unfolding on_event decode answer_v1 logged marshal_message is_sequence
  on_event-marshal_message args m p b r unit_written written old kind plain bound =
      >>=-elim (a.marshal_int m.version) _ written (λ v mv h1.
        >>=-elim (a.marshal_octets m.community) _ h1 (λ c mc h2.
          rw
            (
              a.raw_back (sequence (v ++ (c ++ m.pdu_bytes))) b r (omega arith) (omega arith) h2,
              a.int_back m.version v (c ++ m.pdu_bytes) mv,
              old,
              a.octets_back m.community c m.pdu_bytes mc,
              ap (λ (l : Bytes). unmarshal_pdu a (empty_pdu get_request) l)
                    (sym (append-nil m.pdu_bytes))
                  ∙ unmarshal_pdu-marshal_pdu a p (empty_pdu get_request) m.pdu_bytes [] kind
                      (plain-NamesEnterprise p plain) bound unit_written,
              plain,
            )
            refl))

  -- An answer of V3 is reported with the identifier of its message and the user of the pinger,
  -- whatever its security parameters and its unit are, and whatever bytes follow it.
  pub on_event-marshal_message_v3 :
      (args : ClientArguments) (m : MessageV3) (b r : Bytes)
      → marshal_message_v3 a m ≡ ok b
      → m.message.version ≡ pos 3
      → on_event a args (datagram (b ++ r))
        ≡ ok (reports (pong m.global.message_id (pos 3) [] args.user_name))
  unfolding on_event decode header_v3 logged marshal_message_v3 marshal_global is_sequence
  on_event-marshal_message_v3 args m b r written three =
      >>=-elim (a.marshal_int m.message.version) _ written (λ v mv h1.
        >>=-elim (marshal_global a m.global) _ h1 (λ g mg h2.
          >>=-elim (marshal_security a m.security) _ h2 (λ s ms h3.
            let p = m.message.pdu_bytes in
            >>=-elim (a.marshal_int m.global.message_id) _ mg (λ i mi e1.
              >>=-elim (a.marshal_int m.global.message_max_size) _ e1 (λ x mx e2.
                >>=-elim (a.marshal_octets m.global.message_flags) _ e2 (λ f mf e3.
                  >>=-elim (a.marshal_int m.global.security_model) _ e3 (λ y my e4.
                    rw
                      (
                        a.raw_back (sequence (v ++ (g ++ (s ++ p)))) b r (omega arith) (omega arith)
                            h3,
                        a.int_back m.message.version v (g ++ (s ++ p)) mv,
                        three,
                        a.raw_back (sequence (i ++ (x ++ (f ++ y)))) g (s ++ p) (omega arith)
                            (omega arith) e4,
                        a.int_back m.global.message_id i (x ++ (f ++ y)) mi,
                      )
                      refl)))))))

  header-Returns :
      (args : ClientArguments) (version : ℤ) (o : Outcome (RawValue × Bytes))
      → Returns o
      → Returns (header_v3 a args version o)
  unfolding header_v3
  header-Returns args version (err e) h = ok-Returns ends
  header-Returns args version (ok (raw, rest)) h =
      >>=-Returns (a.unmarshal_int raw.content) _ (a.int_returns raw.content) (λ x _. ok-Returns _)
  header-Returns args version panic (p, n) = absurd (p refl)
  header-Returns args version no_fuel (p, n) = absurd (n refl)

  logged-Returns : (o : Outcome Reaction) → Returns o → Returns (logged a o)
  unfolding logged
  logged-Returns (ok r) h = ok-Returns r
  logged-Returns (err e) h = ok-Returns silent
  logged-Returns panic h = h
  logged-Returns no_fuel h = h

  version_choice :
      (t : Bool) (o p : Outcome Reaction) → Returns o → Returns p → Returns (if t then o else p)
  version_choice true o p ho hp = ho
  version_choice false o p ho hp = hp

  event-Returns : (args : ClientArguments) (e : Event) → Returns (on_event a args e)
  unfolding on_event decode answer_v1
  event-Returns args (unread dropped) =
      version_choice dropped _ _ (ok-Returns silent) (ok-Returns _)
  event-Returns args (datagram b) = logged-Returns _ (
      >>=-Returns (a.unmarshal_raw b) _ (a.raw_returns b) (λ x _. guarded (is_sequence x.0) _ (
        >>=-Returns (a.unmarshal_int x.0.content) _ (a.int_returns x.0.content) (λ v _.
          version_choice (eqb_ℤ v.0 (pos 3)) _ _
            (header-Returns args v.0 (a.unmarshal_raw v.1) (a.raw_returns v.1))
            (>>=-Returns (unmarshal_message a (blank v.0) b) _
              (unmarshal_message-Returns a (blank v.0) b)
              (λ m _.
                >>=-Returns (unmarshal_pdu a (empty_pdu get_request) m.0.pdu_bytes) _
                  (pdu-Returns a (empty_pdu get_request) m.0.pdu_bytes) (λ p _. ok-Returns _)))))))

  -- Whatever arrives, `serve` neither panics nor runs for ever on it: every list of events, of any
  -- datagrams and of read errors, gives the results sent and whether the goroutine is still there.
  pub serve-Returns : (args : ClientArguments) (es : List Event) → Returns (serve a args es)
  unfolding serve
  serve-Returns args [] = ok-Returns _
  serve-Returns args (e ∷ es) =
      >>=-Returns (on_event a args e) _ (event-Returns args e)
        (λ r _. by_reaction r (serve-Returns args es))
    where
      by_reaction :
          (r : Reaction)
          → Returns (serve a args es)
          → Returns (elim r [
            | silent ↦ serve a args es
            | ends ↦ ok ([], false)
            | reports p ↦ (serve a args es >>= λ x. ok (p ∷ x.0, x.1))
          ])
      by_reaction silent h = h
      by_reaction ends h = ok-Returns ([], false)
      by_reaction (reports p) h = >>=-Returns (serve a args es) _ h (λ x _. ok-Returns _)
