-- ===== src/Pinger/Fatal.antt =====
-- When the goroutine of `serve` ends (pinger.go).
use snmpclient.Prelude.{
  ◌≡◌, Bool, true, false, List, [], ◌∷◌, ◌++◌, Bytes, Error, Outcome, ok, err, ◌>>=◌,
}
use snmpclient.Prelude.Int.{pos}
use snmpclient.Client.{ClientArguments}
use snmpclient.Asn1.{Asn1, RawValue}
use snmpclient.Pdu.Wire.{is_sequence}
use snmpclient.Pinger.{PingResult, Reaction, silent, ends, reports, Event, datagram, serve}

module _ (a : Asn1) where
  -- A datagram that ends `serve`: a sequence of version 3 behind which no value stands.
  pub record IsFatal (b : Bytes) : Type 0 where
    pub raw : RawValue
    pub rest : Bytes
    pub behind : Bytes
    pub why : Error
    pub raw_read : a.unmarshal_raw b ≡ ok (raw, rest)
    pub sequence_read : is_sequence raw ≡ true
    pub version_read : a.unmarshal_int raw.content ≡ ok (pos 3, behind)
    pub no_header : a.unmarshal_raw behind ≡ err why

  -- What `serve` makes of a reaction and of the events that follow.
  abbrev react : Reaction → Outcome (List PingResult × Bool) → Outcome (List PingResult × Bool)
  react silent o = o
  react ends o = ok ([], false)
  react (reports p) o = o >>= λ (ps, running). ok (p ∷ ps, running)

  -- The events end with a fatal datagram, up to which the results `ps` have been sent.
  pub record IsEnded (args : ClientArguments) (es : List Event) (ps : List PingResult)
      : Type 0 where
    pub before : List Event
    pub fatal : Bytes
    pub later : List Event
    pub cut : es ≡ before ++ datagram fatal ∷ later
    pub fatal_lem : IsFatal fatal
    pub sent : serve a args before ≡ ok (ps, true)
