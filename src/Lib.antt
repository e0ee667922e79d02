-- ===== src/Lib.antt =====
-- A verification of the SNMP client library: the values and identifiers that messages carry, their
-- texts and encodings, and the tools beside the client. Each module below is about the Go file
-- that its first comment names; a function keeps its Go name in snake case.
--
--   Prelude: Boolean tests, lists of native numbers, and Outcome, what a Go call returns: a
--       value, an error value (its kind; texts are left out), a panic, or that a loop of a model
--       ran out of fuel.
--   Golang: the strings, strconv and encoding/hex functions of the Go library that the code
--       calls, as documented.
--   Oid: Oid and Oids of variables.go and compareOidAdValue of udp_server.go; Oid/Order,
--       Oid/Prefix, Oid/Text and Oid/Lists hold the proofs about order, containment, dotted
--       text, and the filters of lists.
--   Variable: the value types of variables.go; Variable/As is as.go, Variable/Text the texts
--       (NewVariable, String), and Variable/Wire the encodings (Marshal, Unmarshal,
--       unmarshalVariable).
--   Asn1: what the code uses of the asn1 package, a record of operations with their laws;
--       Asn1/Sample is a concrete codec with these laws, for runs.
--   IpRange: nping/ip_range.go and the loop of nping/nping.go; IpRange/Sweep and IpRange/Parse
--       hold the proofs.
--   Pdu: pdu.go, the units PduV1 and ScopedPdu with their bindings, setters and searches;
--       Pdu/Wire holds their encodings, with the proofs in Pdu/Wire/Items (the bindings),
--       Pdu/Wire/RoundTrip and, for arbitrary bytes, Pdu/Wire/Decode.
--   Message: MessageV1 and messageProcessingV1 of message.go, with the community of security.go;
--       Message/Exchange is about which answers are accepted.
--   Util: util.go, with retries, message identifiers and padding. Client: the arguments and the
--       bulk requests of snmpgo.go.
--   MessageV3: the flags, the header, the security parameters and MessageV3 of message.go, with
--       messageProcessingV3 in MessageV3/Processing. The proofs: MessageV3/Flags,
--       MessageV3/RoundTrip and MessageV3/Decode about the message, MessageV3/Exchange about
--       which answers are accepted, MessageV3/Forged about what is not looked at, and
--       MessageV3/Safe about what is prepared.
--   Usm: USM of security.go, its clock; Usm/Requests holds GenerateRequestMessage and
--       ProcessIncomingMessage, and Usm/Crypto the ciphers, digests and keys. The processing of
--       a message (messageProcessingV3) calls Usm/Requests, which calls Usm/Crypto and the
--       encodings of Pdu/Wire and MessageV3.
--   LineReader: read_line.go, the values of several lines; LineReader/Line holds ParseLine and
--       LineReader/Read the loop. LineReader/Progress and LineReader/Tails, LineReader/Panics
--       and LineReader/Ends are about what is consumed, where it panics, and that the loops end,
--       and LineReader/Homomorphism is about callbacks whose states a function connects.
--   Pinger: the messages and the loop of pinger.go; Pinger/Pong is about the answers that it
--       reads, and Pinger/Fatal about what ends it.
--   Simulator: GetValueByOid, GetNextValueByOid and on_v2 of udp_server.go over the tree as a
--       parameter; Simulator/Serve holds the loop of serve and the choice of the tree, with the
--       messages of Message. Simulator/Load holds LoadMibsIntoEngine, which calls Read of
--       LineReader, and Simulator/Values and Simulator/Stored say what it means by name.
--       Simulator/Answers joins the client of Message to the server, Simulator/Total is about
--       arbitrary datagrams, and Simulator/Walk about a client that asks for the next item.
--
-- Conventions. A string or a byte slice is the list of its bytes; a sub-identifier is a non-
-- negative int, so that negative ones, which the code takes as uint32, are left out; an int of 64
-- bits is an integer with its range as a condition; a uint32 keeps its wrap-around as % 2 ^ 32. A
-- nil pointer or a nil interface is none.
--
-- Fuel. The loop of HasNext runs on end - cur + 1 rounds, since cur grows by one in each; a sweep
-- takes its fuel as an argument, one round for each address and one more. The loop over the
-- bindings of a unit has the length of their bytes as fuel, and each binding takes at least one
-- byte. retry has the number of retries and one more. The loop of retry in Read has the number of
-- its lines and one more as fuel, since each round leaves fewer lines; the loop at the end of the
-- input has the same, since each round leaves fewer lines that are not skipped.
--
-- Parameters. The asn1 package, net.ParseIP, net.ParseCIDR and net.IP.String, and the ciphers and
-- digests of crypto (the record Crypto) are records of functions with the laws that the code
-- relies on, which are documented behaviour (an identifier is read back from its encoding only if
-- it has two sub-identifiers or more and the first two fit the number that they share); the test
-- modules have concrete ones. The regular expression of read_line.go is a test on lines, and the
-- callback of Read a function with a state.
--
-- Not modelled: the red-black tree of mib_tree.go and the asn1 package, which are copies of other
-- libraries; sockets, goroutines and time; command lines and examples; the texts of errors. The
-- requests and the walk of snmpgo.go over a connection and the names of constants are left for
-- later. Time is an argument, and so is every random number.
pub mod Prelude
pub mod Client
pub mod Golang
pub mod Message
pub mod Oid
pub mod Simulator
pub mod Util
pub mod Usm
pub mod Variable
pub mod Asn1
pub mod IpRange
pub mod Pdu
pub mod MessageV3
pub mod LineReader
pub mod Pinger
