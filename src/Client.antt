-- ===== src/Client.antt =====
-- The arguments of a client and the tests of a bulk request: `Arguments` and `GetBulkRequest` of
-- snmpgo.go, with `StripHexPrefix` of util.go.
pub mod Accepted
pub mod Bulk
mod Tests
use snmpclient.Prelude.{
  ℕ, suc, ◌+◌, ◌-◌, ◌*◌, ◌^◌, ◌≡◌, Bool, true, false, not, ◌&&◌, ◌||◌, Option, none, some, List, [],
  ◌∷◌, Bytes, Error, argument, Outcome, ok, err, panic, ◌>>=◌, length, is_empty, one_of, ltb, ◌==◌,
  if◌then◌else◌,
}
use snmpclient.Prelude.Int.{ℤ, pos, negsuc, ltb_ℤ, eqb_ℤ}
use snmpclient.Oid.{Oid}
use snmpclient.Variable.{max_int32}
use snmpclient.Pdu.{Pdu, get_bulk_request, new_pdu_with_oids, set_nonrepeaters, set_max_repetitions}
use snmpclient.Util.{engine_id_to_bytes}

-- The fields of `Arguments`; the time-out is in nanoseconds.
pub record ClientArguments : Type 0 where
  pub version : ℤ
  pub timeout : ℤ
  pub retries : ℕ
  pub message_max_size : ℤ
  pub community : Bytes
  pub user_name : Bytes
  pub security_level : ℤ
  pub auth_password : Bytes
  pub auth_protocol : Bytes
  pub auth_key : Bytes
  pub priv_password : Bytes
  pub priv_protocol : Bytes
  pub priv_key : Bytes
  pub security_engine_id : Bytes
  pub context_engine_id : Bytes
  pub context_name : Bytes

abbrev pub timeout_default : ℕ
timeout_default = 5 * 10 ^ 9

abbrev pub msg_size_default : ℕ
msg_size_default = 1400

abbrev pub msg_size_minimum : ℕ
msg_size_minimum = 484

unfoldable pub set_default : ClientArguments → ClientArguments
set_default a = record a {
  timeout = if ltb_ℤ (pos 0) a.timeout then a.timeout else pos timeout_default;
  message_max_size =
      if eqb_ℤ a.message_max_size (pos 0) then pos msg_size_default else a.message_max_size;
}

unfoldable pub strip_hex_prefix : Bytes → Bytes
strip_hex_prefix (c ∷ d ∷ s) = if (c == b'0') && ((d == b'x') || (d == b'X')) then s else c ∷ d ∷ s
strip_hex_prefix s = s

-- An early return with an `ArgumentError`.
unfoldable pub refuse_if : Bool → Outcome {0} Unit
refuse_if true = err argument
refuse_if false = ok tt

unfoldable pub unknown_version : ℤ → Bool
unknown_version v = not (eqb_ℤ v (pos 0)) && not (eqb_ℤ v (pos 1)) && not (eqb_ℤ v (pos 3))

unfoldable pub bad_size : ℤ → Bool
bad_size m = (not (eqb_ℤ m (pos 0)) && ltb_ℤ m (pos msg_size_minimum)) || ltb_ℤ (pos max_int32) m

unfoldable pub bad_user : Bytes → Bool
bad_user u = ltb (length u) 1 || ltb 32 (length u)

unfoldable pub bad_auth : ClientArguments → Bool
unfolding one_of
bad_auth a =
    ltb_ℤ (pos 0) a.security_level
    && (ltb (length a.auth_password) 8 || not (one_of a.auth_protocol ("MD5" ∷ "SHA" ∷ [])))

unfoldable pub bad_priv : ClientArguments → Bool
unfolding one_of
bad_priv a =
    ltb_ℤ (pos 1) a.security_level
    && (ltb (length a.priv_password) 8 || not (one_of a.priv_protocol ("DES" ∷ "AES" ∷ [])))

-- An engine identifier that is given loses its prefix and is parsed.
unfoldable pub engine_field : Bytes → Outcome Bytes
unfolding strip_hex_prefix engine_id_to_bytes
engine_field s =
    if is_empty s
    then ok s
    else (do _ ← engine_id_to_bytes (strip_hex_prefix s); ok (strip_hex_prefix s))

unfoldable pub validate_v3 : ClientArguments → Outcome ClientArguments
unfolding bad_user bad_auth bad_priv refuse_if engine_field
validate_v3 a = do
  _ ← refuse_if (bad_user a.user_name)
  _ ← refuse_if (bad_auth a)
  _ ← refuse_if (bad_priv a)
  security ← engine_field a.security_engine_id
  context ← engine_field a.context_engine_id
  ok (record a { security_engine_id = security; context_engine_id = context })

-- `validate` with the arguments after it, which it changes in place.
unfoldable pub validate : ClientArguments → Outcome ClientArguments
unfolding unknown_version bad_size refuse_if validate_v3
validate a = do
  _ ← refuse_if (unknown_version a.version)
  _ ← refuse_if (bad_size a.message_max_size)
  if eqb_ℤ a.version (pos 3) then validate_v3 a else ok a

-- What `NewSNMP` keeps as the arguments of a client.
unfoldable pub new_snmp : ClientArguments → Outcome ClientArguments
unfolding validate set_default
new_snmp a = do b ← validate a; ok (set_default b)

set_bulk : ℤ → ℤ → Option Pdu → Outcome Pdu
unfolding set_nonrepeaters set_max_repetitions
set_bulk nr mr none = panic
set_bulk nr mr (some pdu) = ok (set_max_repetitions mr (set_nonrepeaters nr pdu))

-- The unit that `GetBulkRequest` hands to `sendPdu`, or its early return.
unfoldable pub bulk_pdu : ClientArguments → List Oid → ℤ → ℤ → Outcome Pdu
unfolding refuse_if new_pdu_with_oids set_bulk
bulk_pdu a oids nr mr = do
  _ ← refuse_if (ltb_ℤ a.version (pos 1))
  _ ← refuse_if (ltb_ℤ nr (pos 0) || ltb_ℤ (pos max_int32) nr)
  _ ← refuse_if (ltb_ℤ mr (pos 0) || ltb_ℤ (pos max_int32) mr)
  pdu ← new_pdu_with_oids a.version get_bulk_request oids
  set_bulk nr mr pdu
