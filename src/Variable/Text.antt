-- ===== src/Variable/Text.antt =====
-- The texts of values: `ToString`, `String`, `NewVariable` and the `New…FromString` functions of
-- variables.go, with `ToHexStr` of util.go. The text of an address is the parameter `IpText`.
pub mod RoundTrip
use snmpclient.Prelude.{
  ℕ, ◌+◌, ◌-◌, ◌*◌, ◌^◌, ◌≡◌, Option, none, some, List, [], ◌∷◌, ◌++◌, Bytes, codes, Outcome, ok,
  err, or_err, one_of, generic, ◌>>=◌, length, bytes_eq, ◌==◌, if◌then◌else◌, All,
}
use snmpclient.Golang.Strings.{split_once, to_lower}
use snmpclient.Golang.Strconv.{parse_uint, parse_int, format_uint, format_int}
use snmpclient.Golang.Hex.{encode_to_string, decode_string, hex_byte, IsByte}
use snmpclient.Oid.{Oid, parse_oid_from_string}
use snmpclient.Variable.{
  Variable, integer, octet_string, null, oid, ipaddress, counter32, gauge32, time_ticks, opaque,
  counter64, no_suche_object, no_suche_instance, end_of_mib_view, max_uint64,
}

-- `net.ParseIP(s)` and `To4` of it, each with its nil as `none`, and `net.IP.String`, whose print
-- of an IPv4 address reads back.
pub record IpText : Type 0 where
  pub parse_ip : Bytes → Option (Option Bytes)
  pub print_ip : Bytes → Bytes
  pub parse-print :
      (b : Bytes) → All IsByte b → length b ≡ 4 → parse_ip (print_ip b) ≡ some (some b)

-- `ToHexStr(a, sep)`.
unfoldable pub to_hex_str : Bytes → Bytes → Bytes
unfolding hex_byte
to_hex_str [] sep = []
to_hex_str (b ∷ []) sep = hex_byte b
to_hex_str (b ∷ c ∷ bs) sep = hex_byte b ++ (sep ++ to_hex_str (c ∷ bs) sep)

unfoldable pub new_integer_from_string : Bytes → Outcome Variable
new_integer_from_string s = do i ← or_err (parse_int (2 ^ 31) s) generic; ok (integer i)

unfoldable pub new_octet_string_from_string : Bytes → Outcome Variable
new_octet_string_from_string s = do bs ← or_err (decode_string s) generic; ok (octet_string bs)

unfoldable pub new_opaque_from_string : Bytes → Outcome Variable
new_opaque_from_string s = do bs ← or_err (decode_string s) generic; ok (opaque bs)

unfoldable pub new_oid_from_string : Bytes → Outcome Variable
new_oid_from_string s = do o ← parse_oid_from_string s; ok (oid o)

unfoldable pub new_counter32_from_string : Bytes → Outcome Variable
new_counter32_from_string s = do i ← or_err (parse_uint (2 ^ 32 - 1) s) generic; ok (counter32 i)

unfoldable pub new_gauge32_from_string : Bytes → Outcome Variable
new_gauge32_from_string s = do u32 ← or_err (parse_uint (2 ^ 32 - 1) s) generic; ok (gauge32 u32)

unfoldable pub new_time_ticks_from_string : Bytes → Outcome Variable
new_time_ticks_from_string s = do
  u32 ← or_err (parse_uint (2 ^ 32 - 1) s) generic
  ok (time_ticks u32)

unfoldable pub new_counter64_from_string : Bytes → Outcome Variable
new_counter64_from_string s = do i ← or_err (parse_uint max_uint64 s) generic; ok (counter64 i)

-- The inner `switch` of the case "error".
unfoldable pub new_error : Bytes → Outcome Variable
unfolding bytes_eq
new_error s =
    if bytes_eq s (codes "EndOfMibView")
    then ok end_of_mib_view
    else if bytes_eq s (codes "NoSucheInstance")
    then ok no_suche_instance
    else if bytes_eq s (codes "NoSucheObject")
    then ok no_suche_object
    else err generic

module _ (ip : IpText) where
  unfoldable pub new_ipaddress_from_string : Bytes → Outcome Variable
  new_ipaddress_from_string s = do
    addr ← or_err (ip.parse_ip s) generic
    four ← or_err addr generic
    ok (ipaddress four)

  -- `ToString`, with that of `Null` on the three error values, which embed it.
  unfoldable pub to_string : Variable → Bytes
  to_string (integer z) = format_int z
  to_string (octet_string b) = encode_to_string b
  to_string null = []
  to_string (oid o) = snmpclient.Oid.to_string o
  to_string (ipaddress b) = ip.print_ip b
  to_string (counter32 n) = format_uint n
  to_string (gauge32 n) = format_uint n
  to_string (time_ticks n) = format_uint n
  to_string (opaque b) = to_hex_str b (b':' ∷ [])
  to_string (counter64 n) = format_uint n
  to_string no_suche_object = []
  to_string no_suche_instance = []
  to_string end_of_mib_view = []

  -- `String`.
  unfoldable pub string : Variable → Bytes
  unfolding to_string
  string (integer z) = codes "[int]" ++ to_string (integer z)
  string (octet_string b) = codes "[octets]" ++ to_string (octet_string b)
  string null = codes "[null]"
  string (oid o) = codes "[oid]" ++ to_string (oid o)
  string (ipaddress b) = codes "[ip]" ++ to_string (ipaddress b)
  string (counter32 n) = codes "[counter32]" ++ to_string (counter32 n)
  string (gauge32 n) = codes "[gauge32]" ++ to_string (gauge32 n)
  string (time_ticks n) = codes "[timeticks]" ++ to_string (time_ticks n)
  string (opaque b) = codes "[opaque]" ++ to_string (opaque b)
  string (counter64 n) = codes "[counter64]" ++ to_string (counter64 n)
  string no_suche_object = codes "[error]NoSucheObject"
  string no_suche_instance = codes "[error]NoSucheInstance"
  string end_of_mib_view = codes "[error]EndOfMibView"

  -- The `switch` on the name of the type, in lower case.
  unfoldable pub of_type : Bytes → Bytes → Outcome Variable
  unfolding new_integer_from_string new_gauge32_from_string new_counter32_from_string
      new_counter64_from_string new_octet_string_from_string new_opaque_from_string
      new_oid_from_string new_ipaddress_from_string new_time_ticks_from_string new_error one_of
  of_type name value =
      if one_of name ("null" ∷ "nil" ∷ [])
      then ok null
      else if one_of name ("int" ∷ "int32" ∷ [])
      then new_integer_from_string value
      else if one_of name ("uint" ∷ "uint32" ∷ "gauge" ∷ "gauge32" ∷ [])
      then new_gauge32_from_string value
      else if one_of name ("counter" ∷ "counter32" ∷ [])
      then new_counter32_from_string value
      else if one_of name ("counter64" ∷ [])
      then new_counter64_from_string value
      else if one_of name ("octets" ∷ [])
      then new_octet_string_from_string value
      else if one_of name ("opaque" ∷ [])
      then new_opaque_from_string value
      else if one_of name ("oid" ∷ [])
      then new_oid_from_string value
      else if one_of name ("ip" ∷ "ipaddress" ∷ [])
      then new_ipaddress_from_string value
      else if one_of name ("timeticks" ∷ [])
      then new_time_ticks_from_string value
      else if one_of name ("error" ∷ [])
      then new_error value
      else err generic

  unfoldable pub new_variable : Bytes → Outcome Variable
  unfolding of_type to_lower
  new_variable [] = err generic
  new_variable (c ∷ s) =
      if c == b'['
      then elim (split_once b']' s) [
        | none ↦ err generic
        | some (name, value) ↦ of_type (to_lower name) value
      ]
      else err generic
