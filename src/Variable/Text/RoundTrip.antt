-- ===== src/Variable/Text/RoundTrip.antt =====
-- `NewVariable` on the texts that `String` writes (variables.go).
use snmpclient.Prelude.{
  ℕ, ◌-◌, ◌^◌, ◌≤◌, ◌<◌, ◌≡◌, refl, some, [], ◌∷◌, arith, Bytes, Outcome, ok, err, generic, length,
  All, bytes_eq, one_of,
}
use snmpclient.Prelude.Int.{pos_part, neg_part}
use snmpclient.Golang.Strings.{split_once, to_lower}
use snmpclient.Golang.Strconv.{parse_uint-format_uint, parse_int-format_int}
use snmpclient.Golang.Hex.{
  decode_string-encode_to_string, decode_string, IsByte, decode_string-hex_byte,
  decode_string_colon,
}
use snmpclient.Oid.Text.{IsSubId, parse_oid-to_string}
use snmpclient.Variable.{
  Variable, integer, octet_string, null, oid, ipaddress, counter32, gauge32, time_ticks, opaque,
  counter64, no_suche_object, no_suche_instance, end_of_mib_view, max_uint64,
}
use snmpclient.Variable.Text.{
  IpText, to_string, string, of_type, new_variable, to_hex_str, new_integer_from_string,
  new_octet_string_from_string, new_opaque_from_string, new_oid_from_string,
  new_counter32_from_string, new_gauge32_from_string, new_time_ticks_from_string,
  new_counter64_from_string, new_error, new_ipaddress_from_string,
}

-- The values whose text keeps them: an `Integer` of 32 bits, an address of four bytes, an `Opaque`
-- of at most one byte, and the ranges of the Go types.
abbrev pub IsPrintable : Variable → Type 0
IsPrintable (integer z) = (pos_part z < 2 ^ 31) × (neg_part z ≤ 2 ^ 31)
IsPrintable (octet_string b) = All IsByte b
IsPrintable null = Unit
IsPrintable (oid o) = All IsSubId o.value
IsPrintable (ipaddress b) = All IsByte b × (length b ≡ 4)
IsPrintable (counter32 n) = n < 2 ^ 32
IsPrintable (gauge32 n) = n < 2 ^ 32
IsPrintable (time_ticks n) = n < 2 ^ 32
IsPrintable (opaque b) = All IsByte b × (length b ≤ 1)
IsPrintable (counter64 n) = n < 2 ^ 64
IsPrintable no_suche_object = Unit
IsPrintable no_suche_instance = Unit
IsPrintable end_of_mib_view = Unit

module _ (ip : IpText) where
  -- The constructor function that `NewVariable` picks for the text of a value.
  abbrev reader : Variable → Bytes → Outcome Variable
  reader (integer z) s = new_integer_from_string s
  reader (octet_string b) s = new_octet_string_from_string s
  reader null s = ok null
  reader (oid o) s = new_oid_from_string s
  reader (ipaddress b) s = new_ipaddress_from_string ip s
  reader (counter32 n) s = new_counter32_from_string s
  reader (gauge32 n) s = new_gauge32_from_string s
  reader (time_ticks n) s = new_time_ticks_from_string s
  reader (opaque b) s = new_opaque_from_string s
  reader (counter64 n) s = new_counter64_from_string s
  reader no_suche_object s = ok no_suche_object
  reader no_suche_instance s = ok no_suche_instance
  reader end_of_mib_view s = ok end_of_mib_view

  picks_reader : (v : Variable) → new_variable ip (string ip v) ≡ reader v (to_string ip v)
  unfolding new_variable string of_type split_once to_lower one_of bytes_eq new_error
  picks_reader (integer z) = refl
  picks_reader (octet_string b) = refl
  picks_reader null = refl
  picks_reader (oid o) = refl
  picks_reader (ipaddress b) = refl
  picks_reader (counter32 n) = refl
  picks_reader (gauge32 n) = refl
  picks_reader (time_ticks n) = refl
  picks_reader (opaque b) = refl
  picks_reader (counter64 n) = refl
  picks_reader no_suche_object = refl
  picks_reader no_suche_instance = refl
  picks_reader end_of_mib_view = refl

  short_hex :
      (b : Bytes) → All IsByte b → length b ≤ 1 → decode_string (to_hex_str b (b':' ∷ [])) ≡ some b
  unfolding to_hex_str
  short_hex [] h short = unfold decode_string in refl
  short_hex (b ∷ []) (hb, _) short = unfold decode_string in decode_string-hex_byte b [] [] hb refl
  short_hex (b ∷ c ∷ bs) h short = absurd (omega arith)

  reader-to_string : (v : Variable) → IsPrintable v → reader v (to_string ip v) ≡ ok v
  unfolding to_string new_integer_from_string new_octet_string_from_string new_oid_from_string
      new_counter32_from_string new_gauge32_from_string new_time_ticks_from_string
      new_counter64_from_string new_opaque_from_string new_ipaddress_from_string
  reader-to_string (integer z) (hi, lo) = rw (parse_int-format_int z (2 ^ 31) hi lo)
  reader-to_string (octet_string b) h = rw (decode_string-encode_to_string b h)
  reader-to_string null h = refl
  reader-to_string (oid o) h = rw (parse_oid-to_string o h)
  reader-to_string (ipaddress b) (h, four) = rw (ip.parse-print b h four)
  reader-to_string (counter32 n) h = rw (parse_uint-format_uint n (2 ^ 32 - 1) (omega arith))
  reader-to_string (gauge32 n) h = rw (parse_uint-format_uint n (2 ^ 32 - 1) (omega arith))
  reader-to_string (time_ticks n) h = rw (parse_uint-format_uint n (2 ^ 32 - 1) (omega arith))
  reader-to_string (opaque b) (h, short) = rw (short_hex b h short)
  reader-to_string (counter64 n) h = rw (parse_uint-format_uint n max_uint64 (omega arith))
  reader-to_string no_suche_object h = refl
  reader-to_string no_suche_instance h = refl
  reader-to_string end_of_mib_view h = refl

  -- `NewVariable` reads back the text that `String` writes, for every value of every type in the
  -- range of its Go type, where an `Integer` and every sub-identifier of an identifier fit in 32
  -- bits, an address has four bytes, and an `Opaque` has at most one byte.
  pub new_variable-string : (v : Variable) → IsPrintable v → new_variable ip (string ip v) ≡ ok v
  new_variable-string v h = rw (picks_reader v) (reader-to_string v h)

  opaque_colons :
      (b c : ℕ) (bs : Bytes)
      → new_opaque_from_string (to_string ip (opaque (b ∷ c ∷ bs))) ≡ err generic
  unfolding new_opaque_from_string to_string to_hex_str
  opaque_colons b c bs = rw (decode_string_colon b (to_hex_str (c ∷ bs) (b':' ∷ [])))

  -- The text that `String` writes for an `Opaque` of two bytes or more is an error to
  -- `NewVariable`: its bytes have colons between them.
  pub opaque_text_lost :
      (b c : ℕ) (bs : Bytes) → new_variable ip (string ip (opaque (b ∷ c ∷ bs))) ≡ err generic
  opaque_text_lost b c bs = rw (picks_reader (opaque (b ∷ c ∷ bs))) (opaque_colons b c bs)
