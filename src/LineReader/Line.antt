-- ===== src/LineReader/Line.antt =====
-- `ParseLine` of read_line.go: an identifier, its value, and the lines that remain.
use snmpclient.Prelude.{
  ℕ, ◌+◌, ◌-◌, Bool, not, ◌&&◌, ◌||◌, Option, none, some, List, [], ◌∷◌, ◌++◌, Bytes, codes,
  generic, empty_line, Outcome, ok, err, panic, no_fuel, ◌>>=◌, length, drop, take, is_empty,
  bytes_eq, ltb, if◌then◌else◌,
}
use snmpclient.Prelude.Int.{pos}
use snmpclient.Golang.Strings.{split_once, trim}
use snmpclient.Golang.Text.{
  trim_space, has_prefix, has_suffix, contains_text, replace_once, index_of,
}
use snmpclient.Oid.{Oid, parse_oid_from_string}
use snmpclient.Variable.{Variable, integer, octet_string}
use snmpclient.Variable.Text.{
  IpText, new_integer_from_string, new_octet_string_from_string, new_oid_from_string,
  new_counter32_from_string, new_counter64_from_string, new_gauge32_from_string,
  new_time_ticks_from_string, new_ipaddress_from_string,
}
use snmpclient.LineReader.{quote, parse_string, parse_hex_string}

-- The lines that are skipped in front.
unfoldable pub is_skipped : Bytes → Bool
unfolding bytes_eq has_prefix
is_skipped s = is_empty s || bytes_eq s (codes "End of MIB") || has_prefix s (codes "#")

unfoldable pub skip_lines : List Bytes → List Bytes
unfolding is_skipped
skip_lines [] = []
skip_lines (s ∷ ss) = let rest = skip_lines ss in if is_skipped s then rest else s ∷ ss

strip_so : Bytes → Bytes
unfolding has_prefix
strip_so s = if has_prefix s (codes "so.") then codes "1." ++ drop 3 s else s

strip_o : Bytes → Bytes
unfolding has_prefix
strip_o s = if has_prefix s (codes "o.") then codes "1." ++ drop 2 s else s

-- The text in front of the equals sign as an identifier.
unfoldable pub line_oid : Bytes → Outcome Oid
unfolding replace_once strip_so strip_o trim trim_space parse_oid_from_string
line_oid s =
    parse_oid_from_string
      (trim_space (trim b'.' (strip_o (strip_so (replace_once s (codes "iso") (codes "1"))))))

-- An error of the code's own for each that is not a value.
unfoldable pub as_generic : {A : Type 0} → Outcome A → Outcome A
as_generic (err e) = err generic
as_generic (ok a) = ok a
as_generic panic = panic
as_generic no_fuel = no_fuel

-- A value without a type: a quoted one is read as hexadecimal text if the line is the last.
unfoldable pub untyped : Bytes → List Bytes → Outcome (Variable × List Bytes)
unfolding trim_space has_prefix has_suffix new_octet_string_from_string
untyped text ss =
    let s = trim_space text in
    if is_empty ss && has_prefix s quote && has_suffix s quote
    then (do v ← new_octet_string_from_string (take (length (drop 1 s) - 1) (drop 1 s)); ok (v, []))
    else ok (octet_string s, ss)

unfoldable pub time_between : Bytes → Option ℕ → Option ℕ → Outcome Variable
unfolding new_time_ticks_from_string trim_space
time_between s (some p1) (some p2) =
    if ltb p2 p1
    then err generic
    else new_time_ticks_from_string (trim_space (drop (p1 + 1) (take p2 s)))
time_between s _ _ = err generic

-- The number between the first parentheses.
unfoldable pub time_ticks_text : Bytes → Outcome Variable
unfolding time_between index_of
time_ticks_text s = time_between s (index_of b'(' s) (index_of b')' s)

module _ (ip : IpText) where
  -- The types of one line.
  unfoldable pub single_value : Bytes → Bytes → Outcome Variable
  unfolding bytes_eq trim_space replace_once time_ticks_text new_oid_from_string
      new_integer_from_string new_gauge32_from_string new_counter32_from_string
      new_counter64_from_string new_ipaddress_from_string
  single_value t text =
      if bytes_eq t (codes "OID")
      then new_oid_from_string (trim_space (replace_once text (codes "iso") (codes "1")))
      else if bytes_eq t (codes "INTEGER")
      then (if is_empty (trim_space text)
          then ok (integer (pos 0))
          else new_integer_from_string (trim_space text))
      else if bytes_eq t (codes "Gauge32")
      then new_gauge32_from_string (trim_space text)
      else if bytes_eq t (codes "Counter32")
      then new_counter32_from_string (trim_space text)
      else if bytes_eq t (codes "Counter64")
      then new_counter64_from_string (trim_space text)
      else if bytes_eq t (codes "Timeticks")
      then time_ticks_text text
      else if bytes_eq t (codes "IpAddress")
      then new_ipaddress_from_string ip (trim_space text)
      else err generic

  module _ (re : Bytes → Bool) where
    -- Behind `Opaque`; without a second colon the code indexes a slice of one element.
    unfoldable pub opaque_value :
        List Bytes → Bool → Option (Bytes × Bytes) → Outcome (Variable × List Bytes)
    unfolding trim_space bytes_eq parse_string
    opaque_value ss is_end none = panic
    opaque_value ss is_end (some (t, text)) =
        if bytes_eq (trim_space t) (codes "Float")
        then ok (octet_string (trim_space text), [])
        else parse_string re ss is_end text

    unfoldable pub typed : Bytes → Bytes → List Bytes → Bool → Outcome (Variable × List Bytes)
    unfolding opaque_value split_once parse_string parse_hex_string single_value bytes_eq
    typed t text ss is_end =
        if bytes_eq t (codes "Opaque")
        then opaque_value ss is_end (split_once b':' text)
        else if bytes_eq t (codes "STRING")
        then parse_string re ss is_end text
        else if bytes_eq t (codes "Hex-STRING")
        then parse_hex_string re ss is_end text
        else if not (is_empty ss)
        then err generic
        else (do v ← single_value t text; ok (v, []))

    unfoldable pub value_of :
        Bytes → List Bytes → Bool → Option (Bytes × Bytes) → Outcome (Variable × List Bytes)
    unfolding untyped typed trim_space
    value_of text ss is_end none = untyped text ss
    value_of text ss is_end (some (t, v)) = typed (trim_space t) v ss is_end

    unfoldable pub parse_first :
        Bytes → List Bytes → Bool → Option (Bytes × Bytes) → Outcome ((Oid × Variable) × List Bytes)
    unfolding contains_text as_generic line_oid value_of split_once
    parse_first s ss is_end none = err empty_line
    parse_first s ss is_end (some (name, text)) =
        if contains_text s (codes "# ====") || contains_text s (codes "#exit")
        then err empty_line
        else (do
          oid ← as_generic (line_oid name)
          (v, rest) ← value_of text ss is_end (split_once b':' text)
          ok ((oid, v), rest))

    unfoldable pub parse_lines : List Bytes → Bool → Outcome ((Oid × Variable) × List Bytes)
    unfolding parse_first split_once
    parse_lines [] is_end = err empty_line
    parse_lines (s ∷ ss) is_end = parse_first s ss is_end (split_once b'=' s)

    -- The lines that remain are none with an error.
    unfoldable pub parse_line : List Bytes → Bool → Outcome ((Oid × Variable) × List Bytes)
    unfolding parse_lines skip_lines
    parse_line [] is_end = err generic
    parse_line (s ∷ ss) is_end = parse_lines (skip_lines (s ∷ ss)) is_end
