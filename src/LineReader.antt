-- ===== src/LineReader.antt =====
-- The reader of the output of snmpwalk, read_line.go: the values of more than one line,
-- `ParseString`, `ReadHex` and `ParseHexString`. A list of lines stands for a slice, `[]` for nil
-- too, and the match of the regular expression is a parameter.
pub mod Line
pub mod Read
pub mod Tails
pub mod Ends
pub mod Homomorphism
pub mod Panics
pub mod Progress
mod Tests
use snmpclient.Prelude.{
  ℕ, ◌+◌, ◌≡◌, Bool, true, false, not, ◌&&◌, ◌||◌, Option, none, some, List, [], ◌∷◌, ◌++◌, Bytes,
  codes, Error, generic, more_line, Outcome, ok, err, panic, or_err, ◌>>=◌, length, drop, take,
  is_empty, ltb, ◌==◌, if◌then◌else◌, ◌-◌,
}
use snmpclient.Golang.Text.{
  trim_left_space, trim_space, has_prefix, has_suffix, contains_text, fields, join,
}
use snmpclient.Golang.Hex.{decode_string}
use snmpclient.Variable.{Variable, octet_string}

-- The text of a line break, `"\r\n"`.
abbrev pub crlf : Bytes
crlf = 13 ∷ 10 ∷ []

abbrev pub quote : Bytes
quote = 34 ∷ []

-- The text of a backslash and a quote.
abbrev pub escaped_quote : Bytes
escaped_quote = 92 ∷ 34 ∷ []

-- The lines before the first one that passes the test, and those from it on.
unfoldable pub cut_at : (Bytes → Bool) → List Bytes → Option (List Bytes × List Bytes)
cut_at stop [] = none
cut_at stop (s ∷ ss) =
    let rest = cut_at stop ss in
    if stop s then some ([], s ∷ ss) else elim rest [ none ↦ none | some (a, b) ↦ some (s ∷ a, b) ]

-- A quote at the end that is not escaped.
unfoldable pub closes : Bytes → Bool
unfolding has_suffix
closes s = has_suffix s quote && not (has_suffix s escaped_quote)

-- `s[:len(s)-1]` if the text closes, and `s[1:]` behind a quote.
unfoldable pub drop_end : Bytes → Bytes
unfolding closes
drop_end s = if closes s then take (length s - 1) s else s

unfoldable pub drop_quote : Bytes → Bytes
unfolding has_prefix
drop_quote s = if has_prefix s quote then drop 1 s else s

-- `ReadHex`: the bytes that it writes.
unfoldable pub hex_field : Bytes → Outcome Bytes
hex_field h = if not (length h == 2) then err generic else or_err (decode_string h) generic

unfoldable pub hex_fields : List Bytes → Outcome Bytes
unfolding hex_field
hex_fields [] = ok []
hex_fields (h ∷ hs) = do b ← hex_field h; bs ← hex_fields hs; ok (b ++ bs)

unfoldable pub read_hex : Bytes → Outcome Bytes
unfolding fields trim_space hex_fields
read_hex s = hex_fields (fields (trim_space s))

-- The loop over the lines that follow, up to one with a number sign.
unfoldable pub hex_lines : List Bytes → Outcome Bytes
unfolding read_hex has_prefix
hex_lines [] = ok []
hex_lines (s ∷ ss) =
    let rest = hex_lines ss in
    if has_prefix s (codes "#") then ok [] else (do b ← read_hex s; bs ← rest; ok (b ++ bs))

unfoldable pub all_hex_lines : List Bytes → Outcome Bytes
unfolding read_hex
all_hex_lines [] = ok []
all_hex_lines (s ∷ ss) = do b ← read_hex s; bs ← all_hex_lines ss; ok (b ++ bs)

-- Go's `s + "\r\n" + strings.Join(ss, "\r\n")`.
unfoldable pub with_lines : Bytes → List Bytes → Bytes
unfolding join
with_lines s ss = s ++ (crlf ++ join ss crlf)

module _ (re : Bytes → Bool) where
  -- The lines before which a string and a hexadecimal string end.
  unfoldable pub ends_string : Bytes → Bool
  unfolding contains_text has_prefix
  ends_string s =
      re s
      || contains_text s (codes "MIB search path")
      || has_prefix s (codes "Cannot find module")
      || has_prefix s (codes "#tools\\snmpwalk.exe")
      || has_prefix s (codes "No log handling enabled")
      || has_prefix s (codes "Timeout: No Response from")
      || contains_text s (codes "# ====")

  unfoldable pub ends_hex : Bytes → Bool
  unfolding contains_text has_prefix
  ends_hex s =
      re s
      || has_prefix s (codes "#")
      || contains_text s (codes "MIB search path")
      || contains_text s (codes "Cannot find module")
      || contains_text s (codes "#tools\\snmpwalk.exe")
      || has_prefix s (codes "Timeout: No Response from")
      || has_prefix s (codes "No log handling enabled")
      || contains_text s (codes "# ====")

  -- The text of a string that ends with the input: its first line loses a byte if others follow.
  unfoldable pub last_string : List Bytes → Bytes → Bytes
  unfolding trim_left_space with_lines drop_end drop_quote
  last_string ss vs =
      let s = trim_left_space vs in
      drop_quote (drop_end (if is_empty ss then s else with_lines (drop 1 s) ss))

  -- The text of a string before another line.
  unfoldable pub inner_string : List Bytes → Bytes → Bytes
  unfolding trim_left_space with_lines drop_end drop_quote
  inner_string ss vs =
      let s = trim_left_space vs in
      drop_quote (drop_end (if is_empty ss then s else with_lines s ss))

  unfoldable pub string_rest :
      Bool → List Bytes → Bytes → Option (List Bytes × List Bytes) → Outcome (Variable × List Bytes)
  unfolding last_string inner_string
  string_rest is_end ss vs none =
      if is_end then ok (octet_string (last_string ss vs), []) else err more_line
  string_rest is_end ss vs (some (a, b)) = ok (octet_string (inner_string a vs), b)

  -- `ParseString` on the lines behind the first, `ss[1:]`, and the text `vs` of the first line: the
  -- value and the lines that remain.
  unfoldable pub parse_string : List Bytes → Bool → Bytes → Outcome (Variable × List Bytes)
  unfolding trim_space has_prefix closes string_rest cut_at ends_string
  parse_string ss is_end vs =
      let s = trim_space vs in
      if not (has_prefix s quote)
      then err generic
      else if ltb 1 (length s) && closes s
      then ok (octet_string (drop 1 (take (length s - 1) s)), ss)
      else string_rest is_end ss vs (cut_at ends_string ss)

  unfoldable pub hex_rest :
      Bool → List Bytes → Bytes → Option (List Bytes × List Bytes) → Outcome (Variable × List Bytes)
  unfolding read_hex trim_space all_hex_lines hex_lines
  hex_rest is_end ss vs none =
      if is_end
      then (do b ← read_hex (trim_space vs); bs ← all_hex_lines ss; ok (octet_string (b ++ bs), []))
      else err more_line
  hex_rest is_end ss vs (some (x, y)) = do
    b ← read_hex (trim_space vs)
    bs ← hex_lines x
    ok (octet_string (b ++ bs), y)

  -- `ParseHexString`, likewise.
  unfoldable pub parse_hex_string : List Bytes → Bool → Bytes → Outcome (Variable × List Bytes)
  unfolding hex_rest cut_at ends_hex
  parse_hex_string ss is_end vs = hex_rest is_end ss vs (cut_at ends_hex ss)
