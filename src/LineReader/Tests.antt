-- ===== src/LineReader/Tests.antt =====
-- Lines of snmpwalk, and the theorems at them. The test of a line that starts a value is a text
-- with an equals sign between spaces.
use snmpclient.Prelude.{
  Any, ◌≡◌, refl, Bool, true, false, none, some, List, [], ◌∷◌, ◌++◌, Bytes, codes, generic,
  more_line, ok, err, panic,
}
use snmpclient.Prelude.Int.{pos}
use snmpclient.Golang.Text.{contains_text}
use snmpclient.Golang.Hex.{decode_string}
use snmpclient.Golang.Strconv.{parse_int, parse_uint}
use snmpclient.Oid.{Oid, parse_ints_from_string}
use snmpclient.Golang.Strings.{split}
use snmpclient.Variable.{Variable, octet_string, integer, time_ticks}
use snmpclient.Variable.Text.{IpText}
use snmpclient.LineReader.{read_hex}
use snmpclient.LineReader.Line.{parse_line}
use snmpclient.LineReader.Read.{Callback, read}
use snmpclient.LineReader.Progress.{Shrinks, parse_line-Shrinks}
use snmpclient.LineReader.Panics.{Fine, IsOpaque, parse_line-Fine}
use snmpclient.LineReader.Tails.{IsOpaqueLine}
use snmpclient.LineReader.Ends.{read-Fine}

-- Addresses as the bytes that they are.
abbrev ip : IpText
ip = record { parse_ip = λ s. some (some s); print_ip = λ b. b; parse-print = λ b _ _. refl }

starts : Bytes → Bool
unfolding contains_text
starts s = contains_text s (codes " = ")

-- Keeps what it is given.
keep : Callback (List (Oid × Variable))
keep got o v = (got ++ (o, v) ∷ [], none)

abbrev system : Oid
system = record { value = 1 ∷ 3 ∷ 6 ∷ [] }

number_line :
    parse_line ip starts (codes "iso.3.6 = INTEGER: 5" ∷ []) false
    ≡ ok ((system, integer (pos 5)), [])
unfolding parse_line parse_ints_from_string split parse_uint parse_int
number_line = refl

ticks_line :
    parse_line ip starts (codes "iso.3.6 = Timeticks: (42) 0:00:00.42" ∷ []) false
    ≡ ok ((system, time_ticks 42), [])
unfolding parse_line parse_ints_from_string split parse_uint parse_int
ticks_line = refl

-- A string goes on up to a line that starts a value.
open_line : parse_line ip starts (codes "iso.3.6 = STRING: \"a" ∷ []) false ≡ err more_line
unfolding parse_line starts parse_ints_from_string split parse_uint parse_int
open_line = refl

abbrev two_values : List Bytes
two_values = codes "iso.3.6 = STRING: \"a" ∷ codes "b\"" ∷ codes "iso.3.6 = INTEGER: 5" ∷ []

string_lines :
    parse_line ip starts two_values false
    ≡ ok ((system, octet_string (97 ∷ 13 ∷ 10 ∷ 98 ∷ [])), codes "iso.3.6 = INTEGER: 5" ∷ [])
unfolding parse_line starts parse_ints_from_string split parse_uint parse_int
string_lines = refl

whole :
    read ip starts keep none two_values []
    ≡ ok ((system, octet_string (97 ∷ 13 ∷ 10 ∷ 98 ∷ [])) ∷ (system, integer (pos 5)) ∷ [], none)
unfolding read starts keep parse_ints_from_string split parse_uint parse_int
whole = refl

hex_text : read_hex (codes " 0A ff ") ≡ ok (10 ∷ 255 ∷ [])
unfolding read_hex decode_string
hex_text = refl

-- A text in quotes without a type is read as hexadecimal text where it is the last line.
quoted : parse_line ip starts (codes "iso.3.6 = \"abc\"" ∷ []) false ≡ err generic
unfolding parse_line parse_ints_from_string split parse_uint parse_int decode_string
quoted = refl

opaque_line : parse_line ip starts (codes "iso.3.6 = Opaque: abc" ∷ []) false ≡ panic
unfolding parse_line parse_ints_from_string split parse_uint parse_int
opaque_line = refl

parse_line-Shrinks_example : Shrinks (codes "iso.3.6 = INTEGER: 5" ∷ []) two_values
parse_line-Shrinks_example =
    parse_line-Shrinks ip starts two_values false (system, octet_string (97 ∷ 13 ∷ 10 ∷ 98 ∷ []))
      (codes "iso.3.6 = INTEGER: 5" ∷ []) string_lines

parse_line-Fine_example : Fine (IsOpaque two_values) (parse_line ip starts two_values true)
parse_line-Fine_example = parse_line-Fine ip starts two_values true

read-Fine_example :
    Fine (Any IsOpaqueLine two_values) (read ip starts keep (some generic) two_values [])
read-Fine_example = read-Fine ip starts keep (some generic) two_values []

-- A panic behind a value.
opaque_read :
    read ip starts keep none (codes "iso.3.6 = INTEGER: 5" ∷ codes "iso.3.6 = Opaque: abc" ∷ []) []
    ≡ panic
unfolding read starts keep parse_ints_from_string split parse_uint parse_int
opaque_read = refl

-- The last string keeps its quote and gains a line break.
last_text :
    read ip starts keep none (codes "iso.3.6 = STRING: \"a" ∷ codes "b\"" ∷ []) []
    ≡ ok ((system, octet_string (97 ∷ 13 ∷ 10 ∷ 98 ∷ 34 ∷ 13 ∷ 10 ∷ [])) ∷ [], none)
unfolding read starts keep parse_ints_from_string split parse_uint parse_int
last_text = refl
