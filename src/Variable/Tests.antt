-- ===== src/Variable/Tests.antt =====
-- The theorems on values at concrete values.
use snmpclient.Prelude.{
  ℕ, ◌≡◌, ◌≢◌, ◌↔◌, refl, true, some, arith, ok, panic, Bytes, codes, generic, one_of, [], ◌∷◌, err,
}
use snmpclient.Prelude.Int.{ℤ, pos, negsuc, ◌≤ℤ◌}
use snmpclient.Variable.{integer, counter64, max_int64, opaque, gauge32}
use snmpclient.Variable.As.{
  as_int64, as_uint64, as_int32, as_uint32, as_int, number, int32_of, uint32_of, as_64_exact,
  as_32_cases, as_int_agree,
}
use snmpclient.Variable.Text.{
  IpText, new_variable, string, to_string, of_type, new_integer_from_string,
  new_gauge32_from_string,
}
use snmpclient.Variable.Text.RoundTrip.{new_variable-string, opaque_text_lost}
use snmpclient.Golang.Strings.{split_once, to_lower}
use snmpclient.Golang.Strconv.{format_int, parse_int, parse_uint}

as_64_exact_example :
    (as_int64 (counter64 7) ≢ panic)
    × (as_uint64 (counter64 7) ≢ panic)
    × ((i : ℤ)
        → (as_int64 (counter64 7) ≡ ok i)
          ↔ ((number (counter64 7) ≡ some i) × (i ≤ℤ pos max_int64)))
    × ((n : ℕ) → (as_uint64 (counter64 7) ≡ ok n) ↔ (number (counter64 7) ≡ some (pos n)))
as_64_exact_example = as_64_exact (counter64 7) (omega arith)

as_32_cases_example :
    (as_int32 (integer (pos 4294967297)) ≡ int32_of true (some (pos 4294967297)))
    × (as_uint32 (integer (pos 4294967297)) ≡ uint32_of true (some (pos 4294967297)))
as_32_cases_example = as_32_cases (integer (pos 4294967297)) (omega arith, omega arith)

-- An `Integer` of 2 ^ 32 + 1 is cut to 1 without an error.
as_int32_truncates : as_int32 (integer (pos 4294967297)) ≡ ok (pos 1)
unfolding as_int32
as_int32_truncates = refl

as_int_agree_example :
    (as_int (integer (negsuc 4)) ≡ ok (negsuc 4))
    × (as_int32 (integer (negsuc 4)) ≡ ok (negsuc 4))
    × (as_int64 (integer (negsuc 4)) ≡ ok (negsuc 4))
as_int_agree_example = as_int_agree (integer (negsuc 4)) (negsuc 4) refl (omega arith) (omega arith)

-- Addresses as their four bytes, printed unchanged.
abbrev raw_ip : IpText
raw_ip = record { parse_ip = λ s. some (some s); print_ip = λ b. b; parse-print = λ b _ _. refl }

new_variable-string_example :
    new_variable raw_ip (string raw_ip (integer (negsuc 11))) ≡ ok (integer (negsuc 11))
new_variable-string_example =
    new_variable-string raw_ip (integer (negsuc 11)) (omega arith, omega arith)

opaque_text_lost_example : new_variable raw_ip (string raw_ip (opaque (1 ∷ 2 ∷ []))) ≡ err generic
opaque_text_lost_example = opaque_text_lost raw_ip 1 2 []

abbrev printed : Bytes
printed = codes "[int]-12"

print_negative : string raw_ip (integer (negsuc 11)) ≡ printed
unfolding string to_string format_int
print_negative = refl

parse_faults :
    (new_variable raw_ip (codes "[int]2147483648") ≡ err generic)
    × (new_variable raw_ip (codes "int 7") ≡ err generic)
    × (new_variable raw_ip (codes "[GAUGE]7") ≡ ok (gauge32 7))
unfolding new_variable of_type new_integer_from_string new_gauge32_from_string split_once to_lower
    one_of parse_int parse_uint
parse_faults = (refl, refl, refl)
