-- ===== src/Variable.antt =====
-- The SNMP values: the types that implement `Variable` in variables.go, their accessors and
-- `Syntex` tags. A method that the type does not support panics.
pub mod Text
pub mod As
pub mod Wire
mod Tests
use snmpclient.Prelude.{
  ℕ, zero, suc, ◌+◌, ◌-◌, ◌*◌, ◌%◌, ◌^◌, ◌≤◌, ◌<◌, ◌≡◌, Bool, true, false, Option, none, some, List,
  [], ◌∷◌, ◌++◌, Bytes, codes, Outcome, ok, err, panic, generic, ◌>>=◌, All, length, ltb, leb, ◌==◌,
  if◌then◌else◌,
}
use snmpclient.Prelude.Int.{ℤ, pos, negsuc, pos_part, neg_part, ltb_ℤ, wrap, signed}
use snmpclient.Golang.Hex.{IsByte}
use snmpclient.Oid.{Oid}
use snmpclient.Oid.Text.{IsSubId}

-- The value in each is the one field of the struct; an `int` has 64 bits.
pub data Variable : Type 0 where
  integer : ℤ → Variable
  octet_string : Bytes → Variable
  null : Variable
  oid : Oid → Variable
  ipaddress : Bytes → Variable
  counter32 : ℕ → Variable
  gauge32 : ℕ → Variable
  time_ticks : ℕ → Variable
  opaque : Bytes → Variable
  counter64 : ℕ → Variable
  no_suche_object no_suche_instance end_of_mib_view : Variable

abbrev pub max_int32 : ℕ
max_int32 = 2 ^ 31 - 1

abbrev pub max_int64 : ℕ
max_int64 = 2 ^ 63 - 1

abbrev pub max_uint64 : ℕ
max_uint64 = 2 ^ 64 - 1

-- What the Go types of the fields guarantee.
abbrev pub InRange : Variable → Type 0
InRange (integer z) = (pos_part z ≤ max_int64) × (neg_part z ≤ 2 ^ 63)
InRange (octet_string b) = All IsByte b
InRange (ipaddress b) = All IsByte b
InRange (opaque b) = All IsByte b
InRange (counter32 n) = n < 2 ^ 32
InRange (gauge32 n) = n < 2 ^ 32
InRange (time_ticks n) = n < 2 ^ 32
InRange (counter64 n) = n < 2 ^ 64
InRange _ = Unit

unfoldable pub is_error : Variable → Bool
is_error no_suche_object = true
is_error no_suche_instance = true
is_error end_of_mib_view = true
is_error _ = false

unfoldable pub error_message : Variable → Outcome Bytes
error_message no_suche_object = ok (codes "NoSucheObject")
error_message no_suche_instance = ok (codes "NoSucheInstance")
error_message end_of_mib_view = ok (codes "EndOfMibView")
error_message _ = panic

-- `uint32(b) << uint(24-8*i)`: from the fifth byte on the shift count is huge, and the result 0.
shifted_byte : ℕ → ℕ → ℕ
shifted_byte i b = if ltb i 4 then b * 2 ^ (24 - 8 * i) % 2 ^ 32 else 0

ip_number_from : ℕ → ℕ → Bytes → ℕ
unfolding shifted_byte
ip_number_from i t [] = t
ip_number_from i t (b ∷ bs) = ip_number_from (suc i) ((t + shifted_byte i b) % 2 ^ 32) bs

unfoldable pub ip_number : Bytes → ℕ
unfolding ip_number_from
ip_number = ip_number_from 0 0

unfoldable pub int : Variable → Outcome ℤ
int (integer z) = ok z
int (ipaddress b) = ok (pos (ip_number b))
int (counter32 n) = ok (pos n)
int (gauge32 n) = ok (pos n)
int (time_ticks n) = ok (pos n)
int (counter64 n) = if ltb max_int64 n then panic else ok (pos n)
int _ = panic

unfoldable pub uint : Variable → Outcome ℕ
uint (integer z) = if ltb_ℤ z (pos 0) then panic else ok (pos_part z)
uint (ipaddress b) = ok (ip_number b)
uint (counter32 n) = ok n
uint (gauge32 n) = ok n
uint (time_ticks n) = ok n
uint (counter64 n) = ok n
uint _ = panic

unfoldable pub bytes : Variable → Outcome Bytes
bytes (octet_string b) = ok b
bytes (ipaddress b) = ok b
bytes (opaque b) = ok b
bytes _ = panic

-- The tags of asn1/common.go that `Syntex` returns.
unfoldable pub syntex : Variable → ℕ
syntex (integer z) = 2
syntex (octet_string b) = 4
syntex null = 5
syntex (oid o) = 6
syntex (ipaddress b) = 0x40
syntex (counter32 n) = 0x41
syntex (gauge32 n) = 0x42
syntex (time_ticks n) = 0x43
syntex (opaque b) = 0x44
syntex (counter64 n) = 0x46
syntex no_suche_object = 0x80
syntex no_suche_instance = 0x81
syntex end_of_mib_view = 0x82
