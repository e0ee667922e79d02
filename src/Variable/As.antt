-- ===== src/Variable/As.antt =====
-- The conversions of as.go.
use snmpclient.Prelude.{
  ℕ, ◌%◌, ◌^◌, ◌≤◌, ◌≡◌, ◌≢◌, Bool, true, false, ◌||◌, Option, none, some, arith, Bytes, Outcome,
  ok, err, panic, generic, ◌>>=◌, ltb, ◌==◌, if◌then◌else◌, ◌↔◌,
}
use snmpclient.Prelude.Int.{ℤ, pos, pos_part, neg_part, ltb_ℤ, ◌≤ℤ◌, wrap, signed}
use snmpclient.Variable.{
  Variable, integer, counter32, gauge32, time_ticks, counter64, max_int32, max_int64, InRange, int,
  uint, bytes, syntex,
}
use snmpclient.Oid.{max_uint32}

-- The tags that the `switch` statements of as.go group.
is_unsigned32 : ℕ → Bool
is_unsigned32 tag = (tag == 0x42) || (tag == 0x41) || (tag == 0x43)

abbrev pub to_int32 : ℤ → ℤ
to_int32 z = signed (2 ^ 31) (wrap (2 ^ 32) z)

unfoldable pub as_int64 : Variable → Outcome ℤ
unfolding syntex int uint is_unsigned32
as_int64 value =
    if syntex value == 2
    then int value
    else if is_unsigned32 (syntex value)
    then int value
    else if syntex value == 0x46
    then (do u ← uint value; if ltb max_int64 u then err generic else ok (signed (2 ^ 63) u))
    else err generic

unfoldable pub as_int32 : Variable → Outcome ℤ
unfolding syntex int uint is_unsigned32
as_int32 value =
    if syntex value == 2
    then (do i ← int value; ok (to_int32 i))
    else if is_unsigned32 (syntex value) || (syntex value == 0x46)
    then (do
      u32 ← uint value
      if ltb max_int32 u32 then err generic else ok (signed (2 ^ 31) (u32 % 2 ^ 32)))
    else err generic

unfoldable pub as_uint64 : Variable → Outcome ℕ
unfolding syntex int uint is_unsigned32
as_uint64 value =
    if syntex value == 2
    then (do i ← int value; if ltb_ℤ i (pos 0) then err generic else ok (wrap (2 ^ 64) i))
    else if is_unsigned32 (syntex value) || (syntex value == 0x46)
    then uint value
    else err generic

unfoldable pub as_uint32 : Variable → Outcome ℕ
unfolding syntex int uint is_unsigned32
as_uint32 value =
    if syntex value == 2
    then (do i ← int value; if ltb_ℤ i (pos 0) then err generic else ok (wrap (2 ^ 32) i))
    else if is_unsigned32 (syntex value)
    then (do u ← uint value; ok (u % 2 ^ 32))
    else if syntex value == 0x46
    then (do u64 ← uint value; if ltb max_uint32 u64 then err generic else ok (u64 % 2 ^ 32))
    else err generic

-- On a 64-bit platform `int` and `uint` hold every 32-bit result.
unfoldable pub as_int : Variable → Outcome ℤ
unfolding as_int32
as_int value = do a ← as_int32 value; ok a

unfoldable pub as_uint : Variable → Outcome ℕ
unfolding as_uint32
as_uint value = do a ← as_uint32 value; ok a

unfoldable pub as_string : Variable → Outcome Bytes
unfolding syntex bytes
as_string value =
    let tag = syntex value in
    if (tag == 4) || (tag == 12) || (tag == 19) || (tag == 27) || (tag == 0x44)
    then bytes value
    else err generic

-- The number that a numeric value stands for.
abbrev pub number : Variable → Option ℤ
number (integer z) = some z
number (counter32 n) = some (pos n)
number (gauge32 n) = some (pos n)
number (time_ticks n) = some (pos n)
number (counter64 n) = some (pos n)
number _ = none

as_64_total : (v : Variable) → (as_int64 v ≢ panic) × (as_uint64 v ≢ panic)
unfolding as_int64 as_uint64
as_64_total (integer z) = ground arith
as_64_total _ = ground arith

as_int64_iff :
    (v : Variable) (i : ℤ)
    → InRange v
    → (as_int64 v ≡ ok i) ↔ ((number v ≡ some i) × (i ≤ℤ pos max_int64))
unfolding as_int64
as_int64_iff (integer z) i r = ground arith
as_int64_iff (counter64 n) i r = ground arith
as_int64_iff _ i r = ground arith

as_uint64_iff :
    (v : Variable) (n : ℕ) → InRange v → (as_uint64 v ≡ ok n) ↔ (number v ≡ some (pos n))
unfolding as_uint64
as_uint64_iff (integer z) n r = ground arith
as_uint64_iff _ n r = ground arith

-- The 64-bit conversions never panic and are exact: they succeed exactly at the numeric values
-- that the result type holds, with the number that the value stands for.
pub as_64_exact :
    (v : Variable)
    → InRange v
    → (as_int64 v ≢ panic)
      × (as_uint64 v ≢ panic)
      × ((i : ℤ) → (as_int64 v ≡ ok i) ↔ ((number v ≡ some i) × (i ≤ℤ pos max_int64)))
      × ((n : ℕ) → (as_uint64 v ≡ ok n) ↔ (number v ≡ some (pos n)))
as_64_exact v r =
    ((as_64_total v).0, (as_64_total v).1, λ i. as_int64_iff v i r, λ n. as_uint64_iff v n r)

abbrev pub is_integer : Variable → Bool
is_integer (integer z) = true
is_integer _ = false

-- What the 32-bit conversions do with the number of a value: an `Integer` is cut to its low 32
-- bits, and an unsigned value that is too big is an error.
abbrev pub int32_of : Bool → Option ℤ → Outcome ℤ
int32_of signed_value none = err generic
int32_of true (some z) = ok (to_int32 z)
int32_of false (some z) = if ltb_ℤ (pos max_int32) z then err generic else ok z

abbrev pub uint32_of : Bool → Option ℤ → Outcome ℕ
uint32_of signed_value none = err generic
uint32_of true (some z) = if ltb_ℤ z (pos 0) then err generic else ok (wrap (2 ^ 32) z)
uint32_of false (some z) = if ltb_ℤ (pos max_uint32) z then err generic else ok (pos_part z)

-- The 32-bit conversions on every value: an error where the value has no number, or an unsigned
-- number that is too big, or, for `AsUint32`, a negative one; the low 32 bits of an `Integer`
-- otherwise, without an error where it does not fit; and the number itself of the other types.
pub as_32_cases :
    (v : Variable)
    → InRange v
    → (as_int32 v ≡ int32_of (is_integer v) (number v))
      × (as_uint32 v ≡ uint32_of (is_integer v) (number v))
unfolding as_int32 as_uint32
as_32_cases (integer z) r = ground arith
as_32_cases (counter64 n) r = ground arith
as_32_cases _ r = ground arith

-- Where the number of a value fits in 31 bits and a sign, `AsInt`, `AsInt32` and `AsInt64` all
-- give it.
pub as_int_agree :
    (v : Variable) (i : ℤ)
    → number v ≡ some i
    → pos_part i ≤ max_int32
    → neg_part i ≤ 2 ^ 31
    → (as_int v ≡ ok i) × (as_int32 v ≡ ok i) × (as_int64 v ≡ ok i)
unfolding as_int as_int32 as_int64
as_int_agree (integer z) i e hi lo = ground arith
as_int_agree _ i e hi lo = ground arith
