-- ===== src/Asn1.antt =====
-- What the code uses of the `asn1` package, with the laws it relies on: `Marshal` and `Unmarshal`
-- at the Go types that the messages consist of, and the two conversions of `big.Int`.
pub mod Sample
use snmpclient.Prelude.{
  ℕ, ◌/◌, ◌%◌, ◌^◌, ◌<◌, ◌≡◌, Bool, List, [], ◌∷◌, ◌++◌, Bytes, Outcome, ok, length, Returns,
}
use snmpclient.Prelude.Int.{ℤ, pos}
use snmpclient.Oid.{IsIdentifier}

-- `asn1.RawValue`; its `FullBytes` are read in a message only.
pub record RawValue : Type 0 where
  pub class : ℕ
  pub tag : ℕ
  pub is_compound : Bool
  pub content : Bytes

-- `asn1.ClassUniversal` to `asn1.ClassContextSpecific`.
abbrev pub class_universal : ℕ
class_universal = 0

abbrev pub class_application : ℕ
class_application = 1

abbrev pub class_context_specific : ℕ
class_context_specific = 2

abbrev pub tag_sequence : ℕ
tag_sequence = 16

abbrev pub Parser : Type 0 → Type 0
Parser A = Bytes → Outcome (A × Bytes)

-- The bytes begin with an identifier octet, in place of which any other one with a short tag
-- makes a raw value of its class and tag.
abbrev pub Retags : Parser RawValue → ℕ → Bytes → Type 0
Retags parse tag b =
    (s : Bytes) × (b ≡ tag ∷ s)
    × ((t : ℕ) (r : Bytes)
        → t < 256
        → t % 32 < 31
        → (raw : RawValue) × (parse (t ∷ (s ++ r)) ≡ ok (raw, r))
          × (raw.class ≡ t / 64)
          × (raw.tag ≡ t % 32))

pub record Asn1 : Type 0 where
  pub marshal_raw : RawValue → Outcome Bytes
  pub marshal_int : ℤ → Outcome Bytes
  pub marshal_big : ℤ → Outcome Bytes
  pub marshal_octets : Bytes → Outcome Bytes
  pub marshal_oid : List ℕ → Outcome Bytes
  pub unmarshal_raw : Parser RawValue
  pub unmarshal_int : Parser ℤ
  pub unmarshal_big : Parser ℤ
  pub unmarshal_octets : Parser Bytes
  pub unmarshal_oid : Parser (List ℕ)
  pub big_int64 : ℤ → ℤ
  pub big_uint64 : ℤ → ℕ
  -- A value is read back from its encoding, whatever follows it.
  pub raw_back :
      (v : RawValue) (b r : Bytes)
      → v.class < 4
      → v.tag < 31
      → marshal_raw v ≡ ok b
      → unmarshal_raw (b ++ r) ≡ ok (v, r)
  pub int_back : (z : ℤ) (b r : Bytes) → marshal_int z ≡ ok b → unmarshal_int (b ++ r) ≡ ok (z, r)
  pub int_as_big : (z : ℤ) (b r : Bytes) → marshal_int z ≡ ok b → unmarshal_big (b ++ r) ≡ ok (z, r)
  pub big_back : (z : ℤ) (b r : Bytes) → marshal_big z ≡ ok b → unmarshal_big (b ++ r) ≡ ok (z, r)
  pub octets_back :
      (s b r : Bytes) → marshal_octets s ≡ ok b → unmarshal_octets (b ++ r) ≡ ok (s, r)
  pub oid_back :
      (o : List ℕ) (b r : Bytes)
      → IsIdentifier o
      → marshal_oid o ≡ ok b
      → unmarshal_oid (b ++ r) ≡ ok (o, r)
  -- Each encoding begins with its universal tag.
  pub int_tag : (z : ℤ) (b : Bytes) → marshal_int z ≡ ok b → Retags unmarshal_raw 2 b
  pub big_tag : (z : ℤ) (b : Bytes) → marshal_big z ≡ ok b → Retags unmarshal_raw 2 b
  pub octets_tag : (s b : Bytes) → marshal_octets s ≡ ok b → Retags unmarshal_raw 4 b
  pub oid_tag : (o : List ℕ) (b : Bytes) → marshal_oid o ≡ ok b → Retags unmarshal_raw 6 b
  pub empty_tag : (t : ℕ) → Retags unmarshal_raw t (t ∷ 0 ∷ [])
  -- `Unmarshal` gives a value or an error.
  pub raw_returns : (b : Bytes) → Returns (unmarshal_raw b)
  pub int_returns : (b : Bytes) → Returns (unmarshal_int b)
  pub big_returns : (b : Bytes) → Returns (unmarshal_big b)
  pub octets_returns : (b : Bytes) → Returns (unmarshal_octets b)
  pub oid_returns : (b : Bytes) → Returns (unmarshal_oid b)
  -- `Marshal` gives bytes or an error.
  pub raw_written : (v : RawValue) → Returns (marshal_raw v)
  pub int_written : (z : ℤ) → Returns (marshal_int z)
  pub big_written : (z : ℤ) → Returns (marshal_big z)
  pub octets_written : (s : Bytes) → Returns (marshal_octets s)
  pub oid_written : (o : List ℕ) → Returns (marshal_oid o)
  -- A raw value has at least its identifier octet.
  pub raw_shrinks :
      (b : Bytes) (v : RawValue) (r : Bytes) → unmarshal_raw b ≡ ok (v, r) → length r < length b
  pub int64_fits : (n : ℕ) → n < 2 ^ 63 → big_int64 (pos n) ≡ pos n
  pub uint64_fits : (n : ℕ) → n < 2 ^ 64 → big_uint64 (pos n) ≡ n
