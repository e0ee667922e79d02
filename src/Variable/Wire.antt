-- ===== src/Variable/Wire.antt =====
-- The encodings of values: the `Marshal` and `Unmarshal` methods of variables.go and the functions
-- `unmarshalVariable` to `unmarshalString`.
pub mod RoundTrip
pub mod Decode
mod Tests
use snmpclient.Prelude.{
  ℕ, ◌^◌, ◌≡◌, Option, none, some, List, [], ◌∷◌, Bytes, Outcome, ok, err, panic, asn1, ◌>>=◌, ◌==◌,
  if◌then◌else◌,
}
use snmpclient.Prelude.Int.{ℤ, pos, wrap}
use snmpclient.Oid.{new_oid}
use snmpclient.Variable.{
  Variable, integer, octet_string, null, oid, ipaddress, counter32, gauge32, time_ticks, opaque,
  counter64, no_suche_object, no_suche_instance, end_of_mib_view,
}
use snmpclient.Asn1.{
  Asn1, Parser, RawValue, class_universal, class_application, class_context_specific,
}

-- `b[0] = tag`.
unfoldable pub set_tag : ℕ → Bytes → Outcome Bytes
set_tag tag [] = panic
set_tag tag (t ∷ s) = ok (tag ∷ s)

unfoldable pub validate_unmarshal : Bytes → ℕ → Outcome {0} Unit
validate_unmarshal [] tag = err asn1
validate_unmarshal (t ∷ s) tag = if t == tag then ok tt else err asn1

-- The tags of a universal value, and the numbers in the tags of the other two classes.
unfoldable pub universal_variable : ℕ → Option Variable
universal_variable tag =
    if tag == 2
    then some (integer (pos 0))
    else if tag == 4
    then some (octet_string [])
    else if tag == 5
    then some null
    else if tag == 6
    then some (oid (new_oid []))
    else none

unfoldable pub application_variable : ℕ → Option Variable
application_variable tag =
    if tag == 0
    then some (ipaddress [])
    else if tag == 1
    then some (counter32 0)
    else if tag == 2
    then some (gauge32 0)
    else if tag == 3
    then some (time_ticks 0)
    else if tag == 4
    then some (opaque [])
    else if tag == 6
    then some (counter64 0)
    else none

unfoldable pub context_variable : ℕ → Option Variable
context_variable tag =
    if tag == 0
    then some no_suche_object
    else if tag == 1
    then some no_suche_instance
    else if tag == 2
    then some end_of_mib_view
    else none

-- The empty value of the type that the class and the tag stand for.
unfoldable pub new_for : RawValue → Option Variable
unfolding universal_variable application_variable context_variable
new_for raw =
    if raw.class == class_universal
    then universal_variable raw.tag
    else if raw.class == class_application
    then application_variable raw.tag
    else if raw.class == class_context_specific
    then context_variable raw.tag
    else none

module _ (a : Asn1) where
  unfoldable pub marshal : Variable → Outcome Bytes
  unfolding set_tag
  marshal (integer z) = a.marshal_int z
  marshal (octet_string b) = a.marshal_octets b
  marshal null = ok (5 ∷ 0 ∷ [])
  marshal (oid o) = a.marshal_oid o.value
  marshal (ipaddress b) = do buf ← a.marshal_octets b; set_tag 0x40 buf
  marshal (counter32 n) = do buf ← a.marshal_int (pos n); set_tag 0x41 buf
  marshal (gauge32 n) = do buf ← a.marshal_int (pos n); set_tag 0x42 buf
  marshal (time_ticks n) = do buf ← a.marshal_int (pos n); set_tag 0x43 buf
  marshal (opaque b) = do buf ← a.marshal_octets b; set_tag 0x44 buf
  marshal (counter64 n) = do buf ← a.marshal_big (pos n); set_tag 0x46 buf
  marshal no_suche_object = ok (0x80 ∷ 0 ∷ [])
  marshal no_suche_instance = ok (0x81 ∷ 0 ∷ [])
  marshal end_of_mib_view = ok (0x82 ∷ 0 ∷ [])

  unfoldable pub unmarshal_empty : Bytes → ℕ → Outcome Bytes
  unfolding validate_unmarshal
  unmarshal_empty b tag = do _ ← validate_unmarshal b tag; (raw, rest) ← a.unmarshal_raw b; ok rest

  -- The first byte is `asn1.TagInteger` for the call; `setter` is the value made of the result.
  unfoldable pub unmarshal_int : Bytes → ℕ → (ℤ → Variable) → Outcome (Variable × Bytes)
  unfolding validate_unmarshal set_tag
  unmarshal_int b tag setter = do
    _ ← validate_unmarshal b tag
    int ← set_tag 2 b
    (i, rest) ← a.unmarshal_big int
    ok (setter i, rest)

  unfoldable pub unmarshal_string : {A : Type 0} → Bytes → ℕ → (Bytes → A) → Outcome (A × Bytes)
  unfolding validate_unmarshal set_tag
  unmarshal_string b tag setter = do
    _ ← validate_unmarshal b tag
    octets ← set_tag 4 b
    (s, rest) ← a.unmarshal_octets octets
    ok (setter s, rest)

  -- `v.Unmarshal(b)`, with the value that `v` then holds.
  unfoldable pub unmarshal : Variable → Parser Variable
  unfolding unmarshal_empty unmarshal_int unmarshal_string
  unmarshal (integer _) b = do (i, rest) ← a.unmarshal_int b; ok (integer i, rest)
  unmarshal (octet_string _) b = unmarshal_string b 4 octet_string
  unmarshal null b = do rest ← unmarshal_empty b 5; ok (null, rest)
  unmarshal (oid _) b = do (i, rest) ← a.unmarshal_oid b; ok (oid (new_oid i), rest)
  unmarshal (ipaddress _) b = unmarshal_string b 0x40 ipaddress
  unmarshal (counter32 _) b = unmarshal_int b 0x41 (λ i. counter32 (wrap (2 ^ 32) (a.big_int64 i)))
  unmarshal (gauge32 _) b = unmarshal_int b 0x42 (λ i. gauge32 (wrap (2 ^ 32) (a.big_int64 i)))
  unmarshal (time_ticks _) b =
      unmarshal_int b 0x43 (λ i. time_ticks (wrap (2 ^ 32) (a.big_int64 i)))
  unmarshal (opaque _) b = unmarshal_string b 0x44 opaque
  unmarshal (counter64 _) b = unmarshal_int b 0x46 (λ i. counter64 (a.big_uint64 i))
  unmarshal no_suche_object b = do rest ← unmarshal_empty b 0x80; ok (no_suche_object, rest)
  unmarshal no_suche_instance b = do rest ← unmarshal_empty b 0x81; ok (no_suche_instance, rest)
  unmarshal end_of_mib_view b = do rest ← unmarshal_empty b 0x82; ok (end_of_mib_view, rest)

  -- A class and a tag of no type are an error.
  unfoldable pub unmarshal_new : Option Variable → Parser Variable
  unfolding unmarshal
  unmarshal_new none b = err asn1
  unmarshal_new (some v) b = unmarshal v b

  unfoldable pub unmarshal_variable : Parser Variable
  unfolding new_for unmarshal_new
  unmarshal_variable b = do (raw, _) ← a.unmarshal_raw b; unmarshal_new (new_for raw) b
