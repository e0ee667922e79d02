-- ===== src/Variable/Wire/Decode.antt =====
-- `unmarshalVariable` of variables.go on arbitrary bytes.
use snmpclient.Prelude.{
  ℕ, Bool, true, false, Option, none, some, [], ◌∷◌, Bytes, Outcome, ok, err, asn1, ◌>>=◌, Returns,
  ok-Returns, err-Returns, >>=-Returns, ◌==◌, if◌then◌else◌,
}
use snmpclient.Prelude.Int.{ℤ}
use snmpclient.Variable.{
  Variable, integer, octet_string, null, oid, ipaddress, counter32, gauge32, time_ticks, opaque,
  counter64, no_suche_object, no_suche_instance, end_of_mib_view,
}
use snmpclient.Asn1.{Asn1}
use snmpclient.Variable.Wire.{
  set_tag, validate_unmarshal, new_for, unmarshal_empty, unmarshal_int, unmarshal_string, unmarshal,
  unmarshal_new, unmarshal_variable,
}

-- A failed test of the first byte ends the call, so that the byte is there to be replaced.
behind_tag :
    {A : Type 0} (b : Bytes) (tag t : ℕ) (f : Bytes → Outcome A)
    → ((s : Bytes) → Returns (f s))
    → Returns (validate_unmarshal b tag >>= λ _. set_tag t b >>= f)
unfolding validate_unmarshal set_tag
behind_tag [] tag t f h = err-Returns asn1
behind_tag (c ∷ s) tag t f h = tested (c == tag)
  where
    tested :
        (same : Bool)
        → Returns ((if same then ok tt else err asn1) >>= λ (_ : Unit {0}). ok (t ∷ s) >>= f)
    tested true = h (t ∷ s)
    tested false = err-Returns asn1

validate-Returns : (b : Bytes) (tag : ℕ) → Returns (validate_unmarshal b tag)
unfolding validate_unmarshal
validate-Returns [] tag = err-Returns asn1
validate-Returns (c ∷ s) tag = tested (c == tag)
  where
    tested : (same : Bool) → Returns {X = Unit {0}} (if same then ok tt else err asn1)
    tested true = ok-Returns tt
    tested false = err-Returns asn1

module _ (a : Asn1) where
  unmarshal_empty-Returns : (b : Bytes) (tag : ℕ) → Returns (unmarshal_empty a b tag)
  unfolding unmarshal_empty
  unmarshal_empty-Returns b tag =
      >>=-Returns (validate_unmarshal b tag) _ (validate-Returns b tag)
        (λ _ _. >>=-Returns (a.unmarshal_raw b) _ (a.raw_returns b) (λ x _. ok-Returns x.1))

  unmarshal_int-Returns :
      (b : Bytes) (tag : ℕ) (f : ℤ → Variable) → Returns (unmarshal_int a b tag f)
  unfolding unmarshal_int
  unmarshal_int-Returns b tag f =
      behind_tag b tag 2 _
        (λ s. >>=-Returns (a.unmarshal_big s) _ (a.big_returns s) (λ x _. ok-Returns _))

  pub unmarshal_string-Returns :
      {A : Type 0} (b : Bytes) (tag : ℕ) (f : Bytes → A) → Returns (unmarshal_string a b tag f)
  unfolding unmarshal_string
  unmarshal_string-Returns b tag f =
      behind_tag b tag 4 _
        (λ s. >>=-Returns (a.unmarshal_octets s) _ (a.octets_returns s) (λ x _. ok-Returns _))

  empty_as :
      (v : Variable) (b : Bytes) (tag : ℕ)
      → Returns {X = Variable × Bytes} (unmarshal_empty a b tag >>= λ rest. ok (v, rest))
  empty_as v b tag =
      >>=-Returns (unmarshal_empty a b tag) _ (unmarshal_empty-Returns b tag)
        (λ rest _. ok-Returns _)

  unmarshal-Returns : (v : Variable) (b : Bytes) → Returns (unmarshal a v b)
  unfolding unmarshal
  unmarshal-Returns (integer _) b =
      >>=-Returns (a.unmarshal_int b) _ (a.int_returns b) (λ x _. ok-Returns _)
  unmarshal-Returns (octet_string _) b = unmarshal_string-Returns b 4 octet_string
  unmarshal-Returns null b = empty_as null b 5
  unmarshal-Returns (oid _) b =
      >>=-Returns (a.unmarshal_oid b) _ (a.oid_returns b) (λ x _. ok-Returns _)
  unmarshal-Returns (ipaddress _) b = unmarshal_string-Returns b 0x40 ipaddress
  unmarshal-Returns (counter32 _) b = unmarshal_int-Returns b 0x41 _
  unmarshal-Returns (gauge32 _) b = unmarshal_int-Returns b 0x42 _
  unmarshal-Returns (time_ticks _) b = unmarshal_int-Returns b 0x43 _
  unmarshal-Returns (opaque _) b = unmarshal_string-Returns b 0x44 opaque
  unmarshal-Returns (counter64 _) b = unmarshal_int-Returns b 0x46 _
  unmarshal-Returns no_suche_object b = empty_as no_suche_object b 0x80
  unmarshal-Returns no_suche_instance b = empty_as no_suche_instance b 0x81
  unmarshal-Returns end_of_mib_view b = empty_as end_of_mib_view b 0x82

  unmarshal_new-Returns : (m : Option Variable) (b : Bytes) → Returns (unmarshal_new a m b)
  unfolding unmarshal_new
  unmarshal_new-Returns none b = err-Returns asn1
  unmarshal_new-Returns (some v) b = unmarshal-Returns v b

  -- Whatever the bytes are, `unmarshalVariable` gives a value or an error.
  pub unmarshal_variable-Returns : (b : Bytes) → Returns (unmarshal_variable a b)
  unfolding unmarshal_variable
  unmarshal_variable-Returns b =
      >>=-Returns (a.unmarshal_raw b) _ (a.raw_returns b)
        (λ x _. unmarshal_new-Returns (new_for x.0) b)
