-- ===== src/Variable/Wire/Tests.antt =====
-- The encodings of concrete values.
use snmpclient.Prelude.{◌≡◌, refl, [], ◌∷◌, ok, arith}
use snmpclient.Variable.{counter32, end_of_mib_view}
use snmpclient.Asn1.Sample.{sample, tlv}
use snmpclient.Variable.Wire.{marshal, unmarshal_variable}
use snmpclient.Variable.Wire.RoundTrip.{unmarshal_variable-marshal}

encoding : marshal sample (counter32 7) ≡ ok (0x41 ∷ 2 ∷ 0 ∷ 7 ∷ [])
unfolding marshal sample
encoding = refl

decoding : unmarshal_variable sample (0x82 ∷ 0 ∷ 9 ∷ []) ≡ ok (end_of_mib_view, 9 ∷ [])
unfolding unmarshal_variable sample tlv
decoding = refl

unmarshal_variable-marshal_example :
    unmarshal_variable sample (0x41 ∷ 2 ∷ 0 ∷ 7 ∷ 5 ∷ 0 ∷ []) ≡ ok (counter32 7, 5 ∷ 0 ∷ [])
unmarshal_variable-marshal_example =
    unmarshal_variable-marshal sample (counter32 7) (0x41 ∷ 2 ∷ 0 ∷ 7 ∷ []) (5 ∷ 0 ∷ [])
      (omega arith) encoding
