-- ===== src/Pdu/Wire/Items.antt =====
-- The bindings of a unit: `Unmarshal` on the bytes that `Marshal` writes (pdu.go).
use snmpclient.Prelude.{
  ◌≡◌, refl, sym, ap, ◌∙◌, Option, none, some, [], ◌++◌, arith, Bytes, ok, ◌>>=◌, append-nil,
  >>=-elim, ◌≤◌, ◌<◌, ◌∷◌, length, length-append, zero, suc, All, ℕ, List, Outcome,
}
use snmpclient.Oid.{new_oid, Oid, IsIdentifier}
use snmpclient.Variable.{Variable}
use snmpclient.Variable.Wire.{marshal, unmarshal_variable}
use snmpclient.Variable.Wire.RoundTrip.{IsEncodable, unmarshal_variable-marshal}
use snmpclient.Asn1.{Asn1, RawValue}
use snmpclient.Pdu.{VariableBinding}
use snmpclient.Pdu.Wire.{
  is_sequence, sequence, marshal_binding, unmarshal_binding, marshal_named, marshal_bindings,
  unmarshal_bindings,
}

-- The variable is there, and an encoding carries it.
abbrev pub IsBound : Option Variable → Type 0
IsBound none = ⊥
IsBound (some v) = IsEncodable v

-- An encoding carries the name and the variable of the binding.
abbrev pub IsBinding : VariableBinding → Type 0
IsBinding v = IsIdentifier v.name.value × IsBound v.variable

pub ok_inj : {b b' : Bytes} → ◌≡◌ {A = Outcome Bytes} (ok b) (ok b') → b' ≡ b
ok_inj h = ground arith

module _ (a : Asn1) where
  named_back :
      (name : Oid) (m : Option Variable) (b r : Bytes)
      → IsIdentifier name.value
      → IsBound m
      → marshal_named a name m ≡ ok b
      → unmarshal_binding a (b ++ r) ≡ ok (record { name = name; variable = m }, r)
  unfolding marshal_named unmarshal_binding is_sequence new_oid
  named_back name none b r named bound h = absurd bound
  named_back name (some x) b r named bound h = >>=-elim (a.marshal_oid name.value) _ h (λ o mo h'.
      >>=-elim (marshal a x) _ h' (λ buf mx h''.
        rw
          (
            a.raw_back (sequence (o ++ buf)) b r (omega arith) (omega arith) h'',
            a.oid_back name.value o buf named mo,
            ap (λ (l : Bytes). unmarshal_variable a l) (sym (append-nil buf))
                ∙ unmarshal_variable-marshal a x buf [] bound mx,
          )
          refl))

  -- A sequence is not empty.
  marshal_raw_some :
      (v : RawValue) (b : Bytes) → v.class < 4 → v.tag < 31 → a.marshal_raw v ≡ ok b → 0 < length b
  marshal_raw_some v b hk ht h =
      let e : a.unmarshal_raw (b ++ []) ≡ ok (v, []) = a.raw_back v b [] hk ht h in
      let shrinks = a.raw_shrinks (b ++ []) v [] e in omega (arith, length-append b [], shrinks)

  named_some :
      (name : Oid) (m : Option Variable) (b : Bytes)
      → IsBound m
      → marshal_named a name m ≡ ok b
      → 0 < length b
  unfolding marshal_named
  named_some name none b bound h = absurd bound
  named_some name (some x) b bound h = >>=-elim (a.marshal_oid name.value) _ h (λ o mo h'.
      >>=-elim (marshal a x) _ h'
        (λ buf mx h''. marshal_raw_some (sequence (o ++ buf)) b (omega arith) (omega arith) h''))

  unmarshal_bindings_step :
      (fuel : ℕ) (b : Bytes)
      → 0 < length b
      → unmarshal_bindings a (suc fuel) b
        ≡ (unmarshal_binding a b >>= λ x. unmarshal_bindings a fuel x.1 >>= λ vs. ok (x.0 ∷ vs))
  unfolding unmarshal_bindings
  unmarshal_bindings_step fuel [] h = absurd (omega arith)
  unmarshal_bindings_step fuel (c ∷ b) h = refl

  pub bindings_back :
      (vs : List VariableBinding) (fuel : ℕ) (b : Bytes)
      → All IsBinding vs
      → length b ≤ fuel
      → marshal_bindings a vs ≡ ok b
      → unmarshal_bindings a fuel b ≡ ok vs
  unfolding marshal_bindings marshal_binding unmarshal_bindings
  bindings_back [] fuel b _ fits h = rw (ok_inj h, unmarshal_bindings)
  bindings_back (v ∷ vs) zero b ((named, bound), all) fits h =
      >>=-elim (marshal_named a v.name v.variable) _ h (λ buf mv h'.
        >>=-elim (marshal_bindings a vs) _ h' (λ rest mvs h''.
          let some_bytes = named_some v.name v.variable buf bound mv in
          let e = ap (λ (l : Bytes). length l) (ok_inj h'') in
          absurd (omega (arith, length-append buf rest, e, some_bytes))))
  bindings_back (v ∷ vs) (suc fuel) b ((named, bound), all) fits h =
      >>=-elim (marshal_named a v.name v.variable) _ h (λ buf mv h'.
        >>=-elim (marshal_bindings a vs) _ h' (λ rest mvs h''.
          let some_bytes = named_some v.name v.variable buf bound mv in
          let e = ap (λ (l : Bytes). length l) (ok_inj h'') in
          let both = length-append buf rest in
          rw
            (
              ok_inj h'',
              unmarshal_bindings_step fuel (buf ++ rest) (omega (arith, both, some_bytes)),
              named_back v.name v.variable buf rest named bound mv,
              bindings_back vs fuel rest all (omega (arith, both, e, some_bytes)) mvs,
            )
            refl))
