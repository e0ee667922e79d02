-- ===== src/Pdu/Wire/Decode.antt =====
-- `Unmarshal` of protocol data units on arbitrary bytes (pdu.go).
use snmpclient.Prelude.{
  ℕ, zero, suc, ◌≤◌, ◌<◌, ◌≡◌, Bool, true, false, ◌&&◌, [], ◌∷◌, Bytes, Outcome, ok, err, asn1,
  Returns, ok-Returns, err-Returns, >>=-Returns, >>=-elim, length, ◌==◌, if◌then◌else◌, arith,
}
use snmpclient.Variable.Wire.{unmarshal_variable}
use snmpclient.Variable.Wire.Decode.{unmarshal_variable-Returns, unmarshal_string-Returns}
use snmpclient.Asn1.{Asn1, class_context_specific}
use snmpclient.Pdu.{VariableBinding, PduV1, Pdu, v1, scoped, empty_pdu, trap, get_request}
use snmpclient.Pdu.Wire.{
  is_sequence, unmarshal_binding, unmarshal_bindings, unmarshal_address, unmarshal_trap,
  unmarshal_request, unmarshal_fields, unmarshal_pdu, unmarshal_scoped, unmarshal_any,
}

pub guarded {ℓ} :
    {A : Type ℓ} (good : Bool) (body : Outcome A)
    → Returns body
    → Returns (if good then body else err asn1)
guarded true body h = h
guarded false body h = err-Returns asn1

pub guarded-eq-ok {ℓ} :
    {A : Type ℓ} (good : Bool) (body : Outcome A) {y : A}
    → (if good then body else err asn1) ≡ ok y
    → body ≡ ok y
guarded-eq-ok true body h = h
guarded-eq-ok false body h = ground arith

rest_eq :
    (v w : VariableBinding) (r s : Bytes)
    → ◌≡◌ {A = Outcome (VariableBinding × Bytes)} (ok (v, r)) (ok (w, s))
    → s ≡ r
rest_eq v w r s h = ground arith

module _ (a : Asn1) where
  binding-Returns : (b : Bytes) → Returns (unmarshal_binding a b)
  unfolding unmarshal_binding
  binding-Returns b = >>=-Returns (a.unmarshal_raw b) _ (a.raw_returns b) (λ x _.
      guarded (is_sequence x.0) _ (
        >>=-Returns (a.unmarshal_oid x.0.content) _ (a.oid_returns x.0.content) (λ y _.
          >>=-Returns (unmarshal_variable a y.1) _ (unmarshal_variable-Returns a y.1)
            (λ z _. ok-Returns _))))

  binding_shrinks :
      (b : Bytes) (v : VariableBinding) (r : Bytes)
      → unmarshal_binding a b ≡ ok (v, r)
      → length r < length b
  unfolding unmarshal_binding
  binding_shrinks b v r h = >>=-elim (a.unmarshal_raw b) _ h (λ x e h1.
      >>=-elim (a.unmarshal_oid x.0.content) _ (guarded-eq-ok (is_sequence x.0) _ h1) (λ y _ h2.
        >>=-elim (unmarshal_variable a y.1) _ h2
          (λ z _ h3. rw (rest_eq _ v x.1 r h3) (a.raw_shrinks b x.0 x.1 e))))

  bindings-Returns :
      (fuel : ℕ) (b : Bytes) → length b ≤ fuel → Returns (unmarshal_bindings a fuel b)
  unfolding unmarshal_bindings
  bindings-Returns zero [] fits = ok-Returns []
  bindings-Returns (suc fuel) [] fits = ok-Returns []
  bindings-Returns zero (c ∷ b) fits = absurd (omega arith)
  bindings-Returns (suc fuel) (c ∷ b) fits =
      >>=-Returns (unmarshal_binding a (c ∷ b)) _ (binding-Returns (c ∷ b)) (λ x e.
        let shrinks = binding_shrinks (c ∷ b) x.0 x.1 e in
        >>=-Returns (unmarshal_bindings a fuel x.1) _
          (bindings-Returns fuel x.1 (omega (arith, shrinks))) (λ vs _. ok-Returns _))

  address-Returns : (b : Bytes) → Returns (unmarshal_address a b)
  unfolding unmarshal_address
  address-Returns b = unmarshal_string-Returns a b 0x40 (λ s. s)

  fields-Returns : (pdu : PduV1) (b : Bytes) → Returns (unmarshal_fields a pdu b)
  unfolding unmarshal_fields unmarshal_trap unmarshal_request
  fields-Returns pdu b = by_type (pdu.pdu_type == trap)
    where
      by_type :
          (is_trap : Bool)
          → Returns (if is_trap then unmarshal_trap a pdu b else unmarshal_request a pdu b)
      by_type true = >>=-Returns (a.unmarshal_oid b) _ (a.oid_returns b) (λ e _.
          >>=-Returns (unmarshal_address a e.1) _ (address-Returns e.1) (λ ag _.
            >>=-Returns (a.unmarshal_int ag.1) _ (a.int_returns ag.1) (λ g _.
              >>=-Returns (a.unmarshal_int g.1) _ (a.int_returns g.1) (λ s _.
                >>=-Returns (a.unmarshal_raw s.1) _ (a.raw_returns s.1) (λ t _. ok-Returns _)))))
      by_type false = >>=-Returns (a.unmarshal_int b) _ (a.int_returns b) (λ i _.
          >>=-Returns (a.unmarshal_int i.1) _ (a.int_returns i.1)
            (λ e _. >>=-Returns (a.unmarshal_int e.1) _ (a.int_returns e.1) (λ x _. ok-Returns _)))

  pub pdu-Returns : (pdu : PduV1) (b : Bytes) → Returns (unmarshal_pdu a pdu b)
  unfolding unmarshal_pdu
  pdu-Returns pdu b = >>=-Returns (a.unmarshal_raw b) _ (a.raw_returns b) (λ x _.
      guarded ((x.0.class == class_context_specific) && x.0.is_compound) _ (
        >>=-Returns (unmarshal_fields a (empty_pdu x.0.tag) x.0.content) _
          (fields-Returns (empty_pdu x.0.tag) x.0.content)
          (λ f _. >>=-Returns (a.unmarshal_raw f.1) _ (a.raw_returns f.1) (λ vbs _.
            guarded (is_sequence vbs.0) _ (
              >>=-Returns (unmarshal_bindings a (length vbs.0.content) vbs.0.content) _
                (bindings-Returns (length vbs.0.content) vbs.0.content (omega arith))
                (λ bs _. ok-Returns _))))))

  scoped-Returns : (b : Bytes) → Returns (unmarshal_scoped a b)
  unfolding unmarshal_scoped
  scoped-Returns b = >>=-Returns (a.unmarshal_raw b) _ (a.raw_returns b) (λ x _.
      guarded (is_sequence x.0) _ (
        >>=-Returns (a.unmarshal_octets x.0.content) _ (a.octets_returns x.0.content) (λ e _.
          >>=-Returns (a.unmarshal_octets e.1) _ (a.octets_returns e.1) (λ n _.
            >>=-Returns (unmarshal_pdu a (empty_pdu get_request) n.1) _
              (pdu-Returns (empty_pdu get_request) n.1) (λ p _. ok-Returns _)))))

  -- Whatever the bytes are and whichever unit they are read into, `Unmarshal` gives a unit or an
  -- error: it does not panic, and the loop over the bindings ends.
  pub unmarshal_any-Returns : (pdu : Pdu) (b : Bytes) → Returns (unmarshal_any a pdu b)
  unfolding unmarshal_any
  unmarshal_any-Returns (v1 p) b =
      >>=-Returns (unmarshal_pdu a p b) _ (pdu-Returns p b) (λ x _. ok-Returns _)
  unmarshal_any-Returns (scoped p) b =
      >>=-Returns (unmarshal_scoped a b) _ (scoped-Returns b) (λ x _. ok-Returns _)
