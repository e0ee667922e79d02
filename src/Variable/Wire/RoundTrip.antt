-- ===== src/Variable/Wire/RoundTrip.antt =====
-- `unmarshalVariable` on the encodings of values (variables.go).
use snmpclient.Prelude.{
  ℕ, ◌/◌, ◌%◌, ◌^◌, ◌<◌, ◌≡◌, refl, sym, false, Option, some, [], ◌∷◌, ◌++◌, arith, Bytes, Outcome,
  ok, ap, ◌∙◌, >>=-eq-ok, ◌>>=◌, ==_refl,
}
use snmpclient.Prelude.Int.{ℤ, pos, wrap}
use snmpclient.Variable.{
  Variable, integer, octet_string, null, oid, ipaddress, counter32, gauge32, time_ticks, opaque,
  counter64, no_suche_object, no_suche_instance, end_of_mib_view, InRange,
}
use snmpclient.Oid.{new_oid, IsIdentifier}
use snmpclient.Asn1.{Asn1, RawValue, Retags}
use snmpclient.Variable.Wire.{
  set_tag, validate_unmarshal, new_for, marshal, unmarshal_new, unmarshal_empty, unmarshal_int,
  unmarshal_string, unmarshal, unmarshal_variable,
}

-- The type that an identifier octet stands for.
abbrev for_tag : ℕ → Option Variable
unfolding new_for
for_tag t = new_for (record { class = t / 64; tag = t % 32; is_compound = false; content = [] })

new_for_lem :
    (raw : RawValue) (t : ℕ) → raw.class ≡ t / 64 → raw.tag ≡ t % 32 → new_for raw ≡ for_tag t
unfolding new_for for_tag
new_for_lem raw t c g = rw (c, g)

set_tag-eq-ok : (t t0 : ℕ) (s buf b : Bytes) → buf ≡ t0 ∷ s → set_tag t buf ≡ ok b → b ≡ t ∷ s
unfolding set_tag
set_tag-eq-ok t t0 s buf b e h = ground arith

ok_inj : {b b' : Bytes} → ◌≡◌ {A = Outcome Bytes} (ok b) (ok b') → b' ≡ b
ok_inj h = ground arith

-- A value in the range of its Go type, and an identifier that an encoding carries.
abbrev pub IsEncodable : Variable → Type 0
IsEncodable (oid o) = IsIdentifier o.value
IsEncodable v = InRange v

module _ (a : Asn1) where
  dispatch :
      (t0 t : ℕ) (buf s r : Bytes) (v : Variable)
      → (g : Retags a.unmarshal_raw t0 buf) → buf ≡ t0 ∷ s
      → t < 256
      → t % 32 < 31
      → for_tag t ≡ some v
      → unmarshal_variable a (t ∷ (s ++ r)) ≡ unmarshal a v (t ∷ (s ++ r))
  unfolding unmarshal_variable unmarshal_new
  dispatch t0 t buf s r v (s', e', f) e fits short p =
      let same : s' ≡ s = ground (arith, e, e') in
      let (raw, q, c, g) = f t r fits short in
      rw (
        ap (λ (l : Bytes). a.unmarshal_raw (t ∷ (l ++ r))) (sym same) ∙ q,
        new_for_lem raw t c g,
        p,
      )

  number_back :
      (t : ℕ) (buf s r : Bytes) (z : ℤ) (f : ℤ → Variable)
      → buf ≡ 2 ∷ s
      → a.unmarshal_big (buf ++ r) ≡ ok (z, r)
      → unmarshal_int a (t ∷ (s ++ r)) t f ≡ ok (f z, r)
  unfolding unmarshal_int validate_unmarshal set_tag
  number_back t buf s r z f e h =
      rw (==_refl t, ap (λ (l : Bytes). a.unmarshal_big (l ++ r)) (sym e) ∙ h)

  octets_back :
      {A : Type 0} (t : ℕ) (buf s r x : Bytes) (f : Bytes → A)
      → buf ≡ 4 ∷ s
      → a.marshal_octets x ≡ ok buf
      → unmarshal_string a (t ∷ (s ++ r)) t f ≡ ok (f x, r)
  unfolding unmarshal_string validate_unmarshal set_tag
  octets_back t buf s r x f e h =
      rw (
        ==_refl t,
        ap (λ (l : Bytes). a.unmarshal_octets (l ++ r)) (sym e) ∙ a.octets_back x buf r h,
      )

  -- `Unmarshal` of an address on the bytes that its `Marshal` writes.
  pub address_back :
      (x b r : Bytes)
      → marshal a (ipaddress x) ≡ ok b
      → unmarshal_string a (b ++ r) 0x40 (λ s. s) ≡ ok (x, r)
  unfolding marshal
  address_back x b r h =
      let (buf, m, h') = >>=-eq-ok (a.marshal_octets x) _ h in
      let (s, e, _) = a.octets_tag x buf m in
      rw (set_tag-eq-ok 0x40 4 s buf b e h') (octets_back 0x40 buf s r x (λ (l : Bytes). l) e m)

  empty_back : (t : ℕ) (r : Bytes) → t < 256 → t % 32 < 31 → unmarshal_empty a (t ∷ 0 ∷ r) t ≡ ok r
  unfolding unmarshal_empty validate_unmarshal
  empty_back t r fits short =
      let (s, e, f) = a.empty_tag t in
      let same : s ≡ 0 ∷ [] = ground (arith, e) in
      let (raw, q, _, _) = f t r fits short in
      rw (==_refl t, ap (λ (l : Bytes). a.unmarshal_raw (t ∷ (l ++ r))) (sym same) ∙ q)

  -- The two that `Retags` gives: the bytes behind the identifier octet, and the type picked.
  number_variable :
      (t : ℕ) (n : ℤ) (v w : Variable) (f : ℤ → Variable) (buf b r : Bytes)
      → Retags a.unmarshal_raw 2 buf
      → a.unmarshal_big (buf ++ r) ≡ ok (n, r)
      → t < 256
      → t % 32 < 31
      → for_tag t ≡ some v
      → ((x : Bytes) → unmarshal a v x ≡ unmarshal_int a x t f)
      → f n ≡ w
      → set_tag t buf ≡ ok b
      → unmarshal_variable a (b ++ r) ≡ ok (w, r)
  number_variable t n v w f buf b r g back fits short p u m h =
      let (s, e, _) = g in
      rw (
        set_tag-eq-ok t 2 s buf b e h,
        dispatch 2 t buf s r v g e fits short p,
        u (t ∷ (s ++ r)),
        number_back t buf s r n f e back,
        m,
      )

  octets_variable :
      (t : ℕ) (x : Bytes) (v w : Variable) (f : Bytes → Variable) (buf b r : Bytes)
      → a.marshal_octets x ≡ ok buf
      → t < 256
      → t % 32 < 31
      → for_tag t ≡ some v
      → ((x : Bytes) → unmarshal a v x ≡ unmarshal_string a x t f)
      → f x ≡ w
      → set_tag t buf ≡ ok b
      → unmarshal_variable a (b ++ r) ≡ ok (w, r)
  octets_variable t x v w f buf b r marshalled fits short p u m h =
      let g = a.octets_tag x buf marshalled in
      let (s, e, _) = g in
      rw (
        set_tag-eq-ok t 4 s buf b e h,
        dispatch 4 t buf s r v g e fits short p,
        u (t ∷ (s ++ r)),
        octets_back t buf s r x f e marshalled,
        m,
      )

  empty_variable :
      (t : ℕ) (v : Variable) (r : Bytes)
      → t < 256
      → t % 32 < 31
      → for_tag t ≡ some v
      → unmarshal a v (t ∷ 0 ∷ r) ≡ (unmarshal_empty a (t ∷ 0 ∷ r) t >>= λ rest. ok (v, rest))
      → unmarshal_variable a (t ∷ 0 ∷ r) ≡ ok (v, r)
  empty_variable t v r fits short p u = rw (
    dispatch t t (t ∷ 0 ∷ []) (0 ∷ []) r v (a.empty_tag t) refl fits short p,
    u,
    empty_back t r fits short,
  )

  low_bits : (n : ℕ) → n < 2 ^ 32 → wrap (2 ^ 32) (a.big_int64 (pos n)) ≡ n
  low_bits n fits =
      let e : a.big_int64 (pos n) ≡ pos n = a.int64_fits n (omega arith) in rw e (omega arith)

  -- What `Marshal` writes for a value is read back by `unmarshalVariable`, whatever bytes follow
  -- it, if the value is in the range of its Go type, and an identifier has at least two
  -- sub-identifiers, the first at most 2 and the second below 40 if the first is not 2, whose
  -- numbers fit in an int.
  pub unmarshal_variable-marshal :
      (v : Variable) (b r : Bytes)
      → IsEncodable v
      → marshal a v ≡ ok b
      → unmarshal_variable a (b ++ r) ≡ ok (v, r)
  unfolding marshal unmarshal for_tag new_oid
  unmarshal_variable-marshal (integer z) b r _ h =
      let g = a.int_tag z b h in
      let (s, e, _) = g in
      rw e (
        rw (dispatch 2 2 b s r (integer (pos 0)) g e (omega arith) (omega arith) refl)
          (rw (ap (λ (l : Bytes). a.unmarshal_int (l ++ r)) (sym e) ∙ a.int_back z b r h)))
  unmarshal_variable-marshal (octet_string x) b r _ h =
      let g = a.octets_tag x b h in
      let (s, e, _) = g in
      rw e (
        rw (dispatch 4 4 b s r (octet_string []) g e (omega arith) (omega arith) refl)
          (octets_back 4 b s r x octet_string e h))
  unmarshal_variable-marshal null b r _ h =
      rw (ok_inj h) (empty_variable 5 null r (omega arith) (omega arith) refl refl)
  unmarshal_variable-marshal (oid o) b r named h =
      let g = a.oid_tag o.value b h in
      let (s, e, _) = g in
      rw e (
        rw (dispatch 6 6 b s r (oid (record { value = [] })) g e (omega arith) (omega arith) refl) (
          rw (
            ap (λ (l : Bytes). a.unmarshal_oid (l ++ r)) (sym e) ∙ a.oid_back o.value b r named h)))
  unmarshal_variable-marshal (ipaddress x) b r _ h =
      let (buf, m, h') = >>=-eq-ok (a.marshal_octets x) _ h in
      octets_variable 0x40 x (ipaddress []) (ipaddress x) ipaddress buf b r m (omega arith)
        (omega arith) refl (λ _. refl) refl h'
  unmarshal_variable-marshal (counter32 n) b r fits h =
      let (buf, m, h') = >>=-eq-ok (a.marshal_int (pos n)) _ h in
      number_variable 0x41 (pos n) (counter32 0) (counter32 n) _ buf b r (a.int_tag (pos n) buf m)
        (a.int_as_big (pos n) buf r m) (omega arith) (omega arith) refl (λ _. refl)
        (ap counter32 (low_bits n fits)) h'
  unmarshal_variable-marshal (gauge32 n) b r fits h =
      let (buf, m, h') = >>=-eq-ok (a.marshal_int (pos n)) _ h in
      number_variable 0x42 (pos n) (gauge32 0) (gauge32 n) _ buf b r (a.int_tag (pos n) buf m)
        (a.int_as_big (pos n) buf r m) (omega arith) (omega arith) refl (λ _. refl)
        (ap gauge32 (low_bits n fits)) h'
  unmarshal_variable-marshal (time_ticks n) b r fits h =
      let (buf, m, h') = >>=-eq-ok (a.marshal_int (pos n)) _ h in
      number_variable 0x43 (pos n) (time_ticks 0) (time_ticks n) _ buf b r (a.int_tag (pos n) buf m)
        (a.int_as_big (pos n) buf r m) (omega arith) (omega arith) refl (λ _. refl)
        (ap time_ticks (low_bits n fits)) h'
  unmarshal_variable-marshal (opaque x) b r _ h =
      let (buf, m, h') = >>=-eq-ok (a.marshal_octets x) _ h in
      octets_variable 0x44 x (opaque []) (opaque x) opaque buf b r m (omega arith) (omega arith)
        refl (λ _. refl) refl h'
  unmarshal_variable-marshal (counter64 n) b r fits h =
      let (buf, m, h') = >>=-eq-ok (a.marshal_big (pos n)) _ h in
      number_variable 0x46 (pos n) (counter64 0) (counter64 n) _ buf b r (a.big_tag (pos n) buf m)
        (a.big_back (pos n) buf r m) (omega arith) (omega arith) refl (λ _. refl)
        (ap counter64 (a.uint64_fits n fits)) h'
  unmarshal_variable-marshal no_suche_object b r _ h =
      rw (ok_inj h) (empty_variable 0x80 no_suche_object r (omega arith) (omega arith) refl refl)
  unmarshal_variable-marshal no_suche_instance b r _ h =
      rw (ok_inj h) (empty_variable 0x81 no_suche_instance r (omega arith) (omega arith) refl refl)
  unmarshal_variable-marshal end_of_mib_view b r _ h =
      rw (ok_inj h) (empty_variable 0x82 end_of_mib_view r (omega arith) (omega arith) refl refl)
