-- ===== src/Usm/Crypto/Ciphers.antt =====
-- `decrypt` on what `encrypt` makes (security.go).
use snmpclient.Prelude.{
  ℕ, zero, suc, ◌-◌, ◌%◌, ◌≡◌, refl, sym, ap, ◌∙◌, Bool, true, false, [], ◌∷◌, ◌++◌, Bytes, Outcome,
  ok, err, panic, generic, ◌>>=◌, >>=-elim, length, length-append, length-take, take, drop,
  replicate, one_of, ltb, ◌==◌, if◌then◌else◌, arith, append-nil,
}
use snmpclient.Prelude.Int.{ℤ}
use snmpclient.Util.{padding}
use snmpclient.Util.Values.{padding_lem}
use snmpclient.Asn1.{Asn1}
use snmpclient.MessageV3.{MessageV3, SecurityParameterV3, is_octets, octets}
use snmpclient.Usm.Crypto.{
  Crypto, slice, xor, be32, be64, encrypt_des, decrypt_des, encrypt_aes, decrypt_aes, encrypt_by,
  decrypt_by, encrypt, decrypt,
}

ok_inj : {b b' : Bytes} → ◌≡◌ {A = Outcome Bytes} (ok b) (ok b') → b' ≡ b
ok_inj h = ground arith

length-drop : (n : ℕ) (b : Bytes) → length (drop n b) ≡ length b - n
length-drop zero b = omega arith
length-drop (suc n) [] = omega arith
length-drop (suc n) (x ∷ b) = omega (arith, length-drop n b)

pub length-slice : (m n : ℕ) (b s : Bytes) → slice m n b ≡ ok s → length s ≡ n - m
unfolding slice
length-slice m n b s h = by_length (ltb (length b) n) refl h
  where
    by_length :
        (t : Bool)
        → ltb (length b) n ≡ t
        → (if t then panic else ok (drop m (take n b))) ≡ ok s
        → length s ≡ n - m
    by_length true e h = ground arith
    by_length false e h =
        rw (ok_inj h) (ground (arith, length-drop m (take n b), length-take n b, e))

pub length-xor : (a b s : Bytes) → xor a b ≡ ok s → length s ≡ length a
unfolding xor
length-xor [] b s h = rw (ok_inj h) refl
length-xor (x ∷ a) [] s h = ground arith
length-xor (x ∷ a) (y ∷ b) s h =
    >>=-elim (xor a b) _ h (λ r e h1. rw (ok_inj h1) (omega (arith, length-xor a b r e)))

pub length-be32 : (z : ℤ) → length (be32 z) ≡ 4
unfolding be32
length-be32 z = refl

length-be64 : (z : ℤ) → length (be64 z) ≡ 8
unfolding be64
length-be64 z = refl

first_inj :
    (d d' p p' : Bytes)
    → ◌≡◌ {A = Outcome (Bytes × Bytes)} (ok (d, p)) (ok (d', p'))
    → (d' ≡ d) × (p' ≡ p)
first_inj d d' p p' h = (ground arith, ground arith)

message_inj : (m e : MessageV3) → ◌≡◌ {A = Outcome MessageV3} (ok m) (ok e) → e ≡ m
message_inj m e h = ground arith

module _ (c : Crypto) where
  des_back :
      (src key : Bytes) (boots salt : ℤ) (dst priv : Bytes)
      → encrypt_des c src key boots salt ≡ ok (dst, priv)
      → (pad : Bytes) × (decrypt_des c dst key priv ≡ ok (src ++ pad))
  unfolding encrypt_des decrypt_des
  des_back src key boots salt dst priv h =
      let p : Bytes = be32 boots ++ be32 salt in
      let (pad, padded, whole, _, _, _) = padding_lem src in
      >>=-elim (slice 0 8 key) _ h (λ k mk h1. >>=-elim (slice 8 16 key) _ h1 (λ high mh h2.
        >>=-elim (xor high p) _ h2 (λ iv mv h3.
          let h4 : ok (c.des_cbc_encrypt k iv (src ++ pad), p) ≡ ok (dst, priv) =
            ap (λ o. o >>= λ t. ok (c.des_cbc_encrypt k iv t, p)) (sym padded) ∙ h3 in
          let (ed, ep) = first_inj _ _ _ _ h4 in
          let long : length p ≡ 8 =
            omega (
              arith,
              length-append (be32 boots) (be32 salt),
              length-be32 boots,
              length-be32 salt,
            ) in
          let lk : length k ≡ 8 = length-slice 0 8 key k mk in
          let lv : length iv ≡ 8 = length-xor high p iv mv ∙ length-slice 8 16 key high mh in
          let same : (length (c.des_cbc_encrypt k iv (src ++ pad)) % 8 == 0) ≡ true =
            rw (c.des_length k iv (src ++ pad) whole, whole) refl in
          (
            pad,
            rw (ed, ep, same, long, mk, mh, mv) (ap ok (c.des_back k iv (src ++ pad) lk lv whole)),
          ))))

  aes_back :
      (src key : Bytes) (boots time salt : ℤ) (dst priv : Bytes)
      → encrypt_aes c src key boots time salt ≡ ok (dst, priv)
      → (pad : Bytes) × (decrypt_aes c dst key priv boots time ≡ ok (src ++ pad))
  unfolding encrypt_aes decrypt_aes padding
  aes_back src key boots time salt dst priv h = >>=-elim (slice 0 16 key) _ h (λ k mk h1.
      let (ed, ep) = first_inj _ _ _ _ h1 in
      let pad : Bytes = replicate (16 - length src % 16) 0 in
      let iv : Bytes = (be32 boots ++ be32 time) ++ be64 salt in
      let lv : length iv ≡ 16 = refl in
      (pad, rw (ed, ep, mk) (ap ok (c.aes_back k iv (src ++ pad) (length-slice 0 16 key k mk) lv))))

  by_protocol :
      (is_des is_aes : Bool) (salt : ℤ) (s : SecurityParameterV3) (key src dst priv : Bytes)
      → (if is_des
          then encrypt_des c src key s.auth_engine_boots salt
          else if is_aes
          then encrypt_aes c src key s.auth_engine_boots s.auth_engine_time salt
          else err generic)
        ≡ ok (dst, priv)
      → (pad : Bytes) × ((if is_des
            then decrypt_des c dst key priv
            else if is_aes
            then decrypt_aes c dst key priv s.auth_engine_boots s.auth_engine_time
            else err generic)
          ≡ ok (src ++ pad))
  by_protocol true is_aes salt s key src dst priv h =
      des_back src key s.auth_engine_boots salt dst priv h
  by_protocol false true salt s key src dst priv h =
      aes_back src key s.auth_engine_boots s.auth_engine_time salt dst priv h
  by_protocol false false salt s key src dst priv h = ground arith

  decrypt_by-encrypt_by :
      (proto : Bytes) (salt : ℤ) (s : SecurityParameterV3) (key src dst priv : Bytes)
      → encrypt_by c proto salt s key src ≡ ok (dst, priv)
      → (pad : Bytes) × (decrypt_by c proto (record s { priv_parameter = priv }) key priv dst
          ≡ ok (src ++ pad))
  unfolding encrypt_by decrypt_by
  decrypt_by-encrypt_by proto salt s key src dst priv h =
      by_protocol (one_of proto ("DES" ∷ [])) (one_of proto ("AES" ∷ [])) salt s key src dst priv h

  -- What `encrypt` makes of a message, with DES or with AES, decrypts with the same key and the
  -- parameter that it has stored: in any message `w` that has the bytes of the one encrypted and
  -- its security parameters, but for the digest, `decrypt` puts the bytes of the unit back, with a
  -- padding behind them.
  pub decrypt-encrypt :
      (a : Asn1) (salt : ℤ) (m e w : MessageV3) (proto key d : Bytes)
      → encrypt c a salt m proto key ≡ ok e
      → w.security ≡ record e.security { auth_parameter = d }
      → w.message.pdu_bytes ≡ e.message.pdu_bytes
      → (pad : Bytes) × (decrypt c a w proto key w.security.priv_parameter
          ≡ ok (record w { message = record w.message { pdu_bytes = m.message.pdu_bytes ++ pad } }))
  unfolding encrypt decrypt is_octets decrypt_by
  decrypt-encrypt a salt m e w proto key d h same_security same_bytes =
      >>=-elim (encrypt_by c proto salt m.security key m.message.pdu_bytes) _ h (λ x ex h1.
        >>=-elim (a.marshal_raw (octets x.0)) _ h1 (λ b mb h2.
          let (pad, back) =
            decrypt_by-encrypt_by proto salt m.security key m.message.pdu_bytes x.0 x.1 ex in
          let sent = message_inj _ e h2 in
          let sec : w.security ≡ record m.security { priv_parameter = x.1; auth_parameter = d } =
            same_security ∙ ap (λ v. record v.security { auth_parameter = d }) sent in
          let bytes : w.message.pdu_bytes ≡ b = same_bytes ∙ ap (λ v. v.message.pdu_bytes) sent in
          (
            pad,
            rw
                (
                  bytes,
                  ap (λ (l : Bytes). a.unmarshal_raw l) (sym (append-nil b))
                      ∙ a.raw_back (octets x.0) b [] (omega arith) (omega arith) mb,
                  ap (λ v. decrypt_by c proto v key v.priv_parameter x.0) sec ∙ back,
                )
                refl,
          )))
