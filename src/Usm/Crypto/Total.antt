-- ===== src/Usm/Crypto/Total.antt =====
-- Where the ciphers and the digests of security.go give a value or an error.
use snmpclient.Prelude.{
  ℕ, ◌≤◌, ◌≡◌, refl, Bool, true, false, [], ◌∷◌, ◌++◌, Bytes, Outcome, ok, err, panic, generic,
  Returns, ok-Returns, err-Returns, >>=-Returns, length, length-append, replicate, codes, bytes_eq,
  one_of, if◌then◌else◌, arith,
}
use snmpclient.Prelude.Int.{ℤ}
use snmpclient.Util.{padding}
use snmpclient.Asn1.{Asn1}
use snmpclient.MessageV3.{
  GlobalDataV3, SecurityParameterV3, MessageV3, octets, marshal_global, marshal_security_fields,
  marshal_security, marshal_message_v3,
}
use snmpclient.Usm.Crypto.{
  Crypto, Hash, md5, sha1, slice, xor, be32, key_material, localized, password_to_key, encrypt_des,
  encrypt_aes, encrypt_by, encrypt, digest, mac,
}
use snmpclient.Usm.Crypto.Ciphers.{length-slice, length-be32}

slice-Returns : (m n : ℕ) (b : Bytes) → n ≤ length b → Returns (slice m n b)
unfolding slice
slice-Returns m n b h = ground arith

xor-Returns : (x y : Bytes) → length x ≤ length y → Returns (xor x y)
unfolding xor
xor-Returns [] y h = ok-Returns []
xor-Returns (c ∷ x) [] h = absurd (omega arith)
xor-Returns (c ∷ x) (d ∷ y) h =
    >>=-Returns (xor x y) _ (xor-Returns x y (omega arith)) (λ r _. ok-Returns _)

-- An error, or the one or the other call.
choice {ℓ} :
    {A : Type ℓ} (x y : Bool) (o p : Outcome A)
    → Returns o
    → Returns p
    → Returns (if x then o else if y then p else err generic)
choice true y o p ho hp = ho
choice false true o p ho hp = hp
choice false false o p ho hp = err-Returns generic

-- A call that gives a value with the property.
abbrev pub Gives : Outcome Bytes → (Bytes → Type 0) → Type 0
Gives o P = (k : Bytes) × (o ≡ ok k) × P k

module _ (c : Crypto) where
  localized-Gives :
      (h : Hash) (password id : Bytes)
      → 1 ≤ length password
      → Gives (localized c h password id) (λ k. 16 ≤ length k)
  unfolding localized key_material
  localized-Gives h [] id some_password = absurd (omega arith)
  localized-Gives h (x ∷ s) id some_password = (_, refl, c.sum_long h _)

  -- The switch on the protocol, on what its comparisons come to.
  by_protocol :
      (is_md5 is_sha : Bool) (o p : Outcome Bytes) (P : Bytes → Type 0)
      → elim is_md5 [ true ↦ true | false ↦ elim is_sha [ true ↦ true | false ↦ false ] ] ≡ true
      → Gives o P
      → Gives p P
      → Gives
          (if elim is_md5 [ true ↦ true | false ↦ false ]
            then o
            else if elim is_sha [ true ↦ true | false ↦ false ]
            then p
            else panic)
          P
  by_protocol true is_sha o p P h go gp = go
  by_protocol false true o p P h go gp = gp
  by_protocol false false o p P h go gp = ground arith

  pub password_to_key-Gives :
      (proto password id : Bytes)
      → one_of proto ("MD5" ∷ "SHA" ∷ []) ≡ true
      → 1 ≤ length password
      → Gives (password_to_key c proto password id) (λ k. 16 ≤ length k)
  unfolding password_to_key one_of
  password_to_key-Gives proto password id known some_password =
      by_protocol (bytes_eq proto (codes "MD5")) (bytes_eq proto (codes "SHA")) _ _
        (λ k. 16 ≤ length k) known (localized-Gives md5 password id some_password)
        (localized-Gives sha1 password id some_password)

  des-Returns :
      (src key : Bytes) (boots salt : ℤ)
      → 16 ≤ length key
      → Returns (encrypt_des c src key boots salt)
  unfolding encrypt_des padding
  des-Returns src key boots salt long =
      >>=-Returns (slice 0 8 key) _ (slice-Returns 0 8 key (omega (arith, long))) (λ k _.
        >>=-Returns (slice 8 16 key) _ (slice-Returns 8 16 key long) (λ high mh.
          let fits : length high ≤ length (be32 boots ++ be32 salt) = omega (
            arith,
            length-slice 8 16 key high mh,
            length-append (be32 boots) (be32 salt),
            length-be32 boots,
            length-be32 salt,
          ) in
          >>=-Returns (xor high (be32 boots ++ be32 salt)) _ (xor-Returns high _ fits)
            (λ iv _. ok-Returns _)))

  aes-Returns :
      (src key : Bytes) (boots time salt : ℤ)
      → 16 ≤ length key
      → Returns (encrypt_aes c src key boots time salt)
  unfolding encrypt_aes padding
  aes-Returns src key boots time salt long =
      >>=-Returns (slice 0 16 key) _ (slice-Returns 0 16 key long) (λ k _. ok-Returns _)

  digest-Returns : (proto key b : Bytes) → Returns (digest c proto key b)
  unfolding digest
  digest-Returns proto key b =
      choice (one_of proto ("MD5" ∷ [])) (one_of proto ("SHA" ∷ [])) _ _
        (slice-Returns 0 12 _ (omega (arith, c.hmac_long md5 key b)))
        (slice-Returns 0 12 _ (omega (arith, c.hmac_long sha1 key b)))

  module _ (a : Asn1) where
    pub encrypt-Returns :
        (salt : ℤ) (m : MessageV3) (proto key : Bytes)
        → 16 ≤ length key
        → Returns (encrypt c a salt m proto key)
    unfolding encrypt encrypt_by
    encrypt-Returns salt m proto key long =
        >>=-Returns (encrypt_by c proto salt m.security key m.message.pdu_bytes) _
          (choice (one_of proto ("DES" ∷ [])) (one_of proto ("AES" ∷ [])) _ _
            (des-Returns m.message.pdu_bytes key m.security.auth_engine_boots salt long)
            (aes-Returns m.message.pdu_bytes key m.security.auth_engine_boots
              m.security.auth_engine_time salt long))
          (λ x _.
            >>=-Returns (a.marshal_raw (octets x.0)) _ (a.raw_written (octets x.0))
              (λ b _. ok-Returns _))

    global-Returns : (h : GlobalDataV3) → Returns (marshal_global a h)
    unfolding marshal_global
    global-Returns h =
        >>=-Returns (a.marshal_int h.message_id) _ (a.int_written h.message_id) (λ i _.
          >>=-Returns (a.marshal_int h.message_max_size) _ (a.int_written h.message_max_size)
            (λ m _.
              >>=-Returns (a.marshal_octets h.message_flags) _ (a.octets_written h.message_flags)
                (λ f _.
                  >>=-Returns (a.marshal_int h.security_model) _ (a.int_written h.security_model)
                    (λ s _. a.raw_written _))))

    security-Returns : (s : SecurityParameterV3) → Returns (marshal_security a s)
    unfolding marshal_security marshal_security_fields
    security-Returns s =
        >>=-Returns (marshal_security_fields a s) _
          (>>=-Returns (a.marshal_octets s.auth_engine_id) _ (a.octets_written s.auth_engine_id)
            (λ e _.
              >>=-Returns (a.marshal_int s.auth_engine_boots) _ (a.int_written s.auth_engine_boots)
                (λ b _.
                  >>=-Returns (a.marshal_int s.auth_engine_time) _
                    (a.int_written s.auth_engine_time)
                    (λ t _.
                      >>=-Returns (a.marshal_octets s.user_name) _ (a.octets_written s.user_name)
                        (λ u _.
                          >>=-Returns (a.marshal_octets s.auth_parameter) _
                            (a.octets_written s.auth_parameter)
                            (λ p _.
                              >>=-Returns (a.marshal_octets s.priv_parameter) _
                                (a.octets_written s.priv_parameter) (λ q _. a.raw_written _)))))))
          (λ b _. a.raw_written (octets b))

    pub message_v3-Returns : (m : MessageV3) → Returns (marshal_message_v3 a m)
    unfolding marshal_message_v3
    message_v3-Returns m =
        >>=-Returns (a.marshal_int m.message.version) _ (a.int_written m.message.version) (λ v _.
          >>=-Returns (marshal_global a m.global) _ (global-Returns m.global) (λ g _.
            >>=-Returns (marshal_security a m.security) _ (security-Returns m.security)
              (λ s _. a.raw_written _)))

    pub mac-Returns : (m : MessageV3) (proto key : Bytes) → Returns (mac c a m proto key)
    unfolding mac padding
    mac-Returns m proto key =
        let z : MessageV3 = record m {
          security = record m.security { auth_parameter = replicate 12 0 };
        } in
        >>=-Returns (marshal_message_v3 a z) _ (message_v3-Returns z)
          (λ b _. digest-Returns proto key b)
