-- ===== src/Usm/Crypto.antt =====
-- The ciphers, the digests and the keys of security.go, with `xor` of util.go. The algorithms are
-- the Go library's.
pub mod Ciphers
mod Tests
pub mod Total
pub mod Sample
pub mod Keys
use Prim.Native.Nat.{bit_xor}
use snmpclient.Prelude.{
  ℕ, zero, suc, ◌+◌, ◌*◌, ◌/◌, ◌%◌, ◌^◌, ◌≤◌, ◌≡◌, Bool, true, false, not, ◌||◌, List, [], ◌∷◌,
  ◌++◌, Bytes, Outcome, ok, err, panic, no_fuel, argument, asn1, generic, ◌>>=◌, length, take, drop,
  one_of, ltb, ◌==◌, if◌then◌else◌,
}
use snmpclient.Prelude.Int.{ℤ, pos, wrap}
use snmpclient.Util.{padding}
use snmpclient.Asn1.{Asn1}
use snmpclient.MessageV3.{MessageV3, SecurityParameterV3, is_octets, octets, marshal_message_v3}

pub data Hash : Type 0 where
  md5 sha1 : Hash

-- What is used of the packages `crypto/...`. A sum depends on the bytes written before it; the
-- ciphers take the key, the initialization vector and the text.
pub record Crypto : Type 0 where
  pub sum : Hash → Bytes → Bytes
  pub hmac : Hash → Bytes → Bytes → Bytes
  pub des_cbc_encrypt : Bytes → Bytes → Bytes → Bytes
  pub des_cbc_decrypt : Bytes → Bytes → Bytes → Bytes
  pub aes_cfb_encrypt : Bytes → Bytes → Bytes → Bytes
  pub aes_cfb_decrypt : Bytes → Bytes → Bytes → Bytes
  -- A digest has 16 or 20 bytes.
  pub sum_long : (h : Hash) (b : Bytes) → 16 ≤ length (sum h b)
  pub hmac_long : (h : Hash) (k b : Bytes) → 16 ≤ length (hmac h k b)
  -- A key decrypts what it has encrypted with the same vector, and the length stays.
  pub des_back :
      (k iv s : Bytes)
      → length k ≡ 8
      → length iv ≡ 8
      → length s % 8 ≡ 0
      → des_cbc_decrypt k iv (des_cbc_encrypt k iv s) ≡ s
  pub des_length : (k iv s : Bytes) → length s % 8 ≡ 0 → length (des_cbc_encrypt k iv s) ≡ length s
  pub aes_back :
      (k iv s : Bytes)
      → length k ≡ 16
      → length iv ≡ 16
      → aes_cfb_decrypt k iv (aes_cfb_encrypt k iv s) ≡ s

-- `b[:n]` and `b[m:n]` of a slice whose capacity is its length.
unfoldable pub slice : ℕ → ℕ → Bytes → Outcome Bytes
slice m n b = if ltb (length b) n then panic else ok (drop m (take n b))

unfoldable pub xor : Bytes → Bytes → Outcome Bytes
xor [] b = ok []
xor (x ∷ a) [] = panic
xor (x ∷ a) (y ∷ b) = do c ← xor a b; ok (bit_xor x y ∷ c)

-- The `n` lowest bytes of a number, the highest first: what `binary.Write` gives for an integer of
-- `n` bytes.
unfoldable pub big_endian : ℕ → ℕ → Bytes
big_endian zero w = []
big_endian (suc n) w = (w / 256 ^ n % 256) ∷ big_endian n w

-- `int32(z)` and `int64(z)`, written.
unfoldable pub be32 : ℤ → Bytes
unfolding big_endian
be32 z = big_endian 4 (wrap (2 ^ 32) z)

unfoldable pub be64 : ℤ → Bytes
unfolding big_endian
be64 z = big_endian 8 (wrap (2 ^ 64) z)

-- `PasswordToKey` writes a mebibyte of the password.
abbrev pub mega : ℕ
mega = 1048576

unfoldable pub repeats : ℕ → Bytes → Bytes
repeats zero pass = []
repeats (suc n) pass = pass ++ repeats n pass

-- The bytes that the first loop of `PasswordToKey` writes. An empty password divides by zero.
unfoldable pub key_material : Bytes → Outcome Bytes
unfolding repeats
key_material [] = panic
key_material (x ∷ s) =
    let pass = x ∷ s in ok (repeats (mega / length pass) pass ++ take (mega % length pass) pass)

module _ (c : Crypto) where
  localized : Hash → Bytes → Bytes → Outcome Bytes
  unfolding key_material
  localized h password engine_id = do
    m ← key_material password
    let ku = c.sum h m in ok (c.sum h (ku ++ (engine_id ++ ku)))

  unfoldable pub password_to_key : Bytes → Bytes → Bytes → Outcome Bytes
  unfolding localized one_of
  password_to_key proto password engine_id =
      if one_of proto ("MD5" ∷ [])
      then localized md5 password engine_id
      else if one_of proto ("SHA" ∷ [])
      then localized sha1 password engine_id
      else panic

  -- The text encrypted, and the salt that is sent.
  unfoldable pub encrypt_des : Bytes → Bytes → ℤ → ℤ → Outcome (Bytes × Bytes)
  unfolding slice xor be32 padding
  encrypt_des src key engine_boots salt = do
    block ← slice 0 8 key
    high ← slice 8 16 key
    iv ← xor high (be32 engine_boots ++ be32 salt)
    text ← padding src 8
    ok (c.des_cbc_encrypt block iv text, be32 engine_boots ++ be32 salt)

  unfoldable pub decrypt_des : Bytes → Bytes → Bytes → Outcome Bytes
  unfolding slice xor
  decrypt_des src key priv_param =
      if not (length src % 8 == 0)
      then err argument
      else if not (length priv_param == 8)
      then err argument
      else (do
        block ← slice 0 8 key
        high ← slice 8 16 key
        iv ← xor high priv_param
        ok (c.des_cbc_decrypt block iv src))

  unfoldable pub encrypt_aes : Bytes → Bytes → ℤ → ℤ → ℤ → Outcome (Bytes × Bytes)
  unfolding slice be32 be64 padding
  encrypt_aes src key engine_boots engine_time salt = do
    block ← slice 0 16 key
    text ← padding src 16
    ok (
      c.aes_cfb_encrypt block ((be32 engine_boots ++ be32 engine_time) ++ be64 salt) text,
      be64 salt,
    )

  unfoldable pub decrypt_aes : Bytes → Bytes → Bytes → ℤ → ℤ → Outcome Bytes
  unfolding slice be32
  decrypt_aes src key priv_param engine_boots engine_time =
      if not (length priv_param == 8) then err argument else (do
        block ← slice 0 16 key
        ok (c.aes_cfb_decrypt block ((be32 engine_boots ++ be32 engine_time) ++ priv_param) src))

  -- The choice of `encrypt` and of `decrypt` by the protocol. The salt is the one drawn.
  unfoldable pub encrypt_by :
      Bytes → ℤ → SecurityParameterV3 → Bytes → Bytes → Outcome (Bytes × Bytes)
  unfolding encrypt_des encrypt_aes one_of
  encrypt_by proto salt s key src =
      if one_of proto ("DES" ∷ [])
      then encrypt_des src key s.auth_engine_boots salt
      else if one_of proto ("AES" ∷ [])
      then encrypt_aes src key s.auth_engine_boots s.auth_engine_time salt
      else err generic

  unfoldable pub decrypt_by : Bytes → SecurityParameterV3 → Bytes → Bytes → Bytes → Outcome Bytes
  unfolding decrypt_des decrypt_aes one_of
  decrypt_by proto s key priv_param src =
      if one_of proto ("DES" ∷ [])
      then decrypt_des src key priv_param
      else if one_of proto ("AES" ∷ [])
      then decrypt_aes src key priv_param s.auth_engine_boots s.auth_engine_time
      else err generic

  -- The digest of a whole message.
  unfoldable pub digest : Bytes → Bytes → Bytes → Outcome Bytes
  unfolding one_of slice
  digest proto key b =
      if one_of proto ("MD5" ∷ [])
      then slice 0 12 (c.hmac md5 key b)
      else if one_of proto ("SHA" ∷ [])
      then slice 0 12 (c.hmac sha1 key b)
      else err generic

  module _ (a : Asn1) where
    -- The message is encoded with zeros in place of the digest.
    unfoldable pub mac : MessageV3 → Bytes → Bytes → Outcome Bytes
    unfolding padding marshal_message_v3 digest
    mac msg proto key = do
      zeros ← padding [] 12
      b ←
          marshal_message_v3 a
            (record msg { security = record msg.security { auth_parameter = zeros } })
      digest proto key b

    -- The message with its PDU encrypted.
    unfoldable pub encrypt : ℤ → MessageV3 → Bytes → Bytes → Outcome MessageV3
    unfolding encrypt_by
    encrypt salt msg proto key = do
      (dst, priv) ← encrypt_by proto salt msg.security key msg.message.pdu_bytes
      b ← a.marshal_raw (octets dst)
      ok (record msg {
        security = record msg.security { priv_parameter = priv };
        message = record msg.message { pdu_bytes = b };
      })

    unfoldable pub decrypt : MessageV3 → Bytes → Bytes → Bytes → Outcome MessageV3
    unfolding decrypt_by is_octets
    decrypt msg proto key priv_param = do
      (raw, _) ← a.unmarshal_raw msg.message.pdu_bytes
      if is_octets raw
          then (do
            dst ← decrypt_by proto msg.security key priv_param raw.content
            ok (record msg { message = record msg.message { pdu_bytes = dst } }))
          else err asn1
