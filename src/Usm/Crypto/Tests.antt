-- ===== src/Usm/Crypto/Tests.antt =====
-- Concrete keys and texts, and the theorems at them.
use snmpclient.Prelude.{
  ◌<◌, ◌%◌, ◌≡◌, refl, none, [], ◌∷◌, ◌++◌, Bytes, ok, panic, err, argument, length, get_elem?,
  codes, ℕ,
}
use snmpclient.Prelude.Int.{pos}
use snmpclient.Asn1.Sample.{sample}
use snmpclient.MessageV3.{MessageV3}
use snmpclient.Usm.Crypto.{key_material, mega, encrypt, decrypt, xor, be32, decrypt_des}
use snmpclient.Usm.Crypto.Sample.{sample_crypto}
use snmpclient.Usm.Crypto.Ciphers.{decrypt-encrypt}
use snmpclient.Usm.Crypto.Keys.{key_material_lem}

abbrev key : Bytes
key = 1 ∷ 2 ∷ 3 ∷ 4 ∷ 5 ∷ 6 ∷ 7 ∷ 8 ∷ 9 ∷ 10 ∷ 11 ∷ 12 ∷ 13 ∷ 14 ∷ 15 ∷ 16 ∷ []

abbrev plain : MessageV3
plain = record {
  global = record {
    message_id = pos 42;
    message_max_size = pos 1400;
    message_flags = 3 ∷ [];
    security_model = pos 3;
  };
  security = record {
    auth_engine_id = [];
    auth_engine_boots = pos 1;
    auth_engine_time = pos 13;
    user_name = 117 ∷ [];
    auth_parameter = [];
    priv_parameter = [];
  };
  message = record { version = pos 3; community = []; pdu_bytes = 48 ∷ 1 ∷ 7 ∷ []; pdu = none };
}

-- The text is padded, encrypted and wrapped.
abbrev encrypted : MessageV3
encrypted = record plain {
  security = record plain.security { priv_parameter = 0 ∷ 0 ∷ 0 ∷ 1 ∷ 0 ∷ 0 ∷ 1 ∷ 0 ∷ [] };
  message = record plain.message { pdu_bytes = 4 ∷ 8 ∷ 49 ∷ 2 ∷ 8 ∷ 1 ∷ 1 ∷ 1 ∷ 1 ∷ 1 ∷ [] };
}

encryption : encrypt sample_crypto sample (pos 256) plain (codes "DES") key ≡ ok encrypted
unfolding encrypt sample sample_crypto
encryption = refl

decrypt-encrypt_example :
    (pad : Bytes) × (decrypt sample_crypto sample encrypted
        (codes "DES")
        key
        (0 ∷ 0 ∷ 0 ∷ 1 ∷ 0 ∷ 0 ∷ 1 ∷ 0 ∷ [])
      ≡ ok (record encrypted {
        message = record encrypted.message { pdu_bytes = (48 ∷ 1 ∷ 7 ∷ []) ++ pad };
      }))
decrypt-encrypt_example =
    decrypt-encrypt sample_crypto sample (pos 256) plain encrypted encrypted (codes "DES") key []
      encryption refl refl

short_material : key_material [] ≡ panic
unfolding key_material
short_material = refl

-- A text that is no whole number of blocks is refused.
cut_text : decrypt_des sample_crypto (1 ∷ []) key key ≡ err argument
unfolding decrypt_des
cut_text = refl

big_end : be32 (pos 258) ≡ 0 ∷ 0 ∷ 1 ∷ 2 ∷ []
unfolding be32
big_end = refl

xor_run : xor (5 ∷ 255 ∷ []) (3 ∷ 255 ∷ 9 ∷ []) ≡ ok (6 ∷ 0 ∷ [])
unfolding xor
xor_run = refl

key_material_lem_example :
    (m : Bytes) × (key_material (109 ∷ 97 ∷ 112 ∷ []) ≡ ok m)
    × (length m ≡ mega)
    × ((i : ℕ) → i < mega → get_elem? m i ≡ get_elem? (109 ∷ 97 ∷ 112 ∷ []) (i % 3))
key_material_lem_example = key_material_lem 109 (97 ∷ 112 ∷ [])
