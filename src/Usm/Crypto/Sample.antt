-- ===== src/Usm/Crypto/Sample.antt =====
-- A concrete `Crypto` with its laws, for runs: a digest holds the length of the text, and a cipher
-- adds the first byte of the key to each byte.
use snmpclient.Prelude.{
  ℕ, suc, ◌+◌, ◌-◌, ◌≤◌, ◌≡◌, refl, ap, [], ◌∷◌, ◌++◌, Bytes, length, replicate, arith,
}
use snmpclient.Usm.Crypto.{Crypto, Hash, md5, sha1}

unfoldable pub size_of : Hash → ℕ
size_of md5 = 16
size_of sha1 = 20

unfoldable pub sum_of : Hash → Bytes → Bytes
unfolding size_of
sum_of h b = length b ∷ replicate (size_of h - 1) 7

unfoldable pub head_of : Bytes → ℕ
head_of [] = 0
head_of (x ∷ s) = x

unfoldable pub raised : ℕ → Bytes → Bytes
raised n [] = []
raised n (x ∷ s) = (x + n) ∷ raised n s

unfoldable pub lowered : ℕ → Bytes → Bytes
lowered n [] = []
lowered n (x ∷ s) = (x - n) ∷ lowered n s

pub lowered-raised : (n : ℕ) (s : Bytes) → lowered n (raised n s) ≡ s
unfolding lowered raised
lowered-raised n [] = refl
lowered-raised n (x ∷ s) = ground (arith, lowered-raised n s)

pub length-raised : (n : ℕ) (s : Bytes) → length (raised n s) ≡ length s
unfolding raised
length-raised n [] = refl
length-raised n (x ∷ s) = ap suc (length-raised n s)

pub sum_of_long : (h : Hash) (b : Bytes) → 16 ≤ length (sum_of h b)
unfolding sum_of size_of
sum_of_long md5 b = omega arith
sum_of_long sha1 b = omega arith

unfoldable pub sample_crypto : Crypto
unfolding sum_of head_of raised lowered
sample_crypto = record {
  sum = sum_of;
  hmac = λ h k b. sum_of h (k ++ b);
  des_cbc_encrypt = λ k iv s. raised (head_of k) s;
  des_cbc_decrypt = λ k iv s. lowered (head_of k) s;
  aes_cfb_encrypt = λ k iv s. raised (head_of k) s;
  aes_cfb_decrypt = λ k iv s. lowered (head_of k) s;
  sum_long = sum_of_long;
  hmac_long = λ h k b. sum_of_long h (k ++ b);
  des_back = λ k iv s _ _ _. lowered-raised (head_of k) s;
  des_length = λ k iv s _. length-raised (head_of k) s;
  aes_back = λ k iv s _ _. lowered-raised (head_of k) s;
}
