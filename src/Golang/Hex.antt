-- ===== src/Golang/Hex.antt =====
-- `hex.DecodeString` and `hex.EncodeToString`.
use snmpclient.Prelude.{
  ℕ, ◌+◌, ◌-◌, ◌*◌, ◌/◌, ◌%◌, ◌<◌, ◌≡◌, refl, ◌&&◌, Option, none, some, [], ◌∷◌, ◌++◌, arith, Bytes,
  All, ltb, leb, if◌then◌else◌,
}

hex_digit : ℕ → ℕ
hex_digit n = if ltb n 10 then b'0' + n else b'a' + (n - 10)

-- `fmt.Sprintf("%02x", b)`.
unfoldable pub hex_byte : ℕ → Bytes
unfolding hex_digit
hex_byte b = hex_digit (b / 16) ∷ hex_digit (b % 16) ∷ []

unfoldable pub encode_to_string : Bytes → Bytes
unfolding hex_byte
encode_to_string [] = []
encode_to_string (b ∷ bs) = hex_byte b ++ encode_to_string bs

from_hex_char : ℕ → Option ℕ
from_hex_char c =
    if leb b'0' c && leb c b'9'
    then some (c - b'0')
    else if leb b'a' c && leb c b'f'
    then some (c - b'a' + 10)
    else if leb b'A' c && leb c b'F'
    then some (c - b'A' + 10)
    else none

pair_up : Option ℕ → Option ℕ → Option Bytes → Option Bytes
pair_up (some h) (some l) (some bs) = some ((h * 16 + l) ∷ bs)
pair_up _ _ _ = none

-- An odd length is an error.
unfoldable pub decode_string : Bytes → Option Bytes
unfolding from_hex_char pair_up
decode_string [] = some []
decode_string (c ∷ []) = none
decode_string (c ∷ d ∷ s) = pair_up (from_hex_char c) (from_hex_char d) (decode_string s)

abbrev pub IsByte : ℕ → Type 0
IsByte b = b < 256

from_hex_char-hex_digit : (n : ℕ) → n < 16 → from_hex_char (hex_digit n) ≡ some n
unfolding from_hex_char hex_digit
from_hex_char-hex_digit n h = ground arith

pub decode_string-hex_byte :
    (b : ℕ) (s bs : Bytes)
    → b < 256
    → decode_string s ≡ some bs
    → decode_string (hex_byte b ++ s) ≡ some (b ∷ bs)
unfolding decode_string hex_byte
decode_string-hex_byte b s bs h e =
    rw
      (
        from_hex_char-hex_digit (b / 16) (omega arith),
        from_hex_char-hex_digit (b % 16) (omega arith),
        e,
      )
      (ground arith)

encode-cons : (b : ℕ) (bs : Bytes) → encode_to_string (b ∷ bs) ≡ hex_byte b ++ encode_to_string bs
unfolding encode_to_string
encode-cons b bs = refl

-- Every byte string is read back from its hexadecimal print.
pub decode_string-encode_to_string :
    (bs : Bytes) → All IsByte bs → decode_string (encode_to_string bs) ≡ some bs
decode_string-encode_to_string [] h = unfold decode_string encode_to_string in refl
decode_string-encode_to_string (b ∷ bs) (hb, hbs) =
    rw (encode-cons b bs)
      (decode_string-hex_byte b (encode_to_string bs) bs hb (decode_string-encode_to_string bs hbs))

pair_up-none : (x y : Option ℕ) → pair_up x y none ≡ none
unfolding pair_up
pair_up-none none y = refl
pair_up-none (some h) none = refl
pair_up-none (some h) (some l) = refl

decode_colon : (s : Bytes) → decode_string (b':' ∷ s) ≡ none
unfolding decode_string from_hex_char pair_up
decode_colon [] = refl
decode_colon (c ∷ s) = refl

-- A colon behind two digits is no hexadecimal text.
pub decode_string_colon : (b : ℕ) (s : Bytes) → decode_string (hex_byte b ++ b':' ∷ s) ≡ none
unfolding decode_string hex_byte
decode_string_colon b s =
    rw (decode_colon s)
      (pair_up-none (from_hex_char (hex_digit (b / 16))) (from_hex_char (hex_digit (b % 16))))
