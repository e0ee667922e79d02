-- ===== src/Asn1/Sample.antt =====
-- A concrete codec with the laws of `Asn1`, for runs: a length of one number, an integer as its
-- sign and its magnitude, and an identifier as its sub-identifiers.
use snmpclient.Prelude.{
  ℕ, zero, suc, ◌+◌, ◌*◌, ◌/◌, ◌%◌, ◌<◌, ◌≡◌, refl, ap, Bool, true, false, [], ◌∷◌, ◌++◌, arith,
  Bytes, Outcome, ok, err, asn1, ◌>>=◌, length, length-append, take, drop, ltb, ◌==◌, if◌then◌else◌,
  ==_refl, sym, >>=-eq-ok, Returns, ok-Returns, err-Returns, >>=-Returns,
}
use snmpclient.Prelude.Int.{ℤ, pos, negsuc, pos_part}
use snmpclient.Asn1.{Asn1, RawValue, Parser, Retags}

-- The identifier octet and the content.
unfoldable pub tlv : Parser (ℕ × Bytes)
tlv [] = err asn1
tlv (t ∷ []) = err asn1
tlv (t ∷ n ∷ s) = if ltb (length s) n then err asn1 else ok ((t, take n s), drop n s)

unfoldable pub encode : ℕ → Bytes → Bytes
encode t c = t ∷ length c ∷ c

take-append : (c r : Bytes) → (take (length c) (c ++ r) ≡ c) × (drop (length c) (c ++ r) ≡ r)
take-append [] r = (refl, refl)
take-append (x ∷ c) r = (ap (λ l. x ∷ l) (take-append c r).0, (take-append c r).1)

tlv-encode : (t : ℕ) (c r : Bytes) → tlv (encode t c ++ r) ≡ ok ((t, c), r)
unfolding tlv encode
tlv-encode t c r =
    let fits : ltb (length (c ++ r)) (length c) ≡ false = ground (arith, length-append c r) in
    rw (fits, (take-append c r).0, (take-append c r).1)

drop_le : (n : ℕ) (s : Bytes) → length (drop n s) < length s + 1
drop_le zero s = omega arith
drop_le (suc n) [] = omega arith
drop_le (suc n) (x ∷ s) = omega (arith, drop_le n s)

tlv_shrinks : (b : Bytes) (x : ℕ × Bytes) (r : Bytes) → tlv b ≡ ok (x, r) → length r < length b
unfolding tlv
tlv_shrinks [] x r h = ground arith
tlv_shrinks (t ∷ []) x r h = ground arith
tlv_shrinks (t ∷ n ∷ s) x r h = ground (arith, drop_le n s)

unfoldable pub raw_of : ℕ → Bytes → RawValue
raw_of t c = record { class = t / 64; tag = t % 32; is_compound = t / 32 % 2 == 1; content = c }

unfoldable pub parse_raw : Parser RawValue
unfolding raw_of
parse_raw b = do ((t, c), r) ← tlv b; ok (raw_of t c, r)

unfoldable pub print_raw : RawValue → Outcome Bytes
unfolding encode
print_raw v = ok (encode (v.class * 64 + (if v.is_compound then 32 else 0) + v.tag) v.content)

unfoldable pub parse_number : ℕ → Bytes → Outcome ℤ
parse_number t (s ∷ n ∷ []) =
    if t == 2 then (if s == 0 then ok (pos n) else ok (negsuc n)) else err asn1
parse_number t c = err asn1

unfoldable pub content_of : ℤ → Bytes
content_of (pos n) = 0 ∷ n ∷ []
content_of (negsuc n) = 1 ∷ n ∷ []

unfoldable pub parse_int : Parser ℤ
unfolding parse_number
parse_int b = do ((t, c), r) ← tlv b; z ← parse_number t c; ok (z, r)

unfoldable pub print_int : ℤ → Outcome Bytes
unfolding encode content_of
print_int z = ok (encode 2 (content_of z))

-- Octets and identifiers.
unfoldable pub parse_content : ℕ → Parser Bytes
parse_content tag b = do ((t, c), r) ← tlv b; if t == tag then ok (c, r) else err asn1

unfoldable pub print_content : ℕ → Bytes → Outcome Bytes
unfolding encode
print_content tag c = ok (encode tag c)

raw_of-parts :
    (k t : ℕ) (comp : Bool) (c : Bytes)
    → k < 4
    → t < 31
    → raw_of (k * 64 + (if comp then 32 else 0) + t) c
      ≡ record { class = k; tag = t; is_compound = comp; content = c }
unfolding raw_of
raw_of-parts k t true c hk ht = ground arith
raw_of-parts k t false c hk ht = ground arith

pub ok_inj : {b b' : Bytes} → ◌≡◌ {A = Outcome Bytes} (ok b) (ok b') → b' ≡ b
ok_inj h = ground arith

pub raw_back :
    (v : RawValue) (b r : Bytes)
    → v.class < 4
    → v.tag < 31
    → print_raw v ≡ ok b
    → parse_raw (b ++ r) ≡ ok (v, r)
unfolding print_raw parse_raw
raw_back v b r hk ht h =
    rw (ok_inj h, tlv-encode (v.class * 64 + (if v.is_compound then 32 else 0) + v.tag) v.content r)
      (ap (λ w. ok (w, r)) (raw_of-parts v.class v.tag v.is_compound v.content hk ht))

parse_number-content_of : (z : ℤ) → parse_number 2 (content_of z) ≡ ok z
unfolding parse_number content_of
parse_number-content_of (pos n) = refl
parse_number-content_of (negsuc n) = refl

pub int_back : (z : ℤ) (b r : Bytes) → print_int z ≡ ok b → parse_int (b ++ r) ≡ ok (z, r)
unfolding print_int parse_int
int_back z b r h = rw (ok_inj h, tlv-encode 2 (content_of z) r, parse_number-content_of z)

pub content_back :
    (tag : ℕ) (s b r : Bytes) → print_content tag s ≡ ok b → parse_content tag (b ++ r) ≡ ok (s, r)
unfolding print_content parse_content
content_back tag s b r h = rw (ok_inj h, tlv-encode tag s r, ==_refl tag)

pub encode-Retags : (tag : ℕ) (c b : Bytes) → b ≡ encode tag c → Retags parse_raw tag b
unfolding encode parse_raw raw_of
encode-Retags tag c b e =
    (length c ∷ c, e, λ t r _ _. (raw_of t c, rw (tlv-encode t c r), refl, refl))

pub raw_shrinks :
    (b : Bytes) (v : RawValue) (r : Bytes) → parse_raw b ≡ ok (v, r) → length r < length b
unfolding parse_raw
raw_shrinks b v r h =
    let ((x, r'), q, e) = >>=-eq-ok (tlv b) _ h in
    let same : r' ≡ r = ground (arith, e) in rw (sym same) (tlv_shrinks b x r' q)

tlv-Returns : (b : Bytes) → Returns (tlv b)
unfolding tlv
tlv-Returns [] = err-Returns asn1
tlv-Returns (t ∷ []) = err-Returns asn1
tlv-Returns (t ∷ n ∷ s) = ground arith

pub parse_raw-Returns : (b : Bytes) → Returns (parse_raw b)
unfolding parse_raw
parse_raw-Returns b = >>=-Returns (tlv b) _ (tlv-Returns b) (λ x _. ok-Returns _)

parse_number-Returns : (t : ℕ) (c : Bytes) → Returns (parse_number t c)
unfolding parse_number
parse_number-Returns t [] = err-Returns asn1
parse_number-Returns t (s ∷ []) = err-Returns asn1
parse_number-Returns t (s ∷ n ∷ []) = ground arith
parse_number-Returns t (s ∷ n ∷ x ∷ c) = err-Returns asn1

pub parse_int-Returns : (b : Bytes) → Returns (parse_int b)
unfolding parse_int
parse_int-Returns b = >>=-Returns (tlv b) _ (tlv-Returns b) (λ x _.
    >>=-Returns (parse_number x.0.0 x.0.1) _ (parse_number-Returns x.0.0 x.0.1)
      (λ z _. ok-Returns _))

content_or_err :
    (same : Bool) (c r : Bytes) → Returns {X = Bytes × Bytes} (if same then ok (c, r) else err asn1)
content_or_err true c r = ok-Returns (c, r)
content_or_err false c r = err-Returns asn1

pub parse_content-Returns : (tag : ℕ) (b : Bytes) → Returns (parse_content tag b)
unfolding parse_content
parse_content-Returns tag b =
    >>=-Returns (tlv b) _ (tlv-Returns b) (λ x _. content_or_err (x.0.0 == tag) x.0.1 x.1)

unfoldable pub sample : Asn1
unfolding print_raw print_int print_content parse_raw parse_int parse_content
sample = record {
  marshal_raw = print_raw;
  marshal_int = print_int;
  marshal_big = print_int;
  marshal_octets = print_content 4;
  marshal_oid = print_content 6;
  unmarshal_raw = parse_raw;
  unmarshal_int = parse_int;
  unmarshal_big = parse_int;
  unmarshal_octets = parse_content 4;
  unmarshal_oid = parse_content 6;
  big_int64 = λ z. z;
  big_uint64 = pos_part;
  raw_back = raw_back;
  int_back = int_back;
  int_as_big = int_back;
  big_back = int_back;
  octets_back = content_back 4;
  oid_back = λ o b r _. content_back 6 o b r;
  int_tag = λ z b h. encode-Retags 2 (content_of z) b (ok_inj h);
  big_tag = λ z b h. encode-Retags 2 (content_of z) b (ok_inj h);
  octets_tag = λ s b h. encode-Retags 4 s b (ok_inj h);
  oid_tag = λ o b h. encode-Retags 6 o b (ok_inj h);
  empty_tag = λ t. encode-Retags t [] (t ∷ 0 ∷ []) refl;
  raw_returns = parse_raw-Returns;
  int_returns = parse_int-Returns;
  big_returns = parse_int-Returns;
  octets_returns = parse_content-Returns 4;
  oid_returns = parse_content-Returns 6;
  raw_written = λ v. ok-Returns _;
  int_written = λ z. ok-Returns _;
  big_written = λ z. ok-Returns _;
  octets_written = λ s. ok-Returns _;
  oid_written = λ o. ok-Returns _;
  raw_shrinks = raw_shrinks;
  int64_fits = λ n _. refl;
  uint64_fits = λ n _. refl;
}
