-- ===== src/Golang/Strconv.antt =====
-- `strconv.ParseUint` and `strconv.ParseInt` in base 10, and the decimal prints. The callers only
-- test whether an error came back, so a failure is `none`.
use snmpclient.Prelude.{
  ℕ, zero, suc, ◌+◌, ◌-◌, ◌*◌, ◌/◌, ◌%◌, ◌≤◌, ◌<◌, ◌≡◌, refl, Bool, true, false, ◌||◌, Option, none,
  some, [], ◌∷◌, arith, ◌∙◌, is_empty, Bytes, All, ltb, leb, ◌==◌, if◌then◌else◌, ◌⊎◌, Lacks,
}
use snmpclient.Prelude.Int.{ℤ, pos, negsuc, pos_part, neg_part}

-- The loop of `ParseUint`, which fails as soon as the value passes `max`.
scan : ℕ → Bytes → ℕ → Option ℕ
scan max [] n = some n
scan max (c ∷ s) n =
    let m = n * 10 + (c - b'0') in
    let rest = scan max s m in
    if ltb c b'0' || ltb b'9' c then none else if ltb max m then none else rest

-- `ParseUint(s, 10, bits)` with `max` = 2 ^ bits - 1.
unfoldable pub parse_uint : ℕ → Bytes → Option ℕ
unfolding scan
parse_uint max [] = none
parse_uint max (c ∷ s) = scan max (c ∷ s) 0

signed_within : ℕ → Bool → Option ℕ → Option ℤ
signed_within half neg none = none
signed_within half true (some zero) = some (pos 0)
signed_within half true (some (suc n)) = if ltb half (suc n) then none else some (negsuc n)
signed_within half false (some n) = if leb half n then none else some (pos n)

-- `ParseInt(s, 10, bits)` with `half` = 2 ^ (bits - 1).
unfoldable pub parse_int : ℕ → Bytes → Option ℤ
unfolding parse_uint signed_within
parse_int half [] = none
parse_int half (c ∷ s) =
    if c == b'-'
    then signed_within half true (parse_uint (2 * half - 1) s)
    else if c == b'+'
    then signed_within half false (parse_uint (2 * half - 1) s)
    else signed_within half false (parse_uint (2 * half - 1) (c ∷ s))

digits : ℕ → ℕ → Bytes → Bytes
digits zero n out = out
digits (suc f) n out =
    let rest = digits f (n / 10) ((b'0' + n % 10) ∷ out) in if n == 0 then out else rest

-- `FormatUint(n, 10)`; a number has fewer digits than it counts, so the fuel is enough.
unfoldable pub format_uint : ℕ → Bytes
unfolding digits
format_uint n = if n == 0 then b'0' ∷ [] else digits (suc n) n []

-- `FormatInt(n, 10)`.
unfoldable pub format_int : ℤ → Bytes
unfolding format_uint
format_int (pos n) = format_uint n
format_int (negsuc n) = b'-' ∷ format_uint (suc n)

abbrev pub IsDigit : ℕ → Type 0
IsDigit c = (b'0' ≤ c) × (c ≤ b'9')

scan-digits :
    (f n max : ℕ) (out : Bytes) → n < f → n ≤ max → scan max (digits f n out) 0 ≡ scan max out n
unfolding scan digits
scan-digits zero n max out h fits = elim h [ ]
scan-digits (suc f) n max out h fits =
    ground (arith, scan-digits f (n / 10) max ((b'0' + n % 10) ∷ out))

digits-All : (f n : ℕ) (out : Bytes) → All IsDigit out → All IsDigit (digits f n out)
unfolding digits
digits-All zero n out h = h
digits-All (suc f) n out h =
    ground (arith, digits-All f (n / 10) ((b'0' + n % 10) ∷ out) ((omega arith, omega arith), h))

digits-is_empty : (f n c : ℕ) (out : Bytes) → is_empty (digits f n (c ∷ out)) ≡ false
unfolding digits
digits-is_empty zero n c out = refl
digits-is_empty (suc f) n c out =
    ground (arith, digits-is_empty f (n / 10) (b'0' + n % 10) (c ∷ out))

-- A print has a first digit.
pub format_uint-is_empty : (n : ℕ) → is_empty (format_uint n) ≡ false
unfolding format_uint
format_uint-is_empty n = ground (arith, digits-is_empty n (n / 10) (b'0' + n % 10) [])

pub format_uint-All : (n : ℕ) → All IsDigit (format_uint n)
unfolding format_uint
format_uint-All n = ground (arith, digits-All (suc n) n [] tt)

parse_uint-scan : (max : ℕ) (s : Bytes) → is_empty s ≡ false → parse_uint max s ≡ scan max s 0
unfolding parse_uint
parse_uint-scan max [] h = ground arith
parse_uint-scan max (c ∷ s) h = refl

scan-format_uint : (n max : ℕ) → n ≤ max → scan max (format_uint n) 0 ≡ some n
unfolding scan format_uint
scan-format_uint n max h = ground (arith, scan-digits (suc n) n max [])

-- Every number within the bound is read back from its decimal print.
pub parse_uint-format_uint : (n max : ℕ) → n ≤ max → parse_uint max (format_uint n) ≡ some n
parse_uint-format_uint n max h =
    parse_uint-scan max (format_uint n) (format_uint-is_empty n) ∙ scan-format_uint n max h

-- A print holds no byte that is not a digit.
pub format_uint-Lacks : (sep n : ℕ) → (sep < b'0') ⊎ (b'9' < sep) → Lacks sep (format_uint n)
format_uint-Lacks sep n h = digits-Lacks (format_uint n) (format_uint-All n)
  where
    digits-Lacks : (s : Bytes) → All IsDigit s → Lacks sep s
    digits-Lacks [] d = tt
    digits-Lacks (c ∷ s) (d, ds) = (λ e. omega arith, digits-Lacks s ds)

parse_int_unsigned :
    (half : ℕ) (s : Bytes)
    → is_empty s ≡ false
    → Lacks b'-' s
    → Lacks b'+' s
    → parse_int half s ≡ signed_within half false (parse_uint (2 * half - 1) s)
unfolding parse_int
parse_int_unsigned half [] e m p = ground arith
parse_int_unsigned half (c ∷ s) e m p = ground arith

parse_int_minus :
    (half : ℕ) (s : Bytes)
    → parse_int half (b'-' ∷ s) ≡ signed_within half true (parse_uint (2 * half - 1) s)
unfolding parse_int
parse_int_minus half s = refl

-- Every integer within the bounds is read back from its decimal print.
pub parse_int-format_int :
    (z : ℤ) (half : ℕ)
    → pos_part z < half
    → neg_part z ≤ half
    → parse_int half (format_int z) ≡ some z
unfolding format_int
parse_int-format_int (pos n) half hp hn =
    rw
      (
        parse_int_unsigned half (format_uint n) (format_uint-is_empty n)
            (format_uint-Lacks b'-' n (omega arith)) (format_uint-Lacks b'+' n (omega arith)),
        parse_uint-format_uint n (2 * half - 1) (omega arith),
      )
      (unfold signed_within in ground arith)
parse_int-format_int (negsuc n) half hp hn =
    rw
      (
        parse_int_minus half (format_uint (suc n)),
        parse_uint-format_uint (suc n) (2 * half - 1) (omega arith),
      )
      (unfold signed_within in ground arith)
