-- ===== src/LineReader/Panics.antt =====
-- Where `ParseLine` of read_line.go panics.
use snmpclient.Prelude.{
  ℕ, ◌≡◌, ◌≢◌, refl, Bool, true, false, not, ◌&&◌, ◌||◌, Option, none, some, ◌-◌, List, [], ◌∷◌,
  Bytes, codes, Error, generic, more_line, Outcome, ok, err, panic, no_fuel, or_err, ◌>>=◌, Returns,
  ok-Returns, err-Returns, >>=-Returns, length, drop, take, is_empty, bytes_eq, bytes_eq_iff, ltb,
  ◌==◌, if◌then◌else◌, arith,
}
use snmpclient.Golang.Strings.{split_once}
use snmpclient.Golang.Text.{trim_space, has_prefix, has_suffix, contains_text, fields, index_of}
use snmpclient.Oid.{parse_oid_from_string}
use snmpclient.Variable.{octet_string}
use snmpclient.Variable.Text.{
  IpText, new_integer_from_string, new_octet_string_from_string, new_oid_from_string,
  new_counter32_from_string, new_counter64_from_string, new_gauge32_from_string,
  new_time_ticks_from_string, new_ipaddress_from_string,
}
use snmpclient.LineReader.{
  quote, cut_at, closes, hex_field, hex_fields, read_hex, hex_lines, all_hex_lines, ends_string,
  ends_hex, string_rest, parse_string, hex_rest, parse_hex_string,
}
use snmpclient.LineReader.Line.{
  skip_lines, as_generic, line_oid, untyped, time_between, time_ticks_text, single_value,
  opaque_value, typed, value_of, parse_first, parse_lines, parse_line,
}
use snmpclient.Oid.Total.{parse_oid-Returns}

-- A call that ends, and that panics only if `P` holds.
abbrev pub Fine : {A : Type 0} → Type 0 → Outcome A → Type 0
Fine P o = (o ≢ no_fuel) × (o ≡ panic → P)

pub of_Returns : {A P : Type 0} {o : Outcome A} → Returns o → Fine P o
of_Returns (p, n) = (n, λ e. absurd (p e))

pub ok-Fine : {A P : Type 0} (x : A) → Fine P (ok x)
ok-Fine x = of_Returns (ok-Returns x)

pub err-Fine : {A P : Type 0} (e : Error) → Fine {A = A} P (err e)
err-Fine e = of_Returns (err-Returns e)

pub >>=-Fine :
    {A B P : Type 0} (o : Outcome A) (f : A → Outcome B)
    → Fine P o
    → ((x : A) → o ≡ ok x → Fine P (f x))
    → Fine P (o >>= f)
>>=-Fine (ok x) f h g = g x refl
>>=-Fine (err e) f h g = err-Fine e
>>=-Fine panic f (n, p) g = (λ e. ground (arith, e), λ _. p refl)
>>=-Fine no_fuel f (n, p) g = absurd (n refl)

chosen :
    {A : Type 0} (t : Bool) (o p : Outcome A) → Returns o → Returns p → Returns (if t then o else p)
chosen true o p ho hp = ho
chosen false o p ho hp = hp

or_err-Returns : {A : Type 0} (o : Option A) (e : Error) → Returns (or_err o e)
or_err-Returns none e = err-Returns e
or_err-Returns (some x) e = ok-Returns x

-- A number or a text that is read, and the value made of it.
read_value :
    {A B : Type 0} (o : Option A) (e : Error) (f : A → B) → Returns (or_err o e >>= λ x. ok (f x))
read_value o e f = >>=-Returns (or_err o e) _ (or_err-Returns o e) (λ x _. ok-Returns (f x))

fields-Returns : (hs : List Bytes) → Returns (hex_fields hs)
unfolding hex_fields hex_field
fields-Returns [] = ok-Returns []
fields-Returns (h ∷ hs) =
    >>=-Returns (hex_field h) _
      (chosen (not (length h == 2)) _ _ (err-Returns generic) (or_err-Returns _ generic))
      (λ b _. >>=-Returns (hex_fields hs) _ (fields-Returns hs) (λ bs _. ok-Returns _))

hex-Returns : (s : Bytes) → Returns (read_hex s)
unfolding read_hex
hex-Returns s = fields-Returns (fields (trim_space s))

lines-Returns : (ss : List Bytes) → Returns (hex_lines ss)
unfolding hex_lines
lines-Returns [] = ok-Returns []
lines-Returns (s ∷ ss) = chosen (has_prefix s (codes "#")) _ _ (ok-Returns []) (
    >>=-Returns (read_hex s) _ (hex-Returns s)
      (λ b _. >>=-Returns (hex_lines ss) _ (lines-Returns ss) (λ bs _. ok-Returns _)))

all_lines-Returns : (ss : List Bytes) → Returns (all_hex_lines ss)
unfolding all_hex_lines
all_lines-Returns [] = ok-Returns []
all_lines-Returns (s ∷ ss) =
    >>=-Returns (read_hex s) _ (hex-Returns s)
      (λ b _. >>=-Returns (all_hex_lines ss) _ (all_lines-Returns ss) (λ bs _. ok-Returns _))

hex_rest-Returns :
    (re : Bytes → Bool) (is_end : Bool) (ss : List Bytes) (vs : Bytes)
    (o : Option (List Bytes × List Bytes))
    → Returns (hex_rest re is_end ss vs o)
unfolding hex_rest
hex_rest-Returns re is_end ss vs none =
    chosen is_end _ _
      (>>=-Returns (read_hex (trim_space vs)) _ (hex-Returns (trim_space vs))
        (λ b _. >>=-Returns (all_hex_lines ss) _ (all_lines-Returns ss) (λ bs _. ok-Returns _)))
      (err-Returns more_line)
hex_rest-Returns re is_end ss vs (some (x, y)) =
    >>=-Returns (read_hex (trim_space vs)) _ (hex-Returns (trim_space vs))
      (λ b _. >>=-Returns (hex_lines x) _ (lines-Returns x) (λ bs _. ok-Returns _))

string_rest-Returns :
    (re : Bytes → Bool) (is_end : Bool) (ss : List Bytes) (vs : Bytes)
    (o : Option (List Bytes × List Bytes))
    → Returns (string_rest re is_end ss vs o)
unfolding string_rest
string_rest-Returns re is_end ss vs none = chosen is_end _ _ (ok-Returns _) (err-Returns more_line)
string_rest-Returns re is_end ss vs (some (x, y)) = ok-Returns _

parse_string-Returns :
    (re : Bytes → Bool) (ss : List Bytes) (is_end : Bool) (vs : Bytes)
    → Returns (parse_string re ss is_end vs)
unfolding parse_string
parse_string-Returns re ss is_end vs =
    let s = trim_space vs in
    chosen (not (has_prefix s quote)) _ _ (err-Returns generic) (
      chosen (ltb 1 (length s) && closes s) _ _ (ok-Returns _)
        (string_rest-Returns re is_end ss vs (cut_at (ends_string re) ss)))

untyped-Returns : (text : Bytes) (ss : List Bytes) → Returns (untyped text ss)
unfolding untyped new_octet_string_from_string
untyped-Returns text ss =
    let s = trim_space text in
    chosen (is_empty ss && has_prefix s quote && has_suffix s quote) _ _
      (>>=-Returns (new_octet_string_from_string (take (length (drop 1 s) - 1) (drop 1 s))) _
        (read_value _ generic octet_string) (λ v _. ok-Returns _))
      (ok-Returns _)

time-Returns : (s : Bytes) (p q : Option ℕ) → Returns (time_between s p q)
unfolding time_between new_time_ticks_from_string
time-Returns s none q = err-Returns generic
time-Returns s (some p) none = err-Returns generic
time-Returns s (some p) (some q) =
    chosen (ltb q p) _ _ (err-Returns generic) (read_value _ generic _)

oid_value-Returns : (s : Bytes) → Returns (new_oid_from_string s)
unfolding new_oid_from_string
oid_value-Returns s =
    >>=-Returns (parse_oid_from_string s) _ (parse_oid-Returns s) (λ o _. ok-Returns _)

as_generic-Returns : {A : Type 0} (o : Outcome A) → Returns o → Returns (as_generic o)
unfolding as_generic
as_generic-Returns (ok x) h = h
as_generic-Returns (err e) h = err-Returns generic
as_generic-Returns panic h = h
as_generic-Returns no_fuel h = h

-- A first line `x = Opaque: y` without a colon in `y`.
pub record IsOpaque (ss : List Bytes) : Type 0 where
  pub line : Bytes
  pub behind : List Bytes
  pub name : Bytes
  pub text : Bytes
  pub kind : Bytes
  pub value : Bytes
  pub first_line : skip_lines ss ≡ line ∷ behind
  pub equals : split_once b'=' line ≡ some (name, text)
  pub colon : split_once b':' text ≡ some (kind, value)
  pub opaque_kind : trim_space kind ≡ codes "Opaque"
  pub no_colon : split_once b':' value ≡ none

Fine-if :
    {A P : Type 0} (t : Bool) (o p : Outcome A)
    → (t ≡ true → Fine P o)
    → Fine P p
    → Fine P (if t then o else p)
Fine-if true o p ho hp = ho refl
Fine-if false o p ho hp = hp

module _ (ip : IpText) where
  address-Returns : (s : Bytes) → Returns (new_ipaddress_from_string ip s)
  unfolding new_ipaddress_from_string
  address-Returns s =
      >>=-Returns (or_err (ip.parse_ip s) generic) _ (or_err-Returns _ generic)
        (λ o _. read_value o generic _)

  single-Returns : (t text : Bytes) → Returns (single_value ip t text)
  unfolding single_value time_ticks_text new_integer_from_string new_gauge32_from_string
      new_counter32_from_string new_counter64_from_string
  single-Returns t text = chosen (bytes_eq t (codes "OID")) _ _ (oid_value-Returns _) (
      chosen (bytes_eq t (codes "INTEGER")) _ _
        (chosen (is_empty (trim_space text)) _ _ (ok-Returns _) (read_value _ generic _))
        (chosen (bytes_eq t (codes "Gauge32")) _ _ (read_value _ generic _) (
          chosen (bytes_eq t (codes "Counter32")) _ _ (read_value _ generic _) (
            chosen (bytes_eq t (codes "Counter64")) _ _ (read_value _ generic _) (
              chosen (bytes_eq t (codes "Timeticks")) _ _
                (time-Returns text (index_of b'(' text) (index_of b')' text))
                (chosen (bytes_eq t (codes "IpAddress")) _ _ (address-Returns _)
                  (err-Returns generic)))))))

  module _ (re : Bytes → Bool) where
    opaque-Fine :
        {P : Type 0} (ss : List Bytes) (is_end : Bool) (o : Option (Bytes × Bytes))
        → (o ≡ none → P)
        → Fine P (opaque_value ip re ss is_end o)
    unfolding opaque_value
    opaque-Fine ss is_end none h = (λ e. ground (arith, e), λ _. h refl)
    opaque-Fine ss is_end (some (t, text)) h = of_Returns (
        chosen (bytes_eq (trim_space t) (codes "Float")) _ _ (ok-Returns _)
          (parse_string-Returns re ss is_end text))

    typed-Fine :
        {P : Type 0} (t text : Bytes) (ss : List Bytes) (is_end : Bool)
        → (t ≡ codes "Opaque" → split_once b':' text ≡ none → P)
        → Fine P (typed ip re t text ss is_end)
    unfolding typed parse_hex_string
    typed-Fine t text ss is_end h =
        Fine-if (bytes_eq t (codes "Opaque")) _ _
          (λ e.
            opaque-Fine ss is_end (split_once b':' text)
              (h ((bytes_eq_iff t (codes "Opaque")).0 e)))
          (of_Returns (
            chosen (bytes_eq t (codes "STRING")) _ _ (parse_string-Returns re ss is_end text) (
              chosen (bytes_eq t (codes "Hex-STRING")) _ _
                (hex_rest-Returns re is_end ss text (cut_at (ends_hex re) ss))
                (chosen (not (is_empty ss)) _ _ (err-Returns generic) (
                  >>=-Returns (single_value ip t text) _ (single-Returns t text)
                    (λ v _. ok-Returns _))))))

    value-Fine :
        {P : Type 0} (text : Bytes) (ss : List Bytes) (is_end : Bool) (o : Option (Bytes × Bytes))
        → ((t v : Bytes)
            → o ≡ some (t, v)
            → trim_space t ≡ codes "Opaque"
            → split_once b':' v ≡ none
            → P)
        → Fine P (value_of ip re text ss is_end o)
    unfolding value_of
    value-Fine text ss is_end none h = of_Returns (untyped-Returns text ss)
    value-Fine text ss is_end (some (t, v)) h = typed-Fine (trim_space t) v ss is_end (h t v refl)

    first-Fine :
        (l ss : List Bytes) (s : Bytes) (is_end : Bool) (o : Option (Bytes × Bytes))
        → skip_lines l ≡ s ∷ ss
        → split_once b'=' s ≡ o
        → Fine (IsOpaque l) (parse_first ip re s ss is_end o)
    unfolding parse_first line_oid
    first-Fine l ss s is_end none first cut = err-Fine _
    first-Fine l ss s is_end (some (name, text)) first cut =
        Fine-if (contains_text s (codes "# ====") || contains_text s (codes "#exit")) _ _
          (λ _. err-Fine _)
          (>>=-Fine (as_generic (line_oid name)) _
            (of_Returns (as_generic-Returns (line_oid name) (parse_oid-Returns _)))
            (λ o _.
              >>=-Fine (value_of ip re text ss is_end (split_once b':' text)) _
                (value-Fine text ss is_end (split_once b':' text) (λ t v e kind none_left. record {
                  line = s;
                  behind = ss;
                  name = name;
                  text = text;
                  kind = t;
                  value = v;
                  first_line = first;
                  equals = cut;
                  colon = e;
                  opaque_kind = kind;
                  no_colon = none_left;
                }))
                (λ x _. ok-Fine _)))

    lines-Fine :
        (ss l : List Bytes) (is_end : Bool)
        → skip_lines ss ≡ l
        → Fine (IsOpaque ss) (parse_lines ip re l is_end)
    unfolding parse_lines
    lines-Fine ss [] is_end e = err-Fine _
    lines-Fine ss (s ∷ l) is_end e = first-Fine ss l s is_end (split_once b'=' s) e refl

    -- `ParseLine` ends on every list of lines, and panics only at a first line `x = Opaque: y` in
    -- which no colon follows: there it indexes the second of the parts of `y`.
    pub parse_line-Fine :
        (ss : List Bytes) (is_end : Bool) → Fine (IsOpaque ss) (parse_line ip re ss is_end)
    unfolding parse_line
    parse_line-Fine [] is_end = err-Fine _
    parse_line-Fine (s ∷ ss) is_end = lines-Fine (s ∷ ss) (skip_lines (s ∷ ss)) is_end refl
