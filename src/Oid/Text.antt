-- ===== src/Oid/Text.antt =====
-- The dotted text of an identifier: `ToString` and `ParseOidFromString` of variables.go.
use snmpclient.Prelude.{
  ℕ, zero, suc, ◌+◌, ◌-◌, ◌%◌, ◌^◌, ◌≤◌, ◌≡◌, refl, ap, ◌∙◌, false, List, [], ◌∷◌, ◌++◌,
  append_assoc, append-nil, map, arith, Bytes, All, Lacks, ok, length, length-append, take,
  is_empty, ltb, if◌then◌else◌, is_empty-append,
}
use snmpclient.Golang.Strings.{
  split, trim, split-append, split-Lacks, EndLacks, EndLacks-append, Lacks-EndLacks, HeadLacks,
  Lacks-HeadLacks, HeadLacks-append, trim_self, EndLacks-cons,
}
use snmpclient.Golang.Strconv.{
  format_uint, format_uint-is_empty, parse_uint-format_uint, format_uint-Lacks,
}
use snmpclient.Oid.{
  Oid, max_uint32, dotted, to_string, sub_ids, parse_parts, oid_parts, parse_ints_from_string,
  parse_oid_from_string,
}

abbrev pub IsSubId : ℕ → Type 0
IsSubId n = n ≤ max_uint32

-- The text that `ToString` means: the prints with dots between them.
joined : List ℕ → Bytes
joined [] = []
joined (x ∷ []) = format_uint x
joined (x ∷ y ∷ r) = format_uint x ++ (b'.' ∷ joined (y ∷ r))

dotted-joined :
    (x : ℕ) (r : List ℕ) → All IsSubId (x ∷ r) → dotted (x ∷ r) ≡ joined (x ∷ r) ++ b'.' ∷ []
unfolding dotted joined
dotted-joined x [] (hx, _) = ap (λ (t : ℕ). format_uint t ++ b'.' ∷ []) (omega arith)
dotted-joined x (y ∷ r) (hx, h) =
    let e : x % 2 ^ 32 ≡ x = omega arith in rw (e, dotted-joined y r h, append_assoc)

take_all : (s : Bytes) (c : ℕ) → take (length (s ++ c ∷ []) - 1) (s ++ c ∷ []) ≡ s
take_all s c = rw (length-append s (c ∷ [])) (go s (length s + 1 - 1) (omega arith))
  where
    go : (t : Bytes) (n : ℕ) → n ≡ length t → take n (t ++ c ∷ []) ≡ t
    go [] zero e = refl
    go [] (suc n) e = absurd (omega arith)
    go (d ∷ t) zero e = absurd (omega arith)
    go (d ∷ t) (suc n) e = ap (λ l. d ∷ l) (go t n (omega arith))

joined-is_empty : (x : ℕ) (r : List ℕ) → is_empty (joined (x ∷ r)) ≡ false
unfolding joined
joined-is_empty x [] = format_uint-is_empty x
joined-is_empty x (y ∷ r) = is_empty-append (format_uint x) _ (format_uint-is_empty x)

cut_dot :
    (s : Bytes)
    → is_empty s ≡ false
    → (let bs = s ++ b'.' ∷ [] in if ltb 1 (length bs) then take (length bs - 1) bs else bs) ≡ s
cut_dot [] h = ground arith
cut_dot (c ∷ s) h = ground (arith, length-append s (b'.' ∷ []), take_all (c ∷ s) b'.')

to_string_from : (xs : List ℕ) → All IsSubId xs → to_string (record { value = xs }) ≡ joined xs
unfolding to_string
to_string_from [] h = unfold dotted joined in refl
to_string_from (x ∷ r) h = rw (dotted-joined x r h) (cut_dot (joined (x ∷ r)) (joined-is_empty x r))

split-joined : (x : ℕ) (r : List ℕ) → split b'.' (joined (x ∷ r)) ≡ map format_uint (x ∷ r)
unfolding joined
split-joined x [] = split-Lacks b'.' (format_uint x) (format_uint-Lacks b'.' x (omega arith))
split-joined x (y ∷ r) = rw (
  split-append b'.' (format_uint x) (joined (y ∷ r)) (format_uint-Lacks b'.' x (omega arith)),
  split-joined y r,
)

joined-HeadLacks : (x : ℕ) (r : List ℕ) → HeadLacks b'.' (joined (x ∷ r))
unfolding joined
joined-HeadLacks x [] =
    Lacks-HeadLacks b'.' (format_uint x) (format_uint-Lacks b'.' x (omega arith))
joined-HeadLacks x (y ∷ r) =
    HeadLacks-append b'.' (format_uint x) _ (format_uint-is_empty x)
      (Lacks-HeadLacks b'.' (format_uint x) (format_uint-Lacks b'.' x (omega arith)))

joined-EndLacks : (x : ℕ) (r : List ℕ) → EndLacks b'.' (joined (x ∷ r))
unfolding joined
joined-EndLacks x [] = Lacks-EndLacks b'.' (format_uint x) (format_uint-Lacks b'.' x (omega arith))
joined-EndLacks x (y ∷ r) =
    EndLacks-append b'.' (format_uint x) b'.' (joined (y ∷ r))
      (EndLacks-cons b'.' b'.' (joined (y ∷ r)) (joined-is_empty y r) (joined-EndLacks y r))

-- The parts of a print, which are its sub-identifiers.
oid_parts-joined : (x : ℕ) (r : List ℕ) → oid_parts (joined (x ∷ r)) ≡ map format_uint (x ∷ r)
unfolding oid_parts joined
oid_parts-joined x r =
    rw
      (
        trim_self b'.' (joined (x ∷ r)) (joined-HeadLacks x r) (joined-EndLacks x r),
        split-joined x r,
      )
      (few r)
  where
    plain : Lacks b'_' (format_uint x)
    plain = format_uint-Lacks b'_' x (omega arith)

    few :
        (t : List ℕ)
        → (if ltb (length (map format_uint (x ∷ t))) 2
            then split b'_' (trim b'_' (joined (x ∷ t)))
            else map format_uint (x ∷ t))
          ≡ map format_uint (x ∷ t)
    few [] = ground (
      arith,
      trim_self b'_' (format_uint x) (Lacks-HeadLacks b'_' (format_uint x) plain)
          (Lacks-EndLacks b'_' (format_uint x) plain),
      split-Lacks b'_' (format_uint x) plain,
    )
    few (y ∷ t) = ground arith

sub_ids-format : (idx x : ℕ) → IsSubId x → sub_ids idx (format_uint x) ≡ ok (x ∷ [])
unfolding sub_ids
sub_ids-format idx x h = rw (format_uint-is_empty x, parse_uint-format_uint x max_uint32 h)

parse_parts-format :
    (xs : List ℕ) (idx : ℕ) (result : List ℕ)
    → All IsSubId xs
    → parse_parts idx (map format_uint xs) result ≡ ok (result ++ xs)
unfolding parse_parts
parse_parts-format [] idx result h = rw append-nil
parse_parts-format (x ∷ xs) idx result (hx, h) =
    rw (sub_ids-format idx x hx) (
      parse_parts-format xs (suc idx) (result ++ x ∷ []) h
      ∙ ap ok (append_assoc result (x ∷ []) xs))

parse_ints-joined : (xs : List ℕ) → All IsSubId xs → parse_ints_from_string (joined xs) ≡ ok xs
unfolding parse_ints_from_string
parse_ints-joined [] h = unfold joined parse_ints_from_string sub_ids trim split in refl
parse_ints-joined (x ∷ r) h = rw (oid_parts-joined x r) (parse_parts-format (x ∷ r) 0 [] h)

-- Every identifier whose sub-identifiers fit in 32 bits, the empty one included, is read back
-- from its dotted text.
pub parse_oid-to_string :
    (v : Oid) → All IsSubId v.value → parse_oid_from_string (to_string v) ≡ ok v
unfolding parse_oid_from_string
parse_oid-to_string v h = rw (to_string_from v.value h, parse_ints-joined v.value h)
