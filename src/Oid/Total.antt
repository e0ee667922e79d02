-- ===== src/Oid/Total.antt =====
-- `ParseOidFromString` gives an identifier or an error (oid.go).
use snmpclient.Prelude.{
  ℕ, suc, Bool, true, false, Option, none, some, List, [], ◌∷◌, ◌++◌, Bytes, generic, argument, ok,
  err, or_err, Returns, ok-Returns, err-Returns, >>=-Returns, is_empty, ◌==◌, if◌then◌else◌,
}
use snmpclient.Golang.Strconv.{parse_uint}
use snmpclient.Oid.{
  max_uint32, oid_name, sub_ids, parse_parts, oid_parts, parse_ints_from_string,
  parse_oid_from_string,
}

sub_ids-Returns : (i : ℕ) (v : Bytes) → Returns (sub_ids i v)
unfolding sub_ids
sub_ids-Returns i v = by_text (is_empty v) (i == 0) (parse_uint max_uint32 v) (oid_name v)
  where
    by_text :
        (blank first : Bool) (number : Option ℕ) (name : Option (List ℕ))
        → Returns (
            if blank
            then (if first then ok [] else err generic)
            else elim number [ some num ↦ ok (num ∷ []) | none ↦ or_err name argument ])
    by_text true true number name = ok-Returns []
    by_text true false number name = err-Returns generic
    by_text false first (some num) name = ok-Returns (num ∷ [])
    by_text false first none none = err-Returns argument
    by_text false first none (some o) = ok-Returns o

parts-Returns : (i : ℕ) (vs : List Bytes) (result : List ℕ) → Returns (parse_parts i vs result)
unfolding parse_parts
parts-Returns i [] result = ok-Returns result
parts-Returns i (v ∷ vs) result =
    >>=-Returns (sub_ids i v) _ (sub_ids-Returns i v)
      (λ nums _. parts-Returns (suc i) vs (result ++ nums))

pub parse_oid-Returns : (s : Bytes) → Returns (parse_oid_from_string s)
unfolding parse_oid_from_string parse_ints_from_string
parse_oid-Returns s =
    >>=-Returns (parse_ints_from_string s) _ (parts-Returns 0 (oid_parts s) [])
      (λ ints _. ok-Returns _)
