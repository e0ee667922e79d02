-- ===== src/LineReader/Tails.antt =====
-- The lines that `ParseLine` leaves are the last of those that it is given, and the line that makes
-- it panic is one of them (read_line.go).
use snmpclient.Prelude.{
  ◌≡◌, refl, sym, ap, ◌∙◌, Bool, true, false, List, [], ◌∷◌, ◌++◌, append_assoc, Bytes, ok, All,
  if◌then◌else◌, arith,
}
use mathlib.Core.Path.{subst}
use snmpclient.Oid.{Oid}
use snmpclient.Golang.Strings.{split_once}
use snmpclient.Variable.{Variable}
use snmpclient.Variable.Text.{IpText}
use snmpclient.LineReader.Line.{is_skipped, skip_lines, parse_lines, parse_line}
use snmpclient.LineReader.Progress.{IsTail, first_tail}
use snmpclient.LineReader.Panics.{IsOpaque}

-- The lines behind the first one that is not skipped.
skipped-IsTail :
    (ss : List Bytes) (x : Bytes) (xs : List Bytes) → skip_lines ss ≡ x ∷ xs → IsTail xs ss
unfolding skip_lines
skipped-IsTail [] x xs h = ground arith
skipped-IsTail (s ∷ ss) x xs h = by_skip (skipped-IsTail ss x xs) (is_skipped s) h
  where
    by_skip :
        (skip_lines ss ≡ x ∷ xs → IsTail xs ss)
        → (t : Bool) → (if t then skip_lines ss else s ∷ ss) ≡ x ∷ xs
        → IsTail xs (s ∷ ss)
    by_skip shorter true h = let (front, e) = shorter h in (s ∷ front, ap (λ l. s ∷ l) e)
    by_skip shorter false h =
        let same : xs ≡ ss = ground (arith, h) in (s ∷ [], ap (λ l. s ∷ l) same)

module _ (ip : IpText) (re : Bytes → Bool) where
  lines-IsTail :
      (ss l : List Bytes) (is_end : Bool) (v : Oid × Variable) (rest : List Bytes)
      → skip_lines ss ≡ l
      → parse_lines ip re l is_end ≡ ok (v, rest)
      → IsTail rest ss
  unfolding parse_lines
  lines-IsTail ss [] is_end v rest e h = ground arith
  lines-IsTail ss (x ∷ xs) is_end v rest e h =
      let (front, whole) = first_tail ip re x xs is_end (split_once b'=' x) v rest h in
      let (before, all) = skipped-IsTail ss x xs e in
      (before ++ front, append_assoc before front rest ∙ ap (λ l. before ++ l) whole ∙ all)

  -- The lines that `ParseLine` leaves are the last of its lines.
  pub parse_line-IsTail :
      (ss : List Bytes) (is_end : Bool) (v : Oid × Variable) (rest : List Bytes)
      → parse_line ip re ss is_end ≡ ok (v, rest)
      → IsTail rest ss
  unfolding parse_line
  parse_line-IsTail [] is_end v rest h = ground arith
  parse_line-IsTail (s ∷ ss) is_end v rest h =
      lines-IsTail (s ∷ ss) (skip_lines (s ∷ ss)) is_end v rest refl h

tail-All : (P : Bytes → Type 0) (front rest : List Bytes) → All P (front ++ rest) → All P rest
tail-All P [] rest h = h
tail-All P (s ∷ front) rest (_, h) = tail-All P front rest h

pub IsTail-All :
    (P : Bytes → Type 0) (rest ss : List Bytes) → IsTail rest ss → All P ss → All P rest
IsTail-All P rest ss (front, e) h = tail-All P front rest (rw e h)

-- The first line that is not skipped is one of the lines.
first_in :
    (P : Bytes → Type 0) (ss : List Bytes) (x : Bytes) (xs : List Bytes)
    → skip_lines ss ≡ x ∷ xs
    → All P ss
    → (is_skipped x ≡ false) × P x
unfolding skip_lines
first_in P [] x xs h all = ground arith
first_in P (s ∷ ss) x xs h (p, all) = by_skip (λ e. first_in P ss x xs e all) (is_skipped s) refl h
  where
    by_skip :
        (skip_lines ss ≡ x ∷ xs → (is_skipped x ≡ false) × P x)
        → (t : Bool) → is_skipped s ≡ t
        → (if t then skip_lines ss else s ∷ ss) ≡ x ∷ xs
        → (is_skipped x ≡ false) × P x
    by_skip deeper true e h = deeper h
    by_skip deeper false e h =
        let same : s ≡ x = ground (arith, h) in (ap is_skipped (sym same) ∙ e, subst P same p)

alone : (x : Bytes) → is_skipped x ≡ false → skip_lines (x ∷ []) ≡ x ∷ []
unfolding skip_lines
alone x e = rw e

-- A line `x = Opaque: y` without a colon in `y`.
abbrev pub IsOpaqueLine : Bytes → Type 0
IsOpaqueLine l = IsOpaque (l ∷ [])

-- Of lines that make `ParseLine` panic, one is such a line.
pub opaque_in : {C : Type 0} (ss : List Bytes) → IsOpaque ss → All (λ l. IsOpaqueLine l → C) ss → C
opaque_in {C} ss o all =
    let (kept, go) = first_in (λ l. IsOpaqueLine l → C) ss o.line o.behind o.first_line all in
    go (record {
      line = o.line;
      behind = [];
      name = o.name;
      text = o.text;
      kind = o.kind;
      value = o.value;
      first_line = alone o.line kept;
      equals = o.equals;
      colon = o.colon;
      opaque_kind = o.opaque_kind;
      no_colon = o.no_colon;
    })
