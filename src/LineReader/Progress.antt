-- ===== src/LineReader/Progress.antt =====
-- `ParseLine` consumes lines, so that `Read` ends and never finds the parse dead (read_line.go).
use snmpclient.Prelude.{
  ℕ, suc, ◌+◌, ◌-◌, ◌≤◌, ◌<◌, ◌≡◌, refl, ap, Bool, true, false, not, ◌&&◌, ◌||◌, Option, none, some,
  List, [], ◌∷◌, ◌++◌, append-nil, Bytes, codes, Error, generic, Outcome, ok, err, panic, ◌>>=◌,
  >>=-elim, length, length-append, drop, take, is_empty, bytes_eq, ltb, if◌then◌else◌, arith,
}
use snmpclient.Oid.{Oid}
use snmpclient.Golang.Strings.{split_once}
use snmpclient.Golang.Text.{trim_space, has_prefix, has_suffix, contains_text}
use snmpclient.Variable.{Variable}
use snmpclient.Variable.Text.{IpText, new_octet_string_from_string}
use snmpclient.LineReader.{
  quote, cut_at, closes, read_hex, hex_lines, all_hex_lines, ends_string, ends_hex, string_rest,
  parse_string, hex_rest, parse_hex_string,
}
use snmpclient.LineReader.Line.{
  is_skipped, skip_lines, as_generic, line_oid, untyped, single_value, opaque_value, typed,
  value_of, parse_first, parse_lines, parse_line,
}
use mathlib.Core.Path.{subst}

-- The lines `rest` are the last of `ss`.
abbrev pub IsTail : List Bytes → List Bytes → Type 0
IsTail rest ss = (front : List Bytes) × (front ++ rest ≡ ss)

none-IsTail : (ss : List Bytes) → IsTail [] ss
none-IsTail ss = (ss, append-nil ss)

value_inj :
    {A : Type 0} (v w : A) (r s : List Bytes)
    → ◌≡◌ {A = Outcome (A × List Bytes)} (ok (v, r)) (ok (w, s))
    → r ≡ s
value_inj v w r s h = ground arith

-- What remains of a result.
abbrev LeavesTail : {A : Type 0} → Outcome (A × List Bytes) → List Bytes → Type 0
LeavesTail {A} o ss = (v : A) (rest : List Bytes) → o ≡ ok (v, rest) → IsTail rest ss

leaves : {A : Type 0} (v : A) (r ss : List Bytes) → IsTail r ss → LeavesTail (ok (v, r)) ss
leaves v r ss t w rest h = subst (λ l. IsTail l ss) (value_inj v w r rest h) t

leaves_none : {A : Type 0} (e : Error) (ss : List Bytes) → LeavesTail {A = A} (err e) ss
leaves_none e ss v rest h = ground arith

panic_tail : {A : Type 0} (ss : List Bytes) → LeavesTail {A = A} panic ss
panic_tail ss v rest h = ground arith

behind :
    {A B : Type 0} (call : Outcome A) (next : A → Outcome (B × List Bytes)) (ss : List Bytes)
    → ((x : A) → LeavesTail (next x) ss)
    → LeavesTail (call >>= next) ss
behind call next ss h v rest e = >>=-elim call next e (λ x _ e1. h x v rest e1)

chosen :
    {A : Type 0} (t : Bool) (o p : Outcome (A × List Bytes)) (ss : List Bytes)
    → LeavesTail o ss
    → LeavesTail p ss
    → LeavesTail (if t then o else p) ss
chosen true o p ss ho hp = ho
chosen false o p ss ho hp = hp

cut_whole : (stop : Bytes → Bool) (ss a b : List Bytes) → cut_at stop ss ≡ some (a, b) → a ++ b ≡ ss
unfolding cut_at
cut_whole stop [] a b h = ground arith
cut_whole stop (s ∷ ss) a b h = by_stop (cut_whole stop ss) (stop s) (cut_at stop ss) refl h
  where
    by_stop :
        ((x y : List Bytes) → cut_at stop ss ≡ some (x, y) → x ++ y ≡ ss)
        → (t : Bool) (o : Option (List Bytes × List Bytes)) → cut_at stop ss ≡ o
        → if◌then◌else◌ {A = Option (List Bytes × List Bytes)} t
            (some ([], s ∷ ss))
            (elim o [ none ↦ none | some (x, y) ↦ some (s ∷ x, y) ])
          ≡ some (a, b)
        → a ++ b ≡ s ∷ ss
    by_stop shorter true o e h = ground (arith, h)
    by_stop shorter false none e h = ground arith
    by_stop shorter false (some (x, y)) e h = ground (arith, h, shorter x y e)

string_tail :
    (re : Bytes → Bool) (is_end : Bool) (ss : List Bytes) (vs : Bytes)
    (o : Option (List Bytes × List Bytes))
    → cut_at (ends_string re) ss ≡ o
    → LeavesTail (string_rest re is_end ss vs o) ss
unfolding string_rest
string_tail re true ss vs none e = leaves _ [] ss (none-IsTail ss)
string_tail re false ss vs none e = leaves_none _ ss
string_tail re is_end ss vs (some (a, b)) e = leaves _ b ss (a, cut_whole (ends_string re) ss a b e)

parse_string_tail :
    (re : Bytes → Bool) (ss : List Bytes) (is_end : Bool) (vs : Bytes)
    → LeavesTail (parse_string re ss is_end vs) ss
unfolding parse_string
parse_string_tail re ss is_end vs =
    let s = trim_space vs in
    chosen (not (has_prefix s quote)) _ _ ss (leaves_none generic ss) (
      chosen (ltb 1 (length s) && closes s) _ _ ss (leaves _ ss ss ([], refl))
        (string_tail re is_end ss vs (cut_at (ends_string re) ss) refl))

hex_tail :
    (re : Bytes → Bool) (is_end : Bool) (ss : List Bytes) (vs : Bytes)
    (o : Option (List Bytes × List Bytes))
    → cut_at (ends_hex re) ss ≡ o
    → LeavesTail (hex_rest re is_end ss vs o) ss
unfolding hex_rest
hex_tail re true ss vs none e =
    behind (read_hex (trim_space vs)) _ ss
      (λ b. behind (all_hex_lines ss) _ ss (λ bs. leaves _ [] ss (none-IsTail ss)))
hex_tail re false ss vs none e = leaves_none _ ss
hex_tail re is_end ss vs (some (a, b)) e =
    behind (read_hex (trim_space vs)) _ ss
      (λ x. behind (hex_lines a) _ ss (λ y. leaves _ b ss (a, cut_whole (ends_hex re) ss a b e)))

untyped_tail : (text : Bytes) (ss : List Bytes) → LeavesTail (untyped text ss) ss
unfolding untyped
untyped_tail text ss =
    let s = trim_space text in
    chosen (is_empty ss && has_prefix s quote && has_suffix s quote) _ _ ss
      (behind (new_octet_string_from_string (take (length (drop 1 s) - 1) (drop 1 s))) _ ss
        (λ v. leaves v [] ss (none-IsTail ss)))
      (leaves _ ss ss ([], refl))

module _ (ip : IpText) (re : Bytes → Bool) where
  opaque_tail :
      (ss : List Bytes) (is_end : Bool) (o : Option (Bytes × Bytes))
      → LeavesTail (opaque_value ip re ss is_end o) ss
  unfolding opaque_value
  opaque_tail ss is_end none = panic_tail ss
  opaque_tail ss is_end (some (t, text)) =
      chosen (bytes_eq (trim_space t) (codes "Float")) _ _ ss (leaves _ [] ss (none-IsTail ss))
        (parse_string_tail re ss is_end text)

  typed_tail :
      (t text : Bytes) (ss : List Bytes) (is_end : Bool)
      → LeavesTail (typed ip re t text ss is_end) ss
  unfolding typed parse_hex_string
  typed_tail t text ss is_end =
      chosen (bytes_eq t (codes "Opaque")) _ _ ss (opaque_tail ss is_end (split_once b':' text)) (
        chosen (bytes_eq t (codes "STRING")) _ _ ss (parse_string_tail re ss is_end text) (
          chosen (bytes_eq t (codes "Hex-STRING")) _ _ ss
            (hex_tail re is_end ss text (cut_at (ends_hex re) ss) refl)
            (chosen (not (is_empty ss)) _ _ ss (leaves_none generic ss)
              (behind (single_value ip t text) _ ss (λ v. leaves v [] ss (none-IsTail ss))))))

  value_tail :
      (text : Bytes) (ss : List Bytes) (is_end : Bool) (o : Option (Bytes × Bytes))
      → LeavesTail (value_of ip re text ss is_end o) ss
  unfolding value_of
  value_tail text ss is_end none = untyped_tail text ss
  value_tail text ss is_end (some (t, v)) = typed_tail (trim_space t) v ss is_end

  pub first_tail :
      (s : Bytes) (ss : List Bytes) (is_end : Bool) (o : Option (Bytes × Bytes))
      → LeavesTail (parse_first ip re s ss is_end o) ss
  unfolding parse_first
  first_tail s ss is_end none = leaves_none _ ss
  first_tail s ss is_end (some (name, text)) =
      chosen (contains_text s (codes "# ====") || contains_text s (codes "#exit")) _ _ ss
        (leaves_none _ ss)
        (behind (as_generic (line_oid name)) _ ss (λ o v rest h.
          >>=-elim (value_of ip re text ss is_end (split_once b':' text)) _ h (λ x e h1.
            subst (λ l. IsTail l ss) (value_inj _ v x.1 rest h1)
              (value_tail text ss is_end (split_once b':' text) x.0 x.1 e))))

-- The number of lines that are not skipped.
pub active : List Bytes → ℕ
active [] = 0
active (s ∷ ss) = (if is_skipped s then 0 else 1) + active ss

active-append : (xs ys : List Bytes) → active (xs ++ ys) ≡ active xs + active ys
unfolding active
active-append [] ys = omega arith
active-append (x ∷ xs) ys = omega (arith, active-append xs ys)

-- A blank line at the end is not counted.
pub active_blank : (ss : List Bytes) → active (ss ++ [] ∷ []) ≡ active ss
unfolding active is_skipped
active_blank ss = omega (arith, active-append ss ([] ∷ []))

pub active_bound : (ss : List Bytes) → active ss ≤ length ss
unfolding active
active_bound [] = omega arith
active_bound (s ∷ ss) = ground (arith, active_bound ss)

-- The first line that is not skipped, and what is behind it.
skipped :
    (ss : List Bytes) (x : Bytes) (xs : List Bytes)
    → skip_lines ss ≡ x ∷ xs
    → (length xs < length ss) × (active xs < active ss)
unfolding skip_lines active
skipped [] x xs h = ground arith
skipped (s ∷ ss) x xs h = by_skip (skipped ss x xs) (is_skipped s) refl h
  where
    by_skip :
        (skip_lines ss ≡ x ∷ xs → (length xs < length ss) × (active xs < active ss))
        → (t : Bool) → is_skipped s ≡ t
        → (if t then skip_lines ss else s ∷ ss) ≡ x ∷ xs
        → (length xs < suc (length ss)) × (active xs < (if is_skipped s then 0 else 1) + active ss)
    by_skip shorter true e h = let (l, n) = shorter h in (omega (arith, l), rw e (omega (arith, n)))
    by_skip shorter false e h =
        let same : xs ≡ ss = ground (arith, h) in
        (rw same (omega arith), rw (same, e) (omega arith))

-- Fewer lines remain, and fewer that are not skipped.
abbrev pub Shrinks : List Bytes → List Bytes → Type 0
Shrinks rest ss = (length rest < length ss) × (active rest < active ss)

module _ (ip : IpText) (re : Bytes → Bool) where
  lines_shrink :
      (ss l : List Bytes) (is_end : Bool) (v : Oid × Variable) (rest : List Bytes)
      → skip_lines ss ≡ l
      → parse_lines ip re l is_end ≡ ok (v, rest)
      → Shrinks rest ss
  unfolding parse_lines
  lines_shrink ss [] is_end v rest e h = ground arith
  lines_shrink ss (x ∷ xs) is_end v rest e h =
      let (front, whole) = first_tail ip re x xs is_end (split_once b'=' x) v rest h in
      let (l, n) = skipped ss x xs e in
      (
        omega (arith, l, length-append front rest, ap length whole),
        omega (arith, n, active-append front rest, ap active whole),
      )

  -- `ParseLine` with a result consumes a line that it does not skip, whatever the lines are: both
  -- fewer lines remain, and fewer of those that are not skipped.
  pub parse_line-Shrinks :
      (ss : List Bytes) (is_end : Bool) (v : Oid × Variable) (rest : List Bytes)
      → parse_line ip re ss is_end ≡ ok (v, rest)
      → Shrinks rest ss
  unfolding parse_line
  parse_line-Shrinks [] is_end v rest h = ground arith
  parse_line-Shrinks (s ∷ ss) is_end v rest h =
      lines_shrink (s ∷ ss) (skip_lines (s ∷ ss)) is_end v rest refl h
