-- ===== src/LineReader/Read.antt =====
-- `Read` of read_line.go, over the lines that `ReadLine` gives before the input ends.
use snmpclient.Prelude.{
  ℕ, zero, suc, Bool, true, false, Option, none, some, List, [], ◌∷◌, ◌++◌, Bytes, Error, more_line,
  Outcome, ok, err, panic, no_fuel, ◌>>=◌, length, ◌==◌, if◌then◌else◌,
}
use snmpclient.Oid.{Oid}
use snmpclient.Variable.{Variable}
use snmpclient.Variable.Text.{IpText}
use snmpclient.LineReader.Line.{parse_line}

-- What the callback does with its state, and the error that it returns, `none` for nil.
abbrev pub Callback : Type 0 → Type 0
Callback S = S → Oid → Variable → S × Option Error

-- The test `more_line == e`.
unfoldable pub wants_more : Error → Bool
wants_more more_line = true
wants_more _ = false

-- How one call of `ParseLine` ends: with lines to parse again, with the lines that are kept for
-- the next one read, or with an error of the callback.
pub data Step (S : Type 0) : Type 0 where
  more : List Bytes → S → Step S
  kept : List Bytes → S → Step S
  stopped : Error → S → Step S

module _ {S : Type 0} where
  unfoldable pub remaining : List Bytes → S → Step S
  remaining [] state = kept [] state
  remaining (l ∷ ls) state = more (l ∷ ls) state

  unfoldable pub on_more : (List Bytes → S → Outcome (Step S)) → Step S → Outcome (Step S)
  on_more f (more ls state) = f ls state
  on_more f (kept ls state) = ok (kept ls state)
  on_more f (stopped e state) = ok (stopped e state)

  -- What `Read` returns, with the state of the callback.
  unfoldable pub on_kept :
      (List Bytes → S → Outcome (S × Option Error)) → Step S → Outcome (S × Option Error)
  on_kept f (more ls state) = f ls state
  on_kept f (kept ls state) = f ls state
  on_kept f (stopped e state) = ok (state, some e)

  -- Behind the call of the callback, on `n` lines of which `rest` remain.
  unfoldable pub after_call : ℕ → List Bytes → S × Option Error → Outcome (Step S)
  unfolding remaining
  after_call n rest (state, some e) = ok (stopped e state)
  after_call n rest (state, none) = if n == length rest then panic else ok (remaining rest state)

  -- At the end of the input no number of lines is compared.
  unfoldable pub after_last_call : List Bytes → S × Option Error → Outcome (Step S)
  unfolding remaining
  after_last_call rest (state, some e) = ok (stopped e state)
  after_last_call rest (state, none) = ok (remaining rest state)

module _ {S : Type 0} (cb : Callback S) where
  -- Behind `ParseLine`: lines that want more are kept, and every other error drops them.
  unfoldable pub after_parse :
      List Bytes → S → Outcome ((Oid × Variable) × List Bytes) → Outcome (Step S)
  unfolding after_call wants_more
  after_parse s state (err e) = ok (kept (if wants_more e then s else []) state)
  after_parse s state (ok ((o, v), rest)) = after_call (length s) rest (cb state o v)
  after_parse s state panic = panic
  after_parse s state no_fuel = no_fuel

  -- At the end of the input every error drops the lines.
  unfoldable pub after_last : S → Outcome ((Oid × Variable) × List Bytes) → Outcome (Step S)
  unfolding after_last_call
  after_last state (err e) = ok (kept [] state)
  after_last state (ok ((o, v), rest)) = after_last_call rest (cb state o v)
  after_last state panic = panic
  after_last state no_fuel = no_fuel

module _ {S : Type 0} (ip : IpText) (re : Bytes → Bool) (cb : Callback S) where
  -- The label `retry`.
  unfoldable pub retry_lines : ℕ → List Bytes → S → Outcome (Step S)
  unfolding parse_line after_parse on_more
  retry_lines zero s state = no_fuel
  retry_lines (suc fuel) s state =
      after_parse cb s state (parse_line ip re s false) >>= on_more (retry_lines fuel)

  -- The loop at the end of the input, which puts the empty line of the last `ReadLine` behind the
  -- lines in each round.
  unfoldable pub flush_lines : ℕ → List Bytes → S → Outcome (Step S)
  unfolding parse_line after_last on_more
  flush_lines fuel [] state = ok (kept [] state)
  flush_lines zero (l ∷ ls) state = no_fuel
  flush_lines (suc fuel) (l ∷ ls) state =
      after_last cb state (parse_line ip re ((l ∷ ls) ++ [] ∷ []) true)
      >>= on_more (flush_lines fuel)

  -- `Read` with the lines kept, `none` being the end of the input and `some e` another error of
  -- `ReadLine`.
  unfoldable pub read_from : Option Error → List Bytes → List Bytes → S → Outcome (S × Option Error)
  unfolding flush_lines retry_lines on_kept
  read_from (some e) [] s state = ok (state, some e)
  read_from none [] s state =
      flush_lines (suc (length s)) s state >>= on_kept (λ ls st. ok (st, none))
  read_from ending (l ∷ ls) s state =
      retry_lines (suc (length (s ++ l ∷ []))) (s ++ l ∷ []) state
      >>= on_kept (λ kept_lines st. read_from ending ls kept_lines st)

  unfoldable pub read : Option Error → List Bytes → S → Outcome (S × Option Error)
  unfolding read_from
  read ending lines state = read_from ending lines [] state
