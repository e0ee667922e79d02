-- ===== src/LineReader/Ends.antt =====
-- `Read` of read_line.go ends on every input, and panics only at a line that it has read.
use snmpclient.Prelude.{
  ℕ, zero, suc, ◌<◌, ◌≡◌, refl, Bool, true, false, Option, none, some, List, [], ◌∷◌, ◌++◌, Bytes,
  Error, Outcome, ok, err, panic, no_fuel, ◌>>=◌, length, ◌==◌, arith, All, All-append, All-map,
  Any, inl, inr, if◌then◌else◌,
}
use snmpclient.Oid.{Oid}
use snmpclient.Variable.{Variable}
use snmpclient.Variable.Text.{IpText}
use snmpclient.LineReader.Line.{parse_line, skip_lines, is_skipped}
use snmpclient.LineReader.Read.{
  Callback, Step, more, kept, stopped, remaining, on_more, on_kept, after_call, after_parse,
  retry_lines, after_last, flush_lines, read_from, read, after_last_call, wants_more,
}
use snmpclient.LineReader.Progress.{active, active_blank, active_bound, Shrinks, parse_line-Shrinks}
use snmpclient.LineReader.Panics.{Fine, ok-Fine, err-Fine, parse_line-Fine}
use snmpclient.LineReader.Tails.{IsOpaqueLine, opaque_in, IsTail-All, parse_line-IsTail}

-- An empty line does not make `ParseLine` panic.
blank_fine : {C : Type 0} → IsOpaqueLine [] → C
unfolding skip_lines is_skipped
blank_fine o = absurd (ground (arith, o.first_line))

-- Each of the lines gives `C`, if it makes `ParseLine` panic.
abbrev Safe : Type 0 → List Bytes → Type 0
Safe C = All (λ l. IsOpaqueLine l → C)

module _ (C : Type 0) {S : Type 0} (ip : IpText) (re : Bytes → Bool) (cb : Callback S) where
  -- What a step leaves to parse again has the property, the lines that it keeps are safe, and a
  -- panic gives `C`.
  Good : (List Bytes → Type 0) → Outcome (Step S) → Type 0
  Good good (ok (more ls state)) = good ls
  Good good (ok (kept ls state)) = Safe C ls
  Good good (ok (stopped e state)) = Unit
  Good good (err e) = Unit
  Good good panic = C
  Good good no_fuel = ⊥

  on_more-Good :
      (good : List Bytes → Type 0) (f : List Bytes → S → Outcome (Step S)) (o : Outcome (Step S))
      → Good good o
      → ((ls : List Bytes) (state : S) → good ls → Good (Safe C) (f ls state))
      → Good (Safe C) (o >>= on_more f)
  unfolding Good on_more
  on_more-Good good f (ok (more ls state)) h g = g ls state h
  on_more-Good good f (ok (kept ls state)) h g = h
  on_more-Good good f (ok (stopped e state)) h g = tt
  on_more-Good good f (err e) h g = tt
  on_more-Good good f panic h g = h
  on_more-Good good f no_fuel h g = absurd h

  on_kept-Fine :
      (f : List Bytes → S → Outcome (S × Option Error)) (o : Outcome (Step S))
      → Good (Safe C) o
      → ((ls : List Bytes) (state : S) → Safe C ls → Fine C (f ls state))
      → Fine C (o >>= on_kept f)
  unfolding Good on_kept
  on_kept-Fine f (ok (more ls state)) h g = g ls state h
  on_kept-Fine f (ok (kept ls state)) h g = g ls state h
  on_kept-Fine f (ok (stopped e state)) h g = ok-Fine _
  on_kept-Fine f (err e) h g = err-Fine e
  on_kept-Fine f panic h g = (λ e. ground (arith, e), λ _. h)
  on_kept-Fine f no_fuel h g = absurd h

  Good-remaining :
      (good : List Bytes → Type 0) (rest : List Bytes) (state : S)
      → good rest
      → Good good (ok (remaining rest state))
  unfolding Good remaining
  Good-remaining good [] state h = tt
  Good-remaining good (l ∷ rest) state h = h

  Good-call :
      (good : List Bytes → Type 0) (n : ℕ) (rest : List Bytes) (r : S × Option Error)
      → good rest
      → length rest < n
      → Good good (after_call n rest r)
  unfolding after_call Good
  Good-call good n rest (state, some e) h fewer = tt
  Good-call good n rest (state, none) h fewer =
      let apart : (n == length rest) ≡ false = ground arith in
      rw apart (Good-remaining good rest state h)

  Good-last_call :
      (good : List Bytes → Type 0) (rest : List Bytes) (r : S × Option Error)
      → good rest
      → Good good (after_last_call rest r)
  unfolding after_last_call Good
  Good-last_call good rest (state, some e) h = tt
  Good-last_call good rest (state, none) h = Good-remaining good rest state h

  -- What is asked of the result of `ParseLine`.
  Parsed : (good : List Bytes → Type 0) → Outcome ((Oid × Variable) × List Bytes) → Type 0
  Parsed good (ok (v, rest)) = good rest
  Parsed good (err e) = Unit
  Parsed good panic = C
  Parsed good no_fuel = ⊥

  kept-Safe : (t : Bool) (s : List Bytes) → Safe C s → Safe C (if t then s else [])
  kept-Safe true s safe = safe
  kept-Safe false s safe = tt

  Good-parse :
      (good : List Bytes → Type 0) (s : List Bytes) (state : S)
      (o : Outcome ((Oid × Variable) × List Bytes))
      → Safe C s
      → Parsed (λ rest. good rest × (length rest < length s)) o
      → Good good (after_parse cb s state o)
  unfolding Parsed after_parse Good
  Good-parse good s state (ok ((o, v), rest)) safe (h, fewer) =
      Good-call good (length s) rest (cb state o v) h fewer
  Good-parse good s state (err e) safe h = kept-Safe (wants_more e) s safe
  Good-parse good s state panic safe h = h
  Good-parse good s state no_fuel safe h = h

  Good-last :
      (good : List Bytes → Type 0) (state : S) (o : Outcome ((Oid × Variable) × List Bytes))
      → Parsed good o
      → Good good (after_last cb state o)
  unfolding Parsed after_last Good
  Good-last good state (ok ((o, v), rest)) h = Good-last_call good rest (cb state o v) h
  Good-last good state (err e) h = tt
  Good-last good state panic h = h
  Good-last good state no_fuel h = h

  parsed :
      (good : List Bytes → Type 0) (ss : List Bytes) (is_end : Bool)
      (o : Outcome ((Oid × Variable) × List Bytes))
      → Safe C ss
      → parse_line ip re ss is_end ≡ o
      → ((rest : List Bytes) → Safe C rest → Shrinks rest ss → good rest)
      → Parsed good o
  unfolding Parsed
  parsed good ss is_end (ok (v, rest)) safe e h =
      h rest
        (IsTail-All (λ l. IsOpaqueLine l → C) rest ss (parse_line-IsTail ip re ss is_end v rest e)
          safe)
        (parse_line-Shrinks ip re ss is_end v rest e)
  parsed good ss is_end (err x) safe e h = tt
  parsed good ss is_end panic safe e h = opaque_in ss ((parse_line-Fine ip re ss is_end).1 e) safe
  parsed good ss is_end no_fuel safe e h = (parse_line-Fine ip re ss is_end).0 e

  retry-Good :
      (fuel : ℕ) (s : List Bytes) (state : S)
      → Safe C s
      → length s < fuel
      → Good (Safe C) (retry_lines ip re cb fuel s state)
  unfolding retry_lines
  retry-Good zero s state safe lt = absurd (omega arith)
  retry-Good (suc fuel) s state safe lt =
      let good : List Bytes → Type 0 = λ ls. Safe C ls × (length ls < fuel) in
      on_more-Good good (retry_lines ip re cb fuel) _
        (Good-parse good s state (parse_line ip re s false) safe (
          parsed _ s false _ safe refl
            (λ rest left shrinks. ((left, omega (arith, shrinks.0, lt)), shrinks.0))))
        (λ ls st (left, fits). retry-Good fuel ls st left fits)

  flush-Good :
      (fuel : ℕ) (s : List Bytes) (state : S)
      → Safe C s
      → active s < fuel
      → Good (Safe C) (flush_lines ip re cb fuel s state)
  unfolding flush_lines Good
  flush-Good fuel [] state safe lt = tt
  flush-Good zero (l ∷ s) state safe lt = absurd (omega arith)
  flush-Good (suc fuel) (l ∷ s) state safe lt =
      let good : List Bytes → Type 0 = λ ls. Safe C ls × (active ls < fuel) in
      let same : active ((l ∷ s) ++ [] ∷ []) ≡ active (l ∷ s) = active_blank (l ∷ s) in
      on_more-Good good (flush_lines ip re cb fuel) _
        (Good-last good state (parse_line ip re ((l ∷ s) ++ [] ∷ []) true) (
          parsed good ((l ∷ s) ++ [] ∷ []) true _
            (All-append _ (l ∷ s) ([] ∷ []) safe (blank_fine, tt)) refl
            (λ rest left shrinks. (left, omega (arith, shrinks.1, same, lt)))))
        (λ ls st (left, fits). flush-Good fuel ls st left fits)

  from-Fine :
      (ending : Option Error) (lines s : List Bytes) (state : S)
      → Safe C lines
      → Safe C s
      → Fine C (read_from ip re cb ending lines s state)
  unfolding read_from
  from-Fine (some e) [] s state rest safe = ok-Fine _
  from-Fine none [] s state rest safe =
      on_kept-Fine _ (flush_lines ip re cb (suc (length s)) s state)
        (flush-Good (suc (length s)) s state safe (omega (arith, active_bound s)))
        (λ ls st _. ok-Fine _)
  from-Fine none (l ∷ ls) s state (first, rest) safe =
      on_kept-Fine _ (retry_lines ip re cb (suc (length (s ++ l ∷ []))) (s ++ l ∷ []) state)
        (retry-Good (suc (length (s ++ l ∷ []))) (s ++ l ∷ []) state
          (All-append _ s (l ∷ []) safe (first, tt)) (omega arith))
        (λ s' st left. from-Fine none ls s' st rest left)
  from-Fine (some e) (l ∷ ls) s state (first, rest) safe =
      on_kept-Fine _ (retry_lines ip re cb (suc (length (s ++ l ∷ []))) (s ++ l ∷ []) state)
        (retry-Good (suc (length (s ++ l ∷ []))) (s ++ l ∷ []) state
          (All-append _ s (l ∷ []) safe (first, tt)) (omega arith))
        (λ s' st left. from-Fine (some e) ls s' st rest left)

-- Each line that makes `ParseLine` panic is one of the lines.
each_line : (lines : List Bytes) → All (λ l. IsOpaqueLine l → Any IsOpaqueLine lines) lines
each_line [] = tt
each_line (l ∷ ls) = (λ o. inl o, All-map (λ x go o. inr (go o)) ls (each_line ls))

-- `Read` ends, whatever the lines are, however the input ends and whatever the callback does. It
-- panics only if one of the lines read is a line `x = Opaque: y` in which no colon follows: of
-- other lines, the panic "dead parse", for a parse that has consumed nothing, is never reached.
pub read-Fine :
    {S : Type 0} (ip : IpText) (re : Bytes → Bool) (cb : Callback S) (ending : Option Error)
    (lines : List Bytes) (state : S)
    → Fine (Any IsOpaqueLine lines) (read ip re cb ending lines state)
unfolding read
read-Fine ip re cb ending lines state =
    from-Fine (Any IsOpaqueLine lines) ip re cb ending lines [] state (each_line lines) tt
