-- ===== src/LineReader/Homomorphism.antt =====
-- `Read` with two callbacks on states that a function connects (read_line.go).
use snmpclient.Prelude.{
  ℕ, zero, suc, ◌≡◌, refl, ap, ◌∙◌, Bool, true, false, Option, none, some, List, [], ◌∷◌, ◌++◌,
  Bytes, Error, Outcome, ok, err, panic, no_fuel, ◌>>=◌, length, ◌==◌, if◌then◌else◌,
}
use snmpclient.Oid.{Oid}
use snmpclient.Variable.{Variable}
use snmpclient.Variable.Text.{IpText}
use snmpclient.LineReader.Line.{parse_line}
use snmpclient.LineReader.Read.{
  Callback, Step, more, kept, stopped, remaining, on_more, on_kept, after_call, after_parse,
  retry_lines, after_last, flush_lines, read_from, read, after_last_call,
}

-- The state of a result, seen through `h`.
unfoldable pub seen : {S T : Type 0} → (S → T) → S × Option Error → T × Option Error
seen h (state, e) = (h state, e)

unfoldable pub mapped : {A B : Type 0} → (A → B) → Outcome A → Outcome B
mapped f (ok x) = ok (f x)
mapped f (err e) = err e
mapped f panic = panic
mapped f no_fuel = no_fuel

module _ {S T : Type 0} (h : S → T) where
  step_seen : Step S → Step T
  step_seen (more ls state) = more ls (h state)
  step_seen (kept ls state) = kept ls (h state)
  step_seen (stopped e state) = stopped e (h state)

  remaining_seen :
      (ls : List Bytes) (state : S) → step_seen (remaining ls state) ≡ remaining ls (h state)
  unfolding step_seen remaining
  remaining_seen [] state = refl
  remaining_seen (l ∷ ls) state = refl

  call_seen :
      (n : ℕ) (rest : List Bytes) (r : S × Option Error)
      → mapped step_seen (after_call n rest r) ≡ after_call n rest (seen h r)
  unfolding mapped after_call seen step_seen
  call_seen n rest (state, some e) = refl
  call_seen n rest (state, none) = choice (n == length rest)
    where
      choice :
          (t : Bool)
          → mapped step_seen (if t then panic else ok (remaining rest state))
            ≡ (if t then panic else ok (remaining rest (h state)))
      choice true = refl
      choice false = ap ok (remaining_seen rest state)

  last_call_seen :
      (rest : List Bytes) (r : S × Option Error)
      → mapped step_seen (after_last_call rest r) ≡ after_last_call rest (seen h r)
  unfolding mapped after_last_call seen step_seen
  last_call_seen rest (state, some e) = refl
  last_call_seen rest (state, none) = ap ok (remaining_seen rest state)

  more_seen :
      (f : List Bytes → S → Outcome (Step S)) (g : List Bytes → T → Outcome (Step T))
      (o : Outcome (Step S))
      → ((ls : List Bytes) (state : S) → mapped step_seen (f ls state) ≡ g ls (h state))
      → mapped step_seen (o >>= on_more f) ≡ (mapped step_seen o >>= on_more g)
  unfolding mapped step_seen on_more
  more_seen f g (ok (more ls state)) e = e ls state
  more_seen f g (ok (kept ls state)) e = refl
  more_seen f g (ok (stopped x state)) e = refl
  more_seen f g (err x) e = refl
  more_seen f g panic e = refl
  more_seen f g no_fuel e = refl

  kept_seen :
      (f : List Bytes → S → Outcome (S × Option Error))
      (g : List Bytes → T → Outcome (T × Option Error)) (o : Outcome (Step S))
      → ((ls : List Bytes) (state : S) → mapped (seen h) (f ls state) ≡ g ls (h state))
      → mapped (seen h) (o >>= on_kept f) ≡ (mapped step_seen o >>= on_kept g)
  unfolding mapped step_seen on_kept seen
  kept_seen f g (ok (more ls state)) e = e ls state
  kept_seen f g (ok (kept ls state)) e = e ls state
  kept_seen f g (ok (stopped x state)) e = refl
  kept_seen f g (err x) e = refl
  kept_seen f g panic e = refl
  kept_seen f g no_fuel e = refl

  module _ (cb : Callback S) (cd : Callback T)
      (same : (state : S) (o : Oid) (v : Variable) → seen h (cb state o v) ≡ cd (h state) o v) where
    parse_seen :
        (s : List Bytes) (state : S) (o : Outcome ((Oid × Variable) × List Bytes))
        → mapped step_seen (after_parse cb s state o) ≡ after_parse cd s (h state) o
    unfolding mapped step_seen after_parse
    parse_seen s state (ok ((o, v), rest)) =
        call_seen (length s) rest (cb state o v) ∙ ap (after_call (length s) rest) (same state o v)
    parse_seen s state (err e) = refl
    parse_seen s state panic = refl
    parse_seen s state no_fuel = refl

    last_seen :
        (state : S) (o : Outcome ((Oid × Variable) × List Bytes))
        → mapped step_seen (after_last cb state o) ≡ after_last cd (h state) o
    unfolding mapped step_seen after_last
    last_seen state (ok ((o, v), rest)) =
        last_call_seen rest (cb state o v) ∙ ap (after_last_call rest) (same state o v)
    last_seen state (err e) = refl
    last_seen state panic = refl
    last_seen state no_fuel = refl

    module _ (ip : IpText) (re : Bytes → Bool) where
      retry_seen :
          (fuel : ℕ) (s : List Bytes) (state : S)
          → mapped step_seen (retry_lines ip re cb fuel s state)
            ≡ retry_lines ip re cd fuel s (h state)
      unfolding retry_lines mapped
      retry_seen zero s state = refl
      retry_seen (suc fuel) s state =
          more_seen (retry_lines ip re cb fuel) (retry_lines ip re cd fuel) _ (retry_seen fuel)
          ∙ ap (λ o. o >>= on_more (retry_lines ip re cd fuel))
              (parse_seen s state (parse_line ip re s false))

      flush_seen :
          (fuel : ℕ) (s : List Bytes) (state : S)
          → mapped step_seen (flush_lines ip re cb fuel s state)
            ≡ flush_lines ip re cd fuel s (h state)
      unfolding flush_lines mapped step_seen
      flush_seen fuel [] state = refl
      flush_seen zero (l ∷ s) state = refl
      flush_seen (suc fuel) (l ∷ s) state =
          more_seen (flush_lines ip re cb fuel) (flush_lines ip re cd fuel) _ (flush_seen fuel)
          ∙ ap (λ o. o >>= on_more (flush_lines ip re cd fuel))
              (last_seen state (parse_line ip re ((l ∷ s) ++ [] ∷ []) true))

      from_seen :
          (ending : Option Error) (lines s : List Bytes) (state : S)
          → mapped (seen h) (read_from ip re cb ending lines s state)
            ≡ read_from ip re cd ending lines s (h state)
      unfolding read_from mapped seen
      from_seen (some e) [] s state = refl
      from_seen none [] s state =
          kept_seen (λ ls st. ok (st, none)) (λ ls st. ok (st, none)) _ (λ ls st. refl)
          ∙ ap (λ o. o >>= on_kept (λ ls st. ok (st, none))) (flush_seen (suc (length s)) s state)
      from_seen none (l ∷ ls) s state =
          kept_seen (λ k st. read_from ip re cb none ls k st)
            (λ k st. read_from ip re cd none ls k st) _ (λ k st. from_seen none ls k st)
          ∙ ap (λ o. o >>= on_kept (λ k st. read_from ip re cd none ls k st))
              (retry_seen (suc (length (s ++ l ∷ []))) (s ++ l ∷ []) state)
      from_seen (some e) (l ∷ ls) s state =
          kept_seen (λ k st. read_from ip re cb (some e) ls k st)
            (λ k st. read_from ip re cd (some e) ls k st) _ (λ k st. from_seen (some e) ls k st)
          ∙ ap (λ o. o >>= on_kept (λ k st. read_from ip re cd (some e) ls k st))
              (retry_seen (suc (length (s ++ l ∷ []))) (s ++ l ∷ []) state)

      -- A callback that `h` carries to another one: reading with the first and looking at the
      -- result through `h` is reading with the second.
      pub mapped-read :
          (ending : Option Error) (lines : List Bytes) (state : S)
          → mapped (seen h) (read ip re cb ending lines state)
            ≡ read ip re cd ending lines (h state)
      unfolding read
      mapped-read ending lines state = from_seen ending lines [] state
