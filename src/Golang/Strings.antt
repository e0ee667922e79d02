-- ===== src/Golang/Strings.antt =====
-- `strings.Split`, `strings.SplitN` with 2, `strings.Trim` and `strings.ToLower`, for a separator
-- or a cutset of one ASCII character.
use snmpclient.Prelude.{
  ℕ, ◌+◌, ◌≡◌, ◌≢◌, refl, ◌&&◌, Option, none, some, List, [], ◌∷◌, ◌++◌, map, arith, Bytes, Lacks,
  ◌==◌, leb, is_empty, if◌then◌else◌, false,
}

-- Puts a byte before the first part.
cons_head : ℕ → List Bytes → List Bytes
cons_head c [] = (c ∷ []) ∷ []
cons_head c (p ∷ ps) = (c ∷ p) ∷ ps

-- `strings.Split(s, sep)`: at least one part, and no part holds `sep`.
unfoldable pub split : ℕ → Bytes → List Bytes
unfolding cons_head
split sep [] = [] ∷ []
split sep (c ∷ s) = let rest = split sep s in if c == sep then [] ∷ rest else cons_head c rest

-- The parts of `strings.SplitN(s, sep, 2)`, if there are two.
unfoldable pub split_once : ℕ → Bytes → Option (Bytes × Bytes)
split_once sep [] = none
split_once sep (c ∷ s) =
    let rest = split_once sep s in
    if c == sep then some ([], s) else elim rest [ none ↦ none | some (a, b) ↦ some (c ∷ a, b) ]

trim_left : ℕ → Bytes → Bytes
trim_left sep [] = []
trim_left sep (c ∷ s) = let rest = trim_left sep s in if c == sep then rest else c ∷ s

trim_right : ℕ → Bytes → Bytes
trim_right sep [] = []
trim_right sep (c ∷ s) =
    let rest = trim_right sep s in if is_empty rest && (c == sep) then [] else c ∷ rest

-- `strings.Trim(s, cutset)`.
unfoldable pub trim : ℕ → Bytes → Bytes
unfolding trim_left trim_right
trim sep s = trim_right sep (trim_left sep s)

-- `strings.ToLower` on ASCII.
unfoldable pub to_lower : Bytes → Bytes
to_lower = map (λ c. if leb b'A' c && leb c b'Z' then c + 32 else c)

pub split-Lacks : (sep : ℕ) (p : Bytes) → Lacks sep p → split sep p ≡ p ∷ []
unfolding split
split-Lacks sep [] h = refl
split-Lacks sep (c ∷ p) (hc, hp) = ground (arith, split-Lacks sep p hp)

-- The text up to the first separator is the first part.
pub split-append :
    (sep : ℕ) (p rest : Bytes) → Lacks sep p → split sep (p ++ sep ∷ rest) ≡ p ∷ split sep rest
unfolding split
split-append sep [] rest h = ground arith
split-append sep (c ∷ p) rest (hc, hp) = ground (arith, split-append sep p rest hp)

pub split_once-append :
    (sep : ℕ) (p rest : Bytes) → Lacks sep p → split_once sep (p ++ sep ∷ rest) ≡ some (p, rest)
unfolding split_once
split_once-append sep [] rest h = ground arith
split_once-append sep (c ∷ p) rest (hc, hp) = ground (arith, split_once-append sep p rest hp)

-- The text does not end in `sep`.
abbrev pub EndLacks : ℕ → Bytes → Type 0
EndLacks sep [] = Unit
EndLacks sep (c ∷ []) = c ≢ sep
EndLacks sep (c ∷ d ∷ s) = EndLacks sep (d ∷ s)

pub EndLacks-append :
    (sep : ℕ) (s : Bytes) (c : ℕ) (t : Bytes) → EndLacks sep (c ∷ t) → EndLacks sep (s ++ c ∷ t)
EndLacks-append sep [] c t h = h
EndLacks-append sep (a ∷ []) c t h = h
EndLacks-append sep (a ∷ b ∷ s) c t h = EndLacks-append sep (b ∷ s) c t h

pub Lacks-EndLacks : (sep : ℕ) (s : Bytes) → Lacks sep s → EndLacks sep s
Lacks-EndLacks sep [] h = tt
Lacks-EndLacks sep (c ∷ []) h = h.0
Lacks-EndLacks sep (c ∷ d ∷ s) h = Lacks-EndLacks sep (d ∷ s) h.1

trim_right-EndLacks : (sep : ℕ) (s : Bytes) → EndLacks sep s → trim_right sep s ≡ s
unfolding trim_right
trim_right-EndLacks sep [] h = refl
trim_right-EndLacks sep (c ∷ []) h = ground arith
trim_right-EndLacks sep (c ∷ d ∷ s) h = rw (trim_right-EndLacks sep (d ∷ s) h)

-- The text does not begin with `sep`.
abbrev pub HeadLacks : ℕ → Bytes → Type 0
HeadLacks sep [] = Unit
HeadLacks sep (c ∷ s) = c ≢ sep

pub EndLacks-cons :
    (sep c : ℕ) (s : Bytes) → is_empty s ≡ false → EndLacks sep s → EndLacks sep (c ∷ s)
EndLacks-cons sep c [] h e = ground arith
EndLacks-cons sep c (d ∷ s) h e = e

pub HeadLacks-append :
    (sep : ℕ) (s t : Bytes) → is_empty s ≡ false → HeadLacks sep s → HeadLacks sep (s ++ t)
HeadLacks-append sep [] t h e = ground arith
HeadLacks-append sep (c ∷ s) t h e = e

pub Lacks-HeadLacks : (sep : ℕ) (s : Bytes) → Lacks sep s → HeadLacks sep s
Lacks-HeadLacks sep [] h = tt
Lacks-HeadLacks sep (c ∷ s) h = h.0

-- A text that begins and ends with other bytes is not trimmed.
pub trim_self : (sep : ℕ) (s : Bytes) → HeadLacks sep s → EndLacks sep s → trim sep s ≡ s
unfolding trim
trim_self sep [] h e = refl
trim_self sep (c ∷ s) h e = ground (arith, trim_right-EndLacks sep (c ∷ s) e)
