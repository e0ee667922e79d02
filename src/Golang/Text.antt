-- ===== src/Golang/Text.antt =====
-- `strings.TrimSpace`, `HasPrefix`, `HasSuffix`, `Contains`, `Replace` once, `Fields`, `Join` and
-- `IndexRune`, on ASCII text.
use snmpclient.Prelude.{
  ℕ, suc, Bool, true, false, ◌&&◌, ◌||◌, Option, none, some, List, [], ◌∷◌, ◌++◌, Bytes, length,
  drop, is_empty, bytes_eq, leb, ◌==◌, if◌then◌else◌,
}

unfoldable pub is_space : ℕ → Bool
is_space c = (c == 32) || (leb 9 c && leb c 13)

-- `strings.TrimLeftFunc(s, unicode.IsSpace)`.
unfoldable pub trim_left_space : Bytes → Bytes
unfolding is_space
trim_left_space [] = []
trim_left_space (c ∷ s) = let rest = trim_left_space s in if is_space c then rest else c ∷ s

unfoldable pub trim_right_space : Bytes → Bytes
unfolding is_space
trim_right_space [] = []
trim_right_space (c ∷ s) =
    let rest = trim_right_space s in if is_empty rest && is_space c then [] else c ∷ rest

unfoldable pub trim_space : Bytes → Bytes
unfolding trim_left_space trim_right_space
trim_space s = trim_right_space (trim_left_space s)

unfoldable pub has_prefix : Bytes → Bytes → Bool
has_prefix s [] = true
has_prefix [] (p ∷ ps) = false
has_prefix (c ∷ s) (p ∷ ps) = (c == p) && has_prefix s ps

unfoldable pub has_suffix : Bytes → Bytes → Bool
unfolding bytes_eq
has_suffix [] p = bytes_eq [] p
has_suffix (c ∷ s) p = bytes_eq (c ∷ s) p || has_suffix s p

unfoldable pub contains_text : Bytes → Bytes → Bool
unfolding has_prefix
contains_text [] p = has_prefix [] p
contains_text (c ∷ s) p = has_prefix (c ∷ s) p || contains_text s p

-- `strings.Replace(s, old, new, 1)` of a text `old` that is not empty.
unfoldable pub replace_once : Bytes → Bytes → Bytes → Bytes
unfolding has_prefix
replace_once [] old new = []
replace_once (c ∷ s) old new =
    let rest = replace_once s old new in
    if has_prefix (c ∷ s) old then new ++ drop (length old) (c ∷ s) else c ∷ rest

-- Puts a byte before the first field, which the byte behind it has begun, or makes a field of it.
extend : Bool → ℕ → List Bytes → List Bytes
extend goes_on c [] = (c ∷ []) ∷ []
extend true c (f ∷ fs) = (c ∷ f) ∷ fs
extend false c (f ∷ fs) = (c ∷ []) ∷ f ∷ fs

-- The text begins with a byte of a field.
in_field : Bytes → Bool
unfolding is_space
in_field [] = false
in_field (c ∷ s) = if is_space c then false else true

unfoldable pub fields : Bytes → List Bytes
unfolding extend in_field
fields [] = []
fields (c ∷ s) = let rest = fields s in if is_space c then rest else extend (in_field s) c rest

unfoldable pub join : List Bytes → Bytes → Bytes
join [] sep = []
join (s ∷ []) sep = s
join (s ∷ t ∷ ss) sep = s ++ (sep ++ join (t ∷ ss) sep)

unfoldable pub index_of : ℕ → Bytes → Option ℕ
index_of r [] = none
index_of r (c ∷ s) =
    let rest = index_of r s in
    if c == r then some 0 else elim rest [ none ↦ none | some i ↦ some (suc i) ]
