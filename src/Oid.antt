-- ===== src/Oid.antt =====
-- Object identifiers: `Oid` and `Oids` of variables.go, and `compareOidAdValue` of udp_server.go.
-- A sub-identifier is a non-negative int; negative ones, which the texts and encodings of the code
-- take as uint32, are left out. The proofs are in the modules below.
pub mod Order
pub mod Prefix
pub mod Text
pub mod Lists
pub mod Total
mod Tests
use snmpclient.Prelude.{
  ◌*◌, ◌≤◌, ◌<◌, ◌≡◌, ◌⊎◌, All, ℕ, zero, suc, ◌+◌, ◌-◌, ◌%◌, ◌^◌, Bool, true, false, ◌&&◌, Option,
  none, some, List, [], ◌∷◌, ◌++◌, Bytes, codes, Outcome, ok, err, panic, or_err, one_of, generic,
  argument, ◌>>=◌, length, take, is_empty, bytes_eq, ltb, leb, ◌==◌, if◌then◌else◌,
}
use snmpclient.Prelude.Int.{ℤ, pos, negsuc}
use snmpclient.Golang.Strings.{split, trim}
use snmpclient.Golang.Strconv.{parse_uint, format_uint}

pub record Oid : Type 0 where
  pub value : List ℕ

-- The identifiers that an encoding carries: the first two sub-identifiers share one number. One of
-- a single sub-identifier is written as if a zero followed.
abbrev pub IsIdentifier : List ℕ → Type 0
IsIdentifier [] = ⊥
IsIdentifier (a ∷ []) = ⊥
IsIdentifier (a ∷ b ∷ os) =
    (a ≤ 2) × ((a ≡ 2) ⊎ (b < 40)) × (40 * a + b < 2 ^ 63) × All (λ n. n < 2 ^ 63) os

unfoldable pub new_oid : List ℕ → Oid
new_oid oid = record { value = oid }

abbrev pub max_uint32 : ℕ
max_uint32 = 2 ^ 32 - 1

contains_from : List ℕ → List ℕ → Bool
contains_from v [] = true
contains_from [] (o ∷ os) = false
contains_from (v ∷ vs) (o ∷ os) = (v == o) && contains_from vs os

-- `none` is a nil pointer. The loop reads no index past the end of `v`, since `v` is not shorter.
unfoldable pub contains : Oid → Option Oid → Bool
unfolding contains_from
contains v none = false
contains v (some o) =
    if ltb (length v.value) (length o.value) then false else contains_from v.value o.value

-- The loop of `Compare` from the index that both lists have been read up to.
compare_from : List ℕ → List ℕ → ℤ
compare_from [] os = if length os == 0 then pos 0 else negsuc 0
compare_from (v ∷ vs) [] = pos 1
compare_from (v ∷ vs) (o ∷ os) =
    let rest = compare_from vs os in if ltb o v then pos 1 else if ltb v o then negsuc 0 else rest

unfoldable pub compare : Oid → Option Oid → ℤ
unfolding compare_from
compare v none = negsuc 0
compare v (some o) = compare_from v.value o.value

unfoldable pub equal : Oid → Option Oid → Bool
unfolding bytes_eq
equal v none = false
equal v (some o) = bytes_eq v.value o.value

-- The loop of `compareOidAdValue`, the order of the MIB tree of the simulator.
compare_items_from : List ℕ → List ℕ → ℤ
compare_items_from [] bs = if length bs == 0 then pos 0 else negsuc 0
compare_items_from (a ∷ as') [] = pos 1
compare_items_from (a ∷ as') (b ∷ bs) =
    let rest = compare_items_from as' bs in
    if a == b then rest else if ltb a b then negsuc 0 else pos 1

unfoldable pub compare_oid_and_value : Oid → Oid → ℤ
unfolding compare_items_from
compare_oid_and_value a b = compare_items_from a.value b.value

unfoldable pub append_sub_ids : Oid → List ℕ → Oid
append_sub_ids v subs = new_oid (v.value ++ subs)

dotted : List ℕ → Bytes
dotted [] = []
dotted (oi ∷ rest) = format_uint (oi % 2 ^ 32) ++ (b'.' ∷ dotted rest)

-- Every sub-identifier is printed with a dot behind it, and the last dot is cut off.
unfoldable pub to_string : Oid → Bytes
unfolding dotted
to_string v = let bs = dotted v.value in if ltb 1 (length bs) then take (length bs - 1) bs else bs

-- The names that may stand for leading sub-identifiers.
oid_name : Bytes → Option (List ℕ)
unfolding one_of
oid_name v =
    if one_of v ("ccitt" ∷ [])
    then some (0 ∷ [])
    else if one_of v ("iso" ∷ [])
    then some (1 ∷ [])
    else if one_of v (
        "joint-iso-ccitt" ∷ "joint-1-ccitt" ∷ "joint_ccitt_iso" ∷ "joint_iso_ccitt"
        ∷ "joint_1_ccitt" ∷ [])
    then some (2 ∷ [])
    else if one_of v ("iso/ccitt" ∷ [])
    then some (3 ∷ [])
    else if one_of v ("SNMPv2-SMI::zeroDotZero" ∷ [])
    then some (0 ∷ 0 ∷ [])
    else if one_of v ("SNMPv2-SMI::internet" ∷ [])
    then some (1 ∷ 3 ∷ 6 ∷ 1 ∷ [])
    else if one_of v ("SNMPv2-SMI::experimental" ∷ [])
    then some (1 ∷ 3 ∷ 6 ∷ 1 ∷ 3 ∷ [])
    else if one_of v ("SNMPv2-SMI::private" ∷ [])
    then some (1 ∷ 3 ∷ 6 ∷ 1 ∷ 4 ∷ [])
    else if one_of v ("SNMPv2-SMI::enterprises" ∷ [])
    then some (1 ∷ 3 ∷ 6 ∷ 1 ∷ 4 ∷ 1 ∷ [])
    else if one_of v ("SNMPv2-SMI::security" ∷ [])
    then some (1 ∷ 3 ∷ 6 ∷ 1 ∷ 5 ∷ [])
    else none

-- What one round of the loop appends; the empty first part is skipped.
sub_ids : ℕ → Bytes → Outcome (List ℕ)
unfolding oid_name
sub_ids idx v =
    if is_empty v
    then (if idx == 0 then ok [] else err generic)
    else elim (parse_uint max_uint32 v) [
      | some num ↦ ok (num ∷ [])
      | none ↦ or_err (oid_name v) argument
    ]

parse_parts : ℕ → List Bytes → List ℕ → Outcome (List ℕ)
unfolding sub_ids
parse_parts idx [] result = ok result
parse_parts idx (v ∷ vs) result = do nums ← sub_ids idx v; parse_parts (suc idx) vs (result ++ nums)

-- With fewer than two parts between dots, the text is split at underscores.
oid_parts : Bytes → List Bytes
oid_parts s =
    let ss = split b'.' (trim b'.' s) in if ltb (length ss) 2 then split b'_' (trim b'_' s) else ss

unfoldable pub parse_ints_from_string : Bytes → Outcome (List ℕ)
unfolding parse_parts oid_parts
parse_ints_from_string s = parse_parts 0 (oid_parts s) []

unfoldable pub parse_oid_from_string : Bytes → Outcome Oid
unfolding new_oid
parse_oid_from_string s = do ints ← parse_ints_from_string s; ok (new_oid ints)

-- Panics where the text is no OID.
unfoldable pub must_parse_oid_from_string : Bytes → Outcome Oid
must_parse_oid_from_string s = elim (parse_oid_from_string s) [ ok o ↦ ok o | _ ↦ panic ]

unfoldable pub concat_oid_string : Oid → Bytes → Outcome Oid
unfolding new_oid
concat_oid_string oid s = elim (parse_ints_from_string s) [
  | ok ints ↦ ok (new_oid (oid.value ++ ints))
  | _ ↦ panic
]

unfoldable pub new_oids : List Bytes → Outcome (List Oid)
new_oids [] = ok []
new_oids (l ∷ ls) = do o ← parse_oid_from_string l; os ← new_oids ls; ok (o ∷ os)

-- The loop of `uniq`, with `before` the last element kept.
unfoldable pub uniq {ℓ} : {A : Type ℓ} → (A → A → Bool) → A → List A → List A
uniq comp before [] = []
uniq comp before (x ∷ xs) =
    let skip = uniq comp before xs in
    let keep = uniq comp x xs in if comp before x then skip else x ∷ keep

abbrev pub empty_oid : Oid
empty_oid = record { value = [] }

same : Oid → Oid → Bool
same a b = equal b (some a)

unfoldable pub uniq_oids : List Oid → List Oid
unfolding same
uniq_oids = uniq same empty_oid

under : Oid → Oid → Bool
under a b = if length a.value == 0 then false else contains b (some a)

unfoldable pub uniq_base : List Oid → List Oid
unfolding under
uniq_base = uniq under empty_oid
