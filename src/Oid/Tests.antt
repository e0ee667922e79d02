-- ===== src/Oid/Tests.antt =====
-- Runs of the identifier operations, and the theorems at concrete identifiers.
use snmpclient.Prelude.{
  ℕ, ◌≡◌, ◌≢◌, ◌↔◌, ◌⊎◌, refl, true, false, some, List, [], ◌∷◌, arith, codes, All, Any, Pairs, ok,
  err, argument, generic,
}
use snmpclient.Prelude.Int.{pos, ◌-ℤ◌}
use snmpclient.Oid.{
  Oid, compare, compare_oid_and_value, contains, equal, append_sub_ids, to_string,
  parse_oid_from_string, uniq_oids, uniq_base, uniq, empty_oid, parse_ints_from_string,
}
use snmpclient.Oid.Order.{less, compare_total, compare_trans, mib_order}
use snmpclient.Oid.Prefix.{contains_iff, contains_interval}
use snmpclient.Oid.Text.{parse_oid-to_string}
use snmpclient.Oid.Lists.{IsSorted, uniq_base_covers, uniq_base_apart, uniq_oids_once}
use snmpclient.Golang.Strings.{split, trim}
use snmpclient.Golang.Strconv.{parse_uint}

abbrev system : Oid
system = record { value = 1 ∷ 3 ∷ 6 ∷ [] }

abbrev descr : Oid
descr = record { value = 1 ∷ 3 ∷ 6 ∷ 1 ∷ 0 ∷ [] }

abbrev up_time : Oid
up_time = record { value = 1 ∷ 3 ∷ 6 ∷ 3 ∷ 0 ∷ [] }

abbrev names : Oid
names = record { value = 1 ∷ 3 ∷ 6 ∷ 5 ∷ [] }

abbrev walk : List Oid
walk = system ∷ descr ∷ up_time ∷ []

walk-IsSorted : IsSorted walk
unfolding compare
walk-IsSorted = ground arith

parse_names :
    parse_oid_from_string (codes ".iso.3.SNMPv2-SMI::security.7")
    ≡ ok (record { value = 1 ∷ 3 ∷ 1 ∷ 3 ∷ 6 ∷ 1 ∷ 5 ∷ 7 ∷ [] })
unfolding parse_oid_from_string parse_ints_from_string split trim parse_uint
parse_names = refl

parse_underscores : parse_oid_from_string (codes "1_3_6") ≡ ok system
unfolding parse_oid_from_string parse_ints_from_string split trim parse_uint
parse_underscores = refl

parse_faults :
    (parse_oid_from_string (codes "1..3") ≡ err generic)
    × (parse_oid_from_string (codes "1.4294967296") ≡ err argument)
unfolding parse_oid_from_string parse_ints_from_string split trim parse_uint
parse_faults = (refl, refl)

compare_total_example :
    ((compare system (some descr) ≡ pos 0)
      ⊎ (compare system (some descr) ≡ pos 1)
      ⊎ (compare system (some descr) ≡ less))
    × ((compare system (some descr) ≡ pos 0) ↔ (system ≡ descr))
    × (compare descr (some system) ≡ pos 0 -ℤ compare system (some descr))
compare_total_example = compare_total system descr

descending : (compare system (some descr) ≡ less) × (compare descr (some up_time) ≡ less)
unfolding compare
descending = ground arith

compare_trans_example : compare system (some up_time) ≡ less
compare_trans_example = compare_trans system descr up_time descending.0 descending.1

mib_order_example :
    (compare_oid_and_value descr up_time ≡ compare descr (some up_time))
    × ((equal descr (some up_time) ≡ true) ↔ (compare_oid_and_value descr up_time ≡ pos 0))
mib_order_example = mib_order descr up_time

contains_iff_example :
    (contains descr (some system) ≡ true) ↔ ((s : List ℕ) × (descr ≡ append_sub_ids system s))
contains_iff_example = contains_iff descr system

system-contains : (contains descr (some system) ≡ true) × (contains names (some system) ≡ true)
unfolding contains
system-contains = (refl, refl)

in_order : (compare descr (some up_time) ≢ pos 1) × (compare up_time (some names) ≢ pos 1)
unfolding compare
in_order = ground arith

contains_interval_example :
    (contains up_time (some system) ≡ true) × (compare system (some up_time) ≢ pos 1)
contains_interval_example =
    contains_interval system descr up_time names system-contains.0 system-contains.1 in_order.0
      in_order.1

parse_oid-to_string_example : parse_oid_from_string (to_string descr) ≡ ok descr
parse_oid-to_string_example = parse_oid-to_string descr (omega arith)

uniq_base_covers_example : All (λ o. Any (λ k. contains o (some k) ≡ true) (uniq_base walk)) walk
uniq_base_covers_example = uniq_base_covers walk

uniq_base_apart_example :
    Pairs (λ a b. (a.value ≡ []) ⊎ (contains b (some a) ≡ false)) (uniq_base walk)
uniq_base_apart_example = uniq_base_apart walk walk-IsSorted

uniq_base_runs : uniq_base walk ≡ system ∷ []
unfolding uniq_base uniq contains
uniq_base_runs = refl

uniq_oids_once_example :
    Pairs ◌≢◌ (uniq_oids walk) × All (λ o. (o ≡ empty_oid) ⊎ Any (λ k. k ≡ o) (uniq_oids walk)) walk
uniq_oids_once_example = uniq_oids_once walk walk-IsSorted

-- A first identifier that is empty equals the initial `before`, and is dropped.
uniq_drops_empty : uniq_oids (empty_oid ∷ system ∷ []) ≡ system ∷ []
unfolding uniq_oids uniq equal
uniq_drops_empty = refl
