-- ===== src/Simulator/LoadTests.antt =====
-- Loading two lines for one name into a concrete tree, which is a function on names.
use snmpclient.Prelude.{
  ◌≡◌, refl, Bool, true, false, Option, none, some, List, [], ◌∷◌, Bytes, codes, Error, generic,
  Outcome, ok,
}
use snmpclient.Prelude.Int.{pos}
use snmpclient.Golang.Strconv.{parse_int, parse_uint}
use snmpclient.Oid.{Oid, parse_ints_from_string, compare_oid_and_value}
use snmpclient.Golang.Strings.{split}
use snmpclient.LineReader.Read.{read}
use snmpclient.Variable.{Variable, integer}
use snmpclient.Variable.Text.{IpText}
use snmpclient.Golang.Text.{contains_text}
use snmpclient.Simulator.{OidAndValue}
use snmpclient.Simulator.Load.{Values, put, drop_key, Trees, Stores, load_mibs, store}
use snmpclient.Simulator.Stored.{seen_stores, mapped-load_mibs}
use snmpclient.Simulator.Values.{no_values, store_value}
use snmpclient.LineReader.Homomorphism.{mapped, seen}

insert_value : Values → OidAndValue → Values × Bool
insert_value f x = elim (f x.oid) [ none ↦ (put x.oid x.value f, true) | some v ↦ (f, false) ]

insert_there :
    (t : Values) (x : OidAndValue) (v : Variable) → t x.oid ≡ some v → insert_value t x ≡ (t, false)
unfolding insert_value
insert_there t x v e = rw (e, insert_value) refl

insert_new :
    (t : Values) (x : OidAndValue)
    → t x.oid ≡ none
    → ((insert_value t x).1 ≡ true) × ((o : Oid) → (insert_value t x).0 o ≡ put x.oid x.value t o)
unfolding insert_value
insert_new t x e = (rw (e, insert_value) refl, λ o. rw (e, insert_value) refl)

abbrev values : Trees
values = record {
  Tree = Values;
  new_tree = no_values;
  lookup = λ t. t;
  insert = insert_value;
  delete_with_key = λ t o. (drop_key o t, true);
  new_tree_lem = λ o. refl;
  insert_present = insert_there;
  insert_absent = insert_new;
  delete_present = λ t o v e. (refl, λ p. refl);
}

abbrev nothing : Stores Values
nothing = record { default_mibs = no_values; by_engine = λ k. none }

abbrev ip : IpText
ip = record { parse_ip = λ s. some (some s); print_ip = λ b. b; parse-print = λ b _ _. refl }

starts : Bytes → Bool
unfolding contains_text
starts s = contains_text s (codes " = ")

abbrev system : Oid
system = record { value = 1 ∷ 3 ∷ 6 ∷ [] }

abbrev twice : List Bytes
twice = codes "iso.3.6 = INTEGER: 5" ∷ codes "iso.3.6 = INTEGER: 6" ∷ []

-- The value of the name in the default tree, and the error.
stored_in : Outcome (Stores Values × Option Error) → Option (Option Variable × Option Error)
stored_in (ok (m, e)) = some (m.default_mibs system, e)
stored_in _ = none

replaced :
    stored_in (load_mibs no_values (store values true) ip starts [] [] false none twice nothing)
    ≡ some (some (integer (pos 6)), none)
unfolding stored_in load_mibs read parse_ints_from_string split parse_uint parse_int store
    insert_value put compare_oid_and_value drop_key
replaced = refl

refused :
    stored_in (load_mibs no_values (store values false) ip starts [] [] false none twice nothing)
    ≡ some (some (integer (pos 5)), some generic)
unfolding stored_in load_mibs read parse_ints_from_string split parse_uint parse_int store
    insert_value put compare_oid_and_value
refused = refl

mapped-load_mibs_example :
    mapped
      (seen (seen_stores (λ (t : Values). t)))
      (load_mibs no_values (store values true) ip starts [] [] false none twice nothing)
    ≡ load_mibs no_values
        (store_value true)
        ip
        starts
        []
        []
        false
        none
        twice
        (seen_stores (λ (t : Values). t) nothing)
mapped-load_mibs_example = mapped-load_mibs values true ip starts [] [] false none twice nothing
