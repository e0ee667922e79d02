-- ===== src/Simulator/Values.antt =====
-- The callback of `LoadMibsIntoEngine` in udp_server.go as the storing of values by name.
use snmpclient.Prelude.{
  ◌≡◌, refl, sym, ap, ◌∙◌, Bool, true, false, Option, none, some, generic, if◌then◌else◌, arith,
}
use snmpclient.Oid.{Oid}
use snmpclient.Variable.{Variable}
use snmpclient.LineReader.Read.{Callback}
use snmpclient.LineReader.Homomorphism.{seen}
use snmpclient.Simulator.{OidAndValue}
use std.Path.{fun_ext}
use snmpclient.Simulator.Walk.{same_place}
use snmpclient.Simulator.Load.{
  Values, same_key, put, drop_key, Trees, after_insert, insert_again, behind_insert, store,
}

abbrev pub no_values : Values
no_values o = none

-- Storing a value by name: a name that is there gets the value if the server updates, and is an
-- error otherwise.
unfoldable pub store_value : Bool → Callback Values
unfolding put
store_value is_update f o v = elim (f o) [
  | none ↦ (put o v f, none)
  | some w ↦ if is_update then (put o v f, none) else (f, some generic)
]

same_key_refl : (o : Oid) → same_key o o ≡ true
unfolding same_key
same_key_refl o = rw (same_place o)

put_again : (f : Values) (o : Oid) (v : Variable) → put o v (drop_key o f) ≡ put o v f
unfolding put drop_key
put_again f o v = fun_ext (λ p. choice (same_key p o) (f p))
  where
    choice :
        (b : Bool) (w : Option Variable)
        → (if b then some v else if b then none else w) ≡ (if b then some v else w)
    choice true w = refl
    choice false w = refl

dropped : (f : Values) (o : Oid) → drop_key o f o ≡ none
unfolding drop_key
dropped f o = rw (same_key_refl o)

store_absent :
    (u : Bool) (f : Values) (o : Oid) (v : Variable)
    → f o ≡ none
    → store_value u f o v ≡ (put o v f, none)
unfolding store_value
store_absent u f o v e = rw (e, store_value) refl

store_present :
    (u : Bool) (f : Values) (o : Oid) (v w : Variable)
    → f o ≡ some w
    → store_value u f o v ≡ (if u then (put o v f, none) else (f, some generic))
unfolding store_value
store_present u f o v w e = rw (e, store_value) refl

module _ (trees : Trees) where
  after_true : (r : trees.Tree × Bool) → r.1 ≡ true → after_insert trees r ≡ (r.0, none)
  unfolding after_insert
  after_true (t, true) h = refl
  after_true (t, false) h = ground arith

  behind_true :
      (u : Bool) (x : OidAndValue) (r : trees.Tree × Bool)
      → r.1 ≡ true
      → behind_insert trees u x r ≡ (r.0, none)
  unfolding behind_insert
  behind_true u x (t, true) h = refl
  behind_true u x (t, false) h = ground arith

  again_true :
      (x : OidAndValue) (r : trees.Tree × Bool)
      → r.1 ≡ true
      → insert_again trees x r ≡ after_insert trees (trees.insert r.0 x)
  unfolding insert_again
  again_true x (t, true) h = refl
  again_true x (t, false) h = ground arith

  -- Storing a name that is there, behind its deletion.
  again :
      (t : trees.Tree) (x : OidAndValue) (w : Variable)
      → trees.lookup t x.oid ≡ some w
      → seen trees.lookup (insert_again trees x (trees.delete_with_key t x.oid))
        ≡ (put x.oid x.value (trees.lookup t), none)
  unfolding seen
  again t x w present =
      let (deleted, left) = trees.delete_present t x.oid w present in
      let u : trees.Tree = (trees.delete_with_key t x.oid).0 in
      let absent : trees.lookup u x.oid ≡ none = left x.oid ∙ dropped (trees.lookup t) x.oid in
      let (inserted, values) = trees.insert_absent u x absent in
      ap (seen trees.lookup) (
        again_true x (trees.delete_with_key t x.oid) deleted
        ∙ after_true (trees.insert u x) inserted)
      ∙ ap (λ f. (f, none))
          (fun_ext values
            ∙ ap (put x.oid x.value) (fun_ext left)
            ∙ put_again (trees.lookup t) x.oid x.value)

  -- The callback of `LoadMibsIntoEngine` stores the value by name.
  pub seen-store :
      (u : Bool) (t : trees.Tree) (o : Oid) (v : Variable)
      → seen trees.lookup (store trees u t o v) ≡ store_value u (trees.lookup t) o v
  unfolding store seen
  seen-store u t o v = by_value (trees.lookup t o) refl
    where
      x : OidAndValue
      x = record { oid = o; value = v }

      there :
          (b : Bool) (w : Variable)
          → trees.lookup t o ≡ some w
          → seen trees.lookup (behind_insert trees b x (t, false))
            ≡ (if b then (put o v (trees.lookup t), none) else (trees.lookup t, some generic))
      there true w e = unfold behind_insert in again t x w e
      there false w e = unfold behind_insert in unfold seen in refl

      by_value :
          (m : Option Variable)
          → trees.lookup t o ≡ m
          → seen trees.lookup (behind_insert trees u x (trees.insert t x))
            ≡ store_value u (trees.lookup t) o v
      by_value none e =
          let (inserted, values) = trees.insert_absent t x e in
          ap (seen trees.lookup) (behind_true u x (trees.insert t x) inserted)
          ∙ ap (λ f. (f, none)) (fun_ext values)
          ∙ sym (store_absent u (trees.lookup t) o v e)
      by_value (some w) e =
          ap (λ r. seen trees.lookup (behind_insert trees u x r)) (trees.insert_present t x w e)
          ∙ there u w e
          ∙ sym (store_present u (trees.lookup t) o v w e)
