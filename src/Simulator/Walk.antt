-- ===== src/Simulator/Walk.antt =====
-- What a walk over the simulator of udp_server.go visits.
use snmpclient.Prelude.{
  ℕ, zero, suc, ◌≤◌, ◌≡◌, refl, ap, sym, ◌∙◌, true, false, List, [], ◌∷◌, ◌++◌, append_assoc, arith,
  All, Pairs, length,
}
use snmpclient.Prelude.Int.{pos}
use snmpclient.Oid.{Oid, compare_oid_and_value}
use snmpclient.Oid.Order.{compare_total, mib_order}
use snmpclient.Simulator.{
  OidAndValue, before, from, MibTree, first, past, get_next_value_by_oid, follow, walk,
}

-- The items of a tree are in order, without an item twice.
abbrev pub InOrder : List OidAndValue → Type 0
InOrder = Pairs (λ x y. before x.oid y.oid ≡ true)

pub same_place : (o : Oid) → compare_oid_and_value o o ≡ pos 0
same_place o = (mib_order o o).0 ∙ (compare_total o o).1.1 refl

not_before : (o : Oid) → before o o ≡ false
unfolding before
not_before o = rw (same_place o)

-- The items in front of one are before it.
in_front :
    (pre : List OidAndValue) (x : OidAndValue) (rest : List OidAndValue)
    → InOrder (pre ++ x ∷ rest)
    → All (λ y. before y.oid x.oid ≡ true) pre
in_front [] x rest h = tt
in_front (y ∷ pre) x rest (hy, h) = (here pre hy, in_front pre x rest h)
  where
    here :
        (pre : List OidAndValue)
        → All (λ z. before y.oid z.oid ≡ true) (pre ++ x ∷ rest)
        → before y.oid x.oid ≡ true
    here [] h = h.0
    here (z ∷ pre) h = here pre h.1

from_item :
    (pre : List OidAndValue) (x : OidAndValue) (rest : List OidAndValue)
    → All (λ y. before y.oid x.oid ≡ true) pre
    → from x.oid (pre ++ x ∷ rest) ≡ x ∷ rest
unfolding from
from_item [] x rest h = rw (not_before x.oid)
from_item (y ∷ pre) x rest (hy, h) = rw hy (from_item pre x rest h)

past_item : (x : OidAndValue) (rest : List OidAndValue) → past x.oid (x ∷ rest) ≡ first rest
unfolding past
past_item x rest = rw (same_place x.oid)

module _ (mibs : MibTree) where
  -- The item behind an item of a tree in order is the next one of the tree.
  next_item :
      (pre : List OidAndValue) (x : OidAndValue) (rest : List OidAndValue)
      → mibs.items ≡ pre ++ x ∷ rest
      → InOrder mibs.items
      → get_next_value_by_oid mibs x.oid ≡ first rest
  unfolding get_next_value_by_oid
  next_item pre x rest e order =
      ap (λ l. past x.oid l)
        (mibs.find_ge_lem x.oid
          ∙ ap (λ l. from x.oid l) e
          ∙ from_item pre x rest (in_front pre x rest (rw e at order)))
      ∙ past_item x rest

  -- A walk that starts at an item of a tree in order visits the items behind it, each once and in
  -- their order, and then ends, if it may ask at least as often as there are items behind it.
  pub walk_lem :
      (n : ℕ) (pre : List OidAndValue) (x : OidAndValue) (rest : List OidAndValue)
      → mibs.items ≡ pre ++ x ∷ rest
      → InOrder mibs.items
      → length rest ≤ n
      → walk mibs n x.oid ≡ rest
  unfolding walk follow first
  walk_lem zero pre x [] e order fits = refl
  walk_lem zero pre x (y ∷ rest) e order fits = absurd (omega arith)
  walk_lem (suc n) pre x [] e order fits =
      ap (λ m. follow (λ p. walk mibs n p) m) (next_item pre x [] e order)
  walk_lem (suc n) pre x (y ∷ rest) e order fits =
      ap (λ m. follow (λ p. walk mibs n p) m) (next_item pre x (y ∷ rest) e order)
      ∙ ap (λ l. y ∷ l)
          (walk_lem n (pre ++ x ∷ []) y rest (e ∙ sym (append_assoc pre (x ∷ []) (y ∷ rest))) order
            (omega arith))
