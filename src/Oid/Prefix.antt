-- ===== src/Oid/Prefix.antt =====
-- `Oid.Contains` of variables.go: the subtree of an identifier.
use snmpclient.Prelude.{
  ℕ, ◌≤◌, ◌≡◌, ◌≢◌, ◌↔◌, refl, true, some, List, [], ◌∷◌, ◌++◌, arith, length, sym, ◌∙◌,
}
use snmpclient.Prelude.Int.{pos}
use snmpclient.Oid.{Oid, compare, compare_from, contains, contains_from, append_sub_ids, new_oid}
use snmpclient.Oid.Order.{value_eq}

contains_from-length : (v o : List ℕ) → contains_from v o ≡ true → length o ≤ length v
unfolding contains_from
contains_from-length v [] h = omega arith
contains_from-length [] (o ∷ os) h = ground arith
contains_from-length (v ∷ vs) (o ∷ os) h = ground (arith, contains_from-length vs os)

-- The length test of `Contains` refuses nothing that its loop would accept.
contains-contains_from : (v o : Oid) → contains v (some o) ≡ contains_from v.value o.value
unfolding contains
contains-contains_from v o = ground (arith, contains_from-length v.value o.value)

contains_from-append : (o s : List ℕ) → contains_from (o ++ s) o ≡ true
unfolding contains_from
contains_from-append [] s = refl
contains_from-append (x ∷ o) s = ground (arith, contains_from-append o s)

suffix_from : (v o : List ℕ) → contains_from v o ≡ true → (s : List ℕ) × (v ≡ o ++ s)
unfolding contains_from
suffix_from v [] h = (v, refl)
suffix_from [] (o ∷ os) h = ground arith
suffix_from (v ∷ vs) (o ∷ os) h = let (s, e) = suffix_from vs os (ground arith) in (s, ground arith)

-- `Contains` accepts exactly the identifiers that continue the given one.
pub contains_iff :
    (v o : Oid) → (contains v (some o) ≡ true) ↔ ((s : List ℕ) × (v ≡ append_sub_ids o s))
unfolding append_sub_ids new_oid
contains_iff v o = (
  λ h.
      let (s, e) = suffix_from v.value o.value (sym (contains-contains_from v o) ∙ h) in
      (s, (value_eq v (append_sub_ids o s)).0 e),
  λ (s, e). rw e (contains-contains_from (append_sub_ids o s) o ∙ contains_from-append o.value s),
)

-- an identifier between two of one subtree is in the subtree
between_from :
    (o a b c : List ℕ)
    → contains_from a o ≡ true
    → contains_from c o ≡ true
    → compare_from a b ≢ pos 1
    → compare_from b c ≢ pos 1
    → contains_from b o ≡ true
unfolding compare_from contains_from
between_from [] a b c ha hc p q = refl
between_from (o ∷ os) (a ∷ as') (b ∷ bs) (c ∷ cs) ha hc p q =
    ground (arith, between_from os as' bs cs)
between_from (o ∷ os) [] b c ha hc p q = ground arith
between_from (o ∷ os) (a ∷ as') b [] ha hc p q = ground arith
between_from (o ∷ os) (a ∷ as') [] (c ∷ cs) ha hc p q = ground arith

root_first : (o b : List ℕ) → contains_from b o ≡ true → compare_from o b ≢ pos 1
unfolding compare_from contains_from
root_first [] b h = ground arith
root_first (o ∷ os) [] h = ground arith
root_first (o ∷ os) (b ∷ bs) h = ground (arith, root_first os bs)

-- A subtree is an interval of the order, with its root as the first identifier.
pub contains_interval :
    (o a b c : Oid)
    → contains a (some o) ≡ true
    → contains c (some o) ≡ true
    → compare a (some b) ≢ pos 1
    → compare b (some c) ≢ pos 1
    → (contains b (some o) ≡ true) × (compare o (some b) ≢ pos 1)
unfolding contains compare
contains_interval o a b c ha hc p q =
    let hb =
      between_from o.value a.value b.value c.value (sym (contains-contains_from a o) ∙ ha)
        (sym (contains-contains_from c o) ∙ hc) p q in
    (contains-contains_from b o ∙ hb, root_first o.value b.value hb)

contains_from_refl : (v : List ℕ) → contains_from v v ≡ true
unfolding contains_from
contains_from_refl [] = refl
contains_from_refl (x ∷ v) = ground (arith, contains_from_refl v)

pub contains_refl : (v : Oid) → contains v (some v) ≡ true
contains_refl v = contains-contains_from v v ∙ contains_from_refl v.value
