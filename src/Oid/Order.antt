-- ===== src/Oid/Order.antt =====
-- The order of object identifiers: `Oid.Compare` of variables.go and `compareOidAdValue` of
-- udp_server.go.
use snmpclient.Prelude.{ℕ, ◌≡◌, ◌↔◌, ◌⊎◌, refl, true, some, List, [], ◌∷◌, arith, ap, bytes_eq_iff}
use snmpclient.Prelude.Int.{ℤ, pos, negsuc, ◌-ℤ◌}
use snmpclient.Oid.{Oid, compare, compare_from, compare_oid_and_value, compare_items_from, equal}

abbrev pub less : ℤ
less = negsuc 0

compare_from_iff : (a b : List ℕ) → (compare_from a b ≡ pos 0) ↔ (a ≡ b)
unfolding compare_from
compare_from_iff [] [] = ground arith
compare_from_iff [] (b ∷ bs) = ground arith
compare_from_iff (a ∷ as') [] = ground arith
compare_from_iff (a ∷ as') (b ∷ bs) = ground (arith, compare_from_iff as' bs)

compare_from_swap : (a b : List ℕ) → compare_from b a ≡ pos 0 -ℤ compare_from a b
unfolding compare_from
compare_from_swap [] [] = refl
compare_from_swap [] (b ∷ bs) = ground arith
compare_from_swap (a ∷ as') [] = ground arith
compare_from_swap (a ∷ as') (b ∷ bs) = ground (arith, compare_from_swap as' bs)

compare_from_trans :
    (a b c : List ℕ) → compare_from a b ≡ less → compare_from b c ≡ less → compare_from a c ≡ less
unfolding compare_from
compare_from_trans a [] [] p q = ground arith
compare_from_trans [] b (c ∷ cs) p q = ground arith
compare_from_trans (a ∷ as') [] (c ∷ cs) p q = ground arith
compare_from_trans [] (b ∷ bs) [] p q = ground arith
compare_from_trans (a ∷ as') (b ∷ bs) [] p q = ground arith
compare_from_trans (a ∷ as') (b ∷ bs) (c ∷ cs) p q = ground (arith, compare_from_trans as' bs cs)

compare_from_total :
    (a b : List ℕ)
    → (compare_from a b ≡ pos 0) ⊎ (compare_from a b ≡ pos 1) ⊎ (compare_from a b ≡ less)
unfolding compare_from
compare_from_total [] [] = ground arith
compare_from_total [] (b ∷ bs) = ground arith
compare_from_total (a ∷ as') [] = ground arith
compare_from_total (a ∷ as') (b ∷ bs) = ground (arith, compare_from_total as' bs)

pub value_eq : (a b : Oid) → (a.value ≡ b.value) ↔ (a ≡ b)
value_eq a b = (λ p i. record { value = p i }, ap (λ (o : Oid). o.value))

-- `Compare` gives 0, 1 or -1, and 0 exactly at equal identifiers; swapping the arguments negates
-- the result.
pub compare_total :
    (a b : Oid)
    → ((compare a (some b) ≡ pos 0) ⊎ (compare a (some b) ≡ pos 1) ⊎ (compare a (some b) ≡ less))
      × ((compare a (some b) ≡ pos 0) ↔ (a ≡ b))
      × (compare b (some a) ≡ pos 0 -ℤ compare a (some b))
unfolding compare
compare_total a b = (
  compare_from_total a.value b.value,
  (
    λ h. (value_eq a b).0 ((compare_from_iff a.value b.value).0 h),
    λ h. (compare_from_iff a.value b.value).1 ((value_eq a b).1 h),
  ),
  compare_from_swap a.value b.value,
)

-- If `Compare` puts one identifier before a second, and the second before a third, then it puts
-- the first before the third.
pub compare_trans :
    (a b c : Oid)
    → compare a (some b) ≡ less
    → compare b (some c) ≡ less
    → compare a (some c) ≡ less
unfolding compare
compare_trans a b c = compare_from_trans a.value b.value c.value

compare_items-eq-compare : (a b : List ℕ) → compare_items_from a b ≡ compare_from a b
unfolding compare_items_from compare_from
compare_items-eq-compare [] bs = refl
compare_items-eq-compare (a ∷ as') [] = refl
compare_items-eq-compare (a ∷ as') (b ∷ bs) = ground (arith, compare_items-eq-compare as' bs)

-- The order of the simulator's MIB tree is the order of `Compare`, and `Equal` holds exactly
-- where both give 0.
pub mib_order :
    (a b : Oid)
    → (compare_oid_and_value a b ≡ compare a (some b))
      × ((equal a (some b) ≡ true) ↔ (compare_oid_and_value a b ≡ pos 0))
unfolding compare compare_oid_and_value equal
mib_order a b = ground (
  arith,
  compare_items-eq-compare a.value b.value,
  compare_from_iff a.value b.value,
  bytes_eq_iff a.value b.value,
)

-- Equality as the code tests it.
pub equal_iff : (a b : Oid) → (equal a (some b) ≡ true) ↔ (a ≡ b)
unfolding equal
equal_iff a b = (
  λ h. (value_eq a b).0 ((bytes_eq_iff a.value b.value).0 h),
  λ h. (bytes_eq_iff a.value b.value).1 ((value_eq a b).1 h),
)
