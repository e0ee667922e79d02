-- ===== src/Oid/Lists.antt =====
-- `Uniq` and `UniqBase` of variables.go, and `Uniq` of variable bindings of pdu.go: the loop `uniq`.
use snmpclient.Prelude.{
  ℕ, ◌≡◌, ◌≢◌, ◌⊎◌, inl, inr, refl, sym, ap, ◌∙◌, Bool, true, false, some, List, [], ◌∷◌, arith,
  All, Any, Pairs, All-map, length, Bool-cases, if◌then◌else◌, ◌==◌, Pairs-map, ◌↔◌,
}
use mathlib.Core.Path.{subst}
use snmpclient.Prelude.Int.{pos, ◌-ℤ◌}
use snmpclient.Oid.{Oid, compare, contains, uniq, uniq_oids, uniq_base, under, empty_oid, same}
use snmpclient.Oid.Order.{equal_iff, compare_total, less}
use snmpclient.Oid.Prefix.{contains_interval, contains_refl}

module _ {ℓ} {A : Type ℓ} (comp : A → A → Bool) where
  pub uniq-All :
      (P : A → Type 0) (before : A) (xs : List A) → All P xs → All P (uniq comp before xs)
  unfolding uniq
  uniq-All P before [] h = tt
  uniq-All P before (x ∷ xs) (h, hs) = elim (Bool-cases (comp before x)) [
    | inl e ↦ rw e (uniq-All P before xs hs)
    | inr e ↦ rw e (h, uniq-All P x xs hs)
  ]

  uniq_skip :
      (before x : A) (xs : List A)
      → comp before x ≡ true
      → uniq comp before (x ∷ xs) ≡ uniq comp before xs
  unfolding uniq
  uniq_skip before x xs e = rw e

  uniq_keep :
      (before x : A) (xs : List A)
      → comp before x ≡ false
      → uniq comp before (x ∷ xs) ≡ x ∷ uniq comp x xs
  unfolding uniq
  uniq_keep before x xs e = rw e

  -- what each element of the input is dropped for
  pub uniq_covers :
      (R : A → A → Type 0)
      → ((a : A) → R a a)
      → ((a b : A) → comp a b ≡ true → R a b)
      → (before : A) (xs : List A)
      → All (λ x. (comp before x ≡ true) ⊎ Any (λ k. R k x) (uniq comp before xs)) xs
  uniq_covers R self cov before [] = tt
  uniq_covers R self cov before (x ∷ xs) = elim (Bool-cases (comp before x)) [
    | inl e ↦
        subst (λ l. All (λ y. (comp before y ≡ true) ⊎ Any (λ k. R k y) l) (x ∷ xs))
          (sym (uniq_skip before x xs e)) (inl e, uniq_covers R self cov before xs)
    | inr e ↦
        subst (λ l. All (λ y. (comp before y ≡ true) ⊎ Any (λ k. R k y) l) (x ∷ xs))
          (sym (uniq_keep before x xs e))
          (
            inr (inl (self x)),
            All-map (λ y d. elim d [ inl c ↦ inr (inl (cov x y c)) | inr k ↦ inr (inr k) ]) xs
                (uniq_covers R self cov x xs),
          )
  ]

  module _ (le : A → A → Type 0)
      (later : (a b c : A) → le a b → le b c → comp a b ≡ false → comp a c ≡ false) where
    apart_from_kept :
        (x : A) (xs : List A) → Pairs le (x ∷ xs) → All (λ b. comp x b ≡ false) (uniq comp x xs)
    unfolding uniq
    apart_from_kept x [] h = tt
    apart_from_kept x (y ∷ ys) ((xy, xys), (yys, p)) = elim (Bool-cases (comp x y)) [
      | inl e ↦ rw e (apart_from_kept x ys (xys, p))
      | inr e ↦
          rw e (
            e,
            uniq-All (λ b. comp x b ≡ false) y ys (All-map (λ b yb. later x y b xy yb e) ys yys),
          )
    ]

    -- on sorted input no kept element drops a later kept one
    pub uniq_apart :
        (before : A) (xs : List A)
        → Pairs le xs
        → Pairs (λ a b. comp a b ≡ false) (uniq comp before xs)
    unfolding uniq
    uniq_apart before [] h = tt
    uniq_apart before (x ∷ xs) h = elim (Bool-cases (comp before x)) [
      | inl e ↦ rw e (uniq_apart before xs h.1)
      | inr e ↦ rw e (apart_from_kept x xs h, uniq_apart x xs h.1)
    ]

-- `a` is not behind `b` in the order of `Compare`.
abbrev pub NotAfter : Oid → Oid → Type 0
NotAfter a b = compare a (some b) ≢ pos 1

abbrev pub IsSorted : List Oid → Type 0
IsSorted = Pairs NotAfter

under-contains : (a b : Oid) → under a b ≡ true → contains b (some a) ≡ true
unfolding under
under-contains a b h = ground arith

not-under : (a b : Oid) → contains b (some a) ≡ false → under a b ≡ false
unfolding under
not-under a b h = ground arith

nothing_under_empty : (o : Oid) → ¬ (under empty_oid o ≡ true)
unfolding under
nothing_under_empty o h = ground arith

contains_unless_empty :
    (a b : Oid) → under a b ≡ false → (a.value ≡ []) ⊎ (contains b (some a) ≡ false)
unfolding under
contains_unless_empty a b h = under_split a.value (contains b (some a)) h
  where
    under_split :
        (l : List ℕ) (c : Bool)
        → (if length l == 0 then false else c) ≡ false
        → (l ≡ []) ⊎ (c ≡ false)
    under_split [] c e = inl refl
    under_split (x ∷ l) c e = inr (ground arith)

under_conflict :
    (a b c : Oid) → under a c ≡ true → contains b (some a) ≡ true → ¬ (under a b ≡ false)
unfolding under
under_conflict a b c u h e = ground arith

-- a subtree is an interval, so one identifier outside it ends it
later_apart : (a b c : Oid) → NotAfter a b → NotAfter b c → under a b ≡ false → under a c ≡ false
later_apart a b c ab bc e = elim (Bool-cases (under a c)) [
  | inr done ↦ done
  | inl u ↦
      let held = (contains_interval a a b c (contains_refl a) (under-contains a c u) ab bc).0 in
      absurd (under_conflict a b c u held e)
]

-- Whatever the order of the list, `UniqBase` keeps an identifier whose subtree holds each
-- identifier of the list.
pub uniq_base_covers :
    (os : List Oid) → All (λ o. Any (λ k. contains o (some k) ≡ true) (uniq_base os)) os
unfolding uniq_base
uniq_base_covers os =
    All-map (λ o d. elim d [ inl e ↦ absurd (nothing_under_empty o e) | inr k ↦ k ]) os
      (uniq_covers under (λ k o. contains o (some k) ≡ true) contains_refl under-contains empty_oid
        os)

-- On a sorted list `UniqBase` keeps no identifier in the subtree of another one that it keeps
-- before it, but for the empty identifier, whose subtree is not pruned.
pub uniq_base_apart :
    (os : List Oid)
    → IsSorted os
    → Pairs (λ a b. (a.value ≡ []) ⊎ (contains b (some a) ≡ false)) (uniq_base os)
unfolding uniq_base
uniq_base_apart os h =
    Pairs-map contains_unless_empty (uniq under empty_oid os)
      (uniq_apart under NotAfter later_apart empty_oid os h)

same_iff : (a b : Oid) → (same a b ≡ true) ↔ (a ≡ b)
unfolding same
same_iff a b = (λ h. sym ((equal_iff b a).0 h), λ e. (equal_iff b a).1 (sym e))

squeeze : (a b : Oid) → NotAfter a b → NotAfter b a → a ≡ b
squeeze a b ab ba =
    let (total, zero_iff, swap) = compare_total a b in zero_iff.0 (between total swap)
  where
    between :
        ((compare a (some b) ≡ pos 0) ⊎ (compare a (some b) ≡ pos 1) ⊎ (compare a (some b) ≡ less))
        → compare b (some a) ≡ pos 0 -ℤ compare a (some b)
        → compare a (some b) ≡ pos 0
    between (inl z) swap = z
    between (inr (inl o)) swap = absurd (ab o)
    between (inr (inr l)) swap = absurd (ba (swap ∙ ap (λ z. pos 0 -ℤ z) l))

later_differs : (a b c : Oid) → NotAfter a b → NotAfter b c → same a b ≡ false → same a c ≡ false
later_differs a b c ab bc e = elim (Bool-cases (same a c)) [
  | inr done ↦ done
  | inl u ↦
      let ac : a ≡ c = (same_iff a c).0 u in
      absurd (clash (same a b) e ((same_iff a b).1 (squeeze a b ab (rw ac bc))))
]
  where
    clash : (t : Bool) → t ≡ false → ¬ (t ≡ true)
    clash t p q = ground arith

-- On a sorted list `Uniq` keeps each identifier exactly once, but for the empty one: no kept
-- identifier equals a later kept one, and each non-empty identifier of the list is kept.
pub uniq_oids_once :
    (os : List Oid)
    → IsSorted os
    → Pairs ◌≢◌ (uniq_oids os) × All (λ o. (o ≡ empty_oid) ⊎ Any (λ k. k ≡ o) (uniq_oids os)) os
unfolding uniq_oids
uniq_oids_once os h = (
  Pairs-map (λ a b e q. differs (same a b) e ((same_iff a b).1 q)) (uniq same empty_oid os)
      (uniq_apart same NotAfter later_differs empty_oid os h),
  All-map (λ o d. elim d [ inl e ↦ inl (sym ((same_iff empty_oid o).0 e)) | inr k ↦ inr k ]) os
      (uniq_covers same (λ k o. k ≡ o) (λ o. refl) (λ a b e. (same_iff a b).0 e) empty_oid os),
)
  where
    differs : (t : Bool) → t ≡ false → ¬ (t ≡ true)
    differs t p q = ground arith
