-- ===== src/Usm/Crypto/Keys.antt =====
-- What `PasswordToKey` writes to its hash, and what a digest covers (security.go).
use Prim.Native.Nat.mul
use native.Mathlib.Nat.{mod-lt, mod-eq_of_lt, mod-eq-sub-mod, div-add-mod}
use snmpclient.Prelude.{
  Bool-cases, inl, inr, ltb→lt, append_assoc, ℕ, zero, suc, ◌+◌, ◌-◌, ◌*◌, ◌/◌, ◌%◌, ◌≤◌, ◌<◌, ◌≡◌,
  refl, sym, ap, ◌∙◌, List, [], ◌∷◌, ◌++◌, Bytes, ok, length, length-append, length-take, take,
  get_elem?, ltb, arith,
}
use snmpclient.Usm.Crypto.{repeats, key_material, mega}

module _ {ℓ} {A : Type ℓ} where
  get_elem?-append :
      (xs ys : List A) (i : ℕ)
      → length xs ≤ i
      → get_elem? (xs ++ ys) i ≡ get_elem? ys (i - length xs)
  get_elem?-append [] ys i h = ap (λ j. get_elem? ys j) (omega arith)
  get_elem?-append (x ∷ xs) ys zero h = absurd (omega arith)
  get_elem?-append (x ∷ xs) ys (suc i) h =
      get_elem?-append xs ys i (omega arith) ∙ ap (λ j. get_elem? ys j) (omega arith)

  get_elem?-append_front :
      (xs ys : List A) (i : ℕ) → i < length xs → get_elem? (xs ++ ys) i ≡ get_elem? xs i
  get_elem?-append_front [] ys i h = absurd (omega arith)
  get_elem?-append_front (x ∷ xs) ys zero h = refl
  get_elem?-append_front (x ∷ xs) ys (suc i) h = get_elem?-append_front xs ys i (omega arith)

  get_elem?-take : (n : ℕ) (xs : List A) (i : ℕ) → i < n → get_elem? (take n xs) i ≡ get_elem? xs i
  get_elem?-take zero xs i h = absurd (omega arith)
  get_elem?-take (suc n) [] i h = refl
  get_elem?-take (suc n) (x ∷ xs) zero h = refl
  get_elem?-take (suc n) (x ∷ xs) (suc i) h = get_elem?-take n xs i (omega arith)

length-repeats : (n : ℕ) (pass : Bytes) → length (repeats n pass) ≡ n * length pass
unfolding repeats
length-repeats zero pass = omega arith
length-repeats (suc n) pass =
    length-append pass (repeats n pass)
    ∙ ap (λ m. length pass + m) (length-repeats n pass)
    ∙ sym (mul.suc n (length pass))

-- Behind `n` whole passwords and a part of one, each byte is that of the password at its place.
cyclic :
    (n part : ℕ) (pass : Bytes) (i : ℕ)
    → 0 < length pass
    → i < n * length pass + part
    → part ≤ length pass
    → get_elem? (repeats n pass ++ take part pass) i ≡ get_elem? pass (i % length pass)
unfolding repeats
cyclic zero part pass i some_pass h le =
    let below : i < part = omega (arith, mul.zero (length pass), h) in
    get_elem?-take part pass i below
    ∙ ap (λ j. get_elem? pass j) (sym (mod-eq_of_lt {n = i} {m = length pass} (omega arith)))
cyclic (suc n) part pass i some_pass h le = elim (Bool-cases (ltb i (length pass))) [
  | inl e ↦
      let below = ltb→lt i (length pass) e in
      ap (λ (l : Bytes). get_elem? l i) (append_assoc pass (repeats n pass) (take part pass))
      ∙ get_elem?-append_front pass (repeats n pass ++ take part pass) i below
      ∙ ap (λ j. get_elem? pass j) (sym (mod-eq_of_lt {n = i} {m = length pass} below))
  | inr e ↦
      let above : length pass ≤ i = ground arith in
      let fits : i - length pass < n * length pass + part =
        omega (arith, mul.suc n (length pass), h, above, some_pass) in
      ap (λ (l : Bytes). get_elem? l i) (append_assoc pass (repeats n pass) (take part pass))
      ∙ get_elem?-append pass (repeats n pass ++ take part pass) i above
      ∙ cyclic n part pass (i - length pass) some_pass fits le
      ∙ ap (λ j. get_elem? pass j) (sym (mod-eq-sub-mod {n = i} {m = length pass} above))
]

-- The bytes that `PasswordToKey` writes to the hash, for a password that is not empty, are the
-- first 1048576 of the password repeated without end.
pub key_material_lem :
    (x : ℕ) (s : Bytes)
    → (m : Bytes) × (key_material (x ∷ s) ≡ ok m)
      × (length m ≡ mega)
      × ((i : ℕ) → i < mega → get_elem? m i ≡ get_elem? (x ∷ s) (i % length (x ∷ s)))
unfolding key_material
key_material_lem x s =
    let p : Bytes = x ∷ s in
    let some_pass : 0 < length p = omega arith in
    let part = mod-lt mega some_pass in
    let whole = div-add-mod mega (length p) in
    (
      repeats (mega / length p) p ++ take (mega % length p) p,
      refl,
      omega (
        arith,
        length-append (repeats (mega / length p) p) (take (mega % length p) p),
        length-repeats (mega / length p) p,
        length-take (mega % length p) p,
        whole,
        part,
      ),
      λ i lt.
          cyclic (mega / length p) (mega % length p) p i some_pass (omega (arith, whole, lt))
            (omega (arith, part)),
    )
