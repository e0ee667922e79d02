-- ===== src/Prelude/Preds.antt =====
-- Predicates on lists by recursion.
use Prim.Native.Nat.{ℕ}
use mathlib.Core.Logic.{◌≢◌, ◌⊎◌}
use mathlib.Core.List.{List, [], ◌∷◌, ◌++◌}
use snmpclient.Prelude.Lists.{Bytes}

module _ {ℓ κ} {A : Type ℓ} (P : A → Type κ) where
  abbrev pub All : List A → Type κ
  All [] = Unit
  All (x ∷ xs) = P x × All xs

  pub All-append : (xs ys : List A) → All xs → All ys → All (xs ++ ys)
  All-append [] ys _ hy = hy
  All-append (x ∷ xs) ys (px, hx) hy = (px, All-append xs ys hx hy)

abbrev pub Any {ℓ} : {A : Type ℓ} → (A → Type 0) → List A → Type 0
Any P [] = ⊥
Any P (x ∷ xs) = P x ⊎ Any P xs

-- The relation holds between every element and each later one.
abbrev pub Pairs {ℓ} : {A : Type ℓ} → (A → A → Type 0) → List A → Type 0
Pairs R [] = Unit
Pairs R (x ∷ xs) = All (R x) xs × Pairs R xs

pub All-map {ℓ} :
    {A : Type ℓ} {P Q : A → Type 0} → ((a : A) → P a → Q a) → (xs : List A) → All P xs → All Q xs
All-map f [] h = tt
All-map f (x ∷ xs) (h, hs) = (f x h, All-map f xs hs)

pub Pairs-map {ℓ} :
    {A : Type ℓ} {R S : A → A → Type 0}
    → ((a b : A) → R a b → S a b)
    → (xs : List A) → Pairs R xs
    → Pairs S xs
Pairs-map f [] h = tt
Pairs-map f (x ∷ xs) (h, hs) = (All-map (f x) xs h, Pairs-map f xs hs)

-- No byte of the text is `b`.
abbrev pub Lacks : ℕ → Bytes → Type 0
Lacks b = All (λ c. c ≢ b)
