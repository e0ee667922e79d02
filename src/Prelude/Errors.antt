-- ===== src/Prelude/Errors.antt =====
-- What a Go call returns: a value, an error value, or a panic; and that a loop of a model has run
-- out of fuel.
use mathlib.Core.Path.{◌≡◌, refl}
use mathlib.Core.Logic.{◌≢◌}
use mathlib.Core.Bool.{Bool}
use mathlib.Core.Option.{Option, none, some}
use native.Mathlib.Omega.{arith}

-- The dynamic types of the errors that the code tells apart; their texts are left out.
-- `generic` is `errors.New` and `fmt.Errorf`.
pub data Error : Type 0 where
  generic argument response asn1 unsupported_operation time_out empty_line more_line : Error
  not_in_time_window : Error
  net : Bool → Error  -- a `net.Error`, with its `Timeout()`

-- `no_fuel` is no result of the code: a property that needs it excludes it.
pub data Outcome {ℓ} (X : Type ℓ) : Type ℓ where
  panic no_fuel : Outcome X
  err : Error → Outcome X
  ok : X → Outcome X

-- An error that the code makes of a missing value.
abbrev pub or_err {ℓ} : {X : Type ℓ} → Option X → Error → Outcome X
or_err none missing = err missing
or_err (some x) missing = ok x

module _ {ℓ κ} {X : Type ℓ} {Y : Type κ} where
  infixl 5 ◌>>=◌
  -- The rest of a function body, behind `if err != nil { return }`.
  abbrev pub ◌>>=◌ : Outcome X → (X → Outcome Y) → Outcome Y
  panic >>= next = panic
  no_fuel >>= next = no_fuel
  err why >>= next = err why
  ok x >>= next = next x

  -- A body that succeeds has a first call that succeeds.
  pub >>=-eq-ok :
      (call : Outcome X) (next : X → Outcome Y) {y : Y}
      → call >>= next ≡ ok y
      → (x : X) × (call ≡ ok x) × (next x ≡ ok y)
  >>=-eq-ok panic next done = ground arith
  >>=-eq-ok no_fuel next done = ground arith
  >>=-eq-ok (err why) next done = ground arith
  >>=-eq-ok (ok x) next done = (x, refl, done)

-- The same for a goal, with the first result as a variable.
pub >>=-elim {ℓ κ ι} :
    {X : Type ℓ} {Y : Type κ} {P : Type ι} (call : Outcome X) (next : X → Outcome Y) {y : Y}
    → call >>= next ≡ ok y
    → ((x : X) → call ≡ ok x → next x ≡ ok y → P)
    → P
>>=-elim call next done f = let (x, e, h) = >>=-eq-ok call next done in f x e h

-- The call gives a value or an error.
abbrev pub Returns {ℓ} : {X : Type ℓ} → Outcome X → Type ℓ
Returns call = (call ≢ panic) × (call ≢ no_fuel)

pub ok-Returns {ℓ} : {X : Type ℓ} (x : X) → Returns (ok x)
ok-Returns x = (λ e. ground (arith, e), λ e. ground (arith, e))

pub err-Returns {ℓ} : {X : Type ℓ} (why : Error) → Returns {X = X} (err why)
err-Returns why = (λ e. ground (arith, e), λ e. ground (arith, e))

pub >>=-Returns {ℓ κ} :
    {X : Type ℓ} {Y : Type κ} (call : Outcome X) (next : X → Outcome Y)
    → Returns call
    → ((x : X) → call ≡ ok x → Returns (next x))
    → Returns (call >>= next)
>>=-Returns panic next (p, n) h = absurd (p refl)
>>=-Returns no_fuel next (p, n) h = absurd (n refl)
>>=-Returns (err why) next r h = err-Returns why
>>=-Returns (ok x) next r h = h x refl
