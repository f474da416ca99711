-- ===== src/Base/Fallible.antt =====
-- A Go function's `(value, error)`: a value or an error.
use Prim.Native.String.{String}
use mathlib.Core.Path.{◌≡◌, refl}
use mathlib.Core.Logic.{◌⊎◌, inl, inr}
use mathlib.Core.Bool.{Bool, true, false}
use mathlib.Core.Option.{Option, none, some}

-- `no_rows` is sql.ErrNoRows, `constraint` a violated key of the schema, `panic` a fault of the
-- Go runtime, and `failure` an error that the code makes, with the constant part of its message.
pub data Error : Type 0 where
  no_rows : Error
  constraint : Error
  panic : Error
  failure : String → Error

pub data Result {ℓ} (Value : Type ℓ) : Type ℓ where
  err : Error → Result Value
  ok : Value → Result Value

-- `if bad { return errors.New(message) }`
abbrev pub refuse : Bool → String → Result (Unit {0})
refuse true message = err (failure message)
refuse false message = ok tt

-- The same with another error.
abbrev pub unless : Bool → Error → Result (Unit {0})
unless true e = ok tt
unless false e = err e

abbrev pub or_error {ℓ} : {A : Type ℓ} → Option A → Error → Result A
or_error none e = err e
or_error (some a) e = ok a

module _ {ℓ κ} {Value : Type ℓ} {Next : Type κ} where
  infixl 5 ◌>>=◌
  -- A call after one that succeeded.
  abbrev pub ◌>>=◌ : Result Value → (Value → Result Next) → Result Next
  err fault >>= call = err fault
  ok value >>= call = call value

  -- What both calls returned, when the second one succeeded.
  pub >>=-eq-ok :
      (first : Result Value) (call : Value → Result Next) {last : Next}
      → (first >>= call) ≡ ok last
      → (value : Value) × (first ≡ ok value) × (call value ≡ ok last)
  >>=-eq-ok (err fault) call h = cc
  >>=-eq-ok (ok value) call h = (value, refl, h)

-- A check, then a call.
infixl 5 ◌>>◌
abbrev pub ◌>>◌ {ℓ} : {Next : Type ℓ} → Result (Unit {0}) → Result Next → Result Next
check >> call = check >>= λ _. call

pub Result-cases {ℓ} :
    {A : Type ℓ} (r : Result A) → ((e : Error) × (r ≡ err e)) ⊎ ((a : A) × (r ≡ ok a))
Result-cases (err e) = inl (e, refl)
Result-cases (ok a) = inr (a, refl)

pub refuse-ok : (b : Bool) (s : String) {u : Unit {0}} → refuse b s ≡ ok u → b ≡ false
refuse-ok true s h = cc
refuse-ok false s h = refl

pub unless-ok : (b : Bool) (e : Error) {u : Unit {0}} → unless b e ≡ ok u → b ≡ true
unless-ok true e h = refl
unless-ok false e h = cc

pub or_error-ok {ℓ} :
    {A : Type ℓ} (o : Option A) (e : Error) {a : A} → or_error o e ≡ ok a → o ≡ some a
or_error-ok none e h = cc
or_error-ok (some a) e h = cc
