-- ===== src/Prelude/Results.antt =====
-- Outcomes of code that may throw, and state passed through such code.
use mathlib.Core.Bool.{Bool, true, false}
use mathlib.Core.Path.{◌≡◌, refl}
use mathlib.Core.Logic.{◌⊎◌, inl, inr}
use Prim.Native.Nat.{ℕ}
use Prim.Native.String.{String}

-- An error of the services: the HTTP status that the route answers with, and the message.
pub record Failure : Type 0 where
  pub status_code : ℕ
  pub message : String

pub data Result {κ} (Value : Type κ) : Type κ where
  err : Failure → Result Value
  ok : Value → Result Value

abbrev pub fail {κ} : {Value : Type κ} → ℕ → String → Result Value
fail status_code message = err (record { status_code = status_code; message = message })

-- What follows an `await` or a call: it runs unless an error was thrown before.
infixl 5 ◌>>=◌
abbrev pub ◌>>=◌ {κ ν} :
    {Value : Type κ} {Next : Type ν} → Result Value → (Value → Result Next) → Result Next
err thrown >>= next = err thrown
ok value >>= next = next value

infixl 5 ◌>>◌
abbrev pub ◌>>◌ {ν} : {Next : Type ν} → Result (Unit {0}) → Result Next → Result Next
check >> next = check >>= (λ passed. next)

-- `if (!test) throw …`
abbrev pub require : Bool → ℕ → String → Result (Unit {0})
require false status_code message = fail status_code message
require true status_code message = ok tt

pub Result-cases {κ} :
    {Value : Type κ} (r : Result Value)
    → ((value : Value) × (r ≡ ok value)) ⊎ ((thrown : Failure) × (r ≡ err thrown))
Result-cases (err thrown) = inr (thrown, refl)
Result-cases (ok value) = inl (value, refl)

-- The parts of a chain that succeeds.
pub >>=-eq-ok {κ ν} :
    {Value : Type κ} {Next : Type ν} (first : Result Value) (next : Value → Result Next)
    {result : Next}
    → (first >>= next) ≡ ok result
    → (value : Value) × (first ≡ ok value) × (next value ≡ ok result)
>>=-eq-ok (err thrown) next e = cc
>>=-eq-ok (ok value) next e = (value, refl, e)

-- The value of an outcome, or a default.
abbrev pub value_in : {A : Type 0} → A → Result A → A
value_in default (err x) = default
value_in default (ok a) = a
