-- ===== src/Prelude/Result.antt =====
-- Go's pair of a value and an error: a run gives one or the other.
use mathlib.Core.Path.{◌≡◌, refl}
use mathlib.Core.Logic.{◌⊎◌, inl, inr}
use mathlib.Core.Bool.{Bool, true, false}
use go_xpra.Prelude.Tests.{if◌then◌else◌}

pub data Result {ℓ κ} (E : Type κ) (A : Type ℓ) : Type (ℓ ⊔ κ) where
  ok : A → Result E A
  err : E → Result E A

infixl 5 ◌>>=◌
-- What follows a call runs unless the call failed: Go's `if err != nil { return err }`.
abbrev pub ◌>>=◌ {ℓ κ ι} :
    {E : Type ι} {A : Type ℓ} {B : Type κ} → Result E A → (A → Result E B) → Result E B
err failure >>= next = err failure
ok given >>= next = next given

-- Inversion of a successful step.
pub >>=-eq-ok {ℓ κ ι} :
    {E : Type ι} {A : Type ℓ} {B : Type κ} (step : Result E A) (next : A → Result E B) {out : B}
    → (step >>= next) ≡ ok out
    → (given : A) × (step ≡ ok given) × (next given ≡ ok out)
>>=-eq-ok (err failure) next e = cc
>>=-eq-ok (ok given) next e = (given, refl, e)

-- A guard that lets a step succeed.
pub if-ok {ℓ κ} :
    {E : Type κ} {A : Type ℓ} (guard : Bool) (failure : E) (step : Result E A) {out : A}
    → ((if guard then err failure else step) ≡ ok out)
    → (guard ≡ false) × (step ≡ ok out)
if-ok true failure step e = cc
if-ok false failure step e = (refl, e)

pub Result-cases {ℓ κ} :
    {E : Type κ} {A : Type ℓ} (r : Result E A) → ((e : E) × (r ≡ err e)) ⊎ ((a : A) × (r ≡ ok a))
Result-cases (err e) = inl (e, refl)
Result-cases (ok a) = inr (a, refl)
